-- ===== src/Store/Invariant/Attempts.antt =====
-- The charge-attempt methods keep the invariant.
use subscription_bridge.Prelude.{
  Bytes, true, false, some, ◌≡◌, refl, ◌∙◌, sym, arith, ℤ, ap, any, bytes_eq, int_eq, nat_eq,
  bytes_eqb_iff, int_eqb_iff, Option-cases, Bool-cases, inl, inr,
}
use subscription_bridge.Protocol.Clock.{Time, Duration}
use subscription_bridge.Store.Models.{ChargeAttempt}
use subscription_bridge.Store.Table
use subscription_bridge.Store.Table.{get-update_all, update_all}
use subscription_bridge.Store.Table.Index.{IsIndexed-put, IsUnique-put_same, IsUnique-put_new}
use subscription_bridge.Store.World.{Memory, World}
use subscription_bridge.Store.Cases.{After}
use subscription_bridge.Store.Invariant.{IsWf, attempt_key, reference_of, charge_key, charge_number}
use subscription_bridge.Store.Attempts.{
  put_attempt, insert_attempt, clashes, claim_attempt_with_action, update_attempt,
}

-- A row that keeps its identifier and what is unique to it.
put_attempt-IsWf :
    (m : Memory) (id : Bytes) (e e' : ChargeAttempt)
    → Table.get m.attempts id ≡ some e
    → attempt_key e' ≡ attempt_key e
    → reference_of e' ≡ reference_of e
    → charge_key e' ≡ charge_key e
    → charge_number e' ≡ charge_number e
    → IsWf m
    → IsWf (put_attempt id e' m)
unfolding put_attempt
put_attempt-IsWf m id e e' old same_id same_one_per_reference same_one_per_key same_one_per_number
      v =
    record {
      checkouts = v.checkouts;
      subs = v.subs;
      outbound = v.outbound;
      actions = v.actions;
      attempts = record {
        indexed =
            IsIndexed-put attempt_key m.attempts id e'
              (rw same_id (v.attempts.indexed.keyed id e old)) v.attempts.indexed;
        one_per_reference =
            IsUnique-put_same reference_of m.attempts id e' e old same_one_per_reference
              v.attempts.one_per_reference;
        one_per_key =
            IsUnique-put_same charge_key m.attempts id e' e old same_one_per_key
              v.attempts.one_per_key;
        one_per_number =
            IsUnique-put_same charge_number m.attempts id e' e old same_one_per_number
              v.attempts.one_per_number;
      };
    }

clashes-one_per_reference :
    (a w : ChargeAttempt) → reference_of w ≡ reference_of a → clashes a w ≡ true
clashes-one_per_reference a w same =
    ground (arith, bytes_eqb_iff w.attempt_reference a.attempt_reference)

clashes-one_per_key : (a w : ChargeAttempt) → charge_key w ≡ charge_key a → clashes a w ≡ true
clashes-one_per_key a w same = ground (arith, bytes_eqb_iff w.idempotency_key a.idempotency_key)

clashes-one_per_number :
    (a w : ChargeAttempt) → charge_number w ≡ charge_number a → clashes a w ≡ true
clashes-one_per_number a w same = ground (
  arith,
  bytes_eqb_iff w.subscription_ref a.subscription_ref,
  int_eqb_iff w.attempt_number a.attempt_number,
  ap (λ (x : Bytes × Time × ℤ). x.0) same,
  ap (λ (x : Bytes × Time × ℤ). x.1) same,
  ap (λ (x : Bytes × Time × ℤ). x.2) same,
)

-- A new row, with which no row of the table clashes.
put_attempt_new-IsWf :
    (m : Memory) (a e : ChargeAttempt)
    → attempt_key e ≡ attempt_key a
    → reference_of e ≡ reference_of a
    → charge_key e ≡ charge_key a
    → charge_number e ≡ charge_number a
    → any (clashes a) (Table.values m.attempts) ≡ false
    → IsWf m
    → IsWf (put_attempt (attempt_key a) e m)
unfolding put_attempt
put_attempt_new-IsWf m a e same_id same_one_per_reference same_one_per_key same_one_per_number free
      v =
    record {
      checkouts = v.checkouts;
      subs = v.subs;
      outbound = v.outbound;
      actions = v.actions;
      attempts = record {
        indexed = IsIndexed-put attempt_key m.attempts (attempt_key a) e same_id v.attempts.indexed;
        one_per_reference =
            IsUnique-put_new reference_of (clashes a) m.attempts (attempt_key a) e
              (λ w same. clashes-one_per_reference a w (same ∙ same_one_per_reference)) free
              v.attempts.one_per_reference;
        one_per_key =
            IsUnique-put_new charge_key (clashes a) m.attempts (attempt_key a) e
              (λ w same. clashes-one_per_key a w (same ∙ same_one_per_key)) free
              v.attempts.one_per_key;
        one_per_number =
            IsUnique-put_new charge_number (clashes a) m.attempts (attempt_key a) e
              (λ w same. clashes-one_per_number a w (same ∙ same_one_per_number)) free
              v.attempts.one_per_number;
      };
    }

pub insert_attempt-IsWf :
    (e : ChargeAttempt) (w : World) → IsWf w.mem → After IsWf (insert_attempt e) w
unfolding insert_attempt
insert_attempt-IsWf e w v = elim (Option-cases (Table.get w.mem.attempts (attempt_key e))) [
  | inr (x, there) ↦ rw (there, insert_attempt) v
  | inl absent ↦ elim (Bool-cases (any (clashes e) (Table.values w.mem.attempts))) [
    | inl taken ↦ rw (absent, taken, insert_attempt) v
    | inr free ↦
        rw (absent, free, insert_attempt)
          (put_attempt_new-IsWf w.mem e _ refl refl refl refl free v)
  ]
]

pub claim_attempt_with_action-IsWf :
    (action_id attempt_id token : Bytes) (fence : ℤ) (t : Time) (lease : Duration) (deadline : Time)
    (w : World)
    → IsWf w.mem
    → After IsWf (claim_attempt_with_action action_id attempt_id token fence t lease deadline) w
unfolding claim_attempt_with_action
claim_attempt_with_action-IsWf action_id attempt_id token fence t lease deadline w v =
    grind (arith, put_attempt-IsWf)

pub update_attempt-IsWf :
    (e : ChargeAttempt) (w : World)
    → ((old : ChargeAttempt)
        → Table.get w.mem.attempts (attempt_key e) ≡ some old
        → reference_of e ≡ reference_of old)
    → ((old : ChargeAttempt)
        → Table.get w.mem.attempts (attempt_key e) ≡ some old
        → charge_key e ≡ charge_key old)
    → ((old : ChargeAttempt)
        → Table.get w.mem.attempts (attempt_key e) ≡ some old
        → charge_number e ≡ charge_number old)
    → IsWf w.mem
    → After IsWf (update_attempt e) w
unfolding update_attempt
update_attempt-IsWf e w keeps_one_per_reference keeps_one_per_key keeps_one_per_number v =
    elim (Option-cases (Table.get w.mem.attempts (attempt_key e))) [
      | inl absent ↦ rw (absent, update_attempt) v
      | inr (old, row) ↦
          rw (row, update_attempt)
            (put_attempt-IsWf w.mem (attempt_key e) old _ row
              (sym (v.attempts.indexed.keyed _ old row)) (keeps_one_per_reference old row)
              (keeps_one_per_key old row) (keeps_one_per_number old row) v)
    ]
