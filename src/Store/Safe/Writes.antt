-- ===== src/Store/Safe/Writes.antt =====
-- The methods that write checkouts, subscriptions and attempts.
use subscription_bridge.Prelude.{
  Bytes, some, ◌≡◌, sym, ◌∙◌, ap, arith, ℤ, any, Option-cases, Bool-cases, inl, inr, bytes_eq,
  int_eq, nat_eq,
}
use subscription_bridge.Protocol.Clock.{Time, Duration}
use subscription_bridge.Store.Models.{Checkout, Subscription, ChargeAttempt}
use subscription_bridge.Store.Table
use subscription_bridge.Store.Table.{Table}
use subscription_bridge.Store.World.{Memory, World, now}
use subscription_bridge.Store.Checkouts.{
  insert_checkout, update_checkout, expire_due_checkouts, put_checkout, same_idempotency,
  expired_at,
}
use subscription_bridge.Store.Subscriptions.{
  insert_subscription, update_subscription, put_subscription, same_checkout,
}
use subscription_bridge.Store.Attempts.{
  insert_attempt, update_attempt, claim_attempt_with_action, put_attempt, clashes,
}
use subscription_bridge.Store.Actions.{owns_action}
use subscription_bridge.Store.Invariant.{
  IsWf, checkout_key, sub_key, attempt_key, idempotency_of, checkout_of, reference_of, charge_key,
  charge_number,
}
use subscription_bridge.Store.Invariant.Checkouts
use subscription_bridge.Store.Invariant.Subscriptions
use subscription_bridge.Store.Invariant.Attempts
use subscription_bridge.Store.Safe.Growth.{
  Persists, Persists-put_new, Persists-put_same, Persists-update_all, charge_of, Charge, Grows,
  Grows-refl,
}
use subscription_bridge.Store.Safe.{Leads, Any, kept-Leads}
use subscription_bridge.Store.Safe.Rows.{HasCheckout, HasSub, HasAttempt}

-- Two reads of a row give one row.
one_row {ℓ} : {V : Type ℓ} (x y : V) → some x ≡ some y → x ≡ y
one_row x y e = ground arith

checkouts-Grows :
    (m : Memory) (t : Table Checkout)
    → Persists idempotency_of m.checkouts t
    → Grows m (record m { checkouts = t })
checkouts-Grows m t p = record {
  checkouts = p;
  subs = (Grows-refl m).subs;
  attempts = (Grows-refl m).attempts;
}

subs-Grows :
    (m : Memory) (t : Table Subscription)
    → Persists checkout_of m.subs t
    → Grows m (record m { subs = t })
subs-Grows m t p = record {
  checkouts = (Grows-refl m).checkouts;
  subs = p;
  attempts = (Grows-refl m).attempts;
}

attempts-Grows :
    (m : Memory) (t : Table ChargeAttempt)
    → Persists charge_of m.attempts t
    → Grows m (record m { attempts = t })
attempts-Grows m t p = record {
  checkouts = (Grows-refl m).checkouts;
  subs = (Grows-refl m).subs;
  attempts = p;
}

insert_subscription-Grows :
    (e : Subscription) (w : World) → Grows w.mem (insert_subscription e w).1.mem
unfolding insert_subscription now put_subscription
insert_subscription-Grows e w = elim (Option-cases (Table.get w.mem.subs (sub_key e))) [
  | inr (x, there) ↦ rw (there, insert_subscription) (Grows-refl w.mem)
  | inl absent ↦ elim (Bool-cases (any (same_checkout e) (Table.values w.mem.subs))) [
    | inl taken ↦ rw (absent, taken, insert_subscription) (Grows-refl w.mem)
    | inr free ↦
        rw (absent, free, insert_subscription)
          (subs-Grows w.mem _ (Persists-put_new checkout_of w.mem.subs (sub_key e) _ absent))
  ]
]

pub insert_subscription-Leads :
    (e : Subscription) (w : World) → IsWf w.mem → Leads Any (insert_subscription e) w
insert_subscription-Leads e w v =
    kept-Leads (insert_subscription e) w (Subscriptions.insert_subscription-IsWf e w v)
      (insert_subscription-Grows e w)

update_subscription-Grows :
    (e : Subscription) (w : World) → HasSub e w.mem → Grows w.mem (update_subscription e w).1.mem
unfolding update_subscription now put_subscription
update_subscription-Grows e w h =
    let (old, there, same) = h.row in
    rw (there, update_subscription)
      (subs-Grows w.mem _ (Persists-put_same checkout_of w.mem.subs (sub_key e) _ old there same))

pub update_subscription-Leads :
    (e : Subscription) (w : World)
    → IsWf w.mem
    → HasSub e w.mem
    → Leads Any (update_subscription e) w
update_subscription-Leads e w v h =
    let (old, row, same) = h.row in
    kept-Leads (update_subscription e) w
      (Subscriptions.update_subscription-IsWf e w
        (λ x there. same ∙ ap checkout_of (one_row old x (sym row ∙ there))) v)
      (update_subscription-Grows e w h)

insert_checkout-Grows : (e : Checkout) (w : World) → Grows w.mem (insert_checkout e w).1.mem
unfolding insert_checkout now put_checkout
insert_checkout-Grows e w = elim (Option-cases (Table.get w.mem.checkouts (checkout_key e))) [
  | inr (x, there) ↦ rw (there, insert_checkout) (Grows-refl w.mem)
  | inl absent ↦ elim (Bool-cases (any (same_idempotency e) (Table.values w.mem.checkouts))) [
    | inl taken ↦ rw (absent, taken, insert_checkout) (Grows-refl w.mem)
    | inr free ↦
        rw (absent, free, insert_checkout)
          (checkouts-Grows w.mem _
            (Persists-put_new idempotency_of w.mem.checkouts (checkout_key e) _ absent))
  ]
]

pub insert_checkout-Leads :
    (e : Checkout) (w : World) → IsWf w.mem → Leads Any (insert_checkout e) w
insert_checkout-Leads e w v =
    kept-Leads (insert_checkout e) w (Checkouts.insert_checkout-IsWf e w v)
      (insert_checkout-Grows e w)

update_checkout-Grows :
    (e : Checkout) (w : World) → HasCheckout e w.mem → Grows w.mem (update_checkout e w).1.mem
unfolding update_checkout now put_checkout
update_checkout-Grows e w h =
    let (old, there, same) = h.row in
    rw (there, update_checkout)
      (checkouts-Grows w.mem _
        (Persists-put_same idempotency_of w.mem.checkouts (checkout_key e) _ old there same))

pub update_checkout-Leads :
    (e : Checkout) (w : World) → IsWf w.mem → HasCheckout e w.mem → Leads Any (update_checkout e) w
update_checkout-Leads e w v h =
    let (old, row, same) = h.row in
    kept-Leads (update_checkout e) w
      (Checkouts.update_checkout-IsWf e w
        (λ x there. same ∙ ap idempotency_of (one_row old x (sym row ∙ there))) v)
      (update_checkout-Grows e w h)

expire_due_checkouts-Grows : (t : Time) (w : World) → Grows w.mem (expire_due_checkouts t w).1.mem
unfolding expire_due_checkouts
expire_due_checkouts-Grows t w =
    checkouts-Grows w.mem _
      (Persists-update_all idempotency_of (expired_at t) w.mem.checkouts (λ c. ground arith))

pub expire_due_checkouts-Leads :
    (t : Time) (w : World) → IsWf w.mem → Leads Any (expire_due_checkouts t) w
expire_due_checkouts-Leads t w v =
    kept-Leads (expire_due_checkouts t) w (Checkouts.expire_due_checkouts-IsWf t w v)
      (expire_due_checkouts-Grows t w)

insert_attempt-Grows : (e : ChargeAttempt) (w : World) → Grows w.mem (insert_attempt e w).1.mem
unfolding insert_attempt put_attempt
insert_attempt-Grows e w = elim (Option-cases (Table.get w.mem.attempts (attempt_key e))) [
  | inr (x, there) ↦ rw (there, insert_attempt) (Grows-refl w.mem)
  | inl absent ↦ elim (Bool-cases (any (clashes e) (Table.values w.mem.attempts))) [
    | inl taken ↦ rw (absent, taken, insert_attempt) (Grows-refl w.mem)
    | inr free ↦
        rw (absent, free, insert_attempt)
          (attempts-Grows w.mem _
            (Persists-put_new charge_of w.mem.attempts (attempt_key e) _ absent))
  ]
]

pub insert_attempt-Leads :
    (e : ChargeAttempt) (w : World) → IsWf w.mem → Leads Any (insert_attempt e) w
insert_attempt-Leads e w v =
    kept-Leads (insert_attempt e) w (Attempts.insert_attempt-IsWf e w v) (insert_attempt-Grows e w)

update_attempt-Grows :
    (e : ChargeAttempt) (w : World) → HasAttempt e w.mem → Grows w.mem (update_attempt e w).1.mem
unfolding update_attempt put_attempt
update_attempt-Grows e w h =
    let (old, there, same) = h.row in
    rw (there, update_attempt)
      (attempts-Grows w.mem _
        (Persists-put_same charge_of w.mem.attempts (attempt_key e) _ old there same))

pub update_attempt-Leads :
    (e : ChargeAttempt) (w : World)
    → IsWf w.mem
    → HasAttempt e w.mem
    → Leads Any (update_attempt e) w
update_attempt-Leads e w v h =
    let (old, row, same) = h.row in
    let keeps : (x : ChargeAttempt)
        → Table.get w.mem.attempts (attempt_key e) ≡ some x
        → charge_of e ≡ charge_of x =
      λ x there. same ∙ ap charge_of (one_row old x (sym row ∙ there)) in
    kept-Leads (update_attempt e) w
      (Attempts.update_attempt-IsWf e w (λ x there. ap (λ (p : Charge). p.0) (keeps x there))
        (λ x there. ap (λ (p : Charge). p.1) (keeps x there))
        (λ x there. ap (λ (p : Charge). p.2) (keeps x there)) v)
      (update_attempt-Grows e w h)

put_attempt-Grows :
    (m : Memory) (id : Bytes) (e e' : ChargeAttempt)
    → Table.get m.attempts id ≡ some e
    → reference_of e' ≡ reference_of e
    → charge_key e' ≡ charge_key e
    → charge_number e' ≡ charge_number e
    → Grows m (put_attempt id e' m)
unfolding put_attempt
put_attempt-Grows m id e e' old r k n =
    attempts-Grows m _ (Persists-put_same charge_of m.attempts id e' e old (ap3 r k n))
  where
    ap3 :
        reference_of e' ≡ reference_of e
        → charge_key e' ≡ charge_key e
        → charge_number e' ≡ charge_number e
        → charge_of e' ≡ charge_of e
    ap3 r k n = λ i. (r i, k i, n i)

claim_attempt_with_action-Grows :
    (i j c : Bytes) (n : ℤ) (t : Time) (d : Duration) (l : Time) (w : World)
    → Grows w.mem (claim_attempt_with_action i j c n t d l w).1.mem
unfolding claim_attempt_with_action
claim_attempt_with_action-Grows i j c n t d l w = elim (Option-cases (Table.get w.mem.actions i)) [
  | inl absent ↦ rw (absent, claim_attempt_with_action) (Grows-refl w.mem)
  | inr (a, there) ↦ elim (Bool-cases (owns_action a c n)) [
    | inr lost ↦ rw (there, lost, claim_attempt_with_action) (Grows-refl w.mem)
    | inl ours ↦ elim (Option-cases (Table.get w.mem.attempts j)) [
      | inl absent ↦ rw (there, ours, absent, claim_attempt_with_action) (Grows-refl w.mem)
      | inr (old, row) ↦
          rw (there, ours, row, claim_attempt_with_action)
            (put_attempt-Grows w.mem j old _ row (ground arith) (ground arith) (ground arith))
    ]
  ]
]

pub claim_attempt_with_action-Leads :
    (i j c : Bytes) (n : ℤ) (t : Time) (d : Duration) (l : Time) (w : World)
    → IsWf w.mem
    → Leads Any (claim_attempt_with_action i j c n t d l) w
claim_attempt_with_action-Leads i j c n t d l w v =
    kept-Leads (claim_attempt_with_action i j c n t d l) w
      (Attempts.claim_attempt_with_action-IsWf i j c n t d l w v)
      (claim_attempt_with_action-Grows i j c n t d l w)
