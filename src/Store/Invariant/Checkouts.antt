-- ===== src/Store/Invariant/Checkouts.antt =====
-- The checkout methods keep the invariant.
use subscription_bridge.Prelude.{
  Bytes, true, false, some, ◌≡◌, refl, ◌∙◌, sym, arith, any, bytes_eq, int_eq, nat_eq,
  bytes_eqb_iff, Option-cases, Bool-cases, inl, inr,
}
use subscription_bridge.Protocol.Clock.{Time}
use subscription_bridge.Store.Models.{Checkout}
use subscription_bridge.Store.Table
use subscription_bridge.Store.Table.{get-update_all, update_all}
use subscription_bridge.Store.Table.Index.{
  IsIndexed-put, IsUnique-put_same, IsUnique-put_new, IsIndexed-update_all, IsUnique-update_all,
}
use subscription_bridge.Store.World.{Memory, World, now}
use subscription_bridge.Store.Cases.{After}
use subscription_bridge.Store.Invariant.{IsWf, checkout_key, idempotency_of}
use subscription_bridge.Store.Checkouts.{
  put_checkout, insert_checkout, same_idempotency, update_checkout, expire_due_checkouts,
  expired_at,
}

-- A row that keeps its identifier and what is unique to it.
put_checkout-IsWf :
    (m : Memory) (id : Bytes) (e e' : Checkout)
    → Table.get m.checkouts id ≡ some e
    → checkout_key e' ≡ checkout_key e
    → idempotency_of e' ≡ idempotency_of e
    → IsWf m
    → IsWf (put_checkout id e' m)
unfolding put_checkout
put_checkout-IsWf m id e e' old same_id same_one_per_key v = record {
  checkouts = record {
    indexed =
        IsIndexed-put checkout_key m.checkouts id e'
          (rw same_id (v.checkouts.indexed.keyed id e old)) v.checkouts.indexed;
    one_per_key =
        IsUnique-put_same idempotency_of m.checkouts id e' e old same_one_per_key
          v.checkouts.one_per_key;
  };
  subs = v.subs;
  outbound = v.outbound;
  actions = v.actions;
  attempts = v.attempts;
}

same_idempotency-one_per_key :
    (a w : Checkout) → idempotency_of w ≡ idempotency_of a → same_idempotency a w ≡ true
same_idempotency-one_per_key a w same =
    (bytes_eqb_iff w.provider_idempotency_key a.provider_idempotency_key).1 same

-- A new row, with which no row of the table clashes.
put_checkout_new-IsWf :
    (m : Memory) (a e : Checkout)
    → checkout_key e ≡ checkout_key a
    → idempotency_of e ≡ idempotency_of a
    → any (same_idempotency a) (Table.values m.checkouts) ≡ false
    → IsWf m
    → IsWf (put_checkout (checkout_key a) e m)
unfolding put_checkout
put_checkout_new-IsWf m a e same_id same_one_per_key free v = record {
  checkouts = record {
    indexed = IsIndexed-put checkout_key m.checkouts (checkout_key a) e same_id v.checkouts.indexed;
    one_per_key =
        IsUnique-put_new idempotency_of (same_idempotency a) m.checkouts (checkout_key a) e
          (λ w same. same_idempotency-one_per_key a w (same ∙ same_one_per_key)) free
          v.checkouts.one_per_key;
  };
  subs = v.subs;
  outbound = v.outbound;
  actions = v.actions;
  attempts = v.attempts;
}

pub insert_checkout-IsWf :
    (e : Checkout) (w : World) → IsWf w.mem → After IsWf (insert_checkout e) w
unfolding insert_checkout now
insert_checkout-IsWf e w v = elim (Option-cases (Table.get w.mem.checkouts (checkout_key e))) [
  | inr (x, there) ↦ rw (there, insert_checkout) v
  | inl absent ↦ elim (Bool-cases (any (same_idempotency e) (Table.values w.mem.checkouts))) [
    | inl taken ↦ rw (absent, taken, insert_checkout) v
    | inr free ↦
        rw (absent, free, insert_checkout) (put_checkout_new-IsWf w.mem e _ refl refl free v)
  ]
]

pub update_checkout-IsWf :
    (e : Checkout) (w : World)
    → ((old : Checkout)
        → Table.get w.mem.checkouts (checkout_key e) ≡ some old
        → idempotency_of e ≡ idempotency_of old)
    → IsWf w.mem
    → After IsWf (update_checkout e) w
unfolding update_checkout now
update_checkout-IsWf e w keeps_one_per_key v =
    elim (Option-cases (Table.get w.mem.checkouts (checkout_key e))) [
      | inl absent ↦ rw (absent, update_checkout) v
      | inr (old, row) ↦
          rw (row, update_checkout)
            (put_checkout-IsWf w.mem (checkout_key e) old _ row
              (sym (v.checkouts.indexed.keyed _ old row)) (keeps_one_per_key old row) v)
    ]

pub expire_due_checkouts-IsWf :
    (t : Time) (w : World) → IsWf w.mem → After IsWf (expire_due_checkouts t) w
unfolding expire_due_checkouts
expire_due_checkouts-IsWf t w v = record {
  checkouts = record {
    indexed =
        IsIndexed-update_all checkout_key (expired_at t) w.mem.checkouts (λ a. ground arith)
          v.checkouts.indexed;
    one_per_key =
        IsUnique-update_all idempotency_of (expired_at t) w.mem.checkouts (λ a. ground arith)
          v.checkouts.one_per_key;
  };
  subs = v.subs;
  outbound = v.outbound;
  actions = v.actions;
  attempts = v.attempts;
}
