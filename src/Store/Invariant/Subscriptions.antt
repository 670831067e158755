-- ===== src/Store/Invariant/Subscriptions.antt =====
-- The subscription methods keep the invariant.
use subscription_bridge.Prelude.{
  Bytes, true, false, some, ◌≡◌, refl, ◌∙◌, sym, any, bytes_eq, int_eq, nat_eq, bytes_eqb_iff,
  Option-cases, Bool-cases, inl, inr,
}
use subscription_bridge.Store.Models.{Subscription}
use subscription_bridge.Store.Table
use subscription_bridge.Store.Table.{get-update_all, update_all}
use subscription_bridge.Store.Table.Index.{IsIndexed-put, IsUnique-put_same, IsUnique-put_new}
use subscription_bridge.Store.World.{Memory, World, now}
use subscription_bridge.Store.Cases.{After}
use subscription_bridge.Store.Invariant.{IsWf, sub_key, checkout_of}
use subscription_bridge.Store.Subscriptions.{
  put_subscription, insert_subscription, same_checkout, update_subscription,
}

-- A row that keeps its identifier and what is unique to it.
put_subscription-IsWf :
    (m : Memory) (id : Bytes) (e e' : Subscription)
    → Table.get m.subs id ≡ some e
    → sub_key e' ≡ sub_key e
    → checkout_of e' ≡ checkout_of e
    → IsWf m
    → IsWf (put_subscription id e' m)
unfolding put_subscription
put_subscription-IsWf m id e e' old same_id same_one_per_checkout v = record {
  checkouts = v.checkouts;
  subs = record {
    indexed =
        IsIndexed-put sub_key m.subs id e' (rw same_id (v.subs.indexed.keyed id e old))
          v.subs.indexed;
    one_per_checkout =
        IsUnique-put_same checkout_of m.subs id e' e old same_one_per_checkout
          v.subs.one_per_checkout;
  };
  outbound = v.outbound;
  actions = v.actions;
  attempts = v.attempts;
}

same_checkout-one_per_checkout :
    (a w : Subscription) → checkout_of w ≡ checkout_of a → same_checkout a w ≡ true
same_checkout-one_per_checkout a w same = (bytes_eqb_iff w.checkout_id a.checkout_id).1 same

-- A new row, with which no row of the table clashes.
put_subscription_new-IsWf :
    (m : Memory) (a e : Subscription)
    → sub_key e ≡ sub_key a
    → checkout_of e ≡ checkout_of a
    → any (same_checkout a) (Table.values m.subs) ≡ false
    → IsWf m
    → IsWf (put_subscription (sub_key a) e m)
unfolding put_subscription
put_subscription_new-IsWf m a e same_id same_one_per_checkout free v = record {
  checkouts = v.checkouts;
  subs = record {
    indexed = IsIndexed-put sub_key m.subs (sub_key a) e same_id v.subs.indexed;
    one_per_checkout =
        IsUnique-put_new checkout_of (same_checkout a) m.subs (sub_key a) e
          (λ w same. same_checkout-one_per_checkout a w (same ∙ same_one_per_checkout)) free
          v.subs.one_per_checkout;
  };
  outbound = v.outbound;
  actions = v.actions;
  attempts = v.attempts;
}

pub insert_subscription-IsWf :
    (e : Subscription) (w : World) → IsWf w.mem → After IsWf (insert_subscription e) w
unfolding insert_subscription now
insert_subscription-IsWf e w v = elim (Option-cases (Table.get w.mem.subs (sub_key e))) [
  | inr (x, there) ↦ rw (there, insert_subscription) v
  | inl absent ↦ elim (Bool-cases (any (same_checkout e) (Table.values w.mem.subs))) [
    | inl taken ↦ rw (absent, taken, insert_subscription) v
    | inr free ↦
        rw (absent, free, insert_subscription)
          (put_subscription_new-IsWf w.mem e _ refl refl free v)
  ]
]

pub update_subscription-IsWf :
    (e : Subscription) (w : World)
    → ((old : Subscription)
        → Table.get w.mem.subs (sub_key e) ≡ some old
        → checkout_of e ≡ checkout_of old)
    → IsWf w.mem
    → After IsWf (update_subscription e) w
unfolding update_subscription now
update_subscription-IsWf e w keeps_one_per_checkout v =
    elim (Option-cases (Table.get w.mem.subs (sub_key e))) [
      | inl absent ↦ rw (absent, update_subscription) v
      | inr (old, row) ↦
          rw (row, update_subscription)
            (put_subscription-IsWf w.mem (sub_key e) old _ row
              (sym (v.subs.indexed.keyed _ old row)) (keeps_one_per_checkout old row) v)
    ]
