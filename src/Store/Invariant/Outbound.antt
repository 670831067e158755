-- ===== src/Store/Invariant/Outbound.antt =====
-- The outbound-callback methods keep the invariant.
use subscription_bridge.Prelude.{
  Bytes, true, false, some, ◌≡◌, refl, ◌∙◌, arith, ℤ, ap, any, bytes_eq, int_eq, nat_eq,
  bytes_eqb_iff, int_eqb_iff, Option-cases, Bool-cases, inl, inr,
}
use subscription_bridge.Protocol.Clock.{Time, Duration}
use subscription_bridge.Store.Models.{OutboundEvent}
use subscription_bridge.Store.Table
use subscription_bridge.Store.Table.{get-update_all, update_all}
use subscription_bridge.Store.Table.Index.{IsIndexed-put, IsUnique-put_same, IsUnique-put_new}
use subscription_bridge.Store.World.{Memory, World, now, must_token}
use subscription_bridge.Store.Cases.{After}
use subscription_bridge.Store.Invariant.{IsWf, event_key, version_of}
use subscription_bridge.Store.Outbound.{
  put_outbound, insert_outbound, same_version, complete_outbound, retry_outbound,
  dead_letter_outbound, abandon_outbound, requeue_outbound, claim_due_outbound, update_owned,
}
use subscription_bridge.Store.Outbound.Claim.{claim_due_outbound_cases}
use subscription_bridge.Store.Audits.{insert_audit}

-- A row that keeps its identifier and what is unique to it.
put_outbound-IsWf :
    (m : Memory) (id : Bytes) (e e' : OutboundEvent)
    → Table.get m.outbound id ≡ some e
    → event_key e' ≡ event_key e
    → version_of e' ≡ version_of e
    → IsWf m
    → IsWf (put_outbound id e' m)
unfolding put_outbound
put_outbound-IsWf m id e e' old same_id same_one_per_version v = record {
  checkouts = v.checkouts;
  subs = v.subs;
  outbound = record {
    indexed =
        IsIndexed-put event_key m.outbound id e' (rw same_id (v.outbound.indexed.keyed id e old))
          v.outbound.indexed;
    one_per_version =
        IsUnique-put_same version_of m.outbound id e' e old same_one_per_version
          v.outbound.one_per_version;
  };
  actions = v.actions;
  attempts = v.attempts;
}

same_version-one_per_version :
    (a w : OutboundEvent) → version_of w ≡ version_of a → same_version a w ≡ true
same_version-one_per_version a w same = ground (
  arith,
  bytes_eqb_iff w.subscription_ref a.subscription_ref,
  int_eqb_iff w.state_version a.state_version,
  ap (λ (x : Bytes × ℤ). x.0) same,
  ap (λ (x : Bytes × ℤ). x.1) same,
)

-- A new row, with which no row of the table clashes.
put_outbound_new-IsWf :
    (m : Memory) (a e : OutboundEvent)
    → event_key e ≡ event_key a
    → version_of e ≡ version_of a
    → any (same_version a) (Table.values m.outbound) ≡ false
    → IsWf m
    → IsWf (put_outbound (event_key a) e m)
unfolding put_outbound
put_outbound_new-IsWf m a e same_id same_one_per_version free v = record {
  checkouts = v.checkouts;
  subs = v.subs;
  outbound = record {
    indexed = IsIndexed-put event_key m.outbound (event_key a) e same_id v.outbound.indexed;
    one_per_version =
        IsUnique-put_new version_of (same_version a) m.outbound (event_key a) e
          (λ w same. same_version-one_per_version a w (same ∙ same_one_per_version)) free
          v.outbound.one_per_version;
  };
  actions = v.actions;
  attempts = v.attempts;
}

pub insert_outbound-IsWf :
    (e : OutboundEvent) (w : World) → IsWf w.mem → After IsWf (insert_outbound e) w
unfolding insert_outbound now
insert_outbound-IsWf e w v = elim (Option-cases (Table.get w.mem.outbound (event_key e))) [
  | inr (x, there) ↦ rw (there, insert_outbound) v
  | inl absent ↦ elim (Bool-cases (any (same_version e) (Table.values w.mem.outbound))) [
    | inl taken ↦ rw (absent, taken, insert_outbound) v
    | inr free ↦
        rw (absent, free, insert_outbound) (put_outbound_new-IsWf w.mem e _ refl refl free v)
  ]
]

pub complete_outbound-IsWf :
    (id token : Bytes) (fence : ℤ) (t : Time) (w : World)
    → IsWf w.mem
    → After IsWf (complete_outbound id token fence t) w
unfolding complete_outbound update_owned
complete_outbound-IsWf id token fence t w v = grind (arith, put_outbound-IsWf)

pub retry_outbound-IsWf :
    (id token : Bytes) (fence : ℤ) (t : Time) (class : Bytes) (w : World)
    → IsWf w.mem
    → After IsWf (retry_outbound id token fence t class) w
unfolding retry_outbound update_owned
retry_outbound-IsWf id token fence t class w v = grind (arith, put_outbound-IsWf)

pub dead_letter_outbound-IsWf :
    (id token : Bytes) (fence : ℤ) (t : Time) (class : Bytes) (w : World)
    → IsWf w.mem
    → After IsWf (dead_letter_outbound id token fence t class) w
unfolding dead_letter_outbound update_owned
dead_letter_outbound-IsWf id token fence t class w v = grind (arith, put_outbound-IsWf)

pub abandon_outbound-IsWf :
    (id reason actor : Bytes) (t : Time) (w : World)
    → IsWf w.mem
    → After IsWf (abandon_outbound id reason actor t) w
unfolding abandon_outbound insert_audit must_token
abandon_outbound-IsWf id reason actor t w v = grind (arith, put_outbound-IsWf)

pub requeue_outbound-IsWf :
    (id reason actor : Bytes) (t : Time) (w : World)
    → IsWf w.mem
    → After IsWf (requeue_outbound id reason actor t) w
unfolding requeue_outbound insert_audit must_token
requeue_outbound-IsWf id reason actor t w v = grind (arith, put_outbound-IsWf)

pub claim_due_outbound-IsWf :
    (t : Time) (lease : Duration) (w : World)
    → IsWf w.mem
    → After IsWf (claim_due_outbound t lease) w
claim_due_outbound-IsWf t lease w v = elim (claim_due_outbound_cases t lease w v.outbound.indexed) [
  | inl (_, e) ↦ rw e v
  | inr (inl (_, _, _, _, e)) ↦ rw e v
  | inr (inr (c, token, _, row, _, _, e)) ↦
      rw e (put_outbound-IsWf w.mem c.event_id c _ row refl refl v)
]
