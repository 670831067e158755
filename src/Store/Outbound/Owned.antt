-- ===== src/Store/Outbound/Owned.antt =====
-- What the methods that act on one callback row do, case by case.
use subscription_bridge.Prelude.{
  Bytes, true, false, some, ◌≡◌, ◌⊎◌, inl, inr, ℤ, Option-cases, Bool-cases, ◌==◌, arith,
}
use subscription_bridge.Protocol.Errors.{Error, ok, err, of_store, not_found, not_owned}
use subscription_bridge.Protocol.Clock.{Time}
use subscription_bridge.Store.Models.{OutboundEvent, DeliveryState}
use subscription_bridge.Store.Models.Equality.{delivery_eq}
use subscription_bridge.Store.Table
use subscription_bridge.Store.Audits.{insert_audit}
use subscription_bridge.Store.World.{World, must_token}
use subscription_bridge.Store.Outbound.{
  put_outbound, update_owned, owns_outbound, abandon_outbound, requeue_outbound, abandoned,
  requeued, is_requeueable,
}

-- No such row, or a row that the caller does not own: nothing changes. Otherwise the row does.
pub update_owned_cases :
    (id token : Bytes) (fence : ℤ) (f : OutboundEvent → OutboundEvent) (w : World)
    → ((x : Error) × (update_owned id token fence f w ≡ (err x, w)))
      ⊎ ((e : OutboundEvent) × (Table.get w.mem.outbound id ≡ some e)
          × (owns_outbound e token fence ≡ true)
          × (update_owned id token fence f w
              ≡ (ok tt, record w { mem = put_outbound id (f e) w.mem })))
unfolding update_owned
update_owned_cases id token fence f w = elim (Option-cases (Table.get w.mem.outbound id)) [
  | inl absent ↦ inl (of_store not_found, rw (absent, update_owned))
  | inr (e, row) ↦ elim (Bool-cases (owns_outbound e token fence)) [
    | inl owned ↦ inr (e, row, owned, rw (row, owned, update_owned))
    | inr lost ↦ inl (of_store not_owned, rw (row, lost, update_owned))
  ]
]

-- A row that is not owned is not changed.
pub update_owned_lost :
    (id token : Bytes) (fence : ℤ) (f : OutboundEvent → OutboundEvent) (w : World)
    (e : OutboundEvent)
    → Table.get w.mem.outbound id ≡ some e
    → owns_outbound e token fence ≡ false
    → update_owned id token fence f w ≡ (err (of_store not_owned), w)
unfolding update_owned
update_owned_lost id token fence f w e row lost = rw (row, lost, update_owned)

-- The outbound table that AbandonOutbound leaves: a pending row is abandoned, any other is kept.
pub abandon_outbound_cases :
    (id reason actor : Bytes) (t : Time) (w : World)
    → ((abandon_outbound id reason actor t w).1.mem.outbound ≡ w.mem.outbound)
      ⊎ ((e : OutboundEvent) × (Table.get w.mem.outbound id ≡ some e)
          × (e.delivery_state == DeliveryState.pending ≡ true)
          × ((abandon_outbound id reason actor t w).1.mem.outbound
              ≡ (put_outbound id (abandoned t e) w.mem).outbound))
unfolding abandon_outbound must_token insert_audit
abandon_outbound_cases id reason actor t w = elim (Option-cases (Table.get w.mem.outbound id)) [
  | inl absent ↦ inl (rw (absent, abandon_outbound))
  | inr (e, row) ↦ elim (Bool-cases (e.delivery_state == DeliveryState.pending)) [
    | inr closed ↦ inl (rw (row, closed, abandon_outbound))
    | inl pending ↦ inr (e, row, pending, rw (row, pending, abandon_outbound) (ground arith))
  ]
]

-- The outbound table that RequeueOutbound leaves: a dead-lettered or abandoned row is pending again.
pub requeue_outbound_cases :
    (id reason actor : Bytes) (t : Time) (w : World)
    → ((requeue_outbound id reason actor t w).1.mem.outbound ≡ w.mem.outbound)
      ⊎ ((e : OutboundEvent) × (Table.get w.mem.outbound id ≡ some e)
          × (is_requeueable e ≡ true)
          × ((requeue_outbound id reason actor t w).1.mem.outbound
              ≡ (put_outbound id (requeued t e) w.mem).outbound))
unfolding requeue_outbound must_token insert_audit
requeue_outbound_cases id reason actor t w = elim (Option-cases (Table.get w.mem.outbound id)) [
  | inl absent ↦ inl (rw (absent, requeue_outbound))
  | inr (e, row) ↦ elim (Bool-cases (is_requeueable e)) [
    | inr closed ↦ inl (rw (row, closed, requeue_outbound))
    | inl open_ ↦ inr (e, row, open_, rw (row, open_, requeue_outbound) (ground arith))
  ]
]
