-- ===== src/Engine/Operators/Queries.antt =====
-- A query and a callback tell the consumer the same.
use subscription_bridge.Prelude.{Bytes, ◌≡◌, refl, ap, arith}
use subscription_bridge.Protocol.Errors.{Result, ok, err, ◌>>◌}
use subscription_bridge.Protocol.Status.{EventType}
use subscription_bridge.Protocol.Callback.{
  Platform, Callback, new_callback, snapshot_from_callback, validate_snapshot, snapshot-validate,
}
use subscription_bridge.Store.Models.{Subscription}
use subscription_bridge.Engine.Operators.{snapshot_from}

valid_made :
    (r : Result (Unit {0})) (c cb : Callback) → (r >> ok c) ≡ ok cb → (r ≡ ok tt) × (c ≡ cb)
valid_made (ok tt) c cb h = (refl, ground arith)
valid_made (err e) c cb h = absurd (ground arith)

-- If a callback for a stored subscription was accepted by NewCallback, then a query of that
-- subscription answers with the snapshot that the consumer takes from the callback, and the snapshot
-- validates.
pub snapshot_from-callback :
    (os : Platform) (s : Subscription) (id : Bytes) (event : EventType) (cb : Callback)
    → new_callback os id event s.checkout_id s.subscription_ref s.plan_id s.state_version s.status
        s.current_period_start s.current_period_end s.state_changed_at s.cancel_at_period_end
      ≡ ok cb
    → (snapshot_from os s ≡ snapshot_from_callback cb)
      × (validate_snapshot os (snapshot_from os s) ≡ ok tt)
unfolding snapshot_from snapshot_from_callback new_callback
snapshot_from-callback os s id event cb h =
    let (valid, same) = valid_made _ _ cb h in
    (ap snapshot_from_callback same, snapshot-validate os _ valid)
