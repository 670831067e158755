-- ===== src/Protocol/Status/Pairs.antt =====
-- The pairs of event type and status that a callback may carry, against an independent table.
use subscription_bridge.Prelude.{◌≡◌, refl, ◌↔◌, Bool, true, false, arith}
use subscription_bridge.Protocol.Errors.{ok}
use subscription_bridge.Protocol.Status.{Status, EventType, validate_event_status}

-- The table of the protocol: event type, status, cancel_at_period_end.
pub data Pair : EventType → Status → Bool → Type 0 where
  activated : Pair EventType.activated Status.active false
  activated_trialing : Pair EventType.activated Status.trialing false
  renewed : Pair EventType.renewed Status.active false
  past_due : Pair EventType.past_due Status.past_due false
  canceled : Pair EventType.canceled Status.canceled true
  expired : Pair EventType.expired Status.expired false
  plan_changed : Pair EventType.plan_changed Status.active false

sound : (e : EventType) (s : Status) (c : Bool) → validate_event_status e s c ≡ ok tt → Pair e s c
unfolding validate_event_status
sound EventType.activated Status.active false h = Pair.activated
sound EventType.activated Status.trialing false h = Pair.activated_trialing
sound EventType.renewed Status.active false h = Pair.renewed
sound EventType.past_due Status.past_due false h = Pair.past_due
sound EventType.canceled Status.canceled true h = Pair.canceled
sound EventType.expired Status.expired false h = Pair.expired
sound EventType.plan_changed Status.active false h = Pair.plan_changed
sound e s c h = absurd (ground arith)

complete :
    {e : EventType} {s : Status} {c : Bool} → Pair e s c → validate_event_status e s c ≡ ok tt
unfolding validate_event_status
complete Pair.activated = refl
complete Pair.activated_trialing = refl
complete Pair.renewed = refl
complete Pair.past_due = refl
complete Pair.canceled = refl
complete Pair.expired = refl
complete Pair.plan_changed = refl

-- A callback's event type, status and cancel_at_period_end are accepted exactly when they stand
-- in the protocol's table of pairs.
pub validate_event_status_iff :
    (e : EventType) (s : Status) (c : Bool) → (validate_event_status e s c ≡ ok tt) ↔ Pair e s c
validate_event_status_iff e s c = (sound e s c, complete)
