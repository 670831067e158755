-- ===== src/Engine/Transition/Machine.antt =====
-- The status machine that Decide implements, and a subscription under a run of observations.
use subscription_bridge.Prelude.{
  Bool, Bool-cases, inl, inr, true, false, ◌≡◌, arith, ◌==◌, bytes_eq, inc64, ◌⊎◌, ◌&&◌, ◌||◌, not,
  int_eq, pos,
}
use subscription_bridge.Protocol.Errors.{Result, ok}
use subscription_bridge.Protocol.Status.{
  Status, EventType, status_eq, event_eq, validate_event_status,
}
use subscription_bridge.Protocol.Clock.{Time, truncate_utc}
use subscription_bridge.Store.Models.{Subscription}
use subscription_bridge.Engine.Transition.{
  Observation, Decision, change, decide, dispatch, observed, expire, change_plan,
  cancel_at_period_end, past_due, activate_or_renew,
}

-- The edges of the machine: from a status, by an event, to a status. `fresh` is the first version.
-- None leads out of expired.
abbrev pub edge : Bool → Status → EventType → Status → Bool
edge fresh Status.expired e s' = false
edge fresh s EventType.expired s' = s' == Status.expired
edge fresh s EventType.canceled s' = s' == Status.canceled && not (s == Status.canceled)
edge fresh s EventType.past_due s' = s' == Status.past_due && not (s == Status.past_due)
edge fresh s EventType.plan_changed s' = s' == Status.active && s == Status.active
edge fresh s EventType.renewed s' = s' == Status.active && not fresh
edge fresh s EventType.activated s' =
    (s' == Status.active || s' == Status.trialing) && not (s == Status.canceled)
edge fresh s _ s' = false

-- A change runs along an edge.
abbrev pub Moves : Subscription → Result Decision → Type 0
Moves c (ok (change e n f)) = edge (inc64 c.state_version == pos 1) c.status e n.status ≡ true
Moves c _ = Unit {0}

expire-Moves :
    (c n : Subscription) (t : Time) (b : Bool)
    → (c.status == Status.expired) ≡ false
    → Moves c (expire c n t b)
unfolding expire validate_event_status
expire-Moves c n t b live = ground arith

cancel-Moves :
    (c n : Subscription) (t : Time)
    → (c.status == Status.expired) ≡ false
    → Moves c (cancel_at_period_end c n t)
unfolding cancel_at_period_end validate_event_status
cancel-Moves c n t live = ground arith

past_due-Moves :
    (c n : Subscription) (t : Time)
    → (c.status == Status.expired) ≡ false
    → Moves c (past_due c n t)
unfolding past_due validate_event_status
past_due-Moves c n t live = ground arith

change_plan-Moves :
    (c n : Subscription) → (c.status == Status.expired) ≡ false → Moves c (change_plan c n)
unfolding change_plan validate_event_status
change_plan-Moves c n live = ground arith

activate_or_renew-Moves :
    (c n : Subscription) (s : Status) (t : Time)
    → (c.status == Status.expired) ≡ false
    → (s ≡ Status.active) ⊎ (s ≡ Status.trialing)
    → Moves c (activate_or_renew c n s t)
unfolding activate_or_renew validate_event_status inc64
activate_or_renew-Moves c n s t live h = ground arith

-- Every change that Decide makes runs along an edge of the machine: none from expired; from any other
-- status to expired; to canceled from any but canceled; to past_due from any but past_due; a plan
-- changes from active to active; a renewal leads to active and is never the first version; an
-- activation leads to active or trialing, and not from canceled.
pub decide-Moves : (c : Subscription) (obs : Observation) (t : Time) → Moves c (decide c obs t)
unfolding decide dispatch
decide-Moves c obs t₀ =
    let t = truncate_utc t₀ in
    let n = observed c obs t in
    elim (Bool-cases (c.status == Status.expired)) [
      | inl over ↦ rw over tt
      | inr live ↦ ground (
        arith,
        live,
        expire-Moves c n t (obs.immediate_expire && not (c.status == Status.canceled)) live,
        change_plan-Moves c n live,
        cancel-Moves c n t live,
        past_due-Moves c n t live,
        activate_or_renew-Moves c n obs.status t live,
      )
    ]
