-- ===== src/Engine/Operators.antt =====
-- The operators' handlers and the queries of internal/engine/engine.go: Snapshot, CancelAtPeriodEnd,
-- ResolveAttempt, ReplayLatest, ExpireNow and BlockAutomaticCharging.
pub mod Queries
pub mod Settled
use subscription_bridge.Prelude.{
  Bytes, bytes, Bool, true, false, ◌&&◌, not, [], ◌∷◌, Option, none, some, ◌==◌, bytes_eq,
  if◌then◌else◌, pos,
}
use subscription_bridge.Protocol.Errors.{
  Error, Result, ok, err, of_protocol, of_store, not_found, message, ProtocolError,
}
use subscription_bridge.Protocol.Status.{Status, status_eq}
use subscription_bridge.Protocol.Clock.{Time}
use subscription_bridge.Protocol.Identifier.{validate_subscription_ref}
use subscription_bridge.Protocol.Callback.{Platform, Snapshot, format_utc}
use subscription_bridge.Store.Models.{
  Subscription, ChargeAttempt, AttemptStatus, ActionStatus, DeliveryState, OutboundEvent, Value,
}
use subscription_bridge.Store.Models.Equality.{attempt_status_eq, delivery_eq}
use subscription_bridge.Store.World.{
  Act, pure, fail, lift, fail_if, in_tx, now, new_token, ◌>>=◌, ◌>>◌,
}
use subscription_bridge.Store.Subscriptions.{get_subscription, update_subscription}
use subscription_bridge.Store.Attempts.{get_attempt, update_attempt}
use subscription_bridge.Store.Actions.{force_finish_action}
use subscription_bridge.Store.Outbound.{latest_outbound, requeue_outbound}
use subscription_bridge.Store.Audits.{insert_audit}
use subscription_bridge.Engine.Transition.{Observation, Decision, noop, change, decide}
use subscription_bridge.Engine.Env.{
  Engine, apply_decision, commit, charge_observed, no_observation, cancel_observed, expiry_observed,
  past_due_observed,
}
use subscription_bridge.Engine.Payments.{reschedule_or_expire_after_refusal, done_at, or_old}

-- snapshotFrom
unfoldable pub snapshot_from : Platform → Subscription → Snapshot
snapshot_from os s = record {
  protocol = bytes "subscription-bridge";
  version = pos 1;
  checkout_id = s.checkout_id;
  subscription_ref = s.subscription_ref;
  plan_id = s.plan_id;
  state_version = s.state_version;
  status = s.status;
  current_period_start = format_utc os s.current_period_start;
  current_period_end = format_utc os s.current_period_end;
  cancel_at_period_end = s.cancel_at_period_end;
  state_changed_at = format_utc os s.state_changed_at;
}

-- A missing row is the protocol's `ErrNotFound`.
abbrev pub or_not_found {ℓ} : {A : Type ℓ} → Act A → Act A
or_not_found m w = let (r, w') = m w in (renamed r, w')
  where
    renamed : {A : Type ℓ} → Result A → Result A
    renamed (err (of_store not_found)) = err (of_protocol ProtocolError.not_found)
    renamed r = r

-- Snapshot
unfoldable pub snapshot : Engine → Bytes → Act Snapshot
snapshot e ref = do
  lift (validate_subscription_ref ref)
  sub ← or_not_found (in_tx (get_subscription ref))
  pure (snapshot_from e.os sub)

-- CancelAtPeriodEnd and ExpireNow, which differ in what is observed
unfoldable pub observe_at : Engine → Bytes → Observation → Time → Act (Unit {0})
unfolding commit
observe_at e ref obs t = do
  sub ← get_subscription ref
  dec ← lift (decide sub obs t)
  commit e sub dec

unfoldable pub observe_now : Engine → Bytes → Observation → Act (Unit {0})
unfolding observe_at
observe_now e ref obs = do t ← now; in_tx (observe_at e ref obs t)

unfoldable pub cancel_at_period_end : Engine → Bytes → Act (Unit {0})
unfolding observe_now
cancel_at_period_end e ref = observe_now e ref cancel_observed

unfoldable pub expire_now : Engine → Bytes → Act (Unit {0})
unfolding observe_now
expire_now e ref = observe_now e ref expiry_observed

-- BlockAutomaticCharging
unfoldable pub block_automatic_charging : Engine → Subscription → Bytes → Time → Act (Unit {0})
block_automatic_charging e sub reason t = do
  sub' ←
      if sub.status == Status.past_due
      then pure sub
      else (do dec ← lift (decide sub past_due_observed t); apply_decision e sub dec)
  update_subscription
      (record sub' { automatic_charging_blocked = true; charging_block_reason = some reason })

-- `if s == "" { s = fallback }`
abbrev pub or_default : Bytes → Bytes → Bytes
or_default s fallback = if s == [] then fallback else s

-- What the operator says of an attempt.
pub data Outcome : Type 0 where
  authorized refused expired : Outcome
  other : Bytes → Outcome

abbrev pub outcome_text : Outcome → Bytes
outcome_text Outcome.authorized = bytes "authorized"
outcome_text Outcome.refused = bytes "refused"
outcome_text Outcome.expired = bytes "expired"
outcome_text (Outcome.other s) = s

-- A commit, or else the subscription is written back as it is.
unfoldable pub commit_or_update : Engine → Subscription → Decision → Act (Unit {0})
commit_or_update e sub noop = update_subscription sub
commit_or_update e sub (change event next flags) = commit e sub (change event next flags)

-- The switch of ResolveAttempt: the attempt is charged after all,
unfoldable pub resolve_authorized : Engine → ChargeAttempt → Subscription → Time → Act (Unit {0})
resolve_authorized e att sub₀ t = do
  let sub = record sub₀ { automatic_charging_blocked = false; charging_block_reason = none }
  update_attempt (record att { status = AttemptStatus.authorized })
  force_finish_action att.action_id ActionStatus.completed none none
  dec ← lift (decide sub (charge_observed att) t)
  commit_or_update e sub dec

-- or it was refused,
unfoldable pub resolve_refused : Engine → ChargeAttempt → Subscription → Time → Act (Unit {0})
resolve_refused e att sub t = do
  let att' = record att { status = AttemptStatus.refused }
  update_attempt att'
  dec ← lift (decide sub past_due_observed t)
  sub' ← apply_decision e sub dec
  reschedule_or_expire_after_refusal e att' sub' t

-- or the subscription is given up.
unfoldable pub resolve_expired : Engine → ChargeAttempt → Subscription → Time → Act (Unit {0})
resolve_expired e att sub t = do
  update_attempt (record att { status = AttemptStatus.canceled })
  force_finish_action att.action_id ActionStatus.canceled none (some (bytes "operator"))
  dec ← lift (decide sub expiry_observed t)
  commit e sub dec

unfoldable pub resolve_as : Engine → Outcome → ChargeAttempt → Subscription → Time → Act (Unit {0})
resolve_as e Outcome.authorized att sub t = resolve_authorized e att sub t
resolve_as e Outcome.refused att sub t = resolve_refused e att sub t
resolve_as e Outcome.expired att sub t = resolve_expired e att sub t
resolve_as e (Outcome.other s) att sub t = fail (message (bytes "unknown outcome"))

-- The statuses that an operator may resolve.
abbrev pub is_open_question : AttemptStatus → Bool
is_open_question AttemptStatus.uncertain = true
is_open_question AttemptStatus.manual_review = true
is_open_question _ = false

-- ResolveAttempt
unfoldable pub resolve_attempt : Engine → Bytes → Outcome → Bytes → Bytes → Bytes → Act (Unit {0})
resolve_attempt e id outcome reason actor payment = do
  t ← now
  in_tx (do
    att ← get_attempt id
    fail_if (not (is_open_question att.status)) (message (bytes "attempt is not open"))
    sub ← get_subscription att.subscription_ref
    audit_id ← new_token
    insert_audit (record {
      audit_id = audit_id;
      action = bytes "resolve-attempt";
      target_type = bytes "attempt";
      target_id = att.attempt_id;
      actor = or_default actor (bytes "cli");
      reason = or_default reason (bytes "operator");
      metadata = (bytes "outcome", Value.text (outcome_text outcome)) ∷ [];
    })
    resolve_as e outcome
        (record (done_at t att) { processor_payment_id = or_old payment att.processor_payment_id })
        sub t)

-- ReplayLatest
unfoldable pub replay_latest : Bytes → Bytes → Bytes → Act (Unit {0})
replay_latest ref reason actor = in_tx (do ev ← latest_outbound ref; replay ev)
  where
    replay : OutboundEvent → Act (Unit {0})
    replay ev = if ev.delivery_state == DeliveryState.pending then pure tt else (do
      t ← now
      requeue_outbound ev.event_id (or_default reason (bytes "mock-replay"))
          (or_default actor (bytes "mock")) t)
