-- ===== src/Scheduler/Outcomes.antt =====
-- `submit` of internal/scheduler/scheduler.go: a charge is sent under a claim, and its outcome is
-- stored by who still holds the claim.
use subscription_bridge.Prelude.{
  ◌≤◌, ◌<◌, arith, ◌+◌, Bytes, bytes, Bool, true, false, ◌&&◌, ◌||◌, not, Option, none, some, ◌==◌,
  bytes_eq, int_eq, if◌then◌else◌,
}
use subscription_bridge.Protocol.Errors.{
  Error, Result, ok, err, of_protocol, of_store, not_found, not_owned, automatic_charge_blocked,
}
use subscription_bridge.Protocol.Clock.{Time, minute, is_after}
use subscription_bridge.Store.Models.{ScheduledAction, ChargeAttempt, ActionStatus, AttemptStatus}
use subscription_bridge.Store.Models.Equality.{attempt_status_eq}
use subscription_bridge.Store.Subscriptions.{get_subscription, points_to}
use subscription_bridge.Store.Actions.{finish_action}
use subscription_bridge.Store.Attempts.{get_attempt, update_attempt}
use subscription_bridge.Store.World.{Act, pure, fail, lift, in_tx, now, ◌>>=◌, ◌>>◌}
use subscription_bridge.Adapters.{RenewalResult, caught}
use subscription_bridge.Engine.Refusal.{is_retryable_refusal}
use subscription_bridge.Engine.Transition.{decide}
use subscription_bridge.Engine.Env.{commit, charge_observed, past_due_observed}
use subscription_bridge.Engine.Payments.{delay_at, is_last, plan_termination, or_old, done_at}
use subscription_bridge.Scheduler.Charges.{Scheduler, claim_both, request_body, send, or_empty}

-- When an uncertain charge is looked at again: in a minute, or at its deadline if that is sooner.
unfoldable pub replay_at : Time → Option Time → Time
replay_at t none = t + minute
replay_at t (some deadline) = if is_after (t + minute) deadline then deadline else t + minute

-- The outcome is uncertain.
unfoldable pub store_uncertain : ScheduledAction → Bytes → ChargeAttempt → Time → Act (Unit {0})
store_uncertain action token cur t = do
  update_attempt
      (record cur { status = AttemptStatus.uncertain; claim_token = none; lease_until = none })
  finish_action action.action_id token action.fencing_token ActionStatus.uncertain
      (some (replay_at t cur.resolution_deadline)) (some (bytes "uncertain"))

-- The charge is authorised: the subscription is renewed for the attempt's period.
unfoldable pub store_authorized :
    Scheduler → ScheduledAction → Bytes → ChargeAttempt → Bytes → Time → Act (Unit {0})
unfolding commit
store_authorized s action token cur payment t = do
  update_attempt (record (done_at t cur) {
    status = AttemptStatus.authorized;
    processor_payment_id = some payment;
  })
  sub ← get_subscription action.subscription_ref
  dec ← lift (decide sub (charge_observed cur) t)
  commit s.engine sub dec
  finish_action action.action_id token action.fencing_token ActionStatus.completed none none

-- The end of a refused charge: the dunning ends, or the action waits for its next attempt.
unfoldable pub after_refusal :
    Scheduler → ScheduledAction → Bytes → ChargeAttempt → Bytes → Bytes → Time → Act (Unit {0})
after_refusal s action token cur refusal ref t =
    if not (is_retryable_refusal refusal)
      || is_last s.engine.config.renewal_retry_delays cur.attempt_number
    then (do
      finish_action action.action_id token action.fencing_token ActionStatus.completed none
          (some (bytes "refused"))
      plan_termination s.engine.os s.engine.config.dunning_termination ref t)
    else (do
      delay ← delay_at s.engine.config.renewal_retry_delays cur.attempt_number
      finish_action action.action_id token action.fencing_token ActionStatus.pending
          (some (t + delay)) (some (bytes "refused")))

-- The charge is refused.
unfoldable pub store_refused :
    Scheduler → ScheduledAction → Bytes → ChargeAttempt → RenewalResult → Time → Act (Unit {0})
unfolding commit
store_refused s action token cur res t = do
  update_attempt (record (done_at t cur) {
    status = AttemptStatus.refused;
    processor_payment_id = or_old res.processor_payment_id cur.processor_payment_id;
    refusal_reason_code = or_old res.refusal_code cur.refusal_reason_code;
  })
  sub ← get_subscription action.subscription_ref
  dec ← lift (decide sub past_due_observed t)
  commit s.engine sub dec
  after_refusal s action token cur res.refusal_code sub.subscription_ref t

-- The switch on what Adyen answered.
unfoldable pub store_answer :
    Scheduler
    → ScheduledAction
    → Bytes
    → ChargeAttempt
    → Result RenewalResult
    → Time
    → Act (Unit {0})
store_answer s action token cur (err e) t = store_uncertain action token cur t
store_answer s action token cur (ok res) t =
    if res.is_uncertain
    then store_uncertain action token cur t
    else if res.status == AttemptStatus.authorized
    then store_authorized s action token cur res.processor_payment_id t
    else store_refused s action token cur res t

-- The last transaction of submit. Nothing is stored where the claim is lost. A claim that is none
-- is the empty token here, as in the source.
unfoldable pub store_outcome :
    Scheduler → ScheduledAction → ChargeAttempt → Result RenewalResult → Time → Act (Unit {0})
store_outcome s action attempt answer t = do
  let token = or_empty action.claim_token
  cur ← get_attempt attempt.attempt_id
  if points_to cur.claim_token token && cur.fencing_token == action.fencing_token
      then store_answer s action token cur answer t
      else pure tt

-- The errors with which a claim is left to others.
abbrev pub is_left : Error → Bool
is_left (of_store not_owned) = true
is_left (of_store not_found) = true
is_left (of_protocol automatic_charge_blocked) = true
is_left _ = false

-- The rest of submit, with both claims held.
unfoldable pub charge_claimed :
    Scheduler → Bool → Time → ScheduledAction → ChargeAttempt → Act (Unit {0})
charge_claimed s replay t action attempt = do
  body ← request_body s attempt
  answer ← send s attempt body replay
  in_tx (store_outcome s action attempt answer t)

-- What submit does after its first transaction.
unfoldable pub after_claim :
    Scheduler → Bool → Time → Result (ScheduledAction × ChargeAttempt) → Act (Unit {0})
after_claim s replay t (ok (action, attempt)) = charge_claimed s replay t action attempt
after_claim s replay t (err e) = if is_left e then pure tt else fail e

-- submit
unfoldable pub submit : Scheduler → ScheduledAction → ChargeAttempt → Bool → Act (Unit {0})
submit s action attempt replay = do
  t ← now
  claimed ← caught (claim_both s action attempt t)
  after_claim s replay t claimed

-- An uncertain charge is looked at again within a minute and not after its resolution deadline, and in
-- the future as long as the deadline is.
pub replay_at-bounds :
    (t deadline : Time)
    → (replay_at t (some deadline) ≤ deadline)
      × (replay_at t (some deadline) ≤ t + minute)
      × (t < deadline → t < replay_at t (some deadline))
unfolding replay_at
replay_at-bounds t deadline = ground arith
