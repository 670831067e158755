-- ===== src/Scheduler.antt =====
-- internal/scheduler/scheduler.go: one round of the scheduler, which expires a subscription, charges a
-- renewal, and settles a charge whose outcome is uncertain. The loop that repeats the round and its
-- ticker are not modelled.
pub mod Charges
pub mod Outcomes
pub mod Overtaken
pub mod Prepared
pub mod Safe
use subscription_bridge.Prelude.{
  ◌+◌, ◌*◌, Bytes, bytes, Bool, true, false, ◌&&◌, ◌||◌, not, List, [], ◌∷◌, Option, none, some,
  is_some, find?, ◌==◌, bytes_eq, int_eq, nat_eq, if◌then◌else◌, ℤ, pos,
}
use subscription_bridge.Protocol.Errors.{
  Error, Result, ok, err, of_protocol, of_store, not_found, panic, automatic_charge_blocked,
}
use subscription_bridge.Protocol.Status.{Status}
use subscription_bridge.Protocol.Clock.{Time, is_after}
use subscription_bridge.Store.Models.{
  ScheduledAction, ChargeAttempt, ActionType, ActionStatus, AttemptStatus,
}
use subscription_bridge.Store.World.{World, Act, pure, fail, lift, in_tx, now, ◌>>=◌, ◌>>◌}
use subscription_bridge.Store.Subscriptions.{get_subscription}
use subscription_bridge.Store.Actions.{
  claim_due_action, lock_due_action, finish_action, force_finish_action,
}
use subscription_bridge.Store.Attempts.{get_attempts_for_action, update_attempt}
use subscription_bridge.Store.Models.Equality.{attempt_status_eq}
use subscription_bridge.Adapters.{caught}
use subscription_bridge.Engine.Transition.{decide}
use subscription_bridge.Engine.Env.{commit, no_observation}
use subscription_bridge.Engine.Operators.{block_automatic_charging}
use subscription_bridge.Scheduler.Charges.{Scheduler, lease, ensure_prepared, deref_claim}
use subscription_bridge.Scheduler.Outcomes.{submit}

-- What runExpire does with the action it has claimed.
unfoldable pub expire_claimed : Scheduler → Time → ScheduledAction → Act (Unit {0})
unfolding commit
expire_claimed s t action = do
  sub ← get_subscription action.subscription_ref
  dec ← lift (decide sub (record no_observation { status = Status.expired }) t)
  commit s.engine sub dec
  token ← deref_claim action.claim_token
  finish_action action.action_id token action.fencing_token ActionStatus.completed none none

unfoldable pub expire_due : Scheduler → Time → Result ScheduledAction → Act (Unit {0})
expire_due s t (ok action) = expire_claimed s t action
expire_due s t (err (of_store not_found)) = pure tt
expire_due s t (err e) = fail e

-- runExpire
unfoldable pub run_expire : Scheduler → Act (Unit {0})
run_expire s = do
  t ← now
  in_tx (do
    r ← caught (claim_due_action t (lease s) ActionStatus.pending (ActionType.expire ∷ []))
    expire_due s t r)

-- The errors with which a charge is left for another time.
abbrev pub is_postponed : Error → Bool
is_postponed (of_store not_found) = true
is_postponed (of_protocol automatic_charge_blocked) = true
is_postponed _ = false

-- The transaction of runRenew: the open attempt of the due action, or a new one.
unfoldable pub prepare_due : Scheduler → Act (ScheduledAction × ChargeAttempt)
prepare_due s = in_tx (do
  t ← now
  action ← lock_due_action t ActionStatus.pending (ActionType.renew ∷ [])
  attempt ← ensure_prepared s action
  pure (action, attempt))

unfoldable pub renew_prepared :
    Scheduler → Result (ScheduledAction × ChargeAttempt) → Act (Unit {0})
renew_prepared s (ok (action, attempt)) = submit s action attempt false
renew_prepared s (err e) = if is_postponed e then pure tt else fail e

-- runRenew
unfoldable pub run_renew : Scheduler → Act (Unit {0})
run_renew s = do r ← caught (prepare_due s); renew_prepared s r

-- The attempt whose outcome is open: the first that is uncertain or running.
abbrev pub is_unsettled : ChargeAttempt → Bool
is_unsettled a = a.status == AttemptStatus.uncertain || a.status == AttemptStatus.running

-- `deadline != nil && !deadline.After(now)`
abbrev pub is_overdue : Option Time → Time → Bool
is_overdue none t = false
is_overdue (some deadline) t = not (is_after deadline t)

-- An attempt past its deadline is given to the operators, and its subscription is charged no more.
unfoldable pub give_up : Scheduler → Time → ScheduledAction → ChargeAttempt → Act (Unit {0})
give_up s t action attempt = do
  update_attempt (record attempt {
    status = AttemptStatus.manual_review;
    claim_token = none;
    lease_until = none;
  })
  force_finish_action action.action_id ActionStatus.manual_review none
      (some (bytes "resolution_deadline"))
  sub ← get_subscription action.subscription_ref
  block_automatic_charging s.engine sub (bytes "resolution_deadline") t

-- The transaction of runUncertain: `none` is `terminal`.
unfoldable pub settle_found :
    Scheduler
    → Time
    → ScheduledAction
    → Option ChargeAttempt
    → Act (Option (ScheduledAction × ChargeAttempt))
settle_found s t action none = fail (of_store not_found)
settle_found s t action (some attempt) =
    if is_overdue attempt.resolution_deadline t
    then (do give_up s t action attempt; pure none)
    else pure (some (action, attempt))

unfoldable pub find_uncertain : Scheduler → Time → Act (Option (ScheduledAction × ChargeAttempt))
find_uncertain s t = in_tx (do
  action ← lock_due_action t ActionStatus.uncertain (ActionType.renew ∷ [])
  attempts ← get_attempts_for_action action.action_id
  settle_found s t action (find? is_unsettled attempts))

unfoldable pub replay_found :
    Scheduler → Result (Option (ScheduledAction × ChargeAttempt)) → Act (Unit {0})
replay_found s (ok none) = pure tt
replay_found s (ok (some (action, attempt))) = submit s action attempt true
replay_found s (err (of_store not_found)) = pure tt
replay_found s (err e) = fail e

-- runUncertain
unfoldable pub run_uncertain : Scheduler → Act (Unit {0})
run_uncertain s = do t ← now; r ← caught (find_uncertain s t); replay_found s r

-- RunOnce
unfoldable pub run_round : Scheduler → Act (Unit {0})
unfolding run_expire run_renew run_uncertain
run_round s = do run_expire s; run_renew s; run_uncertain s
