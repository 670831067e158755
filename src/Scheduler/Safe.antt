-- ===== src/Scheduler/Safe.antt =====
-- A round of the scheduler is safe, whatever Adyen answers and whatever else is done meanwhile.
pub mod Charges
pub mod Outcomes
use subscription_bridge.Prelude.{
  Bytes, Bool, true, false, ◌&&◌, ◌||◌, not, List, Option, none, some, ◌≡◌, refl, ◌==◌, bytes_eq,
  int_eq, ℤ, arith, find?, Every-find?,
}
use subscription_bridge.Protocol.Errors.{of_protocol, Result, ok, err}
use subscription_bridge.Protocol.Status.{Status, event_eq, status_eq}
use subscription_bridge.Protocol.Clock.{Time}
use subscription_bridge.Store.Models.{
  Subscription, ChargeAttempt, ScheduledAction, ActionType, ActionStatus, AttemptStatus,
}
use subscription_bridge.Store.Models.Equality.{
  family_eq, checkout_status_eq, attempt_status_eq, delivery_eq,
}
use subscription_bridge.Store.World.{World}
use subscription_bridge.Store.Invariant.{IsWf}
use subscription_bridge.Store.Safe.{
  Leads, Any, pure-Leads, fail-Leads, if-Leads, in_tx-Leads, lift-Leads, bind-Leads, weak-Leads,
}
use subscription_bridge.Store.Safe.Methods.{
  now-Leads, new_token-Leads, force_finish_action-Leads, finish_action-Leads, claim_action-Leads,
  claim_due_action-Leads,
}
use subscription_bridge.Store.Safe.Rows.{
  HasSub-later, HasAttempt, get_subscription-Leads, get_attempt-Leads,
  get_attempts_for_action-Leads,
}
use subscription_bridge.Store.Safe.Writes.{
  insert_attempt-Leads, update_attempt-Leads, claim_attempt_with_action-Leads,
}
use subscription_bridge.Adapters.{RenewalResult}
use subscription_bridge.Envelope.{seal, open_box, new_nonce}
use subscription_bridge.Engine.Env.{no_observation, past_due_observed, charge_observed}
use subscription_bridge.Engine.Safe.Commits.{
  still-Leads, new_id-Leads, fail_if-Leads, commit-Leads, caught-Leads, IsTame, decide-Leads,
}
use subscription_bridge.Protocol.Errors.{automatic_charge_blocked}
use subscription_bridge.Config.{Plan, resolve_plan}
use subscription_bridge.Store.Subscriptions.{points_to}
use subscription_bridge.Store.Actions.{lock_due_action}
use subscription_bridge.Store.Attempts.{get_attempts_for_action}
use subscription_bridge.Engine.Payments.{is_last}
use subscription_bridge.Engine.Refusal.{is_retryable_refusal}
use subscription_bridge.Engine.Safe.Payments.{delay_at-Leads, plan_termination-Leads}
use subscription_bridge.Engine.Safe.Operators.{block_automatic_charging-Leads}
use subscription_bridge.Scheduler.{
  expire_claimed, expire_due, run_expire, is_postponed, prepare_due, renew_prepared, run_renew,
  is_unsettled, is_overdue, give_up, settle_found, find_uncertain, replay_found, run_uncertain,
  run_round,
}
use subscription_bridge.Scheduler.Charges.{
  Scheduler, deref_claim, is_open_attempt, payment_method, seal_request, new_attempt, or_stored,
  store_attempt, open_or_new, ensure_prepared, claim_with, claim_both, request_body, send, or_empty,
}
use subscription_bridge.Scheduler.Outcomes.{
  store_uncertain, store_authorized, after_refusal, store_refused, store_answer, store_outcome,
  is_left, charge_claimed, after_claim, submit,
}
use subscription_bridge.Scheduler.Safe.Charges.{ensure_prepared-Leads}
use subscription_bridge.Scheduler.Safe.Outcomes.{submit-Leads}

deref_claim-Leads : (o : Option Bytes) (w : World) → IsWf w.mem → Leads Any (deref_claim o) w
deref_claim-Leads none w v = fail-Leads v
deref_claim-Leads (some token) w v = pure-Leads v tt

expire_due-Leads :
    (s : Scheduler) (t : Time) (r : Result ScheduledAction) (w : World)
    → IsWf w.mem
    → Leads Any (expire_due s t r) w
unfolding expire_due expire_claimed
expire_due-Leads s t (ok action) w v =
    bind-Leads (get_subscription-Leads action.subscription_ref w v) (λ sub u s₁ h.
      bind-Leads (decide-Leads sub (record no_observation { status = Status.expired }) t u s₁.wf)
        (λ dec x s₂ made.
          bind-Leads (commit-Leads s.engine sub _ t dec x s₂.wf made (HasSub-later sub u x s₂ h))
            (λ a y s₃ q₃.
              bind-Leads (deref_claim-Leads action.claim_token y s₃.wf)
                (λ token z s₄ q₄. finish_action-Leads _ _ _ _ _ _ z s₄.wf))))
expire_due-Leads s t (err e) w v = still-Leads (expire_due s t (err e)) w v (ground arith)

run_expire-Leads : (s : Scheduler) (w : World) → IsWf w.mem → Leads Any (run_expire s) w
unfolding run_expire
run_expire-Leads s w v = bind-Leads (now-Leads w v) (λ t u s₁ q. in_tx-Leads s₁.wf (
    bind-Leads (caught-Leads (claim_due_action-Leads _ _ _ _ u s₁.wf))
      (λ r x s₂ q₂. expire_due-Leads s t r x s₂.wf)))

lock_due_action-Leads :
    (t : Time) (st : ActionStatus) (ks : List ActionType) (w : World)
    → IsWf w.mem
    → Leads Any (lock_due_action t st ks) w
unfolding lock_due_action
lock_due_action-Leads t st ks w v = still-Leads (lock_due_action t st ks) w v (ground arith)

renew_prepared-Leads :
    (s : Scheduler) (r : Result (ScheduledAction × ChargeAttempt)) (w : World)
    → IsWf w.mem
    → IsTame s.adyen
    → Leads Any (renew_prepared s r) w
unfolding renew_prepared
renew_prepared-Leads s (ok (action, a)) w v tame = submit-Leads s action a false w v tame
renew_prepared-Leads s (err e) w v tame =
    if-Leads (is_postponed e) (λ later. pure-Leads v tt) (λ other. fail-Leads v)

run_renew-Leads :
    (s : Scheduler) (w : World) → IsWf w.mem → IsTame s.adyen → Leads Any (run_renew s) w
unfolding run_renew prepare_due
run_renew-Leads s w v tame =
    bind-Leads
      (caught-Leads {Q = Any} (
        in_tx-Leads v (
          bind-Leads (now-Leads w v) (λ t u s₁ q.
            bind-Leads (lock_due_action-Leads _ _ _ u s₁.wf) (λ action x s₂ q₂.
              bind-Leads (ensure_prepared-Leads s action x s₂.wf)
                (λ a y s₃ q₃. pure-Leads s₃.wf tt))))))
      (λ r z s₄ q₄. renew_prepared-Leads s r z s₄.wf tame)

give_up-Leads :
    (s : Scheduler) (t : Time) (action : ScheduledAction) (a : ChargeAttempt) (w : World)
    → IsWf w.mem
    → HasAttempt a w.mem
    → Leads Any (give_up s t action a) w
unfolding give_up
give_up-Leads s t action a w v h =
    bind-Leads (update_attempt-Leads _ w v (record { row = h.row })) (λ b u s₁ q.
      bind-Leads (force_finish_action-Leads _ _ _ _ u s₁.wf) (λ c x s₂ q₂.
        bind-Leads (get_subscription-Leads action.subscription_ref x s₂.wf)
          (λ sub y s₃ k. block_automatic_charging-Leads s.engine sub _ t y s₃.wf k)))

settle_found-Leads :
    (s : Scheduler) (t : Time) (action : ScheduledAction) (o : Option ChargeAttempt) (w : World)
    → IsWf w.mem
    → ((a : ChargeAttempt) → o ≡ some a → HasAttempt a w.mem)
    → Leads Any (settle_found s t action o) w
unfolding settle_found
settle_found-Leads s t action none w v h = fail-Leads v
settle_found-Leads s t action (some a) w v h =
    if-Leads (is_overdue a.resolution_deadline t)
      (λ over.
        bind-Leads (give_up-Leads s t action a w v (h a refl)) (λ b u s₁ q. pure-Leads s₁.wf tt))
      (λ open_. pure-Leads v tt)

replay_found-Leads :
    (s : Scheduler) (r : Result (Option (ScheduledAction × ChargeAttempt))) (w : World)
    → IsWf w.mem
    → IsTame s.adyen
    → Leads Any (replay_found s r) w
unfolding replay_found
replay_found-Leads s (ok none) w v tame = pure-Leads v tt
replay_found-Leads s (ok (some (action, a))) w v tame = submit-Leads s action a true w v tame
replay_found-Leads s (err e) w v tame = still-Leads (replay_found s (err e)) w v (ground arith)

run_uncertain-Leads :
    (s : Scheduler) (w : World) → IsWf w.mem → IsTame s.adyen → Leads Any (run_uncertain s) w
unfolding run_uncertain find_uncertain
run_uncertain-Leads s w v tame = bind-Leads (now-Leads w v) (λ t u s₁ q.
    bind-Leads
      (caught-Leads (
        in_tx-Leads s₁.wf (
          bind-Leads (lock_due_action-Leads _ _ _ u s₁.wf) (λ action x s₂ q₂.
            bind-Leads (get_attempts_for_action-Leads action.action_id x s₂.wf) (λ rows y s₃ all.
              settle_found-Leads s t action (find? is_unsettled rows) y s₃.wf
                (λ a e. Every-find? (λ b. HasAttempt b y.mem) is_unsettled rows a all e))))))
      (λ r z s₄ q₄. replay_found-Leads s r z s₄.wf tame))

pub run_round-Leads :
    (s : Scheduler) (w : World) → IsWf w.mem → IsTame s.adyen → Leads Any (run_round s) w
unfolding run_round
run_round-Leads s w v tame = bind-Leads (run_expire-Leads s w v) (λ a u s₁ q.
    bind-Leads (run_renew-Leads s u s₁.wf tame) (λ b x s₂ q₂. run_uncertain-Leads s x s₂.wf tame))
