-- ===== src/Scheduler/Safe/Outcomes.antt =====
-- submit is safe.
use subscription_bridge.Prelude.{Bytes, Bool, ◌&&◌, ◌||◌, not, ◌==◌, bytes_eq, int_eq}
use subscription_bridge.Protocol.Errors.{Result, ok, err}
use subscription_bridge.Protocol.Status.{event_eq, status_eq}
use subscription_bridge.Protocol.Clock.{Time}
use subscription_bridge.Store.Models.{ChargeAttempt, ScheduledAction, AttemptStatus}
use subscription_bridge.Store.Models.Equality.{
  family_eq, checkout_status_eq, attempt_status_eq, delivery_eq,
}
use subscription_bridge.Store.World.{World}
use subscription_bridge.Store.Invariant.{IsWf}
use subscription_bridge.Store.Safe.{
  Leads, Any, pure-Leads, fail-Leads, if-Leads, in_tx-Leads, bind-Leads,
}
use subscription_bridge.Store.Safe.Methods.{now-Leads, finish_action-Leads, claim_action-Leads}
use subscription_bridge.Store.Safe.Rows.{
  HasSub-later, HasAttempt, get_subscription-Leads, get_attempt-Leads,
}
use subscription_bridge.Store.Safe.Writes.{update_attempt-Leads}
use subscription_bridge.Adapters.{RenewalResult}
use subscription_bridge.Engine.Env.{past_due_observed, charge_observed}
use subscription_bridge.Engine.Safe.Commits.{commit-Leads, caught-Leads, IsTame, decide-Leads}
use subscription_bridge.Store.Subscriptions.{points_to}
use subscription_bridge.Engine.Payments.{is_last}
use subscription_bridge.Engine.Refusal.{is_retryable_refusal}
use subscription_bridge.Engine.Safe.Payments.{delay_at-Leads, plan_termination-Leads}
use subscription_bridge.Scheduler.Charges.{Scheduler, claim_both, or_empty}
use subscription_bridge.Scheduler.Outcomes.{
  store_uncertain, store_authorized, after_refusal, store_refused, store_answer, store_outcome,
  is_left, charge_claimed, after_claim, submit,
}
use subscription_bridge.Scheduler.Safe.Charges.{request_body-Leads, claim_with-Leads, send-Leads}

store_uncertain-Leads :
    (action : ScheduledAction) (token : Bytes) (cur : ChargeAttempt) (t : Time) (w : World)
    → IsWf w.mem
    → HasAttempt cur w.mem
    → Leads Any (store_uncertain action token cur t) w
unfolding store_uncertain
store_uncertain-Leads action token cur t w v h =
    bind-Leads (update_attempt-Leads _ w v (record { row = h.row }))
      (λ a u s q. finish_action-Leads _ _ _ _ _ _ u s.wf)

store_authorized-Leads :
    (s : Scheduler) (action : ScheduledAction) (token : Bytes) (cur : ChargeAttempt)
    (payment : Bytes) (t : Time) (w : World)
    → IsWf w.mem
    → HasAttempt cur w.mem
    → Leads Any (store_authorized s action token cur payment t) w
unfolding store_authorized
store_authorized-Leads s action token cur payment t w v h =
    bind-Leads (update_attempt-Leads _ w v (record { row = h.row })) (λ a u s₁ q.
      bind-Leads (get_subscription-Leads action.subscription_ref u s₁.wf) (λ sub x s₂ k.
        bind-Leads (decide-Leads sub (charge_observed cur) t x s₂.wf) (λ dec y s₃ made.
          bind-Leads
            (commit-Leads s.engine sub (charge_observed cur) t dec y s₃.wf made
              (HasSub-later sub x y s₃ k))
            (λ b z s₄ q₄. finish_action-Leads _ _ _ _ _ _ z s₄.wf))))

after_refusal-Leads :
    (s : Scheduler) (action : ScheduledAction) (token : Bytes) (cur : ChargeAttempt)
    (refusal ref : Bytes) (t : Time) (w : World)
    → IsWf w.mem
    → Leads Any (after_refusal s action token cur refusal ref t) w
unfolding after_refusal
after_refusal-Leads s action token cur refusal ref t w v =
    if-Leads
      (not (is_retryable_refusal refusal)
        || is_last s.engine.config.renewal_retry_delays cur.attempt_number)
      (λ final.
        bind-Leads (finish_action-Leads _ _ _ _ _ _ w v)
          (λ a u s₁ q. plan_termination-Leads s.engine.os _ ref t u s₁.wf))
      (λ more.
        bind-Leads (delay_at-Leads _ _ w v) (λ d u s₁ q. finish_action-Leads _ _ _ _ _ _ u s₁.wf))

store_refused-Leads :
    (s : Scheduler) (action : ScheduledAction) (token : Bytes) (cur : ChargeAttempt)
    (res : RenewalResult) (t : Time) (w : World)
    → IsWf w.mem
    → HasAttempt cur w.mem
    → Leads Any (store_refused s action token cur res t) w
unfolding store_refused
store_refused-Leads s action token cur res t w v h =
    bind-Leads (update_attempt-Leads _ w v (record { row = h.row })) (λ a u s₁ q.
      bind-Leads (get_subscription-Leads action.subscription_ref u s₁.wf) (λ sub x s₂ k.
        bind-Leads (decide-Leads sub past_due_observed t x s₂.wf) (λ dec y s₃ made.
          bind-Leads
            (commit-Leads s.engine sub past_due_observed t dec y s₃.wf made
              (HasSub-later sub x y s₃ k))
            (λ b z s₄ q₄. after_refusal-Leads s action token cur _ _ t z s₄.wf))))

store_answer-Leads :
    (s : Scheduler) (action : ScheduledAction) (token : Bytes) (cur : ChargeAttempt)
    (r : Result RenewalResult) (t : Time) (w : World)
    → IsWf w.mem
    → HasAttempt cur w.mem
    → Leads Any (store_answer s action token cur r t) w
unfolding store_answer
store_answer-Leads s action token cur (err e) t w v h =
    store_uncertain-Leads action token cur t w v h
store_answer-Leads s action token cur (ok res) t w v h =
    if-Leads res.is_uncertain (λ unsure. store_uncertain-Leads action token cur t w v h)
      (λ sure.
        if-Leads (res.status == AttemptStatus.authorized)
          (λ paid. store_authorized-Leads s action token cur _ t w v h)
          (λ unpaid. store_refused-Leads s action token cur res t w v h))

store_outcome-Leads :
    (s : Scheduler) (action : ScheduledAction) (a : ChargeAttempt) (r : Result RenewalResult)
    (t : Time) (w : World)
    → IsWf w.mem
    → Leads Any (store_outcome s action a r t) w
unfolding store_outcome
store_outcome-Leads s action a r t w v =
    bind-Leads (get_attempt-Leads a.attempt_id w v) (λ cur u s₁ h.
      if-Leads
        (points_to cur.claim_token (or_empty action.claim_token)
          && cur.fencing_token == action.fencing_token)
        (λ ours. store_answer-Leads s action _ cur r t u s₁.wf h) (λ lost. pure-Leads s₁.wf tt))

after_claim-Leads :
    (s : Scheduler) (replay : Bool) (t : Time) (r : Result (ScheduledAction × ChargeAttempt))
    (w : World)
    → IsWf w.mem
    → IsTame s.adyen
    → Leads Any (after_claim s replay t r) w
unfolding after_claim charge_claimed
after_claim-Leads s replay t (ok (action, a)) w v tame =
    bind-Leads (request_body-Leads s a w v) (λ body u s₁ q.
      bind-Leads (send-Leads s a body replay u s₁.wf tame)
        (λ answer x s₂ q₂. in_tx-Leads s₂.wf (store_outcome-Leads s action a answer t x s₂.wf)))
after_claim-Leads s replay t (err e) w v tame =
    if-Leads (is_left e) (λ left. pure-Leads v tt) (λ other. fail-Leads v)

pub submit-Leads :
    (s : Scheduler) (action : ScheduledAction) (a : ChargeAttempt) (replay : Bool) (w : World)
    → IsWf w.mem
    → IsTame s.adyen
    → Leads Any (submit s action a replay) w
unfolding submit claim_both
submit-Leads s action a replay w v tame = bind-Leads (now-Leads w v) (λ t u s₁ q.
    bind-Leads
      (caught-Leads (
        in_tx-Leads s₁.wf (
          bind-Leads (claim_action-Leads _ _ _ u s₁.wf)
            (λ claimed x s₂ q₂. claim_with-Leads s claimed a t claimed.claim_token x s₂.wf))))
      (λ r y s₃ q₃. after_claim-Leads s replay t r y s₃.wf tame))
