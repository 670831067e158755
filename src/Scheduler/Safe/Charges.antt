-- ===== src/Scheduler/Safe/Charges.antt =====
-- ensurePrepared and the sending of submit are safe.
use subscription_bridge.Prelude.{
  Bytes, Bool, List, Option, none, some, bytes_eq, int_eq, ℤ, arith, find?,
}
use subscription_bridge.Protocol.Errors.{of_protocol, Result}
use subscription_bridge.Protocol.Status.{event_eq, status_eq}
use subscription_bridge.Protocol.Clock.{Time}
use subscription_bridge.Store.Models.{Subscription, ChargeAttempt, ScheduledAction}
use subscription_bridge.Store.Models.Equality.{
  family_eq, checkout_status_eq, attempt_status_eq, delivery_eq,
}
use subscription_bridge.Store.World.{World}
use subscription_bridge.Store.Invariant.{IsWf}
use subscription_bridge.Store.Safe.{
  Leads, Any, pure-Leads, fail-Leads, if-Leads, lift-Leads, bind-Leads, weak-Leads,
}
use subscription_bridge.Store.Safe.Methods.{new_token-Leads}
use subscription_bridge.Store.Safe.Rows.{get_subscription-Leads, get_attempts_for_action-Leads}
use subscription_bridge.Store.Safe.Writes.{insert_attempt-Leads, claim_attempt_with_action-Leads}
use subscription_bridge.Envelope.{seal, open_box, new_nonce}
use subscription_bridge.Engine.Safe.Commits.{
  still-Leads, new_id-Leads, fail_if-Leads, caught-Leads, IsTame,
}
use subscription_bridge.Protocol.Errors.{automatic_charge_blocked}
use subscription_bridge.Config.{Plan, resolve_plan}
use subscription_bridge.Store.Attempts.{get_attempts_for_action}
use subscription_bridge.Scheduler.Charges.{
  Scheduler, is_open_attempt, payment_method, seal_request, new_attempt, or_stored, store_attempt,
  open_or_new, ensure_prepared, claim_with, request_body, send,
}

payment_method-Leads :
    (s : Scheduler) (sub : Subscription) (w : World)
    → IsWf w.mem
    → Leads Any (payment_method s sub) w
unfolding payment_method open_box
payment_method-Leads s sub w v = still-Leads (payment_method s sub) w v (ground arith)

seal_request-Leads :
    (s : Scheduler) (body id : Bytes) (w : World)
    → IsWf w.mem
    → Leads Any (seal_request s body id) w
unfolding seal_request seal new_nonce
seal_request-Leads s body id w v = still-Leads (seal_request s body id) w v (ground arith)

pub request_body-Leads :
    (s : Scheduler) (a : ChargeAttempt) (w : World) → IsWf w.mem → Leads Any (request_body s a) w
unfolding request_body open_box
request_body-Leads s a w v = still-Leads (request_body s a) w v (ground arith)

new_attempt-Leads :
    (s : Scheduler) (action : ScheduledAction) (sub : Subscription) (plan : Plan) (n : ℤ)
    (w : World)
    → IsWf w.mem
    → Leads Any (new_attempt s action sub plan n) w
unfolding new_attempt
new_attempt-Leads s action sub plan n w v =
    bind-Leads (payment_method-Leads s sub w v) (λ token u s₁ q.
      bind-Leads (new_id-Leads _ u s₁.wf) (λ ref x s₂ q₂.
        bind-Leads (new_token-Leads x s₂.wf) (λ id y s₃ q₃.
          bind-Leads (seal_request-Leads s _ id y s₃.wf) (λ r z s₄ q₄. pure-Leads s₄.wf tt))))

or_stored-Leads :
    (action : ScheduledAction) (a : ChargeAttempt) (r : Result (Unit {0})) (w : World)
    → IsWf w.mem
    → Leads Any (or_stored action a r) w
unfolding or_stored get_attempts_for_action
or_stored-Leads action a r w v = still-Leads (or_stored action a r) w v (ground arith)

open_or_new-Leads :
    (s : Scheduler) (action : ScheduledAction) (sub : Subscription) (rows : List ChargeAttempt)
    (o : Option ChargeAttempt) (w : World)
    → IsWf w.mem
    → Leads Any (open_or_new s action sub rows o) w
unfolding open_or_new store_attempt
open_or_new-Leads s action sub rows (some a) w v = pure-Leads v tt
open_or_new-Leads s action sub rows none w v =
    bind-Leads (lift-Leads (resolve_plan s.engine.config sub.plan_id) w v) (λ (plan, family) u s₁ q.
      bind-Leads (new_attempt-Leads s action sub plan _ u s₁.wf) (λ a x s₂ q₂.
        bind-Leads (caught-Leads (insert_attempt-Leads a x s₂.wf))
          (λ r y s₃ q₃. or_stored-Leads action a r y s₃.wf)))

pub ensure_prepared-Leads :
    (s : Scheduler) (action : ScheduledAction) (w : World)
    → IsWf w.mem
    → Leads Any (ensure_prepared s action) w
unfolding ensure_prepared
ensure_prepared-Leads s action w v =
    bind-Leads (get_subscription-Leads action.subscription_ref w v) (λ sub u s₁ h.
      bind-Leads
        (fail_if-Leads sub.automatic_charging_blocked (of_protocol automatic_charge_blocked) u
          s₁.wf)
        (λ b x s₂ q₂.
          bind-Leads (get_attempts_for_action-Leads action.action_id x s₂.wf) (λ rows y s₃ q₃.
            open_or_new-Leads s action sub rows (find? is_open_attempt rows) y s₃.wf)))

pub claim_with-Leads :
    (s : Scheduler) (action : ScheduledAction) (a : ChargeAttempt) (t : Time) (o : Option Bytes)
    (w : World)
    → IsWf w.mem
    → Leads Any (claim_with s action a t o) w
unfolding claim_with
claim_with-Leads s action a t none w v = fail-Leads v
claim_with-Leads s action a t (some token) w v = claim_attempt_with_action-Leads _ _ _ _ _ _ _ w v

pub send-Leads :
    (s : Scheduler) (a : ChargeAttempt) (body : Bytes) (replay : Bool) (w : World)
    → IsWf w.mem
    → IsTame s.adyen
    → Leads Any (send s a body replay) w
unfolding send
send-Leads s a body replay w v tame =
    if-Leads replay
      (λ again. weak-Leads (caught-Leads (tame.resolve_renewal_attempt _ w v)) (λ x u s₁ q. tt))
      (λ new. weak-Leads (caught-Leads (tame.charge_renewal _ w v)) (λ x u s₁ q. tt))
