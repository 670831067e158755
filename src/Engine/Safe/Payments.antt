-- ===== src/Engine/Safe/Payments.antt =====
-- The handlers of an Adyen authorisation are safe.
use subscription_bridge.Prelude.{
  Bytes, ◌||◌, not, List, [], Option, none, some, ◌==◌, bytes_eq, int_eq, ℤ, arith,
}
use subscription_bridge.Protocol.Status.{Status, event_eq, status_eq}
use subscription_bridge.Protocol.Callback.{Platform}
use subscription_bridge.Protocol.Clock.{Time, Duration}
use subscription_bridge.Store.Models.{Subscription, ChargeAttempt}
use subscription_bridge.Store.Models.Equality.{
  family_eq, checkout_status_eq, attempt_status_eq, delivery_eq,
}
use subscription_bridge.Store.World.{World}
use subscription_bridge.Store.Invariant.{IsWf}
use subscription_bridge.Store.Safe.{Leads, Any, pure-Leads, if-Leads, bind-Leads}
use subscription_bridge.Store.Safe.Methods.{
  new_token-Leads, insert_action-Leads, insert_audit-Leads, force_finish_action-Leads,
}
use subscription_bridge.Store.Safe.Rows.{HasSub, HasSub-later, get_subscription-Leads}
use subscription_bridge.Store.Safe.Writes.{update_subscription-Leads}
use subscription_bridge.Adapters.{NormalizedEvent}
use subscription_bridge.Envelope.{Box}
use subscription_bridge.Engine.Env.{Engine}
use subscription_bridge.Engine.Safe.Commits.{still-Leads, unless_conflict-Leads, seal-Leads}
use subscription_bridge.Engine.Payments.{
  assign_with, assign_stored_payment_method, unblocked, replace_stored_payment_method, delay_at,
  is_last, plan_termination, reschedule_or_expire_after_refusal, retryable_refusal,
}

-- The subscription with its new payment method is the same subscription.
assign_with-Leads :
    (e : Engine) (sub : Subscription) (ref : Bytes) (ev : NormalizedEvent) (box : Option Box)
    (w : World)
    → IsWf w.mem
    → Leads (λ n m. HasSub sub m → HasSub n m) (assign_with e sub ref ev box) w
unfolding assign_with
assign_with-Leads e sub ref ev none w v = pure-Leads v (λ h. h)
assign_with-Leads e sub ref ev (some box) w v =
    if-Leads (ev.sensitive_plain == []) (λ empty. pure-Leads v (λ h. h))
      (λ full.
        bind-Leads (seal-Leads _ box _ _ w v)
          (λ x u s q. pure-Leads s.wf (λ h. record { row = h.row })))

pub assign_stored_payment_method-Leads :
    (e : Engine) (sub : Subscription) (ref : Bytes) (ev : NormalizedEvent) (w : World)
    → IsWf w.mem
    → Leads (λ n m. HasSub sub m → HasSub n m) (assign_stored_payment_method e sub ref ev) w
unfolding assign_stored_payment_method
assign_stored_payment_method-Leads e sub ref ev w v = assign_with-Leads e sub ref ev e.box w v

pub replace_stored_payment_method-Leads :
    (e : Engine) (ref : Bytes) (ev : NormalizedEvent) (t : Time) (w : World)
    → IsWf w.mem
    → Leads Any (replace_stored_payment_method e ref ev t) w
unfolding replace_stored_payment_method
replace_stored_payment_method-Leads e ref ev t w v =
    if-Leads (ev.sensitive_plain == []) (λ empty. pure-Leads v tt)
      (λ full. bind-Leads (get_subscription-Leads ref w v) (λ sub u s h.
        if-Leads (sub.status == Status.expired) (λ dead. pure-Leads s.wf tt)
          (λ live.
            bind-Leads (assign_stored_payment_method-Leads e sub sub.subscription_ref ev u s.wf)
              (λ sub' x s₂ k.
                bind-Leads
                  (update_subscription-Leads (unblocked t sub') x s₂.wf
                    (record { row = (k (HasSub-later sub u x s₂ h)).row }))
                  (λ a y s₃ q. bind-Leads (new_token-Leads y s₃.wf) (λ id z s₄ q₄.
                    bind-Leads (insert_audit-Leads _ z s₄.wf)
                      (λ b z₁ s₅ q₅. pure-Leads s₅.wf tt)))))))

pub delay_at-Leads :
    (delays : List Duration) (n : ℤ) (w : World) → IsWf w.mem → Leads Any (delay_at delays n) w
unfolding delay_at
delay_at-Leads delays n w v = still-Leads (delay_at delays n) w v (ground arith)

pub plan_termination-Leads :
    (os : Platform) (delay : Duration) (ref : Bytes) (t : Time) (w : World)
    → IsWf w.mem
    → Leads Any (plan_termination os delay ref t) w
unfolding plan_termination
plan_termination-Leads os delay ref t w v =
    bind-Leads (new_token-Leads w v)
      (λ id u s q. unless_conflict-Leads _ u (insert_action-Leads _ u s.wf))

pub reschedule-Leads :
    (e : Engine) (att : ChargeAttempt) (sub : Subscription) (t : Time) (w : World)
    → IsWf w.mem
    → Leads Any (reschedule_or_expire_after_refusal e att sub t) w
unfolding reschedule_or_expire_after_refusal
reschedule-Leads e att sub t w v =
    if-Leads
      (not (retryable_refusal att.refusal_reason_code)
        || is_last e.config.renewal_retry_delays att.attempt_number)
      (λ final.
        bind-Leads (force_finish_action-Leads _ _ _ _ w v)
          (λ a u s q. plan_termination-Leads e.os _ _ t u s.wf))
      (λ more.
        bind-Leads (delay_at-Leads _ _ w v) (λ d u s q. force_finish_action-Leads _ _ _ _ u s.wf))
