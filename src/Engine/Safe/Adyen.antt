-- ===== src/Engine/Safe/Adyen.antt =====
-- The handlers of Adyen's events are safe.
use subscription_bridge.Prelude.{
  Bytes, bytes, Bool, true, false, ◌||◌, not, [], Option, none, some, ◌==◌, bytes_eq, int_eq,
  if◌then◌else◌,
}
use subscription_bridge.Protocol.Errors.{Result, ok, err}
use subscription_bridge.Protocol.Status.{EventType, event_eq, status_eq}
use subscription_bridge.Protocol.Clock.{Time}
use subscription_bridge.Store.Models.{
  Subscription, Checkout, ChargeAttempt, AttemptStatus, Family, CheckoutStatus,
}
use subscription_bridge.Store.Models.Equality.{
  family_eq, checkout_status_eq, attempt_status_eq, delivery_eq,
}
use subscription_bridge.Store.World.{Memory, World}
use subscription_bridge.Store.Invariant.{IsWf}
use subscription_bridge.Store.Safe.{Leads, Any, Step, Step-trans, pure-Leads, if-Leads, bind-Leads}
use subscription_bridge.Store.Safe.Methods.{force_finish_action-Leads}
use subscription_bridge.Store.Safe.Rows.{
  HasSub, HasSub-later, HasCheckout, HasCheckout-later, HasAttempt, HasAttempt-later,
  get_checkout-Leads, get_subscription-Leads, get_attempt_by_reference-Leads,
  get_subscription_by_initial_payment-Leads, get_subscription_by_charge_payment-Leads,
}
use subscription_bridge.Store.Safe.Writes.{update_checkout-Leads, update_attempt-Leads}
use subscription_bridge.Adapters.{NormalizedEvent, text_field, flag_field}
use subscription_bridge.Engine.Env.{Engine, past_due_observed, charge_observed, cancel_observed}
use subscription_bridge.Engine.Safe.Commits.{
  new_id-Leads, apply_decision-Leads, OnOk, caught-Leads, OnSome, first_commit-Leads, decide-Leads,
}
use subscription_bridge.Engine.Adyen.{
  completed_by, activate_adyen, authorise, apply_adyen_initial, renewal_authorised, renewal_refused,
  settle_renewal, renew_by_status, renew_found, apply_adyen_renewal, correlate, end_contract,
  apply_adyen_contract,
}
use subscription_bridge.Engine.Safe.Payments.{
  assign_stored_payment_method-Leads, replace_stored_payment_method-Leads, reschedule-Leads,
}

activate_adyen-Leads :
    (e : Engine) (co : Checkout) (ev : NormalizedEvent) (t : Time) (w : World)
    → IsWf w.mem
    → HasCheckout co w.mem
    → Leads Any (activate_adyen e co ev t) w
unfolding activate_adyen
activate_adyen-Leads e co ev t w v h = bind-Leads (new_id-Leads _ w v) (λ ref u s q.
    bind-Leads (assign_stored_payment_method-Leads e _ ref ev u s.wf) (λ created x s₂ q₂.
      bind-Leads (first_commit-Leads e created EventType.activated x s₂.wf) (λ a y s₃ q₃.
        bind-Leads
          (update_checkout-Leads (completed_by ref co) y s₃.wf (record {
            row = (HasCheckout-later co w y (Step-trans w x y (Step-trans w u x s s₂) s₃) h).row;
          }))
          (λ b z s₄ q₄. pure-Leads s₄.wf tt))))

authorise-Leads :
    (e : Engine) (ev : NormalizedEvent) (t : Time) (co : Checkout) (ref : Option Bytes) (w : World)
    → IsWf w.mem
    → HasCheckout co w.mem
    → Leads Any (authorise e ev t co ref) w
unfolding authorise
authorise-Leads e ev t co none w v h = activate_adyen-Leads e co ev t w v h
authorise-Leads e ev t co (some ref) w v h =
    if-Leads (co.status == CheckoutStatus.completed)
      (λ done. replace_stored_payment_method-Leads e ref ev t w v)
      (λ new. activate_adyen-Leads e co ev t w v h)

pub apply_adyen_initial-Leads :
    (e : Engine) (ev : NormalizedEvent) (t : Time) (w : World)
    → IsWf w.mem
    → Leads Any (apply_adyen_initial e ev t) w
unfolding apply_adyen_initial
apply_adyen_initial-Leads e ev t w v =
    if-Leads
      (not (flag_field ev.fields (bytes "success"))
        || text_field ev.fields (bytes "checkout_id") == [])
      (λ other. pure-Leads v tt)
      (λ paid.
        bind-Leads (get_checkout-Leads _ w v)
          (λ co u s h. authorise-Leads e ev t co co.subscription_ref u s.wf h))

renewal_authorised-Leads :
    (e : Engine) (att : ChargeAttempt) (sub : Subscription) (t : Time) (w : World)
    → IsWf w.mem
    → HasAttempt att w.mem
    → HasSub sub w.mem
    → Leads Any (renewal_authorised e att sub t) w
unfolding renewal_authorised
renewal_authorised-Leads e att sub t w v a h =
    bind-Leads (update_attempt-Leads _ w v (record { row = a.row })) (λ x u s q.
      bind-Leads (force_finish_action-Leads _ _ _ _ u s.wf) (λ y x₂ s₂ q₂.
        bind-Leads (decide-Leads sub (charge_observed att) t x₂ s₂.wf) (λ dec x₃ s₃ made.
          bind-Leads
            (apply_decision-Leads e sub (charge_observed att) t dec x₃ s₃.wf made
              (HasSub-later sub w x₃ (Step-trans w x₂ x₃ (Step-trans w u x₂ s s₂) s₃) h))
            (λ z x₄ s₄ q₄. pure-Leads s₄.wf tt))))

renewal_refused-Leads :
    (e : Engine) (att : ChargeAttempt) (refusal : Bytes) (sub : Subscription) (t : Time) (w : World)
    → IsWf w.mem
    → HasAttempt att w.mem
    → HasSub sub w.mem
    → Leads Any (renewal_refused e att refusal sub t) w
unfolding renewal_refused
renewal_refused-Leads e att refusal sub t w v a h =
    bind-Leads (update_attempt-Leads _ w v (record { row = a.row })) (λ x u s q.
      bind-Leads (decide-Leads sub past_due_observed t u s.wf) (λ dec x₂ s₂ made.
        bind-Leads
          (apply_decision-Leads e sub past_due_observed t dec x₂ s₂.wf made
            (HasSub-later sub w x₂ (Step-trans w u x₂ s s₂) h))
          (λ sub' x₃ s₃ q₃.
            bind-Leads (reschedule-Leads e _ sub' t x₃ s₃.wf) (λ z x₄ s₄ q₄. pure-Leads s₄.wf tt))))

settle_renewal-Leads :
    (e : Engine) (ev : NormalizedEvent) (att : ChargeAttempt) (t : Time) (w : World)
    → IsWf w.mem
    → HasAttempt att w.mem
    → Leads Any (settle_renewal e ev att t) w
unfolding settle_renewal
settle_renewal-Leads e ev att t w v a =
    bind-Leads (get_subscription-Leads att.subscription_ref w v) (λ sub u s h.
      if-Leads (flag_field ev.fields (bytes "success"))
        (λ paid.
          renewal_authorised-Leads e _ sub t u s.wf
            (record { row = (HasAttempt-later att w u s a).row }) h)
        (λ refused.
          renewal_refused-Leads e _ _ sub t u s.wf
            (record { row = (HasAttempt-later att w u s a).row }) h))

renew_by_status-Leads :
    (e : Engine) (ev : NormalizedEvent) (t : Time) (att : ChargeAttempt) (st : AttemptStatus)
    (w : World)
    → IsWf w.mem
    → HasAttempt att w.mem
    → Leads Any (renew_by_status e ev t att st) w
unfolding renew_by_status
renew_by_status-Leads e ev t att AttemptStatus.authorized w v a =
    bind-Leads (get_subscription-Leads att.subscription_ref w v) (λ sub u s h. pure-Leads s.wf tt)
renew_by_status-Leads e ev t att AttemptStatus.refused w v a = pure-Leads v tt
renew_by_status-Leads e ev t att AttemptStatus.canceled w v a = pure-Leads v tt
renew_by_status-Leads e ev t att AttemptStatus.manual_review w v a = pure-Leads v tt
renew_by_status-Leads e ev t att AttemptStatus.prepared w v a =
    settle_renewal-Leads e ev att t w v a
renew_by_status-Leads e ev t att AttemptStatus.running w v a = settle_renewal-Leads e ev att t w v a
renew_by_status-Leads e ev t att AttemptStatus.uncertain w v a =
    settle_renewal-Leads e ev att t w v a
renew_by_status-Leads e ev t att (AttemptStatus.other x) w v a =
    settle_renewal-Leads e ev att t w v a

renew_found-Leads :
    (e : Engine) (ev : NormalizedEvent) (t : Time) (r : Result ChargeAttempt) (w : World)
    → IsWf w.mem
    → OnOk HasAttempt r w.mem
    → Leads Any (renew_found e ev t r) w
unfolding renew_found
renew_found-Leads e ev t (err x) w v a = pure-Leads v tt
renew_found-Leads e ev t (ok att) w v a = renew_by_status-Leads e ev t att att.status w v a

pub apply_adyen_renewal-Leads :
    (e : Engine) (ev : NormalizedEvent) (t : Time) (w : World)
    → IsWf w.mem
    → Leads Any (apply_adyen_renewal e ev t) w
unfolding apply_adyen_renewal
apply_adyen_renewal-Leads e ev t w v =
    if-Leads (text_field ev.fields (bytes "attempt_reference") == []) (λ none_. pure-Leads v tt)
      (λ named.
        bind-Leads (caught-Leads (get_attempt_by_reference-Leads _ w v))
          (λ r u s a. renew_found-Leads e ev t r u s.wf a))

end_contract-Leads :
    (e : Engine) (t : Time) (o : Option Subscription) (w : World)
    → IsWf w.mem
    → OnSome HasSub o w.mem
    → Leads Any (end_contract e t o) w
unfolding end_contract
end_contract-Leads e t none w v h = pure-Leads v tt
end_contract-Leads e t (some sub) w v h =
    bind-Leads (decide-Leads sub cancel_observed t w v) (λ dec u s made.
      bind-Leads
        (apply_decision-Leads e sub cancel_observed t dec u s.wf made (HasSub-later sub w u s h))
        (λ z x s₂ q₂. pure-Leads s₂.wf tt))

correlate-HasSub :
    (i c : Result Subscription) (m : Memory)
    → OnOk HasSub i m
    → OnOk HasSub c m
    → OnSome HasSub (correlate i c) m
correlate-HasSub (ok i) (ok c) m h k = same (i.subscription_ref == c.subscription_ref)
  where
    same : (b : Bool) → OnSome HasSub (if b then some i else none) m
    same true = h
    same false = tt
correlate-HasSub (ok i) (err x) m h k = h
correlate-HasSub (err x) (ok c) m h k = k
correlate-HasSub (err x) (err y) m h k = tt

OnOk-later :
    (r : Result Subscription) (w u : World) → Step w u → OnOk HasSub r w.mem → OnOk HasSub r u.mem
OnOk-later (ok a) w u s h = HasSub-later a w u s h
OnOk-later (err e) w u s h = tt

pub apply_adyen_contract-Leads :
    (e : Engine) (ev : NormalizedEvent) (t : Time) (w : World)
    → IsWf w.mem
    → Leads Any (apply_adyen_contract e ev t) w
unfolding apply_adyen_contract
apply_adyen_contract-Leads e ev t w v =
    if-Leads (text_field ev.fields (bytes "processor_payment_id") == []) (λ none_. pure-Leads v tt)
      (λ named.
        bind-Leads (caught-Leads (get_subscription_by_initial_payment-Leads Family.adyen _ w v))
          (λ i u s h.
            bind-Leads (caught-Leads (get_subscription_by_charge_payment-Leads _ u s.wf))
              (λ c x s₂ k.
                end_contract-Leads e t (correlate i c) x s₂.wf
                  (correlate-HasSub i c x.mem (OnOk-later i u x s₂ h) k))))
