-- ===== src/Engine/Adyen.antt =====
-- applyAdyenInitial, applyAdyenRenewal and applyAdyenContract of internal/engine/engine.go.
use subscription_bridge.Prelude.{
  pos, Bytes, bytes, ◌||◌, not, [], Option, none, some, ◌==◌, bytes_eq, if◌then◌else◌,
}
use subscription_bridge.Protocol.Errors.{Result, ok, err}
use subscription_bridge.Protocol.Status.{Status, EventType}
use subscription_bridge.Protocol.Clock.{Time}
use subscription_bridge.Protocol.Civil.{add_calendar_months}
use subscription_bridge.Protocol.Identifier.{subscription_prefix}
use subscription_bridge.Store.Models.{
  Subscription, Checkout, CheckoutStatus, ChargeAttempt, AttemptStatus, ActionStatus, Family,
}
use subscription_bridge.Store.Models.Equality.{checkout_status_eq}
use subscription_bridge.Store.World.{Act, pure, lift, ◌>>=◌, ◌>>◌}
use subscription_bridge.Store.Checkouts.{get_checkout, update_checkout}
use subscription_bridge.Store.Subscriptions.{
  get_subscription, get_subscription_by_initial_payment, get_subscription_by_charge_payment,
}
use subscription_bridge.Store.Attempts.{get_attempt_by_reference, update_attempt}
use subscription_bridge.Store.Actions.{force_finish_action}
use subscription_bridge.Adapters.{NormalizedEvent, text_field, flag_field, caught}
use subscription_bridge.Engine.Transition.{first_activation, decide}
use subscription_bridge.Engine.Commit.{commit_change}
use subscription_bridge.Engine.Env.{
  Engine, new_id, no_subscription, str_ptr, apply_decision, charge_observed, cancel_observed,
  past_due_observed,
}
use subscription_bridge.Engine.Payments.{
  Applied, applied, review, assign_stored_payment_method, replace_stored_payment_method,
  reschedule_or_expire_after_refusal, done_at, or_old,
}

-- The checkout, completed by a subscription.
abbrev pub completed_by : Bytes → Checkout → Checkout
completed_by ref co = record co { status = CheckoutStatus.completed; subscription_ref = some ref }

-- The activation of applyAdyenInitial: for a month from now.
unfoldable pub activate_adyen : Engine → Checkout → NormalizedEvent → Time → Act Applied
activate_adyen e co ev t = do
  ref ← new_id subscription_prefix
  created ←
      assign_stored_payment_method e
        (first_activation co ref Status.active t (add_calendar_months e.cal t (pos 1)) t none none
          (str_ptr (text_field ev.fields (bytes "processor_payment_id")))
          co.processor_shopper_reference)
        ref ev
  commit_change e.os no_subscription created EventType.activated
  update_checkout (completed_by ref co)
  pure (applied (some ref))

-- An authorisation for a completed checkout brings a new payment method; any other activates.
unfoldable pub authorise : Engine → NormalizedEvent → Time → Checkout → Option Bytes → Act Applied
authorise e ev t co none = activate_adyen e co ev t
authorise e ev t co (some ref) =
    if co.status == CheckoutStatus.completed
    then replace_stored_payment_method e ref ev t
    else activate_adyen e co ev t

-- applyAdyenInitial
unfoldable pub apply_adyen_initial : Engine → NormalizedEvent → Time → Act Applied
apply_adyen_initial e ev t =
    let id = text_field ev.fields (bytes "checkout_id") in
    if not (flag_field ev.fields (bytes "success")) || id == []
    then pure (applied none)
    else (do co ← get_checkout id; authorise e ev t co co.subscription_ref)

-- An authorised renewal: the attempt and its action are finished, and the subscription is renewed for
-- the attempt's period.
unfoldable pub renewal_authorised : Engine → ChargeAttempt → Subscription → Time → Act Applied
renewal_authorised e att sub t = do
  update_attempt (record att { status = AttemptStatus.authorized })
  force_finish_action att.action_id ActionStatus.completed none none
  dec ← lift (decide sub (charge_observed att) t)
  sub' ← apply_decision e sub dec
  pure (applied (some sub'.subscription_ref))

-- A refused renewal.
unfoldable pub renewal_refused : Engine → ChargeAttempt → Bytes → Subscription → Time → Act Applied
renewal_refused e att refusal sub t = do
  let att' = record att {
    status = AttemptStatus.refused;
    refusal_reason_code = or_old refusal att.refusal_reason_code;
  }
  update_attempt att'
  dec ← lift (decide sub past_due_observed t)
  sub' ← apply_decision e sub dec
  reschedule_or_expire_after_refusal e att' sub' t
  pure (applied (some sub'.subscription_ref))

-- An attempt that is not yet finished.
unfoldable pub settle_renewal : Engine → NormalizedEvent → ChargeAttempt → Time → Act Applied
settle_renewal e ev att t = do
  let att' = record (done_at t att) {
    processor_payment_id =
        or_old (text_field ev.fields (bytes "processor_payment_id")) att.processor_payment_id;
  }
  sub ← get_subscription att.subscription_ref
  if flag_field ev.fields (bytes "success")
      then renewal_authorised e att' sub t
      else renewal_refused e att' (text_field ev.fields (bytes "refusal_code")) sub t

-- The switch on the status of the attempt.
unfoldable pub renew_by_status :
    Engine → NormalizedEvent → Time → ChargeAttempt → AttemptStatus → Act Applied
renew_by_status e ev t att AttemptStatus.authorized = do
  sub ← get_subscription att.subscription_ref
  pure (applied (some sub.subscription_ref))
renew_by_status e ev t att AttemptStatus.refused = pure (applied (some att.subscription_ref))
renew_by_status e ev t att AttemptStatus.canceled = pure (applied (some att.subscription_ref))
renew_by_status e ev t att AttemptStatus.manual_review = pure (applied (some att.subscription_ref))
renew_by_status e ev t att _ = settle_renewal e ev att t

unfoldable pub renew_found : Engine → NormalizedEvent → Time → Result ChargeAttempt → Act Applied
renew_found e ev t (err x) = pure review
renew_found e ev t (ok att) = renew_by_status e ev t att att.status

-- applyAdyenRenewal
unfoldable pub apply_adyen_renewal : Engine → NormalizedEvent → Time → Act Applied
apply_adyen_renewal e ev t =
    let ref = text_field ev.fields (bytes "attempt_reference") in
    if ref == []
    then pure review
    else (do found ← caught (get_attempt_by_reference ref); renew_found e ev t found)

-- The subscription that a payment belongs to: the one it began, or the one it renewed, and none where
-- these are two.
abbrev pub correlate : Result Subscription → Result Subscription → Option Subscription
correlate (ok initial) (ok charge) =
    if initial.subscription_ref == charge.subscription_ref then some initial else none
correlate (ok initial) (err x) = some initial
correlate (err x) (ok charge) = some charge
correlate (err x) (err y) = none

unfoldable pub end_contract : Engine → Time → Option Subscription → Act Applied
end_contract e t none = pure review
end_contract e t (some sub) = do
  dec ← lift (decide sub cancel_observed t)
  sub' ← apply_decision e sub dec
  pure (applied (some sub'.subscription_ref))

-- applyAdyenContract
unfoldable pub apply_adyen_contract : Engine → NormalizedEvent → Time → Act Applied
apply_adyen_contract e ev t =
    let id = text_field ev.fields (bytes "processor_payment_id") in
    if id == [] then pure review else (do
      initial ← caught (get_subscription_by_initial_payment Family.adyen id)
      charge ← caught (get_subscription_by_charge_payment id)
      end_contract e t (correlate initial charge))
