-- ===== src/Engine/Payments.antt =====
-- The handlers of internal/engine/engine.go for an Adyen subscription that end an authorisation, with
-- its stored payment method and its dunning.
use subscription_bridge.Prelude.{
  ◌+◌, ℕ, zero, suc, Bytes, bytes, Bool, true, false, ◌||◌, not, List, [], ◌∷◌, Option, none, some,
  ◌==◌, bytes_eq, if◌then◌else◌, ℤ, pos, ltb_ℤ, length,
}
use subscription_bridge.Protocol.Errors.{panic}
use subscription_bridge.Protocol.Status.{Status, status_eq}
use subscription_bridge.Protocol.Clock.{Time, Duration, truncate_utc}
use subscription_bridge.Protocol.Callback.{Platform, action_key}
use subscription_bridge.Store.Models.{Subscription, ChargeAttempt, ActionType, ActionStatus, Value}
use subscription_bridge.Store.Models.Equality.{checkout_status_eq}
use subscription_bridge.Store.World.{Act, pure, fail, new_token, ◌>>=◌, ◌>>◌}
use subscription_bridge.Store.Subscriptions.{get_subscription, update_subscription}
use subscription_bridge.Store.Actions.{insert_action, force_finish_action}
use subscription_bridge.Store.Audits.{insert_audit}
use subscription_bridge.Adapters.{NormalizedEvent}
use subscription_bridge.Envelope.{Box, Sealed, seal, aad}
use subscription_bridge.Engine.Refusal.{is_retryable_refusal}
use subscription_bridge.Engine.Commit.{unless_conflict, action_text}
use subscription_bridge.Engine.Env.{Engine}

-- What applyObservation returns: a reference or none; the reference and errUnknownStripePrice; or
-- errManualReview. Its other errors are errors of the action.
pub data Applied : Type 0 where
  applied : Option Bytes → Applied
  unknown_price : Bytes → Applied
  review : Applied

-- The row with a sealed payment method.
abbrev pub with_method : Sealed → Subscription → Subscription
with_method s sub = record sub {
  payment_method_ciphertext = s.ciphertext;
  payment_method_nonce = s.nonce;
  payment_method_key_version = some s.key_version;
}

-- assignStoredPaymentMethod: the subscription, changed
unfoldable pub assign_with :
    Engine → Subscription → Bytes → NormalizedEvent → Option Box → Act Subscription
assign_with e sub ref ev none = pure sub
assign_with e sub ref ev (some box) = if ev.sensitive_plain == [] then pure sub else (do
  s ← seal e.aead box ev.sensitive_plain (aad (bytes "payment-method") ref)
  pure (with_method s sub))

unfoldable pub assign_stored_payment_method :
    Engine → Subscription → Bytes → NormalizedEvent → Act Subscription
assign_stored_payment_method e sub ref ev = assign_with e sub ref ev e.box

-- What a new payment method clears.
abbrev pub unblocked : Time → Subscription → Subscription
unblocked t sub = record sub {
  automatic_charging_blocked = false;
  charging_block_reason = none;
  updated_at = t;
}

-- replaceStoredPaymentMethod
unfoldable pub replace_stored_payment_method : Engine → Bytes → NormalizedEvent → Time → Act Applied
replace_stored_payment_method e ref ev t =
    if ev.sensitive_plain == []
    then pure (applied (some ref))
    else (do sub ← get_subscription ref; replaced sub)
  where
    replaced : Subscription → Act Applied
    replaced sub = if sub.status == Status.expired then pure (applied (some ref)) else (do
      sub' ← assign_stored_payment_method e sub sub.subscription_ref ev
      update_subscription (unblocked t sub')
      id ← new_token
      insert_audit (record {
        audit_id = id;
        action = bytes "payment-method-replaced";
        target_type = bytes "subscription";
        target_id = sub'.subscription_ref;
        actor = bytes "engine";
        reason = bytes "adyen-stored-payment-method";
        metadata =
            if sub'.automatic_charging_blocked
            then (bytes "cleared_charging_block", Value.flag true) ∷ []
            else [];
      })
      pure (applied (some ref)))

-- retryableRefusal
unfoldable pub retryable_refusal : Option Bytes → Bool
retryable_refusal none = true
retryable_refusal (some code) = is_retryable_refusal code

-- `delays[i]`
abbrev pub get_elem? {ℓ} : {A : Type ℓ} → List A → ℕ → Option A
get_elem? [] i = none
get_elem? (x ∷ xs) zero = some x
get_elem? (x ∷ xs) (suc i) = get_elem? xs i

-- `delays[n-1]`, which panics out of range.
unfoldable pub delay_at : List Duration → ℤ → Act Duration
delay_at delays (pos (suc i)) = in_range (get_elem? delays i)
  where
    in_range : Option Duration → Act Duration
    in_range none = fail (panic (bytes "index out of range"))
    in_range (some d) = pure d
delay_at delays _ = fail (panic (bytes "index out of range"))

-- `n >= len(delays)`
abbrev pub is_last : List Duration → ℤ → Bool
is_last delays n = not (ltb_ℤ n (pos (length delays)))

-- The expiry that ends an exhausted dunning.
unfoldable pub plan_termination : Platform → Duration → Bytes → Time → Act (Unit {0})
plan_termination os delay ref t = do
  let target = truncate_utc (t + delay)
  id ← new_token
  unless_conflict (
      insert_action (record {
        action_id = id;
        action_key = action_key os ref (action_text ActionType.expire) target;
        subscription_ref = ref;
        action_type = ActionType.expire;
        target_at = target;
        due_at = target;
        status = ActionStatus.pending;
        claim_token = none;
        fencing_token = pos 0;
        lease_until = none;
        last_error_class = none;
      }))

-- rescheduleOrExpireAfterRefusal
unfoldable pub reschedule_or_expire_after_refusal :
    Engine → ChargeAttempt → Subscription → Time → Act (Unit {0})
reschedule_or_expire_after_refusal e att sub t =
    if not (retryable_refusal att.refusal_reason_code)
      || is_last e.config.renewal_retry_delays att.attempt_number
    then (do
      force_finish_action att.action_id ActionStatus.completed none (some (bytes "refused"))
      plan_termination e.os e.config.dunning_termination sub.subscription_ref t)
    else (do
      delay ← delay_at e.config.renewal_retry_delays att.attempt_number
      force_finish_action att.action_id ActionStatus.pending (some (t + delay))
          (some (bytes "refused")))

-- The attempt, done.
abbrev pub done_at : Time → ChargeAttempt → ChargeAttempt
done_at t att = record att { claim_token = none; lease_until = none; completed_at = some t }

-- `if id != "" { … = StrPtr(id) }`
abbrev pub or_old : Bytes → Option Bytes → Option Bytes
or_old s old = if s == [] then old else some s
