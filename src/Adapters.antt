-- ===== src/Adapters.antt =====
-- internal/adapters/adapter.go: what the engine and the scheduler ask of a payment processor. The
-- processors' own adapters are parameters: values of `Adapter`. A call of one takes time, in which
-- other work changes the store: it is an action on the world.
use subscription_bridge.Prelude.{
  Bytes, Bool, false, List, [], ◌∷◌, Option, none, some, ◌==◌, bytes_eq, if◌then◌else◌, ℤ,
}
use subscription_bridge.Protocol.Errors.{Result, ok, err, panic, of_store, not_found}
use subscription_bridge.Protocol.Status.{Status}
use subscription_bridge.Protocol.Clock.{Time}
use subscription_bridge.Store.Models.{Family, Fields, Value, AttemptStatus}
use subscription_bridge.Store.World.{Act}

pub record CheckoutRequest : Type 0 where
  pub checkout_id : Bytes
  pub plan_id : Bytes
  pub return_url : Bytes
  pub idempotency_key : Bytes
  pub shopper_ref : Bytes
  pub amount_minor : ℤ
  pub currency : Bytes
  pub interval : Bytes
  pub stripe_price_id : Bytes
  pub merchant_account : Bytes
  pub country_code : Bytes
  pub public_base_url : Bytes
  pub expires_at : Time

pub record CheckoutResult : Type 0 where
  pub redirect_url : Bytes
  pub processor_checkout_id : Bytes
  pub processor_customer_id : Bytes
  pub expires_at : Time
  pub is_uncertain : Bool

pub record ProcessorSubscription : Type 0 where
  pub family : Family
  pub processor_customer_id : Bytes
  pub processor_subscription_id : Bytes
  pub processor_payment_id : Bytes
  pub shopper_reference : Bytes

pub record SubscriptionState : Type 0 where
  pub status : Status
  pub plan_price_id : Bytes
  pub current_period_start : Time
  pub current_period_end : Time
  pub cancel_at_period_end : Bool
  pub processor_customer_id : Bytes
  pub processor_sub_id : Bytes
  pub immediate_cancel : Bool
  pub deleted : Bool

-- The constants of `NormalizedKind`, or another string.
pub data Kind : Type 0 where
  stripe_checkout_changed stripe_subscription_changed : Kind
  adyen_initial_authorisation adyen_renewal_authorisation : Kind
  adyen_contract_changed adyen_operational_adjustment : Kind
  other : Bytes → Kind

-- `NormalizedEvent`, without the time of occurrence, which nothing reads.
pub record NormalizedEvent : Type 0 where
  pub processor_family : Family
  pub processor_event_id : Bytes
  pub provider_event_type : Bytes
  pub normalized_kind : Kind
  pub payload_hash : Bytes
  pub fields : Fields
  pub sensitive_plain : Bytes

-- `RenewalRequest`, less the two fields that the scheduler leaves empty.
pub record RenewalRequest : Type 0 where
  pub endpoint : Bytes
  pub api_version : Bytes
  pub merchant_account : Bytes
  pub amount_minor : ℤ
  pub currency : Bytes
  pub attempt_reference : Bytes
  pub idempotency_key : Bytes
  pub canonical_body : Bytes

pub record RenewalAttempt : Type 0 where
  pub endpoint : Bytes
  pub api_version : Bytes
  pub idempotency_key : Bytes
  pub canonical_body : Bytes
  pub attempt_ref : Bytes

-- `RenewalResult`, and `RenewalResolution`, which has the same fields. A status that is not
-- `authorized` is not told apart from another by the scheduler.
pub record RenewalResult : Type 0 where
  pub status : AttemptStatus
  pub processor_payment_id : Bytes
  pub refusal_code : Bytes
  pub is_uncertain : Bool

-- `http.Header`: the values of each name.
abbrev pub Header : Type 0
Header = List (Bytes × List Bytes)

-- The methods of ProcessorAdapter that the engine and the scheduler call.
pub record Adapter : Type 0 where
  pub create_checkout : CheckoutRequest → Act CheckoutResult
  pub parse_webhook : Header → Bytes → Act (List NormalizedEvent)
  pub get_subscription : ProcessorSubscription → Act (Option SubscriptionState)
  pub charge_renewal : RenewalRequest → Act RenewalResult
  pub resolve_renewal_attempt : RenewalAttempt → Act RenewalResult

abbrev pub field : Fields → Bytes → Option Value
field [] name = none
field ((n, v) ∷ rest) name = if n == name then some v else field rest name

-- `s, _ := Fields[name].(string)`
unfoldable pub text_field : Fields → Bytes → Bytes
text_field fields name = as_text (field fields name)
  where
    as_text : Option Value → Bytes
    as_text (some (Value.text s)) = s
    as_text _ = []

-- `b, _ := Fields[name].(bool)`
unfoldable pub flag_field : Fields → Bytes → Bool
flag_field fields name = as_flag (field fields name)
  where
    as_flag : Option Value → Bool
    as_flag (some (Value.flag b)) = b
    as_flag _ = false

-- An action whose error its caller looks at. A panic is no error value.
abbrev pub caught {ℓ} : {A : Type ℓ} → Act A → Act (Result A)
caught m w = let (r, w') = m w in (taken r, w')
  where
    taken : {A : Type ℓ} → Result A → Result (Result A)
    taken (err (panic s)) = err (panic s)
    taken r = ok r

-- A query whose caller asks whether its error is `ErrNotFound`.
abbrev pub looked_up {ℓ} : {A : Type ℓ} → Act A → Act (Option A)
looked_up m w = let (r, w') = m w in (taken r, w')
  where
    taken : {A : Type ℓ} → Result A → Result (Option A)
    taken (ok a) = ok (some a)
    taken (err (of_store not_found)) = ok none
    taken (err e) = err e
