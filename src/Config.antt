-- ===== src/Config.antt =====
-- internal/config/config.go: the plan catalog and the settings that the engine and the scheduler read,
-- ResolvePlan, StripePriceMap and ValidatePlans. Reading the environment and the file is not modelled.
pub mod Plans
use subscription_bridge.Prelude.{
  ℕ, Bytes, bytes, Bool, true, false, ◌&&◌, ◌||◌, not, List, [], ◌∷◌, Option, none, some, ◌==◌,
  bytes_eq, if◌then◌else◌, ℤ, pos, ltb_ℤ,
}
use subscription_bridge.Protocol.Errors.{
  Error, Result, ok, err, of_protocol, unknown_plan, message, ◌>>=◌, ◌>>◌,
}
use subscription_bridge.Protocol.Clock.{Duration}
use subscription_bridge.Protocol.Callback.{Platform, validate_plan_id}
use subscription_bridge.Store.Models.{Family}
use subscription_bridge.Store.Models.Equality.{family_eq}
use subscription_bridge.Store.Table
use subscription_bridge.Store.Table.{Table}

-- `Plan`, with the fields of StripePlan and AdyenPlan.
pub record Plan : Type 0 where
  pub processor : Family
  pub currency : Bytes
  pub amount_minor : ℤ
  pub interval : Bytes
  pub stripe_price_id : Bytes
  pub merchant_account : Bytes
  pub country_code : Bytes

pub record Catalog : Type 0 where
  pub default_processor : Family
  pub plans : Table Plan

-- The settings that are read after start-up. `Load` refuses a negative duration.
pub record Config : Type 0 where
  pub public_url : Bytes
  pub default_processor : Family
  pub stripe_secret_key : Bytes
  pub stripe_webhook_secret : Bytes
  pub adyen_api_key : Bytes
  pub adyen_hmac_key : Bytes
  pub adyen_client_key : Bytes
  pub adyen_live_prefix : Bytes
  pub adyen_environment : Bytes
  pub adyen_data_encryption_key : Bytes
  pub renewal_retry_delays : List Duration
  pub dunning_termination : Duration
  pub adyen_resolution_deadline : Duration
  pub catalog : Catalog

-- `processor == ""`
abbrev pub no_family : Family
no_family = Family.other []

abbrev pub is_no_family : Family → Bool
is_no_family f = f == no_family

-- `first`, or `second` where the first is empty.
abbrev pub or_family : Family → Family → Family
or_family first second = if is_no_family first then second else first

-- ResolvePlan: the plan, its `processor` set, and the family.
unfoldable pub resolve_plan : Config → Bytes → Result (Plan × Family)
resolve_plan c id = resolved (Table.get c.catalog.plans id)
  where
    resolved : Option Plan → Result (Plan × Family)
    resolved none = err (of_protocol unknown_plan)
    resolved (some plan) =
        let family =
          or_family plan.processor (or_family c.default_processor c.catalog.default_processor) in
        ok (record plan { processor = family }, family)

-- The loop of StripePriceMap: a later plan takes the place of an earlier one with the same price.
unfoldable pub price_map : Table Bytes → List (Bytes × Plan) → Table Bytes
price_map out [] = out
price_map out ((id, plan) ∷ rest) =
    price_map (if plan.stripe_price_id == [] then out else Table.put out plan.stripe_price_id id)
      rest

-- StripePriceMap
unfoldable pub stripe_price_map : Config → Table Bytes
stripe_price_map c = price_map Table.empty c.catalog.plans.rows

-- Which processors the plans select.
pub record Selected : Type 0 where
  pub stripe : Bool
  pub adyen : Bool

abbrev pub reject_if : Bool → Bytes → Result (Unit {0})
reject_if true text = err (message text)
reject_if false text = ok tt

abbrev pub is_trusted : Family → Bool
is_trusted f = f == Family.stripe || f == Family.adyen

module _ (os : Platform) where
  -- The body of the loop of ValidatePlans. The errors' texts leave the plan's name out.
  unfoldable pub validate_plan : Family → Bytes → Plan → Result (Unit {0})
  validate_plan def id plan = do
    validate_plan_id os id
    let family = or_family plan.processor def
    reject_if (not (is_trusted family)) (bytes "unknown processor")
    reject_if (not (ltb_ℤ (pos 0) plan.amount_minor) || plan.currency == [] || plan.interval == [])
        (bytes "amount, currency, and interval are required")
    reject_if (family == Family.stripe && plan.stripe_price_id == [])
        (bytes "stripe.price_id is required")
    reject_if (family == Family.adyen && (plan.merchant_account == [] || plan.country_code == []))
        (bytes "adyen merchant_account and country_code are required")

  unfoldable pub validate_each : Family → Selected → List (Bytes × Plan) → Result Selected
  validate_each def s [] = ok s
  validate_each def s ((id, plan) ∷ rest) = do
    validate_plan def id plan
    let family = or_family plan.processor def
    validate_each def
        (record s {
          stripe = s.stripe || family == Family.stripe;
          adyen = s.adyen || family == Family.adyen;
        })
        rest

  -- ValidatePlans
  unfoldable pub validate_plans : Config → Result (Unit {0})
  validate_plans c = do
    let def = or_family c.default_processor c.catalog.default_processor
    reject_if (is_no_family def) (bytes "default processor is required")
    reject_if (not (is_trusted def)) (bytes "unknown default processor")
    s ← validate_each def (record { stripe = false; adyen = false }) c.catalog.plans.rows
    reject_if (s.stripe && (c.stripe_secret_key == [] || c.stripe_webhook_secret == []))
        (bytes "stripe credentials are required for configured stripe plans")
    reject_if
        (s.adyen
          && (c.adyen_api_key == []
              || c.adyen_hmac_key == []
              || c.adyen_client_key == []
              || c.adyen_data_encryption_key == []))
        (bytes
          "adyen credentials, client key, and data-encryption key are required for configured adyen plans")
    reject_if
        (s.adyen
          && not (c.adyen_environment == bytes "test" || c.adyen_environment == bytes "live"))
        (bytes "ADYEN_ENVIRONMENT must be test or live")
    reject_if (s.adyen && c.adyen_environment == bytes "live" && c.adyen_live_prefix == [])
        (bytes "ADYEN_LIVE_PREFIX is required in live")
