-- ===== src/Tests/Engines.antt =====
-- A catalog, adapters that answer at once, an engine, and rows for it to work on.
use subscription_bridge.Prelude.{
  ℕ, ℤ, pos, negsuc, ◌*◌, subst, bytes, [], ◌∷◌, Option, none, some, false,
}
use subscription_bridge.Protocol.Errors.{ok}
use subscription_bridge.Protocol.Civil.{Calendar}
use subscription_bridge.Protocol.Clock.{second}
use subscription_bridge.Store.Models.{
  Checkout, CheckoutStatus, ChargeAttempt, AttemptStatus, Family,
}
use subscription_bridge.Store.World.{pure}
use subscription_bridge.Store.Safe.{pure-Leads}
use subscription_bridge.Adapters.{Adapter, NormalizedEvent, Kind}
use subscription_bridge.Config.{Plan, Config}
use subscription_bridge.Envelope.{Gcm, Aead}
use subscription_bridge.Engine.Env.{Engine}
use subscription_bridge.Engine.Checkouts.{StartClaims}
use subscription_bridge.Engine.Safe.Commits.{IsTame, AllTame}
use subscription_bridge.Tests.Commits.{sample}

abbrev pub basic : Plan
basic = record {
  processor = Family.stripe;
  currency = bytes "EUR";
  amount_minor = pos 500;
  interval = bytes "month";
  stripe_price_id = bytes "price_1";
  merchant_account = [];
  country_code = [];
}

abbrev pub settings : Config
settings = record {
  public_url = bytes "https://bridge.example";
  default_processor = Family.stripe;
  stripe_secret_key = bytes "sk";
  stripe_webhook_secret = bytes "whsec";
  adyen_api_key = [];
  adyen_hmac_key = [];
  adyen_client_key = [];
  adyen_live_prefix = [];
  adyen_environment = [];
  adyen_data_encryption_key = [];
  renewal_retry_delays = [];
  dunning_termination = 0;
  adyen_resolution_deadline = 0;
  catalog = record {
    default_processor = Family.stripe;
    plans = record { rows = (bytes "basic", basic) ∷ [] };
  };
}

abbrev pub quiet : Adapter
quiet = record {
  create_checkout = λ r. pure (record {
    redirect_url = bytes "https://pay.example";
    processor_checkout_id = bytes "cs_1";
    processor_customer_id = [];
    expires_at = 0;
    is_uncertain = false;
  });
  parse_webhook = λ h b. pure [];
  get_subscription = λ p. pure none;
  charge_renewal = λ r. pure (record {
    status = AttemptStatus.authorized;
    processor_payment_id = bytes "psp_1";
    refusal_code = [];
    is_uncertain = false;
  });
  resolve_renewal_attempt = λ r. pure (record {
    status = AttemptStatus.authorized;
    processor_payment_id = bytes "psp_1";
    refusal_code = [];
    is_uncertain = false;
  });
}

pub quiet-IsTame : IsTame quiet
quiet-IsTame = record {
  create_checkout = λ r w v. pure-Leads v tt;
  parse_webhook = λ h b w v. pure-Leads v tt;
  get_subscription = λ p w v. pure-Leads v tt;
  charge_renewal = λ r w v. pure-Leads v tt;
  resolve_renewal_attempt = λ r w v. pure-Leads v tt;
}

-- A cipher that writes the text as it is.
abbrev pub plain_gcm : Gcm
plain_gcm = record { encrypt = λ n p d. p; decrypt = λ n c d. some c }

abbrev pub plain_aead : Aead
plain_aead key = ok plain_gcm

abbrev months : ℤ → ℕ
months (pos n) = n
months (negsuc n) = 0

-- A calendar whose months are all the same.
abbrev flat : Calendar
flat = record {
  year_of = λ t. pos 2026;
  month_of = λ t. 1;
  day_of = λ t. 28;
  instant = λ y m d h mi s. months m * 2419200 * second;
}

abbrev pub engine : Engine
engine = record {
  config = settings;
  adapters = λ f. some quiet;
  box = none;
  os = sample;
  cal = flat;
  aead = plain_aead;
}

abbrev pub IsTameIfAny : Option Adapter → Type 0
IsTameIfAny none = Unit
IsTameIfAny (some a) = IsTame a

pub engine-AllTame : AllTame engine
engine-AllTame f a h = subst IsTameIfAny h quiet-IsTame

abbrev pub claims : StartClaims
claims = record {
  checkout_id = bytes "subchk_1";
  plan_id = bytes "basic";
  return_url = bytes "https://shop.example";
  iat = pos 1700000000;
  exp = pos 1700000600;
}

-- A checkout that another token started.
abbrev pub started : Checkout
started = record {
  checkout_id = bytes "subchk_1";
  plan_id = bytes "basic";
  normalized_return_url = bytes "https://other.example";
  processor_family = Family.stripe;
  request_fingerprint = 7 ∷ [];
  provider_idempotency_key = bytes "sb_checkout_subchk_1";
  processor_shopper_reference = none;
  status = CheckoutStatus.pending;
  subscription_ref = none;
  processor_checkout_id = some (bytes "cs_1");
  expires_at = 0;
  created_at = 0;
  updated_at = 0;
}

abbrev pub charge : ChargeAttempt
charge = record {
  attempt_id = bytes "att_1";
  action_id = bytes "a1";
  subscription_ref = bytes "sub_1";
  period_start = 5 * second;
  period_end = 9 * second;
  attempt_number = pos 1;
  provider_endpoint = [];
  provider_api_version = [];
  merchant_account = [];
  amount_minor = pos 500;
  currency = bytes "EUR";
  attempt_reference = bytes "ref_1";
  shopper_reference = [];
  shopper_interaction = [];
  recurring_processing_model = [];
  idempotency_key = bytes "key_1";
  request_fingerprint = [];
  request_ciphertext = [];
  request_nonce = [];
  request_key_version = [];
  processor_payment_id = none;
  status = AttemptStatus.prepared;
  claim_token = none;
  fencing_token = pos 0;
  lease_until = none;
  first_submitted_at = none;
  resolution_deadline = none;
  refusal_reason_code = none;
  completed_at = none;
}

abbrev pub notice : NormalizedEvent
notice = record {
  processor_family = Family.stripe;
  processor_event_id = bytes "evt_s";
  provider_event_type = [];
  normalized_kind = Kind.stripe_checkout_changed;
  payload_hash = [];
  fields = [];
  sensitive_plain = [];
}
