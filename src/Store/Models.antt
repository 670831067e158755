-- ===== src/Store/Models.antt =====
-- internal/store/models.go, with the status strings of internal/protocol/const.go that its rows hold.
-- A pointer field is an `Option`: the program assigns fresh pointers and never writes through one, so
-- rows are values. A status is one of its named strings or `other`, any string besides.
pub mod Equality
use subscription_bridge.Prelude.{Bytes, Bool, List, Option, ℤ}
use subscription_bridge.Protocol.Status.{Status, EventType}
use subscription_bridge.Protocol.Clock.{Time}

pub data CheckoutStatus : Type 0 where
  creating pending completed expired canceled : CheckoutStatus
  other : Bytes → CheckoutStatus

pub data DeliveryState : Type 0 where
  pending delivered dead_lettered abandoned : DeliveryState
  other : Bytes → DeliveryState

pub data ActionType : Type 0 where
  renew expire : ActionType
  other : Bytes → ActionType

pub data ActionStatus : Type 0 where
  pending running uncertain completed canceled manual_review : ActionStatus
  other : Bytes → ActionStatus

pub data AttemptStatus : Type 0 where
  prepared running uncertain authorized refused canceled manual_review : AttemptStatus
  other : Bytes → AttemptStatus

pub data ProcessingState : Type 0 where
  pending running processed quarantined manual_review : ProcessingState
  other : Bytes → ProcessingState

pub data LeaseStatus : Type 0 where
  running idle : LeaseStatus
  other : Bytes → LeaseStatus

-- The processor family: its two trusted names, or another string.
pub data Family : Type 0 where
  stripe adyen : Family
  other : Bytes → Family

-- What a field of type `any` holds in this program.
pub data Value : Type 0 where
  text : Bytes → Value
  flag : Bool → Value

abbrev pub Fields : Type 0
Fields = List (Bytes × Value)

pub record Checkout : Type 0 where
  pub checkout_id : Bytes
  pub plan_id : Bytes
  pub normalized_return_url : Bytes
  pub processor_family : Family
  pub request_fingerprint : Bytes
  pub provider_idempotency_key : Bytes
  pub processor_shopper_reference : Option Bytes
  pub status : CheckoutStatus
  pub subscription_ref : Option Bytes
  pub processor_checkout_id : Option Bytes
  pub expires_at : Time
  pub created_at : Time
  pub updated_at : Time

pub record Subscription : Type 0 where
  pub subscription_ref : Bytes
  pub checkout_id : Bytes
  pub plan_id : Bytes
  pub status : Status
  pub state_version : ℤ
  pub processor_family : Family
  pub processor_customer_id : Option Bytes
  pub processor_subscription_id : Option Bytes
  pub processor_initial_payment_id : Option Bytes
  pub processor_shopper_reference : Option Bytes
  pub payment_method_ciphertext : Bytes
  pub payment_method_nonce : Bytes
  pub payment_method_key_version : Option Bytes
  pub current_period_start : Time
  pub current_period_end : Time
  pub cancel_at_period_end : Bool
  pub state_changed_at : Time
  pub past_due_since : Option Time
  pub canceled_at : Option Time
  pub automatic_charging_blocked : Bool
  pub charging_block_reason : Option Bytes
  pub created_at : Time
  pub updated_at : Time

pub record OutboundEvent : Type 0 where
  pub event_id : Bytes
  pub event_type : EventType
  pub subscription_ref : Bytes
  pub checkout_id : Bytes
  pub state_version : ℤ
  pub payload_body : Bytes
  pub delivery_state : DeliveryState
  pub attempt_count : ℤ
  pub next_attempt_at : Option Time
  pub delivered_at : Option Time
  pub dead_lettered_at : Option Time
  pub abandoned_at : Option Time
  pub last_error_class : Option Bytes
  pub claim_token : Option Bytes
  pub fencing_token : ℤ
  pub lease_until : Option Time
  pub created_at : Time

pub record ProcessorEvent : Type 0 where
  pub processor_family : Family
  pub processor_event_id : Bytes
  pub processing_action_id : Bytes
  pub provider_event_type : Bytes
  pub payload_hash : Bytes
  pub normalized_fields : Fields
  pub sensitive_ciphertext : Bytes
  pub sensitive_nonce : Bytes
  pub sensitive_key_version : Option Bytes
  pub processing_state : ProcessingState
  pub subscription_ref : Option Bytes
  pub received_at : Time
  pub processed_at : Option Time
  pub claim_token : Option Bytes
  pub fencing_token : ℤ
  pub lease_until : Option Time
  pub last_error_class : Option Bytes

pub record ProcessingLease : Type 0 where
  pub processing_key : Bytes
  pub status : LeaseStatus
  pub active_action_id : Option Bytes
  pub claim_token : Option Bytes
  pub fencing_token : ℤ
  pub lease_until : Option Time

pub record ScheduledAction : Type 0 where
  pub action_id : Bytes
  pub action_key : Bytes
  pub subscription_ref : Bytes
  pub action_type : ActionType
  pub target_at : Time
  pub due_at : Time
  pub status : ActionStatus
  pub claim_token : Option Bytes
  pub fencing_token : ℤ
  pub lease_until : Option Time
  pub last_error_class : Option Bytes

pub record ChargeAttempt : Type 0 where
  pub attempt_id : Bytes
  pub action_id : Bytes
  pub subscription_ref : Bytes
  pub period_start : Time
  pub period_end : Time
  pub attempt_number : ℤ
  pub provider_endpoint : Bytes
  pub provider_api_version : Bytes
  pub merchant_account : Bytes
  pub amount_minor : ℤ
  pub currency : Bytes
  pub attempt_reference : Bytes
  pub shopper_reference : Bytes
  pub shopper_interaction : Bytes
  pub recurring_processing_model : Bytes
  pub idempotency_key : Bytes
  pub request_fingerprint : Bytes
  pub request_ciphertext : Bytes
  pub request_nonce : Bytes
  pub request_key_version : Bytes
  pub processor_payment_id : Option Bytes
  pub status : AttemptStatus
  pub claim_token : Option Bytes
  pub fencing_token : ℤ
  pub lease_until : Option Time
  pub first_submitted_at : Option Time
  pub resolution_deadline : Option Time
  pub refusal_reason_code : Option Bytes
  pub completed_at : Option Time

pub record Audit : Type 0 where
  pub audit_id : Bytes
  pub action : Bytes
  pub target_type : Bytes
  pub target_id : Bytes
  pub actor : Bytes
  pub reason : Bytes
  pub metadata : Fields
