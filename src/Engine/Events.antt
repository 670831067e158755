-- ===== src/Engine/Events.antt =====
-- A provider's webhook through internal/engine/engine.go: IngestAndProcess, processNormalized and
-- applyObservation.
pub mod Repeats
use subscription_bridge.Prelude.{
  ◌*◌, Bytes, bytes, Bool, true, false, ◌&&◌, ◌||◌, not, List, [], ◌∷◌, ◌++◌, Option, none, some,
  ◌==◌, bytes_eq, int_eq, if◌then◌else◌, ℤ, pos,
}
use subscription_bridge.Protocol.Errors.{Error, Result, ok, err, panic}
use subscription_bridge.Protocol.Clock.{Time, minute}
use subscription_bridge.Store.Models.{ProcessorEvent, ProcessingLease, ProcessingState, Family}
use subscription_bridge.Store.Models.Equality.{processing_eq}
use subscription_bridge.Store.Subscriptions.{points_to}
use subscription_bridge.Store.World.{Act, pure, fail, lift, in_tx, now, new_token, ◌>>=◌, ◌>>◌}
use subscription_bridge.Store.ProcessorEvents.{
  insert_processor_event, claim_processor_event, get_processor_event, finish_processor_event,
  release_processor_lease, family_text,
}
use subscription_bridge.Adapters.{
  Header, Adapter, NormalizedEvent, SubscriptionState, Kind, text_field,
}
use subscription_bridge.Envelope.{Box, Sealed, seal, aad}
use subscription_bridge.Engine.Env.{Engine, adapter}
use subscription_bridge.Engine.Payments.{Applied, applied, unknown_price, review}
use subscription_bridge.Engine.Stripe.{apply_stripe}
use subscription_bridge.Engine.Adyen.{
  apply_adyen_initial, apply_adyen_renewal, apply_adyen_contract,
}

-- processingKeyFor
unfoldable pub processing_key_for : NormalizedEvent → Bytes
processing_key_for ev = first (text_field ev.fields (bytes "checkout_id")) (
    first (text_field ev.fields (bytes "processor_subscription_id")) (
      first (text_field ev.fields (bytes "attempt_reference"))
        (family_text ev.processor_family ++ bytes ":" ++ ev.processor_event_id)))
  where
    first : Bytes → Bytes → Bytes
    first s next = if s == [] then next else s

-- What is asked of Stripe: nothing about no subscription.
unfoldable pub ask_stripe : Adapter → Family → Bytes → Act (Option SubscriptionState)
ask_stripe ad family id =
    if id == []
    then pure none
    else ad.get_subscription (record {
      family = family;
      processor_customer_id = [];
      processor_subscription_id = id;
      processor_payment_id = [];
      shopper_reference = [];
    })

-- The kinds of event about which Stripe is asked.
abbrev pub is_stripe : Kind → Bool
is_stripe Kind.stripe_checkout_changed = true
is_stripe Kind.stripe_subscription_changed = true
is_stripe _ = false

-- observeProvider
unfoldable pub observe_provider : Adapter → NormalizedEvent → Act (Option SubscriptionState)
observe_provider ad ev =
    if is_stripe ev.normalized_kind
    then ask_stripe ad ev.processor_family
        (text_field ev.fields (bytes "processor_subscription_id"))
    else pure none

-- applyObservation
unfoldable pub apply_kind :
    Engine → NormalizedEvent → Option SubscriptionState → Time → Kind → Act Applied
apply_kind e ev state t Kind.stripe_checkout_changed = apply_stripe e ev state t
apply_kind e ev state t Kind.stripe_subscription_changed = apply_stripe e ev state t
apply_kind e ev state t Kind.adyen_initial_authorisation = apply_adyen_initial e ev t
apply_kind e ev state t Kind.adyen_renewal_authorisation = apply_adyen_renewal e ev t
apply_kind e ev state t Kind.adyen_contract_changed = apply_adyen_contract e ev t
apply_kind e ev state t _ = pure (applied none)

unfoldable pub apply_observation :
    Engine → NormalizedEvent → Option SubscriptionState → Time → Act Applied
apply_observation e ev state t = apply_kind e ev state t ev.normalized_kind

-- The row of a new event.
abbrev pub event_row : NormalizedEvent → Bytes → ProcessorEvent
event_row ev action_id = record {
  processor_family = ev.processor_family;
  processor_event_id = ev.processor_event_id;
  processing_action_id = action_id;
  provider_event_type = ev.provider_event_type;
  payload_hash = ev.payload_hash;
  normalized_fields = ev.fields;
  sensitive_ciphertext = [];
  sensitive_nonce = [];
  sensitive_key_version = none;
  processing_state = ProcessingState.pending;
  subscription_ref = none;
  received_at = 0;
  processed_at = none;
  claim_token = none;
  fencing_token = pos 0;
  lease_until = none;
  last_error_class = none;
}

abbrev pub with_sensitive : Sealed → ProcessorEvent → ProcessorEvent
with_sensitive s row = record row {
  sensitive_ciphertext = s.ciphertext;
  sensitive_nonce = s.nonce;
  sensitive_key_version = some s.key_version;
}

-- The sensitive part of an event is stored sealed.
unfoldable pub seal_with :
    Engine → NormalizedEvent → ProcessorEvent → Option Box → Act ProcessorEvent
seal_with e ev row none = pure row
seal_with e ev row (some box) = if ev.sensitive_plain == [] then pure row else (do
  s ← seal e.aead box ev.sensitive_plain (aad (bytes "provider-sensitive") ev.processor_event_id)
  pure (with_sensitive s row))

unfoldable pub seal_sensitive : Engine → NormalizedEvent → ProcessorEvent → Act ProcessorEvent
seal_sensitive e ev row = seal_with e ev row e.box

-- The state and the reference with which an event is finished.
abbrev pub state_of : Applied → ProcessingState
state_of (applied ref) = ProcessingState.processed
state_of (unknown_price ref) = ProcessingState.quarantined
state_of review = ProcessingState.manual_review

abbrev pub ref_of : Applied → Option Bytes
ref_of (applied ref) = ref
ref_of (unknown_price ref) = some ref
ref_of review = none

-- The event still runs under the lease that was claimed.
abbrev pub is_ours : ProcessorEvent → Bytes → ℤ → Bool
is_ours cur token fence =
    cur.processing_state == ProcessingState.running
    && points_to cur.claim_token token
    && cur.fencing_token == fence

-- The last transaction of processNormalized: under a lease that is still ours, the observation is
-- applied, the event is finished and the lease is released.
unfoldable pub apply_finish :
    Engine → NormalizedEvent → Bytes → ℤ → Option SubscriptionState → Time → Act (Unit {0})
apply_finish e ev token fence state t = do
  a ← apply_observation e ev state t
  finish_processor_event ev.processor_family ev.processor_event_id token fence (state_of a)
      (ref_of a) t
  release_processor_lease (processing_key_for ev) token fence

unfoldable pub apply_under :
    Engine → NormalizedEvent → Option Bytes → ℤ → Option SubscriptionState → Time → Act (Unit {0})
apply_under e ev none fence state t = do
  _ ← get_processor_event ev.processor_family ev.processor_event_id
  pure tt
apply_under e ev (some token) fence state t = do
  cur ← get_processor_event ev.processor_family ev.processor_event_id
  if is_ours cur token fence then apply_finish e ev token fence state t else pure tt

unfoldable pub apply_leased :
    Engine → NormalizedEvent → ProcessingLease → Option SubscriptionState → Time → Act (Unit {0})
apply_leased e ev lease state t = apply_under e ev lease.claim_token lease.fencing_token state t

-- The rest of processNormalized for an event that is new.
unfoldable pub process_new : Engine → Adapter → NormalizedEvent → Time → Act (Unit {0})
process_new e ad ev t = do
  (row, lease) ← in_tx (
      claim_processor_event ev.processor_family ev.processor_event_id (processing_key_for ev) t
        (2 * minute))
  state ← observe_provider ad ev
  in_tx (apply_leased e ev lease state t)

-- processNormalized
unfoldable pub process_normalized : Engine → Adapter → NormalizedEvent → Act (Unit {0})
process_normalized e ad ev = do
  t ← now
  id ← new_token
  row ← seal_sensitive e ev (event_row ev id)
  inserted ← in_tx (insert_processor_event row)
  if inserted then process_new e ad ev t else pure tt

unfoldable pub process_all : Engine → Adapter → List NormalizedEvent → Act (Unit {0})
process_all e ad [] = pure tt
process_all e ad (ev ∷ evs) = do process_normalized e ad ev; process_all e ad evs

-- IngestAndProcess
unfoldable pub ingest_and_process : Engine → Family → Header → Bytes → Act (Unit {0})
unfolding adapter
ingest_and_process e family headers body = do
  ad ← adapter e family
  events ← ad.parse_webhook headers body
  process_all e ad events
