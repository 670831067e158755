-- ===== src/Scheduler/Charges.antt =====
-- ensurePrepared and submit of internal/scheduler/scheduler.go: an attempt is stored before it is
-- sent, it is sent under a claim, and its outcome is stored by who still holds the claim. JSON text and
-- upper case, of which CanonicalPaymentBody of internal/adapters/adyen/adyen.go is made, are parameters.
use subscription_bridge.Prelude.{
  ◌+◌, ◌*◌, Bytes, bytes, Bool, ◌||◌, List, [], ◌∷◌, ◌++◌, Option, none, some, find?, ◌==◌,
  bytes_eq, int_eq, nat_eq, if◌then◌else◌, ℤ, pos, negsuc, ltb_ℤ, inc64,
}
use subscription_bridge.Protocol.Errors.{
  Result, ok, err, of_protocol, of_store, not_owned, conflict, panic, automatic_charge_blocked,
}
use subscription_bridge.Protocol.Clock.{Time, Duration, minute, hour}
use subscription_bridge.Protocol.Civil.{add_calendar_months}
use subscription_bridge.Store.Models.{ScheduledAction, ChargeAttempt, Subscription, AttemptStatus}
use subscription_bridge.Store.Models.Equality.{attempt_status_eq}
use subscription_bridge.Store.Subscriptions.{get_subscription}
use subscription_bridge.Store.Actions.{claim_action}
use subscription_bridge.Store.Attempts.{
  get_attempts_for_action, insert_attempt, claim_attempt_with_action,
}
use subscription_bridge.Store.World.{
  Act, pure, fail, lift, or_fail, fail_if, in_tx, new_token, ◌>>=◌, ◌>>◌,
}
use subscription_bridge.Hmac.{decimal}
use subscription_bridge.Adapters.{Adapter, RenewalResult, caught}
use subscription_bridge.Config.{Plan, resolve_plan}
use subscription_bridge.Envelope.{Box, Sealed, seal, open_box, aad}
use subscription_bridge.Engine.Env.{Engine, new_id}

-- `Scheduler`. Its store, configuration and box are the engine's. `payments_url` is that of Adyen's
-- adapter, or empty with another; `json_string` is `json.Marshal` of a string; `upper` is
-- `strings.ToUpper`.
pub record Scheduler : Type 0 where
  pub engine : Engine
  pub adyen : Adapter
  pub payments_url : Bytes
  pub set_lease : Duration
  pub json_string : Bytes → Bytes
  pub upper : Bytes → Bytes

-- lease
unfoldable pub lease : Scheduler → Duration
lease s = if s.set_lease == 0 then 2 * minute else s.set_lease

-- `*action.ClaimToken`
abbrev pub deref_claim : Option Bytes → Act Bytes
deref_claim none = fail (panic (bytes "nil pointer"))
deref_claim (some token) = pure token

-- strconv.FormatInt
abbrev pub format_int : ℤ → Bytes
format_int (pos n) = decimal n
format_int (negsuc n) = b'-' ∷ decimal (n + 1)

-- CanonicalPaymentBody
unfoldable pub canonical_payment_body :
    Scheduler → Bytes → Bytes → Bytes → Bytes → Bytes → ℤ → Bytes
canonical_payment_body s merchant currency reference shopper token amount =
    bytes "{\"merchantAccount\":"
    ++ s.json_string merchant
    ++ bytes ",\"amount\":{\"value\":"
    ++ format_int amount
    ++ bytes ",\"currency\":"
    ++ s.json_string (s.upper currency)
    ++ bytes "},\"reference\":"
    ++ s.json_string reference
    ++ bytes ",\"shopperReference\":"
    ++ s.json_string shopper
    ++ bytes
        ",\"shopperInteraction\":\"ContAuth\",\"recurringProcessingModel\":\"Subscription\",\"storedPaymentMethodId\":"
    ++ s.json_string token
    ++ bytes "}"

-- The statuses of an attempt that is not finished.
abbrev pub is_open_attempt : ChargeAttempt → Bool
is_open_attempt a =
    a.status == AttemptStatus.prepared
    || a.status == AttemptStatus.uncertain
    || a.status == AttemptStatus.running

-- The loop of ensurePrepared: the first open attempt, or else the next number.
unfoldable pub next_number : ℤ → List ChargeAttempt → ℤ
next_number n [] = n
next_number n (a ∷ rest) =
    next_number (if ltb_ℤ a.attempt_number n then n else inc64 a.attempt_number) rest

-- The stored payment method, opened; nothing where none is stored.
unfoldable pub payment_method : Scheduler → Subscription → Act Bytes
payment_method s sub = opened s.engine.box sub.payment_method_key_version
  where
    opened : Option Box → Option Bytes → Act Bytes
    opened (some box) (some version) =
        if sub.payment_method_ciphertext == []
        then pure []
        else open_box s.engine.aead box sub.payment_method_ciphertext sub.payment_method_nonce
            (aad (bytes "payment-method") sub.subscription_ref) version
    opened _ _ = pure []

-- The request as it is stored: sealed, or plain where there is no box.
unfoldable pub seal_request : Scheduler → Bytes → Bytes → Act Sealed
seal_request s body id = by s.engine.box
  where
    by : Option Box → Act Sealed
    by none = pure (record { ciphertext = body; nonce = []; key_version = bytes "v1" })
    by (some box) = seal s.engine.aead box body (aad (bytes "charge-request") id)

abbrev pub or_empty : Option Bytes → Bytes
or_empty none = []
or_empty (some s) = s

-- The attempt that ensurePrepared makes, for the period after the current one.
unfoldable pub new_attempt :
    Scheduler → ScheduledAction → Subscription → Plan → ℤ → Act ChargeAttempt
new_attempt s action sub plan number = do
  token ← payment_method s sub
  ref ← new_id (bytes "sba_")
  let shopper = or_empty sub.processor_shopper_reference
  let body =
      canonical_payment_body s plan.merchant_account plan.currency ref shopper token
        plan.amount_minor
  id ← new_token
  request ← seal_request s body id
  pure (record {
    attempt_id = id;
    action_id = action.action_id;
    subscription_ref = sub.subscription_ref;
    period_start = sub.current_period_end;
    period_end = add_calendar_months s.engine.cal sub.current_period_end (pos 1);
    attempt_number = number;
    provider_endpoint = s.payments_url;
    provider_api_version = bytes "v71";
    merchant_account = plan.merchant_account;
    amount_minor = plan.amount_minor;
    currency = plan.currency;
    attempt_reference = ref;
    shopper_reference = shopper;
    shopper_interaction = bytes "ContAuth";
    recurring_processing_model = bytes "Subscription";
    idempotency_key = bytes "sb_charge_" ++ ref;
    request_fingerprint = s.engine.os.sha256 body;
    request_ciphertext = request.ciphertext;
    request_nonce = request.nonce;
    request_key_version = request.key_version;
    processor_payment_id = none;
    status = AttemptStatus.prepared;
    claim_token = none;
    fencing_token = pos 0;
    lease_until = none;
    first_submitted_at = none;
    resolution_deadline = none;
    refusal_reason_code = none;
    completed_at = none;
  })

-- The end of ensurePrepared: the attempt is stored; where it clashes, an open attempt is taken
-- instead, if there is one.
unfoldable pub or_stored : ScheduledAction → ChargeAttempt → Result (Unit {0}) → Act ChargeAttempt
or_stored action attempt (ok x) = pure attempt
or_stored action attempt (err (of_store conflict)) = do
  attempts ← get_attempts_for_action action.action_id
  or_fail (find? is_open_attempt attempts) (of_store conflict)
or_stored action attempt (err e) = fail e

unfoldable pub store_attempt : ScheduledAction → ChargeAttempt → Act ChargeAttempt
store_attempt action attempt = do r ← caught (insert_attempt attempt); or_stored action attempt r

unfoldable pub open_or_new :
    Scheduler
    → ScheduledAction
    → Subscription
    → List ChargeAttempt
    → Option ChargeAttempt
    → Act ChargeAttempt
open_or_new s action sub attempts (some a) = pure a
open_or_new s action sub attempts none = do
  (plan, family) ← lift (resolve_plan s.engine.config sub.plan_id)
  attempt ← new_attempt s action sub plan (next_number (pos 1) attempts)
  store_attempt action attempt

-- ensurePrepared
unfoldable pub ensure_prepared : Scheduler → ScheduledAction → Act ChargeAttempt
ensure_prepared s action = do
  sub ← get_subscription action.subscription_ref
  fail_if sub.automatic_charging_blocked (of_protocol automatic_charge_blocked)
  attempts ← get_attempts_for_action action.action_id
  open_or_new s action sub attempts (find? is_open_attempt attempts)

-- The deadline of an uncertain outcome: six days where none is configured.
unfoldable pub resolution_deadline : Scheduler → Time → Time
resolution_deadline s t =
    if s.engine.config.adyen_resolution_deadline == 0
    then t + 144 * hour
    else t + s.engine.config.adyen_resolution_deadline

-- The first transaction of submit: the action and its attempt are claimed.
unfoldable pub claim_with :
    Scheduler
    → ScheduledAction
    → ChargeAttempt
    → Time
    → Option Bytes
    → Act (ScheduledAction × ChargeAttempt)
claim_with s claimed attempt t none = fail (of_store not_owned)
claim_with s claimed attempt t (some token) =
    claim_attempt_with_action claimed.action_id attempt.attempt_id token claimed.fencing_token t
      (lease s) (resolution_deadline s t)

unfoldable pub claim_both :
    Scheduler → ScheduledAction → ChargeAttempt → Time → Act (ScheduledAction × ChargeAttempt)
claim_both s action attempt t = in_tx (do
  claimed ← claim_action action.action_id t (lease s)
  claim_with s claimed attempt t claimed.claim_token)

-- The stored request, opened.
unfoldable pub request_body : Scheduler → ChargeAttempt → Act Bytes
request_body s attempt = by s.engine.box
  where
    by : Option Box → Act Bytes
    by none = pure attempt.request_ciphertext
    by (some box) =
        if attempt.request_nonce == []
        then pure attempt.request_ciphertext
        else open_box s.engine.aead box attempt.request_ciphertext attempt.request_nonce
            (aad (bytes "charge-request") attempt.attempt_id) attempt.request_key_version

-- The call of Adyen: a first submission, or a replay of the same request.
unfoldable pub send : Scheduler → ChargeAttempt → Bytes → Bool → Act (Result RenewalResult)
send s a body replay =
    if replay
    then caught (
        s.adyen.resolve_renewal_attempt (record {
          endpoint = a.provider_endpoint;
          api_version = a.provider_api_version;
          idempotency_key = a.idempotency_key;
          canonical_body = body;
          attempt_ref = a.attempt_reference;
        }))
    else caught (
        s.adyen.charge_renewal (record {
          endpoint = a.provider_endpoint;
          api_version = a.provider_api_version;
          merchant_account = a.merchant_account;
          amount_minor = a.amount_minor;
          currency = a.currency;
          attempt_reference = a.attempt_reference;
          idempotency_key = a.idempotency_key;
          canonical_body = body;
        }))
