-- ===== src/Engine/Transition.antt =====
-- internal/engine/transition.go: the map from an observation of the provider to the next protocol
-- state of a subscription.
pub mod Changes
pub mod Machine
pub mod Runs
use subscription_bridge.Prelude.{
  ◌+◌, Bytes, Bool, true, false, ◌&&◌, ◌||◌, not, [], Option, none, some, is_some, ◌==◌, bytes_eq,
  int_eq, if◌then◌else◌, ℤ, pos, ltb_ℤ, inc64,
}
use subscription_bridge.Protocol.Errors.{
  Result, ok, err, of_protocol, unordered_period, ◌>>=◌, ◌>>◌,
}
use subscription_bridge.Protocol.Status.{
  Status, EventType, status_eq, event_eq, is_unset, validate_event_status,
}
use subscription_bridge.Protocol.Clock.{Time, is_after, is_equal, is_zero, truncate_utc}
use subscription_bridge.Store.Models.{Subscription, Checkout, Family}
use subscription_bridge.Store.Models.Equality.{family_eq}

pub record Observation : Type 0 where
  pub event_type : EventType
  pub status : Status
  pub plan_id : Bytes
  pub period_start : Time
  pub period_end : Time
  pub cancel_at_period_end : Bool
  pub immediate_expire : Bool

pub record Flags : Type 0 where
  pub create_expire : Bool
  pub cancel_expire : Bool
  pub create_renew : Bool
  pub cancel_renew : Bool

-- A `Decision`: with `Noop` set no other field is, nor is read.
pub data Decision : Type 0 where
  noop : Decision
  change : EventType → Subscription → Flags → Decision

abbrev pub no_flags : Flags
no_flags = record {
  create_expire = false;
  cancel_expire = false;
  create_renew = false;
  cancel_renew = false;
}

-- samePeriod
abbrev pub same_period : Subscription → Subscription → Bool
same_period a b =
    is_equal a.current_period_start b.current_period_start
    && is_equal a.current_period_end b.current_period_end

-- The end of each transition: the event and its status are checked, then the decision is made.
abbrev pub decided : EventType → Subscription → Flags → Result Decision
decided event next flags =
    validate_event_status event next.status next.cancel_at_period_end
    >> ok (change event next flags)

-- expire
unfoldable pub expire : Subscription → Subscription → Time → Bool → Result Decision
expire current next t set_canceled_at =
    if current.status == Status.expired
    then ok noop
    else decided EventType.expired
        (record next {
          status = Status.expired;
          cancel_at_period_end = false;
          state_version = inc64 current.state_version;
          canceled_at =
              if set_canceled_at && not (is_some current.canceled_at)
              then some t
              else next.canceled_at;
        })
        (record no_flags { cancel_expire = true; cancel_renew = true })

-- cancelAtPeriodEnd
unfoldable pub cancel_at_period_end : Subscription → Subscription → Time → Result Decision
cancel_at_period_end current next t =
    if current.status == Status.canceled
    then ok noop
    else if current.status == Status.expired
    then ok noop
    else decided EventType.canceled
        (record next {
          status = Status.canceled;
          cancel_at_period_end = true;
          state_version = inc64 current.state_version;
          canceled_at = some t;
        })
        (record no_flags { create_expire = true; cancel_renew = true })

-- pastDue
unfoldable pub past_due : Subscription → Subscription → Time → Result Decision
past_due current next t =
    if current.status == Status.past_due
    then ok noop
    else decided EventType.past_due
        (record next {
          status = Status.past_due;
          cancel_at_period_end = false;
          state_version = inc64 current.state_version;
          past_due_since = if is_some next.past_due_since then next.past_due_since else some t;
        })
        no_flags

-- The event and the status with which activateOrRenew sets out.
abbrev is_renewal : Subscription → Bool
is_renewal current = not (ltb_ℤ current.state_version (pos 1)) && not (is_unset current.status)

-- What a renewal clears.
abbrev renewed : Subscription → Subscription
renewed s = record s {
  past_due_since = none;
  canceled_at = none;
  automatic_charging_blocked = false;
  charging_block_reason = none;
}

-- activateOrRenew. The event is `renewed` for a subscription that has a state, and it is `activated`
-- after all where the next version is 1.
unfoldable pub activate_or_renew : Subscription → Subscription → Status → Time → Result Decision
activate_or_renew current next status₀ t =
    let event₀ = if is_renewal current then EventType.renewed else EventType.activated in
    let status = if is_renewal current then Status.active else status₀ in
    let event = if inc64 current.state_version == pos 1 then EventType.activated else event₀ in
    let moved = record next {
      status = status;
      cancel_at_period_end = false;
      state_version = inc64 current.state_version;
    } in
    let is_adyen = next.processor_family == Family.adyen in
    if current.status == status
      && same_period current next
      && current.plan_id == next.plan_id
      && not current.cancel_at_period_end
    then ok noop
    else if current.status == Status.canceled && not (event₀ == EventType.renewed)
    then ok noop
    else decided event (if event == EventType.renewed then renewed moved else moved)
        (record no_flags {
          cancel_expire = event == EventType.renewed;
          create_renew = is_adyen && (event == EventType.renewed || event == EventType.activated);
        })

-- The row that a decision starts from: what the observation names is taken over.
abbrev pub observed : Subscription → Observation → Time → Subscription
observed current obs t = record current {
  state_changed_at = t;
  updated_at = t;
  plan_id = if obs.plan_id == [] then current.plan_id else obs.plan_id;
  current_period_start =
      if is_zero obs.period_start
      then current.current_period_start
      else truncate_utc obs.period_start;
  current_period_end =
      if is_zero obs.period_end then current.current_period_end else truncate_utc obs.period_end;
}

-- The case of Decide for a change of plan.
unfoldable pub change_plan : Subscription → Subscription → Result Decision
change_plan current next =
    if not (current.status == Status.active)
    then ok noop
    else if current.plan_id == next.plan_id && same_period current next
    then ok noop
    else decided EventType.plan_changed
        (record next {
          status = Status.active;
          cancel_at_period_end = false;
          state_version = inc64 current.state_version;
        })
        no_flags

abbrev is_plan_change : Subscription → Observation → Bool
is_plan_change current obs =
    obs.event_type == EventType.plan_changed
    || (not (obs.plan_id == [])
        && not (obs.plan_id == current.plan_id)
        && obs.status == Status.active)

-- The switch of Decide.
unfoldable pub dispatch : Subscription → Subscription → Observation → Time → Result Decision
dispatch current next obs t =
    if obs.immediate_expire || obs.status == Status.expired
    then expire current next t (obs.immediate_expire && not (current.status == Status.canceled))
    else if is_plan_change current obs
    then change_plan current next
    else if obs.status == Status.canceled || obs.cancel_at_period_end
    then cancel_at_period_end current next t
    else if obs.status == Status.past_due
    then past_due current next t
    else if obs.status == Status.active || obs.status == Status.trialing
    then activate_or_renew current next obs.status t
    else ok noop

-- Decide
unfoldable pub decide : Subscription → Observation → Time → Result Decision
decide current obs t₀ =
    let t = truncate_utc t₀ in
    let next = observed current obs t in
    if current.status == Status.expired
    then ok noop
    else if not (is_after next.current_period_end next.current_period_start)
    then err (of_protocol unordered_period)
    else dispatch current next obs t

-- FirstActivation
unfoldable pub first_activation :
    Checkout
    → Bytes
    → Status
    → Time
    → Time
    → Time
    → Option Bytes
    → Option Bytes
    → Option Bytes
    → Option Bytes
    → Subscription
first_activation checkout ref status start end t₀ customer psub payment shopper = record {
  subscription_ref = ref;
  checkout_id = checkout.checkout_id;
  plan_id = checkout.plan_id;
  status = status;
  state_version = pos 1;
  processor_family = checkout.processor_family;
  processor_customer_id = customer;
  processor_subscription_id = psub;
  processor_initial_payment_id = payment;
  processor_shopper_reference = shopper;
  payment_method_ciphertext = [];
  payment_method_nonce = [];
  payment_method_key_version = none;
  current_period_start = truncate_utc start;
  current_period_end = truncate_utc end;
  cancel_at_period_end = false;
  state_changed_at = truncate_utc t₀;
  past_due_since = none;
  canceled_at = none;
  automatic_charging_blocked = false;
  charging_block_reason = none;
  created_at = 0;
  updated_at = 0;
}
