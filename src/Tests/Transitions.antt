-- ===== src/Tests/Transitions.antt =====
-- Decisions at sample subscriptions and observations.
use subscription_bridge.Prelude.{◌*◌, ◌≡◌, ◌↔◌, bytes, [], ◌∷◌, List, none, pos, true, false}
use subscription_bridge.Protocol.Errors.{ok}
use subscription_bridge.Protocol.Status.{Status, EventType, validate_event_status}
use subscription_bridge.Protocol.Status.Pairs.{Pair, validate_event_status_iff}
use subscription_bridge.Protocol.Clock.{Time, second}
use subscription_bridge.Store.Models.{Subscription, Family}
use subscription_bridge.Engine.Transition.{Observation, decide}
use subscription_bridge.Engine.Transition.Changes.{Outcome, decide-Outcome}
use subscription_bridge.Engine.Transition.Machine.{Moves, decide-Moves}
use subscription_bridge.Engine.Transition.Runs.{
  follow, Consecutive, EndsAtExpired, follow-Consecutive,
}
use subscription_bridge.Tests.Samples.{noon}

abbrev pub subscribed : Subscription
subscribed = record {
  subscription_ref = bytes "sub_1";
  checkout_id = bytes "subchk_1";
  plan_id = bytes "basic";
  status = Status.active;
  state_version = pos 3;
  processor_family = Family.stripe;
  processor_customer_id = none;
  processor_subscription_id = none;
  processor_initial_payment_id = none;
  processor_shopper_reference = none;
  payment_method_ciphertext = [];
  payment_method_nonce = [];
  payment_method_key_version = none;
  current_period_start = 5 * second;
  current_period_end = 9 * second;
  cancel_at_period_end = false;
  state_changed_at = 0;
  past_due_since = none;
  canceled_at = none;
  automatic_charging_blocked = false;
  charging_block_reason = none;
  created_at = 0;
  updated_at = 0;
}

abbrev overdue : Observation
overdue = record {
  event_type = EventType.other [];
  status = Status.past_due;
  plan_id = [];
  period_start = 0;
  period_end = 0;
  cancel_at_period_end = false;
  immediate_expire = false;
}

abbrev gone : Observation
gone = record overdue { status = Status.expired }

decide-Outcome_example : Outcome subscribed noon (decide subscribed overdue noon)
decide-Outcome_example = decide-Outcome subscribed overdue noon

decide-Moves_example : Moves subscribed (decide subscribed overdue noon)
decide-Moves_example = decide-Moves subscribed overdue noon

abbrev run : List (Observation × Time)
run = (overdue, noon) ∷ (gone, noon) ∷ (overdue, noon) ∷ []

follow-Consecutive_example :
    Consecutive (pos 3) (follow subscribed run) × EndsAtExpired (follow subscribed run)
follow-Consecutive_example = follow-Consecutive subscribed run

validate_event_status_iff_example :
    (validate_event_status EventType.canceled Status.canceled true ≡ ok tt)
    ↔ Pair EventType.canceled Status.canceled true
validate_event_status_iff_example =
    validate_event_status_iff EventType.canceled Status.canceled true
