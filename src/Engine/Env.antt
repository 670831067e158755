-- ===== src/Engine/Env.antt =====
-- The `Engine` of internal/engine/engine.go and the small helpers of its handlers, with
-- NewSubscriptionRef and its like of internal/protocol/ids.go.
use subscription_bridge.Prelude.{
  suc, Bytes, bytes, Bool, [], Option, none, some, ℤ, ◌==◌, bytes_eq, if◌then◌else◌,
}
use subscription_bridge.Protocol.Errors.{message}
use subscription_bridge.Protocol.Status.{Status, EventType}
use subscription_bridge.Protocol.Civil.{Calendar}
use subscription_bridge.Protocol.Identifier.{new_opaque_id}
use subscription_bridge.Protocol.Callback.{Platform}
use subscription_bridge.Store.Models.{Family, Subscription, ChargeAttempt}
use subscription_bridge.Store.World.{Act, pure, fail, ◌>>=◌, ◌>>◌}
use subscription_bridge.Adapters.{Adapter}
use subscription_bridge.Config.{Config}
use subscription_bridge.Envelope.{Aead, Box}
use subscription_bridge.Engine.Transition.{Observation, Decision, noop, change}
use subscription_bridge.Engine.Commit.{commit_change}

-- `Engine`, without its log, and with what it takes from Go's library. No part of the program but the
-- tests sets `Clock`, so the engine's clock is the store's.
pub record Engine : Type 0 where
  pub config : Config
  pub adapters : Family → Option Adapter
  pub box : Option Box
  pub os : Platform
  pub cal : Calendar
  pub aead : Aead

-- adapter
unfoldable pub adapter : Engine → Family → Act Adapter
adapter e family = known (e.adapters family)
  where
    known : Option Adapter → Act Adapter
    known none = fail (message (bytes "no adapter"))
    known (some a) = pure a

-- NewOpaqueID of a prefix: NewSubscriptionRef, NewShopperReference, NewAttemptReference
unfoldable pub new_id : Bytes → Act Bytes
new_id prefix w = (new_opaque_id (w.entropy w.reads) prefix, record w { reads = suc w.reads })

-- strPtr
abbrev pub str_ptr : Bytes → Option Bytes
str_ptr s = if s == [] then none else some s

-- `Subscription{}`, of which commitChange reads the reference only.
abbrev pub no_subscription : Subscription
no_subscription = record {
  subscription_ref = [];
  checkout_id = [];
  plan_id = [];
  status = Status.other [];
  state_version = ℤ.pos 0;
  processor_family = Family.other [];
  processor_customer_id = none;
  processor_subscription_id = none;
  processor_initial_payment_id = none;
  processor_shopper_reference = none;
  payment_method_ciphertext = [];
  payment_method_nonce = [];
  payment_method_key_version = none;
  current_period_start = 0;
  current_period_end = 0;
  cancel_at_period_end = Bool.false;
  state_changed_at = 0;
  past_due_since = none;
  canceled_at = none;
  automatic_charging_blocked = Bool.false;
  charging_block_reason = none;
  created_at = 0;
  updated_at = 0;
}

-- `Observation{}`, and the observations that the handlers write out.
abbrev pub no_observation : Observation
no_observation = record {
  event_type = EventType.other [];
  status = Status.other [];
  plan_id = [];
  period_start = 0;
  period_end = 0;
  cancel_at_period_end = Bool.false;
  immediate_expire = Bool.false;
}

abbrev pub cancel_observed : Observation
cancel_observed = record no_observation {
  status = Status.canceled;
  cancel_at_period_end = Bool.true;
}

abbrev pub expiry_observed : Observation
expiry_observed = record no_observation { status = Status.expired; immediate_expire = Bool.true }

abbrev pub past_due_observed : Observation
past_due_observed = record no_observation { status = Status.past_due }

-- A charge of the period of an attempt.
abbrev pub charge_observed : ChargeAttempt → Observation
charge_observed att = record no_observation {
  status = Status.active;
  period_start = att.period_start;
  period_end = att.period_end;
}

-- What the handlers do with a decision: `if dec.Noop`, the subscription stays as it is; else it is
-- committed. The subscription that results is returned.
unfoldable pub apply_decision : Engine → Subscription → Decision → Act Subscription
apply_decision e current noop = pure current
apply_decision e current (change event next flags) = do
  commit_change e.os current next event
  pure next

-- Commit
unfoldable pub commit : Engine → Subscription → Decision → Act (Unit {0})
unfolding apply_decision
commit e current dec = do _ ← apply_decision e current dec; pure tt
