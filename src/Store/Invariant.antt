-- ===== src/Store/Invariant.antt =====
-- The invariant of the store, about checkouts, subscriptions, callbacks, scheduled actions and charge
-- attempts: every row stands under its own identifier, and no two rows share what InsertCheckout and
-- its like test for. Provider events, processing leases and audits are not part of it.
pub mod Checkouts
pub mod Subscriptions
pub mod Outbound
pub mod Actions
pub mod Attempts
pub mod ProcessorEvents
use subscription_bridge.Prelude.{Bytes, ℤ}
use subscription_bridge.Protocol.Clock.{Time}
use subscription_bridge.Store.Models.{
  Checkout, Subscription, OutboundEvent, ScheduledAction, ChargeAttempt,
}
use subscription_bridge.Store.Table.Index.{IsIndexed, IsUnique}
use subscription_bridge.Store.Table.{Table}
use subscription_bridge.Store.World.{Memory}

abbrev pub checkout_key : Checkout → Bytes
checkout_key c = c.checkout_id

abbrev pub idempotency_of : Checkout → Bytes
idempotency_of c = c.provider_idempotency_key

abbrev pub sub_key : Subscription → Bytes
sub_key s = s.subscription_ref

abbrev pub checkout_of : Subscription → Bytes
checkout_of s = s.checkout_id

abbrev pub event_key : OutboundEvent → Bytes
event_key e = e.event_id

abbrev pub version_of : OutboundEvent → Bytes × ℤ
version_of e = (e.subscription_ref, e.state_version)

abbrev pub action_key : ScheduledAction → Bytes
action_key a = a.action_id

abbrev pub stable_key : ScheduledAction → Bytes
stable_key a = a.action_key

abbrev pub attempt_key : ChargeAttempt → Bytes
attempt_key a = a.attempt_id

abbrev pub reference_of : ChargeAttempt → Bytes
reference_of a = a.attempt_reference

abbrev pub charge_key : ChargeAttempt → Bytes
charge_key a = a.idempotency_key

abbrev pub charge_number : ChargeAttempt → Bytes × Time × ℤ
charge_number a = (a.subscription_ref, a.period_start, a.attempt_number)

pub record CheckoutsWf (t : Table Checkout) : Type 0 where
  pub indexed : IsIndexed checkout_key t
  pub one_per_key : IsUnique idempotency_of t

pub record SubsWf (t : Table Subscription) : Type 0 where
  pub indexed : IsIndexed sub_key t
  pub one_per_checkout : IsUnique checkout_of t

pub record OutboundWf (t : Table OutboundEvent) : Type 0 where
  pub indexed : IsIndexed event_key t
  pub one_per_version : IsUnique version_of t

pub record ActionsWf (t : Table ScheduledAction) : Type 0 where
  pub indexed : IsIndexed action_key t
  pub one_per_key : IsUnique stable_key t

pub record AttemptsWf (t : Table ChargeAttempt) : Type 0 where
  pub indexed : IsIndexed attempt_key t
  pub one_per_reference : IsUnique reference_of t
  pub one_per_key : IsUnique charge_key t
  pub one_per_number : IsUnique charge_number t

pub record IsWf (m : Memory) : Type 0 where
  pub checkouts : CheckoutsWf m.checkouts
  pub subs : SubsWf m.subs
  pub outbound : OutboundWf m.outbound
  pub actions : ActionsWf m.actions
  pub attempts : AttemptsWf m.attempts
