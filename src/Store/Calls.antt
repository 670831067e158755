-- ===== src/Store/Calls.antt =====
-- A transaction as the sequence of the methods that it calls: every method of `Tx` that can change a
-- row of the five tables of the invariant, the provider events, the leases or the audits.
pub mod Invariant
pub mod ClosedActions
pub mod Untouched
pub mod Unscheduled
pub mod Callbacks
use subscription_bridge.Prelude.{Bytes, ℤ, Option, List, [], ◌∷◌}
use subscription_bridge.Protocol.Clock.{Time, Duration}
use subscription_bridge.Store.Models.{
  Checkout, Subscription, OutboundEvent, ProcessorEvent, ScheduledAction, ChargeAttempt, Audit,
  ActionStatus, ActionType, ProcessingState, Family,
}
use subscription_bridge.Store.World.{World, Act, pure, in_tx, ◌>>=◌, ◌>>◌}
use subscription_bridge.Store.Checkouts
use subscription_bridge.Store.Subscriptions
use subscription_bridge.Store.Outbound
use subscription_bridge.Store.ProcessorEvents
use subscription_bridge.Store.Actions
use subscription_bridge.Store.Attempts
use subscription_bridge.Store.Audits

pub data Call : Type 0 where
  insert_checkout update_checkout : Checkout → Call
  expire_due_checkouts : Time → Call
  insert_subscription update_subscription : Subscription → Call
  insert_outbound : OutboundEvent → Call
  claim_due_outbound : Time → Duration → Call
  complete_outbound : Bytes → Bytes → ℤ → Time → Call
  retry_outbound dead_letter_outbound : Bytes → Bytes → ℤ → Time → Bytes → Call
  abandon_outbound requeue_outbound : Bytes → Bytes → Bytes → Time → Call
  insert_processor_event : ProcessorEvent → Call
  claim_processor_event : Family → Bytes → Bytes → Time → Duration → Call
  finish_processor_event : Family → Bytes → Bytes → ℤ → ProcessingState → Option Bytes → Time → Call
  release_processor_lease : Bytes → Bytes → ℤ → Call
  insert_action : ScheduledAction → Call
  claim_action : Bytes → Time → Duration → Call
  claim_due_action : Time → Duration → ActionStatus → List ActionType → Call
  finish_action : Bytes → Bytes → ℤ → ActionStatus → Option Time → Option Bytes → Call
  force_finish_action : Bytes → ActionStatus → Option Time → Option Bytes → Call
  cancel_actions : Bytes → Bytes → Call
  insert_attempt update_attempt : ChargeAttempt → Call
  claim_attempt : Bytes → Bytes → Bytes → ℤ → Time → Duration → Time → Call
  insert_audit : Audit → Call

-- A call for its effect: the value that it returns is dropped.
unfoldable pub perform : Call → Act (Unit {0})
perform (Call.insert_checkout c) = Checkouts.insert_checkout c
perform (Call.update_checkout c) = Checkouts.update_checkout c
perform (Call.expire_due_checkouts t) = Checkouts.expire_due_checkouts t >>= λ _. pure tt
perform (Call.insert_subscription s) = Subscriptions.insert_subscription s
perform (Call.update_subscription s) = Subscriptions.update_subscription s
perform (Call.insert_outbound e) = Outbound.insert_outbound e
perform (Call.claim_due_outbound t d) = Outbound.claim_due_outbound t d >>= λ _. pure tt
perform (Call.complete_outbound i c f t) = Outbound.complete_outbound i c f t
perform (Call.retry_outbound i c f t e) = Outbound.retry_outbound i c f t e
perform (Call.dead_letter_outbound i c f t e) = Outbound.dead_letter_outbound i c f t e
perform (Call.abandon_outbound i r a t) = Outbound.abandon_outbound i r a t
perform (Call.requeue_outbound i r a t) = Outbound.requeue_outbound i r a t
perform (Call.insert_processor_event e) = ProcessorEvents.insert_processor_event e >>= λ _. pure tt
perform (Call.claim_processor_event f i k t d) =
    ProcessorEvents.claim_processor_event f i k t d >>= λ _. pure tt
perform (Call.finish_processor_event f i c n s r t) =
    ProcessorEvents.finish_processor_event f i c n s r t
perform (Call.release_processor_lease k c n) = ProcessorEvents.release_processor_lease k c n
perform (Call.insert_action a) = Actions.insert_action a
perform (Call.claim_action i t d) = Actions.claim_action i t d >>= λ _. pure tt
perform (Call.claim_due_action t d s ks) = Actions.claim_due_action t d s ks >>= λ _. pure tt
perform (Call.finish_action i c f s d e) = Actions.finish_action i c f s d e
perform (Call.force_finish_action i s d e) = Actions.force_finish_action i s d e
perform (Call.cancel_actions r k) = Actions.cancel_actions_for_subscription r k
perform (Call.insert_attempt a) = Attempts.insert_attempt a
perform (Call.update_attempt a) = Attempts.update_attempt a
perform (Call.claim_attempt i j c f t d l) =
    Attempts.claim_attempt_with_action i j c f t d l >>= λ _. pure tt
perform (Call.insert_audit a) = Audits.insert_audit a

-- The calls of one transaction: the first error ends it.
unfoldable pub perform_all : List Call → Act (Unit {0})
perform_all [] = pure tt
perform_all (c ∷ cs) = perform c >> perform_all cs

-- Transactions one after another, as the store's mutex has them.
unfoldable pub serve : List (List Call) → World → World
serve [] w = w
serve (tx ∷ txs) w = serve txs (in_tx (perform_all tx) w).1
