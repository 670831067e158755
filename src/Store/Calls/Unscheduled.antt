-- ===== src/Store/Calls/Unscheduled.antt =====
-- The methods of a transaction that leave the scheduled actions as they are.
use subscription_bridge.Prelude.{Bytes, Option, ◌≡◌, arith, ℤ}
use subscription_bridge.Protocol.Clock.{Time, Duration}
use subscription_bridge.Store.Models.{
  Checkout, Subscription, ProcessorEvent, ChargeAttempt, Audit, Family, ProcessingState,
  OutboundEvent,
}
use subscription_bridge.Store.World.{World, now, new_token, must_token}
use subscription_bridge.Store.Audits.{insert_audit}
use subscription_bridge.Store.Outbound.{claim_due_outbound}
use subscription_bridge.Store.Checkouts.{insert_checkout, update_checkout, expire_due_checkouts}
use subscription_bridge.Store.Subscriptions.{insert_subscription, update_subscription}
use subscription_bridge.Store.ProcessorEvents.{
  insert_processor_event, claim_processor_event, finish_processor_event, release_processor_lease,
  get_processor_event,
}
use subscription_bridge.Store.Attempts.{insert_attempt, update_attempt, claim_attempt_with_action}
use subscription_bridge.Store.Outbound.{
  insert_outbound, complete_outbound, retry_outbound, dead_letter_outbound, abandon_outbound,
  requeue_outbound, update_owned, owned_outbound, put_outbound,
}

pub insert_checkout-actions :
    (c : Checkout) (w : World) → (insert_checkout c w).1.mem.actions ≡ w.mem.actions
unfolding insert_checkout now
insert_checkout-actions c w = ground arith

pub update_checkout-actions :
    (c : Checkout) (w : World) → (update_checkout c w).1.mem.actions ≡ w.mem.actions
unfolding update_checkout now
update_checkout-actions c w = ground arith

pub expire_due_checkouts-actions :
    (t : Time) (w : World) → (expire_due_checkouts t w).1.mem.actions ≡ w.mem.actions
unfolding expire_due_checkouts
expire_due_checkouts-actions t w = ground arith

pub insert_subscription-actions :
    (s : Subscription) (w : World) → (insert_subscription s w).1.mem.actions ≡ w.mem.actions
unfolding insert_subscription now
insert_subscription-actions s w = ground arith

pub update_subscription-actions :
    (s : Subscription) (w : World) → (update_subscription s w).1.mem.actions ≡ w.mem.actions
unfolding update_subscription now
update_subscription-actions s w = ground arith

pub insert_processor_event-actions :
    (e : ProcessorEvent) (w : World) → (insert_processor_event e w).1.mem.actions ≡ w.mem.actions
unfolding insert_processor_event now
insert_processor_event-actions e w = ground arith

pub claim_processor_event-actions :
    (f : Family) (i k : Bytes) (t : Time) (d : Duration) (w : World)
    → (claim_processor_event f i k t d w).1.mem.actions ≡ w.mem.actions
unfolding claim_processor_event new_token get_processor_event
claim_processor_event-actions f i k t d w = ground arith

pub finish_processor_event-actions :
    (f : Family) (i c : Bytes) (n : ℤ) (s : ProcessingState) (r : Option Bytes) (t : Time)
    (w : World)
    → (finish_processor_event f i c n s r t w).1.mem.actions ≡ w.mem.actions
unfolding finish_processor_event get_processor_event
finish_processor_event-actions f i c n s r t w = ground arith

pub release_processor_lease-actions :
    (k c : Bytes) (n : ℤ) (w : World)
    → (release_processor_lease k c n w).1.mem.actions ≡ w.mem.actions
unfolding release_processor_lease
release_processor_lease-actions k c n w = ground arith

pub insert_attempt-actions :
    (a : ChargeAttempt) (w : World) → (insert_attempt a w).1.mem.actions ≡ w.mem.actions
unfolding insert_attempt
insert_attempt-actions a w = ground arith

pub update_attempt-actions :
    (a : ChargeAttempt) (w : World) → (update_attempt a w).1.mem.actions ≡ w.mem.actions
unfolding update_attempt
update_attempt-actions a w = ground arith

pub claim_attempt_with_action-actions :
    (i j c : Bytes) (n : ℤ) (t : Time) (d : Duration) (l : Time) (w : World)
    → (claim_attempt_with_action i j c n t d l w).1.mem.actions ≡ w.mem.actions
unfolding claim_attempt_with_action
claim_attempt_with_action-actions i j c n t d l w = ground arith

pub insert_audit-actions :
    (a : Audit) (w : World) → (insert_audit a w).1.mem.actions ≡ w.mem.actions
unfolding insert_audit now
insert_audit-actions a w = ground arith

pub insert_outbound-actions :
    (e : OutboundEvent) (w : World) → (insert_outbound e w).1.mem.actions ≡ w.mem.actions
unfolding insert_outbound put_outbound now
insert_outbound-actions e w = ground arith

pub claim_due_outbound-actions :
    (t : Time) (d : Duration) (w : World) → (claim_due_outbound t d w).1.mem.actions ≡ w.mem.actions
unfolding claim_due_outbound put_outbound new_token
claim_due_outbound-actions t d w = ground arith

pub complete_outbound-actions :
    (i c : Bytes) (n : ℤ) (t : Time) (w : World)
    → (complete_outbound i c n t w).1.mem.actions ≡ w.mem.actions
unfolding complete_outbound put_outbound update_owned owned_outbound
complete_outbound-actions i c n t w = ground arith

pub retry_outbound-actions :
    (i c : Bytes) (n : ℤ) (t : Time) (x : Bytes) (w : World)
    → (retry_outbound i c n t x w).1.mem.actions ≡ w.mem.actions
unfolding retry_outbound put_outbound update_owned owned_outbound
retry_outbound-actions i c n t x w = ground arith

pub dead_letter_outbound-actions :
    (i c : Bytes) (n : ℤ) (t : Time) (x : Bytes) (w : World)
    → (dead_letter_outbound i c n t x w).1.mem.actions ≡ w.mem.actions
unfolding dead_letter_outbound put_outbound update_owned owned_outbound
dead_letter_outbound-actions i c n t x w = ground arith

pub abandon_outbound-actions :
    (i r a : Bytes) (t : Time) (w : World)
    → (abandon_outbound i r a t w).1.mem.actions ≡ w.mem.actions
unfolding abandon_outbound put_outbound must_token insert_audit
abandon_outbound-actions i r a t w = ground arith

pub requeue_outbound-actions :
    (i r a : Bytes) (t : Time) (w : World)
    → (requeue_outbound i r a t w).1.mem.actions ≡ w.mem.actions
unfolding requeue_outbound put_outbound must_token insert_audit
requeue_outbound-actions i r a t w = ground arith
