-- ===== src/Store/Calls/Untouched.antt =====
-- The methods of a transaction that leave the callback rows as they are.
use subscription_bridge.Prelude.{Bytes, Option, List, ◌≡◌, arith, ℤ}
use subscription_bridge.Protocol.Clock.{Time, Duration}
use subscription_bridge.Store.Models.{
  Checkout, Subscription, ProcessorEvent, ScheduledAction, ChargeAttempt, Audit, Family,
  ProcessingState, ActionStatus, ActionType,
}
use subscription_bridge.Store.World.{World, now, new_token}
use subscription_bridge.Store.Audits.{insert_audit}
use subscription_bridge.Store.Checkouts.{insert_checkout, update_checkout, expire_due_checkouts}
use subscription_bridge.Store.Subscriptions.{insert_subscription, update_subscription}
use subscription_bridge.Store.ProcessorEvents.{
  insert_processor_event, claim_processor_event, finish_processor_event, release_processor_lease,
  get_processor_event,
}
use subscription_bridge.Store.Actions.{
  insert_action, claim_action, claim_due_action, finish_action, force_finish_action,
  cancel_actions_for_subscription, lock_due_action,
}
use subscription_bridge.Store.Attempts.{insert_attempt, update_attempt, claim_attempt_with_action}

pub insert_checkout-outbound :
    (c : Checkout) (w : World) → (insert_checkout c w).1.mem.outbound ≡ w.mem.outbound
unfolding insert_checkout now
insert_checkout-outbound c w = ground arith

pub update_checkout-outbound :
    (c : Checkout) (w : World) → (update_checkout c w).1.mem.outbound ≡ w.mem.outbound
unfolding update_checkout now
update_checkout-outbound c w = ground arith

pub expire_due_checkouts-outbound :
    (t : Time) (w : World) → (expire_due_checkouts t w).1.mem.outbound ≡ w.mem.outbound
unfolding expire_due_checkouts
expire_due_checkouts-outbound t w = ground arith

pub insert_subscription-outbound :
    (s : Subscription) (w : World) → (insert_subscription s w).1.mem.outbound ≡ w.mem.outbound
unfolding insert_subscription now
insert_subscription-outbound s w = ground arith

pub update_subscription-outbound :
    (s : Subscription) (w : World) → (update_subscription s w).1.mem.outbound ≡ w.mem.outbound
unfolding update_subscription now
update_subscription-outbound s w = ground arith

pub insert_processor_event-outbound :
    (e : ProcessorEvent) (w : World) → (insert_processor_event e w).1.mem.outbound ≡ w.mem.outbound
unfolding insert_processor_event now
insert_processor_event-outbound e w = ground arith

pub claim_processor_event-outbound :
    (f : Family) (i k : Bytes) (t : Time) (d : Duration) (w : World)
    → (claim_processor_event f i k t d w).1.mem.outbound ≡ w.mem.outbound
unfolding claim_processor_event new_token get_processor_event
claim_processor_event-outbound f i k t d w = ground arith

pub finish_processor_event-outbound :
    (f : Family) (i c : Bytes) (n : ℤ) (s : ProcessingState) (r : Option Bytes) (t : Time)
    (w : World)
    → (finish_processor_event f i c n s r t w).1.mem.outbound ≡ w.mem.outbound
unfolding finish_processor_event get_processor_event
finish_processor_event-outbound f i c n s r t w = ground arith

pub release_processor_lease-outbound :
    (k c : Bytes) (n : ℤ) (w : World)
    → (release_processor_lease k c n w).1.mem.outbound ≡ w.mem.outbound
unfolding release_processor_lease
release_processor_lease-outbound k c n w = ground arith

pub insert_action-outbound :
    (a : ScheduledAction) (w : World) → (insert_action a w).1.mem.outbound ≡ w.mem.outbound
unfolding insert_action
insert_action-outbound a w = ground arith

pub claim_action-outbound :
    (i : Bytes) (t : Time) (d : Duration) (w : World)
    → (claim_action i t d w).1.mem.outbound ≡ w.mem.outbound
unfolding claim_action new_token
claim_action-outbound i t d w = ground arith

pub claim_due_action-outbound :
    (t : Time) (d : Duration) (s : ActionStatus) (ks : List ActionType) (w : World)
    → (claim_due_action t d s ks w).1.mem.outbound ≡ w.mem.outbound
unfolding claim_due_action claim_action new_token lock_due_action
claim_due_action-outbound t d s ks w = ground arith

pub finish_action-outbound :
    (i c : Bytes) (n : ℤ) (s : ActionStatus) (t : Option Time) (x : Option Bytes) (w : World)
    → (finish_action i c n s t x w).1.mem.outbound ≡ w.mem.outbound
unfolding finish_action
finish_action-outbound i c n s t x w = ground arith

pub force_finish_action-outbound :
    (i : Bytes) (s : ActionStatus) (t : Option Time) (x : Option Bytes) (w : World)
    → (force_finish_action i s t x w).1.mem.outbound ≡ w.mem.outbound
unfolding force_finish_action
force_finish_action-outbound i s t x w = ground arith

pub cancel_actions_for_subscription-outbound :
    (r k : Bytes) (w : World)
    → (cancel_actions_for_subscription r k w).1.mem.outbound ≡ w.mem.outbound
unfolding cancel_actions_for_subscription
cancel_actions_for_subscription-outbound r k w = ground arith

pub insert_attempt-outbound :
    (a : ChargeAttempt) (w : World) → (insert_attempt a w).1.mem.outbound ≡ w.mem.outbound
unfolding insert_attempt
insert_attempt-outbound a w = ground arith

pub update_attempt-outbound :
    (a : ChargeAttempt) (w : World) → (update_attempt a w).1.mem.outbound ≡ w.mem.outbound
unfolding update_attempt
update_attempt-outbound a w = ground arith

pub claim_attempt_with_action-outbound :
    (i j c : Bytes) (n : ℤ) (t : Time) (d : Duration) (l : Time) (w : World)
    → (claim_attempt_with_action i j c n t d l w).1.mem.outbound ≡ w.mem.outbound
unfolding claim_attempt_with_action
claim_attempt_with_action-outbound i j c n t d l w = ground arith

pub insert_audit-outbound :
    (a : Audit) (w : World) → (insert_audit a w).1.mem.outbound ≡ w.mem.outbound
unfolding insert_audit now
insert_audit-outbound a w = ground arith
