-- ===== src/Store/Safe/Methods.antt =====
-- The methods that leave checkouts, subscriptions and attempts alone.
use subscription_bridge.Prelude.{Bytes, Option, List, arith, ℤ}
use subscription_bridge.Protocol.Clock.{Time, Duration}
use subscription_bridge.Store.Models.{
  OutboundEvent, ProcessorEvent, ScheduledAction, Audit, Family, ProcessingState, ActionStatus,
  ActionType,
}
use subscription_bridge.Store.World.{World, Act, now, new_token, must_token}
use subscription_bridge.Store.Cases.{After}
use subscription_bridge.Store.Audits.{insert_audit}
use subscription_bridge.Store.Outbound.{
  insert_outbound, claim_due_outbound, complete_outbound, retry_outbound, dead_letter_outbound,
  requeue_outbound, put_outbound, update_owned, owned_outbound,
}
use subscription_bridge.Store.ProcessorEvents.{
  insert_processor_event, claim_processor_event, finish_processor_event, release_processor_lease,
  get_processor_event,
}
use subscription_bridge.Store.Actions.{
  insert_action, claim_action, claim_due_action, finish_action, force_finish_action,
  cancel_actions_for_subscription, lock_due_action,
}
use subscription_bridge.Store.Invariant.{IsWf}
use subscription_bridge.Store.Invariant.Outbound
use subscription_bridge.Store.Invariant.Actions
use subscription_bridge.Store.Invariant.ProcessorEvents
use subscription_bridge.Store.Safe.Growth.{Untouched, Untouched-Grows}
use subscription_bridge.Store.Safe.{Leads, Any, kept-Leads}

untouched-Leads :
    {A : Type 0} (m : Act A) (w : World)
    → After IsWf m w
    → Untouched w.mem (m w).1.mem
    → Leads Any m w
untouched-Leads m w v u = kept-Leads m w v (Untouched-Grows w.mem (m w).1.mem u)

pub now-Leads : (w : World) → IsWf w.mem → Leads Any now w
unfolding now
now-Leads w v = untouched-Leads now w v (ground arith)

pub new_token-Leads : (w : World) → IsWf w.mem → Leads Any new_token w
unfolding new_token
new_token-Leads w v = untouched-Leads new_token w v (ground arith)

pub insert_audit-Leads : (a : Audit) (w : World) → IsWf w.mem → Leads Any (insert_audit a) w
unfolding insert_audit
insert_audit-Leads a w v =
    untouched-Leads (insert_audit a) w (ProcessorEvents.insert_audit-IsWf a w v) (ground arith)

pub insert_outbound-Leads :
    (e : OutboundEvent) (w : World) → IsWf w.mem → Leads Any (insert_outbound e) w
unfolding insert_outbound now put_outbound
insert_outbound-Leads e w v =
    untouched-Leads (insert_outbound e) w (Outbound.insert_outbound-IsWf e w v) (ground arith)

pub claim_due_outbound-Leads :
    (t : Time) (d : Duration) (w : World) → IsWf w.mem → Leads Any (claim_due_outbound t d) w
unfolding claim_due_outbound new_token put_outbound
claim_due_outbound-Leads t d w v =
    untouched-Leads (claim_due_outbound t d) w (Outbound.claim_due_outbound-IsWf t d w v)
      (ground arith)

pub complete_outbound-Leads :
    (i c : Bytes) (n : ℤ) (t : Time) (w : World)
    → IsWf w.mem
    → Leads Any (complete_outbound i c n t) w
unfolding complete_outbound update_owned owned_outbound put_outbound
complete_outbound-Leads i c n t w v =
    untouched-Leads (complete_outbound i c n t) w (Outbound.complete_outbound-IsWf i c n t w v)
      (ground arith)

pub retry_outbound-Leads :
    (i c : Bytes) (n : ℤ) (t : Time) (x : Bytes) (w : World)
    → IsWf w.mem
    → Leads Any (retry_outbound i c n t x) w
unfolding retry_outbound update_owned owned_outbound put_outbound
retry_outbound-Leads i c n t x w v =
    untouched-Leads (retry_outbound i c n t x) w (Outbound.retry_outbound-IsWf i c n t x w v)
      (ground arith)

pub dead_letter_outbound-Leads :
    (i c : Bytes) (n : ℤ) (t : Time) (x : Bytes) (w : World)
    → IsWf w.mem
    → Leads Any (dead_letter_outbound i c n t x) w
unfolding dead_letter_outbound update_owned owned_outbound put_outbound
dead_letter_outbound-Leads i c n t x w v =
    untouched-Leads (dead_letter_outbound i c n t x) w
      (Outbound.dead_letter_outbound-IsWf i c n t x w v) (ground arith)

pub requeue_outbound-Leads :
    (i r a : Bytes) (t : Time) (w : World) → IsWf w.mem → Leads Any (requeue_outbound i r a t) w
unfolding requeue_outbound must_token new_token insert_audit put_outbound
requeue_outbound-Leads i r a t w v =
    untouched-Leads (requeue_outbound i r a t) w (Outbound.requeue_outbound-IsWf i r a t w v)
      (ground arith)

pub insert_processor_event-Leads :
    (e : ProcessorEvent) (w : World) → IsWf w.mem → Leads Any (insert_processor_event e) w
unfolding insert_processor_event now
insert_processor_event-Leads e w v =
    untouched-Leads (insert_processor_event e) w (ProcessorEvents.insert_processor_event-IsWf e w v)
      (ground arith)

pub claim_processor_event-Leads :
    (f : Family) (i k : Bytes) (t : Time) (d : Duration) (w : World)
    → IsWf w.mem
    → Leads Any (claim_processor_event f i k t d) w
unfolding claim_processor_event new_token get_processor_event
claim_processor_event-Leads f i k t d w v =
    untouched-Leads (claim_processor_event f i k t d) w
      (ProcessorEvents.claim_processor_event-IsWf f i k t d w v) (ground arith)

pub finish_processor_event-Leads :
    (f : Family) (i c : Bytes) (n : ℤ) (s : ProcessingState) (r : Option Bytes) (t : Time)
    (w : World)
    → IsWf w.mem
    → Leads Any (finish_processor_event f i c n s r t) w
unfolding finish_processor_event get_processor_event
finish_processor_event-Leads f i c n s r t w v =
    untouched-Leads (finish_processor_event f i c n s r t) w
      (ProcessorEvents.finish_processor_event-IsWf f i c n s r t w v) (ground arith)

pub release_processor_lease-Leads :
    (k c : Bytes) (n : ℤ) (w : World) → IsWf w.mem → Leads Any (release_processor_lease k c n) w
unfolding release_processor_lease
release_processor_lease-Leads k c n w v =
    untouched-Leads (release_processor_lease k c n) w
      (ProcessorEvents.release_processor_lease-IsWf k c n w v) (ground arith)

pub insert_action-Leads :
    (a : ScheduledAction) (w : World) → IsWf w.mem → Leads Any (insert_action a) w
unfolding insert_action
insert_action-Leads a w v =
    untouched-Leads (insert_action a) w (Actions.insert_action-IsWf a w v) (ground arith)

pub claim_action-Leads :
    (i : Bytes) (t : Time) (d : Duration) (w : World)
    → IsWf w.mem
    → Leads Any (claim_action i t d) w
unfolding claim_action new_token
claim_action-Leads i t d w v =
    untouched-Leads (claim_action i t d) w (Actions.claim_action-IsWf i t d w v) (ground arith)

pub claim_due_action-Leads :
    (t : Time) (d : Duration) (s : ActionStatus) (ks : List ActionType) (w : World)
    → IsWf w.mem
    → Leads Any (claim_due_action t d s ks) w
unfolding claim_due_action claim_action new_token lock_due_action
claim_due_action-Leads t d s ks w v =
    untouched-Leads (claim_due_action t d s ks) w (Actions.claim_due_action-IsWf t d s ks w v)
      (ground arith)

pub finish_action-Leads :
    (i c : Bytes) (n : ℤ) (s : ActionStatus) (t : Option Time) (x : Option Bytes) (w : World)
    → IsWf w.mem
    → Leads Any (finish_action i c n s t x) w
unfolding finish_action
finish_action-Leads i c n s t x w v =
    untouched-Leads (finish_action i c n s t x) w (Actions.finish_action-IsWf i c n s t x w v)
      (ground arith)

pub force_finish_action-Leads :
    (i : Bytes) (s : ActionStatus) (t : Option Time) (x : Option Bytes) (w : World)
    → IsWf w.mem
    → Leads Any (force_finish_action i s t x) w
unfolding force_finish_action
force_finish_action-Leads i s t x w v =
    untouched-Leads (force_finish_action i s t x) w (Actions.force_finish_action-IsWf i s t x w v)
      (ground arith)

pub cancel_actions_for_subscription-Leads :
    (r k : Bytes) (w : World) → IsWf w.mem → Leads Any (cancel_actions_for_subscription r k) w
unfolding cancel_actions_for_subscription
cancel_actions_for_subscription-Leads r k w v =
    untouched-Leads (cancel_actions_for_subscription r k) w
      (Actions.cancel_actions_for_subscription-IsWf r k w v) (ground arith)
