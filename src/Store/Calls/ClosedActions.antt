-- ===== src/Store/Calls/ClosedActions.antt =====
-- The scheduled actions that are over, through every method and every history of transactions.
use subscription_bridge.Prelude.{Bytes, bytes_eq, false, List, [], ◌∷◌, ◌≡◌}
use subscription_bridge.Protocol.Errors.{Result, ok, err}
use subscription_bridge.Store.Models.{ScheduledAction}
use subscription_bridge.Store.Models.Equality.{action_status_eq}
use subscription_bridge.Store.World.{World, Act, pure, in_tx, ◌>>=◌, ◌>>◌}
use subscription_bridge.Store.Cases.{After, After-in_tx}
use subscription_bridge.Store.Invariant.{IsWf}
use subscription_bridge.Store.Calls.{Call, perform, perform_all, serve}
use subscription_bridge.Store.Calls.Invariant.{
  AllAllowed, HistoryAllowed, perform-IsWf, perform_all-IsWf,
}
use subscription_bridge.Store.Actions.{claim_action, claim_due_action, is_unfinished}
use subscription_bridge.Store.Checkouts.{insert_checkout, update_checkout, expire_due_checkouts}
use subscription_bridge.Store.Subscriptions.{insert_subscription, update_subscription}
use subscription_bridge.Store.ProcessorEvents.{
  insert_processor_event, claim_processor_event, finish_processor_event, release_processor_lease,
}
use subscription_bridge.Store.Attempts.{insert_attempt, update_attempt, claim_attempt_with_action}
use subscription_bridge.Store.Audits.{insert_audit}
use subscription_bridge.Store.Outbound.{
  insert_outbound, claim_due_outbound, complete_outbound, retry_outbound, dead_letter_outbound,
  abandon_outbound, requeue_outbound,
}
use subscription_bridge.Store.Calls.Unscheduled.{
  insert_checkout-actions, update_checkout-actions, expire_due_checkouts-actions,
  insert_subscription-actions, update_subscription-actions, insert_processor_event-actions,
  claim_processor_event-actions, finish_processor_event-actions, release_processor_lease-actions,
  insert_attempt-actions, update_attempt-actions, claim_attempt_with_action-actions,
  insert_audit-actions, insert_outbound-actions, claim_due_outbound-actions,
  complete_outbound-actions, retry_outbound-actions, dead_letter_outbound-actions,
  abandon_outbound-actions, requeue_outbound-actions,
}
use subscription_bridge.Store.Actions.Closed.{
  Stands, same_actions-Stands, insert_action-Stands, claim_action-Stands, claim_due_action-Stands,
  finish_action-Stands, force_finish_action-Stands, cancel_actions-Stands,
}

module _ (id : Bytes) (a : ScheduledAction) (closed : is_unfinished a.status ≡ false) where
  untouched-Stands :
      {A : Type 0} (m : Act A) (w : World)
      → (m w).1.mem.actions ≡ w.mem.actions
      → Stands id a w.mem
      → After (Stands id a) m w
  untouched-Stands m w same h = same_actions-Stands id a closed w.mem _ same h

  drop_value-Stands :
      {A : Type 0} (m : Act A) (w : World)
      → After (Stands id a) m w
      → After (Stands id a) (m >>= λ _. pure {A = Unit {0}} tt) w
  drop_value-Stands m w h = let (r, u) = m w in go r u h
    where
      go :
          {A : Type 0} (r : Result A) (u : World)
          → Stands id a u.mem
          → Stands id a (((λ (x : World). (r, u)) >>= λ _. pure {A = Unit {0}} tt) u).1.mem
      go (ok v) u h = h
      go (err e) u h = h

  perform-Stands :
      (c : Call) (w : World) → IsWf w.mem → Stands id a w.mem → After (Stands id a) (perform c) w
  unfolding perform
  perform-Stands (Call.insert_action b) w v h = insert_action-Stands id a closed b w h
  perform-Stands (Call.claim_action i t d) w v h =
      drop_value-Stands (claim_action i t d) w (claim_action-Stands id a closed i t d w v h)
  perform-Stands (Call.claim_due_action t d s ks) w v h =
      drop_value-Stands (claim_due_action t d s ks) w
        (claim_due_action-Stands id a closed t d s ks w v h)
  perform-Stands (Call.finish_action i c n s t x) w v h =
      finish_action-Stands id a closed i c n s t x w h
  perform-Stands (Call.force_finish_action i s t x) w v h =
      force_finish_action-Stands id a closed i s t x w h
  perform-Stands (Call.cancel_actions r k) w v h = cancel_actions-Stands id a closed r k w h
  perform-Stands (Call.insert_checkout c) w v h =
      untouched-Stands (insert_checkout c) w (insert_checkout-actions c w) h
  perform-Stands (Call.update_checkout c) w v h =
      untouched-Stands (update_checkout c) w (update_checkout-actions c w) h
  perform-Stands (Call.expire_due_checkouts t) w v h =
      drop_value-Stands (expire_due_checkouts t) w
        (untouched-Stands (expire_due_checkouts t) w (expire_due_checkouts-actions t w) h)
  perform-Stands (Call.insert_subscription s) w v h =
      untouched-Stands (insert_subscription s) w (insert_subscription-actions s w) h
  perform-Stands (Call.update_subscription s) w v h =
      untouched-Stands (update_subscription s) w (update_subscription-actions s w) h
  perform-Stands (Call.insert_processor_event e) w v h =
      drop_value-Stands (insert_processor_event e) w
        (untouched-Stands (insert_processor_event e) w (insert_processor_event-actions e w) h)
  perform-Stands (Call.claim_processor_event f i k t d) w v h =
      drop_value-Stands (claim_processor_event f i k t d) w (
        untouched-Stands (claim_processor_event f i k t d) w
          (claim_processor_event-actions f i k t d w) h)
  perform-Stands (Call.finish_processor_event f i c n s r t) w v h =
      untouched-Stands (finish_processor_event f i c n s r t) w
        (finish_processor_event-actions f i c n s r t w) h
  perform-Stands (Call.release_processor_lease k c n) w v h =
      untouched-Stands (release_processor_lease k c n) w (release_processor_lease-actions k c n w) h
  perform-Stands (Call.insert_attempt b) w v h =
      untouched-Stands (insert_attempt b) w (insert_attempt-actions b w) h
  perform-Stands (Call.update_attempt b) w v h =
      untouched-Stands (update_attempt b) w (update_attempt-actions b w) h
  perform-Stands (Call.claim_attempt i j c n t d l) w v h =
      drop_value-Stands (claim_attempt_with_action i j c n t d l) w (
        untouched-Stands (claim_attempt_with_action i j c n t d l) w
          (claim_attempt_with_action-actions i j c n t d l w) h)
  perform-Stands (Call.insert_audit b) w v h =
      untouched-Stands (insert_audit b) w (insert_audit-actions b w) h
  perform-Stands (Call.insert_outbound e) w v h =
      untouched-Stands (insert_outbound e) w (insert_outbound-actions e w) h
  perform-Stands (Call.claim_due_outbound t d) w v h =
      drop_value-Stands (claim_due_outbound t d) w
        (untouched-Stands (claim_due_outbound t d) w (claim_due_outbound-actions t d w) h)
  perform-Stands (Call.complete_outbound i c n t) w v h =
      untouched-Stands (complete_outbound i c n t) w (complete_outbound-actions i c n t w) h
  perform-Stands (Call.retry_outbound i c n t x) w v h =
      untouched-Stands (retry_outbound i c n t x) w (retry_outbound-actions i c n t x w) h
  perform-Stands (Call.dead_letter_outbound i c n t x) w v h =
      untouched-Stands (dead_letter_outbound i c n t x) w (dead_letter_outbound-actions i c n t x w)
        h
  perform-Stands (Call.abandon_outbound i r b t) w v h =
      untouched-Stands (abandon_outbound i r b t) w (abandon_outbound-actions i r b t w) h
  perform-Stands (Call.requeue_outbound i r b t) w v h =
      untouched-Stands (requeue_outbound i r b t) w (requeue_outbound-actions i r b t w) h

  perform_all-Stands :
      (cs : List Call) (w : World)
      → AllAllowed cs w
      → IsWf w.mem
      → Stands id a w.mem
      → After (Stands id a) (perform_all cs) w
  unfolding perform_all
  perform_all-Stands [] w ok_ v h = h
  perform_all-Stands (c ∷ cs) w ok_ v h =
      go (perform c w).0 (perform c w).1 (perform-Stands c w v h)
        (perform_all-Stands cs (perform c w).1 ok_.1 (perform-IsWf c w ok_.0 v))
    where
      go :
          (r : Result (Unit {0})) (u : World)
          → Stands id a u.mem
          → (Stands id a u.mem → After (Stands id a) (perform_all cs) u)
          → Stands id a (((λ (x : World). (r, u)) >> perform_all cs) u).1.mem
      go (ok x) u h rest = rest h
      go (err e) u h rest = h

-- An action whose status is neither pending, running nor uncertain stays as it is in every history of
-- transactions from a well-formed store whose updates keep the unique fields of their rows: it is not claimed, finished, canceled or overwritten.
pub serve-Stands :
    (id : Bytes) (a : ScheduledAction) (txs : List (List Call)) (w : World)
    → is_unfinished a.status ≡ false
    → HistoryAllowed txs w
    → IsWf w.mem
    → Stands id a w.mem
    → Stands id a (serve txs w).mem
unfolding serve
serve-Stands id a [] w closed allowed v h = h
serve-Stands id a (tx ∷ txs) w closed allowed v h =
    serve-Stands id a txs (in_tx (perform_all tx) w).1 closed allowed.1
      (After-in_tx IsWf (perform_all tx) w v (perform_all-IsWf tx w allowed.0 v))
      (After-in_tx (Stands id a) (perform_all tx) w h
        (perform_all-Stands id a closed tx w allowed.0 v h))
