-- ===== src/Store/Calls/Invariant.antt =====
-- The invariant of the store through every method, every transaction and every history.
use subscription_bridge.Prelude.{some, List, [], ◌∷◌, ◌≡◌}
use subscription_bridge.Protocol.Errors.{Result, ok, err}
use subscription_bridge.Store.Models.{Checkout, Subscription, ChargeAttempt}
use subscription_bridge.Store.Table
use subscription_bridge.Store.World.{empty_memory, Memory, World, Act, pure, in_tx, ◌>>=◌, ◌>>◌}
use subscription_bridge.Store.Cases.{After, After-in_tx}
use subscription_bridge.Store.Calls.{Call, perform, perform_all, serve}
use subscription_bridge.Store.Invariant.{
  IsWf, checkout_key, sub_key, attempt_key, idempotency_of, checkout_of, reference_of, charge_key,
  charge_number, event_key, version_of, action_key, stable_key,
}
use subscription_bridge.Store.Table.Index.{IsIndexed-empty, IsUnique-empty}
use subscription_bridge.Store.Invariant.Checkouts
use subscription_bridge.Store.Invariant.Subscriptions
use subscription_bridge.Store.Invariant.Outbound
use subscription_bridge.Store.Invariant.Actions
use subscription_bridge.Store.Invariant.Attempts
use subscription_bridge.Store.Invariant.ProcessorEvents
use subscription_bridge.Store.Checkouts.{expire_due_checkouts}
use subscription_bridge.Store.Outbound.{claim_due_outbound}
use subscription_bridge.Store.ProcessorEvents.{insert_processor_event, claim_processor_event}
use subscription_bridge.Store.Actions.{claim_action, claim_due_action}
use subscription_bridge.Store.Attempts.{claim_attempt_with_action}

-- An update writes back a row whose unique fields are those of the stored row. The other methods
-- see to this themselves.
abbrev pub Allowed : Call → Memory → Type 0
Allowed (Call.update_checkout c) m =
    (old : Checkout)
    → Table.get m.checkouts (checkout_key c) ≡ some old
    → idempotency_of c ≡ idempotency_of old
Allowed (Call.update_subscription s) m =
    (old : Subscription) → Table.get m.subs (sub_key s) ≡ some old → checkout_of s ≡ checkout_of old
Allowed (Call.update_attempt a) m =
    (old : ChargeAttempt)
    → Table.get m.attempts (attempt_key a) ≡ some old
    → (reference_of a ≡ reference_of old)
      × (charge_key a ≡ charge_key old)
      × (charge_number a ≡ charge_number old)
Allowed _ m = Unit

drop_value-IsWf :
    {A : Type 0} (m : Act A) (w : World)
    → After IsWf m w
    → After IsWf (m >>= λ _. pure {A = Unit {0}} tt) w
drop_value-IsWf m w h = let (r, u) = m w in go r u h
  where
    go :
        {A : Type 0} (r : Result A) (u : World)
        → IsWf u.mem
        → IsWf (((λ (x : World). (r, u)) >>= λ _. pure {A = Unit {0}} tt) u).1.mem
    go (ok a) u h = h
    go (err e) u h = h

-- Every method of a transaction keeps the store well-formed, whether it succeeds or fails.
pub perform-IsWf : (c : Call) (w : World) → Allowed c w.mem → IsWf w.mem → After IsWf (perform c) w
unfolding perform
perform-IsWf (Call.insert_checkout c) w a v = Checkouts.insert_checkout-IsWf c w v
perform-IsWf (Call.update_checkout c) w a v = Checkouts.update_checkout-IsWf c w a v
perform-IsWf (Call.expire_due_checkouts t) w a v =
    drop_value-IsWf (expire_due_checkouts t) w (Checkouts.expire_due_checkouts-IsWf t w v)
perform-IsWf (Call.insert_subscription s) w a v = Subscriptions.insert_subscription-IsWf s w v
perform-IsWf (Call.update_subscription s) w a v = Subscriptions.update_subscription-IsWf s w a v
perform-IsWf (Call.insert_outbound e) w a v = Outbound.insert_outbound-IsWf e w v
perform-IsWf (Call.claim_due_outbound t d) w a v =
    drop_value-IsWf (claim_due_outbound t d) w (Outbound.claim_due_outbound-IsWf t d w v)
perform-IsWf (Call.complete_outbound i c f t) w a v = Outbound.complete_outbound-IsWf i c f t w v
perform-IsWf (Call.retry_outbound i c f t e) w a v = Outbound.retry_outbound-IsWf i c f t e w v
perform-IsWf (Call.dead_letter_outbound i c f t e) w a v =
    Outbound.dead_letter_outbound-IsWf i c f t e w v
perform-IsWf (Call.abandon_outbound i r b t) w a v = Outbound.abandon_outbound-IsWf i r b t w v
perform-IsWf (Call.requeue_outbound i r b t) w a v = Outbound.requeue_outbound-IsWf i r b t w v
perform-IsWf (Call.insert_processor_event e) w a v =
    drop_value-IsWf (insert_processor_event e) w (ProcessorEvents.insert_processor_event-IsWf e w v)
perform-IsWf (Call.claim_processor_event f i k t d) w a v =
    drop_value-IsWf (claim_processor_event f i k t d) w
      (ProcessorEvents.claim_processor_event-IsWf f i k t d w v)
perform-IsWf (Call.finish_processor_event f i c n s r t) w a v =
    ProcessorEvents.finish_processor_event-IsWf f i c n s r t w v
perform-IsWf (Call.release_processor_lease k c n) w a v =
    ProcessorEvents.release_processor_lease-IsWf k c n w v
perform-IsWf (Call.insert_action b) w a v = Actions.insert_action-IsWf b w v
perform-IsWf (Call.claim_action i t d) w a v =
    drop_value-IsWf (claim_action i t d) w (Actions.claim_action-IsWf i t d w v)
perform-IsWf (Call.claim_due_action t d s ks) w a v =
    drop_value-IsWf (claim_due_action t d s ks) w (Actions.claim_due_action-IsWf t d s ks w v)
perform-IsWf (Call.finish_action i c f s d e) w a v = Actions.finish_action-IsWf i c f s d e w v
perform-IsWf (Call.force_finish_action i s d e) w a v = Actions.force_finish_action-IsWf i s d e w v
perform-IsWf (Call.cancel_actions r k) w a v = Actions.cancel_actions_for_subscription-IsWf r k w v
perform-IsWf (Call.insert_attempt b) w a v = Attempts.insert_attempt-IsWf b w v
perform-IsWf (Call.update_attempt b) w a v =
    Attempts.update_attempt-IsWf b w (λ o e. (a o e).0) (λ o e. (a o e).1) (λ o e. (a o e).2) v
perform-IsWf (Call.claim_attempt i j c f t d l) w a v =
    drop_value-IsWf (claim_attempt_with_action i j c f t d l) w
      (Attempts.claim_attempt_with_action-IsWf i j c f t d l w v)
perform-IsWf (Call.insert_audit b) w a v = ProcessorEvents.insert_audit-IsWf b w v

-- Each call of a transaction is allowed in the store that the calls before it leave.
abbrev pub AllAllowed : List Call → World → Type 0
AllAllowed [] w = Unit
AllAllowed (c ∷ cs) w = Allowed c w.mem × AllAllowed cs (perform c w).1

pub perform_all-IsWf :
    (cs : List Call) (w : World) → AllAllowed cs w → IsWf w.mem → After IsWf (perform_all cs) w
unfolding perform_all
perform_all-IsWf [] w a v = v
perform_all-IsWf (c ∷ cs) w a v =
    go (perform c w).0 (perform c w).1 (perform-IsWf c w a.0 v)
      (perform_all-IsWf cs (perform c w).1 a.1)
  where
    go :
        (r : Result (Unit {0})) (u : World)
        → IsWf u.mem
        → (IsWf u.mem → After IsWf (perform_all cs) u)
        → IsWf (((λ (x : World). (r, u)) >> perform_all cs) u).1.mem
    go (ok a) u h rest = rest h
    go (err e) u h rest = h

-- Each transaction of a history is allowed in the store that those before it leave.
abbrev pub HistoryAllowed : List (List Call) → World → Type 0
HistoryAllowed [] w = Unit
HistoryAllowed (tx ∷ txs) w = AllAllowed tx w × HistoryAllowed txs (in_tx (perform_all tx) w).1

-- From a well-formed store, after any history of transactions whose updates keep the unique fields
-- of the rows they write, of those that fail and are rolled back too, the store is well-formed: the
-- tables of checkouts, subscriptions, callbacks, scheduled actions and charge attempts hold each row
-- under its own identifier; no checkouts share an idempotency key, no subscription has two callbacks
-- of one version, no checkout two subscriptions, no stable key two actions, no idempotency key,
-- reference or billing number two charge attempts.
pub serve-IsWf :
    (txs : List (List Call)) (w : World)
    → HistoryAllowed txs w
    → IsWf w.mem
    → IsWf (serve txs w).mem
unfolding serve
serve-IsWf [] w a v = v
serve-IsWf (tx ∷ txs) w a v =
    serve-IsWf txs (in_tx (perform_all tx) w).1 a.1
      (After-in_tx IsWf (perform_all tx) w v (perform_all-IsWf tx w a.0 v))

-- A new store is well-formed.
pub empty_memory-IsWf : IsWf empty_memory
empty_memory-IsWf = record {
  checkouts = record {
    indexed = IsIndexed-empty checkout_key;
    one_per_key = IsUnique-empty idempotency_of;
  };
  subs = record {
    indexed = IsIndexed-empty sub_key;
    one_per_checkout = IsUnique-empty checkout_of;
  };
  outbound = record {
    indexed = IsIndexed-empty event_key;
    one_per_version = IsUnique-empty version_of;
  };
  actions = record {
    indexed = IsIndexed-empty action_key;
    one_per_key = IsUnique-empty stable_key;
  };
  attempts = record {
    indexed = IsIndexed-empty attempt_key;
    one_per_reference = IsUnique-empty reference_of;
    one_per_key = IsUnique-empty charge_key;
    one_per_number = IsUnique-empty charge_number;
  };
}
