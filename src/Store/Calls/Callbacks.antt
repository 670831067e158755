-- ===== src/Store/Calls/Callbacks.antt =====
-- The callback rows through every method and every history of transactions.
use subscription_bridge.Prelude.{Bytes, Option, none, some, List, [], ◌∷◌, ◌≡◌, refl, ◌∙◌}
use subscription_bridge.Protocol.Errors.{Result, ok, err}
use subscription_bridge.Store.Models.{OutboundEvent, DeliveryState}
use subscription_bridge.Store.Table
use subscription_bridge.Store.World.{Memory, World, Act, pure, in_tx, ◌>>=◌, ◌>>◌}
use subscription_bridge.Store.Cases.{After, After-in_tx}
use subscription_bridge.Store.Audits.{insert_audit}
use subscription_bridge.Store.Invariant.{IsWf}
use subscription_bridge.Store.Calls.{Call, perform, perform_all, serve}
use subscription_bridge.Store.Calls.Invariant.{
  AllAllowed, HistoryAllowed, perform-IsWf, perform_all-IsWf,
}
use subscription_bridge.Store.Outbound.{claim_due_outbound}
use subscription_bridge.Store.Outbound.Evolution.{Evolves, Later, IsLater, same_outbound-IsLater}
use subscription_bridge.Store.Outbound.Evolution
use subscription_bridge.Store.Checkouts.{insert_checkout, update_checkout, expire_due_checkouts}
use subscription_bridge.Store.Subscriptions.{insert_subscription, update_subscription}
use subscription_bridge.Store.ProcessorEvents.{
  insert_processor_event, claim_processor_event, finish_processor_event, release_processor_lease,
}
use subscription_bridge.Store.Actions.{
  insert_action, claim_action, claim_due_action, finish_action, force_finish_action,
  cancel_actions_for_subscription,
}
use subscription_bridge.Store.Attempts.{insert_attempt, update_attempt, claim_attempt_with_action}
use subscription_bridge.Store.Calls.Untouched.{
  insert_checkout-outbound, update_checkout-outbound, expire_due_checkouts-outbound,
  insert_subscription-outbound, update_subscription-outbound, insert_processor_event-outbound,
  claim_processor_event-outbound, finish_processor_event-outbound, release_processor_lease-outbound,
  insert_action-outbound, claim_action-outbound, claim_due_action-outbound, finish_action-outbound,
  force_finish_action-outbound, cancel_actions_for_subscription-outbound, insert_attempt-outbound,
  update_attempt-outbound, claim_attempt_with_action-outbound, insert_audit-outbound,
}

drop_value-IsLater :
    {A : Type 0} (id : Bytes) (m : Act A) (w : World)
    → After (IsLater id w.mem) m w
    → After (IsLater id w.mem) (m >>= λ _. pure {A = Unit {0}} tt) w
drop_value-IsLater id m w h = let (r, u) = m w in go w.mem r u h
  where
    go :
        {A : Type 0} (m : Memory) (r : Result A) (u : World)
        → IsLater id m u.mem
        → IsLater id m (((λ (x : World). (r, u)) >>= λ _. pure {A = Unit {0}} tt) u).1.mem
    go m (ok a) u h = h
    go m (err e) u h = h

module _ (id : Bytes) (w : World) where
  untouched-IsLater :
      {A : Type 0} (m : Act A)
      → (m w).1.mem.outbound ≡ w.mem.outbound
      → After (IsLater id w.mem) m w
  untouched-IsLater m same = same_outbound-IsLater id w.mem _ same

  -- Any method, in a well-formed store, leaves every callback row there; its content stays, its
  -- fence stays or goes up by one, and a delivered row does not change at all.
  pub perform-IsLater : (c : Call) → IsWf w.mem → After (IsLater id w.mem) (perform c) w
  unfolding perform
  perform-IsLater (Call.insert_outbound e) v = Evolution.insert_outbound-IsLater id w e
  perform-IsLater (Call.claim_due_outbound t d) v =
      drop_value-IsLater id (claim_due_outbound t d) w
        (Evolution.claim_due_outbound-IsLater id w t d v)
  perform-IsLater (Call.complete_outbound i c f t) v =
      Evolution.complete_outbound-IsLater id w i c f t
  perform-IsLater (Call.retry_outbound i c f t e) v =
      Evolution.retry_outbound-IsLater id w i c f t e
  perform-IsLater (Call.dead_letter_outbound i c f t e) v =
      Evolution.dead_letter_outbound-IsLater id w i c f t e
  perform-IsLater (Call.abandon_outbound i r a t) v =
      Evolution.abandon_outbound-IsLater id w i r a t
  perform-IsLater (Call.requeue_outbound i r a t) v =
      Evolution.requeue_outbound-IsLater id w i r a t
  perform-IsLater (Call.insert_checkout c) v =
      untouched-IsLater (insert_checkout c) (insert_checkout-outbound c w)
  perform-IsLater (Call.update_checkout c) v =
      untouched-IsLater (update_checkout c) (update_checkout-outbound c w)
  perform-IsLater (Call.expire_due_checkouts t) v =
      drop_value-IsLater id (expire_due_checkouts t) w
        (untouched-IsLater (expire_due_checkouts t) (expire_due_checkouts-outbound t w))
  perform-IsLater (Call.insert_subscription s) v =
      untouched-IsLater (insert_subscription s) (insert_subscription-outbound s w)
  perform-IsLater (Call.update_subscription s) v =
      untouched-IsLater (update_subscription s) (update_subscription-outbound s w)
  perform-IsLater (Call.insert_processor_event e) v =
      drop_value-IsLater id (insert_processor_event e) w
        (untouched-IsLater (insert_processor_event e) (insert_processor_event-outbound e w))
  perform-IsLater (Call.claim_processor_event f i k t d) v =
      drop_value-IsLater id (claim_processor_event f i k t d) w (
        untouched-IsLater (claim_processor_event f i k t d)
          (claim_processor_event-outbound f i k t d w))
  perform-IsLater (Call.finish_processor_event f i c n s r t) v =
      untouched-IsLater (finish_processor_event f i c n s r t)
        (finish_processor_event-outbound f i c n s r t w)
  perform-IsLater (Call.release_processor_lease k c n) v =
      untouched-IsLater (release_processor_lease k c n) (release_processor_lease-outbound k c n w)
  perform-IsLater (Call.insert_action a) v =
      untouched-IsLater (insert_action a) (insert_action-outbound a w)
  perform-IsLater (Call.claim_action i t d) v =
      drop_value-IsLater id (claim_action i t d) w
        (untouched-IsLater (claim_action i t d) (claim_action-outbound i t d w))
  perform-IsLater (Call.claim_due_action t d s ks) v =
      drop_value-IsLater id (claim_due_action t d s ks) w
        (untouched-IsLater (claim_due_action t d s ks) (claim_due_action-outbound t d s ks w))
  perform-IsLater (Call.finish_action i c n s t x) v =
      untouched-IsLater (finish_action i c n s t x) (finish_action-outbound i c n s t x w)
  perform-IsLater (Call.force_finish_action i s t x) v =
      untouched-IsLater (force_finish_action i s t x) (force_finish_action-outbound i s t x w)
  perform-IsLater (Call.cancel_actions r k) v =
      untouched-IsLater (cancel_actions_for_subscription r k)
        (cancel_actions_for_subscription-outbound r k w)
  perform-IsLater (Call.insert_attempt a) v =
      untouched-IsLater (insert_attempt a) (insert_attempt-outbound a w)
  perform-IsLater (Call.update_attempt a) v =
      untouched-IsLater (update_attempt a) (update_attempt-outbound a w)
  perform-IsLater (Call.claim_attempt i j c n t d l) v =
      drop_value-IsLater id (claim_attempt_with_action i j c n t d l) w (
        untouched-IsLater (claim_attempt_with_action i j c n t d l)
          (claim_attempt_with_action-outbound i j c n t d l w))
  perform-IsLater (Call.insert_audit a) v =
      untouched-IsLater (insert_audit a) (insert_audit-outbound a w)

-- The content of a callback is fixed, and a delivered callback does not change.
pub record Persists (e e' : OutboundEvent) : Type 0 where
  pub same_id : e'.event_id ≡ e.event_id
  pub same_type : e'.event_type ≡ e.event_type
  pub same_ref : e'.subscription_ref ≡ e.subscription_ref
  pub same_version : e'.state_version ≡ e.state_version
  pub same_body : e'.payload_body ≡ e.payload_body
  pub final : e.delivery_state ≡ DeliveryState.delivered → e' ≡ e

abbrev Kept : Option OutboundEvent → Option OutboundEvent → Type 0
Kept none o = Unit {0}
Kept (some e) none = ⊥
Kept (some e) (some e') = Persists e e'

-- The callback row under `id` in the store `m` is kept in the store `m'`.
pub data IsKept (id : Bytes) (m m' : Memory) : Type 0 where
  kept : Kept (Table.get m.outbound id) (Table.get m'.outbound id) → IsKept id m m'

Kept-refl : (o : Option OutboundEvent) → Kept o o
Kept-refl none = tt
Kept-refl (some e) = record {
  same_id = refl;
  same_type = refl;
  same_ref = refl;
  same_version = refl;
  same_body = refl;
  final = λ _. refl;
}

Kept-Later : (a b c : Option OutboundEvent) → Kept a b → Later b c → Kept a c
Kept-Later none b c h l = tt
Kept-Later (some e) none c h l = absurd h
Kept-Later (some e) (some f) none h l = absurd l
Kept-Later (some e) (some f) (some g) h l = record {
  same_id = l.same_id ∙ h.same_id;
  same_type = l.same_type ∙ h.same_type;
  same_ref = l.same_ref ∙ h.same_ref;
  same_version = l.same_version ∙ h.same_version;
  same_body = l.same_body ∙ h.same_body;
  final = λ done. l.final (rw (h.final done) done) ∙ h.final done;
}

module _ (id : Bytes) (m : Memory) where
  IsKept-IsLater : (m' m'' : Memory) → IsKept id m m' → IsLater id m' m'' → IsKept id m m''
  IsKept-IsLater m' m'' (IsKept.kept h) (IsLater.later l) = IsKept.kept (Kept-Later _ _ _ h l)

  perform_all-IsKept :
      (cs : List Call) (w : World)
      → AllAllowed cs w
      → IsWf w.mem
      → IsKept id m w.mem
      → After (IsKept id m) (perform_all cs) w
  unfolding perform_all
  perform_all-IsKept [] w a v h = h
  perform_all-IsKept (c ∷ cs) w a v h =
      go (perform c w).0 (perform c w).1 (IsKept-IsLater w.mem _ h (perform-IsLater id w c v))
        (perform_all-IsKept cs (perform c w).1 a.1 (perform-IsWf c w a.0 v))
    where
      go :
          (r : Result (Unit {0})) (u : World)
          → IsKept id m u.mem
          → (IsKept id m u.mem → After (IsKept id m) (perform_all cs) u)
          → IsKept id m (((λ (x : World). (r, u)) >> perform_all cs) u).1.mem
      go (ok a) u h rest = rest h
      go (err e) u h rest = h

  serve-IsKept_from :
      (txs : List (List Call)) (w : World)
      → HistoryAllowed txs w
      → IsWf w.mem
      → IsKept id m w.mem
      → IsKept id m (serve txs w).mem
  unfolding serve
  serve-IsKept_from [] w a v h = h
  serve-IsKept_from (tx ∷ txs) w a v h =
      serve-IsKept_from txs (in_tx (perform_all tx) w).1 a.1
        (After-in_tx IsWf (perform_all tx) w v (perform_all-IsWf tx w a.0 v))
        (After-in_tx (IsKept id m) (perform_all tx) w h (perform_all-IsKept tx w a.0 v h))

-- In any history of transactions from a well-formed store whose updates keep the unique fields of
-- their rows, a callback row, once there, stays there
-- with the same event, subscription, version and body; and once it is delivered it does not change.
pub serve-IsKept :
    (id : Bytes) (txs : List (List Call)) (w : World)
    → HistoryAllowed txs w
    → IsWf w.mem
    → IsKept id w.mem (serve txs w).mem
serve-IsKept id txs w a v =
    serve-IsKept_from id w.mem txs w a v (IsKept.kept (Kept-refl (Table.get w.mem.outbound id)))
