-- ===== src/Engine/Commit.antt =====
-- commitChange and marshalCallback of internal/engine/engine.go: a subscription's next version is
-- stored with its callback, and its scheduled actions are planned, in the caller's transaction.
pub mod Current
pub mod Stored
pub mod Unplanned
use subscription_bridge.Prelude.{
  ℕ, suc, Bytes, bytes, Bool, true, false, ◌&&◌, ◌||◌, not, [], ◌∷◌, Option, none, some, ℤ, pos,
  ◌==◌, bytes_eq, if◌then◌else◌, ◌≡◌, refl, arith,
}
use subscription_bridge.Protocol.Errors.{Error, Result, ok, err, of_store, conflict}
use subscription_bridge.Protocol.Status.{Status, EventType, status_eq, event_eq}
use subscription_bridge.Protocol.Clock.{Time}
use subscription_bridge.Protocol.Identifier.{Block, new_opaque_id, event_prefix}
use subscription_bridge.Protocol.Callback.{Platform, Callback, new_callback, action_key}
use subscription_bridge.Store.Models.{
  Subscription, OutboundEvent, DeliveryState, ScheduledAction, ActionType, ActionStatus, Family,
}
use subscription_bridge.Store.Models.Equality.{family_eq}
use subscription_bridge.Store.World.{World, Act, pure, lift, now, new_token, ◌>>=◌, ◌>>◌}
use subscription_bridge.Store.Subscriptions.{insert_subscription, update_subscription}
use subscription_bridge.Store.Outbound.{insert_outbound}
use subscription_bridge.Store.Actions.{insert_action, cancel_actions_for_subscription}

-- protocol.NewEventID
unfoldable pub new_event_id : Act Bytes
new_event_id w = (new_opaque_id (w.entropy w.reads) event_prefix, record w { reads = suc w.reads })

-- `err != nil && !errors.Is(err, store.ErrConflict)`: a conflict is no failure.
unfoldable pub unless_conflict : Act (Unit {0}) → Act (Unit {0})
unless_conflict m w = let (r, w') = m w in (pardon r, w')
  where
    pardon : Result (Unit {0}) → Result (Unit {0})
    pardon (err (of_store conflict)) = ok tt
    pardon r = r

abbrev pub action_text : ActionType → Bytes
action_text ActionType.renew = bytes "renew"
action_text ActionType.expire = bytes "expire"
action_text (ActionType.other s) = s

-- The condition for a renewal.
abbrev pub renews : Subscription → EventType → Bool
renews next event =
    next.processor_family == Family.adyen
    && (event == EventType.activated || event == EventType.renewed)
    && next.status == Status.active

-- The callback row that commitChange stores.
abbrev pub pending_callback : Subscription → EventType → Bytes → Bytes → Time → OutboundEvent
pending_callback next event body id t = record {
  event_id = id;
  event_type = event;
  subscription_ref = next.subscription_ref;
  checkout_id = next.checkout_id;
  state_version = next.state_version;
  payload_body = body;
  delivery_state = DeliveryState.pending;
  attempt_count = pos 0;
  next_attempt_at = some t;
  delivered_at = none;
  dead_lettered_at = none;
  abandoned_at = none;
  last_error_class = none;
  claim_token = none;
  fencing_token = pos 0;
  lease_until = none;
  created_at = 0;
}

-- The write of the subscription: a first version is inserted.
abbrev pub store_row : Subscription → Subscription → Act (Unit {0})
store_row current next =
    if current.subscription_ref == [] then insert_subscription next else update_subscription next

module _ (os : Platform) where
  -- marshalCallback: the body and the event's identifier.
  unfoldable pub marshal_callback : Subscription → EventType → Act (Bytes × Bytes)
  marshal_callback s event = do
    id ← new_event_id
    cb ← lift (
        new_callback os id event s.checkout_id s.subscription_ref s.plan_id s.state_version s.status
          s.current_period_start s.current_period_end s.state_changed_at s.cancel_at_period_end)
    body ← lift (os.marshal cb)
    pure (body, id)

  -- The two branches that plan an action at the end of the period: every other open action of the
  -- subscription is canceled first.
  unfoldable pub plan_action : Subscription → ActionType → Act (Unit {0})
  plan_action next type = do
    let key = action_key os next.subscription_ref (action_text type) next.current_period_end
    id ← new_token
    cancel_actions_for_subscription next.subscription_ref key
    unless_conflict (
        insert_action (record {
          action_id = id;
          action_key = key;
          subscription_ref = next.subscription_ref;
          action_type = type;
          target_at = next.current_period_end;
          due_at = next.current_period_end;
          status = ActionStatus.pending;
          claim_token = none;
          fencing_token = pos 0;
          lease_until = none;
          last_error_class = none;
        }))

  -- The rest of commitChange, after the callback is stored.
  unfoldable pub plan_actions : Subscription → EventType → Act (Unit {0})
  plan_actions next event = do
    if renews next event then plan_action next ActionType.renew else pure tt
    if event == EventType.canceled then plan_action next ActionType.expire else pure tt
    if event == EventType.expired
        then cancel_actions_for_subscription next.subscription_ref []
        else pure tt

  -- commitChange
  unfoldable pub commit_change : Subscription → Subscription → EventType → Act (Unit {0})
  commit_change current next event = do
    (body, id) ← marshal_callback next event
    store_row current next
    t ← now
    insert_outbound (pending_callback next event body id t)
    plan_actions next event
