-- ===== src/Engine/Commit/Unplanned.antt =====
-- The commits that leave the scheduled actions as they are.
use subscription_bridge.Prelude.{false, ◌≡◌, refl, arith, ◌==◌, bytes_eq}
use subscription_bridge.Protocol.Status.{EventType, event_eq}
use subscription_bridge.Protocol.Callback.{Platform}
use subscription_bridge.Store.Models.{Subscription, ScheduledAction, Family}
use subscription_bridge.Store.Models.Equality.{family_eq}
use subscription_bridge.Store.Table.{Table}
use subscription_bridge.Store.Keeps.{bind-Keeps}
use subscription_bridge.Store.World.{Memory, World, now}
use subscription_bridge.Store.Subscriptions.{
  insert_subscription, update_subscription, put_subscription,
}
use subscription_bridge.Store.Outbound.{insert_outbound}
use subscription_bridge.Store.Calls.Unscheduled.{insert_outbound-actions}
use subscription_bridge.Engine.Commit.{
  commit_change, marshal_callback, new_event_id, plan_actions, pending_callback, store_row,
}

abbrev planned : Memory → Table ScheduledAction
planned m = m.actions

module _ (os : Platform) where
  marshal_callback-planned :
      (s : Subscription) (event : EventType) (w : World)
      → (marshal_callback os s event w).1.mem.actions ≡ w.mem.actions
  unfolding marshal_callback new_event_id
  marshal_callback-planned s event w = ground arith

  store_row-planned :
      (current next : Subscription) (w : World)
      → (store_row current next w).1.mem.actions ≡ w.mem.actions
  unfolding insert_subscription update_subscription put_subscription now
  store_row-planned current next w = ground arith

  now-planned : (w : World) → (now w).1.mem.actions ≡ w.mem.actions
  unfolding now
  now-planned w = refl

  plan_actions-planned :
      (next : Subscription) (event : EventType) (w : World)
      → (next.processor_family == Family.adyen) ≡ false
      → (event == EventType.canceled) ≡ false
      → (event == EventType.expired) ≡ false
      → (plan_actions os next event w).1.mem.actions ≡ w.mem.actions
  unfolding plan_actions
  plan_actions-planned next event w other kept live = rw (other, kept, live) refl

  -- A commit of a subscription that is not Adyen's, by an event that is neither a cancellation nor an
  -- expiry, leaves every scheduled action as it is, whether it succeeds or not: a pending expiry is
  -- not canceled by it.
  pub commit_change-actions :
      (current next : Subscription) (event : EventType) (w : World)
      → (next.processor_family == Family.adyen) ≡ false
      → (event == EventType.canceled) ≡ false
      → (event == EventType.expired) ≡ false
      → (commit_change os current next event w).1.mem.actions ≡ w.mem.actions
  unfolding commit_change
  commit_change-actions current next event w other kept live =
      bind-Keeps planned (marshal_callback os next event) _ w
        (marshal_callback-planned next event w)
        (λ (body, id) u.
          bind-Keeps planned (store_row current next) _ u (store_row-planned current next u)
            (λ x u₂. bind-Keeps planned now _ u₂ (now-planned u₂) (λ t u₃.
              bind-Keeps planned (insert_outbound (pending_callback next event body id t)) _ u₃
                (insert_outbound-actions _ u₃)
                (λ y u₄. plan_actions-planned next event u₄ other kept live))))
