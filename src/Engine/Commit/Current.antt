-- ===== src/Engine/Commit/Current.antt =====
-- What commitChange leaves of the table of subscriptions.
use subscription_bridge.Prelude.{
  Bytes, false, [], ◌≡◌, refl, ◌∙◌, ap, arith, ◌==◌, bytes_eq, Option-cases, inl, inr,
  if◌then◌else◌,
}
use subscription_bridge.Protocol.Errors.{ok}
use subscription_bridge.Protocol.Status.{EventType, event_eq, status_eq}
use subscription_bridge.Protocol.Clock.{Time, truncate_utc}
use subscription_bridge.Protocol.Callback.{Platform}
use subscription_bridge.Store.Models.{Subscription, OutboundEvent, ActionType}
use subscription_bridge.Store.Table
use subscription_bridge.Store.Table.{Table, get-put}
use subscription_bridge.Store.World.{Memory, World, pure, now, new_token, ◌>>◌}
use subscription_bridge.Store.Keeps.{bind-ok, Keeps, seq-Keeps, if-Keeps}
use subscription_bridge.Store.Subscriptions.{update_subscription, put_subscription}
use subscription_bridge.Store.Outbound.{insert_outbound, put_outbound}
use subscription_bridge.Store.Actions.{insert_action, cancel_actions_for_subscription}
use subscription_bridge.Engine.Commit.{
  commit_change, marshal_callback, plan_action, plan_actions, pending_callback, unless_conflict,
  new_event_id, renews, store_row,
}

abbrev subscriptions : Memory → Table Subscription
subscriptions m = m.subs

update_subscription-ok :
    (s : Subscription) (w w' : World)
    → update_subscription s w ≡ (ok tt, w')
    → (t : Time) × (w'.mem.subs
        ≡ Table.put w.mem.subs s.subscription_ref (record s { updated_at = t }))
unfolding update_subscription now put_subscription
update_subscription-ok s w w' h = elim (Option-cases (Table.get w.mem.subs s.subscription_ref)) [
  | inl absent ↦ absurd (ground (arith, rw (absent, update_subscription) at h))
  | inr (old, there) ↦
      (truncate_utc (w.clock w.reads), ground (arith, rw (there, update_subscription) at h))
]

now-mem : (w : World) → (now w).1.mem ≡ w.mem
unfolding now
now-mem w = refl

module _ (os : Platform) where
  plan_action-subs :
      (next : Subscription) (type : ActionType) → Keeps subscriptions (plan_action os next type)
  unfolding plan_action unless_conflict new_token insert_action cancel_actions_for_subscription
  plan_action-subs next type w = ground arith

  cancel_actions-subs :
      (ref key : Bytes) → Keeps subscriptions (cancel_actions_for_subscription ref key)
  unfolding cancel_actions_for_subscription
  cancel_actions-subs ref key w = refl

  plan_actions-subs :
      (next : Subscription) (event : EventType) → Keeps subscriptions (plan_actions os next event)
  unfolding plan_actions
  plan_actions-subs next event =
      seq-Keeps subscriptions
        (if renews next event then plan_action os next ActionType.renew else pure tt)
        ((if event == EventType.canceled then plan_action os next ActionType.expire else pure tt)
          >> (if event == EventType.expired
              then cancel_actions_for_subscription next.subscription_ref []
              else pure tt))
        (if-Keeps subscriptions (renews next event) _ (plan_action-subs next ActionType.renew))
        (seq-Keeps subscriptions
          (if event == EventType.canceled then plan_action os next ActionType.expire else pure tt)
          (if event == EventType.expired
            then cancel_actions_for_subscription next.subscription_ref []
            else pure tt)
          (if-Keeps subscriptions (event == EventType.canceled) _
            (plan_action-subs next ActionType.expire))
          (if-Keeps subscriptions (event == EventType.expired) _
            (cancel_actions-subs next.subscription_ref [])))

  insert_outbound-subs : (e : OutboundEvent) → Keeps subscriptions (insert_outbound e)
  unfolding insert_outbound now put_outbound
  insert_outbound-subs e w = ground arith

  marshal_callback-mem :
      (s : Subscription) (event : EventType) (w : World)
      → (marshal_callback os s event w).1.mem ≡ w.mem
  unfolding marshal_callback new_event_id
  marshal_callback-mem s event w = ground arith

  -- What a commit of the next version of a subscription leaves in the table.
  pub commit_change-subs :
      (current next : Subscription) (event : EventType) (w w' : World)
      → (current.subscription_ref == []) ≡ false
      → commit_change os current next event w ≡ (ok tt, w')
      → (t : Time) × (w'.mem.subs
          ≡ Table.put w.mem.subs next.subscription_ref (record next { updated_at = t }))
  unfolding commit_change
  commit_change-subs current next event w w' named h =
      let ((body, id), u₁, a, h₁) = bind-ok (marshal_callback os next event) _ w tt w' h in
      let (x, u₂, b, h₂) = bind-ok (store_row current next) _ u₁ tt w' h₁ in
      let (t, u₃, c, h₃) = bind-ok now _ u₂ tt w' h₂ in
      let (y, u₄, d, h₄) =
        bind-ok (insert_outbound (pending_callback next event body id t)) _ u₃ tt w' h₃ in
      let (t', put) = update_subscription-ok next u₁ u₂ (rw named at b) in
      let same₁ : u₁.mem ≡ w.mem = rw a at (marshal_callback-mem next event w) in
      let same₃ : u₃.mem ≡ u₂.mem = rw c at (now-mem u₂) in
      let same₄ : u₄.mem.subs ≡ u₃.mem.subs =
        rw d at (insert_outbound-subs (pending_callback next event body id t) u₃) in
      let same : w'.mem.subs ≡ u₄.mem.subs = rw h₄ at (plan_actions-subs next event u₄) in
      (
        t',
        same
            ∙ same₄
            ∙ ap subscriptions same₃
            ∙ put
            ∙ ap
                (λ (m : Memory).
                  Table.put m.subs next.subscription_ref (record next { updated_at = t' }))
                same₁,
      )
