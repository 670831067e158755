-- ===== src/Engine/Commit/Stored.antt =====
-- What a commit that succeeds leaves in the store.
use subscription_bridge.Prelude.{
  ℕ, ◌≤◌, suc, Bytes, none, ◌∙◌, any, [], ◌==◌, bytes_eq, some, if◌then◌else◌, ◌≡◌, refl, inl, inr,
  arith, Option-cases, Bool-cases, bytes_eqb_refl,
}
use subscription_bridge.Protocol.Errors.{Result, ok}
use subscription_bridge.Protocol.Status.{EventType, event_eq, status_eq}
use subscription_bridge.Protocol.Clock.{Time, truncate_utc}
use subscription_bridge.Protocol.Callback.{Platform, Callback, new_callback}
use subscription_bridge.Store.Models.{Subscription, OutboundEvent, DeliveryState, ActionType}
use subscription_bridge.Store.Models.Equality.{family_eq}
use subscription_bridge.Store.Table
use subscription_bridge.Store.Table.{Table, get-put}
use subscription_bridge.Store.Keeps.{bind-ok, Keeps, seq-Keeps, if-Keeps}
use subscription_bridge.Store.World.{Memory, World, Act, pure, lift, now, new_token, ◌>>◌}
use subscription_bridge.Store.Subscriptions.{
  insert_subscription, update_subscription, put_subscription,
}
use subscription_bridge.Store.Outbound.{put_outbound, insert_outbound, same_version}
use subscription_bridge.Store.Actions.{insert_action, cancel_actions_for_subscription}
use subscription_bridge.Store.Calls.Untouched.{cancel_actions_for_subscription-outbound}
use subscription_bridge.Engine.Commit.{
  commit_change, marshal_callback, plan_action, plan_actions, pending_callback, unless_conflict,
  new_event_id, renews, store_row,
}

insert_outbound-ok :
    (e : OutboundEvent) (w w' : World)
    → insert_outbound e w ≡ (ok tt, w')
    → (t : Time) × (Table.get w.mem.outbound e.event_id ≡ none)
      × (Table.get w'.mem.outbound e.event_id ≡ some (record e { created_at = t }))
unfolding insert_outbound now put_outbound
insert_outbound-ok e w w' h = elim (Option-cases (Table.get w.mem.outbound e.event_id)) [
  | inr (x, there) ↦ absurd (ground (arith, rw (there, insert_outbound) at h))
  | inl absent ↦ elim (Bool-cases (any (same_version e) (Table.values w.mem.outbound))) [
    | inl taken ↦ absurd (ground (arith, rw (absent, taken, insert_outbound) at h))
    | inr free ↦
        let row = record e { created_at = truncate_utc (w.clock w.reads) } in
        let left : record w {
          mem = record w.mem { outbound = Table.put w.mem.outbound e.event_id row };
          reads = suc w.reads;
        }
            ≡ w' =
          ground (arith, rw (absent, free, insert_outbound) at h) in
        (
          truncate_utc (w.clock w.reads),
          absent,
          rw (← left, get-put w.mem.outbound e.event_id e.event_id row, bytes_eqb_refl e.event_id)
              refl,
        )
  ]
]

-- An action that leaves the callbacks as they are.
abbrev callbacks : Memory → Table OutboundEvent
callbacks m = m.outbound

abbrev KeepsOutbound : Act (Unit {0}) → Type 0
KeepsOutbound m = Keeps callbacks m

same_row :
    (m m' : Memory) (id : Bytes) (row : OutboundEvent)
    → m.outbound ≡ m'.outbound
    → Table.get m'.outbound id ≡ some row
    → Table.get m.outbound id ≡ some row
same_row m m' id row same h = rw same h

module _ (os : Platform) where
  plan_action-outbound :
      (next : Subscription) (type : ActionType) (w : World)
      → (plan_action os next type w).1.mem.outbound ≡ w.mem.outbound
  unfolding plan_action unless_conflict new_token insert_action cancel_actions_for_subscription
  plan_action-outbound next type w = ground arith

  plan_actions-outbound :
      (next : Subscription) (event : EventType) → KeepsOutbound (plan_actions os next event)
  unfolding plan_actions
  plan_actions-outbound next event =
      seq-Keeps callbacks
        (if renews next event then plan_action os next ActionType.renew else pure tt)
        ((if event == EventType.canceled then plan_action os next ActionType.expire else pure tt)
          >> (if event == EventType.expired
              then cancel_actions_for_subscription next.subscription_ref []
              else pure tt))
        (if-Keeps callbacks (renews next event) _ (plan_action-outbound next ActionType.renew))
        (seq-Keeps callbacks
          (if event == EventType.canceled then plan_action os next ActionType.expire else pure tt)
          (if event == EventType.expired
            then cancel_actions_for_subscription next.subscription_ref []
            else pure tt)
          (if-Keeps callbacks (event == EventType.canceled) _
            (plan_action-outbound next ActionType.expire))
          (if-Keeps callbacks (event == EventType.expired) _
            (cancel_actions_for_subscription-outbound next.subscription_ref [])))

  marshal_callback-ok :
      (next : Subscription) (event : EventType) (w w' : World) (body id : Bytes)
      → marshal_callback os next event w ≡ (ok (body, id), w')
      → (cb : Callback) × (new_callback os id event next.checkout_id next.subscription_ref
            next.plan_id next.state_version next.status next.current_period_start
            next.current_period_end next.state_changed_at next.cancel_at_period_end
          ≡ ok cb)
        × (os.marshal cb ≡ ok body)
  unfolding marshal_callback
  marshal_callback-ok next event w w' body id h =
      let (id₀, u, a, h₁) = bind-ok new_event_id _ w (body, id) w' h in
      let made : Result Callback =
        new_callback os id₀ event next.checkout_id next.subscription_ref next.plan_id
          next.state_version next.status next.current_period_start next.current_period_end
          next.state_changed_at next.cancel_at_period_end in
      let (cb, u₂, b, h₂) = bind-ok (lift made) _ u (body, id) w' h₁ in
      let (body₀, u₃, c, h₃) = bind-ok (lift (os.marshal cb)) _ u₂ (body, id) w' h₂ in
      let same : id₀ ≡ id = ground arith in
      let same_body : body₀ ≡ body = ground arith in
      (cb, rw (← same) (ground arith), rw (← same_body) (ground arith))

  -- The callbacks and the clock before the callback is inserted are those of the beginning.
  marshal_callback-still :
      (next : Subscription) (event : EventType) (w : World)
      → ((marshal_callback os next event w).1.mem.outbound ≡ w.mem.outbound)
        × ((marshal_callback os next event w).1.clock ≡ w.clock)
        × (w.reads ≤ (marshal_callback os next event w).1.reads)
  unfolding marshal_callback new_event_id
  marshal_callback-still next event w = ground arith

  store_row-still :
      (current next : Subscription) (w : World)
      → ((store_row current next w).1.mem.outbound ≡ w.mem.outbound)
        × ((store_row current next w).1.clock ≡ w.clock)
        × (w.reads ≤ (store_row current next w).1.reads)
  unfolding insert_subscription update_subscription put_subscription now
  store_row-still current next w = ground arith

  now-still :
      (u v : World) (t : Time)
      → now u ≡ (ok t, v)
      → (v.mem.outbound ≡ u.mem.outbound) × (t ≡ truncate_utc (u.clock u.reads))
  unfolding now
  now-still u v t h = ground arith

  -- A commit that succeeds has stored, under an identifier that no callback had, a pending callback of
  -- the subscription's version and of the event, to be delivered from a time that the clock showed
  -- after the commit began; its body is the text of a callback that NewCallback accepted for the committed row.
  pub commit_change-stored :
      (current next : Subscription) (event : EventType) (w w' : World)
      → commit_change os current next event w ≡ (ok tt, w')
      → (id : Bytes) × (row : OutboundEvent) × (cb : Callback) × (Table.get w'.mem.outbound id
          ≡ some row)
        × (row.subscription_ref ≡ next.subscription_ref)
        × (row.state_version ≡ next.state_version)
        × (row.event_type ≡ event)
        × (row.delivery_state ≡ DeliveryState.pending)
        × (Table.get w.mem.outbound id ≡ none)
        × (reads : ℕ) × (w.reads ≤ reads)
        × (row.next_attempt_at ≡ some (truncate_utc (w.clock reads)))
        × (new_callback os id event next.checkout_id next.subscription_ref next.plan_id
              next.state_version next.status next.current_period_start next.current_period_end
              next.state_changed_at next.cancel_at_period_end
            ≡ ok cb)
        × (os.marshal cb ≡ ok row.payload_body)
  unfolding commit_change
  commit_change-stored current next event w w' h =
      let ((body, id), u₁, a, h₁) = bind-ok (marshal_callback os next event) _ w tt w' h in
      let (x, u₂, b, h₂) = bind-ok (store_row current next) _ u₁ tt w' h₁ in
      let (t, u₃, c, h₃) = bind-ok now _ u₂ tt w' h₂ in
      let (y, u₄, d, h₄) =
        bind-ok (insert_outbound (pending_callback next event body id t)) _ u₃ tt w' h₃ in
      let (at, absent, row) = insert_outbound-ok (pending_callback next event body id t) u₃ u₄ d in
      let begun = marshal_callback-still next event w in
      let begun' : (u₁.mem.outbound ≡ w.mem.outbound)
          × (u₁.clock ≡ w.clock)
          × (w.reads ≤ u₁.reads) =
        rw a at begun in
      let written = store_row-still current next u₁ in
      let written' : (u₂.mem.outbound ≡ u₁.mem.outbound)
          × (u₂.clock ≡ u₁.clock)
          × (u₁.reads ≤ u₂.reads) =
        rw b at written in
      let (read, shown) = now-still u₂ u₃ t c in
      let new : Table.get w.mem.outbound id ≡ none = rw (read ∙ written'.0 ∙ begun'.0) at absent in
      let due : some t ≡ some (truncate_utc (w.clock u₂.reads)) =
        rw (shown, written'.1, begun'.1) refl in
      let (cb, made, text) = marshal_callback-ok next event w u₁ body id a in
      let kept : w'.mem.outbound ≡ u₄.mem.outbound =
        kept_by u₄ w' h₄ (plan_actions-outbound next event u₄) in
      (
        id,
        record (pending_callback next event body id t) { created_at = at },
        cb,
        same_row w'.mem u₄.mem id _ kept row,
        refl,
        refl,
        refl,
        refl,
        new,
        u₂.reads,
        omega (arith, begun'.2, written'.2),
        due,
        made,
        text,
      )
    where
      kept_by :
          (u v : World)
          → plan_actions os next event u ≡ (ok tt, v)
          → (plan_actions os next event u).1.mem.outbound ≡ u.mem.outbound
          → v.mem.outbound ≡ u.mem.outbound
      kept_by u v e same = rw e at same
