-- ===== src/Engine/Operators/Settled.antt =====
-- What CancelAtPeriodEnd and ExpireNow leave of a subscription when they succeed.
use subscription_bridge.Prelude.{
  Bytes, true, false, [], some, ◌≡◌, refl, sym, ◌∙◌, ap, subst, arith, ◌==◌, bytes_eq,
  bytes_eqb_iff, bytes_eqb_ne, Option-cases, inl, inr, ◌⊎◌, suc, ◌≢◌,
}
use subscription_bridge.Protocol.Errors.{Result, ok, err}
use subscription_bridge.Protocol.Status.{
  Status, event_eq, status_eq, status_eqb_iff, validate_event_status,
}
use subscription_bridge.Protocol.Clock.{Time, truncate_utc}
use subscription_bridge.Store.Models.{Subscription}
use subscription_bridge.Store.Table
use subscription_bridge.Store.Table.{Table, get-put}
use subscription_bridge.Store.World.{World, pure, lift, now, ◌>>=◌}
use subscription_bridge.Store.Keeps.{bind-ok, in_tx-ok}
use subscription_bridge.Store.Invariant.{IsWf}
use subscription_bridge.Store.Subscriptions.{get_subscription}
use subscription_bridge.Engine.Transition
use subscription_bridge.Engine.Transition.{
  Observation, Decision, Flags, noop, change, decide, dispatch, expire, change_plan,
}
use subscription_bridge.Engine.Transition.Changes.{decide-Outcome, Outcome}
use subscription_bridge.Engine.Commit.{commit_change}
use subscription_bridge.Engine.Env.{
  Engine, commit, apply_decision, cancel_observed, expiry_observed,
}
use subscription_bridge.Engine.Operators.{observe_at, observe_now, cancel_at_period_end, expire_now}
use subscription_bridge.Engine.Commit.Current.{commit_change-subs}

-- What a decision makes of the row: the same row, or the next one, with the time of the write.
abbrev pub Settled : Subscription → Subscription → Result Decision → Type 0
Settled s s' (ok noop) = s' ≡ s
Settled s s' (ok (change event next flags)) = (t : Time) × (s' ≡ record next { updated_at = t })
Settled s s' (err e) = ⊥

get_subscription-ok :
    (ref : Bytes) (w : World) (s : Subscription) (w' : World)
    → get_subscription ref w ≡ (ok s, w')
    → (Table.get w.mem.subs ref ≡ some s) × (w' ≡ w)
unfolding get_subscription
get_subscription-ok ref w s w' h = elim (Option-cases (Table.get w.mem.subs ref)) [
  | inl absent ↦ absurd (ground (arith, rw (absent, get_subscription) at h))
  | inr (x, there) ↦ ground (arith, there, rw (there, get_subscription) at h)
]

commit-ok :
    (e : Engine) (s : Subscription) (obs : Observation) (t : Time) (dec : Decision) (w w' : World)
    → decide s obs t ≡ ok dec
    → (s.subscription_ref == []) ≡ false
    → Table.get w.mem.subs s.subscription_ref ≡ some s
    → commit e s dec w ≡ (ok tt, w')
    → (s' : Subscription) × (Table.get w'.mem.subs s.subscription_ref ≡ some s')
      × Settled s s' (ok dec)
unfolding commit apply_decision
commit-ok e s obs t noop w w' made named there h = (s, rw (← stays) there, refl)
  where
    stays : w ≡ w'
    stays = ground arith
commit-ok e s obs t (change event next flags) w w' made named there h =
    let (x, u, a, h₁) = bind-ok (commit_change e.os s next event >>= λ y. pure next) _ w tt w' h in
    let (y, u₂, b, h₂) = bind-ok (commit_change e.os s next event) _ w x u a in
    let (t', put) = commit_change-subs e.os s next event w u₂ named b in
    let same : w' ≡ u₂ = ground arith in
    let c : Outcome s t (ok (change event next flags)) = rw made at (decide-Outcome s obs t) in
    let ref : (next.subscription_ref == s.subscription_ref) ≡ true =
      (bytes_eqb_iff next.subscription_ref s.subscription_ref).1 c.same_ref in
    (
      record next { updated_at = t' },
      rw
          (
            same,
            put,
            get-put w.mem.subs next.subscription_ref s.subscription_ref
                (record next { updated_at = t' }),
            ref,
          )
          refl,
      (t', refl),
    )

observe_at-ok :
    (e : Engine) (ref : Bytes) (obs : Observation) (t : Time) (w w' : World)
    → IsWf w.mem
    → ref ≢ []
    → observe_at e ref obs t w ≡ (ok tt, w')
    → (s : Subscription) × (s' : Subscription) × (Table.get w.mem.subs ref ≡ some s)
      × (Table.get w'.mem.subs ref ≡ some s')
      × Settled s s' (decide s obs t)
unfolding observe_at
observe_at-ok e ref obs t w w' v named h =
    let (s, u, b, h₁) = bind-ok (get_subscription ref) _ w tt w' h in
    let (there, same) = get_subscription-ok ref w s u b in
    let (dec, u₂, c, h₂) = bind-ok (lift (decide s obs t)) _ u tt w' h₁ in
    decided s dec u₂ there (ap (λ (p : Result Decision × World). p.0) c)
      (sym (ap (λ (p : Result Decision × World). p.1) c) ∙ same) h₂
  where
    decided :
        (s : Subscription) (dec : Decision) (u : World)
        → Table.get w.mem.subs ref ≡ some s
        → decide s obs t ≡ ok dec
        → u ≡ w
        → commit e s dec u ≡ (ok tt, w')
        → (s : Subscription) × (s' : Subscription) × (Table.get w.mem.subs ref ≡ some s)
          × (Table.get w'.mem.subs ref ≡ some s')
          × Settled s s' (decide s obs t)
    decided s dec u there made same h =
        let key : s.subscription_ref ≡ ref = v.subs.indexed.keyed ref s there in
        let (s', there', settled) =
          commit-ok e s obs t dec w w' made
            (subst (λ k. (k == []) ≡ false) (sym key) (bytes_eqb_ne ref [] named))
            (subst (λ k. Table.get w.mem.subs k ≡ some s) (sym key) there) (rw same at h) in
        (
          s,
          s',
          there,
          subst (λ k. Table.get w'.mem.subs k ≡ some s') key there',
          subst (Settled s s') (sym made) settled,
        )

-- A success of CancelAtPeriodEnd or of ExpireNow: the subscription was stored, and what is stored
-- after it is what Decide makes of it at the time of the call, by one decision that had no error.
pub observe_now-Settled :
    (e : Engine) (ref : Bytes) (obs : Observation) (w w' : World)
    → IsWf w.mem
    → ref ≢ []
    → observe_now e ref obs w ≡ (ok tt, w')
    → (s : Subscription) × (s' : Subscription) × (Table.get w.mem.subs ref ≡ some s)
      × (Table.get w'.mem.subs ref ≡ some s')
      × Settled s s' (decide s obs (truncate_utc (w.clock w.reads)))
unfolding observe_now now
observe_now-Settled e ref obs w w' v named h =
    observe_at-ok e ref obs (truncate_utc (w.clock w.reads)) (record w { reads = suc w.reads }) w' v
      named (in_tx-ok (observe_at e ref obs (truncate_utc (w.clock w.reads))) _ tt w' h)

expiry-Settled :
    (s s' : Subscription) (t : Time)
    → Settled s s' (decide s expiry_observed t)
    → s'.status ≡ Status.expired
unfolding decide dispatch expire validate_event_status
expiry-Settled s s' t h = ground (arith, status_eqb_iff s.status Status.expired)

cancel-Settled :
    (s s' : Subscription) (t : Time)
    → Settled s s' (decide s cancel_observed t)
    → (s'.status ≡ Status.canceled) ⊎ (s'.status ≡ Status.expired)
unfolding decide dispatch change_plan Transition.cancel_at_period_end validate_event_status
cancel-Settled s s' t h =
    ground (arith, status_eqb_iff s.status Status.expired, status_eqb_iff s.status Status.canceled)

-- ExpireNow that succeeds, in a well-formed store and with a reference that is not empty, leaves the
-- subscription stored and expired.
pub expire_now-expired :
    (e : Engine) (ref : Bytes) (w w' : World)
    → IsWf w.mem
    → ref ≢ []
    → expire_now e ref w ≡ (ok tt, w')
    → (s : Subscription) × (Table.get w'.mem.subs ref ≡ some s) × (s.status ≡ Status.expired)
unfolding expire_now
expire_now-expired e ref w w' v named h =
    let (s, s', there, there', settled) =
      observe_now-Settled e ref expiry_observed w w' v named h in
    (s', there', expiry-Settled s s' (truncate_utc (w.clock w.reads)) settled)

-- CancelAtPeriodEnd that succeeds, in a well-formed store and with a reference that is not empty,
-- leaves the subscription stored, and canceled or expired.
pub cancel_at_period_end-canceled :
    (e : Engine) (ref : Bytes) (w w' : World)
    → IsWf w.mem
    → ref ≢ []
    → cancel_at_period_end e ref w ≡ (ok tt, w')
    → (s : Subscription) × (Table.get w'.mem.subs ref ≡ some s)
      × ((s.status ≡ Status.canceled) ⊎ (s.status ≡ Status.expired))
unfolding cancel_at_period_end
cancel_at_period_end-canceled e ref w w' v named h =
    let (s, s', there, there', settled) =
      observe_now-Settled e ref cancel_observed w w' v named h in
    (s', there', cancel-Settled s s' (truncate_utc (w.clock w.reads)) settled)
