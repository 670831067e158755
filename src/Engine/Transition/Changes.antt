-- ===== src/Engine/Transition/Changes.antt =====
-- What Decide may change: every decision that is no no-op.
use subscription_bridge.Prelude.{
  ◌<◌, Bool, ◌≡◌, ◌≢◌, refl, inl, inr, arith, ◌==◌, bytes_eq, inc64, Bool-cases, ◌⊎◌, ◌&&◌, not,
}
use subscription_bridge.Protocol.Errors.{Result, ok, err, of_protocol, unordered_period}
use subscription_bridge.Protocol.Status.{
  Status, EventType, status_eq, status_eqb_iff, validate_event_status,
}
use subscription_bridge.Protocol.Status.Pairs.{Pair, validate_event_status_iff}
use subscription_bridge.Protocol.Clock.{Time, is_after, truncate_utc}
use subscription_bridge.Store.Models.{Subscription}
use subscription_bridge.Engine.Transition.{
  Observation, Decision, noop, change, decide, dispatch, observed, expire, change_plan,
  cancel_at_period_end, past_due, activate_or_renew,
}

-- The step that every transition function takes from `c` by way of the observed row `n₀`.
pub record IsStep (c n₀ : Subscription) (e : EventType) (n : Subscription) : Type 0 where
  pub version : n.state_version ≡ inc64 c.state_version
  pub accepted : validate_event_status e n.status n.cancel_at_period_end ≡ ok tt
  pub same_ref : n.subscription_ref ≡ n₀.subscription_ref
  pub same_checkout : n.checkout_id ≡ n₀.checkout_id
  pub same_plan : n.plan_id ≡ n₀.plan_id
  pub same_family : n.processor_family ≡ n₀.processor_family
  pub same_start : n.current_period_start ≡ n₀.current_period_start
  pub same_end : n.current_period_end ≡ n₀.current_period_end
  pub same_changed_at : n.state_changed_at ≡ n₀.state_changed_at

-- A result of a transition function: no error, and a step if it is a change.
abbrev pub Steps : Subscription → Subscription → Result Decision → Type 0
Steps c n₀ (ok noop) = Unit {0}
Steps c n₀ (ok (change e n f)) = IsStep c n₀ e n
Steps c n₀ (err x) = ⊥

expire-Steps : (c n : Subscription) (t : Time) (b : Bool) → Steps c n (expire c n t b)
unfolding expire validate_event_status
expire-Steps c n t b = ground arith

cancel-Steps : (c n : Subscription) (t : Time) → Steps c n (cancel_at_period_end c n t)
unfolding cancel_at_period_end validate_event_status
cancel-Steps c n t = ground arith

past_due-Steps : (c n : Subscription) (t : Time) → Steps c n (past_due c n t)
unfolding past_due validate_event_status
past_due-Steps c n t = ground arith

change_plan-Steps : (c n : Subscription) → Steps c n (change_plan c n)
unfolding change_plan validate_event_status
change_plan-Steps c n = ground arith

activate_or_renew-Steps :
    (c n : Subscription) (s : Status) (t : Time)
    → (s ≡ Status.active) ⊎ (s ≡ Status.trialing)
    → Steps c n (activate_or_renew c n s t)
unfolding activate_or_renew validate_event_status inc64
activate_or_renew-Steps c n s t h = ground arith

dispatch-Steps :
    (c n : Subscription) (obs : Observation) (t : Time) → Steps c n (dispatch c n obs t)
unfolding dispatch
dispatch-Steps c n obs t = ground (
  arith,
  expire-Steps c n t (obs.immediate_expire && not (c.status == Status.canceled)),
  change_plan-Steps c n,
  cancel-Steps c n t,
  past_due-Steps c n t,
  activate_or_renew-Steps c n obs.status t,
)

-- What a decision promises of the subscription `c`, observed at `t`.
pub record IsChange (c : Subscription) (t : Time) (e : EventType) (n : Subscription) : Type 0 where
  pub live : c.status ≢ Status.expired
  pub version : n.state_version ≡ inc64 c.state_version
  pub changed_at : n.state_changed_at ≡ truncate_utc t
  pub ordered : n.current_period_start < n.current_period_end
  pub pair : Pair e n.status n.cancel_at_period_end
  pub same_ref : n.subscription_ref ≡ c.subscription_ref
  pub same_checkout : n.checkout_id ≡ c.checkout_id
  pub same_family : n.processor_family ≡ c.processor_family

abbrev pub Outcome : Subscription → Time → Result Decision → Type 0
Outcome c t (ok noop) = Unit {0}
Outcome c t (ok (change e n f)) = IsChange c t e n
Outcome c t (err x) = x ≡ of_protocol unordered_period

Outcome-of_Steps :
    (c : Subscription) (obs : Observation) (t : Time) (r : Result Decision)
    → c.status ≢ Status.expired
    → (observed c obs (truncate_utc t)).current_period_start
      < (observed c obs (truncate_utc t)).current_period_end
    → Steps c (observed c obs (truncate_utc t)) r
    → Outcome c t r
Outcome-of_Steps c obs t (ok noop) live ordered s = tt
Outcome-of_Steps c obs t (ok (change e n f)) live ordered s = record {
  live = live;
  version = s.version;
  changed_at = s.same_changed_at;
  ordered = rw (s.same_start, s.same_end) ordered;
  pair = (validate_event_status_iff e n.status n.cancel_at_period_end).0 s.accepted;
  same_ref = s.same_ref;
  same_checkout = s.same_checkout;
  same_family = s.same_family;
}
Outcome-of_Steps c obs t (err x) live ordered s = absurd s

-- Whatever a provider reports, Decide makes no change, or a change of a subscription that has not
-- expired: the version is the next one, the time of change is now in whole seconds, the period is
-- ordered, the event and the status stand in the protocol's table, and the subscription keeps its
-- reference, its checkout and its processor. The only error is that of an unordered period.
pub decide-Outcome :
    (c : Subscription) (obs : Observation) (t : Time) → Outcome c t (decide c obs t)
unfolding decide
decide-Outcome c obs t = elim (Bool-cases (c.status == Status.expired)) [
  | inl dead ↦ rw (dead, decide) tt
  | inr live ↦
      let next = observed c obs (truncate_utc t) in
      elim (Bool-cases (is_after next.current_period_end next.current_period_start)) [
        | inl after ↦
            rw (live, after, decide)
              (Outcome-of_Steps c obs t _
                (λ e. ground (arith, status_eqb_iff c.status Status.expired)) (ground arith)
                (dispatch-Steps c next obs (truncate_utc t)))
        | inr before ↦ rw (live, before, decide) refl
      ]
]
