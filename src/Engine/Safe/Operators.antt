-- ===== src/Engine/Safe/Operators.antt =====
-- The operators' handlers are safe.
use subscription_bridge.Prelude.{Bytes, bytes, not, ◌≡◌, ◌==◌, bytes_eq, int_eq, arith}
use subscription_bridge.Protocol.Errors.{message, ok}
use subscription_bridge.Protocol.Status.{Status, event_eq, status_eq}
use subscription_bridge.Protocol.Clock.{Time}
use subscription_bridge.Store.Models.{Subscription, ChargeAttempt, DeliveryState}
use subscription_bridge.Store.Models.Equality.{
  family_eq, checkout_status_eq, attempt_status_eq, delivery_eq,
}
use subscription_bridge.Store.World.{World, in_tx}
use subscription_bridge.Store.Invariant.{IsWf}
use subscription_bridge.Store.Safe.{
  Leads, Any, Step-trans, pure-Leads, fail-Leads, if-Leads, in_tx-Leads, lift-Leads, bind-Leads,
  step-Leads, Leads-Step,
}
use subscription_bridge.Store.Safe.Methods.{
  now-Leads, new_token-Leads, insert_audit-Leads, force_finish_action-Leads, requeue_outbound-Leads,
}
use subscription_bridge.Store.Safe.Rows.{
  HasSub, HasSub-later, HasAttempt, HasAttempt-later, get_subscription-Leads, get_attempt-Leads,
}
use subscription_bridge.Store.Safe.Writes.{update_subscription-Leads, update_attempt-Leads}
use subscription_bridge.Engine.Transition.{Observation, Decision, noop, change, decide}
use subscription_bridge.Engine.Env.{Engine, past_due_observed, charge_observed, expiry_observed}
use subscription_bridge.Engine.Safe.Commits.{
  still-Leads, fail_if-Leads, apply_decision-Leads, commit-Leads, decide-Leads,
}
use subscription_bridge.Protocol.Identifier.{validate_subscription_ref}
use subscription_bridge.Store.Outbound.{latest_outbound}
use subscription_bridge.Store.Subscriptions.{get_subscription}
use subscription_bridge.Engine.Operators.{
  snapshot, or_not_found, observe_now, observe_at, block_automatic_charging, Outcome,
  resolve_authorized, resolve_refused, resolve_expired, resolve_as, is_open_question,
  resolve_attempt, replay_latest, commit_or_update,
}
use subscription_bridge.Engine.Safe.Payments.{reschedule-Leads}

pub snapshot-Leads :
    (e : Engine) (ref : Bytes) (w : World) → IsWf w.mem → Leads Any (snapshot e ref) w
unfolding snapshot
snapshot-Leads e ref w v = bind-Leads (lift-Leads (validate_subscription_ref ref) w v) (λ a u s q.
    bind-Leads {Q = Any}
      (step-Leads (or_not_found (in_tx (get_subscription ref))) u
        (Leads-Step (in_tx-Leads s.wf (get_subscription-Leads ref u s.wf))))
      (λ sub x s₂ q₂. pure-Leads s₂.wf tt))

pub observe_now-Leads :
    (e : Engine) (ref : Bytes) (obs : Observation) (w : World)
    → IsWf w.mem
    → Leads Any (observe_now e ref obs) w
unfolding observe_now observe_at
observe_now-Leads e ref obs w v = bind-Leads (now-Leads w v) (λ t u s q. in_tx-Leads s.wf (
    bind-Leads (get_subscription-Leads ref u s.wf) (λ sub x s₂ h.
      bind-Leads (decide-Leads sub obs t x s₂.wf)
        (λ dec y s₃ made. commit-Leads e sub obs t dec y s₃.wf made (HasSub-later sub x y s₃ h)))))

pub block_automatic_charging-Leads :
    (e : Engine) (sub : Subscription) (reason : Bytes) (t : Time) (w : World)
    → IsWf w.mem
    → HasSub sub w.mem
    → Leads Any (block_automatic_charging e sub reason t) w
unfolding block_automatic_charging
block_automatic_charging-Leads e sub reason t w v h =
    bind-Leads {Q = HasSub}
      (if-Leads (sub.status == Status.past_due) (λ due. pure-Leads v h)
        (λ other. bind-Leads (decide-Leads sub past_due_observed t w v) (λ dec u s made.
          apply_decision-Leads e sub past_due_observed t dec u s.wf made
            (HasSub-later sub w u s h))))
      (λ sub' u s k. update_subscription-Leads _ u s.wf (record { row = k.row }))

commit_or_update-Leads :
    (e : Engine) (sub : Subscription) (obs : Observation) (t : Time) (dec : Decision) (w : World)
    → IsWf w.mem
    → decide sub obs t ≡ ok dec
    → HasSub sub w.mem
    → Leads Any (commit_or_update e sub dec) w
unfolding commit_or_update
commit_or_update-Leads e sub obs t noop w v made h = update_subscription-Leads sub w v h
commit_or_update-Leads e sub obs t (change event next flags) w v made h =
    commit-Leads e sub obs t (change event next flags) w v made h

resolve_authorized-Leads :
    (e : Engine) (att : ChargeAttempt) (sub : Subscription) (t : Time) (w : World)
    → IsWf w.mem
    → HasAttempt att w.mem
    → HasSub sub w.mem
    → Leads Any (resolve_authorized e att sub t) w
unfolding resolve_authorized
resolve_authorized-Leads e att sub t w v a h =
    bind-Leads (update_attempt-Leads _ w v (record { row = a.row })) (λ x u s q.
      bind-Leads (force_finish_action-Leads _ _ _ _ u s.wf) (λ y x₂ s₂ q₂.
        bind-Leads (decide-Leads _ (charge_observed att) t x₂ s₂.wf) (λ dec x₃ s₃ made.
          commit_or_update-Leads e _ (charge_observed att) t dec x₃ s₃.wf made (record {
            row = (HasSub-later sub w x₃ (Step-trans w x₂ x₃ (Step-trans w u x₂ s s₂) s₃) h).row;
          }))))

resolve_refused-Leads :
    (e : Engine) (att : ChargeAttempt) (sub : Subscription) (t : Time) (w : World)
    → IsWf w.mem
    → HasAttempt att w.mem
    → HasSub sub w.mem
    → Leads Any (resolve_refused e att sub t) w
unfolding resolve_refused
resolve_refused-Leads e att sub t w v a h =
    bind-Leads (update_attempt-Leads _ w v (record { row = a.row })) (λ x u s q.
      bind-Leads (decide-Leads sub past_due_observed t u s.wf) (λ dec x₂ s₂ made.
        bind-Leads
          (apply_decision-Leads e sub past_due_observed t dec x₂ s₂.wf made
            (HasSub-later sub w x₂ (Step-trans w u x₂ s s₂) h))
          (λ sub' x₃ s₃ q₃. reschedule-Leads e _ sub' t x₃ s₃.wf)))

resolve_expired-Leads :
    (e : Engine) (att : ChargeAttempt) (sub : Subscription) (t : Time) (w : World)
    → IsWf w.mem
    → HasAttempt att w.mem
    → HasSub sub w.mem
    → Leads Any (resolve_expired e att sub t) w
unfolding resolve_expired
resolve_expired-Leads e att sub t w v a h =
    bind-Leads (update_attempt-Leads _ w v (record { row = a.row })) (λ x u s q.
      bind-Leads (force_finish_action-Leads _ _ _ _ u s.wf) (λ y x₂ s₂ q₂.
        bind-Leads (decide-Leads sub expiry_observed t x₂ s₂.wf) (λ dec x₃ s₃ made.
          commit-Leads e sub expiry_observed t dec x₃ s₃.wf made
            (HasSub-later sub w x₃ (Step-trans w x₂ x₃ (Step-trans w u x₂ s s₂) s₃) h))))

resolve_as-Leads :
    (e : Engine) (o : Outcome) (att : ChargeAttempt) (sub : Subscription) (t : Time) (w : World)
    → IsWf w.mem
    → HasAttempt att w.mem
    → HasSub sub w.mem
    → Leads Any (resolve_as e o att sub t) w
unfolding resolve_as
resolve_as-Leads e Outcome.authorized att sub t w v a h =
    resolve_authorized-Leads e att sub t w v a h
resolve_as-Leads e Outcome.refused att sub t w v a h = resolve_refused-Leads e att sub t w v a h
resolve_as-Leads e Outcome.expired att sub t w v a h = resolve_expired-Leads e att sub t w v a h
resolve_as-Leads e (Outcome.other x) att sub t w v a h = fail-Leads v

pub resolve_attempt-Leads :
    (e : Engine) (id : Bytes) (o : Outcome) (reason actor payment : Bytes) (w : World)
    → IsWf w.mem
    → Leads Any (resolve_attempt e id o reason actor payment) w
unfolding resolve_attempt
resolve_attempt-Leads e id o reason actor payment w v = bind-Leads (now-Leads w v) (λ t u s q.
    in_tx-Leads s.wf (
      bind-Leads (get_attempt-Leads id u s.wf) (λ att x s₂ a.
        bind-Leads
          (fail_if-Leads (not (is_open_question att.status)) (message (bytes "attempt is not open"))
            x s₂.wf)
          (λ b y s₃ q₃.
            bind-Leads (get_subscription-Leads att.subscription_ref y s₃.wf) (λ sub z s₄ h.
              bind-Leads (new_token-Leads z s₄.wf) (λ audit z₁ s₅ q₅.
                bind-Leads (insert_audit-Leads _ z₁ s₅.wf) (λ c z₂ s₆ q₆.
                  let later = Step-trans z z₁ z₂ s₅ s₆ in
                  resolve_as-Leads e o _ sub t z₂ s₆.wf
                    (record {
                      row =
                          (HasAttempt-later att x z₂
                            (Step-trans x z z₂ (Step-trans x y z s₃ s₄) later) a).row;
                    })
                    (HasSub-later sub z z₂ later h))))))))

latest_outbound-Leads : (ref : Bytes) (w : World) → IsWf w.mem → Leads Any (latest_outbound ref) w
unfolding latest_outbound
latest_outbound-Leads ref w v = still-Leads (latest_outbound ref) w v (ground arith)

pub replay_latest-Leads :
    (ref reason actor : Bytes) (w : World)
    → IsWf w.mem
    → Leads Any (replay_latest ref reason actor) w
unfolding replay_latest
replay_latest-Leads ref reason actor w v = in_tx-Leads v (
    bind-Leads (latest_outbound-Leads ref w v) (λ ev u s q.
      if-Leads (ev.delivery_state == DeliveryState.pending) (λ open_. pure-Leads s.wf tt)
        (λ done.
          bind-Leads (now-Leads u s.wf) (λ t x s₂ q₂. requeue_outbound-Leads _ _ _ _ x s₂.wf))))
