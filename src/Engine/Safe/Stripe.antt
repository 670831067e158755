-- ===== src/Engine/Safe/Stripe.antt =====
-- The handler of Stripe's events is safe.
use subscription_bridge.Prelude.{
  Bytes, Bool, true, false, ◌&&◌, not, [], Option, none, some, ◌==◌, bytes_eq, int_eq,
  if◌then◌else◌,
}
use subscription_bridge.Protocol.Status.{Status, EventType, event_eq, status_eq}
use subscription_bridge.Protocol.Clock.{Time}
use subscription_bridge.Store.Models.{Subscription, Family}
use subscription_bridge.Store.Models.Equality.{
  family_eq, checkout_status_eq, attempt_status_eq, delivery_eq,
}
use subscription_bridge.Store.World.{Memory, World}
use subscription_bridge.Store.Invariant.{IsWf}
use subscription_bridge.Store.Safe.{Leads, Any, Step-trans, pure-Leads, if-Leads, bind-Leads}
use subscription_bridge.Store.Safe.Rows.{
  HasSub, HasSub-later, HasCheckout-later, get_checkout-Leads, get_subscription_by_checkout-Leads,
  get_subscription_by_processor-Leads,
}
use subscription_bridge.Store.Safe.Writes.{update_checkout-Leads}
use subscription_bridge.Adapters.{NormalizedEvent, SubscriptionState}
use subscription_bridge.Engine.Transition.{Observation}
use subscription_bridge.Engine.Env.{Engine}
use subscription_bridge.Engine.Safe.Commits.{
  new_id-Leads, apply_decision-Leads, OnSome, looked_up-Leads, first_commit-Leads, decide-Leads,
}
use subscription_bridge.Config.{stripe_price_map}
use subscription_bridge.Store.Table
use subscription_bridge.Engine.Adyen.{completed_by}
use subscription_bridge.Engine.Stripe.{
  is_named, or_by_checkout, stripe_subscription, activate_stripe, state_observed, apply_observed,
  apply_priced, update_stripe, activate_or_update, apply_stripe,
}

is_named-HasSub :
    (o : Option Subscription) (m : Memory) → OnSome HasSub o m → OnSome HasSub (is_named o) m
is_named-HasSub none m h = tt
is_named-HasSub (some s) m h = same (s.subscription_ref == [])
  where
    same : (b : Bool) → OnSome HasSub (if b then none else some s) m
    same true = tt
    same false = h

or_by_checkout-Leads :
    (id : Bytes) (o : Option Subscription) (w : World)
    → IsWf w.mem
    → OnSome HasSub o w.mem
    → Leads (OnSome HasSub) (or_by_checkout id o) w
unfolding or_by_checkout
or_by_checkout-Leads id (some s) w v h = pure-Leads v h
or_by_checkout-Leads id none w v h =
    if-Leads (id == []) (λ empty. pure-Leads v tt)
      (λ named.
        bind-Leads (looked_up-Leads (get_subscription_by_checkout-Leads id w v))
          (λ o u s k. pure-Leads s.wf (is_named-HasSub o u.mem k)))

stripe_subscription-Leads :
    (psub id : Bytes) (w : World)
    → IsWf w.mem
    → Leads (OnSome HasSub) (stripe_subscription psub id) w
unfolding stripe_subscription
stripe_subscription-Leads psub id w v =
    bind-Leads {Q = OnSome HasSub}
      (if-Leads (psub == []) (λ empty. pure-Leads v tt)
        (λ named. looked_up-Leads (get_subscription_by_processor-Leads Family.stripe psub w v)))
      (λ o u s h. or_by_checkout-Leads id (is_named o) u s.wf (is_named-HasSub o u.mem h))

activate_stripe-Leads :
    (e : Engine) (id : Bytes) (state : SubscriptionState) (t : Time) (w : World)
    → IsWf w.mem
    → Leads Any (activate_stripe e id state t) w
unfolding activate_stripe
activate_stripe-Leads e id state t w v =
    if-Leads (id == []) (λ empty. pure-Leads v tt)
      (λ named. bind-Leads (get_checkout-Leads id w v) (λ co u s h.
        if-Leads (not (state.status == Status.active) && not (state.status == Status.trialing))
          (λ idle. pure-Leads s.wf tt)
          (λ begun. bind-Leads (new_id-Leads _ u s.wf) (λ ref x s₂ q₂.
            bind-Leads (first_commit-Leads e _ EventType.activated x s₂.wf) (λ a y s₃ q₃.
              bind-Leads
                (update_checkout-Leads (completed_by ref co) y s₃.wf
                  (record { row = (HasCheckout-later co u y (Step-trans u x y s₂ s₃) h).row }))
                (λ b z s₄ q₄. pure-Leads s₄.wf tt))))))

apply_observed-Leads :
    (e : Engine) (sub : Subscription) (obs : Observation) (t : Time) (w : World)
    → IsWf w.mem
    → HasSub sub w.mem
    → Leads Any (apply_observed e sub obs t) w
unfolding apply_observed
apply_observed-Leads e sub obs t w v h = bind-Leads (decide-Leads sub obs t w v) (λ dec u s made.
    bind-Leads (apply_decision-Leads e sub obs t dec u s.wf made (HasSub-later sub w u s h))
      (λ z x s₂ q₂. pure-Leads s₂.wf tt))

apply_priced-Leads :
    (e : Engine) (sub : Subscription) (state : SubscriptionState) (t : Time) (o : Option Bytes)
    (w : World)
    → IsWf w.mem
    → HasSub sub w.mem
    → Leads Any (apply_priced e sub state t o) w
unfolding apply_priced
apply_priced-Leads e sub state t none w v h = pure-Leads v tt
apply_priced-Leads e sub state t (some plan) w v h = apply_observed-Leads e sub _ t w v h

activate_or_update-Leads :
    (e : Engine) (id : Bytes) (state : SubscriptionState) (t : Time) (o : Option Subscription)
    (w : World)
    → IsWf w.mem
    → OnSome HasSub o w.mem
    → Leads Any (activate_or_update e id state t o) w
unfolding activate_or_update update_stripe
activate_or_update-Leads e id state t none w v h = activate_stripe-Leads e id state t w v
activate_or_update-Leads e id state t (some sub) w v h =
    if-Leads (state.plan_price_id == [])
      (λ unpriced. apply_observed-Leads e sub (state_observed state) t w v h)
      (λ priced.
        apply_priced-Leads e sub state t (Table.get (stripe_price_map e.config) state.plan_price_id)
          w v h)

pub apply_stripe-Leads :
    (e : Engine) (ev : NormalizedEvent) (state : Option SubscriptionState) (t : Time) (w : World)
    → IsWf w.mem
    → Leads Any (apply_stripe e ev state t) w
unfolding apply_stripe
apply_stripe-Leads e ev none t w v = pure-Leads v tt
apply_stripe-Leads e ev (some state) t w v =
    bind-Leads (stripe_subscription-Leads state.processor_sub_id _ w v)
      (λ o u s h. activate_or_update-Leads e _ state t o u s.wf h)
