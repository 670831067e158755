-- ===== src/Engine/Stripe.antt =====
-- applyStripe of internal/engine/engine.go.
use subscription_bridge.Prelude.{
  Bytes, bytes, ◌&&◌, ◌||◌, not, [], Option, none, some, ◌==◌, bytes_eq, if◌then◌else◌,
}
use subscription_bridge.Protocol.Status.{Status, EventType, status_eq}
use subscription_bridge.Protocol.Clock.{Time}
use subscription_bridge.Protocol.Identifier.{subscription_prefix}
use subscription_bridge.Store.Models.{Subscription, Checkout, Family}
use subscription_bridge.Store.Table
use subscription_bridge.Store.World.{Act, pure, lift, ◌>>=◌, ◌>>◌}
use subscription_bridge.Store.Checkouts.{get_checkout, update_checkout}
use subscription_bridge.Store.Subscriptions.{
  get_subscription_by_processor, get_subscription_by_checkout,
}
use subscription_bridge.Adapters.{NormalizedEvent, SubscriptionState, text_field, looked_up}
use subscription_bridge.Config.{stripe_price_map}
use subscription_bridge.Engine.Transition.{Observation, first_activation, decide}
use subscription_bridge.Engine.Commit.{commit_change}
use subscription_bridge.Engine.Env.{
  Engine, new_id, no_subscription, str_ptr, apply_decision, no_observation,
}
use subscription_bridge.Engine.Payments.{Applied, applied, unknown_price}
use subscription_bridge.Engine.Adyen.{completed_by}

-- A row whose reference is empty counts as none.
abbrev pub is_named : Option Subscription → Option Subscription
is_named none = none
is_named (some s) = if s.subscription_ref == [] then none else some s

-- The two lookups of applyStripe: by Stripe's subscription, then by the checkout.
unfoldable pub or_by_checkout : Bytes → Option Subscription → Act (Option Subscription)
or_by_checkout checkout_id (some s) = pure (some s)
or_by_checkout checkout_id none =
    if checkout_id == []
    then pure none
    else (do second ← looked_up (get_subscription_by_checkout checkout_id); pure (is_named second))

unfoldable pub stripe_subscription : Bytes → Bytes → Act (Option Subscription)
stripe_subscription psub checkout_id = do
  first ←
      if psub == [] then pure none else looked_up (get_subscription_by_processor Family.stripe psub)
  or_by_checkout checkout_id (is_named first)

-- The branch for a checkout that has no subscription yet.
unfoldable pub activate_stripe : Engine → Bytes → SubscriptionState → Time → Act Applied
activate_stripe e checkout_id state t =
    if checkout_id == [] then pure (applied none) else (do co ← get_checkout checkout_id; begun co)
  where
    begun : Checkout → Act Applied
    begun co =
        if not (state.status == Status.active) && not (state.status == Status.trialing)
        then pure (applied none)
        else (do
          ref ← new_id subscription_prefix
          commit_change e.os no_subscription
              (first_activation co ref state.status state.current_period_start
                state.current_period_end t (str_ptr state.processor_customer_id)
                (str_ptr state.processor_sub_id) none none)
              EventType.activated
          update_checkout (completed_by ref co)
          pure (applied (some ref)))

abbrev pub state_observed : SubscriptionState → Observation
state_observed state = record no_observation {
  status = state.status;
  period_start = state.current_period_start;
  period_end = state.current_period_end;
  cancel_at_period_end = state.cancel_at_period_end;
  immediate_expire = state.immediate_cancel || state.deleted;
}

-- The observation with the plan of a known price.
abbrev pub with_plan : Observation → Bytes → Subscription → Observation
with_plan obs plan sub = record obs {
  plan_id = plan;
  event_type = if plan == sub.plan_id then obs.event_type else EventType.plan_changed;
}

-- The branch for a subscription that is there.
unfoldable pub apply_observed : Engine → Subscription → Observation → Time → Act Applied
apply_observed e sub obs t = do
  dec ← lift (decide sub obs t)
  sub' ← apply_decision e sub dec
  pure (applied (some sub'.subscription_ref))

unfoldable pub apply_priced :
    Engine → Subscription → SubscriptionState → Time → Option Bytes → Act Applied
apply_priced e sub state t none = pure (unknown_price sub.subscription_ref)
apply_priced e sub state t (some plan) =
    apply_observed e sub (with_plan (state_observed state) plan sub) t

unfoldable pub update_stripe : Engine → Subscription → SubscriptionState → Time → Act Applied
update_stripe e sub state t =
    if state.plan_price_id == []
    then apply_observed e sub (state_observed state) t
    else apply_priced e sub state t (Table.get (stripe_price_map e.config) state.plan_price_id)

unfoldable pub activate_or_update :
    Engine → Bytes → SubscriptionState → Time → Option Subscription → Act Applied
activate_or_update e id state t none = activate_stripe e id state t
activate_or_update e id state t (some sub) = update_stripe e sub state t

-- applyStripe
unfoldable pub apply_stripe :
    Engine → NormalizedEvent → Option SubscriptionState → Time → Act Applied
apply_stripe e ev none t = pure (applied none)
apply_stripe e ev (some state) t = do
  let id = text_field ev.fields (bytes "checkout_id")
  known ← stripe_subscription state.processor_sub_id id
  activate_or_update e id state t known
