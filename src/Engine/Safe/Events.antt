-- ===== src/Engine/Safe/Events.antt =====
-- A provider's webhook is safe.
use subscription_bridge.Prelude.{
  Bytes, bytes, List, [], ◌∷◌, Option, none, some, ◌==◌, bytes_eq, int_eq, ℤ, arith,
}
use subscription_bridge.Protocol.Status.{event_eq, status_eq}
use subscription_bridge.Protocol.Clock.{Time}
use subscription_bridge.Store.Models.{Family, ProcessorEvent}
use subscription_bridge.Store.Models.Equality.{
  family_eq, checkout_status_eq, attempt_status_eq, delivery_eq,
}
use subscription_bridge.Store.World.{World}
use subscription_bridge.Store.Invariant.{IsWf}
use subscription_bridge.Store.Safe.{Leads, Any, pure-Leads, if-Leads, in_tx-Leads, bind-Leads}
use subscription_bridge.Store.Safe.Methods.{
  now-Leads, new_token-Leads, insert_processor_event-Leads, claim_processor_event-Leads,
  finish_processor_event-Leads, release_processor_lease-Leads,
}
use subscription_bridge.Adapters.{
  Header, Adapter, NormalizedEvent, SubscriptionState, Kind, text_field,
}
use subscription_bridge.Envelope.{Box}
use subscription_bridge.Engine.Env.{Engine}
use subscription_bridge.Engine.Safe.Commits.{
  still-Leads, seal-Leads, IsTame, AllTame, adapter-Leads,
}
use subscription_bridge.Store.ProcessorEvents.{get_processor_event}
use subscription_bridge.Engine.Events.{
  ask_stripe, is_stripe, observe_provider, apply_kind, apply_observation, event_row, seal_with,
  seal_sensitive, is_ours, apply_finish, apply_under, apply_leased, process_new, process_normalized,
  process_all, ingest_and_process,
}
use subscription_bridge.Engine.Safe.Stripe.{apply_stripe-Leads}
use subscription_bridge.Engine.Safe.Adyen.{
  apply_adyen_initial-Leads, apply_adyen_renewal-Leads, apply_adyen_contract-Leads,
}

observe_provider-Leads :
    (ad : Adapter) (ev : NormalizedEvent) (w : World)
    → IsWf w.mem
    → IsTame ad
    → Leads Any (observe_provider ad ev) w
unfolding observe_provider ask_stripe
observe_provider-Leads ad ev w v tame =
    if-Leads (is_stripe ev.normalized_kind)
      (λ stripe.
        if-Leads (text_field ev.fields (bytes "processor_subscription_id") == [])
          (λ empty. pure-Leads v tt) (λ named. tame.get_subscription _ w v))
      (λ other. pure-Leads v tt)

apply_kind-Leads :
    (e : Engine) (ev : NormalizedEvent) (state : Option SubscriptionState) (t : Time) (k : Kind)
    (w : World)
    → IsWf w.mem
    → Leads Any (apply_kind e ev state t k) w
unfolding apply_kind
apply_kind-Leads e ev state t Kind.stripe_checkout_changed w v = apply_stripe-Leads e ev state t w v
apply_kind-Leads e ev state t Kind.stripe_subscription_changed w v =
    apply_stripe-Leads e ev state t w v
apply_kind-Leads e ev state t Kind.adyen_initial_authorisation w v =
    apply_adyen_initial-Leads e ev t w v
apply_kind-Leads e ev state t Kind.adyen_renewal_authorisation w v =
    apply_adyen_renewal-Leads e ev t w v
apply_kind-Leads e ev state t Kind.adyen_contract_changed w v =
    apply_adyen_contract-Leads e ev t w v
apply_kind-Leads e ev state t Kind.adyen_operational_adjustment w v = pure-Leads v tt
apply_kind-Leads e ev state t (Kind.other s) w v = pure-Leads v tt

get_processor_event-Leads :
    (f : Family) (id : Bytes) (w : World) → IsWf w.mem → Leads Any (get_processor_event f id) w
unfolding get_processor_event
get_processor_event-Leads f id w v = still-Leads (get_processor_event f id) w v (ground arith)

apply_finish-Leads :
    (e : Engine) (ev : NormalizedEvent) (token : Bytes) (fence : ℤ)
    (state : Option SubscriptionState) (t : Time) (w : World)
    → IsWf w.mem
    → Leads Any (apply_finish e ev token fence state t) w
unfolding apply_finish apply_observation
apply_finish-Leads e ev token fence state t w v =
    bind-Leads (apply_kind-Leads e ev state t ev.normalized_kind w v) (λ a u s q.
      bind-Leads (finish_processor_event-Leads _ _ _ _ _ _ _ u s.wf)
        (λ b x s₂ q₂. release_processor_lease-Leads _ _ _ x s₂.wf))

apply_under-Leads :
    (e : Engine) (ev : NormalizedEvent) (claim : Option Bytes) (fence : ℤ)
    (state : Option SubscriptionState) (t : Time) (w : World)
    → IsWf w.mem
    → Leads Any (apply_under e ev claim fence state t) w
unfolding apply_under
apply_under-Leads e ev none fence state t w v =
    bind-Leads (get_processor_event-Leads _ _ w v) (λ a u s q. pure-Leads s.wf tt)
apply_under-Leads e ev (some token) fence state t w v =
    bind-Leads (get_processor_event-Leads _ _ w v) (λ cur u s q.
      if-Leads (is_ours cur token fence)
        (λ ours. apply_finish-Leads e ev token fence state t u s.wf) (λ lost. pure-Leads s.wf tt))

seal_with-Leads :
    (e : Engine) (ev : NormalizedEvent) (row : ProcessorEvent) (box : Option Box) (w : World)
    → IsWf w.mem
    → Leads Any (seal_with e ev row box) w
unfolding seal_with
seal_with-Leads e ev row none w v = pure-Leads v tt
seal_with-Leads e ev row (some box) w v =
    if-Leads (ev.sensitive_plain == []) (λ empty. pure-Leads v tt)
      (λ full. bind-Leads (seal-Leads _ box _ _ w v) (λ x u s q. pure-Leads s.wf tt))

process_new-Leads :
    (e : Engine) (ad : Adapter) (ev : NormalizedEvent) (t : Time) (w : World)
    → IsWf w.mem
    → IsTame ad
    → Leads Any (process_new e ad ev t) w
unfolding process_new apply_leased
process_new-Leads e ad ev t w v tame =
    bind-Leads (in_tx-Leads v (claim_processor_event-Leads _ _ _ _ _ w v)) (λ (row, lease) u s q.
      bind-Leads (observe_provider-Leads ad ev u s.wf tame) (λ state x s₂ q₂.
        in_tx-Leads s₂.wf
          (apply_under-Leads e ev lease.claim_token lease.fencing_token state t x s₂.wf)))

pub process_normalized-Leads :
    (e : Engine) (ad : Adapter) (ev : NormalizedEvent) (w : World)
    → IsWf w.mem
    → IsTame ad
    → Leads Any (process_normalized e ad ev) w
unfolding process_normalized seal_sensitive
process_normalized-Leads e ad ev w v tame = bind-Leads (now-Leads w v) (λ t u s q.
    bind-Leads (new_token-Leads u s.wf) (λ id x s₂ q₂.
      bind-Leads (seal_with-Leads e ev (event_row ev id) e.box x s₂.wf) (λ row y s₃ q₃.
        bind-Leads (in_tx-Leads s₃.wf (insert_processor_event-Leads row y s₃.wf)) (λ new z s₄ q₄.
          if-Leads new (λ h. process_new-Leads e ad ev t z s₄.wf tame)
            (λ h. pure-Leads s₄.wf tt)))))

process_all-Leads :
    (e : Engine) (ad : Adapter) (evs : List NormalizedEvent) (w : World)
    → IsWf w.mem
    → IsTame ad
    → Leads Any (process_all e ad evs) w
unfolding process_all
process_all-Leads e ad [] w v tame = pure-Leads v tt
process_all-Leads e ad (ev ∷ evs) w v tame =
    bind-Leads (process_normalized-Leads e ad ev w v tame)
      (λ a u s q. process_all-Leads e ad evs u s.wf tame)

pub ingest_and_process-Leads :
    (e : Engine) (family : Family) (headers : Header) (body : Bytes) (w : World)
    → IsWf w.mem
    → AllTame e
    → Leads Any (ingest_and_process e family headers body) w
unfolding ingest_and_process
ingest_and_process-Leads e family headers body w v tame =
    bind-Leads (adapter-Leads e family w v tame) (λ ad u s t.
      bind-Leads (t.parse_webhook headers body u s.wf)
        (λ evs x s₂ q. process_all-Leads e ad evs x s₂.wf t))
