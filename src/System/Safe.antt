-- ===== src/System/Safe.antt =====
-- Every history of requests keeps the store well-formed, and loses no row.
use subscription_bridge.Prelude.{Bytes, List, [], ◌∷◌, some, ◌≡◌, bytes_eq, int_eq, Every, ap}
use subscription_bridge.Protocol.Status.{event_eq, status_eq}
use subscription_bridge.Store.Models.{Subscription, ChargeAttempt}
use subscription_bridge.Store.Models.Equality.{
  family_eq, checkout_status_eq, attempt_status_eq, delivery_eq,
}
use subscription_bridge.Store.World.{World, Act}
use subscription_bridge.Store.Invariant.{IsWf}
use subscription_bridge.Store.Safe.{Leads, Any, Step, Step-refl, Step-trans, step-Leads, Leads-Step}
use subscription_bridge.Adapters.{Adapter}
use subscription_bridge.Engine.Env.{cancel_observed, expiry_observed}
use subscription_bridge.Engine.Safe.Commits.{IsTame, AllTame}
use subscription_bridge.Store.World.{empty_memory}
use subscription_bridge.Store.Table
use subscription_bridge.Store.Table.{Table}
use subscription_bridge.Store.Safe.Growth.{Charge}
use subscription_bridge.Store.Calls.Invariant.{empty_memory-IsWf}
use subscription_bridge.Engine.Safe.Checkouts.{
  start_checkout-Leads, activate_checkout-Leads, sweep_checkouts-Leads,
}
use subscription_bridge.Engine.Safe.Events.{ingest_and_process-Leads}
use subscription_bridge.Engine.Operators.{cancel_at_period_end, expire_now}
use subscription_bridge.Engine.Safe.Operators.{
  snapshot-Leads, observe_now-Leads, resolve_attempt-Leads, replay_latest-Leads,
}
use subscription_bridge.Scheduler.Safe.{run_round-Leads}
use subscription_bridge.Notify.Safe.{IsTamePost, run_once-Leads}
use subscription_bridge.System.{Request, respond, run}

-- The providers and the consumer that a request calls do, while they are called, what other requests
-- may do.
abbrev pub IsTameRequest : Request → Type 0
IsTameRequest (Request.start e claims payload) = AllTame e
IsTameRequest (Request.ingest e family headers body) = AllTame e
IsTameRequest (Request.schedule s) = IsTame s.adyen
IsTameRequest (Request.deliver n) = IsTamePost n
IsTameRequest _ = Unit

abbrev pub AllTameRequests : List Request → Type 0
AllTameRequests rs = Every IsTameRequest rs

respond-Step : (r : Request) (w : World) → IsTameRequest r → IsWf w.mem → Step w (respond r w)
unfolding respond cancel_at_period_end expire_now
respond-Step (Request.start e claims payload) w t v =
    Leads-Step (start_checkout-Leads e claims payload w v t)
respond-Step (Request.activate e id) w t v = Leads-Step (activate_checkout-Leads e id w v)
respond-Step Request.sweep w t v = Leads-Step (sweep_checkouts-Leads w v)
respond-Step (Request.ingest e family headers body) w t v =
    Leads-Step (ingest_and_process-Leads e family headers body w v t)
respond-Step (Request.query e ref) w t v = Leads-Step (snapshot-Leads e ref w v)
respond-Step (Request.cancel e ref) w t v = Leads-Step (observe_now-Leads e ref cancel_observed w v)
respond-Step (Request.expire e ref) w t v = Leads-Step (observe_now-Leads e ref expiry_observed w v)
respond-Step (Request.resolve e id o reason actor payment) w t v =
    Leads-Step (resolve_attempt-Leads e id o reason actor payment w v)
respond-Step (Request.replay ref reason actor) w t v =
    Leads-Step (replay_latest-Leads ref reason actor w v)
respond-Step (Request.schedule s) w t v = Leads-Step (run_round-Leads s w v t)
respond-Step (Request.deliver n) w t v = Leads-Step (run_once-Leads n w v t)

pub run-Step : (rs : List Request) (w : World) → AllTameRequests rs → IsWf w.mem → Step w (run rs w)
unfolding run
run-Step [] w t v = Step-refl w v
run-Step (r ∷ rs) w (t, ts) v =
    let s = respond-Step r w t v in
    Step-trans w (respond r w) (run rs (respond r w)) s (run-Step rs (respond r w) ts s.wf)

-- From a store with nothing in it, whatever requests are served, in whatever order, with whatever
-- clock, randomness and answers of the providers and the consumer: the tables of checkouts,
-- subscriptions, callbacks, scheduled actions and charge attempts hold each row under its own
-- identifier; no two checkouts share an idempotency key, no two subscriptions a checkout, no two
-- callbacks a subscription and version, no two actions a stable key, and no two attempts a reference,
-- an idempotency key or a billing number. While a provider or the consumer is called, anything may
-- happen that keeps this and loses no row.
pub run-IsWf :
    (rs : List Request) (w : World)
    → w.mem ≡ empty_memory
    → AllTameRequests rs
    → IsWf (run rs w).mem
run-IsWf rs w empty t = (run-Step rs w t (rw empty empty_memory-IsWf)).wf

-- Whatever requests are served from a well-formed store, with providers and consumers that are tame: a subscription
-- that was stored is still stored under its reference, and is that of the same checkout.
pub run-subscription :
    (rs : List Request) (w : World) (ref : Bytes) (s : Subscription)
    → AllTameRequests rs
    → IsWf w.mem
    → Table.get w.mem.subs ref ≡ some s
    → (s' : Subscription) × (Table.get (run rs w).mem.subs ref ≡ some s')
      × (s'.subscription_ref ≡ ref)
      × (s'.checkout_id ≡ s.checkout_id)
run-subscription rs w ref s t v there =
    let step = run-Step rs w t v in
    let (s', there', same) = step.grows.subs ref s there in
    (s', there', step.wf.subs.indexed.keyed ref s' there', same)

-- Whatever requests are served from a well-formed store, with providers and consumers that are tame: a charge
-- attempt that was stored is still stored, with the reference and the idempotency key under which it is sent to Adyen, and for the same
-- subscription, period and number.
pub run-attempt :
    (rs : List Request) (w : World) (id : Bytes) (a : ChargeAttempt)
    → AllTameRequests rs
    → IsWf w.mem
    → Table.get w.mem.attempts id ≡ some a
    → (a' : ChargeAttempt) × (Table.get (run rs w).mem.attempts id ≡ some a')
      × (a'.attempt_reference ≡ a.attempt_reference)
      × (a'.idempotency_key ≡ a.idempotency_key)
      × (a'.subscription_ref ≡ a.subscription_ref)
      × (a'.period_start ≡ a.period_start)
      × (a'.attempt_number ≡ a.attempt_number)
run-attempt rs w id a t v there =
    let (a', there', same) = (run-Step rs w t v).grows.attempts id a there in
    (
      a',
      there',
      ap (λ (c : Charge). c.0) same,
      ap (λ (c : Charge). c.1) same,
      ap (λ (c : Charge). c.2.0) same,
      ap (λ (c : Charge). c.2.1) same,
      ap (λ (c : Charge). c.2.2) same,
    )

-- An adapter that gives the answers of another, while other requests are served.
abbrev meanwhile : {A : Type 0} → List Request → Act A → Act A
meanwhile rs m w = m (run rs w)

abbrev pub busy : List Request → Adapter → Adapter
busy rs a = record {
  create_checkout = λ r. meanwhile rs (a.create_checkout r);
  parse_webhook = λ h b. meanwhile rs (a.parse_webhook h b);
  get_subscription = λ p. meanwhile rs (a.get_subscription p);
  charge_renewal = λ r. meanwhile rs (a.charge_renewal r);
  resolve_renewal_attempt = λ r. meanwhile rs (a.resolve_renewal_attempt r);
}

meanwhile-Leads :
    {A : Type 0} (rs : List Request) (m : Act A) (w : World)
    → AllTameRequests rs
    → IsWf w.mem
    → ((u : World) → IsWf u.mem → Leads Any m u)
    → Leads Any (meanwhile rs m) w
meanwhile-Leads rs m w t v h =
    let s = run-Step rs w t v in
    let s' = Leads-Step (h (run rs w) s.wf) in
    step-Leads (meanwhile rs m) w (Step-trans w (run rs w) (m (run rs w)).1 s s')

-- An adapter that is tame stays so where, whenever it is called, any history of requests to tame
-- providers is served first.
pub busy-IsTame :
    (rs : List Request) (a : Adapter) → AllTameRequests rs → IsTame a → IsTame (busy rs a)
busy-IsTame rs a t tame = record {
  create_checkout = λ r w v. meanwhile-Leads rs _ w t v (tame.create_checkout r);
  parse_webhook = λ h b w v. meanwhile-Leads rs _ w t v (tame.parse_webhook h b);
  get_subscription = λ p w v. meanwhile-Leads rs _ w t v (tame.get_subscription p);
  charge_renewal = λ r w v. meanwhile-Leads rs _ w t v (tame.charge_renewal r);
  resolve_renewal_attempt = λ r w v. meanwhile-Leads rs _ w t v (tame.resolve_renewal_attempt r);
}
