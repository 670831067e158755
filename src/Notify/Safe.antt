-- ===== src/Notify/Safe.antt =====
-- A cycle of the notifier is safe.
use subscription_bridge.Prelude.{
  Bytes, ◌||◌, not, Option, none, some, ◌==◌, bytes_eq, int_eq, pos, ltb_ℤ, arith,
}
use subscription_bridge.Protocol.Errors.{Result, ok, err}
use subscription_bridge.Protocol.Status.{event_eq, status_eq}
use subscription_bridge.Store.Models.{OutboundEvent}
use subscription_bridge.Store.Models.Equality.{
  family_eq, checkout_status_eq, attempt_status_eq, delivery_eq,
}
use subscription_bridge.Store.World.{World, Act}
use subscription_bridge.Store.Invariant.{IsWf}
use subscription_bridge.Store.Safe.{
  Leads, Any, pure-Leads, fail-Leads, if-Leads, in_tx-Leads, lift-Leads, bind-Leads, step-Leads,
  Leads-Step, handle-Leads, Step, Step-trans,
}
use subscription_bridge.Store.Safe.Methods.{
  now-Leads, claim_due_outbound-Leads, complete_outbound-Leads, retry_outbound-Leads,
  dead_letter_outbound-Leads,
}
use subscription_bridge.Engine.Safe.Commits.{still-Leads}
use subscription_bridge.Hmac.{sign_callback}
use subscription_bridge.Store.Outbound.{retry_outbound}
use subscription_bridge.Notify.{
  Notifier, Reply, unbuildable, network, status, deref, retry, between, record_outcome, claim_next,
  run_once, delivered, exchanged, forgiven, status_class, retry_time,
}

-- The exchange of a notifier leads from a well-formed store to one, and loses no row.
abbrev pub IsTamePost : Notifier → Type 0
IsTamePost n =
    (url header body : Bytes) (w : World) → IsWf w.mem → Step w (n.post url header body w).1

deref-Leads : (o : Option Bytes) (w : World) → IsWf w.mem → Leads Any (deref o) w
deref-Leads none w v = fail-Leads v
deref-Leads (some token) w v = pure-Leads v tt

forgiven-Leads : (m : Act (Unit {0})) (w : World) → Leads Any m w → Leads Any (forgiven m) w
forgiven-Leads m w h = step-Leads (forgiven m) w (Leads-Step h)

retry-Leads :
    (n : Notifier) (e : OutboundEvent) (class : Bytes) (w : World)
    → IsWf w.mem
    → Leads Any (retry n e class) w
unfolding retry
retry-Leads n e class w v = in_tx-Leads v (
    bind-Leads (deref-Leads e.claim_token w v) (λ token u s q.
      forgiven-Leads
        (retry_outbound e.event_id token e.fencing_token (retry_time n e.attempt_count) class) u
        (retry_outbound-Leads _ _ _ _ _ u s.wf)))

record_outcome-Leads :
    (n : Notifier) (e : OutboundEvent) (r : Reply) (w : World)
    → IsWf w.mem
    → Leads Any (record_outcome n e r) w
unfolding record_outcome
record_outcome-Leads n e (unbuildable x) w v = fail-Leads v
record_outcome-Leads n e network w v = retry-Leads n e _ w v
record_outcome-Leads n e (status code) w v =
    if-Leads (between (pos 200) (pos 299) code)
      (λ good. in_tx-Leads v (
        bind-Leads (deref-Leads e.claim_token w v) (λ token u s q.
          bind-Leads (now-Leads u s.wf) (λ t x s₂ q₂. complete_outbound-Leads _ _ _ _ x s₂.wf))))
      (λ bad.
        if-Leads
          (code == pos 408 || code == pos 425 || code == pos 429 || not (ltb_ℤ code (pos 500)))
          (λ later. retry-Leads n e (status_class code) w v)
          (λ other.
            if-Leads (between (pos 400) (pos 499) code)
              (λ dead. in_tx-Leads v (
                bind-Leads (deref-Leads e.claim_token w v) (λ token u s q.
                  bind-Leads (now-Leads u s.wf)
                    (λ t x s₂ q₂. dead_letter_outbound-Leads _ _ _ _ _ x s₂.wf))))
              (λ odd. retry-Leads n e (status_class code) w v)))

exchanged-Leads :
    (n : Notifier) (e : OutboundEvent) (header : Bytes) (w : World)
    → IsWf w.mem
    → IsTamePost n
    → Leads Any (exchanged n e header) w
exchanged-Leads n e header w v tame =
    let post = n.post n.webhook_url header e.payload_body w in
    let s = tame n.webhook_url header e.payload_body w v in
    step-Leads (exchanged n e header) w (
      Step-trans w post.1 (exchanged n e header w).1 s
        (Leads-Step (record_outcome-Leads n e post.0 post.1 s.wf)))

delivered-Leads :
    (n : Notifier) (r : Result OutboundEvent) (w : World)
    → IsWf w.mem
    → IsTamePost n
    → Leads Any (delivered n r) w
delivered-Leads n (ok e) w v tame =
    bind-Leads (lift-Leads (sign_callback n.mac n.callback_key n.time_to_sign e.payload_body) w v)
      (λ header u s q. exchanged-Leads n e header u s.wf tame)
delivered-Leads n (err x) w v tame = still-Leads (delivered n (err x)) w v (ground arith)

pub run_once-Leads :
    (n : Notifier) (w : World) → IsWf w.mem → IsTamePost n → Leads Any (run_once n) w
unfolding run_once claim_next
run_once-Leads n w v tame =
    handle-Leads (claim_next n) (delivered n) w
      (in_tx-Leads v (bind-Leads (now-Leads w v) (λ t u s q. claim_due_outbound-Leads _ _ u s.wf)))
      (λ r u s. delivered-Leads n r u s.wf tame)
