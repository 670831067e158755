-- ===== src/Engine/Safe/Commits.antt =====
-- A commit, and the small helpers of the handlers.
use subscription_bridge.Prelude.{
  Bytes, Bool, true, false, [], Option, none, some, ◌≡◌, refl, ◌==◌, bytes_eq, arith, subst,
  bytes_eqb_refl,
}
use subscription_bridge.Protocol.Errors.{Error, StoreError, Result, ok, err}
use subscription_bridge.Protocol.Status.{EventType, event_eq}
use subscription_bridge.Protocol.Callback.{Platform}
use subscription_bridge.Protocol.Clock.{Time}
use subscription_bridge.Store.Models.{Subscription, ActionType, Family}
use subscription_bridge.Store.World.{Memory, World, Act, lift, fail_if}
use subscription_bridge.Store.Invariant.{IsWf}
use subscription_bridge.Store.Safe.{
  Leads, Ends, Any, pure-Leads, fail-Leads, if-Leads, lift-Leads, bind-Leads, kept-Leads,
  step-Leads, Leads-Step,
}
use subscription_bridge.Store.Safe.Growth.{Grows-refl}
use subscription_bridge.Store.Safe.Methods.{
  now-Leads, new_token-Leads, insert_outbound-Leads, insert_action-Leads,
  cancel_actions_for_subscription-Leads,
}
use subscription_bridge.Store.Safe.Rows.{HasSub, HasSub-later, HasSub-same}
use subscription_bridge.Store.Safe.Writes.{insert_subscription-Leads, update_subscription-Leads}
use subscription_bridge.Adapters.{
  Header, Adapter, CheckoutRequest, ProcessorSubscription, RenewalRequest, RenewalAttempt, caught,
  looked_up,
}
use subscription_bridge.Envelope.{Aead, Box, seal, open_box, new_nonce}
use subscription_bridge.Engine.Transition.{Decision, Flags, noop, change, decide, Observation}
use subscription_bridge.Engine.Transition.Changes.{decide-Outcome, Outcome}
use subscription_bridge.Engine.Commit.{
  commit_change, marshal_callback, plan_action, plan_actions, unless_conflict, new_event_id, renews,
}
use subscription_bridge.Engine.Env.{
  Engine, adapter, new_id, apply_decision, commit, no_subscription,
}

-- An action that leaves the store alone.
pub still-Leads :
    {A : Type 0} (m : Act A) (w : World) → IsWf w.mem → (m w).1.mem ≡ w.mem → Leads Any m w
still-Leads m w v same = kept-Leads m w (rw same v) (rw same (Grows-refl w.mem))

pub new_id-Leads : (p : Bytes) (w : World) → IsWf w.mem → Leads Any (new_id p) w
unfolding new_id
new_id-Leads p w v = still-Leads (new_id p) w v refl

pub fail_if-Leads : (b : Bool) (e : Error) (w : World) → IsWf w.mem → Leads Any (fail_if b e) w
fail_if-Leads true e w v = fail-Leads v
fail_if-Leads false e w v = pure-Leads v tt

pub unless_conflict-Leads :
    (m : Act (Unit {0})) (w : World) → Leads Any m w → Leads Any (unless_conflict m) w
unfolding unless_conflict
unless_conflict-Leads m w h = step-Leads (unless_conflict m) w (Leads-Step h)

module _ (os : Platform) where
  marshal_callback-Leads :
      (s : Subscription) (event : EventType) (w : World)
      → IsWf w.mem
      → Leads Any (marshal_callback os s event) w
  unfolding marshal_callback new_event_id
  marshal_callback-Leads s event w v = still-Leads (marshal_callback os s event) w v (ground arith)

  plan_action-Leads :
      (next : Subscription) (type : ActionType) (w : World)
      → IsWf w.mem
      → Leads Any (plan_action os next type) w
  unfolding plan_action
  plan_action-Leads next type w v = bind-Leads (new_token-Leads w v) (λ id u s q.
      bind-Leads (cancel_actions_for_subscription-Leads _ _ u s.wf)
        (λ x y t p. unless_conflict-Leads _ y (insert_action-Leads _ y t.wf)))

  plan_actions-Leads :
      (next : Subscription) (event : EventType) (w : World)
      → IsWf w.mem
      → Leads Any (plan_actions os next event) w
  unfolding plan_actions
  plan_actions-Leads next event w v =
      bind-Leads {Q = Any}
        (if-Leads (renews next event) (λ h. plan_action-Leads next ActionType.renew w v)
          (λ h. pure-Leads v tt))
        (λ a u s q.
          bind-Leads {Q = Any}
            (if-Leads (event == EventType.canceled)
              (λ h. plan_action-Leads next ActionType.expire u s.wf) (λ h. pure-Leads s.wf tt))
            (λ b x t p.
              if-Leads (event == EventType.expired)
                (λ h. cancel_actions_for_subscription-Leads _ _ x t.wf) (λ h. pure-Leads t.wf tt)))

  -- A commit of a new subscription, or of the next version of one that is there.
  pub commit_change-Leads :
      (current next : Subscription) (event : EventType) (w : World)
      → IsWf w.mem
      → ((current.subscription_ref == []) ≡ false → HasSub next w.mem)
      → Leads Any (commit_change os current next event) w
  unfolding commit_change
  commit_change-Leads current next event w v h =
      bind-Leads (marshal_callback-Leads next event w v) (λ body u s q.
        bind-Leads {Q = Any}
          (if-Leads (current.subscription_ref == []) (λ new. insert_subscription-Leads next u s.wf)
            (λ old. update_subscription-Leads next u s.wf (HasSub-later next w u s (h old))))
          (λ x y t p. bind-Leads (now-Leads y t.wf) (λ at z r o.
            bind-Leads (insert_outbound-Leads _ z r.wf)
              (λ a b c d. plan_actions-Leads next event b c.wf))))

-- A decision about a stored subscription is about the same subscription.
decided-HasSub :
    (sub next : Subscription) (obs : Observation) (t : Time) (event : EventType) (flags : Flags)
    (m : Memory)
    → decide sub obs t ≡ ok (change event next flags)
    → HasSub sub m
    → HasSub next m
decided-HasSub sub next obs t event flags m made h =
    let c : Outcome sub t (ok (change event next flags)) =
      subst (Outcome sub t) made (decide-Outcome sub obs t) in
    HasSub-same sub next m c.same_ref c.same_checkout h

pub apply_decision-Leads :
    (e : Engine) (sub : Subscription) (obs : Observation) (t : Time) (dec : Decision) (w : World)
    → IsWf w.mem
    → decide sub obs t ≡ ok dec
    → HasSub sub w.mem
    → Leads HasSub (apply_decision e sub dec) w
unfolding apply_decision
apply_decision-Leads e sub obs t noop w v made h = pure-Leads v h
apply_decision-Leads e sub obs t (change event next flags) w v made h =
    bind-Leads
      (commit_change-Leads e.os sub next event w v
        (λ old. decided-HasSub sub next obs t event flags w.mem made h))
      (λ x u s q.
        pure-Leads s.wf
          (HasSub-later next w u s (decided-HasSub sub next obs t event flags w.mem made h)))

pub commit-Leads :
    (e : Engine) (sub : Subscription) (obs : Observation) (t : Time) (dec : Decision) (w : World)
    → IsWf w.mem
    → decide sub obs t ≡ ok dec
    → HasSub sub w.mem
    → Leads Any (commit e sub dec) w
unfolding commit
commit-Leads e sub obs t dec w v made h =
    bind-Leads (apply_decision-Leads e sub obs t dec w v made h) (λ x u s q. pure-Leads s.wf tt)

-- What is known of a value holds of a result that is no error.
abbrev pub OnOk : {A : Type 0} → (A → Memory → Type 0) → Result A → Memory → Type 0
OnOk Q (ok a) m = Q a m
OnOk Q (err e) m = Unit

caught-Ends :
    {A : Type 0} (Q : A → Memory → Type 0) (r : Result A) (w u : World)
    → Ends Q w r u
    → Ends (OnOk Q) w (caught (λ x. (r, u)) w).0 u
caught-Ends Q (ok a) w u h = h
caught-Ends Q (err (Error.panic x)) w u h = h
caught-Ends Q (err (Error.of_protocol x)) w u h = (h, tt)
caught-Ends Q (err (Error.of_store x)) w u h = (h, tt)
caught-Ends Q (err Error.unknown_stripe_price) w u h = (h, tt)
caught-Ends Q (err Error.manual_review) w u h = (h, tt)
caught-Ends Q (err (Error.message x)) w u h = (h, tt)
caught-Ends Q (err (Error.foreign x)) w u h = (h, tt)

pub caught-Leads :
    {A : Type 0} {Q : A → Memory → Type 0} {m : Act A} {w : World}
    → Leads Q m w
    → Leads (OnOk Q) (caught m) w
caught-Leads {Q = Q} {m = m} {w = w} h = record { ends = caught-Ends Q (m w).0 w (m w).1 h.ends }

-- What is known of a value holds of a row that was found.
abbrev pub OnSome : {A : Type 0} → (A → Memory → Type 0) → Option A → Memory → Type 0
OnSome Q (some a) m = Q a m
OnSome Q none m = Unit

looked_up-Ends :
    {A : Type 0} (Q : A → Memory → Type 0) (r : Result A) (w u : World)
    → Ends Q w r u
    → Ends (OnSome Q) w (looked_up (λ x. (r, u)) w).0 u
looked_up-Ends Q (ok a) w u h = h
looked_up-Ends Q (err (Error.of_store StoreError.not_found)) w u h = (h, tt)
looked_up-Ends Q (err (Error.of_store StoreError.conflict)) w u h = h
looked_up-Ends Q (err (Error.of_store StoreError.not_owned)) w u h = h
looked_up-Ends Q (err (Error.of_store StoreError.schema_mismatch)) w u h = h
looked_up-Ends Q (err (Error.of_store StoreError.checkout_binding)) w u h = h
looked_up-Ends Q (err (Error.panic x)) w u h = h
looked_up-Ends Q (err (Error.of_protocol x)) w u h = h
looked_up-Ends Q (err Error.unknown_stripe_price) w u h = h
looked_up-Ends Q (err Error.manual_review) w u h = h
looked_up-Ends Q (err (Error.message x)) w u h = h
looked_up-Ends Q (err (Error.foreign x)) w u h = h

pub looked_up-Leads :
    {A : Type 0} {Q : A → Memory → Type 0} {m : Act A} {w : World}
    → Leads Q m w
    → Leads (OnSome Q) (looked_up m) w
looked_up-Leads {Q = Q} {m = m} {w = w} h = record {
  ends = looked_up-Ends Q (m w).0 w (m w).1 h.ends;
}

pub seal-Leads :
    (aead : Aead) (box : Box) (plain ad : Bytes) (w : World)
    → IsWf w.mem
    → Leads Any (seal aead box plain ad) w
unfolding seal new_nonce
seal-Leads aead box plain ad w v = still-Leads (seal aead box plain ad) w v (ground arith)

pub open_box-Leads :
    (aead : Aead) (box : Box) (c n ad k : Bytes) (w : World)
    → IsWf w.mem
    → Leads Any (open_box aead box c n ad k) w
unfolding open_box
open_box-Leads aead box c n ad k w v = still-Leads (open_box aead box c n ad k) w v (ground arith)

-- An adapter whose calls do what others may do meanwhile.
pub record IsTame (a : Adapter) : Type 0 where
  pub create_checkout :
      (r : CheckoutRequest) (w : World) → IsWf w.mem → Leads Any (a.create_checkout r) w
  pub parse_webhook :
      (h : Header) (b : Bytes) (w : World) → IsWf w.mem → Leads Any (a.parse_webhook h b) w
  pub get_subscription :
      (p : ProcessorSubscription) (w : World) → IsWf w.mem → Leads Any (a.get_subscription p) w
  pub charge_renewal :
      (r : RenewalRequest) (w : World) → IsWf w.mem → Leads Any (a.charge_renewal r) w
  pub resolve_renewal_attempt :
      (r : RenewalAttempt) (w : World) → IsWf w.mem → Leads Any (a.resolve_renewal_attempt r) w

-- The same of every adapter of an engine.
abbrev pub AllTame : Engine → Type 0
AllTame e = (f : Family) (a : Adapter) → e.adapters f ≡ some a → IsTame a

pub adapter-Leads :
    (e : Engine) (f : Family) (w : World)
    → IsWf w.mem
    → AllTame e
    → Leads (λ a m. IsTame a) (adapter e f) w
unfolding adapter
adapter-Leads e f w v tame = by (e.adapters f) (tame f)
  where
    by :
        (o : Option Adapter)
        → ((a : Adapter) → o ≡ some a → IsTame a)
        → Leads (λ a m. IsTame a) (adapter (record e { adapters = λ g. o }) f) w
    by none t = fail-Leads v
    by (some a) t = pure-Leads v (t a refl)

-- A commit of a first version.
pub first_commit-Leads :
    (e : Engine) (next : Subscription) (event : EventType) (w : World)
    → IsWf w.mem
    → Leads Any (commit_change e.os no_subscription next event) w
first_commit-Leads e next event w v =
    commit_change-Leads e.os no_subscription next event w v
      (λ old. absurd (ground (arith, bytes_eqb_refl [])))

-- A decision is made, and it is known of what.
pub decide-Leads :
    (sub : Subscription) (obs : Observation) (t : Time) (w : World)
    → IsWf w.mem
    → Leads (λ dec m. decide sub obs t ≡ ok dec) (lift (decide sub obs t)) w
decide-Leads sub obs t w v = lift-Leads (decide sub obs t) w v
