-- ===== src/Store/Safe.antt =====
-- What every use of the store may rely on while others use it too: the invariant holds, and a row that
-- was there is still there, with what is unique to it. One rule for each way to build an action.
pub mod Growth
pub mod Methods
pub mod Rows
pub mod Writes
use subscription_bridge.Prelude.{
  Bytes, Bool, true, false, Option, none, some, ◌≡◌, refl, if◌then◌else◌,
}
use subscription_bridge.Protocol.Errors.{Error, Result, ok, err}
use subscription_bridge.Store.World.{
  Memory, World, Act, pure, fail, lift, fail_if, or_fail, settle, in_tx, now, new_token, ◌>>=◌,
  ◌>>◌,
}
use subscription_bridge.Store.Cases.{After}
use subscription_bridge.Store.Invariant.{IsWf}
use subscription_bridge.Store.Safe.Growth.{Grows, Grows-refl, Grows-trans}

-- From `w` to `u`.
pub record Step (w u : World) : Type 0 where
  pub wf : IsWf u.mem
  pub grows : Grows w.mem u.mem

pub Step-refl : (w : World) → IsWf w.mem → Step w w
Step-refl w v = record { wf = v; grows = Grows-refl w.mem }

pub Step-trans : (w u v : World) → Step w u → Step u v → Step w v
Step-trans w u v s t = record { wf = t.wf; grows = Grows-trans w.mem u.mem v.mem s.grows t.grows }

-- A step, and `Q` of the value and the store where there is a value.
abbrev pub Ends : {A : Type 0} → (A → Memory → Type 0) → World → Result A → World → Type 0
Ends Q w (ok a) u = Step w u × Q a u.mem
Ends Q w (err e) u = Step w u

pub record Leads {A : Type 0} (Q : A → Memory → Type 0) (m : Act A) (w : World) : Type 0 where
  pub ends : Ends Q w (m w).0 (m w).1

-- No condition on the value.
abbrev pub Any : {A : Type 0} → A → Memory → Type 0
Any a m = Unit {0}

module _ {A : Type 0} (Q : A → Memory → Type 0) where
  pub Ends-Step : (w : World) (r : Result A) (u : World) → Ends Q w r u → Step w u
  Ends-Step w (ok a) u h = h.0
  Ends-Step w (err e) u h = h

  Ends-from : (w u : World) (r : Result A) (v : World) → Step w u → Ends Q u r v → Ends Q w r v
  Ends-from w u (ok a) v s h = (Step-trans w u v s h.0, h.1)
  Ends-from w u (err e) v s h = Step-trans w u v s h

  settle-Ends :
      (w : World) (r : Result A) (u : World)
      → IsWf w.mem
      → Ends Q w r u
      → Ends Q w (settle w.mem (r, u)).0 (settle w.mem (r, u)).1
  unfolding settle
  settle-Ends w (ok a) u v h = h
  settle-Ends w (err (Error.panic s)) u v h = h
  settle-Ends w (err (Error.of_protocol e)) u v h = record { wf = v; grows = Grows-refl w.mem }
  settle-Ends w (err (Error.of_store e)) u v h = record { wf = v; grows = Grows-refl w.mem }
  settle-Ends w (err Error.unknown_stripe_price) u v h = record { wf = v; grows = Grows-refl w.mem }
  settle-Ends w (err Error.manual_review) u v h = record { wf = v; grows = Grows-refl w.mem }
  settle-Ends w (err (Error.message s)) u v h = record { wf = v; grows = Grows-refl w.mem }
  settle-Ends w (err (Error.foreign s)) u v h = record { wf = v; grows = Grows-refl w.mem }

  kept-Ends :
      (w : World) (r : Result A) (u : World) → IsWf u.mem → Grows w.mem u.mem → Ends Any w r u
  kept-Ends w (ok a) u v g = (record { wf = v; grows = g }, tt)
  kept-Ends w (err e) u v g = record { wf = v; grows = g }

module _ {A : Type 0} {Q : A → Memory → Type 0} where
  pub pure-Leads : {a : A} {w : World} → IsWf w.mem → Q a w.mem → Leads Q (pure a) w
  pure-Leads {w = w} v q = record { ends = (Step-refl w v, q) }

  pub fail-Leads : {e : Error} {w : World} → IsWf w.mem → Leads Q (fail e) w
  fail-Leads {w = w} v = record { ends = Step-refl w v }

  pub if-Leads :
      (b : Bool) {m n : Act A} {w : World}
      → (b ≡ true → Leads Q m w)
      → (b ≡ false → Leads Q n w)
      → Leads Q (if b then m else n) w
  if-Leads true h k = h refl
  if-Leads false h k = k refl

  -- A transaction: an error puts the store back as it was.
  pub in_tx-Leads : {m : Act A} {w : World} → IsWf w.mem → Leads Q m w → Leads Q (in_tx m) w
  unfolding in_tx
  in_tx-Leads {m = m} {w = w} v h = record { ends = settle-Ends Q w (m w).0 (m w).1 v h.ends }

pub lift-Leads :
    {A : Type 0} (r : Result A) (w : World) → IsWf w.mem → Leads (λ a m. r ≡ ok a) (lift r) w
lift-Leads (ok a) w v = record { ends = (Step-refl w v, refl) }
lift-Leads (err e) w v = record { ends = Step-refl w v }

module _ {A B : Type 0} (Q : A → Memory → Type 0) (R : B → Memory → Type 0) where
  Ends-bind :
      (f : A → Act B) (w : World) (r : Result A) (u : World)
      → Ends Q w r u
      → ((a : A) (u : World) → Step w u → Q a u.mem → Leads R (f a) u)
      → Ends R w (((λ (x : World). (r, u)) >>= f) w).0 (((λ (x : World). (r, u)) >>= f) w).1
  Ends-bind f w (ok a) u h k = Ends-from R w u (f a u).0 (f a u).1 h.0 (k a u h.0 h.1).ends
  Ends-bind f w (err e) u h k = h

-- One action after another: the second begins where the first ends, and may use what it gave.
pub bind-Leads :
    {A B : Type 0} {Q : A → Memory → Type 0} {R : B → Memory → Type 0} {m : Act A} {f : A → Act B}
    {w : World}
    → Leads Q m w
    → ((a : A) (u : World) → Step w u → Q a u.mem → Leads R (f a) u)
    → Leads R (m >>= f) w
bind-Leads {Q = Q} {R = R} {m = m} {f = f} {w = w} h k = record {
  ends = Ends-bind Q R f w (m w).0 (m w).1 h.ends k;
}

-- A method that keeps the invariant, and lets the tables grow.
pub kept-Leads :
    {A : Type 0} (m : Act A) (w : World) → After IsWf m w → Grows w.mem (m w).1.mem → Leads Any m w
kept-Leads m w v g = record { ends = kept-Ends Any w (m w).0 (m w).1 v g }

-- What a step has kept.
pub Leads-Step :
    {A : Type 0} {Q : A → Memory → Type 0} {m : Act A} {w : World} → Leads Q m w → Step w (m w).1
Leads-Step {Q = Q} {m = m} {w = w} h = Ends-Step Q w (m w).0 (m w).1 h.ends

-- An action that ends where a step leads, whatever its value.
pub step-Leads : {A : Type 0} (m : Act A) (w : World) → Step w (m w).1 → Leads Any m w
step-Leads m w s = kept-Leads m w s.wf s.grows

Ends-weak :
    {A : Type 0} (Q R : A → Memory → Type 0) (w : World) (r : Result A) (u : World)
    → Ends Q w r u
    → ((a : A) (u : World) → Step w u → Q a u.mem → R a u.mem)
    → Ends R w r u
Ends-weak Q R w (ok a) u (s, q) k = (s, k a u s q)
Ends-weak Q R w (err e) u s k = s

-- A value of which less is asked.
pub weak-Leads :
    {A : Type 0} {Q R : A → Memory → Type 0} {m : Act A} {w : World}
    → Leads Q m w
    → ((a : A) (u : World) → Step w u → Q a u.mem → R a u.mem)
    → Leads R m w
weak-Leads {Q = Q} {R = R} {m = m} {w = w} h k = record {
  ends = Ends-weak Q R w (m w).0 (m w).1 h.ends k;
}

-- An action whose result, an error too, another one handles.
pub handle-Leads :
    {A B : Type 0} {Q : A → Memory → Type 0} {R : B → Memory → Type 0} (m : Act A)
    (f : Result A → Act B) (w : World)
    → Leads Q m w
    → ((r : Result A) (u : World) → Step w u → Leads R (f r) u)
    → Leads R (λ x. let (r, u) = m x in f r u) w
handle-Leads {R = R} m f w h k =
    let s = Leads-Step h in
    record {
      ends =
          Ends-from R w (m w).1 (f (m w).0 (m w).1).0 (f (m w).0 (m w).1).1 s
            (k (m w).0 (m w).1 s).ends;
    }
