-- ===== src/Store/Keeps.antt =====
-- Chains of actions and transactions that succeed, and actions that leave a part of the store as it is.
use subscription_bridge.Prelude.{Bool, true, false, ◌≡◌, refl, ◌∙◌, arith, if◌then◌else◌}
use subscription_bridge.Protocol.Errors.{Error, Result, ok, err}
use subscription_bridge.Store.World.{Memory, World, Act, pure, settle, in_tx, ◌>>=◌, ◌>>◌}

-- A chain that succeeds: so did its parts.
pub bind-ok {ℓ κ} :
    {A : Type ℓ} {B : Type κ} (m : Act A) (f : A → Act B) (w : World) (b : B) (w' : World)
    → (m >>= f) w ≡ (ok b, w')
    → (a : A) × (u : World) × (m w ≡ (ok a, u)) × (f a u ≡ (ok b, w'))
bind-ok m f w b w' h = let (r, u) = m w in go r u f b w' h
  where
    go :
        {A : Type ℓ} {B : Type κ} (r : Result A) (u : World) (f : A → Act B) (b : B) (w' : World)
        → (((λ (x : World). (r, u)) >>= f) u) ≡ (ok b, w')
        → (a : A) × (v : World) × (◌≡◌ {A = Result A × World} (r, u) (ok a, v))
          × (f a v ≡ (ok b, w'))
    go (ok a) u f b w' h = (a, u, refl, h)
    go (err e) u f b w' h = absurd (ground arith)

settle-ok :
    {A : Type 0} (snap : Memory) (r : Result A) (u : World) (a : A) (w' : World)
    → settle snap (r, u) ≡ (ok a, w')
    → ◌≡◌ {A = Result A × World} (r, u) (ok a, w')
unfolding settle
settle-ok snap (ok b) u a w' h = h
settle-ok snap (err (Error.panic x)) u a w' h = absurd (ground arith)
settle-ok snap (err (Error.of_protocol x)) u a w' h = absurd (ground arith)
settle-ok snap (err (Error.of_store x)) u a w' h = absurd (ground arith)
settle-ok snap (err Error.unknown_stripe_price) u a w' h = absurd (ground arith)
settle-ok snap (err Error.manual_review) u a w' h = absurd (ground arith)
settle-ok snap (err (Error.message x)) u a w' h = absurd (ground arith)
settle-ok snap (err (Error.foreign x)) u a w' h = absurd (ground arith)

-- A transaction that succeeds: so did its function.
pub in_tx-ok :
    {A : Type 0} (m : Act A) (w : World) (a : A) (w' : World)
    → in_tx m w ≡ (ok a, w')
    → m w ≡ (ok a, w')
unfolding in_tx
in_tx-ok m w a w' h = settle-ok w.mem (m w).0 (m w).1 a w' h

module _ {ℓ} {X : Type ℓ} (part : Memory → X) where
  -- A chain keeps what its parts keep.
  pub bind-Keeps :
      {A : Type 0} {B : Type 0} (m : Act A) (f : A → Act B) (w : World)
      → part (m w).1.mem ≡ part w.mem
      → ((a : A) (u : World) → part (f a u).1.mem ≡ part u.mem)
      → part ((m >>= f) w).1.mem ≡ part w.mem
  bind-Keeps {A = A} {B = B} m f w same after = go (m w).0 (m w).1 same
    where
      go :
          (r : Result A) (u : World)
          → part u.mem ≡ part w.mem
          → part (((λ (x : World). (r, u)) >>= f) u).1.mem ≡ part w.mem
      go (ok a) u s = after a u ∙ s
      go (err e) u s = s

  abbrev pub Keeps : Act (Unit {0}) → Type ℓ
  Keeps m = (w : World) → part (m w).1.mem ≡ part w.mem

  pub seq-Keeps : (m n : Act (Unit {0})) → Keeps m → Keeps n → Keeps (m >> n)
  seq-Keeps m n first second w = go (m w).0 (m w).1 (first w) (second (m w).1)
    where
      go :
          (r : Result (Unit {0})) (u : World)
          → part u.mem ≡ part w.mem
          → part (n u).1.mem ≡ part u.mem
          → part (((λ (x : World). (r, u)) >> n) u).1.mem ≡ part w.mem
      go (ok x) u same after = after ∙ same
      go (err e) u same after = same

  pub if-Keeps : (b : Bool) (m : Act (Unit {0})) → Keeps m → Keeps (if b then m else pure tt)
  if-Keeps true m keeps w = keeps w
  if-Keeps false m keeps w = refl
