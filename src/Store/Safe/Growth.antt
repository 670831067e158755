-- ===== src/Store/Safe/Growth.antt =====
-- What stays of a table while rows are added to it and written back.
use subscription_bridge.Prelude.{
  Bytes, none, some, ◌≡◌, refl, ◌∙◌, arith, ℤ, bytes_eqb, bytes_eqb_iff, Bool-cases, inl, inr,
}
use subscription_bridge.Protocol.Clock.{Time}
use subscription_bridge.Store.Models.{ChargeAttempt}
use subscription_bridge.Store.Table.{Table, get, put, update_all, get-put, get-update_all}
use subscription_bridge.Store.World.{Memory}
use subscription_bridge.Store.Invariant.{
  idempotency_of, checkout_of, reference_of, charge_key, charge_number,
}

-- A row of `t` is a row of `t'` under the same key, with the same field `f`.
abbrev pub Persists {ℓ} : {V X : Type ℓ} → (V → X) → Table V → Table V → Type ℓ
Persists {V = V} f t t' =
    (k : Bytes) (v : V) → get t k ≡ some v → (v' : V) × (get t' k ≡ some v') × (f v' ≡ f v)

-- What is unique to an attempt.
abbrev pub Charge : Type 0
Charge = Bytes × Bytes × (Bytes × Time × ℤ)

abbrev pub charge_of : ChargeAttempt → Charge
charge_of a = (reference_of a, charge_key a, charge_number a)

pub record Grows (m m' : Memory) : Type 0 where
  pub checkouts : Persists idempotency_of m.checkouts m'.checkouts
  pub subs : Persists checkout_of m.subs m'.subs
  pub attempts : Persists charge_of m.attempts m'.attempts

module _ {ℓ} {V X : Type ℓ} (f : V → X) where
  pub Persists-refl : (t : Table V) → Persists f t t
  Persists-refl t k v h = (v, h, refl)

  pub Persists-trans : (t u v : Table V) → Persists f t u → Persists f u v → Persists f t v
  Persists-trans t u v p q k x h =
      let (y, hy, ey) = p k x h in let (z, hz, ez) = q k y hy in (z, hz, ez ∙ ey)

  -- A row under a key that was free.
  pub Persists-put_new :
      (t : Table V) (k : Bytes) (v : V) → get t k ≡ none → Persists f t (put t k v)
  Persists-put_new t k v free j x h =
      (x, rw (get-put t k j v) (ground (arith, bytes_eqb_iff k j)), refl)

  -- A row written back, with the field that it had.
  pub Persists-put_same :
      (t : Table V) (k : Bytes) (v w : V) → get t k ≡ some w → f v ≡ f w → Persists f t (put t k v)
  Persists-put_same t k v w old same j x h = elim (Bool-cases (bytes_eqb k j)) [
    | inl e ↦ (v, rw (get-put t k j v, e) refl, ground (arith, bytes_eqb_iff k j, same))
    | inr e ↦ (x, rw (get-put t k j v, e) h, refl)
  ]

  pub Persists-update_all :
      (g : V → V) (t : Table V) → ((v : V) → f (g v) ≡ f v) → Persists f t (update_all g t)
  Persists-update_all g t keeps k v h = (g v, rw (get-update_all g t k, h) refl, keeps v)

pub Grows-refl : (m : Memory) → Grows m m
Grows-refl m = record {
  checkouts = Persists-refl idempotency_of m.checkouts;
  subs = Persists-refl checkout_of m.subs;
  attempts = Persists-refl charge_of m.attempts;
}

pub Grows-trans : (m n o : Memory) → Grows m n → Grows n o → Grows m o
Grows-trans m n o g h = record {
  checkouts =
      Persists-trans idempotency_of m.checkouts n.checkouts o.checkouts g.checkouts h.checkouts;
  subs = Persists-trans checkout_of m.subs n.subs o.subs g.subs h.subs;
  attempts = Persists-trans charge_of m.attempts n.attempts o.attempts g.attempts h.attempts;
}

-- An action that leaves the three tables alone.
abbrev pub Untouched : Memory → Memory → Type 0
Untouched m m' = (m'.checkouts ≡ m.checkouts) × (m'.subs ≡ m.subs) × (m'.attempts ≡ m.attempts)

pub Untouched-Grows : (m m' : Memory) → Untouched m m' → Grows m m'
Untouched-Grows m m' (c, s, a) = record {
  checkouts = rw c (Persists-refl idempotency_of m.checkouts);
  subs = rw s (Persists-refl checkout_of m.subs);
  attempts = rw a (Persists-refl charge_of m.attempts);
}
