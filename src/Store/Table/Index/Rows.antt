-- ===== src/Store/Table/Index/Rows.antt =====
-- The rows of a table, and what a loop over them finds.
use subscription_bridge.Prelude.{
  Bytes, Bool, true, List, [], ◌∷◌, Option, none, some, ◌≡◌, refl, arith, ◌==◌, bytes_eq,
  bytes_eqb_iff, bytes_eqb_refl, find?, least, Bool-cases, if◌then◌else◌, map, ap, sooner, ℕ, ltb,
  ◌≤◌, subst, Every, Every-map, ◌⊎◌, inl, inr,
}
use subscription_bridge.Store.Table.{
  Table, find, store, get, values, second_of, update_rows, find-store, find-update_rows,
}

module _ {ℓ} {V : Type ℓ} where
  -- No key occurs twice: what a Go map is.
  abbrev pub Distinct : List (Bytes × V) → Type ℓ
  Distinct [] = Unit
  Distinct ((k, v) ∷ r) = (find r k ≡ none) × Distinct r

  pub store-Distinct :
      (r : List (Bytes × V)) (k : Bytes) (v : V) → Distinct r → Distinct (store r k v)
  unfolding store find
  store-Distinct [] k v d = (refl, tt)
  store-Distinct ((j, w) ∷ r) k v d =
      ground
        (arith, store-Distinct r k v d.1, find-store r k j v, bytes_eqb_iff j k, bytes_eqb_iff k j)

  pub update_rows-Distinct :
      (f : V → V) (r : List (Bytes × V)) → Distinct r → Distinct (update_rows f r)
  unfolding update_rows
  update_rows-Distinct f [] d = tt
  update_rows-Distinct f ((j, w) ∷ r) d =
      (rw (find-update_rows f r j, d.0) refl, update_rows-Distinct f r d.1)

  pub find-tail :
      (k j : Bytes) (v c : V) (r : List (Bytes × V))
      → find r k ≡ none
      → find r j ≡ some c
      → find ((k, v) ∷ r) j ≡ some c
  unfolding find
  find-tail k j v c r absent present =
      ground (arith, bytes_eqb_iff k j, ap (find r) {x = k} {y = j})

  pub find-head : (k : Bytes) (v : V) (r : List (Bytes × V)) → find ((k, v) ∷ r) k ≡ some v
  unfolding find
  find-head k v r = rw (bytes_eqb_refl k) refl

  -- `c` is a row that passes the test `p`.
  abbrev pub Passing : (V → Bool) → List (Bytes × V) → V → Type ℓ
  Passing p r c = (k : Bytes) × (find r k ≡ some c) × (p c ≡ true)

  Passing-tail :
      (p : V → Bool) (k : Bytes) (v : V) (r : List (Bytes × V)) (c : V)
      → find r k ≡ none
      → Passing p r c
      → Passing p ((k, v) ∷ r) c
  Passing-tail p k v r c absent (j, e, passes) = (j, find-tail k j v c r absent e, passes)

  sooner-cases :
      (p : V → Bool) (before : V → V → Bool) (chosen : Option V) (v c : V)
      → (if p v then sooner before v chosen else chosen) ≡ some c
      → ((p v ≡ true) × (v ≡ c)) ⊎ (chosen ≡ some c)
  sooner-cases p before chosen v c h = ground arith

  pub least-Passing :
      (p : V → Bool) (before : V → V → Bool) (chosen : Option V) (r : List (Bytes × V)) (c : V)
      → Distinct r
      → least p before chosen (map second_of r) ≡ some c
      → (chosen ≡ some c) ⊎ Passing p r c
  unfolding least
  least-Passing p before chosen [] c d h = inl h
  least-Passing p before chosen ((k, v) ∷ r) c d h =
      elim (least-Passing p before (if p v then sooner before v chosen else chosen) r c d.1 h) [
        | inr later ↦ inr (Passing-tail p k v r c d.0 later)
        | inl now ↦ elim (sooner-cases p before chosen v c now) [
          | inr earlier ↦ inl earlier
          | inl (passes, e) ↦ inr (subst (Passing p ((k, v) ∷ r)) e (k, find-head k v r, passes))
        ]
      ]

  pub find?-Passing :
      (p : V → Bool) (r : List (Bytes × V)) (c : V)
      → Distinct r
      → find? p (map second_of r) ≡ some c
      → Passing p r c
  find?-Passing p [] c d h = absurd (ground arith)
  find?-Passing p ((k, v) ∷ r) c d h = elim (Bool-cases (p v)) [
    | inl passes ↦ subst (Passing p ((k, v) ∷ r)) (ground arith) (k, find-head k v r, passes)
    | inr fails ↦ Passing-tail p k v r c d.0 (find?-Passing p r c d.1 (rw fails at h))
  ]

  -- The least row by a number: `before` compares the numbers of the rows that pass.
  module _ (p : V → Bool) (before : V → V → Bool) (key : V → ℕ)
      (agree : (a b : V) → p a ≡ true → p b ≡ true → before a b ≡ ltb (key a) (key b)) where
    abbrev Passes : Option V → Type 0
    Passes none = Unit
    Passes (some x) = p x ≡ true

    abbrev AtMost : ℕ → Option V → Type 0
    AtMost n none = Unit
    AtMost n (some x) = n ≤ key x

    chosen-Passes :
        (chosen : Option V) (v : V)
        → Passes chosen
        → Passes (if p v then sooner before v chosen else chosen)
    chosen-Passes none v h = ground arith
    chosen-Passes (some x) v h = ground arith

    chosen-AtMost :
        (chosen : Option V) (v : V) (n : ℕ)
        → Passes chosen
        → AtMost n (if p v then sooner before v chosen else chosen)
        → AtMost n chosen × (p v ≡ true → n ≤ key v)
    chosen-AtMost none v n h a = ground arith
    chosen-AtMost (some x) v n h a = ground (arith, agree v x)

    least-AtMost :
        (chosen : Option V) (r : List (Bytes × V)) (c : V)
        → Passes chosen
        → least p before chosen (map second_of r) ≡ some c
        → AtMost (key c) chosen
          × ((k : Bytes) (v : V) → find r k ≡ some v → p v ≡ true → key c ≤ key v)
    unfolding least find
    least-AtMost none [] c h e = (ground arith, λ k v f. ground arith)
    least-AtMost (some x) [] c h e = (ground arith, λ k v f. ground arith)
    least-AtMost chosen ((j, w) ∷ r) c h e =
        let chosen' : Option V = if p w then sooner before w chosen else chosen in
        let ih = least-AtMost chosen' r c (chosen-Passes chosen w h) e in
        let (a, now) = chosen-AtMost chosen w (key c) h ih.0 in
        (a, λ k v f passes. later k v f passes now ih.1)
      where
        later :
            (k : Bytes) (v : V)
            → (if j == k then some w else find r k) ≡ some v
            → p v ≡ true
            → (p w ≡ true → key c ≤ key w)
            → ((k : Bytes) (v : V) → find r k ≡ some v → p v ≡ true → key c ≤ key v)
            → key c ≤ key v
        later k v f passes now rest = ground (arith, rest k v, bytes_eqb_iff j k)

-- The row that `least` returns comes no later than any row that passes, by the number compared.
pub least-min {ℓ} :
    {V : Type ℓ} (p : V → Bool) (before : V → V → Bool) (key : V → ℕ) (t : Table V) (c : V)
    → ((a b : V) → p a ≡ true → p b ≡ true → before a b ≡ ltb (key a) (key b))
    → least p before none (values t) ≡ some c
    → (k : Bytes) (v : V) → get t k ≡ some v
    → p v ≡ true
    → key c ≤ key v
unfolding values get
least-min p before key t c agree e k v = (least-AtMost p before key agree none t.rows c tt e).1 k v

-- Every value of a loop stands under a key.
pub rows-Every {ℓ} :
    {V : Type ℓ} (r : List (Bytes × V))
    → Distinct r
    → Every (λ (v : V). (k : Bytes) × (find r k ≡ some v)) (map second_of r)
rows-Every [] d = tt
rows-Every ((k, v) ∷ r) (absent, d) = (
  (k, find-head k v r),
  Every-map (map second_of r) (λ w (j, e). (j, find-tail k j v w r absent e)) (rows-Every r d),
)
