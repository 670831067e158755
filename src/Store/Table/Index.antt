-- ===== src/Store/Table/Index.antt =====
-- Tables whose keys are distinct and are a field of their rows, and fields that no two rows share.
pub mod Rows
pub use subscription_bridge.Store.Table.Index.Rows.{least-min}
use subscription_bridge.Store.Table.Index.Rows.{
  Distinct, store-Distinct, update_rows-Distinct, Passing, least-Passing, find?-Passing, rows-Every,
}
use subscription_bridge.Prelude.{
  Every, Every-map, Bytes, Bool, true, false, List, [], ◌∷◌, Option, none, some, ◌≡◌, refl, sym,
  ◌∙◌, arith, ◌==◌, bytes_eq, bytes_eqb, bytes_eqb_iff, bytes_eqb_refl, any, find?, least,
  Bool-cases, if◌then◌else◌, map, ap, Option-cases, sooner, ℕ, ltb, ◌≤◌, subst, ◌⊎◌, inl, inr,
}
use subscription_bridge.Store.Table
use subscription_bridge.Store.Table.{
  Table, find, store, get, put, values, second_of, update_rows, update_all, get-put, get-update_all,
  get-any, find-store, find-update_rows,
}

-- The keys are distinct, and each row holds its own.
pub record IsIndexed {ℓ} {V : Type ℓ} (key : V → Bytes) (t : Table V) : Type ℓ where
  pub distinct : Distinct t.rows
  pub keyed : (k : Bytes) (v : V) → get t k ≡ some v → key v ≡ k

-- No two rows share the field `f`.
pub record IsUnique {ℓ} {V X : Type ℓ} (f : V → X) (t : Table V) : Type ℓ where
  pub alone : (k j : Bytes) (v w : V) → get t k ≡ some v → get t j ≡ some w → f v ≡ f w → k ≡ j

module _ {ℓ} {V : Type ℓ} (key : V → Bytes) where
  pub IsIndexed-empty : IsIndexed key Table.empty
  unfolding Table.empty get find
  IsIndexed-empty = record { distinct = tt; keyed = λ k v e. absurd (ground arith) }

  pub IsIndexed-put :
      (t : Table V) (k : Bytes) (v : V) → key v ≡ k → IsIndexed key t → IsIndexed key (put t k v)
  unfolding put
  IsIndexed-put t k v e i = record {
    distinct = store-Distinct t.rows k v i.distinct;
    keyed = λ j w f. ground (arith, rw (get-put t k j v) at f, bytes_eqb_iff k j, i.keyed j w);
  }

  pub IsIndexed-update_all :
      (f : V → V) (t : Table V)
      → ((v : V) → key (f v) ≡ key v)
      → IsIndexed key t
      → IsIndexed key (update_all f t)
  IsIndexed-update_all f t keeps i = record {
    distinct = unfold update_all in update_rows-Distinct f t.rows i.distinct;
    keyed = λ k v e. elim (Option-cases (get t k)) [
      | inl absent ↦ absurd (ground (arith, rw (get-update_all f t k, absent) at e))
      | inr (w, present) ↦
          ground (arith, rw (get-update_all f t k, present) at e, keeps w, i.keyed k w present)
    ];
  }

  get-Passing :
      (p : V → Bool) (t : Table V) (c : V)
      → IsIndexed key t
      → Passing p t.rows c
      → (get t (key c) ≡ some c) × (p c ≡ true)
  unfolding get
  get-Passing p t c i (k, e, passes) = (rw (i.keyed k c e) e, passes)

  -- What `find?` and `least` return is the row of its own key.
  pub find?-get :
      (p : V → Bool) (t : Table V) (c : V)
      → IsIndexed key t
      → find? p (values t) ≡ some c
      → (get t (key c) ≡ some c) × (p c ≡ true)
  unfolding values
  find?-get p t c i h = get-Passing p t c i (find?-Passing p t.rows c i.distinct h)

  -- Every value of a loop is the row of its own key.
  pub values-Every :
      (t : Table V) → IsIndexed key t → Every (λ (v : V). get t (key v) ≡ some v) (values t)
  unfolding values get
  values-Every t i =
      Every-map (map second_of t.rows) (λ v (k, e). rw (i.keyed k v e) e)
        (rows-Every t.rows i.distinct)

  pub least-get :
      (p : V → Bool) (before : V → V → Bool) (t : Table V) (c : V)
      → IsIndexed key t
      → least p before none (values t) ≡ some c
      → (get t (key c) ≡ some c) × (p c ≡ true)
  unfolding values
  least-get p before t c i h = elim (least-Passing p before none t.rows c i.distinct h) [
    | inl e ↦ absurd (ground arith)
    | inr passing ↦ get-Passing p t c i passing
  ]

get-update_all_inv {ℓ} :
    {V : Type ℓ} (g : V → V) (t : Table V) (k : Bytes) (v : V)
    → get (update_all g t) k ≡ some v
    → (w : V) × (get t k ≡ some w) × (g w ≡ v)
get-update_all_inv g t k v e = elim (Option-cases (get t k)) [
  | inl absent ↦ absurd (ground (arith, rw (get-update_all g t k, absent) at e))
  | inr (w, present) ↦ (w, present, ground (arith, rw (get-update_all g t k, present) at e))
]

module _ {ℓ} {V X : Type ℓ} (f : V → X) where
  pub IsUnique-empty : IsUnique f Table.empty
  unfolding Table.empty get find
  IsUnique-empty = record { alone = λ k j v w e. absurd (ground arith) }

  -- A new row that no row of the table clashes with.
  pub IsUnique-put_new :
      (p : V → Bool) (t : Table V) (k : Bytes) (v : V)
      → ((w : V) → f w ≡ f v → p w ≡ true)
      → any p (values t) ≡ false
      → IsUnique f t
      → IsUnique f (put t k v)
  IsUnique-put_new p t k v clash free u = record {
    alone = λ a b x y ex ey same.
        go a b x y (rw (get-put t k a v) at ex) (rw (get-put t k b v) at ey) same;
  }
    where
      go :
          (a b : Bytes) (x y : V)
          → (if bytes_eqb k a then some v else get t a) ≡ some x
          → (if bytes_eqb k b then some v else get t b) ≡ some y
          → f x ≡ f y
          → a ≡ b
      go a b x y ex ey same = ground (
        arith,
        u.alone a b x y,
        clash x,
        clash y,
        get-any p t a x,
        get-any p t b y,
        bytes_eqb_iff k a,
        bytes_eqb_iff k b,
        ap f {x = v} {y = x},
        ap f {x = v} {y = y},
      )

  -- A new value of a row that keeps the field.
  pub IsUnique-put_same :
      (t : Table V) (k : Bytes) (v w : V)
      → get t k ≡ some w
      → f v ≡ f w
      → IsUnique f t
      → IsUnique f (put t k v)
  IsUnique-put_same t k v w old keeps u = record {
    alone = λ a b x y ex ey same.
        go a b x y (rw (get-put t k a v) at ex) (rw (get-put t k b v) at ey) same;
  }
    where
      go :
          (a b : Bytes) (x y : V)
          → (if bytes_eqb k a then some v else get t a) ≡ some x
          → (if bytes_eqb k b then some v else get t b) ≡ some y
          → f x ≡ f y
          → a ≡ b
      go a b x y ex ey same = ground (
        arith,
        u.alone a b x y,
        u.alone k b w y,
        u.alone a k x w,
        keeps,
        old,
        bytes_eqb_iff k a,
        bytes_eqb_iff k b,
        ap f {x = v} {y = x},
        ap f {x = v} {y = y},
      )

  pub IsUnique-update_all :
      (g : V → V) (t : Table V)
      → ((v : V) → f (g v) ≡ f v)
      → IsUnique f t
      → IsUnique f (update_all g t)
  IsUnique-update_all g t keeps u = record {
    alone = λ a b x y ex ey same.
        let (v, ev, px) = get-update_all_inv g t a x ex in
        let (w, ew, py) = get-update_all_inv g t b y ey in
        u.alone a b v w ev ew (sym (keeps v) ∙ ap f px ∙ same ∙ sym (ap f py) ∙ keeps w);
  }
