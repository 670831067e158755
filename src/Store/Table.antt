-- ===== src/Store/Table.antt =====
-- A Go map with string keys. The rows are held in the order in which a `range` loop meets them; Go
-- leaves that order open, and every theorem is about all tables, so about every order.
pub mod Index
use subscription_bridge.Prelude.{
  Bytes, Bool, true, false, List, [], ◌∷◌, map, Option, none, some, ◌≡◌, ◌≢◌, refl, arith, ◌==◌,
  bytes_eq, bytes_eqb, bytes_eqb_iff, if◌then◌else◌, any, keep,
}
use mathlib.Core.Option

pub record Table {ℓ} (V : Type ℓ) : Type ℓ where
  pub rows : List (Bytes × V)

module _ {ℓ} {V : Type ℓ} where
  unfoldable pub find : List (Bytes × V) → Bytes → Option V
  find [] k = none
  find ((j, v) ∷ r) k = if j == k then some v else find r k

  unfoldable pub store : List (Bytes × V) → Bytes → V → List (Bytes × V)
  store [] k v = (k, v) ∷ []
  store ((j, w) ∷ r) k v = if j == k then (j, v) ∷ r else (j, w) ∷ store r k v

  unfoldable pub empty : Table V
  empty = record { rows = [] }

  -- `v, ok := m[k]`
  unfoldable pub get : Table V → Bytes → Option V
  unfolding find
  get t k = find t.rows k

  -- `m[k] = v`
  unfoldable pub put : Table V → Bytes → V → Table V
  unfolding store
  put t k v = record { rows = store t.rows k v }

  abbrev second_of : Bytes × V → V
  second_of (k, v) = v

  -- The values in the order of a `range` loop.
  unfoldable pub values : Table V → List V
  values t = map second_of t.rows

  pub update_rows : (V → V) → List (Bytes × V) → List (Bytes × V)
  update_rows f [] = []
  update_rows f ((k, v) ∷ r) = (k, f v) ∷ update_rows f r

  -- A `range` loop that writes each row back, changed.
  unfoldable pub update_all : (V → V) → Table V → Table V
  unfolding update_rows
  update_all f t = record { rows = update_rows f t.rows }

  pub get-empty : (k : Bytes) → get empty k ≡ none
  unfolding get empty
  get-empty k = refl

  find-store :
      (r : List (Bytes × V)) (k j : Bytes) (v : V)
      → find (store r k v) j ≡ (if k == j then some v else find r j)
  unfolding find store
  find-store [] k j v = refl
  find-store ((i, w) ∷ r) k j v =
      ground (arith, bytes_eqb_iff k j, bytes_eqb_iff i k, bytes_eqb_iff i j, find-store r k j v)

  -- What a write changes: the row of its key and no other.
  pub get-put :
      (t : Table V) (k j : Bytes) (v : V)
      → get (put t k v) j ≡ (if bytes_eqb k j then some v else get t j)
  unfolding get put
  get-put t k j v = find-store t.rows k j v

  find-update_rows :
      (f : V → V) (r : List (Bytes × V)) (k : Bytes)
      → find (update_rows f r) k ≡ Option.map f (find r k)
  unfolding find update_rows
  find-update_rows f [] k = refl
  find-update_rows f ((i, w) ∷ r) k = ground (arith, find-update_rows f r k)

  pub get-update_all :
      (f : V → V) (t : Table V) (k : Bytes) → get (update_all f t) k ≡ Option.map f (get t k)
  unfolding get update_all
  get-update_all f t k = find-update_rows f t.rows k

  find-any :
      (p : V → Bool) (r : List (Bytes × V)) (k : Bytes) (v : V)
      → find r k ≡ some v
      → any p (map second_of r) ≡ false
      → p v ≡ false
  unfolding find
  find-any p [] k v h none_passes = ground arith
  find-any p ((i, w) ∷ r) k v h none_passes = ground (arith, find-any p r k v)

  -- A `range` loop that found no row to pass a test: no row of the table passes it.
  pub get-any :
      (p : V → Bool) (t : Table V) (k : Bytes) (v : V)
      → get t k ≡ some v
      → any p (values t) ≡ false
      → p v ≡ false
  unfolding get values
  get-any p t k v = find-any p t.rows k v
