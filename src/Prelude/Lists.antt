-- ===== src/Prelude/Lists.antt =====
-- Lists measured by native numbers, and the loops over lists that the program uses.
use Prim.Native.Nat.{ℕ, zero, suc, ◌+◌}
use mathlib.Core.Path.{◌≡◌, refl, subst}
use mathlib.Core.Bool.{Bool, true, false, ◌&&◌, ◌||◌}
use mathlib.Core.List.{List, [], ◌∷◌, ◌++◌}
use mathlib.Core.Option.{Option, none, some, some_inj}
use native.Mathlib.Omega.{arith}
use subscription_bridge.Prelude.Tests.{if◌then◌else◌}

module _ {ℓ} {A : Type ℓ} where
  abbrev pub length : List A → ℕ
  length [] = 0
  length (x ∷ xs) = suc (length xs)

  -- A loop that stops at the first element that passes the test.
  abbrev pub any : (A → Bool) → List A → Bool
  any p [] = false
  any p (x ∷ xs) = p x || any p xs

  abbrev pub all : (A → Bool) → List A → Bool
  all p [] = true
  all p (x ∷ xs) = p x && all p xs

  -- A loop that collects the elements that pass the test.
  abbrev pub keep : (A → Bool) → List A → List A
  keep p [] = []
  keep p (x ∷ xs) = let rest = keep p xs in if p x then x ∷ rest else rest

  -- A loop that returns the first element that passes the test.
  abbrev pub find? : (A → Bool) → List A → Option A
  find? p [] = none
  find? p (x ∷ xs) = if p x then some x else find? p xs

  -- A loop that keeps the first of the least elements among those that pass the test.
  abbrev pub sooner : (A → A → Bool) → A → Option A → Option A
  sooner before x none = some x
  sooner before x (some c) = if before x c then some x else some c

  unfoldable pub least : (A → Bool) → (A → A → Bool) → Option A → List A → Option A
  least p before chosen [] = chosen
  least p before chosen (x ∷ xs) =
      least p before (if p x then sooner before x chosen else chosen) xs

  -- `sort.Slice`. Its order of equal elements is open, as is that of the `range` loop before it.
  insert_sorted : (A → A → Bool) → A → List A → List A
  insert_sorted before x [] = x ∷ []
  insert_sorted before x (y ∷ ys) = if before y x then y ∷ insert_sorted before x ys else x ∷ y ∷ ys

  unfoldable pub sort : (A → A → Bool) → List A → List A
  unfolding insert_sorted
  sort before [] = []
  sort before (x ∷ xs) = insert_sorted before x (sort before xs)

  abbrev pub take : ℕ → List A → List A
  take zero xs = []
  take (suc n) [] = []
  take (suc n) (x ∷ xs) = x ∷ take n xs

  pub length-append : (xs ys : List A) → length (xs ++ ys) ≡ length xs + length ys
  length-append [] ys = omega arith
  length-append (x ∷ xs) ys = omega (arith, length-append xs ys)

  pub any-append : (p : A → Bool) (xs ys : List A) → any p (xs ++ ys) ≡ (any p xs || any p ys)
  any-append p [] ys = refl
  any-append p (x ∷ xs) ys = ground (arith, any-append p xs ys)

  pub all-append : (p : A → Bool) (xs ys : List A) → all p (xs ++ ys) ≡ (all p xs && all p ys)
  all-append p [] ys = refl
  all-append p (x ∷ xs) ys = ground (arith, all-append p xs ys)

-- Every element has the property.
abbrev pub Every {ℓ κ} : {A : Type ℓ} → (A → Type κ) → List A → Type κ
Every P [] = Unit
Every P (x ∷ xs) = P x × Every P xs

module _ {ℓ κ} {A : Type ℓ} (P : A → Type κ) where
  pub Every-keep : (p : A → Bool) (xs : List A) → Every P xs → Every P (keep p xs)
  Every-keep p [] h = tt
  Every-keep p (x ∷ xs) (h, hs) = both (p x) (keep p xs) (Every-keep p xs hs)
    where
      both : (b : Bool) (rest : List A) → Every P rest → Every P (if b then x ∷ rest else rest)
      both true rest r = (h, r)
      both false rest r = r

  Every-insert_sorted :
      (before : A → A → Bool) (x : A) (xs : List A)
      → P x
      → Every P xs
      → Every P (insert_sorted before x xs)
  unfolding insert_sorted
  Every-insert_sorted before x [] h hs = (h, tt)
  Every-insert_sorted before x (y ∷ ys) h (k, ks) =
      both (before y x) (Every-insert_sorted before x ys h ks)
    where
      both :
          (b : Bool)
          → Every P (insert_sorted before x ys)
          → Every P (if b then y ∷ insert_sorted before x ys else x ∷ y ∷ ys)
      both true r = (k, r)
      both false r = (h, (k, ks))

  pub Every-sort : (before : A → A → Bool) (xs : List A) → Every P xs → Every P (sort before xs)
  unfolding sort
  Every-sort before [] h = tt
  Every-sort before (x ∷ xs) (h, hs) =
      Every-insert_sorted before x (sort before xs) h (Every-sort before xs hs)

  -- The elements kept are those with the property, and so is the element found.
  pub keep-Every : (p : A → Bool) (xs : List A) → ((a : A) → p a ≡ true → P a) → Every P (keep p xs)
  keep-Every p [] h = tt
  keep-Every p (x ∷ xs) h = both (p x) (h x) (keep-Every p xs h)
    where
      both :
          (b : Bool)
          → (b ≡ true → P x)
          → Every P (keep p xs)
          → Every P (if b then x ∷ keep p xs else keep p xs)
      both true k r = (k refl, r)
      both false k r = r

  pub Every-find? : (p : A → Bool) (xs : List A) (a : A) → Every P xs → find? p xs ≡ some a → P a
  Every-find? p [] a h e = absurd (ground arith)
  Every-find? p (x ∷ xs) a (h, hs) e = first (p x) e (Every-find? p xs a hs)
    where
      first :
          (b : Bool)
          → (if b then some x else find? p xs) ≡ some a
          → (find? p xs ≡ some a → P a)
          → P a
      first true e later = subst P (ground arith) h
      first false e later = later e

pub Every-map {ℓ κ μ} :
    {A : Type ℓ} {P : A → Type κ} {Q : A → Type μ} (xs : List A)
    → ((a : A) → P a → Q a)
    → Every P xs
    → Every Q xs
Every-map [] f h = tt
Every-map (x ∷ xs) f (h, hs) = (f x h, Every-map xs f hs)

pub find?-holds {ℓ} :
    {A : Type ℓ} (p : A → Bool) (xs : List A) (a : A) → find? p xs ≡ some a → p a ≡ true
find?-holds {A = A} p [] a h = absurd (ground arith)
find?-holds {A = A} p (x ∷ xs) a h = first x (p x) refl h (find?-holds p xs a)
  where
    first :
        (y : A) (b : Bool)
        → p y ≡ b
        → (if b then some y else find? p xs) ≡ some a
        → (find? p xs ≡ some a → p a ≡ true)
        → p a ≡ true
    first y true e h k = subst (λ z. p z ≡ true) (some_inj.0 h) e
    first y false e h k = k h
