-- ===== src/Prelude/Int.antt =====
-- Signed integers over the native numbers, and Go's `int64` increment.
use Prim.Native.Nat.{ℕ, zero, suc, ◌+◌}
use mathlib.Core.Path.{◌≡◌}
use mathlib.Core.Logic.{◌↔◌, ◌≢◌}
use mathlib.Core.Bool.{Bool, true, false}
use mathlib.Core.List.{List}
use native.Mathlib.Omega.{arith}
use subscription_bridge.Prelude.Tests.{ltb, nat_eqb, Eq, if◌then◌else◌}
use subscription_bridge.Prelude.Lists.{take}

-- `negsuc n` is -(n + 1).
pub data ℤ : Type 0 where
  pos : ℕ → ℤ
  negsuc : ℕ → ℤ

abbrev pub int_eqb : ℤ → ℤ → Bool
int_eqb (pos a) (pos b) = nat_eqb a b
int_eqb (negsuc a) (negsuc b) = nat_eqb a b
int_eqb _ _ = false

pub int_eqb_iff : (a b : ℤ) → (int_eqb a b ≡ true) ↔ (a ≡ b)
int_eqb_iff (pos a) (pos b) = ground arith
int_eqb_iff (negsuc a) (negsuc b) = ground arith
int_eqb_iff _ _ = ground arith

instance abbrev pub int_eq : Eq ℤ
int_eq = record { equals = int_eqb; equals_iff = int_eqb_iff }

abbrev pub ltb_ℤ : ℤ → ℤ → Bool
ltb_ℤ (pos a) (pos b) = ltb a b
ltb_ℤ (pos a) (negsuc b) = false
ltb_ℤ (negsuc a) (pos b) = true
ltb_ℤ (negsuc a) (negsuc b) = ltb b a

abbrev pub max_int64 : ℕ
max_int64 = 9223372036854775807

-- `n++` on an `int64`, which wraps from the largest value to the smallest.
unfoldable pub inc64 : ℤ → ℤ
inc64 (pos n) = if nat_eqb n max_int64 then negsuc max_int64 else pos (n + 1)
inc64 (negsuc zero) = pos 0
inc64 (negsuc (suc n)) = negsuc n

-- No increment gives its argument back, not even one that wraps.
pub inc64_ne : (n : ℤ) → inc64 n ≢ n
unfolding inc64
inc64_ne (pos n) = λ e. ground arith
inc64_ne (negsuc zero) = λ e. ground arith
inc64_ne (negsuc (suc n)) = λ e. ground arith

-- Below the largest value an increment is the next integer.
pub inc64-gt : (n : ℤ) → n ≢ pos max_int64 → ltb_ℤ n (inc64 n) ≡ true
unfolding inc64
inc64-gt (pos n) h = ground arith
inc64-gt (negsuc zero) h = ground arith
inc64-gt (negsuc (suc n)) h = ground arith

-- `if limit > 0 && len(out) > limit { out = out[:limit] }`
abbrev pub limited {ℓ} : {A : Type ℓ} → ℤ → List A → List A
limited (pos zero) out = out
limited (pos (suc n)) out = take (suc n) out
limited (negsuc n) out = out
