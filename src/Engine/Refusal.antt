-- ===== src/Engine/Refusal.antt =====
-- internal/engine/refusal.go. Letters and white space are those of ASCII: Go's ToUpper and TrimSpace
-- also know others, which Adyen's refusal codes do not hold.
use subscription_bridge.Prelude.{
  ℕ, ◌-◌, Bytes, bytes, Bool, ◌&&◌, ◌||◌, not, List, [], ◌∷◌, map, any, leb, ◌==◌, nat_eq, bytes_eq,
  if◌then◌else◌,
}
use mathlib.Core.List.{reverse}

to_upper : ℕ → ℕ
to_upper c = if leb b'a' c && leb c b'z' then c - 32 else c

is_space : ℕ → Bool
is_space c = c == 32 || (leb 9 c && leb c 13)

drop_space : Bytes → Bytes
unfolding is_space
drop_space [] = []
drop_space (c ∷ s) = if is_space c then drop_space s else c ∷ s

-- strings.TrimSpace
trim_space : Bytes → Bytes
unfolding drop_space
trim_space s = reverse (drop_space (reverse (drop_space s)))

-- strings.ReplaceAll(s, " ", "_") of one byte
underscore : ℕ → ℕ
underscore c = if c == 32 then b'_' else c

normal_code : Bytes → Bytes
unfolding to_upper trim_space underscore
normal_code code = map underscore (map to_upper (trim_space code))

abbrev pub final_codes : List Bytes
final_codes =
    bytes "STOLEN"
    ∷ bytes "INVALID"
    ∷ bytes "CLOSED"
    ∷ bytes "REVOKED"
    ∷ bytes "STOLEN_CARD"
    ∷ bytes "INVALID_CARD"
    ∷ bytes "INVALID_CARD_NUMBER"
    ∷ bytes "EXPIRED_CARD"
    ∷ bytes "RESTRICTED_CARD"
    ∷ bytes "BLOCKED_CARD"
    ∷ bytes "6"
    ∷ bytes "8"
    ∷ bytes "5"
    ∷ bytes "25"
    ∷ []

-- IsRetryableRefusal
unfoldable pub is_retryable_refusal : Bytes → Bool
unfolding normal_code
is_retryable_refusal code = not (any (λ c. normal_code code == c) final_codes)
