-- ===== src/Protocol/Identifier/Opaque.antt =====
-- Identifiers that the bridge makes pass its own validation.
use subscription_bridge.Prelude.{
  ℕ, ◌+◌, ◌/◌, ◌%◌, ◌≤◌, ◌<◌, ◌≡◌, refl, Bytes, true, false, [], ◌∷◌, ◌++◌, some, arith, ltb,
  length, any, all-append, all, length-append, any-append, bytes_eqb,
}
use subscription_bridge.Protocol.Errors.{ok}
use subscription_bridge.Protocol.Identifier.{
  has_prefix, drop, hex, hex_digit, is_suffix_byte, validate_opaque_id, Block, stamp, format_uuid,
  new_opaque_id,
}

has_prefix-append : (p s : Bytes) → has_prefix (p ++ s) p ≡ true
unfolding has_prefix
has_prefix-append [] s = refl
has_prefix-append (x ∷ p) s = ground (arith, has_prefix-append p s)

drop-append : (p s : Bytes) → drop (length p) (p ++ s) ≡ s
unfolding drop
drop-append [] s = refl
drop-append (x ∷ p) s = drop-append p s

-- The sixteen values are bytes.
pub record IsBlock (b : Block) : Type 0 where
  pub in0 : b.b0 < 256
  pub in1 : b.b1 < 256
  pub in2 : b.b2 < 256
  pub in3 : b.b3 < 256
  pub in4 : b.b4 < 256
  pub in5 : b.b5 < 256
  pub in6 : b.b6 < 256
  pub in7 : b.b7 < 256
  pub in8 : b.b8 < 256
  pub in9 : b.b9 < 256
  pub in10 : b.b10 < 256
  pub in11 : b.b11 < 256
  pub in12 : b.b12 < 256
  pub in13 : b.b13 < 256
  pub in14 : b.b14 < 256
  pub in15 : b.b15 < 256

stamp-IsBlock : {b : Block} → IsBlock b → IsBlock (stamp b)
unfolding stamp
stamp-IsBlock v = omega arith

hex_digit_suffix : (n : ℕ) → n < 16 → is_suffix_byte (hex_digit n) ≡ true
unfolding is_suffix_byte
hex_digit_suffix n h = ground arith

all-hex : (n : ℕ) → n < 256 → all is_suffix_byte (hex n) ≡ true
unfolding hex
all-hex n h = rw (hex_digit_suffix (n / 16) (omega arith), hex_digit_suffix (n % 16) (omega arith))

dash_suffix : (s : Bytes) → all is_suffix_byte (b'-' ∷ s) ≡ all is_suffix_byte s
unfolding is_suffix_byte
dash_suffix s = refl

-- The bytes of a formatted block, group by group.
groups : Block → Bytes
groups b =
    (hex b.b0 ++ hex b.b1 ++ hex b.b2 ++ hex b.b3)
    ++ b'-' ∷ (hex b.b4 ++ hex b.b5)
    ++ b'-' ∷ (hex b.b6 ++ hex b.b7)
    ++ b'-' ∷ (hex b.b8 ++ hex b.b9)
    ++ b'-' ∷ (hex b.b10 ++ hex b.b11 ++ hex b.b12 ++ hex b.b13 ++ hex b.b14 ++ hex b.b15)

groups-eq : (b : Block) → format_uuid b ≡ groups b
unfolding format_uuid groups
groups-eq b = refl

groups_suffix : (b : Block) → IsBlock b → all is_suffix_byte (groups b) ≡ true
unfolding groups
groups_suffix b v = simp (
  all-append,
  dash_suffix,
  all-hex b.b0 v.in0,
  all-hex b.b1 v.in1,
  all-hex b.b2 v.in2,
  all-hex b.b3 v.in3,
  all-hex b.b4 v.in4,
  all-hex b.b5 v.in5,
  all-hex b.b6 v.in6,
  all-hex b.b7 v.in7,
  all-hex b.b8 v.in8,
  all-hex b.b9 v.in9,
  all-hex b.b10 v.in10,
  all-hex b.b11 v.in11,
  all-hex b.b12 v.in12,
  all-hex b.b13 v.in13,
  all-hex b.b14 v.in14,
  all-hex b.b15 v.in15,
)

suffix_ascii : (s : Bytes) → all is_suffix_byte s ≡ true → any (λ c. ltb 127 c) s ≡ false
unfolding is_suffix_byte
suffix_ascii [] h = refl
suffix_ascii (c ∷ s) h = ground (arith, suffix_ascii s)

length-format_uuid : (b : Block) → length (format_uuid b) ≡ 36
unfolding format_uuid
length-format_uuid b = refl

bytes_eqb-nil : (s : Bytes) → 0 < length s → bytes_eqb s [] ≡ false
unfolding bytes_eqb
bytes_eqb-nil [] h = absurd (omega arith)
bytes_eqb-nil (x ∷ s) h = refl

-- An identifier made of a prefix and a nonempty suffix is valid when the whole is short enough and
-- every byte is as it must be.
pub validate-append :
    (p s : Bytes)
    → any (λ c. ltb 127 c) p ≡ false
    → length p + length s ≤ 160
    → 0 < length s
    → all is_suffix_byte s ≡ true
    → validate_opaque_id (p ++ s) p ≡ ok tt
unfolding validate_opaque_id
validate-append p s ascii short some_suffix suffix =
    let len = length-append p s in
    rw (bytes_eqb-nil (p ++ s) (omega (arith, len)), has_prefix-append p s, drop-append p s)
      (rw
        (
          any-append (ltb 127) p s,
          ascii,
          suffix_ascii s suffix,
          bytes_eqb-nil s some_suffix,
          suffix,
        )
        (ground (arith, len)))

-- NewOpaqueID never fails its own check: with random bytes at hand and an ASCII prefix of at most
-- 124 bytes, it returns the prefix followed by the 36 characters of the stamped block, which
-- ValidateOpaqueID accepts.
pub new_opaque_id-eq-ok :
    (b : Block) (p : Bytes)
    → IsBlock b
    → any (λ c. ltb 127 c) p ≡ false
    → length p ≤ 124
    → (new_opaque_id (some b) p ≡ ok (p ++ format_uuid (stamp b)))
      × (validate_opaque_id (p ++ format_uuid (stamp b)) p ≡ ok tt)
unfolding new_opaque_id
new_opaque_id-eq-ok b p v ascii short = (rw valid, valid)
  where
    valid : validate_opaque_id (p ++ format_uuid (stamp b)) p ≡ ok tt
    valid =
        validate-append p _ ascii (omega (arith, length-format_uuid (stamp b)))
          (omega (arith, length-format_uuid (stamp b)))
          (rw groups-eq (groups_suffix (stamp b) (stamp-IsBlock v)))
