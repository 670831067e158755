-- ===== src/Protocol/Identifier.antt =====
-- internal/protocol/identifiers.go and the identifiers of internal/protocol/ids.go.
pub mod Opaque
use subscription_bridge.Prelude.{
  ℕ, zero, suc, ◌+◌, ◌/◌, ◌%◌, Bytes, bytes, Bool, true, false, ◌&&◌, ◌||◌, not, List, [], ◌∷◌,
  ◌++◌, map, Option, none, some, ltb, leb, ◌==◌, nat_eq, bytes_eq, length, any, all, if◌then◌else◌,
}
use subscription_bridge.Protocol.Errors.{
  Result, ok, err, of_protocol, foreign, invalid_identifier, ◌>>◌,
}

abbrev pub checkout_prefix : Bytes
checkout_prefix = bytes "subchk_"

abbrev pub subscription_prefix : Bytes
subscription_prefix = bytes "sub_"

abbrev pub event_prefix : Bytes
event_prefix = bytes "evt_"

abbrev pub max_identifier_length : ℕ
max_identifier_length = 160

-- strings.HasPrefix
unfoldable pub has_prefix : Bytes → Bytes → Bool
has_prefix value [] = true
has_prefix [] (p ∷ ps) = false
has_prefix (v ∷ vs) (p ∷ ps) = v == p && has_prefix vs ps

-- `value[n:]`
unfoldable pub drop : ℕ → Bytes → Bytes
drop zero value = value
drop (suc n) [] = []
drop (suc n) (v ∷ vs) = drop n vs

-- A byte of the class `[A-Za-z0-9_-]`
unfoldable pub is_suffix_byte : ℕ → Bool
is_suffix_byte c =
    (leb b'A' c && leb c b'Z')
    || (leb b'a' c && leb c b'z')
    || (leb b'0' c && leb c b'9')
    || c == b'_'
    || c == b'-'

-- ValidateOpaqueID
unfoldable pub validate_opaque_id : Bytes → Bytes → Result (Unit {0})
unfolding has_prefix drop is_suffix_byte
validate_opaque_id value prefix =
    if value == [] || not (has_prefix value prefix)
    then err (of_protocol invalid_identifier)
    else if ltb max_identifier_length (length value)
    then err (of_protocol invalid_identifier)
    else if any (λ c. ltb 127 c) value
    then err (of_protocol invalid_identifier)
    else if drop (length prefix) value == []
        || not (all is_suffix_byte (drop (length prefix) value))
    then err (of_protocol invalid_identifier)
    else ok tt

-- ValidateCheckoutID, ValidateSubscriptionRef, ValidateEventID
unfoldable pub validate_checkout_id : Bytes → Result (Unit {0})
validate_checkout_id id = validate_opaque_id id checkout_prefix

unfoldable pub validate_subscription_ref : Bytes → Result (Unit {0})
validate_subscription_ref id = validate_opaque_id id subscription_prefix

unfoldable pub validate_event_id : Bytes → Result (Unit {0})
validate_event_id id = validate_opaque_id id event_prefix

-- Sixteen bytes, as `rand.Read` fills them.
pub record Block : Type 0 where
  pub b0 : ℕ
  pub b1 : ℕ
  pub b2 : ℕ
  pub b3 : ℕ
  pub b4 : ℕ
  pub b5 : ℕ
  pub b6 : ℕ
  pub b7 : ℕ
  pub b8 : ℕ
  pub b9 : ℕ
  pub b10 : ℕ
  pub b11 : ℕ
  pub b12 : ℕ
  pub b13 : ℕ
  pub b14 : ℕ
  pub b15 : ℕ

-- The version and variant bits: `b[6] & 0x0f | 0x40` and `b[8] & 0x3f | 0x80`, where the bits that
-- are set were masked off, so that `|` adds.
unfoldable pub stamp : Block → Block
stamp b = record b { b6 = b.b6 % 16 + 64; b8 = b.b8 % 64 + 128 }

abbrev pub hex_digit : ℕ → ℕ
hex_digit n = if ltb n 10 then n + 48 else n + 87

-- hex.EncodeToString of one byte
unfoldable pub hex : ℕ → Bytes
hex b = hex_digit (b / 16) ∷ hex_digit (b % 16) ∷ []

-- hex.EncodeToString
unfoldable pub hex_all : Bytes → Bytes
unfolding hex
hex_all [] = []
hex_all (b ∷ bs) = hex b ++ hex_all bs

-- formatUUID
unfoldable pub format_uuid : Block → Bytes
unfolding hex
format_uuid b =
    (hex b.b0 ++ hex b.b1 ++ hex b.b2 ++ hex b.b3)
    ++ b'-' ∷ (hex b.b4 ++ hex b.b5)
    ++ b'-' ∷ (hex b.b6 ++ hex b.b7)
    ++ b'-' ∷ (hex b.b8 ++ hex b.b9)
    ++ b'-' ∷ (hex b.b10 ++ hex b.b11 ++ hex b.b12 ++ hex b.b13 ++ hex b.b14 ++ hex b.b15)

-- RandomClaimToken and UUIDString: `none` is a failed read of randomness.
unfoldable pub claim_token : Option Block → Result Bytes
unfolding stamp format_uuid
claim_token none = err (foreign (bytes "rand"))
claim_token (some b) = ok (format_uuid (stamp b))

-- NewOpaqueID
unfoldable pub new_opaque_id : Option Block → Bytes → Result Bytes
new_opaque_id none prefix = err (foreign (bytes "rand"))
new_opaque_id (some b) prefix =
    let id = prefix ++ format_uuid (stamp b) in validate_opaque_id id prefix >> ok id
