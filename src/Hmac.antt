-- ===== src/Hmac.antt =====
-- The signature header of a callback: internal/hmac/header.go and `Sign` of internal/hmac/keys.go,
-- with CanonicalUnix of internal/protocol/time.go. HMAC-SHA256 is a parameter.
use subscription_bridge.Prelude.{
  ℕ, zero, suc, ◌+◌, ◌/◌, ◌%◌, ◌-◌, Bytes, bytes, [], ◌∷◌, ◌++◌, ℤ, pos, negsuc, ltb, leb,
  if◌then◌else◌,
}
use subscription_bridge.Protocol.Errors.{Result, ok, err, of_protocol, invalid_timestamp, ◌>>=◌}
use subscription_bridge.Protocol.Clock.{Time, second}
use subscription_bridge.Protocol.Identifier.{hex_all}

-- Seconds from Go's zero time to the Unix epoch.
abbrev pub unix_epoch : ℕ
unix_epoch = 62135596800

-- time.Time.Unix
unfoldable pub unix : Time → ℤ
unix t =
    let s = t / second in
    if leb unix_epoch s then pos (s - unix_epoch) else negsuc (unix_epoch - suc s)

-- strconv.FormatInt of a number that is not negative; a number has no more digits than itself plus one.
digits : ℕ → ℕ → Bytes → Bytes
digits zero n rest = rest
digits (suc fuel) n rest =
    let longer = digits fuel (n / 10) ((n % 10 + 48) ∷ rest) in
    if ltb n 10 then (n % 10 + 48) ∷ rest else longer

unfoldable pub decimal : ℕ → Bytes
unfolding digits
decimal n = digits (suc n) n []

-- CanonicalUnix
unfoldable pub canonical_unix : ℤ → Result Bytes
canonical_unix (pos n) = ok (decimal n)
canonical_unix (negsuc n) = err (of_protocol invalid_timestamp)

module _ (mac : Bytes → Bytes → Bytes) where
  -- Sign
  unfoldable pub sign : Bytes → Bytes → Bytes
  sign key message = hex_all (mac key message)

  -- CallbackHeader
  unfoldable pub callback_header : Bytes → ℤ → Bytes → Result Bytes
  callback_header key ts body = do
    at ← canonical_unix ts
    ok (bytes "t=" ++ at ++ bytes ",v1=" ++ sign key (at ++ bytes "." ++ body))

  -- SignCallback
  unfoldable pub sign_callback : Bytes → Time → Bytes → Result Bytes
  sign_callback key now body = callback_header key (unix now) body
