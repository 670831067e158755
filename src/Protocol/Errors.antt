-- ===== src/Protocol/Errors.antt =====
-- The errors of internal/protocol/errors.go, internal/store/store.go and internal/engine/engine.go.
-- An error that wraps one of these (`fmt.Errorf("%w: …")`) is the error that it wraps, which is all
-- that `errors.Is` reads.
use subscription_bridge.Prelude.{Bytes, ◌≡◌, refl, ◌⊎◌, inl, inr}

pub data ProtocolError : Type 0 where
  invalid_identifier invalid_plan_id invalid_json unknown_field duplicate_field : ProtocolError
  missing_field trailing_json invalid_timestamp invalid_token invalid_signature : ProtocolError
  expired_token replay_window invalid_pairing_root invalid_url invalid_event_status : ProtocolError
  invalid_status invalid_event_type identity_field unsupported_version : ProtocolError
  invalid_protocol unordered_period cancel_flag_mismatch body_too_large : ProtocolError
  checkout_conflict checkout_terminal unknown_plan not_found stale_fence : ProtocolError
  provider_managed automatic_charge_blocked fail_closed : ProtocolError

pub data StoreError : Type 0 where
  not_found conflict not_owned schema_mismatch checkout_binding : StoreError

-- `panic` is no error value but a panic: it ends the call it stands in, and its callers.
-- `foreign` is any error of a package that the program calls, such as a failed read of randomness.
pub data Error : Type 0 where
  of_protocol : ProtocolError → Error
  of_store : StoreError → Error
  unknown_stripe_price manual_review : Error
  message : Bytes → Error
  panic : Bytes → Error
  foreign : Bytes → Error

-- A function that returns a value and an `error`.
pub data Result {ℓ} (A : Type ℓ) : Type ℓ where
  ok : A → Result A
  err : Error → Result A

infixl 5 ◌>>=◌ ◌>>◌
abbrev pub ◌>>=◌ {ℓ κ} : {A : Type ℓ} {B : Type κ} → Result A → (A → Result B) → Result B
err e >>= k = err e
ok a >>= k = k a

abbrev pub ◌>>◌ {ℓ} : {B : Type ℓ} → Result (Unit {0}) → Result B → Result B
first >> then_ = first >>= λ _. then_

pub Result-cases {ℓ} :
    {A : Type ℓ} (r : Result A) → ((a : A) × (r ≡ ok a)) ⊎ ((e : Error) × (r ≡ err e))
Result-cases (ok a) = inl (a, refl)
Result-cases (err e) = inr (e, refl)
