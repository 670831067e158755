-- ===== src/Envelope.antt =====
-- internal/envelope/envelope.go: sensitive values sealed with AES-256-GCM, which is a parameter.
use subscription_bridge.Prelude.{
  suc, Bytes, bytes, not, [], ◌∷◌, ◌++◌, Option, none, some, ◌==◌, bytes_eq, if◌then◌else◌, ◌≡◌,
  refl, arith, bytes_eqb_refl, Option-cases, inl, inr,
}
use subscription_bridge.Protocol.Errors.{Result, ok, err, message, foreign}
use subscription_bridge.Protocol.Identifier.{Block}
use subscription_bridge.Store.World.{World, Act, pure, fail, lift, ◌>>=◌}

pub record Box : Type 0 where
  pub key : Bytes
  pub version : Bytes

-- A cipher in Galois counter mode: `Seal(nil, nonce, plaintext, aad)` and `Open`, `none` its error.
pub record Gcm : Type 0 where
  pub encrypt : Bytes → Bytes → Bytes → Bytes
  pub decrypt : Bytes → Bytes → Bytes → Option Bytes

-- `aes.NewCipher` and `cipher.NewGCM` of a key.
abbrev pub Aead : Type 0
Aead = Bytes → Result Gcm

pub record Sealed : Type 0 where
  pub ciphertext : Bytes
  pub nonce : Bytes
  pub key_version : Bytes

-- AAD
unfoldable pub aad : Bytes → Bytes → Bytes
aad purpose record_id = bytes "subscription-bridge/v1/" ++ purpose ++ bytes "/" ++ record_id

-- Twelve bytes of randomness, the size of a nonce.
abbrev pub nonce_of : Block → Bytes
nonce_of b =
    b.b0 ∷ b.b1 ∷ b.b2 ∷ b.b3 ∷ b.b4 ∷ b.b5 ∷ b.b6 ∷ b.b7 ∷ b.b8 ∷ b.b9 ∷ b.b10 ∷ b.b11 ∷ []

unfoldable pub new_nonce : Act Bytes
new_nonce w = (drawn (w.entropy w.reads), record w { reads = suc w.reads })
  where
    drawn : Option Block → Result Bytes
    drawn none = err (foreign (bytes "rand"))
    drawn (some b) = ok (nonce_of b)

module _ (aead : Aead) where
  -- Seal
  unfoldable pub seal : Box → Bytes → Bytes → Act Sealed
  seal box plain ad = do
    gcm ← lift (aead box.key)
    nonce ← new_nonce
    pure (record {
      ciphertext = gcm.encrypt nonce plain ad;
      nonce = nonce;
      key_version = box.version;
    })

  abbrev opened : Option Bytes → Act Bytes
  opened none = fail (message (bytes "envelope open failed"))
  opened (some plain) = pure plain

  -- Open
  unfoldable pub open_box : Box → Bytes → Bytes → Bytes → Bytes → Act Bytes
  open_box box ciphertext nonce ad key_version =
      if not (key_version == box.version)
      then fail (message (bytes "unknown encryption key version"))
      else do gcm ← lift (aead box.key); opened (gcm.decrypt nonce ciphertext ad)

-- What is sealed for a purpose and a record is opened again under the same purpose and record, with
-- the nonce and the key's version that were stored with it, if the cipher decrypts what it encrypted.
pub seal-open_box :
    (aead : Aead) (gcm : Gcm) (box : Box) (plain purpose id : Bytes) (s : Sealed) (w w' u : World)
    → aead box.key ≡ ok gcm
    → ((n p d : Bytes) → gcm.decrypt n (gcm.encrypt n p d) d ≡ some p)
    → seal aead box plain (aad purpose id) w ≡ (ok s, w')
    → open_box aead box s.ciphertext s.nonce (aad purpose id) s.key_version u ≡ (ok plain, u)
unfolding seal open_box new_nonce
seal-open_box aead gcm box plain purpose id s w w' u cipher law sealed =
    elim (Option-cases (w.entropy w.reads)) [
      | inl dry ↦ absurd (ground (arith, rw (cipher, dry, seal, new_nonce) at sealed))
      | inr (b, drawn) ↦
          let same : s ≡ record {
            ciphertext = gcm.encrypt (nonce_of b) plain (aad purpose id);
            nonce = nonce_of b;
            key_version = box.version;
          } =
            ground (arith, rw (cipher, drawn, seal, new_nonce) at sealed) in
          rw (same, cipher, bytes_eqb_refl box.version, law (nonce_of b) plain (aad purpose id))
            refl
    ]
