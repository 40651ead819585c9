-- ===== src/Registry/Trust.antt =====
-- `TrustedKeySet::from_base64` and `sha256_hex` of crates/nrm-registry/src/core.rs. A `BTreeMap` is
-- the list of its entries, the last inserted first.
pub mod KeySet
use nvim_remote_mirror.Prelude.{
  ℕ, ◌+◌, ◌-◌, ◌/◌, ◌%◌, Bool, true, not, ◌||◌, Option, none, some, is_some, List, [], ◌∷◌, ◌++◌,
  Text, length, is_empty, list_eq, Result, ok, err, fail_if, map_err, ◌>>=◌, ◌>>◌, ltb, ◌==◌,
  if◌then◌else◌,
}
use nvim_remote_mirror.Registry.Crates.{Crates}
use nvim_remote_mirror.Registry.Signature.{validate_key_id, decode_canonical_base64}

abbrev pub max_trusted_keys : ℕ
max_trusted_keys = 32

-- `{byte:02x}`
abbrev hex_digit : ℕ → ℕ
hex_digit n = if ltb n 10 then b'0' + n else b'a' + (n - 10)

abbrev pub hex : List ℕ → Text
hex [] = []
hex (byte ∷ rest) = hex_digit (byte / 16) ∷ hex_digit (byte % 16) ∷ hex rest

-- `BTreeMap::get`
abbrev pub get {ℓ} : {V : Type ℓ} → List ℕ → List (List ℕ × V) → Option V
get key [] = none
get key (entry ∷ rest) = if list_eq entry.0 key then some entry.1 else get key rest

pub data TrustError : Type 0 where
  no_keys : TrustError
  too_many_keys : ℕ → TrustError
  invalid_key_id : Text → TrustError
  duplicate_key_id : Text → TrustError
  duplicate_key_material : Text → Text → TrustError
  invalid_public_key_encoding : Text → TrustError
  invalid_public_key : Text → TrustError

module _ (c : Crates) where
  pub record TrustedPublicKey : Type 0 where
    pub verifying_key : c.VerifyingKey
    pub fingerprint : Text

  pub record TrustedKeySet : Type 0 where
    pub keys : List (Text × TrustedPublicKey)

  unfoldable pub sha256_hex : List ℕ → Text
  sha256_hex bytes = hex (c.digest bytes)

  -- `VerifyingKey::from_bytes` and the test behind it
  unfoldable pub strong_key : Text → List ℕ → Result TrustError c.VerifyingKey
  strong_key key_id bytes = elim (c.from_bytes bytes) [
    | none ↦ err (invalid_public_key key_id)
    | some key ↦
        fail_if (c.is_weak key || not (list_eq (c.compress key) bytes)) (invalid_public_key key_id)
        >> ok key
  ]

  -- `key_material.insert(bytes, ..)`, an error where it had the bytes
  unfoldable pub insert_material :
      List ℕ → Text → List (List ℕ × Text) → Result TrustError (List (List ℕ × Text))
  insert_material bytes key_id key_material = elim (get bytes key_material) [
    | none ↦ ok ((bytes, key_id) ∷ key_material)
    | some first_key_id ↦ err (duplicate_key_material first_key_id key_id)
  ]

  -- The loop over the entries, from the keys and the key material so far.
  unfoldable pub insert_keys :
      List (Text × Text)
      → List (Text × TrustedPublicKey)
      → List (List ℕ × Text)
      → Result TrustError (List (Text × TrustedPublicKey))
  unfolding strong_key insert_material sha256_hex
  insert_keys [] keys key_material = ok keys
  insert_keys (entry ∷ rest) keys key_material = do
    fail_if (length keys == max_trusted_keys) (too_many_keys max_trusted_keys)
    map_err (λ _. invalid_key_id entry.0) (validate_key_id entry.0)
    fail_if (is_some (get entry.0 keys)) (duplicate_key_id entry.0)
    bytes ←
        map_err (λ _. invalid_public_key_encoding entry.0) (decode_canonical_base64 c 32 entry.1)
    verifying_key ← strong_key entry.0 bytes
    material ← insert_material bytes entry.0 key_material
    insert_keys rest
        ((entry.0, record { verifying_key = verifying_key; fingerprint = sha256_hex bytes }) ∷ keys)
        material

  unfoldable pub from_base64 : List (Text × Text) → Result TrustError TrustedKeySet
  unfolding insert_keys
  from_base64 entries = do
    keys ← insert_keys entries [] []
    fail_if (is_empty keys) no_keys
    ok (record { keys = keys })
