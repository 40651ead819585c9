-- ===== src/Registry/Trust/KeySet.antt =====
-- What `TrustedKeySet::from_base64` guarantees of the set that it returns.
use nvim_remote_mirror.Prelude.{
  ℕ, ◌≤◌, ◌≡◌, refl, sym, ◌∙◌, ap, ap₂, subst, false, ◌==◌, none, is_some, Option-cases, inl, inr,
  List, [], ◌∷◌, Text, length, is_empty, list_eq_iff, All, NotIn, Distinct, ◌>>◌, ok, ok-injective,
  >>=-eq-ok, map_err, fail_if, arith,
}
use nvim_remote_mirror.Registry.Crates.{Crates}
use nvim_remote_mirror.Registry.Signature.{validate_key_id, decode_canonical_base64}
use nvim_remote_mirror.Registry.Trust.{
  max_trusted_keys, get, too_many_keys, no_keys, duplicate_key_id, TrustedPublicKey, TrustedKeySet,
  sha256_hex, strong_key, insert_material, insert_keys, from_base64,
}

abbrev pub keys_of {ℓ} : {V : Type ℓ} → List (List ℕ × V) → List (List ℕ)
keys_of [] = []
keys_of (entry ∷ rest) = entry.0 ∷ keys_of rest

get-none :
    {V : Type 0} (key : List ℕ) (entries : List (List ℕ × V))
    → get key entries ≡ none
    → NotIn key (keys_of entries)
get-none key [] h = tt
get-none key (entry ∷ rest) h =
    (λ e. ground (arith, list_eq_iff entry.0 key), get-none key rest (ground arith))

module _ (c : Crates) where
  abbrev pub bytes_of : List (Text × TrustedPublicKey c) → List (List ℕ)
  bytes_of [] = []
  bytes_of (entry ∷ rest) = c.compress entry.1.verifying_key ∷ bytes_of rest

  pub record IsStrong (entry : Text × TrustedPublicKey c) : Type 0 where
    pub not_weak : c.is_weak entry.1.verifying_key ≡ false
    pub own_fingerprint : entry.1.fingerprint ≡ sha256_hex c (c.compress entry.1.verifying_key)

  pub record IsKeySet (keys : List (Text × TrustedPublicKey c)) : Type 0 where
    pub few : length keys ≤ max_trusted_keys
    pub distinct_ids : Distinct (keys_of keys)
    pub distinct_bytes : Distinct (bytes_of keys)
    pub strong : All IsStrong keys

  strong_key-eq-ok :
      (key_id : Text) (bytes : List ℕ) {key : c.VerifyingKey}
      → strong_key c key_id bytes ≡ ok key
      → (c.is_weak key ≡ false) × (c.compress key ≡ bytes)
  unfolding strong_key
  strong_key-eq-ok key_id bytes {key} h =
      (ground arith, ground (arith, list_eq_iff (c.compress key) bytes))

  insert_material-eq-ok :
      (bytes : List ℕ) (key_id : Text) (material : List (List ℕ × Text))
      {material' : List (List ℕ × Text)}
      → insert_material c bytes key_id material ≡ ok material'
      → NotIn bytes (keys_of material) × (keys_of material' ≡ bytes ∷ keys_of material)
  unfolding insert_material
  insert_material-eq-ok bytes key_id material h = elim (Option-cases (get bytes material)) [
    | inl e ↦ (get-none bytes material e, ground arith)
    | inr (first, e) ↦ absurd (ground arith)
  ]

  insert_keys-IsKeySet :
      (entries : List (Text × Text)) (keys : List (Text × TrustedPublicKey c))
      (material : List (List ℕ × Text)) {keys' : List (Text × TrustedPublicKey c)}
      → IsKeySet keys
      → keys_of material ≡ bytes_of keys
      → insert_keys c entries keys material ≡ ok keys'
      → IsKeySet keys'
  unfolding insert_keys
  insert_keys-IsKeySet [] keys material {keys'} v m h = subst IsKeySet (ok-injective keys keys' h) v
  insert_keys-IsKeySet (entry ∷ rest) keys material v m h =
      let (u₁, few, h₁) =
        >>=-eq-ok (fail_if (length keys == max_trusted_keys) (too_many_keys max_trusted_keys)) _
          h in
      let (u₂, valid, h₂) = >>=-eq-ok (map_err _ (validate_key_id entry.0)) _ h₁ in
      let (u₃, new, h₃) =
        >>=-eq-ok (fail_if (is_some (get entry.0 keys)) (duplicate_key_id entry.0)) _ h₂ in
      let (bytes, decoded, h₄) =
        >>=-eq-ok (map_err _ (decode_canonical_base64 c 32 entry.1)) _ h₃ in
      let (key, strong, h₅) = >>=-eq-ok (strong_key c entry.0 bytes) _ h₄ in
      let (material', inserted, h₆) = >>=-eq-ok (insert_material c bytes entry.0 material) _ h₅ in
      let (not_weak, canonical) = strong_key-eq-ok entry.0 bytes strong in
      let (new_bytes, grown) = insert_material-eq-ok bytes entry.0 material inserted in
      insert_keys-IsKeySet rest _ material'
        (record {
          few = ground (arith, v.few);
          distinct_ids = (get-none entry.0 keys (ground arith), v.distinct_ids);
          distinct_bytes = (
            subst (λ b. NotIn b (bytes_of keys)) (sym canonical) (subst (NotIn bytes) m new_bytes),
            v.distinct_bytes,
          );
          strong = (
            record { not_weak = not_weak; own_fingerprint = ap (sha256_hex c) (sym canonical) },
            v.strong,
          );
        })
        (grown ∙ ap₂ (λ b bs. b ∷ bs) (sym canonical) m) h₆

  finished :
      (keys : List (Text × TrustedPublicKey c)) {trusted : TrustedKeySet c}
      → (fail_if (is_empty keys) no_keys >> ok (record { keys = keys })) ≡ ok trusted
      → keys ≡ trusted.keys
  finished keys h = ground arith

  -- A set of trusted keys that is accepted has from 1 to `MAX_TRUSTED_KEYS` keys, of different key
  -- IDs and of different public keys; no key is weak, and each fingerprint is the SHA-256 of the
  -- bytes of its public key.
  pub from_base64-IsKeySet :
      (entries : List (Text × Text)) {trusted : TrustedKeySet c}
      → from_base64 c entries ≡ ok trusted
      → (is_empty trusted.keys ≡ false) × IsKeySet trusted.keys
  unfolding from_base64
  from_base64-IsKeySet entries {trusted} h =
      let (keys, inserted, h₁) = >>=-eq-ok (insert_keys c entries [] []) _ h in
      let empty : IsKeySet [] = record {
        few = ground arith;
        distinct_ids = tt;
        distinct_bytes = tt;
        strong = tt;
      } in
      let v = insert_keys-IsKeySet entries [] [] empty refl inserted in
      (ground arith, subst IsKeySet (finished keys h₁) v)
