-- ===== src/Registry/Verify/PublicKeys.antt =====
-- The signers of a verified manifest hold different public keys.
use nvim_remote_mirror.Prelude.{
  ℕ, ◌≤◌, ◌≡◌, refl, sym, ◌∙◌, ap, ◌≢◌, subst, true, Option, none, some, List, [], ◌∷◌, Text,
  length, list_eq, list_eq_iff, All, NotIn, Distinct, ok, Bool-cases, inl, inr, arith,
}
use nvim_remote_mirror.Registry.Crates.{Crates}
use nvim_remote_mirror.Registry.Trust.{TrustedPublicKey, TrustedKeySet, get, from_base64}
use nvim_remote_mirror.Registry.Trust.KeySet.{bytes_of, from_base64-IsKeySet}
use nvim_remote_mirror.Registry.Verify.{VerifiedSigner, VerifiedManifest, verify_manifest}
use nvim_remote_mirror.Registry.Verify.Threshold.{signer_ids, IsSigner, verify_manifest-IsVerified}

module _ (c : Crates) where
  abbrev key_bytes : Option (TrustedPublicKey c) → List ℕ
  key_bytes none = []
  key_bytes (some trusted) = c.compress trusted.verifying_key

  -- The public keys of signers, as the set has them.
  abbrev pub public_keys_of : TrustedKeySet c → List VerifiedSigner → List (List ℕ)
  public_keys_of keys [] = []
  public_keys_of keys (signer ∷ rest) =
      key_bytes (get signer.key_id keys.keys) ∷ public_keys_of keys rest

  length-public_keys_of :
      (keys : TrustedKeySet c) (signers : List VerifiedSigner)
      → length (public_keys_of keys signers) ≡ length signers
  length-public_keys_of keys [] = refl
  length-public_keys_of keys (signer ∷ rest) = omega (arith, length-public_keys_of keys rest)

  get_first :
      (entry : Text × TrustedPublicKey c) (rest : List (Text × TrustedPublicKey c)) (k : Text)
      (t : TrustedPublicKey c)
      → list_eq entry.0 k ≡ true
      → get k (entry ∷ rest) ≡ some t
      → c.compress entry.1.verifying_key ≡ c.compress t.verifying_key
  get_first entry rest k t same h = ap (λ x. key_bytes x) found
    where
      found : some entry.1 ≡ some t
      found = rw same at h

  get-NotIn :
      (bytes k : List ℕ) (keys : List (Text × TrustedPublicKey c)) (t : TrustedPublicKey c)
      → NotIn bytes (bytes_of c keys)
      → get k keys ≡ some t
      → bytes ≢ c.compress t.verifying_key
  get-NotIn bytes k [] t n h e = cc
  get-NotIn bytes k (entry ∷ rest) t n h e = elim (Bool-cases (list_eq entry.0 k)) [
    | inl same ↦ n.0 (e ∙ sym (get_first entry rest k t same h))
    | inr other ↦ get-NotIn bytes k rest t n.1 (ground arith) e
  ]

  -- Different key IDs have different public keys, where the public keys are distinct.
  get_apart :
      (k l : List ℕ) (keys : List (Text × TrustedPublicKey c)) (t u : TrustedPublicKey c)
      → Distinct (bytes_of c keys)
      → k ≢ l
      → get k keys ≡ some t
      → get l keys ≡ some u
      → c.compress t.verifying_key ≢ c.compress u.verifying_key
  get_apart k l [] t u d n h g e = cc
  get_apart k l (entry ∷ rest) t u d n h g e =
      let bytes = c.compress entry.1.verifying_key in
      elim (Bool-cases (list_eq entry.0 k)) [
        | inl first ↦ elim (Bool-cases (list_eq entry.0 l)) [
          | inl second ↦
              n (sym ((list_eq_iff entry.0 k).0 first) ∙ (list_eq_iff entry.0 l).0 second)
          | inr other ↦
              get-NotIn bytes l rest u d.0 (ground arith) (get_first entry rest k t first h ∙ e)
        ]
        | inr other ↦ elim (Bool-cases (list_eq entry.0 l)) [
          | inl second ↦
              get-NotIn bytes k rest t d.0 (ground arith)
                (get_first entry rest l u second g ∙ sym e)
          | inr other' ↦ get_apart k l rest t u d.1 n (ground arith) (ground arith) e
        ]
      ]

  module _ (bytes : List ℕ) (keys : TrustedKeySet c) (d : Distinct (bytes_of c keys.keys)) where
    apart_from :
        (signer : VerifiedSigner) (others : List VerifiedSigner)
        → IsSigner c bytes keys signer
        → All (IsSigner c bytes keys) others
        → NotIn signer.key_id (signer_ids others)
        → NotIn (key_bytes (get signer.key_id keys.keys)) (public_keys_of keys others)
    apart_from signer [] v vs n = tt
    apart_from signer (other ∷ others) v vs n = (
      λ e.
          get_apart signer.key_id other.key_id keys.keys v.trusted vs.0.trusted d n.0 v.found
            vs.0.found (sym (ap key_bytes v.found) ∙ (e ∙ ap key_bytes vs.0.found)),
      apart_from signer others v vs.1 n.1,
    )

    public_keys_of-Distinct :
        (signers : List VerifiedSigner)
        → All (IsSigner c bytes keys) signers
        → Distinct (signer_ids signers)
        → Distinct (public_keys_of keys signers)
    public_keys_of-Distinct [] vs n = tt
    public_keys_of-Distinct (signer ∷ rest) vs n =
        (apart_from signer rest vs.0 vs.1 n.0, public_keys_of-Distinct rest vs.1 n.1)

  -- With a key set that `from_base64` accepted, a manifest is returned as verified only with at least
  -- as many signers as the threshold, whose public keys are all different.
  pub verify_manifest-Distinct :
      (entries : List (Text × Text)) (keys : TrustedKeySet c) (bytes document_bytes : List ℕ)
      (threshold : ℕ) (version : c.Version) (protocol : ℕ) {v : VerifiedManifest c}
      → from_base64 c entries ≡ ok keys
      → verify_manifest c bytes document_bytes keys threshold version protocol ≡ ok v
      → (threshold ≤ length (public_keys_of keys v.verified_signers))
        × Distinct (public_keys_of keys v.verified_signers)
  verify_manifest-Distinct entries keys bytes document_bytes threshold version protocol {v} k h =
      let w = verify_manifest-IsVerified c bytes keys document_bytes threshold version protocol h in
      let d = (from_base64-IsKeySet c entries k).1.distinct_bytes in
      (
        subst (λ n. threshold ≤ n) (sym (length-public_keys_of keys v.verified_signers)) w.enough,
        public_keys_of-Distinct bytes keys d v.verified_signers w.signed w.distinct_signers,
      )
