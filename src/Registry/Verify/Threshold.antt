-- ===== src/Registry/Verify/Threshold.antt =====
-- What `verify_manifest` guarantees of the manifest that it returns.
use nvim_remote_mirror.Prelude.{
  ℕ, ok-injective, ◌||◌, ◌==◌, ◌≤◌, ◌≡◌, refl, subst, true, Option, none, some, List, [], ◌∷◌, Text,
  length, All, NotIn, Distinct, ok, >>=-eq-ok, map_err, map_err-eq-ok, fail_if, ltb, Bool-cases,
  inl, inr, arith,
}
use nvim_remote_mirror.Registry.Crates.{Crates}
use nvim_remote_mirror.Registry.Manifest.{ManifestError, manifest_max_bytes, parse_manifest}
use nvim_remote_mirror.Registry.Manifest.Accepted.{IsManifest, parse_manifest-IsManifest}
use nvim_remote_mirror.Registry.Signature.{DetachedSignature, parse_signature_document}
use nvim_remote_mirror.Registry.Signature.Keys.{key_ids_of, parse_signature_document-Distinct}
use nvim_remote_mirror.Registry.Trust.{TrustedPublicKey, TrustedKeySet, get, sha256_hex}
use nvim_remote_mirror.Registry.Verify.{
  VerifiedSigner, VerifiedManifest, VerificationError, push_signer, verified_signers_of,
  verify_manifest,
}

abbrev pub signer_ids : List VerifiedSigner → List Text
signer_ids [] = []
signer_ids (signer ∷ rest) = signer.key_id ∷ signer_ids rest

module _ (c : Crates) (manifest_bytes : List ℕ) (keys : TrustedKeySet c) where
  -- The signer is a trusted key under which some signature verifies for the bytes of the manifest.
  pub record IsSigner (signer : VerifiedSigner) : Type 0 where
    pub trusted : TrustedPublicKey c
    pub found : get signer.key_id keys.keys ≡ some trusted
    pub same_fingerprint : signer.fingerprint ≡ trusted.fingerprint
    pub signature : List ℕ
    pub verifies : c.verify_strict trusted.verifying_key manifest_bytes signature ≡ true

  pub record IsVerified (threshold : ℕ) (version : c.Version) (protocol : ℕ)
      (v : VerifiedManifest c) : Type 0 where
    pub threshold_positive : 1 ≤ threshold
    pub threshold_possible : threshold ≤ length keys.keys
    pub enough : threshold ≤ length v.verified_signers
    pub distinct_signers : Distinct (signer_ids v.verified_signers)
    pub signed : All IsSigner v.verified_signers
    pub same_bytes : parse_manifest c manifest_bytes version protocol ≡ ok v.manifest
    pub good_manifest : IsManifest c version protocol v.manifest
    pub hashed : v.manifest_sha256 ≡ sha256_hex c manifest_bytes

  abbrev signer_of : DetachedSignature → TrustedPublicKey c → VerifiedSigner
  signer_of detached trusted = record {
    key_id = detached.key_id;
    fingerprint = trusted.fingerprint;
  }

  -- What holds of the later signers and of a signer in front of them holds of what is pushed.
  push_signer_by_cases :
      (P : List VerifiedSigner → Type 0) (detached : DetachedSignature)
      (found : Option (TrustedPublicKey c)) (later : List VerifiedSigner)
      → P later
      → ((trusted : TrustedPublicKey c)
          → found ≡ some trusted
          → c.verify_strict trusted.verifying_key manifest_bytes detached.signature ≡ true
          → P (signer_of detached trusted ∷ later))
      → P (push_signer c manifest_bytes detached found later)
  unfolding push_signer
  push_signer_by_cases P detached none later p q = p
  push_signer_by_cases P detached (some trusted) later p q =
      let tested = c.verify_strict trusted.verifying_key manifest_bytes detached.signature in
      elim (Bool-cases tested) [ inl e ↦ rw e (q trusted refl e) | inr e ↦ rw e p ]

  verified_signers_of-IsSigner :
      (signatures : List DetachedSignature)
      → All IsSigner (verified_signers_of c manifest_bytes keys signatures)
  unfolding verified_signers_of
  verified_signers_of-IsSigner [] = tt
  verified_signers_of-IsSigner (detached ∷ rest) =
      let later = verified_signers_of c manifest_bytes keys rest in
      let signed = verified_signers_of-IsSigner rest in
      push_signer_by_cases (All IsSigner) detached (get detached.key_id keys.keys) later signed
        (λ trusted e verifies. (
          record {
            trusted = trusted;
            found = e;
            same_fingerprint = refl;
            signature = detached.signature;
            verifies = verifies;
          },
          signed,
        ))

  verified_signers_of-NotIn :
      (key_id : Text) (signatures : List DetachedSignature)
      → NotIn key_id (key_ids_of signatures)
      → NotIn key_id (signer_ids (verified_signers_of c manifest_bytes keys signatures))
  unfolding verified_signers_of
  verified_signers_of-NotIn key_id [] n = tt
  verified_signers_of-NotIn key_id (detached ∷ rest) n =
      let later = verified_signers_of c manifest_bytes keys rest in
      let new = verified_signers_of-NotIn key_id rest n.1 in
      push_signer_by_cases (λ signers. NotIn key_id (signer_ids signers)) detached
        (get detached.key_id keys.keys) later new (λ trusted e verifies. (n.0, new))

  verified_signers_of-Distinct :
      (signatures : List DetachedSignature)
      → Distinct (key_ids_of signatures)
      → Distinct (signer_ids (verified_signers_of c manifest_bytes keys signatures))
  unfolding verified_signers_of
  verified_signers_of-Distinct [] d = tt
  verified_signers_of-Distinct (detached ∷ rest) d =
      let later = verified_signers_of c manifest_bytes keys rest in
      let distinct = verified_signers_of-Distinct rest d.1 in
      push_signer_by_cases (λ signers. Distinct (signer_ids signers)) detached
        (get detached.key_id keys.keys) later distinct
        (λ trusted e verifies. (verified_signers_of-NotIn detached.key_id rest d.0, distinct))

  -- A manifest is returned as verified only if the threshold is from 1 to the number of the trusted
  -- keys, and there are at least so many signers, of different key IDs, each a trusted key under
  -- which a signature verifies for the very bytes that are then parsed; the manifest is the one
  -- parsed from these bytes, is well formed and of the version and the protocol asked for, and the
  -- SHA-256 is that of these bytes.
  pub verify_manifest-IsVerified :
      (document_bytes : List ℕ) (threshold : ℕ) (version : c.Version) (protocol : ℕ)
      {v : VerifiedManifest c}
      → verify_manifest c manifest_bytes document_bytes keys threshold version protocol ≡ ok v
      → IsVerified threshold version protocol v
  unfolding verify_manifest
  verify_manifest-IsVerified document_bytes threshold version protocol {v} h =
      let (u, possible, h₁) =
        >>=-eq-ok
          (fail_if (threshold == 0 || ltb (length keys.keys) threshold)
            (VerificationError.invalid_threshold threshold (length keys.keys)))
          _ h in
      let (u₁, small, h₂) =
        >>=-eq-ok
          (fail_if (ltb manifest_max_bytes (length manifest_bytes)) (
            VerificationError.manifest
              (ManifestError.too_large (length manifest_bytes) manifest_max_bytes)))
          _ h₁ in
      let (document, read, h₃) =
        >>=-eq-ok
          (map_err VerificationError.signature_document (parse_signature_document c document_bytes))
          _ h₂ in
      let signers = verified_signers_of c manifest_bytes keys document.signatures in
      let (u₃, enough, h₄) =
        >>=-eq-ok
          (fail_if (ltb (length signers) threshold)
            (VerificationError.insufficient_signatures threshold (length signers)))
          _ h₃ in
      let (accepted, parsed, h₅) =
        >>=-eq-ok
          (map_err VerificationError.manifest (parse_manifest c manifest_bytes version protocol)) _
          h₄ in
      let same = map_err-eq-ok VerificationError.manifest _ parsed in
      let returned : VerifiedManifest c = record {
        manifest = accepted;
        manifest_sha256 = sha256_hex c manifest_bytes;
        verified_signers = signers;
      } in
      subst (IsVerified threshold version protocol) (ok-injective returned v h₅) (record {
        threshold_positive = ground arith;
        threshold_possible = ground arith;
        enough = ground arith;
        distinct_signers = verified_signers_of-Distinct document.signatures (
            parse_signature_document-Distinct c document_bytes
              (map_err-eq-ok VerificationError.signature_document _ read));
        signed = verified_signers_of-IsSigner document.signatures;
        same_bytes = same;
        good_manifest = (parse_manifest-IsManifest c manifest_bytes version protocol same).1;
        hashed = refl;
      })
