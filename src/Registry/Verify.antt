-- ===== src/Registry/Verify.antt =====
-- `verify_manifest` of crates/nrm-registry/src/core.rs. `?` on the errors of the two documents is
-- `From` of `VerificationError`.
pub mod Threshold
pub mod PublicKeys
use nvim_remote_mirror.Prelude.{
  ℕ, Bool, not, ◌||◌, Option, none, some, List, [], ◌∷◌, Text, length, Result, ok, err, fail_if,
  map_err, ◌>>=◌, ◌>>◌, ltb, ◌==◌, if◌then◌else◌,
}
use nvim_remote_mirror.Registry.Crates.{Crates}
use nvim_remote_mirror.Registry.Manifest.{
  Manifest, ManifestError, manifest_max_bytes, parse_manifest,
}
use nvim_remote_mirror.Registry.Signature.{
  DetachedSignature, SignatureError, parse_signature_document,
}
use nvim_remote_mirror.Registry.Trust.{TrustedPublicKey, TrustedKeySet, get, sha256_hex}

pub record VerifiedSigner : Type 0 where
  pub key_id : Text
  pub fingerprint : Text

module _ (c : Crates) where
  pub record VerifiedManifest : Type 0 where
    pub manifest : Manifest c
    pub manifest_sha256 : Text
    pub verified_signers : List VerifiedSigner

  pub data VerificationError : Type 0 where
    signature_document : SignatureError c.JsonError → VerificationError
    invalid_threshold : ℕ → ℕ → VerificationError
    insufficient_signatures : ℕ → ℕ → VerificationError
    manifest : ManifestError c → VerificationError

module _ (c : Crates) where
  -- The body of the loop over the signatures: what it pushes in front of the later signers.
  unfoldable pub push_signer :
      List ℕ
      → DetachedSignature
      → Option (TrustedPublicKey c)
      → List VerifiedSigner
      → List VerifiedSigner
  push_signer manifest_bytes detached none later = later
  push_signer manifest_bytes detached (some trusted) later =
      if c.verify_strict trusted.verifying_key manifest_bytes detached.signature
      then record { key_id = detached.key_id; fingerprint = trusted.fingerprint } ∷ later
      else later

  unfoldable pub verified_signers_of :
      List ℕ → TrustedKeySet c → List DetachedSignature → List VerifiedSigner
  unfolding push_signer
  verified_signers_of manifest_bytes trusted_keys [] = []
  verified_signers_of manifest_bytes trusted_keys (detached ∷ rest) =
      push_signer manifest_bytes detached (get detached.key_id trusted_keys.keys)
        (verified_signers_of manifest_bytes trusted_keys rest)

  unfoldable pub verify_manifest :
      List ℕ
      → List ℕ
      → TrustedKeySet c
      → ℕ
      → c.Version
      → ℕ
      → Result (VerificationError c) (VerifiedManifest c)
  unfolding verified_signers_of
  verify_manifest manifest_bytes document_bytes trusted_keys threshold version protocol = do
    fail_if (threshold == 0 || ltb (length trusted_keys.keys) threshold)
        (VerificationError.invalid_threshold threshold (length trusted_keys.keys))
    fail_if (ltb manifest_max_bytes (length manifest_bytes)) (
        VerificationError.manifest
          (ManifestError.too_large (length manifest_bytes) manifest_max_bytes))
    document ←
        map_err VerificationError.signature_document (parse_signature_document c document_bytes)
    let verified_signers = verified_signers_of manifest_bytes trusted_keys document.signatures
    fail_if (ltb (length verified_signers) threshold)
        (VerificationError.insufficient_signatures threshold (length verified_signers))
    accepted ← map_err VerificationError.manifest (parse_manifest c manifest_bytes version protocol)
    ok (record {
      manifest = accepted;
      manifest_sha256 = sha256_hex c manifest_bytes;
      verified_signers = verified_signers;
    })
