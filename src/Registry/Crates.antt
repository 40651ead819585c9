-- ===== src/Registry/Crates.antt =====
-- The crates that crates/nrm-registry/src/core.rs calls, as parameters: semver, serde_json at the
-- two documents, base64, ed25519-dalek and sha2. The laws are what the code relies on.
use nvim_remote_mirror.Prelude.{ℕ, Bool, true, Option, List, Text, ◌≡◌, ◌↔◌, Result}

pub record RawArtifact : Type 0 where
  pub target : Text
  pub filename : Text
  pub sha256 : Text
  pub size : ℕ

pub record RawManifest : Type 0 where
  pub schema_version : ℕ
  pub package_name : Text
  pub version : Text
  pub protocol_version : ℕ
  pub source_commit : Text
  pub artifacts : List RawArtifact

pub record RawSignature : Type 0 where
  pub key_id : Text
  pub signature : Text

pub record RawSignatureDocument : Type 0 where
  pub schema_version : ℕ
  pub signatures : List RawSignature

pub record Crates : Type 1 where
  -- `semver::Version`, its parser, `Display` and `PartialEq`
  pub Version : Type 0
  pub SemverError : Type 0
  pub parse : Text → Result SemverError Version
  pub to_string : Version → Text
  pub version_eq : Version → Version → Bool
  pub version_eq_iff : (v w : Version) → (version_eq v w ≡ true) ↔ (v ≡ w)
  -- `serde_json::from_slice`
  pub JsonError : Type 0
  pub manifest_from_slice : List ℕ → Result JsonError RawManifest
  pub signatures_from_slice : List ℕ → Result JsonError RawSignatureDocument
  -- `base64::engine::general_purpose::STANDARD`
  pub decode : Text → Option (List ℕ)
  pub encode : List ℕ → Text
  -- `ed25519_dalek::VerifyingKey`, `to_edwards().compress().to_bytes()` in one function, and
  -- `verify_strict(..).is_ok()` of the bytes of a signature
  pub VerifyingKey : Type 0
  pub from_bytes : List ℕ → Option VerifyingKey
  pub is_weak : VerifyingKey → Bool
  pub compress : VerifyingKey → List ℕ
  pub verify_strict : VerifyingKey → List ℕ → List ℕ → Bool
  -- `Sha256::digest`
  pub digest : List ℕ → List ℕ
