-- ===== src/Registry/Tests.antt =====
-- crates/nrm-registry/src/core.rs at concrete inputs, with the crates it calls replaced by functions
-- that keep texts and keys as they are.
use nvim_remote_mirror.Prelude.{
  ℕ, zero, suc, ◌≤◌, Distinct, ◌≡◌, refl, false, some, List, [], ◌∷◌, Text, length, take, is_empty,
  list_eq, list_eq_iff, codes, ok, arith,
}
use nvim_remote_mirror.Registry.Crates.{Crates, RawArtifact, RawManifest, RawSignatureDocument}
use nvim_remote_mirror.Registry.Target.{
  x86_64_unknown_linux_musl, aarch64_pc_windows_msvc, as_str, is_windows, find_named, from_str,
  target_eq, artifact_filename,
}
use nvim_remote_mirror.Registry.Manifest.{
  Manifest, manifest_max_bytes, target_of, check_artifact, check_artifacts, check_manifest,
  parse_manifest,
}
use nvim_remote_mirror.Registry.Manifest.Accepted.{IsManifest, parse_manifest-IsManifest}
use nvim_remote_mirror.Registry.Manifest.RoundTrip.{raw_manifest, parse_manifest-raw_manifest}
use nvim_remote_mirror.Registry.Signature.{
  validate_key_id, decode_canonical_base64, check_signatures, parse_signature_document,
}
use nvim_remote_mirror.Registry.Trust.{
  TrustedKeySet, sha256_hex, strong_key, insert_material, insert_keys, from_base64,
}
use nvim_remote_mirror.Registry.Trust.KeySet.{IsKeySet, from_base64-IsKeySet}
use nvim_remote_mirror.Registry.Verify.{
  VerifiedManifest, push_signer, verified_signers_of, verify_manifest,
}
use nvim_remote_mirror.Registry.Verify.PublicKeys.{public_keys_of, verify_manifest-Distinct}
use nvim_remote_mirror.Registry.Verify.Threshold.{IsVerified, verify_manifest-IsVerified}

abbrev repeat : ℕ → ℕ → List ℕ
repeat zero x = []
repeat (suc n) x = x ∷ repeat n x

abbrev one_zero : Text
one_zero = codes "1.0.0"

abbrev raw_linux : RawArtifact
raw_linux = record {
  target = codes "x86_64-unknown-linux-musl";
  filename = codes "nrm-agent-1.0.0-x86_64-unknown-linux-musl";
  sha256 = repeat 64 b'a';
  size = 7;
}

abbrev raw_windows : RawArtifact
raw_windows = record {
  target = codes "aarch64-pc-windows-msvc";
  filename = codes "nrm-agent-1.0.0-aarch64-pc-windows-msvc.exe";
  sha256 = repeat 64 b'0';
  size = 9;
}

abbrev raw_release : RawManifest
raw_release = record {
  schema_version = 1;
  package_name = codes "nrm-agent";
  version = one_zero;
  protocol_version = 3;
  source_commit = repeat 40 b'c';
  artifacts = raw_linux ∷ raw_windows ∷ [];
}

abbrev raw_document : RawSignatureDocument
raw_document = record {
  schema_version = 1;
  signatures =
      record { key_id = codes "first"; signature = repeat 64 1 }
      ∷ record { key_id = codes "unknown"; signature = repeat 64 1 }
      ∷ record { key_id = codes "second"; signature = repeat 64 2 }
      ∷ [];
}

abbrev plain : Crates
plain = record {
  Version = Text;
  SemverError = Unit {0};
  parse = ok;
  to_string = λ v. v;
  version_eq = list_eq;
  version_eq_iff = list_eq_iff;
  JsonError = Unit {0};
  manifest_from_slice = λ bytes. ok raw_release;
  signatures_from_slice = λ bytes. ok raw_document;
  decode = some;
  encode = λ bytes. bytes;
  VerifyingKey = List ℕ;
  from_bytes = some;
  is_weak = λ key. false;
  compress = λ key. key;
  verify_strict = λ key bytes signature. list_eq (take 32 signature) key;
  digest = take 1;
}

abbrev release : Manifest plain
release = record {
  schema_version = 1;
  package_name = codes "nrm-agent";
  version = one_zero;
  protocol_version = 3;
  source_commit = repeat 40 b'c';
  artifacts =
      record {
        target = x86_64_unknown_linux_musl;
        filename = codes "nrm-agent-1.0.0-x86_64-unknown-linux-musl";
        sha256 = repeat 64 b'a';
        size = 7;
      }
      ∷ record {
        target = aarch64_pc_windows_msvc;
        filename = codes "nrm-agent-1.0.0-aarch64-pc-windows-msvc.exe";
        sha256 = repeat 64 b'0';
        size = 9;
      }
      ∷ [];
}

abbrev document : List ℕ
document = b'{' ∷ b'}' ∷ []

parsed : parse_manifest plain document one_zero 3 ≡ ok release
unfolding parse_manifest check_manifest check_artifacts check_artifact target_of from_str find_named
    as_str is_windows artifact_filename target_eq
parsed = refl

parse_manifest-IsManifest_example :
    (length document ≤ manifest_max_bytes) × IsManifest plain one_zero 3 release
parse_manifest-IsManifest_example = parse_manifest-IsManifest plain document one_zero 3 parsed

release-IsManifest : IsManifest plain one_zero 3 release
release-IsManifest = (parse_manifest-IsManifest plain document one_zero 3 parsed).1

read_release : plain.manifest_from_slice document ≡ ok (raw_manifest plain release)
unfolding as_str
read_release = refl

parse_manifest-raw_manifest_example : parse_manifest plain document one_zero 3 ≡ ok release
parse_manifest-raw_manifest_example =
    parse_manifest-raw_manifest plain one_zero 3 release document release-IsManifest (omega arith)
      read_release refl

abbrev entries : List (Text × Text)
entries = (codes "first", repeat 32 1) ∷ (codes "second", repeat 32 2) ∷ []

abbrev trusted : TrustedKeySet plain
trusted = record {
  keys =
      (codes "second", record { verifying_key = repeat 32 2; fingerprint = codes "02" })
      ∷ (codes "first", record { verifying_key = repeat 32 1; fingerprint = codes "01" })
      ∷ [];
}

trusts : from_base64 plain entries ≡ ok trusted
unfolding from_base64 insert_keys validate_key_id decode_canonical_base64 strong_key insert_material
    sha256_hex
trusts = refl

from_base64-IsKeySet_example : (is_empty trusted.keys ≡ false) × IsKeySet plain trusted.keys
from_base64-IsKeySet_example = from_base64-IsKeySet plain entries trusts

abbrev verified : VerifiedManifest plain
verified = record {
  manifest = release;
  manifest_sha256 = codes "7b";
  verified_signers =
      record { key_id = codes "first"; fingerprint = codes "01" }
      ∷ record { key_id = codes "second"; fingerprint = codes "02" }
      ∷ [];
}

verifies_twice : verify_manifest plain document document trusted 2 one_zero 3 ≡ ok verified
unfolding verify_manifest parse_signature_document check_signatures validate_key_id
    decode_canonical_base64 verified_signers_of push_signer sha256_hex parse_manifest check_manifest
    check_artifacts check_artifact target_of from_str find_named as_str is_windows artifact_filename
    target_eq
verifies_twice = refl

verify_manifest-IsVerified_example : IsVerified plain document trusted 2 one_zero 3 verified
verify_manifest-IsVerified_example =
    verify_manifest-IsVerified plain document trusted document 2 one_zero 3 verifies_twice

verify_manifest-Distinct_example :
    (2 ≤ length (public_keys_of plain trusted verified.verified_signers))
    × Distinct (public_keys_of plain trusted verified.verified_signers)
verify_manifest-Distinct_example =
    verify_manifest-Distinct plain entries trusted document document 2 one_zero 3 trusts
      verifies_twice
