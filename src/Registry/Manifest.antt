-- ===== src/Registry/Manifest.antt =====
-- `Artifact`, `Manifest`, `ManifestError` and `parse_manifest` of
-- crates/nrm-registry/src/core.rs. The tests on the bytes of a text are tests on its characters
-- here: a byte of a character beyond ASCII passes none of them.
pub mod Accepted
pub mod RoundTrip
use nvim_remote_mirror.Prelude.{
  ℕ, ◌*◌, Bool, true, false, not, ◌&&◌, ◌||◌, Option, none, some, List, [], ◌∷◌, Text, length, len,
  is_empty, all, any, list_eq, codes, Result, ok, err, fail_if, map_err, ◌>>=◌, ◌>>◌, ltb, leb,
  ◌==◌,
}
use nvim_remote_mirror.Registry.Crates.{Crates, RawArtifact, RawManifest}
use nvim_remote_mirror.Registry.Target.{AgentTarget, from_str, target_eq, artifact_filename}

abbrev pub manifest_max_bytes : ℕ
manifest_max_bytes = 1024 * 1024

abbrev pub artifact_max_bytes : ℕ
artifact_max_bytes = 128 * 1024 * 1024

abbrev pub max_artifacts : ℕ
max_artifacts = 6

pub record Artifact : Type 0 where
  pub target : AgentTarget
  pub filename : Text
  pub sha256 : Text
  pub size : ℕ

-- `is_ascii_digit() || (b'a'..=b'f').contains(..)`
abbrev pub is_lower_hex : ℕ → Bool
is_lower_hex byte = (leb b'0' byte && leb byte b'9') || (leb b'a' byte && leb byte b'f')

module _ (c : Crates) where
  pub record Manifest : Type 0 where
    pub schema_version : ℕ
    pub package_name : Text
    pub version : c.Version
    pub protocol_version : ℕ
    pub source_commit : Text
    pub artifacts : List Artifact

  pub data ManifestError : Type 0 where
    too_large : ℕ → ℕ → ManifestError
    json : c.JsonError → ManifestError
    unsupported_schema : ℕ → ManifestError
    wrong_package : Text → ManifestError
    invalid_version : Text → c.SemverError → ManifestError
    version_mismatch : c.Version → c.Version → ManifestError
    protocol_version_mismatch : ℕ → ℕ → ManifestError
    invalid_source_commit : ManifestError
    artifact_count : ℕ → ℕ → ManifestError
    unsupported_target : Text → ManifestError
    duplicate_target : AgentTarget → ManifestError
    invalid_filename : Text → Text → ManifestError
    invalid_sha256 : AgentTarget → ManifestError
    invalid_size : AgentTarget → ℕ → ℕ → ManifestError

module _ (c : Crates) where
  unfoldable pub target_of : Text → Result (ManifestError c) AgentTarget
  target_of value = elim (from_str value) [
    | none ↦ err (ManifestError.unsupported_target value)
    | some target ↦ ok target
  ]

  -- The checks of the loop on one artifact whose target is known, and what it pushes.
  unfoldable pub check_artifact :
      c.Version → List AgentTarget → AgentTarget → RawArtifact → Result (ManifestError c) Artifact
  check_artifact version targets target raw = do
    fail_if (any (target_eq target) targets) (ManifestError.duplicate_target target)
    fail_if (not (list_eq raw.filename (artifact_filename c target version)))
        (ManifestError.invalid_filename raw.filename (artifact_filename c target version))
    fail_if (not (len raw.sha256 == 64) || not (all is_lower_hex raw.sha256))
        (ManifestError.invalid_sha256 target)
    fail_if (not (leb 1 raw.size && leb raw.size artifact_max_bytes))
        (ManifestError.invalid_size target raw.size artifact_max_bytes)
    ok (record { target = target; filename = raw.filename; sha256 = raw.sha256; size = raw.size })

  -- The loop over the artifacts; `targets` are those inserted so far.
  unfoldable pub check_artifacts :
      c.Version → List AgentTarget → List RawArtifact → Result (ManifestError c) (List Artifact)
  unfolding target_of check_artifact
  check_artifacts version targets [] = ok []
  check_artifacts version targets (raw ∷ rest) = do
    target ← target_of raw.target
    artifact ← check_artifact version targets target raw
    artifacts ← check_artifacts version (target ∷ targets) rest
    ok (artifact ∷ artifacts)

  -- `parse_manifest` behind the parser of the JSON document
  unfoldable pub check_manifest :
      c.Version → ℕ → RawManifest → Result (ManifestError c) (Manifest c)
  unfolding check_artifacts
  check_manifest expected_version expected_protocol raw = do
    fail_if (not (raw.schema_version == 1)) (ManifestError.unsupported_schema raw.schema_version)
    fail_if (not (list_eq raw.package_name (codes "nrm-agent")))
        (ManifestError.wrong_package raw.package_name)
    version ← map_err (ManifestError.invalid_version raw.version) (c.parse raw.version)
    fail_if (not (c.version_eq version expected_version))
        (ManifestError.version_mismatch version expected_version)
    fail_if (not (raw.protocol_version == expected_protocol))
        (ManifestError.protocol_version_mismatch raw.protocol_version expected_protocol)
    fail_if (not (len raw.source_commit == 40) || not (all is_lower_hex raw.source_commit))
        ManifestError.invalid_source_commit
    fail_if (is_empty raw.artifacts || ltb max_artifacts (length raw.artifacts))
        (ManifestError.artifact_count (length raw.artifacts) max_artifacts)
    artifacts ← check_artifacts version [] raw.artifacts
    ok (record {
      schema_version = raw.schema_version;
      package_name = raw.package_name;
      version = version;
      protocol_version = raw.protocol_version;
      source_commit = raw.source_commit;
      artifacts = artifacts;
    })

  unfoldable pub parse_manifest : List ℕ → c.Version → ℕ → Result (ManifestError c) (Manifest c)
  unfolding check_manifest
  parse_manifest bytes expected_version expected_protocol = do
    fail_if (ltb manifest_max_bytes (length bytes))
        (ManifestError.too_large (length bytes) manifest_max_bytes)
    raw ← map_err ManifestError.json (c.manifest_from_slice bytes)
    check_manifest expected_version expected_protocol raw
