-- ===== src/Registry/Manifest/RoundTrip.antt =====
-- A well-formed manifest, serialised, is parsed to itself.
use nvim_remote_mirror.Prelude.{
  ℕ, subst, is_empty, ◌≤◌, ◌≡◌, refl, sym, false, List, [], ◌∷◌, length, eq→list_eq, codes, All,
  NotIn, Fresh, NotIn-iff, Fresh-Distinct, Apart-nil, ok, arith,
}
use nvim_remote_mirror.Registry.Crates.{Crates, RawArtifact, RawManifest}
use nvim_remote_mirror.Registry.Target.{
  AgentTarget, as_str, target_eq, target_eq_iff, artifact_filename, as_str-from_str,
}
use nvim_remote_mirror.Registry.Manifest.{
  Artifact, Manifest, manifest_max_bytes, target_of, check_artifact, check_artifacts,
  check_manifest, parse_manifest,
}
use nvim_remote_mirror.Registry.Manifest.Accepted.{targets_of, IsArtifact, IsManifest}

abbrev pub raw_artifact : Artifact → RawArtifact
raw_artifact artifact = record {
  target = as_str artifact.target;
  filename = artifact.filename;
  sha256 = artifact.sha256;
  size = artifact.size;
}

abbrev pub raw_artifacts : List Artifact → List RawArtifact
raw_artifacts [] = []
raw_artifacts (artifact ∷ rest) = raw_artifact artifact ∷ raw_artifacts rest

module _ (c : Crates) where
  -- What the derived `Serialize` of `Manifest` and that of `AgentTarget` write.
  abbrev pub raw_manifest : Manifest c → RawManifest
  raw_manifest m = record {
    schema_version = m.schema_version;
    package_name = m.package_name;
    version = c.to_string m.version;
    protocol_version = m.protocol_version;
    source_commit = m.source_commit;
    artifacts = raw_artifacts m.artifacts;
  }

  target_of-as_str : (t : AgentTarget) → target_of c (as_str t) ≡ ok t
  unfolding target_of
  target_of-as_str t = ground (arith, as_str-from_str t)

  check_artifact-raw :
      (version : c.Version) (seen : List AgentTarget) (a : Artifact)
      → IsArtifact c version a
      → NotIn a.target seen
      → check_artifact c version seen a.target (raw_artifact a) ≡ ok a
  unfolding check_artifact
  check_artifact-raw version seen a v new = ground (
    arith,
    (NotIn-iff target_eq target_eq_iff a.target seen).1 new,
    eq→list_eq a.filename (artifact_filename c a.target version) v.named,
    v.hashed.0,
    v.hashed.1,
    v.nonempty,
    v.small,
  )

  check_artifacts-raw :
      (version : c.Version) (seen : List AgentTarget) (artifacts : List Artifact)
      → All (IsArtifact c version) artifacts
      → Fresh seen (targets_of artifacts)
      → check_artifacts c version seen (raw_artifacts artifacts) ≡ ok artifacts
  unfolding check_artifacts
  check_artifacts-raw version seen [] v f = refl
  check_artifacts-raw version seen (a ∷ rest) v f = rw (
    target_of-as_str a.target,
    check_artifact-raw version seen a v.0 f.0,
    check_artifacts-raw version (a.target ∷ seen) rest v.1 f.1,
  )

  length-raw_artifacts :
      (artifacts : List Artifact) → length (raw_artifacts artifacts) ≡ length artifacts
  length-raw_artifacts [] = refl
  length-raw_artifacts (a ∷ rest) = omega (arith, length-raw_artifacts rest)

  is_empty-raw_artifacts :
      (artifacts : List Artifact)
      → 1 ≤ length artifacts
      → is_empty (raw_artifacts artifacts) ≡ false
  is_empty-raw_artifacts [] h = absurd (omega (arith, h))
  is_empty-raw_artifacts (a ∷ rest) h = refl

  module _ (version : c.Version) (protocol : ℕ) (m : Manifest c) where
    check_manifest-raw :
        IsManifest c version protocol m
        → c.parse (c.to_string m.version) ≡ ok m.version
        → check_manifest c version protocol (raw_manifest m) ≡ ok m
    unfolding check_manifest
    check_manifest-raw v p =
        let goods =
          subst (λ w. All (IsArtifact c w) m.artifacts) (sym v.same_version) v.good_artifacts in
        let fresh =
          (Fresh-Distinct [] (targets_of m.artifacts)).1
            (Apart-nil (targets_of m.artifacts), v.distinct_targets) in
        ground (
          arith,
          v.first_schema,
          eq→list_eq m.package_name (codes "nrm-agent") v.of_agent,
          p,
          (c.version_eq_iff m.version version).1 v.same_version,
          v.same_protocol,
          v.committed.0,
          v.committed.1,
          is_empty-raw_artifacts m.artifacts v.some_artifacts,
          length-raw_artifacts m.artifacts,
          v.few_artifacts,
          check_artifacts-raw m.version [] m.artifacts goods fresh,
        )

    -- A well-formed manifest of the version and the protocol that are asked for is parsed to itself
    -- from a document of at most `MANIFEST_MAX_BYTES` bytes that reads as its serialisation, where
    -- semver parses the version back from its text.
    pub parse_manifest-raw_manifest :
        (bytes : List ℕ)
        → IsManifest c version protocol m
        → length bytes ≤ manifest_max_bytes
        → c.manifest_from_slice bytes ≡ ok (raw_manifest m)
        → c.parse (c.to_string m.version) ≡ ok m.version
        → parse_manifest c bytes version protocol ≡ ok m
    unfolding parse_manifest
    parse_manifest-raw_manifest bytes v small read p = ground (arith, read, check_manifest-raw v p)
