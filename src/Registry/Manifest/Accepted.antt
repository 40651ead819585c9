-- ===== src/Registry/Manifest/Accepted.antt =====
-- What `parse_manifest` accepts.
use nvim_remote_mirror.Prelude.{
  ℕ, is_empty, suc, ap, ok-injective, ◌≤◌, ◌≡◌, sym, subst, true, false, List, [], ◌∷◌, Text,
  length, len, all, list_eq_iff, codes, All, NotIn, Distinct, Fresh, NotIn-iff, Fresh-Distinct, ok,
  >>=-eq-ok, fail_if, map_err, ltb, arith,
}
use nvim_remote_mirror.Registry.Crates.{Crates, RawArtifact, RawManifest}
use nvim_remote_mirror.Registry.Target.{AgentTarget, target_eq, target_eq_iff, artifact_filename}
use nvim_remote_mirror.Registry.Manifest.{
  Artifact, Manifest, ManifestError, is_lower_hex, artifact_max_bytes, max_artifacts,
  manifest_max_bytes, target_of, check_artifact, check_artifacts, check_manifest, parse_manifest,
}

abbrev pub IsLowerHex : ℕ → Text → Type 0
IsLowerHex n text = (len text ≡ n) × (all is_lower_hex text ≡ true)

abbrev pub targets_of : List Artifact → List AgentTarget
targets_of [] = []
targets_of (artifact ∷ rest) = artifact.target ∷ targets_of rest

nonempty_length : (raws : List RawArtifact) → is_empty raws ≡ false → 1 ≤ length raws
nonempty_length [] h = cc
nonempty_length (raw ∷ rest) h = ground arith

module _ (c : Crates) where
  pub record IsArtifact (version : c.Version) (artifact : Artifact) : Type 0 where
    pub named : artifact.filename ≡ artifact_filename c artifact.target version
    pub hashed : IsLowerHex 64 artifact.sha256
    pub nonempty : 1 ≤ artifact.size
    pub small : artifact.size ≤ artifact_max_bytes

  pub record IsManifest (version : c.Version) (protocol : ℕ) (m : Manifest c) : Type 0 where
    pub first_schema : m.schema_version ≡ 1
    pub of_agent : m.package_name ≡ codes "nrm-agent"
    pub same_version : m.version ≡ version
    pub same_protocol : m.protocol_version ≡ protocol
    pub committed : IsLowerHex 40 m.source_commit
    pub some_artifacts : 1 ≤ length m.artifacts
    pub few_artifacts : length m.artifacts ≤ max_artifacts
    pub good_artifacts : All (IsArtifact version) m.artifacts
    pub distinct_targets : Distinct (targets_of m.artifacts)

module _ (c : Crates) where
  check_artifact_ok :
      (version : c.Version) (seen : List AgentTarget) (target : AgentTarget) (raw : RawArtifact)
      {a : Artifact}
      → check_artifact c version seen target raw ≡ ok a
      → NotIn target seen × (a.target ≡ target) × IsArtifact c version a
  unfolding check_artifact
  check_artifact_ok version seen target raw {a} h = (
    (NotIn-iff target_eq target_eq_iff target seen).0 (ground arith),
    ground arith,
    record {
      named = ground (arith, list_eq_iff raw.filename (artifact_filename c target version));
      hashed = (ground arith, ground arith);
      nonempty = ground arith;
      small = ground arith;
    },
  )

  check_artifacts_ok :
      (version : c.Version) (seen : List AgentTarget) (raws : List RawArtifact)
      {artifacts : List Artifact}
      → check_artifacts c version seen raws ≡ ok artifacts
      → Fresh seen (targets_of artifacts)
        × All (IsArtifact c version) artifacts
        × (length artifacts ≡ length raws)
  unfolding check_artifacts
  check_artifacts_ok version seen [] {artifacts} h = ground arith
  check_artifacts_ok version seen (raw ∷ rest) {artifacts} h =
      let (target, known, h₁) = >>=-eq-ok (target_of c raw.target) _ h in
      let (a, taken, h₂) = >>=-eq-ok (check_artifact c version seen target raw) _ h₁ in
      let (later, checked, h₃) = >>=-eq-ok (check_artifacts c version (target ∷ seen) rest) _ h₂ in
      let (fresh, same, good) = check_artifact_ok version seen target raw taken in
      let (fresh', goods, long) = check_artifacts_ok version (target ∷ seen) rest checked in
      let fresh_all =
        subst (λ t. NotIn t seen × Fresh (t ∷ seen) (targets_of later)) (sym same)
          (fresh, fresh') in
      subst
        (λ all_of.
          Fresh seen (targets_of all_of)
          × All (IsArtifact c version) all_of
          × (length all_of ≡ length (raw ∷ rest)))
        (ok-injective (a ∷ later) artifacts h₃) (fresh_all, (good, goods), ap suc long)

  module _ (version : c.Version) (protocol : ℕ) (raw : RawManifest) {m : Manifest c} where
    check_manifest-artifacts :
        check_manifest c version protocol raw ≡ ok m
        → check_artifacts c m.version [] raw.artifacts ≡ ok m.artifacts
    unfolding check_manifest
    check_manifest-artifacts h = ground arith

    check_manifest-version : check_manifest c version protocol raw ≡ ok m → m.version ≡ version
    unfolding check_manifest
    check_manifest-version h = ground (arith, c.version_eq_iff m.version version)

    check_manifest-length :
        check_manifest c version protocol raw ≡ ok m
        → (is_empty raw.artifacts ≡ false) × (length raw.artifacts ≤ max_artifacts)
    unfolding check_manifest
    check_manifest-length h = (ground arith, ground arith)

    check_manifest-IsManifest :
        check_manifest c version protocol raw ≡ ok m → IsManifest c version protocol m
    unfolding check_manifest
    check_manifest-IsManifest h =
        let same = check_manifest-version h in
        let (full, few) = check_manifest-length h in
        let (fresh, goods, long) =
          check_artifacts_ok m.version [] raw.artifacts (check_manifest-artifacts h) in
        record {
          first_schema = ground arith;
          of_agent = ground (arith, list_eq_iff raw.package_name (codes "nrm-agent"));
          same_version = same;
          same_protocol = ground arith;
          committed = (ground arith, ground arith);
          some_artifacts = subst (λ n. 1 ≤ n) (sym long) (nonempty_length raw.artifacts full);
          few_artifacts = subst (λ n. n ≤ max_artifacts) (sym long) few;
          good_artifacts = subst (λ v. All (IsArtifact c v) m.artifacts) same goods;
          distinct_targets = ((Fresh-Distinct [] (targets_of m.artifacts)).0 fresh).1;
        }

  -- A manifest that is accepted has at most `MANIFEST_MAX_BYTES` bytes and the schema version 1, is
  -- of the package nrm-agent, of the version and the protocol that were asked for, names a commit by
  -- 40 lowercase hexadecimal digits, and has 1 to `MAX_ARTIFACTS` artifacts, of different targets,
  -- each with the one filename of its target and version, a SHA-256 of 64 lowercase hexadecimal
  -- digits and a size from 1 to `ARTIFACT_MAX_BYTES`.
  pub parse_manifest-IsManifest :
      (bytes : List ℕ) (version : c.Version) (protocol : ℕ) {m : Manifest c}
      → parse_manifest c bytes version protocol ≡ ok m
      → (length bytes ≤ manifest_max_bytes) × IsManifest c version protocol m
  unfolding parse_manifest
  parse_manifest-IsManifest bytes version protocol {m} h =
      let (u, small, h₁) =
        >>=-eq-ok
          (fail_if (ltb manifest_max_bytes (length bytes))
            (ManifestError.too_large (length bytes) manifest_max_bytes))
          _ h in
      let (raw, read, h₂) =
        >>=-eq-ok (map_err ManifestError.json (c.manifest_from_slice bytes)) _ h₁ in
      (ground arith, check_manifest-IsManifest version protocol raw h₂)
