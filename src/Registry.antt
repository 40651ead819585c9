-- ===== src/Registry.antt =====
-- crates/nrm-registry: the signed manifests of agent releases.
pub mod Crates
pub mod Target
pub mod Manifest
pub mod Signature
pub mod Trust
pub mod Verify
mod Tests
