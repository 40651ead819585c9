-- ===== src/Sidecar.antt =====
-- crates/nrm-sidecar: the paths that are rewritten in LSP messages.
pub mod Remote
pub mod Backoff
pub mod Install
pub mod LspPath
pub mod PercentCode
pub mod StderrTail
mod Tests
