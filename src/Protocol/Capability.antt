-- ===== src/Protocol/Capability.antt =====
-- crates/nrm-protocol/src/lib.rs: `CapabilitySet` and the protocol's constants;
-- crates/nrm-protocol/src/runtime.rs: `RuntimeCapability`.
use nvim_remote_mirror.Prelude.{ℕ, ◌*◌, Bool, true, false, Text, codes}

abbrev pub protocol_version : ℕ
protocol_version = 8

abbrev pub max_frame_len : ℕ
max_frame_len = 64 * 1024 * 1024

-- `env!("CARGO_PKG_VERSION")`: the version of the workspace in Cargo.toml
abbrev pub cargo_pkg_version : Text
cargo_pkg_version = codes "0.2.0"

pub data RuntimeCapability : Type 0 where
  process_pipe_v1 process_pty_v1 workspace_watch_v1 : RuntimeCapability

-- The derived `==`
abbrev pub capability_eq : RuntimeCapability → RuntimeCapability → Bool
capability_eq process_pipe_v1 process_pipe_v1 = true
capability_eq process_pty_v1 process_pty_v1 = true
capability_eq workspace_watch_v1 workspace_watch_v1 = true
capability_eq _ _ = false

pub record CapabilitySet : Type 0 where
  pub scan : Bool
  pub read : Bool
  pub write_cas : Bool
  pub checksum : Bool
  pub grep : Bool
  pub lsp_proxy : Bool
  pub batch_read : Bool
  pub batch_validate : Bool
  pub chunked_write : Bool
  pub request_ids : Bool
  pub cancellation : Bool
  pub streaming : Bool
  pub multiplexing : Bool
  pub git : Bool
  pub runtime_process_v1 : Bool
  pub runtime_pty_v1 : Bool
  pub workspace_watch_v1 : Bool

unfoldable pub v1_agent : CapabilitySet
v1_agent = record {
  scan = true;
  read = true;
  write_cas = true;
  checksum = true;
  grep = true;
  lsp_proxy = false;
  batch_read = true;
  batch_validate = true;
  chunked_write = true;
  request_ids = true;
  cancellation = false;
  streaming = false;
  multiplexing = false;
  git = true;
  runtime_process_v1 = false;
  runtime_pty_v1 = false;
  workspace_watch_v1 = false;
}

unfoldable pub supports_runtime : CapabilitySet → RuntimeCapability → Bool
supports_runtime s process_pipe_v1 = s.runtime_process_v1
supports_runtime s process_pty_v1 = s.runtime_pty_v1
supports_runtime s workspace_watch_v1 = s.workspace_watch_v1
