-- ===== src/Protocol/Types.antt =====
-- The plain data of crates/nrm-protocol/src/runtime.rs that messages carry.
use nvim_remote_mirror.Prelude.{ℕ, Bool, Option, List, Text}

pub data RuntimePeerRole : Type 0 where
  client server : RuntimePeerRole

pub data RuntimeOutputStream : Type 0 where
  stdout stderr pty : RuntimeOutputStream

pub data RuntimeSignal : Type 0 where
  interrupt terminate kill hangup : RuntimeSignal

pub data RuntimePersistence : Type 0 where
  attached : RuntimePersistence
  detachable : (ttl_ms : ℕ) → RuntimePersistence

pub record TerminalSize : Type 0 where
  pub columns : ℕ
  pub rows : ℕ
  pub pixel_width : Option ℕ
  pub pixel_height : Option ℕ

pub record RuntimeEnvVar : Type 0 where
  pub name : Text
  pub value : Text

pub record RuntimeEnvironment : Type 0 where
  pub clear : Bool
  pub set : List RuntimeEnvVar
  pub unset : List Text

pub data RuntimeCwd : Type 0 where
  workspace_root : RuntimeCwd
  workspace_relative : Text → RuntimeCwd

pub record RuntimeProcessSpec : Type 0 where
  pub argv : List Text
  pub cwd : RuntimeCwd
  pub env : RuntimeEnvironment
  pub persistence : RuntimePersistence
  pub terminal_size : Option TerminalSize
  pub timeout_ms : Option ℕ
  pub max_output_bytes : Option ℕ

-- The byte arrays `[u8; 16]` and `[u8; 32]` are lists of their bytes.
pub record PtySessionCredentials : Type 0 where
  pub session_id : List ℕ
  pub attachment_token : List ℕ

-- The `i32` of an exit code is kept as its bit pattern: nothing computes with it.
pub data RuntimeExitStatus : Type 0 where
  code : ℕ → RuntimeExitStatus
  signal : ℕ → RuntimeExitStatus
  timed_out output_limit cancelled : RuntimeExitStatus

pub data WorkspaceWatchEventKind : Type 0 where
  created modified removed : WorkspaceWatchEventKind
  renamed : (to : Text) → WorkspaceWatchEventKind

pub record WorkspaceWatchEvent : Type 0 where
  pub path : Text
  pub kind : WorkspaceWatchEventKind
  pub is_dir : Bool

pub data RuntimeErrorCode : Type 0 where
  protocol unsupported invalid_request spawn_failed session_not_found session_in_use :
      RuntimeErrorCode
  unauthorized wrong_workspace history_lost resource_limit persistence_unavailable :
      RuntimeErrorCode
  permission_denied internal : RuntimeErrorCode

pub record RuntimeError : Type 0 where
  pub code : RuntimeErrorCode
  pub message : Text
  pub retryable : Bool
