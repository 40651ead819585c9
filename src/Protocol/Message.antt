-- ===== src/Protocol/Message.antt =====
-- `RuntimeMessage` of crates/nrm-protocol/src/runtime.rs with its sender and its name.
pub mod Wire
use nvim_remote_mirror.Prelude.{ℕ, Bool, String, Option, List, Text}
use nvim_remote_mirror.Protocol.Capability.{RuntimeCapability}
use nvim_remote_mirror.Protocol.Types.{
  RuntimePeerRole, client, server, RuntimeOutputStream, RuntimeSignal, TerminalSize,
  RuntimeProcessSpec, PtySessionCredentials, RuntimeExitStatus, WorkspaceWatchEvent, RuntimeError,
}

pub data RuntimeMessage : Type 0 where
  client_hello server_hello :
      (package_version : Text) (version : ℕ) (capability : RuntimeCapability) → RuntimeMessage
  error : RuntimeError → RuntimeMessage
  start_process : (request_id : ℕ) (spec : RuntimeProcessSpec) → RuntimeMessage
  process_started :
      (request_id process_id : ℕ) (session : Option PtySessionCredentials) (output_offset : ℕ)
      → RuntimeMessage
  attach_pty :
      (request_id : ℕ) (credentials : PtySessionCredentials) (replay_from : Option ℕ)
      → RuntimeMessage
  pty_attached :
      (request_id process_id : ℕ) (session_id : List ℕ) (output_offset : ℕ) → RuntimeMessage
  input : (process_id offset : ℕ) (bytes : List ℕ) → RuntimeMessage
  input_ack close_input : (process_id next_offset : ℕ) → RuntimeMessage
  output :
      (process_id : ℕ) (stream : RuntimeOutputStream) (offset : ℕ) (bytes : List ℕ) → RuntimeMessage
  output_ack : (process_id : ℕ) (stream : RuntimeOutputStream) (next_offset : ℕ) → RuntimeMessage
  output_gap :
      (process_id requested_offset available_offset : ℕ) (screen_snapshot : List ℕ) → RuntimeMessage
  resize : (process_id : ℕ) (size : TerminalSize) → RuntimeMessage
  signal : (process_id : ℕ) (sig : RuntimeSignal) → RuntimeMessage
  detach : (process_id : ℕ) → RuntimeMessage
  detached : (process_id : ℕ) (session_id : List ℕ) → RuntimeMessage
  exited : (process_id : ℕ) (status : RuntimeExitStatus) (output_truncated : Bool) → RuntimeMessage
  watch_start : (request_id : ℕ) (resume_from : Option ℕ) → RuntimeMessage
  watch_started : (request_id watch_id next_sequence : ℕ) → RuntimeMessage
  watch_events : (watch_id sequence : ℕ) (events : List WorkspaceWatchEvent) → RuntimeMessage
  watch_ack : (watch_id next_sequence : ℕ) → RuntimeMessage
  watch_overflow : (watch_id sequence next_sequence : ℕ) → RuntimeMessage
  watch_stop watch_stopped : (watch_id : ℕ) → RuntimeMessage

unfoldable pub sender : RuntimeMessage → RuntimePeerRole
sender (client_hello _ _ _) = client
sender (start_process _ _) = client
sender (attach_pty _ _ _) = client
sender (input _ _ _) = client
sender (close_input _ _) = client
sender (output_ack _ _ _) = client
sender (resize _ _) = client
sender (signal _ _) = client
sender (detach _) = client
sender (watch_start _ _) = client
sender (watch_ack _ _) = client
sender (watch_stop _) = client
sender _ = server

unfoldable pub name : RuntimeMessage → String
name (client_hello _ _ _) = "client_hello"
name (server_hello _ _ _) = "server_hello"
name (error _) = "error"
name (start_process _ _) = "start_process"
name (process_started _ _ _ _) = "process_started"
name (attach_pty _ _ _) = "attach_pty"
name (pty_attached _ _ _ _) = "pty_attached"
name (input _ _ _) = "input"
name (input_ack _ _) = "input_ack"
name (close_input _ _) = "close_input"
name (output _ _ _ _) = "output"
name (output_ack _ _ _) = "output_ack"
name (output_gap _ _ _ _) = "output_gap"
name (resize _ _) = "resize"
name (signal _ _) = "signal"
name (detach _) = "detach"
name (detached _ _) = "detached"
name (exited _ _ _) = "exited"
name (watch_start _ _) = "watch_start"
name (watch_started _ _ _) = "watch_started"
name (watch_events _ _ _) = "watch_events"
name (watch_ack _ _) = "watch_ack"
name (watch_overflow _ _ _) = "watch_overflow"
name (watch_stop _) = "watch_stop"
name (watch_stopped _) = "watch_stopped"
