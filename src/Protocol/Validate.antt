-- ===== src/Protocol/Validate.antt =====
-- `RuntimeMessage::validate` of crates/nrm-protocol/src/runtime.rs.
mod Fields
mod Spec
pub mod Total
pub mod Path
pub mod Environment
unfoldable pub use Fields.*
unfoldable pub use Spec.*
use nvim_remote_mirror.Prelude.{
  ℕ, Option, none, some, List, Text, length, len, is_empty, Result, ok, fail_if, for_each, ◌>>◌,
  ltb, leb,
}
use nvim_remote_mirror.Protocol.Limits.{runtime_max_error_message_bytes, runtime_max_watch_events}
use nvim_remote_mirror.Protocol.Types.{
  PtySessionCredentials, WorkspaceWatchEvent, WorkspaceWatchEventKind, renamed, RuntimeError,
}
use nvim_remote_mirror.Protocol.Message.{
  RuntimeMessage, client_hello, server_hello, error, start_process, process_started, attach_pty,
  pty_attached, input, output, output_gap, resize, detached, watch_events, watch_overflow,
}
use nvim_remote_mirror.Protocol.Errors.{
  RuntimeValidationError, error_message_too_large, empty_watch_batch, too_many_watch_events,
  invalid_watch_overflow, invalid_output_gap,
}

unfoldable pub validate_error : RuntimeError → Result RuntimeValidationError (Unit {0})
validate_error e = do
  fail_if (ltb runtime_max_error_message_bytes (len e.message))
      (error_message_too_large (len e.message))
  reject_nul "error message" e.message

unfoldable pub validate_session :
    Option PtySessionCredentials → Result RuntimeValidationError (Unit {0})
validate_session none = ok tt
validate_session (some session) = validate_credentials session

unfoldable pub validate_event_kind :
    WorkspaceWatchEventKind → Result RuntimeValidationError (Unit {0})
validate_event_kind (renamed to) = validate_workspace_path to
validate_event_kind _ = ok tt

unfoldable pub validate_event : WorkspaceWatchEvent → Result RuntimeValidationError (Unit {0})
unfolding validate_event_kind
validate_event event = do validate_workspace_path event.path; validate_event_kind event.kind

unfoldable pub validate_watch_events :
    List WorkspaceWatchEvent → Result RuntimeValidationError (Unit {0})
unfolding validate_event
validate_watch_events events = do
  fail_if (is_empty events) empty_watch_batch
  fail_if (ltb runtime_max_watch_events (length events)) (too_many_watch_events (length events))
  for_each validate_event events

unfoldable pub validate : RuntimeMessage → Result RuntimeValidationError (Unit {0})
unfolding validate_error validate_session validate_watch_events
validate (client_hello package_version _ _) = validate_package_version package_version
validate (server_hello package_version _ _) = validate_package_version package_version
validate (error e) = validate_error e
validate (start_process _ spec) = validate_process_spec spec
validate (process_started _ _ session _) = validate_session session
validate (attach_pty _ credentials _) = validate_credentials credentials
validate (pty_attached _ _ session_id _) = validate_nonzero_id "PTY session ID" session_id
validate (detached _ session_id) = validate_nonzero_id "PTY session ID" session_id
validate (input _ offset bytes) = validate_data_chunk offset bytes
validate (output _ _ offset bytes) = validate_data_chunk offset bytes
validate (output_gap _ requested_offset available_offset screen_snapshot) = do
  fail_if (leb available_offset requested_offset) invalid_output_gap
  validate_optional_data_chunk screen_snapshot
validate (resize _ size) = validate_terminal_size size
validate (watch_events _ _ events) = validate_watch_events events
validate (watch_overflow _ sequence next_sequence) =
    fail_if (leb next_sequence sequence) invalid_watch_overflow
validate _ = ok tt
