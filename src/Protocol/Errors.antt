-- ===== src/Protocol/Errors.antt =====
-- The error types of crates/nrm-protocol/src/runtime.rs.
use nvim_remote_mirror.Prelude.{ℕ, String, Text}
use nvim_remote_mirror.Protocol.Capability.{RuntimeCapability}
use nvim_remote_mirror.Protocol.Types.{RuntimePeerRole, RuntimeOutputStream}

pub data RuntimeValidationError : Type 0 where
  empty_data_chunk : RuntimeValidationError
  data_chunk_too_large : ℕ → RuntimeValidationError
  data_offset_overflow empty_package_version : RuntimeValidationError
  package_version_too_large : ℕ → RuntimeValidationError
  empty_argv : RuntimeValidationError
  too_many_arguments too_many_environment_changes : ℕ → RuntimeValidationError
  empty_environment_name invalid_environment_name : RuntimeValidationError
  duplicate_environment_name : Text → RuntimeValidationError
  contains_nul contains_control : String → RuntimeValidationError
  empty_workspace_path : RuntimeValidationError
  workspace_path_too_large : ℕ → RuntimeValidationError
  invalid_workspace_path invalid_terminal_size incomplete_terminal_pixel_size :
      RuntimeValidationError
  zero_detach_ttl : RuntimeValidationError
  zero_session_credential : String → RuntimeValidationError
  error_message_too_large : ℕ → RuntimeValidationError
  empty_watch_batch : RuntimeValidationError
  too_many_watch_events : ℕ → RuntimeValidationError
  invalid_watch_overflow invalid_output_gap : RuntimeValidationError

pub data RuntimeStateError : Type 0 where
  invalid_message : RuntimeValidationError → RuntimeStateError
  wrong_sender : (message : String) (expected actual : RuntimePeerRole) → RuntimeStateError
  unexpected_message : (state message : String) → RuntimeStateError
  protocol_version_mismatch : (expected actual : ℕ) → RuntimeStateError
  package_version_mismatch : (expected actual : Text) → RuntimeStateError
  unsupported_capability : RuntimeCapability → RuntimeStateError
  capability_mismatch : (expected actual : RuntimeCapability) → RuntimeStateError
  request_id_mismatch process_id_mismatch watch_id_mismatch :
      (expected actual : ℕ) → RuntimeStateError
  session_id_mismatch : RuntimeStateError
  invalid_process_spec : (capability : RuntimeCapability) (reason : String) → RuntimeStateError
  input_closed : RuntimeStateError
  offset_mismatch : (channel : String) (expected actual : ℕ) → RuntimeStateError
  ack_regressed : (channel : String) (previous actual : ℕ) → RuntimeStateError
  ack_beyond_sent : (channel : String) (sent actual : ℕ) → RuntimeStateError
  wrong_output_stream : (stream : RuntimeOutputStream) → RuntimeStateError
  output_gap_mismatch output_before_gap watch_sequence_overflow : RuntimeStateError
  watch_event_before_overflow watch_overflow_mismatch : RuntimeStateError
