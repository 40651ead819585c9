-- ===== src/Protocol/Tests/Open.antt =====
-- What a run of the state machine computes with.
use nvim_remote_mirror.Prelude.{split}
use nvim_remote_mirror.Protocol.Capability.{supports_runtime, v1_agent}
use nvim_remote_mirror.Protocol.Message.{sender, name}
use nvim_remote_mirror.Protocol.Validate.{
  validate, validate_error, validate_session, validate_event, validate_event_kind,
  validate_watch_events, reject_nul, reject_control, validate_package_version, validate_env_name,
  is_bad_part, validate_workspace_path, validate_terminal_size, validate_nonzero_id,
  validate_credentials, validate_optional_data_chunk, validate_data_chunk, insert_name,
  validate_set, validate_unset, validate_environment, validate_argument, validate_cwd,
  validate_persistence, validate_size, validate_process_spec, validate_spec_for_capability,
}
use nvim_remote_mirror.Protocol.Phase.{new_pipe, new_pty, phase_capability, phase_name}
use nvim_remote_mirror.Protocol.Expect.{
  expect_request_id, expect_process_id, expect_watch_id, expect_offset, apply_scalar_ack, apply_ack,
}
use nvim_remote_mirror.Protocol.Process.{apply_running_message, apply_running_server_message}
use nvim_remote_mirror.Protocol.Watch.{apply_watch_message}
use nvim_remote_mirror.Protocol.Transition.{
  unexpected, validate_protocol_and_capability, on_await_client_hello, on_await_server_hello,
  on_ready, process_start, on_await_process_started, replay_gap, on_await_pty_attached,
  after_running, on_running, session_is, after_detach, on_await_detached, on_await_watch_started,
  on_watching, on_await_watch_stopped, dispatch, is_closed_phase, apply_message,
}
use nvim_remote_mirror.Protocol.Machine.{
  new, role_eq, actual_sender, check, store, observe, observe_all, negotiated_capability, is_closed,
}
use nvim_remote_mirror.Protocol.Machine.Delivery.{accepted}

unfoldable pub machine_open : Unit {0}
unfolding split supports_runtime v1_agent sender name validate validate_error validate_session
    validate_event validate_event_kind validate_watch_events reject_nul reject_control
    validate_package_version validate_env_name is_bad_part validate_workspace_path
    validate_terminal_size validate_nonzero_id validate_credentials validate_optional_data_chunk
    validate_data_chunk insert_name validate_set validate_unset validate_environment
    validate_argument validate_cwd validate_persistence validate_size validate_process_spec
    validate_spec_for_capability new_pipe new_pty phase_capability phase_name expect_request_id
    expect_process_id expect_watch_id expect_offset apply_scalar_ack apply_ack apply_running_message
    apply_running_server_message apply_watch_message unexpected validate_protocol_and_capability
    on_await_client_hello on_await_server_hello on_ready process_start on_await_process_started
    replay_gap on_await_pty_attached after_running on_running session_is after_detach
    on_await_detached on_await_watch_started on_watching on_await_watch_stopped dispatch
    is_closed_phase apply_message new role_eq actual_sender check store observe observe_all
    negotiated_capability is_closed accepted
machine_open = tt
