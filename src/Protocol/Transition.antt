-- ===== src/Protocol/Transition.antt =====
-- `apply_message` of crates/nrm-protocol/src/runtime.rs, one function for each phase. The function
-- assigns `*phase` only where it goes on to return `Ok`, and its caller works on a clone, so an
-- error has no new phase. `unreachable!()` is the outcome `panic`.
pub mod Sound
mod Starting
mod Streaming
pub mod Invariant
pub mod Total
pub mod Capability
pub mod Delivery
use nvim_remote_mirror.Prelude.{
  ℕ, Bool, true, false, not, Option, none, some, List, Text, list_eq, Result, ok, err, panic,
  fail_if, map_ok, ◌>>=◌, ◌>>◌, ltb, ◌==◌, if◌then◌else◌,
}
use nvim_remote_mirror.Protocol.Capability.{
  RuntimeCapability, process_pipe_v1, process_pty_v1, workspace_watch_v1, CapabilitySet,
  capability_eq, supports_runtime, protocol_version, cargo_pkg_version,
}
use nvim_remote_mirror.Protocol.Types.{
  RuntimePersistence, attached, detachable, PtySessionCredentials,
}
use nvim_remote_mirror.Protocol.Message.{
  RuntimeMessage, name, client_hello, server_hello, error, start_process, process_started,
  attach_pty, pty_attached, output_ack, detach, detached, watch_start, watch_started, watch_stop,
  watch_stopped,
}
use nvim_remote_mirror.Protocol.Errors.{
  RuntimeStateError, unexpected_message, protocol_version_mismatch, package_version_mismatch,
  unsupported_capability, capability_mismatch, session_id_mismatch, invalid_process_spec,
  offset_mismatch,
}
use nvim_remote_mirror.Protocol.Validate.{validate_spec_for_capability}
use nvim_remote_mirror.Protocol.Phase.{
  RuntimeProcessState, new_pipe, new_pty, RuntimeWatchState, RuntimePhase, await_client_hello,
  await_server_hello, ready, await_process_started, await_pty_attached, running, await_detached,
  await_watch_started, watching, await_watch_stopped, closed, phase_name,
}
use nvim_remote_mirror.Protocol.Expect.{expect_request_id, expect_process_id, expect_watch_id}
use nvim_remote_mirror.Protocol.Process.{apply_running_message, apply_running_server_message}
use nvim_remote_mirror.Protocol.Watch.{apply_watch_message}

abbrev pub Moved : Type 0
Moved = Result RuntimeStateError RuntimePhase

unfoldable pub unexpected : RuntimePhase → RuntimeMessage → Moved
unexpected phase m = err (unexpected_message (phase_name phase) (name m))

unfoldable pub validate_protocol_and_capability :
    CapabilitySet → Text → ℕ → RuntimeCapability → Result RuntimeStateError (Unit {0})
validate_protocol_and_capability supported package_version version capability = do
  fail_if (not (list_eq package_version cargo_pkg_version))
      (package_version_mismatch cargo_pkg_version package_version)
  fail_if (not (version == protocol_version)) (protocol_version_mismatch protocol_version version)
  fail_if (not (supports_runtime supported capability)) (unsupported_capability capability)

unfoldable pub on_await_client_hello : CapabilitySet → RuntimeMessage → Moved
on_await_client_hello supported (client_hello package_version version capability) = do
  validate_protocol_and_capability supported package_version version capability
  ok (await_server_hello capability)
on_await_client_hello supported m = unexpected await_client_hello m

unfoldable pub on_await_server_hello : CapabilitySet → RuntimeCapability → RuntimeMessage → Moved
on_await_server_hello supported expected (server_hello package_version version capability) = do
  validate_protocol_and_capability supported package_version version capability
  fail_if (not (capability_eq capability expected)) (capability_mismatch expected capability)
  ok (ready capability)
on_await_server_hello supported expected m = unexpected (await_server_hello expected) m

unfoldable pub ready_watch : RuntimeMessage → Moved
ready_watch (watch_start request_id resume_from) = ok (await_watch_started request_id resume_from)
ready_watch m = unexpected (ready workspace_watch_v1) m

unfoldable pub on_ready : RuntimeCapability → RuntimeMessage → Moved
unfolding ready_watch
on_ready process_pipe_v1 (start_process request_id spec) = do
  validate_spec_for_capability process_pipe_v1 spec
  ok (await_process_started process_pipe_v1 request_id spec.persistence)
on_ready process_pty_v1 (start_process request_id spec) = do
  validate_spec_for_capability process_pty_v1 spec
  ok (await_process_started process_pty_v1 request_id spec.persistence)
on_ready process_pty_v1 (attach_pty request_id credentials replay_from) =
    ok (await_pty_attached request_id credentials.session_id replay_from)
on_ready workspace_watch_v1 m = ready_watch m
on_ready capability m = unexpected (ready capability) m

-- The match on `(*capability, *persistence, session)` when `ProcessStarted` arrives.
unfoldable pub process_start :
    RuntimeCapability → RuntimePersistence → Option PtySessionCredentials → ℕ → ℕ → Moved
process_start process_pipe_v1 attached none process_id output_offset =
    if output_offset == 0
    then ok (running (new_pipe process_id))
    else err (
        invalid_process_spec process_pipe_v1
          "pipe startup must not return a PTY session or nonzero output offset")
process_start process_pipe_v1 _ _ process_id output_offset = err (
    invalid_process_spec process_pipe_v1
      "pipe startup must not return a PTY session or nonzero output offset")
process_start process_pty_v1 attached none process_id output_offset =
    if output_offset == 0
    then ok (running (new_pty process_id none output_offset none))
    else err (
        invalid_process_spec process_pty_v1
          "attached PTY startup must not return session credentials or a nonzero output offset")
process_start process_pty_v1 attached (some _) process_id output_offset = err (
    invalid_process_spec process_pty_v1
      "attached PTY startup must not return session credentials or a nonzero output offset")
process_start process_pty_v1 (detachable _) none process_id output_offset =
    err
      (invalid_process_spec process_pty_v1 "detachable PTY startup must return session credentials")
process_start process_pty_v1 (detachable _) (some credentials) process_id output_offset =
    if output_offset == 0
    then ok (running (new_pty process_id (some credentials.session_id) output_offset none))
    else err (
        invalid_process_spec process_pty_v1
          "new detachable PTY startup must begin at output offset zero")
process_start workspace_watch_v1 _ _ process_id output_offset = panic

unfoldable pub on_await_process_started :
    RuntimeCapability → ℕ → RuntimePersistence → RuntimeMessage → Moved
on_await_process_started capability expected persistence
      (process_started request_id process_id session output_offset) =
    do
      expect_request_id expected request_id
      process_start capability persistence session process_id output_offset
on_await_process_started capability expected persistence m =
    unexpected (await_process_started capability expected persistence) m

-- The match on `replay_from` that computes `gap_pending`.
unfoldable pub replay_gap : Option ℕ → ℕ → Result RuntimeStateError (Option (ℕ × ℕ))
replay_gap none output_offset = ok none
replay_gap (some requested) output_offset =
    if ltb output_offset requested
    then err (offset_mismatch "PTY replay" requested output_offset)
    else if ltb requested output_offset
    then ok (some (requested, output_offset))
    else ok none

unfoldable pub on_await_pty_attached : ℕ → List ℕ → Option ℕ → RuntimeMessage → Moved
unfolding replay_gap
on_await_pty_attached expected expected_session replay_from
      (pty_attached request_id process_id session_id output_offset) =
    do
      expect_request_id expected request_id
      fail_if (not (list_eq session_id expected_session)) session_id_mismatch
      gap_pending ← replay_gap replay_from output_offset
      ok (running (new_pty process_id (some session_id) output_offset gap_pending))
on_await_pty_attached expected expected_session replay_from m =
    unexpected (await_pty_attached expected expected_session replay_from) m

-- The phase after a message that `apply_running_message` took, by its flag and the message.
unfoldable pub after_running : RuntimeMessage → RuntimeProcessState × Bool → RuntimePhase
after_running _ (process, true) = closed
after_running (detach _) (process, false) = await_detached process
after_running _ (process, false) = running process

unfoldable pub on_running : RuntimeProcessState → RuntimeMessage → Moved
unfolding after_running
on_running process m = map_ok (after_running m) (apply_running_message process m)

-- `process.session_id.as_ref() != Some(session_id)`
unfoldable pub session_is : Option (List ℕ) → List ℕ → Bool
session_is none session_id = false
session_is (some s) session_id = list_eq s session_id

unfoldable pub after_detach : RuntimeProcessState × Bool → RuntimePhase
after_detach (process, true) = closed
after_detach (process, false) = await_detached process

unfoldable pub on_await_detached : RuntimeProcessState → RuntimeMessage → Moved
unfolding session_is after_detach
on_await_detached process (detached process_id session_id) = do
  expect_process_id process.process_id process_id
  fail_if (not (session_is process.session_id session_id)) session_id_mismatch
  ok closed
on_await_detached process (output_ack process_id stream next_offset) =
    map_ok after_detach (apply_running_message process (output_ack process_id stream next_offset))
on_await_detached process m = map_ok after_detach (apply_running_server_message process m)

-- `next_sequence < resume_from` under `if let Some(resume_from)`
unfoldable pub check_resume : Option ℕ → ℕ → Result RuntimeStateError (Unit {0})
check_resume none next_sequence = ok tt
check_resume (some resume_from) next_sequence =
    fail_if (ltb next_sequence resume_from)
      (offset_mismatch "watch resume" resume_from next_sequence)

-- `resume_from.filter(..).map(..)`
unfoldable pub watch_gap : Option ℕ → ℕ → Option (ℕ × ℕ)
watch_gap none next_sequence = none
watch_gap (some resume_from) next_sequence =
    if ltb resume_from next_sequence then some (resume_from, next_sequence) else none

unfoldable pub on_await_watch_started : ℕ → Option ℕ → RuntimeMessage → Moved
unfolding check_resume watch_gap
on_await_watch_started expected resume_from (watch_started request_id watch_id next_sequence) = do
  expect_request_id expected request_id
  check_resume resume_from next_sequence
  ok (
      watching (record {
        watch_id = watch_id;
        next_sequence = next_sequence;
        acked_sequence = next_sequence;
        gap_pending = watch_gap resume_from next_sequence;
      }))
on_await_watch_started expected resume_from m =
    unexpected (await_watch_started expected resume_from) m

unfoldable pub on_watching : RuntimeWatchState → RuntimeMessage → Moved
on_watching watch (watch_stop watch_id) = do
  expect_watch_id watch.watch_id watch_id
  ok (await_watch_stopped watch)
on_watching watch m = map_ok watching (apply_watch_message watch m)

unfoldable pub on_await_watch_stopped : RuntimeWatchState → RuntimeMessage → Moved
on_await_watch_stopped watch (watch_stopped watch_id) = do
  expect_watch_id watch.watch_id watch_id
  ok closed
on_await_watch_stopped watch m = map_ok await_watch_stopped (apply_watch_message watch m)

-- The match on `(phase, message)`, behind the test for `Error`.
unfoldable pub dispatch : RuntimePhase → CapabilitySet → RuntimeMessage → Moved
dispatch await_client_hello supported m = on_await_client_hello supported m
dispatch (await_server_hello expected) supported m = on_await_server_hello supported expected m
dispatch (ready capability) supported m = on_ready capability m
dispatch (await_process_started capability expected persistence) supported m =
    on_await_process_started capability expected persistence m
dispatch (await_pty_attached expected session replay_from) supported m =
    on_await_pty_attached expected session replay_from m
dispatch (running process) supported m = on_running process m
dispatch (await_detached process) supported m = on_await_detached process m
dispatch (await_watch_started expected resume_from) supported m =
    on_await_watch_started expected resume_from m
dispatch (watching watch) supported m = on_watching watch m
dispatch (await_watch_stopped watch) supported m = on_await_watch_stopped watch m
dispatch closed supported m = unexpected closed m

unfoldable pub is_closed_phase : RuntimePhase → Bool
is_closed_phase closed = true
is_closed_phase _ = false

unfoldable pub apply_message : RuntimePhase → CapabilitySet → RuntimeMessage → Moved
unfolding is_closed_phase
apply_message phase supported (error e) =
    if is_closed_phase phase then dispatch phase supported (error e) else ok closed
apply_message phase supported m = dispatch phase supported m
