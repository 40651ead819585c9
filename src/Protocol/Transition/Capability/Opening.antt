-- ===== src/Protocol/Transition/Capability/Opening.antt =====
-- The phases up to a running process or a watch keep the capability of the handshake.
use nvim_remote_mirror.Prelude.{ℕ, ◌≡◌, ◌⊎◌, inr, Option, none, some, List, ok, >>=-eq-ok, arith}
use nvim_remote_mirror.Protocol.Capability.{
  RuntimeCapability, process_pipe_v1, process_pty_v1, workspace_watch_v1, CapabilitySet,
}
use nvim_remote_mirror.Protocol.Types.{
  RuntimePersistence, attached, detachable, PtySessionCredentials,
}
use nvim_remote_mirror.Protocol.Message.{
  RuntimeMessage, server_hello, start_process, process_started, attach_pty, pty_attached,
  watch_start, watch_started,
}
use nvim_remote_mirror.Protocol.Phase.{
  RuntimePhase, await_server_hello, ready, await_process_started, await_pty_attached,
  await_watch_started, closed, new_pipe, new_pty, phase_capability,
}
use nvim_remote_mirror.Protocol.Expect.{expect_request_id}
use nvim_remote_mirror.Protocol.Transition.{
  unexpected, on_await_server_hello, on_ready, process_start, on_await_process_started,
  on_await_pty_attached, on_await_watch_started,
}

-- The next phase has the same capability, or the stream is closed.
abbrev pub KeepsCapability : RuntimePhase → RuntimePhase → Type 0
KeepsCapability phase next = (next ≡ closed) ⊎ (phase_capability next ≡ phase_capability phase)

pub server_hello_keeps :
    (s : CapabilitySet) (c : RuntimeCapability) (m : RuntimeMessage) {next : RuntimePhase}
    → on_await_server_hello s c m ≡ ok next
    → KeepsCapability (await_server_hello c) next
unfolding on_await_server_hello unexpected phase_capability
server_hello_keeps s process_pipe_v1 (server_hello _ _ process_pipe_v1) h = ground arith
server_hello_keeps s process_pty_v1 (server_hello _ _ process_pty_v1) h = ground arith
server_hello_keeps s workspace_watch_v1 (server_hello _ _ workspace_watch_v1) h = ground arith
server_hello_keeps s process_pipe_v1 (server_hello _ _ _) h = ground arith
server_hello_keeps s process_pty_v1 (server_hello _ _ _) h = ground arith
server_hello_keeps s workspace_watch_v1 (server_hello _ _ _) h = ground arith
server_hello_keeps s c _ h = cc

pub ready_keeps :
    (c : RuntimeCapability) (m : RuntimeMessage) {next : RuntimePhase}
    → on_ready c m ≡ ok next
    → KeepsCapability (ready c) next
unfolding on_ready unexpected phase_capability
ready_keeps process_pipe_v1 (start_process _ _) h = ground arith
ready_keeps process_pty_v1 (start_process _ _) h = ground arith
ready_keeps process_pty_v1 (attach_pty _ _ _) h = ground arith
ready_keeps workspace_watch_v1 (watch_start _ _) h = ground arith
ready_keeps process_pipe_v1 _ h = cc
ready_keeps process_pty_v1 _ h = cc
ready_keeps workspace_watch_v1 _ h = cc

pub process_start_keeps :
    (c : RuntimeCapability) (persistence : RuntimePersistence)
    (session : Option PtySessionCredentials) (process_id output_offset : ℕ) {next : RuntimePhase}
    → process_start c persistence session process_id output_offset ≡ ok next
    → phase_capability next ≡ some c
unfolding process_start new_pipe new_pty phase_capability
process_start_keeps process_pipe_v1 attached none process_id o h = ground arith
process_start_keeps process_pipe_v1 _ _ process_id o h = cc
process_start_keeps process_pty_v1 attached none process_id o h = ground arith
process_start_keeps process_pty_v1 (detachable _) (some _) process_id o h = ground arith
process_start_keeps process_pty_v1 _ _ process_id o h = cc
process_start_keeps workspace_watch_v1 _ _ process_id o h = cc

pub process_started_keeps :
    (c : RuntimeCapability) (request_id : ℕ) (persistence : RuntimePersistence) (m : RuntimeMessage)
    {next : RuntimePhase}
    → on_await_process_started c request_id persistence m ≡ ok next
    → KeepsCapability (await_process_started c request_id persistence) next
unfolding on_await_process_started unexpected phase_capability
process_started_keeps c request_id persistence (process_started rid process_id session o) {next} h =
    inr (
      process_start_keeps c persistence session process_id o
        (>>=-eq-ok (expect_request_id request_id rid) _ h).2)
process_started_keeps c request_id persistence _ h = cc

pub pty_attached_keeps :
    (request_id : ℕ) (session : List ℕ) (replay_from : Option ℕ) (m : RuntimeMessage)
    {next : RuntimePhase}
    → on_await_pty_attached request_id session replay_from m ≡ ok next
    → KeepsCapability (await_pty_attached request_id session replay_from) next
unfolding on_await_pty_attached unexpected new_pty phase_capability
pty_attached_keeps request_id session none (pty_attached _ _ _ _) h = ground arith
pty_attached_keeps request_id session (some r) (pty_attached _ _ _ _) h = ground arith
pty_attached_keeps request_id session replay_from _ h = cc

pub watch_started_keeps :
    (request_id : ℕ) (resume_from : Option ℕ) (m : RuntimeMessage) {next : RuntimePhase}
    → on_await_watch_started request_id resume_from m ≡ ok next
    → KeepsCapability (await_watch_started request_id resume_from) next
unfolding on_await_watch_started unexpected phase_capability
watch_started_keeps request_id none (watch_started _ _ _) h = ground arith
watch_started_keeps request_id (some r) (watch_started _ _ _) h = ground arith
watch_started_keeps request_id resume_from _ h = cc
