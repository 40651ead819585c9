-- ===== src/Protocol/Transition/Starting.antt =====
-- The phases before a stream runs keep the invariant.
use nvim_remote_mirror.Prelude.{
  ℕ, ◌<◌, ◌≡◌, Option, none, some, List, ok, >>=-eq-ok, arith, u64_mod,
}
use nvim_remote_mirror.Protocol.Capability.{
  RuntimeCapability, process_pipe_v1, process_pty_v1, workspace_watch_v1, CapabilitySet,
}
use nvim_remote_mirror.Protocol.Types.{
  RuntimePersistence, attached, detachable, PtySessionCredentials,
}
use nvim_remote_mirror.Protocol.Message.{
  RuntimeMessage, client_hello, server_hello, start_process, process_started, attach_pty,
  pty_attached, watch_start, watch_started,
}
use nvim_remote_mirror.Protocol.Message.Wire.{IsWire}
use nvim_remote_mirror.Protocol.Phase.{RuntimePhase, new_pipe, new_pty}
use nvim_remote_mirror.Protocol.Expect.{expect_request_id}
use nvim_remote_mirror.Protocol.Transition.{
  unexpected, on_await_client_hello, on_await_server_hello, on_ready, process_start,
  on_await_process_started, on_await_pty_attached, on_await_watch_started,
}
use nvim_remote_mirror.Protocol.Transition.Sound.{PhaseSound}

pub on_ready-PhaseSound :
    (c : RuntimeCapability) (m : RuntimeMessage) {next : RuntimePhase}
    → on_ready c m ≡ ok next
    → PhaseSound next
unfolding on_ready unexpected
on_ready-PhaseSound process_pipe_v1 (start_process _ _) h = ground arith
on_ready-PhaseSound process_pty_v1 (start_process _ _) h = ground arith
on_ready-PhaseSound process_pty_v1 (attach_pty _ _ _) h = ground arith
on_ready-PhaseSound workspace_watch_v1 (watch_start _ _) h = ground arith
on_ready-PhaseSound process_pipe_v1 _ h = cc
on_ready-PhaseSound process_pty_v1 _ h = cc
on_ready-PhaseSound workspace_watch_v1 _ h = cc

pub process_start-PhaseSound :
    (c : RuntimeCapability) (persistence : RuntimePersistence)
    (session : Option PtySessionCredentials) (process_id output_offset : ℕ) {next : RuntimePhase}
    → output_offset < u64_mod
    → process_start c persistence session process_id output_offset ≡ ok next
    → PhaseSound next
unfolding process_start new_pipe new_pty
process_start-PhaseSound process_pipe_v1 attached none process_id o f h = ground arith
process_start-PhaseSound process_pipe_v1 _ _ process_id o f h = ground arith
process_start-PhaseSound process_pty_v1 attached none process_id o f h = ground arith
process_start-PhaseSound process_pty_v1 (detachable _) (some _) process_id o f h = ground arith
process_start-PhaseSound process_pty_v1 _ _ process_id o f h = ground arith
process_start-PhaseSound workspace_watch_v1 _ _ process_id o f h = ground arith

pub on_await_pty_attached-PhaseSound :
    (request_id : ℕ) (session : List ℕ) (replay_from : Option ℕ) (m : RuntimeMessage)
    {next : RuntimePhase}
    → IsWire m
    → on_await_pty_attached request_id session replay_from m ≡ ok next
    → PhaseSound next
unfolding on_await_pty_attached unexpected new_pty
on_await_pty_attached-PhaseSound request_id session none (pty_attached _ _ _ _) f h = ground arith
on_await_pty_attached-PhaseSound request_id session (some r) (pty_attached _ _ _ _) f h =
    ground arith
on_await_pty_attached-PhaseSound request_id session replay_from _ f h = ground arith

pub on_await_watch_started-PhaseSound :
    (request_id : ℕ) (resume_from : Option ℕ) (m : RuntimeMessage) {next : RuntimePhase}
    → IsWire m
    → on_await_watch_started request_id resume_from m ≡ ok next
    → PhaseSound next
unfolding on_await_watch_started unexpected
on_await_watch_started-PhaseSound request_id none (watch_started _ _ _) f h = ground arith
on_await_watch_started-PhaseSound request_id (some r) (watch_started _ _ _) f h = ground arith
on_await_watch_started-PhaseSound request_id resume_from _ f h = ground arith

pub on_await_process_started-PhaseSound :
    (c : RuntimeCapability) (request_id : ℕ) (persistence : RuntimePersistence) (m : RuntimeMessage)
    {next : RuntimePhase}
    → IsWire m
    → on_await_process_started c request_id persistence m ≡ ok next
    → PhaseSound next
unfolding on_await_process_started unexpected
on_await_process_started-PhaseSound c request_id persistence
      (process_started rid process_id session output_offset) wire h =
    process_start-PhaseSound c persistence session process_id output_offset wire.2
      (>>=-eq-ok (expect_request_id request_id rid) _ h).2
on_await_process_started-PhaseSound c request_id persistence _ wire h = ground arith

pub on_await_client_hello-PhaseSound :
    (s : CapabilitySet) (m : RuntimeMessage) {next : RuntimePhase}
    → on_await_client_hello s m ≡ ok next
    → PhaseSound next
unfolding on_await_client_hello unexpected
on_await_client_hello-PhaseSound s (client_hello _ _ _) h = ground arith
on_await_client_hello-PhaseSound s _ h = ground arith

pub on_await_server_hello-PhaseSound :
    (s : CapabilitySet) (c : RuntimeCapability) (m : RuntimeMessage) {next : RuntimePhase}
    → on_await_server_hello s c m ≡ ok next
    → PhaseSound next
unfolding on_await_server_hello unexpected
on_await_server_hello-PhaseSound s c (server_hello _ _ _) h = ground arith
on_await_server_hello-PhaseSound s c _ h = ground arith
