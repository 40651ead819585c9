-- ===== src/Protocol/Transition/Invariant.antt =====
-- `apply_message` keeps the invariant of a phase.
use nvim_remote_mirror.Prelude.{◌≡◌, ◌⊎◌, inl, inr, ok, arith}
use nvim_remote_mirror.Protocol.Capability.{CapabilitySet}
use nvim_remote_mirror.Protocol.Message.{RuntimeMessage, error}
use nvim_remote_mirror.Protocol.Message.Wire.{IsWire}
use nvim_remote_mirror.Protocol.Validate.{validate}
use nvim_remote_mirror.Protocol.Phase.{
  RuntimePhase, await_client_hello, await_server_hello, ready, await_process_started,
  await_pty_attached, running, await_detached, await_watch_started, watching, await_watch_stopped,
  closed,
}
use nvim_remote_mirror.Protocol.Transition.{unexpected, dispatch, apply_message}
use nvim_remote_mirror.Protocol.Transition.Sound.{PhaseSound}
use nvim_remote_mirror.Protocol.Transition.Starting.{
  on_ready-PhaseSound, on_await_pty_attached-PhaseSound, on_await_watch_started-PhaseSound,
  on_await_process_started-PhaseSound, on_await_client_hello-PhaseSound,
  on_await_server_hello-PhaseSound,
}
use nvim_remote_mirror.Protocol.Transition.Streaming.{
  on_running-PhaseSound, on_await_detached-PhaseSound, on_watching-PhaseSound,
  on_await_watch_stopped-PhaseSound,
}

module _ (supported : CapabilitySet) (m : RuntimeMessage) {next : RuntimePhase} where
  dispatch-PhaseSound :
      (phase : RuntimePhase)
      → PhaseSound phase
      → IsWire m
      → validate m ≡ ok tt
      → dispatch phase supported m ≡ ok next
      → PhaseSound next
  unfolding dispatch unexpected
  dispatch-PhaseSound await_client_hello v wire valid h =
      on_await_client_hello-PhaseSound supported m h
  dispatch-PhaseSound (await_server_hello c) v wire valid h =
      on_await_server_hello-PhaseSound supported c m h
  dispatch-PhaseSound (ready c) v wire valid h = on_ready-PhaseSound c m h
  dispatch-PhaseSound (await_process_started c request_id persistence) v wire valid h =
      on_await_process_started-PhaseSound c request_id persistence m wire h
  dispatch-PhaseSound (await_pty_attached request_id session replay_from) v wire valid h =
      on_await_pty_attached-PhaseSound request_id session replay_from m wire h
  dispatch-PhaseSound (running p) v wire valid h = on_running-PhaseSound p m v h
  dispatch-PhaseSound (await_detached p) v wire valid h = on_await_detached-PhaseSound p m v h
  dispatch-PhaseSound (await_watch_started request_id resume_from) v wire valid h =
      on_await_watch_started-PhaseSound request_id resume_from m wire h
  dispatch-PhaseSound (watching w) v wire valid h = on_watching-PhaseSound w m v wire valid h
  dispatch-PhaseSound (await_watch_stopped w) v wire valid h =
      on_await_watch_stopped-PhaseSound w m v wire valid h
  dispatch-PhaseSound closed v wire valid h = cc

-- An accepted `Error` closes the stream; any other message is dispatched on the phase.
pub apply_message-eq-ok :
    (supported : CapabilitySet) (phase next : RuntimePhase) (m : RuntimeMessage)
    → apply_message phase supported m ≡ ok next
    → (next ≡ closed) ⊎ (dispatch phase supported m ≡ ok next)
unfolding apply_message
apply_message-eq-ok supported phase next (error e) h = ground arith
apply_message-eq-ok supported phase next m h = inr h

-- `apply_message` keeps the invariant of the phase.
pub apply_message-PhaseSound :
    (supported : CapabilitySet) (phase next : RuntimePhase) (m : RuntimeMessage)
    → PhaseSound phase
    → IsWire m
    → validate m ≡ ok tt
    → apply_message phase supported m ≡ ok next
    → PhaseSound next
apply_message-PhaseSound supported phase next m v wire valid h =
    elim (apply_message-eq-ok supported phase next m h) [
      | inl e ↦ rw e tt
      | inr d ↦ dispatch-PhaseSound supported m phase v wire valid d
    ]
