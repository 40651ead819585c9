-- ===== src/Protocol/Transition/Capability.antt =====
-- The capability of a stream is checked in the handshake and never changes after it.
mod Opening
mod Running
use nvim_remote_mirror.Prelude.{
  ℕ, ◌≡◌, refl, sym, ◌∙◌, subst, ◌⊎◌, inl, inr, ◌≢◌, Bool, true, false, Option, none, some, List,
  ok, map_ok-eq-ok, >>=-eq-ok, arith,
}
use nvim_remote_mirror.Protocol.Capability.{
  RuntimeCapability, process_pipe_v1, process_pty_v1, workspace_watch_v1, CapabilitySet,
  supports_runtime,
}
use nvim_remote_mirror.Protocol.Types.{
  RuntimePersistence, attached, detachable, PtySessionCredentials,
}
use nvim_remote_mirror.Protocol.Message.{
  RuntimeMessage, client_hello, server_hello, start_process, process_started, attach_pty,
  pty_attached, output_ack, detach, detached, watch_start, watch_started, watch_stop, watch_stopped,
}
use nvim_remote_mirror.Protocol.Phase.{
  RuntimeProcessState, RuntimeWatchState, RuntimePhase, await_client_hello, await_server_hello,
  ready, await_process_started, await_pty_attached, running, await_detached, await_watch_started,
  watching, await_watch_stopped, closed, new_pipe, new_pty, phase_capability,
}
use nvim_remote_mirror.Protocol.Expect.{expect_request_id}
use nvim_remote_mirror.Protocol.Process.{apply_running_message, apply_running_server_message}
use nvim_remote_mirror.Protocol.Process.Invariant.{
  apply_running_message-Follows, apply_running_server_message-Follows,
}
use nvim_remote_mirror.Protocol.Watch.{apply_watch_message}
use nvim_remote_mirror.Protocol.Transition.{
  unexpected, validate_protocol_and_capability, on_await_client_hello, on_await_server_hello,
  on_ready, process_start, on_await_process_started, on_await_pty_attached, after_running,
  on_running, on_await_detached, after_detach, on_await_watch_started, on_watching,
  on_await_watch_stopped, dispatch, apply_message,
}
use nvim_remote_mirror.Protocol.Transition.Invariant.{apply_message-eq-ok}
use nvim_remote_mirror.Protocol.Transition.Sound.{PhaseSound}
use nvim_remote_mirror.Protocol.Transition.Capability.Opening.{
  server_hello_keeps, ready_keeps, process_started_keeps, pty_attached_keeps, watch_started_keeps,
}
use nvim_remote_mirror.Protocol.Transition.Capability.Running.{
  running_keeps, await_detached_keeps, watching_keeps, watch_stopped_keeps,
}
use nvim_remote_mirror.Protocol.Transition.Capability.Opening.{KeepsCapability}

-- A capability named by a phase is one that the peer supports.
pub record Supported (supported : CapabilitySet) (phase : RuntimePhase) : Type 0 where
  pub holds :
      (c : RuntimeCapability)
      → phase_capability phase ≡ some c
      → supports_runtime supported c ≡ true

abbrev Named : RuntimePhase → Type 0
Named phase = (c : RuntimeCapability) × (phase_capability phase ≡ some c)

KeepsCapability-Supported :
    (s : CapabilitySet) (phase next : RuntimePhase)
    → Supported s phase
    → KeepsCapability phase next
    → Supported s next
unfolding phase_capability
KeepsCapability-Supported s phase next v (inl e) = record { holds = λ c h. absurd (named c h) }
  where
    named : (c : RuntimeCapability) → ¬ (phase_capability next ≡ some c)
    named c h = cc (sym e)
KeepsCapability-Supported s phase next v (inr e) = record { holds = λ c h. v.holds c (sym e ∙ h) }

client_hello_Supported :
    (s : CapabilitySet) (m : RuntimeMessage) {next : RuntimePhase}
    → on_await_client_hello s m ≡ ok next
    → Supported s next
unfolding on_await_client_hello unexpected validate_protocol_and_capability phase_capability
client_hello_Supported s (client_hello v n c) {next} h = record { holds = λ c' e. ground arith }
client_hello_Supported s _ h = record { holds = λ c e. cc }

module _ (s : CapabilitySet) (m : RuntimeMessage) {next : RuntimePhase} where
  dispatch_keeps :
      (phase : RuntimePhase)
      → PhaseSound phase
      → phase ≢ await_client_hello
      → dispatch phase s m ≡ ok next
      → KeepsCapability phase next
  unfolding dispatch unexpected
  dispatch_keeps await_client_hello v n h = absurd (n refl)
  dispatch_keeps (await_server_hello c) v n h = server_hello_keeps s c m h
  dispatch_keeps (ready c) v n h = ready_keeps c m h
  dispatch_keeps (await_process_started c request_id persistence) v n h =
      process_started_keeps c request_id persistence m h
  dispatch_keeps (await_pty_attached request_id session replay_from) v n h =
      pty_attached_keeps request_id session replay_from m h
  dispatch_keeps (running p) v n h = running_keeps p m v h
  dispatch_keeps (await_detached p) v n h = await_detached_keeps p m v h
  dispatch_keeps (await_watch_started request_id resume_from) v n h =
      watch_started_keeps request_id resume_from m h
  dispatch_keeps (watching w) v n h = watching_keeps w m h
  dispatch_keeps (await_watch_stopped w) v n h = watch_stopped_keeps w m h
  dispatch_keeps closed v n h = cc

Phase-cases : (phase : RuntimePhase) → (phase ≡ await_client_hello) ⊎ (phase ≢ await_client_hello)
Phase-cases await_client_hello = inl refl
Phase-cases _ = inr (λ e. cc)

module _ (s : CapabilitySet) (phase next : RuntimePhase) (m : RuntimeMessage) where
  -- Past the first hello, a message that is taken keeps the capability, or closes the stream.
  pub apply_message-KeepsCapability :
      PhaseSound phase
      → phase ≢ await_client_hello
      → apply_message phase s m ≡ ok next
      → KeepsCapability phase next
  apply_message-KeepsCapability v n h = elim (apply_message-eq-ok s phase next m h) [
    | inl e ↦ inl e
    | inr d ↦ dispatch_keeps s m phase v n d
  ]

  pub apply_message-Supported :
      PhaseSound phase → Supported s phase → apply_message phase s m ≡ ok next → Supported s next
  unfolding dispatch
  apply_message-Supported v sup h = elim (apply_message-eq-ok s phase next m h) [
    | inl e ↦ KeepsCapability-Supported s phase next sup (inl e)
    | inr d ↦ elim (Phase-cases phase) [
      | inl first ↦ client_hello_Supported s m (dispatched d first)
      | inr n ↦ KeepsCapability-Supported s phase next sup (dispatch_keeps s m phase v n d)
    ]
  ]
    where
      dispatched :
          dispatch phase s m ≡ ok next
          → phase ≡ await_client_hello
          → on_await_client_hello s m ≡ ok next
      dispatched d first = rw first at d
