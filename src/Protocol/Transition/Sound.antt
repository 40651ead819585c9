-- ===== src/Protocol/Transition/Sound.antt =====
-- The invariant of a phase of the runtime state machine.
use nvim_remote_mirror.Prelude.{◌≡◌, ◌≢◌, true, is_some}
use nvim_remote_mirror.Protocol.Capability.{workspace_watch_v1}
use nvim_remote_mirror.Protocol.Phase.{
  RuntimePhase, await_process_started, running, await_detached, watching, await_watch_stopped,
}
use nvim_remote_mirror.Protocol.Process.Invariant.{IsSound}
use nvim_remote_mirror.Protocol.Watch.Invariant as WatchInvariant

-- Only PTYs with a session wait for `Detached`; a process starts only under a process capability.
abbrev pub PhaseSound : RuntimePhase → Type 0
PhaseSound (await_process_started capability _ _) = capability ≢ workspace_watch_v1
PhaseSound (running p) = IsSound p
PhaseSound (await_detached p) = IsSound p × (p.pty ≡ true) × (is_some p.session_id ≡ true)
PhaseSound (watching w) = WatchInvariant.IsSound w
PhaseSound (await_watch_stopped w) = WatchInvariant.IsSound w
PhaseSound _ = Unit
