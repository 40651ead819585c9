-- ===== src/Protocol/Tests/Machines.antt =====
-- Runs of the state machine: a handshake, and a PTY that is attached with a gap in its output.
use nvim_remote_mirror.Prelude.{
  ◌≡◌, ◌≢◌, ◌⊎◌, refl, true, false, none, some, [], ◌∷◌, ok, panic, arith,
}
use nvim_remote_mirror.Protocol.Tests.Open.{machine_open}
use nvim_remote_mirror.Protocol.Capability.{
  process_pty_v1, CapabilitySet, v1_agent, supports_runtime, cargo_pkg_version,
}
use nvim_remote_mirror.Protocol.Types.{client, server, pty, PtySessionCredentials}
use nvim_remote_mirror.Protocol.Message.{
  client_hello, server_hello, attach_pty, pty_attached, output_gap, output, output_ack, detach,
  detached, watch_overflow,
}
use nvim_remote_mirror.Protocol.Phase.{
  RuntimeProcessState, RuntimeWatchState, running, closed, new_pty,
}
use nvim_remote_mirror.Protocol.Process.Gap.{is_output_or_ack, IsMarker, gap_first}
use nvim_remote_mirror.Protocol.Process.Invariant.{
  Follows, new_pty-IsSound, apply_running_message-Follows,
}
use nvim_remote_mirror.Protocol.Process.Stream.{output_channel}
use nvim_remote_mirror.Protocol.Watch.Invariant as WatchInvariant
use nvim_remote_mirror.Protocol.Transition.Sound.{PhaseSound}
use nvim_remote_mirror.Protocol.Machine.{
  inbound, outbound, RuntimeStateMachine, new, observe, observe_all, negotiated_capability,
  is_closed,
}
use nvim_remote_mirror.Protocol.Machine.Invariant.{
  History, AllWire, observe_never_panics, reached_phase-PhaseSound, observe_all-IsSound,
  new-IsSound,
}
use nvim_remote_mirror.Protocol.Machine.Invariant as Reach
use nvim_remote_mirror.Protocol.Machine.Negotiation.{
  negotiated_capability-supported, negotiated_capability-observe, v1_agent_never_negotiates,
}
use nvim_remote_mirror.Protocol.Machine.Agreement.{mirrored, ends_agree}
use nvim_remote_mirror.Protocol.Machine.Closing.{closed_stays}
use nvim_remote_mirror.Protocol.Machine.Delivery.{accepted, Delivered, observe_all-Delivered}

-- An agent with the PTY runtime.
abbrev pty_agent : CapabilitySet
pty_agent = record v1_agent { runtime_pty_v1 = true }

abbrev credentials : PtySessionCredentials
credentials = record { session_id = 7 ∷ []; attachment_token = 9 ∷ [] }

abbrev handshake : History
handshake =
    (outbound, client_hello cargo_pkg_version 8 process_pty_v1)
    ∷ (inbound, server_hello cargo_pkg_version 8 process_pty_v1)
    ∷ []

abbrev attach : History
attach =
    (outbound, client_hello cargo_pkg_version 8 process_pty_v1)
    ∷ (inbound, server_hello cargo_pkg_version 8 process_pty_v1)
    ∷ (outbound, attach_pty 1 credentials (some 5))
    ∷ (inbound, pty_attached 1 3 (7 ∷ []) 9)
    ∷ []

-- The marker of the gap, output out of place, output, its acknowledgement.
abbrev replay : History
replay =
    (inbound, output_gap 3 5 9 [])
    ∷ (inbound, output 3 pty 5 (65 ∷ []))
    ∷ (inbound, output 3 pty 9 (65 ∷ 66 ∷ []))
    ∷ (outbound, output_ack 3 pty 11)
    ∷ (inbound, output 3 pty 11 (67 ∷ []))
    ∷ []

abbrev attached_machine : RuntimeStateMachine
attached_machine = record {
  role = client;
  supported = pty_agent;
  phase = running (new_pty 3 (some (7 ∷ [])) 9 (some (5, 9)));
}

attach_runs : observe_all (new client pty_agent) attach ≡ attached_machine
unfolding machine_open
attach_runs = refl

abbrev replayed : RuntimeProcessState
replayed = record {
  process_id = 3;
  pty = true;
  session_id = some (7 ∷ []);
  input_sent = 0;
  input_acked = 0;
  input_closed = false;
  stdout = record { next = 0; acked = 0 };
  stderr = record { next = 0; acked = 0 };
  pty_output = record { next = 12; acked = 11 };
  gap_pending = none;
}

replay_runs :
    observe_all attached_machine replay ≡ record attached_machine { phase = running replayed }
unfolding machine_open
replay_runs = refl

observe_all-Delivered_example :
    Delivered (output_channel pty) (accepted attached_machine replay) 9 12
unfolding machine_open
observe_all-Delivered_example =
    observe_all-Delivered (output_channel pty) attached_machine replay
      (new_pty 3 (some (7 ∷ [])) 9 (some (5, 9))) replayed refl refl

ends_agree_example :
    (observe_all (new server pty_agent) (mirrored handshake)).phase
    ≡ (observe_all (new client pty_agent) handshake).phase
ends_agree_example = (ends_agree pty_agent pty_agent (λ c. refl) handshake inbound (detach 3)).0

observe_never_panics_example :
    (observe (observe_all (new client pty_agent) attach) inbound (output_gap 3 5 9 [])).1 ≢ panic
observe_never_panics_example =
    observe_never_panics client pty_agent attach inbound (output_gap 3 5 9 []) (omega arith)

reached_phase-PhaseSound_example : PhaseSound (observe_all (new client pty_agent) attach).phase
reached_phase-PhaseSound_example = reached_phase-PhaseSound client pty_agent attach (omega arith)

negotiated_capability-supported_example : supports_runtime pty_agent process_pty_v1 ≡ true
unfolding machine_open
negotiated_capability-supported_example =
    negotiated_capability-supported client pty_agent handshake process_pty_v1 (omega arith) refl

attached_machine-IsSound : Reach.IsSound attached_machine
attached_machine-IsSound =
    rw attach_runs at (
      observe_all-IsSound (new client pty_agent) attach (new-IsSound client pty_agent)
        (omega arith))

negotiated_capability-observe_example :
    (negotiated_capability (observe attached_machine outbound (detach 3)).0 ≡ some process_pty_v1)
    ⊎ (is_closed (observe attached_machine outbound (detach 3)).0 ≡ true)
unfolding machine_open
negotiated_capability-observe_example =
    negotiated_capability-observe attached_machine outbound (detach 3) process_pty_v1
      attached_machine-IsSound refl

v1_agent_never_negotiates_example :
    negotiated_capability (observe_all (new server v1_agent) (mirrored handshake)) ≡ none
v1_agent_never_negotiates_example =
    v1_agent_never_negotiates server (mirrored handshake) (omega arith)

abbrev closed_machine : RuntimeStateMachine
closed_machine = record { role = client; supported = pty_agent; phase = closed }

closed_stays_example :
    (observe_all closed_machine replay ≡ closed_machine)
    × ((observe closed_machine inbound (detached 3 (7 ∷ []))).1 ≢ ok tt)
unfolding machine_open
closed_stays_example = closed_stays closed_machine replay inbound (detached 3 (7 ∷ [])) refl

abbrev gap_process : RuntimeProcessState
gap_process = record replayed {
  pty_output = record { next = 9; acked = 9 };
  gap_pending = some (5, 9);
}

abbrev after_gap : RuntimeProcessState
after_gap = record gap_process { gap_pending = none }

gap_first_example :
    (is_output_or_ack (output_gap 3 5 9 []) ≡ false)
    × (after_gap.pty_output ≡ gap_process.pty_output)
    × ((after_gap.gap_pending ≡ some (5, 9))
        ⊎ (IsMarker gap_process 5 9 (output_gap 3 5 9 []) × (after_gap.gap_pending ≡ none)))
unfolding machine_open
gap_first_example = gap_first gap_process after_gap false 5 9 (output_gap 3 5 9 []) refl refl

apply_running_message-Follows_example : Follows gap_process after_gap
unfolding machine_open
apply_running_message-Follows_example =
    apply_running_message-Follows gap_process {b = false}
      (new_pty-IsSound 3 (some (7 ∷ [])) 9 (some (5, 9)) (omega arith) (omega arith))
      (output_gap 3 5 9 []) refl

abbrev resumed : RuntimeWatchState
resumed = record { watch_id = 4; next_sequence = 9; acked_sequence = 9; gap_pending = some (5, 9) }

apply_watch_message-Follows_example :
    WatchInvariant.Follows resumed (record resumed { gap_pending = none })
unfolding machine_open
apply_watch_message-Follows_example =
    WatchInvariant.apply_watch_message-Follows resumed (omega arith) (watch_overflow 4 5 9)
      (omega arith) refl refl
