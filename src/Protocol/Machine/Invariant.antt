-- ===== src/Protocol/Machine/Invariant.antt =====
-- The state machine of a runtime stream over whole histories: its invariant, and that it never
-- panics.
use nvim_remote_mirror.Prelude.{
  ◌≡◌, refl, ◌≢◌, List, [], ◌∷◌, All, Result, ok, err, panic, arith, true,
}
use nvim_remote_mirror.Protocol.Capability.{CapabilitySet}
use nvim_remote_mirror.Protocol.Types.{RuntimePeerRole}
use nvim_remote_mirror.Protocol.Message.{RuntimeMessage, sender}
use nvim_remote_mirror.Protocol.Message.Wire.{IsWire}
use nvim_remote_mirror.Protocol.Errors.{RuntimeStateError}
use nvim_remote_mirror.Protocol.Validate.{validate}
use nvim_remote_mirror.Protocol.Validate.Total.{validate-ne-panic}
use nvim_remote_mirror.Protocol.Phase.{RuntimePhase}
use nvim_remote_mirror.Protocol.Transition.{apply_message}
use nvim_remote_mirror.Protocol.Transition.Sound.{PhaseSound}
use nvim_remote_mirror.Protocol.Transition.Invariant.{apply_message-PhaseSound}
use nvim_remote_mirror.Protocol.Transition.Total.{apply_message-ne-panic}
use nvim_remote_mirror.Protocol.Machine.{
  RuntimeDirection, RuntimeStateMachine, new, check, store, observe, observe_all, role_eq,
  actual_sender,
}

-- What a message that `check` accepts has passed.
pub record Passed (m : RuntimeStateMachine) (direction : RuntimeDirection)
    (message : RuntimeMessage) (next : RuntimePhase) : Type 0 where
  pub valid : validate message ≡ ok tt
  pub from_sender : role_eq (sender message) (actual_sender m.role direction) ≡ true
  pub applied : apply_message m.phase m.supported message ≡ ok next

pub check-Passed :
    (m : RuntimeStateMachine) (direction : RuntimeDirection) (message : RuntimeMessage)
    {next : RuntimePhase}
    → check m direction message ≡ ok next
    → Passed m direction message next
unfolding check
check-Passed m direction message h = ground arith

pub record IsSound (m : RuntimeStateMachine) : Type 0 where
  pub phase_sound : PhaseSound m.phase

pub new-IsSound :
    (role : RuntimePeerRole) (supported : CapabilitySet) → IsSound (new role supported)
unfolding new
new-IsSound role supported = record { phase_sound = tt }

-- A message that a sound machine takes, or refuses, leaves a sound machine.
pub observe-IsSound :
    (m : RuntimeStateMachine) (direction : RuntimeDirection) (message : RuntimeMessage)
    → IsSound m
    → IsWire message
    → IsSound (observe m direction message).0
unfolding observe
observe-IsSound m direction message v wire = by_result (check m direction message) refl
  where
    by_result :
        (r : Result RuntimeStateError RuntimePhase)
        → check m direction message ≡ r
        → IsSound (store m r).0
    by_result (ok next) e =
        let passed = check-Passed m direction message e in
        record {
          phase_sound =
              apply_message-PhaseSound m.supported m.phase next message v.phase_sound wire
                passed.valid passed.applied;
        }
    by_result (err e) h = v
    by_result panic h = v

abbrev pub History : Type 0
History = List (RuntimeDirection × RuntimeMessage)

-- Every message of the history was decoded from 64-bit fields.
abbrev pub AllWire : History → Type 0
AllWire history = All (λ event. IsWire event.1) history

-- From the start, whatever the peers send, the machine stays sound.
pub observe_all-IsSound :
    (m : RuntimeStateMachine) (history : History)
    → IsSound m
    → AllWire history
    → IsSound (observe_all m history)
unfolding observe_all
observe_all-IsSound m [] v wire = v
observe_all-IsSound m ((direction, message) ∷ rest) v wire =
    observe_all-IsSound (observe m direction message).0 rest
      (observe-IsSound m direction message v wire.0) wire.1

-- From the start, whatever the peers send, the phase is sound: a process that runs or is being
-- detached has acknowledged no more than was sent, on its input and on each output, with offsets of
-- 64 bits, and its gap ends where its output stands; a pipe has no session, and only a PTY with a
-- session is ever detached; a watch has acknowledged no more than it was sent; and a process is
-- awaited only under a process capability.
pub reached_phase-PhaseSound :
    (role : RuntimePeerRole) (supported : CapabilitySet) (history : History)
    → AllWire history
    → PhaseSound (observe_all (new role supported) history).phase
reached_phase-PhaseSound role supported history wire =
    (observe_all-IsSound (new role supported) history (new-IsSound role supported) wire).phase_sound

pub check-ne-panic :
    (m : RuntimeStateMachine) (direction : RuntimeDirection) (message : RuntimeMessage)
    → IsSound m
    → check m direction message ≢ panic
unfolding check
check-ne-panic m direction message v h = ground (
  arith,
  apply_message-ne-panic m.supported message m.phase v.phase_sound,
  validate-ne-panic message,
)

-- Whatever a peer has seen before, observing one more message does not reach `unreachable!()`.
pub observe_never_panics :
    (role : RuntimePeerRole) (supported : CapabilitySet) (history : History)
    (direction : RuntimeDirection) (message : RuntimeMessage)
    → AllWire history
    → (observe (observe_all (new role supported) history) direction message).1 ≢ panic
unfolding observe store
observe_never_panics role supported history direction message wire h =
    let m = observe_all (new role supported) history in
    let v = observe_all-IsSound (new role supported) history (new-IsSound role supported) wire in
    ground (arith, check-ne-panic m direction message v)
