-- ===== src/Protocol/Machine.antt =====
-- `RuntimeStateMachine` of crates/nrm-protocol/src/runtime.rs.
pub mod Invariant
pub mod Negotiation
pub mod Agreement
pub mod Closing
pub mod Delivery
use nvim_remote_mirror.Prelude.{
  Bool, true, false, not, Option, List, [], ◌∷◌, Result, ok, err, panic, fail_if, map_err, ◌>>◌,
}
use nvim_remote_mirror.Protocol.Capability.{RuntimeCapability, CapabilitySet}
use nvim_remote_mirror.Protocol.Types.{RuntimePeerRole, client, server}
use nvim_remote_mirror.Protocol.Message.{RuntimeMessage, sender, name}
use nvim_remote_mirror.Protocol.Errors.{RuntimeStateError, invalid_message, wrong_sender}
use nvim_remote_mirror.Protocol.Validate.{validate}
use nvim_remote_mirror.Protocol.Phase.{RuntimePhase, await_client_hello, phase_capability}
use nvim_remote_mirror.Protocol.Transition.{apply_message, is_closed_phase}

pub data RuntimeDirection : Type 0 where
  inbound outbound : RuntimeDirection

pub record RuntimeStateMachine : Type 0 where
  pub role : RuntimePeerRole
  pub supported : CapabilitySet
  pub phase : RuntimePhase

-- `RuntimeStateMachine::new`
unfoldable pub new : RuntimePeerRole → CapabilitySet → RuntimeStateMachine
new role supported = record { role = role; supported = supported; phase = await_client_hello }

unfoldable pub role_eq : RuntimePeerRole → RuntimePeerRole → Bool
role_eq client client = true
role_eq server server = true
role_eq _ _ = false

unfoldable pub actual_sender : RuntimePeerRole → RuntimeDirection → RuntimePeerRole
actual_sender client outbound = client
actual_sender server inbound = client
actual_sender client inbound = server
actual_sender server outbound = server

-- The part of `observe` before the new phase is stored: the checks, and `apply_message` on the
-- clone of the phase.
unfoldable pub check :
    RuntimeStateMachine → RuntimeDirection → RuntimeMessage → Result RuntimeStateError RuntimePhase
check m direction message = do
  map_err invalid_message (validate message)
  fail_if (not (role_eq (sender message) (actual_sender m.role direction)))
      (wrong_sender (name message) (sender message) (actual_sender m.role direction))
  apply_message m.phase m.supported message

-- The machine afterwards, and what is returned.
unfoldable pub store :
    RuntimeStateMachine
    → Result RuntimeStateError RuntimePhase
    → RuntimeStateMachine × Result RuntimeStateError (Unit {0})
store m (ok next) = (record m { phase = next }, ok tt)
store m (err e) = (m, err e)
store m panic = (m, panic)

unfoldable pub observe :
    RuntimeStateMachine
    → RuntimeDirection
    → RuntimeMessage
    → RuntimeStateMachine × Result RuntimeStateError (Unit {0})
unfolding store
observe m direction message = store m (check m direction message)

unfoldable pub observe_inbound :
    RuntimeStateMachine → RuntimeMessage → RuntimeStateMachine × Result RuntimeStateError (Unit {0})
observe_inbound m message = observe m inbound message

unfoldable pub observe_outbound :
    RuntimeStateMachine → RuntimeMessage → RuntimeStateMachine × Result RuntimeStateError (Unit {0})
observe_outbound m message = observe m outbound message

unfoldable pub negotiated_capability : RuntimeStateMachine → Option RuntimeCapability
negotiated_capability m = phase_capability m.phase

unfoldable pub is_closed : RuntimeStateMachine → Bool
is_closed m = is_closed_phase m.phase

-- A peer's history: what it saw in each direction, in order, errors included.
unfoldable pub observe_all :
    RuntimeStateMachine → List (RuntimeDirection × RuntimeMessage) → RuntimeStateMachine
observe_all m [] = m
observe_all m ((direction, message) ∷ rest) = observe_all (observe m direction message).0 rest
