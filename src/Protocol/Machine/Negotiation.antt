-- ===== src/Protocol/Machine/Negotiation.antt =====
-- The capability that a runtime stream negotiates: supported by the peer, and fixed until the
-- stream closes.
use nvim_remote_mirror.Prelude.{
  ◌≡◌, refl, ◌≢◌, ◌⊎◌, inl, inr, true, false, none, some, [], ◌∷◌, Result, ok, err, panic,
  Option-cases, false≢true, sym, ap, ◌∙◌,
}
use nvim_remote_mirror.Protocol.Capability.{
  RuntimeCapability, process_pipe_v1, process_pty_v1, workspace_watch_v1, CapabilitySet,
  supports_runtime, v1_agent,
}
use nvim_remote_mirror.Protocol.Types.{RuntimePeerRole}
use nvim_remote_mirror.Protocol.Message.{RuntimeMessage}
use nvim_remote_mirror.Protocol.Errors.{RuntimeStateError}
use nvim_remote_mirror.Protocol.Phase.{RuntimePhase, await_client_hello, phase_capability}
use nvim_remote_mirror.Protocol.Transition.{is_closed_phase}
use nvim_remote_mirror.Protocol.Transition.Capability.{
  Supported, apply_message-Supported, apply_message-KeepsCapability,
}
use nvim_remote_mirror.Protocol.Machine.{
  RuntimeDirection, RuntimeStateMachine, new, check, store, observe, observe_all,
  negotiated_capability, is_closed,
}
use nvim_remote_mirror.Protocol.Machine.Invariant.{
  IsSound, new-IsSound, observe-IsSound, History, AllWire, check-Passed,
}

-- To prove a fact of the machine after a message: as it was, or moved to an accepted phase.
pub observe_cases {ℓ} :
    (P : RuntimeStateMachine → Type ℓ) (m : RuntimeStateMachine) (direction : RuntimeDirection)
    (message : RuntimeMessage)
    → P m
    → ((next : RuntimePhase) → check m direction message ≡ ok next → P (record m { phase = next }))
    → P (observe m direction message).0
unfolding observe
observe_cases P m direction message same moved = by_result (check m direction message) moved
  where
    by_result :
        (r : Result RuntimeStateError RuntimePhase)
        → ((next : RuntimePhase) → r ≡ ok next → P (record m { phase = next }))
        → P (store m r).0
    by_result (ok next) k = k next refl
    by_result (err e) k = same
    by_result panic k = same

abbrev NegotiatedIn : CapabilitySet → RuntimeStateMachine → Type 0
NegotiatedIn supported m = (m.supported ≡ supported) × Supported supported m.phase

observe-NegotiatedIn :
    (supported : CapabilitySet) (m : RuntimeStateMachine) (direction : RuntimeDirection)
    (message : RuntimeMessage)
    → IsSound m
    → NegotiatedIn supported m
    → NegotiatedIn supported (observe m direction message).0
observe-NegotiatedIn supported m direction message v n =
    observe_cases (NegotiatedIn supported) m direction message n λ next h. (
      n.0,
      apply_message-Supported supported m.phase next message v.phase_sound n.1
          (rw n.0 at (check-Passed m direction message h).applied),
    )

observe_all-NegotiatedIn :
    (supported : CapabilitySet) (m : RuntimeStateMachine) (history : History)
    → IsSound m
    → AllWire history
    → NegotiatedIn supported m
    → NegotiatedIn supported (observe_all m history)
unfolding observe_all
observe_all-NegotiatedIn supported m [] v wire n = n
observe_all-NegotiatedIn supported m ((direction, message) ∷ rest) v wire n =
    observe_all-NegotiatedIn supported (observe m direction message).0 rest
      (observe-IsSound m direction message v wire.0) wire.1
      (observe-NegotiatedIn supported m direction message v n)

new-NegotiatedIn :
    (role : RuntimePeerRole) (supported : CapabilitySet)
    → NegotiatedIn supported (new role supported)
unfolding new phase_capability
new-NegotiatedIn role supported = (refl, record { holds = λ c h. cc })

-- Whatever has happened on the stream, the capability that a peer reports as negotiated is one that
-- its own set supports.
pub negotiated_capability-supported :
    (role : RuntimePeerRole) (supported : CapabilitySet) (history : History) (c : RuntimeCapability)
    → AllWire history
    → negotiated_capability (observe_all (new role supported) history) ≡ some c
    → supports_runtime supported c ≡ true
unfolding negotiated_capability
negotiated_capability-supported role supported history c wire h =
    (observe_all-NegotiatedIn supported (new role supported) history (new-IsSound role supported)
        wire (new-NegotiatedIn role supported)).1.holds
      c h

v1_agent_supports_none : (c : RuntimeCapability) → supports_runtime v1_agent c ≡ false
unfolding supports_runtime v1_agent
v1_agent_supports_none process_pipe_v1 = refl
v1_agent_supports_none process_pty_v1 = refl
v1_agent_supports_none workspace_watch_v1 = refl

-- With the capabilities of `CapabilitySet::v1_agent` no history negotiates a runtime stream.
pub v1_agent_never_negotiates :
    (role : RuntimePeerRole) (history : History)
    → AllWire history
    → negotiated_capability (observe_all (new role v1_agent) history) ≡ none
v1_agent_never_negotiates role history wire =
    elim (Option-cases (negotiated_capability (observe_all (new role v1_agent) history))) [
      | inl e ↦ e
      | inr (c, e) ↦ absurd (
          false≢true (
            sym (v1_agent_supports_none c)
            ∙ negotiated_capability-supported role v1_agent history c wire e))
    ]

named_started :
    (phase : RuntimePhase) (c : RuntimeCapability)
    → phase_capability phase ≡ some c
    → phase ≢ await_client_hello
unfolding phase_capability
named_started await_client_hello c h e = cc
named_started _ c h e = cc

-- Once a capability is negotiated, each further message leaves it, or the stream is closed.
pub negotiated_capability-observe :
    (m : RuntimeStateMachine) (direction : RuntimeDirection) (message : RuntimeMessage)
    (c : RuntimeCapability)
    → IsSound m
    → negotiated_capability m ≡ some c
    → (negotiated_capability (observe m direction message).0 ≡ some c)
      ⊎ (is_closed (observe m direction message).0 ≡ true)
unfolding negotiated_capability is_closed is_closed_phase
negotiated_capability-observe m direction message c v h =
    observe_cases (λ n. (phase_capability n.phase ≡ some c) ⊎ (is_closed_phase n.phase ≡ true)) m
      direction message (inl h) moved
  where
    started : m.phase ≢ await_client_hello
    started = named_started m.phase c h

    moved :
        (next : RuntimePhase)
        → check m direction message ≡ ok next
        → (phase_capability next ≡ some c) ⊎ (is_closed_phase next ≡ true)
    moved next k =
        elim (apply_message-KeepsCapability m.supported m.phase next message v.phase_sound started
          (check-Passed m direction message k).applied) [
            | inl e ↦ inr (ap is_closed_phase e)
            | inr e ↦ inl (e ∙ h)
          ]
