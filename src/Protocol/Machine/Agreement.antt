-- ===== src/Protocol/Machine/Agreement.antt =====
-- The two ends of a runtime stream run the same machine: what one sends and the other receives
-- moves both in step.
use nvim_remote_mirror.Prelude.{ℕ, ◌≡◌, refl, Text, List, [], ◌∷◌, Result, ok, err, panic}
use nvim_remote_mirror.Protocol.Capability.{RuntimeCapability, CapabilitySet, supports_runtime}
use nvim_remote_mirror.Protocol.Types.{RuntimePeerRole, client, server}
use nvim_remote_mirror.Protocol.Message.{RuntimeMessage, client_hello, server_hello, error}
use nvim_remote_mirror.Protocol.Errors.{RuntimeStateError}
use nvim_remote_mirror.Protocol.Phase.{RuntimePhase, await_client_hello, await_server_hello}
use nvim_remote_mirror.Protocol.Transition.{
  validate_protocol_and_capability, on_await_client_hello, on_await_server_hello, dispatch,
  apply_message,
}
use nvim_remote_mirror.Protocol.Machine.{
  RuntimeDirection, inbound, outbound, RuntimeStateMachine, new, check, store, observe, observe_all,
  actual_sender,
}

abbrev pub other : RuntimePeerRole → RuntimePeerRole
other client = server
other server = client

abbrev pub opposite : RuntimeDirection → RuntimeDirection
opposite inbound = outbound
opposite outbound = inbound

-- The history of the other end.
abbrev pub mirrored :
    List (RuntimeDirection × RuntimeMessage) → List (RuntimeDirection × RuntimeMessage)
mirrored [] = []
mirrored ((direction, message) ∷ rest) = (opposite direction, message) ∷ mirrored rest

-- Two capability sets that support the same runtime capabilities.
abbrev pub SameRuntime : CapabilitySet → CapabilitySet → Type 0
SameRuntime s t = (c : RuntimeCapability) → supports_runtime s c ≡ supports_runtime t c

actual_sender-opposite :
    (role : RuntimePeerRole) (direction : RuntimeDirection)
    → actual_sender (other role) (opposite direction) ≡ actual_sender role direction
unfolding actual_sender
actual_sender-opposite client inbound = refl
actual_sender-opposite client outbound = refl
actual_sender-opposite server inbound = refl
actual_sender-opposite server outbound = refl

module _ (s t : CapabilitySet) (same : SameRuntime s t) where
  handshake_agrees :
      (v : Text) (n : ℕ) (c : RuntimeCapability)
      → validate_protocol_and_capability s v n c ≡ validate_protocol_and_capability t v n c
  unfolding validate_protocol_and_capability
  handshake_agrees v n c = rw (same c)

  client_hello_agrees : (m : RuntimeMessage) → on_await_client_hello s m ≡ on_await_client_hello t m
  unfolding on_await_client_hello
  client_hello_agrees (client_hello v n c) = rw (handshake_agrees v n c)
  client_hello_agrees _ = refl

  server_hello_agrees :
      (e : RuntimeCapability) (m : RuntimeMessage)
      → on_await_server_hello s e m ≡ on_await_server_hello t e m
  unfolding on_await_server_hello
  server_hello_agrees e (server_hello v n c) = rw (handshake_agrees v n c)
  server_hello_agrees e _ = refl

  dispatch_agrees :
      (phase : RuntimePhase) (m : RuntimeMessage) → dispatch phase s m ≡ dispatch phase t m
  unfolding dispatch
  dispatch_agrees await_client_hello m = client_hello_agrees m
  dispatch_agrees (await_server_hello e) m = server_hello_agrees e m
  dispatch_agrees _ m = refl

  apply_message_agrees :
      (phase : RuntimePhase) (m : RuntimeMessage)
      → apply_message phase s m ≡ apply_message phase t m
  unfolding apply_message
  apply_message_agrees phase (error e) = rw (dispatch_agrees phase (error e))
  apply_message_agrees phase m = dispatch_agrees phase m

  -- Two ends of one stream: opposite roles, the same phase.
  abbrev AreEnds : RuntimeStateMachine → RuntimeStateMachine → Type 0
  AreEnds m n =
      (n.role ≡ other m.role) × (n.phase ≡ m.phase) × (m.supported ≡ s) × (n.supported ≡ t)

  check_agrees :
      (m n : RuntimeStateMachine) (direction : RuntimeDirection) (message : RuntimeMessage)
      → AreEnds m n
      → check n (opposite direction) message ≡ check m direction message
  unfolding check
  check_agrees m n direction message e = rw (
    e.0,
    e.1,
    e.2,
    e.3,
    actual_sender-opposite m.role direction,
    apply_message_agrees m.phase message,
  )

  store-AreEnds :
      (m n : RuntimeStateMachine) (r : Result RuntimeStateError RuntimePhase)
      → AreEnds m n
      → AreEnds (store m r).0 (store n r).0
  unfolding store
  store-AreEnds m n (ok next) e = (e.0, refl, e.2, e.3)
  store-AreEnds m n (err x) e = e
  store-AreEnds m n panic e = e

  result-store :
      (m n : RuntimeStateMachine) (r : Result RuntimeStateError RuntimePhase)
      → (store n r).1 ≡ (store m r).1
  unfolding store
  result-store m n (ok next) = refl
  result-store m n (err e) = refl
  result-store m n panic = refl

  observe-AreEnds :
      (m n : RuntimeStateMachine) (direction : RuntimeDirection) (message : RuntimeMessage)
      → AreEnds m n
      → AreEnds (observe m direction message).0 (observe n (opposite direction) message).0
  unfolding observe
  observe-AreEnds m n direction message e =
      rw (check_agrees m n direction message e) (store-AreEnds m n (check m direction message) e)

  observe_result_agrees :
      (m n : RuntimeStateMachine) (direction : RuntimeDirection) (message : RuntimeMessage)
      → AreEnds m n
      → (observe n (opposite direction) message).1 ≡ (observe m direction message).1
  unfolding observe
  observe_result_agrees m n direction message e =
      rw (check_agrees m n direction message e) (result-store m n (check m direction message))

  observe_all-AreEnds :
      (m n : RuntimeStateMachine) (history : List (RuntimeDirection × RuntimeMessage))
      → AreEnds m n
      → AreEnds (observe_all m history) (observe_all n (mirrored history))
  unfolding observe_all
  observe_all-AreEnds m n [] e = e
  observe_all-AreEnds m n ((direction, message) ∷ rest) e =
      observe_all-AreEnds (observe m direction message).0 (observe n (opposite direction) message).0
        rest (observe-AreEnds m n direction message e)

  -- A client and a server that support the same runtime capabilities and see the same messages, one
  -- sending what the other receives, are always in the same phase; and of one more message both say
  -- the same, be it accepted or refused with the same error.
  pub ends_agree :
      (history : List (RuntimeDirection × RuntimeMessage)) (direction : RuntimeDirection)
      (message : RuntimeMessage)
      → let left = observe_all (new client s) history in
        let right = observe_all (new server t) (mirrored history) in
        (right.phase ≡ left.phase)
        × ((observe right (opposite direction) message).1 ≡ (observe left direction message).1)
  unfolding new
  ends_agree history direction message =
      let e = observe_all-AreEnds (new client s) (new server t) history (refl, refl, refl, refl) in
      (e.1, observe_result_agrees _ _ direction message e)
