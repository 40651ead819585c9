-- ===== src/Protocol/Transition/Delivery.antt =====
-- A stream that has a process: what a taken message does to its channels.
use nvim_remote_mirror.Prelude.{
  ◌≡◌, refl, subst, ◌⊎◌, inl, inr, Bool, true, false, Option, none, some, some-injective, ok,
  map_ok, map_ok-eq-ok, arith,
}
use nvim_remote_mirror.Protocol.Capability.{CapabilitySet}
use nvim_remote_mirror.Protocol.Message.{
  RuntimeMessage, input, close_input, output_ack, resize, signal, detach, detached,
}
use nvim_remote_mirror.Protocol.Phase.{
  RuntimeProcessState, RuntimePhase, running, await_detached, closed,
}
use nvim_remote_mirror.Protocol.Process.{apply_running_message, apply_running_server_message}
use nvim_remote_mirror.Protocol.Process.Stream.{Channel, Continues, apply_running_message-Continues}
use nvim_remote_mirror.Protocol.Transition.{
  after_running, on_running, after_detach, on_await_detached, dispatch, apply_message,
}
use nvim_remote_mirror.Protocol.Transition.Invariant.{apply_message-eq-ok}

-- The process of a phase that has one.
abbrev pub process_of : RuntimePhase → Option RuntimeProcessState
process_of (running p) = some p
process_of (await_detached p) = some p
process_of _ = none

-- The phase is closed, or its process comes from `p` by `m` on every channel.
abbrev pub Delivers : RuntimeProcessState → RuntimeMessage → RuntimePhase → Type 0
Delivers p m next =
    (next ≡ closed)
    ⊎ ((q : RuntimeProcessState) × (process_of next ≡ some q) × ((c : Channel) → Continues c p m q))

module _ (p : RuntimeProcessState) where
  server-eq-running :
      (m : RuntimeMessage) (r : RuntimeProcessState × Bool)
      → apply_running_server_message p m ≡ ok r
      → apply_running_message p m ≡ ok r
  unfolding apply_running_message
  server-eq-running (input _ _ _) r h = cc
  server-eq-running (close_input _ _) r h = cc
  server-eq-running (output_ack _ _ _) r h = cc
  server-eq-running (resize _ _) r h = cc
  server-eq-running (signal _ _) r h = cc
  server-eq-running (detach _) r h = cc
  server-eq-running m r h = h

  after_running-Delivers :
      (m : RuntimeMessage) (q : RuntimeProcessState) (b : Bool)
      → ((c : Channel) → Continues c p m q)
      → Delivers p m (after_running m (q, b))
  unfolding after_running
  after_running-Delivers m q true k = inl refl
  after_running-Delivers (detach _) q false k = inr (q, refl, k)
  after_running-Delivers _ q false k = inr (q, refl, k)

  after_detach-Delivers :
      (m : RuntimeMessage) (q : RuntimeProcessState) (b : Bool)
      → ((c : Channel) → Continues c p m q)
      → Delivers p m (after_detach (q, b))
  unfolding after_detach
  after_detach-Delivers m q true k = inl refl
  after_detach-Delivers m q false k = inr (q, refl, k)

  on_running-Delivers :
      (m : RuntimeMessage) {next : RuntimePhase} → on_running p m ≡ ok next → Delivers p m next
  unfolding on_running
  on_running-Delivers m h =
      let (r, e, f) = map_ok-eq-ok (after_running m) (apply_running_message p m) h in
      subst (Delivers p m) f
        (after_running-Delivers m r.0 r.1 (λ c. apply_running_message-Continues p r.0 r.1 c m e))

  detached_step :
      (m : RuntimeMessage) {next : RuntimePhase}
      → map_ok after_detach (apply_running_message p m) ≡ ok next
      → Delivers p m next
  detached_step m h =
      let (r, e, f) = map_ok-eq-ok after_detach (apply_running_message p m) h in
      subst (Delivers p m) f
        (after_detach-Delivers m r.0 r.1 (λ c. apply_running_message-Continues p r.0 r.1 c m e))

  detached_server_step :
      (m : RuntimeMessage) {next : RuntimePhase}
      → map_ok after_detach (apply_running_server_message p m) ≡ ok next
      → Delivers p m next
  detached_server_step m h =
      let (r, e, f) = map_ok-eq-ok after_detach (apply_running_server_message p m) h in
      subst (Delivers p m) f (
        after_detach-Delivers m r.0 r.1
          (λ c. apply_running_message-Continues p r.0 r.1 c m (server-eq-running m r e)))

  on_await_detached-Delivers :
      (m : RuntimeMessage) {next : RuntimePhase}
      → on_await_detached p m ≡ ok next
      → Delivers p m next
  unfolding on_await_detached
  on_await_detached-Delivers (detached _ _) h = inl (ground arith)
  on_await_detached-Delivers (output_ack process_id stream next_offset) h =
      detached_step (output_ack process_id stream next_offset) h
  on_await_detached-Delivers m h = detached_server_step m h

dispatch-Delivers :
    (phase : RuntimePhase) (p : RuntimeProcessState) (s : CapabilitySet) (m : RuntimeMessage)
    {next : RuntimePhase}
    → process_of phase ≡ some p
    → dispatch phase s m ≡ ok next
    → Delivers p m next
unfolding dispatch
dispatch-Delivers (running q) p s m {next} e h =
    subst (λ x. Delivers x m next) (some-injective q p e) (on_running-Delivers q m h)
dispatch-Delivers (await_detached q) p s m {next} e h =
    subst (λ x. Delivers x m next) (some-injective q p e) (on_await_detached-Delivers q m h)
dispatch-Delivers _ p s m e h = cc

pub apply_message-Delivers :
    (phase : RuntimePhase) (p : RuntimeProcessState) (s : CapabilitySet) (m : RuntimeMessage)
    {next : RuntimePhase}
    → process_of phase ≡ some p
    → apply_message phase s m ≡ ok next
    → Delivers p m next
apply_message-Delivers phase p s m {next} e h = elim (apply_message-eq-ok s phase next m h) [
  | inl closing ↦ inl closing
  | inr d ↦ dispatch-Delivers phase p s m e d
]
