-- ===== src/Protocol/Transition/Capability/Running.antt =====
-- A running process and a watch keep the capability of the handshake.
use nvim_remote_mirror.Prelude.{
  ◌≡◌, refl, subst, inl, inr, Bool, true, false, ok, map_ok-eq-ok, arith,
}
use nvim_remote_mirror.Protocol.Message.{
  RuntimeMessage, output_ack, detach, detached, watch_stop, watch_stopped,
}
use nvim_remote_mirror.Protocol.Phase.{
  RuntimeProcessState, RuntimeWatchState, RuntimePhase, running, await_detached, watching,
  await_watch_stopped, phase_capability,
}
use nvim_remote_mirror.Protocol.Process.{apply_running_message, apply_running_server_message}
use nvim_remote_mirror.Protocol.Process.Invariant.{
  apply_running_message-Follows, apply_running_server_message-Follows,
}
use nvim_remote_mirror.Protocol.Watch.{apply_watch_message}
use nvim_remote_mirror.Protocol.Transition.{
  after_running, on_running, on_await_detached, after_detach, on_watching, on_await_watch_stopped,
}
use nvim_remote_mirror.Protocol.Transition.Sound.{PhaseSound}
use nvim_remote_mirror.Protocol.Transition.Capability.Opening.{KeepsCapability}

module _ (p : RuntimeProcessState) where
  pub after_running_keeps :
      (m : RuntimeMessage) (q : RuntimeProcessState) (b : Bool)
      → q.pty ≡ p.pty
      → KeepsCapability (running p) (after_running m (q, b))
  unfolding after_running phase_capability
  after_running_keeps m q true e = inl refl
  after_running_keeps (detach _) q false e = ground arith
  after_running_keeps _ q false e = ground arith

  pub after_detach_keeps :
      (q : RuntimeProcessState) (b : Bool)
      → q.pty ≡ p.pty
      → KeepsCapability (await_detached p) (after_detach (q, b))
  unfolding after_detach phase_capability
  after_detach_keeps q true e = inl refl
  after_detach_keeps q false e = ground arith

  pub running_keeps :
      (m : RuntimeMessage) {next : RuntimePhase}
      → PhaseSound (running p)
      → on_running p m ≡ ok next
      → KeepsCapability (running p) next
  unfolding on_running
  running_keeps m v h =
      let (r, e, f) = map_ok-eq-ok (after_running m) (apply_running_message p m) h in
      subst (KeepsCapability (running p)) f
        (after_running_keeps m r.0 r.1 (apply_running_message-Follows p v m e).advances.same_pty)

  pub await_detached_keeps :
      (m : RuntimeMessage) {next : RuntimePhase}
      → PhaseSound (await_detached p)
      → on_await_detached p m ≡ ok next
      → KeepsCapability (await_detached p) next
  unfolding on_await_detached
  await_detached_keeps (detached _ _) v h = ground arith
  await_detached_keeps (output_ack process_id stream next_offset) v h =
      let m = output_ack process_id stream next_offset in
      let (r, e, f) = map_ok-eq-ok after_detach (apply_running_message p m) h in
      subst (KeepsCapability (await_detached p)) f
        (after_detach_keeps r.0 r.1 (apply_running_message-Follows p v.0 m e).advances.same_pty)
  await_detached_keeps m v h =
      let (r, e, f) = map_ok-eq-ok after_detach (apply_running_server_message p m) h in
      subst (KeepsCapability (await_detached p)) f (
        after_detach_keeps r.0 r.1
          (apply_running_server_message-Follows p v.0 m e).advances.same_pty)

module _ (w : RuntimeWatchState) where
  pub watching_keeps :
      (m : RuntimeMessage) {next : RuntimePhase}
      → on_watching w m ≡ ok next
      → KeepsCapability (watching w) next
  unfolding on_watching phase_capability
  watching_keeps (watch_stop _) h = ground arith
  watching_keeps m h =
      let (x, e, f) = map_ok-eq-ok watching (apply_watch_message w m) h in
      subst (KeepsCapability (watching w)) f (inr refl)

  pub watch_stopped_keeps :
      (m : RuntimeMessage) {next : RuntimePhase}
      → on_await_watch_stopped w m ≡ ok next
      → KeepsCapability (await_watch_stopped w) next
  unfolding on_await_watch_stopped phase_capability
  watch_stopped_keeps (watch_stopped _) h = ground arith
  watch_stopped_keeps m h =
      let (x, e, f) = map_ok-eq-ok await_watch_stopped (apply_watch_message w m) h in
      subst (KeepsCapability (await_watch_stopped w)) f (inr refl)
