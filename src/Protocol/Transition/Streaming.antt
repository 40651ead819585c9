-- ===== src/Protocol/Transition/Streaming.antt =====
-- The phases of a running process and of a watch keep the invariant.
use nvim_remote_mirror.Prelude.{
  map_ok-eq-ok, ℕ, ◌≡◌, ◌∙◌, subst, Bool, true, false, is_some, ok, map_ok, arith,
}
use nvim_remote_mirror.Protocol.Message.{
  RuntimeMessage, output_ack, detach, detached, watch_stop, watch_stopped,
}
use nvim_remote_mirror.Protocol.Message.Wire.{IsWire}
use nvim_remote_mirror.Protocol.Validate.{validate}
use nvim_remote_mirror.Protocol.Phase.{
  RuntimeProcessState, RuntimeWatchState, RuntimePhase, await_detached, watching,
  await_watch_stopped,
}
use nvim_remote_mirror.Protocol.Process.{apply_running_message, apply_running_server_message}
use nvim_remote_mirror.Protocol.Process.Invariant.{
  IsSound, Follows, apply_running_message-Follows, apply_running_server_message-Follows,
}
use nvim_remote_mirror.Protocol.Watch.{apply_watch_message}
use nvim_remote_mirror.Protocol.Watch.Invariant as WatchInvariant
use nvim_remote_mirror.Protocol.Transition.{
  after_running, on_running, on_await_detached, after_detach, on_watching, on_await_watch_stopped,
}
use nvim_remote_mirror.Protocol.Transition.Sound.{PhaseSound}

module _ (p : RuntimeProcessState) where
  detach_needs :
      (process_id : ℕ) (r : RuntimeProcessState × Bool)
      → apply_running_message p (detach process_id) ≡ ok r
      → (r.0 ≡ p) × (p.pty ≡ true) × (is_some p.session_id ≡ true)
  unfolding apply_running_message
  detach_needs process_id (q, b) h = ground arith

  after_running-PhaseSound :
      (m : RuntimeMessage) (q : RuntimeProcessState) (b : Bool)
      → IsSound p
      → apply_running_message p m ≡ ok (q, b)
      → PhaseSound (after_running m (q, b))
  unfolding after_running
  after_running-PhaseSound m q true v h = tt
  after_running-PhaseSound (detach process_id) q false v h =
      ground (arith, detach_needs process_id (q, false) h)
  after_running-PhaseSound _ q false v h = (apply_running_message-Follows p v _ h).sound

  pub on_running-PhaseSound :
      (m : RuntimeMessage) {next : RuntimePhase}
      → IsSound p
      → on_running p m ≡ ok next
      → PhaseSound next
  unfolding on_running
  on_running-PhaseSound m v h =
      let (r, e, f) = map_ok-eq-ok (after_running m) (apply_running_message p m) h in
      subst PhaseSound f (after_running-PhaseSound m r.0 r.1 v e)

  after_detach-PhaseSound :
      (q : RuntimeProcessState) (b : Bool)
      → PhaseSound (await_detached p)
      → Follows p q
      → PhaseSound (after_detach (q, b))
  unfolding after_detach
  after_detach-PhaseSound q true v f = tt
  after_detach-PhaseSound q false v f =
      (f.sound, f.advances.same_pty ∙ v.1, rw f.advances.same_session v.2)

  await_detached_server :
      (m : RuntimeMessage) {next : RuntimePhase}
      → PhaseSound (await_detached p)
      → map_ok after_detach (apply_running_server_message p m) ≡ ok next
      → PhaseSound next
  await_detached_server m v h =
      let (r, e, f) = map_ok-eq-ok after_detach (apply_running_server_message p m) h in
      subst PhaseSound f
        (after_detach-PhaseSound r.0 r.1 v (apply_running_server_message-Follows p v.0 m e))

  await_detached_ack :
      (m : RuntimeMessage) {next : RuntimePhase}
      → PhaseSound (await_detached p)
      → map_ok after_detach (apply_running_message p m) ≡ ok next
      → PhaseSound next
  await_detached_ack m v h =
      let (r, e, f) = map_ok-eq-ok after_detach (apply_running_message p m) h in
      subst PhaseSound f
        (after_detach-PhaseSound r.0 r.1 v (apply_running_message-Follows p v.0 m e))

  pub on_await_detached-PhaseSound :
      (m : RuntimeMessage) {next : RuntimePhase}
      → PhaseSound (await_detached p)
      → on_await_detached p m ≡ ok next
      → PhaseSound next
  unfolding on_await_detached
  on_await_detached-PhaseSound (detached process_id session_id) v h = ground arith
  on_await_detached-PhaseSound (output_ack process_id stream next_offset) v h =
      await_detached_ack (output_ack process_id stream next_offset) v h
  on_await_detached-PhaseSound m v h = await_detached_server _ v h

module _ (w : RuntimeWatchState) (m : RuntimeMessage) (v : WatchInvariant.IsSound w) where
  apply_watch_message-PhaseSound :
      (f : RuntimeWatchState → RuntimePhase) {next : RuntimePhase}
      → ((x : RuntimeWatchState) → WatchInvariant.IsSound x → PhaseSound (f x))
      → IsWire m
      → validate m ≡ ok tt
      → map_ok f (apply_watch_message w m) ≡ ok next
      → PhaseSound next
  apply_watch_message-PhaseSound f k wire valid h =
      let (x, e, g) = map_ok-eq-ok f (apply_watch_message w m) h in
      subst PhaseSound g (k x (WatchInvariant.apply_watch_message-Follows w v m wire valid e).sound)

pub on_watching-PhaseSound :
    (w : RuntimeWatchState) (m : RuntimeMessage) {next : RuntimePhase}
    → WatchInvariant.IsSound w
    → IsWire m
    → validate m ≡ ok tt
    → on_watching w m ≡ ok next
    → PhaseSound next
unfolding on_watching
on_watching-PhaseSound w (watch_stop watch_id) v wire valid h = ground arith
on_watching-PhaseSound w _ v wire valid h =
    apply_watch_message-PhaseSound w _ v watching (λ x s. s) wire valid h

pub on_await_watch_stopped-PhaseSound :
    (w : RuntimeWatchState) (m : RuntimeMessage) {next : RuntimePhase}
    → WatchInvariant.IsSound w
    → IsWire m
    → validate m ≡ ok tt
    → on_await_watch_stopped w m ≡ ok next
    → PhaseSound next
unfolding on_await_watch_stopped
on_await_watch_stopped-PhaseSound w (watch_stopped watch_id) v wire valid h = ground arith
on_await_watch_stopped-PhaseSound w _ v wire valid h =
    apply_watch_message-PhaseSound w _ v await_watch_stopped (λ x s. s) wire valid h
