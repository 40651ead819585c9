-- ===== src/Sidecar/Remote/Queue/Pushes.antt =====
-- `try_push` keeps a `RemoteQueue` sound.
use nvim_remote_mirror.Prelude.{
  ℕ, ◌≡◌, refl, inl, inr, false, ◌||◌, Option, [], ◌∷◌, leb, Bool-cases, arith, length-append,
}
use nvim_remote_mirror.Sidecar.Remote.Request.{
  Json, RemoteWork, RemotePriority, interactive, background, interest_for_request,
}
use nvim_remote_mirror.Sidecar.Remote.Queue.{RemoteQueue}
use nvim_remote_mirror.Sidecar.Remote.Queue.TryPush.{
  drain_background_blocking, push_interactive, push_background, push_by_priority, try_push,
}
use nvim_remote_mirror.Sidecar.Remote.Queue.Order.{
  interactive_of, background_of, Unblocked-append, harmless_background, interactive_of-append,
  background_of-append,
}
use nvim_remote_mirror.Sidecar.Remote.Queue.Drain.{
  kept_of, drain_before-append, interactive_of-kept_of, length-background_of-kept_of,
  Unblocked-kept_of, kept_of-harmless,
}
use nvim_remote_mirror.Sidecar.Remote.Queue.Sound.{IsSound}

module _ {j : Json} where
  pub push_interactive-IsSound :
      (q : RemoteQueue j) (w : RemoteWork j) (preempt : Option ℕ)
      → IsSound q
      → w.priority ≡ interactive
      → q.state.maintenance_paused ≡ false
      → IsSound (push_interactive q w preempt).1
  unfolding push_interactive drain_background_blocking
  push_interactive-IsSound q w preempt v e f =
      let interest = interest_for_request j w.request in
      let queue = q.state.queue in
      let kept = kept_of interest queue in
      elim (Bool-cases (leb q.interactive_capacity q.state.interactive_len)) [
        | inl full ↦ rw full v
        | inr free ↦
            rw (free, drain_before-append interest queue w)
              (record {
                state_sound = record {
                  interactive_counted = ground (
                    arith,
                    interactive_of-append kept (w ∷ []),
                    interactive_of-kept_of interest queue,
                    length-append (interactive_of kept) (w ∷ []),
                    v.state_sound.interactive_counted,
                  );
                  background_counted = ground (
                    arith,
                    background_of-append kept (w ∷ []),
                    length-background_of-kept_of interest queue,
                    length-append (background_of kept) [],
                    v.state_sound.background_counted,
                  );
                  paused_empty = inl f;
                  unblocked =
                      Unblocked-append kept w
                        (Unblocked-kept_of interest queue v.state_sound.unblocked)
                        (kept_of-harmless w queue);
                };
                interactive_bounded = ground (arith, v.interactive_bounded);
                background_bounded = ground (arith, v.background_bounded);
              })
      ]

  pub push_background-IsSound :
      (q : RemoteQueue j) (w : RemoteWork j) (preempt : Option ℕ)
      → IsSound q
      → w.priority ≡ background
      → q.state.maintenance_paused ≡ false
      → IsSound (push_background q w preempt).1
  unfolding push_background
  push_background-IsSound q w preempt v e f =
      let queue = q.state.queue in
      elim (Bool-cases (leb q.background_capacity q.state.background_len)) [
        | inl full ↦ rw full v
        | inr free ↦ rw free (record {
          state_sound = record {
            interactive_counted = ground (
              arith,
              interactive_of-append queue (w ∷ []),
              length-append (interactive_of queue) [],
              v.state_sound.interactive_counted,
            );
            background_counted = ground (
              arith,
              background_of-append queue (w ∷ []),
              length-append (background_of queue) (w ∷ []),
              v.state_sound.background_counted,
            );
            paused_empty = inl f;
            unblocked =
                Unblocked-append queue w v.state_sound.unblocked
                  (harmless_background queue w (ground arith));
          };
          interactive_bounded = v.interactive_bounded;
          background_bounded = ground (arith, v.background_bounded);
        })
      ]

  pub push_by_priority-IsSound :
      (p : RemotePriority) (q : RemoteQueue j) (w : RemoteWork j) (preempt : Option ℕ)
      → IsSound q
      → w.priority ≡ p
      → q.state.maintenance_paused ≡ false
      → IsSound (push_by_priority p q w preempt).1
  unfolding push_by_priority
  push_by_priority-IsSound interactive q w preempt v e f =
      push_interactive-IsSound q w preempt v e f
  push_by_priority-IsSound background q w preempt v e f = push_background-IsSound q w preempt v e f

  pub try_push-IsSound :
      (q : RemoteQueue j) (w : RemoteWork j) (preempt : Option ℕ)
      → IsSound q
      → IsSound (try_push q w preempt).1
  unfolding try_push
  try_push-IsSound q w preempt v =
      elim (Bool-cases (q.state.closed || q.state.maintenance_paused)) [
        | inl shut ↦ rw shut v
        | inr open' ↦
            rw open' (push_by_priority-IsSound w.priority q w preempt v refl (ground arith))
      ]
