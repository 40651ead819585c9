-- ===== src/Sidecar/Remote/Queue/Puts.antt =====
-- `try_push` puts a work behind those of its kind.
use nvim_remote_mirror.Prelude.{
  ℕ, ◌≡◌, refl, sym, ◌∙◌, ap₂, Bool, true, false, ◌||◌, Option, List, [], ◌∷◌, ◌++◌, leb,
  Bool-cases, inl, inr, arith, append-nil,
}
use nvim_remote_mirror.Sidecar.Remote.Request.{
  Json, RemoteWork, RemotePriority, interactive, background, RequestInterest, interest_for_request,
}
use nvim_remote_mirror.Sidecar.Remote.Queue.{RemoteQueue, Push, taken, refused}
use nvim_remote_mirror.Sidecar.Remote.Queue.TryPush.{
  try_push, push_by_priority, push_interactive, push_background, drain_background_blocking,
}
use nvim_remote_mirror.Sidecar.Remote.Queue.Order.{
  interactive_of, background_of, interactive_of-append, background_of-append,
}
use nvim_remote_mirror.Sidecar.Remote.Queue.Drain.{
  kept_of, drain_before-append, interactive_of-kept_of,
}
use nvim_remote_mirror.Sidecar.Remote.Queue.Fifo.{Lanes, put, lanes_of}

module _ {j : Json} where
  background_of-kept_of :
      (interest : RequestInterest) (q : List (RemoteWork j))
      → background_of (kept_of interest q) ≡ kept_of interest (background_of q)
  background_of-kept_of interest [] = refl
  background_of-kept_of interest (x ∷ q) = ground (arith, background_of-kept_of interest q)

  -- The queue takes no work of this priority.
  abbrev pub turns_away : RemotePriority → RemoteQueue j → Bool
  turns_away interactive q =
      (q.state.closed || q.state.maintenance_paused)
      || leb q.interactive_capacity q.state.interactive_len
  turns_away background q =
      (q.state.closed || q.state.maintenance_paused)
      || leb q.background_capacity q.state.background_len

  -- What a push comes to: the queue as it was, where it takes none, or the work in its place.
  abbrev pub PutsOrAt :
      RemotePriority → RemoteWork j → RemoteQueue j → Push j × RemoteQueue j → Type 0
  PutsOrAt p w q (refused v, next) = (v ≡ w) × (next ≡ q) × (turns_away p q ≡ true)
  PutsOrAt p w q (taken canceled epoch, next) =
      (lanes_of next.state ≡ put w (lanes_of q.state)) × (turns_away p q ≡ false)

  abbrev pub PutsOr : RemoteWork j → RemoteQueue j → Push j × RemoteQueue j → Type 0
  PutsOr w q r = PutsOrAt w.priority w q r

  shut-turns_away :
      (p : RemotePriority) (q : RemoteQueue j)
      → (q.state.closed || q.state.maintenance_paused) ≡ true
      → turns_away p q ≡ true
  shut-turns_away interactive q e = rw e refl
  shut-turns_away background q e = rw e refl

  lanes : List (RemoteWork j) → List (RemoteWork j) → Lanes j
  lanes urgent idle = record { urgent = urgent; idle = idle }

  put-interactive :
      (w : RemoteWork j) (urgent idle : List (RemoteWork j))
      → w.priority ≡ interactive
      → put w (lanes urgent idle)
        ≡ lanes (urgent ++ (w ∷ [])) (kept_of (interest_for_request j w.request) idle)
  unfolding lanes
  put-interactive w urgent idle e = ground (arith, e)

  put-background :
      (w : RemoteWork j) (urgent idle : List (RemoteWork j))
      → w.priority ≡ background
      → put w (lanes urgent idle) ≡ lanes urgent (idle ++ (w ∷ []))
  unfolding lanes
  put-background w urgent idle e = ground (arith, e)

  lanes_of-interactive :
      (q : List (RemoteWork j)) (w : RemoteWork j)
      → w.priority ≡ interactive
      → lanes (interactive_of (q ++ (w ∷ []))) (background_of (q ++ (w ∷ [])))
        ≡ lanes (interactive_of q ++ (w ∷ [])) (background_of q)
  lanes_of-interactive q w e =
      ap₂ lanes (ground (arith, interactive_of-append q (w ∷ [])))
        (ground (arith, background_of-append q (w ∷ []), append-nil (background_of q)))

  lanes_of-background :
      (q : List (RemoteWork j)) (w : RemoteWork j)
      → w.priority ≡ background
      → lanes (interactive_of (q ++ (w ∷ []))) (background_of (q ++ (w ∷ [])))
        ≡ lanes (interactive_of q) (background_of q ++ (w ∷ []))
  lanes_of-background q w e =
      ap₂ lanes (ground (arith, interactive_of-append q (w ∷ []), append-nil (interactive_of q)))
        (ground (arith, background_of-append q (w ∷ [])))

  push_interactive-PutsOr :
      (q : RemoteQueue j) (w : RemoteWork j) (preempt : Option ℕ)
      → w.priority ≡ interactive
      → (q.state.closed || q.state.maintenance_paused) ≡ false
      → PutsOrAt interactive w q (push_interactive q w preempt)
  unfolding push_interactive drain_background_blocking lanes
  push_interactive-PutsOr q w preempt e o =
      let interest = interest_for_request j w.request in
      let queue = q.state.queue in
      let kept = kept_of interest queue in
      elim (Bool-cases (leb q.interactive_capacity q.state.interactive_len)) [
        | inl full ↦ rw (full, o) (refl, refl, full)
        | inr free ↦
            rw (free, o, drain_before-append interest queue w)
              (
                lanes_of-interactive kept w e
                    ∙ ap₂ (λ u i. lanes (u ++ (w ∷ [])) i) (interactive_of-kept_of interest queue)
                        (background_of-kept_of interest queue)
                    ∙ sym (put-interactive w (interactive_of queue) (background_of queue) e),
                free,
              )
      ]

  push_background-PutsOr :
      (q : RemoteQueue j) (w : RemoteWork j) (preempt : Option ℕ)
      → w.priority ≡ background
      → (q.state.closed || q.state.maintenance_paused) ≡ false
      → PutsOrAt background w q (push_background q w preempt)
  unfolding push_background lanes
  push_background-PutsOr q w preempt e o =
      let queue = q.state.queue in
      elim (Bool-cases (leb q.background_capacity q.state.background_len)) [
        | inl full ↦ rw (full, o) (refl, refl, full)
        | inr free ↦
            rw (free, o)
              (
                lanes_of-background queue w e
                    ∙ sym (put-background w (interactive_of queue) (background_of queue) e),
                free,
              )
      ]

  push_by_priority-PutsOr :
      (p : RemotePriority) (q : RemoteQueue j) (w : RemoteWork j) (preempt : Option ℕ)
      → w.priority ≡ p
      → (q.state.closed || q.state.maintenance_paused) ≡ false
      → PutsOrAt p w q (push_by_priority p q w preempt)
  unfolding push_by_priority
  push_by_priority-PutsOr interactive q w preempt e o = push_interactive-PutsOr q w preempt e o
  push_by_priority-PutsOr background q w preempt e o = push_background-PutsOr q w preempt e o

  -- `try_push` hands the work back and leaves the queue as it is just where the queue is closed, paused
  -- for maintenance or at its capacity of works of that kind; otherwise it puts the work behind those
  -- of its kind, where an interactive work drops from the background works just those whose hazard
  -- conflicts with it.
  pub try_push-PutsOr :
      (q : RemoteQueue j) (w : RemoteWork j) (preempt : Option ℕ)
      → PutsOr w q (try_push q w preempt)
  unfolding try_push
  try_push-PutsOr q w preempt = elim (Bool-cases (q.state.closed || q.state.maintenance_paused)) [
    | inl shut ↦ rw shut (refl, refl, shut-turns_away w.priority q shut)
    | inr free ↦ rw free (push_by_priority-PutsOr w.priority q w preempt refl free)
  ]
