-- ===== src/Sidecar/Remote/Queue/Fifo.antt =====
-- A sound queue is two queues in one, of the interactive and of the background works, each first in
-- first out.
use nvim_remote_mirror.Prelude.{
  ℕ, zero, suc, ◌≡◌, refl, sym, ◌∙◌, ap, ap₂, subst, Bool, true, false, Option, none, some, List,
  [], ◌∷◌, ◌++◌, take, All, if◌then◌else◌, Bool-cases, Option-cases, inl, inr, arith,
}
use nvim_remote_mirror.Sidecar.Remote.Request.{
  Json, RemoteWork, RemotePriority, interactive, background, interest_for_request, blocks_later,
}
use nvim_remote_mirror.Sidecar.Remote.Queue.{
  RemoteWorkerControl, is_interactive, position, get_elem?, remove_at, RemoteQueueState, Turn,
  started_work, ended, wait, decrement, remove,
}
use nvim_remote_mirror.Sidecar.Remote.Queue.Pop.{
  ready_before, next_ready_index, start_work, pop_ready, pop_control, pop_worker_item,
}
use nvim_remote_mirror.Sidecar.Remote.Queue.Order.{
  interactive_of, background_of, harmless, Unblocked,
}
use nvim_remote_mirror.Sidecar.Remote.Queue.Drain.{kept_of}
use nvim_remote_mirror.Sidecar.Remote.Queue.Sound.{IsSoundState}

module _ (j : Json) where
  -- The abstract queue.
  pub record Lanes : Type 0 where
    pub urgent : List (RemoteWork j)
    pub idle : List (RemoteWork j)

module _ {j : Json} where
  abbrev pub take_from : List (RemoteWork j) → List (RemoteWork j) → Option (RemoteWork j × Lanes j)
  take_from (work ∷ urgent) idle = some (work, record { urgent = urgent; idle = idle })
  take_from [] (work ∷ idle) = some (work, record { urgent = []; idle = idle })
  take_from [] [] = none

  -- The oldest urgent work, or the oldest idle one where there is none.
  abbrev pub take_oldest : Lanes j → Option (RemoteWork j × Lanes j)
  take_oldest lanes = take_from lanes.urgent lanes.idle

  -- A work behind those of its kind; an urgent one drops the idle ones that block it.
  abbrev pub put : RemoteWork j → Lanes j → Lanes j
  put work lanes =
      if is_interactive work.priority
      then record {
        urgent = lanes.urgent ++ (work ∷ []);
        idle = kept_of (interest_for_request j work.request) lanes.idle;
      }
      else record { urgent = lanes.urgent; idle = lanes.idle ++ (work ∷ []) }

  abbrev pub lanes_of : RemoteQueueState j → Lanes j
  lanes_of state = record { urgent = interactive_of state.queue; idle = background_of state.queue }

  abbrev pub started_of : Turn j × RemoteQueueState j → Option (RemoteWork j × Lanes j)
  started_of (started_work started, state) = some (started.work, lanes_of state)
  started_of (_, state) = none

  -- Where a queue has an interactive work, its first one is at the index that is found, and in an
  -- unblocked queue nothing in front blocks it.
  record FirstInteractive (q : List (RemoteWork j)) (i : ℕ) : Type 0 where
    work : RemoteWork j
    found : get_elem? q i ≡ some work
    urgent : interactive_of q ≡ work ∷ interactive_of (remove_at i q)
    idle : background_of (remove_at i q) ≡ background_of q
    free : position (λ earlier. blocks_later j earlier work) (take i q) ≡ none
    is_urgent : is_interactive work.priority ≡ true

  All-get_elem? :
      (P : RemoteWork j → Type 0) (i : ℕ) (q : List (RemoteWork j)) (w : RemoteWork j)
      → All P q
      → get_elem? q i ≡ some w
      → P w
  All-get_elem? P i [] w a h = absurd (cc)
  All-get_elem? P zero (x ∷ q) w a h = let e : x ≡ w = cc in subst P e a.0
  All-get_elem? P (suc i) (x ∷ q) w a h = All-get_elem? P i q w a.1 h

  first_interactive :
      (q : List (RemoteWork j)) (i : ℕ)
      → Unblocked q
      → position (λ (work : RemoteWork j). is_interactive work.priority) q ≡ some i
      → FirstInteractive q i
  first_interactive [] i u h = absurd (cc)
  first_interactive (x ∷ q) zero u h = elim (Bool-cases (is_interactive x.priority)) [
    | inl e ↦ record {
      work = x;
      found = refl;
      urgent = rw e refl;
      idle = rw e refl;
      free = refl;
      is_urgent = e;
    }
    | inr e ↦ absurd (ground arith)
  ]
  first_interactive (x ∷ q) (suc i) u h = elim (Bool-cases (is_interactive x.priority)) [
    | inl e ↦ absurd (ground arith)
    | inr e ↦
        let r = first_interactive q i u.1 (ground arith) in
        let calm = All-get_elem? (λ later. harmless x later ≡ true) i q r.work u.0 r.found in
        record {
          work = r.work;
          found = r.found;
          urgent = rw e r.urgent;
          idle = rw e (ap (λ rest. x ∷ rest) r.idle);
          free = ground (arith, calm, r.free, r.is_urgent);
          is_urgent = r.is_urgent;
        }
  ]

  no_interactive :
      (q : List (RemoteWork j))
      → position (λ (work : RemoteWork j). is_interactive work.priority) q ≡ none
      → (interactive_of q ≡ []) × (background_of q ≡ q)
  no_interactive [] h = (refl, refl)
  no_interactive (x ∷ q) h = elim (Bool-cases (is_interactive x.priority)) [
    | inl e ↦ absurd (ground arith)
    | inr e ↦ let (a, b) = no_interactive q (ground arith) in rw e (a, ap (λ r. x ∷ r) b)
  ]

  -- `decrement` leaves the works alone.
  pub queue-decrement :
      (p : RemotePriority) (state : RemoteQueueState j) → (decrement p state).queue ≡ state.queue
  unfolding decrement
  queue-decrement interactive state = refl
  queue-decrement background state = refl

  started_of-start_work :
      (i : ℕ) (w : RemoteWork j) (preempt : Option ℕ) (state : RemoteQueueState j)
      → started_of (start_work i (some w) preempt state)
        ≡ some (
          w,
          record {
            urgent = interactive_of (remove_at i state.queue);
            idle = background_of (remove_at i state.queue);
          },
        )
  unfolding start_work remove
  started_of-start_work i w preempt state =
      ap
        (λ (q : List (RemoteWork j)).
          some (w, record { urgent = interactive_of q; idle = background_of q }))
        (queue-decrement w.priority _)

  -- The index that is found is that of the first interactive work.
  next_ready_index-first :
      (q : List (RemoteWork j)) (i : ℕ)
      → FirstInteractive q i
      → position (λ (work : RemoteWork j). is_interactive work.priority) q ≡ some i
      → next_ready_index q ≡ some i
  unfolding next_ready_index ready_before
  next_ready_index-first q i r e = ground (arith, e, r.found, r.free)

  next_ready_index-none :
      (x : RemoteWork j) (q : List (RemoteWork j))
      → position (λ (work : RemoteWork j). is_interactive work.priority) (x ∷ q) ≡ none
      → next_ready_index (x ∷ q) ≡ some 0
  unfolding next_ready_index
  next_ready_index-none x q e = ground (arith, e)

  started_of-nothing :
      (shut : Bool) (state : RemoteQueueState j)
      → started_of (if shut then ended else wait, state) ≡ none
  started_of-nothing true state = refl
  started_of-nothing false state = refl

  pub pop_ready-take_oldest :
      (q : List (RemoteWork j)) (preempt : Option ℕ) (state : RemoteQueueState j)
      → Unblocked q
      → started_of (pop_ready (next_ready_index q) preempt (record state { queue = q }))
        ≡ take_from (interactive_of q) (background_of q)
  unfolding pop_ready
  pop_ready-take_oldest [] preempt state u =
      unfold next_ready_index in started_of-nothing state.closed _
  pop_ready-take_oldest (x ∷ q) preempt state u =
      let is_urgent = λ (work : RemoteWork j). is_interactive work.priority in
      elim (Option-cases (position is_urgent (x ∷ q))) [
        | inl e ↦
            let calm : is_interactive x.priority ≡ false = ground arith in
            let (none_later, all_later) = no_interactive q (ground arith) in
            let own : background_of (x ∷ q) ≡ x ∷ background_of q = rw calm refl in
            rw (next_ready_index-none x q e) (
              started_of-start_work 0 x preempt (record state { queue = x ∷ q })
              ∙ ap (λ u. some (x, record { urgent = u; idle = background_of q })) none_later
              ∙ sym (ap₂ (λ u b. take_from u b) (no_interactive (x ∷ q) e).0 own))
        | inr (i, e) ↦
            let r = first_interactive (x ∷ q) i u e in
            rw (next_ready_index-first (x ∷ q) i r e, r.found)
              (started_of-start_work i r.work preempt (record state { queue = x ∷ q })
                ∙ ap₂ (λ u b. take_from u b) (sym r.urgent) r.idle)
      ]

  pub pop_control-ready :
      (controls : List RemoteWorkerControl) (preempt : Option ℕ) (state : RemoteQueueState j)
      → controls ≡ []
      → state.maintenance_paused ≡ false
      → pop_control controls preempt state ≡ pop_ready (next_ready_index state.queue) preempt state
  unfolding pop_control
  pop_control-ready [] preempt state c f =
      ap (λ b. pop_ready (if b then none else next_ready_index state.queue) preempt state) f
  pop_control-ready (first ∷ rest) preempt state c f = absurd (cc)

  -- On a sound queue that is not paused and has no control to deliver, `pop_worker_item` starts the
  -- oldest interactive work, or the oldest background work where no interactive one waits, leaves the
  -- others in their order, and starts nothing only where none waits.
  pub pop_worker_item-take_oldest :
      (preempt : Option ℕ) (state : RemoteQueueState j)
      → IsSoundState state
      → state.controls ≡ []
      → state.maintenance_paused ≡ false
      → started_of (pop_worker_item preempt state) ≡ take_oldest (lanes_of state)
  unfolding pop_worker_item
  pop_worker_item-take_oldest preempt state v c f =
      ap started_of (pop_control-ready state.controls preempt state c f)
      ∙ pop_ready-take_oldest state.queue preempt state v.unblocked
