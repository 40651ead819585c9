-- ===== src/Sidecar/Remote/Queue/Drained.antt =====
-- A closed queue hands out all its works and ends.
use nvim_remote_mirror.Prelude.{
  ℕ, zero, suc, ◌+◌, ◌≤◌, ◌≡◌, refl, sym, ◌∙◌, ap, ap₂, subst, Bool, true, false, Option, none,
  some, List, [], ◌∷◌, ◌++◌, length, if◌then◌else◌, arith,
}
use nvim_remote_mirror.Sidecar.Remote.Request.{
  Json, RemoteWork, RemotePriority, interactive, background,
}
use nvim_remote_mirror.Sidecar.Remote.Queue.{
  RemoteQueueState, Turn, started_work, control, ended, wait, decrement, remove,
}
use nvim_remote_mirror.Sidecar.Remote.Queue.Pop.{
  next_ready_index, start_work, pop_ready, pop_worker_item,
}
use nvim_remote_mirror.Sidecar.Remote.Queue.Order.{interactive_of, background_of}
use nvim_remote_mirror.Sidecar.Remote.Queue.Sound.{IsSoundState}
use nvim_remote_mirror.Sidecar.Remote.Queue.Steps.{pop_control-Shrinks}
use nvim_remote_mirror.Sidecar.Remote.Queue.Fifo.{
  Lanes, take_from, lanes_of, started_of, pop_control-ready, pop_worker_item-take_oldest,
}

module _ {j : Json} where
  abbrev after_turn :
      (RemoteQueueState j → List (RemoteWork j) × Bool)
      → Turn j × RemoteQueueState j
      → List (RemoteWork j) × Bool
  after_turn later (started_work started, next) =
      let (works, over) = later next in (started.work ∷ works, over)
  after_turn later (control _, next) = ([], false)
  after_turn later (ended, next) = ([], true)
  after_turn later (wait, next) = ([], false)

  -- What a worker gets that asks so often, and whether it has come to the end.
  unfoldable pub pop_all : ℕ → RemoteQueueState j → List (RemoteWork j) × Bool
  unfolding pop_worker_item
  pop_all zero state = ([], false)
  pop_all (suc n) state = after_turn (pop_all n) (pop_worker_item none state)

  -- Open for nothing but the works that are there.
  record IsClosing (state : RemoteQueueState j) : Type 0 where
    sound : IsSoundState state
    is_shut : state.closed ≡ true
    no_controls : state.controls ≡ []
    not_paused : state.maintenance_paused ≡ false

  abbrev Same : RemoteQueueState j → RemoteQueueState j → Type 0
  Same state next =
      (next.closed ≡ state.closed)
      × (next.controls ≡ state.controls)
      × (next.maintenance_paused ≡ state.maintenance_paused)

  decrement-Same :
      (p : RemotePriority) (state : RemoteQueueState j) → Same state (decrement p state)
  unfolding decrement
  decrement-Same interactive state = (refl, refl, refl)
  decrement-Same background state = (refl, refl, refl)

  start_work-Same :
      (i : ℕ) (found : Option (RemoteWork j)) (preempt : Option ℕ) (state : RemoteQueueState j)
      → Same state (start_work i found preempt state).1
  unfolding start_work remove
  start_work-Same i none preempt state = (refl, refl, refl)
  start_work-Same i (some w) preempt state = decrement-Same w.priority _

  pop_ready-Same :
      (index preempt : Option ℕ) (state : RemoteQueueState j)
      → Same state (pop_ready index preempt state).1
  unfolding pop_ready
  pop_ready-Same none preempt state = (refl, refl, refl)
  pop_ready-Same (some i) preempt state = start_work-Same i _ preempt state

  pop_worker_item-IsClosing :
      (preempt : Option ℕ) (state : RemoteQueueState j)
      → IsClosing state
      → IsClosing (pop_worker_item preempt state).1
  unfolding pop_worker_item
  pop_worker_item-IsClosing preempt state c =
      let e = pop_control-ready state.controls preempt state c.no_controls c.not_paused in
      let (shut, calm, free) =
        subst (λ (r : Turn j × RemoteQueueState j). Same state r.1) (sym e)
          (pop_ready-Same (next_ready_index state.queue) preempt state) in
      record {
        sound = (pop_control-Shrinks state.controls preempt state c.sound).0;
        is_shut = shut ∙ c.is_shut;
        no_controls = calm ∙ c.no_controls;
        not_paused = free ∙ c.not_paused;
      }

  nothing_left : (q : List (RemoteWork j)) → interactive_of q ≡ [] → background_of q ≡ [] → q ≡ []
  nothing_left [] e f = refl
  nothing_left (x ∷ q) e f = absurd (ground arith)

  -- A turn that starts a work.
  after_turn-started :
      (later : RemoteQueueState j → List (RemoteWork j) × Bool) (r : Turn j × RemoteQueueState j)
      (w : RemoteWork j) (lanes : Lanes j) (works : List (RemoteWork j))
      → started_of r ≡ some (w, lanes)
      → (lanes_of r.1 ≡ lanes → later r.1 ≡ (works, true))
      → after_turn later r ≡ (w ∷ works, true)
  after_turn-started later (started_work started, next) w lanes works e l =
      let same : started.work ≡ w = cc in
      let kept : lanes_of next ≡ lanes = cc in
      ap₂ (λ (x : RemoteWork j) (r : List (RemoteWork j) × Bool). (x ∷ r.0, r.1)) same (l kept)
  after_turn-started later (control c, next) w lanes works e l = absurd (cc)
  after_turn-started later (ended, next) w lanes works e l = absurd (cc)
  after_turn-started later (wait, next) w lanes works e l = absurd (cc)

  pop_worker_item-ended :
      (state : RemoteQueueState j)
      → IsClosing state
      → state.queue ≡ []
      → pop_worker_item none state ≡ (ended, state)
  unfolding pop_worker_item pop_ready next_ready_index
  pop_worker_item-ended state c e =
      pop_control-ready state.controls none state c.no_controls c.not_paused
      ∙ ap (λ q. pop_ready (next_ready_index q) none state) e
      ∙ ap (λ (shut : Bool). (if shut then ended else wait, state)) c.is_shut

  lanes_parts :
      (state : RemoteQueueState j) (urgent idle : List (RemoteWork j))
      → lanes_of state ≡ record { urgent = urgent; idle = idle }
      → (interactive_of state.queue ≡ urgent) × (background_of state.queue ≡ idle)
  lanes_parts state urgent idle e =
      (ap (λ (l : Lanes j). l.urgent) e, ap (λ (l : Lanes j). l.idle) e)

  drain_one :
      (n : ℕ) (state : RemoteQueueState j) (w : RemoteWork j) (urgent idle : List (RemoteWork j))
      → ((state : RemoteQueueState j) (urgent idle : List (RemoteWork j))
          → IsClosing state
          → interactive_of state.queue ≡ urgent
          → background_of state.queue ≡ idle
          → length urgent + length idle ≤ n
          → pop_all (suc n) state ≡ (urgent ++ idle, true))
      → IsClosing state
      → take_from (interactive_of state.queue) (background_of state.queue)
        ≡ some (w, record { urgent = urgent; idle = idle })
      → length urgent + length idle ≤ n
      → pop_all (suc (suc n)) state ≡ (w ∷ (urgent ++ idle), true)
  unfolding pop_all
  drain_one n state w urgent idle drains c e b =
      let r = pop_worker_item none state in
      after_turn-started (pop_all (suc n)) r w (record { urgent = urgent; idle = idle })
        (urgent ++ idle)
        (pop_worker_item-take_oldest none state c.sound c.no_controls c.not_paused ∙ e)
        (λ kept.
          let (u, i) = lanes_parts r.1 urgent idle kept in
          drains r.1 urgent idle (pop_worker_item-IsClosing none state c) u i b)

  drains :
      (n : ℕ) (state : RemoteQueueState j) (urgent idle : List (RemoteWork j))
      → IsClosing state
      → interactive_of state.queue ≡ urgent
      → background_of state.queue ≡ idle
      → length urgent + length idle ≤ n
      → pop_all (suc n) state ≡ (urgent ++ idle, true)
  unfolding pop_all
  drains n state [] [] c u i b =
      rw (pop_worker_item-ended state c (nothing_left state.queue u i)) refl
  drains zero state [] (w ∷ idle) c u i b = absurd (omega arith)
  drains zero state (w ∷ urgent) idle c u i b = absurd (omega arith)
  drains (suc n) state (w ∷ urgent) idle c u i b =
      drain_one n state w urgent idle (drains n) c (ap₂ take_from u i) (omega arith)
  drains (suc n) state [] (w ∷ idle) c u i b =
      drain_one n state w [] idle (drains n) c (ap₂ take_from u i) (omega arith)

  length_split :
      (q : List (RemoteWork j)) → length (interactive_of q) + length (background_of q) ≡ length q
  length_split [] = omega arith
  length_split (x ∷ q) = ground (arith, length_split q)

  -- From a sound queue that is closed, not paused and without a control to deliver, a worker that asks
  -- at least once more than there are works gets them all, the interactive ones in their order and then
  -- the background ones in theirs, and then the end: it never waits.
  pub pop_all-closed :
      (state : RemoteQueueState j) (n : ℕ)
      → IsSoundState state
      → state.closed ≡ true
      → state.controls ≡ []
      → state.maintenance_paused ≡ false
      → length state.queue ≤ n
      → pop_all (suc n) state ≡ (interactive_of state.queue ++ background_of state.queue, true)
  pop_all-closed state n v shut calm free b =
      drains n state (interactive_of state.queue) (background_of state.queue)
        (record { sound = v; is_shut = shut; no_controls = calm; not_paused = free }) refl refl
        (omega (arith, length_split state.queue))
