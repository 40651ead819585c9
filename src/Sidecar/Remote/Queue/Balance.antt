-- ===== src/Sidecar/Remote/Queue/Balance.antt =====
-- No event of a `RemoteQueue` loses or doubles a work.
use nvim_remote_mirror.Prelude.{
  ℕ, ◌+◌, ◌≡◌, refl, ap, Bool, true, false, ◌||◌, Option, none, some, List, [], ◌∷◌, ◌++◌, leb,
  if◌then◌else◌, Bool-cases, inl, inr, arith,
}
use nvim_remote_mirror.Sidecar.Remote.Request.{
  Json, RemoteWork, RemotePriority, interactive, background, interest_for_request,
}
use nvim_remote_mirror.Sidecar.Remote.Queue.{
  RemoteWorkerControl, get_elem?, remove_at, RemoteQueueState, RemoteQueue, remove, drain_all,
  ended, wait,
}
use nvim_remote_mirror.Sidecar.Remote.Queue.TryPush.{
  drain_background_blocking, push_interactive, push_background, push_by_priority, try_push,
}
use nvim_remote_mirror.Sidecar.Remote.Queue.Pop.{
  start_work, pop_ready, pop_control, pop_worker_item,
}
use nvim_remote_mirror.Sidecar.Remote.Queue.Drains.{
  shutdown_and_drain, begin_maintenance_and_drain, end_maintenance, finish_started, push_control,
  close_and_drain_background, cancel_at, cancel_found, cancel,
}
use nvim_remote_mirror.Sidecar.Remote.Queue.Order.{
  occurrences, occurrences-append, occurrences-remove_at,
}
use nvim_remote_mirror.Sidecar.Remote.Queue.Drain.{
  kept_of, drain_before-append, occurrences-kept_of, occurrences_split,
  partition_background-interactive, partition_background-background,
}
use nvim_remote_mirror.Sidecar.Remote.Queue.Events.{
  or_same, push_effect, turn_works, option_works, Event, Effect, push, pop, shutdown,
  begin_maintenance, maintenance_over, finish, reset_agent_worker, close, cancel_request, step, run,
}
use nvim_remote_mirror.Sidecar.Remote.Queue.Fifo.{queue-decrement}

module _ {j : Json} where
  -- What was there and what entered is what is there and what left.
  abbrev pub Balances : ℕ → RemoteQueue j → Effect j → Type 0
  Balances id q effect =
      occurrences id effect.next.state.queue + occurrences id effect.left
      ≡ occurrences id q.state.queue + occurrences id effect.entered

  -- The same of a state and the works that are taken out of it.
  abbrev Gives : ℕ → RemoteQueueState j → List (RemoteWork j) → RemoteQueueState j → Type 0
  Gives id state works next =
      occurrences id next.queue + occurrences id works ≡ occurrences id state.queue

  remove-Gives :
      (id i : ℕ) (w : RemoteWork j) (state : RemoteQueueState j)
      → get_elem? state.queue i ≡ some w
      → Gives id state (w ∷ []) (remove i w state)
  unfolding remove
  remove-Gives id i w state h =
      let moved =
        ap (occurrences id)
          (queue-decrement w.priority (record state { queue = remove_at i state.queue })) in
      let taken_out = occurrences-remove_at id i state.queue w h in ground (arith, moved, taken_out)

  start_work-Gives :
      (id i : ℕ) (found preempt : _) (state : RemoteQueueState j)
      → get_elem? state.queue i ≡ found
      → Gives id state
          (turn_works (start_work i found preempt state).0)
          (start_work i found preempt state).1
  unfolding start_work
  start_work-Gives id i none preempt state h = omega arith
  start_work-Gives id i (some w) preempt state h =
      remove-Gives id i w (record state { in_flight = _ }) h

  nothing-Gives :
      (id : ℕ) (shut : Bool) (state : RemoteQueueState j)
      → Gives id state (turn_works (if shut then ended else wait)) state
  nothing-Gives id true state = omega arith
  nothing-Gives id false state = omega arith

  pop_ready-Gives :
      (id : ℕ) (index preempt : Option ℕ) (state : RemoteQueueState j)
      → Gives id state
          (turn_works (pop_ready index preempt state).0)
          (pop_ready index preempt state).1
  unfolding pop_ready
  pop_ready-Gives id none preempt state = nothing-Gives id state.closed state
  pop_ready-Gives id (some i) preempt state =
      start_work-Gives id i (get_elem? state.queue i) preempt state refl

  pop_control-Gives :
      (id : ℕ) (controls : List RemoteWorkerControl) (preempt : Option ℕ)
      (state : RemoteQueueState j)
      → Gives id state
          (turn_works (pop_control controls preempt state).0)
          (pop_control controls preempt state).1
  unfolding pop_control
  pop_control-Gives id [] preempt state = pop_ready-Gives id _ preempt state
  pop_control-Gives id (first ∷ rest) preempt state = omega arith

  close_and_drain_background-Gives :
      (id : ℕ) (state : RemoteQueueState j)
      → Gives id state (close_and_drain_background state).0 (close_and_drain_background state).1
  unfolding close_and_drain_background
  close_and_drain_background-Gives id state =
      rw (partition_background-interactive state.queue, partition_background-background state.queue)
        (occurrences_split id state.queue)

  cancel_at-Gives :
      (id i : ℕ) (found : Option (RemoteWork j)) (state : RemoteQueueState j)
      → get_elem? state.queue i ≡ found
      → Gives id state (option_works (cancel_at i found state).0) (cancel_at i found state).1
  unfolding cancel_at
  cancel_at-Gives id i none state h = omega arith
  cancel_at-Gives id i (some w) state h = remove-Gives id i w state h

  cancel_found-Gives :
      (id : ℕ) (found : Option ℕ) (state : RemoteQueueState j)
      → Gives id state (option_works (cancel_found found state).0) (cancel_found found state).1
  unfolding cancel_found
  cancel_found-Gives id none state = omega arith
  cancel_found-Gives id (some i) state = cancel_at-Gives id i (get_elem? state.queue i) state refl

  push_interactive-Balances :
      (id : ℕ) (q : RemoteQueue j) (w : RemoteWork j) (preempt : Option ℕ)
      → Balances id q (push_effect w (push_interactive q w preempt))
  unfolding push_interactive drain_background_blocking
  push_interactive-Balances id q w preempt =
      let interest = interest_for_request j w.request in
      let queue = q.state.queue in
      elim (Bool-cases (leb q.interactive_capacity q.state.interactive_len)) [
        | inl full ↦ rw full refl
        | inr free ↦
            rw (free, drain_before-append interest queue w)
              (omega (
                arith,
                occurrences-append id (kept_of interest queue) (w ∷ []),
                occurrences-kept_of id interest queue,
              ))
      ]

  push_background-Balances :
      (id : ℕ) (q : RemoteQueue j) (w : RemoteWork j) (preempt : Option ℕ)
      → Balances id q (push_effect w (push_background q w preempt))
  unfolding push_background
  push_background-Balances id q w preempt =
      elim (Bool-cases (leb q.background_capacity q.state.background_len)) [
        | inl full ↦ rw full refl
        | inr free ↦ rw free (omega (arith, occurrences-append id q.state.queue (w ∷ [])))
      ]

  push_by_priority-Balances :
      (id : ℕ) (p : RemotePriority) (q : RemoteQueue j) (w : RemoteWork j) (preempt : Option ℕ)
      → Balances id q (push_effect w (push_by_priority p q w preempt))
  unfolding push_by_priority
  push_by_priority-Balances id interactive q w preempt = push_interactive-Balances id q w preempt
  push_by_priority-Balances id background q w preempt = push_background-Balances id q w preempt

  try_push-Balances :
      (id : ℕ) (q : RemoteQueue j) (w : RemoteWork j) (preempt : Option ℕ)
      → Balances id q (push_effect w (try_push q w preempt))
  unfolding try_push
  try_push-Balances id q w preempt =
      elim (Bool-cases (q.state.closed || q.state.maintenance_paused)) [
        | inl shut ↦ rw shut refl
        | inr free ↦ rw free (push_by_priority-Balances id w.priority q w preempt)
      ]

  -- A control changes no work.
  queue-push_control :
      (reset : RemoteWorkerControl) (state : RemoteQueueState j)
      → (or_same state (push_control reset state)).queue ≡ state.queue
  unfolding push_control
  queue-push_control reset state =
      let controls = state.controls ++ (reset ∷ []) in
      elim state.closed
        as (λ shut.
          (or_same state (if shut then none else some (record state { controls = controls }))).queue
          ≡ state.queue) [ true ↦ refl | false ↦ refl ]

  step-Balances : (id : ℕ) (q : RemoteQueue j) (event : Event j) → Balances id q (step q event)
  unfolding step pop_worker_item shutdown_and_drain begin_maintenance_and_drain end_maintenance
      finish_started drain_all cancel
  step-Balances id q (push w preempt) = try_push-Balances id q w preempt
  step-Balances id q (pop preempt) =
      omega (arith, pop_control-Gives id q.state.controls preempt q.state)
  step-Balances id q shutdown = omega arith
  step-Balances id q begin_maintenance = omega arith
  step-Balances id q maintenance_over = omega arith
  step-Balances id q finish = omega arith
  step-Balances id q (reset_agent_worker reset) =
      ap (λ works. occurrences id works + 0) (queue-push_control reset q.state)
  step-Balances id q close = omega (arith, close_and_drain_background-Gives id q.state)
  step-Balances id q (cancel_request request_id) = omega (arith, cancel_found-Gives id _ q.state)

  -- Over any history of a queue, the works of each request that were waiting before it and those that
  -- entered during it are as many as those that left, by being started, drained or canceled, and those
  -- that still wait.
  pub run-Balances :
      (id : ℕ) (q : RemoteQueue j) (events : List (Event j)) → Balances id q (run q events)
  unfolding run
  run-Balances id q [] = refl
  run-Balances id q (event ∷ events) =
      let first = step q event in
      let later = run first.next events in
      omega (
        arith,
        step-Balances id q event,
        run-Balances id first.next events,
        occurrences-append id first.entered later.entered,
        occurrences-append id first.left later.left,
      )
