-- ===== src/Sidecar/Remote/Queue/Steps.antt =====
-- Every event keeps a `RemoteQueue` sound.
use nvim_remote_mirror.Prelude.{
  ℕ, ◌-◌, ◌≡◌, refl, sym, ap, subst, ◌⊎◌, inl, inr, Bool, true, false, Option, none, some, List, [],
  ◌∷◌, ◌++◌, length, if◌then◌else◌, arith,
}
use nvim_remote_mirror.Sidecar.Remote.Request.{Json, RemoteWork}
use nvim_remote_mirror.Sidecar.Remote.Queue.{
  Push, taken, refused, RemoteWorkerControl, get_elem?, RemoteQueueState, RemoteQueue, new_queue,
  drain_all,
}
use nvim_remote_mirror.Sidecar.Remote.Queue.TryPush.{try_push}
use nvim_remote_mirror.Sidecar.Remote.Queue.Pop.{
  start_work, pop_ready, pop_control, pop_worker_item,
}
use nvim_remote_mirror.Sidecar.Remote.Queue.Drains.{
  shutdown_and_drain, begin_maintenance_and_drain, end_maintenance, finish_started, push_control,
  close_and_drain_background, cancel, cancel_found, cancel_at,
}
use nvim_remote_mirror.Sidecar.Remote.Queue.Order.{interactive_of}
use nvim_remote_mirror.Sidecar.Remote.Queue.Drain.{
  partition_background-interactive, interactive_of_twice, background_of-interactive_of,
  Unblocked-interactive_of,
}
use nvim_remote_mirror.Sidecar.Remote.Queue.Events.{
  or_same, push_effect, Event, push, pop, shutdown, begin_maintenance, maintenance_over, finish,
  reset_agent_worker, close, cancel_request, step, run,
}
use nvim_remote_mirror.Sidecar.Remote.Queue.Sound.{
  IsSoundState, IsSound, Shrinks, remove-Shrinks, shrunk-IsSound,
}
use nvim_remote_mirror.Sidecar.Remote.Queue.Pushes.{try_push-IsSound}

module _ {j : Json} where
  -- The same state.
  pub same-Shrinks : (state : RemoteQueueState j) → IsSoundState state → Shrinks state state
  same-Shrinks state v = (v, omega arith, omega arith)

  pub start_work-Shrinks :
      (i : ℕ) (found : Option (RemoteWork j)) (preempt : Option ℕ) (state : RemoteQueueState j)
      → IsSoundState state
      → get_elem? state.queue i ≡ found
      → Shrinks state (start_work i found preempt state).1
  unfolding start_work
  start_work-Shrinks i none preempt state v h = same-Shrinks state v
  start_work-Shrinks i (some w) preempt state v h =
      let started : IsSoundState (record state { in_flight = _ }) = record {
        interactive_counted = v.interactive_counted;
        background_counted = v.background_counted;
        paused_empty = v.paused_empty;
        unblocked = v.unblocked;
      } in
      remove-Shrinks (record state { in_flight = _ }) i w started h

  pub pop_ready-Shrinks :
      (index preempt : Option ℕ) (state : RemoteQueueState j)
      → IsSoundState state
      → Shrinks state (pop_ready index preempt state).1
  unfolding pop_ready
  pop_ready-Shrinks none preempt state v = same-Shrinks state v
  pop_ready-Shrinks (some i) preempt state v =
      start_work-Shrinks i (get_elem? state.queue i) preempt state v refl

  pub pop_control-Shrinks :
      (controls : List RemoteWorkerControl) (preempt : Option ℕ) (state : RemoteQueueState j)
      → IsSoundState state
      → Shrinks state (pop_control controls preempt state).1
  unfolding pop_control
  pop_control-Shrinks [] preempt state v = pop_ready-Shrinks _ preempt state v
  pop_control-Shrinks (first ∷ rest) preempt state v = (
    record {
      interactive_counted = v.interactive_counted;
      background_counted = v.background_counted;
      paused_empty = v.paused_empty;
      unblocked = v.unblocked;
    },
    omega arith,
    omega arith,
  )

  pub close_and_drain_background-Shrinks :
      (state : RemoteQueueState j)
      → IsSoundState state
      → Shrinks state (close_and_drain_background state).1
  unfolding close_and_drain_background
  close_and_drain_background-Shrinks state v =
      let queue = state.queue in
      rw (partition_background-interactive queue) (
        record {
          interactive_counted = ap length (sym (interactive_of_twice queue));
          background_counted = ap length (sym (background_of-interactive_of queue));
          paused_empty = elim v.paused_empty [ inl f ↦ inl f | inr e ↦ inr (ap interactive_of e) ];
          unblocked = Unblocked-interactive_of queue v.unblocked;
        },
        omega (arith, v.interactive_counted),
        omega arith,
      )

  pub cancel_at-Shrinks :
      (i : ℕ) (found : Option (RemoteWork j)) (state : RemoteQueueState j)
      → IsSoundState state
      → get_elem? state.queue i ≡ found
      → Shrinks state (cancel_at i found state).1
  unfolding cancel_at
  cancel_at-Shrinks i none state v h = same-Shrinks state v
  cancel_at-Shrinks i (some w) state v h = remove-Shrinks state i w v h

  emptied-Shrinks :
      (state : RemoteQueueState j) (closed paused : Bool)
      → Shrinks state (record state {
        queue = [];
        interactive_len = 0;
        background_len = 0;
        closed = closed;
        maintenance_paused = paused;
      })
  emptied-Shrinks state closed paused = (
    record {
      interactive_counted = refl;
      background_counted = refl;
      paused_empty = inr refl;
      unblocked = tt;
    },
    omega arith,
    omega arith,
  )

  -- What a pushed control, a finished work and the end of a maintenance change is not counted.
  unqueued-Shrinks :
      (state : RemoteQueueState j) (paused : Bool) (in_flight : ℕ)
      (controls : List RemoteWorkerControl)
      → IsSoundState state
      → (paused ≡ false) ⊎ (state.queue ≡ [])
      → Shrinks state
          (record state { maintenance_paused = paused; in_flight = in_flight; controls = controls })
  unqueued-Shrinks state paused in_flight controls v p = (
    record {
      interactive_counted = v.interactive_counted;
      background_counted = v.background_counted;
      paused_empty = p;
      unblocked = v.unblocked;
    },
    omega arith,
    omega arith,
  )

  push_control-Shrinks :
      (reset : RemoteWorkerControl) (state : RemoteQueueState j)
      → IsSoundState state
      → Shrinks state (or_same state (push_control reset state))
  unfolding push_control
  push_control-Shrinks reset state v =
      let controls = state.controls ++ (reset ∷ []) in
      elim state.closed
        as (λ shut.
          Shrinks state
            (or_same state (if shut then none else some (record state { controls = controls })))) [
              | true ↦ same-Shrinks state v
              | false ↦
                  unqueued-Shrinks state state.maintenance_paused state.in_flight controls v
                    v.paused_empty
            ]

  cancel_found-Shrinks :
      (found : Option ℕ) (state : RemoteQueueState j)
      → IsSoundState state
      → Shrinks state (cancel_found found state).1
  unfolding cancel_found
  cancel_found-Shrinks none state v = same-Shrinks state v
  cancel_found-Shrinks (some i) state v = cancel_at-Shrinks i (get_elem? state.queue i) state v refl

  push_effect-next : (w : RemoteWork j) (r : Push j × RemoteQueue j) → r.1 ≡ (push_effect w r).next
  push_effect-next w (taken canceled preempt, q) = refl
  push_effect-next w (refused x, q) = refl

  step-IsSound : (q : RemoteQueue j) (event : Event j) → IsSound q → IsSound (step q event).next
  unfolding step pop_worker_item shutdown_and_drain begin_maintenance_and_drain end_maintenance
      finish_started push_control cancel drain_all
  step-IsSound q (push work preempt) v =
      subst IsSound (push_effect-next work (try_push q work preempt))
        (try_push-IsSound q work preempt v)
  step-IsSound q (pop preempt) v =
      shrunk-IsSound q _ v (pop_control-Shrinks q.state.controls preempt q.state v.state_sound)
  step-IsSound q shutdown v =
      shrunk-IsSound q _ v (emptied-Shrinks q.state true q.state.maintenance_paused)
  step-IsSound q begin_maintenance v =
      shrunk-IsSound q _ v (emptied-Shrinks q.state q.state.closed true)
  step-IsSound q maintenance_over v =
      shrunk-IsSound q _ v
        (unqueued-Shrinks q.state false q.state.in_flight q.state.controls v.state_sound (inl refl))
  step-IsSound q finish v = shrunk-IsSound q _ v (
      unqueued-Shrinks q.state q.state.maintenance_paused (q.state.in_flight - 1) q.state.controls
        v.state_sound v.state_sound.paused_empty)
  step-IsSound q (reset_agent_worker reset) v =
      shrunk-IsSound q _ v (push_control-Shrinks reset q.state v.state_sound)
  step-IsSound q close v =
      shrunk-IsSound q _ v (close_and_drain_background-Shrinks q.state v.state_sound)
  step-IsSound q (cancel_request id) v =
      shrunk-IsSound q _ v (cancel_found-Shrinks _ q.state v.state_sound)

  run-IsSound :
      (q : RemoteQueue j) (events : List (Event j)) → IsSound q → IsSound (run q events).next
  unfolding run
  run-IsSound q [] v = v
  run-IsSound q (event ∷ events) v = run-IsSound (step q event).next events (step-IsSound q event v)

  new_queue-IsSound : (m n : ℕ) → IsSound (new_queue {j = j} m n)
  unfolding new_queue
  new_queue-IsSound m n = record {
    state_sound = record {
      interactive_counted = refl;
      background_counted = refl;
      paused_empty = inl refl;
      unblocked = tt;
    };
    interactive_bounded = omega arith;
    background_bounded = omega arith;
  }

  -- Whatever happens to a new queue, its two counters are the numbers of its interactive and of its
  -- background works and stay within the capacities, it is empty during a maintenance, and no
  -- background work stands in front of an interactive one that it blocks.
  pub reached_queue-IsSound :
      (m n : ℕ) (events : List (Event j)) → IsSound (run (new_queue m n) events).next
  reached_queue-IsSound m n events = run-IsSound (new_queue m n) events (new_queue-IsSound m n)
