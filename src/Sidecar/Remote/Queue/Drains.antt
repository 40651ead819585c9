-- ===== src/Sidecar/Remote/Queue/Drains.antt =====
-- The methods of `RemoteQueue` in crates/nrm-sidecar/src/main.rs that drain the queue or change how it
-- serves.
use nvim_remote_mirror.Prelude.{
  ℕ, ◌-◌, true, false, Option, none, some, List, [], ◌∷◌, ◌++◌, length, ◌==◌, if◌then◌else◌,
}
use nvim_remote_mirror.Sidecar.Remote.Request.{Json, RemoteWork}
use nvim_remote_mirror.Sidecar.Remote.Queue.{
  RemoteWorkerControl, is_interactive, position, get_elem?, RemoteQueueState, remove, drain_all,
}

module _ {j : Json} where
  unfoldable pub shutdown_and_drain : RemoteQueueState j → List (RemoteWork j) × RemoteQueueState j
  unfolding drain_all
  shutdown_and_drain state = drain_all (record state { closed = true })

  unfoldable pub begin_maintenance_and_drain :
      RemoteQueueState j → List (RemoteWork j) × RemoteQueueState j
  unfolding drain_all
  begin_maintenance_and_drain state = drain_all (record state { maintenance_paused = true })

  unfoldable pub end_maintenance : RemoteQueueState j → RemoteQueueState j
  end_maintenance state = record state { maintenance_paused = false }

  unfoldable pub finish_started : RemoteQueueState j → RemoteQueueState j
  finish_started state = record state { in_flight = state.in_flight - 1 }

  -- `reset_agent_worker` while it holds the lock; it bails on a closed queue.
  unfoldable pub push_control :
      RemoteWorkerControl → RemoteQueueState j → Option (RemoteQueueState j)
  push_control reset state =
      if state.closed
      then none
      else some (record state { controls = state.controls ++ (reset ∷ []) })

  -- The loop that takes the queue apart: what is drained and what is kept.
  unfoldable pub partition_background :
      List (RemoteWork j) → List (RemoteWork j) × List (RemoteWork j)
  partition_background [] = ([], [])
  partition_background (work ∷ rest) =
      let (drained, kept) = partition_background rest in
      if is_interactive work.priority then (drained, work ∷ kept) else (work ∷ drained, kept)

  unfoldable pub close_and_drain_background :
      RemoteQueueState j → List (RemoteWork j) × RemoteQueueState j
  unfolding partition_background
  close_and_drain_background state =
      let (drained, kept) = partition_background state.queue in
      (
        drained,
        record state {
          closed = true;
          queue = kept;
          background_len = 0;
          interactive_len = length kept;
        },
      )

  -- The work found at its index, and `remove`.
  unfoldable pub cancel_at :
      ℕ → Option (RemoteWork j) → RemoteQueueState j → Option (RemoteWork j) × RemoteQueueState j
  unfolding remove
  cancel_at index none state = (none, state)
  cancel_at index (some work) state = (some work, remove index work state)

  unfoldable pub cancel_found :
      Option ℕ → RemoteQueueState j → Option (RemoteWork j) × RemoteQueueState j
  unfolding cancel_at
  cancel_found none state = (none, state)
  cancel_found (some index) state = cancel_at index (get_elem? state.queue index) state

  unfoldable pub cancel : ℕ → RemoteQueueState j → Option (RemoteWork j) × RemoteQueueState j
  unfolding cancel_found
  cancel request_id state =
      cancel_found (position (λ (work : RemoteWork j). work.request.id == request_id) state.queue)
        state
