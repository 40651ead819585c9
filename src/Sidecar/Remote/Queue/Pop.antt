-- ===== src/Sidecar/Remote/Queue/Pop.antt =====
-- `RemoteQueue::pop_worker_item` of crates/nrm-sidecar/src/main.rs, one turn of its loop.
use nvim_remote_mirror.Prelude.{ℕ, Option, none, some, List, [], ◌∷◌, take, is_empty, if◌then◌else◌}
use nvim_remote_mirror.Sidecar.Remote.Request.{Json, RemoteWork, blocks_later}
use nvim_remote_mirror.Sidecar.Remote.Queue.{
  RemoteWorkerControl, is_interactive, saturating_inc, position, get_elem?, epoch_of,
  RemoteQueueState, Turn, started_work, control, ended, wait, remove,
}

module _ {j : Json} where
  -- The index of the first interactive work, or of the first one in front of it that blocks it.
  unfoldable pub ready_before : List (RemoteWork j) → ℕ → Option (RemoteWork j) → ℕ
  ready_before queue interactive_index none = interactive_index
  ready_before queue interactive_index (some first) =
      elim (position (λ work. blocks_later j work first) (take interactive_index queue)) [
        | none ↦ interactive_index
        | some index ↦ index
      ]

  unfoldable pub next_ready_index : List (RemoteWork j) → Option ℕ
  unfolding ready_before
  next_ready_index queue =
      elim (position (λ (work : RemoteWork j). is_interactive work.priority) queue) [
        | none ↦ if is_empty queue then none else some 0
        | some index ↦ some (ready_before queue index (get_elem? queue index))
      ]

  -- The work at the index is taken; `expect` on an index out of range does not happen.
  unfoldable pub start_work :
      ℕ → Option (RemoteWork j) → Option ℕ → RemoteQueueState j → Turn j × RemoteQueueState j
  unfolding remove
  start_work index none preempt state = (ended, state)
  start_work index (some work) preempt state = (
    started_work (record { work = work; preempt_epoch = epoch_of preempt }),
    remove index work (record state { in_flight = saturating_inc state.in_flight }),
  )

  unfoldable pub pop_ready : Option ℕ → Option ℕ → RemoteQueueState j → Turn j × RemoteQueueState j
  unfolding start_work
  pop_ready (some index) preempt state =
      start_work index (get_elem? state.queue index) preempt state
  pop_ready none preempt state = (if state.closed then ended else wait, state)

  unfoldable pub pop_control :
      List RemoteWorkerControl → Option ℕ → RemoteQueueState j → Turn j × RemoteQueueState j
  unfolding next_ready_index pop_ready
  pop_control (first ∷ rest) preempt state = (control first, record state { controls = rest })
  pop_control [] preempt state =
      pop_ready (if state.maintenance_paused then none else next_ready_index state.queue) preempt
        state

  -- One turn of the loop in `pop_worker_item`.
  unfoldable pub pop_worker_item : Option ℕ → RemoteQueueState j → Turn j × RemoteQueueState j
  unfolding pop_control
  pop_worker_item preempt state = pop_control state.controls preempt state
