-- ===== src/Sidecar/Remote/Queue/Events.antt =====
-- What happens to a `RemoteQueue`: one event for each method that changes its state, in the order in
-- which they take the lock, and the works that enter and leave the queue in it.
use nvim_remote_mirror.Prelude.{ℕ, Option, none, some, List, [], ◌∷◌, ◌++◌}
use nvim_remote_mirror.Sidecar.Remote.Request.{Json, RemoteWork}
use nvim_remote_mirror.Sidecar.Remote.Queue.{
  RemoteWorkerControl, RemoteQueueState, RemoteQueue, Turn, started_work, Push, taken, refused,
}
use nvim_remote_mirror.Sidecar.Remote.Queue.TryPush.{try_push}
use nvim_remote_mirror.Sidecar.Remote.Queue.Pop.{pop_worker_item}
use nvim_remote_mirror.Sidecar.Remote.Queue.Drains.{
  shutdown_and_drain, begin_maintenance_and_drain, end_maintenance, finish_started, push_control,
  close_and_drain_background, cancel,
}

module _ (j : Json) where
  pub data Event : Type 0 where
    push : RemoteWork j → Option ℕ → Event
    pop : Option ℕ → Event
    shutdown : Event
    begin_maintenance : Event
    maintenance_over : Event
    finish : Event
    reset_agent_worker : RemoteWorkerControl → Event
    close : Event
    cancel_request : ℕ → Event

  -- The works that an event lets into the queue, those that leave it, and the queue behind it.
  pub record Effect : Type 0 where
    pub entered : List (RemoteWork j)
    pub left : List (RemoteWork j)
    pub next : RemoteQueue j

module _ {j : Json} where
  abbrev pub push_effect : RemoteWork j → Push j × RemoteQueue j → Effect j
  push_effect work (taken canceled _, q) = record { entered = work ∷ []; left = canceled; next = q }
  push_effect work (refused _, q) = record { entered = []; left = []; next = q }

  abbrev pub turn_works : Turn j → List (RemoteWork j)
  turn_works (started_work started) = started.work ∷ []
  turn_works _ = []

  abbrev pub option_works : Option (RemoteWork j) → List (RemoteWork j)
  option_works none = []
  option_works (some work) = work ∷ []

  abbrev pub leaves : RemoteQueue j → List (RemoteWork j) × RemoteQueueState j → Effect j
  leaves q (works, state) = record { entered = []; left = works; next = record q { state = state } }

  abbrev pub or_same : RemoteQueueState j → Option (RemoteQueueState j) → RemoteQueueState j
  or_same state none = state
  or_same state (some next) = next

  unfoldable pub step : RemoteQueue j → Event j → Effect j
  unfolding try_push pop_worker_item shutdown_and_drain begin_maintenance_and_drain end_maintenance
      finish_started push_control close_and_drain_background cancel
  step q (push work preempt) = push_effect work (try_push q work preempt)
  step q (pop preempt) =
      let (turn, state) = pop_worker_item preempt q.state in leaves q (turn_works turn, state)
  step q shutdown = leaves q (shutdown_and_drain q.state)
  step q begin_maintenance = leaves q (begin_maintenance_and_drain q.state)
  step q maintenance_over = leaves q ([], end_maintenance q.state)
  step q finish = leaves q ([], finish_started q.state)
  step q (reset_agent_worker reset) = leaves q ([], or_same q.state (push_control reset q.state))
  step q close = leaves q (close_and_drain_background q.state)
  step q (cancel_request id) =
      let (work, state) = cancel id q.state in leaves q (option_works work, state)

  -- A history of events, with all that entered and all that left.
  unfoldable pub run : RemoteQueue j → List (Event j) → Effect j
  unfolding step
  run q [] = record { entered = []; left = []; next = q }
  run q (event ∷ events) =
      let first = step q event in
      let later = run first.next events in
      record {
        entered = first.entered ++ later.entered;
        left = first.left ++ later.left;
        next = later.next;
      }
