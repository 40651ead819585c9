-- ===== src/Sidecar/Remote/Queue/TryPush.antt =====
-- `RemoteQueue::try_push` of crates/nrm-sidecar/src/main.rs.
use nvim_remote_mirror.Prelude.{
  ℕ, zero, suc, ◌+◌, ◌-◌, not, ◌&&◌, ◌||◌, Option, List, [], ◌∷◌, ◌++◌, length, leb, if◌then◌else◌,
}
use nvim_remote_mirror.Sidecar.Remote.Request.{
  Json, RemoteWork, RemotePriority, interactive, background, RequestInterest,
  conflicts_with_interest, interest_for_request,
}
use nvim_remote_mirror.Sidecar.Remote.Queue.{
  is_interactive, request_preemption, RemoteQueueState, RemoteQueue, Push, taken, refused,
}

module _ {j : Json} where
  -- The loop of `drain_background_blocking` over the first works of the queue: those that it
  -- drains, and those that stay with all that follows.
  unfoldable pub drain_before :
      RequestInterest → ℕ → List (RemoteWork j) → List (RemoteWork j) × List (RemoteWork j)
  drain_before interest zero queue = ([], queue)
  drain_before interest (suc n) [] = ([], [])
  drain_before interest (suc n) (work ∷ rest) =
      let (drained, kept) = drain_before interest n rest in
      if not (is_interactive work.priority) && conflicts_with_interest work.hazard interest
      then (work ∷ drained, kept)
      else (drained, work ∷ kept)

  -- `work` is the one at the index.
  unfoldable pub drain_background_blocking :
      RemoteWork j → ℕ → RemoteQueueState j → List (RemoteWork j) × RemoteQueueState j
  unfolding drain_before
  drain_background_blocking work interactive_index state =
      let interest = interest_for_request j work.request in
      let (drained, kept) = drain_before interest interactive_index state.queue in
      (
        drained,
        record state { queue = kept; background_len = state.background_len - length drained },
      )

  unfoldable pub push_interactive : RemoteQueue j → RemoteWork j → Option ℕ → Push j × RemoteQueue j
  unfolding drain_background_blocking
  push_interactive q work preempt =
      if leb q.interactive_capacity q.state.interactive_len
      then (refused work, q)
      else let interactive_index = length q.state.queue in
        let pushed = record q.state {
          queue = q.state.queue ++ (work ∷ []);
          interactive_len = q.state.interactive_len + 1;
        } in
        let (canceled, state) = drain_background_blocking work interactive_index pushed in
        (taken canceled (request_preemption preempt), record q { state = state })

  unfoldable pub push_background : RemoteQueue j → RemoteWork j → Option ℕ → Push j × RemoteQueue j
  push_background q work preempt =
      if leb q.background_capacity q.state.background_len then (refused work, q) else (
        taken [] preempt,
        record q {
          state = record q.state {
            queue = q.state.queue ++ (work ∷ []);
            background_len = q.state.background_len + 1;
          };
        },
      )

  unfoldable pub push_by_priority :
      RemotePriority → RemoteQueue j → RemoteWork j → Option ℕ → Push j × RemoteQueue j
  push_by_priority interactive q work preempt = push_interactive q work preempt
  push_by_priority background q work preempt = push_background q work preempt

  unfoldable pub try_push : RemoteQueue j → RemoteWork j → Option ℕ → Push j × RemoteQueue j
  unfolding push_by_priority push_interactive push_background
  try_push q work preempt =
      if q.state.closed || q.state.maintenance_paused
      then (refused work, q)
      else push_by_priority work.priority q work preempt
