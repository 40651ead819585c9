-- ===== src/Sidecar/Remote/Queue/Sound.antt =====
-- The invariant of a `RemoteQueue`, and that taking a work out of the queue keeps it.
use nvim_remote_mirror.Prelude.{ℕ, ◌≤◌, ◌≡◌, refl, ◌⊎◌, false, some, [], length, arith}
use nvim_remote_mirror.Sidecar.Remote.Request.{
  Json, RemoteWork, RemotePriority, interactive, background,
}
use nvim_remote_mirror.Sidecar.Remote.Queue.{
  get_elem?, remove_at, RemoteQueueState, RemoteQueue, decrement, remove,
}
use nvim_remote_mirror.Sidecar.Remote.Queue.Order.{
  interactive_of, background_of, Unblocked, Unblocked-remove_at, length-interactive_of-remove_at,
  length-background_of-remove_at,
}

module _ {j : Json} where
  pub record IsSoundState (state : RemoteQueueState j) : Type 0 where
    pub interactive_counted : state.interactive_len ≡ length (interactive_of state.queue)
    pub background_counted : state.background_len ≡ length (background_of state.queue)
    pub paused_empty : (state.maintenance_paused ≡ false) ⊎ (state.queue ≡ [])
    pub unblocked : Unblocked state.queue

  pub record IsSound (q : RemoteQueue j) : Type 0 where
    pub state_sound : IsSoundState q.state
    pub interactive_bounded : q.state.interactive_len ≤ q.interactive_capacity
    pub background_bounded : q.state.background_len ≤ q.background_capacity

  abbrev pub Shrinks : RemoteQueueState j → RemoteQueueState j → Type 0
  Shrinks state next =
      IsSoundState next
      × (next.interactive_len ≤ state.interactive_len)
      × (next.background_len ≤ state.background_len)

  pub decrement-Shrinks :
      (p : RemotePriority) (state : RemoteQueueState j) (i : ℕ) (w : RemoteWork j)
      → w.priority ≡ p
      → IsSoundState state
      → get_elem? state.queue i ≡ some w
      → Shrinks state (decrement p (record state { queue = remove_at i state.queue }))
  unfolding decrement
  decrement-Shrinks interactive state i w e v h = (
    record {
      interactive_counted =
          ground (arith, length-interactive_of-remove_at i state.queue w h, v.interactive_counted);
      background_counted =
          ground (arith, length-background_of-remove_at i state.queue w h, v.background_counted);
      paused_empty = ground (arith, v.paused_empty);
      unblocked = Unblocked-remove_at i state.queue v.unblocked;
    },
    omega arith,
    omega arith,
  )
  decrement-Shrinks background state i w e v h = (
    record {
      interactive_counted =
          ground (arith, length-interactive_of-remove_at i state.queue w h, v.interactive_counted);
      background_counted =
          ground (arith, length-background_of-remove_at i state.queue w h, v.background_counted);
      paused_empty = ground (arith, v.paused_empty);
      unblocked = Unblocked-remove_at i state.queue v.unblocked;
    },
    omega arith,
    omega arith,
  )

  pub remove-Shrinks :
      (state : RemoteQueueState j) (i : ℕ) (w : RemoteWork j)
      → IsSoundState state
      → get_elem? state.queue i ≡ some w
      → Shrinks state (remove i w state)
  unfolding remove
  remove-Shrinks state i w v h = decrement-Shrinks w.priority state i w refl v h

  -- A queue whose state shrinks stays sound.
  pub shrunk-IsSound :
      (q : RemoteQueue j) (state : RemoteQueueState j)
      → IsSound q
      → Shrinks q.state state
      → IsSound (record q { state = state })
  shrunk-IsSound q state v s = record {
    state_sound = s.0;
    interactive_bounded = omega (arith, s.1, v.interactive_bounded);
    background_bounded = omega (arith, s.2, v.background_bounded);
  }
