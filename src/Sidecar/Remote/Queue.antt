-- ===== src/Sidecar/Remote/Queue.antt =====
-- `RemoteQueue` and `RemoteQueueState` of crates/nrm-sidecar/src/main.rs. Each method that locks the
-- state is one function on it, as the lock is held throughout. The condition variables have no state,
-- and the one that is waited on shows as the turn `wait`. The epoch of an `AgentPreempt` is a
-- number, and a reply channel a number too.
pub mod TryPush
pub mod Pop
pub mod Drains
pub mod Order
pub mod Drain
pub mod Events
pub mod Sound
pub mod Pushes
pub mod Steps
pub mod Fifo
pub mod Puts
pub mod Balance
pub mod Drained
use nvim_remote_mirror.Prelude.{
  ℕ, zero, suc, ◌+◌, ◌-◌, ◌≡◌, Bool, true, false, not, ◌&&◌, ◌||◌, Option, none, some, List, [],
  ◌∷◌, ◌++◌, length, take, is_empty, u64_mod, ◌%◌, leb, ◌==◌, if◌then◌else◌,
}
use nvim_remote_mirror.Sidecar.Remote.Request.{
  Json, ClientRequest, RemoteWork, RemotePriority, interactive, background, RequestInterest,
  conflicts_with_interest, interest_for_request, blocks_later,
}

pub record RemoteWorkerControl : Type 0 where
  pub started : ℕ
  pub timeout : ℕ
  pub reply : ℕ

abbrev pub is_interactive : RemotePriority → Bool
is_interactive interactive = true
is_interactive background = false

-- `saturating_add(1)` on a 64-bit counter
abbrev pub saturating_inc : ℕ → ℕ
saturating_inc n = if leb (u64_mod - 1) n then u64_mod - 1 else n + 1

-- `position`, and `queue[index]` with `None` out of range
abbrev pub position {ℓ} : {A : Type ℓ} → (A → Bool) → List A → Option ℕ
position p [] = none
position p (x ∷ xs) =
    let later = position p xs in
    if p x then some 0 else elim later [ none ↦ none | some i ↦ some (suc i) ]

abbrev pub get_elem? {ℓ} : {A : Type ℓ} → List A → ℕ → Option A
get_elem? [] i = none
get_elem? (x ∷ xs) zero = some x
get_elem? (x ∷ xs) (suc i) = get_elem? xs i

-- `VecDeque::remove`
abbrev pub remove_at {ℓ} : {A : Type ℓ} → ℕ → List A → List A
remove_at i [] = []
remove_at zero (x ∷ xs) = xs
remove_at (suc i) (x ∷ xs) = x ∷ remove_at i xs

-- `AgentPreempt::request_preemption` and `epoch`, where there is one
abbrev pub request_preemption : Option ℕ → Option ℕ
request_preemption none = none
request_preemption (some epoch) = some ((epoch + 1) % u64_mod)

abbrev pub epoch_of : Option ℕ → ℕ
epoch_of none = 0
epoch_of (some epoch) = epoch

module _ (j : Json) where
  pub record RemoteQueueState : Type 0 where
    pub queue : List (RemoteWork j)
    pub interactive_len : ℕ
    pub background_len : ℕ
    pub closed : Bool
    pub maintenance_paused : Bool
    pub in_flight : ℕ
    pub controls : List RemoteWorkerControl

  pub record RemoteQueue : Type 0 where
    pub state : RemoteQueueState
    pub interactive_capacity : ℕ
    pub background_capacity : ℕ

  pub record StartedRemoteWork : Type 0 where
    pub work : RemoteWork j
    pub preempt_epoch : ℕ

  -- What one turn of the loop in `pop_worker_item` comes to: an item, the end, or a wait.
  pub data Turn : Type 0 where
    started_work : StartedRemoteWork → Turn
    control : RemoteWorkerControl → Turn
    ended : Turn
    wait : Turn

  pub data Push : Type 0 where
    -- the work that was canceled, and the epoch of the preemption
    taken : List (RemoteWork j) → Option ℕ → Push
    refused : RemoteWork j → Push

module _ {j : Json} where
  unfoldable pub new_queue : ℕ → ℕ → RemoteQueue j
  new_queue interactive_capacity background_capacity = record {
    state = record {
      queue = [];
      interactive_len = 0;
      background_len = 0;
      closed = false;
      maintenance_paused = false;
      in_flight = 0;
      controls = [];
    };
    interactive_capacity = interactive_capacity;
    background_capacity = background_capacity;
  }

  -- `RemoteQueueState::decrement`
  unfoldable pub decrement : RemotePriority → RemoteQueueState j → RemoteQueueState j
  decrement interactive state = record state { interactive_len = state.interactive_len - 1 }
  decrement background state = record state { background_len = state.background_len - 1 }

  -- `RemoteQueueState::remove` behind the look at `index`
  unfoldable pub remove : ℕ → RemoteWork j → RemoteQueueState j → RemoteQueueState j
  unfolding decrement
  remove index work state =
      decrement work.priority (record state { queue = remove_at index state.queue })

  unfoldable pub drain_all : RemoteQueueState j → List (RemoteWork j) × RemoteQueueState j
  drain_all state =
      (state.queue, record state { queue = []; interactive_len = 0; background_len = 0 })
