-- ===== src/Sidecar/Remote/Tests.antt =====
-- The remote queue of crates/nrm-sidecar/src/main.rs and its pending hazards at concrete requests.
use nvim_remote_mirror.Prelude.{
  ◌≡◌, refl, Bool, true, false, Option, none, some, List, [], ◌∷◌, ◌++◌, Text, codes, list_eq,
  if◌then◌else◌, any, split, inl, arith,
}
use nvim_remote_mirror.Sidecar.Remote.Request.{
  Json, RemoteWork, interactive, background, read, RequestInterest, no_hazard,
  conflicts_with_interest,
}
use nvim_remote_mirror.Sidecar.Remote.Request.{
  blocks_later, interest_for_request, request_path_interest, has_content_interest,
  normalized_path_string, normalize_relative_path, request_is_write_lane,
}
use nvim_remote_mirror.Sidecar.Remote.Queue.{RemoteQueueState, RemoteQueue, new_queue}
use nvim_remote_mirror.Sidecar.Remote.Queue.TryPush.{try_push}
use nvim_remote_mirror.Sidecar.Remote.Queue.Pop.{pop_worker_item}
use nvim_remote_mirror.Sidecar.Remote.Queue.Events.{Event, push, pop, close, cancel_request, run}
use nvim_remote_mirror.Sidecar.Remote.Queue.Sound.{IsSound, IsSoundState}
use nvim_remote_mirror.Sidecar.Remote.Queue.Steps.{reached_queue-IsSound}
use nvim_remote_mirror.Sidecar.Remote.Queue.Fifo.{
  pop_worker_item-take_oldest, started_of, take_oldest, lanes_of,
}
use nvim_remote_mirror.Sidecar.Remote.Queue.Puts.{PutsOr, try_push-PutsOr}
use nvim_remote_mirror.Sidecar.Remote.Queue.Balance.{Balances, run-Balances}
use nvim_remote_mirror.Sidecar.Remote.Queue.Drained.{pop_all, pop_all-closed}
use nvim_remote_mirror.Sidecar.Remote.Queue.Order.{interactive_of, background_of}
use nvim_remote_mirror.Sidecar.Remote.Pending.{
  pending_conflicts, resumes_grep, lane_for_request, contains_key, register, count_up_all, count_up,
}
use nvim_remote_mirror.Sidecar.Remote.Pending.Conflicts.{
  Change, registered, cleared, track, untracked, track-pending_conflicts, lane_for_request-read,
}

data Value : Type 0 where
  null : Value
  text : Text → Value
  flag : Bool → Value
  object : Text → Value → Value

abbrev get_field : Text → Value → Option Value
get_field key (object name value) = if list_eq key name then some value else none
get_field key _ = none

abbrev text_of : Value → Option Text
text_of (text t) = some t
text_of _ = none

abbrev flag_of : Value → Option Bool
flag_of (flag b) = some b
flag_of _ = none

-- JSON without arrays
abbrev json : Json
json = record {
  Value = Value;
  get = get_field;
  as_str = text_of;
  as_bool = flag_of;
  as_array = λ value. none;
}

abbrev prefetch_work : RemoteWork json
prefetch_work = record {
  request = record { id = 1; method = codes "prefetch"; params = null };
  hazard = record { exact_paths = codes "src/a.rs" ∷ []; unknown_content_mutation = false };
  priority = background;
  lane = read;
  write_hazard_registered = false;
  enqueued_at = 0;
}

abbrev open_work : RemoteWork json
open_work = record {
  request = record {
    id = 2;
    method = codes "open";
    params = object (codes "path") (text (codes "src/b.rs"));
  };
  hazard = no_hazard;
  priority = interactive;
  lane = read;
  write_hazard_registered = false;
  enqueued_at = 1;
}

abbrev history : List (Event json)
history =
    push prefetch_work none ∷ push open_work (some 7) ∷ pop (some 8) ∷ cancel_request 1 ∷ close ∷ []

reached_queue-IsSound_example : IsSound (run (new_queue {j = json} 2 2) history).next
reached_queue-IsSound_example = reached_queue-IsSound 2 2 history

run-Balances_example : Balances 1 (new_queue {j = json} 2 2) (run (new_queue 2 2) history)
run-Balances_example = run-Balances 1 (new_queue 2 2) history

abbrev waiting : RemoteQueueState json
waiting = record {
  queue = prefetch_work ∷ open_work ∷ [];
  interactive_len = 1;
  background_len = 1;
  closed = false;
  maintenance_paused = false;
  in_flight = 0;
  controls = [];
}

abbrev waiting_queue : RemoteQueue json
waiting_queue = record { state = waiting; interactive_capacity = 2; background_capacity = 2 }

try_push-PutsOr_example : PutsOr open_work waiting_queue (try_push waiting_queue open_work none)
try_push-PutsOr_example = try_push-PutsOr waiting_queue open_work none

waiting-IsSoundState : IsSoundState waiting
unfolding blocks_later interest_for_request request_path_interest conflicts_with_interest
    has_content_interest normalized_path_string normalize_relative_path split
waiting-IsSoundState = record {
  interactive_counted = refl;
  background_counted = refl;
  paused_empty = inl refl;
  unblocked = ((refl, tt), (tt, tt));
}

pop_worker_item-take_oldest_example :
    started_of (pop_worker_item none waiting) ≡ take_oldest (lanes_of waiting)
pop_worker_item-take_oldest_example =
    pop_worker_item-take_oldest none waiting waiting-IsSoundState refl refl

abbrev closing : RemoteQueueState json
closing = record waiting { closed = true }

closing-IsSoundState : IsSoundState closing
closing-IsSoundState = record {
  interactive_counted = refl;
  background_counted = refl;
  paused_empty = inl refl;
  unblocked = waiting-IsSoundState.unblocked;
}

pop_all-closed_example :
    pop_all 3 closing ≡ (interactive_of closing.queue ++ background_of closing.queue, true)
pop_all-closed_example = pop_all-closed closing 2 closing-IsSoundState refl refl refl (omega arith)

abbrev hazards : List Change
hazards =
    registered prefetch_work.hazard
    ∷ registered (record { exact_paths = []; unknown_content_mutation = true })
    ∷ cleared 0
    ∷ []

abbrev interest : RequestInterest
interest = record { exact_paths = codes "src/a.rs" ∷ []; unknown_content = false }

track-pending_conflicts_example :
    pending_conflicts (track untracked hazards).pending interest
    ≡ any (λ hazard. conflicts_with_interest hazard interest) (track untracked hazards).hazards
track-pending_conflicts_example = track-pending_conflicts hazards interest (omega arith)

abbrev writes : List Change
writes = registered prefetch_work.hazard ∷ []

to_read_lane : lane_for_request open_work.request (track untracked writes).pending ≡ read
unfolding lane_for_request pending_conflicts track register count_up_all count_up contains_key
    request_is_write_lane resumes_grep interest_for_request request_path_interest
    has_content_interest normalized_path_string normalize_relative_path split
to_read_lane = refl

lane_for_request-read_example :
    any
      (λ hazard. conflicts_with_interest hazard (interest_for_request json open_work.request))
      (track untracked writes).hazards
    ≡ false
unfolding resumes_grep
lane_for_request-read_example =
    lane_for_request-read writes open_work.request (omega arith) refl to_read_lane
