-- ===== src/Sidecar/Remote/Pending.antt =====
-- `PendingRemote` of crates/nrm-sidecar/src/main.rs: the hazards of the writes under way. The hash map
-- of counts is a list of pairs.
pub mod Outstanding
pub mod Conflicts
use nvim_remote_mirror.Prelude.{
  ℕ, zero, suc, ◌+◌, ◌-◌, Bool, true, false, not, ◌&&◌, ◌||◌, List, [], ◌∷◌, Text, any, list_eq,
  is_empty, leb, ltb, ◌==◌, if◌then◌else◌, u64_mod, ◌%◌, codes, is_some, Option, none, some,
}
use nvim_remote_mirror.Sidecar.Remote.Request.{
  PendingHazard, RequestInterest, has_content_interest, Json, ClientRequest, RemoteLane, read,
  write, request_is_write_lane, interest_for_request,
}

abbrev pub Counts : Type 0
Counts = List (Text × ℕ)

pub record PendingRemote : Type 0 where
  pub exact_paths : Counts
  pub unknown_content_mutations : ℕ

abbrev pub no_pending : PendingRemote
no_pending = record { exact_paths = []; unknown_content_mutations = 0 }

-- `*exact_paths.entry(path).or_insert(0) += 1`
unfoldable pub count_up : Text → Counts → Counts
count_up path [] = (path, 1) ∷ []
count_up path ((key, count) ∷ rest) =
    let later = count_up path rest in
    if list_eq path key then (key, (count + 1) % u64_mod) ∷ rest else (key, count) ∷ later

-- The count goes down where there is one, and the entry goes with the last.
unfoldable pub count_down : Text → Counts → Counts
count_down path [] = []
count_down path ((key, count) ∷ rest) =
    let later = count_down path rest in
    if list_eq path key
    then if (count - 1) == 0 then rest else (key, count - 1) ∷ rest
    else (key, count) ∷ later

unfoldable pub count_up_all : List Text → Counts → Counts
unfolding count_up
count_up_all [] counts = counts
count_up_all (path ∷ paths) counts = count_up_all paths (count_up path counts)

unfoldable pub count_down_all : List Text → Counts → Counts
unfolding count_down
count_down_all [] counts = counts
count_down_all (path ∷ paths) counts = count_down_all paths (count_down path counts)

unfoldable pub contains_key : Text → Counts → Bool
contains_key path [] = false
contains_key path ((key, count) ∷ rest) = list_eq path key || contains_key path rest

abbrev saturating_inc : ℕ → ℕ
saturating_inc n = if leb (u64_mod - 1) n then u64_mod - 1 else n + 1

unfoldable pub register : PendingHazard → PendingRemote → PendingRemote
unfolding count_up_all
register hazard pending = record {
  exact_paths = count_up_all hazard.exact_paths pending.exact_paths;
  unknown_content_mutations =
      if hazard.unknown_content_mutation
      then saturating_inc pending.unknown_content_mutations
      else pending.unknown_content_mutations;
}

unfoldable pub clear : PendingHazard → PendingRemote → PendingRemote
unfolding count_down_all
clear hazard pending = record {
  exact_paths = count_down_all hazard.exact_paths pending.exact_paths;
  unknown_content_mutations =
      if hazard.unknown_content_mutation
      then pending.unknown_content_mutations - 1
      else pending.unknown_content_mutations;
}

unfoldable pub blocks_path : PendingRemote → Text → Bool
unfolding contains_key
blocks_path pending path =
    ltb 0 pending.unknown_content_mutations || contains_key path pending.exact_paths

unfoldable pub pending_conflicts : PendingRemote → RequestInterest → Bool
unfolding has_content_interest contains_key
pending_conflicts pending interest =
    if not (has_content_interest interest)
    then false
    else if interest.unknown_content
    then ltb 0 pending.unknown_content_mutations || not (is_empty pending.exact_paths)
    else ltb 0 pending.unknown_content_mutations
      || any (λ path. contains_key path pending.exact_paths) interest.exact_paths

-- A `grep` that goes on with a session
unfoldable pub resumes_grep : {j : Json} → ClientRequest j → Bool
resumes_grep {j} request =
    list_eq request.method (codes "grep")
    && is_some (elim (j.get (codes "session_id") request.params) [
      | none ↦ none
      | some value ↦ j.as_str value
    ])

-- `RemoteLane::for_request`
unfoldable pub lane_for_request : {j : Json} → ClientRequest j → PendingRemote → RemoteLane
unfolding resumes_grep pending_conflicts
lane_for_request {j} request pending_writes =
    if request_is_write_lane j request
    then write
    else if resumes_grep request
    then read
    else if pending_conflicts pending_writes (interest_for_request j request)
    then write
    else read
