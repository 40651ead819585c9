-- ===== src/Sidecar/Remote/Request.antt =====
-- `ClientRequest`, `RemotePriority`, `RemoteLane`, `PendingHazard`, `RequestInterest` and
-- `RemoteWork` of crates/nrm-sidecar/src/main.rs, on a Unix host. `serde_json::Value` is a parameter.
use nvim_remote_mirror.Prelude.{
  ℕ, String, Bool, true, false, not, ◌&&◌, ◌||◌, Option, none, some, List, [], ◌∷◌, ◌++◌, Text,
  codes, starts_with, any, split, list_eq, is_empty, ◌==◌, if◌then◌else◌,
}

-- `serde_json::Value` by its accessors: `get` on an object, `as_str`, `as_bool` and `as_array`.
pub record Json : Type 1 where
  pub Value : Type 0
  pub get : Text → Value → Option Value
  pub as_str : Value → Option Text
  pub as_bool : Value → Option Bool
  pub as_array : Value → Option (List Value)

pub data RemotePriority : Type 0 where
  interactive : RemotePriority
  background : RemotePriority

pub data RemoteLane : Type 0 where
  read : RemoteLane
  write : RemoteLane

pub record PendingHazard : Type 0 where
  pub exact_paths : List Text
  pub unknown_content_mutation : Bool

pub record RequestInterest : Type 0 where
  pub exact_paths : List Text
  pub unknown_content : Bool

abbrev pub no_hazard : PendingHazard
no_hazard = record { exact_paths = []; unknown_content_mutation = false }

abbrev pub no_interest : RequestInterest
no_interest = record { exact_paths = []; unknown_content = false }

unfoldable pub has_content_interest : RequestInterest → Bool
has_content_interest interest = interest.unknown_content || not (is_empty interest.exact_paths)

-- `iter().any(|other| other == path)`
abbrev pub member : Text → List Text → Bool
member path paths = any (list_eq path) paths

unfoldable pub conflicts_with_interest : PendingHazard → RequestInterest → Bool
unfolding has_content_interest
conflicts_with_interest hazard interest =
    if hazard.unknown_content_mutation && has_content_interest interest
    then true
    else if interest.unknown_content
    then hazard.unknown_content_mutation || not (is_empty hazard.exact_paths)
    else any (λ path. member path interest.exact_paths) hazard.exact_paths

-- The components of a path on Unix, of which the empty ones and `.` are passed over.
abbrev clean_components : List Text → Option (List Text)
clean_components [] = some []
clean_components (part ∷ rest) =
    let later = clean_components rest in
    if is_empty part || list_eq part (codes ".")
    then later
    else if list_eq part (codes "..")
    then none
    else elim later [ none ↦ none | some parts ↦ some (part ∷ parts) ]

abbrev join_components : List Text → Text
join_components [] = []
join_components (part ∷ []) = part
join_components (part ∷ next ∷ rest) = part ++ (b'/' ∷ join_components (next ∷ rest))

abbrev slashes : Text → Text
slashes [] = []
slashes (c ∷ rest) = (if c == 0x5c then b'/' else c) ∷ slashes rest

-- `normalize_relative_path`: the text of the clean path.
unfoldable pub normalize_relative_path : Text → Option Text
unfolding split
normalize_relative_path path =
    if starts_with b'/' path then none else elim (clean_components (split b'/' path)) [
      | none ↦ none
      | some [] ↦ none
      | some (part ∷ rest) ↦ some (join_components (part ∷ rest))
    ]

unfoldable pub normalized_path_string : Text → Option Text
unfolding normalize_relative_path
normalized_path_string path = elim (normalize_relative_path path) [
  | none ↦ none
  | some clean ↦ some (slashes clean)
]

-- `path.and_then(normalized_path_string).into_iter().collect()`
abbrev path_list : Option Text → List Text
unfolding normalized_path_string
path_list none = []
path_list (some path) = elim (normalized_path_string path) [ none ↦ [] | some clean ↦ clean ∷ [] ]

unfoldable pub path_hazard : Option Text → PendingHazard
unfolding path_list
path_hazard path = record { exact_paths = path_list path; unknown_content_mutation = false }

unfoldable pub request_path_interest : Option Text → RequestInterest
unfolding path_list
request_path_interest path = record { exact_paths = path_list path; unknown_content = false }

module _ (j : Json) where
  pub record ClientRequest : Type 0 where
    pub id : ℕ
    pub method : Text
    pub params : j.Value

  pub record RemoteWork : Type 0 where
    pub request : ClientRequest
    pub hazard : PendingHazard
    pub priority : RemotePriority
    pub lane : RemoteLane
    pub write_hazard_registered : Bool
    pub enqueued_at : ℕ

  -- `method.as_str()` against a literal, and `matches!` against several
  abbrev is : ClientRequest → String → Bool
  is request method = list_eq request.method (codes method)

  abbrev is_any : ClientRequest → List String → Bool
  is_any request methods = any (is request) methods

  abbrev param_str : ClientRequest → String → Option Text
  param_str request key = elim (j.get (codes key) request.params) [
    | none ↦ none
    | some value ↦ j.as_str value
  ]

  -- `.and_then(Value::as_bool).unwrap_or(default)`
  abbrev param_bool : ClientRequest → String → Bool → Bool
  param_bool request key default = elim (j.get (codes key) request.params) [
    | none ↦ default
    | some value ↦ elim (j.as_bool value) [ none ↦ default | some b ↦ b ]
  ]

  abbrev path_values : List j.Value → List Text
  path_values [] = []
  path_values (value ∷ rest) = path_list (j.as_str value) ++ path_values rest

  -- The loop over `params.paths` of a prefetch.
  unfoldable pub prefetch_paths : ClientRequest → List Text
  unfolding path_list
  prefetch_paths request = elim (j.get (codes "paths") request.params) [
    | none ↦ []
    | some value ↦ elim (j.as_array value) [ none ↦ [] | some values ↦ path_values values ]
  ]

  unfoldable pub request_background_flag : ClientRequest → Bool
  request_background_flag request = param_bool request "background" false

  unfoldable pub request_is_write_lane : ClientRequest → Bool
  request_is_write_lane request = is_any request (
      "recover_local_edits" ∷ "adopt" ∷ "flush" ∷ "flush_queued" ∷ "flush_queue"
      ∷ "accept_local_conflict" ∷ "accept_remote_conflict" ∷ "remote_agent_install"
      ∷ "remote_agent_update" ∷ [])

  unfoldable pub priority_for_request : ClientRequest → RemotePriority
  unfolding request_background_flag
  priority_for_request request =
      if is_any request (
        "prefetch" ∷ "prefetch_known" ∷ "prefetch_related" ∷ "refresh" ∷ "scan" ∷ "remote_probe"
        ∷ [])
      then background
      else if is_any request ("recover_local_edits" ∷ "flush_queue" ∷ [])
          && request_background_flag request
      then background
      else interactive

  abbrev mutation : Bool → PendingHazard
  mutation unknown = record { exact_paths = []; unknown_content_mutation = unknown }

  unfoldable pub hazard_for_request : ClientRequest → PendingHazard
  unfolding path_hazard prefetch_paths request_background_flag
  hazard_for_request request =
      if is request "open"
      then if param_bool request "force" false
        then path_hazard (param_str request "path")
        else no_hazard
      else if is request "prefetch"
      then record { exact_paths = prefetch_paths request; unknown_content_mutation = false }
      else if is request "grep"
      then mutation (param_bool request "hydrate" true)
      else if is_any request ("adopt" ∷ "flush" ∷ "flush_queued" ∷ [])
      then path_hazard (param_str request "path")
      else if is_any request ("accept_local_conflict" ∷ "accept_remote_conflict" ∷ [])
      then mutation true
      else if is_any request ("recover_local_edits" ∷ "flush_queue" ∷ [])
      then if request_background_flag request then no_hazard else mutation true
      else no_hazard

  unfoldable pub interest_for_request : ClientRequest → RequestInterest
  unfolding request_path_interest prefetch_paths
  interest_for_request request =
      if is_any request ("open" ∷ "validate" ∷ [])
      then request_path_interest (param_str request "path")
      else if is request "prefetch"
      then record { exact_paths = prefetch_paths request; unknown_content = false }
      else if is request "grep"
      then record { exact_paths = []; unknown_content = param_bool request "hydrate" true }
      else if is_any request ("git_status" ∷ "git_diff" ∷ [])
      then record { exact_paths = []; unknown_content = true }
      else if is request "git_blame"
      then request_path_interest (param_str request "path")
      else no_interest

  unfoldable pub blocks_later : RemoteWork → RemoteWork → Bool
  blocks_later earlier later =
      conflicts_with_interest earlier.hazard (interest_for_request later.request)
