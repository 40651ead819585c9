-- ===== src/Agent/Uploads.antt =====
-- The uploads of crates/nrm-agent/src/main.rs, by which a file is replaced in chunks if it is still the
-- one expected, and `write_file_cas_state`, which does it at once. The time is an argument. The locks
-- that an upload holds and the remote content that a conflict carries are left out.
pub mod Publish
pub mod Begin
pub mod Chunk
pub mod Finish
pub mod Write
pub mod Sets
pub mod Sound
pub mod Prepared
pub mod Served
pub mod Renamed
pub mod Published
use nvim_remote_mirror.Prelude.{
  ℕ, zero, suc, ◌+◌, ◌-◌, ◌*◌, Bool, true, false, not, ◌&&◌, ◌||◌, Option, none, some, List, [],
  ◌∷◌, Text, any, length, list_eq, leb, ltb, ◌==◌, if◌then◌else◌, u64_mod,
}
use nvim_remote_mirror.Agent.Host.{Host, ◌>>=◌, ◌>>◌, return, bail_if, or_remove, remove_temp}

abbrev pub max_active_uploads : ℕ
max_active_uploads = 8

abbrev pub max_active_upload_bytes : ℕ
max_active_upload_bytes = 512 * 1024 * 1024

-- ten minutes in nanoseconds
abbrev pub upload_ttl : ℕ
upload_ttl = 10 * 60 * 1000000000

abbrev pub is_member : Text → List Text → Bool
is_member key keys = any (list_eq key) keys

-- `extend` and `remove` of a hash set
unfoldable pub extend : List Text → List Text → List Text
extend [] active = active
extend (key ∷ keys) active =
    let later = extend keys active in if is_member key later then later else key ∷ later

unfoldable pub remove_key : Text → List Text → List Text
remove_key key [] = []
remove_key key (other ∷ rest) =
    let later = remove_key key rest in if list_eq key other then later else other ∷ later

unfoldable pub release : List Text → List Text → List Text
unfolding remove_key
release [] active = active
release (key ∷ keys) active = release keys (remove_key key active)

unfoldable pub ensure_no_active_write : List Text → List Text → Bool
ensure_no_active_write active target_keys = not (any (λ key. is_member key active) target_keys)

abbrev pub saturating_add : ℕ → ℕ → ℕ
saturating_add m n = if leb u64_mod (m + n) then u64_mod - 1 else m + n

-- `==` on `Option<String>`
abbrev pub hash_eq : Option Text → Option Text → Bool
hash_eq none none = true
hash_eq (some hash) (some other) = list_eq hash other
hash_eq _ _ = false

pub data SaveOutcome (Meta : Type 0) : Type 0 where
  applied : Text → Meta → SaveOutcome Meta
  -- the expected and the actual hash
  conflict : Option Text → Option Text → SaveOutcome Meta

module _ (h : Host) where
  pub record PendingUpload : Type 0 where
    pub path : Text
    pub target_abs : h.Target
    pub target_keys : List Text
    pub expected_hash : Option Text
    pub content_hash : Text
    pub size : ℕ
    pub tmp_name : h.TempName
    pub tmp_file : h.TempFile
    pub parent : h.Parent
    pub written : ℕ
    pub created_at : ℕ

  pub record AgentState : Type 0 where
    pub uploads : List (Text × PendingUpload)
    pub active_write_targets : List Text

  pub data Started : Type 0 where
    started : Text → PendingUpload → Started
    start_conflict : Option Text → Option Text → Started

  pub data Response : Type 0 where
    write_started : Text → Response
    begin_conflict : Option Text → Option Text → Response
    chunk_accepted : Text → ℕ → Response
    finished : SaveOutcome h.Meta → Response
    write_aborted : Text → Response
    request_failed : Response

  -- A response, the state and the world behind it.
  pub record Handled : Type 0 where
    pub response : Response
    pub state : AgentState
    pub world : h.World

module _ {h : Host} where
  -- `HashMap::get`, `remove`, `get_mut` and `insert`
  unfoldable pub get_upload : Text → List (Text × PendingUpload h) → Option (PendingUpload h)
  get_upload id [] = none
  get_upload id ((other, upload) ∷ rest) =
      let later = get_upload id rest in if list_eq id other then some upload else later

  unfoldable pub remove_upload :
      Text → List (Text × PendingUpload h) → List (Text × PendingUpload h)
  remove_upload id [] = []
  remove_upload id ((other, upload) ∷ rest) =
      let later = remove_upload id rest in
      if list_eq id other then rest else (other, upload) ∷ later

  unfoldable pub set_written :
      Text → ℕ → List (Text × PendingUpload h) → List (Text × PendingUpload h)
  set_written id n [] = []
  set_written id n ((other, upload) ∷ rest) =
      let later = set_written id n rest in
      if list_eq id other
      then (other, record upload { written = n }) ∷ rest
      else (other, upload) ∷ later

  unfoldable pub insert_upload :
      Text → PendingUpload h → List (Text × PendingUpload h) → List (Text × PendingUpload h)
  unfolding remove_upload
  insert_upload id upload uploads = (id, upload) ∷ remove_upload id uploads

  -- `if let Some(upload) = state.uploads.remove(..)` with its body
  unfoldable pub drop_found :
      Text → Option (PendingUpload h) → AgentState h × h.World → AgentState h × h.World
  unfolding remove_upload release
  drop_found id none (state, w) = (state, w)
  drop_found id (some upload) (state, w) = (
    record {
      uploads = remove_upload id state.uploads;
      active_write_targets = release upload.target_keys state.active_write_targets;
    },
    h.remove_temp_file upload.parent upload.tmp_name w,
  )

  unfoldable pub expired_ids : ℕ → List (Text × PendingUpload h) → List Text
  expired_ids now [] = []
  expired_ids now ((id, upload) ∷ rest) =
      let later = expired_ids now rest in
      if ltb upload_ttl (now - upload.created_at) then id ∷ later else later

  unfoldable pub drop_all : List Text → AgentState h × h.World → AgentState h × h.World
  unfolding drop_found get_upload
  drop_all [] s = s
  drop_all (id ∷ ids) s = drop_all ids (drop_found id (get_upload id s.0.uploads) s)

  -- `cleanup_expired_uploads_at`
  unfoldable pub cleanup_expired_uploads : ℕ → AgentState h × h.World → AgentState h × h.World
  unfolding expired_ids drop_all
  cleanup_expired_uploads now s = drop_all (expired_ids now s.0.uploads) s

  unfoldable pub sum_sizes : ℕ → List (Text × PendingUpload h) → ℕ
  sum_sizes sum [] = sum
  sum_sizes sum ((id, upload) ∷ rest) = sum_sizes (saturating_add sum upload.size) rest

  -- Whether `enforce_upload_limits` lets the upload pass.
  unfoldable pub enforce_upload_limits : AgentState h → ℕ → Bool
  unfolding sum_sizes
  enforce_upload_limits state new_size =
      not (leb max_active_uploads (length state.uploads))
      && leb (saturating_add (sum_sizes 0 state.uploads) new_size) max_active_upload_bytes
