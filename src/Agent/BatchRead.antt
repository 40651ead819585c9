-- ===== src/Agent/BatchRead.antt =====
-- `read_files` of crates/nrm-agent/src/main.rs. What opens a file and what its content is at that time
-- is a parameter; hashes, metadata and the texts of errors are left out.
pub mod Capped
mod Tests
use nvim_remote_mirror.Prelude.{
  ℕ, zero, suc, ◌+◌, ◌-◌, ◌*◌, Bool, true, false, Option, none, some, List, [], ◌∷◌, Text, length,
  take, leb, ltb, if◌then◌else◌, u64_mod,
}
use nvim_remote_mirror.Protocol.Capability.{max_frame_len}

abbrev pub agent_read_response_max_bytes : ℕ
agent_read_response_max_bytes = max_frame_len - 1024 * 1024

abbrev pub agent_batch_total_max_bytes : ℕ
agent_batch_total_max_bytes = agent_read_response_max_bytes

abbrev pub min : ℕ → ℕ → ℕ
min m n = if leb m n then m else n

abbrev pub saturating_add : ℕ → ℕ → ℕ
saturating_add m n = if leb u64_mod (m + n) then u64_mod - 1 else m + n

-- The files under the root: `open_existing_content_file` with the length in the metadata, and what a
-- read to the end gives, which may be another length.
pub record Files : Type 1 where
  pub World : Type 0
  pub File : Type 0
  pub open_existing_content_file : Text → World → Option (File × ℕ) × World
  pub read_to_end : File → World → Option (List ℕ) × World

pub record BatchReadFile : Type 0 where
  pub path : Text
  pub content : List ℕ

-- What one file of a batch comes to
pub data Outcome : Type 0 where
  read : List ℕ → Outcome
  unreadable : Outcome
  total_cap_exceeded : Outcome

pub record ReadFiles : Type 0 where
  pub files : List BatchReadFile
  pub errors : List Text
  pub truncated : Bool

-- `read_reader_bytes_with_cap` on what there is to read
unfoldable pub read_reader_bytes_with_cap : List ℕ → ℕ → Outcome
read_reader_bytes_with_cap available max_bytes =
    let content = take (saturating_add max_bytes 1) available in
    if ltb max_bytes (length content) then unreadable else read content

module _ (f : Files) where
  unfoldable pub read_open_file_bytes_with_cap : ℕ → Option (List ℕ) × f.World → Outcome × f.World
  unfolding read_reader_bytes_with_cap
  read_open_file_bytes_with_cap max_bytes (none, w) = (unreadable, w)
  read_open_file_bytes_with_cap max_bytes (some available, w) =
      (read_reader_bytes_with_cap available (min max_bytes agent_read_response_max_bytes), w)

  unfoldable pub read_opened : ℕ → ℕ → Option (f.File × ℕ) × f.World → Outcome × f.World
  unfolding read_open_file_bytes_with_cap
  read_opened max_file_bytes remaining_total_bytes (none, w) = (unreadable, w)
  read_opened max_file_bytes remaining_total_bytes (some (file, len), w) =
      if ltb max_file_bytes len
      then (unreadable, w)
      else if ltb remaining_total_bytes len
      then (total_cap_exceeded, w)
      else read_open_file_bytes_with_cap (min max_file_bytes remaining_total_bytes)
          (f.read_to_end file w)

  unfoldable pub read_file_for_batch : Text → ℕ → ℕ → f.World → Outcome × f.World
  unfolding read_opened
  read_file_for_batch path max_file_bytes remaining_total_bytes w =
      read_opened max_file_bytes remaining_total_bytes (f.open_existing_content_file path w)

  abbrev answer : Text → Outcome → ReadFiles → ReadFiles
  answer path (read content) later = record later {
    files = record { path = path; content = content } ∷ later.files;
  }
  answer path unreadable later = record later { errors = path ∷ later.errors }
  answer path total_cap_exceeded later = record { files = []; errors = path ∷ []; truncated = true }

  abbrev pub next_total : ℕ → Outcome → ℕ
  next_total total_bytes (read content) = saturating_add total_bytes (length content)
  next_total total_bytes _ = total_bytes

  -- The loop of `read_files`
  unfoldable pub read_each : ℕ → ℕ → ℕ → List Text → f.World → ReadFiles
  unfolding read_file_for_batch
  read_each max_file_bytes max_total_bytes total_bytes [] w = record {
    files = [];
    errors = [];
    truncated = false;
  }
  read_each max_file_bytes max_total_bytes total_bytes (path ∷ paths) w =
      let (outcome, w') =
        read_file_for_batch path max_file_bytes (max_total_bytes - total_bytes) w in
      answer path outcome
        (read_each max_file_bytes max_total_bytes (next_total total_bytes outcome) paths w')

  unfoldable pub read_files : List Text → ℕ → ℕ → f.World → ReadFiles
  unfolding read_each
  read_files paths max_file_bytes max_total_bytes w =
      read_each (min max_file_bytes agent_read_response_max_bytes)
        (min max_total_bytes agent_batch_total_max_bytes) 0 paths w
