-- ===== src/Agent/Uploads/Chunk.antt =====
-- `write_file_chunk` of crates/nrm-agent/src/main.rs.
use nvim_remote_mirror.Prelude.{
  ℕ, not, ◌||◌, Option, none, some, List, Text, length, ltb, ◌==◌, if◌then◌else◌,
}
use nvim_remote_mirror.Agent.Host.{Host}
use nvim_remote_mirror.Agent.Uploads.{
  saturating_add, PendingUpload, AgentState, chunk_accepted, request_failed, Handled, get_upload,
  set_written, cleanup_expired_uploads,
}

module _ (h : Host) where
  abbrev Reply : Type 0 → Type 0
  Reply A = Option A × h.World

  -- The end of `write_file_chunk`: the chunk is written, or not.
  unfoldable pub chunk_written : Text → ℕ → AgentState h → Reply (Unit {0}) → Handled h
  unfolding set_written
  chunk_written id next state (none, w) = record {
    response = request_failed;
    state = state;
    world = w;
  }
  chunk_written id next state (some u, w) = record {
    response = chunk_accepted id next;
    state = record state { uploads = set_written id next state.uploads };
    world = w;
  }

  unfoldable pub chunk_found :
      Text → ℕ → List ℕ → Option (PendingUpload h) → AgentState h × h.World → Handled h
  unfolding chunk_written
  chunk_found id offset content none (state, w) = record {
    response = request_failed;
    state = state;
    world = w;
  }
  chunk_found id offset content (some upload) (state, w) =
      let next = saturating_add upload.written (length content) in
      if not (offset == upload.written) || ltb upload.size next
      then record { response = request_failed; state = state; world = w }
      else chunk_written id next state (h.write_at upload.tmp_file offset content w)

  unfoldable pub write_file_chunk : ℕ → Text → ℕ → List ℕ → AgentState h → h.World → Handled h
  unfolding cleanup_expired_uploads get_upload chunk_found
  write_file_chunk now id offset content before world =
      let (state, w) = cleanup_expired_uploads now (before, world) in
      chunk_found id offset content (get_upload id state.uploads) (state, w)
