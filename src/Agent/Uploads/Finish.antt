-- ===== src/Agent/Uploads/Finish.antt =====
-- `finish_write_file_cas` and `abort_write_file_cas` of crates/nrm-agent/src/main.rs.
use nvim_remote_mirror.Prelude.{ℕ, not, Option, none, some, Text, list_eq, ◌==◌, if◌then◌else◌}
use nvim_remote_mirror.Agent.Host.{Host, ◌>>=◌, ◌>>◌, return, bail_if, or_remove}
use nvim_remote_mirror.Agent.Uploads.{
  release, hash_eq, SaveOutcome, applied, PendingUpload, AgentState, Response, finished,
  write_aborted, request_failed, Handled, get_upload, remove_upload, drop_found,
  cleanup_expired_uploads,
}
use nvim_remote_mirror.Agent.Uploads.Publish.{publish, discard}

module _ (h : Host) where
  abbrev Reply : Type 0 → Type 0
  Reply A = Option A × h.World

  unfoldable pub apply_upload : PendingUpload h → Text → h.World → Reply (SaveOutcome h.Meta)
  unfolding publish ◌>>=◌ ◌>>◌ return
  apply_upload upload tmp_hash = do
    publish h upload.parent upload.tmp_name upload.tmp_file upload.target_abs
    meta ← h.file_meta upload.target_abs
    return (applied tmp_hash meta)

  -- `finish_write_file_cas` behind the removal of the upload.
  unfoldable pub finish_upload : PendingUpload h → h.World → Reply (SaveOutcome h.Meta)
  unfolding discard apply_upload ◌>>=◌ ◌>>◌ bail_if or_remove
  finish_upload upload =
      let parent = upload.parent in
      let name = upload.tmp_name in
      let target = upload.target_abs in
      do
        or_remove h parent name (bail_if (not (upload.written == upload.size)))
        or_remove h parent name (h.sync_all upload.tmp_file)
        tmp_hash ← or_remove h parent name (h.hash_open_file upload.tmp_file)
        or_remove h parent name (bail_if (not (list_eq tmp_hash upload.content_hash)))
        or_remove h parent name (h.verify_temp_file_identity upload.tmp_file name)
        or_remove h parent name (h.verify_write_parent_current parent target)
        actual_hash ← h.current_regular_file_hash upload.path target
        if not (hash_eq actual_hash upload.expected_hash)
            then discard h parent name upload.expected_hash actual_hash
            else apply_upload upload tmp_hash

  abbrev pub finish_response : Option (SaveOutcome h.Meta) → Response h
  finish_response none = request_failed
  finish_response (some outcome) = finished outcome

  unfoldable pub finish_found : Text → Option (PendingUpload h) → AgentState h × h.World → Handled h
  unfolding remove_upload release finish_upload
  finish_found id none (state, w) = record { response = request_failed; state = state; world = w }
  finish_found id (some upload) (state, w) =
      let (outcome, w') = finish_upload upload w in
      record {
        response = finish_response outcome;
        state = record {
          uploads = remove_upload id state.uploads;
          active_write_targets = release upload.target_keys state.active_write_targets;
        };
        world = w';
      }

  unfoldable pub finish_write_file_cas : ℕ → Text → AgentState h → h.World → Handled h
  unfolding cleanup_expired_uploads get_upload finish_found
  finish_write_file_cas now id before world =
      let (state, w) = cleanup_expired_uploads now (before, world) in
      finish_found id (get_upload id state.uploads) (state, w)

  unfoldable pub abort_write_file_cas : ℕ → Text → AgentState h → h.World → Handled h
  unfolding cleanup_expired_uploads get_upload drop_found
  abort_write_file_cas now id before world =
      let (found, w) = cleanup_expired_uploads now (before, world) in
      let (state, w') = drop_found id (get_upload id found.uploads) (found, w) in
      record { response = write_aborted id; state = state; world = w' }
