-- ===== src/Agent/Uploads/Write.antt =====
-- `write_file_cas_state` of crates/nrm-agent/src/main.rs.
use nvim_remote_mirror.Prelude.{ℕ, not, Option, some, List, Text, if◌then◌else◌}
use nvim_remote_mirror.Agent.Host.{Host, ◌>>=◌, ◌>>◌, return, bail_if, or_remove}
use nvim_remote_mirror.Agent.Uploads.{
  hash_eq, SaveOutcome, applied, conflict, AgentState, ensure_no_active_write,
}
use nvim_remote_mirror.Agent.Uploads.Publish.{publish, discard}

module _ (h : Host) where
  abbrev Reply : Type 0 → Type 0
  Reply A = Option A × h.World

  unfoldable pub apply_content :
      h.Parent → h.TempName → h.TempFile → h.Target → h.World → Reply (SaveOutcome h.Meta)
  unfolding publish ◌>>=◌ ◌>>◌ return
  apply_content parent name file target = do
    publish h parent name file target
    new_hash ← h.hash_file target
    meta ← h.file_meta target
    return (applied new_hash meta)

  -- `write_file_cas_prepared` behind the first look at the target.
  unfoldable pub write_content :
      Text → Option Text → List ℕ → h.Target → h.Parent → h.World → Reply (SaveOutcome h.Meta)
  unfolding discard apply_content ◌>>=◌ ◌>>◌ or_remove
  write_content path expected_hash content target parent = do
    time ← λ w. (some (h.new_upload_id path w), w)
    name ← h.temp_file_name target time
    h.verify_write_parent_current parent target
    file ← h.create_temp_file parent name
    or_remove h parent name (h.write_at file 0 content)
    or_remove h parent name (h.sync_all file)
    or_remove h parent name (h.verify_temp_file_identity file name)
    or_remove h parent name (h.verify_write_parent_current parent target)
    actual_hash ← h.current_regular_file_hash path target
    if not (hash_eq actual_hash expected_hash)
        then discard h parent name expected_hash actual_hash
        else apply_content parent name file target

  -- `write_file_cas_prepared`, where nothing is done before the rename.
  unfoldable pub write_file_cas_prepared :
      Text → Option Text → List ℕ → h.Target → h.World → Reply (SaveOutcome h.Meta)
  unfolding write_content ◌>>=◌ return
  write_file_cas_prepared path expected_hash content target = do
    parent ← h.open_write_parent target
    actual_hash ← h.current_regular_file_hash path target
    if not (hash_eq actual_hash expected_hash)
        then return (conflict expected_hash actual_hash)
        else write_content path expected_hash content target parent

  unfoldable pub write_file_cas_state :
      Text → Option Text → List ℕ → AgentState h → h.World → Option (SaveOutcome h.Meta) × h.World
  unfolding ensure_no_active_write write_file_cas_prepared ◌>>=◌ ◌>>◌ bail_if
  write_file_cas_state path expected_hash content state = do
    target ← h.prepare_write_target path
    target_keys ← h.write_target_keys target
    bail_if (not (ensure_no_active_write state.active_write_targets target_keys))
    h.acquire_write_locks target_keys
    write_file_cas_prepared path expected_hash content target
