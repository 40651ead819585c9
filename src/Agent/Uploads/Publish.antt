-- ===== src/Agent/Uploads/Publish.antt =====
-- The two ends of a write in crates/nrm-agent/src/main.rs: the temporary file becomes the target, or it
-- goes.
use nvim_remote_mirror.Prelude.{Option, Text}
use nvim_remote_mirror.Agent.Host.{Host, ◌>>=◌, ◌>>◌, return, or_remove, remove_temp}
use nvim_remote_mirror.Agent.Uploads.{SaveOutcome, conflict}

module _ (h : Host) where
  abbrev Reply : Type 0 → Type 0
  Reply A = Option A × h.World

  -- The end of a write, where the target still is the expected one: the temporary file becomes it.
  unfoldable pub publish :
      h.Parent → h.TempName → h.TempFile → h.Target → h.World → Option (Unit {0}) × h.World
  unfolding ◌>>=◌ ◌>>◌ or_remove
  publish parent tmp_name tmp_file target = do
    or_remove h parent tmp_name (h.verify_write_parent_current parent target)
    identity ← or_remove h parent tmp_name (h.capture_temp_file_identity tmp_file tmp_name)
    h.rename_temp_into_path parent tmp_name target identity
    h.sync_write_parent parent target

  -- The target is not the expected one: the temporary file goes.
  unfoldable pub discard :
      h.Parent → h.TempName → Option Text → Option Text → h.World → Reply (SaveOutcome h.Meta)
  unfolding ◌>>◌ return remove_temp
  discard parent tmp_name expected_hash actual_hash = do
    remove_temp h parent tmp_name
    return (conflict expected_hash actual_hash)
