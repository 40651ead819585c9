-- ===== src/Agent/Uploads/Begin.antt =====
-- `begin_write_file_cas` of crates/nrm-agent/src/main.rs.
use nvim_remote_mirror.Prelude.{ℕ, not, Option, none, some, List, Text, if◌then◌else◌}
use nvim_remote_mirror.Agent.Host.{Host, ◌>>=◌, ◌>>◌, return, bail_if}
use nvim_remote_mirror.Agent.Uploads.{
  extend, hash_eq, AgentState, Started, started, start_conflict, write_started, begin_conflict,
  request_failed, Handled, insert_upload, cleanup_expired_uploads, enforce_upload_limits,
  ensure_no_active_write,
}

module _ (h : Host) where
  abbrev Reply : Type 0 → Type 0
  Reply A = Option A × h.World

  -- The end of `begin_write_file_cas`, where the target is the expected one.
  unfoldable pub start_upload :
      ℕ
      → Text
      → Option Text
      → Text
      → ℕ
      → h.Target
      → List Text
      → h.Parent
      → h.World
      → Reply (Started h)
  unfolding ◌>>=◌ ◌>>◌ return
  start_upload now path expected_hash content_hash size target target_keys parent = do
    id ← λ w. (some (h.new_upload_id path w), w)
    tmp_name ← h.temp_file_name target id
    h.verify_write_parent_current parent target
    tmp_file ← h.create_temp_file parent tmp_name
    return (
        started id (record {
          path = path;
          target_abs = target;
          target_keys = target_keys;
          expected_hash = expected_hash;
          content_hash = content_hash;
          size = size;
          tmp_name = tmp_name;
          tmp_file = tmp_file;
          parent = parent;
          written = 0;
          created_at = now;
        }))

  -- `begin_write_file_cas` behind `enforce_upload_limits`, up to the new upload.
  unfoldable pub prepare_upload :
      ℕ → List Text → Text → Option Text → Text → ℕ → h.World → Reply (Started h)
  unfolding ensure_no_active_write start_upload ◌>>=◌ ◌>>◌ bail_if return
  prepare_upload now active path expected_hash content_hash size = do
    target ← h.prepare_write_target path
    target_keys ← h.write_target_keys target
    bail_if (not (ensure_no_active_write active target_keys))
    h.acquire_write_locks target_keys
    parent ← h.open_write_parent target
    actual_hash ← h.current_regular_file_hash path target
    if not (hash_eq actual_hash expected_hash)
        then return (start_conflict expected_hash actual_hash)
        else start_upload now path expected_hash content_hash size target target_keys parent

  unfoldable pub begin_with : AgentState h → Reply (Started h) → Handled h
  unfolding extend insert_upload
  begin_with state (none, w) = record { response = request_failed; state = state; world = w }
  begin_with state (some (start_conflict expected_hash actual_hash), w) = record {
    response = begin_conflict expected_hash actual_hash;
    state = state;
    world = w;
  }
  begin_with state (some (started id upload), w) = record {
    response = write_started id;
    state = record {
      uploads = insert_upload id upload state.uploads;
      active_write_targets = extend upload.target_keys state.active_write_targets;
    };
    world = w;
  }

  unfoldable pub begin_write_file_cas :
      ℕ → Text → Option Text → Text → ℕ → AgentState h → h.World → Handled h
  unfolding cleanup_expired_uploads enforce_upload_limits prepare_upload begin_with
  begin_write_file_cas now path expected_hash content_hash size before world =
      let (state, w) = cleanup_expired_uploads now (before, world) in
      if not (enforce_upload_limits state size)
      then record { response = request_failed; state = state; world = w }
      else begin_with state
          (prepare_upload now state.active_write_targets path expected_hash content_hash size w)
