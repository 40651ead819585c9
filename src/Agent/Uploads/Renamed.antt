-- ===== src/Agent/Uploads/Renamed.antt =====
-- What `publish` has done where it ends well, in this order.
use nvim_remote_mirror.Prelude.{◌≡◌, some}
use nvim_remote_mirror.Agent.Host.{Host, >>=-some, >>-some, or_remove-some, or_remove}
use nvim_remote_mirror.Agent.Uploads.{PendingUpload}
use nvim_remote_mirror.Agent.Uploads.Publish.{publish}

module _ (h : Host) where
  -- The end of a write ran from `before` to `after`, each step in the world that the one before left.
  pub record IsRenamed (upload : PendingUpload h) (before after : h.World) : Type 0 where
    pub at_parent : h.World
    pub captured : h.World
    pub renamed : h.World
    pub identity : h.Identity
    pub parent_verified :
        h.verify_write_parent_current upload.parent upload.target_abs before ≡ (some tt, at_parent)
    pub identity_captured :
        h.capture_temp_file_identity upload.tmp_file upload.tmp_name at_parent
        ≡ (some identity, captured)
    pub target_replaced :
        h.rename_temp_into_path upload.parent upload.tmp_name upload.target_abs identity captured
        ≡ (some tt, renamed)
    pub parent_synced :
        h.sync_write_parent upload.parent upload.target_abs renamed ≡ (some tt, after)

  pub publish-IsRenamed :
      (upload : PendingUpload h) (before after : h.World)
      → publish h upload.parent upload.tmp_name upload.tmp_file upload.target_abs before
        ≡ (some tt, after)
      → IsRenamed upload before after
  unfolding publish
  publish-IsRenamed upload before after e =
      let parent = upload.parent in
      let name = upload.tmp_name in
      let target = upload.target_abs in
      let verify = h.verify_write_parent_current parent target in
      let capture = h.capture_temp_file_identity upload.tmp_file name in
      let (w1, e1, r1) = >>-some (or_remove h parent name verify) _ tt before after e in
      let (identity, w2, e2, r2) = >>=-some (or_remove h parent name capture) _ tt w1 after r1 in
      let (w3, e3, r3) =
        >>-some (h.rename_temp_into_path parent name target identity) _ tt w2 after r2 in
      record {
        at_parent = w1;
        captured = w2;
        renamed = w3;
        identity = identity;
        parent_verified = or_remove-some h parent name verify before w1 tt e1;
        identity_captured = or_remove-some h parent name capture w1 w2 identity e2;
        target_replaced = e3;
        parent_synced = r3;
      }
