-- ===== src/Agent/Uploads/Sound.antt =====
-- The invariant of the uploads of an agent.
use nvim_remote_mirror.Prelude.{
  ℕ, ◌≤◌, ◌≡◌, refl, Option, none, some, List, [], ◌∷◌, Text, length, if◌then◌else◌, arith,
}
use nvim_remote_mirror.Agent.Host.{Host}
use nvim_remote_mirror.Agent.Uploads.{
  max_active_uploads, max_active_upload_bytes, is_member, PendingUpload, AgentState, get_upload,
  drop_found, drop_all, expired_ids, cleanup_expired_uploads,
}
use nvim_remote_mirror.Agent.Uploads.Sets.{
  is_member-release, holders, total_size, Within, remove_upload-Fewer, holders-remove_upload,
}

module _ {h : Host} where
  pub record IsSound (state : AgentState h) : Type 0 where
    pub few : length state.uploads ≤ max_active_uploads
    pub small : total_size state.uploads ≤ max_active_upload_bytes
    pub within : Within state.uploads
    pub held :
        (key : Text)
        → holders key state.uploads ≤ (if is_member key state.active_write_targets then 1 else 0)

  pub drop_found-IsSound :
      (id : Text) (found : Option (PendingUpload h)) (s : AgentState h × h.World)
      → get_upload id s.0.uploads ≡ found
      → IsSound s.0
      → IsSound (drop_found id found s).0
  unfolding drop_found
  drop_found-IsSound id none s e v = v
  drop_found-IsSound id (some upload) s e v =
      let f = remove_upload-Fewer id s.0.uploads v.within in
      record {
        few = omega (arith, f.0, v.few);
        small = omega (arith, f.1, v.small);
        within = f.2;
        held = λ key. ground (
          arith,
          holders-remove_upload key id s.0.uploads upload e,
          v.held key,
          is_member-release key upload.target_keys s.0.active_write_targets,
        );
      }

  drop_all-IsSound :
      (ids : List Text) (s : AgentState h × h.World) → IsSound s.0 → IsSound (drop_all ids s).0
  unfolding drop_all
  drop_all-IsSound [] s v = v
  drop_all-IsSound (id ∷ ids) s v =
      drop_all-IsSound ids (drop_found id (get_upload id s.0.uploads) s)
        (drop_found-IsSound id (get_upload id s.0.uploads) s refl v)

  pub cleanup_expired_uploads-IsSound :
      (now : ℕ) (s : AgentState h × h.World)
      → IsSound s.0
      → IsSound (cleanup_expired_uploads now s).0
  unfolding cleanup_expired_uploads
  cleanup_expired_uploads-IsSound now s v = drop_all-IsSound (expired_ids now s.0.uploads) s v
