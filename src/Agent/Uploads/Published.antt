-- ===== src/Agent/Uploads/Published.antt =====
-- What a finished upload has done before it is reported as applied, in this order.
use nvim_remote_mirror.Prelude.{
  ℕ, ◌≡◌, refl, sym, ap, ◌∙◌, Bool, true, false, not, Option, none, some, Text, list_eq→eq, ==_iff,
  if◌then◌else◌, subst, arith,
}
use nvim_remote_mirror.Agent.Host.{
  Host, ◌>>◌, >>=-some, >>-some, >>-bail_if-some, or_remove-some, return, or_remove, remove_temp,
}
use nvim_remote_mirror.Agent.Uploads.{
  is_member, AgentState, Handled, finished, get_upload, cleanup_expired_uploads, hash_eq,
  SaveOutcome, applied, PendingUpload,
}
use nvim_remote_mirror.Agent.Uploads.Finish.{
  finish_response, finish_found, finish_write_file_cas, apply_upload, finish_upload,
}
use nvim_remote_mirror.Agent.Uploads.Publish.{publish, discard}
use nvim_remote_mirror.Agent.Uploads.Renamed.{IsRenamed, publish-IsRenamed}
use nvim_remote_mirror.Agent.Uploads.Sets.{is_member-release}

hash_eq→eq : (a b : Option Text) → not (hash_eq a b) ≡ false → a ≡ b
hash_eq→eq none none e = refl
hash_eq→eq none (some b) e = absurd (cc)
hash_eq→eq (some a) none e = absurd (cc)
hash_eq→eq (some a) (some b) e = ap some (list_eq→eq a b (ground arith))

not-false : (b : Bool) → not b ≡ false → b ≡ true
not-false true e = refl
not-false false e = absurd (cc)

module _ (h : Host) where
  -- The whole of it, from the compare to the metadata that are reported.
  pub record IsPublished (upload : PendingUpload h) (new_hash : Text) (meta : h.Meta)
      (before after : h.World) : Type 0 where
    pub complete : upload.written ≡ upload.size
    pub new_hash_is : new_hash ≡ upload.content_hash
    pub synced : h.World
    pub hashed : h.World
    pub identified : h.World
    pub at_parent : h.World
    pub compared : h.World
    pub published : h.World
    pub temp_synced : h.sync_all upload.tmp_file before ≡ (some tt, synced)
    pub temp_hashed : h.hash_open_file upload.tmp_file synced ≡ (some upload.content_hash, hashed)
    pub temp_identified :
        h.verify_temp_file_identity upload.tmp_file upload.tmp_name hashed ≡ (some tt, identified)
    pub parent_verified :
        h.verify_write_parent_current upload.parent upload.target_abs identified
        ≡ (some tt, at_parent)
    pub was_expected :
        h.current_regular_file_hash upload.path upload.target_abs at_parent
        ≡ (some upload.expected_hash, compared)
    pub renamed : IsRenamed h upload compared published
    pub meta_read : h.file_meta upload.target_abs published ≡ (some meta, after)

  apply_upload-some :
      (upload : PendingUpload h) (tmp_hash new_hash : Text) (meta : h.Meta) (before after : h.World)
      → apply_upload h upload tmp_hash before ≡ (some (applied new_hash meta), after)
      → (tmp_hash ≡ new_hash)
        × (published : h.World) × IsRenamed h upload before published
        × (h.file_meta upload.target_abs published ≡ (some meta, after))
  unfolding apply_upload return
  apply_upload-some upload tmp_hash new_hash meta before after e =
      let (w1, e1, r1) =
        >>-some (publish h upload.parent upload.tmp_name upload.tmp_file upload.target_abs) _ _
          before after e in
      let (m, w2, e2, r2) = >>=-some (h.file_meta upload.target_abs) _ _ w1 after r1 in
      let same_meta : m ≡ meta = cc in
      let same_world : w2 ≡ after = cc in
      (cc, w1, publish-IsRenamed h upload before w1 e1, e2 ∙ pair_eq same_meta same_world)
    where
      pair_eq :
          {m : h.Meta} {w : h.World}
          → m ≡ meta
          → w ≡ after
          → ◌≡◌ {A = Option h.Meta × h.World} (some m, w) (some meta, after)
      pair_eq e f = cc

  -- A write is applied only where the target is the expected one.
  compared_some :
      (upload : PendingUpload h) (tmp_hash new_hash : Text) (meta : h.Meta) (changed : Bool)
      (actual : Option Text) (before after : h.World)
      → (if changed
            then discard h upload.parent upload.tmp_name upload.expected_hash actual
            else apply_upload h upload tmp_hash)
          before
        ≡ (some (applied new_hash meta), after)
      → (changed ≡ false)
        × (apply_upload h upload tmp_hash before ≡ (some (applied new_hash meta), after))
  unfolding discard ◌>>◌ return remove_temp
  compared_some upload tmp_hash new_hash meta true actual before after e = absurd (cc)
  compared_some upload tmp_hash new_hash meta false actual before after e = (refl, e)

  finish_upload-IsPublished :
      (upload : PendingUpload h) (new_hash : Text) (meta : h.Meta) (before after : h.World)
      → finish_upload h upload before ≡ (some (applied new_hash meta), after)
      → IsPublished upload new_hash meta before after
  unfolding finish_upload
  finish_upload-IsPublished upload new_hash meta before after e =
      let parent = upload.parent in
      let name = upload.tmp_name in
      let target = upload.target_abs in
      let file = upload.tmp_file in
      let verify = h.verify_write_parent_current parent target in
      let identify = h.verify_temp_file_identity file name in
      let (complete, r0) = >>-bail_if-some h parent name _ _ _ before after e in
      let (w1, e1, r1) = >>-some (or_remove h parent name (h.sync_all file)) _ _ before after r0 in
      let (tmp_hash, w2, e2, r2) =
        >>=-some (or_remove h parent name (h.hash_open_file file)) _ _ w1 after r1 in
      let (same, r3) = >>-bail_if-some h parent name _ _ _ w2 after r2 in
      let (w4, e4, r4) = >>-some (or_remove h parent name identify) _ _ w2 after r3 in
      let (w5, e5, r5) = >>-some (or_remove h parent name verify) _ _ w4 after r4 in
      let (actual, w6, e6, r6) =
        >>=-some (h.current_regular_file_hash upload.path target) _ _ w5 after r5 in
      let (kept, r7) = compared_some upload tmp_hash new_hash meta _ actual w6 after r6 in
      let (is_new, w7, renamed, meta_read) =
        apply_upload-some upload tmp_hash new_hash meta w6 after r7 in
      let announced : tmp_hash ≡ upload.content_hash =
        list_eq→eq tmp_hash upload.content_hash (not-false _ same) in
      let expected : actual ≡ upload.expected_hash = hash_eq→eq actual upload.expected_hash kept in
      let hashed = or_remove-some h parent name (h.hash_open_file file) w1 w2 tmp_hash e2 in
      record {
        complete = (==_iff upload.written upload.size).0 (not-false _ complete);
        new_hash_is = sym is_new ∙ announced;
        synced = w1;
        hashed = w2;
        identified = w4;
        at_parent = w5;
        compared = w6;
        published = w7;
        temp_synced = or_remove-some h parent name (h.sync_all file) before w1 tt e1;
        temp_hashed = subst (λ x. h.hash_open_file file w1 ≡ (some x, w2)) announced hashed;
        temp_identified = or_remove-some h parent name identify w2 w4 tt e4;
        parent_verified = or_remove-some h parent name verify w4 w5 tt e5;
        was_expected =
            subst (λ x. h.current_regular_file_hash upload.path target w5 ≡ (some x, w6)) expected
              e6;
        renamed = renamed;
        meta_read = meta_read;
      }

  response-applied :
      (outcome : Option (SaveOutcome h.Meta)) (new_hash : Text) (meta : h.Meta)
      → finish_response h outcome ≡ finished (applied new_hash meta)
      → outcome ≡ some (applied new_hash meta)
  response-applied none new_hash meta e = absurd (cc)
  response-applied (some outcome) new_hash meta e =
      let same : outcome ≡ applied new_hash meta = cc in ap some same

  -- The upload that is finished, what this call did with it, and what became of its keys.
  abbrev pub Finished : Text → AgentState h × h.World → Text → h.Meta → Handled h → Type 0
  Finished id (before, w) new_hash meta handled =
      (upload : PendingUpload h) × (get_upload id before.uploads ≡ some upload)
      × IsPublished upload new_hash meta w handled.world
      × ((key : Text)
          → is_member key upload.target_keys ≡ true
          → is_member key handled.state.active_write_targets ≡ false)

  finish_found-Finished :
      (id : Text) (found : Option (PendingUpload h)) (s : AgentState h × h.World) (new_hash : Text)
      (meta : h.Meta)
      → get_upload id s.0.uploads ≡ found
      → (finish_found h id found s).response ≡ finished (applied new_hash meta)
      → Finished id s new_hash meta (finish_found h id found s)
  unfolding finish_found
  finish_found-Finished id none s new_hash meta e r = absurd (cc)
  finish_found-Finished id (some upload) s new_hash meta e r = (
    upload,
    e,
    finish_upload-IsPublished upload new_hash meta s.1 (finish_upload h upload s.1).1 (
        ap (λ outcome. (outcome, (finish_upload h upload s.1).1))
          (response-applied (finish_upload h upload s.1).0 new_hash meta r)),
    λ key m. ground (arith, is_member-release key upload.target_keys s.0.active_write_targets, m),
  )

  -- An upload is reported as applied only if, once the expired uploads were dropped, there was one of
  -- this id to which as many bytes were written as it announced, and this call then did the following
  -- from the world behind the dropping to the world it ends in, each step in the world that the one
  -- before it left: the temporary file was synced; its hash was read and is the one the upload
  -- announced, which is the hash reported; its identity and the parent directory were verified; the
  -- target was read and had the hash that the upload expects; then the parent was verified again, the
  -- identity captured, the temporary file of that identity renamed to the target and the parent synced;
  -- and the metadata of the target were read, which are those reported. Behind the call none of the
  -- write targets of the upload is active.
  pub finish_write_file_cas-Finished :
      (now : ℕ) (id : Text) (state : AgentState h) (w : h.World) (new_hash : Text) (meta : h.Meta)
      → (finish_write_file_cas h now id state w).response ≡ finished (applied new_hash meta)
      → Finished id
          (cleanup_expired_uploads now (state, w))
          new_hash
          meta
          (finish_write_file_cas h now id state w)
  unfolding finish_write_file_cas
  finish_write_file_cas-Finished now id state w new_hash meta e =
      let s = cleanup_expired_uploads now (state, w) in
      finish_found-Finished id (get_upload id s.0.uploads) s new_hash meta refl e
