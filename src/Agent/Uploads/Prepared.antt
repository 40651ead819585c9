-- ===== src/Agent/Uploads/Prepared.antt =====
-- The upload that `begin_write_file_cas` prepares.
use nvim_remote_mirror.Prelude.{
  ℕ, ◌≡◌, refl, true, false, not, Option, none, some, List, [], ◌∷◌, Text, Bool-cases, inl, inr,
  arith,
}
use nvim_remote_mirror.Agent.Host.{Host, >>=-holds, >>-holds, bail_if-holds, return}
use nvim_remote_mirror.Agent.Uploads.{
  is_member, hash_eq, PendingUpload, Started, started, start_conflict, ensure_no_active_write,
}
use nvim_remote_mirror.Agent.Uploads.Begin.{start_upload, prepare_upload}
use nvim_remote_mirror.Agent.Uploads.Sets.{same_member}

module _ {h : Host} where
  -- The upload that `begin_write_file_cas` prepares.
  unfoldable pub IsPrepared : List Text → ℕ → Option (Started h) × h.World → Type 0
  IsPrepared active size (some (started id upload), w) =
      (upload.size ≡ size)
      × (upload.written ≡ 0)
      × (ensure_no_active_write active upload.target_keys ≡ true)
  IsPrepared active size (some (start_conflict expected actual), w) = Unit
  IsPrepared active size (none, w) = Unit

module _ (h : Host) where
  none-IsPrepared :
      (active : List Text) (size : ℕ) (w : h.World) → IsPrepared {h = h} active size (none, w)
  unfolding IsPrepared
  none-IsPrepared active size w = tt

  conflict-IsPrepared :
      (active : List Text) (size : ℕ) (expected actual : Option Text) (w : h.World)
      → IsPrepared {h = h} active size (return (start_conflict expected actual) w)
  unfolding IsPrepared return
  conflict-IsPrepared active size expected actual w = tt

  started-IsPrepared :
      (active : List Text) (id : Text) (upload : PendingUpload h) (w : h.World)
      → upload.written ≡ 0
      → ensure_no_active_write active upload.target_keys ≡ true
      → IsPrepared active upload.size (return (started id upload) w)
  unfolding IsPrepared return
  started-IsPrepared active id upload w z e = (refl, z, e)

  start_upload-IsPrepared :
      (now : ℕ) (active : List Text) (path : Text) (expected : Option Text) (content_hash : Text)
      (size : ℕ) (target : h.Target) (keys : List Text) (parent : h.Parent) (w : h.World)
      → ensure_no_active_write active keys ≡ true
      → IsPrepared active size
          (start_upload h now path expected content_hash size target keys parent w)
  unfolding start_upload
  start_upload-IsPrepared now active path expected content_hash size target keys parent w e =
      let P = IsPrepared {h = h} active size in
      let error = none-IsPrepared active size in
      let id = h.new_upload_id path w in
      >>=-holds P (h.temp_file_name target id) _ w error (λ name w.
        >>-holds P (h.verify_write_parent_current parent target) _ w error (λ w.
          >>=-holds P (h.create_temp_file parent name) _ w error
            (λ file w. started-IsPrepared active id _ w refl e)))

  pub prepare_upload-IsPrepared :
      (now : ℕ) (active : List Text) (path : Text) (expected : Option Text) (content_hash : Text)
      (size : ℕ) (w : h.World)
      → IsPrepared active size (prepare_upload h now active path expected content_hash size w)
  unfolding prepare_upload
  prepare_upload-IsPrepared now active path expected content_hash size w =
      let P = IsPrepared {h = h} active size in
      let error = none-IsPrepared active size in
      >>=-holds P (h.prepare_write_target path) _ w error (λ target w.
        >>=-holds P (h.write_target_keys target) _ w error (λ keys w.
          bail_if-holds P (not (ensure_no_active_write active keys)) _ w error (λ free w.
            >>-holds P (h.acquire_write_locks keys) _ w error (λ w.
              >>=-holds P (h.open_write_parent target) _ w error (λ parent w.
                >>=-holds P (h.current_regular_file_hash path target) _ w error (λ actual w.
                  elim (Bool-cases (not (hash_eq actual expected))) [
                    | inl e ↦ rw e (conflict-IsPrepared active size expected actual w)
                    | inr e ↦ rw e (
                        start_upload-IsPrepared now active path expected content_hash size target
                          keys parent w (ground (arith, free)))
                  ]))))))

-- The keys of a new upload are held by no other.
pub ensure_no_active_write-member :
    (key : Text) (active keys : List Text)
    → ensure_no_active_write active keys ≡ true
    → is_member key keys ≡ true
    → is_member key active ≡ false
unfolding ensure_no_active_write
ensure_no_active_write-member key active [] e m = absurd (ground arith)
ensure_no_active_write-member key active (x ∷ keys) e m =
    ground (arith, same_member key x active, ensure_no_active_write-member key active keys)
