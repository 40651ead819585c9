-- ===== src/Agent/Uploads/Served.antt =====
-- Every request keeps the uploads of an agent sound.
use nvim_remote_mirror.Prelude.{
  ℕ, ◌≤◌, ◌≡◌, refl, true, not, ◌||◌, Option, none, some, List, [], ◌∷◌, Text, length, ltb, ◌==◌,
  Bool-cases, inl, inr, arith,
}
use nvim_remote_mirror.Agent.Host.{Host}
use nvim_remote_mirror.Agent.Uploads.{
  saturating_add, PendingUpload, AgentState, Started, started, start_conflict, Handled, get_upload,
  insert_upload, drop_found, cleanup_expired_uploads, enforce_upload_limits,
}
use nvim_remote_mirror.Agent.Uploads.Begin.{begin_with, begin_write_file_cas}
use nvim_remote_mirror.Agent.Uploads.Chunk.{chunk_written, chunk_found, write_file_chunk}
use nvim_remote_mirror.Agent.Uploads.Finish.{
  finish_found, finish_write_file_cas, abort_write_file_cas,
}
use nvim_remote_mirror.Agent.Uploads.Sets.{
  is_member-extend, remove_upload-Fewer, set_written-Fewer, sum_sizes-total_size,
}
use nvim_remote_mirror.Agent.Uploads.Sound.{
  IsSound, drop_found-IsSound, cleanup_expired_uploads-IsSound,
}
use nvim_remote_mirror.Agent.Uploads.Prepared.{
  IsPrepared, prepare_upload-IsPrepared, ensure_no_active_write-member,
}

module _ {h : Host} where
  begin_with-IsSound :
      (state : AgentState h) (size : ℕ) (r : Option (Started h) × h.World)
      → IsPrepared state.active_write_targets size r
      → enforce_upload_limits state size ≡ true
      → IsSound state
      → IsSound (begin_with h state r).state
  unfolding begin_with IsPrepared enforce_upload_limits insert_upload
  begin_with-IsSound state size (none, w) p e v = v
  begin_with-IsSound state size (some (start_conflict expected actual), w) p e v = v
  begin_with-IsSound state size (some (started id upload), w) (s, z, free) e v =
      let f = remove_upload-Fewer id state.uploads v.within in
      record {
        few = ground (arith, f.0);
        small = ground (arith, f.1, s, sum_sizes-total_size 0 state.uploads);
        within = (omega (arith, z), f.2);
        held = λ key. ground (
          arith,
          f.3 key,
          v.held key,
          is_member-extend key upload.target_keys state.active_write_targets,
          ensure_no_active_write-member key state.active_write_targets upload.target_keys free,
        );
      }

  begin_write_file_cas-IsSound :
      (now : ℕ) (path : Text) (expected : Option Text) (content_hash : Text) (size : ℕ)
      (state : AgentState h) (w : h.World)
      → IsSound state
      → IsSound (begin_write_file_cas h now path expected content_hash size state w).state
  unfolding begin_write_file_cas
  begin_write_file_cas-IsSound now path expected content_hash size state w v =
      let (clean, w') = cleanup_expired_uploads now (state, w) in
      let still = cleanup_expired_uploads-IsSound now (state, w) v in
      elim (Bool-cases (enforce_upload_limits clean size)) [
        | inl e ↦ rw e (
            begin_with-IsSound clean size _
              (prepare_upload-IsPrepared h now clean.active_write_targets path expected content_hash
                size w')
              e still)
        | inr e ↦ rw e still
      ]

  chunk_written-IsSound :
      (id : Text) (n : ℕ) (state : AgentState h) (upload : PendingUpload h)
      (r : Option (Unit {0}) × h.World)
      → get_upload id state.uploads ≡ some upload
      → n ≤ upload.size
      → IsSound state
      → IsSound (chunk_written h id n state r).state
  unfolding chunk_written
  chunk_written-IsSound id n state upload (none, w) e b v = v
  chunk_written-IsSound id n state upload (some u, w) e b v =
      let f = set_written-Fewer id n state.uploads upload v.within e b in
      record {
        few = omega (arith, f.0, v.few);
        small = omega (arith, f.1, v.small);
        within = f.2;
        held = λ key. ground (arith, f.3 key, v.held key);
      }

  chunk_found-IsSound :
      (id : Text) (offset : ℕ) (content : List ℕ) (found : Option (PendingUpload h))
      (s : AgentState h × h.World)
      → get_upload id s.0.uploads ≡ found
      → IsSound s.0
      → IsSound (chunk_found h id offset content found s).state
  unfolding chunk_found
  chunk_found-IsSound id offset content none s e v = v
  chunk_found-IsSound id offset content (some upload) s e v =
      let next = saturating_add upload.written (length content) in
      let refuses = not (offset == upload.written) || ltb upload.size next in
      elim (Bool-cases refuses) [
        | inl r ↦ rw r v
        | inr r ↦ rw r (
            chunk_written-IsSound id next s.0 upload (h.write_at upload.tmp_file offset content s.1)
              e (ground arith) v)
      ]

  finish_found-IsSound :
      (id : Text) (found : Option (PendingUpload h)) (s : AgentState h × h.World)
      → get_upload id s.0.uploads ≡ found
      → IsSound s.0
      → IsSound (finish_found h id found s).state
  unfolding finish_found drop_found
  finish_found-IsSound id none s e v = v
  finish_found-IsSound id (some upload) s e v = drop_found-IsSound id (some upload) s e v

module _ (h : Host) where
  pub data Request : Type 0 where
    begin : Text → Option Text → Text → ℕ → Request
    chunk : Text → ℕ → List ℕ → Request
    finish : Text → Request
    abort : Text → Request

  -- One request at a time
  unfoldable pub handle : ℕ → Request → AgentState h → h.World → Handled h
  unfolding begin_write_file_cas write_file_chunk finish_write_file_cas abort_write_file_cas
  handle now (begin path expected_hash content_hash size) =
      begin_write_file_cas h now path expected_hash content_hash size
  handle now (chunk id offset content) = write_file_chunk h now id offset content
  handle now (finish id) = finish_write_file_cas h now id
  handle now (abort id) = abort_write_file_cas h now id

  -- Between two requests the world may change in any way.
  unfoldable pub serve : List (ℕ × Request × h.World) → AgentState h → AgentState h
  unfolding handle
  serve [] state = state
  serve ((now, request, w) ∷ rest) state = serve rest (handle now request state w).state

  abbrev pub no_uploads : AgentState h
  no_uploads = record { uploads = []; active_write_targets = [] }

  handle-IsSound :
      (now : ℕ) (request : Request) (state : AgentState h) (w : h.World)
      → IsSound state
      → IsSound (handle now request state w).state
  unfolding handle write_file_chunk finish_write_file_cas abort_write_file_cas
  handle-IsSound now (begin path expected content_hash size) state w v =
      begin_write_file_cas-IsSound now path expected content_hash size state w v
  handle-IsSound now (chunk id offset content) state w v =
      let s = cleanup_expired_uploads now (state, w) in
      chunk_found-IsSound id offset content (get_upload id s.0.uploads) s refl
        (cleanup_expired_uploads-IsSound now (state, w) v)
  handle-IsSound now (finish id) state w v =
      let s = cleanup_expired_uploads now (state, w) in
      finish_found-IsSound id (get_upload id s.0.uploads) s refl
        (cleanup_expired_uploads-IsSound now (state, w) v)
  handle-IsSound now (abort id) state w v =
      let s = cleanup_expired_uploads now (state, w) in
      drop_found-IsSound id (get_upload id s.0.uploads) s refl
        (cleanup_expired_uploads-IsSound now (state, w) v)

  serve-IsSound :
      (requests : List (ℕ × Request × h.World)) (state : AgentState h)
      → IsSound state
      → IsSound (serve requests state)
  unfolding serve
  serve-IsSound [] state v = v
  serve-IsSound ((now, request, w) ∷ rest) state v =
      serve-IsSound rest (handle now request state w).state (handle-IsSound now request state w v)

  -- Whatever requests an agent serves from its start, it has at most MAX_ACTIVE_UPLOADS uploads, which
  -- announce at most MAX_ACTIVE_UPLOAD_BYTES in all, to none of them more was written than it
  -- announced, and no two uploads hold the same write target, each of which is active.
  pub served_uploads-IsSound :
      (requests : List (ℕ × Request × h.World)) → IsSound (serve requests no_uploads)
  served_uploads-IsSound requests =
      serve-IsSound requests no_uploads
        (record { few = omega arith; small = omega arith; within = tt; held = λ key. omega arith })
