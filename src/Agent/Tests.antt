-- ===== src/Agent/Tests.antt =====
-- The uploads of crates/nrm-agent/src/main.rs over a host with one file, whose hash is its content.
use nvim_remote_mirror.Prelude.{ℕ, ◌≡◌, refl, some, List, [], ◌∷◌, ◌++◌, Text, codes}
use nvim_remote_mirror.Agent.Host.{Host, ◌>>=◌, ◌>>◌, return, bail_if, or_remove}
use nvim_remote_mirror.Agent.Uploads.{
  applied, PendingUpload, AgentState, finished, get_upload, expired_ids, drop_all,
  cleanup_expired_uploads,
}
use nvim_remote_mirror.Agent.Uploads.Publish.{publish}
use nvim_remote_mirror.Agent.Uploads.Finish.{
  apply_upload, finish_upload, finish_found, finish_write_file_cas,
}
use nvim_remote_mirror.Agent.Uploads.Sound.{IsSound}
use nvim_remote_mirror.Agent.Uploads.Served.{
  Request, begin, chunk, finish, serve, no_uploads, served_uploads-IsSound,
}
use nvim_remote_mirror.Agent.Uploads.Published.{Finished, finish_write_file_cas-Finished}

record Disk : Type 0 where
  target : Text
  temporary : Text

abbrev one_file : Host
one_file = record {
  World = Disk;
  Target = Unit {0};
  Parent = Unit {0};
  TempName = Text;
  TempFile = Unit {0};
  Identity = Unit {0};
  Meta = ℕ;
  prepare_write_target = λ path w. (some tt, w);
  write_target_keys = λ target w. (some (codes "key" ∷ []), w);
  acquire_write_locks = λ keys w. (some tt, w);
  open_write_parent = λ target w. (some tt, w);
  current_regular_file_hash = λ path target w. (some (some w.target), w);
  new_upload_id = λ path w. codes "7";
  temp_file_name = λ target id w. (some id, w);
  verify_write_parent_current = λ parent target w. (some tt, w);
  create_temp_file = λ parent name w. (some tt, record w { temporary = [] });
  write_at = λ file offset content w. (some tt, record w { temporary = w.temporary ++ content });
  sync_all = λ file w. (some tt, w);
  hash_open_file = λ file w. (some w.temporary, w);
  verify_temp_file_identity = λ file name w. (some tt, w);
  capture_temp_file_identity = λ file name w. (some tt, w);
  remove_temp_file = λ parent name w. record w { temporary = [] };
  rename_temp_into_path =
      λ parent name target identity w. (some tt, record { target = w.temporary; temporary = [] });
  sync_write_parent = λ parent target w. (some tt, w);
  hash_file = λ target w. (some w.target, w);
  file_meta = λ target w. (some 0, w);
}

abbrev disk : Disk
disk = record { target = codes "old"; temporary = codes "new" }

abbrev upload : PendingUpload one_file
upload = record {
  path = codes "a";
  target_abs = tt;
  target_keys = codes "key" ∷ [];
  expected_hash = some (codes "old");
  content_hash = codes "new";
  size = 3;
  tmp_name = codes "7";
  tmp_file = tt;
  parent = tt;
  written = 3;
  created_at = 100;
}

abbrev one_upload : AgentState one_file
one_upload = record { uploads = (codes "7", upload) ∷ []; active_write_targets = codes "key" ∷ [] }

is_applied :
    (finish_write_file_cas one_file 110 (codes "7") one_upload disk).response
    ≡ finished (applied (codes "new") 0)
unfolding finish_write_file_cas cleanup_expired_uploads expired_ids drop_all get_upload finish_found
    finish_upload apply_upload publish ◌>>=◌ ◌>>◌ return bail_if or_remove
is_applied = refl

finish_write_file_cas-Finished_example :
    Finished one_file
      (codes "7")
      (cleanup_expired_uploads 110 (one_upload, disk))
      (codes "new")
      0
      (finish_write_file_cas one_file 110 (codes "7") one_upload disk)
finish_write_file_cas-Finished_example =
    finish_write_file_cas-Finished one_file 110 (codes "7") one_upload disk (codes "new") 0
      is_applied

abbrev requests : List (ℕ × Request one_file × Disk)
requests =
    (0, begin (codes "a") (some (codes "old")) (codes "new") 3, disk)
    ∷ (1, begin (codes "a") (some (codes "old")) (codes "new") 3, disk)
    ∷ (2, chunk (codes "7") 0 (codes "ne"), disk)
    ∷ (700000000000, finish (codes "7"), disk)
    ∷ []

served_uploads-IsSound_example : IsSound (serve one_file requests (no_uploads one_file))
served_uploads-IsSound_example = served_uploads-IsSound one_file requests
