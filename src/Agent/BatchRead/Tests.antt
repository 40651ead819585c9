-- ===== src/Agent/BatchRead/Tests.antt =====
-- A batch of reads over files that are their names.
use nvim_remote_mirror.Prelude.{some, List, [], ◌∷◌, Text, codes, length}
use nvim_remote_mirror.Agent.BatchRead.{
  agent_read_response_max_bytes, agent_batch_total_max_bytes, min, Files, read_files,
}
use nvim_remote_mirror.Agent.BatchRead.Capped.{IsCapped, read_files-IsCapped}

abbrev named_files : Files
named_files = record {
  World = Unit {0};
  File = Text;
  open_existing_content_file = λ path w. (some (path, length path), w);
  read_to_end = λ file w. (some file, w);
}

abbrev paths : List Text
paths = codes "a" ∷ codes "long name" ∷ codes "bc" ∷ codes "d" ∷ []

read_files-IsCapped_example :
    IsCapped
      (min 4 agent_read_response_max_bytes)
      (min 2 agent_batch_total_max_bytes)
      (length paths)
      (read_files named_files paths 4 2 tt)
read_files-IsCapped_example = read_files-IsCapped named_files paths 4 2 tt
