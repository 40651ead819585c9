-- ===== src/Agent/BatchRead/Capped.antt =====
-- The caps of a batch of reads.
use nvim_remote_mirror.Prelude.{
  ℕ, suc, ◌+◌, ◌-◌, ◌≤◌, ◌≡◌, refl, subst, false, Option, none, some, List, [], ◌∷◌, Text, length,
  take, leb, ltb, u64_mod, All, Bool-cases, inl, inr, arith,
}
use nvim_remote_mirror.Agent.BatchRead.{
  agent_read_response_max_bytes, agent_batch_total_max_bytes, min, saturating_add, Files,
  BatchReadFile, Outcome, read, unreadable, total_cap_exceeded, ReadFiles,
  read_reader_bytes_with_cap, read_open_file_bytes_with_cap, read_opened, read_file_for_batch,
  answer, next_total, read_each, read_files,
}

abbrev pub total_content : List BatchReadFile → ℕ
total_content [] = 0
total_content (file ∷ files) = length file.content + total_content files

-- An answer to so many paths, within a cap for each file and a cap for all.
pub record IsCapped (max_file max_total asked : ℕ) (r : ReadFiles) : Type 0 where
  pub each : All (λ (file : BatchReadFile). length file.content ≤ max_file) r.files
  pub all : total_content r.files ≤ max_total
  pub answered : length r.files + length r.errors ≤ asked
  pub complete : r.truncated ≡ false → length r.files + length r.errors ≡ asked

abbrev Fits : ℕ → Outcome → Type 0
Fits max (read content) = length content ≤ max
Fits max _ = Unit

read_reader_bytes_with_cap-Fits :
    (available : List ℕ) (max : ℕ) → Fits max (read_reader_bytes_with_cap available max)
unfolding read_reader_bytes_with_cap
read_reader_bytes_with_cap-Fits available max =
    elim (Bool-cases (ltb max (length (take (saturating_add max 1) available)))) [
      | inl e ↦ rw e tt
      | inr e ↦ rw e (ground arith)
    ]

Fits-le : (m n : ℕ) (outcome : Outcome) → Fits m outcome → m ≤ n → Fits n outcome
Fits-le m n (read content) h b = omega arith
Fits-le m n unreadable h b = tt
Fits-le m n total_cap_exceeded h b = tt

min-le : (m n : ℕ) → (min m n ≤ m) × (min m n ≤ n)
min-le m n = (ground arith, ground arith)

module _ (f : Files) where
  read_open_file_bytes_with_cap-Fits :
      (max : ℕ) (r : Option (List ℕ) × f.World) → Fits max (read_open_file_bytes_with_cap f max r).0
  unfolding read_open_file_bytes_with_cap
  read_open_file_bytes_with_cap-Fits max (none, w) = tt
  read_open_file_bytes_with_cap-Fits max (some available, w) =
      Fits-le (min max agent_read_response_max_bytes) max
        (read_reader_bytes_with_cap available (min max agent_read_response_max_bytes))
        (read_reader_bytes_with_cap-Fits available (min max agent_read_response_max_bytes))
        (min-le max agent_read_response_max_bytes).0

  read_opened-Fits :
      (max_file remaining : ℕ) (r : Option (f.File × ℕ) × f.World)
      → Fits (min max_file remaining) (read_opened f max_file remaining r).0
  unfolding read_opened
  read_opened-Fits max_file remaining (none, w) = tt
  read_opened-Fits max_file remaining (some (file, len), w) = elim (Bool-cases (ltb max_file len)) [
    | inl e ↦ rw e tt
    | inr e ↦ elim (Bool-cases (ltb remaining len)) [
      | inl e' ↦ rw (e, e') tt
      | inr e' ↦
          rw (e, e')
            (read_open_file_bytes_with_cap-Fits (min max_file remaining) (f.read_to_end file w))
    ]
  ]

  answer-IsCapped :
      (max_file max_total total asked : ℕ) (path : Text) (outcome : Outcome) (later : ReadFiles)
      → max_total ≤ agent_batch_total_max_bytes
      → total ≤ max_total
      → Fits (min max_file (max_total - total)) outcome
      → (next_total f total outcome ≤ max_total
          → IsCapped max_file (max_total - next_total f total outcome) asked later)
      → IsCapped max_file (max_total - total) (suc asked) (answer f path outcome later)
  answer-IsCapped max_file max_total total asked path (read content) later b t h l =
      let fits = min-le max_file (max_total - total) in
      let room : leb u64_mod (total + length content) ≡ false = ground (arith, fits, h) in
      let c = l (ground (arith, room, fits, h)) in
      record {
        each = (omega (arith, fits), c.each);
        all = ground (arith, c.all, room, fits, h);
        answered = omega (arith, c.answered);
        complete = λ e. omega (arith, c.complete e);
      }
  answer-IsCapped max_file max_total total asked path unreadable later b t h l =
      let c = l t in
      record {
        each = c.each;
        all = c.all;
        answered = omega (arith, c.answered);
        complete = λ e. omega (arith, c.complete e);
      }
  answer-IsCapped max_file max_total total asked path total_cap_exceeded later b t h l = record {
    each = tt;
    all = omega arith;
    answered = omega arith;
    complete = λ e. absurd (cc);
  }

  read_each-IsCapped :
      (max_file max_total total : ℕ) (paths : List Text) (w : f.World)
      → max_total ≤ agent_batch_total_max_bytes
      → total ≤ max_total
      → IsCapped max_file
          (max_total - total)
          (length paths)
          (read_each f max_file max_total total paths w)
  unfolding read_each read_file_for_batch
  read_each-IsCapped max_file max_total total [] w b t = record {
    each = tt;
    all = omega arith;
    answered = omega arith;
    complete = λ e. refl;
  }
  read_each-IsCapped max_file max_total total (path ∷ paths) w b t =
      let r = f.open_existing_content_file path w in
      let (outcome, w') = read_opened f max_file (max_total - total) r in
      answer-IsCapped max_file max_total total (length paths) path outcome
        (read_each f max_file max_total (next_total f total outcome) paths w') b t
        (read_opened-Fits max_file (max_total - total) r)
        (λ still.
          read_each-IsCapped max_file max_total (next_total f total outcome) paths w' b still)

  -- Whatever the files are and however they change meanwhile, a batch of reads has
  -- at most as many files and errors together as paths were asked for, and exactly as many
  -- where it is not truncated. No file is longer than the cap for a file that was asked for and the
  -- cap of the agent itself, and all files together are not longer than the cap for all and that of the agent.
  pub read_files-IsCapped :
      (paths : List Text) (max_file max_total : ℕ) (w : f.World)
      → IsCapped
          (min max_file agent_read_response_max_bytes)
          (min max_total agent_batch_total_max_bytes)
          (length paths)
          (read_files f paths max_file max_total w)
  unfolding read_files
  read_files-IsCapped paths max_file max_total w =
      let file_cap = min max_file agent_read_response_max_bytes in
      let total_cap = min max_total agent_batch_total_max_bytes in
      let whole : total_cap - 0 ≡ total_cap = omega arith in
      subst (λ cap. IsCapped file_cap cap (length paths) (read_each f file_cap total_cap 0 paths w))
        whole
        (read_each-IsCapped file_cap total_cap 0 paths w
          (min-le max_total agent_batch_total_max_bytes).1 (omega arith))
