-- ===== src/Sidecar/StderrTail/Kept.antt =====
-- What is kept of the standard error are its last bytes.
use nvim_remote_mirror.Prelude.{
  ℕ, zero, suc, ◌+◌, ◌-◌, ◌≤◌, ◌<◌, ◌≡◌, refl, sym, subst, ◌∙◌, ap, false, Option, none, some, Text,
  List, [], ◌∷◌, ◌++◌, append_assoc, append-nil, length, length-append, drop, leb, ltb, u64_mod,
  All, Bool-cases, inl, inr, arith,
}
use nvim_remote_mirror.Sidecar.StderrTail.{
  agent_stderr_tail_max_bytes, buffer_bytes, AgentStderrTailState, no_stderr, StderrRead,
  bytes_read, failed_read, append_agent_stderr_tail, read_stderr,
}

module _ {ℓ} {A : Type ℓ} where
  length-drop : (n : ℕ) (xs : List A) → length (drop n xs) ≡ length xs - n
  length-drop zero xs = omega arith
  length-drop (suc n) [] = omega arith
  length-drop (suc n) (x ∷ xs) = omega (arith, length-drop n xs)

  drop-nil : (n : ℕ) → drop {A = A} n [] ≡ []
  drop-nil zero = refl
  drop-nil (suc n) = refl

  drop-drop : (m n : ℕ) (xs : List A) → drop m (drop n xs) ≡ drop (n + m) xs
  drop-drop m zero xs = ap (λ k. drop k xs) (omega arith)
  drop-drop m (suc n) [] = drop-nil m ∙ sym (drop-nil (suc n + m))
  drop-drop m (suc n) (x ∷ xs) =
      let shift : suc (n + m) ≡ suc n + m = omega arith in
      drop-drop m n xs ∙ ap (λ k. drop k (x ∷ xs)) shift

  drop-append_le : (n : ℕ) (xs ys : List A) → n ≤ length xs → drop n (xs ++ ys) ≡ drop n xs ++ ys
  drop-append_le zero xs ys h = refl
  drop-append_le (suc n) [] ys h = absurd (omega arith)
  drop-append_le (suc n) (x ∷ xs) ys h = drop-append_le n xs ys (omega arith)

  -- The last `n` elements
  abbrev pub last_of : ℕ → List A → List A
  last_of n xs = drop (length xs - n) xs

-- The bytes that are read before the end of the stream or the first error.
abbrev pub bytes_of : List StderrRead → List ℕ
bytes_of [] = []
bytes_of (bytes_read [] ∷ reads) = []
bytes_of (bytes_read (b ∷ bytes) ∷ reads) = (b ∷ bytes) ++ bytes_of reads
bytes_of (failed_read error ∷ reads) = []

-- The first error, if there is one before the end of the stream.
abbrev pub error_of : List StderrRead → Option Text
error_of [] = none
error_of (bytes_read [] ∷ reads) = none
error_of (bytes_read (b ∷ bytes) ∷ reads) = error_of reads
error_of (failed_read error ∷ reads) = some error

abbrev pub size : StderrRead → ℕ
size (bytes_read bytes) = length bytes
size (failed_read error) = 0

pub record IsTail (stream : List ℕ) (state : AgentStderrTailState) : Type 0 where
  pub bytes_are : state.bytes ≡ last_of agent_stderr_tail_max_bytes stream
  pub truncated_is : state.truncated ≡ ltb agent_stderr_tail_max_bytes (length stream)

-- Dropping what is too much of the stream with its next bytes.
last_of-append :
    (c k : ℕ) (stream bytes : List ℕ)
    → k ≡ (length stream + length bytes) - c
    → k ≤ length stream
    → drop k stream ++ bytes ≡ last_of c (stream ++ bytes)
last_of-append c k stream bytes e b =
    let same : k ≡ length (stream ++ bytes) - c = omega (arith, length-append stream bytes) in
    sym (drop-append_le k stream bytes b) ∙ ap (λ k. drop k (stream ++ bytes)) same

drop-last_of :
    (c n : ℕ) (stream bytes : List ℕ)
    → n ≡ (length stream - (length stream - c)) + length bytes - c
    → length bytes < c
    → drop n (last_of c stream) ++ bytes ≡ last_of c (stream ++ bytes)
drop-last_of c n stream bytes e b =
    ap (λ kept. kept ++ bytes) (drop-drop n (length stream - c) stream)
    ∙ last_of-append c ((length stream - c) + n) stream bytes (omega arith) (omega arith)

append_agent_stderr_tail-IsTail :
    (stream bytes : List ℕ) (state : AgentStderrTailState)
    → length bytes < agent_stderr_tail_max_bytes
    → IsTail stream state
    → IsTail (stream ++ bytes) (append_agent_stderr_tail state bytes)
unfolding append_agent_stderr_tail
append_agent_stderr_tail-IsTail stream bytes state b t =
    let c = agent_stderr_tail_max_bytes in
    let excess = (length state.bytes + length bytes) - c in
    let held : length state.bytes ≡ length stream - (length stream - c) =
      ap length t.bytes_are ∙ length-drop (length stream - c) stream in
    let small : leb c (length bytes) ≡ false = ground arith in
    let fits : leb u64_mod (length state.bytes + length bytes) ≡ false = ground (arith, held) in
    let kept : drop excess state.bytes ++ bytes ≡ last_of c (stream ++ bytes) =
      ap (λ kept. drop excess kept ++ bytes) t.bytes_are
      ∙ drop-last_of c excess stream bytes (omega (arith, held)) b in
    elim (Bool-cases (ltb 0 excess)) [
      | inl e ↦
          rw (small, fits, e)
            (record {
              bytes_are = kept;
              truncated_is = ground (arith, held, length-append stream bytes);
            })
      | inr e ↦
          let none_over : excess ≡ 0 = ground arith in
          rw (small, fits, e)
            (record {
              bytes_are = sym (ap (λ n. drop n state.bytes ++ bytes) none_over) ∙ kept;
              truncated_is = ground (arith, held, length-append stream bytes, t.truncated_is);
            })
    ]

append_agent_stderr_tail-read_error :
    (state : AgentStderrTailState) (bytes : List ℕ)
    → (append_agent_stderr_tail state bytes).read_error ≡ state.read_error
unfolding append_agent_stderr_tail
append_agent_stderr_tail-read_error state bytes = ground arith

-- The tail of all that was read, and the error that ended the reading.
abbrev pub Keeps : List ℕ → Option Text → AgentStderrTailState → Type 0
Keeps stream error state = IsTail stream state × (state.read_error ≡ error)

Keeps-end :
    (stream : List ℕ) (error : Option Text) (state : AgentStderrTailState)
    → Keeps stream error state
    → Keeps (stream ++ []) error state
Keeps-end stream error state k = subst (λ s. Keeps s error state) (sym (append-nil stream)) k

read_stderr-Keeps_from :
    (stream : List ℕ) (state : AgentStderrTailState) (reads : List StderrRead)
    → All (λ read. size read ≤ buffer_bytes) reads
    → Keeps stream none state
    → Keeps (stream ++ bytes_of reads) (error_of reads) (read_stderr state reads)
unfolding read_stderr
read_stderr-Keeps_from stream state [] a k = Keeps-end stream none state k
read_stderr-Keeps_from stream state (bytes_read [] ∷ reads) a k = Keeps-end stream none state k
read_stderr-Keeps_from stream state (bytes_read (b ∷ bytes) ∷ reads) a k =
    let read = b ∷ bytes in
    let next = append_agent_stderr_tail state read in
    subst (λ s. Keeps s (error_of reads) (read_stderr next reads))
      (append_assoc stream read (bytes_of reads))
      (read_stderr-Keeps_from (stream ++ read) next reads a.1 (
        append_agent_stderr_tail-IsTail stream read state (omega (arith, a.0)) k.0,
        append_agent_stderr_tail-read_error state read ∙ k.1,
      ))
read_stderr-Keeps_from stream state (failed_read error ∷ reads) a k =
    Keeps-end stream (some error) (record state { read_error = some error })
      (record { bytes_are = k.0.bytes_are; truncated_is = k.0.truncated_is }, refl)

-- Where each read gives at most as many bytes as the reader's buffer has, what is kept of the standard
-- error of an agent are the last AGENT_STDERR_TAIL_MAX_BYTES bytes of all that was read before the end
-- of the stream or the first error, however it was cut into reads; it is marked as truncated just where
-- there were more; and the error that is kept is the first one, if there was one before the end.
pub read_stderr-Keeps :
    (reads : List StderrRead)
    → All (λ read. size read ≤ buffer_bytes) reads
    → Keeps (bytes_of reads) (error_of reads) (read_stderr no_stderr reads)
read_stderr-Keeps reads a =
    read_stderr-Keeps_from [] no_stderr reads a
      (record { bytes_are = refl; truncated_is = refl }, refl)
