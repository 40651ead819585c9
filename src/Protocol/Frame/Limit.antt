-- ===== src/Protocol/Frame/Limit.antt =====
-- The limit on the length of a runtime frame.
use nvim_remote_mirror.Prelude.{
  ℕ, ◌<◌, ◌≡◌, ◌≢◌, ◌↔◌, ap, sym, true, List, [], ◌∷◌, from_be_bytes, Result, ok, err, panic,
  map_err, ◌>>=◌, ltb, Bool-cases, inl, inr, arith,
}
use nvim_remote_mirror.Protocol.Limits.{runtime_max_frame_len}
use nvim_remote_mirror.Protocol.Message.{RuntimeMessage}
use nvim_remote_mirror.Protocol.Errors.{RuntimeValidationError}
use nvim_remote_mirror.Protocol.Validate.{validate}
use nvim_remote_mirror.Protocol.Frame.{
  Codec, RuntimeFrameError, IoError, read_length, read_body, decode_runtime, finish_runtime_frame,
  read_runtime_frame_of, read_runtime_frame,
}

-- The reader starts with the four bytes of the length `n`, and `rest` is behind them.
abbrev pub Announces : List ℕ → ℕ → List ℕ → Type 0
Announces reader n rest =
    (a : ℕ) × (b : ℕ) × (d : ℕ) × (e : ℕ) × (reader ≡ a ∷ b ∷ d ∷ e ∷ rest)
    × (n ≡ from_be_bytes a b d e)

module _ (c : Codec RuntimeMessage) where
  abbrev Read : Type 0
  Read = Result (RuntimeFrameError c.Error) RuntimeMessage

  abbrev refusal : ℕ → Read
  refusal n = err (RuntimeFrameError.too_large n)

  -- `decode_runtime` behind the two results that it looks at, neither of which refuses a length.
  decoded_not_refused :
      (n : ℕ) (message : RuntimeMessage) (v : Result RuntimeValidationError (Unit {0}))
      → (map_err RuntimeFrameError.invalid v >>= λ _. ok message) ≢ refusal n
  decoded_not_refused n message (ok u) h = cc
  decoded_not_refused n message (err e) h = cc
  decoded_not_refused n message panic h = cc

  codec_not_refused :
      (n : ℕ) (r : Result c.Error RuntimeMessage)
      → (map_err RuntimeFrameError.codec r >>= λ message.
          map_err RuntimeFrameError.invalid (validate message) >>= λ _. ok message)
        ≢ refusal n
  codec_not_refused n (ok message) h = decoded_not_refused n message (validate message) h
  codec_not_refused n (err e) h = cc
  codec_not_refused n panic h = cc

  finish_not_refused :
      (n : ℕ) (x : List ℕ × Result IoError (List ℕ)) → (finish_runtime_frame c x).1 ≢ refusal n
  unfolding finish_runtime_frame decode_runtime
  finish_not_refused n (reader, ok bytes) h = codec_not_refused n (c.from_bytes bytes) h
  finish_not_refused n (reader, err e) h = cc
  finish_not_refused n (reader, panic) h = cc

  refused_length :
      (body rest : List ℕ) (m n : ℕ)
      → read_runtime_frame_of c (body, ok m) ≡ (rest, refusal n)
      → (runtime_max_frame_len < m) × (body ≡ rest) × (m ≡ n)
  unfolding read_runtime_frame_of
  refused_length body rest m n h = elim (Bool-cases (ltb runtime_max_frame_len m)) [
    | inl big ↦ let h' = rw big at h in (ground arith, cc, cc)
    | inr small ↦
        let h' = rw small at h in
        absurd (finish_not_refused n (read_body m body) (ap (λ (r : List ℕ × Read). r.1) h'))
  ]

  too_large :
      (reader : List ℕ) (n : ℕ)
      → runtime_max_frame_len < n
      → read_runtime_frame_of c (reader, ok n) ≡ (reader, refusal n)
  unfolding read_runtime_frame_of
  too_large reader n h = let big : ltb runtime_max_frame_len n ≡ true = ground arith in rw big

  refused_reader :
      (reader rest : List ℕ) (n : ℕ)
      → read_runtime_frame_of c (read_length reader) ≡ (rest, refusal n)
      → Announces reader n rest × (runtime_max_frame_len < n)
  unfolding read_length read_runtime_frame_of
  refused_reader [] rest n h = absurd (cc)
  refused_reader (a ∷ []) rest n h = absurd (cc)
  refused_reader (a ∷ b ∷ []) rest n h = absurd (cc)
  refused_reader (a ∷ b ∷ d ∷ []) rest n h = absurd (cc)
  refused_reader (a ∷ b ∷ d ∷ e ∷ body) rest n h =
      let (big, left, same) = refused_length body rest (from_be_bytes a b d e) n h in
      ((a, b, d, e, cc, sym same), omega (arith, same, big))

  announced_refused :
      (reader rest : List ℕ) (a b d e n : ℕ)
      → reader ≡ a ∷ b ∷ d ∷ e ∷ rest
      → n ≡ from_be_bytes a b d e
      → runtime_max_frame_len < n
      → read_runtime_frame_of c (read_length reader) ≡ (rest, refusal n)
  unfolding read_length
  announced_refused reader rest a b d e n starts announced big =
      rw (starts, announced)
        (too_large rest (from_be_bytes a b d e) (omega (arith, announced, big)))

  -- Whatever bytes arrive, a runtime frame is refused for a length of `n` just where the bytes start
  -- with the four of the length `n` and `n` is above `RUNTIME_MAX_FRAME_LEN`, and then just these four
  -- are read.
  pub read_runtime_frame-refuses :
      (reader rest : List ℕ) (n : ℕ)
      → (read_runtime_frame c reader ≡ (rest, err (RuntimeFrameError.too_large n)))
        ↔ (Announces reader n rest × (runtime_max_frame_len < n))
  unfolding read_runtime_frame
  read_runtime_frame-refuses reader rest n = (
    refused_reader reader rest n,
    λ h.
        let ((a, b, d, e, starts, same), big) = h in
        announced_refused reader rest a b d e n starts same big,
  )
