-- ===== src/Protocol/Frame/CutShort.antt =====
-- Where a runtime frame ends before it is complete.
use nvim_remote_mirror.Prelude.{
  ℕ, zero, suc, ◌≤◌, ◌<◌, ◌≡◌, ◌≢◌, ◌↔◌, ◌⊎◌, refl, ap, false, List, [], ◌∷◌, length,
  length-take-le, take, from_be_bytes, Result, ok, err, panic, map_err, ◌>>=◌, ltb, ◌==◌,
  Bool-cases, inl, inr, arith,
}
use nvim_remote_mirror.Protocol.Limits.{runtime_max_frame_len}
use nvim_remote_mirror.Protocol.Message.{RuntimeMessage}
use nvim_remote_mirror.Protocol.Errors.{RuntimeValidationError}
use nvim_remote_mirror.Protocol.Validate.{validate}
use nvim_remote_mirror.Protocol.Frame.{
  Codec, RuntimeFrameError, unexpected_eof, read_length, read_body, decode_runtime,
  finish_runtime_frame, read_runtime_frame_of, read_runtime_frame,
}
use nvim_remote_mirror.Protocol.Frame.Limit.{Announces}

length-take_enough : (n : ℕ) (xs : List ℕ) → n ≤ length xs → length (take n xs) ≡ n
length-take_enough zero xs h = refl
length-take_enough (suc n) [] h = absurd (omega arith)
length-take_enough (suc n) (x ∷ xs) h = ap suc (length-take_enough n xs (omega arith))

-- The reader ends in the four bytes of a length, or in a body of an admitted length.
abbrev pub IsCutShort : List ℕ → Type 0
IsCutShort reader =
    (length reader < 4)
    ⊎ ((n : ℕ) × (body : List ℕ) × Announces reader n body
        × (n ≤ runtime_max_frame_len)
        × (length body < n))

module _ (c : Codec RuntimeMessage) where
  abbrev Read : Type 0
  Read = Result (RuntimeFrameError c.Error) RuntimeMessage

  abbrev end_of_file : Read
  end_of_file = err (RuntimeFrameError.io unexpected_eof)

  decoded_not_cut :
      (message : RuntimeMessage) (v : Result RuntimeValidationError (Unit {0}))
      → (map_err RuntimeFrameError.invalid v >>= λ _. ok message) ≢ end_of_file
  decoded_not_cut message (ok u) h = cc
  decoded_not_cut message (err e) h = cc
  decoded_not_cut message panic h = cc

  codec_not_cut :
      (r : Result c.Error RuntimeMessage)
      → (map_err RuntimeFrameError.codec r >>= λ message.
          map_err RuntimeFrameError.invalid (validate message) >>= λ _. ok message)
        ≢ end_of_file
  codec_not_cut (ok message) h = decoded_not_cut message (validate message) h
  codec_not_cut (err e) h = cc
  codec_not_cut panic h = cc

  decode_runtime_not_cut : (bytes : List ℕ) → decode_runtime c bytes ≢ end_of_file
  unfolding decode_runtime
  decode_runtime_not_cut bytes h = codec_not_cut (c.from_bytes bytes) h

  -- Only a body that is too short is cut.
  cut_body :
      (n : ℕ) (body : List ℕ)
      → (finish_runtime_frame c (read_body n body)).1 ≡ end_of_file
      → length body < n
  unfolding finish_runtime_frame read_body
  cut_body n body h = elim (Bool-cases (length (take n body) == n)) [
    | inl whole ↦ let h' = rw whole at h in absurd (decode_runtime_not_cut (take n body) h')
    | inr short ↦ elim (Bool-cases (ltb (length body) n)) [
      | inl less ↦ ground arith
      | inr enough ↦
          let all = length-take_enough n body (ground arith) in absurd (ground (arith, all))
    ]
  ]

  cut_length :
      (n : ℕ) (body : List ℕ)
      → (read_runtime_frame_of c (body, ok n)).1 ≡ end_of_file
      → (n ≤ runtime_max_frame_len) × (length body < n)
  unfolding read_runtime_frame_of
  cut_length n body h = elim (Bool-cases (ltb runtime_max_frame_len n)) [
    | inl big ↦ let h' = rw big at h in absurd (not_refused n h')
    | inr small ↦ let h' = rw small at h in (ground arith, cut_body n body h')
  ]
    where
      not_refused : (n : ℕ) → ◌≢◌ {A = Read} (err (RuntimeFrameError.too_large n)) end_of_file
      not_refused n h = cc

  cut_reader :
      (reader : List ℕ)
      → (read_runtime_frame_of c (read_length reader)).1 ≡ end_of_file
      → IsCutShort reader
  unfolding read_length
  cut_reader [] h = inl (omega arith)
  cut_reader (a ∷ []) h = inl (omega arith)
  cut_reader (a ∷ b ∷ []) h = inl (omega arith)
  cut_reader (a ∷ b ∷ d ∷ []) h = inl (omega arith)
  cut_reader (a ∷ b ∷ d ∷ e ∷ body) h =
      let (fits, short) = cut_length (from_be_bytes a b d e) body h in
      inr (from_be_bytes a b d e, body, (a, b, d, e, refl, refl), fits, short)

  short_reader :
      (reader : List ℕ)
      → length reader < 4
      → (read_runtime_frame_of c (read_length reader)).1 ≡ end_of_file
  unfolding read_length read_runtime_frame_of
  short_reader [] h = refl
  short_reader (a ∷ []) h = refl
  short_reader (a ∷ b ∷ []) h = refl
  short_reader (a ∷ b ∷ d ∷ []) h = refl
  short_reader (a ∷ b ∷ d ∷ e ∷ body) h = absurd (omega arith)

  cut_short :
      (reader : List ℕ) (n : ℕ)
      → n ≤ runtime_max_frame_len
      → length reader < n
      → (read_runtime_frame_of c (reader, ok n)).1 ≡ err (RuntimeFrameError.io unexpected_eof)
  unfolding read_runtime_frame_of finish_runtime_frame read_body
  cut_short reader n h k =
      let small : ltb runtime_max_frame_len n ≡ false = ground arith in
      let short : (length (take n reader) == n) ≡ false = ground (arith, length-take-le n reader) in
      rw (small, short)

  short_body :
      (reader body : List ℕ) (a b d e n : ℕ)
      → reader ≡ a ∷ b ∷ d ∷ e ∷ body
      → n ≡ from_be_bytes a b d e
      → n ≤ runtime_max_frame_len
      → length body < n
      → (read_runtime_frame_of c (read_length reader)).1 ≡ end_of_file
  unfolding read_length
  short_body reader body a b d e n starts same fits short = rw starts (
      cut_short body (from_be_bytes a b d e) (omega (arith, same, fits))
        (omega (arith, same, short)))

  -- Whatever bytes arrive, the reading of a runtime frame fails for the end of the stream just where
  -- there are fewer than the four bytes of a length, or the length is at most `RUNTIME_MAX_FRAME_LEN`
  -- and fewer bytes than it says are behind it.
  pub read_runtime_frame-ends_early :
      (reader : List ℕ)
      → ((read_runtime_frame c reader).1 ≡ err (RuntimeFrameError.io unexpected_eof))
        ↔ IsCutShort reader
  unfolding read_runtime_frame
  read_runtime_frame-ends_early reader = (
    cut_reader reader,
    λ cut. elim cut [
      | inl short ↦ short_reader reader short
      | inr (n, body, (a, b, d, e, starts, same), fits, short) ↦
          short_body reader body a b d e n starts same fits short
    ],
  )
