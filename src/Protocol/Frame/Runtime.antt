-- ===== src/Protocol/Frame/Runtime.antt =====
-- Runtime frames: what is written is valid and read back, and what is read is valid.
use native.Mathlib.Nat.{mod-eq_of_lt}
use nvim_remote_mirror.Prelude.{
  ℕ, ◌≤◌, ◌≡◌, ap, ◌∙◌, ◌%◌, append_assoc, List, [], ◌++◌, length, u32_mod, to_be_bytes, false,
  Result, ok, err, panic, map_err, map_err-eq-ok, ok-injective, subst, >>=-eq-ok, ltb, Bool-cases,
  inl, inr, arith,
}
use nvim_remote_mirror.Protocol.Limits.{runtime_max_frame_len}
use nvim_remote_mirror.Protocol.Message.{RuntimeMessage}
use nvim_remote_mirror.Protocol.Validate.{validate}
use nvim_remote_mirror.Protocol.Frame.{
  Codec, RuntimeFrameError, IoError, read_length, read_body, write_runtime_frame, decode_runtime,
  finish_runtime_frame, read_runtime_frame_of, read_runtime_frame,
}
use nvim_remote_mirror.Protocol.Frame.RoundTrip.{framed, read_length-framed, read_body-append}

module _ (c : Codec RuntimeMessage) where
  write_runtime_frame-framed :
      (writer writer' : List ℕ) (message : RuntimeMessage)
      → write_runtime_frame c writer message ≡ ok writer'
      → (bytes : List ℕ) × (validate message ≡ ok tt)
        × (c.to_allocvec message ≡ ok bytes)
        × (length bytes ≤ runtime_max_frame_len)
        × (writer' ≡ writer ++ framed bytes)
  unfolding write_runtime_frame
  write_runtime_frame-framed writer writer' message h =
      let (u, valid, h₀) = >>=-eq-ok (map_err RuntimeFrameError.invalid (validate message)) _ h in
      let (bytes, encoded, h₁) =
        >>=-eq-ok (map_err RuntimeFrameError.codec (c.to_allocvec message)) _ h₀ in
      let fits : length bytes ≤ runtime_max_frame_len = ground arith in
      let written : writer' ≡ (writer ++ to_be_bytes (length bytes % u32_mod)) ++ bytes =
        ground arith in
      (
        bytes,
        map_err-eq-ok _ _ valid,
        map_err-eq-ok _ _ encoded,
        fits,
        written
            ∙ ap (λ n. (writer ++ to_be_bytes n) ++ bytes)
                (mod-eq_of_lt {n = length bytes} {m = u32_mod} (omega arith))
            ∙ append_assoc writer (to_be_bytes (length bytes)) bytes,
      )

  small_runtime_frame :
      (message : RuntimeMessage) (bytes rest : List ℕ)
      → validate message ≡ ok tt
      → c.to_allocvec message ≡ ok bytes
      → length bytes ≤ runtime_max_frame_len
      → read_runtime_frame_of c (bytes ++ rest, ok (length bytes)) ≡ (rest, ok message)
  unfolding read_runtime_frame_of finish_runtime_frame decode_runtime
  small_runtime_frame message bytes rest valid encoded fits =
      let within : ltb runtime_max_frame_len (length bytes) ≡ false = ground arith in
      rw
        (within, read_body-append bytes rest, c.from_bytes-to_allocvec message bytes encoded, valid)

  -- A message written to an empty writer is read back unchanged, whatever is written behind it, and
  -- the reader then stands behind its frame.
  pub runtime_frame_round_trip :
      (message : RuntimeMessage) (written rest : List ℕ)
      → write_runtime_frame c [] message ≡ ok written
      → read_runtime_frame c (written ++ rest) ≡ (rest, ok message)
  unfolding read_runtime_frame
  runtime_frame_round_trip message written rest h =
      let (bytes, valid, encoded, fits, appended) =
        write_runtime_frame-framed [] written message h in
      rw (appended, read_length-framed bytes rest (omega arith))
        (small_runtime_frame message bytes rest valid encoded fits)

  decode_runtime-valid :
      (bytes : List ℕ) (message : RuntimeMessage)
      → decode_runtime c bytes ≡ ok message
      → validate message ≡ ok tt
  unfolding decode_runtime
  decode_runtime-valid bytes message h =
      let (m, decoded, h₁) = >>=-eq-ok (map_err RuntimeFrameError.codec (c.from_bytes bytes)) _ h in
      let (u, valid, h₂) = >>=-eq-ok (map_err RuntimeFrameError.invalid (validate m)) _ h₁ in
      subst (λ x. validate x ≡ ok tt) (ok-injective m message h₂) (map_err-eq-ok _ _ valid)

  finish_valid :
      (x : List ℕ × Result IoError (List ℕ)) (message : RuntimeMessage)
      → (finish_runtime_frame c x).1 ≡ ok message
      → validate message ≡ ok tt
  unfolding finish_runtime_frame
  finish_valid (reader, ok bytes) message h = decode_runtime-valid bytes message h
  finish_valid (reader, err e) message h = cc
  finish_valid (reader, panic) message h = cc

  read_of_cases :
      (reader : List ℕ) (n : ℕ) (message : RuntimeMessage)
      → (read_runtime_frame_of c (reader, ok n)).1 ≡ ok message
      → (finish_runtime_frame c (read_body n reader)).1 ≡ ok message
  unfolding read_runtime_frame_of
  read_of_cases reader n message h = elim (Bool-cases (ltb runtime_max_frame_len n)) [
    | inl big ↦ absurd (refused (rw big at h))
    | inr small ↦ rw small at h
  ]
    where
      refused : ¬ (
          ◌≡◌ {A = Result (RuntimeFrameError c.Error) RuntimeMessage}
            (err (RuntimeFrameError.too_large n))
            (ok message))
      refused e = cc

  read_of_valid :
      (x : List ℕ × Result IoError ℕ) (message : RuntimeMessage)
      → (read_runtime_frame_of c x).1 ≡ ok message
      → validate message ≡ ok tt
  unfolding read_runtime_frame_of
  read_of_valid (reader, ok n) message h =
      finish_valid (read_body n reader) message (read_of_cases reader n message h)
  read_of_valid (reader, err e) message h = cc
  read_of_valid (reader, panic) message h = cc

  -- Whatever bytes arrive, a message that is read has passed validation.
  pub read_runtime_frame-valid :
      (reader : List ℕ) (message : RuntimeMessage)
      → (read_runtime_frame c reader).1 ≡ ok message
      → validate message ≡ ok tt
  unfolding read_runtime_frame
  read_runtime_frame-valid reader message h = read_of_valid (read_length reader) message h
