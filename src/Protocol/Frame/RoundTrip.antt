-- ===== src/Protocol/Frame/RoundTrip.antt =====
-- Frames that were written are read back, one after another; what is too long, cut short or invalid
-- is refused.
use native.Mathlib.Nat.{mod-eq_of_lt}
use nvim_remote_mirror.Prelude.{
  ℕ, ◌≤◌, ◌<◌, ◌≡◌, refl, ap, ◌∙◌, ◌%◌, append_assoc, append-nil, panic, map_err, map_err-eq-ok,
  List, [], ◌∷◌, ◌++◌, length, take-append, drop-append, u32_mod, to_be_bytes,
  from_be_bytes-to_be_bytes, Result, ok, err, >>=-eq-ok, ◌>>=◌, map_ok, false, zero, suc, ltb,
  arith,
}
use nvim_remote_mirror.Protocol.Capability.{max_frame_len}
use nvim_remote_mirror.Protocol.Frame.{
  Codec, FrameError, read_length, read_body, write_frame, finish_frame, read_frame_of, read_frame,
}

-- The bytes of one frame.
abbrev pub framed : List ℕ → List ℕ
framed bytes = to_be_bytes (length bytes) ++ bytes

pub read_length-framed :
    (bytes rest : List ℕ)
    → length bytes < u32_mod
    → read_length (framed bytes ++ rest) ≡ (bytes ++ rest, ok (length bytes))
unfolding read_length
read_length-framed bytes rest h =
    ap (λ n. (bytes ++ rest, ok n)) (from_be_bytes-to_be_bytes (length bytes) (omega arith))

pub read_body-append :
    (bytes rest : List ℕ) → read_body (length bytes) (bytes ++ rest) ≡ (rest, ok bytes)
unfolding read_body
read_body-append bytes rest = rw (take-append bytes rest, drop-append bytes rest) (ground arith)

module _ {T : Type 0} (c : Codec T) where
  -- What a successful write has appended: the frame of the serialised value, within the limit.
  write_frame-framed :
      (writer writer' : List ℕ) (value : T)
      → write_frame c writer value ≡ ok writer'
      → (bytes : List ℕ) × (c.to_allocvec value ≡ ok bytes)
        × (length bytes ≤ max_frame_len)
        × (writer' ≡ writer ++ framed bytes)
  unfolding write_frame
  write_frame-framed writer writer' value h =
      let (bytes, encoded, h₁) = >>=-eq-ok (map_err FrameError.codec (c.to_allocvec value)) _ h in
      let fits : length bytes ≤ max_frame_len = ground arith in
      let written : writer' ≡ (writer ++ to_be_bytes (length bytes % u32_mod)) ++ bytes =
        ground arith in
      (
        bytes,
        map_err-eq-ok _ _ encoded,
        fits,
        written
            ∙ ap (λ n. (writer ++ to_be_bytes n) ++ bytes)
                (mod-eq_of_lt {n = length bytes} {m = u32_mod} (omega arith))
            ∙ append_assoc writer (to_be_bytes (length bytes)) bytes,
      )

  small_frame :
      (value : T) (bytes rest : List ℕ)
      → c.to_allocvec value ≡ ok bytes
      → length bytes ≤ max_frame_len
      → read_frame_of c (bytes ++ rest, ok (length bytes)) ≡ (rest, ok value)
  unfolding read_frame_of finish_frame
  small_frame value bytes rest encoded fits =
      let within : ltb max_frame_len (length bytes) ≡ false = ground arith in
      rw (within, read_body-append bytes rest, c.from_bytes-to_allocvec value bytes encoded)

  read_frame-framed :
      (value : T) (bytes rest : List ℕ)
      → c.to_allocvec value ≡ ok bytes
      → length bytes ≤ max_frame_len
      → read_frame c (framed bytes ++ rest) ≡ (rest, ok value)
  unfolding read_frame
  read_frame-framed value bytes rest encoded fits =
      rw (read_length-framed bytes rest (omega arith)) (small_frame value bytes rest encoded fits)

  -- A sender that writes one value after another.
  unfoldable pub write_frames : List ℕ → List T → Result (FrameError c.Error) (List ℕ)
  write_frames writer [] = ok writer
  write_frames writer (value ∷ rest) = write_frame c writer value >>= λ w. write_frames w rest

  unfoldable pub prepend :
      T
      → List ℕ × Result (FrameError c.Error) (List T)
      → List ℕ × Result (FrameError c.Error) (List T)
  prepend value (reader, values) = (reader, map_ok (◌∷◌ value) values)

  -- What a receiver does with the next frame: it goes on, or stops at an error.
  unfoldable pub then_read :
      (List ℕ → List ℕ × Result (FrameError c.Error) (List T))
      → List ℕ × Result (FrameError c.Error) T
      → List ℕ × Result (FrameError c.Error) (List T)
  unfolding prepend
  then_read more (reader, ok value) = prepend value (more reader)
  then_read more (reader, err e) = (reader, err e)
  then_read more (reader, panic) = (reader, panic)

  -- A receiver that reads a number of frames.
  unfoldable pub read_frames : ℕ → List ℕ → List ℕ × Result (FrameError c.Error) (List T)
  read_frames zero reader = (reader, ok [])
  read_frames (suc n) reader = then_read (read_frames n) (read_frame c reader)

  read_frames-step :
      (n : ℕ) (reader reader' : List ℕ) (value : T)
      → read_frame c reader ≡ (reader', ok value)
      → read_frames (suc n) reader ≡ prepend value (read_frames n reader')
  unfolding read_frames then_read
  read_frames-step n reader reader' value e = ap (then_read (read_frames n)) e

  -- What a sender appended, as a suffix that any reader reads back in full.
  record Sent (writer writer' : List ℕ) (values : List T) : Type 0 where
    suffix : List ℕ
    appended : writer' ≡ writer ++ suffix
    reads : (rest : List ℕ) → read_frames (length values) (suffix ++ rest) ≡ (rest, ok values)

  write_frames-Sent :
      (writer writer' : List ℕ) (values : List T)
      → write_frames writer values ≡ ok writer'
      → Sent writer writer' values
  unfolding write_frames read_frames prepend
  write_frames-Sent writer writer' [] h = record {
    suffix = [];
    appended = ground (arith, append-nil writer);
    reads = λ rest. refl;
  }
  write_frames-Sent writer writer' (value ∷ values) h =
      let (next, wrote, h₁) = >>=-eq-ok (write_frame c writer value) _ h in
      let (bytes, encoded, fits, appended) = write_frame-framed writer next value wrote in
      let sent = write_frames-Sent next writer' values h₁ in
      record {
        suffix = framed bytes ++ sent.suffix;
        appended =
            sent.appended
            ∙ ap (λ w. w ++ sent.suffix) appended
            ∙ append_assoc writer (framed bytes) sent.suffix;
        reads = λ rest. rw (append_assoc (framed bytes) sent.suffix rest) (
            read_frames-step (length values) _ (sent.suffix ++ rest) value
              (read_frame-framed value bytes (sent.suffix ++ rest) encoded fits)
            ∙ ap (prepend value) (sent.reads rest));
      }

  -- Values written to an empty writer, whatever is written behind them, are read back in order and
  -- unchanged, and the reader then stands behind the last of them.
  pub frames_round_trip :
      (values : List T) (written rest : List ℕ)
      → write_frames [] values ≡ ok written
      → read_frames (length values) (written ++ rest) ≡ (rest, ok values)
  frames_round_trip values written rest h =
      let sent = write_frames-Sent [] written values h in rw sent.appended (sent.reads rest)
