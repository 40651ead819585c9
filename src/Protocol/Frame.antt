-- ===== src/Protocol/Frame.antt =====
-- The length-prefixed frames of crates/nrm-protocol/src/lib.rs (`write_frame`, `read_frame`) and of
-- crates/nrm-protocol/src/runtime.rs (`write_runtime_frame`, `read_runtime_frame`).
-- A writer is the bytes written so far and a reader the bytes that are still to come before the end
-- of the stream, as for `Vec<u8>` and `Cursor`; `postcard` is a parameter.
pub mod RoundTrip
pub mod Runtime
pub mod Limit
pub mod CutShort
use nvim_remote_mirror.Prelude.{
  ℕ, ◌+◌, ◌%◌, ◌≡◌, not, List, [], ◌∷◌, ◌++◌, length, take, drop, u32_mod, to_be_bytes,
  from_be_bytes, Result, ok, err, panic, fail_if, map_err, ◌>>=◌, ◌>>◌, ltb, ◌==◌, if◌then◌else◌,
}
use nvim_remote_mirror.Protocol.Capability.{max_frame_len}
use nvim_remote_mirror.Protocol.Limits.{runtime_max_frame_len}
use nvim_remote_mirror.Protocol.Message.{RuntimeMessage}
use nvim_remote_mirror.Protocol.Errors.{RuntimeValidationError}
use nvim_remote_mirror.Protocol.Validate.{validate}

-- `postcard::to_allocvec` and `postcard::from_bytes` at one type. What was serialised is read back.
pub record Codec (T : Type 0) : Type 1 where
  pub Error : Type 0
  pub to_allocvec : T → Result Error (List ℕ)
  pub from_bytes : List ℕ → Result Error T
  pub from_bytes-to_allocvec :
      (value : T) (bytes : List ℕ) → to_allocvec value ≡ ok bytes → from_bytes bytes ≡ ok value

-- The one I/O error that these readers and writers have.
pub data IoError : Type 0 where
  unexpected_eof : IoError

pub data FrameError (C : Type 0) : Type 0 where
  too_large : ℕ → FrameError C
  io : IoError → FrameError C
  codec : C → FrameError C

pub data RuntimeFrameError (C : Type 0) : Type 0 where
  too_large : ℕ → RuntimeFrameError C
  invalid : RuntimeValidationError → RuntimeFrameError C
  io : IoError → RuntimeFrameError C
  codec : C → RuntimeFrameError C

-- `read_exact` on the four bytes of the length: the length, and what is left. A failed read of a
-- slice has consumed it.
unfoldable pub read_length : List ℕ → List ℕ × Result IoError ℕ
read_length (a ∷ b ∷ c ∷ d ∷ rest) = (rest, ok (from_be_bytes a b c d))
read_length _ = ([], err unexpected_eof)

-- `take(len).read_to_end` and the test of what it read.
unfoldable pub read_body : ℕ → List ℕ → List ℕ × Result IoError (List ℕ)
read_body n reader =
    let bytes = take n reader in
    (drop n reader, if length bytes == n then ok bytes else err unexpected_eof)

module _ {T : Type 0} (c : Codec T) where
  unfoldable pub write_frame : List ℕ → T → Result (FrameError c.Error) (List ℕ)
  write_frame writer value = do
    bytes ← map_err FrameError.codec (c.to_allocvec value)
    fail_if (ltb max_frame_len (length bytes)) (FrameError.too_large (length bytes))
    ok ((writer ++ to_be_bytes (length bytes % u32_mod)) ++ bytes)

  unfoldable pub finish_frame :
      List ℕ × Result IoError (List ℕ) → List ℕ × Result (FrameError c.Error) T
  finish_frame (reader, body) = (
    reader,
    map_err FrameError.io body >>= λ bytes. map_err FrameError.codec (c.from_bytes bytes),
  )

  unfoldable pub read_frame_of : List ℕ × Result IoError ℕ → List ℕ × Result (FrameError c.Error) T
  read_frame_of (reader, ok n) =
      if ltb max_frame_len n
      then (reader, err (FrameError.too_large n))
      else finish_frame (read_body n reader)
  read_frame_of (reader, err e) = (reader, err (FrameError.io e))
  read_frame_of (reader, panic) = (reader, panic)

  unfoldable pub read_frame : List ℕ → List ℕ × Result (FrameError c.Error) T
  read_frame reader = read_frame_of (read_length reader)

module _ (c : Codec RuntimeMessage) where
  unfoldable pub write_runtime_frame :
      List ℕ → RuntimeMessage → Result (RuntimeFrameError c.Error) (List ℕ)
  write_runtime_frame writer message = do
    map_err RuntimeFrameError.invalid (validate message)
    bytes ← map_err RuntimeFrameError.codec (c.to_allocvec message)
    fail_if (ltb runtime_max_frame_len (length bytes)) (RuntimeFrameError.too_large (length bytes))
    ok ((writer ++ to_be_bytes (length bytes % u32_mod)) ++ bytes)

  unfoldable pub decode_runtime : List ℕ → Result (RuntimeFrameError c.Error) RuntimeMessage
  decode_runtime bytes = do
    message ← map_err RuntimeFrameError.codec (c.from_bytes bytes)
    map_err RuntimeFrameError.invalid (validate message)
    ok message

  unfoldable pub finish_runtime_frame :
      List ℕ × Result IoError (List ℕ) → List ℕ × Result (RuntimeFrameError c.Error) RuntimeMessage
  finish_runtime_frame (reader, body) =
      (reader, map_err RuntimeFrameError.io body >>= decode_runtime)

  unfoldable pub read_runtime_frame_of :
      List ℕ × Result IoError ℕ → List ℕ × Result (RuntimeFrameError c.Error) RuntimeMessage
  read_runtime_frame_of (reader, ok n) =
      if ltb runtime_max_frame_len n
      then (reader, err (RuntimeFrameError.too_large n))
      else finish_runtime_frame (read_body n reader)
  read_runtime_frame_of (reader, err e) = (reader, err (RuntimeFrameError.io e))
  read_runtime_frame_of (reader, panic) = (reader, panic)

  unfoldable pub read_runtime_frame :
      List ℕ → List ℕ × Result (RuntimeFrameError c.Error) RuntimeMessage
  read_runtime_frame reader = read_runtime_frame_of (read_length reader)
