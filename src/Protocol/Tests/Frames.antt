-- ===== src/Protocol/Tests/Frames.antt =====
-- Frames over two small codecs.
use nvim_remote_mirror.Prelude.{ℕ, ◌<◌, ◌≡◌, ◌↔◌, refl, sym, List, [], ◌∷◌, Result, ok, err, arith}
use nvim_remote_mirror.Protocol.Tests.Open.{machine_open}
use nvim_remote_mirror.Protocol.Message.{RuntimeMessage, watch_stop}
use nvim_remote_mirror.Protocol.Validate.{validate}
use nvim_remote_mirror.Protocol.Frame.{
  Codec, RuntimeFrameError, unexpected_eof, write_frame, write_runtime_frame, read_runtime_frame,
  read_length, read_runtime_frame_of, finish_runtime_frame, read_body, decode_runtime,
}
use nvim_remote_mirror.Protocol.Frame.RoundTrip.{write_frames, read_frames, frames_round_trip}
use nvim_remote_mirror.Protocol.Limits.{runtime_max_frame_len}
use nvim_remote_mirror.Protocol.Frame.Limit.{Announces, read_runtime_frame-refuses}
use nvim_remote_mirror.Protocol.Frame.CutShort.{IsCutShort, read_runtime_frame-ends_early}
use nvim_remote_mirror.Protocol.Frame.Runtime.{runtime_frame_round_trip, read_runtime_frame-valid}

-- Byte strings as they are.
abbrev raw : Codec (List ℕ)
raw = record {
  Error = Unit;
  to_allocvec = λ bytes. ok bytes;
  from_bytes = λ bytes. ok bytes;
  from_bytes-to_allocvec = λ value bytes e. sym e;
}

abbrev stop_encode : RuntimeMessage → Result (Unit {0}) (List ℕ)
stop_encode (watch_stop watch_id) = ok (watch_id ∷ [])
stop_encode _ = err tt

abbrev stop_decode : List ℕ → Result (Unit {0}) RuntimeMessage
stop_decode (watch_id ∷ []) = ok (watch_stop watch_id)
stop_decode _ = err tt

stop_decode-stop_encode :
    (m : RuntimeMessage) (bytes : List ℕ) → stop_encode m ≡ ok bytes → stop_decode bytes ≡ ok m
stop_decode-stop_encode (watch_stop watch_id) [] e = cc
stop_decode-stop_encode (watch_stop watch_id) (b ∷ []) e = ground arith
stop_decode-stop_encode (watch_stop watch_id) (b ∷ d ∷ rest) e = cc
stop_decode-stop_encode _ bytes e = cc

-- One message as one byte.
abbrev stop_codec : Codec RuntimeMessage
stop_codec = record {
  Error = Unit;
  to_allocvec = stop_encode;
  from_bytes = stop_decode;
  from_bytes-to_allocvec = stop_decode-stop_encode;
}

frames_round_trip_example :
    read_frames raw 2 (0 ∷ 0 ∷ 0 ∷ 1 ∷ 65 ∷ 0 ∷ 0 ∷ 0 ∷ 2 ∷ 66 ∷ 67 ∷ 1 ∷ [])
    ≡ (1 ∷ [], ok ((65 ∷ []) ∷ (66 ∷ 67 ∷ []) ∷ []))
unfolding write_frames write_frame
frames_round_trip_example =
    frames_round_trip raw ((65 ∷ []) ∷ (66 ∷ 67 ∷ []) ∷ [])
      (0 ∷ 0 ∷ 0 ∷ 1 ∷ 65 ∷ 0 ∷ 0 ∷ 0 ∷ 2 ∷ 66 ∷ 67 ∷ []) (1 ∷ []) refl

runtime_frame_round_trip_example :
    read_runtime_frame stop_codec (0 ∷ 0 ∷ 0 ∷ 1 ∷ 42 ∷ 9 ∷ []) ≡ (9 ∷ [], ok (watch_stop 42))
unfolding machine_open write_runtime_frame
runtime_frame_round_trip_example =
    runtime_frame_round_trip stop_codec (watch_stop 42) (0 ∷ 0 ∷ 0 ∷ 1 ∷ 42 ∷ []) (9 ∷ []) refl

read_runtime_frame-valid_example : validate (watch_stop 42) ≡ ok tt
unfolding machine_open read_runtime_frame read_length read_runtime_frame_of finish_runtime_frame
    read_body decode_runtime
read_runtime_frame-valid_example =
    read_runtime_frame-valid stop_codec (0 ∷ 0 ∷ 0 ∷ 1 ∷ 42 ∷ []) (watch_stop 42) refl

read_runtime_frame-refuses_example :
    (read_runtime_frame stop_codec (1 ∷ 0 ∷ 0 ∷ 0 ∷ 42 ∷ [])
      ≡ (42 ∷ [], err (RuntimeFrameError.too_large 16777216)))
    ↔ (Announces (1 ∷ 0 ∷ 0 ∷ 0 ∷ 42 ∷ []) 16777216 (42 ∷ []) × (runtime_max_frame_len < 16777216))
read_runtime_frame-refuses_example =
    read_runtime_frame-refuses stop_codec (1 ∷ 0 ∷ 0 ∷ 0 ∷ 42 ∷ []) (42 ∷ []) 16777216

read_runtime_frame-ends_early_example :
    ((read_runtime_frame stop_codec (0 ∷ 0 ∷ 0 ∷ 3 ∷ 42 ∷ [])).1
      ≡ err (RuntimeFrameError.io unexpected_eof))
    ↔ IsCutShort (0 ∷ 0 ∷ 0 ∷ 3 ∷ 42 ∷ [])
read_runtime_frame-ends_early_example =
    read_runtime_frame-ends_early stop_codec (0 ∷ 0 ∷ 0 ∷ 3 ∷ 42 ∷ [])
