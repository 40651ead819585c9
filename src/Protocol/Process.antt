-- ===== src/Protocol/Process.antt =====
-- `apply_running_message` and `apply_running_server_message` of
-- crates/nrm-protocol/src/runtime.rs: one message on a running process. The new state stands beside
-- the returned flag. Every assignment through `&mut process` stands directly before the `Ok` of its
-- branch, so an error has no new state.
pub mod Invariant
pub mod Stream
pub mod Gap
use nvim_remote_mirror.Prelude.{
  ℕ, String, Bool, true, false, not, ◌&&◌, ◌||◌, Option, none, some, List, length, is_some,
  checked_add, Result, ok, err, fail_if, ◌>>=◌, ◌>>◌, ◌==◌,
}
use nvim_remote_mirror.Protocol.Types.{RuntimeOutputStream, stdout, stderr, pty}
use nvim_remote_mirror.Protocol.Message.{
  RuntimeMessage, name, input, input_ack, close_input, output, output_ack, output_gap, resize,
  signal, detach, exited,
}
use nvim_remote_mirror.Protocol.Errors.{
  RuntimeStateError, invalid_message, data_offset_overflow, unexpected_message, input_closed,
  wrong_output_stream, output_gap_mismatch, output_before_gap,
}
use nvim_remote_mirror.Protocol.Phase.{RuntimeProcessState, StreamOffsets}
use nvim_remote_mirror.Protocol.Expect.{
  expect_process_id, expect_offset, apply_scalar_ack, apply_ack,
}

-- `checked_add(..).ok_or(error)`
unfoldable pub add_or : RuntimeStateError → ℕ → ℕ → Result RuntimeStateError ℕ
add_or e a b = elim (checked_add a b) [ none ↦ err e | some sum ↦ ok sum ]

-- `stream_mut`: the offsets borrowed, and how they are written back.
abbrev pub Borrow : Type 0
Borrow = StreamOffsets × (StreamOffsets → RuntimeProcessState)

stream_at : RuntimeProcessState → Bool → RuntimeOutputStream → Result RuntimeStateError Borrow
stream_at p true pty = ok (p.pty_output, λ o. record p { pty_output = o })
stream_at p false stdout = ok (p.stdout, λ o. record p { stdout = o })
stream_at p false stderr = ok (p.stderr, λ o. record p { stderr = o })
stream_at p _ stream = err (wrong_output_stream stream)

unfoldable pub stream_mut :
    RuntimeProcessState → RuntimeOutputStream → Result RuntimeStateError Borrow
unfolding stream_at
stream_mut p stream = stream_at p p.pty stream

-- `gap_pending != Some((requested, available))`
unfoldable pub gap_matches : Option (ℕ × ℕ) → ℕ → ℕ → Bool
gap_matches none requested available = false
gap_matches (some (a, b)) requested available = a == requested && b == available

abbrev pub Applied : Type 0
Applied = Result RuntimeStateError (RuntimeProcessState × Bool)

apply_input_ack : RuntimeProcessState → ℕ → ℕ → Applied
unfolding expect_process_id apply_scalar_ack
apply_input_ack p process_id next_offset = do
  expect_process_id p.process_id process_id
  acked ← apply_scalar_ack "input" p.input_sent p.input_acked next_offset
  ok (record p { input_acked = acked }, false)

apply_output : RuntimeProcessState → ℕ → RuntimeOutputStream → ℕ → List ℕ → Applied
unfolding expect_process_id stream_mut expect_offset add_or
apply_output p process_id stream offset bytes = do
  expect_process_id p.process_id process_id
  fail_if (is_some p.gap_pending) output_before_gap
  offsets ← stream_mut p stream
  expect_offset "output" offsets.0.next offset
  next ← add_or (invalid_message data_offset_overflow) offset (length bytes)
  ok (offsets.1 (record (offsets.0) { next = next }), false)

apply_output_gap : RuntimeProcessState → ℕ → ℕ → ℕ → Applied
unfolding expect_process_id gap_matches
apply_output_gap p process_id requested available = do
  expect_process_id p.process_id process_id
  fail_if (not p.pty || not (gap_matches p.gap_pending requested available)) output_gap_mismatch
  ok (record p { gap_pending = none }, false)

unfoldable pub running_name : Bool → String
running_name true = "running_pty"
running_name false = "running_pipe"

unfoldable pub apply_running_server_message : RuntimeProcessState → RuntimeMessage → Applied
unfolding apply_input_ack apply_output apply_output_gap running_name
apply_running_server_message p (input_ack process_id next_offset) =
    apply_input_ack p process_id next_offset
apply_running_server_message p (output process_id stream offset bytes) =
    apply_output p process_id stream offset bytes
apply_running_server_message p (output_gap process_id requested available _) =
    apply_output_gap p process_id requested available
apply_running_server_message p (exited process_id _ _) = do
  expect_process_id p.process_id process_id
  ok (p, true)
apply_running_server_message p m = err (unexpected_message (running_name p.pty) (name m))

apply_input : RuntimeProcessState → ℕ → ℕ → List ℕ → Applied
unfolding expect_process_id expect_offset add_or
apply_input p process_id offset bytes = do
  expect_process_id p.process_id process_id
  fail_if p.input_closed input_closed
  expect_offset "input" p.input_sent offset
  sent ← add_or (invalid_message data_offset_overflow) offset (length bytes)
  ok (record p { input_sent = sent }, false)

apply_close_input : RuntimeProcessState → ℕ → ℕ → Applied
unfolding expect_process_id expect_offset
apply_close_input p process_id next_offset = do
  expect_process_id p.process_id process_id
  fail_if p.input_closed input_closed
  expect_offset "input close" p.input_sent next_offset
  ok (record p { input_closed = true }, false)

apply_output_ack : RuntimeProcessState → ℕ → RuntimeOutputStream → ℕ → Applied
unfolding expect_process_id stream_mut apply_ack
apply_output_ack p process_id stream next_offset = do
  expect_process_id p.process_id process_id
  fail_if (is_some p.gap_pending) output_before_gap
  offsets ← stream_mut p stream
  offsets' ← apply_ack "output" offsets.0 next_offset
  ok (offsets.1 offsets', false)

unfoldable pub apply_running_message : RuntimeProcessState → RuntimeMessage → Applied
unfolding apply_input apply_close_input apply_output_ack apply_running_server_message
apply_running_message p (input process_id offset bytes) = apply_input p process_id offset bytes
apply_running_message p (close_input process_id next_offset) =
    apply_close_input p process_id next_offset
apply_running_message p (output_ack process_id stream next_offset) =
    apply_output_ack p process_id stream next_offset
apply_running_message p (resize process_id _) = do
  expect_process_id p.process_id process_id
  fail_if (not p.pty) (unexpected_message "running_pipe" "resize")
  ok (p, false)
apply_running_message p (signal process_id _) = do
  expect_process_id p.process_id process_id
  ok (p, false)
apply_running_message p (detach process_id) = do
  expect_process_id p.process_id process_id
  fail_if (not p.pty || not (is_some p.session_id)) (unexpected_message "running_pipe" "detach")
  ok (p, false)
apply_running_message p m = apply_running_server_message p m
