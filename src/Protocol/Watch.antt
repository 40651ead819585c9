-- ===== src/Protocol/Watch.antt =====
-- `apply_watch_message` and `apply_watch_server_message` of crates/nrm-protocol/src/runtime.rs.
pub mod Invariant
use nvim_remote_mirror.Prelude.{
  ℕ, not, Option, none, some, List, length, is_some, Result, ok, err, fail_if, ◌>>=◌, ◌>>◌,
}
use nvim_remote_mirror.Protocol.Types.{WorkspaceWatchEvent}
use nvim_remote_mirror.Protocol.Message.{
  RuntimeMessage, name, watch_events, watch_ack, watch_overflow,
}
use nvim_remote_mirror.Protocol.Errors.{
  RuntimeStateError, unexpected_message, watch_sequence_overflow, watch_event_before_overflow,
  watch_overflow_mismatch,
}
use nvim_remote_mirror.Protocol.Phase.{RuntimeWatchState}
use nvim_remote_mirror.Protocol.Expect.{expect_watch_id, expect_offset, apply_scalar_ack}
use nvim_remote_mirror.Protocol.Process.{add_or, gap_matches}

apply_watch_events :
    RuntimeWatchState
    → ℕ
    → ℕ
    → List WorkspaceWatchEvent
    → Result RuntimeStateError RuntimeWatchState
unfolding expect_watch_id expect_offset add_or
apply_watch_events w watch_id sequence events = do
  expect_watch_id w.watch_id watch_id
  fail_if (is_some w.gap_pending) watch_event_before_overflow
  expect_offset "watch" w.next_sequence sequence
  next ← add_or watch_sequence_overflow sequence (length events)
  ok (record w { next_sequence = next })

-- The `if let Some(expected)` and what follows it.
overflow_at :
    RuntimeWatchState → Option (ℕ × ℕ) → ℕ → ℕ → Result RuntimeStateError RuntimeWatchState
unfolding expect_offset gap_matches
overflow_at w (some expected) sequence next_sequence = do
  fail_if (not (gap_matches (some expected) sequence next_sequence)) watch_overflow_mismatch
  ok (record w { gap_pending = none })
overflow_at w none sequence next_sequence = do
  expect_offset "watch overflow" w.next_sequence sequence
  ok (record w { next_sequence = next_sequence })

apply_watch_overflow : RuntimeWatchState → ℕ → ℕ → ℕ → Result RuntimeStateError RuntimeWatchState
unfolding expect_watch_id overflow_at
apply_watch_overflow w watch_id sequence next_sequence = do
  expect_watch_id w.watch_id watch_id
  overflow_at w w.gap_pending sequence next_sequence

unfoldable pub apply_watch_server_message :
    RuntimeWatchState → RuntimeMessage → Result RuntimeStateError RuntimeWatchState
unfolding apply_watch_events apply_watch_overflow
apply_watch_server_message w (watch_events watch_id sequence events) =
    apply_watch_events w watch_id sequence events
apply_watch_server_message w (watch_overflow watch_id sequence next_sequence) =
    apply_watch_overflow w watch_id sequence next_sequence
apply_watch_server_message w m = err (unexpected_message "watching" (name m))

apply_watch_ack : RuntimeWatchState → ℕ → ℕ → Result RuntimeStateError RuntimeWatchState
unfolding expect_watch_id apply_scalar_ack
apply_watch_ack w watch_id next_sequence = do
  expect_watch_id w.watch_id watch_id
  acked ← apply_scalar_ack "watch" w.next_sequence w.acked_sequence next_sequence
  ok (record w { acked_sequence = acked })

unfoldable pub apply_watch_message :
    RuntimeWatchState → RuntimeMessage → Result RuntimeStateError RuntimeWatchState
unfolding apply_watch_ack apply_watch_server_message
apply_watch_message w (watch_ack watch_id next_sequence) = apply_watch_ack w watch_id next_sequence
apply_watch_message w m = apply_watch_server_message w m
