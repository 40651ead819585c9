-- ===== src/Protocol/Expect.antt =====
-- The small checks at the end of crates/nrm-protocol/src/runtime.rs: `expect_request_id` to
-- `apply_scalar_ack`.
use nvim_remote_mirror.Prelude.{ℕ, String, not, Result, ok, fail_if, ◌>>=◌, ◌>>◌, ltb, ◌==◌}
use nvim_remote_mirror.Protocol.Errors.{
  RuntimeStateError, request_id_mismatch, process_id_mismatch, watch_id_mismatch, offset_mismatch,
  ack_regressed, ack_beyond_sent,
}
use nvim_remote_mirror.Protocol.Phase.{StreamOffsets}

unfoldable pub expect_request_id : ℕ → ℕ → Result RuntimeStateError (Unit {0})
expect_request_id expected actual =
    fail_if (not (expected == actual)) (request_id_mismatch expected actual)

unfoldable pub expect_process_id : ℕ → ℕ → Result RuntimeStateError (Unit {0})
expect_process_id expected actual =
    fail_if (not (expected == actual)) (process_id_mismatch expected actual)

unfoldable pub expect_watch_id : ℕ → ℕ → Result RuntimeStateError (Unit {0})
expect_watch_id expected actual =
    fail_if (not (expected == actual)) (watch_id_mismatch expected actual)

unfoldable pub expect_offset : String → ℕ → ℕ → Result RuntimeStateError (Unit {0})
expect_offset channel expected actual =
    fail_if (not (expected == actual)) (offset_mismatch channel expected actual)

-- The new value of `*previous`.
unfoldable pub apply_scalar_ack : String → ℕ → ℕ → ℕ → Result RuntimeStateError ℕ
apply_scalar_ack channel sent previous actual = do
  fail_if (ltb actual previous) (ack_regressed channel previous actual)
  fail_if (ltb sent actual) (ack_beyond_sent channel sent actual)
  ok actual

unfoldable pub apply_ack : String → StreamOffsets → ℕ → Result RuntimeStateError StreamOffsets
unfolding apply_scalar_ack
apply_ack channel offsets actual = do
  acked ← apply_scalar_ack channel offsets.next offsets.acked actual
  ok (record offsets { acked = acked })
