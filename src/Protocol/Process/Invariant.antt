-- ===== src/Protocol/Process/Invariant.antt =====
-- What holds of a running process's offsets at all times.
use nvim_remote_mirror.Prelude.{
  ℕ, ◌≤◌, ◌<◌, ◌≡◌, Bool, true, false, Option, none, some, List, ok, arith, u64_mod,
}
use nvim_remote_mirror.Protocol.Types.{RuntimeOutputStream}
use nvim_remote_mirror.Protocol.Message.{
  RuntimeMessage, input, input_ack, close_input, output, output_ack, output_gap, resize, signal,
  detach,
}
use nvim_remote_mirror.Protocol.Phase.{RuntimeProcessState, StreamOffsets, new_pipe, new_pty}
use nvim_remote_mirror.Protocol.Process.{
  apply_running_message, apply_running_server_message, apply_input, apply_input_ack,
  apply_close_input, apply_output, apply_output_ack, apply_output_gap,
}

-- What was acknowledged was sent, and what was sent has an offset of 64 bits.
pub record InRange (o : StreamOffsets) : Type 0 where
  pub acked_sent : o.acked ≤ o.next
  pub fits : o.next < u64_mod

-- A pending gap ends where the stream stands, and nothing has been acknowledged past it.
abbrev pub GapEndsAt : Option (ℕ × ℕ) → ℕ → Type 0
GapEndsAt none n = Unit
GapEndsAt (some (requested, available)) n = (requested < available) × (available ≡ n)

-- A pipe has no session, no gap and no PTY output; a PTY has no other output.
abbrev pub Shape : Bool → RuntimeProcessState → Type 0
Shape true p = (p.stdout.next ≡ 0) × (p.stderr.next ≡ 0)
Shape false p = (p.session_id ≡ none) × (p.gap_pending ≡ none) × (p.pty_output.next ≡ 0)

pub record IsSound (p : RuntimeProcessState) : Type 0 where
  pub input_acked_sent : p.input_acked ≤ p.input_sent
  pub input_fits : p.input_sent < u64_mod
  pub stdout_range : InRange p.stdout
  pub stderr_range : InRange p.stderr
  pub pty_range : InRange p.pty_output
  pub gap_end : GapEndsAt p.gap_pending p.pty_output.next
  pub shape : Shape p.pty p

pub new_pipe-IsSound : (process_id : ℕ) → IsSound (new_pipe process_id)
unfolding new_pipe
new_pipe-IsSound process_id = ground arith

pub new_pty-IsSound :
    (process_id : ℕ) (session_id : Option (List ℕ)) (output_offset : ℕ) (gap : Option (ℕ × ℕ))
    → output_offset < u64_mod
    → GapEndsAt gap output_offset
    → IsSound (new_pty process_id session_id output_offset gap)
unfolding new_pty
new_pty-IsSound process_id session_id output_offset gap h g = ground arith

-- A closed input stays closed, and takes no bytes.
abbrev pub Closes : Bool → RuntimeProcessState → RuntimeProcessState → Type 0
Closes true p q = (q.input_closed ≡ true) × (q.input_sent ≡ p.input_sent)
Closes false p q = Unit

-- What a message leaves alone, and what only grows.
pub record Advances (p q : RuntimeProcessState) : Type 0 where
  pub same_process : q.process_id ≡ p.process_id
  pub same_pty : q.pty ≡ p.pty
  pub same_session : q.session_id ≡ p.session_id
  pub input_sent_grows : p.input_sent ≤ q.input_sent
  pub input_acked_grows : p.input_acked ≤ q.input_acked
  pub stdout_grows : p.stdout.next ≤ q.stdout.next
  pub stderr_grows : p.stderr.next ≤ q.stderr.next
  pub pty_grows : p.pty_output.next ≤ q.pty_output.next
  pub stdout_acked_grows : p.stdout.acked ≤ q.stdout.acked
  pub stderr_acked_grows : p.stderr.acked ≤ q.stderr.acked
  pub pty_acked_grows : p.pty_output.acked ≤ q.pty_output.acked
  pub stays_closed : Closes p.input_closed p q

-- Two states that follow one another under an accepted message.
pub record Follows (p q : RuntimeProcessState) : Type 0 where
  pub sound : IsSound q
  pub advances : Advances p q

module _ (p : RuntimeProcessState) {q : RuntimeProcessState} {b : Bool} (v : IsSound p) where
  apply_output-Follows :
      (process_id : ℕ) (stream : RuntimeOutputStream) (offset : ℕ) (bytes : List ℕ)
      → apply_output p process_id stream offset bytes ≡ ok (q, b)
      → Follows p q
  unfolding apply_output
  apply_output-Follows process_id stream offset bytes h = ground arith

  apply_output_ack-Follows :
      (process_id : ℕ) (stream : RuntimeOutputStream) (next_offset : ℕ)
      → apply_output_ack p process_id stream next_offset ≡ ok (q, b)
      → Follows p q
  unfolding apply_output_ack
  apply_output_ack-Follows process_id stream next_offset h = ground arith

  apply_output_gap-Follows :
      (process_id requested available : ℕ)
      → apply_output_gap p process_id requested available ≡ ok (q, b)
      → Follows p q
  unfolding apply_output_gap
  apply_output_gap-Follows process_id requested available h = ground arith

  apply_input-Follows :
      (process_id offset : ℕ) (bytes : List ℕ)
      → apply_input p process_id offset bytes ≡ ok (q, b)
      → Follows p q
  unfolding apply_input
  apply_input-Follows process_id offset bytes h = ground arith

  apply_input_ack-Follows :
      (process_id next_offset : ℕ)
      → apply_input_ack p process_id next_offset ≡ ok (q, b)
      → Follows p q
  unfolding apply_input_ack
  apply_input_ack-Follows process_id next_offset h = ground arith

  apply_close_input-Follows :
      (process_id next_offset : ℕ)
      → apply_close_input p process_id next_offset ≡ ok (q, b)
      → Follows p q
  unfolding apply_close_input
  apply_close_input-Follows process_id next_offset h = ground arith

  pub apply_running_server_message-Follows :
      (m : RuntimeMessage) → apply_running_server_message p m ≡ ok (q, b) → Follows p q
  unfolding apply_running_server_message
  apply_running_server_message-Follows (input_ack process_id next_offset) h =
      apply_input_ack-Follows process_id next_offset h
  apply_running_server_message-Follows (output process_id stream offset bytes) h =
      apply_output-Follows process_id stream offset bytes h
  apply_running_server_message-Follows (output_gap process_id requested available _) h =
      apply_output_gap-Follows process_id requested available h
  apply_running_server_message-Follows _ h = ground arith

  -- A message that a sound process takes leaves a sound process with the same identity: no offset
  -- and no acknowledgement has gone back, and a closed input has stayed closed and where it was.
  pub apply_running_message-Follows :
      (m : RuntimeMessage) → apply_running_message p m ≡ ok (q, b) → Follows p q
  unfolding apply_running_message
  apply_running_message-Follows (input process_id offset bytes) h =
      apply_input-Follows process_id offset bytes h
  apply_running_message-Follows (close_input process_id next_offset) h =
      apply_close_input-Follows process_id next_offset h
  apply_running_message-Follows (output_ack process_id stream next_offset) h =
      apply_output_ack-Follows process_id stream next_offset h
  apply_running_message-Follows (resize process_id size) h = ground arith
  apply_running_message-Follows (signal process_id sig) h = ground arith
  apply_running_message-Follows (detach process_id) h = ground arith
  apply_running_message-Follows (input_ack process_id next_offset) h =
      apply_input_ack-Follows process_id next_offset h
  apply_running_message-Follows (output process_id stream offset bytes) h =
      apply_output-Follows process_id stream offset bytes h
  apply_running_message-Follows (output_gap process_id requested available _) h =
      apply_output_gap-Follows process_id requested available h
  apply_running_message-Follows _ h = ground arith
