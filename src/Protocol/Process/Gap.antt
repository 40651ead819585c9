-- ===== src/Protocol/Process/Gap.antt =====
-- A replay gap after `AttachPty`: nothing is delivered or acknowledged before its marker.
use nvim_remote_mirror.Prelude.{ℕ, ◌≡◌, ◌⊎◌, Bool, true, false, none, some, ok, arith}
use nvim_remote_mirror.Protocol.Message.{
  RuntimeMessage, input, close_input, output, output_ack, output_gap,
}
use nvim_remote_mirror.Protocol.Phase.{RuntimeProcessState}
use nvim_remote_mirror.Protocol.Process.{apply_running_message}

abbrev pub is_output_or_ack : RuntimeMessage → Bool
is_output_or_ack (output _ _ _ _) = true
is_output_or_ack (output_ack _ _ _) = true
is_output_or_ack _ = false

-- The marker of the gap from `a` to `b`.
abbrev pub IsMarker : RuntimeProcessState → ℕ → ℕ → RuntimeMessage → Type 0
IsMarker p a b (output_gap process_id requested available _) =
    (process_id ≡ p.process_id) × (requested ≡ a) × (available ≡ b)
IsMarker p a b _ = ⊥

-- While a replay gap from `a` to `b` is pending, a message that is taken is neither output nor its
-- acknowledgement; it leaves the PTY's offsets alone; and the gap stays, unless the message is the
-- marker of that very gap, which ends it.
pub gap_first :
    (p q : RuntimeProcessState) (done : Bool) (a b : ℕ) (m : RuntimeMessage)
    → p.gap_pending ≡ some (a, b)
    → apply_running_message p m ≡ ok (q, done)
    → (is_output_or_ack m ≡ false)
      × (q.pty_output ≡ p.pty_output)
      × ((q.gap_pending ≡ some (a, b)) ⊎ (IsMarker p a b m × (q.gap_pending ≡ none)))
unfolding apply_running_message
gap_first p q done a b (input _ _ _) g h = ground arith
gap_first p q done a b (close_input _ _) g h = ground arith
gap_first p q done a b (output _ _ _ _) g h = ground arith
gap_first p q done a b (output_ack _ _ _) g h = ground arith
gap_first p q done a b (output_gap _ _ _ _) g h = ground arith
gap_first p q done a b _ g h = ground arith
