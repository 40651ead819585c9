-- ===== src/Protocol/Watch/Invariant.antt =====
-- What holds of a watch's sequence numbers at all times.
use nvim_remote_mirror.Prelude.{◌≤◌, ◌<◌, ◌≡◌, ok, arith, u64_mod}
use nvim_remote_mirror.Protocol.Message.{RuntimeMessage, watch_events, watch_ack, watch_overflow}
use nvim_remote_mirror.Protocol.Message.Wire.{IsWire}
use nvim_remote_mirror.Protocol.Validate.{validate}
use nvim_remote_mirror.Protocol.Phase.{RuntimeWatchState}
use nvim_remote_mirror.Protocol.Process.Invariant.{GapEndsAt}
use nvim_remote_mirror.Protocol.Watch.{apply_watch_message}

pub record IsSound (w : RuntimeWatchState) : Type 0 where
  pub acked_sent : w.acked_sequence ≤ w.next_sequence
  pub fits : w.next_sequence < u64_mod
  pub gap_end : GapEndsAt w.gap_pending w.next_sequence

pub record Follows (w x : RuntimeWatchState) : Type 0 where
  pub sound : IsSound x
  pub same_watch : x.watch_id ≡ w.watch_id
  pub next_grows : w.next_sequence ≤ x.next_sequence
  pub acked_grows : w.acked_sequence ≤ x.acked_sequence

module _ (w : RuntimeWatchState) {x : RuntimeWatchState} (v : IsSound w) where
  -- A valid message, its numbers within 64 bits, that a sound watch takes leaves a sound watch with
  -- the same identity: neither the next nor the acknowledged sequence number has gone back.
  pub apply_watch_message-Follows :
      (m : RuntimeMessage)
      → IsWire m
      → validate m ≡ ok tt
      → apply_watch_message w m ≡ ok x
      → Follows w x
  unfolding validate apply_watch_message
  apply_watch_message-Follows (watch_events watch_id sequence events) f g h = ground arith
  apply_watch_message-Follows (watch_ack watch_id next_sequence) f g h = ground arith
  apply_watch_message-Follows (watch_overflow watch_id sequence next_sequence) f g h = ground arith
  apply_watch_message-Follows _ f g h = ground arith
