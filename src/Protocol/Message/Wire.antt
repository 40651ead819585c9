-- ===== src/Protocol/Message/Wire.antt =====
-- The ranges of the integers in a decoded message: every `u64` field of `RuntimeMessage`.
use nvim_remote_mirror.Prelude.{ℕ, ◌<◌, Option, none, some, u64_mod}
use nvim_remote_mirror.Protocol.Message.{
  RuntimeMessage, start_process, process_started, attach_pty, pty_attached, input, input_ack,
  close_input, output, output_ack, output_gap, resize, signal, detach, detached, exited,
  watch_start, watch_started, watch_events, watch_ack, watch_overflow, watch_stop, watch_stopped,
}

abbrev pub Fits : ℕ → Type 0
Fits n = n < u64_mod

abbrev pub OptionFits : Option ℕ → Type 0
OptionFits none = Unit
OptionFits (some n) = Fits n

abbrev pub IsWire : RuntimeMessage → Type 0
IsWire (start_process request_id _) = Fits request_id
IsWire (process_started request_id process_id _ output_offset) =
    Fits request_id × Fits process_id × Fits output_offset
IsWire (attach_pty request_id _ replay_from) = Fits request_id × OptionFits replay_from
IsWire (pty_attached request_id process_id _ output_offset) =
    Fits request_id × Fits process_id × Fits output_offset
IsWire (input process_id offset _) = Fits process_id × Fits offset
IsWire (input_ack process_id next_offset) = Fits process_id × Fits next_offset
IsWire (close_input process_id next_offset) = Fits process_id × Fits next_offset
IsWire (output process_id _ offset _) = Fits process_id × Fits offset
IsWire (output_ack process_id _ next_offset) = Fits process_id × Fits next_offset
IsWire (output_gap process_id requested available _) =
    Fits process_id × Fits requested × Fits available
IsWire (resize process_id _) = Fits process_id
IsWire (signal process_id _) = Fits process_id
IsWire (detach process_id) = Fits process_id
IsWire (detached process_id _) = Fits process_id
IsWire (exited process_id _ _) = Fits process_id
IsWire (watch_start request_id resume_from) = Fits request_id × OptionFits resume_from
IsWire (watch_started request_id watch_id next_sequence) =
    Fits request_id × Fits watch_id × Fits next_sequence
IsWire (watch_events watch_id sequence _) = Fits watch_id × Fits sequence
IsWire (watch_ack watch_id next_sequence) = Fits watch_id × Fits next_sequence
IsWire (watch_overflow watch_id sequence next_sequence) =
    Fits watch_id × Fits sequence × Fits next_sequence
IsWire (watch_stop watch_id) = Fits watch_id
IsWire (watch_stopped watch_id) = Fits watch_id
IsWire _ = Unit
