-- ===== src/Sidecar/StderrTail.antt =====
-- `append_agent_stderr_tail` of crates/nrm-sidecar/src/main.rs, and the loop that feeds it with what
-- each `read` on the agent's standard error gives.
pub mod Kept
mod Tests
use nvim_remote_mirror.Prelude.{
  ℕ, zero, suc, ◌+◌, ◌-◌, ◌*◌, Bool, true, false, ◌||◌, Option, none, some, Text, List, [], ◌∷◌,
  ◌++◌, length, drop, leb, ltb, if◌then◌else◌, u64_mod,
}

abbrev pub agent_stderr_tail_max_bytes : ℕ
agent_stderr_tail_max_bytes = 64 * 1024

-- The size of the reader's buffer.
abbrev pub buffer_bytes : ℕ
buffer_bytes = 8 * 1024

pub record AgentStderrTailState : Type 0 where
  pub bytes : List ℕ
  pub truncated : Bool
  pub read_error : Option Text

-- What a `read` on the standard error gives: no bytes at the end of the stream, or an error with its
-- text.
pub data StderrRead : Type 0 where
  bytes_read : List ℕ → StderrRead
  failed_read : Text → StderrRead

abbrev pub no_stderr : AgentStderrTailState
no_stderr = record { bytes = []; truncated = false; read_error = none }

abbrev saturating_add : ℕ → ℕ → ℕ
saturating_add m n = if leb u64_mod (m + n) then u64_mod - 1 else m + n

unfoldable pub append_agent_stderr_tail : AgentStderrTailState → List ℕ → AgentStderrTailState
append_agent_stderr_tail state bytes =
    let excess = saturating_add (length state.bytes) (length bytes) - agent_stderr_tail_max_bytes in
    if leb agent_stderr_tail_max_bytes (length bytes)
    then record state {
      bytes = drop (length bytes - agent_stderr_tail_max_bytes) bytes;
      truncated = true;
    }
    else if ltb 0 excess
    then record state { bytes = drop excess state.bytes ++ bytes; truncated = true }
    else record state { bytes = state.bytes ++ bytes }

-- The loop of the reader over what its reads give, one after the other.
unfoldable pub read_stderr : AgentStderrTailState → List StderrRead → AgentStderrTailState
unfolding append_agent_stderr_tail
read_stderr state [] = state
read_stderr state (bytes_read [] ∷ reads) = state
read_stderr state (bytes_read (b ∷ bytes) ∷ reads) =
    read_stderr (append_agent_stderr_tail state (b ∷ bytes)) reads
read_stderr state (failed_read error ∷ reads) = record state { read_error = some error }
