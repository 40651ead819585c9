-- ===== src/Protocol/Phase.antt =====
-- `RuntimePhase`, `RuntimeProcessState` and `RuntimeWatchState` of
-- crates/nrm-protocol/src/runtime.rs.
use nvim_remote_mirror.Prelude.{ℕ, String, Bool, true, false, Option, none, some, List}
use nvim_remote_mirror.Protocol.Capability.{
  RuntimeCapability, process_pipe_v1, process_pty_v1, workspace_watch_v1,
}
use nvim_remote_mirror.Protocol.Types.{RuntimePersistence}

pub record StreamOffsets : Type 0 where
  pub next : ℕ
  pub acked : ℕ

-- `StreamOffsets::default()`
abbrev pub zero_offsets : StreamOffsets
zero_offsets = record { next = 0; acked = 0 }

pub record RuntimeProcessState : Type 0 where
  pub process_id : ℕ
  pub pty : Bool
  pub session_id : Option (List ℕ)
  pub input_sent : ℕ
  pub input_acked : ℕ
  pub input_closed : Bool
  pub stdout : StreamOffsets
  pub stderr : StreamOffsets
  pub pty_output : StreamOffsets
  pub gap_pending : Option (ℕ × ℕ)

unfoldable pub new_pipe : ℕ → RuntimeProcessState
new_pipe process_id = record {
  process_id = process_id;
  pty = false;
  session_id = none;
  input_sent = 0;
  input_acked = 0;
  input_closed = false;
  stdout = zero_offsets;
  stderr = zero_offsets;
  pty_output = zero_offsets;
  gap_pending = none;
}

unfoldable pub new_pty : ℕ → Option (List ℕ) → ℕ → Option (ℕ × ℕ) → RuntimeProcessState
new_pty process_id session_id output_offset gap_pending = record {
  process_id = process_id;
  pty = true;
  session_id = session_id;
  input_sent = 0;
  input_acked = 0;
  input_closed = false;
  stdout = zero_offsets;
  stderr = zero_offsets;
  pty_output = record { next = output_offset; acked = output_offset };
  gap_pending = gap_pending;
}

pub record RuntimeWatchState : Type 0 where
  pub watch_id : ℕ
  pub next_sequence : ℕ
  pub acked_sequence : ℕ
  pub gap_pending : Option (ℕ × ℕ)

pub data RuntimePhase : Type 0 where
  await_client_hello : RuntimePhase
  await_server_hello ready : RuntimeCapability → RuntimePhase
  await_process_started :
      (capability : RuntimeCapability) (request_id : ℕ) (persistence : RuntimePersistence)
      → RuntimePhase
  await_pty_attached :
      (request_id : ℕ) (session_id : List ℕ) (replay_from : Option ℕ) → RuntimePhase
  running await_detached : RuntimeProcessState → RuntimePhase
  await_watch_started : (request_id : ℕ) (resume_from : Option ℕ) → RuntimePhase
  watching await_watch_stopped : RuntimeWatchState → RuntimePhase
  closed : RuntimePhase

process_capability : Bool → RuntimeCapability
process_capability true = process_pty_v1
process_capability false = process_pipe_v1

-- `RuntimePhase::capability`
unfoldable pub phase_capability : RuntimePhase → Option RuntimeCapability
unfolding process_capability
phase_capability await_client_hello = none
phase_capability closed = none
phase_capability (await_server_hello capability) = some capability
phase_capability (ready capability) = some capability
phase_capability (await_process_started capability _ _) = some capability
phase_capability (await_pty_attached _ _ _) = some process_pty_v1
phase_capability (running process) = some (process_capability process.pty)
phase_capability (await_detached process) = some (process_capability process.pty)
phase_capability (await_watch_started _ _) = some workspace_watch_v1
phase_capability (watching _) = some workspace_watch_v1
phase_capability (await_watch_stopped _) = some workspace_watch_v1

-- `RuntimePhase::name`
unfoldable pub phase_name : RuntimePhase → String
phase_name await_client_hello = "await_client_hello"
phase_name (await_server_hello _) = "await_server_hello"
phase_name (ready _) = "ready"
phase_name (await_process_started _ _ _) = "await_process_started"
phase_name (await_pty_attached _ _ _) = "await_pty_attached"
phase_name (running _) = "running"
phase_name (await_detached _) = "await_detached"
phase_name (await_watch_started _ _) = "await_watch_started"
phase_name (watching _) = "watching"
phase_name (await_watch_stopped _) = "await_watch_stopped"
phase_name closed = "closed"
