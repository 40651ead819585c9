-- ===== src/Protocol/Validate/Spec.antt =====
-- `validate_process_spec`, `validate_environment` and `validate_spec_for_capability` of
-- crates/nrm-protocol/src/runtime.rs. The hash set of names is the list of the names inserted so
-- far; only its membership test is used.
use nvim_remote_mirror.Prelude.{
  ◌+◌, Bool, true, false, not, Option, none, some, List, [], ◌∷◌, Text, length, is_empty, is_some,
  any, list_eq, Result, ok, err, fail_if, for_each, ◌>>=◌, ◌>>◌, ltb, ◌==◌, if◌then◌else◌,
}
use nvim_remote_mirror.Protocol.Capability.{
  RuntimeCapability, process_pipe_v1, process_pty_v1, workspace_watch_v1,
}
use nvim_remote_mirror.Protocol.Limits.{runtime_max_argv, runtime_max_env_changes}
use nvim_remote_mirror.Protocol.Types.{
  TerminalSize, RuntimePersistence, attached, detachable, RuntimeEnvVar, RuntimeEnvironment,
  RuntimeCwd, workspace_root, workspace_relative, RuntimeProcessSpec,
}
use nvim_remote_mirror.Protocol.Errors.{
  RuntimeValidationError, empty_argv, too_many_arguments, too_many_environment_changes,
  duplicate_environment_name, zero_detach_ttl, RuntimeStateError, invalid_process_spec,
}
use nvim_remote_mirror.Protocol.Validate.Fields.{
  reject_nul, reject_control, validate_env_name, validate_workspace_path, validate_terminal_size,
}

-- `names.insert(name)`: the grown set, or the duplicate's error
unfoldable pub insert_name : Text → List Text → Result RuntimeValidationError (List Text)
insert_name v names =
    if any (list_eq v) names then err (duplicate_environment_name v) else ok (v ∷ names)

unfoldable pub validate_set :
    List RuntimeEnvVar → List Text → Result RuntimeValidationError (List Text)
unfolding insert_name
validate_set [] names = ok names
validate_set (variable ∷ rest) names = do
  validate_env_name variable.name
  reject_nul "environment value" variable.value
  names' ← insert_name variable.name names
  validate_set rest names'

unfoldable pub validate_unset : List Text → List Text → Result RuntimeValidationError (List Text)
unfolding insert_name
validate_unset [] names = ok names
validate_unset (v ∷ rest) names = do
  validate_env_name v
  names' ← insert_name v names
  validate_unset rest names'

-- The two lengths are lengths of vectors in memory, so `saturating_add` adds.
unfoldable pub validate_environment : RuntimeEnvironment → Result RuntimeValidationError (Unit {0})
unfolding validate_set validate_unset
validate_environment env = do
  let changes = length env.set + length env.unset
  fail_if (ltb runtime_max_env_changes changes) (too_many_environment_changes changes)
  names ← validate_set env.set []
  _ ← validate_unset env.unset names
  ok tt

unfoldable pub validate_argument : Text → Result RuntimeValidationError (Unit {0})
unfolding reject_nul reject_control
validate_argument arg = do reject_nul "runtime argument" arg; reject_control "runtime argument" arg

unfoldable pub validate_cwd : RuntimeCwd → Result RuntimeValidationError (Unit {0})
validate_cwd workspace_root = ok tt
validate_cwd (workspace_relative path) = validate_workspace_path path

unfoldable pub validate_persistence : RuntimePersistence → Result RuntimeValidationError (Unit {0})
validate_persistence attached = ok tt
validate_persistence (detachable ttl_ms) = fail_if (ttl_ms == 0) zero_detach_ttl

unfoldable pub validate_size : Option TerminalSize → Result RuntimeValidationError (Unit {0})
validate_size none = ok tt
validate_size (some size) = validate_terminal_size size

unfoldable pub validate_process_spec : RuntimeProcessSpec → Result RuntimeValidationError (Unit {0})
unfolding validate_argument validate_cwd validate_persistence validate_size
validate_process_spec spec = do
  fail_if (is_empty spec.argv) empty_argv
  fail_if (ltb runtime_max_argv (length spec.argv)) (too_many_arguments (length spec.argv))
  for_each validate_argument spec.argv
  validate_cwd spec.cwd
  validate_environment spec.env
  validate_persistence spec.persistence
  validate_size spec.terminal_size

-- `matches!(persistence, RuntimePersistence::Attached)`
abbrev is_attached : RuntimePersistence → Bool
is_attached attached = true
is_attached (detachable _) = false

unfoldable pub validate_spec_for_capability :
    RuntimeCapability → RuntimeProcessSpec → Result RuntimeStateError (Unit {0})
validate_spec_for_capability process_pipe_v1 spec = do
  fail_if (is_some spec.terminal_size)
      (invalid_process_spec process_pipe_v1 "pipe processes must not include a terminal size")
  fail_if (not (is_attached spec.persistence))
      (invalid_process_spec process_pipe_v1 "pipe processes cannot be detachable")
validate_spec_for_capability process_pty_v1 spec = do
  fail_if (not (is_some spec.terminal_size))
      (invalid_process_spec process_pty_v1 "PTY processes require a terminal size")
  fail_if (is_some spec.max_output_bytes)
      (invalid_process_spec process_pty_v1 "PTY live streams must not include a pipe output limit")
validate_spec_for_capability workspace_watch_v1 spec =
    err (invalid_process_spec workspace_watch_v1 "watch streams cannot start processes")
