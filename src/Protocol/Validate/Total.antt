-- ===== src/Protocol/Validate/Total.antt =====
-- Validation ends in `Ok` or in an error: it has no panic.
use nvim_remote_mirror.Prelude.{
  ◌≢◌, Option, none, some, List, [], ◌∷◌, Text, Result, panic, for_each, fail_if-ne-panic,
  bind-ne-panic, arith,
}
use nvim_remote_mirror.Protocol.Types.{
  TerminalSize, RuntimeEnvVar, RuntimeEnvironment, RuntimeProcessSpec, WorkspaceWatchEvent,
  WorkspaceWatchEventKind, renamed, RuntimeCwd, RuntimePersistence, workspace_root,
  workspace_relative, attached, detachable,
}
use nvim_remote_mirror.Protocol.Message.{
  RuntimeMessage, client_hello, server_hello, error, start_process, process_started, attach_pty,
  pty_attached, input, output, output_gap, resize, detached, watch_events, watch_overflow,
}
use nvim_remote_mirror.Protocol.Validate.Fields.{
  reject_nul, validate_package_version, validate_env_name, validate_workspace_path,
  validate_terminal_size, validate_nonzero_id, validate_credentials, validate_optional_data_chunk,
  validate_data_chunk,
}
use nvim_remote_mirror.Protocol.Validate.Spec.{
  validate_set, validate_unset, validate_environment, validate_argument, validate_cwd,
  validate_persistence, validate_size, validate_process_spec,
}
use nvim_remote_mirror.Protocol.Validate.{
  validate, validate_error, validate_session, validate_event, validate_event_kind,
  validate_watch_events,
}

for_each-ne-panic {ℓ μ} :
    {E : Type μ} {A : Type ℓ} (f : A → Result E (Unit {0})) (xs : List A)
    → ((x : A) → f x ≢ panic)
    → for_each f xs ≢ panic
for_each-ne-panic f [] k h = cc
for_each-ne-panic f (x ∷ xs) k h = bind-ne-panic (f x) _ (k x) (λ _. for_each-ne-panic f xs k) h

pub path_ne_panic : (path : Text) → validate_workspace_path path ≢ panic
unfolding validate_workspace_path
path_ne_panic path h = ground arith

pub size_ne_panic : (size : TerminalSize) → validate_terminal_size size ≢ panic
unfolding validate_terminal_size
size_ne_panic size h = ground arith

set_ne_panic : (vars : List RuntimeEnvVar) (names : List Text) → validate_set vars names ≢ panic
unfolding validate_set reject_nul validate_env_name
set_ne_panic [] names h = cc
set_ne_panic (v ∷ vars) names h = ground (arith, set_ne_panic vars (v.name ∷ names))

unset_ne_panic : (vars names : List Text) → validate_unset vars names ≢ panic
unfolding validate_unset validate_env_name
unset_ne_panic [] names h = cc
unset_ne_panic (v ∷ vars) names h = ground (arith, unset_ne_panic vars (v ∷ names))

pub environment_ne_panic : (env : RuntimeEnvironment) → validate_environment env ≢ panic
unfolding validate_environment
environment_ne_panic env = bind-ne-panic _ _ (fail_if-ne-panic _ _) λ _.
    bind-ne-panic _ _ (set_ne_panic env.set [])
      λ names. bind-ne-panic _ _ (unset_ne_panic env.unset names) (λ _ e. cc)

argument_ne_panic : (arg : Text) → validate_argument arg ≢ panic
unfolding validate_argument
argument_ne_panic arg h = ground arith

cwd_ne_panic : (cwd : RuntimeCwd) → validate_cwd cwd ≢ panic
unfolding validate_cwd
cwd_ne_panic workspace_root h = cc
cwd_ne_panic (workspace_relative path) h = path_ne_panic path h

persistence_ne_panic : (p : RuntimePersistence) → validate_persistence p ≢ panic
unfolding validate_persistence
persistence_ne_panic attached h = cc
persistence_ne_panic (detachable ttl_ms) h = ground arith

optional_size_ne_panic : (size : Option TerminalSize) → validate_size size ≢ panic
unfolding validate_size
optional_size_ne_panic none h = cc
optional_size_ne_panic (some size) h = size_ne_panic size h

spec_ne_panic : (spec : RuntimeProcessSpec) → validate_process_spec spec ≢ panic
unfolding validate_process_spec
spec_ne_panic spec h = ground (
  arith,
  for_each-ne-panic validate_argument spec.argv argument_ne_panic,
  cwd_ne_panic spec.cwd,
  environment_ne_panic spec.env,
  persistence_ne_panic spec.persistence,
  optional_size_ne_panic spec.terminal_size,
)

event_ne_panic : (event : WorkspaceWatchEvent) → validate_event event ≢ panic
unfolding validate_event
event_ne_panic event = bind-ne-panic _ _ (path_ne_panic event.path) (λ _. kind_ne_panic event.kind)
  where
    kind_ne_panic : (kind : WorkspaceWatchEventKind) → validate_event_kind kind ≢ panic
    kind_ne_panic (renamed to) h = path_ne_panic to h
    kind_ne_panic _ h = cc

watch_events_ne_panic : (events : List WorkspaceWatchEvent) → validate_watch_events events ≢ panic
unfolding validate_watch_events
watch_events_ne_panic events h =
    ground (arith, for_each-ne-panic validate_event events event_ne_panic)

pub validate-ne-panic : (m : RuntimeMessage) → validate m ≢ panic
unfolding validate validate_error validate_session validate_package_version validate_credentials
    validate_nonzero_id validate_data_chunk validate_optional_data_chunk reject_nul
validate-ne-panic (client_hello package_version _ _) h = ground arith
validate-ne-panic (server_hello package_version _ _) h = ground arith
validate-ne-panic (error e) h = ground arith
validate-ne-panic (start_process _ spec) h = spec_ne_panic spec h
validate-ne-panic (process_started _ _ none _) h = cc
validate-ne-panic (process_started _ _ (some session) _) h = ground arith
validate-ne-panic (attach_pty _ credentials _) h = ground arith
validate-ne-panic (pty_attached _ _ session_id _) h = ground arith
validate-ne-panic (detached _ session_id) h = ground arith
validate-ne-panic (input _ offset bytes) h = ground arith
validate-ne-panic (output _ _ offset bytes) h = ground arith
validate-ne-panic (output_gap _ requested available snapshot) h = ground arith
validate-ne-panic (resize _ size) h = size_ne_panic size h
validate-ne-panic (watch_events _ _ events) h = watch_events_ne_panic events h
validate-ne-panic (watch_overflow _ sequence next_sequence) h = ground arith
validate-ne-panic _ h = cc
