-- ===== src/Sidecar/Install/Calls.antt =====
-- The calls that `run_agent_install_transaction` makes, and how far an installation has come by what
-- they have shown.
use nvim_remote_mirror.Prelude.{Bool, true, false, Option, none, some, List, [], ◌∷◌}
use nvim_remote_mirror.Sidecar.Install.{
  Outcome, done, failed, AgentInstallFinalState, target_unchanged, previous_restored,
  candidate_healthy, live_state_unknown, ActivationRecoveryKind, activation_unchanged_present,
  activation_unchanged_missing, restored_previous, removed_candidate, AgentInstallOps,
}

-- A call of an operation, and whether it went well; a reconciliation that did found something.
pub data Event : Type 0 where
  of_stage : Bool → Event
  of_validate_staged : Bool → Event
  of_ensure_activation_budget : Bool → Event
  of_activate : Bool → Event
  of_validate_activated : Bool → Event
  of_rollback : Bool → Event
  of_validate_rollback : Bool → Event
  of_reconcile_activation : Option ActivationRecoveryKind → Event
  of_validate_reconciliation : Bool → Event
  of_cleanup : Bool → Event

-- How far an installation has come, by what its calls have shown.
pub data Progress : Type 0 where
  at_start : Progress
  not_staged : Progress
  is_staged : Progress
  is_checked : Progress
  is_cleared : Progress
  -- given up before the activation, with and without what was staged
  is_given_up : Progress
  is_cleaned_up : Progress
  is_activated : Progress
  is_validated : Progress
  is_installed : Progress
  -- the activated agent did not pass, and then the target was rolled back
  is_unhealthy : Progress
  is_rolled_back : Progress
  -- the activation failed, and then it was found what it has left
  is_interrupted : Progress
  is_reconciled : ActivationRecoveryKind → Progress
  is_unchanged : Progress
  is_restored : Progress
  is_in_doubt : Progress
  out_of_order : Progress

abbrev pub recovered : ActivationRecoveryKind → Progress
recovered activation_unchanged_present = is_unchanged
recovered activation_unchanged_missing = is_unchanged
recovered restored_previous = is_restored
recovered removed_candidate = is_restored

-- The order of the calls: what is staged is activated only after its validation and with time left;
-- an activation that fails is reconciled, one that is not healthy rolled back, and both are validated
-- before they count.
abbrev pub step : Progress → Event → Progress
step at_start (of_stage true) = is_staged
step at_start (of_stage false) = not_staged
step is_staged (of_validate_staged true) = is_checked
step is_staged (of_validate_staged false) = is_given_up
step is_checked (of_ensure_activation_budget true) = is_cleared
step is_checked (of_ensure_activation_budget false) = is_given_up
step is_given_up (of_cleanup _) = is_cleaned_up
step is_cleared (of_activate true) = is_activated
step is_cleared (of_activate false) = is_interrupted
step is_activated (of_validate_activated true) = is_validated
step is_activated (of_validate_activated false) = is_unhealthy
step is_validated (of_cleanup _) = is_installed
step is_unhealthy (of_rollback true) = is_rolled_back
step is_unhealthy (of_rollback false) = is_in_doubt
step is_rolled_back (of_validate_rollback true) = is_restored
step is_rolled_back (of_validate_rollback false) = is_in_doubt
step is_interrupted (of_reconcile_activation (some kind)) = is_reconciled kind
step is_interrupted (of_reconcile_activation none) = is_in_doubt
step (is_reconciled kind) (of_validate_reconciliation true) = recovered kind
step (is_reconciled kind) (of_validate_reconciliation false) = is_in_doubt
step _ _ = out_of_order

-- The last call comes first.
abbrev pub progress : List Event → Progress
progress [] = at_start
progress (event ∷ earlier) = step (progress earlier) event

-- What is known of the target at an end; elsewhere a call is owed, or was made out of order.
abbrev pub known : Progress → Option AgentInstallFinalState
known not_staged = some target_unchanged
known is_cleaned_up = some target_unchanged
known is_unchanged = some target_unchanged
known is_restored = some previous_restored
known is_installed = some candidate_healthy
known is_in_doubt = some live_state_unknown
known _ = none

abbrev pub called {ℓ} :
    {E S : Type 0} {A : Type ℓ}
    → (Bool → Event)
    → List Event
    → Outcome E A × S
    → Outcome E A × (S × List Event)
called event earlier (done a, s) = (done a, (s, event true ∷ earlier))
called event earlier (failed error, s) = (failed error, (s, event false ∷ earlier))

abbrev pub reconciled :
    {E S A : Type 0}
    → (A → ActivationRecoveryKind)
    → List Event
    → Outcome E A × S
    → Outcome E A × (S × List Event)
reconciled kind earlier (done a, s) =
    (done a, (s, of_reconcile_activation (some (kind a)) ∷ earlier))
reconciled kind earlier (failed error, s) =
    (failed error, (s, of_reconcile_activation none ∷ earlier))

-- The same operations, which keep a trace of their calls.
abbrev pub traced : AgentInstallOps → AgentInstallOps
traced ops = record {
  State = ops.State × List Event;
  Error = ops.Error;
  StagedInstall = ops.StagedInstall;
  ActivatedInstall = ops.ActivatedInstall;
  ActivationRecovery = ops.ActivationRecovery;
  RollbackOutcome = ops.RollbackOutcome;
  is_bootstrap_timeout = ops.is_bootstrap_timeout;
  kind = ops.kind;
  staged_of = ops.staged_of;
  stage = λ s. called of_stage s.1 (ops.stage s.0);
  validate_staged = λ staged s. called of_validate_staged s.1 (ops.validate_staged staged s.0);
  ensure_activation_budget =
      λ s. called of_ensure_activation_budget s.1 (ops.ensure_activation_budget s.0);
  activate = λ staged s. called of_activate s.1 (ops.activate staged s.0);
  reconcile_activation = λ staged s. reconciled ops.kind s.1 (ops.reconcile_activation staged s.0);
  validate_reconciliation = λ recovery s.
      called of_validate_reconciliation s.1 (ops.validate_reconciliation recovery s.0);
  validate_activated =
      λ activated s. called of_validate_activated s.1 (ops.validate_activated activated s.0);
  rollback = λ activated s. called of_rollback s.1 (ops.rollback activated s.0);
  validate_rollback =
      λ rollback s. called of_validate_rollback s.1 (ops.validate_rollback rollback s.0);
  cleanup = λ staged s. called of_cleanup s.1 (ops.cleanup staged s.0);
}
