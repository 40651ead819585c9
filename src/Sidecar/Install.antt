-- ===== src/Sidecar/Install.antt =====
-- `run_agent_install_transaction` of crates/nrm-sidecar/src/main.rs. The trait
-- `AgentInstallOps` is a record whose operations pass a state on, and an error is a value of which only
-- `is_bootstrap_timeout` is asked. The texts of the messages are left out.
pub mod Timeouts
pub mod Calls
pub mod Justified
mod Tests
use nvim_remote_mirror.Prelude.{
  Bool, true, false, not, ◌||◌, ◌&&◌, Text, codes, list_eq, if◌then◌else◌,
}

-- `Result<T>` with `anyhow::Error`
pub data Outcome {ℓ κ} (E : Type κ) (A : Type ℓ) : Type (ℓ ⊔ κ) where
  done : A → Outcome E A
  failed : E → Outcome E A

pub data AgentInstallFinalState : Type 0 where
  target_unchanged : AgentInstallFinalState
  previous_restored : AgentInstallFinalState
  candidate_healthy : AgentInstallFinalState
  live_state_unknown : AgentInstallFinalState

pub data ActivationRecoveryKind : Type 0 where
  activation_unchanged_present : ActivationRecoveryKind
  activation_unchanged_missing : ActivationRecoveryKind
  restored_previous : ActivationRecoveryKind
  removed_candidate : ActivationRecoveryKind

pub record AgentInstallTransactionError : Type 0 where
  pub final_state : AgentInstallFinalState
  pub bootstrap_timeout : Bool

pub record AgentInstallOps : Type 1 where
  pub State : Type 0
  pub Error : Type 0
  pub StagedInstall : Type 0
  pub ActivatedInstall : Type 0
  pub ActivationRecovery : Type 0
  pub RollbackOutcome : Type 0
  pub is_bootstrap_timeout : Error → Bool
  -- the fields `kind` of a recovery and `staged` of an activated install
  pub kind : ActivationRecovery → ActivationRecoveryKind
  pub staged_of : ActivatedInstall → StagedInstall
  pub stage : State → Outcome Error StagedInstall × State
  pub validate_staged : StagedInstall → State → Outcome Error (Unit {0}) × State
  pub ensure_activation_budget : State → Outcome Error (Unit {0}) × State
  pub activate : StagedInstall → State → Outcome Error ActivatedInstall × State
  pub reconcile_activation : StagedInstall → State → Outcome Error ActivationRecovery × State
  pub validate_reconciliation : ActivationRecovery → State → Outcome Error (Unit {0}) × State
  pub validate_activated : ActivatedInstall → State → Outcome Error (Unit {0}) × State
  pub rollback : ActivatedInstall → State → Outcome Error RollbackOutcome × State
  pub validate_rollback : RollbackOutcome → State → Outcome Error (Unit {0}) × State
  pub cleanup : StagedInstall → State → Outcome Error (Unit {0}) × State

unfoldable pub install_transaction_error :
    AgentInstallFinalState → Bool → AgentInstallTransactionError
install_transaction_error final_state bootstrap_timeout = record {
  final_state = final_state;
  bootstrap_timeout = bootstrap_timeout;
}

unfoldable pub final_state_of : ActivationRecoveryKind → AgentInstallFinalState
final_state_of activation_unchanged_present = target_unchanged
final_state_of activation_unchanged_missing = target_unchanged
final_state_of restored_previous = previous_restored
final_state_of removed_candidate = previous_restored

module _ (ops : AgentInstallOps) where
  abbrev pub Reply : Type 0 → Type 0
  Reply A = Outcome ops.Error A × ops.State

  abbrev pub Report : Type 0
  Report = Outcome AgentInstallTransactionError ops.ActivatedInstall × ops.State

  abbrev fails : AgentInstallFinalState → Bool → ops.State → Report
  unfolding install_transaction_error
  fails final_state bootstrap_timeout s =
      (failed (install_transaction_error final_state bootstrap_timeout), s)

  -- Each function below is the rest of the transaction behind the reply of one operation.
  unfoldable pub after_cleanup : ops.ActivatedInstall → Reply (Unit {0}) → Report
  unfolding fails
  after_cleanup activated (done _, s) = (done activated, s)
  after_cleanup activated (failed error, s) =
      fails candidate_healthy (ops.is_bootstrap_timeout error) s

  unfoldable pub after_validate_rollback : Bool → Reply (Unit {0}) → Report
  unfolding fails
  after_validate_rollback validation_timed_out (done _, s) =
      fails previous_restored validation_timed_out s
  after_validate_rollback validation_timed_out (failed rollback, s) =
      fails live_state_unknown (validation_timed_out || ops.is_bootstrap_timeout rollback) s

  unfoldable pub after_rollback : Bool → Reply ops.RollbackOutcome → Report
  unfolding fails after_validate_rollback
  after_rollback validation_timed_out (done rollback, s) =
      after_validate_rollback validation_timed_out (ops.validate_rollback rollback s)
  after_rollback validation_timed_out (failed rollback, s) =
      fails live_state_unknown (validation_timed_out || ops.is_bootstrap_timeout rollback) s

  unfoldable pub after_validate_activated : ops.ActivatedInstall → Reply (Unit {0}) → Report
  unfolding after_cleanup after_rollback
  after_validate_activated activated (done _, s) =
      after_cleanup activated (ops.cleanup (ops.staged_of activated) s)
  after_validate_activated activated (failed error, s) =
      after_rollback (ops.is_bootstrap_timeout error) (ops.rollback activated s)

  unfoldable pub after_validate_reconciliation :
      Bool → ActivationRecoveryKind → Reply (Unit {0}) → Report
  unfolding fails final_state_of
  after_validate_reconciliation activation_timed_out kind (done _, s) =
      fails (final_state_of kind) activation_timed_out s
  after_validate_reconciliation activation_timed_out kind (failed recovery_error, s) =
      fails live_state_unknown (activation_timed_out || ops.is_bootstrap_timeout recovery_error) s

  unfoldable pub after_reconcile_activation : Bool → Reply ops.ActivationRecovery → Report
  unfolding fails after_validate_reconciliation
  after_reconcile_activation activation_timed_out (done recovery, s) =
      after_validate_reconciliation activation_timed_out (ops.kind recovery)
        (ops.validate_reconciliation recovery s)
  after_reconcile_activation activation_timed_out (failed recovery, s) =
      fails live_state_unknown (activation_timed_out || ops.is_bootstrap_timeout recovery) s

  unfoldable pub after_activate : ops.StagedInstall → Reply ops.ActivatedInstall → Report
  unfolding after_validate_activated after_reconcile_activation
  after_activate staged (done activated, s) =
      after_validate_activated activated (ops.validate_activated activated s)
  after_activate staged (failed error, s) =
      after_reconcile_activation (ops.is_bootstrap_timeout error)
        (ops.reconcile_activation staged s)

  -- The end where the target was not touched: what was staged is cleaned up.
  unfoldable pub cleaned_up : Bool → Reply (Unit {0}) → Report
  unfolding fails
  cleaned_up timed_out (done _, s) = fails target_unchanged timed_out s
  cleaned_up timed_out (failed cleanup, s) =
      fails target_unchanged (timed_out || ops.is_bootstrap_timeout cleanup) s

  unfoldable pub after_ensure_activation_budget : ops.StagedInstall → Reply (Unit {0}) → Report
  unfolding after_activate cleaned_up
  after_ensure_activation_budget staged (done _, s) = after_activate staged (ops.activate staged s)
  after_ensure_activation_budget staged (failed error, s) =
      cleaned_up (ops.is_bootstrap_timeout error) (ops.cleanup staged s)

  unfoldable pub after_validate_staged : ops.StagedInstall → Reply (Unit {0}) → Report
  unfolding after_ensure_activation_budget cleaned_up
  after_validate_staged staged (done _, s) =
      after_ensure_activation_budget staged (ops.ensure_activation_budget s)
  after_validate_staged staged (failed error, s) =
      cleaned_up (ops.is_bootstrap_timeout error) (ops.cleanup staged s)

  unfoldable pub after_stage : Reply ops.StagedInstall → Report
  unfolding fails after_validate_staged
  after_stage (done staged, s) = after_validate_staged staged (ops.validate_staged staged s)
  after_stage (failed error, s) = fails target_unchanged (ops.is_bootstrap_timeout error) s

  unfoldable pub run_agent_install_transaction : ops.State → Report
  unfolding after_stage
  run_agent_install_transaction s = after_stage (ops.stage s)
