-- ===== src/Sidecar/Install/Tests.antt =====
-- The installation transaction of crates/nrm-sidecar/src/main.rs over operations on a number, the
-- file that is installed, where the activated agent does not pass its validation.
use nvim_remote_mirror.Prelude.{ℕ, ◌==◌, []}
use nvim_remote_mirror.Sidecar.Install.{
  done, failed, restored_previous, AgentInstallOps, run_agent_install_transaction,
}
use nvim_remote_mirror.Sidecar.Install.Timeouts.{
  IsTold, recorded, run_agent_install_transaction-IsTold,
}
use nvim_remote_mirror.Sidecar.Install.Calls.{traced}
use nvim_remote_mirror.Sidecar.Install.Justified.{
  IsJustified, run_agent_install_transaction-IsJustified,
}

-- The candidate is the file 1, and the error 5 a timeout.
abbrev unhealthy_ops : AgentInstallOps
unhealthy_ops = record {
  State = ℕ;
  Error = ℕ;
  StagedInstall = ℕ;
  ActivatedInstall = ℕ;
  ActivationRecovery = ℕ;
  RollbackOutcome = ℕ;
  is_bootstrap_timeout = λ error. error == 5;
  kind = λ recovery. restored_previous;
  staged_of = λ activated. activated;
  stage = λ s. (done s, s);
  validate_staged = λ staged s. (done tt, s);
  ensure_activation_budget = λ s. (done tt, s);
  activate = λ staged s. (done staged, 1);
  reconcile_activation = λ staged s. (done staged, staged);
  validate_reconciliation = λ recovery s. (done tt, s);
  validate_activated = λ activated s. (failed 5, s);
  rollback = λ activated s. (done activated, activated);
  validate_rollback = λ rollback s. (done tt, s);
  cleanup = λ staged s. (done tt, s);
}

run_agent_install_transaction-IsTold_example :
    IsTold unhealthy_ops
      (run_agent_install_transaction unhealthy_ops 0)
      (run_agent_install_transaction (recorded unhealthy_ops) (0, []))
run_agent_install_transaction-IsTold_example = run_agent_install_transaction-IsTold unhealthy_ops 0

run_agent_install_transaction-IsJustified_example :
    IsJustified unhealthy_ops
      (run_agent_install_transaction unhealthy_ops 0)
      (run_agent_install_transaction (traced unhealthy_ops) (0, []))
run_agent_install_transaction-IsJustified_example =
    run_agent_install_transaction-IsJustified unhealthy_ops 0
