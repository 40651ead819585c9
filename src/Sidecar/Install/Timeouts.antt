-- ===== src/Sidecar/Install/Timeouts.antt =====
-- The flag `bootstrap_timeout` of a failed installation, against the errors that the operations
-- returned.
use nvim_remote_mirror.Prelude.{◌≡◌, ◌≢◌, refl, Bool, true, false, ◌||◌, any, List, [], ◌∷◌, arith}
use nvim_remote_mirror.Sidecar.Install.{
  Outcome, done, failed, ActivationRecoveryKind, AgentInstallOps, install_transaction_error, Reply,
  Report, after_cleanup, after_validate_rollback, after_rollback, after_validate_activated,
  after_validate_reconciliation, after_reconcile_activation, after_activate, cleaned_up,
  after_ensure_activation_budget, after_validate_staged, after_stage, run_agent_install_transaction,
}

-- The reply of an operation, with the errors so far and its own.
abbrev noted {ℓ} :
    {E S : Type 0} {A : Type ℓ} → List E → Outcome E A × S → Outcome E A × (S × List E)
noted errors (done a, s) = (done a, (s, errors))
noted errors (failed error, s) = (failed error, (s, error ∷ errors))

-- The same operations, which keep the errors that they return.
abbrev pub recorded : AgentInstallOps → AgentInstallOps
recorded ops = record {
  State = ops.State × List ops.Error;
  Error = ops.Error;
  StagedInstall = ops.StagedInstall;
  ActivatedInstall = ops.ActivatedInstall;
  ActivationRecovery = ops.ActivationRecovery;
  RollbackOutcome = ops.RollbackOutcome;
  is_bootstrap_timeout = ops.is_bootstrap_timeout;
  kind = ops.kind;
  staged_of = ops.staged_of;
  stage = λ s. noted s.1 (ops.stage s.0);
  validate_staged = λ staged s. noted s.1 (ops.validate_staged staged s.0);
  ensure_activation_budget = λ s. noted s.1 (ops.ensure_activation_budget s.0);
  activate = λ staged s. noted s.1 (ops.activate staged s.0);
  reconcile_activation = λ staged s. noted s.1 (ops.reconcile_activation staged s.0);
  validate_reconciliation = λ recovery s. noted s.1 (ops.validate_reconciliation recovery s.0);
  validate_activated = λ activated s. noted s.1 (ops.validate_activated activated s.0);
  rollback = λ activated s. noted s.1 (ops.rollback activated s.0);
  validate_rollback = λ rollback s. noted s.1 (ops.validate_rollback rollback s.0);
  cleanup = λ staged s. noted s.1 (ops.cleanup staged s.0);
}

module _ (ops : AgentInstallOps) where
  -- What a report of a failure says of the errors that came up: there are some, and the flag is set
  -- just where one of them is a bootstrap timeout.
  abbrev Tells : Bool → List ops.Error → Type 0
  Tells bootstrap_timeout errors =
      (errors ≢ []) × (bootstrap_timeout ≡ any ops.is_bootstrap_timeout errors)

  -- A report, and the same report with the errors that came up.
  abbrev pub IsTold : Report ops → Report (recorded ops) → Type 0
  IsTold (done activated, s) (done activated', (s', errors)) =
      (activated ≡ activated') × (s ≡ s') × (errors ≡ [])
  IsTold (failed error, s) (failed error', (s', errors)) =
      (error ≡ error') × (s ≡ s') × Tells error.bootstrap_timeout errors
  IsTold _ _ = true ≡ false

  one_error : (error : ops.Error) → Tells (ops.is_bootstrap_timeout error) (error ∷ [])
  one_error error = (cc, ground arith)

  one_more :
      (t : Bool) (error : ops.Error) (errors : List ops.Error)
      → Tells t errors
      → Tells (t || ops.is_bootstrap_timeout error) (error ∷ errors)
  one_more t error errors h = (cc, ground (arith, h.1))

  after_cleanup-IsTold :
      (activated : ops.ActivatedInstall) (r : Reply ops (Unit {0}))
      → IsTold (after_cleanup ops activated r) (after_cleanup (recorded ops) activated (noted [] r))
  unfolding after_cleanup install_transaction_error
  after_cleanup-IsTold activated (done u, s) = (refl, refl, refl)
  after_cleanup-IsTold activated (failed error, s) = (refl, refl, one_error error)

  after_validate_rollback-IsTold :
      (t : Bool) (errors : List ops.Error) (r : Reply ops (Unit {0}))
      → Tells t errors
      → IsTold
          (after_validate_rollback ops t r)
          (after_validate_rollback (recorded ops) t (noted errors r))
  unfolding after_validate_rollback install_transaction_error
  after_validate_rollback-IsTold t errors (done u, s) h = (refl, refl, h)
  after_validate_rollback-IsTold t errors (failed error, s) h =
      (refl, refl, one_more t error errors h)

  after_rollback-IsTold :
      (t : Bool) (errors : List ops.Error) (r : Reply ops ops.RollbackOutcome)
      → Tells t errors
      → IsTold (after_rollback ops t r) (after_rollback (recorded ops) t (noted errors r))
  unfolding after_rollback install_transaction_error
  after_rollback-IsTold t errors (done rollback, s) h =
      after_validate_rollback-IsTold t errors (ops.validate_rollback rollback s) h
  after_rollback-IsTold t errors (failed error, s) h = (refl, refl, one_more t error errors h)

  after_validate_activated-IsTold :
      (activated : ops.ActivatedInstall) (r : Reply ops (Unit {0}))
      → IsTold
          (after_validate_activated ops activated r)
          (after_validate_activated (recorded ops) activated (noted [] r))
  unfolding after_validate_activated
  after_validate_activated-IsTold activated (done u, s) =
      after_cleanup-IsTold activated (ops.cleanup (ops.staged_of activated) s)
  after_validate_activated-IsTold activated (failed error, s) =
      after_rollback-IsTold (ops.is_bootstrap_timeout error) (error ∷ []) (ops.rollback activated s)
        (one_error error)

  after_validate_reconciliation-IsTold :
      (t : Bool) (kind : ActivationRecoveryKind) (errors : List ops.Error)
      (r : Reply ops (Unit {0}))
      → Tells t errors
      → IsTold
          (after_validate_reconciliation ops t kind r)
          (after_validate_reconciliation (recorded ops) t kind (noted errors r))
  unfolding after_validate_reconciliation install_transaction_error
  after_validate_reconciliation-IsTold t kind errors (done u, s) h = (refl, refl, h)
  after_validate_reconciliation-IsTold t kind errors (failed error, s) h =
      (refl, refl, one_more t error errors h)

  after_reconcile_activation-IsTold :
      (t : Bool) (errors : List ops.Error) (r : Reply ops ops.ActivationRecovery)
      → Tells t errors
      → IsTold
          (after_reconcile_activation ops t r)
          (after_reconcile_activation (recorded ops) t (noted errors r))
  unfolding after_reconcile_activation install_transaction_error
  after_reconcile_activation-IsTold t errors (done recovery, s) h =
      after_validate_reconciliation-IsTold t (ops.kind recovery) errors
        (ops.validate_reconciliation recovery s) h
  after_reconcile_activation-IsTold t errors (failed error, s) h =
      (refl, refl, one_more t error errors h)

  after_activate-IsTold :
      (staged : ops.StagedInstall) (r : Reply ops ops.ActivatedInstall)
      → IsTold (after_activate ops staged r) (after_activate (recorded ops) staged (noted [] r))
  unfolding after_activate
  after_activate-IsTold staged (done activated, s) =
      after_validate_activated-IsTold activated (ops.validate_activated activated s)
  after_activate-IsTold staged (failed error, s) =
      after_reconcile_activation-IsTold (ops.is_bootstrap_timeout error) (error ∷ [])
        (ops.reconcile_activation staged s) (one_error error)

  cleaned_up-IsTold :
      (t : Bool) (errors : List ops.Error) (r : Reply ops (Unit {0}))
      → Tells t errors
      → IsTold (cleaned_up ops t r) (cleaned_up (recorded ops) t (noted errors r))
  unfolding cleaned_up install_transaction_error
  cleaned_up-IsTold t errors (done u, s) h = (refl, refl, h)
  cleaned_up-IsTold t errors (failed error, s) h = (refl, refl, one_more t error errors h)

  after_ensure_activation_budget-IsTold :
      (staged : ops.StagedInstall) (r : Reply ops (Unit {0}))
      → IsTold
          (after_ensure_activation_budget ops staged r)
          (after_ensure_activation_budget (recorded ops) staged (noted [] r))
  unfolding after_ensure_activation_budget
  after_ensure_activation_budget-IsTold staged (done u, s) =
      after_activate-IsTold staged (ops.activate staged s)
  after_ensure_activation_budget-IsTold staged (failed error, s) =
      cleaned_up-IsTold (ops.is_bootstrap_timeout error) (error ∷ []) (ops.cleanup staged s)
        (one_error error)

  after_validate_staged-IsTold :
      (staged : ops.StagedInstall) (r : Reply ops (Unit {0}))
      → IsTold
          (after_validate_staged ops staged r)
          (after_validate_staged (recorded ops) staged (noted [] r))
  unfolding after_validate_staged
  after_validate_staged-IsTold staged (done u, s) =
      after_ensure_activation_budget-IsTold staged (ops.ensure_activation_budget s)
  after_validate_staged-IsTold staged (failed error, s) =
      cleaned_up-IsTold (ops.is_bootstrap_timeout error) (error ∷ []) (ops.cleanup staged s)
        (one_error error)

  after_stage-IsTold :
      (r : Reply ops ops.StagedInstall)
      → IsTold (after_stage ops r) (after_stage (recorded ops) (noted [] r))
  unfolding after_stage install_transaction_error
  after_stage-IsTold (done staged, s) =
      after_validate_staged-IsTold staged (ops.validate_staged staged s)
  after_stage-IsTold (failed error, s) = (refl, refl, one_error error)

  -- An installation that reports success had no operation that returned an error, and one that reports
  -- a failure had at least one, and has `bootstrap_timeout` set just where one of the errors that its
  -- operations returned is a bootstrap timeout; keeping these errors changes nothing else.
  pub run_agent_install_transaction-IsTold :
      (s : ops.State)
      → IsTold
          (run_agent_install_transaction ops s)
          (run_agent_install_transaction (recorded ops) (s, []))
  unfolding run_agent_install_transaction
  run_agent_install_transaction-IsTold s = after_stage-IsTold (ops.stage s)
