-- ===== src/Sidecar/Install/Justified.antt =====
-- The final state that an installation reports, against the calls that it made and how they went.
use nvim_remote_mirror.Prelude.{◌≡◌, refl, Bool, true, false, some, List, [], ◌∷◌}
use nvim_remote_mirror.Sidecar.Install.{
  Outcome, done, failed, AgentInstallFinalState, candidate_healthy, ActivationRecoveryKind,
  activation_unchanged_present, activation_unchanged_missing, restored_previous, removed_candidate,
  AgentInstallTransactionError, AgentInstallOps, install_transaction_error, final_state_of, Reply,
  Report, after_cleanup, after_validate_rollback, after_rollback, after_validate_activated,
  after_validate_reconciliation, after_reconcile_activation, after_activate, cleaned_up,
  after_ensure_activation_budget, after_validate_staged, after_stage, run_agent_install_transaction,
}
use nvim_remote_mirror.Sidecar.Install.Calls.{
  Event, of_stage, of_validate_staged, of_ensure_activation_budget, of_activate,
  of_validate_activated, of_rollback, of_validate_rollback, of_reconcile_activation,
  of_validate_reconciliation, of_cleanup, is_staged, is_checked, is_cleared, is_given_up,
  is_activated, is_validated, is_unhealthy, is_rolled_back, is_interrupted, is_reconciled,
  recovered, progress, known, called, reconciled, traced,
}

known-recovered :
    (kind : ActivationRecoveryKind) → known (recovered kind) ≡ some (final_state_of kind)
unfolding final_state_of
known-recovered activation_unchanged_present = refl
known-recovered activation_unchanged_missing = refl
known-recovered restored_previous = refl
known-recovered removed_candidate = refl

module _ (ops : AgentInstallOps) where
  abbrev pub reported :
      Outcome AgentInstallTransactionError ops.ActivatedInstall → AgentInstallFinalState
  reported (done activated) = candidate_healthy
  reported (failed error) = error.final_state

  -- A report, and the same report with the trace of the calls.
  abbrev pub IsJustified : Report ops → Report (traced ops) → Type 0
  IsJustified (outcome, s) (outcome', (s', trace)) =
      (outcome ≡ outcome') × (s ≡ s') × (known (progress trace) ≡ some (reported outcome))

  after_cleanup-IsJustified :
      (activated : ops.ActivatedInstall) (trace : List Event) (r : Reply ops (Unit {0}))
      → progress trace ≡ is_validated
      → IsJustified
          (after_cleanup ops activated r)
          (after_cleanup (traced ops) activated (called of_cleanup trace r))
  unfolding after_cleanup install_transaction_error
  after_cleanup-IsJustified activated trace (done u, s) h = (refl, refl, rw h refl)
  after_cleanup-IsJustified activated trace (failed error, s) h = (refl, refl, rw h refl)

  after_validate_rollback-IsJustified :
      (t : Bool) (trace : List Event) (r : Reply ops (Unit {0}))
      → progress trace ≡ is_rolled_back
      → IsJustified
          (after_validate_rollback ops t r)
          (after_validate_rollback (traced ops) t (called of_validate_rollback trace r))
  unfolding after_validate_rollback install_transaction_error
  after_validate_rollback-IsJustified t trace (done u, s) h = (refl, refl, rw h refl)
  after_validate_rollback-IsJustified t trace (failed error, s) h = (refl, refl, rw h refl)

  after_rollback-IsJustified :
      (t : Bool) (trace : List Event) (r : Reply ops ops.RollbackOutcome)
      → progress trace ≡ is_unhealthy
      → IsJustified
          (after_rollback ops t r)
          (after_rollback (traced ops) t (called of_rollback trace r))
  unfolding after_rollback install_transaction_error
  after_rollback-IsJustified t trace (done rollback, s) h =
      after_validate_rollback-IsJustified t (of_rollback true ∷ trace)
        (ops.validate_rollback rollback s) (rw h refl)
  after_rollback-IsJustified t trace (failed error, s) h = (refl, refl, rw h refl)

  after_validate_activated-IsJustified :
      (activated : ops.ActivatedInstall) (trace : List Event) (r : Reply ops (Unit {0}))
      → progress trace ≡ is_activated
      → IsJustified
          (after_validate_activated ops activated r)
          (after_validate_activated (traced ops) activated (called of_validate_activated trace r))
  unfolding after_validate_activated
  after_validate_activated-IsJustified activated trace (done u, s) h =
      after_cleanup-IsJustified activated (of_validate_activated true ∷ trace)
        (ops.cleanup (ops.staged_of activated) s) (rw h refl)
  after_validate_activated-IsJustified activated trace (failed error, s) h =
      after_rollback-IsJustified (ops.is_bootstrap_timeout error)
        (of_validate_activated false ∷ trace) (ops.rollback activated s) (rw h refl)

  after_validate_reconciliation-IsJustified :
      (t : Bool) (kind : ActivationRecoveryKind) (trace : List Event) (r : Reply ops (Unit {0}))
      → progress trace ≡ is_reconciled kind
      → IsJustified (after_validate_reconciliation ops t kind r) (
          after_validate_reconciliation
            (traced ops)
            t
            kind
            (called of_validate_reconciliation trace r))
  unfolding after_validate_reconciliation install_transaction_error
  after_validate_reconciliation-IsJustified t kind trace (done u, s) h =
      (refl, refl, rw h (known-recovered kind))
  after_validate_reconciliation-IsJustified t kind trace (failed error, s) h =
      (refl, refl, rw h refl)

  after_reconcile_activation-IsJustified :
      (t : Bool) (trace : List Event) (r : Reply ops ops.ActivationRecovery)
      → progress trace ≡ is_interrupted
      → IsJustified
          (after_reconcile_activation ops t r)
          (after_reconcile_activation (traced ops) t (reconciled ops.kind trace r))
  unfolding after_reconcile_activation install_transaction_error
  after_reconcile_activation-IsJustified t trace (done recovery, s) h =
      after_validate_reconciliation-IsJustified t (ops.kind recovery)
        (of_reconcile_activation (some (ops.kind recovery)) ∷ trace)
        (ops.validate_reconciliation recovery s) (rw h refl)
  after_reconcile_activation-IsJustified t trace (failed error, s) h = (refl, refl, rw h refl)

  after_activate-IsJustified :
      (staged : ops.StagedInstall) (trace : List Event) (r : Reply ops ops.ActivatedInstall)
      → progress trace ≡ is_cleared
      → IsJustified
          (after_activate ops staged r)
          (after_activate (traced ops) staged (called of_activate trace r))
  unfolding after_activate
  after_activate-IsJustified staged trace (done activated, s) h =
      after_validate_activated-IsJustified activated (of_activate true ∷ trace)
        (ops.validate_activated activated s) (rw h refl)
  after_activate-IsJustified staged trace (failed error, s) h =
      after_reconcile_activation-IsJustified (ops.is_bootstrap_timeout error)
        (of_activate false ∷ trace) (ops.reconcile_activation staged s) (rw h refl)

  cleaned_up-IsJustified :
      (t : Bool) (trace : List Event) (r : Reply ops (Unit {0}))
      → progress trace ≡ is_given_up
      → IsJustified (cleaned_up ops t r) (cleaned_up (traced ops) t (called of_cleanup trace r))
  unfolding cleaned_up install_transaction_error
  cleaned_up-IsJustified t trace (done u, s) h = (refl, refl, rw h refl)
  cleaned_up-IsJustified t trace (failed error, s) h = (refl, refl, rw h refl)

  after_ensure_activation_budget-IsJustified :
      (staged : ops.StagedInstall) (trace : List Event) (r : Reply ops (Unit {0}))
      → progress trace ≡ is_checked
      → IsJustified (after_ensure_activation_budget ops staged r) (
          after_ensure_activation_budget
            (traced ops)
            staged
            (called of_ensure_activation_budget trace r))
  unfolding after_ensure_activation_budget
  after_ensure_activation_budget-IsJustified staged trace (done u, s) h =
      after_activate-IsJustified staged (of_ensure_activation_budget true ∷ trace)
        (ops.activate staged s) (rw h refl)
  after_ensure_activation_budget-IsJustified staged trace (failed error, s) h =
      cleaned_up-IsJustified (ops.is_bootstrap_timeout error)
        (of_ensure_activation_budget false ∷ trace) (ops.cleanup staged s) (rw h refl)

  after_validate_staged-IsJustified :
      (staged : ops.StagedInstall) (trace : List Event) (r : Reply ops (Unit {0}))
      → progress trace ≡ is_staged
      → IsJustified
          (after_validate_staged ops staged r)
          (after_validate_staged (traced ops) staged (called of_validate_staged trace r))
  unfolding after_validate_staged
  after_validate_staged-IsJustified staged trace (done u, s) h =
      after_ensure_activation_budget-IsJustified staged (of_validate_staged true ∷ trace)
        (ops.ensure_activation_budget s) (rw h refl)
  after_validate_staged-IsJustified staged trace (failed error, s) h =
      cleaned_up-IsJustified (ops.is_bootstrap_timeout error) (of_validate_staged false ∷ trace)
        (ops.cleanup staged s) (rw h refl)

  after_stage-IsJustified :
      (r : Reply ops ops.StagedInstall)
      → IsJustified (after_stage ops r) (after_stage (traced ops) (called of_stage [] r))
  unfolding after_stage install_transaction_error
  after_stage-IsJustified (done staged, s) =
      after_validate_staged-IsJustified staged (of_stage true ∷ []) (ops.validate_staged staged s)
        refl
  after_stage-IsJustified (failed error, s) = (refl, refl, refl)

  -- Whatever its operations do, an installation calls them in the order of `step`: nothing is activated
  -- that was not staged, validated and still in the budget, and what was staged is cleaned up where it
  -- was given up or found healthy. The final state that it reports is what these calls have shown:
  -- a success, or the candidate healthy, where the activated agent passed its validation; the target
  -- unchanged where nothing was activated, or a failed activation was found to have left it unchanged
  -- and that passed its validation; the previous restored where a rollback or the reconciliation of a
  -- failed activation did so and passed its validation; and unknown where one of these calls failed.
  -- Keeping the trace changes nothing else.
  pub run_agent_install_transaction-IsJustified :
      (s : ops.State)
      → IsJustified
          (run_agent_install_transaction ops s)
          (run_agent_install_transaction (traced ops) (s, []))
  unfolding run_agent_install_transaction
  run_agent_install_transaction-IsJustified s = after_stage-IsJustified (ops.stage s)
