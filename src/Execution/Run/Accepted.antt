-- ===== src/Execution/Run/Accepted.antt =====
-- What a transition of a Run that is accepted has passed.
use xgc2_orchestration_core.Base.{true, false, ◌≤◌, ◌≡◌, ok, is→eq, arith}
use xgc2_orchestration_core.Contracts.Json.{Canonical}
use xgc2_orchestration_core.Contracts.Statuses.{run_status_terminal}
use xgc2_orchestration_core.Contracts.Records.{Run}
use xgc2_orchestration_core.Execution.Run.Validation.{
  validate_run, run_allowed, validate_run_transition,
}
use xgc2_orchestration_core.Execution.Run.Transition.{
  RunTransitionCommand, RunDecision, check_run_transition, validate_run_transition_guards, next_run,
  transition_run,
}

pub record Accepted (current : Run) (command : RunTransitionCommand) : Type 0 where
  pub valid : validate_run current ≡ ok tt
  pub same_run : command.run_id ≡ current.run_id
  pub fenced : command.expected_revision ≡ current.revision
  pub later : current.updated_at ≤ command.at
  pub allowed : run_allowed current.status command.to ≡ true
  pub not_terminal : run_status_terminal current.status ≡ false
  pub closure_fenced :
      run_status_terminal command.to ≡ true → command.closure.run_revision ≡ current.revision
  pub guarded : validate_run_transition_guards current command ≡ ok tt

pub check_run_transition-Accepted :
    (current : Run) (command : RunTransitionCommand)
    → check_run_transition current command ≡ ok tt
    → Accepted current command
unfolding check_run_transition validate_run_transition
check_run_transition-Accepted current command h =
    ground (arith, is→eq command.run_id current.run_id)

module _ (c : Canonical) (current : Run) (command : RunTransitionCommand) where
  pub transition_run-Accepted :
      {d : RunDecision} → transition_run c current command ≡ ok d → Accepted current command
  unfolding transition_run
  transition_run-Accepted h = check_run_transition-Accepted current command (ground arith)

  pub run-transition_run :
      {d : RunDecision} → transition_run c current command ≡ ok d → d.run ≡ next_run current command
  unfolding transition_run
  run-transition_run h = ground arith

  pub transition_run-valid :
      {d : RunDecision} → transition_run c current command ≡ ok d → validate_run d.run ≡ ok tt
  unfolding transition_run
  transition_run-valid h = ground arith
