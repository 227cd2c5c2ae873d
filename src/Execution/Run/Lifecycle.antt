-- ===== src/Execution/Run/Lifecycle.antt =====
-- The life of a Run: what holds of every Run that admission and transitions can reach, beyond what
-- `ValidateRun` checks of each one.
use xgc2_orchestration_core.Base.{
  Bool, true, false, not, Option, none, some, [], ◌≡◌, refl, ok, arith, is_set, ◌is◌, ◌&&◌,
  if◌then◌else◌,
}
use xgc2_orchestration_core.Contracts.Json.{Canonical}
use xgc2_orchestration_core.Contracts.Statuses.{
  RunStatus, run_status_terminal, run_status_eq, TerminationKind, requires_stopping,
}
use xgc2_orchestration_core.Contracts.Records.{TerminationIntent, StructuredFailure, Run, satisfied}
use xgc2_orchestration_core.Execution.Run.Validation.{validate_run, run_allowed, terminal_status}
use xgc2_orchestration_core.Execution.Run.Transition.{
  AdmitRunCommand, RunTransitionCommand, RunDecision, validate_run_transition_guards,
  validate_other_guards, closes_otherwise, validate_stop_intent, next_run, admit_run, admitted_run,
}
use xgc2_orchestration_core.Execution.Run.Accepted.{Accepted}

-- The statuses that only a frozen termination intent leads to.
abbrev pub is_stopped_early : RunStatus → Bool
is_stopped_early RunStatus.stopping = true
is_stopped_early RunStatus.failed = true
is_stopped_early RunStatus.canceled = true
is_stopped_early RunStatus.stopped = true
is_stopped_early _ = false

-- The statuses that a Run reaches only after it ran.
abbrev pub has_run : RunStatus → Bool
has_run RunStatus.running = true
has_run RunStatus.waiting = true
has_run RunStatus.succeeded = true
has_run _ = false

-- The termination kind that a status goes with.
abbrev pub kind_of : RunStatus → TerminationKind
kind_of RunStatus.succeeded = TerminationKind.completed
kind_of RunStatus.failed = TerminationKind.failed
kind_of RunStatus.canceled = TerminationKind.canceled
kind_of RunStatus.stopped = TerminationKind.stopped
kind_of RunStatus.rejected = TerminationKind.rejected
kind_of _ = TerminationKind.other

abbrev pub frozen_failure : Option TerminationIntent → Option StructuredFailure
frozen_failure none = none
frozen_failure (some intent) = intent.primary_failure

abbrev pub frozen_status : Option TerminationIntent → RunStatus
frozen_status none = RunStatus.other
frozen_status (some intent) = terminal_status intent.kind

-- The statuses of a Run that ended as its frozen intent said.
abbrev pub ended_early : RunStatus → Bool
ended_early RunStatus.failed = true
ended_early RunStatus.canceled = true
ended_early RunStatus.stopped = true
ended_early _ = false

pub record IsConsistent (r : Run) : Type 0 where
  pub started : (has_run r.status && not (is_set r.started_at)) ≡ false
  pub frozen : is_set r.termination ≡ is_stopped_early r.status
  pub kind : r.termination_kind ≡ kind_of r.status
  pub closes : (if ended_early r.status then frozen_status r.termination else r.status) ≡ r.status
  pub failure :
      r.primary_failure
      ≡ (if run_status_terminal r.status then frozen_failure r.termination else none)
  pub open_cleanup : (if run_status_terminal r.status then [] else r.cleanup_failures) ≡ []
  pub result : run_status_eq r.status RunStatus.succeeded ≡ not (r.result_ref is "")

pub admitted_run-IsConsistent : (command : AdmitRunCommand) → IsConsistent (admitted_run command)
unfolding admitted_run run_status_terminal run_status_eq
admitted_run-IsConsistent command = record {
  started = refl;
  frozen = refl;
  kind = refl;
  closes = refl;
  failure = refl;
  open_cleanup = refl;
  result = refl;
}

pub run-admit_run :
    (c : Canonical) (command : AdmitRunCommand) {d : RunDecision}
    → admit_run c command ≡ ok d
    → (d.run ≡ admitted_run command) × (validate_run d.run ≡ ok tt)
unfolding admit_run
run-admit_run c command h = ground arith

-- What the table and the guards of an accepted transition say.
pub record Moves (r : Run) (command : RunTransitionCommand) : Type 0 where
  pub allowed : run_allowed r.status command.to ≡ true
  pub stops : command.to ≡ RunStatus.stopping → is_set command.termination ≡ true
  pub closes : r.status ≡ RunStatus.stopping → frozen_status r.termination ≡ command.to
  pub closed : run_status_terminal command.to ≡ true → satisfied command.closure ≡ true
  pub publishes : command.to ≡ RunStatus.succeeded → (command.result_ref is "") ≡ false

pub guards-Moves : (r : Run) (command : RunTransitionCommand) → Accepted r command → Moves r command
unfolding run_allowed validate_run_transition_guards validate_other_guards closes_otherwise
    validate_stop_intent run_status_eq run_status_terminal terminal_status
guards-Moves r command a = ground arith

pub next_run-IsConsistent :
    (r : Run) (command : RunTransitionCommand)
    → Accepted r command
    → IsConsistent r
    → IsConsistent (next_run r command)
unfolding next_run run_allowed terminal_status run_status_terminal run_status_eq requires_stopping
next_run-IsConsistent r command a v = ground (arith, guards-Moves r command a)
