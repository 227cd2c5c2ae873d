-- ===== src/Execution/Run/History.antt =====
-- The Runs that admission and transitions reach, and how each of them ends.
use xgc2_orchestration_core.Base.{true, some, ◌≡◌, ok, arith}
use xgc2_orchestration_core.Contracts.Json.{Canonical}
use xgc2_orchestration_core.Contracts.Statuses.{RunStatus, run_status_terminal, run_status_eq}
use xgc2_orchestration_core.Contracts.Records.{Run, satisfied}
use xgc2_orchestration_core.Execution.Run.Validation.{validate_run, run_allowed}
use xgc2_orchestration_core.Execution.Run.Transition.{
  AdmitRunCommand, RunTransitionCommand, RunDecision, next_run, transition_run, admit_run,
}
use xgc2_orchestration_core.Execution.Run.Accepted.{
  Accepted, transition_run-Accepted, run-transition_run, transition_run-valid,
}
use xgc2_orchestration_core.Execution.Run.Lifecycle.{
  IsConsistent, admitted_run-IsConsistent, run-admit_run, next_run-IsConsistent, ended_early,
  frozen_status, guards-Moves,
}

pub data RunReach (c : Canonical) : Run → Type 0 where
  admitted :
      {r : Run} (command : AdmitRunCommand) (d : RunDecision)
      → admit_run c command ≡ ok d
      → r ≡ d.run
      → RunReach c r
  moved :
      {p r : Run} (command : RunTransitionCommand) (d : RunDecision)
      → RunReach c p
      → transition_run c p command ≡ ok d
      → r ≡ d.run
      → RunReach c r

-- Every Run that admission and transitions reach is well-formed and consistent: a Run that runs,
-- waits or succeeded has started; a termination intent is frozen exactly in stopping, failed,
-- canceled and stopped Runs; the termination kind is the one of the status, and a failed, canceled or
-- stopped Run ended as its frozen intent said, with the primary failure of that intent; an open Run
-- has no failures; and a result is published exactly by a succeeded Run.
pub RunReach-IsConsistent :
    (c : Canonical) {r : Run} → RunReach c r → IsConsistent r × (validate_run r ≡ ok tt)
RunReach-IsConsistent c (admitted command d h e) =
    let (same, valid) = run-admit_run c command h in
    (rw (e, same) (admitted_run-IsConsistent command), rw e valid)
RunReach-IsConsistent c (moved {p} command d before h e) = (
  rw (e, run-transition_run c p command h)
      (next_run-IsConsistent p command (transition_run-Accepted c p command h)
        (RunReach-IsConsistent c before).0),
  rw e (transition_run-valid c p command h),
)

-- The same of the next Run, from what an accepted transition has passed.
closing :
    (r : Run) (command : RunTransitionCommand)
    → Accepted r command
    → run_status_terminal (next_run r command).status ≡ true
    → (satisfied command.closure ≡ true)
      × (command.closure.run_revision ≡ r.revision)
      × ((next_run r command).finished_at ≡ some command.at)
unfolding next_run run_allowed run_status_terminal
closing r command a t = ground (arith, guards-Moves r command a)

ending_early :
    (r : Run) (command : RunTransitionCommand)
    → Accepted r command
    → ended_early (next_run r command).status ≡ true
    → (r.status ≡ RunStatus.stopping) × (frozen_status r.termination ≡ (next_run r command).status)
unfolding next_run run_allowed run_status_terminal
ending_early r command a t = ground (arith, guards-Moves r command a)

stopping_ends :
    (r : Run) (command : RunTransitionCommand)
    → Accepted r command
    → r.status ≡ RunStatus.stopping
    → ((next_run r command).status ≡ frozen_status r.termination)
      × (run_status_terminal (next_run r command).status ≡ true)
      × ((next_run r command).termination ≡ r.termination)
unfolding next_run run_allowed run_status_terminal run_status_eq
stopping_ends r command a s = ground (arith, guards-Moves r command a)

module _ (c : Canonical) (r : Run) (command : RunTransitionCommand) where
  -- A transition into a terminal status is accepted only with closure facts of the current revision
  -- that leave nothing open, and sets the finish time to the time of the command.
  pub terminal-transition_run :
      {d : RunDecision}
      → transition_run c r command ≡ ok d
      → run_status_terminal d.run.status ≡ true
      → (satisfied command.closure ≡ true)
        × (command.closure.run_revision ≡ r.revision)
        × (d.run.finished_at ≡ some command.at)
  terminal-transition_run h t =
      let e = run-transition_run c r command h in
      rw e (closing r command (transition_run-Accepted c r command h) (rw e at t))

  -- A Run only becomes failed, canceled or stopped out of stopping, and as the termination intent that
  -- is frozen there says.
  pub ended_early-transition_run :
      {d : RunDecision}
      → transition_run c r command ≡ ok d
      → ended_early d.run.status ≡ true
      → (r.status ≡ RunStatus.stopping) × (frozen_status r.termination ≡ d.run.status)
  ended_early-transition_run h t =
      let e = run-transition_run c r command h in
      rw e (ending_early r command (transition_run-Accepted c r command h) (rw e at t))

  -- Stopping is one-way: the one transition that a stopping Run accepts is to the terminal status of
  -- its frozen intent.
  pub stopping-transition_run :
      {d : RunDecision}
      → transition_run c r command ≡ ok d
      → r.status ≡ RunStatus.stopping
      → (d.run.status ≡ frozen_status r.termination)
        × (run_status_terminal d.run.status ≡ true)
        × (d.run.termination ≡ r.termination)
  stopping-transition_run h s =
      rw (run-transition_run c r command h)
        (stopping_ends r command (transition_run-Accepted c r command h) s)
