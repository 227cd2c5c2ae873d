-- ===== src/Witnesses/RunTheorems.antt =====
-- The theorems on Runs, at the Run that is admitted, starts, is canceled and ends.
use xgc2_orchestration_core.Base.{
  ◌≡◌, ◌<◌, ◌≤◌, ◌+◌, ok, err, revision_conflict, arith, refl, ◌∷◌, [], some, true,
}
use xgc2_orchestration_core.Contracts.Records.{DomainEvent, satisfied}
use xgc2_orchestration_core.Contracts.Statuses.{RunStatus, run_status_terminal}
use xgc2_orchestration_core.Execution.Run.Validation.{validate_run, terminal_status}
use xgc2_orchestration_core.Execution.Run.Transition.{
  RunTransitionCommand, RunDecision, transition_run, admitted_run,
}
use xgc2_orchestration_core.Execution.Run.Lifecycle.{IsConsistent, frozen_status}
use xgc2_orchestration_core.Execution.Run.Revisions.{
  SameRun, transition_run-SameRun, transition_run-conflict,
}
use xgc2_orchestration_core.Execution.Run.History.{
  RunReach, RunReach-IsConsistent, terminal-transition_run, ended_early-transition_run,
  stopping-transition_run,
}
use xgc2_orchestration_core.Execution.Run.Liveness.{stopping_terminates}
use xgc2_orchestration_core.Execution.Run.Events.{AnnouncesRun, Cleanup, transition_run-events}
use xgc2_orchestration_core.Witnesses.Encoder.{encoder}
use xgc2_orchestration_core.Witnesses.Runs.{
  admission, accepted_run, start, cancellation, stop, finish, admitted, started, stopping, finished,
  admit-ok, start-ok, stop-ok, finish-ok, stopping_run-ok, started_run, stopping_run, finished_run,
  run_encoded, finish-ClosesRun,
}

first_revision : accepted_run.revision < 18446744073709551616
first_revision = omega arith

transition_run-SameRun_example :
    SameRun accepted_run started.run
    × (started_run.revision ≡ accepted_run.revision + 1)
    × (accepted_run.updated_at ≤ started_run.updated_at)
transition_run-SameRun_example =
    transition_run-SameRun encoder accepted_run start first_revision start-ok

abbrev late : RunTransitionCommand
late = record start { to = RunStatus.queued; command_id = "command-9" }

accepted_names :
    (late.run_id ≡ accepted_run.run_id) × (late.expected_revision ≡ accepted_run.revision)
unfolding admitted_run
accepted_names = (refl, refl)

transition_run-conflict_example : transition_run encoder started_run late ≡ err revision_conflict
transition_run-conflict_example =
    transition_run-conflict encoder accepted_run start late first_revision start-ok accepted_names.0
      accepted_names.1

finished-RunReach : RunReach encoder finished_run
finished-RunReach =
    RunReach.moved finish finished
      (RunReach.moved stop stopping
        (RunReach.moved start started (RunReach.admitted admission admitted admit-ok refl) start-ok
          refl)
        stop-ok refl)
      finish-ok refl

RunReach-IsConsistent_example : IsConsistent finished_run × (validate_run finished_run ≡ ok tt)
RunReach-IsConsistent_example = RunReach-IsConsistent encoder finished-RunReach

finished_ends : run_status_terminal finished_run.status ≡ true
unfolding run_status_terminal
finished_ends = refl

terminal-transition_run_example :
    (satisfied finish.closure ≡ true)
    × (finish.closure.run_revision ≡ stopping_run.revision)
    × (finished_run.finished_at ≡ some finish.at)
terminal-transition_run_example =
    terminal-transition_run encoder stopping_run finish finish-ok finished_ends

ended_early-transition_run_example :
    (stopping_run.status ≡ RunStatus.stopping)
    × (frozen_status stopping_run.termination ≡ finished_run.status)
ended_early-transition_run_example =
    ended_early-transition_run encoder stopping_run finish finish-ok refl

stopping-transition_run_example :
    (finished_run.status ≡ frozen_status stopping_run.termination)
    × (run_status_terminal finished_run.status ≡ true)
    × (finished_run.termination ≡ stopping_run.termination)
stopping-transition_run_example = stopping-transition_run encoder stopping_run finish finish-ok refl

stopping_room : stopping_run.revision + 1 < 18446744073709551616
stopping_room = omega arith

stopping_terminates_example :
    (d : RunDecision) × (transition_run encoder stopping_run finish ≡ ok d)
    × (d.run.status ≡ terminal_status cancellation.kind)
    × (run_status_terminal d.run.status ≡ true)
stopping_terminates_example =
    stopping_terminates encoder stopping_run cancellation finish stopping_run-ok refl refl
      finish-ClosesRun stopping_room run_encoded.0 run_encoded.1

transition_run-events_example :
    ((e : DomainEvent) × (stopping.events ≡ e ∷ []) × AnnouncesRun encoder stop stopping_run e)
    × Cleanup encoder stopping_run stopping.intents stop.to
transition_run-events_example = transition_run-events encoder started_run stop stop-ok
