-- ===== src/Witnesses/LedgerTheorems.antt =====
-- The theorems on invocation ledgers, at the Invocation that is activated, claimed and succeeds.
use xgc2_orchestration_core.Base.{
  ℕ, some, ◌≡◌, ◌≤◌, ◌+◌, ok, err, revision_conflict, arith, refl, true, false,
}
use xgc2_orchestration_core.Contracts.Statuses.{
  invocation_status_eq, invocation_status_terminal, CompensationStatus, compensation_status_eq,
}
use xgc2_orchestration_core.Execution.Invocation.Validation.{is_active, locate}
use xgc2_orchestration_core.Execution.Invocation.Recovery.{CancelInvocationCommand}
use xgc2_orchestration_core.Execution.Invocation.Steps.{LedgerStep}
use xgc2_orchestration_core.Execution.Invocation.Frozen.{
  SameInvocation, SameOutcome, LedgerStep-SameInvocation, LedgerStep-SameOutcome,
}
use xgc2_orchestration_core.Execution.Invocation.Live.{live_attempts}
use xgc2_orchestration_core.Execution.Invocation.OneLive.Reach.{
  LedgerReach, one_live_attempt, no_live_attempt, exactly_one_live_attempt,
}
use xgc2_orchestration_core.Execution.Invocation.Conflicts.{
  LedgerCommand, target, perform, perform-stale,
}
use xgc2_orchestration_core.Contracts.Records.{Attempt}
use xgc2_orchestration_core.Execution.Invocation.Leases.{
  WorkerCommand, worker_fence, report, HoldsLease, report-HoldsLease,
}
use xgc2_orchestration_core.Witnesses.Encoder.{encoder}
use xgc2_orchestration_core.Witnesses.Ledgers.{
  activation, claiming, success, scheduling, ready_ledger, running_ledger, done_ledger,
  scheduled_ledger, activated_decision, claimed_decision, done_decision, scheduled_decision,
  activation-ok, claiming-ok, success-ok, scheduling-ok, running_ledger-ok,
}

ready-LedgerReach : LedgerReach encoder ready_ledger
ready-LedgerReach = LedgerReach.activation activation activated_decision activation-ok refl

claim-step : LedgerStep encoder ready_ledger running_ledger
claim-step = LedgerStep.claim claiming claimed_decision claiming-ok refl

running-LedgerReach : LedgerReach encoder running_ledger
running-LedgerReach = LedgerReach.operation ready-LedgerReach claim-step

done-LedgerReach : LedgerReach encoder done_ledger
done-LedgerReach =
    LedgerReach.operation running-LedgerReach
      (LedgerStep.transition success done_decision success-ok refl)

LedgerStep-SameInvocation_example :
    SameInvocation ready_ledger.invocation running_ledger.invocation
    × (running_ledger.invocation.revision ≡ ready_ledger.invocation.revision + 1)
LedgerStep-SameInvocation_example = LedgerStep-SameInvocation encoder (omega arith) claim-step

done_has_ended : invocation_status_terminal done_ledger.invocation.status ≡ true
unfolding invocation_status_terminal
done_has_ended = refl

LedgerStep-SameOutcome_example : SameOutcome done_ledger.invocation scheduled_ledger.invocation
LedgerStep-SameOutcome_example =
    LedgerStep-SameOutcome encoder
      (LedgerStep.schedule scheduling scheduled_decision scheduling-ok refl) done_has_ended

one_live_attempt_example : live_attempts running_ledger.attempts ≤ 1
one_live_attempt_example = one_live_attempt encoder running-LedgerReach

done_rests :
    (is_active done_ledger.invocation.status ≡ false)
    × (compensation_status_eq done_ledger.invocation.compensation_status CompensationStatus.running
        ≡ false)
unfolding invocation_status_eq compensation_status_eq
done_rests = (refl, refl)

no_live_attempt_example : live_attempts done_ledger.attempts ≡ 0
no_live_attempt_example = no_live_attempt encoder done-LedgerReach done_rests.0 done_rests.1

running_is_active : is_active running_ledger.invocation.status ≡ true
unfolding invocation_status_eq
running_is_active = refl

exactly_one_live_attempt_example : live_attempts running_ledger.attempts ≡ 1
exactly_one_live_attempt_example =
    exactly_one_live_attempt encoder running-LedgerReach running_ledger-ok running_is_active

abbrev cancellation : CancelInvocationCommand
cancellation = record {
  invocation_id = ready_ledger.invocation.invocation_id;
  expected_revision = 1;
  run_id = "run-1";
  run_revision = 3;
  termination_command_id = "command-8";
  command_id = "command-9";
  at = 250;
}

claim_performed : perform encoder ready_ledger (LedgerCommand.claim claiming) ≡ ok claimed_decision
unfolding perform
claim_performed = claiming-ok

cancellation_target :
    target (LedgerCommand.cancel cancellation)
    ≡ (ready_ledger.invocation.invocation_id, ready_ledger.invocation.revision)
unfolding target
cancellation_target = refl

perform-stale_example :
    perform encoder running_ledger (LedgerCommand.cancel cancellation) ≡ err revision_conflict
perform-stale_example =
    perform-stale encoder ready_ledger (LedgerCommand.claim claiming)
      (LedgerCommand.cancel cancellation) claimed_decision (omega arith) claim_performed
      running_ledger-ok cancellation_target

success_reported : report encoder running_ledger (WorkerCommand.result success) ≡ ok done_decision
unfolding report
success_reported = success-ok

report-HoldsLease_example :
    (n : ℕ) × (a : Attempt) × (locate running_ledger.attempts
        (worker_fence (WorkerCommand.result success)).attempt_id
      ≡ some (n, a))
    × HoldsLease encoder running_ledger (worker_fence (WorkerCommand.result success)) a
report-HoldsLease_example =
    report-HoldsLease encoder running_ledger (WorkerCommand.result success) done_decision
      success_reported
