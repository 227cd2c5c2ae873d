-- ===== src/Execution/Invocation/Conflicts.antt =====
-- Optimistic concurrency on a ledger: of the operations decided on one revision, the first wins.
use xgc2_orchestration_core.Base.{
  ℕ, String, ◌≡◌, ◌≢◌, ◌<◌, ok, err, Result, arith, refl, revision_conflict, eq_refl, ap,
}
use xgc2_orchestration_core.Contracts.Json.{Canonical}
use xgc2_orchestration_core.Contracts.Records.{InvocationLedger}
use xgc2_orchestration_core.Execution.Invocation.Validation.{validate_invocation_ledger}
use xgc2_orchestration_core.Execution.Invocation.Fence.{
  InvocationDecision, validate_attempt_fence_any, validate_attempt_fence_for_phase,
}
use xgc2_orchestration_core.Execution.Invocation.Claims.{
  ClaimInvocationCommand, check_claim, claim_invocation,
}
use xgc2_orchestration_core.Execution.Invocation.Primary.{
  TransitionInvocationCommand, check_transition, transition_invocation,
}
use xgc2_orchestration_core.Execution.Invocation.Waits.{
  ResolveInvocationWaitCommand, check_wait_resolution, resolve_invocation_wait,
}
use xgc2_orchestration_core.Execution.Invocation.Recovery.{
  HeartbeatAttemptCommand, ExpireInvocationAttemptCommand, ResolveUnleasedInvocationCommand,
  CancelInvocationCommand, check_heartbeat, check_expiry, check_unleased, check_cancel,
  heartbeat_attempt, expire_invocation_attempt, resolve_unleased_invocation, cancel_invocation,
}
use xgc2_orchestration_core.Execution.Invocation.Compensation.{
  ScheduleInvocationCompensationCommand, ClaimCompensationCommand,
  TransitionInvocationCompensationCommand, check_schedule, check_claim_compensation,
  check_compensation, schedule_invocation_compensation, claim_compensation,
  transition_invocation_compensation,
}
use xgc2_orchestration_core.Execution.Invocation.Steps.{LedgerStep}
use xgc2_orchestration_core.Execution.Invocation.Frozen.{LedgerStep-SameInvocation}

-- A command of any of the ten operations.
pub data LedgerCommand : Type 0 where
  claim : ClaimInvocationCommand → LedgerCommand
  transition : TransitionInvocationCommand → LedgerCommand
  resolve_wait : ResolveInvocationWaitCommand → LedgerCommand
  heartbeat : HeartbeatAttemptCommand → LedgerCommand
  expire : ExpireInvocationAttemptCommand → LedgerCommand
  resolve_unleased : ResolveUnleasedInvocationCommand → LedgerCommand
  cancel : CancelInvocationCommand → LedgerCommand
  schedule : ScheduleInvocationCompensationCommand → LedgerCommand
  claim_compensations : ClaimCompensationCommand → LedgerCommand
  compensate : TransitionInvocationCompensationCommand → LedgerCommand

-- The invocation and the revision that a command was decided on.
unfoldable pub target : LedgerCommand → String × ℕ
target (LedgerCommand.claim command) = (command.invocation_id, command.expected_revision)
target (LedgerCommand.transition command) =
    (command.fence.invocation_id, command.fence.invocation_revision)
target (LedgerCommand.resolve_wait command) = (command.invocation_id, command.expected_revision)
target (LedgerCommand.heartbeat command) =
    (command.fence.invocation_id, command.fence.invocation_revision)
target (LedgerCommand.expire command) = (command.invocation_id, command.expected_revision)
target (LedgerCommand.resolve_unleased command) = (command.invocation_id, command.expected_revision)
target (LedgerCommand.cancel command) = (command.invocation_id, command.expected_revision)
target (LedgerCommand.schedule command) = (command.invocation_id, command.expected_revision)
target (LedgerCommand.claim_compensations command) =
    (command.invocation_id, command.expected_revision)
target (LedgerCommand.compensate command) =
    (command.fence.invocation_id, command.fence.invocation_revision)

module _ (c : Canonical) where
  unfoldable pub perform : InvocationLedger → LedgerCommand → Result InvocationDecision
  perform l (LedgerCommand.claim command) = claim_invocation c l command
  perform l (LedgerCommand.transition command) = transition_invocation c l command
  perform l (LedgerCommand.resolve_wait command) = resolve_invocation_wait c l command
  perform l (LedgerCommand.heartbeat command) = heartbeat_attempt c l command
  perform l (LedgerCommand.expire command) = expire_invocation_attempt c l command
  perform l (LedgerCommand.resolve_unleased command) = resolve_unleased_invocation c l command
  perform l (LedgerCommand.cancel command) = cancel_invocation c l command
  perform l (LedgerCommand.schedule command) = schedule_invocation_compensation c l command
  perform l (LedgerCommand.claim_compensations command) = claim_compensation c l command
  perform l (LedgerCommand.compensate command) = transition_invocation_compensation c l command

  -- A step is an accepted command.
  perform-LedgerStep :
      (l : InvocationLedger) (command : LedgerCommand) (d : InvocationDecision)
      → perform l command ≡ ok d
      → LedgerStep c l d.ledger
  unfolding perform
  perform-LedgerStep l (LedgerCommand.claim command) d h = LedgerStep.claim command d h refl
  perform-LedgerStep l (LedgerCommand.transition command) d h =
      LedgerStep.transition command d h refl
  perform-LedgerStep l (LedgerCommand.resolve_wait command) d h =
      LedgerStep.resolve_wait command d h refl
  perform-LedgerStep l (LedgerCommand.heartbeat command) d h = LedgerStep.heartbeat command d h refl
  perform-LedgerStep l (LedgerCommand.expire command) d h = LedgerStep.expire command d h refl
  perform-LedgerStep l (LedgerCommand.resolve_unleased command) d h =
      LedgerStep.resolve_unleased command d h refl
  perform-LedgerStep l (LedgerCommand.cancel command) d h = LedgerStep.cancel command d h refl
  perform-LedgerStep l (LedgerCommand.schedule command) d h = LedgerStep.schedule command d h refl
  perform-LedgerStep l (LedgerCommand.claim_compensations command) d h =
      LedgerStep.claim_compensations command d h refl
  perform-LedgerStep l (LedgerCommand.compensate command) d h =
      LedgerStep.compensate command d h refl

  perform-conflict :
      (m : InvocationLedger) (command : LedgerCommand)
      → validate_invocation_ledger c m ≡ ok tt
      → (target command).0 ≡ m.invocation.invocation_id
      → (target command).1 ≢ m.invocation.revision
      → perform m command ≡ err revision_conflict
  unfolding perform target claim_invocation transition_invocation resolve_invocation_wait
      heartbeat_attempt expire_invocation_attempt resolve_unleased_invocation cancel_invocation
      schedule_invocation_compensation claim_compensation transition_invocation_compensation
      check_claim check_transition check_wait_resolution check_heartbeat check_expiry check_unleased
      check_cancel check_schedule check_claim_compensation check_compensation
      validate_attempt_fence_any validate_attempt_fence_for_phase
  perform-conflict m (LedgerCommand.claim command) h p q =
      ground (arith, eq_refl m.invocation.invocation_id)
  perform-conflict m (LedgerCommand.transition command) h p q = ground arith
  perform-conflict m (LedgerCommand.resolve_wait command) h p q = ground arith
  perform-conflict m (LedgerCommand.heartbeat command) h p q = ground arith
  perform-conflict m (LedgerCommand.expire command) h p q = ground arith
  perform-conflict m (LedgerCommand.resolve_unleased command) h p q = ground arith
  perform-conflict m (LedgerCommand.cancel command) h p q = ground arith
  perform-conflict m (LedgerCommand.schedule command) h p q = ground arith
  perform-conflict m (LedgerCommand.claim_compensations command) h p q = ground arith
  perform-conflict m (LedgerCommand.compensate command) h p q = ground arith

  -- Of the commands decided on one revision of an invocation at most one is accepted. Once an
  -- operation was accepted on a ledger, every command of any operation that names the same invocation
  -- and the revision that ledger had is refused by the next ledger, where that one is valid, with a
  -- revision conflict.
  pub perform-stale :
      (l : InvocationLedger) (first second : LedgerCommand) (d : InvocationDecision)
      → l.invocation.revision < 18446744073709551616
      → perform l first ≡ ok d
      → validate_invocation_ledger c d.ledger ≡ ok tt
      → target second ≡ (l.invocation.invocation_id, l.invocation.revision)
      → perform d.ledger second ≡ err revision_conflict
  perform-stale l first second d small accepted valid stale =
      let (same, counted) =
        LedgerStep-SameInvocation c small (perform-LedgerStep l first d accepted) in
      perform-conflict d.ledger second valid (rw (stale, same.invocation_id) refl)
        (λ e. omega (arith, counted, ap (λ t. t.1) stale, e))
