-- ===== src/Execution/Invocation/Steps.antt =====
-- The operations on a ledger as steps, and what an accepted operation has passed and built.
use xgc2_orchestration_core.Base.{ℕ, List, ◌≡◌, ◌≢◌, ok, u32_inc}
use xgc2_orchestration_core.Contracts.Json.{Canonical}
use xgc2_orchestration_core.Contracts.Records.{Attempt, InvocationLedger}
use xgc2_orchestration_core.Contracts.Statuses.{AttemptPhase, AttemptStatus}
use xgc2_orchestration_core.Execution.Invocation.Validation.{validate_invocation_ledger}
use xgc2_orchestration_core.Execution.Invocation.Fence.{InvocationDecision}
use xgc2_orchestration_core.Execution.Invocation.Claims.{
  ClaimInvocationCommand, claimed, check_claim, claim_invocation,
}
use xgc2_orchestration_core.Execution.Invocation.Primary.{
  TransitionInvocationCommand, transitioned, check_transition, transition_invocation,
}
use xgc2_orchestration_core.Execution.Invocation.Waits.{
  ResolveInvocationWaitCommand, wait_resolved, check_wait_resolution, resolve_invocation_wait,
}
use xgc2_orchestration_core.Execution.Invocation.Recovery.{
  HeartbeatAttemptCommand, ExpireInvocationAttemptCommand, ResolveUnleasedInvocationCommand,
  CancelInvocationCommand, heartbeaten, expired, unleased, canceled, canceled_attempts,
  check_heartbeat, check_expiry, check_unleased, check_cancel, heartbeat_attempt,
  expire_invocation_attempt, resolve_unleased_invocation, cancel_invocation,
}
use xgc2_orchestration_core.Execution.Invocation.Compensation.{
  ScheduleInvocationCompensationCommand, ClaimCompensationCommand,
  TransitionInvocationCompensationCommand, scheduled, compensation_claimed, compensated,
  check_schedule, check_claim_compensation, check_compensation, schedule_invocation_compensation,
  claim_compensation, transition_invocation_compensation,
}

module _ (c : Canonical) where
  -- A step is one accepted operation.
  pub data LedgerStep (l m : InvocationLedger) : Type 0 where
    claim :
        (command : ClaimInvocationCommand) (d : InvocationDecision)
        → claim_invocation c l command ≡ ok d
        → m ≡ d.ledger
        → LedgerStep l m
    transition :
        (command : TransitionInvocationCommand) (d : InvocationDecision)
        → transition_invocation c l command ≡ ok d
        → m ≡ d.ledger
        → LedgerStep l m
    resolve_wait :
        (command : ResolveInvocationWaitCommand) (d : InvocationDecision)
        → resolve_invocation_wait c l command ≡ ok d
        → m ≡ d.ledger
        → LedgerStep l m
    heartbeat :
        (command : HeartbeatAttemptCommand) (d : InvocationDecision)
        → heartbeat_attempt c l command ≡ ok d
        → m ≡ d.ledger
        → LedgerStep l m
    expire :
        (command : ExpireInvocationAttemptCommand) (d : InvocationDecision)
        → expire_invocation_attempt c l command ≡ ok d
        → m ≡ d.ledger
        → LedgerStep l m
    resolve_unleased :
        (command : ResolveUnleasedInvocationCommand) (d : InvocationDecision)
        → resolve_unleased_invocation c l command ≡ ok d
        → m ≡ d.ledger
        → LedgerStep l m
    cancel :
        (command : CancelInvocationCommand) (d : InvocationDecision)
        → cancel_invocation c l command ≡ ok d
        → m ≡ d.ledger
        → LedgerStep l m
    schedule :
        (command : ScheduleInvocationCompensationCommand) (d : InvocationDecision)
        → schedule_invocation_compensation c l command ≡ ok d
        → m ≡ d.ledger
        → LedgerStep l m
    claim_compensations :
        (command : ClaimCompensationCommand) (d : InvocationDecision)
        → claim_compensation c l command ≡ ok d
        → m ≡ d.ledger
        → LedgerStep l m
    compensate :
        (command : TransitionInvocationCompensationCommand) (d : InvocationDecision)
        → transition_invocation_compensation c l command ≡ ok d
        → m ≡ d.ledger
        → LedgerStep l m

  -- What an accepted operation does to a ledger, with the checks that it passed.
  pub data Change (l : InvocationLedger) : InvocationLedger → Type 0 where
    claimed_by :
        {m : InvocationLedger} (command : ClaimInvocationCommand) (a : Attempt)
        → check_claim c l command ≡ ok tt
        → a.phase ≡ AttemptPhase.execution
        → a.status ≡ AttemptStatus.running
        → a.ordinal ≡ u32_inc l.invocation.execution_attempt_count
        → validate_invocation_ledger c m ≡ ok tt
        → m ≡ claimed l a command.at
        → Change l m
    transitioned_by :
        {m : InvocationLedger} (command : TransitionInvocationCommand) (n : ℕ) (a : Attempt)
        → check_transition c l command ≡ ok (n, a)
        → validate_invocation_ledger c m ≡ ok tt
        → m ≡ transitioned l n a command
        → Change l m
    resolved_by :
        {m : InvocationLedger} (command : ResolveInvocationWaitCommand) (n : ℕ) (a : Attempt)
        (to : AttemptStatus)
        → check_wait_resolution c l command ≡ ok (n, a, to)
        → validate_invocation_ledger c m ≡ ok tt
        → m ≡ wait_resolved l n a command to
        → Change l m
    heartbeaten_by :
        {m : InvocationLedger} (command : HeartbeatAttemptCommand) (n : ℕ) (a : Attempt)
        → check_heartbeat c l command ≡ ok (n, a)
        → m.invocation.revision ≢ 0
        → m ≡ heartbeaten l n a command
        → Change l m
    expired_by :
        {m : InvocationLedger} (command : ExpireInvocationAttemptCommand) (n : ℕ) (a : Attempt)
        → check_expiry c l command ≡ ok (n, a)
        → validate_invocation_ledger c m ≡ ok tt
        → m ≡ expired l n a command
        → Change l m
    unleased_by :
        {m : InvocationLedger} (command : ResolveUnleasedInvocationCommand)
        → check_unleased c l command ≡ ok tt
        → validate_invocation_ledger c m ≡ ok tt
        → m ≡ unleased l command
        → Change l m
    canceled_by :
        {m : InvocationLedger} (command : CancelInvocationCommand) (attempts : List Attempt)
        → check_cancel c l command ≡ ok tt
        → canceled_attempts l command.at ≡ ok attempts
        → validate_invocation_ledger c m ≡ ok tt
        → m ≡ canceled l attempts command.at
        → Change l m
    scheduled_by :
        {m : InvocationLedger} (command : ScheduleInvocationCompensationCommand)
        → check_schedule c l command ≡ ok tt
        → m.invocation.revision ≢ 0
        → m ≡ scheduled l command.at
        → Change l m
    compensation_claimed_by :
        {m : InvocationLedger} (command : ClaimCompensationCommand) (a : Attempt)
        → check_claim_compensation c l command ≡ ok tt
        → a.phase ≡ AttemptPhase.compensation
        → a.status ≡ AttemptStatus.running
        → a.ordinal ≡ u32_inc l.invocation.compensation_attempt_count
        → validate_invocation_ledger c m ≡ ok tt
        → m ≡ compensation_claimed l a command.at
        → Change l m
    compensated_by :
        {m : InvocationLedger} (command : TransitionInvocationCompensationCommand) (n : ℕ)
        (a : Attempt)
        → check_compensation c l command ≡ ok (n, a)
        → validate_invocation_ledger c m ≡ ok tt
        → m ≡ compensated l n a command
        → Change l m
