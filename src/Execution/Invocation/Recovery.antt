-- ===== src/Execution/Invocation/Recovery.antt =====
-- kernel/execution/invocation.go: heartbeats, expired leases, invocations without an attempt, and
-- cancellation by a terminating Run.
use Prim.Native.String.{◌++◌}
use xgc2_orchestration_core.Base.{
  ℕ, String, Bool, true, false, ◌&&◌, ◌||◌, not, Option, none, some, List, [], ◌==◌, ◌is◌, Result,
  ok, err, invalid, invalid_transition, revision_conflict, lease_conflict, ◌>>=◌, ◌>>◌, require,
  refuse, is_set, Time, is_zero, before, after, u64_inc, set, if◌then◌else◌,
}
use xgc2_orchestration_core.Contracts.Json.{Json, Fields, field, num, Canonical}
use xgc2_orchestration_core.Contracts.Statuses.{
  InvocationStatus, invocation_status_eq, invocation_status_terminal, invocation_status_name,
  CompensationStatus, compensation_status_eq, AttemptPhase, attempt_phase_eq, AttemptStatus,
  attempt_status_eq, attempt_status_terminal,
}
use xgc2_orchestration_core.Contracts.Records.{StructuredFailure, Attempt, InvocationLedger}
use xgc2_orchestration_core.Execution.Identity.{validate_identity, validate_failure}
use xgc2_orchestration_core.Execution.Invocation.Validation.{
  validate_invocation_ledger, locate, is_active,
}
use xgc2_orchestration_core.Execution.Invocation.Fence.{
  InvocationDecision, AttemptFence, validate_attempt_fence_any, decide, close_attempt,
}

pub record HeartbeatAttemptCommand : Type 0 where
  pub fence : AttemptFence
  pub owner_ref : String
  pub lease_expires_at : Time
  pub command_id : String

pub record ExpireInvocationAttemptCommand : Type 0 where
  pub invocation_id : String
  pub expected_revision : ℕ
  pub attempt_id : String
  pub expected_attempt_revision : ℕ
  pub retry : Bool
  pub failure : StructuredFailure
  pub command_id : String
  pub at : Time

pub record ResolveUnleasedInvocationCommand : Type 0 where
  pub invocation_id : String
  pub expected_revision : ℕ
  pub to : InvocationStatus
  pub failure : Option StructuredFailure
  pub command_id : String
  pub at : Time

pub record CancelInvocationCommand : Type 0 where
  pub invocation_id : String
  pub expected_revision : ℕ
  pub run_id : String
  pub run_revision : ℕ
  pub termination_command_id : String
  pub command_id : String
  pub at : Time

-- The ledger after a heartbeat: a later lease, and nothing else but times and revisions.
unfoldable pub heartbeaten :
    InvocationLedger → ℕ → Attempt → HeartbeatAttemptCommand → InvocationLedger
heartbeaten l index a command = record {
  invocation = record l.invocation {
    updated_at = command.fence.at;
    revision = u64_inc l.invocation.revision;
  };
  attempts = set l.attempts index (record a {
    lease_expires_at = command.lease_expires_at;
    updated_at = command.fence.at;
    revision = u64_inc a.revision;
  });
}

unfoldable pub check_expired_attempt :
    ExpireInvocationAttemptCommand → Option (ℕ × Attempt) → Result (ℕ × Attempt)
check_expired_attempt command none = err lease_conflict
check_expired_attempt command (some (index, a)) = do
  refuse
      (not (attempt_phase_eq a.phase AttemptPhase.execution)
        || not (a.revision == command.expected_attempt_revision)
        || attempt_status_terminal a.status
        || before command.at a.lease_expires_at)
      lease_conflict
  ok (index, a)

unfoldable pub expired :
    InvocationLedger → ℕ → Attempt → ExpireInvocationAttemptCommand → InvocationLedger
expired l index a command = record {
  invocation = record l.invocation {
    active_attempt_id = "";
    current_wait_ref = "";
    wait_generation = 0;
    updated_at = command.at;
    revision = u64_inc l.invocation.revision;
    status = if command.retry then InvocationStatus.ready else InvocationStatus.failed;
    primary_failure = if command.retry then l.invocation.primary_failure else some command.failure;
    finished_at = if command.retry then l.invocation.finished_at else some command.at;
  };
  attempts =
      set l.attempts index
        (close_attempt AttemptStatus.abandoned (some command.failure) command.at a);
}

unfoldable pub unleased_allowed : InvocationStatus → InvocationStatus → Bool
unleased_allowed InvocationStatus.ready InvocationStatus.skipped = true
unleased_allowed InvocationStatus.ready InvocationStatus.canceled = true
unleased_allowed InvocationStatus.retry_wait InvocationStatus.failed = true
unleased_allowed InvocationStatus.retry_wait InvocationStatus.canceled = true
unleased_allowed _ _ = false

unfoldable pub unleased : InvocationLedger → ResolveUnleasedInvocationCommand → InvocationLedger
unleased l command = record l {
  invocation = record l.invocation {
    status = command.to;
    active_attempt_id = "";
    next_attempt_at = none;
    primary_failure = command.failure;
    compensation_status =
        if invocation_status_eq command.to InvocationStatus.skipped
          && compensation_status_eq l.invocation.compensation_status CompensationStatus.unscheduled
        then CompensationStatus.not_required
        else l.invocation.compensation_status;
    updated_at = command.at;
    revision = u64_inc l.invocation.revision;
    finished_at = some command.at;
  };
}

-- The loop of `CancelInvocation` over the attempts, for an invocation with an active attempt.
unfoldable pub cancel_located : List Attempt → Time → Option (ℕ × Attempt) → Result (List Attempt)
cancel_located attempts at none = err lease_conflict
cancel_located attempts at (some (index, a)) = do
  refuse (attempt_status_terminal a.status) lease_conflict
  ok (set attempts index (close_attempt AttemptStatus.canceled a.failure at a))

unfoldable pub canceled_attempts : InvocationLedger → Time → Result (List Attempt)
canceled_attempts l at =
    if l.invocation.active_attempt_id is ""
    then ok l.attempts
    else cancel_located l.attempts at (locate l.attempts l.invocation.active_attempt_id)

unfoldable pub canceled : InvocationLedger → List Attempt → Time → InvocationLedger
canceled l attempts at = record {
  invocation = record l.invocation {
    status = InvocationStatus.canceled;
    active_attempt_id = "";
    current_wait_ref = "";
    wait_generation = 0;
    next_attempt_at = none;
    primary_failure = none;
    compensation_status =
        if compensation_status_eq l.invocation.compensation_status CompensationStatus.unscheduled
        then CompensationStatus.canceled
        else l.invocation.compensation_status;
    updated_at = at;
    revision = u64_inc l.invocation.revision;
    finished_at = some at;
  };
  attempts = attempts;
}

module _ (c : Canonical) where
  unfoldable pub check_heartbeat : InvocationLedger → HeartbeatAttemptCommand → Result (ℕ × Attempt)
  check_heartbeat l command = do
    validate_invocation_ledger c l
    (index, a) ← validate_attempt_fence_any c l command.fence
    require
        (attempt_status_eq a.status AttemptStatus.running
          || attempt_status_eq a.status AttemptStatus.waiting)
        lease_conflict
    require (command.owner_ref is a.owner_ref && after command.lease_expires_at a.lease_expires_at)
        lease_conflict
    validate_identity command.command_id "heartbeat command id"
    ok (index, a)

  -- The next ledger is not validated again.
  unfoldable pub heartbeat_attempt :
      InvocationLedger → HeartbeatAttemptCommand → Result InvocationDecision
  heartbeat_attempt l command = do
    (index, a) ← check_heartbeat l command
    decide c (heartbeaten l index a command) "attempt.heartbeat" command.command_id command.fence.at
        (field "attemptId" (Json.text a.attempt_id) (
          field "attemptRevision" (num (u64_inc a.revision))
            (field "leaseExpiresAt" (Json.time command.lease_expires_at) Fields.end)))
        []

  unfoldable pub check_expiry :
      InvocationLedger → ExpireInvocationAttemptCommand → Result (ℕ × Attempt)
  check_expiry l command = do
    validate_invocation_ledger c l
    require
        (command.invocation_id is l.invocation.invocation_id
          && command.expected_revision == l.invocation.revision)
        revision_conflict
    require (is_active l.invocation.status) invalid_transition
    refuse
        (not (command.attempt_id is l.invocation.active_attempt_id)
          || is_zero command.at
          || before command.at l.invocation.updated_at)
        lease_conflict
    validate_identity command.command_id "attempt expiry command id"
    validate_failure (some command.failure) true "expired attempt failure"
    check_expired_attempt command (locate l.attempts command.attempt_id)

  unfoldable pub expire_invocation_attempt :
      InvocationLedger → ExpireInvocationAttemptCommand → Result InvocationDecision
  expire_invocation_attempt l command = do
    (index, a) ← check_expiry l command
    let next = expired l index a command
    validate_invocation_ledger c next
    decide c next "invocation.attempt-expired" command.command_id command.at
        (field "attemptId" (Json.text a.attempt_id) (
          field "attemptRevision" (num (u64_inc a.revision))
            (field "retry" (Json.flag command.retry) Fields.end)))
        []

  unfoldable pub check_unleased :
      InvocationLedger → ResolveUnleasedInvocationCommand → Result (Unit {0})
  check_unleased l command = do
    validate_invocation_ledger c l
    require
        (command.invocation_id is l.invocation.invocation_id
          && command.expected_revision == l.invocation.revision)
        revision_conflict
    refuse (is_zero command.at || before command.at l.invocation.updated_at)
        (invalid "unleased resolution time")
    validate_identity command.command_id "unleased resolution command id"
    require (unleased_allowed l.invocation.status command.to) invalid_transition
    validate_failure command.failure (invocation_status_eq command.to InvocationStatus.failed)
        "unleased invocation failure"
    refuse (not (invocation_status_eq command.to InvocationStatus.failed) && is_set command.failure)
        (invalid "only failed unleased invocation can carry failure")

  unfoldable pub resolve_unleased_invocation :
      InvocationLedger → ResolveUnleasedInvocationCommand → Result InvocationDecision
  resolve_unleased_invocation l command = do
    check_unleased l command
    let next = unleased l command
    validate_invocation_ledger c next
    decide c next ("invocation." ++ invocation_status_name command.to) command.command_id command.at
        (field "from" (Json.text (invocation_status_name l.invocation.status)) (
          field "to" (Json.text (invocation_status_name command.to))
            (field "leased" (Json.flag false) Fields.end)))
        []

  unfoldable pub check_cancel : InvocationLedger → CancelInvocationCommand → Result (Unit {0})
  check_cancel l command = do
    validate_invocation_ledger c l
    require
        (command.invocation_id is l.invocation.invocation_id
          && command.expected_revision == l.invocation.revision
          && command.run_id is l.invocation.run_id)
        revision_conflict
    refuse (invocation_status_terminal l.invocation.status) invalid_transition
    refuse
        (command.run_revision == 0
          || is_zero command.at
          || before command.at l.invocation.updated_at)
        (invalid "invocation cancellation fence or time")
    validate_identity command.termination_command_id "run termination command id"
    validate_identity command.command_id "invocation cancellation command id"

  unfoldable pub cancel_invocation :
      InvocationLedger → CancelInvocationCommand → Result InvocationDecision
  cancel_invocation l command = do
    check_cancel l command
    attempts ← canceled_attempts l command.at
    let next = canceled l attempts command.at
    validate_invocation_ledger c next
    decide c next "invocation.canceled" command.command_id command.at
        (field "runId" (Json.text command.run_id) (
          field "runRevision" (num command.run_revision)
            (field "terminationCommandId" (Json.text command.termination_command_id) Fields.end)))
        []
