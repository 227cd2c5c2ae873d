-- ===== src/Execution/Invocation/Compensation.antt =====
-- kernel/execution/invocation.go: the compensation of a finished invocation.
use Prim.Native.String.{◌++◌}
use mathlib.Core.List
use xgc2_orchestration_core.Base.{
  ℕ, String, true, ◌&&◌, ◌||◌, not, Option, none, some, [], ◌∷◌, ◌==◌, ◌is◌, Result, ok, err,
  invalid, invalid_transition, revision_conflict, ◌>>=◌, ◌>>◌, require, refuse, is_set, Time,
  is_zero, before, after, u64_inc, u32_inc, set,
}
use xgc2_orchestration_core.Contracts.Json.{Json, Fields, field, num, Canonical}
use xgc2_orchestration_core.Contracts.Statuses.{
  InvocationStatus, invocation_status_eq, invocation_status_terminal, CompensationStatus,
  compensation_status_eq, compensation_status_name, AttemptPhase, AttemptStatus, attempt_status_eq,
  attempt_status_name, DurableIntentKind,
}
use xgc2_orchestration_core.Contracts.Records.{
  StructuredFailure, Attempt, InvocationLedger, DurableIntent,
}
use xgc2_orchestration_core.Execution.Identity.{
  validate_identity, validate_failure, or_empty, stable_attempt_id, private_token_digest,
}
use xgc2_orchestration_core.Execution.Event.{new_durable_intent}
use xgc2_orchestration_core.Execution.Invocation.Validation.{
  validate_invocation_ledger, validate_attempt_transition, is_transient,
}
use xgc2_orchestration_core.Execution.Invocation.Fence.{
  InvocationDecision, AttemptFence, validate_attempt_fence_for_phase, decide, close_attempt,
}
use xgc2_orchestration_core.Execution.Invocation.Claims.{not_due, new_attempt}
use xgc2_orchestration_core.Execution.Invocation.Primary.{not_future}

pub record ScheduleInvocationCompensationCommand : Type 0 where
  pub invocation_id : String
  pub expected_revision : ℕ
  pub command_id : String
  pub at : Time

pub record ClaimCompensationCommand : Type 0 where
  pub invocation_id : String
  pub expected_revision : ℕ
  pub owner_ref : String
  pub lease_token : String
  pub lease_expires_at : Time
  pub command_id : String
  pub at : Time

pub record TransitionInvocationCompensationCommand : Type 0 where
  pub fence : AttemptFence
  pub to : CompensationStatus
  pub attempt_to : AttemptStatus
  pub failure : Option StructuredFailure
  pub retry_at : Option Time
  pub command_id : String

unfoldable pub scheduled : InvocationLedger → Time → InvocationLedger
scheduled l at = record l {
  invocation = record l.invocation {
    compensation_status = CompensationStatus.ready;
    updated_at = at;
    revision = u64_inc l.invocation.revision;
  };
}

unfoldable pub compensation_claimed : InvocationLedger → Attempt → Time → InvocationLedger
compensation_claimed l a at = record {
  invocation = record l.invocation {
    compensation_status = CompensationStatus.running;
    active_compensation_attempt_id = a.attempt_id;
    compensation_attempt_count = a.ordinal;
    compensation_failure = none;
    compensation_next_at = none;
    updated_at = at;
    revision = u64_inc l.invocation.revision;
  };
  attempts = List.◌++◌ l.attempts (a ∷ []);
}

-- The `switch` of `validateInvocationCompensationTransition`.
unfoldable pub check_compensation_target :
    TransitionInvocationCompensationCommand → CompensationStatus → Result (Unit {0})
check_compensation_target command CompensationStatus.succeeded =
    refuse
      (not (attempt_status_eq command.attempt_to AttemptStatus.succeeded)
        || is_set command.failure
        || is_set command.retry_at)
      (invalid "successful compensation")
check_compensation_target command CompensationStatus.retry_wait = do
  refuse
      (not (attempt_status_eq command.attempt_to AttemptStatus.failed)
        || not_future command.retry_at command.fence.at)
      (invalid "compensation retry")
  validate_failure command.failure true "compensation retry failure"
  require (is_transient command.failure) (invalid "compensation retry")
check_compensation_target command CompensationStatus.failed = do
  require
      (attempt_status_eq command.attempt_to AttemptStatus.failed
        || attempt_status_eq command.attempt_to AttemptStatus.abandoned)
      (invalid "failed compensation")
  validate_failure command.failure true "compensation failure"
  refuse (is_set command.retry_at) (invalid "terminal compensation failure")
check_compensation_target command CompensationStatus.canceled = do
  require
      (attempt_status_eq command.attempt_to AttemptStatus.canceled
        || attempt_status_eq command.attempt_to AttemptStatus.abandoned)
      (invalid "canceled compensation")
  refuse (is_set command.failure || is_set command.retry_at) (invalid "canceled compensation")
check_compensation_target command _ = err invalid_transition

unfoldable pub validate_compensation_transition :
    CompensationStatus → AttemptStatus → TransitionInvocationCompensationCommand → Result (Unit {0})
validate_compensation_transition from attempt_from command = do
  require (compensation_status_eq from CompensationStatus.running) invalid_transition
  validate_attempt_transition attempt_from command.attempt_to
  check_compensation_target command command.to

unfoldable pub compensated :
    InvocationLedger → ℕ → Attempt → TransitionInvocationCompensationCommand → InvocationLedger
compensated l index a command = record {
  invocation = record l.invocation {
    compensation_status = command.to;
    active_compensation_attempt_id = "";
    compensation_failure = command.failure;
    compensation_next_at = command.retry_at;
    updated_at = command.fence.at;
    revision = u64_inc l.invocation.revision;
  };
  attempts =
      set l.attempts index (close_attempt command.attempt_to command.failure command.fence.at a);
}

-- `command.RetryAt.UTC()` in a payload.
abbrev pub retry_json : Option Time → Json
retry_json none = Json.null
retry_json (some at) = Json.time at

abbrev pub schedule_payload : InvocationLedger → Fields
schedule_payload l =
    field "invocationId" (Json.text l.invocation.invocation_id)
      (field "invocationRevision" (num l.invocation.revision) Fields.end)

module _ (c : Canonical) where
  unfoldable pub check_schedule :
      InvocationLedger → ScheduleInvocationCompensationCommand → Result (Unit {0})
  check_schedule l command = do
    validate_invocation_ledger c l
    require
        (command.invocation_id is l.invocation.invocation_id
          && command.expected_revision == l.invocation.revision)
        revision_conflict
    require
        (invocation_status_terminal l.invocation.status
          && not (invocation_status_eq l.invocation.status InvocationStatus.skipped)
          && compensation_status_eq l.invocation.compensation_status CompensationStatus.unscheduled)
        invalid_transition
    refuse (is_zero command.at || before command.at l.invocation.updated_at)
        (invalid "compensation scheduling time")
    validate_identity command.command_id "compensation scheduling command id"

  -- The next ledger is not validated again.
  unfoldable pub schedule_invocation_compensation :
      InvocationLedger → ScheduleInvocationCompensationCommand → Result InvocationDecision
  schedule_invocation_compensation l command = do
    check_schedule l command
    let next = scheduled l command.at
    intent ←
        new_durable_intent c DurableIntentKind.cleanup next.invocation.invocation_id
          next.invocation.revision (schedule_payload next)
    decide c next "invocation.compensation.ready" command.command_id command.at
        (schedule_payload next) (intent ∷ [])

  unfoldable pub check_claim_compensation :
      InvocationLedger → ClaimCompensationCommand → Result (Unit {0})
  check_claim_compensation l command = do
    validate_invocation_ledger c l
    require
        (command.invocation_id is l.invocation.invocation_id
          && command.expected_revision == l.invocation.revision)
        revision_conflict
    require
        (compensation_status_eq l.invocation.compensation_status CompensationStatus.ready
          || compensation_status_eq l.invocation.compensation_status CompensationStatus.retry_wait)
        invalid_transition
    refuse
        (compensation_status_eq l.invocation.compensation_status CompensationStatus.retry_wait
          && not_due l.invocation.compensation_next_at command.at)
        invalid_transition
    refuse
        (is_zero command.at
          || before command.at l.invocation.updated_at
          || not (after command.lease_expires_at command.at))
        (invalid "compensation claim times")
    validate_identity command.owner_ref "compensation owner ref"
    validate_identity command.command_id "compensation claim command id"

  unfoldable pub claim_compensation :
      InvocationLedger → ClaimCompensationCommand → Result InvocationDecision
  claim_compensation l command = do
    check_claim_compensation l command
    lease_hash ← private_token_digest c command.lease_token
    let i = l.invocation
    let ordinal = u32_inc i.compensation_attempt_count
    let id = or_empty (stable_attempt_id c i.invocation_id AttemptPhase.compensation ordinal)
    let next =
        compensation_claimed l
          (new_attempt i AttemptPhase.compensation ordinal id command.owner_ref lease_hash
            command.lease_expires_at command.at)
          command.at
    validate_invocation_ledger c next
    decide c next "invocation.compensation.claimed" command.command_id command.at
        (field "attemptId" (Json.text id) (
          field "attemptOrdinal" (num ordinal) (
            field "ownerRef" (Json.text command.owner_ref) (
              field "leaseTokenHash" (Json.text lease_hash)
                (field "leaseExpiresAt" (Json.time command.lease_expires_at) Fields.end)))))
        []

  unfoldable pub check_compensation :
      InvocationLedger → TransitionInvocationCompensationCommand → Result (ℕ × Attempt)
  check_compensation l command = do
    validate_invocation_ledger c l
    (index, a) ← validate_attempt_fence_for_phase c l command.fence AttemptPhase.compensation
    validate_identity command.command_id "compensation transition command id"
    validate_compensation_transition l.invocation.compensation_status a.status command
    ok (index, a)

  -- The cleanup intent that a retry adds.
  unfoldable pub retry_intents :
      InvocationLedger → Option Time → CompensationStatus → Result (List.List DurableIntent)
  retry_intents next retry_at CompensationStatus.retry_wait = do
    intent ←
        new_durable_intent c DurableIntentKind.cleanup next.invocation.invocation_id
          next.invocation.revision
          (field "invocationId" (Json.text next.invocation.invocation_id) (
            field "retryAt" (retry_json retry_at)
              (field "invocationRevision" (num next.invocation.revision) Fields.end)))
    ok (intent ∷ [])
  retry_intents next retry_at _ = ok []

  unfoldable pub transition_invocation_compensation :
      InvocationLedger → TransitionInvocationCompensationCommand → Result InvocationDecision
  transition_invocation_compensation l command = do
    (index, a) ← check_compensation l command
    let next = compensated l index a command
    validate_invocation_ledger c next
    decision ←
        decide c next ("invocation.compensation." ++ compensation_status_name command.to)
          command.command_id command.fence.at
          (field "attemptId" (Json.text a.attempt_id) (
            field "attemptStatus" (Json.text (attempt_status_name command.attempt_to)) (
              field "compensationStatus" (Json.text (compensation_status_name command.to))
                Fields.end)))
          []
    intents ← retry_intents next command.retry_at command.to
    ok (record decision { intents = intents })
