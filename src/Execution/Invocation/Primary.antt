-- ===== src/Execution/Invocation/Primary.antt =====
-- kernel/execution/invocation.go: the results of a leased attempt of execution.
use Prim.Native.String.{◌++◌}
use xgc2_orchestration_core.Base.{
  ℕ, String, Bool, true, ◌&&◌, ◌||◌, not, Option, none, some, [], ◌==◌, ◌is◌, Result, ok, err,
  invalid, ◌>>=◌, ◌>>◌, require, refuse, is_set, Time, no_time, after, u64_inc, set, if◌then◌else◌,
}
use xgc2_orchestration_core.Contracts.Identity.{valid_digest}
use xgc2_orchestration_core.Contracts.Json.{Json, Fields, field, Canonical}
use xgc2_orchestration_core.Contracts.Statuses.{
  InvocationStatus, invocation_status_eq, invocation_status_terminal, invocation_status_name,
  AttemptPhase, AttemptStatus, attempt_status_eq, attempt_status_terminal, attempt_status_name,
}
use xgc2_orchestration_core.Contracts.Records.{
  StructuredFailure, Invocation, Attempt, InvocationLedger,
}
use xgc2_orchestration_core.Execution.Identity.{validate_identity, validate_failure}
use xgc2_orchestration_core.Execution.Invocation.Validation.{
  validate_invocation_transition, validate_attempt_transition, validate_invocation_ledger,
}
use xgc2_orchestration_core.Execution.Invocation.Fence.{
  InvocationDecision, AttemptFence, validate_attempt_fence_for_phase, decide,
}

pub record TransitionInvocationCommand : Type 0 where
  pub fence : AttemptFence
  pub to : InvocationStatus
  pub attempt_to : AttemptStatus
  pub output_refs_digest : String
  pub failure : Option StructuredFailure
  pub retry_at : Option Time
  pub wait_ref : String
  pub wait_generation : ℕ
  pub command_id : String

-- `command.RetryAt == nil || !command.RetryAt.After(at)`.
abbrev pub not_future : Option Time → Time → Bool
not_future none at = true
not_future (some retry) at = not (after retry at)

-- `validateAlignedTransition`, the `switch`.
unfoldable pub check_aligned : TransitionInvocationCommand → InvocationStatus → Result (Unit {0})
check_aligned command InvocationStatus.waiting =
    refuse
      (not (attempt_status_eq command.attempt_to AttemptStatus.waiting)
        || command.wait_ref is ""
        || command.wait_generation == 0)
      (invalid "waiting transition")
check_aligned command InvocationStatus.running =
    require (attempt_status_eq command.attempt_to AttemptStatus.running)
      (invalid "running transition")
check_aligned command InvocationStatus.succeeded =
    refuse
      (not (attempt_status_eq command.attempt_to AttemptStatus.succeeded)
        || not (valid_digest command.output_refs_digest)
        || is_set command.failure)
      (invalid "success transition")
check_aligned command InvocationStatus.retry_wait = do
  refuse
      (not (attempt_status_eq command.attempt_to AttemptStatus.failed)
        || not_future command.retry_at command.fence.at)
      (invalid "retry transition")
  validate_failure command.failure true "retry failure"
check_aligned command InvocationStatus.failed = do
  require
      (attempt_status_eq command.attempt_to AttemptStatus.failed
        || attempt_status_eq command.attempt_to AttemptStatus.abandoned)
      (invalid "failed transition")
  validate_failure command.failure true "invocation failure"
check_aligned command InvocationStatus.canceled =
    require
      (attempt_status_eq command.attempt_to AttemptStatus.canceled
        || attempt_status_eq command.attempt_to AttemptStatus.abandoned)
      (invalid "canceled transition")
check_aligned command _ = err (invalid "leased attempt cannot perform this transition")

unfoldable pub validate_aligned_transition : TransitionInvocationCommand → Result (Unit {0})
validate_aligned_transition command = do
  check_aligned command command.to
  refuse
      (not (invocation_status_eq command.to InvocationStatus.waiting)
        && (not (command.wait_ref is "") || not (command.wait_generation == 0)))
      (invalid "wait identity off waiting transition")
  refuse
      (not (invocation_status_eq command.to InvocationStatus.retry_wait) && is_set command.retry_at)
      (invalid "retry time off retry-wait transition")

unfoldable pub transitioned_attempt : Attempt → TransitionInvocationCommand → Attempt
transitioned_attempt a command = record a {
  status = command.attempt_to;
  revision = u64_inc a.revision;
  updated_at = command.fence.at;
  finished_at =
      if attempt_status_terminal command.attempt_to then some command.fence.at else a.finished_at;
  lease_expires_at =
      if attempt_status_terminal command.attempt_to then no_time else a.lease_expires_at;
  failure = command.failure;
}

unfoldable pub transitioned_invocation : Invocation → TransitionInvocationCommand → Invocation
transitioned_invocation i command = record i {
  status = command.to;
  revision = u64_inc i.revision;
  updated_at = command.fence.at;
  current_wait_ref =
      if invocation_status_eq command.to InvocationStatus.waiting then command.wait_ref else "";
  wait_generation =
      if invocation_status_eq command.to InvocationStatus.waiting
      then command.wait_generation
      else 0;
  next_attempt_at =
      if invocation_status_eq command.to InvocationStatus.retry_wait
      then command.retry_at
      else none;
  active_attempt_id =
      if invocation_status_eq command.to InvocationStatus.retry_wait
        || invocation_status_terminal command.to
      then ""
      else i.active_attempt_id;
  output_refs_digest =
      if invocation_status_eq command.to InvocationStatus.succeeded
      then command.output_refs_digest
      else i.output_refs_digest;
  primary_failure =
      if invocation_status_eq command.to InvocationStatus.failed
        || invocation_status_eq command.to InvocationStatus.retry_wait
      then command.failure
      else i.primary_failure;
  finished_at =
      if invocation_status_terminal command.to then some command.fence.at else i.finished_at;
}

unfoldable pub transitioned :
    InvocationLedger → ℕ → Attempt → TransitionInvocationCommand → InvocationLedger
transitioned l index a command = record {
  invocation = transitioned_invocation l.invocation command;
  attempts = set l.attempts index (transitioned_attempt a command);
}

module _ (c : Canonical) where
  -- The checks of `TransitionInvocation`, with the attempt that the fence names.
  unfoldable pub check_transition :
      InvocationLedger → TransitionInvocationCommand → Result (ℕ × Attempt)
  check_transition l command = do
    validate_invocation_ledger c l
    (index, a) ← validate_attempt_fence_for_phase c l command.fence AttemptPhase.execution
    validate_identity command.command_id "invocation transition command id"
    validate_invocation_transition l.invocation.status command.to
    validate_attempt_transition a.status command.attempt_to
    validate_aligned_transition command
    ok (index, a)

  unfoldable pub transition_invocation :
      InvocationLedger → TransitionInvocationCommand → Result InvocationDecision
  transition_invocation l command = do
    (index, a) ← check_transition l command
    let next = transitioned l index a command
    validate_invocation_ledger c next
    decide c next ("invocation." ++ invocation_status_name command.to) command.command_id
        command.fence.at
        (field "from" (Json.text (invocation_status_name l.invocation.status)) (
          field "to" (Json.text (invocation_status_name command.to)) (
            field "attemptId" (Json.text a.attempt_id) (
              field "attemptFrom" (Json.text (attempt_status_name a.status)) (
                field "attemptTo" (Json.text (attempt_status_name command.attempt_to))
                  Fields.end)))))
        []
