-- ===== src/Execution/Invocation/Waits.antt =====
-- kernel/execution/invocation.go: the resolution of a durable wait.
use Prim.Native.String.{◌++◌}
use xgc2_orchestration_core.Base.{
  ℕ, String, true, ◌&&◌, ◌||◌, not, Option, none, some, [], ◌==◌, ◌is◌, Result, ok, err, invalid,
  invalid_transition, revision_conflict, ◌>>=◌, ◌>>◌, require, refuse, is_set, Time, is_zero,
  before, u64_inc, set,
}
use xgc2_orchestration_core.Contracts.Identity.{valid_digest}
use xgc2_orchestration_core.Contracts.Json.{Json, Fields, field, num, Canonical}
use xgc2_orchestration_core.Contracts.Statuses.{
  InvocationStatus, invocation_status_eq, invocation_status_name, AttemptPhase, attempt_phase_eq,
  AttemptStatus, attempt_status_eq,
}
use xgc2_orchestration_core.Contracts.Records.{
  StructuredFailure, Invocation, Attempt, InvocationLedger,
}
use xgc2_orchestration_core.Execution.Identity.{validate_identity, validate_failure}
use xgc2_orchestration_core.Execution.Invocation.Validation.{validate_invocation_ledger, locate}
use xgc2_orchestration_core.Execution.Invocation.Fence.{InvocationDecision, decide, close_attempt}

pub record ResolveInvocationWaitCommand : Type 0 where
  pub invocation_id : String
  pub expected_revision : ℕ
  pub attempt_id : String
  pub expected_attempt_revision : ℕ
  pub wait_ref : String
  pub wait_generation : ℕ
  pub to : InvocationStatus
  pub output_refs_digest : String
  pub failure : Option StructuredFailure
  pub command_id : String
  pub at : Time

-- The `switch` of `ResolveInvocationWait`: the status of the attempt for each resolution.
unfoldable pub wait_resolution :
    ResolveInvocationWaitCommand → InvocationStatus → Result AttemptStatus
wait_resolution command InvocationStatus.succeeded = do
  refuse (not (valid_digest command.output_refs_digest) || is_set command.failure)
      (invalid "successful wait resolution")
  ok AttemptStatus.succeeded
wait_resolution command InvocationStatus.failed = do
  validate_failure command.failure true "wait resolution failure"
  ok AttemptStatus.failed
wait_resolution command InvocationStatus.canceled = do
  refuse (is_set command.failure || not (command.output_refs_digest is ""))
      (invalid "canceled wait resolution")
  ok AttemptStatus.canceled
wait_resolution command _ = err invalid_transition

unfoldable pub check_waiting_attempt :
    Invocation → ResolveInvocationWaitCommand → Option (ℕ × Attempt) → Result (ℕ × Attempt)
check_waiting_attempt i command none = err revision_conflict
check_waiting_attempt i command (some (index, a)) = do
  require
      (a.attempt_id is i.active_attempt_id
        && attempt_phase_eq a.phase AttemptPhase.execution
        && attempt_status_eq a.status AttemptStatus.waiting
        && a.revision == command.expected_attempt_revision)
      revision_conflict
  ok (index, a)

unfoldable pub wait_resolved :
    InvocationLedger → ℕ → Attempt → ResolveInvocationWaitCommand → AttemptStatus → InvocationLedger
wait_resolved l index a command attempt_to = record {
  invocation = record l.invocation {
    status = command.to;
    active_attempt_id = "";
    current_wait_ref = "";
    wait_generation = 0;
    output_refs_digest = command.output_refs_digest;
    primary_failure = command.failure;
    updated_at = command.at;
    finished_at = some command.at;
    revision = u64_inc l.invocation.revision;
  };
  attempts = set l.attempts index (close_attempt attempt_to command.failure command.at a);
}

module _ (c : Canonical) where
  -- The checks of `ResolveInvocationWait`, with the attempt and its final status.
  unfoldable pub check_wait_resolution :
      InvocationLedger → ResolveInvocationWaitCommand → Result (ℕ × Attempt × AttemptStatus)
  check_wait_resolution l command = do
    validate_invocation_ledger c l
    require
        (command.invocation_id is l.invocation.invocation_id
          && command.expected_revision == l.invocation.revision)
        revision_conflict
    require
        (invocation_status_eq l.invocation.status InvocationStatus.waiting
          && command.wait_ref is l.invocation.current_wait_ref
          && command.wait_generation == l.invocation.wait_generation
          && not (command.wait_generation == 0))
        invalid_transition
    refuse (is_zero command.at || before command.at l.invocation.updated_at)
        (invalid "wait resolution time")
    validate_identity command.command_id "wait resolution command id"
    (index, a) ← check_waiting_attempt l.invocation command (locate l.attempts command.attempt_id)
    attempt_to ← wait_resolution command command.to
    refuse
        (not (invocation_status_eq command.to InvocationStatus.succeeded)
          && not (command.output_refs_digest is ""))
        (invalid "non-successful wait resolution cannot carry output")
    ok (index, a, attempt_to)

  unfoldable pub resolve_invocation_wait :
      InvocationLedger → ResolveInvocationWaitCommand → Result InvocationDecision
  resolve_invocation_wait l command = do
    (index, a, attempt_to) ← check_wait_resolution l command
    let next = wait_resolved l index a command attempt_to
    validate_invocation_ledger c next
    decide c next ("invocation.wait-resolved." ++ invocation_status_name command.to)
        command.command_id command.at
        (field "waitRef" (Json.text command.wait_ref) (
          field "waitGeneration" (num command.wait_generation) (
            field "attemptId" (Json.text a.attempt_id)
              (field "attemptRevision" (num (u64_inc a.revision)) Fields.end))))
        []
