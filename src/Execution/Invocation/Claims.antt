-- ===== src/Execution/Invocation/Claims.antt =====
-- kernel/execution/invocation.go: the claim of an attempt of execution by a worker.
use xgc2_orchestration_core.Base.{
  ℕ, String, Bool, true, ◌&&◌, ◌||◌, not, Option, none, some, [], ◌∷◌, ◌==◌, ◌is◌, Result, invalid,
  invalid_transition, revision_conflict, ◌>>=◌, ◌>>◌, require, refuse, Time, is_zero, before, after,
  u64_inc, u32_inc,
}
use mathlib.Core.List
use xgc2_orchestration_core.Contracts.Json.{Json, Fields, field, num, Canonical}
use xgc2_orchestration_core.Contracts.Statuses.{
  InvocationStatus, invocation_status_eq, AttemptPhase, attempt_phase_eq, AttemptStatus,
}
use xgc2_orchestration_core.Contracts.Records.{Invocation, Attempt, InvocationLedger}
use xgc2_orchestration_core.Execution.Identity.{
  validate_identity, validate_canonical_text, or_empty, stable_attempt_id, private_token_digest,
}
use xgc2_orchestration_core.Execution.Run.Transition.{or_started}
use xgc2_orchestration_core.Execution.Invocation.Validation.{validate_invocation_ledger}
use xgc2_orchestration_core.Execution.Invocation.Fence.{InvocationDecision, decide}

pub record ClaimInvocationCommand : Type 0 where
  pub invocation_id : String
  pub expected_revision : ℕ
  pub phase : AttemptPhase
  pub owner_ref : String
  pub lease_token : String
  pub lease_expires_at : Time
  pub command_id : String
  pub at : Time

-- `invocation.NextAttemptAt == nil || command.At.Before(*invocation.NextAttemptAt)`.
abbrev pub not_due : Option Time → Time → Bool
not_due none at = true
not_due (some due) at = before at due

-- The attempt that a claim appends.
unfoldable pub new_attempt :
    Invocation → AttemptPhase → ℕ → String → String → String → Time → Time → Attempt
new_attempt i phase ordinal id owner lease_hash lease_expires_at at = record {
  attempt_id = id;
  namespace_id = i.namespace_id;
  run_id = i.run_id;
  invocation_id = i.invocation_id;
  phase = phase;
  ordinal = ordinal;
  status = AttemptStatus.running;
  resolved_input_digest = i.resolved_input_digest;
  owner_ref = owner;
  lease_token_hash = lease_hash;
  lease_expires_at = lease_expires_at;
  adoption_count = 0;
  checkpoint_ref = "";
  checkpoint_digest = "";
  failure = none;
  created_at = at;
  started_at = at;
  updated_at = at;
  finished_at = none;
  revision = 1;
}

unfoldable pub claimed : InvocationLedger → Attempt → Time → InvocationLedger
claimed l a at = record {
  invocation = record l.invocation {
    status = InvocationStatus.running;
    active_attempt_id = a.attempt_id;
    execution_attempt_count = a.ordinal;
    next_attempt_at = none;
    primary_failure = none;
    revision = u64_inc l.invocation.revision;
    updated_at = at;
    started_at = or_started l.invocation.started_at true at;
  };
  attempts = List.◌++◌ l.attempts (a ∷ []);
}

module _ (c : Canonical) where
  -- The checks of `ClaimInvocation`.
  unfoldable pub check_claim : InvocationLedger → ClaimInvocationCommand → Result (Unit {0})
  check_claim l command = do
    validate_invocation_ledger c l
    require (command.invocation_id is l.invocation.invocation_id)
        (invalid "claim targets another invocation")
    require (command.expected_revision == l.invocation.revision) revision_conflict
    refuse
        (is_zero command.at
          || before command.at l.invocation.updated_at
          || not (after command.lease_expires_at command.at))
        (invalid "claim times")
    validate_identity command.owner_ref "attempt owner ref"
    validate_canonical_text command.lease_token "attempt lease token" 512 true
    validate_identity command.command_id "claim command id"
    require (attempt_phase_eq command.phase AttemptPhase.execution)
        (invalid "execution claim requires execution attempt phase")
    require
        (invocation_status_eq l.invocation.status InvocationStatus.ready
          || invocation_status_eq l.invocation.status InvocationStatus.retry_wait)
        invalid_transition
    refuse
        (invocation_status_eq l.invocation.status InvocationStatus.retry_wait
          && not_due l.invocation.next_attempt_at command.at)
        invalid_transition

  unfoldable pub claim_invocation :
      InvocationLedger → ClaimInvocationCommand → Result InvocationDecision
  claim_invocation l command = do
    check_claim l command
    lease_hash ← private_token_digest c command.lease_token
    let i = l.invocation
    let ordinal = u32_inc i.execution_attempt_count
    let id = or_empty (stable_attempt_id c i.invocation_id command.phase ordinal)
    let next =
        claimed l
          (new_attempt i command.phase ordinal id command.owner_ref lease_hash
            command.lease_expires_at command.at)
          command.at
    validate_invocation_ledger c next
    decide c next "invocation.claimed" command.command_id command.at
        (field "attemptId" (Json.text id) (
          field "attemptOrdinal" (num ordinal) (
            field "ownerRef" (Json.text command.owner_ref) (
              field "leaseTokenHash" (Json.text lease_hash)
                (field "leaseExpiresAt" (Json.time command.lease_expires_at) Fields.end)))))
        []
