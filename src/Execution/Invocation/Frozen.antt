-- ===== src/Execution/Invocation/Frozen.antt =====
-- What no operation on a ledger changes: the identity and the frozen inputs of an invocation, and the
-- outcome of one that has ended.
use xgc2_orchestration_core.Base.{true, ◌+◌, ◌<◌, ◌≡◌, ◌≢◌, ok, arith, u64_inc}
use xgc2_orchestration_core.Contracts.Json.{Canonical}
use xgc2_orchestration_core.Contracts.Records.{Invocation, InvocationLedger}
use xgc2_orchestration_core.Contracts.Statuses.{invocation_status_eq, invocation_status_terminal}
use xgc2_orchestration_core.Execution.Invocation.Validation.{
  validate_invocation_ledger, validate_invocation_state, validate_invocation_transition,
  invocation_allowed,
}
use xgc2_orchestration_core.Execution.Invocation.Claims.{claimed, check_claim}
use xgc2_orchestration_core.Execution.Invocation.Primary.{
  transitioned, transitioned_invocation, check_transition,
}
use xgc2_orchestration_core.Execution.Invocation.Waits.{wait_resolved, check_wait_resolution}
use xgc2_orchestration_core.Execution.Invocation.Recovery.{
  heartbeaten, expired, unleased, canceled, check_expiry, check_unleased, check_cancel,
  unleased_allowed,
}
use xgc2_orchestration_core.Execution.Invocation.Compensation.{
  scheduled, compensation_claimed, compensated,
}
use xgc2_orchestration_core.Execution.Invocation.Steps.{LedgerStep, Change}
use xgc2_orchestration_core.Execution.Invocation.Changes.{LedgerStep-Change}

pub record SameInvocation (i j : Invocation) : Type 0 where
  pub invocation_id : j.invocation_id ≡ i.invocation_id
  pub namespace_id : j.namespace_id ≡ i.namespace_id
  pub run_id : j.run_id ≡ i.run_id
  pub node_id : j.node_id ≡ i.node_id
  pub type_ref : j.type_ref ≡ i.type_ref
  pub descriptor_digest : j.descriptor_digest ≡ i.descriptor_digest
  pub resolved_input_digest : j.resolved_input_digest ≡ i.resolved_input_digest
  pub input_refs_digest : j.input_refs_digest ≡ i.input_refs_digest
  pub created_at : j.created_at ≡ i.created_at

-- The outcome of the primary execution.
pub record SameOutcome (i j : Invocation) : Type 0 where
  pub status : j.status ≡ i.status
  pub output_refs_digest : j.output_refs_digest ≡ i.output_refs_digest
  pub primary_failure : j.primary_failure ≡ i.primary_failure
  pub execution_attempt_count : j.execution_attempt_count ≡ i.execution_attempt_count
  pub active_attempt_id : j.active_attempt_id ≡ i.active_attempt_id
  pub started_at : j.started_at ≡ i.started_at
  pub finished_at : j.finished_at ≡ i.finished_at

module _ (c : Canonical) where
  ledger-revision :
      (m : InvocationLedger) → validate_invocation_ledger c m ≡ ok tt → m.invocation.revision ≢ 0
  unfolding validate_invocation_ledger validate_invocation_state
  ledger-revision m h = ground arith

  Change-SameInvocation :
      {l m : InvocationLedger}
      → Change c l m
      → SameInvocation l.invocation m.invocation
        × (m.invocation.revision ≢ 0)
        × (m.invocation.revision ≡ u64_inc l.invocation.revision)
  unfolding claimed transitioned transitioned_invocation wait_resolved heartbeaten expired unleased
      canceled scheduled compensation_claimed compensated
  Change-SameInvocation {m = m} (Change.claimed_by command a checked p s o valid e) =
      ground (arith, ledger-revision m valid)
  Change-SameInvocation {m = m} (Change.transitioned_by command n a checked valid e) =
      ground (arith, ledger-revision m valid)
  Change-SameInvocation {m = m} (Change.resolved_by command n a to checked valid e) =
      ground (arith, ledger-revision m valid)
  Change-SameInvocation {m = m} (Change.heartbeaten_by command n a checked valid e) = ground arith
  Change-SameInvocation {m = m} (Change.expired_by command n a checked valid e) =
      ground (arith, ledger-revision m valid)
  Change-SameInvocation {m = m} (Change.unleased_by command checked valid e) =
      ground (arith, ledger-revision m valid)
  Change-SameInvocation {m = m} (Change.canceled_by command attempts checked built valid e) =
      ground (arith, ledger-revision m valid)
  Change-SameInvocation {m = m} (Change.scheduled_by command checked valid e) = ground arith
  Change-SameInvocation {m = m} (Change.compensation_claimed_by command a checked p s o valid e) =
      ground (arith, ledger-revision m valid)
  Change-SameInvocation {m = m} (Change.compensated_by command n a checked valid e) =
      ground (arith, ledger-revision m valid)

  -- Every operation on a ledger keeps the identity and the frozen inputs of its invocation and adds
  -- exactly one to its revision: the 64-bit counter does not wrap.
  pub LedgerStep-SameInvocation :
      {l m : InvocationLedger}
      → l.invocation.revision < 18446744073709551616
      → LedgerStep c l m
      → SameInvocation l.invocation m.invocation
        × (m.invocation.revision ≡ l.invocation.revision + 1)
  LedgerStep-SameInvocation small s =
      let (same, positive, counted) = Change-SameInvocation (LedgerStep-Change c s) in
      (same, omega (arith, positive, counted))

  Change-SameOutcome :
      {l m : InvocationLedger}
      → Change c l m
      → invocation_status_terminal l.invocation.status ≡ true
      → SameOutcome l.invocation m.invocation
  unfolding heartbeaten scheduled compensation_claimed compensated check_claim check_transition
      check_wait_resolution check_expiry check_unleased check_cancel validate_invocation_transition
      invocation_allowed unleased_allowed invocation_status_eq invocation_status_terminal
  Change-SameOutcome (Change.claimed_by command a checked p s o valid e) t = absurd (ground arith)
  Change-SameOutcome (Change.transitioned_by command n a checked valid e) t = absurd (ground arith)
  Change-SameOutcome (Change.resolved_by command n a to checked valid e) t = absurd (ground arith)
  Change-SameOutcome (Change.heartbeaten_by command n a checked valid e) t = ground arith
  Change-SameOutcome (Change.expired_by command n a checked valid e) t = absurd (ground arith)
  Change-SameOutcome (Change.unleased_by command checked valid e) t = absurd (ground arith)
  Change-SameOutcome (Change.canceled_by command attempts checked built valid e) t =
      absurd (ground arith)
  Change-SameOutcome (Change.scheduled_by command checked valid e) t = ground arith
  Change-SameOutcome (Change.compensation_claimed_by command a checked p s o valid e) t =
      ground arith
  Change-SameOutcome (Change.compensated_by command n a checked valid e) t = ground arith

  -- The outcome of an invocation that has ended is final: no operation changes its status, output,
  -- failure, times or attempts of execution any more.
  pub LedgerStep-SameOutcome :
      {l m : InvocationLedger}
      → LedgerStep c l m
      → invocation_status_terminal l.invocation.status ≡ true
      → SameOutcome l.invocation m.invocation
  LedgerStep-SameOutcome s t = Change-SameOutcome (LedgerStep-Change c s) t
