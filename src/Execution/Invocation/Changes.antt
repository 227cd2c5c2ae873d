-- ===== src/Execution/Invocation/Changes.antt =====
-- Every accepted operation is a change, with the checks that it passed.
use xgc2_orchestration_core.Base.{
  ℕ, String, List, ◌≡◌, ◌≢◌, refl, ok, Result-cases, inl, inr, arith, u32_inc, Time,
}
use xgc2_orchestration_core.Contracts.Json.{Canonical, Fields}
use xgc2_orchestration_core.Contracts.Records.{InvocationLedger, DurableIntent}
use xgc2_orchestration_core.Contracts.Statuses.{AttemptPhase, attempt_phase_eq}
use xgc2_orchestration_core.Execution.Invocation.Steps.{LedgerStep, Change}
use xgc2_orchestration_core.Execution.Identity.{or_empty, stable_attempt_id, private_token_digest}
use xgc2_orchestration_core.Execution.Event.{new_event}
use xgc2_orchestration_core.Execution.Invocation.Fence.{InvocationDecision, decide}
use xgc2_orchestration_core.Execution.Invocation.Claims.{
  ClaimInvocationCommand, new_attempt, check_claim, claim_invocation,
}
use xgc2_orchestration_core.Execution.Invocation.Primary.{
  TransitionInvocationCommand, check_transition, transition_invocation,
}
use xgc2_orchestration_core.Execution.Invocation.Waits.{
  ResolveInvocationWaitCommand, check_wait_resolution, resolve_invocation_wait,
}
use xgc2_orchestration_core.Execution.Invocation.Recovery.{
  HeartbeatAttemptCommand, ExpireInvocationAttemptCommand, ResolveUnleasedInvocationCommand,
  CancelInvocationCommand, canceled_attempts, check_heartbeat, check_expiry, heartbeat_attempt,
  expire_invocation_attempt, resolve_unleased_invocation, cancel_invocation,
}
use xgc2_orchestration_core.Execution.Invocation.Compensation.{
  ScheduleInvocationCompensationCommand, ClaimCompensationCommand,
  TransitionInvocationCompensationCommand, check_compensation, schedule_invocation_compensation,
  claim_compensation, transition_invocation_compensation,
}

module _ (c : Canonical) where
  -- A decision holds the ledger that it was made for, whose revision is not 0.
  pub decide-fields :
      (l : InvocationLedger) (event_type command_id : String) (at : Time) (payload : Fields)
      (intents : List DurableIntent) {d : InvocationDecision}
      → decide c l event_type command_id at payload intents ≡ ok d
      → (d.ledger ≡ l) × (l.invocation.revision ≢ 0)
  unfolding decide new_event
  decide-fields l event_type command_id at payload intents h = ground arith

  check_claim-phase :
      (l : InvocationLedger) (command : ClaimInvocationCommand)
      → check_claim c l command ≡ ok tt
      → command.phase ≡ AttemptPhase.execution
  unfolding check_claim attempt_phase_eq
  check_claim-phase l command h = ground arith

  claim-Change :
      (l : InvocationLedger) (command : ClaimInvocationCommand) {d : InvocationDecision}
      → claim_invocation c l command ≡ ok d
      → Change c l d.ledger
  unfolding claim_invocation decide
  claim-Change l command {d} h = elim (Result-cases (private_token_digest c command.lease_token)) [
    | inl (hash, hashed) ↦
        Change.claimed_by command
          (new_attempt l.invocation command.phase ordinal
            (or_empty (stable_attempt_id c l.invocation.invocation_id command.phase ordinal))
            command.owner_ref hash command.lease_expires_at command.at)
          (ground arith) (unfold new_attempt in check_claim-phase l command (ground arith))
          (unfold new_attempt in refl) (unfold new_attempt in refl) (ground arith) (ground arith)
    | inr (x, failed) ↦ absurd (ground arith)
  ]
    where
      ordinal : ℕ
      ordinal = u32_inc l.invocation.execution_attempt_count

  transition-Change :
      (l : InvocationLedger) (command : TransitionInvocationCommand) {d : InvocationDecision}
      → transition_invocation c l command ≡ ok d
      → Change c l d.ledger
  unfolding transition_invocation decide
  transition-Change l command {d} h = elim (Result-cases (check_transition c l command)) [
    | inl ((n, a), checked) ↦
        Change.transitioned_by command n a checked (ground arith) (ground arith)
    | inr (x, failed) ↦ absurd (ground arith)
  ]

  resolve-Change :
      (l : InvocationLedger) (command : ResolveInvocationWaitCommand) {d : InvocationDecision}
      → resolve_invocation_wait c l command ≡ ok d
      → Change c l d.ledger
  unfolding resolve_invocation_wait decide
  resolve-Change l command {d} h = elim (Result-cases (check_wait_resolution c l command)) [
    | inl ((n, a, to), checked) ↦
        Change.resolved_by command n a to checked (ground arith) (ground arith)
    | inr (x, failed) ↦ absurd (ground arith)
  ]

  heartbeat-Change :
      (l : InvocationLedger) (command : HeartbeatAttemptCommand) {d : InvocationDecision}
      → heartbeat_attempt c l command ≡ ok d
      → Change c l d.ledger
  unfolding heartbeat_attempt decide new_event
  heartbeat-Change l command {d} h = elim (Result-cases (check_heartbeat c l command)) [
    | inl ((n, a), checked) ↦
        Change.heartbeaten_by command n a checked (ground arith) (ground arith)
    | inr (x, failed) ↦ absurd (ground arith)
  ]

  expire-Change :
      (l : InvocationLedger) (command : ExpireInvocationAttemptCommand) {d : InvocationDecision}
      → expire_invocation_attempt c l command ≡ ok d
      → Change c l d.ledger
  unfolding expire_invocation_attempt decide
  expire-Change l command {d} h = elim (Result-cases (check_expiry c l command)) [
    | inl ((n, a), checked) ↦ Change.expired_by command n a checked (ground arith) (ground arith)
    | inr (x, failed) ↦ absurd (ground arith)
  ]

  unleased-Change :
      (l : InvocationLedger) (command : ResolveUnleasedInvocationCommand) {d : InvocationDecision}
      → resolve_unleased_invocation c l command ≡ ok d
      → Change c l d.ledger
  unfolding resolve_unleased_invocation decide
  unleased-Change l command {d} h =
      Change.unleased_by command (ground arith) (ground arith) (ground arith)

  cancel-Change :
      (l : InvocationLedger) (command : CancelInvocationCommand) {d : InvocationDecision}
      → cancel_invocation c l command ≡ ok d
      → Change c l d.ledger
  unfolding cancel_invocation decide
  cancel-Change l command {d} h = elim (Result-cases (canceled_attempts l command.at)) [
    | inl (attempts, built) ↦
        Change.canceled_by command attempts (ground arith) built (ground arith) (ground arith)
    | inr (x, failed) ↦ absurd (ground arith)
  ]

  schedule-Change :
      (l : InvocationLedger) (command : ScheduleInvocationCompensationCommand)
      {d : InvocationDecision}
      → schedule_invocation_compensation c l command ≡ ok d
      → Change c l d.ledger
  unfolding schedule_invocation_compensation decide new_event
  schedule-Change l command {d} h =
      Change.scheduled_by command (ground arith) (ground arith) (ground arith)

  compensation_claim-Change :
      (l : InvocationLedger) (command : ClaimCompensationCommand) {d : InvocationDecision}
      → claim_compensation c l command ≡ ok d
      → Change c l d.ledger
  unfolding claim_compensation decide
  compensation_claim-Change l command {d} h =
      elim (Result-cases (private_token_digest c command.lease_token)) [
        | inl (hash, hashed) ↦
            Change.compensation_claimed_by command
              (new_attempt l.invocation AttemptPhase.compensation ordinal
                (or_empty (
                  stable_attempt_id c l.invocation.invocation_id AttemptPhase.compensation ordinal))
                command.owner_ref hash command.lease_expires_at command.at)
              (ground arith) (unfold new_attempt in refl) (unfold new_attempt in refl)
              (unfold new_attempt in refl) (ground arith) (ground arith)
        | inr (x, failed) ↦ absurd (ground arith)
      ]
    where
      ordinal : ℕ
      ordinal = u32_inc l.invocation.compensation_attempt_count

  compensate-Change :
      (l : InvocationLedger) (command : TransitionInvocationCompensationCommand)
      {d : InvocationDecision}
      → transition_invocation_compensation c l command ≡ ok d
      → Change c l d.ledger
  unfolding transition_invocation_compensation decide
  compensate-Change l command {d} h = elim (Result-cases (check_compensation c l command)) [
    | inl ((n, a), checked) ↦
        Change.compensated_by command n a checked (ground arith) (ground arith)
    | inr (x, failed) ↦ absurd (ground arith)
  ]

  pub LedgerStep-Change : {l m : InvocationLedger} → LedgerStep c l m → Change c l m
  LedgerStep-Change {l} (LedgerStep.claim command d h e) = rw e (claim-Change l command h)
  LedgerStep-Change {l} (LedgerStep.transition command d h e) = rw e (transition-Change l command h)
  LedgerStep-Change {l} (LedgerStep.resolve_wait command d h e) = rw e (resolve-Change l command h)
  LedgerStep-Change {l} (LedgerStep.heartbeat command d h e) = rw e (heartbeat-Change l command h)
  LedgerStep-Change {l} (LedgerStep.expire command d h e) = rw e (expire-Change l command h)
  LedgerStep-Change {l} (LedgerStep.resolve_unleased command d h e) =
      rw e (unleased-Change l command h)
  LedgerStep-Change {l} (LedgerStep.cancel command d h e) = rw e (cancel-Change l command h)
  LedgerStep-Change {l} (LedgerStep.schedule command d h e) = rw e (schedule-Change l command h)
  LedgerStep-Change {l} (LedgerStep.claim_compensations command d h e) =
      rw e (compensation_claim-Change l command h)
  LedgerStep-Change {l} (LedgerStep.compensate command d h e) = rw e (compensate-Change l command h)
