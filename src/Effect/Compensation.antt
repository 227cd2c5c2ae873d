-- ===== src/Effect/Compensation.antt =====
-- kernel/effect/effect.go: the operations on the compensation of an applied effect.
use Prim.Native.String.{◌++◌}
use xgc2_orchestration_core.Base.{
  Bool, true, false, ◌&&◌, ◌||◌, none, some, List, [], ◌∷◌, ◌is◌, Result, ok, invalid,
  invalid_transition, revision_conflict, receipt_conflict, ◌>>=◌, ◌>>◌, require, refuse,
}
use xgc2_orchestration_core.Contracts.Identity.{valid_digest}
use xgc2_orchestration_core.Contracts.Json.{Json, Fields, field, num, Canonical}
use xgc2_orchestration_core.Contracts.Statuses.{DurableIntentKind}
use xgc2_orchestration_core.Contracts.Records.{DurableIntent}
use xgc2_orchestration_core.Contracts.EffectStates.{
  CompensationPolicy, compensation_policy_eq, EffectState, effect_state_eq, EffectCompensationState,
  effect_compensation_name, receipt_status_name,
}
use xgc2_orchestration_core.Contracts.Effects.{EffectRecord, CommandLedger}
use xgc2_orchestration_core.Execution.Identity.{validate_identity, validate_identities}
use xgc2_orchestration_core.Effect.Records.{is_compensated, in_compensation, validate_record}
use xgc2_orchestration_core.Effect.Receipts.{validate_ledger, validate_next_receipt}
use xgc2_orchestration_core.Effect.Commands.{
  CompensationCommand, ObserveCompensationCommand, ReconcileCompensationCommand, EffectDecision,
}
use xgc2_orchestration_core.Effect.Events.{effect_intent, effect_event}
use xgc2_orchestration_core.Effect.Outcomes.{
  append_receipt, targets, out_of_time, receipt_fields, known_status,
}
use xgc2_orchestration_core.Effect.Remedies.{
  awaits_reconciliation, compensated_effect, compensation_received_effect, is_compensation,
  reconciled_effect, validate_effect_compensation_transition,
}

module _ (c : Canonical) where
  unfoldable pub check_effect_compensation : EffectRecord → CompensationCommand → Result (Unit {0})
  check_effect_compensation current command = do
    validate_record c current
    require (targets current command.effect_id command.expected_revision) revision_conflict
    validate_identity command.command_id "compensation transition command id"
    refuse (out_of_time current command.at) (invalid "compensation time")
    require (effect_state_eq current.state EffectState.applied && is_compensated current)
        invalid_transition
    validate_effect_compensation_transition current.compensation_state command

  -- The cleanup intent of a compensation that waits to run.
  unfoldable pub compensation_intents : EffectRecord → Bool → Result (List DurableIntent)
  compensation_intents next true = do
    intent ← effect_intent c DurableIntentKind.cleanup next.effect_id next.revision (
        field "effectId" (Json.text next.effect_id) (
          field "compensationState" (Json.text (effect_compensation_name next.compensation_state))
            (field "effectRevision" (num next.revision) Fields.end)))
    ok (intent ∷ [])
  compensation_intents next false = ok []

  unfoldable pub transition_compensation :
      EffectRecord → CompensationCommand → Result EffectDecision
  transition_compensation current command = do
    check_effect_compensation current command
    let next = compensated_effect current command
    validate_record c next
    event ←
        effect_event c next ("effect.compensation." ++ effect_compensation_name command.to)
          command.command_id command.at
          (field "from" (Json.text (effect_compensation_name current.compensation_state)) (
            field "to" (Json.text (effect_compensation_name command.to))
              (field "attemptCount" (num next.compensation_attempt_count) Fields.end)))
    intents ← compensation_intents next (
        is_compensation command.to EffectCompensationState.pending
        || is_compensation command.to EffectCompensationState.retry_wait)
    ok (record { effect = next; ledger = none; events = event ∷ []; intents = intents })

  unfoldable pub check_compensation_observation :
      EffectRecord → CommandLedger → ObserveCompensationCommand → Result (Unit {0})
  check_compensation_observation current ledger command = do
    validate_record c current
    validate_ledger c ledger
    require (targets current command.effect_id command.expected_revision) revision_conflict
    require
        (effect_state_eq current.state EffectState.applied
          && in_compensation current EffectCompensationState.running
          && ledger.envelope.command_id is current.compensation_command_id
          && ledger.envelope.effect_id is current.effect_id)
        invalid_transition
    validate_identity command.command_id "compensation observation command id"
    validate_next_receipt c ledger command.receipt
    validate_ledger c (append_receipt ledger command.receipt)
    require (known_status command.receipt.status) receipt_conflict

  unfoldable pub observe_compensation :
      EffectRecord → CommandLedger → ObserveCompensationCommand → Result EffectDecision
  observe_compensation current ledger command = do
    check_compensation_observation current ledger command
    let next = compensation_received_effect current command.receipt
    validate_record c next
    event ←
        effect_event c next
          ("effect.compensation.receipt." ++ receipt_status_name command.receipt.status)
          command.command_id command.receipt.observed_at (receipt_fields command.receipt)
    ok (record {
      effect = next;
      ledger = some (append_receipt ledger command.receipt);
      events = event ∷ [];
      intents = [];
    })

  unfoldable pub check_compensation_reconciliation :
      EffectRecord → ReconcileCompensationCommand → Result (Unit {0})
  check_compensation_reconciliation current command = do
    validate_record c current
    require (targets current command.effect_id command.expected_revision) revision_conflict
    require
        (effect_state_eq current.state EffectState.applied
          && compensation_policy_eq current.intent.compensation_policy CompensationPolicy.required
          && awaits_reconciliation current)
        invalid_transition
    require (valid_digest command.evidence_digest)
        (invalid "compensation reconciliation evidence digest")
    validate_identities (command.reconciled_by ∷ command.reason_code ∷ command.command_id ∷ [])
    refuse (out_of_time current command.at) (invalid "compensation reconciliation time")

  unfoldable pub reconcile_compensation :
      EffectRecord → ReconcileCompensationCommand → Result EffectDecision
  reconcile_compensation current command = do
    check_compensation_reconciliation current command
    let next = reconciled_effect current command
    validate_record c next
    event ← effect_event c next "effect.compensation.reconciled" command.command_id command.at (
        field "evidenceDigest" (Json.text command.evidence_digest) (
          field "reconciledBy" (Json.text command.reconciled_by)
            (field "reasonCode" (Json.text command.reason_code) Fields.end)))
    ok (record { effect = next; ledger = none; events = event ∷ []; intents = [] })
