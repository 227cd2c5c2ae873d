-- ===== src/Effect/Primary.antt =====
-- kernel/effect/effect.go: the operations on the primary state of an effect.
use Prim.Native.String.{◌++◌}
use xgc2_orchestration_core.Base.{
  true, ◌&&◌, not, none, some, [], ◌∷◌, ◌is◌, Result, ok, invalid, invalid_transition,
  revision_conflict, command_conflict, reconcile_required, effect_conflict, receipt_conflict, ◌>>=◌,
  ◌>>◌, require, refuse, is_zero,
}
use xgc2_orchestration_core.Contracts.Json.{Json, Fields, field, Canonical, digest_value}
use xgc2_orchestration_core.Contracts.Statuses.{DurableIntentKind}
use xgc2_orchestration_core.Contracts.EffectStates.{
  EffectState, effect_state_eq, effect_state_name, receipt_status_name,
}
use xgc2_orchestration_core.Contracts.Effects.{EffectRecord, CommandLedger}
use xgc2_orchestration_core.Execution.Identity.{validate_identity, or_empty}
use xgc2_orchestration_core.Effect.Json.{effect_intent_json, command_envelope_json}
use xgc2_orchestration_core.Effect.Checks.{stable_effect_id}
use xgc2_orchestration_core.Effect.Records.{validate_intent, validate_record}
use xgc2_orchestration_core.Effect.Envelopes.{validate_envelope_for_intent}
use xgc2_orchestration_core.Effect.Receipts.{validate_ledger, validate_next_receipt}
use xgc2_orchestration_core.Effect.Commands.{
  PrepareCommand, BeginCommand, ObserveReceiptCommand, ReconcileCommand, CancelPreparedCommand,
  EffectDecision,
}
use xgc2_orchestration_core.Effect.Events.{effect_intent, effect_event}
use xgc2_orchestration_core.Effect.Outcomes.{
  append_receipt, begun_effect, can_begin, canceled_effect, known_status, new_ledger, out_of_time,
  prepared_effect, receipt_fields, received_effect, reconcile_fields, reconciling_effect, targets,
}

module _ (c : Canonical) where
  unfoldable pub check_prepare : PrepareCommand → Result (Unit {0})
  check_prepare command = do
    validate_identity command.command_id "prepare command id"
    refuse (is_zero command.at) (invalid "effect preparation time is required")
    validate_intent c command.intent command.at
    require
        (command.intent.effect_id
          is or_empty (stable_effect_id c command.intent.invocation_id command.intent.effect_key))
        (invalid "effect identity does not match invocation and key")

  unfoldable pub prepare_effect : PrepareCommand → Result EffectDecision
  prepare_effect command = do
    check_prepare command
    preparation_digest ← digest_value c (effect_intent_json command.intent)
    let next = prepared_effect command preparation_digest
    validate_record c next
    event ← effect_event c next "effect.prepared" command.command_id command.at (
        field "preparationDigest" (Json.text preparation_digest)
          (field "intentDigest" (Json.text next.intent.intent_digest) Fields.end))
    ok (record { effect = next; ledger = none; events = event ∷ []; intents = [] })

  unfoldable pub replay_prepare : EffectRecord → PrepareCommand → Result EffectDecision
  replay_prepare existing command = do
    validate_record c existing
    prepared ← prepare_effect command
    require
        (existing.effect_id is prepared.effect.effect_id
          && existing.preparation_digest is prepared.effect.preparation_digest)
        effect_conflict
    ok (record { effect = existing; ledger = none; events = []; intents = [] })

  unfoldable pub check_cancel_prepared : EffectRecord → CancelPreparedCommand → Result (Unit {0})
  check_cancel_prepared current command = do
    validate_record c current
    require (targets current command.effect_id command.expected_revision) revision_conflict
    require (effect_state_eq current.state EffectState.prepared) invalid_transition
    validate_identity command.command_id "effect cancellation command id"
    refuse (out_of_time current command.at) (invalid "effect cancellation time")

  unfoldable pub cancel_prepared : EffectRecord → CancelPreparedCommand → Result EffectDecision
  cancel_prepared current command = do
    check_cancel_prepared current command
    let next = canceled_effect current command
    validate_record c next
    event ← effect_event c next "effect.canceled" command.command_id command.at (
        field "from" (Json.text (effect_state_name current.state))
          (field "to" (Json.text (effect_state_name next.state)) Fields.end))
    ok (record { effect = next; ledger = none; events = event ∷ []; intents = [] })

  unfoldable pub check_begin : EffectRecord → BeginCommand → Result (Unit {0})
  check_begin current command = do
    validate_record c current
    require (targets current command.effect_id command.expected_revision) revision_conflict
    require (command.command_id is command.envelope.command_id)
        (invalid "begin command id must equal envelope command id")
    refuse (out_of_time current command.at) (invalid "effect begin time")
    refuse (effect_state_eq current.state EffectState.uncertain) reconcile_required
    require (can_begin current) invalid_transition
    refuse (not (current.command_id is "") && command.envelope.command_id is current.command_id)
        command_conflict
    validate_envelope_for_intent c command.envelope current.intent command.at true

  unfoldable pub begin_effect : EffectRecord → BeginCommand → Result EffectDecision
  begin_effect current command = do
    check_begin current command
    let next = begun_effect current command
    validate_record c next
    let ledger = new_ledger command.envelope
    validate_ledger c ledger
    intent ←
        effect_intent c DurableIntentKind.outbox next.effect_id next.revision
          (field "command" (command_envelope_json ledger.envelope) Fields.end)
    event ← effect_event c next "effect.applying" command.command_id command.at (
        field "commandId" (Json.text next.command_id)
          (field "commandIdentityDigest" (Json.text next.command_identity_digest) Fields.end))
    ok (record { effect = next; ledger = some ledger; events = event ∷ []; intents = intent ∷ [] })

  unfoldable pub check_receipt_observation :
      EffectRecord → CommandLedger → ObserveReceiptCommand → Result (Unit {0})
  check_receipt_observation current ledger command = do
    validate_record c current
    validate_ledger c ledger
    require (targets current command.effect_id command.expected_revision) revision_conflict
    require
        (effect_state_eq current.state EffectState.applying
          && ledger.envelope.command_id is current.command_id
          && ledger.envelope.effect_id is current.effect_id)
        invalid_transition
    validate_identity command.command_id "observation command id"
    validate_next_receipt c ledger command.receipt
    validate_ledger c (append_receipt ledger command.receipt)
    require (known_status command.receipt.status) receipt_conflict

  unfoldable pub observe_effect :
      EffectRecord → CommandLedger → ObserveReceiptCommand → Result EffectDecision
  observe_effect current ledger command = do
    check_receipt_observation current ledger command
    let next = received_effect current command.receipt
    validate_record c next
    event ←
        effect_event c next ("effect.receipt." ++ receipt_status_name command.receipt.status)
          command.command_id command.receipt.observed_at (receipt_fields command.receipt)
    ok (record {
      effect = next;
      ledger = some (append_receipt ledger command.receipt);
      events = event ∷ [];
      intents = [];
    })

  unfoldable pub check_reconciliation : EffectRecord → ReconcileCommand → Result (Unit {0})
  check_reconciliation current command = do
    validate_record c current
    require (targets current command.effect_id command.expected_revision) revision_conflict
    require (effect_state_eq current.state EffectState.uncertain) invalid_transition
    validate_identity command.command_id "reconcile command id"
    refuse (out_of_time current command.at) (invalid "reconcile time")

  -- The next record is not validated again.
  unfoldable pub request_reconciliation : EffectRecord → ReconcileCommand → Result EffectDecision
  request_reconciliation current command = do
    check_reconciliation current command
    let next = reconciling_effect current command
    intent ←
        effect_intent c DurableIntentKind.reconcile next.effect_id next.revision
          (reconcile_fields next)
    event ←
        effect_event c next "effect.reconciliation-requested" command.command_id command.at
          (reconcile_fields next)
    ok (record { effect = next; ledger = none; events = event ∷ []; intents = intent ∷ [] })
