-- ===== src/Effect/Outcomes.antt =====
-- kernel/effect/effect.go: the records that the operations on the primary state write, and what
-- their guards look at.
use xgc2_orchestration_core.Base.{
  ℕ, String, Bool, true, false, ◌&&◌, ◌||◌, Option, none, some, List, [], ◌∷◌, ◌==◌, ◌is◌, Time,
  is_zero, before, u64_inc, if◌then◌else◌,
}
use xgc2_orchestration_core.Contracts.Json.{Json, Fields, field, num}
use xgc2_orchestration_core.Contracts.Statuses.{FailureClass, failure_class_eq}
use xgc2_orchestration_core.Contracts.Records.{StructuredFailure}
use xgc2_orchestration_core.Contracts.EffectStates.{
  CompensationPolicy, compensation_policy_eq, EffectState, effect_state_eq, EffectCompensationState,
  ReceiptStatus,
}
use xgc2_orchestration_core.Contracts.Effects.{
  EffectRecord, CommandEnvelope, CommandReceipt, CommandLedger,
}
use xgc2_orchestration_core.Effect.Records.{is_compensated}
use xgc2_orchestration_core.Effect.Commands.{
  PrepareCommand, BeginCommand, ReconcileCommand, CancelPreparedCommand,
}

unfoldable pub prepared_effect : PrepareCommand → String → EffectRecord
prepared_effect command preparation_digest = record {
  effect_id = command.intent.effect_id;
  intent = command.intent;
  preparation_digest = preparation_digest;
  state = EffectState.prepared;
  command_id = "";
  command_identity_digest = "";
  external_identity = "";
  result_digest = "";
  result_artifact_ref = "";
  primary_failure = none;
  compensation_state =
      if compensation_policy_eq command.intent.compensation_policy CompensationPolicy.none
      then EffectCompensationState.not_required
      else EffectCompensationState.unscheduled;
  compensation_attempt_count = 0;
  compensation_command_id = "";
  compensation_failure = none;
  compensation_next_at = none;
  compensation_reconciliation = none;
  prepared_at = command.at;
  applying_at = none;
  primary_terminal_at = none;
  primary_terminal_revision = 0;
  compensation_started_at = none;
  compensation_finished_at = none;
  updated_at = command.at;
  revision = 1;
}

unfoldable pub canceled_effect : EffectRecord → CancelPreparedCommand → EffectRecord
canceled_effect r command = record r {
  state = EffectState.canceled;
  compensation_state =
      if is_compensated r then EffectCompensationState.canceled else r.compensation_state;
  compensation_finished_at =
      if is_compensated r then some command.at else r.compensation_finished_at;
  primary_terminal_at = some command.at;
  updated_at = command.at;
  revision = u64_inc r.revision;
  primary_terminal_revision = u64_inc r.revision;
}

unfoldable pub begun_effect : EffectRecord → BeginCommand → EffectRecord
begun_effect r command = record r {
  state = EffectState.applying;
  command_id = command.envelope.command_id;
  command_identity_digest = command.envelope.identity_digest;
  external_identity = "";
  result_digest = "";
  result_artifact_ref = "";
  primary_failure = none;
  primary_terminal_at = none;
  primary_terminal_revision = 0;
  applying_at = some command.at;
  updated_at = command.at;
  revision = u64_inc r.revision;
}

-- The record of a terminal receipt.
abbrev pub ended : EffectRecord → EffectState → Time → EffectRecord
ended r state at = record r {
  state = state;
  primary_terminal_at = some at;
  primary_terminal_revision = r.revision;
}

-- The `switch` on the status, on a record that has its new revision and time already. The receipt
-- with another status is an error before.
unfoldable pub received : EffectRecord → CommandReceipt → ReceiptStatus → EffectRecord
received r receipt ReceiptStatus.succeeded =
    record (ended r EffectState.applied receipt.observed_at) {
      result_digest = receipt.result_digest;
      result_artifact_ref = receipt.result_artifact_ref;
      external_identity = receipt.external_identity;
    }
received r receipt ReceiptStatus.rejected =
    record (ended r EffectState.failed receipt.observed_at) { primary_failure = receipt.failure }
received r receipt ReceiptStatus.failed = record (ended r EffectState.failed receipt.observed_at) {
  primary_failure = receipt.failure;
}
received r receipt ReceiptStatus.uncertain =
    record (ended r EffectState.uncertain receipt.observed_at) {
      primary_failure = receipt.failure;
      external_identity = receipt.external_identity;
    }
received r receipt _ = r

unfoldable pub received_effect : EffectRecord → CommandReceipt → EffectRecord
unfolding received
received_effect r receipt =
    received (record r { updated_at = receipt.observed_at; revision = u64_inc r.revision }) receipt
      receipt.status

unfoldable pub reconciling_effect : EffectRecord → ReconcileCommand → EffectRecord
reconciling_effect r command = record r { updated_at = command.at; revision = u64_inc r.revision }

-- `append(receipts, receipt)`.
abbrev pub append : List CommandReceipt → CommandReceipt → List CommandReceipt
append [] receipt = receipt ∷ []
append (r ∷ rest) receipt = r ∷ append rest receipt

unfoldable pub append_receipt : CommandLedger → CommandReceipt → CommandLedger
append_receipt ledger receipt = record ledger { receipts = append ledger.receipts receipt }

-- `command.EffectID != current.EffectID || command.ExpectedRevision != current.Revision`.
abbrev pub targets : EffectRecord → String → ℕ → Bool
targets r effect_id revision = effect_id is r.effect_id && revision == r.revision

-- `at.IsZero() || at.Before(current.UpdatedAt)`.
abbrev pub out_of_time : EffectRecord → Time → Bool
out_of_time r at = is_zero at || before at r.updated_at

abbrev pub is_transient : Option StructuredFailure → Bool
is_transient none = false
is_transient (some failure) = failure_class_eq failure.class FailureClass.transient

-- A prepared effect, or a failed one that may be tried again.
unfoldable pub can_begin : EffectRecord → Bool
can_begin r =
    effect_state_eq r.state EffectState.prepared
    || (effect_state_eq r.state EffectState.failed && is_transient r.primary_failure)

abbrev pub new_ledger : CommandEnvelope → CommandLedger
new_ledger envelope = record { envelope = envelope; receipts = [] }

-- False in the `default` of the `switch` on the status.
abbrev pub known_status : ReceiptStatus → Bool
known_status ReceiptStatus.other = false
known_status _ = true

-- The payload of a receipt's event.
abbrev pub receipt_fields : CommandReceipt → Fields
receipt_fields receipt = field "commandId" (Json.text receipt.command_id) (
    field "receiptId" (Json.text receipt.receipt_id)
      (field "sequence" (num receipt.sequence) Fields.end))

abbrev pub reconcile_fields : EffectRecord → Fields
reconcile_fields r = field "effectId" (Json.text r.effect_id) (
    field "commandId" (Json.text r.command_id) (
      field "commandIdentityDigest" (Json.text r.command_identity_digest)
        (field "externalIdentity" (Json.text r.external_identity) Fields.end)))
