-- ===== src/Witnesses/Effects.antt =====
-- An effect that is prepared, begun, accepted and applied, one that is canceled, and one that ended
-- uncertain.
use Prim.Native.String.{◌++◌}
use xgc2_orchestration_core.Base.{ℕ, String, none, some, [], ◌∷◌, Time}
use xgc2_orchestration_core.Contracts.Json.{Json, Fields, field, num}
use xgc2_orchestration_core.Contracts.Statuses.{FailureClass, DurableIntentKind}
use xgc2_orchestration_core.Contracts.Records.{DomainEvent, DurableIntent}
use xgc2_orchestration_core.Contracts.Runtimes.{EffectOwnership}
use xgc2_orchestration_core.Contracts.EffectStates.{
  CompensationPolicy, EffectState, EffectCompensationState, FenceKind, CommandRisk, ReceiptStatus,
}
use xgc2_orchestration_core.Contracts.Effects.{
  EffectIntent, EffectRecord, TargetFence, CommandEnvelope, CommandReceipt, CommandLedger,
}
use xgc2_orchestration_core.Execution.Event.{event_payload_schema_digest}
use xgc2_orchestration_core.Effect.Json.{command_envelope_json}
use xgc2_orchestration_core.Effect.Commands.{
  PrepareCommand, BeginCommand, ObserveReceiptCommand, ReconcileCommand, CancelPreparedCommand,
  CompensationCommand, EffectDecision,
}
use xgc2_orchestration_core.Effect.Outcomes.{receipt_fields, reconcile_fields, new_ledger}
use xgc2_orchestration_core.Witnesses.Encoder.{digest, hex}

abbrev pub disk_intent : EffectIntent
disk_intent = record {
  effect_id = "eff-" ++ hex;
  namespace_id = "ns-1";
  run_id = "run-1";
  invocation_id = "invocation-1";
  prepared_attempt_id = "attempt-1";
  effect_key = "disk";
  kind = "disk.create/v1";
  target_ref = "host-1";
  intent_schema_digest = digest;
  intent = some (field "size" (num 8) Fields.end);
  intent_digest = digest;
  intent_artifact_ref = "";
  ownership = EffectOwnership.owned;
  compensation_policy = CompensationPolicy.required;
  required_capability_refs = "disk.read" ∷ "disk.write" ∷ [];
  policy_digest = digest;
  descriptor_digest = digest;
  deadline = 900;
}

abbrev pub preparation : PrepareCommand
preparation = record { intent = disk_intent; command_id = "command-1"; at = 100 }

abbrev pub prepared_disk : EffectRecord
prepared_disk = record {
  effect_id = "eff-" ++ hex;
  intent = disk_intent;
  preparation_digest = digest;
  state = EffectState.prepared;
  command_id = "";
  command_identity_digest = "";
  external_identity = "";
  result_digest = "";
  result_artifact_ref = "";
  primary_failure = none;
  compensation_state = EffectCompensationState.unscheduled;
  compensation_attempt_count = 0;
  compensation_command_id = "";
  compensation_failure = none;
  compensation_next_at = none;
  compensation_reconciliation = none;
  prepared_at = 100;
  applying_at = none;
  primary_terminal_at = none;
  primary_terminal_revision = 0;
  compensation_started_at = none;
  compensation_finished_at = none;
  updated_at = 100;
  revision = 1;
}

abbrev pub disk_event : ℕ → String → String → Time → Fields → DomainEvent
disk_event revision event_type command_id at payload = record {
  event_id = "evt-" ++ hex;
  aggregate_type = "effect";
  aggregate_id = "eff-" ++ hex;
  aggregate_revision = revision;
  event_type = event_type;
  command_id = command_id;
  causation_id = "";
  correlation_id = "";
  payload_schema_digest = event_payload_schema_digest;
  payload_digest = digest;
  payload = payload;
  occurred_at = at;
}

abbrev disk_work : DurableIntentKind → Fields → DurableIntent
disk_work kind payload = record {
  kind = kind;
  identity = "dti-" ++ hex;
  aggregate_id = "eff-" ++ hex;
  payload_digest = digest;
  payload = payload;
}

abbrev pub preparing : EffectDecision
preparing = record {
  effect = prepared_disk;
  ledger = none;
  events =
      disk_event 1 "effect.prepared" "command-1" 100 (
        field "preparationDigest" (Json.text digest)
          (field "intentDigest" (Json.text digest) Fields.end))
      ∷ [];
  intents = [];
}

abbrev pub disk_fence : TargetFence
disk_fence = record {
  kind = FenceKind.revision;
  revision = some (record { target_id = "host-1"; expected_revision = 3 });
  generation = none;
  idempotent_create = none;
}

abbrev pub envelope : CommandEnvelope
envelope = record {
  command_id = "command-2";
  request_id = "";
  effect_id = "eff-" ++ hex;
  idempotency_key = "key";
  idempotency_key_hash = digest;
  identity_digest = digest;
  namespace_id = "ns-1";
  target_ref = "host-1";
  action = "create";
  actor_ref = "actor-1";
  source_ref = "source-1";
  reason_code = "workflow";
  reason = "";
  risk = CommandRisk.low;
  fence = disk_fence;
  payload_digest = digest;
  payload_artifact_ref = "";
  policy_digest = digest;
  descriptor_digest = digest;
  manifest_digest = "";
  deadline = 800;
  cancellation_id = "cancel-1";
  required_capability_refs = "disk.read" ∷ "disk.write" ∷ [];
  capability_token_hash = digest;
  capability_token = "token";
}

abbrev pub start : BeginCommand
start = record {
  effect_id = "eff-" ++ hex;
  expected_revision = 1;
  envelope = envelope;
  command_id = "command-2";
  at = 200;
}

abbrev pub applying_disk : EffectRecord
applying_disk = record prepared_disk {
  state = EffectState.applying;
  command_id = "command-2";
  command_identity_digest = digest;
  applying_at = some 200;
  updated_at = 200;
  revision = 2;
}

abbrev pub starting : EffectDecision
starting = record {
  effect = applying_disk;
  ledger = some (new_ledger envelope);
  events =
      disk_event 2 "effect.applying" "command-2" 200 (
        field "commandId" (Json.text "command-2")
          (field "commandIdentityDigest" (Json.text digest) Fields.end))
      ∷ [];
  intents =
      disk_work DurableIntentKind.outbox
        (field "command" (command_envelope_json envelope) Fields.end)
      ∷ [];
}

abbrev pub receipt : ℕ → ReceiptStatus → Time → String → CommandReceipt
receipt sequence status at result = record {
  receipt_id = "rcp-" ++ hex;
  command_id = "command-2";
  sequence = sequence;
  status = status;
  identity_digest = digest;
  fence_digest = digest;
  provider_ref = "provider-1";
  provider_digest = digest;
  policy_digest = digest;
  authorization_digest = digest;
  result_digest = result;
  result_artifact_ref = "";
  external_identity = "";
  failure = none;
  observed_at = at;
}

abbrev pub taken_receipt : CommandReceipt
taken_receipt = receipt 1 ReceiptStatus.accepted 300 ""

abbrev pub done_receipt : CommandReceipt
done_receipt = receipt 2 ReceiptStatus.succeeded 400 digest

abbrev pub taken_ledger : CommandLedger
taken_ledger = record { envelope = envelope; receipts = taken_receipt ∷ [] }

abbrev pub done_ledger : CommandLedger
done_ledger = record { envelope = envelope; receipts = taken_receipt ∷ done_receipt ∷ [] }

abbrev pub taking : ObserveReceiptCommand
taking = record {
  effect_id = "eff-" ++ hex;
  expected_revision = 2;
  receipt = taken_receipt;
  command_id = "command-3";
}

abbrev pub applied_by : ObserveReceiptCommand
applied_by = record {
  effect_id = "eff-" ++ hex;
  expected_revision = 3;
  receipt = done_receipt;
  command_id = "command-4";
}

abbrev pub accepted_disk : EffectRecord
accepted_disk = record applying_disk { updated_at = 300; revision = 3 }

abbrev pub applied_disk : EffectRecord
applied_disk = record accepted_disk {
  state = EffectState.applied;
  result_digest = digest;
  primary_terminal_at = some 400;
  primary_terminal_revision = 4;
  updated_at = 400;
  revision = 4;
}

abbrev pub observing_acceptance : EffectDecision
observing_acceptance = record {
  effect = accepted_disk;
  ledger = some taken_ledger;
  events =
      disk_event 3 "effect.receipt.accepted" "command-3" 300 (receipt_fields taken_receipt) ∷ [];
  intents = [];
}

abbrev pub observing_success : EffectDecision
observing_success = record {
  effect = applied_disk;
  ledger = some done_ledger;
  events =
      disk_event 4 "effect.receipt.succeeded" "command-4" 400 (receipt_fields done_receipt) ∷ [];
  intents = [];
}

abbrev pub undo : CompensationCommand
undo = record {
  effect_id = "eff-" ++ hex;
  expected_revision = 4;
  to = EffectCompensationState.pending;
  compensation_command_id = "";
  failure = none;
  retry_at = none;
  command_id = "command-5";
  at = 500;
}

abbrev pub pending_disk : EffectRecord
pending_disk = record applied_disk {
  compensation_state = EffectCompensationState.pending;
  updated_at = 500;
  revision = 5;
}

abbrev pub undoing : EffectDecision
undoing = record {
  effect = pending_disk;
  ledger = none;
  events =
      disk_event 5 "effect.compensation.pending" "command-5" 500 (
        field "from" (Json.text "unscheduled")
          (field "to" (Json.text "pending") (field "attemptCount" (num 0) Fields.end)))
      ∷ [];
  intents =
      disk_work DurableIntentKind.cleanup (
        field "effectId" (Json.text ("eff-" ++ hex)) (
          field "compensationState" (Json.text "pending")
            (field "effectRevision" (num 5) Fields.end)))
      ∷ [];
}

abbrev pub giving_up : CancelPreparedCommand
giving_up = record {
  effect_id = "eff-" ++ hex;
  expected_revision = 1;
  command_id = "command-6";
  at = 150;
}

abbrev pub canceled_disk : EffectRecord
canceled_disk = record prepared_disk {
  state = EffectState.canceled;
  compensation_state = EffectCompensationState.canceled;
  compensation_finished_at = some 150;
  primary_terminal_at = some 150;
  updated_at = 150;
  revision = 2;
  primary_terminal_revision = 2;
}

abbrev pub canceling_disk : EffectDecision
canceling_disk = record {
  effect = canceled_disk;
  ledger = none;
  events =
      disk_event 2 "effect.canceled" "command-6" 150
        (field "from" (Json.text "prepared") (field "to" (Json.text "canceled") Fields.end))
      ∷ [];
  intents = [];
}

abbrev pub lost_disk : EffectRecord
lost_disk = record accepted_disk {
  state = EffectState.uncertain;
  primary_failure = some (record {
    class = FailureClass.uncertain;
    code = "adapter.lost";
    message = "no answer";
    evidence_ref = "";
  });
  primary_terminal_at = some 400;
  primary_terminal_revision = 4;
  updated_at = 400;
  revision = 4;
}

abbrev pub asking : ReconcileCommand
asking = record {
  effect_id = "eff-" ++ hex;
  expected_revision = 4;
  command_id = "command-7";
  at = 500;
}

abbrev pub asked_disk : EffectRecord
asked_disk = record lost_disk { updated_at = 500; revision = 5 }

abbrev pub asking_disk : EffectDecision
asking_disk = record {
  effect = asked_disk;
  ledger = none;
  events =
      disk_event 5 "effect.reconciliation-requested" "command-7" 500 (reconcile_fields asked_disk)
      ∷ [];
  intents = disk_work DurableIntentKind.reconcile (reconcile_fields asked_disk) ∷ [];
}
