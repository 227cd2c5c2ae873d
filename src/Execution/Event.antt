-- ===== src/Execution/Event.antt =====
-- kernel/execution/event.go: the envelopes of domain events and durable intents.
use xgc2_orchestration_core.Base.{
  ℕ, String, Time, Result, ok, invalid, ◌>>=◌, ◌>>◌, refuse, ◌==◌, ◌||◌, is_zero,
}
use xgc2_orchestration_core.Contracts.Json.{Fields, obj, Canonical, digest_value}
use xgc2_orchestration_core.Contracts.Statuses.{DurableIntentKind}
use xgc2_orchestration_core.Contracts.Records.{DomainEvent, DurableIntent}
use xgc2_orchestration_core.Execution.Identity.{
  validate_identity, stable_event_id, stable_intent_id,
}

abbrev pub event_payload_schema_digest : String
event_payload_schema_digest =
    "sha256:82ef96cebaf5fbe16269fd18b0240d78f5b9b90a4155a17eb797115b09148ecf"

module _ (c : Canonical) where
  unfoldable pub new_event :
      String → String → ℕ → String → String → Time → Fields → Result DomainEvent
  new_event aggregate_type aggregate_id revision event_type command_id at payload = do
    validate_identity aggregate_type "event aggregate type"
    validate_identity aggregate_id "event aggregate id"
    refuse (revision == 0 || is_zero at) (invalid "event revision and time")
    validate_identity event_type "event type"
    validate_identity command_id "event command id"
    payload_digest ← digest_value c (obj payload)
    event_id ← stable_event_id c aggregate_type aggregate_id revision
    ok (record {
      event_id = event_id;
      aggregate_type = aggregate_type;
      aggregate_id = aggregate_id;
      aggregate_revision = revision;
      event_type = event_type;
      command_id = command_id;
      causation_id = "";
      correlation_id = "";
      payload_schema_digest = event_payload_schema_digest;
      payload_digest = payload_digest;
      payload = payload;
      occurred_at = at;
    })

  unfoldable pub new_durable_intent : DurableIntentKind → String → ℕ → Fields → Result DurableIntent
  new_durable_intent kind aggregate_id revision payload = do
    digest ← digest_value c (obj payload)
    id ← stable_intent_id c kind aggregate_id revision
    ok (record {
      kind = kind;
      identity = id;
      aggregate_id = aggregate_id;
      payload_digest = digest;
      payload = payload;
    })
