-- ===== src/Effect/Events.antt =====
-- kernel/effect/effect.go: the events and durable intents of an effect.
use xgc2_orchestration_core.Base.{ℕ, String, Time, Result, ok, ◌>>=◌}
use xgc2_orchestration_core.Contracts.Json.{Fields, obj, Canonical, digest_value}
use xgc2_orchestration_core.Contracts.Statuses.{DurableIntentKind}
use xgc2_orchestration_core.Contracts.Records.{DomainEvent, DurableIntent}
use xgc2_orchestration_core.Contracts.Effects.{EffectRecord}
use xgc2_orchestration_core.Execution.Identity.{stable_event_id, stable_intent_id}
use xgc2_orchestration_core.Execution.Event.{event_payload_schema_digest}

module _ (c : Canonical) where
  -- `durableIntent`.
  unfoldable pub effect_intent : DurableIntentKind → String → ℕ → Fields → Result DurableIntent
  effect_intent kind id revision payload = do
    digest ← digest_value c (obj payload)
    identity ← stable_intent_id c kind id revision
    ok (record {
      kind = kind;
      identity = identity;
      aggregate_id = id;
      payload_digest = digest;
      payload = payload;
    })

  -- `newEvent`.
  unfoldable pub effect_event : EffectRecord → String → String → Time → Fields → Result DomainEvent
  effect_event r event_type command_id at payload = do
    digest ← digest_value c (obj payload)
    id ← stable_event_id c "effect" r.effect_id r.revision
    ok (record {
      event_id = id;
      aggregate_type = "effect";
      aggregate_id = r.effect_id;
      aggregate_revision = r.revision;
      event_type = event_type;
      command_id = command_id;
      causation_id = "";
      correlation_id = "";
      payload_schema_digest = event_payload_schema_digest;
      payload_digest = digest;
      payload = payload;
      occurred_at = at;
    })
