-- ===== src/Execution/Checks.antt =====
-- What the checks of kernel/execution/identity.go pass does not depend on the label that they put
-- into an error.
use xgc2_orchestration_core.Base.{Bool, true, Option, none, some, ok, ◌≡◌, arith, String, ℕ, ◌<◌}
use xgc2_orchestration_core.Contracts.Identity.{valid_identifier}
use xgc2_orchestration_core.Contracts.Json.{Fields, obj, Canonical, digest_value}
use xgc2_orchestration_core.Contracts.Records.{StructuredFailure, DomainEvent}
use xgc2_orchestration_core.Execution.Identity.{
  validate_identity, validate_failure_value, validate_failure, stable_event_id,
}
use xgc2_orchestration_core.Execution.Event.{new_event, event_payload_schema_digest}

validate_failure_value_relabel :
    (f : StructuredFailure) (l m : String)
    → validate_failure_value f l ≡ ok tt
    → validate_failure_value f m ≡ ok tt
unfolding validate_failure_value
validate_failure_value_relabel f l m h = ground arith

pub validate_failure_relabel :
    (f : Option StructuredFailure) (required : Bool) (l m : String)
    → validate_failure f required l ≡ ok tt
    → validate_failure f required m ≡ ok tt
unfolding validate_failure
validate_failure_relabel none required l m h = ground arith
validate_failure_relabel (some f) required l m h = validate_failure_value_relabel f l m h

module _ (c : Canonical) (aggregate id event_type command_id : String) (revision at : ℕ)
    (payload : Fields) where
  -- The event that `new_event` builds, and when it does.
  pub new_event_ok :
      {digest event_id : String}
      → valid_identifier aggregate ≡ true
      → valid_identifier id ≡ true
      → 0 < revision
      → 0 < at
      → valid_identifier event_type ≡ true
      → valid_identifier command_id ≡ true
      → digest_value c (obj payload) ≡ ok digest
      → stable_event_id c aggregate id revision ≡ ok event_id
      → (e : DomainEvent) × (new_event c aggregate id revision event_type command_id at payload
          ≡ ok e)
  unfolding new_event validate_identity
  new_event_ok {digest} {event_id} a b r t n m d s = (
    record {
      event_id = event_id;
      aggregate_type = aggregate;
      aggregate_id = id;
      aggregate_revision = revision;
      event_type = event_type;
      command_id = command_id;
      causation_id = "";
      correlation_id = "";
      payload_schema_digest = event_payload_schema_digest;
      payload_digest = digest;
      payload = payload;
      occurred_at = at;
    },
    ground arith,
  )

  -- What an event that `new_event` builds says.
  pub new_event-fields :
      {e : DomainEvent}
      → new_event c aggregate id revision event_type command_id at payload ≡ ok e
      → (e.aggregate_type ≡ aggregate)
        × (e.aggregate_id ≡ id)
        × (e.aggregate_revision ≡ revision)
        × (e.event_type ≡ event_type)
        × (e.command_id ≡ command_id)
        × (e.occurred_at ≡ at)
        × (e.payload ≡ payload)
        × (digest_value c (obj payload) ≡ ok e.payload_digest)
        × (stable_event_id c aggregate id revision ≡ ok e.event_id)
  unfolding new_event
  new_event-fields h = ground arith
