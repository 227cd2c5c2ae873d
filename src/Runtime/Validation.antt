-- ===== src/Runtime/Validation.antt =====
-- kernel/runtime/validation.go: what a well-formed binding is, and the fence of its holder. The
-- sentinel errors of this package are those of `Error` with the same names.
use Prim.Native.String.{◌++◌, len}
use xgc2_orchestration_core.Base.{
  ℕ, String, Bool, false, ◌&&◌, ◌||◌, not, Option, none, some, [], ◌∷◌, ltb, ◌==◌, ◌is◌, Result, ok,
  err, invalid, revision_conflict, fence_conflict, lease_conflict, ◌>>=◌, ◌>>◌, require, refuse,
  is_set, is_nil, Time, is_zero, before, after, if◌then◌else◌,
}
use xgc2_orchestration_core.Contracts.Identity.{valid_identifier, valid_type_ref, valid_digest}
use xgc2_orchestration_core.Contracts.Json.{
  Json, Fields, field, num, obj, cons, nil, Canonical, digest_value,
}
use xgc2_orchestration_core.Contracts.Statuses.{
  failure_class_valid, failure_class_name, DurableIntentKind,
}
use xgc2_orchestration_core.Contracts.Records.{StructuredFailure, DomainEvent, DurableIntent}
use xgc2_orchestration_core.Contracts.Runtimes.{
  EffectOwnership, effect_ownership_eq, effect_ownership_valid, RuntimeBindingState,
  binding_state_eq, binding_state_valid, binding_state_terminal, RuntimeObservedState,
  observed_state_eq, observed_state_valid, observed_state_name, RuntimeHealth, runtime_health_eq,
  runtime_health_valid, runtime_health_name, RuntimeCleanupPolicy, cleanup_policy_eq,
  cleanup_policy_valid, RuntimeBinding,
}
use xgc2_orchestration_core.Execution.Identity.{
  validate_identity, validate_identities, private_token_digest, stable_event_id, stable_intent_id,
}
use xgc2_orchestration_core.Execution.Event.{event_payload_schema_digest}
use xgc2_orchestration_core.Execution.Invocation.Fence.{token_matches}

pub record BindingFence : Type 0 where
  pub binding_id : String
  pub expected_revision : ℕ
  pub generation : ℕ
  pub fencing_token : ℕ
  pub lease_owner : String
  pub lease_token : String
  pub at : Time

-- The text is the same as a matched result, or the result is an error.
abbrev pub names_binding : Result String → String → Bool
names_binding (ok expected) id = expected is id
names_binding (err e) id = false

-- `validateFailure` of a failure that is there.
unfoldable pub validate_runtime_failure : StructuredFailure → Result (Unit {0})
validate_runtime_failure failure = do
  refuse
      (not (failure_class_valid failure.class)
        || not (valid_identifier failure.code)
        || failure.message is ""
        || ltb 4096 (len failure.message))
      (invalid "runtime structured failure")
  refuse (not (failure.evidence_ref is "") && not (valid_identifier failure.evidence_ref))
      (invalid "runtime failure evidence ref")

-- `state == RuntimeObservedFailed || state == RuntimeObservedLost`.
abbrev pub fails : RuntimeObservedState → Bool
fails state =
    observed_state_eq state RuntimeObservedState.failed
    || observed_state_eq state RuntimeObservedState.lost

unfoldable pub validate_observation_failure :
    RuntimeObservedState → Option StructuredFailure → Result (Unit {0})
validate_observation_failure state none =
    refuse (fails state) (invalid "runtime failed/lost observation and failure disagree")
validate_observation_failure state (some failure) = do
  require (fails state) (invalid "runtime failed/lost observation and failure disagree")
  validate_runtime_failure failure

unfoldable pub validate_binding_failure :
    RuntimeObservedState → Option StructuredFailure → Result (Unit {0})
validate_binding_failure state none = ok tt
validate_binding_failure state (some failure) = do
  validate_runtime_failure failure
  require (fails state) (invalid "runtime failure outside failed or lost observation")

abbrev pub owned : RuntimeBinding → Bool
owned b = effect_ownership_eq b.ownership EffectOwnership.owned

unfoldable pub validate_ownership : EffectOwnership → RuntimeCleanupPolicy → Result (Unit {0})
validate_ownership ownership policy =
    if effect_ownership_eq ownership EffectOwnership.owned
    then refuse (cleanup_policy_eq policy RuntimeCleanupPolicy.none)
        (invalid "owned runtime requires cleanup policy")
    else require (cleanup_policy_eq policy RuntimeCleanupPolicy.none)
        (invalid "attached or shared runtime cannot be destroyed by cleanup")

unfoldable pub validate_kinds : RuntimeBinding → Result (Unit {0})
validate_kinds b =
    require
      (effect_ownership_valid b.ownership
        && cleanup_policy_valid b.cleanup_policy
        && binding_state_valid b.state
        && observed_state_valid b.observed_state
        && runtime_health_valid b.health)
      (invalid "runtime ownership, cleanup, state, observation, or health")

unfoldable pub validate_counters : RuntimeBinding → Result (Unit {0})
validate_counters b =
    refuse
      (b.generation == 0
        || b.fencing_token == 0
        || b.revision == 0
        || is_zero b.created_at
        || before b.updated_at b.created_at)
      (invalid "runtime generation, fencing token, revision, or timestamps")

unfoldable pub validate_lease : RuntimeBinding → Result (Unit {0})
validate_lease b =
    if binding_state_terminal b.state
    then refuse
        (is_nil b.finished_at
          || not (b.lease_owner is "")
          || not (b.lease_token_hash is "")
          || not (is_zero b.lease_expires_at))
        (invalid "terminal runtime binding retains lease or lacks finish time")
    else do
      validate_identity b.lease_owner "runtime lease owner"
      refuse
          (not (valid_digest b.lease_token_hash)
            || not (after b.lease_expires_at b.updated_at)
            || is_set b.finished_at)
          (invalid "live runtime binding lease")

unfoldable pub validate_binding_state : RuntimeBinding → Result (Unit {0})
validate_binding_state b = do
  refuse
      (binding_state_eq b.state RuntimeBindingState.active
        && (is_nil b.activated_at
            || b.external_identity is ""
            || not (observed_state_eq b.observed_state RuntimeObservedState.running)))
      (invalid "active runtime")
  refuse
      (binding_state_eq b.state RuntimeBindingState.stopping
        && (not (owned b) || is_nil b.release_started_at))
      (invalid "stopping runtime")
  refuse
      (binding_state_eq b.state RuntimeBindingState.released
        && owned b
        && not (observed_state_eq b.observed_state RuntimeObservedState.stopped))
      (invalid "released owned runtime lacks stopped observation")
  refuse
      (binding_state_eq b.state RuntimeBindingState.lost
        && (not (observed_state_eq b.observed_state RuntimeObservedState.lost)
            || not (runtime_health_eq b.health RuntimeHealth.lost)
            || is_nil b.primary_failure))
      (invalid "lost runtime")

abbrev pub observed_in_time : Option Time → Time → Bool
observed_in_time none at = false
observed_in_time (some observed) at = not (after observed at)

unfoldable pub validate_observation : RuntimeBinding → Result (Unit {0})
validate_observation b =
    if b.observation_digest is ""
    then refuse (is_set b.observation_at) (invalid "runtime observation time exists without digest")
    else require
        (valid_digest b.observation_digest && observed_in_time b.observation_at b.updated_at)
        (invalid "runtime observation digest or time")

unfoldable pub validate_external : String → Result (Unit {0})
validate_external identity =
    if identity is "" then ok tt else validate_identity identity "runtime external identity"

-- `evidenceRef` is left out of the object when it is empty.
unfoldable pub failure_json : Option StructuredFailure → Json
failure_json none = Json.null
failure_json (some failure) = obj (
    field "class" (Json.text (failure_class_name failure.class)) (
      field "code" (Json.text failure.code) (
        field "message" (Json.text failure.message) (
          if failure.evidence_ref is ""
          then Fields.end
          else field "evidenceRef" (Json.text failure.evidence_ref) Fields.end))))

module _ (c : Canonical) where
  unfoldable pub stable_binding_id : String → String → Result String
  stable_binding_id invocation_id runtime_key = do
    require (valid_identifier invocation_id && valid_identifier runtime_key)
        (invalid "runtime binding identity parts")
    canonical ← c.marshal (
        Json.arr (
          cons (Json.text "xgc.runtime-binding/v1")
            (cons (Json.text invocation_id) (cons (Json.text runtime_key) nil))))
    ok ("rtb-" ++ c.sha256_hex canonical)

  -- The part of `ValidateBinding` on what only `Prepare` writes.
  unfoldable pub validate_binding_refs : RuntimeBinding → Result (Unit {0})
  validate_binding_refs b = do
    validate_identities (
        b.binding_id ∷ b.namespace_id ∷ b.run_id ∷ b.invocation_id ∷ b.node_id ∷ b.runtime_key
        ∷ b.provider_ref ∷ [])
    require (names_binding (stable_binding_id b.invocation_id b.runtime_key) b.binding_id)
        (invalid "runtime binding stable identity")
    require (valid_type_ref b.kind && valid_digest b.spec_digest && valid_digest b.provider_digest)
        (invalid "runtime kind, spec digest, or provider digest")

  unfoldable pub validate_binding : RuntimeBinding → Result (Unit {0})
  validate_binding b = do
    validate_binding_refs b
    validate_kinds b
    validate_ownership b.ownership b.cleanup_policy
    validate_counters b
    validate_lease b
    validate_binding_state b
    validate_observation b
    validate_external b.external_identity
    validate_binding_failure b.observed_state b.primary_failure

  unfoldable pub validate_fence : RuntimeBinding → BindingFence → Result (Unit {0})
  validate_fence b fence = do
    require (fence.binding_id is b.binding_id && fence.expected_revision == b.revision)
        revision_conflict
    require (fence.generation == b.generation && fence.fencing_token == b.fencing_token)
        fence_conflict
    require (fence.lease_owner is b.lease_owner) lease_conflict
    refuse
        (not (token_matches (private_token_digest c fence.lease_token) b.lease_token_hash)
          || is_zero fence.at
          || before fence.at b.updated_at
          || not (before fence.at b.lease_expires_at))
        lease_conflict

  unfoldable pub new_binding_event :
      RuntimeBinding → String → String → Time → Fields → Result DomainEvent
  new_binding_event b event_type command_id at payload = do
    digest ← digest_value c (obj payload)
    id ← stable_event_id c "runtime" b.binding_id b.revision
    ok (record {
      event_id = id;
      aggregate_type = "runtime";
      aggregate_id = b.binding_id;
      aggregate_revision = b.revision;
      event_type = event_type;
      command_id = command_id;
      causation_id = "";
      correlation_id = "";
      payload_schema_digest = event_payload_schema_digest;
      payload_digest = digest;
      payload = payload;
      occurred_at = at;
    })

  unfoldable pub new_binding_intent :
      DurableIntentKind → RuntimeBinding → Fields → Result DurableIntent
  new_binding_intent kind b payload = do
    digest ← digest_value c (obj payload)
    id ← stable_intent_id c kind b.binding_id b.revision
    ok (record {
      kind = kind;
      identity = id;
      aggregate_id = b.binding_id;
      payload_digest = digest;
      payload = payload;
    })

  unfoldable pub observation_digest :
      String
      → ℕ
      → ℕ
      → String
      → RuntimeObservedState
      → RuntimeHealth
      → Option StructuredFailure
      → Result String
  observation_digest id generation token identity state health failure = digest_value c (
      obj (
        field "bindingId" (Json.text id) (
          field "generation" (num generation) (
            field "fencingToken" (num token) (
              field "externalIdentity" (Json.text identity) (
                field "state" (Json.text (observed_state_name state)) (
                  field "health" (Json.text (runtime_health_name health))
                    (field "failure" (failure_json failure) Fields.end))))))))
