-- ===== src/Witnesses/Bindings.antt =====
-- Bindings that are prepared, taken over, active and released, and the theorems at them.
use Prim.Native.String.{◌++◌}
use xgc2_orchestration_core.Base.{
  ℕ, String, true, none, some, [], ◌∷◌, ◌≡◌, ◌≢◌, ◌≤◌, ◌⊎◌, refl, ok, arith, no_time, Time,
}
use xgc2_orchestration_core.Contracts.Identity.{
  valid_identifier, valid_digest, valid_type_ref, is_trimmed,
}
use xgc2_orchestration_core.Contracts.Json.{digest_value, Json, Fields, field, num}
use xgc2_orchestration_core.Contracts.Statuses.{
  FailureClass, failure_class_valid, DurableIntentKind,
}
use xgc2_orchestration_core.Contracts.Records.{StructuredFailure, DomainEvent}
use xgc2_orchestration_core.Contracts.Runtimes.{
  EffectOwnership, effect_ownership_eq, effect_ownership_valid, RuntimeBindingState,
  binding_state_eq, binding_state_valid, binding_state_terminal, RuntimeObservedState,
  observed_state_eq, observed_state_valid, RuntimeHealth, runtime_health_eq, runtime_health_valid,
  RuntimeCleanupPolicy, cleanup_policy_eq, cleanup_policy_valid, RuntimeBinding,
}
use xgc2_orchestration_core.Execution.Identity.{
  validate_identity, validate_identities, validate_canonical_text, private_token_digest, stable_id,
  stable_event_id, stable_intent_id,
}
use xgc2_orchestration_core.Execution.Event.{event_payload_schema_digest}
use xgc2_orchestration_core.Runtime.Validation.{
  BindingFence, owned, validate_runtime_failure, validate_observation_failure,
  validate_binding_failure, validate_ownership, validate_kinds, validate_counters, validate_lease,
  validate_binding_state, validate_observation, validate_external, stable_binding_id,
  validate_binding_refs, validate_binding, validate_fence, new_binding_event, new_binding_intent,
  failure_json, observation_digest,
}
use xgc2_orchestration_core.Runtime.Operations.{
  ObserveCommand, TakeoverCommand, ReleaseCommand, BindingDecision, clear_lease, observed, lose,
  observed_binding, taken_over, released, check_observe, observe, check_takeover, takeover,
  check_finish_release, finish_release,
}
use xgc2_orchestration_core.Execution.Invocation.Fence.{token_matches}
use xgc2_orchestration_core.Runtime.Steps.{BindingStep}
use xgc2_orchestration_core.Runtime.Fencing.{
  HolderCommand, act, BindingReach, stale_holder, ended_binding, owned_release, fence_of,
}
use xgc2_orchestration_core.Runtime.Validity.{BindingStep-valid}
use xgc2_orchestration_core.Runtime.Observations.{active_observation}
use xgc2_orchestration_core.Witnesses.Encoder.{encoder, digest, hex}

abbrev stopped_binding : RuntimeBinding
stopped_binding = record {
  binding_id = "rtb-" ++ hex;
  namespace_id = "ns-1";
  run_id = "run-1";
  invocation_id = "invocation-1";
  node_id = "node-1";
  runtime_key = "server";
  kind = "process/v1";
  spec_digest = digest;
  provider_ref = "provider-1";
  provider_digest = digest;
  ownership = EffectOwnership.owned;
  cleanup_policy = RuntimeCleanupPolicy.on_run_close;
  state = RuntimeBindingState.stopping;
  observed_state = RuntimeObservedState.stopped;
  health = RuntimeHealth.unknown;
  external_identity = "process-7";
  generation = 1;
  fencing_token = 5;
  lease_owner = "worker-1";
  lease_token_hash = digest;
  lease_expires_at = 900;
  observation_digest = digest;
  observation_at = some 300;
  primary_failure = none;
  created_at = 100;
  activated_at = some 200;
  release_started_at = some 250;
  finished_at = none;
  updated_at = 300;
  revision = 4;
}

abbrev pub active_binding : RuntimeBinding
active_binding = record stopped_binding {
  state = RuntimeBindingState.active;
  observed_state = RuntimeObservedState.running;
  release_started_at = none;
}

abbrev pub released_binding : RuntimeBinding
released_binding = record stopped_binding {
  state = RuntimeBindingState.released;
  lease_owner = "";
  lease_token_hash = "";
  lease_expires_at = no_time;
  updated_at = 400;
  revision = 5;
  finished_at = some 400;
}

abbrev pub fence : BindingFence
fence = record {
  binding_id = "rtb-" ++ hex;
  expected_revision = 4;
  generation = 1;
  fencing_token = 5;
  lease_owner = "worker-1";
  lease_token = "secret";
  at = 400;
}

abbrev completion : ReleaseCommand
completion = record { fence = fence; command_id = "command-5" }

abbrev crash : StructuredFailure
crash = record {
  class = FailureClass.permanent;
  code = "gone";
  message = "host is gone";
  evidence_ref = "";
}

abbrev loss : ObserveCommand
loss = record {
  fence = fence;
  external_identity = "process-7";
  observed_state = RuntimeObservedState.lost;
  health = RuntimeHealth.lost;
  observation_digest = digest;
  failure = some crash;
  command_id = "command-6";
}

abbrev pub handover : TakeoverCommand
handover = record {
  binding_id = "rtb-" ++ hex;
  expected_revision = 4;
  generation = 2;
  fencing_token = 6;
  lease_owner = "worker-2";
  lease_token = "other";
  lease_expires_at = 2000;
  command_id = "command-7";
  at = 1000;
}

abbrev pub taken_binding : RuntimeBinding
taken_binding = record active_binding {
  generation = 2;
  fencing_token = 6;
  lease_owner = "worker-2";
  lease_expires_at = 2000;
  observed_state = RuntimeObservedState.unknown;
  health = RuntimeHealth.unknown;
  observation_digest = "";
  observation_at = none;
  state = RuntimeBindingState.preparing;
  updated_at = 1000;
  revision = 5;
}

abbrev lost_binding : RuntimeBinding
lost_binding = record active_binding {
  state = RuntimeBindingState.lost;
  observed_state = RuntimeObservedState.lost;
  health = RuntimeHealth.lost;
  observation_at = some 400;
  primary_failure = some crash;
  updated_at = 400;
  revision = 5;
  finished_at = some 400;
  lease_owner = "";
  lease_token_hash = "";
  lease_expires_at = no_time;
}

abbrev pub announced : String → String → Time → Fields → DomainEvent
announced event_type command_id at payload = record {
  event_id = "evt-" ++ hex;
  aggregate_type = "runtime";
  aggregate_id = "rtb-" ++ hex;
  aggregate_revision = 5;
  event_type = event_type;
  command_id = command_id;
  causation_id = "";
  correlation_id = "";
  payload_schema_digest = event_payload_schema_digest;
  payload_digest = digest;
  payload = payload;
  occurred_at = at;
}

abbrev pub fenced_by : ℕ → ℕ → Fields → Fields
fenced_by generation token rest =
    field "generation" (num generation) (field "fencingToken" (num token) rest)

abbrev handover_fields : Fields
handover_fields =
    field "bindingId" (Json.text ("rtb-" ++ hex))
      (fenced_by 2 6 (field "externalIdentity" (Json.text "process-7") Fields.end))

abbrev pub taken : BindingDecision
taken = record {
  binding = taken_binding;
  events = announced "runtime.taken-over" "command-7" 1000 handover_fields ∷ [];
  intents =
      (record {
        kind = DurableIntentKind.reconcile;
        identity = "dti-" ++ hex;
        aggregate_id = "rtb-" ++ hex;
        payload_digest = digest;
        payload = handover_fields;
      })
      ∷ [];
}

abbrev completed : BindingDecision
completed = record {
  binding = released_binding;
  events =
      announced "runtime.released" "command-5" 400
        (fenced_by 1 5 (field "observationDigest" (Json.text digest) Fields.end))
      ∷ [];
  intents = [];
}

abbrev lost_decision : BindingDecision
lost_decision = record {
  binding = lost_binding;
  events =
      announced "runtime.observed.lost" "command-6" 400
        (fenced_by 1 5 (field "observationDigest" (Json.text digest) Fields.end))
      ∷ [];
  intents = [];
}

pub handover-ok : takeover encoder active_binding handover ≡ ok taken
unfolding valid_identifier valid_digest valid_type_ref is_trimmed digest_value failure_class_valid
    effect_ownership_eq effect_ownership_valid binding_state_eq binding_state_valid
    binding_state_terminal observed_state_eq observed_state_valid runtime_health_eq
    runtime_health_valid cleanup_policy_eq cleanup_policy_valid validate_identity
    validate_identities validate_canonical_text private_token_digest stable_id stable_event_id
    stable_intent_id validate_runtime_failure validate_observation_failure validate_binding_failure
    validate_ownership validate_kinds validate_counters validate_lease validate_binding_state
    validate_observation validate_external stable_binding_id validate_binding_refs validate_binding
    validate_fence new_binding_event new_binding_intent failure_json observation_digest clear_lease
    observed lose observed_binding taken_over released check_observe observe check_takeover takeover
    check_finish_release finish_release token_matches
handover-ok = refl

completion-ok : finish_release encoder stopped_binding completion ≡ ok completed
unfolding valid_identifier valid_digest valid_type_ref is_trimmed digest_value failure_class_valid
    effect_ownership_eq effect_ownership_valid binding_state_eq binding_state_valid
    binding_state_terminal observed_state_eq observed_state_valid runtime_health_eq
    runtime_health_valid cleanup_policy_eq cleanup_policy_valid validate_identity
    validate_identities validate_canonical_text private_token_digest stable_id stable_event_id
    stable_intent_id validate_runtime_failure validate_observation_failure validate_binding_failure
    validate_ownership validate_kinds validate_counters validate_lease validate_binding_state
    validate_observation validate_external stable_binding_id validate_binding_refs validate_binding
    validate_fence new_binding_event new_binding_intent failure_json observation_digest clear_lease
    observed lose observed_binding taken_over released check_observe observe check_takeover takeover
    check_finish_release finish_release token_matches
completion-ok = refl

loss-ok : observe encoder active_binding loss ≡ ok lost_decision
unfolding valid_identifier valid_digest valid_type_ref is_trimmed digest_value failure_class_valid
    effect_ownership_eq effect_ownership_valid binding_state_eq binding_state_valid
    binding_state_terminal observed_state_eq observed_state_valid runtime_health_eq
    runtime_health_valid cleanup_policy_eq cleanup_policy_valid validate_identity
    validate_identities validate_canonical_text private_token_digest stable_id stable_event_id
    stable_intent_id validate_runtime_failure validate_observation_failure validate_binding_failure
    validate_ownership validate_kinds validate_counters validate_lease validate_binding_state
    validate_observation validate_external stable_binding_id validate_binding_refs validate_binding
    validate_fence new_binding_event new_binding_intent failure_json observation_digest clear_lease
    observed lose observed_binding taken_over released check_observe observe check_takeover takeover
    check_finish_release finish_release token_matches
loss-ok = refl

encoder_digests : (s : String) → valid_digest ("sha256:" ++ encoder.sha256_hex s) ≡ true
unfolding valid_digest
encoder_digests s = refl

handover_step : BindingStep encoder active_binding taken_binding
handover_step = BindingStep.taking handover taken handover-ok refl

completion_step : BindingStep encoder stopped_binding released_binding
completion_step = BindingStep.finishing completion completed completion-ok refl

abbrev late_beat : HolderCommand
late_beat = HolderCommand.beat (record {
  fence = record fence { expected_revision = 5; at = 1100 };
  lease_expires_at = 3000;
  command_id = "command-8";
})

late_token : (fence_of late_beat).fencing_token ≤ active_binding.fencing_token
unfolding fence_of
late_token = omega arith

stale_holder_example : act encoder taken_binding late_beat ≢ ok completed
stale_holder_example =
    stale_holder encoder active_binding handover taken taken_binding late_beat completed handover-ok
      BindingReach.here late_token

released_ended : binding_state_terminal released_binding.state ≡ true
unfolding binding_state_terminal
released_ended = refl

ended_binding_example : ¬ BindingStep encoder released_binding taken_binding
ended_binding_example = ended_binding encoder released_binding taken_binding released_ended

stopped_owned : owned stopped_binding ≡ true
unfolding effect_ownership_eq
stopped_owned = refl

owned_release_example :
    (stopped_binding.state ≡ RuntimeBindingState.stopping)
    × (stopped_binding.observed_state ≡ RuntimeObservedState.stopped)
owned_release_example =
    owned_release encoder stopped_binding released_binding completion_step refl stopped_owned

BindingStep-valid_example : validate_binding encoder taken_binding ≡ ok tt
BindingStep-valid_example =
    BindingStep-valid encoder encoder_digests (omega arith) (omega arith) handover_step

active_observation_example :
    (observed_state_eq loss.observed_state RuntimeObservedState.running ≡ true)
    ⊎ (observed_state_eq loss.observed_state RuntimeObservedState.lost ≡ true)
active_observation_example =
    active_observation encoder active_binding loss lost_decision loss-ok refl
