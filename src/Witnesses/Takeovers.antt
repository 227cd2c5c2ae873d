-- ===== src/Witnesses/Takeovers.antt =====
-- A binding that the next holder observes again after a takeover.
use xgc2_orchestration_core.Base.{none, some, [], ◌∷◌, ◌≡◌, ◌⊎◌, refl, ok}
use xgc2_orchestration_core.Contracts.Identity.{
  valid_identifier, valid_digest, valid_type_ref, is_trimmed,
}
use xgc2_orchestration_core.Contracts.Json.{digest_value, Json, Fields, field}
use xgc2_orchestration_core.Contracts.Statuses.{failure_class_valid}
use xgc2_orchestration_core.Contracts.Runtimes.{
  effect_ownership_eq, effect_ownership_valid, RuntimeBindingState, binding_state_eq,
  binding_state_valid, binding_state_terminal, RuntimeObservedState, observed_state_eq,
  observed_state_valid, RuntimeHealth, runtime_health_eq, runtime_health_valid, cleanup_policy_eq,
  cleanup_policy_valid, RuntimeBinding,
}
use xgc2_orchestration_core.Execution.Identity.{
  validate_identity, validate_identities, validate_canonical_text, private_token_digest, stable_id,
  stable_event_id, stable_intent_id,
}
use xgc2_orchestration_core.Runtime.Validation.{
  validate_runtime_failure, validate_observation_failure, validate_binding_failure,
  validate_ownership, validate_kinds, validate_counters, validate_lease, validate_binding_state,
  validate_observation, validate_external, stable_binding_id, validate_binding_refs,
  validate_binding, validate_fence, new_binding_event, new_binding_intent, failure_json,
  observation_digest,
}
use xgc2_orchestration_core.Runtime.Operations.{
  ObserveCommand, BindingDecision, clear_lease, observed, lose, observed_binding, taken_over,
  released, check_observe, observe, check_takeover, takeover, check_finish_release, finish_release,
}
use xgc2_orchestration_core.Execution.Invocation.Fence.{token_matches}
use xgc2_orchestration_core.Runtime.Steps.{BindingStep}
use xgc2_orchestration_core.Runtime.Fencing.{BindingReach}
use xgc2_orchestration_core.Witnesses.Encoder.{encoder, digest}
use xgc2_orchestration_core.Runtime.Takeovers.{Unobserved, ObservedSince, takeover-Unobserved}
use xgc2_orchestration_core.Witnesses.Bindings.{
  active_binding, fence, handover, taken_binding, announced, fenced_by, taken, handover-ok,
}

abbrev sighting : ObserveCommand
sighting = record {
  fence = record fence {
    expected_revision = 5;
    generation = 2;
    fencing_token = 6;
    lease_owner = "worker-2";
    lease_token = "other";
    at = 1100;
  };
  external_identity = "process-7";
  observed_state = RuntimeObservedState.running;
  health = RuntimeHealth.unknown;
  observation_digest = digest;
  failure = none;
  command_id = "command-9";
}

abbrev seen_binding : RuntimeBinding
seen_binding = record taken_binding {
  state = RuntimeBindingState.active;
  observed_state = RuntimeObservedState.running;
  observation_digest = digest;
  observation_at = some 1100;
  activated_at = some 1100;
  updated_at = 1100;
  revision = 6;
}

abbrev seen : BindingDecision
seen = record {
  binding = seen_binding;
  events =
      (record (announced "runtime.observed.running" "command-9" 1100
        (fenced_by 2 6 (field "observationDigest" (Json.text digest) Fields.end))) {
          aggregate_revision = 6;
        })
      ∷ [];
  intents = [];
}

sighting-ok : observe encoder taken_binding sighting ≡ ok seen
unfolding valid_identifier valid_digest valid_type_ref is_trimmed digest_value failure_class_valid
    effect_ownership_eq effect_ownership_valid binding_state_eq binding_state_valid
    binding_state_terminal observed_state_eq observed_state_valid runtime_health_eq
    runtime_health_valid cleanup_policy_eq cleanup_policy_valid validate_identity
    validate_identities validate_canonical_text private_token_digest stable_id stable_event_id
    stable_intent_id validate_runtime_failure validate_observation_failure validate_binding_failure
    validate_ownership validate_kinds validate_counters validate_lease validate_binding_state
    validate_observation validate_external stable_binding_id validate_binding_refs validate_binding
    validate_fence new_binding_event new_binding_intent failure_json observation_digest clear_lease
    observed lose observed_binding taken_over released check_observe observe check_takeover takeover
    check_finish_release finish_release token_matches
sighting-ok = refl

takeover-Unobserved_example :
    Unobserved active_binding seen_binding
    ⊎ ObservedSince encoder active_binding.fencing_token taken_binding seen_binding
takeover-Unobserved_example =
    takeover-Unobserved encoder active_binding handover taken handover-ok (
      BindingReach.further BindingReach.here (BindingStep.observing sighting seen sighting-ok refl))
