-- ===== src/Witnesses/Closure.antt =====
-- A Run that is stopped and owns nothing open, and the record of its closure.
use xgc2_orchestration_core.Base.{arith, [], ◌∷◌, ◌≡◌, refl, ok, ◌<◌}
use xgc2_orchestration_core.Contracts.EffectStates.{
  compensation_policy_eq, compensation_policy_valid, effect_state_eq, effect_state_valid,
  effect_state_terminal, effect_compensation_eq, effect_compensation_valid, command_risk_valid,
  receipt_status_eq, receipt_status_valid, receipt_status_terminal, effect_compensation_terminal,
  closes_required,
}
use xgc2_orchestration_core.Contracts.Identity.{
  valid_identifier, valid_digest, valid_type_ref, is_trimmed, valid_version, valid_optional_digest,
}
use xgc2_orchestration_core.Contracts.Json.{digest_value}
use xgc2_orchestration_core.Contracts.Ownership.{
  resource_state_valid, resource_state_terminal, ResourceBindingState, ResourceOwnershipFact,
  OwnershipClosureBase, OwnershipGraph,
}
use xgc2_orchestration_core.Contracts.Records.{satisfied, RunClosureFacts, InvocationLedger}
use xgc2_orchestration_core.Contracts.Runtimes.{
  EffectOwnership, effect_ownership_eq, effect_ownership_valid, binding_state_eq,
  binding_state_valid, binding_state_terminal, observed_state_eq, observed_state_valid,
  runtime_health_eq, runtime_health_valid, cleanup_policy_eq, cleanup_policy_valid,
}
use xgc2_orchestration_core.Contracts.Statuses.{
  run_status_eq, run_status_valid, run_status_terminal, termination_kind_eq, termination_kind_valid,
  requires_stopping, failure_class_eq, failure_class_valid, invocation_status_eq,
  invocation_status_valid, invocation_status_terminal, compensation_status_eq,
  compensation_status_valid, compensation_status_terminal, attempt_phase_eq, attempt_phase_valid,
  attempt_status_eq, attempt_status_valid, attempt_status_terminal, CompensationStatus,
}
use xgc2_orchestration_core.Effect.Checks.{
  stable_effect_part, stable_effect_id, stable_receipt_id, codes_before, text_before,
  strings_are_sorted, validate_distinct, validate_sorted_identities, validate_effect_failure,
  validate_revision_fence, validate_generation_fence, validate_create_fence, validate_fence_kind,
  validate_target_fence, fence_digest,
}
use xgc2_orchestration_core.Effect.Compensation.{
  check_effect_compensation, compensation_intents, transition_compensation,
}
use xgc2_orchestration_core.Effect.Envelopes.{
  equal_strings, validate_no_token, command_identity_digest, validate_envelope,
  validate_private_envelope_tokens, validate_public_for_intent, validate_envelope_for_intent,
}
use xgc2_orchestration_core.Effect.Events.{effect_intent, effect_event}
use xgc2_orchestration_core.Effect.Json.{
  effect_intent_json, target_fence_json, command_envelope_json, command_identity_json,
}
use xgc2_orchestration_core.Effect.Outcomes.{
  prepared_effect, canceled_effect, begun_effect, received, received_effect, append_receipt,
  can_begin,
}
use xgc2_orchestration_core.Effect.Primary.{
  check_prepare, prepare_effect, check_cancel_prepared, cancel_prepared, check_begin, begin_effect,
  check_receipt_observation, observe_effect,
}
use xgc2_orchestration_core.Effect.Receipts.{
  validate_certain_failure, validate_receipt_status, validate_receipt_refs, validate_receipt,
  validate_successor, last_terminal, validate_receipts, validate_ledger, validate_next_receipt,
}
use xgc2_orchestration_core.Effect.Records.{
  validate_intent_content, validate_intent, validate_application, validate_lifecycle,
  validate_outcome, validate_compensation_fields, validate_proof, validate_reconciliation,
  validate_effect_compensation, validate_record_kinds, validate_record_times,
  validate_preparation_digest, validate_record,
}
use xgc2_orchestration_core.Effect.Remedies.{
  compensation_allowed, validate_effect_compensation_transition, start_compensation,
  compensated_effect,
}
use xgc2_orchestration_core.Execution.Event.{new_event, new_durable_intent}
use xgc2_orchestration_core.Execution.Identity.{
  action_ref_json, stable_id, stable_event_id, stable_intent_id, validate_identity,
  validate_identities, validate_optional_identity, validate_optional_identities,
  validate_canonical_text, validate_failure, validate_failures, stable_invocation_id,
  stable_child_run_id, stable_child_trigger_event_id, stable_attempt_id, private_token_digest,
  validate_failure_value,
}
use xgc2_orchestration_core.Execution.Invocation.Activation.{
  validate_activate_invocation, activated, activate_invocation,
}
use xgc2_orchestration_core.Execution.Invocation.Claims.{
  new_attempt, claimed, check_claim, claim_invocation,
}
use xgc2_orchestration_core.Execution.Invocation.Compensation.{
  scheduled, compensation_claimed, check_compensation_target, validate_compensation_transition,
  compensated, check_schedule, schedule_invocation_compensation, check_claim_compensation,
  claim_compensation, check_compensation, retry_intents, transition_invocation_compensation,
}
use xgc2_orchestration_core.Execution.Invocation.Fence.{
  active_pointer, token_matches, check_located_fence, validate_attempt_fence_any,
  validate_attempt_fence_for_phase, decide, close_attempt,
}
use xgc2_orchestration_core.Execution.Invocation.Primary.{
  check_aligned, validate_aligned_transition, transitioned_attempt, transitioned_invocation,
  transitioned, check_transition, transition_invocation,
}
use xgc2_orchestration_core.Execution.Invocation.Recovery.{
  heartbeaten, check_expired_attempt, expired, unleased_allowed, unleased, cancel_located,
  canceled_attempts, canceled, check_heartbeat, heartbeat_attempt, check_expiry,
  expire_invocation_attempt, check_unleased, resolve_unleased_invocation, check_cancel,
  cancel_invocation,
}
use xgc2_orchestration_core.Execution.Invocation.Validation.{
  invocation_allowed, validate_invocation_transition, attempt_allowed, validate_attempt_transition,
  count_phase, locate, validate_idle_compensation, validate_compensation, validate_active,
  validate_invocation_state, validate_counts, validate_attempt, validate_attempts,
  validate_invocation_refs, validate_invocation_ledger,
}
use xgc2_orchestration_core.Execution.Invocation.Waits.{
  wait_resolution, check_waiting_attempt, wait_resolved, check_wait_resolution,
  resolve_invocation_wait,
}
use xgc2_orchestration_core.Execution.Run.Transition.{
  validate_admit_run, admitted_run, closes_otherwise, validate_other_guards, validate_stop_intent,
  validate_run_transition_guards, check_run_transition, next_run, transition_payload, admit_run,
  cleanup_intent, stopping_intents, run_event, transition_run,
}
use xgc2_orchestration_core.Execution.Run.Validation.{
  run_allowed, validate_run_transition, terminal_status, validate_termination, action_ref_valid,
  validate_digests, validate_admission_fences, validate_run_refs, validate_run_times,
  validate_run_termination, validate_run_outcome, frozen_revision, validate_frozen,
  validate_optional_frozen, validate_optional_parent, validate_run,
}
use xgc2_orchestration_core.Ownership.Counts.{derive_closure_facts-quiet}
use xgc2_orchestration_core.Ownership.Facts.{
  taken, claim_identity, count_live, count_invocation, count_child, policy_open, count_effect,
  count_runtime, count_resource, no_facts, no_derivation, derive_each, derive_invocation,
  derive_child, derive_effect, derive_runtime, derive_resource, derive_owned, derive_closure_facts,
}
use xgc2_orchestration_core.Ownership.Graph.{
  facts_eq, verification, exact_run, validate_terminal_projection, closure_facts,
}
use xgc2_orchestration_core.Ownership.Json.{run_json}
use xgc2_orchestration_core.Ownership.Quiet.{size, quiet, attempt_total}
use xgc2_orchestration_core.Ownership.Terminal.{ClosedBy, closure_facts-ClosedBy}
use xgc2_orchestration_core.Runtime.Operations.{
  clear_lease, observed, lose, observed_binding, taken_over, released, check_observe, observe,
  check_takeover, takeover, check_finish_release, finish_release,
}
use xgc2_orchestration_core.Runtime.Validation.{
  validate_runtime_failure, validate_observation_failure, validate_binding_failure,
  validate_ownership, validate_kinds, validate_counters, validate_lease, validate_binding_state,
  validate_observation, validate_external, stable_binding_id, validate_binding_refs,
  validate_binding, validate_fence, new_binding_event, new_binding_intent, failure_json,
  observation_digest,
}
use xgc2_orchestration_core.Witnesses.Bindings.{released_binding}
use xgc2_orchestration_core.Witnesses.Effects.{canceled_disk}
use xgc2_orchestration_core.Witnesses.Encoder.{encoder}
use xgc2_orchestration_core.Witnesses.Ledgers.{done_ledger}
use xgc2_orchestration_core.Witnesses.Runs.{stopping_run, finished_run}

abbrev closed_ledger : InvocationLedger
closed_ledger = record done_ledger {
  invocation = record done_ledger.invocation {
    compensation_status = CompensationStatus.not_required;
  };
}

abbrev released_volume : ResourceOwnershipFact
released_volume = record {
  binding_id = "volume-1";
  run_id = "run-1";
  ownership = EffectOwnership.owned;
  state = ResourceBindingState.released;
}

abbrev pub closed_base : OwnershipClosureBase
closed_base = record {
  run = stopping_run;
  invocations = closed_ledger ∷ [];
  child_runs = [];
  effects = canceled_disk ∷ [];
  runtimes = released_binding ∷ [];
  resources = released_volume ∷ [];
}

abbrev pub closed_facts : RunClosureFacts
closed_facts = record {
  run_revision = 3;
  ownership_graph_revision = 1;
  active_invocation_count = 0;
  live_attempt_count = 0;
  open_wait_count = 0;
  open_child_count = 0;
  open_effect_count = 0;
  open_effect_compensation_count = 0;
  open_owned_runtime_count = 0;
  open_owned_resource_count = 0;
}

abbrev pub closed_graph : OwnershipGraph
closed_graph = record {
  schema_version = "xgc.ownership-graph/v1";
  revision = 1;
  closure_base = closed_base;
  closure_facts = closed_facts;
  terminal_run = finished_run;
}

facts-ok : derive_closure_facts encoder closed_base 1 ≡ ok closed_facts
unfolding admit_run validate_admit_run admitted_run validate_run validate_identities
    validate_digests action_ref_valid validate_optional_identity validate_admission_fences
    validate_run_refs validate_run_times validate_run_termination validate_run_outcome
    validate_optional_frozen validate_optional_parent validate_optional_identities validate_failure
    validate_failures validate_identity valid_identifier valid_digest valid_type_ref run_status_eq
    run_status_terminal run_status_valid new_event digest_value stable_event_id stable_id
    action_ref_json transition_run check_run_transition next_run validate_run_transition run_allowed
    validate_run_transition_guards validate_other_guards closes_otherwise satisfied
    validate_stop_intent validate_termination requires_stopping validate_canonical_text is_trimmed
    termination_kind_eq termination_kind_valid run_event transition_payload stopping_intents
    cleanup_intent new_durable_intent stable_intent_id validate_frozen frozen_revision
    terminal_status valid_version valid_optional_digest failure_class_eq failure_class_valid
    invocation_status_eq invocation_status_valid invocation_status_terminal compensation_status_eq
    compensation_status_valid compensation_status_terminal attempt_phase_eq attempt_phase_valid
    attempt_status_eq attempt_status_valid attempt_status_terminal stable_invocation_id
    stable_child_run_id stable_child_trigger_event_id stable_attempt_id private_token_digest
    validate_failure_value invocation_allowed validate_invocation_transition attempt_allowed
    validate_attempt_transition count_phase locate validate_idle_compensation validate_compensation
    validate_active validate_invocation_state validate_counts validate_attempt validate_attempts
    validate_invocation_refs validate_invocation_ledger active_pointer token_matches
    check_located_fence validate_attempt_fence_any validate_attempt_fence_for_phase decide
    close_attempt validate_activate_invocation activated new_attempt claimed check_aligned
    validate_aligned_transition transitioned_attempt transitioned_invocation transitioned
    wait_resolution check_waiting_attempt wait_resolved activate_invocation check_claim
    claim_invocation check_transition transition_invocation check_wait_resolution
    resolve_invocation_wait heartbeaten check_expired_attempt expired unleased_allowed unleased
    cancel_located canceled_attempts canceled check_heartbeat heartbeat_attempt check_expiry
    expire_invocation_attempt check_unleased resolve_unleased_invocation check_cancel
    cancel_invocation scheduled compensation_claimed check_compensation_target
    validate_compensation_transition compensated check_schedule schedule_invocation_compensation
    check_claim_compensation claim_compensation check_compensation retry_intents
    transition_invocation_compensation effect_ownership_eq effect_ownership_valid binding_state_eq
    binding_state_valid binding_state_terminal observed_state_eq observed_state_valid
    runtime_health_eq runtime_health_valid cleanup_policy_eq cleanup_policy_valid
    validate_runtime_failure validate_observation_failure validate_binding_failure
    validate_ownership validate_kinds validate_counters validate_lease validate_binding_state
    validate_observation validate_external stable_binding_id validate_binding_refs validate_binding
    validate_fence new_binding_event new_binding_intent failure_json observation_digest clear_lease
    observed lose observed_binding taken_over released check_observe observe check_takeover takeover
    check_finish_release finish_release compensation_policy_eq compensation_policy_valid
    effect_state_eq effect_state_valid effect_state_terminal effect_compensation_eq
    effect_compensation_valid command_risk_valid receipt_status_eq receipt_status_valid
    receipt_status_terminal effect_intent_json target_fence_json command_envelope_json
    command_identity_json stable_effect_part stable_effect_id stable_receipt_id codes_before
    text_before strings_are_sorted validate_distinct validate_sorted_identities
    validate_effect_failure validate_revision_fence validate_generation_fence validate_create_fence
    validate_fence_kind validate_target_fence fence_digest validate_intent_content validate_intent
    validate_application validate_lifecycle validate_outcome validate_compensation_fields
    validate_proof validate_reconciliation validate_effect_compensation validate_record_kinds
    validate_record_times validate_preparation_digest validate_record equal_strings
    validate_no_token command_identity_digest validate_envelope validate_private_envelope_tokens
    validate_public_for_intent validate_envelope_for_intent validate_certain_failure
    validate_receipt_status validate_receipt_refs validate_receipt validate_successor last_terminal
    validate_receipts validate_ledger validate_next_receipt effect_intent effect_event
    prepared_effect canceled_effect begun_effect received received_effect append_receipt can_begin
    check_prepare prepare_effect check_cancel_prepared cancel_prepared check_begin begin_effect
    check_receipt_observation observe_effect compensation_allowed
    validate_effect_compensation_transition start_compensation compensated_effect
    check_effect_compensation compensation_intents transition_compensation
    effect_compensation_terminal closes_required resource_state_valid resource_state_terminal
    run_json taken claim_identity count_live count_invocation count_child policy_open count_effect
    count_runtime count_resource no_facts no_derivation derive_each derive_invocation derive_child
    derive_effect derive_runtime derive_resource derive_owned derive_closure_facts facts_eq
    verification exact_run validate_terminal_projection closure_facts
facts-ok = refl

closure-ok : closure_facts encoder closed_graph ≡ ok closed_facts
unfolding admit_run validate_admit_run admitted_run validate_run validate_identities
    validate_digests action_ref_valid validate_optional_identity validate_admission_fences
    validate_run_refs validate_run_times validate_run_termination validate_run_outcome
    validate_optional_frozen validate_optional_parent validate_optional_identities validate_failure
    validate_failures validate_identity valid_identifier valid_digest valid_type_ref run_status_eq
    run_status_terminal run_status_valid new_event digest_value stable_event_id stable_id
    action_ref_json transition_run check_run_transition next_run validate_run_transition run_allowed
    validate_run_transition_guards validate_other_guards closes_otherwise satisfied
    validate_stop_intent validate_termination requires_stopping validate_canonical_text is_trimmed
    termination_kind_eq termination_kind_valid run_event transition_payload stopping_intents
    cleanup_intent new_durable_intent stable_intent_id validate_frozen frozen_revision
    terminal_status valid_version valid_optional_digest failure_class_eq failure_class_valid
    invocation_status_eq invocation_status_valid invocation_status_terminal compensation_status_eq
    compensation_status_valid compensation_status_terminal attempt_phase_eq attempt_phase_valid
    attempt_status_eq attempt_status_valid attempt_status_terminal stable_invocation_id
    stable_child_run_id stable_child_trigger_event_id stable_attempt_id private_token_digest
    validate_failure_value invocation_allowed validate_invocation_transition attempt_allowed
    validate_attempt_transition count_phase locate validate_idle_compensation validate_compensation
    validate_active validate_invocation_state validate_counts validate_attempt validate_attempts
    validate_invocation_refs validate_invocation_ledger active_pointer token_matches
    check_located_fence validate_attempt_fence_any validate_attempt_fence_for_phase decide
    close_attempt validate_activate_invocation activated new_attempt claimed check_aligned
    validate_aligned_transition transitioned_attempt transitioned_invocation transitioned
    wait_resolution check_waiting_attempt wait_resolved activate_invocation check_claim
    claim_invocation check_transition transition_invocation check_wait_resolution
    resolve_invocation_wait heartbeaten check_expired_attempt expired unleased_allowed unleased
    cancel_located canceled_attempts canceled check_heartbeat heartbeat_attempt check_expiry
    expire_invocation_attempt check_unleased resolve_unleased_invocation check_cancel
    cancel_invocation scheduled compensation_claimed check_compensation_target
    validate_compensation_transition compensated check_schedule schedule_invocation_compensation
    check_claim_compensation claim_compensation check_compensation retry_intents
    transition_invocation_compensation effect_ownership_eq effect_ownership_valid binding_state_eq
    binding_state_valid binding_state_terminal observed_state_eq observed_state_valid
    runtime_health_eq runtime_health_valid cleanup_policy_eq cleanup_policy_valid
    validate_runtime_failure validate_observation_failure validate_binding_failure
    validate_ownership validate_kinds validate_counters validate_lease validate_binding_state
    validate_observation validate_external stable_binding_id validate_binding_refs validate_binding
    validate_fence new_binding_event new_binding_intent failure_json observation_digest clear_lease
    observed lose observed_binding taken_over released check_observe observe check_takeover takeover
    check_finish_release finish_release compensation_policy_eq compensation_policy_valid
    effect_state_eq effect_state_valid effect_state_terminal effect_compensation_eq
    effect_compensation_valid command_risk_valid receipt_status_eq receipt_status_valid
    receipt_status_terminal effect_intent_json target_fence_json command_envelope_json
    command_identity_json stable_effect_part stable_effect_id stable_receipt_id codes_before
    text_before strings_are_sorted validate_distinct validate_sorted_identities
    validate_effect_failure validate_revision_fence validate_generation_fence validate_create_fence
    validate_fence_kind validate_target_fence fence_digest validate_intent_content validate_intent
    validate_application validate_lifecycle validate_outcome validate_compensation_fields
    validate_proof validate_reconciliation validate_effect_compensation validate_record_kinds
    validate_record_times validate_preparation_digest validate_record equal_strings
    validate_no_token command_identity_digest validate_envelope validate_private_envelope_tokens
    validate_public_for_intent validate_envelope_for_intent validate_certain_failure
    validate_receipt_status validate_receipt_refs validate_receipt validate_successor last_terminal
    validate_receipts validate_ledger validate_next_receipt effect_intent effect_event
    prepared_effect canceled_effect begun_effect received received_effect append_receipt can_begin
    check_prepare prepare_effect check_cancel_prepared cancel_prepared check_begin begin_effect
    check_receipt_observation observe_effect compensation_allowed
    validate_effect_compensation_transition start_compensation compensated_effect
    check_effect_compensation compensation_intents transition_compensation
    effect_compensation_terminal closes_required resource_state_valid resource_state_terminal
    run_json taken claim_identity count_live count_invocation count_child policy_open count_effect
    count_runtime count_resource no_facts no_derivation derive_each derive_invocation derive_child
    derive_effect derive_runtime derive_resource derive_owned derive_closure_facts facts_eq
    verification exact_run validate_terminal_projection closure_facts
closure-ok = refl

base_size : size closed_base < 18446744073709551616
unfolding attempt_total
base_size = omega arith

derive_closure_facts-quiet_example : satisfied closed_facts ≡ quiet closed_base
derive_closure_facts-quiet_example =
    derive_closure_facts-quiet encoder closed_base 1 facts-ok base_size

closure_facts-ClosedBy_example : ClosedBy encoder closed_graph closed_facts
closure_facts-ClosedBy_example = closure_facts-ClosedBy encoder closed_graph base_size closure-ok
