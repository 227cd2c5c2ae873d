-- ===== src/Witnesses/EffectRuns.antt =====
-- The decisions on the effects of the examples, computed.
use xgc2_orchestration_core.Base.{◌≡◌, refl, ok}
use xgc2_orchestration_core.Contracts.Identity.{
  valid_identifier, valid_digest, valid_optional_digest, valid_type_ref, is_trimmed,
}
use xgc2_orchestration_core.Contracts.Json.{digest_value}
use xgc2_orchestration_core.Contracts.Statuses.{failure_class_eq, failure_class_valid}
use xgc2_orchestration_core.Contracts.Runtimes.{effect_ownership_eq, effect_ownership_valid}
use xgc2_orchestration_core.Contracts.EffectStates.{
  compensation_policy_eq, compensation_policy_valid, effect_state_eq, effect_state_valid,
  effect_state_terminal, effect_compensation_eq, effect_compensation_valid, command_risk_valid,
  receipt_status_eq, receipt_status_valid, receipt_status_terminal,
}
use xgc2_orchestration_core.Execution.Identity.{
  validate_identity, validate_identities, validate_optional_identity, validate_canonical_text,
  private_token_digest, stable_id, stable_event_id, stable_intent_id,
}
use xgc2_orchestration_core.Effect.Json.{
  effect_intent_json, target_fence_json, command_envelope_json, command_identity_json,
}
use xgc2_orchestration_core.Effect.Checks.{
  stable_effect_part, stable_effect_id, stable_receipt_id, codes_before, text_before,
  strings_are_sorted, validate_distinct, validate_sorted_identities, validate_effect_failure,
  validate_revision_fence, validate_generation_fence, validate_create_fence, validate_fence_kind,
  validate_target_fence, fence_digest,
}
use xgc2_orchestration_core.Effect.Records.{
  validate_intent_content, validate_intent, validate_application, validate_lifecycle,
  validate_outcome, validate_compensation_fields, validate_proof, validate_reconciliation,
  validate_effect_compensation, validate_record_kinds, validate_record_times,
  validate_preparation_digest, validate_record,
}
use xgc2_orchestration_core.Effect.Envelopes.{
  equal_strings, validate_no_token, command_identity_digest, validate_envelope,
  validate_private_envelope_tokens, validate_public_for_intent, validate_envelope_for_intent,
}
use xgc2_orchestration_core.Effect.Receipts.{
  validate_certain_failure, validate_receipt_status, validate_receipt_refs, validate_receipt,
  validate_successor, last_terminal, validate_receipts, validate_ledger, validate_next_receipt,
}
use xgc2_orchestration_core.Effect.Events.{effect_intent, effect_event}
use xgc2_orchestration_core.Effect.Outcomes.{
  prepared_effect, canceled_effect, begun_effect, received, received_effect, append_receipt,
  can_begin, new_ledger,
}
use xgc2_orchestration_core.Effect.Primary.{
  check_prepare, prepare_effect, check_cancel_prepared, cancel_prepared, check_begin, begin_effect,
  check_receipt_observation, observe_effect,
}
use xgc2_orchestration_core.Effect.Remedies.{
  compensation_allowed, validate_effect_compensation_transition, start_compensation,
  compensated_effect,
}
use xgc2_orchestration_core.Effect.Compensation.{
  check_effect_compensation, compensation_intents, transition_compensation,
}
use xgc2_orchestration_core.Witnesses.Encoder.{encoder}
use xgc2_orchestration_core.Witnesses.Effects.{
  preparation, prepared_disk, preparing, envelope, start, applying_disk, starting, taken_ledger,
  done_ledger, taking, applied_by, accepted_disk, applied_disk, observing_acceptance,
  observing_success, undo, undoing, giving_up, canceling_disk,
}

pub preparing-ok : prepare_effect encoder preparation ≡ ok preparing
unfolding valid_identifier valid_digest valid_optional_digest valid_type_ref is_trimmed digest_value
    failure_class_eq failure_class_valid effect_ownership_eq effect_ownership_valid
    compensation_policy_eq compensation_policy_valid effect_state_eq effect_state_valid
    effect_state_terminal effect_compensation_eq effect_compensation_valid command_risk_valid
    receipt_status_eq receipt_status_valid receipt_status_terminal validate_identity
    validate_identities validate_optional_identity validate_canonical_text private_token_digest
    stable_id stable_event_id stable_intent_id effect_intent_json target_fence_json
    command_envelope_json command_identity_json stable_effect_part stable_effect_id
    stable_receipt_id codes_before text_before strings_are_sorted validate_distinct
    validate_sorted_identities validate_effect_failure validate_revision_fence
    validate_generation_fence validate_create_fence validate_fence_kind validate_target_fence
    fence_digest validate_intent_content validate_intent validate_application validate_lifecycle
    validate_outcome validate_compensation_fields validate_proof validate_reconciliation
    validate_effect_compensation validate_record_kinds validate_record_times
    validate_preparation_digest validate_record equal_strings validate_no_token
    command_identity_digest validate_envelope validate_private_envelope_tokens
    validate_public_for_intent validate_envelope_for_intent validate_certain_failure
    validate_receipt_status validate_receipt_refs validate_receipt validate_successor last_terminal
    validate_receipts validate_ledger validate_next_receipt effect_intent effect_event
    prepared_effect canceled_effect begun_effect received received_effect append_receipt can_begin
    check_prepare prepare_effect check_cancel_prepared cancel_prepared check_begin begin_effect
    check_receipt_observation observe_effect compensation_allowed
    validate_effect_compensation_transition start_compensation compensated_effect
    check_effect_compensation compensation_intents transition_compensation
preparing-ok = refl

pub starting-ok : begin_effect encoder prepared_disk start ≡ ok starting
unfolding valid_identifier valid_digest valid_optional_digest valid_type_ref is_trimmed digest_value
    failure_class_eq failure_class_valid effect_ownership_eq effect_ownership_valid
    compensation_policy_eq compensation_policy_valid effect_state_eq effect_state_valid
    effect_state_terminal effect_compensation_eq effect_compensation_valid command_risk_valid
    receipt_status_eq receipt_status_valid receipt_status_terminal validate_identity
    validate_identities validate_optional_identity validate_canonical_text private_token_digest
    stable_id stable_event_id stable_intent_id effect_intent_json target_fence_json
    command_envelope_json command_identity_json stable_effect_part stable_effect_id
    stable_receipt_id codes_before text_before strings_are_sorted validate_distinct
    validate_sorted_identities validate_effect_failure validate_revision_fence
    validate_generation_fence validate_create_fence validate_fence_kind validate_target_fence
    fence_digest validate_intent_content validate_intent validate_application validate_lifecycle
    validate_outcome validate_compensation_fields validate_proof validate_reconciliation
    validate_effect_compensation validate_record_kinds validate_record_times
    validate_preparation_digest validate_record equal_strings validate_no_token
    command_identity_digest validate_envelope validate_private_envelope_tokens
    validate_public_for_intent validate_envelope_for_intent validate_certain_failure
    validate_receipt_status validate_receipt_refs validate_receipt validate_successor last_terminal
    validate_receipts validate_ledger validate_next_receipt effect_intent effect_event
    prepared_effect canceled_effect begun_effect received received_effect append_receipt can_begin
    check_prepare prepare_effect check_cancel_prepared cancel_prepared check_begin begin_effect
    check_receipt_observation observe_effect compensation_allowed
    validate_effect_compensation_transition start_compensation compensated_effect
    check_effect_compensation compensation_intents transition_compensation
starting-ok = refl

pub acceptance-ok :
    observe_effect encoder applying_disk (new_ledger envelope) taking ≡ ok observing_acceptance
unfolding valid_identifier valid_digest valid_optional_digest valid_type_ref is_trimmed digest_value
    failure_class_eq failure_class_valid effect_ownership_eq effect_ownership_valid
    compensation_policy_eq compensation_policy_valid effect_state_eq effect_state_valid
    effect_state_terminal effect_compensation_eq effect_compensation_valid command_risk_valid
    receipt_status_eq receipt_status_valid receipt_status_terminal validate_identity
    validate_identities validate_optional_identity validate_canonical_text private_token_digest
    stable_id stable_event_id stable_intent_id effect_intent_json target_fence_json
    command_envelope_json command_identity_json stable_effect_part stable_effect_id
    stable_receipt_id codes_before text_before strings_are_sorted validate_distinct
    validate_sorted_identities validate_effect_failure validate_revision_fence
    validate_generation_fence validate_create_fence validate_fence_kind validate_target_fence
    fence_digest validate_intent_content validate_intent validate_application validate_lifecycle
    validate_outcome validate_compensation_fields validate_proof validate_reconciliation
    validate_effect_compensation validate_record_kinds validate_record_times
    validate_preparation_digest validate_record equal_strings validate_no_token
    command_identity_digest validate_envelope validate_private_envelope_tokens
    validate_public_for_intent validate_envelope_for_intent validate_certain_failure
    validate_receipt_status validate_receipt_refs validate_receipt validate_successor last_terminal
    validate_receipts validate_ledger validate_next_receipt effect_intent effect_event
    prepared_effect canceled_effect begun_effect received received_effect append_receipt can_begin
    check_prepare prepare_effect check_cancel_prepared cancel_prepared check_begin begin_effect
    check_receipt_observation observe_effect compensation_allowed
    validate_effect_compensation_transition start_compensation compensated_effect
    check_effect_compensation compensation_intents transition_compensation
acceptance-ok = refl

pub success-ok : observe_effect encoder accepted_disk taken_ledger applied_by ≡ ok observing_success
unfolding valid_identifier valid_digest valid_optional_digest valid_type_ref is_trimmed digest_value
    failure_class_eq failure_class_valid effect_ownership_eq effect_ownership_valid
    compensation_policy_eq compensation_policy_valid effect_state_eq effect_state_valid
    effect_state_terminal effect_compensation_eq effect_compensation_valid command_risk_valid
    receipt_status_eq receipt_status_valid receipt_status_terminal validate_identity
    validate_identities validate_optional_identity validate_canonical_text private_token_digest
    stable_id stable_event_id stable_intent_id effect_intent_json target_fence_json
    command_envelope_json command_identity_json stable_effect_part stable_effect_id
    stable_receipt_id codes_before text_before strings_are_sorted validate_distinct
    validate_sorted_identities validate_effect_failure validate_revision_fence
    validate_generation_fence validate_create_fence validate_fence_kind validate_target_fence
    fence_digest validate_intent_content validate_intent validate_application validate_lifecycle
    validate_outcome validate_compensation_fields validate_proof validate_reconciliation
    validate_effect_compensation validate_record_kinds validate_record_times
    validate_preparation_digest validate_record equal_strings validate_no_token
    command_identity_digest validate_envelope validate_private_envelope_tokens
    validate_public_for_intent validate_envelope_for_intent validate_certain_failure
    validate_receipt_status validate_receipt_refs validate_receipt validate_successor last_terminal
    validate_receipts validate_ledger validate_next_receipt effect_intent effect_event
    prepared_effect canceled_effect begun_effect received received_effect append_receipt can_begin
    check_prepare prepare_effect check_cancel_prepared cancel_prepared check_begin begin_effect
    check_receipt_observation observe_effect compensation_allowed
    validate_effect_compensation_transition start_compensation compensated_effect
    check_effect_compensation compensation_intents transition_compensation
success-ok = refl

pub undoing-ok : transition_compensation encoder applied_disk undo ≡ ok undoing
unfolding valid_identifier valid_digest valid_optional_digest valid_type_ref is_trimmed digest_value
    failure_class_eq failure_class_valid effect_ownership_eq effect_ownership_valid
    compensation_policy_eq compensation_policy_valid effect_state_eq effect_state_valid
    effect_state_terminal effect_compensation_eq effect_compensation_valid command_risk_valid
    receipt_status_eq receipt_status_valid receipt_status_terminal validate_identity
    validate_identities validate_optional_identity validate_canonical_text private_token_digest
    stable_id stable_event_id stable_intent_id effect_intent_json target_fence_json
    command_envelope_json command_identity_json stable_effect_part stable_effect_id
    stable_receipt_id codes_before text_before strings_are_sorted validate_distinct
    validate_sorted_identities validate_effect_failure validate_revision_fence
    validate_generation_fence validate_create_fence validate_fence_kind validate_target_fence
    fence_digest validate_intent_content validate_intent validate_application validate_lifecycle
    validate_outcome validate_compensation_fields validate_proof validate_reconciliation
    validate_effect_compensation validate_record_kinds validate_record_times
    validate_preparation_digest validate_record equal_strings validate_no_token
    command_identity_digest validate_envelope validate_private_envelope_tokens
    validate_public_for_intent validate_envelope_for_intent validate_certain_failure
    validate_receipt_status validate_receipt_refs validate_receipt validate_successor last_terminal
    validate_receipts validate_ledger validate_next_receipt effect_intent effect_event
    prepared_effect canceled_effect begun_effect received received_effect append_receipt can_begin
    check_prepare prepare_effect check_cancel_prepared cancel_prepared check_begin begin_effect
    check_receipt_observation observe_effect compensation_allowed
    validate_effect_compensation_transition start_compensation compensated_effect
    check_effect_compensation compensation_intents transition_compensation
undoing-ok = refl

pub canceling-ok : cancel_prepared encoder prepared_disk giving_up ≡ ok canceling_disk
unfolding valid_identifier valid_digest valid_optional_digest valid_type_ref is_trimmed digest_value
    failure_class_eq failure_class_valid effect_ownership_eq effect_ownership_valid
    compensation_policy_eq compensation_policy_valid effect_state_eq effect_state_valid
    effect_state_terminal effect_compensation_eq effect_compensation_valid command_risk_valid
    receipt_status_eq receipt_status_valid receipt_status_terminal validate_identity
    validate_identities validate_optional_identity validate_canonical_text private_token_digest
    stable_id stable_event_id stable_intent_id effect_intent_json target_fence_json
    command_envelope_json command_identity_json stable_effect_part stable_effect_id
    stable_receipt_id codes_before text_before strings_are_sorted validate_distinct
    validate_sorted_identities validate_effect_failure validate_revision_fence
    validate_generation_fence validate_create_fence validate_fence_kind validate_target_fence
    fence_digest validate_intent_content validate_intent validate_application validate_lifecycle
    validate_outcome validate_compensation_fields validate_proof validate_reconciliation
    validate_effect_compensation validate_record_kinds validate_record_times
    validate_preparation_digest validate_record equal_strings validate_no_token
    command_identity_digest validate_envelope validate_private_envelope_tokens
    validate_public_for_intent validate_envelope_for_intent validate_certain_failure
    validate_receipt_status validate_receipt_refs validate_receipt validate_successor last_terminal
    validate_receipts validate_ledger validate_next_receipt effect_intent effect_event
    prepared_effect canceled_effect begun_effect received received_effect append_receipt can_begin
    check_prepare prepare_effect check_cancel_prepared cancel_prepared check_begin begin_effect
    check_receipt_observation observe_effect compensation_allowed
    validate_effect_compensation_transition start_compensation compensated_effect
    check_effect_compensation compensation_intents transition_compensation
canceling-ok = refl

pub done_ledger-ok : validate_ledger encoder done_ledger ≡ ok tt
unfolding valid_identifier valid_digest valid_optional_digest valid_type_ref is_trimmed digest_value
    failure_class_eq failure_class_valid effect_ownership_eq effect_ownership_valid
    compensation_policy_eq compensation_policy_valid effect_state_eq effect_state_valid
    effect_state_terminal effect_compensation_eq effect_compensation_valid command_risk_valid
    receipt_status_eq receipt_status_valid receipt_status_terminal validate_identity
    validate_identities validate_optional_identity validate_canonical_text private_token_digest
    stable_id stable_event_id stable_intent_id effect_intent_json target_fence_json
    command_envelope_json command_identity_json stable_effect_part stable_effect_id
    stable_receipt_id codes_before text_before strings_are_sorted validate_distinct
    validate_sorted_identities validate_effect_failure validate_revision_fence
    validate_generation_fence validate_create_fence validate_fence_kind validate_target_fence
    fence_digest validate_intent_content validate_intent validate_application validate_lifecycle
    validate_outcome validate_compensation_fields validate_proof validate_reconciliation
    validate_effect_compensation validate_record_kinds validate_record_times
    validate_preparation_digest validate_record equal_strings validate_no_token
    command_identity_digest validate_envelope validate_private_envelope_tokens
    validate_public_for_intent validate_envelope_for_intent validate_certain_failure
    validate_receipt_status validate_receipt_refs validate_receipt validate_successor last_terminal
    validate_receipts validate_ledger validate_next_receipt effect_intent effect_event
    prepared_effect canceled_effect begun_effect received received_effect append_receipt can_begin
    check_prepare prepare_effect check_cancel_prepared cancel_prepared check_begin begin_effect
    check_receipt_observation observe_effect compensation_allowed
    validate_effect_compensation_transition start_compensation compensated_effect
    check_effect_compensation compensation_intents transition_compensation
done_ledger-ok = refl
