-- ===== src/Witnesses/Ledgers.antt =====
-- An Invocation that is activated, claimed by a worker and succeeds, and whose compensation is
-- scheduled.
use Prim.Native.String.{◌++◌}
use xgc2_orchestration_core.Base.{
  Time, ℕ, String, none, some, [], ◌∷◌, ◌≡◌, refl, ok, true, no_time,
}
use xgc2_orchestration_core.Contracts.Json.{Json, Fields, field, num, digest_value}
use xgc2_orchestration_core.Contracts.Records.{DomainEvent, Attempt, InvocationLedger}
use xgc2_orchestration_core.Contracts.Identity.{
  is_trimmed, valid_identifier, valid_version, valid_type_ref, valid_digest, valid_optional_digest,
}
use xgc2_orchestration_core.Contracts.Statuses.{
  InvocationStatus, CompensationStatus, AttemptPhase, AttemptStatus, DurableIntentKind,
  failure_class_eq, failure_class_valid, run_status_eq, run_status_valid, run_status_terminal,
  termination_kind_eq, termination_kind_valid, invocation_status_eq, invocation_status_valid,
  invocation_status_terminal, compensation_status_eq, compensation_status_valid,
  compensation_status_terminal, attempt_phase_eq, attempt_phase_valid, attempt_status_eq,
  attempt_status_valid, attempt_status_terminal, requires_stopping,
}
use xgc2_orchestration_core.Execution.Identity.{
  action_ref_json, stable_id, stable_invocation_id, stable_child_run_id,
  stable_child_trigger_event_id, stable_attempt_id, stable_event_id, stable_intent_id,
  validate_identity, validate_identities, validate_optional_identity, validate_optional_identities,
  validate_canonical_text, private_token_digest, validate_failure_value, validate_failure,
  validate_failures,
}
use xgc2_orchestration_core.Execution.Event.{
  event_payload_schema_digest, new_event, new_durable_intent,
}
use xgc2_orchestration_core.Execution.Invocation.Validation.{
  invocation_allowed, validate_invocation_transition, attempt_allowed, validate_attempt_transition,
  count_phase, locate, validate_idle_compensation, validate_compensation, validate_active,
  validate_invocation_state, validate_counts, validate_attempt, validate_attempts,
  validate_invocation_refs, validate_invocation_ledger,
}
use xgc2_orchestration_core.Execution.Invocation.Fence.{
  InvocationDecision, active_pointer, token_matches, check_located_fence,
  validate_attempt_fence_any, validate_attempt_fence_for_phase, decide, close_attempt,
}
use xgc2_orchestration_core.Execution.Invocation.Activation.{
  ActivateInvocationCommand, validate_activate_invocation, activated, activate_invocation,
}
use xgc2_orchestration_core.Execution.Invocation.Claims.{
  ClaimInvocationCommand, new_attempt, claimed, check_claim, claim_invocation,
}
use xgc2_orchestration_core.Execution.Invocation.Primary.{
  TransitionInvocationCommand, check_aligned, validate_aligned_transition, transitioned_attempt,
  transitioned_invocation, transitioned, check_transition, transition_invocation,
}
use xgc2_orchestration_core.Execution.Invocation.Waits.{
  wait_resolution, check_waiting_attempt, wait_resolved, check_wait_resolution,
  resolve_invocation_wait,
}
use xgc2_orchestration_core.Execution.Invocation.Recovery.{
  heartbeaten, check_expired_attempt, expired, unleased_allowed, unleased, cancel_located,
  canceled_attempts, canceled, check_heartbeat, heartbeat_attempt, check_expiry,
  expire_invocation_attempt, check_unleased, resolve_unleased_invocation, check_cancel,
  cancel_invocation,
}
use xgc2_orchestration_core.Execution.Invocation.Compensation.{
  ScheduleInvocationCompensationCommand, scheduled, compensation_claimed, check_compensation_target,
  validate_compensation_transition, compensated, check_schedule, schedule_invocation_compensation,
  check_claim_compensation, claim_compensation, check_compensation, retry_intents,
  transition_invocation_compensation,
}
use xgc2_orchestration_core.Witnesses.Encoder.{encoder, digest, hex}

abbrev pub activation : ActivateInvocationCommand
activation = record {
  invocation_id = "inv-" ++ hex;
  namespace_id = "ns-1";
  run_id = "run-1";
  node_id = "node-1";
  type_ref = "copy/v1";
  descriptor_digest = digest;
  resolved_input_digest = digest;
  input_refs_digest = digest;
  compensatable = true;
  command_id = "command-1";
  at = 100;
}

abbrev pub ready_ledger : InvocationLedger
ready_ledger = record {
  invocation = record {
    invocation_id = "inv-" ++ hex;
    namespace_id = "ns-1";
    run_id = "run-1";
    node_id = "node-1";
    type_ref = "copy/v1";
    descriptor_digest = digest;
    resolved_input_digest = digest;
    input_refs_digest = digest;
    status = InvocationStatus.ready;
    active_attempt_id = "";
    active_compensation_attempt_id = "";
    execution_attempt_count = 0;
    wait_generation = 0;
    current_wait_ref = "";
    next_attempt_at = none;
    output_refs_digest = "";
    primary_failure = none;
    compensation_status = CompensationStatus.unscheduled;
    compensation_attempt_count = 0;
    compensation_failure = none;
    compensation_next_at = none;
    created_at = 100;
    started_at = none;
    updated_at = 100;
    finished_at = none;
    revision = 1;
  };
  attempts = [];
}

abbrev pub claiming : ClaimInvocationCommand
claiming = record {
  invocation_id = "inv-" ++ hex;
  expected_revision = 1;
  phase = AttemptPhase.execution;
  owner_ref = "worker-1";
  lease_token = "secret";
  lease_expires_at = 900;
  command_id = "command-2";
  at = 200;
}

abbrev pub running_attempt : Attempt
running_attempt = record {
  attempt_id = "att-" ++ hex;
  namespace_id = "ns-1";
  run_id = "run-1";
  invocation_id = "inv-" ++ hex;
  phase = AttemptPhase.execution;
  ordinal = 1;
  status = AttemptStatus.running;
  resolved_input_digest = digest;
  owner_ref = "worker-1";
  lease_token_hash = digest;
  lease_expires_at = 900;
  adoption_count = 0;
  checkpoint_ref = "";
  checkpoint_digest = "";
  failure = none;
  created_at = 200;
  started_at = 200;
  updated_at = 200;
  finished_at = none;
  revision = 1;
}

abbrev pub running_ledger : InvocationLedger
running_ledger = record {
  invocation = record ready_ledger.invocation {
    status = InvocationStatus.running;
    active_attempt_id = "att-" ++ hex;
    execution_attempt_count = 1;
    started_at = some 200;
    updated_at = 200;
    revision = 2;
  };
  attempts = running_attempt ∷ [];
}

abbrev pub success : TransitionInvocationCommand
success = record {
  fence = record {
    invocation_id = "inv-" ++ hex;
    invocation_revision = 2;
    attempt_id = "att-" ++ hex;
    attempt_revision = 1;
    lease_token = "secret";
    at = 300;
  };
  to = InvocationStatus.succeeded;
  attempt_to = AttemptStatus.succeeded;
  output_refs_digest = digest;
  failure = none;
  retry_at = none;
  wait_ref = "";
  wait_generation = 0;
  command_id = "command-3";
}

abbrev pub done_ledger : InvocationLedger
done_ledger = record {
  invocation = record running_ledger.invocation {
    status = InvocationStatus.succeeded;
    active_attempt_id = "";
    output_refs_digest = digest;
    updated_at = 300;
    finished_at = some 300;
    revision = 3;
  };
  attempts =
      (record running_attempt {
        status = AttemptStatus.succeeded;
        lease_expires_at = no_time;
        updated_at = 300;
        finished_at = some 300;
        revision = 2;
      })
      ∷ [];
}

abbrev pub scheduling : ScheduleInvocationCompensationCommand
scheduling = record {
  invocation_id = "inv-" ++ hex;
  expected_revision = 3;
  command_id = "command-4";
  at = 400;
}

abbrev pub scheduled_ledger : InvocationLedger
scheduled_ledger = record done_ledger {
  invocation = record done_ledger.invocation {
    compensation_status = CompensationStatus.ready;
    updated_at = 400;
    revision = 4;
  };
}

abbrev announced : ℕ → String → String → Time → Fields → DomainEvent
announced revision event_type command_id at payload = record {
  event_id = "evt-" ++ hex;
  aggregate_type = "invocation";
  aggregate_id = "inv-" ++ hex;
  aggregate_revision = revision;
  event_type = event_type;
  command_id = command_id;
  causation_id = "";
  correlation_id = "";
  payload_schema_digest = event_payload_schema_digest;
  payload_digest = digest;
  payload = payload;
  occurred_at = at;
}

abbrev pub activated_decision : InvocationDecision
activated_decision = record {
  ledger = ready_ledger;
  events =
      announced 1 "invocation.ready" "command-1" 100 (
        field "runId" (Json.text "run-1") (
          field "nodeId" (Json.text "node-1") (
            field "descriptorDigest" (Json.text digest)
              (field "resolvedInputDigest" (Json.text digest) Fields.end))))
      ∷ [];
  intents = [];
}

abbrev pub claimed_decision : InvocationDecision
claimed_decision = record {
  ledger = running_ledger;
  events =
      announced 2 "invocation.claimed" "command-2" 200 (
        field "attemptId" (Json.text ("att-" ++ hex)) (
          field "attemptOrdinal" (num 1) (
            field "ownerRef" (Json.text "worker-1") (
              field "leaseTokenHash" (Json.text digest)
                (field "leaseExpiresAt" (Json.time 900) Fields.end)))))
      ∷ [];
  intents = [];
}

abbrev pub done_decision : InvocationDecision
done_decision = record {
  ledger = done_ledger;
  events =
      announced 3 "invocation.succeeded" "command-3" 300 (
        field "from" (Json.text "running") (
          field "to" (Json.text "succeeded") (
            field "attemptId" (Json.text ("att-" ++ hex)) (
              field "attemptFrom" (Json.text "running")
                (field "attemptTo" (Json.text "succeeded") Fields.end)))))
      ∷ [];
  intents = [];
}

abbrev scheduled_fields : Fields
scheduled_fields =
    field "invocationId" (Json.text ("inv-" ++ hex)) (field "invocationRevision" (num 4) Fields.end)

abbrev pub scheduled_decision : InvocationDecision
scheduled_decision = record {
  ledger = scheduled_ledger;
  events = announced 4 "invocation.compensation.ready" "command-4" 400 scheduled_fields ∷ [];
  intents =
      (record {
        kind = DurableIntentKind.cleanup;
        identity = "dti-" ++ hex;
        aggregate_id = "inv-" ++ hex;
        payload_digest = digest;
        payload = scheduled_fields;
      })
      ∷ [];
}

pub activation-ok : activate_invocation encoder activation ≡ ok activated_decision
unfolding is_trimmed valid_identifier valid_version valid_type_ref valid_digest
    valid_optional_digest failure_class_eq failure_class_valid run_status_eq run_status_valid
    run_status_terminal termination_kind_eq termination_kind_valid invocation_status_eq
    invocation_status_valid invocation_status_terminal compensation_status_eq
    compensation_status_valid compensation_status_terminal attempt_phase_eq attempt_phase_valid
    attempt_status_eq attempt_status_valid attempt_status_terminal requires_stopping action_ref_json
    stable_id stable_invocation_id stable_child_run_id stable_child_trigger_event_id
    stable_attempt_id stable_event_id stable_intent_id validate_identity validate_identities
    validate_optional_identity validate_optional_identities validate_canonical_text
    private_token_digest validate_failure_value validate_failure validate_failures new_event
    new_durable_intent invocation_allowed validate_invocation_transition attempt_allowed
    validate_attempt_transition count_phase locate validate_idle_compensation validate_compensation
    validate_active validate_invocation_state validate_counts validate_attempt validate_attempts
    validate_invocation_refs validate_invocation_ledger active_pointer token_matches
    check_located_fence validate_attempt_fence_any validate_attempt_fence_for_phase decide
    close_attempt validate_activate_invocation activated new_attempt claimed check_aligned
    validate_aligned_transition transitioned_attempt transitioned_invocation transitioned
    wait_resolution check_waiting_attempt wait_resolved activate_invocation check_claim
    claim_invocation check_transition transition_invocation check_wait_resolution
    resolve_invocation_wait heartbeaten check_expired_attempt expired unleased_allowed unleased
    cancel_located canceled_attempts canceled check_heartbeat heartbeat_attempt check_expiry
    expire_invocation_attempt check_unleased resolve_unleased_invocation check_cancel
    cancel_invocation scheduled compensation_claimed check_compensation_target
    validate_compensation_transition compensated check_schedule schedule_invocation_compensation
    check_claim_compensation claim_compensation check_compensation retry_intents
    transition_invocation_compensation digest_value
activation-ok = refl

pub claiming-ok : claim_invocation encoder ready_ledger claiming ≡ ok claimed_decision
unfolding is_trimmed valid_identifier valid_version valid_type_ref valid_digest
    valid_optional_digest failure_class_eq failure_class_valid run_status_eq run_status_valid
    run_status_terminal termination_kind_eq termination_kind_valid invocation_status_eq
    invocation_status_valid invocation_status_terminal compensation_status_eq
    compensation_status_valid compensation_status_terminal attempt_phase_eq attempt_phase_valid
    attempt_status_eq attempt_status_valid attempt_status_terminal requires_stopping action_ref_json
    stable_id stable_invocation_id stable_child_run_id stable_child_trigger_event_id
    stable_attempt_id stable_event_id stable_intent_id validate_identity validate_identities
    validate_optional_identity validate_optional_identities validate_canonical_text
    private_token_digest validate_failure_value validate_failure validate_failures new_event
    new_durable_intent invocation_allowed validate_invocation_transition attempt_allowed
    validate_attempt_transition count_phase locate validate_idle_compensation validate_compensation
    validate_active validate_invocation_state validate_counts validate_attempt validate_attempts
    validate_invocation_refs validate_invocation_ledger active_pointer token_matches
    check_located_fence validate_attempt_fence_any validate_attempt_fence_for_phase decide
    close_attempt validate_activate_invocation activated new_attempt claimed check_aligned
    validate_aligned_transition transitioned_attempt transitioned_invocation transitioned
    wait_resolution check_waiting_attempt wait_resolved activate_invocation check_claim
    claim_invocation check_transition transition_invocation check_wait_resolution
    resolve_invocation_wait heartbeaten check_expired_attempt expired unleased_allowed unleased
    cancel_located canceled_attempts canceled check_heartbeat heartbeat_attempt check_expiry
    expire_invocation_attempt check_unleased resolve_unleased_invocation check_cancel
    cancel_invocation scheduled compensation_claimed check_compensation_target
    validate_compensation_transition compensated check_schedule schedule_invocation_compensation
    check_claim_compensation claim_compensation check_compensation retry_intents
    transition_invocation_compensation digest_value
claiming-ok = refl

pub success-ok : transition_invocation encoder running_ledger success ≡ ok done_decision
unfolding is_trimmed valid_identifier valid_version valid_type_ref valid_digest
    valid_optional_digest failure_class_eq failure_class_valid run_status_eq run_status_valid
    run_status_terminal termination_kind_eq termination_kind_valid invocation_status_eq
    invocation_status_valid invocation_status_terminal compensation_status_eq
    compensation_status_valid compensation_status_terminal attempt_phase_eq attempt_phase_valid
    attempt_status_eq attempt_status_valid attempt_status_terminal requires_stopping action_ref_json
    stable_id stable_invocation_id stable_child_run_id stable_child_trigger_event_id
    stable_attempt_id stable_event_id stable_intent_id validate_identity validate_identities
    validate_optional_identity validate_optional_identities validate_canonical_text
    private_token_digest validate_failure_value validate_failure validate_failures new_event
    new_durable_intent invocation_allowed validate_invocation_transition attempt_allowed
    validate_attempt_transition count_phase locate validate_idle_compensation validate_compensation
    validate_active validate_invocation_state validate_counts validate_attempt validate_attempts
    validate_invocation_refs validate_invocation_ledger active_pointer token_matches
    check_located_fence validate_attempt_fence_any validate_attempt_fence_for_phase decide
    close_attempt validate_activate_invocation activated new_attempt claimed check_aligned
    validate_aligned_transition transitioned_attempt transitioned_invocation transitioned
    wait_resolution check_waiting_attempt wait_resolved activate_invocation check_claim
    claim_invocation check_transition transition_invocation check_wait_resolution
    resolve_invocation_wait heartbeaten check_expired_attempt expired unleased_allowed unleased
    cancel_located canceled_attempts canceled check_heartbeat heartbeat_attempt check_expiry
    expire_invocation_attempt check_unleased resolve_unleased_invocation check_cancel
    cancel_invocation scheduled compensation_claimed check_compensation_target
    validate_compensation_transition compensated check_schedule schedule_invocation_compensation
    check_claim_compensation claim_compensation check_compensation retry_intents
    transition_invocation_compensation digest_value
success-ok = refl

pub scheduling-ok :
    schedule_invocation_compensation encoder done_ledger scheduling ≡ ok scheduled_decision
unfolding is_trimmed valid_identifier valid_version valid_type_ref valid_digest
    valid_optional_digest failure_class_eq failure_class_valid run_status_eq run_status_valid
    run_status_terminal termination_kind_eq termination_kind_valid invocation_status_eq
    invocation_status_valid invocation_status_terminal compensation_status_eq
    compensation_status_valid compensation_status_terminal attempt_phase_eq attempt_phase_valid
    attempt_status_eq attempt_status_valid attempt_status_terminal requires_stopping action_ref_json
    stable_id stable_invocation_id stable_child_run_id stable_child_trigger_event_id
    stable_attempt_id stable_event_id stable_intent_id validate_identity validate_identities
    validate_optional_identity validate_optional_identities validate_canonical_text
    private_token_digest validate_failure_value validate_failure validate_failures new_event
    new_durable_intent invocation_allowed validate_invocation_transition attempt_allowed
    validate_attempt_transition count_phase locate validate_idle_compensation validate_compensation
    validate_active validate_invocation_state validate_counts validate_attempt validate_attempts
    validate_invocation_refs validate_invocation_ledger active_pointer token_matches
    check_located_fence validate_attempt_fence_any validate_attempt_fence_for_phase decide
    close_attempt validate_activate_invocation activated new_attempt claimed check_aligned
    validate_aligned_transition transitioned_attempt transitioned_invocation transitioned
    wait_resolution check_waiting_attempt wait_resolved activate_invocation check_claim
    claim_invocation check_transition transition_invocation check_wait_resolution
    resolve_invocation_wait heartbeaten check_expired_attempt expired unleased_allowed unleased
    cancel_located canceled_attempts canceled check_heartbeat heartbeat_attempt check_expiry
    expire_invocation_attempt check_unleased resolve_unleased_invocation check_cancel
    cancel_invocation scheduled compensation_claimed check_compensation_target
    validate_compensation_transition compensated check_schedule schedule_invocation_compensation
    check_claim_compensation claim_compensation check_compensation retry_intents
    transition_invocation_compensation digest_value
scheduling-ok = refl

pub running_ledger-ok : validate_invocation_ledger encoder running_ledger ≡ ok tt
unfolding is_trimmed valid_identifier valid_version valid_type_ref valid_digest
    valid_optional_digest failure_class_eq failure_class_valid run_status_eq run_status_valid
    run_status_terminal termination_kind_eq termination_kind_valid invocation_status_eq
    invocation_status_valid invocation_status_terminal compensation_status_eq
    compensation_status_valid compensation_status_terminal attempt_phase_eq attempt_phase_valid
    attempt_status_eq attempt_status_valid attempt_status_terminal requires_stopping action_ref_json
    stable_id stable_invocation_id stable_child_run_id stable_child_trigger_event_id
    stable_attempt_id stable_event_id stable_intent_id validate_identity validate_identities
    validate_optional_identity validate_optional_identities validate_canonical_text
    private_token_digest validate_failure_value validate_failure validate_failures new_event
    new_durable_intent invocation_allowed validate_invocation_transition attempt_allowed
    validate_attempt_transition count_phase locate validate_idle_compensation validate_compensation
    validate_active validate_invocation_state validate_counts validate_attempt validate_attempts
    validate_invocation_refs validate_invocation_ledger active_pointer token_matches
    check_located_fence validate_attempt_fence_any validate_attempt_fence_for_phase decide
    close_attempt validate_activate_invocation activated new_attempt claimed check_aligned
    validate_aligned_transition transitioned_attempt transitioned_invocation transitioned
    wait_resolution check_waiting_attempt wait_resolved activate_invocation check_claim
    claim_invocation check_transition transition_invocation check_wait_resolution
    resolve_invocation_wait heartbeaten check_expired_attempt expired unleased_allowed unleased
    cancel_located canceled_attempts canceled check_heartbeat heartbeat_attempt check_expiry
    expire_invocation_attempt check_unleased resolve_unleased_invocation check_cancel
    cancel_invocation scheduled compensation_claimed check_compensation_target
    validate_compensation_transition compensated check_schedule schedule_invocation_compensation
    check_claim_compensation claim_compensation check_compensation retry_intents
    transition_invocation_compensation digest_value
running_ledger-ok = refl
