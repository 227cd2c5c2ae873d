-- ===== src/Witnesses/Runs.antt =====
-- A Run that is admitted, starts, is canceled and ends.
use Prim.Native.String.{◌++◌}
use xgc2_orchestration_core.Base.{Time, ◌+◌, arith, ℕ, String, none, some, [], ◌∷◌, ◌≡◌, refl, ok}
use xgc2_orchestration_core.Contracts.Identity.{
  valid_identifier, valid_digest, valid_type_ref, is_trimmed,
}
use xgc2_orchestration_core.Contracts.Json.{Json, Fields, field, num, obj, digest_value}
use xgc2_orchestration_core.Contracts.Statuses.{
  DurableIntentKind, RunStatus, run_status_eq, run_status_valid, run_status_terminal,
  TerminationKind, termination_kind_eq, termination_kind_valid, requires_stopping,
}
use xgc2_orchestration_core.Contracts.Records.{
  DomainEvent, TerminationIntent, Run, RunClosureFacts, satisfied,
}
use xgc2_orchestration_core.Execution.Identity.{
  action_ref_json, stable_id, stable_event_id, stable_intent_id, validate_identity,
  validate_identities, validate_optional_identity, validate_optional_identities,
  validate_canonical_text, validate_failure, validate_failures,
}
use xgc2_orchestration_core.Execution.Event.{
  event_payload_schema_digest, new_event, new_durable_intent,
}
use xgc2_orchestration_core.Execution.Run.Validation.{
  run_allowed, validate_run_transition, terminal_status, validate_termination, action_ref_valid,
  validate_digests, validate_admission_fences, validate_run_refs, validate_run_times,
  validate_run_termination, validate_run_outcome, frozen_revision, validate_frozen,
  validate_optional_frozen, validate_optional_parent, validate_run,
}
use xgc2_orchestration_core.Execution.Run.Transition.{
  AdmitRunCommand, RunTransitionCommand, RunDecision, validate_admit_run, admitted_run,
  closes_otherwise, validate_other_guards, validate_stop_intent, validate_run_transition_guards,
  check_run_transition, next_run, transition_payload, admit_run, cleanup_intent, stopping_intents,
  run_event, transition_run,
}
use xgc2_orchestration_core.Witnesses.Encoder.{encoder, digest, hex}
use xgc2_orchestration_core.Execution.Run.Liveness.{ClosesRun}

abbrev pub admission : AdmitRunCommand
admission = record {
  run_id = "run-1";
  namespace_id = "ns-1";
  action_ref = record { action_id = "deploy"; version = "v1"; digest = digest };
  execution_plan_ref = "plan-1";
  plan_digest = digest;
  trigger_ref = "trigger-1";
  trigger_digest = digest;
  input_digest = digest;
  provenance_artifact_ref = "";
  scope_ref = "";
  parent = none;
  root_run_id = "";
  actor_ref = "actor-1";
  source_ref = "source-1";
  correlation_ref = "";
  admission_policy_ref = "";
  admission_policy_digest = "";
  active_owner_ref = "";
  active_owner_generation = 0;
  command_id = "command-1";
  at = 100;
}

abbrev pub accepted_run : Run
accepted_run = record {
  run_id = "run-1";
  namespace_id = "ns-1";
  action_ref = record { action_id = "deploy"; version = "v1"; digest = digest };
  execution_plan_ref = "plan-1";
  plan_digest = digest;
  trigger_ref = "trigger-1";
  trigger_digest = digest;
  input_digest = digest;
  provenance_artifact_ref = "";
  scope_ref = "";
  parent = none;
  root_run_id = "run-1";
  actor_ref = "actor-1";
  source_ref = "source-1";
  correlation_ref = "";
  admission_policy_ref = "";
  admission_policy_digest = "";
  active_owner_ref = "";
  active_owner_generation = 0;
  status = RunStatus.accepted;
  termination = none;
  termination_kind = TerminationKind.other;
  result_ref = "";
  primary_failure = none;
  cleanup_failures = [];
  accepted_at = 100;
  started_at = none;
  updated_at = 100;
  finished_at = none;
  revision = 1;
}

abbrev pub started_run : Run
started_run = record accepted_run {
  status = RunStatus.running;
  started_at = some 200;
  updated_at = 200;
  revision = 2;
}

abbrev no_closure : RunClosureFacts
no_closure = record {
  run_revision = 0;
  ownership_graph_revision = 0;
  active_invocation_count = 0;
  live_attempt_count = 0;
  open_wait_count = 0;
  open_child_count = 0;
  open_effect_count = 0;
  open_effect_compensation_count = 0;
  open_owned_runtime_count = 0;
  open_owned_resource_count = 0;
}

abbrev pub start : RunTransitionCommand
start = record {
  run_id = "run-1";
  expected_revision = 1;
  to = RunStatus.running;
  termination = none;
  result_ref = "";
  cleanup_failures = [];
  closure = no_closure;
  command_id = "command-2";
  at = 200;
}

abbrev pub cancellation : TerminationIntent
cancellation = record {
  kind = TerminationKind.canceled;
  requested_revision = 2;
  requested_by = "actor-1";
  reason_code = "requested";
  reason = "no longer wanted";
  primary_failure = none;
  command_id = "command-3";
  requested_at = 300;
}

abbrev pub stop : RunTransitionCommand
stop = record start {
  expected_revision = 2;
  to = RunStatus.stopping;
  termination = some cancellation;
  command_id = "command-3";
  at = 300;
}

abbrev pub finish : RunTransitionCommand
finish = record start {
  expected_revision = 3;
  to = RunStatus.canceled;
  closure = record no_closure { run_revision = 3; ownership_graph_revision = 7 };
  command_id = "command-4";
  at = 400;
}

abbrev pub stopping_run : Run
stopping_run = record started_run {
  status = RunStatus.stopping;
  termination = some cancellation;
  updated_at = 300;
  revision = 3;
}

abbrev pub finished_run : Run
finished_run = record stopping_run {
  status = RunStatus.canceled;
  termination_kind = TerminationKind.canceled;
  updated_at = 400;
  finished_at = some 400;
  revision = 4;
}

abbrev announced : ℕ → String → String → Time → Fields → DomainEvent
announced revision event_type command_id at payload = record {
  event_id = "evt-" ++ hex;
  aggregate_type = "run";
  aggregate_id = "run-1";
  aggregate_revision = revision;
  event_type = event_type;
  command_id = command_id;
  causation_id = "";
  correlation_id = "";
  payload_schema_digest = event_payload_schema_digest;
  payload_digest = digest;
  payload = payload;
  occurred_at = at;
}

abbrev moves : String → String → String → Fields
moves from to kind =
    field "from" (Json.text from)
      (field "to" (Json.text to) (field "terminationKind" (Json.text kind) Fields.end))

abbrev pub admitted : RunDecision
admitted = record {
  run = accepted_run;
  events =
      announced 1 "run.accepted" "command-1" 100 (
        field "actionRef"
          (obj (
            field "actionId" (Json.text "deploy")
              (field "version" (Json.text "v1") (field "digest" (Json.text digest) Fields.end))))
          (field "planDigest" (Json.text digest) (
            field "triggerDigest" (Json.text digest)
              (field "inputDigest" (Json.text digest) Fields.end))))
      ∷ [];
  intents = [];
}

abbrev pub started : RunDecision
started = record {
  run = started_run;
  events = announced 2 "run.running" "command-2" 200 (moves "accepted" "running" "") ∷ [];
  intents = [];
}

abbrev pub stopping : RunDecision
stopping = record {
  run = stopping_run;
  events = announced 3 "run.stopping" "command-3" 300 (moves "running" "stopping" "") ∷ [];
  intents =
      (record {
        kind = DurableIntentKind.cleanup;
        identity = "dti-" ++ hex;
        aggregate_id = "run-1";
        payload_digest = digest;
        payload = field "runId" (Json.text "run-1") (
            field "terminationKind" (Json.text "canceled")
              (field "runRevision" (num 3) Fields.end));
      })
      ∷ [];
}

abbrev pub finished : RunDecision
finished = record {
  run = finished_run;
  events = announced 4 "run.canceled" "command-4" 400 (moves "stopping" "canceled" "canceled") ∷ [];
  intents = [];
}

pub admit-ok : admit_run encoder admission ≡ ok admitted
unfolding admit_run validate_admit_run admitted_run validate_run validate_identities
    validate_digests action_ref_valid validate_optional_identity validate_admission_fences
    validate_run_refs validate_run_times validate_run_termination validate_run_outcome
    validate_optional_frozen validate_optional_parent validate_optional_identities validate_failure
    validate_failures validate_identity valid_identifier valid_digest valid_type_ref run_status_eq
    run_status_terminal run_status_valid new_event digest_value stable_event_id stable_id
    action_ref_json transition_run check_run_transition next_run validate_run_transition run_allowed
    validate_run_transition_guards validate_other_guards closes_otherwise satisfied
    validate_stop_intent validate_termination requires_stopping validate_canonical_text is_trimmed
    termination_kind_eq termination_kind_valid run_event transition_payload stopping_intents
    cleanup_intent new_durable_intent stable_intent_id validate_frozen frozen_revision
    terminal_status
admit-ok = refl

pub start-ok : transition_run encoder accepted_run start ≡ ok started
unfolding admit_run validate_admit_run admitted_run validate_run validate_identities
    validate_digests action_ref_valid validate_optional_identity validate_admission_fences
    validate_run_refs validate_run_times validate_run_termination validate_run_outcome
    validate_optional_frozen validate_optional_parent validate_optional_identities validate_failure
    validate_failures validate_identity valid_identifier valid_digest valid_type_ref run_status_eq
    run_status_terminal run_status_valid new_event digest_value stable_event_id stable_id
    action_ref_json transition_run check_run_transition next_run validate_run_transition run_allowed
    validate_run_transition_guards validate_other_guards closes_otherwise satisfied
    validate_stop_intent validate_termination requires_stopping validate_canonical_text is_trimmed
    termination_kind_eq termination_kind_valid run_event transition_payload stopping_intents
    cleanup_intent new_durable_intent stable_intent_id validate_frozen frozen_revision
    terminal_status
start-ok = refl

pub stop-ok : transition_run encoder started_run stop ≡ ok stopping
unfolding admit_run validate_admit_run admitted_run validate_run validate_identities
    validate_digests action_ref_valid validate_optional_identity validate_admission_fences
    validate_run_refs validate_run_times validate_run_termination validate_run_outcome
    validate_optional_frozen validate_optional_parent validate_optional_identities validate_failure
    validate_failures validate_identity valid_identifier valid_digest valid_type_ref run_status_eq
    run_status_terminal run_status_valid new_event digest_value stable_event_id stable_id
    action_ref_json transition_run check_run_transition next_run validate_run_transition run_allowed
    validate_run_transition_guards validate_other_guards closes_otherwise satisfied
    validate_stop_intent validate_termination requires_stopping validate_canonical_text is_trimmed
    termination_kind_eq termination_kind_valid run_event transition_payload stopping_intents
    cleanup_intent new_durable_intent stable_intent_id validate_frozen frozen_revision
    terminal_status
stop-ok = refl

pub finish-ok : transition_run encoder stopping_run finish ≡ ok finished
unfolding admit_run validate_admit_run admitted_run validate_run validate_identities
    validate_digests action_ref_valid validate_optional_identity validate_admission_fences
    validate_run_refs validate_run_times validate_run_termination validate_run_outcome
    validate_optional_frozen validate_optional_parent validate_optional_identities validate_failure
    validate_failures validate_identity valid_identifier valid_digest valid_type_ref run_status_eq
    run_status_terminal run_status_valid new_event digest_value stable_event_id stable_id
    action_ref_json transition_run check_run_transition next_run validate_run_transition run_allowed
    validate_run_transition_guards validate_other_guards closes_otherwise satisfied
    validate_stop_intent validate_termination requires_stopping validate_canonical_text is_trimmed
    termination_kind_eq termination_kind_valid run_event transition_payload stopping_intents
    cleanup_intent new_durable_intent stable_intent_id validate_frozen frozen_revision
    terminal_status
finish-ok = refl

pub stopping_run-ok : validate_run stopping_run ≡ ok tt
unfolding admit_run validate_admit_run admitted_run validate_run validate_identities
    validate_digests action_ref_valid validate_optional_identity validate_admission_fences
    validate_run_refs validate_run_times validate_run_termination validate_run_outcome
    validate_optional_frozen validate_optional_parent validate_optional_identities validate_failure
    validate_failures validate_identity valid_identifier valid_digest valid_type_ref run_status_eq
    run_status_terminal run_status_valid new_event digest_value stable_event_id stable_id
    action_ref_json transition_run check_run_transition next_run validate_run_transition run_allowed
    validate_run_transition_guards validate_other_guards closes_otherwise satisfied
    validate_stop_intent validate_termination requires_stopping validate_canonical_text is_trimmed
    termination_kind_eq termination_kind_valid run_event transition_payload stopping_intents
    cleanup_intent new_durable_intent stable_intent_id validate_frozen frozen_revision
    terminal_status
stopping_run-ok = refl

-- The encoder takes the event that ends the Run.
pub run_encoded :
    (digest_value encoder (obj (transition_payload stopping_run (next_run stopping_run finish)))
      ≡ ok digest)
    × (stable_event_id encoder "run" stopping_run.run_id (stopping_run.revision + 1)
        ≡ ok ("evt-" ++ hex))
unfolding admit_run validate_admit_run admitted_run validate_run validate_identities
    validate_digests action_ref_valid validate_optional_identity validate_admission_fences
    validate_run_refs validate_run_times validate_run_termination validate_run_outcome
    validate_optional_frozen validate_optional_parent validate_optional_identities validate_failure
    validate_failures validate_identity valid_identifier valid_digest valid_type_ref run_status_eq
    run_status_terminal run_status_valid new_event digest_value stable_event_id stable_id
    action_ref_json transition_run check_run_transition next_run validate_run_transition run_allowed
    validate_run_transition_guards validate_other_guards closes_otherwise satisfied
    validate_stop_intent validate_termination requires_stopping validate_canonical_text is_trimmed
    termination_kind_eq termination_kind_valid run_event transition_payload stopping_intents
    cleanup_intent new_durable_intent stable_intent_id validate_frozen frozen_revision
    terminal_status
run_encoded = (refl, refl)

pub finish-ClosesRun : ClosesRun stopping_run cancellation finish
unfolding admit_run validate_admit_run admitted_run validate_run validate_identities
    validate_digests action_ref_valid validate_optional_identity validate_admission_fences
    validate_run_refs validate_run_times validate_run_termination validate_run_outcome
    validate_optional_frozen validate_optional_parent validate_optional_identities validate_failure
    validate_failures validate_identity valid_identifier valid_digest valid_type_ref run_status_eq
    run_status_terminal run_status_valid new_event digest_value stable_event_id stable_id
    action_ref_json transition_run check_run_transition next_run validate_run_transition run_allowed
    validate_run_transition_guards validate_other_guards closes_otherwise satisfied
    validate_stop_intent validate_termination requires_stopping validate_canonical_text is_trimmed
    termination_kind_eq termination_kind_valid run_event transition_payload stopping_intents
    cleanup_intent new_durable_intent stable_intent_id validate_frozen frozen_revision
    terminal_status
finish-ClosesRun = record {
  same_run = refl;
  fenced = refl;
  later = omega arith;
  identified = refl;
  target = refl;
  no_intent = refl;
  closure_fenced = refl;
  closed = refl;
  cleanup = refl;
}
