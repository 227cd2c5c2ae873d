-- ===== src/Execution/Invocation/Activation.antt =====
-- kernel/execution/invocation.go: the activation of an Invocation.
use xgc2_orchestration_core.Base.{
  String, Bool, ◌&&◌, none, [], ◌∷◌, ◌is◌, Result, invalid, ◌>>◌, require, refuse, Time, is_zero,
  if◌then◌else◌,
}
use xgc2_orchestration_core.Contracts.Identity.{valid_digest, valid_type_ref}
use xgc2_orchestration_core.Contracts.Json.{Json, Fields, field, Canonical}
use xgc2_orchestration_core.Contracts.Statuses.{InvocationStatus, CompensationStatus}
use xgc2_orchestration_core.Contracts.Records.{InvocationLedger}
use xgc2_orchestration_core.Execution.Identity.{validate_identities, or_empty, stable_invocation_id}
use xgc2_orchestration_core.Execution.Invocation.Validation.{validate_invocation_ledger}
use xgc2_orchestration_core.Execution.Invocation.Fence.{InvocationDecision, decide}

pub record ActivateInvocationCommand : Type 0 where
  pub invocation_id : String
  pub namespace_id : String
  pub run_id : String
  pub node_id : String
  pub type_ref : String
  pub descriptor_digest : String
  pub resolved_input_digest : String
  pub input_refs_digest : String
  pub compensatable : Bool
  pub command_id : String
  pub at : Time

unfoldable pub validate_activate_invocation : ActivateInvocationCommand → Result (Unit {0})
validate_activate_invocation command = do
  validate_identities (
      command.invocation_id ∷ command.namespace_id ∷ command.run_id ∷ command.node_id
      ∷ command.command_id ∷ [])
  require
      (valid_type_ref command.type_ref
        && valid_digest command.descriptor_digest
        && valid_digest command.resolved_input_digest
        && valid_digest command.input_refs_digest)
      (invalid "invocation activation type or digest")
  refuse (is_zero command.at) (invalid "invocation activation time")

unfoldable pub activated : ActivateInvocationCommand → InvocationLedger
activated command = record {
  invocation = record {
    invocation_id = command.invocation_id;
    namespace_id = command.namespace_id;
    run_id = command.run_id;
    node_id = command.node_id;
    type_ref = command.type_ref;
    descriptor_digest = command.descriptor_digest;
    resolved_input_digest = command.resolved_input_digest;
    input_refs_digest = command.input_refs_digest;
    status = InvocationStatus.ready;
    active_attempt_id = "";
    active_compensation_attempt_id = "";
    execution_attempt_count = 0;
    wait_generation = 0;
    current_wait_ref = "";
    next_attempt_at = none;
    output_refs_digest = "";
    primary_failure = none;
    compensation_status =
        if command.compensatable
        then CompensationStatus.unscheduled
        else CompensationStatus.not_required;
    compensation_attempt_count = 0;
    compensation_failure = none;
    compensation_next_at = none;
    created_at = command.at;
    started_at = none;
    updated_at = command.at;
    finished_at = none;
    revision = 1;
  };
  attempts = [];
}

module _ (c : Canonical) where
  unfoldable pub activate_invocation : ActivateInvocationCommand → Result InvocationDecision
  activate_invocation command = do
    validate_activate_invocation command
    require
        (command.invocation_id is or_empty (stable_invocation_id c command.run_id command.node_id))
        (invalid "invocation identity does not match run and node")
    let ledger = activated command
    validate_invocation_ledger c ledger
    decide c ledger "invocation.ready" command.command_id command.at
        (field "runId" (Json.text command.run_id) (
          field "nodeId" (Json.text command.node_id) (
            field "descriptorDigest" (Json.text command.descriptor_digest)
              (field "resolvedInputDigest" (Json.text command.resolved_input_digest) Fields.end))))
        []
