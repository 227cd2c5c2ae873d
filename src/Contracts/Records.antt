-- ===== src/Contracts/Records.antt =====
-- The records of sdk/go/contracts/execution.go, and `ActionRef` of action.go. A pointer is an
-- `Option`, an instant a number, an empty string "".
use xgc2_orchestration_core.Base.{ℕ, String, Bool, Option, List, Time, ◌&&◌, ◌==◌}
use xgc2_orchestration_core.Contracts.Json.{Fields}
use xgc2_orchestration_core.Contracts.Statuses.{
  FailureClass, RunStatus, TerminationKind, InvocationStatus, CompensationStatus, AttemptPhase,
  AttemptStatus, DurableIntentKind,
}

pub record StructuredFailure : Type 0 where
  pub class : FailureClass
  pub code : String
  pub message : String
  pub evidence_ref : String

pub record TerminationIntent : Type 0 where
  pub kind : TerminationKind
  pub requested_revision : ℕ
  pub requested_by : String
  pub reason_code : String
  pub reason : String
  pub primary_failure : Option StructuredFailure
  pub command_id : String
  pub requested_at : Time

pub record ParentRunLink : Type 0 where
  pub parent_run_id : String
  pub parent_invocation_id : String
  pub call_node_id : String
  pub mapping_digest : String

pub record ActionRef : Type 0 where
  pub action_id : String
  pub version : String
  pub digest : String

pub record Run : Type 0 where
  pub run_id : String
  pub namespace_id : String
  pub action_ref : ActionRef
  pub execution_plan_ref : String
  pub plan_digest : String
  pub trigger_ref : String
  pub trigger_digest : String
  pub input_digest : String
  pub provenance_artifact_ref : String
  pub scope_ref : String
  pub parent : Option ParentRunLink
  pub root_run_id : String
  pub actor_ref : String
  pub source_ref : String
  pub correlation_ref : String
  pub admission_policy_ref : String
  pub admission_policy_digest : String
  pub active_owner_ref : String
  pub active_owner_generation : ℕ
  pub status : RunStatus
  pub termination : Option TerminationIntent
  pub termination_kind : TerminationKind
  pub result_ref : String
  pub primary_failure : Option StructuredFailure
  pub cleanup_failures : List StructuredFailure
  pub accepted_at : Time
  pub started_at : Option Time
  pub updated_at : Time
  pub finished_at : Option Time
  pub revision : ℕ

pub record RunClosureFacts : Type 0 where
  pub run_revision : ℕ
  pub ownership_graph_revision : ℕ
  pub active_invocation_count : ℕ
  pub live_attempt_count : ℕ
  pub open_wait_count : ℕ
  pub open_child_count : ℕ
  pub open_effect_count : ℕ
  pub open_effect_compensation_count : ℕ
  pub open_owned_runtime_count : ℕ
  pub open_owned_resource_count : ℕ

-- `facts.Satisfied()`.
unfoldable pub satisfied : RunClosureFacts → Bool
satisfied f =
    f.active_invocation_count == 0
    && f.live_attempt_count == 0
    && f.open_wait_count == 0
    && f.open_child_count == 0
    && f.open_effect_count == 0
    && f.open_effect_compensation_count == 0
    && f.open_owned_runtime_count == 0
    && f.open_owned_resource_count == 0

pub record Invocation : Type 0 where
  pub invocation_id : String
  pub namespace_id : String
  pub run_id : String
  pub node_id : String
  pub type_ref : String
  pub descriptor_digest : String
  pub resolved_input_digest : String
  pub input_refs_digest : String
  pub status : InvocationStatus
  pub active_attempt_id : String
  pub active_compensation_attempt_id : String
  pub execution_attempt_count : ℕ
  pub wait_generation : ℕ
  pub current_wait_ref : String
  pub next_attempt_at : Option Time
  pub output_refs_digest : String
  pub primary_failure : Option StructuredFailure
  pub compensation_status : CompensationStatus
  pub compensation_attempt_count : ℕ
  pub compensation_failure : Option StructuredFailure
  pub compensation_next_at : Option Time
  pub created_at : Time
  pub started_at : Option Time
  pub updated_at : Time
  pub finished_at : Option Time
  pub revision : ℕ

pub record Attempt : Type 0 where
  pub attempt_id : String
  pub namespace_id : String
  pub run_id : String
  pub invocation_id : String
  pub phase : AttemptPhase
  pub ordinal : ℕ
  pub status : AttemptStatus
  pub resolved_input_digest : String
  pub owner_ref : String
  pub lease_token_hash : String
  pub lease_expires_at : Time
  pub adoption_count : ℕ
  pub checkpoint_ref : String
  pub checkpoint_digest : String
  pub failure : Option StructuredFailure
  pub created_at : Time
  pub started_at : Time
  pub updated_at : Time
  pub finished_at : Option Time
  pub revision : ℕ

pub record InvocationLedger : Type 0 where
  pub invocation : Invocation
  pub attempts : List Attempt

pub record DomainEvent : Type 0 where
  pub event_id : String
  pub aggregate_type : String
  pub aggregate_id : String
  pub aggregate_revision : ℕ
  pub event_type : String
  pub command_id : String
  pub causation_id : String
  pub correlation_id : String
  pub payload_schema_digest : String
  pub payload_digest : String
  pub payload : Fields
  pub occurred_at : Time

pub record DurableIntent : Type 0 where
  pub kind : DurableIntentKind
  pub identity : String
  pub aggregate_id : String
  pub payload_digest : String
  pub payload : Fields
