-- ===== src/Ownership/Json.antt =====
-- How encoding/json writes a Run: the members in the order of the fields, an `omitempty` one only when
-- it is not empty.
use xgc2_orchestration_core.Base.{
  ℕ, String, ◌==◌, Option, none, some, List, [], ◌∷◌, Time, if◌then◌else◌,
}
use xgc2_orchestration_core.Contracts.Json.{Json, Items, Fields, nil, cons, num, obj, arr, field}
use xgc2_orchestration_core.Contracts.Statuses.{
  failure_class_name, run_status_name, termination_kind_name,
}
use xgc2_orchestration_core.Contracts.Records.{
  StructuredFailure, TerminationIntent, ParentRunLink, Run,
}
use xgc2_orchestration_core.Execution.Identity.{action_ref_json}
use xgc2_orchestration_core.Effect.Json.{optional_text}

abbrev pub failure_fields : StructuredFailure → Fields
failure_fields f = field "class" (Json.text (failure_class_name f.class)) (
    field "code" (Json.text f.code) (
      field "message" (Json.text f.message)
        (optional_text "evidenceRef" f.evidence_ref Fields.end)))

abbrev pub optional_failure : String → Option StructuredFailure → Fields → Fields
optional_failure name none rest = rest
optional_failure name (some f) rest = field name (obj (failure_fields f)) rest

abbrev pub failure_items : List StructuredFailure → Items
failure_items [] = nil
failure_items (f ∷ fs) = cons (obj (failure_fields f)) (failure_items fs)

abbrev pub optional_failures : String → List StructuredFailure → Fields → Fields
optional_failures name [] rest = rest
optional_failures name (f ∷ fs) rest = field name (arr (failure_items (f ∷ fs))) rest

abbrev pub optional_time : String → Option Time → Fields → Fields
optional_time name none rest = rest
optional_time name (some t) rest = field name (Json.time t) rest

abbrev pub optional_number : String → ℕ → Fields → Fields
optional_number name n rest = if n == 0 then rest else field name (num n) rest

abbrev pub optional_parent : Option ParentRunLink → Fields → Fields
optional_parent none rest = rest
optional_parent (some p) rest =
    field "parent"
      (obj (
        field "parentRunId" (Json.text p.parent_run_id) (
          field "parentInvocationId" (Json.text p.parent_invocation_id) (
            field "callNodeId" (Json.text p.call_node_id)
              (field "mappingDigest" (Json.text p.mapping_digest) Fields.end)))))
      rest

abbrev pub optional_termination : Option TerminationIntent → Fields → Fields
optional_termination none rest = rest
optional_termination (some t) rest =
    field "termination"
      (obj (
        field "kind" (Json.text (termination_kind_name t.kind)) (
          field "requestedRevision" (num t.requested_revision) (
            field "requestedBy" (Json.text t.requested_by) (
              field "reasonCode" (Json.text t.reason_code) (
                optional_text "reason" t.reason (
                  optional_failure "primaryFailure" t.primary_failure (
                    field "commandId" (Json.text t.command_id)
                      (field "requestedAt" (Json.time t.requested_at) Fields.end)))))))))
      rest

-- The members from `status` on.
abbrev pub run_state_fields : Run → Fields
run_state_fields r = field "status" (Json.text (run_status_name r.status)) (
    optional_termination r.termination (
      optional_text "terminationKind" (termination_kind_name r.termination_kind) (
        optional_text "resultRef" r.result_ref (
          optional_failure "primaryFailure" r.primary_failure (
            optional_failures "cleanupFailures" r.cleanup_failures (
              field "acceptedAt" (Json.time r.accepted_at) (
                optional_time "startedAt" r.started_at (
                  field "updatedAt" (Json.time r.updated_at) (
                    optional_time "finishedAt" r.finished_at
                      (field "revision" (num r.revision) Fields.end))))))))))

unfoldable pub run_json : Run → Json
run_json r = obj (
    field "runId" (Json.text r.run_id) (
      field "namespaceId" (Json.text r.namespace_id) (
        field "actionRef" (action_ref_json r.action_ref) (
          field "executionPlanRef" (Json.text r.execution_plan_ref) (
            field "planDigest" (Json.text r.plan_digest) (
              field "triggerRef" (Json.text r.trigger_ref) (
                field "triggerDigest" (Json.text r.trigger_digest) (
                  field "inputDigest" (Json.text r.input_digest) (
                    optional_text "provenanceArtifactRef" r.provenance_artifact_ref (
                      optional_text "scopeRef" r.scope_ref (
                        optional_parent r.parent (
                          field "rootRunId" (Json.text r.root_run_id) (
                            field "actorRef" (Json.text r.actor_ref) (
                              field "sourceRef" (Json.text r.source_ref) (
                                optional_text "correlationRef" r.correlation_ref (
                                  optional_text "admissionPolicyRef" r.admission_policy_ref (
                                    optional_text "admissionPolicyDigest" r.admission_policy_digest
                                      (optional_text "activeOwnerRef" r.active_owner_ref (
                                        optional_number "activeOwnerGeneration"
                                          r.active_owner_generation
                                          (run_state_fields r))))))))))))))))))))
