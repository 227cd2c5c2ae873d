-- ===== src/Effect/Json.antt =====
-- How encoding/json writes the effect contracts that kernel/effect takes digests of: the members in
-- the order of the fields, an `omitempty` one only when it is not empty, a nil slice as null.
use xgc2_orchestration_core.Base.{String, ◌is◌, Option, none, some, List, [], ◌∷◌, if◌then◌else◌}
use xgc2_orchestration_core.Contracts.Json.{Json, Items, Fields, nil, cons, num, obj, arr, field}
use xgc2_orchestration_core.Contracts.Runtimes.{effect_ownership_name}
use xgc2_orchestration_core.Contracts.EffectStates.{
  compensation_policy_name, fence_kind_name, command_risk_name,
}
use xgc2_orchestration_core.Contracts.Effects.{
  EffectIntent, RevisionFence, GenerationFence, IdempotentCreateFence, TargetFence, CommandEnvelope,
}

-- A text member with `omitempty`.
abbrev pub optional_text : String → String → Fields → Fields
optional_text name value rest = if value is "" then rest else field name (Json.text value) rest

abbrev pub text_items : List String → Items
text_items [] = nil
text_items (s ∷ ss) = cons (Json.text s) (text_items ss)

-- A `[]string` member with `omitempty`.
abbrev pub optional_texts : String → List String → Fields → Fields
optional_texts name [] rest = rest
optional_texts name (s ∷ ss) rest = field name (arr (text_items (s ∷ ss))) rest

-- `append([]string(nil), values...)`, which is nil when there are no values.
abbrev pub copied_texts : List String → Json
copied_texts [] = Json.null
copied_texts (s ∷ ss) = arr (text_items (s ∷ ss))

-- A `map[string]any`, which may be nil.
abbrev pub object_json : Option Fields → Json
object_json none = Json.null
object_json (some fields) = obj fields

unfoldable pub effect_intent_json : EffectIntent → Json
effect_intent_json i = obj (
    field "effectId" (Json.text i.effect_id) (
      field "namespaceId" (Json.text i.namespace_id) (
        field "runId" (Json.text i.run_id) (
          field "invocationId" (Json.text i.invocation_id) (
            field "preparedAttemptId" (Json.text i.prepared_attempt_id) (
              field "effectKey" (Json.text i.effect_key) (
                field "kind" (Json.text i.kind) (
                  field "targetRef" (Json.text i.target_ref) (
                    field "intentSchemaDigest" (Json.text i.intent_schema_digest) (
                      field "intent" (object_json i.intent) (
                        field "intentDigest" (Json.text i.intent_digest) (
                          optional_text "intentArtifactRef" i.intent_artifact_ref (
                            field "ownership" (Json.text (effect_ownership_name i.ownership)) (
                              field "compensationPolicy"
                                (Json.text (compensation_policy_name i.compensation_policy))
                                (optional_texts "requiredCapabilityRefs" i.required_capability_refs
                                  (field "policyDigest" (Json.text i.policy_digest) (
                                    field "descriptorDigest" (Json.text i.descriptor_digest) (
                                      field "deadline" (Json.time i.deadline)
                                        Fields.end))))))))))))))))))

abbrev pub revision_member : Option RevisionFence → Fields → Fields
revision_member none rest = rest
revision_member (some f) rest =
    field "revision"
      (obj (
        field "targetId" (Json.text f.target_id)
          (field "expectedRevision" (num f.expected_revision) Fields.end)))
      rest

abbrev pub generation_member : Option GenerationFence → Fields → Fields
generation_member none rest = rest
generation_member (some f) rest =
    field "generation"
      (obj (
        field "bindingId" (Json.text f.binding_id) (
          field "generation" (num f.generation)
            (field "fencingToken" (num f.fencing_token) Fields.end))))
      rest

abbrev pub create_member : Option IdempotentCreateFence → Fields → Fields
create_member none rest = rest
create_member (some f) rest =
    field "idempotentCreate"
      (obj (
        field "targetNamespace" (Json.text f.target_namespace)
          (field "identityDigest" (Json.text f.identity_digest) Fields.end)))
      rest

unfoldable pub target_fence_json : TargetFence → Json
target_fence_json f = obj (
    field "kind" (Json.text (fence_kind_name f.kind)) (
      revision_member f.revision
        (generation_member f.generation (create_member f.idempotent_create Fields.end))))

-- The private key and token are never written.
unfoldable pub command_envelope_json : CommandEnvelope → Json
unfolding target_fence_json
command_envelope_json e = obj (
    field "commandId" (Json.text e.command_id) (
      optional_text "requestId" e.request_id (
        field "effectId" (Json.text e.effect_id) (
          field "idempotencyKeyHash" (Json.text e.idempotency_key_hash) (
            field "identityDigest" (Json.text e.identity_digest) (
              field "namespaceId" (Json.text e.namespace_id) (
                field "targetRef" (Json.text e.target_ref) (
                  field "action" (Json.text e.action) (
                    field "actorRef" (Json.text e.actor_ref) (
                      field "sourceRef" (Json.text e.source_ref) (
                        field "reasonCode" (Json.text e.reason_code) (
                          optional_text "reason" e.reason (
                            field "risk" (Json.text (command_risk_name e.risk)) (
                              field "fence" (target_fence_json e.fence) (
                                field "payloadDigest" (Json.text e.payload_digest) (
                                  optional_text "payloadArtifactRef" e.payload_artifact_ref (
                                    field "policyDigest" (Json.text e.policy_digest) (
                                      field "descriptorDigest" (Json.text e.descriptor_digest) (
                                        optional_text "manifestDigest" e.manifest_digest (
                                          field "deadline" (Json.time e.deadline) (
                                            field "cancellationId" (Json.text e.cancellation_id) (
                                              optional_texts "requiredCapabilityRefs"
                                                e.required_capability_refs
                                                (optional_text "capabilityTokenHash"
                                                  e.capability_token_hash
                                                  Fields.end)))))))))))))))))))))))

-- The map that `CommandIdentityDigest` takes the digest of.
unfoldable pub command_identity_json : CommandEnvelope → Json
unfolding target_fence_json
command_identity_json e = obj (
    field "commandId" (Json.text e.command_id) (
      field "effectId" (Json.text e.effect_id) (
        field "idempotencyKeyHash" (Json.text e.idempotency_key_hash) (
          field "namespaceId" (Json.text e.namespace_id) (
            field "targetRef" (Json.text e.target_ref) (
              field "action" (Json.text e.action) (
                field "actorRef" (Json.text e.actor_ref) (
                  field "sourceRef" (Json.text e.source_ref) (
                    field "reasonCode" (Json.text e.reason_code) (
                      field "reason" (Json.text e.reason) (
                        field "risk" (Json.text (command_risk_name e.risk)) (
                          field "fence" (target_fence_json e.fence) (
                            field "payloadDigest" (Json.text e.payload_digest) (
                              field "payloadArtifactRef" (Json.text e.payload_artifact_ref) (
                                field "policyDigest" (Json.text e.policy_digest) (
                                  field "descriptorDigest" (Json.text e.descriptor_digest) (
                                    field "manifestDigest" (Json.text e.manifest_digest) (
                                      field "deadline" (Json.time e.deadline) (
                                        field "cancellationId" (Json.text e.cancellation_id) (
                                          field "requiredCapabilityRefs"
                                            (copied_texts e.required_capability_refs)
                                            (field "capabilityTokenHash"
                                              (Json.text e.capability_token_hash)
                                              Fields.end)))))))))))))))))))))
