-- ===== src/Contracts/Effects.antt =====
-- The records of sdk/go/contracts/effect.go. An `Option Fields` is a map that may be nil.
use xgc2_orchestration_core.Base.{ℕ, String, Option, List, Time}
use xgc2_orchestration_core.Contracts.Json.{Fields}
use xgc2_orchestration_core.Contracts.Records.{StructuredFailure}
use xgc2_orchestration_core.Contracts.Runtimes.{EffectOwnership}
use xgc2_orchestration_core.Contracts.EffectStates.{
  CompensationPolicy, EffectState, EffectCompensationState, FenceKind, CommandRisk, ReceiptStatus,
}

pub record EffectCompensationReconciliation : Type 0 where
  pub requested_revision : ℕ
  pub evidence_digest : String
  pub reconciled_by : String
  pub reason_code : String
  pub command_id : String
  pub observed_at : Time

pub record EffectIntent : Type 0 where
  pub effect_id : String
  pub namespace_id : String
  pub run_id : String
  pub invocation_id : String
  pub prepared_attempt_id : String
  pub effect_key : String
  pub kind : String
  pub target_ref : String
  pub intent_schema_digest : String
  pub intent : Option Fields
  pub intent_digest : String
  pub intent_artifact_ref : String
  pub ownership : EffectOwnership
  pub compensation_policy : CompensationPolicy
  pub required_capability_refs : List String
  pub policy_digest : String
  pub descriptor_digest : String
  pub deadline : Time

pub record EffectRecord : Type 0 where
  pub effect_id : String
  pub intent : EffectIntent
  pub preparation_digest : String
  pub state : EffectState
  pub command_id : String
  pub command_identity_digest : String
  pub external_identity : String
  pub result_digest : String
  pub result_artifact_ref : String
  pub primary_failure : Option StructuredFailure
  pub compensation_state : EffectCompensationState
  pub compensation_attempt_count : ℕ
  pub compensation_command_id : String
  pub compensation_failure : Option StructuredFailure
  pub compensation_next_at : Option Time
  pub compensation_reconciliation : Option EffectCompensationReconciliation
  pub prepared_at : Time
  pub applying_at : Option Time
  pub primary_terminal_at : Option Time
  pub primary_terminal_revision : ℕ
  pub compensation_started_at : Option Time
  pub compensation_finished_at : Option Time
  pub updated_at : Time
  pub revision : ℕ

pub record RevisionFence : Type 0 where
  pub target_id : String
  pub expected_revision : ℕ

pub record GenerationFence : Type 0 where
  pub binding_id : String
  pub generation : ℕ
  pub fencing_token : ℕ

pub record IdempotentCreateFence : Type 0 where
  pub target_namespace : String
  pub identity_digest : String

pub record TargetFence : Type 0 where
  pub kind : FenceKind
  pub revision : Option RevisionFence
  pub generation : Option GenerationFence
  pub idempotent_create : Option IdempotentCreateFence

pub record CommandEnvelope : Type 0 where
  pub command_id : String
  pub request_id : String
  pub effect_id : String
  pub idempotency_key : String
  pub idempotency_key_hash : String
  pub identity_digest : String
  pub namespace_id : String
  pub target_ref : String
  pub action : String
  pub actor_ref : String
  pub source_ref : String
  pub reason_code : String
  pub reason : String
  pub risk : CommandRisk
  pub fence : TargetFence
  pub payload_digest : String
  pub payload_artifact_ref : String
  pub policy_digest : String
  pub descriptor_digest : String
  pub manifest_digest : String
  pub deadline : Time
  pub cancellation_id : String
  pub required_capability_refs : List String
  pub capability_token_hash : String
  pub capability_token : String

pub record CommandReceipt : Type 0 where
  pub receipt_id : String
  pub command_id : String
  pub sequence : ℕ
  pub status : ReceiptStatus
  pub identity_digest : String
  pub fence_digest : String
  pub provider_ref : String
  pub provider_digest : String
  pub policy_digest : String
  pub authorization_digest : String
  pub result_digest : String
  pub result_artifact_ref : String
  pub external_identity : String
  pub failure : Option StructuredFailure
  pub observed_at : Time

pub record CommandLedger : Type 0 where
  pub envelope : CommandEnvelope
  pub receipts : List CommandReceipt
