-- ===== src/Effect/Commands.antt =====
-- kernel/effect/effect.go: the commands on an effect, and the decision on one.
use xgc2_orchestration_core.Base.{ℕ, String, Option, List, Time}
use xgc2_orchestration_core.Contracts.Records.{StructuredFailure, DomainEvent, DurableIntent}
use xgc2_orchestration_core.Contracts.EffectStates.{EffectCompensationState}
use xgc2_orchestration_core.Contracts.Effects.{
  EffectIntent, EffectRecord, CommandEnvelope, CommandReceipt, CommandLedger,
}

pub record PrepareCommand : Type 0 where
  pub intent : EffectIntent
  pub command_id : String
  pub at : Time

pub record BeginCommand : Type 0 where
  pub effect_id : String
  pub expected_revision : ℕ
  pub envelope : CommandEnvelope
  pub command_id : String
  pub at : Time

pub record ObserveReceiptCommand : Type 0 where
  pub effect_id : String
  pub expected_revision : ℕ
  pub receipt : CommandReceipt
  pub command_id : String

pub record ReconcileCommand : Type 0 where
  pub effect_id : String
  pub expected_revision : ℕ
  pub command_id : String
  pub at : Time

pub record CancelPreparedCommand : Type 0 where
  pub effect_id : String
  pub expected_revision : ℕ
  pub command_id : String
  pub at : Time

pub record CompensationCommand : Type 0 where
  pub effect_id : String
  pub expected_revision : ℕ
  pub to : EffectCompensationState
  pub compensation_command_id : String
  pub failure : Option StructuredFailure
  pub retry_at : Option Time
  pub command_id : String
  pub at : Time

pub record ObserveCompensationCommand : Type 0 where
  pub effect_id : String
  pub expected_revision : ℕ
  pub receipt : CommandReceipt
  pub command_id : String

pub record ReconcileCompensationCommand : Type 0 where
  pub effect_id : String
  pub expected_revision : ℕ
  pub evidence_digest : String
  pub reconciled_by : String
  pub reason_code : String
  pub command_id : String
  pub at : Time

pub record EffectDecision : Type 0 where
  pub effect : EffectRecord
  pub ledger : Option CommandLedger
  pub events : List DomainEvent
  pub intents : List DurableIntent
