-- ===== src/Contracts/Ownership.antt =====
-- sdk/go/contracts/ownership.go: what a Run owns, and the record of its closure.
use xgc2_orchestration_core.Base.{ℕ, String, Bool, true, false, List}
use xgc2_orchestration_core.Contracts.Records.{Run, InvocationLedger, RunClosureFacts}
use xgc2_orchestration_core.Contracts.Runtimes.{EffectOwnership, RuntimeBinding}
use xgc2_orchestration_core.Contracts.Effects.{EffectRecord}

pub data ResourceBindingState : Type 0 where
  active releasing released lost other : ResourceBindingState

unfoldable pub resource_state_valid : ResourceBindingState → Bool
resource_state_valid ResourceBindingState.other = false
resource_state_valid _ = true

unfoldable pub resource_state_terminal : ResourceBindingState → Bool
resource_state_terminal ResourceBindingState.released = true
resource_state_terminal ResourceBindingState.lost = true
resource_state_terminal _ = false

pub record ResourceOwnershipFact : Type 0 where
  pub binding_id : String
  pub run_id : String
  pub ownership : EffectOwnership
  pub state : ResourceBindingState

abbrev pub ownership_graph_schema_version : String
ownership_graph_schema_version = "xgc.ownership-graph/v1"

pub record OwnershipClosureBase : Type 0 where
  pub run : Run
  pub invocations : List InvocationLedger
  pub child_runs : List Run
  pub effects : List EffectRecord
  pub runtimes : List RuntimeBinding
  pub resources : List ResourceOwnershipFact

pub record OwnershipGraph : Type 0 where
  pub schema_version : String
  pub revision : ℕ
  pub closure_base : OwnershipClosureBase
  pub closure_facts : RunClosureFacts
  pub terminal_run : Run
