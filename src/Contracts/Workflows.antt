-- ===== src/Contracts/Workflows.antt =====
-- The enumerations and records of sdk/go/contracts/workflow.go that the routing of a compiled plan
-- reads.
use xgc2_orchestration_core.Base.{ℕ, String, Bool, true, false}

pub data EdgeKind : Type 0 where
  control data_edge other : EdgeKind

pub data EdgeCondition : Type 0 where
  success failure always other : EdgeCondition

unfoldable pub edge_kind_valid : EdgeKind → Bool
edge_kind_valid EdgeKind.other = false
edge_kind_valid _ = true

unfoldable pub edge_condition_valid : EdgeCondition → Bool
edge_condition_valid EdgeCondition.other = false
edge_condition_valid _ = true

-- A policy's attempts are a uint32, its delays are uint64 milliseconds.
pub record NodeRetryPolicy : Type 0 where
  pub max_attempts : ℕ
  pub initial_backoff_millis : ℕ
  pub max_backoff_millis : ℕ

pub record WorkflowEdge : Type 0 where
  pub source : String
  pub target : String
  pub kind : EdgeKind
  pub condition : EdgeCondition
  pub route : String
  pub source_port : String
