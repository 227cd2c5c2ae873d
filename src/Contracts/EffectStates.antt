-- ===== src/Contracts/EffectStates.antt =====
-- The enumerations of sdk/go/contracts/effect.go, but for `EffectOwnership`, which is with the
-- bindings. The names follow `Contracts.Statuses`.
use xgc2_orchestration_core.Base.{ℕ, String, Bool, true, false, ◌==◌}

pub data CompensationPolicy : Type 0 where
  none required best_effort other : CompensationPolicy

pub data EffectState : Type 0 where
  prepared applying applied failed uncertain canceled other : EffectState

pub data EffectCompensationState : Type 0 where
  not_required unscheduled pending running retry_wait succeeded reconciled failed canceled other :
      EffectCompensationState

pub data FenceKind : Type 0 where
  revision generation idempotent_create other : FenceKind

pub data CommandRisk : Type 0 where
  low moderate high other : CommandRisk

pub data ReceiptStatus : Type 0 where
  accepted rejected succeeded failed uncertain other : ReceiptStatus

-- CompensationPolicy
abbrev pub compensation_policy_position : CompensationPolicy → ℕ
compensation_policy_position CompensationPolicy.none = 0
compensation_policy_position CompensationPolicy.required = 1
compensation_policy_position CompensationPolicy.best_effort = 2
compensation_policy_position CompensationPolicy.other = 3

unfoldable pub compensation_policy_eq : CompensationPolicy → CompensationPolicy → Bool
compensation_policy_eq a b = compensation_policy_position a == compensation_policy_position b

unfoldable pub compensation_policy_valid : CompensationPolicy → Bool
compensation_policy_valid CompensationPolicy.other = false
compensation_policy_valid _ = true

abbrev pub compensation_policy_name : CompensationPolicy → String
compensation_policy_name CompensationPolicy.none = "none"
compensation_policy_name CompensationPolicy.required = "required"
compensation_policy_name CompensationPolicy.best_effort = "best-effort"
compensation_policy_name CompensationPolicy.other = ""

-- EffectState
abbrev pub effect_state_position : EffectState → ℕ
effect_state_position EffectState.prepared = 0
effect_state_position EffectState.applying = 1
effect_state_position EffectState.applied = 2
effect_state_position EffectState.failed = 3
effect_state_position EffectState.uncertain = 4
effect_state_position EffectState.canceled = 5
effect_state_position EffectState.other = 6

unfoldable pub effect_state_eq : EffectState → EffectState → Bool
effect_state_eq a b = effect_state_position a == effect_state_position b

unfoldable pub effect_state_valid : EffectState → Bool
effect_state_valid EffectState.other = false
effect_state_valid _ = true

unfoldable pub effect_state_terminal : EffectState → Bool
effect_state_terminal EffectState.applied = true
effect_state_terminal EffectState.failed = true
effect_state_terminal EffectState.uncertain = true
effect_state_terminal EffectState.canceled = true
effect_state_terminal _ = false

abbrev pub effect_state_name : EffectState → String
effect_state_name EffectState.prepared = "prepared"
effect_state_name EffectState.applying = "applying"
effect_state_name EffectState.applied = "applied"
effect_state_name EffectState.failed = "failed"
effect_state_name EffectState.uncertain = "uncertain"
effect_state_name EffectState.canceled = "canceled"
effect_state_name EffectState.other = ""

-- EffectCompensationState
abbrev pub effect_compensation_position : EffectCompensationState → ℕ
effect_compensation_position EffectCompensationState.not_required = 0
effect_compensation_position EffectCompensationState.unscheduled = 1
effect_compensation_position EffectCompensationState.pending = 2
effect_compensation_position EffectCompensationState.running = 3
effect_compensation_position EffectCompensationState.retry_wait = 4
effect_compensation_position EffectCompensationState.succeeded = 5
effect_compensation_position EffectCompensationState.reconciled = 6
effect_compensation_position EffectCompensationState.failed = 7
effect_compensation_position EffectCompensationState.canceled = 8
effect_compensation_position EffectCompensationState.other = 9

unfoldable pub effect_compensation_eq : EffectCompensationState → EffectCompensationState → Bool
effect_compensation_eq a b = effect_compensation_position a == effect_compensation_position b

unfoldable pub effect_compensation_valid : EffectCompensationState → Bool
effect_compensation_valid EffectCompensationState.other = false
effect_compensation_valid _ = true

unfoldable pub effect_compensation_terminal : EffectCompensationState → Bool
effect_compensation_terminal EffectCompensationState.not_required = true
effect_compensation_terminal EffectCompensationState.succeeded = true
effect_compensation_terminal EffectCompensationState.reconciled = true
effect_compensation_terminal EffectCompensationState.failed = true
effect_compensation_terminal EffectCompensationState.canceled = true
effect_compensation_terminal _ = false

-- `state.ClosesRequired()`.
unfoldable pub closes_required : EffectCompensationState → Bool
closes_required EffectCompensationState.succeeded = true
closes_required EffectCompensationState.reconciled = true
closes_required _ = false

abbrev pub effect_compensation_name : EffectCompensationState → String
effect_compensation_name EffectCompensationState.not_required = "not-required"
effect_compensation_name EffectCompensationState.unscheduled = "unscheduled"
effect_compensation_name EffectCompensationState.pending = "pending"
effect_compensation_name EffectCompensationState.running = "running"
effect_compensation_name EffectCompensationState.retry_wait = "retry-wait"
effect_compensation_name EffectCompensationState.succeeded = "succeeded"
effect_compensation_name EffectCompensationState.reconciled = "reconciled"
effect_compensation_name EffectCompensationState.failed = "failed"
effect_compensation_name EffectCompensationState.canceled = "canceled"
effect_compensation_name EffectCompensationState.other = ""

-- FenceKind
abbrev pub fence_kind_name : FenceKind → String
fence_kind_name FenceKind.revision = "revision"
fence_kind_name FenceKind.generation = "generation"
fence_kind_name FenceKind.idempotent_create = "idempotent-create"
fence_kind_name FenceKind.other = ""

-- CommandRisk
unfoldable pub command_risk_valid : CommandRisk → Bool
command_risk_valid CommandRisk.other = false
command_risk_valid _ = true

abbrev pub command_risk_name : CommandRisk → String
command_risk_name CommandRisk.low = "low"
command_risk_name CommandRisk.moderate = "moderate"
command_risk_name CommandRisk.high = "high"
command_risk_name CommandRisk.other = ""

-- ReceiptStatus
abbrev pub receipt_status_position : ReceiptStatus → ℕ
receipt_status_position ReceiptStatus.accepted = 0
receipt_status_position ReceiptStatus.rejected = 1
receipt_status_position ReceiptStatus.succeeded = 2
receipt_status_position ReceiptStatus.failed = 3
receipt_status_position ReceiptStatus.uncertain = 4
receipt_status_position ReceiptStatus.other = 5

unfoldable pub receipt_status_eq : ReceiptStatus → ReceiptStatus → Bool
receipt_status_eq a b = receipt_status_position a == receipt_status_position b

unfoldable pub receipt_status_valid : ReceiptStatus → Bool
receipt_status_valid ReceiptStatus.other = false
receipt_status_valid _ = true

unfoldable pub receipt_status_terminal : ReceiptStatus → Bool
receipt_status_terminal ReceiptStatus.rejected = true
receipt_status_terminal ReceiptStatus.succeeded = true
receipt_status_terminal ReceiptStatus.failed = true
receipt_status_terminal ReceiptStatus.uncertain = true
receipt_status_terminal _ = false

abbrev pub receipt_status_name : ReceiptStatus → String
receipt_status_name ReceiptStatus.accepted = "accepted"
receipt_status_name ReceiptStatus.rejected = "rejected"
receipt_status_name ReceiptStatus.succeeded = "succeeded"
receipt_status_name ReceiptStatus.failed = "failed"
receipt_status_name ReceiptStatus.uncertain = "uncertain"
receipt_status_name ReceiptStatus.other = ""
