-- ===== src/Contracts/Runtimes.antt =====
-- The enumerations and records of sdk/go/contracts/runtime.go, and `EffectOwnership` of effect.go. The
-- names follow `Contracts.Statuses`.
use xgc2_orchestration_core.Base.{ℕ, String, Bool, true, false, Option, Time, ◌==◌}
use xgc2_orchestration_core.Contracts.Records.{StructuredFailure}

pub data EffectOwnership : Type 0 where
  owned attached shared detached other : EffectOwnership

pub data RuntimeBindingState : Type 0 where
  preparing active stopping released lost other : RuntimeBindingState

pub data RuntimeObservedState : Type 0 where
  unknown starting running stopping stopped failed lost other : RuntimeObservedState

pub data RuntimeHealth : Type 0 where
  unknown healthy degraded unhealthy lost other : RuntimeHealth

pub data RuntimeCleanupPolicy : Type 0 where
  none on_run_close on_scope_exit other : RuntimeCleanupPolicy

-- EffectOwnership
abbrev pub effect_ownership_position : EffectOwnership → ℕ
effect_ownership_position EffectOwnership.owned = 0
effect_ownership_position EffectOwnership.attached = 1
effect_ownership_position EffectOwnership.shared = 2
effect_ownership_position EffectOwnership.detached = 3
effect_ownership_position EffectOwnership.other = 4

unfoldable pub effect_ownership_eq : EffectOwnership → EffectOwnership → Bool
effect_ownership_eq a b = effect_ownership_position a == effect_ownership_position b

unfoldable pub effect_ownership_valid : EffectOwnership → Bool
effect_ownership_valid EffectOwnership.other = false
effect_ownership_valid _ = true

abbrev pub effect_ownership_name : EffectOwnership → String
effect_ownership_name EffectOwnership.owned = "owned"
effect_ownership_name EffectOwnership.attached = "attached"
effect_ownership_name EffectOwnership.shared = "shared"
effect_ownership_name EffectOwnership.detached = "detached"
effect_ownership_name EffectOwnership.other = ""

-- RuntimeBindingState
abbrev pub binding_state_position : RuntimeBindingState → ℕ
binding_state_position RuntimeBindingState.preparing = 0
binding_state_position RuntimeBindingState.active = 1
binding_state_position RuntimeBindingState.stopping = 2
binding_state_position RuntimeBindingState.released = 3
binding_state_position RuntimeBindingState.lost = 4
binding_state_position RuntimeBindingState.other = 5

unfoldable pub binding_state_eq : RuntimeBindingState → RuntimeBindingState → Bool
binding_state_eq a b = binding_state_position a == binding_state_position b

unfoldable pub binding_state_valid : RuntimeBindingState → Bool
binding_state_valid RuntimeBindingState.other = false
binding_state_valid _ = true

unfoldable pub binding_state_terminal : RuntimeBindingState → Bool
binding_state_terminal RuntimeBindingState.released = true
binding_state_terminal RuntimeBindingState.lost = true
binding_state_terminal _ = false

abbrev pub binding_state_name : RuntimeBindingState → String
binding_state_name RuntimeBindingState.preparing = "preparing"
binding_state_name RuntimeBindingState.active = "active"
binding_state_name RuntimeBindingState.stopping = "stopping"
binding_state_name RuntimeBindingState.released = "released"
binding_state_name RuntimeBindingState.lost = "lost"
binding_state_name RuntimeBindingState.other = ""

-- RuntimeObservedState
abbrev pub observed_state_position : RuntimeObservedState → ℕ
observed_state_position RuntimeObservedState.unknown = 0
observed_state_position RuntimeObservedState.starting = 1
observed_state_position RuntimeObservedState.running = 2
observed_state_position RuntimeObservedState.stopping = 3
observed_state_position RuntimeObservedState.stopped = 4
observed_state_position RuntimeObservedState.failed = 5
observed_state_position RuntimeObservedState.lost = 6
observed_state_position RuntimeObservedState.other = 7

unfoldable pub observed_state_eq : RuntimeObservedState → RuntimeObservedState → Bool
observed_state_eq a b = observed_state_position a == observed_state_position b

unfoldable pub observed_state_valid : RuntimeObservedState → Bool
observed_state_valid RuntimeObservedState.other = false
observed_state_valid _ = true

abbrev pub observed_state_name : RuntimeObservedState → String
observed_state_name RuntimeObservedState.unknown = "unknown"
observed_state_name RuntimeObservedState.starting = "starting"
observed_state_name RuntimeObservedState.running = "running"
observed_state_name RuntimeObservedState.stopping = "stopping"
observed_state_name RuntimeObservedState.stopped = "stopped"
observed_state_name RuntimeObservedState.failed = "failed"
observed_state_name RuntimeObservedState.lost = "lost"
observed_state_name RuntimeObservedState.other = ""

-- RuntimeHealth
abbrev pub runtime_health_position : RuntimeHealth → ℕ
runtime_health_position RuntimeHealth.unknown = 0
runtime_health_position RuntimeHealth.healthy = 1
runtime_health_position RuntimeHealth.degraded = 2
runtime_health_position RuntimeHealth.unhealthy = 3
runtime_health_position RuntimeHealth.lost = 4
runtime_health_position RuntimeHealth.other = 5

unfoldable pub runtime_health_eq : RuntimeHealth → RuntimeHealth → Bool
runtime_health_eq a b = runtime_health_position a == runtime_health_position b

unfoldable pub runtime_health_valid : RuntimeHealth → Bool
runtime_health_valid RuntimeHealth.other = false
runtime_health_valid _ = true

abbrev pub runtime_health_name : RuntimeHealth → String
runtime_health_name RuntimeHealth.unknown = "unknown"
runtime_health_name RuntimeHealth.healthy = "healthy"
runtime_health_name RuntimeHealth.degraded = "degraded"
runtime_health_name RuntimeHealth.unhealthy = "unhealthy"
runtime_health_name RuntimeHealth.lost = "lost"
runtime_health_name RuntimeHealth.other = ""

-- RuntimeCleanupPolicy
abbrev pub cleanup_policy_position : RuntimeCleanupPolicy → ℕ
cleanup_policy_position RuntimeCleanupPolicy.none = 0
cleanup_policy_position RuntimeCleanupPolicy.on_run_close = 1
cleanup_policy_position RuntimeCleanupPolicy.on_scope_exit = 2
cleanup_policy_position RuntimeCleanupPolicy.other = 3

unfoldable pub cleanup_policy_eq : RuntimeCleanupPolicy → RuntimeCleanupPolicy → Bool
cleanup_policy_eq a b = cleanup_policy_position a == cleanup_policy_position b

unfoldable pub cleanup_policy_valid : RuntimeCleanupPolicy → Bool
cleanup_policy_valid RuntimeCleanupPolicy.other = false
cleanup_policy_valid _ = true

pub record RuntimeBinding : Type 0 where
  pub binding_id : String
  pub namespace_id : String
  pub run_id : String
  pub invocation_id : String
  pub node_id : String
  pub runtime_key : String
  pub kind : String
  pub spec_digest : String
  pub provider_ref : String
  pub provider_digest : String
  pub ownership : EffectOwnership
  pub cleanup_policy : RuntimeCleanupPolicy
  pub state : RuntimeBindingState
  pub observed_state : RuntimeObservedState
  pub health : RuntimeHealth
  pub external_identity : String
  pub generation : ℕ
  pub fencing_token : ℕ
  pub lease_owner : String
  pub lease_token_hash : String
  pub lease_expires_at : Time
  pub observation_digest : String
  pub observation_at : Option Time
  pub primary_failure : Option StructuredFailure
  pub created_at : Time
  pub activated_at : Option Time
  pub release_started_at : Option Time
  pub finished_at : Option Time
  pub updated_at : Time
  pub revision : ℕ
