-- ===== src/Runtime/Observations.antt =====
-- What the holder of an active binding can observe.
use xgc2_orchestration_core.Base.{true, ◌≡◌, ◌⊎◌, ok, arith}
use xgc2_orchestration_core.Contracts.Json.{Canonical}
use xgc2_orchestration_core.Contracts.Runtimes.{
  RuntimeBinding, RuntimeBindingState, binding_state_eq, RuntimeObservedState, observed_state_eq,
}
use xgc2_orchestration_core.Runtime.Validation.{validate_binding, validate_binding_state}
use xgc2_orchestration_core.Runtime.Operations.{
  ObserveCommand, BindingDecision, clear_lease, observed, lose, observed_binding, observe,
}

module _ (c : Canonical) where
  observe_facts :
      (b : RuntimeBinding) (command : ObserveCommand) (d : BindingDecision)
      → observe c b command ≡ ok d
      → validate_binding_state (observed_binding b command) ≡ ok tt
  unfolding observe validate_binding
  observe_facts b command d h = ground arith

  active_target :
      (b : RuntimeBinding) (command : ObserveCommand)
      → validate_binding_state (observed_binding b command) ≡ ok tt
      → b.state ≡ RuntimeBindingState.active
      → (observed_state_eq command.observed_state RuntimeObservedState.running ≡ true)
        ⊎ (observed_state_eq command.observed_state RuntimeObservedState.lost ≡ true)
  unfolding validate_binding_state observed_binding observed lose clear_lease binding_state_eq
  active_target b command h s = ground arith

  -- An active binding only accepts an observation of a running or of a lost runtime: to record that it
  -- stopped or failed, its release has to begin first.
  pub active_observation :
      (b : RuntimeBinding) (command : ObserveCommand) (d : BindingDecision)
      → observe c b command ≡ ok d
      → b.state ≡ RuntimeBindingState.active
      → (observed_state_eq command.observed_state RuntimeObservedState.running ≡ true)
        ⊎ (observed_state_eq command.observed_state RuntimeObservedState.lost ≡ true)
  active_observation b command d h s = active_target b command (observe_facts b command d h) s
