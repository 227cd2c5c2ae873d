-- ===== src/Runtime/Fencing.antt =====
-- The fence of a binding: who may act, and what nobody may do any more.
use xgc2_orchestration_core.Base.{true, ◌≡◌, ◌≢◌, ◌≤◌, ◌<◌, Result, ok, arith}
use xgc2_orchestration_core.Contracts.Json.{Canonical}
use xgc2_orchestration_core.Contracts.Runtimes.{
  RuntimeBinding, RuntimeBindingState, binding_state_eq, binding_state_terminal,
  RuntimeObservedState, observed_state_eq,
}
use xgc2_orchestration_core.Runtime.Validation.{
  BindingFence, owned, validate_binding, validate_lease, validate_fence,
}
use xgc2_orchestration_core.Runtime.Operations.{
  ObserveCommand, HeartbeatCommand, TakeoverCommand, ReleaseCommand, BindingDecision, clear_lease,
  observed, lose, observed_binding, heartbeat_binding, taken_over, releasing, released,
  check_observe, observe, check_binding_heartbeat, heartbeat, check_takeover, takeover,
  check_begin_release, begin_release, check_finish_release, finish_release,
}
use xgc2_orchestration_core.Runtime.Steps.{
  BindingStep, BindingChange, BindingStep-BindingChange, taken_over-takeover,
  BindingChange-SameBinding,
}

-- A command of the holder of a binding.
pub data HolderCommand : Type 0 where
  observation : ObserveCommand → HolderCommand
  beat : HeartbeatCommand → HolderCommand
  release_start : ReleaseCommand → HolderCommand
  release_end : ReleaseCommand → HolderCommand

unfoldable pub fence_of : HolderCommand → BindingFence
fence_of (HolderCommand.observation command) = command.fence
fence_of (HolderCommand.beat command) = command.fence
fence_of (HolderCommand.release_start command) = command.fence
fence_of (HolderCommand.release_end command) = command.fence

module _ (c : Canonical) where
  unfoldable pub act : RuntimeBinding → HolderCommand → Result BindingDecision
  act b (HolderCommand.observation command) = observe c b command
  act b (HolderCommand.beat command) = heartbeat c b command
  act b (HolderCommand.release_start command) = begin_release c b command
  act b (HolderCommand.release_end command) = finish_release c b command

  -- The bindings that accepted operations lead to.
  pub data BindingReach (b : RuntimeBinding) : RuntimeBinding → Type 0 where
    here : BindingReach b b
    further : {l m : RuntimeBinding} → BindingReach b l → BindingStep c l m → BindingReach b m

  act-fenced :
      (b : RuntimeBinding) (command : HolderCommand) (d : BindingDecision)
      → act b command ≡ ok d
      → validate_fence c b (fence_of command) ≡ ok tt
  unfolding act fence_of observe heartbeat begin_release finish_release check_observe
      check_binding_heartbeat check_begin_release check_finish_release
  act-fenced b (HolderCommand.observation command) d h = ground arith
  act-fenced b (HolderCommand.beat command) d h = ground arith
  act-fenced b (HolderCommand.release_start command) d h = ground arith
  act-fenced b (HolderCommand.release_end command) d h = ground arith

  fence-token :
      (b : RuntimeBinding) (fence : BindingFence)
      → validate_fence c b fence ≡ ok tt
      → fence.fencing_token ≡ b.fencing_token
  unfolding validate_fence
  fence-token b fence h = ground arith

  pub BindingReach-fencing :
      {b m : RuntimeBinding} → BindingReach b m → b.fencing_token ≤ m.fencing_token
  BindingReach-fencing BindingReach.here = omega arith
  BindingReach-fencing (BindingReach.further r s) = omega (
    arith,
    BindingReach-fencing r,
    (BindingChange-SameBinding c (BindingStep-BindingChange c s)).fencing,
  )

  pub takeover-token :
      (b : RuntimeBinding) (command : TakeoverCommand) (d : BindingDecision)
      → takeover c b command ≡ ok d
      → b.fencing_token < d.binding.fencing_token
  unfolding check_takeover taken_over
  takeover-token b command d h =
      let (hash, checked, hashed, same) = taken_over-takeover c b command h in
      rw same (ground arith)

  -- A holder that was taken over is out for good: after an accepted takeover, whatever operations
  -- follow, no observation, heartbeat or release whose fence carries the fencing token of before the
  -- takeover, or an older one, is ever accepted.
  pub stale_holder :
      (b : RuntimeBinding) (command : TakeoverCommand) (taken : BindingDecision)
      (m : RuntimeBinding) (late : HolderCommand) (d : BindingDecision)
      → takeover c b command ≡ ok taken
      → BindingReach taken.binding m
      → (fence_of late).fencing_token ≤ b.fencing_token
      → act m late ≢ ok d
  stale_holder b command taken m late d h r old accepted = omega (
    arith,
    takeover-token b command taken h,
    BindingReach-fencing r,
    old,
    fence-token m (fence_of late) (act-fenced m late d accepted),
  )

  ended-fence :
      (b : RuntimeBinding) (fence : BindingFence)
      → validate_binding c b ≡ ok tt
      → binding_state_terminal b.state ≡ true
      → validate_fence c b fence ≢ ok tt
  unfolding validate_binding validate_lease validate_fence
  ended-fence b fence valid t h = ground arith

  ended-BindingChange :
      {b m : RuntimeBinding} → binding_state_terminal b.state ≡ true → ¬ BindingChange c b m
  unfolding check_observe check_binding_heartbeat check_takeover check_begin_release
      check_finish_release binding_state_eq binding_state_terminal
  ended-BindingChange t (BindingChange.observed_by command h valid e) = ground arith
  ended-BindingChange {b} t (BindingChange.beaten_by command h e) =
      ground (arith, ended-fence b command.fence)
  ended-BindingChange t (BindingChange.taken_by command hash h hashed e) = ground arith
  ended-BindingChange t (BindingChange.begun_by command h valid e) = ground arith
  ended-BindingChange t (BindingChange.finished_by command h valid e) = ground arith

  -- A released or lost binding accepts no operation: neither its holder nor a takeover changes it.
  pub ended_binding :
      (b m : RuntimeBinding) → binding_state_terminal b.state ≡ true → ¬ BindingStep c b m
  ended_binding b m t s = ended-BindingChange t (BindingStep-BindingChange c s)

  owned_release-BindingChange :
      {b m : RuntimeBinding}
      → BindingChange c b m
      → m.state ≡ RuntimeBindingState.released
      → owned b ≡ true
      → (b.state ≡ RuntimeBindingState.stopping) × (b.observed_state ≡ RuntimeObservedState.stopped)
  unfolding check_observe check_binding_heartbeat check_takeover check_begin_release
      check_finish_release observed_binding observed lose clear_lease heartbeat_binding taken_over
      releasing released binding_state_eq binding_state_terminal observed_state_eq
  owned_release-BindingChange (BindingChange.observed_by command h valid e) r o =
      absurd (ground arith)
  owned_release-BindingChange {b} (BindingChange.beaten_by command h e) r o =
      absurd (ground (arith, ended-fence b command.fence))
  owned_release-BindingChange (BindingChange.taken_by command hash h hashed e) r o =
      absurd (ground arith)
  owned_release-BindingChange (BindingChange.begun_by command h valid e) r o = absurd (ground arith)
  owned_release-BindingChange (BindingChange.finished_by command h valid e) r o = ground arith

  -- An owned runtime is only released out of stopping, when it was observed to have stopped.
  pub owned_release :
      (b m : RuntimeBinding)
      → BindingStep c b m
      → m.state ≡ RuntimeBindingState.released
      → owned b ≡ true
      → (b.state ≡ RuntimeBindingState.stopping) × (b.observed_state ≡ RuntimeObservedState.stopped)
  owned_release b m s = owned_release-BindingChange (BindingStep-BindingChange c s)
