-- ===== src/Runtime/Takeovers.antt =====
-- What a takeover forgets, and what the next holder has to observe again.
use xgc2_orchestration_core.Base.{
  ℕ, Time, String, false, none, ◌≡◌, ◌<◌, ◌⊎◌, refl, ok, inl, inr, arith,
}
use xgc2_orchestration_core.Contracts.Json.{Canonical}
use xgc2_orchestration_core.Contracts.Runtimes.{
  RuntimeBinding, RuntimeBindingState, binding_state_eq, RuntimeObservedState, RuntimeHealth,
}
use xgc2_orchestration_core.Runtime.Validation.{validate_fence}
use xgc2_orchestration_core.Runtime.Operations.{
  ObserveCommand, HeartbeatCommand, TakeoverCommand, BindingDecision, clear_lease,
  heartbeat_binding, taken_over, releasing, released, check_observe, observe, heartbeat, takeover,
  begin_release, finish_release,
}
use xgc2_orchestration_core.Runtime.Steps.{BindingStep, taken_over-takeover}
use xgc2_orchestration_core.Runtime.Fencing.{BindingReach, BindingReach-fencing, takeover-token}

-- Not active and without any trace of an observation, of the runtime that the binding `b` names.
pub record Unobserved (b m : RuntimeBinding) : Type 0 where
  pub inactive : binding_state_eq m.state RuntimeBindingState.active ≡ false
  pub observed_state : m.observed_state ≡ RuntimeObservedState.unknown
  pub health : m.health ≡ RuntimeHealth.unknown
  pub observation_digest : m.observation_digest ≡ ""
  pub observation_at : m.observation_at ≡ none
  pub primary_failure : m.primary_failure ≡ none
  pub external_identity : m.external_identity ≡ b.external_identity

module _ (c : Canonical) where
  -- Between two bindings, an observation was accepted under a later token than a given one.
  pub record ObservedSince (token : ℕ) (b m : RuntimeBinding) : Type 0 where
    pub current : RuntimeBinding
    pub command : ObserveCommand
    pub decision : BindingDecision
    pub reached : BindingReach c b current
    pub accepted : observe c current command ≡ ok decision
    pub later : token < command.fence.fencing_token
    pub since : BindingReach c decision.binding m

  observe-token :
      (b : RuntimeBinding) (command : ObserveCommand) (d : BindingDecision)
      → observe c b command ≡ ok d
      → command.fence.fencing_token ≡ b.fencing_token
  unfolding observe check_observe validate_fence
  observe-token b command d h = ground arith

  taken_over-Unobserved :
      (a b : RuntimeBinding) (command : TakeoverCommand) (hash : String)
      → b.external_identity ≡ a.external_identity
      → Unobserved a (taken_over b command hash)
  unfolding taken_over binding_state_eq
  taken_over-Unobserved a b command hash same = ground arith

  just_taken :
      (a b : RuntimeBinding) (command : TakeoverCommand) {d : BindingDecision}
      → b.external_identity ≡ a.external_identity
      → takeover c b command ≡ ok d
      → Unobserved a d.binding
  just_taken a b command same h =
      let (hash, checked, hashed, taken) = taken_over-takeover c b command h in
      rw taken (taken_over-Unobserved a b command hash same)

  heartbeat-Unobserved :
      {a b : RuntimeBinding}
      → Unobserved a b
      → (command : HeartbeatCommand) → Unobserved a (heartbeat_binding b command)
  unfolding heartbeat_binding
  heartbeat-Unobserved u command = ground arith

  releasing-Unobserved :
      {a b : RuntimeBinding} → Unobserved a b → (at : Time) → Unobserved a (releasing b at)
  unfolding releasing clear_lease binding_state_eq
  releasing-Unobserved u at = ground arith

  released-Unobserved :
      {a b : RuntimeBinding} → Unobserved a b → (at : Time) → Unobserved a (released b at)
  unfolding released clear_lease binding_state_eq
  released-Unobserved u at = ground arith

  -- Of one accepted operation.
  BindingStep-Unobserved :
      {a l m : RuntimeBinding}
      → Unobserved a l
      → BindingStep c l m
      → Unobserved a m
        ⊎ ((command : ObserveCommand) × (d : BindingDecision) × (observe c l command ≡ ok d)
            × (m ≡ d.binding))
  unfolding heartbeat begin_release finish_release
  BindingStep-Unobserved u (BindingStep.observing command d h e) = inr (command, d, h, e)
  BindingStep-Unobserved {l = l} u (BindingStep.beating command d h e) =
      let same : d.binding ≡ heartbeat_binding l command = ground arith in
      inl (rw (e, same) (heartbeat-Unobserved u command))
  BindingStep-Unobserved {a} {l} u (BindingStep.taking command d h e) =
      inl (rw e (just_taken a l command u.external_identity h))
  BindingStep-Unobserved {l = l} u (BindingStep.beginning command d h e) =
      let same : d.binding ≡ releasing l command.fence.at = ground arith in
      inl (rw (e, same) (releasing-Unobserved u command.fence.at))
  BindingStep-Unobserved {l = l} u (BindingStep.finishing command d h e) =
      let same : d.binding ≡ released l command.fence.at = ground arith in
      inl (rw (e, same) (released-Unobserved u command.fence.at))

  observed_before :
      {token : ℕ} {b l m : RuntimeBinding}
      → ObservedSince token b l
      → BindingStep c l m
      → ObservedSince token b m
  observed_before o s = record {
    current = o.current;
    command = o.command;
    decision = o.decision;
    reached = o.reached;
    accepted = o.accepted;
    later = o.later;
    since = BindingReach.further o.since s;
  }

  module _ (b : RuntimeBinding) (command : TakeoverCommand) (taken : BindingDecision) where
    -- A takeover forgets what the holder before has observed, until the next holder observes again:
    -- whatever operations follow an accepted takeover, either the binding is not active, its observed
    -- state and health are unknown, it has no digest, time or failure of an observation and still the
    -- external identity of before; or an observation was accepted since, under a later fencing token
    -- than the one of before the takeover.
    pub takeover-Unobserved :
        {m : RuntimeBinding}
        → takeover c b command ≡ ok taken
        → BindingReach c taken.binding m
        → Unobserved b m ⊎ ObservedSince b.fencing_token taken.binding m
    takeover-Unobserved h BindingReach.here = inl (just_taken b b command refl h)
    takeover-Unobserved h (BindingReach.further {l} r s) = elim (takeover-Unobserved h r) [
      | inr o ↦ inr (observed_before o s)
      | inl u ↦ elim (BindingStep-Unobserved u s) [
        | inl kept ↦ inl kept
        | inr (seen, d, accepted, same) ↦ inr (record {
          current = l;
          command = seen;
          decision = d;
          reached = r;
          accepted = accepted;
          later = omega (
            arith,
            takeover-token c b command taken h,
            BindingReach-fencing c r,
            observe-token l seen d accepted,
          );
          since = rw same BindingReach.here;
        })
      ]
    ]
