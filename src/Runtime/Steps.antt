-- ===== src/Runtime/Steps.antt =====
-- The accepted operations on a binding as steps, and what every step keeps.
use xgc2_orchestration_core.Base.{String, ◌≡◌, ◌≤◌, ◌<◌, ◌∙◌, ok, arith, Result-cases, inl, inr}
use xgc2_orchestration_core.Contracts.Json.{Canonical}
use xgc2_orchestration_core.Contracts.Runtimes.{RuntimeBinding}
use xgc2_orchestration_core.Execution.Identity.{private_token_digest}
use xgc2_orchestration_core.Runtime.Validation.{validate_binding}
use xgc2_orchestration_core.Runtime.Operations.{
  ObserveCommand, HeartbeatCommand, TakeoverCommand, ReleaseCommand, BindingDecision, clear_lease,
  observed, lose, observed_binding, heartbeat_binding, taken_over, releasing, released,
  check_observe, observe, check_binding_heartbeat, heartbeat, check_takeover, takeover,
  check_begin_release, begin_release, check_finish_release, finish_release,
}

module _ (c : Canonical) where
  -- A step is one accepted operation.
  pub data BindingStep (b m : RuntimeBinding) : Type 0 where
    observing :
        (command : ObserveCommand) (d : BindingDecision)
        → observe c b command ≡ ok d
        → m ≡ d.binding
        → BindingStep b m
    beating :
        (command : HeartbeatCommand) (d : BindingDecision)
        → heartbeat c b command ≡ ok d
        → m ≡ d.binding
        → BindingStep b m
    taking :
        (command : TakeoverCommand) (d : BindingDecision)
        → takeover c b command ≡ ok d
        → m ≡ d.binding
        → BindingStep b m
    beginning :
        (command : ReleaseCommand) (d : BindingDecision)
        → begin_release c b command ≡ ok d
        → m ≡ d.binding
        → BindingStep b m
    finishing :
        (command : ReleaseCommand) (d : BindingDecision)
        → finish_release c b command ≡ ok d
        → m ≡ d.binding
        → BindingStep b m

  -- What an accepted operation does, with the checks that it passed.
  pub data BindingChange (b m : RuntimeBinding) : Type 0 where
    observed_by :
        (command : ObserveCommand)
        → check_observe c b command ≡ ok tt
        → validate_binding c m ≡ ok tt
        → m ≡ observed_binding b command
        → BindingChange b m
    beaten_by :
        (command : HeartbeatCommand)
        → check_binding_heartbeat c b command ≡ ok tt
        → m ≡ heartbeat_binding b command
        → BindingChange b m
    taken_by :
        (command : TakeoverCommand) (hash : String)
        → check_takeover c b command ≡ ok tt
        → private_token_digest c command.lease_token ≡ ok hash
        → m ≡ taken_over b command hash
        → BindingChange b m
    begun_by :
        (command : ReleaseCommand)
        → check_begin_release c b command ≡ ok tt
        → validate_binding c m ≡ ok tt
        → m ≡ releasing b command.fence.at
        → BindingChange b m
    finished_by :
        (command : ReleaseCommand)
        → check_finish_release c b command ≡ ok tt
        → validate_binding c m ≡ ok tt
        → m ≡ released b command.fence.at
        → BindingChange b m

  pub taken_over-takeover :
      (b : RuntimeBinding) (command : TakeoverCommand) {d : BindingDecision}
      → takeover c b command ≡ ok d
      → (hash : String) × (check_takeover c b command ≡ ok tt)
        × (private_token_digest c command.lease_token ≡ ok hash)
        × (d.binding ≡ taken_over b command hash)
  unfolding takeover
  taken_over-takeover b command {d} h =
      elim (Result-cases (private_token_digest c command.lease_token)) [
        | inl (hash, hashed) ↦ (hash, ground arith, hashed, ground arith)
        | inr (x, failed) ↦ absurd (ground arith)
      ]

  pub BindingStep-BindingChange : {b m : RuntimeBinding} → BindingStep b m → BindingChange b m
  unfolding observe heartbeat begin_release finish_release
  BindingStep-BindingChange {b} (BindingStep.observing command d h e) =
      BindingChange.observed_by command (ground arith) (rw e (ground arith)) (rw e (ground arith))
  BindingStep-BindingChange {b} (BindingStep.beating command d h e) =
      BindingChange.beaten_by command (ground arith) (rw e (ground arith))
  BindingStep-BindingChange {b} (BindingStep.taking command d h e) =
      let (hash, checked, hashed, same) = taken_over-takeover b command h in
      BindingChange.taken_by command hash checked hashed (e ∙ same)
  BindingStep-BindingChange {b} (BindingStep.beginning command d h e) =
      BindingChange.begun_by command (ground arith) (rw e (ground arith)) (rw e (ground arith))
  BindingStep-BindingChange {b} (BindingStep.finishing command d h e) =
      BindingChange.finished_by command (ground arith) (rw e (ground arith)) (rw e (ground arith))

-- What a binding is, and whose.
pub record SameBinding (b m : RuntimeBinding) : Type 0 where
  pub binding_id : m.binding_id ≡ b.binding_id
  pub namespace_id : m.namespace_id ≡ b.namespace_id
  pub run_id : m.run_id ≡ b.run_id
  pub invocation_id : m.invocation_id ≡ b.invocation_id
  pub node_id : m.node_id ≡ b.node_id
  pub runtime_key : m.runtime_key ≡ b.runtime_key
  pub kind : m.kind ≡ b.kind
  pub spec_digest : m.spec_digest ≡ b.spec_digest
  pub provider_ref : m.provider_ref ≡ b.provider_ref
  pub provider_digest : m.provider_digest ≡ b.provider_digest
  pub ownership : m.ownership ≡ b.ownership
  pub cleanup_policy : m.cleanup_policy ≡ b.cleanup_policy
  pub created_at : m.created_at ≡ b.created_at
  -- A fencing token never goes back.
  pub fencing : b.fencing_token ≤ m.fencing_token

module _ (c : Canonical) where
  later_token :
      (b : RuntimeBinding) (command : TakeoverCommand)
      → check_takeover c b command ≡ ok tt
      → b.fencing_token < command.fencing_token
  unfolding check_takeover
  later_token b command h = ground arith

  pub BindingChange-SameBinding : {b m : RuntimeBinding} → BindingChange c b m → SameBinding b m
  unfolding observed_binding observed lose clear_lease heartbeat_binding taken_over releasing
      released
  BindingChange-SameBinding (BindingChange.observed_by command h valid e) = rw e (ground arith)
  BindingChange-SameBinding (BindingChange.beaten_by command h e) = rw e (ground arith)
  BindingChange-SameBinding {b} (BindingChange.taken_by command hash h hashed e) =
      rw e (ground (arith, later_token b command h))
  BindingChange-SameBinding (BindingChange.begun_by command h valid e) = rw e (ground arith)
  BindingChange-SameBinding (BindingChange.finished_by command h valid e) = rw e (ground arith)
