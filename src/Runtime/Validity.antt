-- ===== src/Runtime/Validity.antt =====
-- Every accepted operation leaves a well-formed binding, the two that do not validate it included.
use xgc2_orchestration_core.Base.{String, true, false, ◌≡◌, ◌≤◌, ◌<◌, ◌+◌, refl, ok, arith, u64_inc}
use Prim.Native.String.{◌++◌}
use xgc2_orchestration_core.Contracts.Identity.{valid_digest, valid_identifier}
use xgc2_orchestration_core.Contracts.Json.{Canonical}
use xgc2_orchestration_core.Contracts.Runtimes.{
  RuntimeBinding, binding_state_eq, binding_state_valid, binding_state_terminal, observed_state_eq,
  observed_state_valid, runtime_health_valid,
}
use xgc2_orchestration_core.Execution.Identity.{private_token_digest, validate_identity}
use xgc2_orchestration_core.Runtime.Validation.{
  BindingFence, validate_binding, validate_binding_refs, validate_binding_state, validate_kinds,
  validate_ownership, validate_counters, validate_external, validate_lease, validate_observation,
  validate_binding_failure, validate_fence,
}
use xgc2_orchestration_core.Runtime.Operations.{
  HeartbeatCommand, TakeoverCommand, heartbeat_binding, taken_over, check_binding_heartbeat,
  check_takeover,
}
use xgc2_orchestration_core.Runtime.Steps.{BindingStep, BindingChange, BindingStep-BindingChange}

module _ (c : Canonical) where
  -- The parts of `validate_binding`, all passed.
  record ValidBinding (b : RuntimeBinding) : Type 0 where
    refs : validate_binding_refs c b ≡ ok tt
    kinds : validate_kinds b ≡ ok tt
    ownership : validate_ownership b.ownership b.cleanup_policy ≡ ok tt
    counters : validate_counters b ≡ ok tt
    lease : validate_lease b ≡ ok tt
    state : validate_binding_state b ≡ ok tt
    observation : validate_observation b ≡ ok tt
    external : validate_external b.external_identity ≡ ok tt
    failure : validate_binding_failure b.observed_state b.primary_failure ≡ ok tt

  parts : (b : RuntimeBinding) → validate_binding c b ≡ ok tt → ValidBinding b
  unfolding validate_binding
  parts b h = ground arith

  whole : (b : RuntimeBinding) → ValidBinding b → validate_binding c b ≡ ok tt
  unfolding validate_binding
  whole b v =
      rw
        (
          v.refs, v.kinds, v.ownership, v.counters, v.lease, v.state, v.observation, v.external,
          v.failure,
        )
        refl

  -- What the fence of a holder passed says of the lease.
  fence_facts :
      (b : RuntimeBinding) (fence : BindingFence)
      → validate_fence c b fence ≡ ok tt
      → (b.updated_at ≤ fence.at) × (fence.at < b.lease_expires_at)
  unfolding validate_fence
  fence_facts b fence h = ground arith

  heartbeat_facts :
      (b : RuntimeBinding) (command : HeartbeatCommand)
      → check_binding_heartbeat c b command ≡ ok tt
      → (validate_binding c b ≡ ok tt)
        × (validate_fence c b command.fence ≡ ok tt)
        × (b.lease_expires_at < command.lease_expires_at)
  unfolding check_binding_heartbeat
  heartbeat_facts b command h = ground arith

  heartbeat_lease :
      (b : RuntimeBinding) (command : HeartbeatCommand)
      → validate_lease b ≡ ok tt
      → command.fence.at < b.lease_expires_at
      → b.lease_expires_at < command.lease_expires_at
      → validate_lease (heartbeat_binding b command) ≡ ok tt
  unfolding validate_lease heartbeat_binding
  heartbeat_lease b command h p q = ground arith

  heartbeat_counters :
      (b : RuntimeBinding) (command : HeartbeatCommand)
      → validate_counters b ≡ ok tt
      → b.updated_at ≤ command.fence.at
      → b.revision + 1 < 18446744073709551616
      → validate_counters (heartbeat_binding b command) ≡ ok tt
  unfolding validate_counters heartbeat_binding
  heartbeat_counters b command h p small = ground arith

  heartbeat_observation :
      (b : RuntimeBinding) (command : HeartbeatCommand)
      → validate_observation b ≡ ok tt
      → b.updated_at ≤ command.fence.at
      → validate_observation (heartbeat_binding b command) ≡ ok tt
  unfolding validate_observation heartbeat_binding
  heartbeat_observation b command h p = ground arith

  heartbeat-valid :
      (b : RuntimeBinding) (command : HeartbeatCommand)
      → check_binding_heartbeat c b command ≡ ok tt
      → b.revision + 1 < 18446744073709551616
      → validate_binding c (heartbeat_binding b command) ≡ ok tt
  unfolding validate_binding_refs validate_kinds validate_binding_state heartbeat_binding
  heartbeat-valid b command h small =
      let (valid, fenced, extended) = heartbeat_facts b command h in
      let (later, leased) = fence_facts b command.fence fenced in
      let v = parts b valid in
      whole (heartbeat_binding b command) (record {
        refs = v.refs;
        kinds = v.kinds;
        ownership = v.ownership;
        counters = heartbeat_counters b command v.counters later small;
        lease = heartbeat_lease b command v.lease leased extended;
        state = v.state;
        observation = heartbeat_observation b command v.observation later;
        external = v.external;
        failure = v.failure;
      })

  hashed_token :
      (token hash : String)
      → ((s : String) → valid_digest ("sha256:" ++ c.sha256_hex s) ≡ true)
      → private_token_digest c token ≡ ok hash
      → valid_digest hash ≡ true
  unfolding private_token_digest
  hashed_token token hash hex h = ground (arith, hex token)

  -- What an accepted takeover has passed.
  record Takes (b : RuntimeBinding) (command : TakeoverCommand) : Type 0 where
    valid : validate_binding c b ≡ ok tt
    live : binding_state_terminal b.state ≡ false
    expired : b.lease_expires_at ≤ command.at
    next : command.generation ≡ u64_inc b.generation
    newer : b.fencing_token < command.fencing_token
    leased : command.at < command.lease_expires_at
    owner : valid_identifier command.lease_owner ≡ true

  takeover_facts :
      (b : RuntimeBinding) (command : TakeoverCommand)
      → check_takeover c b command ≡ ok tt
      → Takes b command
  unfolding check_takeover validate_identity
  takeover_facts b command h = ground arith

  takeover_kinds :
      (b : RuntimeBinding) (command : TakeoverCommand) (hash : String)
      → validate_kinds b ≡ ok tt
      → validate_kinds (taken_over b command hash) ≡ ok tt
  unfolding validate_kinds taken_over binding_state_eq binding_state_valid observed_state_valid
      runtime_health_valid
  takeover_kinds b command hash h = ground arith

  takeover_counters :
      (b : RuntimeBinding) (command : TakeoverCommand) (hash : String)
      → Takes b command
      → validate_counters b ≡ ok tt
      → validate_lease b ≡ ok tt
      → b.revision + 1 < 18446744073709551616
      → b.generation + 1 < 18446744073709551616
      → validate_counters (taken_over b command hash) ≡ ok tt
  unfolding validate_counters validate_lease taken_over
  takeover_counters b command hash t h k small young = ground arith

  takeover_lease :
      (b : RuntimeBinding) (command : TakeoverCommand) (hash : String)
      → Takes b command
      → validate_lease b ≡ ok tt
      → valid_digest hash ≡ true
      → validate_lease (taken_over b command hash) ≡ ok tt
  unfolding validate_lease taken_over validate_identity binding_state_eq binding_state_terminal
  takeover_lease b command hash t h d = ground (arith, t.live)

  takeover_state :
      (b : RuntimeBinding) (command : TakeoverCommand) (hash : String)
      → Takes b command
      → validate_binding_state b ≡ ok tt
      → validate_binding_state (taken_over b command hash) ≡ ok tt
  unfolding validate_binding_state taken_over binding_state_eq binding_state_terminal
      observed_state_eq
  takeover_state b command hash t h = ground (arith, t.live)

  takeover-valid :
      (b : RuntimeBinding) (command : TakeoverCommand) (hash : String)
      → check_takeover c b command ≡ ok tt
      → valid_digest hash ≡ true
      → b.revision + 1 < 18446744073709551616
      → b.generation + 1 < 18446744073709551616
      → validate_binding c (taken_over b command hash) ≡ ok tt
  unfolding validate_binding_refs taken_over validate_observation validate_binding_failure
  takeover-valid b command hash h hashed small young =
      let t = takeover_facts b command h in
      let v = parts b t.valid in
      whole (taken_over b command hash) (record {
        refs = v.refs;
        kinds = takeover_kinds b command hash v.kinds;
        ownership = v.ownership;
        counters = takeover_counters b command hash t v.counters v.lease small young;
        lease = takeover_lease b command hash t v.lease hashed;
        state = takeover_state b command hash t v.state;
        observation = refl;
        external = v.external;
        failure = refl;
      })

  BindingChange-valid :
      {b m : RuntimeBinding}
      → ((s : String) → valid_digest ("sha256:" ++ c.sha256_hex s) ≡ true)
      → b.revision + 1 < 18446744073709551616
      → b.generation + 1 < 18446744073709551616
      → BindingChange c b m
      → validate_binding c m ≡ ok tt
  BindingChange-valid hex small young (BindingChange.observed_by command h valid e) = valid
  BindingChange-valid {b} hex small young (BindingChange.beaten_by command h e) =
      rw e (heartbeat-valid b command h small)
  BindingChange-valid {b} hex small young (BindingChange.taken_by command hash h hashed e) = rw e (
      takeover-valid b command hash h (hashed_token command.lease_token hash hex hashed) small
        young)
  BindingChange-valid hex small young (BindingChange.begun_by command h valid e) = valid
  BindingChange-valid hex small young (BindingChange.finished_by command h valid e) = valid

  -- Every accepted operation leaves a well-formed binding, also a heartbeat and a takeover, which do
  -- not validate what they build: given that the digests of the hash are well-formed and that the
  -- revision and the generation do not reach the limit of 64 bits.
  pub BindingStep-valid :
      {b m : RuntimeBinding}
      → ((s : String) → valid_digest ("sha256:" ++ c.sha256_hex s) ≡ true)
      → b.revision + 1 < 18446744073709551616
      → b.generation + 1 < 18446744073709551616
      → BindingStep c b m
      → validate_binding c m ≡ ok tt
  BindingStep-valid hex small young s =
      BindingChange-valid hex small young (BindingStep-BindingChange c s)
