-- ===== src/Runtime/Operations.antt =====
-- kernel/runtime/runtime.go: the operations on a binding.
use Prim.Native.String.{◌++◌}
use xgc2_orchestration_core.Base.{
  ℕ, String, Bool, true, false, ◌&&◌, ◌||◌, not, Option, none, some, List, [], ◌∷◌, leb, ◌==◌, ◌is◌,
  Result, ok, invalid, invalid_transition, revision_conflict, fence_conflict, lease_conflict, ◌>>=◌,
  ◌>>◌, require, refuse, Time, no_time, is_zero, before, after, u64_inc, if◌then◌else◌,
}
use xgc2_orchestration_core.Contracts.Identity.{valid_type_ref, valid_digest}
use xgc2_orchestration_core.Contracts.Json.{Json, Fields, field, num, Canonical}
use xgc2_orchestration_core.Contracts.Statuses.{DurableIntentKind}
use xgc2_orchestration_core.Contracts.Records.{StructuredFailure, DomainEvent, DurableIntent}
use xgc2_orchestration_core.Contracts.Runtimes.{
  EffectOwnership, effect_ownership_valid, effect_ownership_name, RuntimeBindingState,
  binding_state_eq, binding_state_terminal, binding_state_name, RuntimeObservedState,
  observed_state_eq, observed_state_valid, observed_state_name, RuntimeHealth, runtime_health_valid,
  RuntimeCleanupPolicy, cleanup_policy_valid, RuntimeBinding,
}
use xgc2_orchestration_core.Execution.Identity.{
  validate_identity, validate_identities, private_token_digest, or_empty,
}
use xgc2_orchestration_core.Runtime.Validation.{
  BindingFence, owned, stable_binding_id, validate_binding, validate_fence, validate_external,
  validate_observation_failure, validate_ownership, names_binding, observation_digest,
  new_binding_event, new_binding_intent,
}

pub record PrepareBindingCommand : Type 0 where
  pub binding_id : String
  pub namespace_id : String
  pub run_id : String
  pub invocation_id : String
  pub node_id : String
  pub runtime_key : String
  pub kind : String
  pub spec_digest : String
  pub provider_ref : String
  pub provider_digest : String
  pub ownership : EffectOwnership
  pub cleanup_policy : RuntimeCleanupPolicy
  pub generation : ℕ
  pub fencing_token : ℕ
  pub lease_owner : String
  pub lease_token : String
  pub lease_expires_at : Time
  pub command_id : String
  pub at : Time

pub record ObserveCommand : Type 0 where
  pub fence : BindingFence
  pub external_identity : String
  pub observed_state : RuntimeObservedState
  pub health : RuntimeHealth
  pub observation_digest : String
  pub failure : Option StructuredFailure
  pub command_id : String

pub record HeartbeatCommand : Type 0 where
  pub fence : BindingFence
  pub lease_expires_at : Time
  pub command_id : String

pub record TakeoverCommand : Type 0 where
  pub binding_id : String
  pub expected_revision : ℕ
  pub generation : ℕ
  pub fencing_token : ℕ
  pub lease_owner : String
  pub lease_token : String
  pub lease_expires_at : Time
  pub command_id : String
  pub at : Time

pub record ReleaseCommand : Type 0 where
  pub fence : BindingFence
  pub command_id : String

pub record BindingDecision : Type 0 where
  pub binding : RuntimeBinding
  pub events : List DomainEvent
  pub intents : List DurableIntent

unfoldable pub prepared : PrepareBindingCommand → String → RuntimeBinding
prepared command lease_hash = record {
  binding_id = command.binding_id;
  namespace_id = command.namespace_id;
  run_id = command.run_id;
  invocation_id = command.invocation_id;
  node_id = command.node_id;
  runtime_key = command.runtime_key;
  kind = command.kind;
  spec_digest = command.spec_digest;
  provider_ref = command.provider_ref;
  provider_digest = command.provider_digest;
  ownership = command.ownership;
  cleanup_policy = command.cleanup_policy;
  state = RuntimeBindingState.preparing;
  observed_state = RuntimeObservedState.unknown;
  health = RuntimeHealth.unknown;
  external_identity = "";
  generation = command.generation;
  fencing_token = command.fencing_token;
  lease_owner = command.lease_owner;
  lease_token_hash = lease_hash;
  lease_expires_at = command.lease_expires_at;
  observation_digest = "";
  observation_at = none;
  primary_failure = none;
  created_at = command.at;
  activated_at = none;
  release_started_at = none;
  finished_at = none;
  updated_at = command.at;
  revision = 1;
}

-- `clearLease`.
unfoldable pub clear_lease : RuntimeBinding → RuntimeBinding
clear_lease b = record b { lease_owner = ""; lease_token_hash = ""; lease_expires_at = no_time }

-- The binding after an observation, before a lost one ends it.
unfoldable pub observed : RuntimeBinding → ObserveCommand → RuntimeBinding
observed b command =
    let activates =
      binding_state_eq b.state RuntimeBindingState.preparing
      && observed_state_eq command.observed_state RuntimeObservedState.running in
    record b {
      external_identity = command.external_identity;
      observed_state = command.observed_state;
      health = command.health;
      observation_digest = command.observation_digest;
      observation_at = some command.fence.at;
      primary_failure = command.failure;
      updated_at = command.fence.at;
      revision = u64_inc b.revision;
      state = if activates then RuntimeBindingState.active else b.state;
      activated_at = if activates then some command.fence.at else b.activated_at;
    }

unfoldable pub lose : RuntimeBinding → Time → RuntimeBinding
unfolding clear_lease
lose b at = clear_lease (record b {
  state = RuntimeBindingState.lost;
  health = RuntimeHealth.lost;
  finished_at = some at;
})

unfoldable pub observed_binding : RuntimeBinding → ObserveCommand → RuntimeBinding
unfolding observed lose
observed_binding b command =
    if observed_state_eq command.observed_state RuntimeObservedState.lost
    then lose (observed b command) command.fence.at
    else observed b command

unfoldable pub heartbeat_binding : RuntimeBinding → HeartbeatCommand → RuntimeBinding
heartbeat_binding b command = record b {
  lease_expires_at = command.lease_expires_at;
  updated_at = command.fence.at;
  revision = u64_inc b.revision;
}

unfoldable pub taken_over : RuntimeBinding → TakeoverCommand → String → RuntimeBinding
taken_over b command lease_hash = record b {
  generation = command.generation;
  fencing_token = command.fencing_token;
  lease_owner = command.lease_owner;
  lease_token_hash = lease_hash;
  lease_expires_at = command.lease_expires_at;
  observed_state = RuntimeObservedState.unknown;
  health = RuntimeHealth.unknown;
  observation_digest = "";
  observation_at = none;
  primary_failure = none;
  state =
      if binding_state_eq b.state RuntimeBindingState.active
      then RuntimeBindingState.preparing
      else b.state;
  updated_at = command.at;
  revision = u64_inc b.revision;
}

unfoldable pub releasing : RuntimeBinding → Time → RuntimeBinding
unfolding clear_lease
releasing b at =
    let next = record b {
      updated_at = at;
      revision = u64_inc b.revision;
      release_started_at = some at;
    } in
    if owned b
    then record next { state = RuntimeBindingState.stopping }
    else clear_lease (record next { state = RuntimeBindingState.released; finished_at = some at })

unfoldable pub released : RuntimeBinding → Time → RuntimeBinding
unfolding clear_lease
released b at = clear_lease (record b {
  state = RuntimeBindingState.released;
  updated_at = at;
  revision = u64_inc b.revision;
  finished_at = some at;
})

-- The payload of a takeover and of a cleanup.
abbrev binding_payload : RuntimeBinding → Fields
binding_payload b = field "bindingId" (Json.text b.binding_id) (
    field "generation" (num b.generation) (
      field "fencingToken" (num b.fencing_token)
        (field "externalIdentity" (Json.text b.external_identity) Fields.end)))

abbrev fence_fields : RuntimeBinding → Fields → Fields
fence_fields b rest =
    field "generation" (num b.generation) (field "fencingToken" (num b.fencing_token) rest)

module _ (c : Canonical) where
  unfoldable pub validate_prepare : PrepareBindingCommand → Result (Unit {0})
  validate_prepare command = do
    validate_identities (
        command.binding_id ∷ command.namespace_id ∷ command.run_id ∷ command.invocation_id
        ∷ command.node_id ∷ command.runtime_key ∷ command.provider_ref ∷ command.lease_owner
        ∷ command.command_id ∷ [])
    require
        (valid_type_ref command.kind
          && valid_digest command.spec_digest
          && valid_digest command.provider_digest)
        (invalid "runtime kind, spec digest, or provider digest")
    refuse
        (not (effect_ownership_valid command.ownership)
          || not (cleanup_policy_valid command.cleanup_policy)
          || not (command.generation == 1)
          || command.fencing_token == 0
          || is_zero command.at
          || not (after command.lease_expires_at command.at))
        (invalid "runtime initial ownership, cleanup, generation, fence, or time")
    validate_ownership command.ownership command.cleanup_policy
    private_token_digest c command.lease_token >>= λ hash. ok tt

  unfoldable pub prepare : PrepareBindingCommand → Result BindingDecision
  prepare command = do
    validate_prepare command
    require
        (command.binding_id
          is or_empty (stable_binding_id c command.invocation_id command.runtime_key))
        (invalid "runtime binding stable identity")
    lease_hash ← private_token_digest c command.lease_token
    let binding = prepared command lease_hash
    validate_binding c binding
    event ←
        new_binding_event c binding "runtime.preparing" command.command_id command.at
          (fence_fields binding (field "specDigest" (Json.text binding.spec_digest) Fields.end))
    ok (record { binding = binding; events = event ∷ []; intents = [] })

  unfoldable pub check_observe : RuntimeBinding → ObserveCommand → Result (Unit {0})
  check_observe current command = do
    validate_binding c current
    validate_fence c current command.fence
    validate_identity command.command_id "runtime observation command id"
    require
        (observed_state_valid command.observed_state
          && runtime_health_valid command.health
          && valid_digest command.observation_digest)
        (invalid "runtime observation state, health, or digest")
    refuse (binding_state_terminal current.state) invalid_transition
    refuse
        (command.external_identity is ""
          && not (observed_state_eq command.observed_state RuntimeObservedState.unknown)
          && not (observed_state_eq command.observed_state RuntimeObservedState.lost))
        (invalid "concrete runtime observation requires external identity")
    validate_external command.external_identity
    require
        (names_binding
          (observation_digest c current.binding_id current.generation current.fencing_token
            command.external_identity command.observed_state command.health command.failure)
          command.observation_digest)
        (invalid "runtime observation digest")
    validate_observation_failure command.observed_state command.failure

  unfoldable pub observe : RuntimeBinding → ObserveCommand → Result BindingDecision
  observe current command = do
    check_observe current command
    let next = observed_binding current command
    validate_binding c next
    event ←
        new_binding_event c next ("runtime.observed." ++ observed_state_name command.observed_state)
          command.command_id command.fence.at
          (fence_fields next
            (field "observationDigest" (Json.text next.observation_digest) Fields.end))
    ok (record { binding = next; events = event ∷ []; intents = [] })

  unfoldable pub check_binding_heartbeat : RuntimeBinding → HeartbeatCommand → Result (Unit {0})
  check_binding_heartbeat current command = do
    validate_binding c current
    validate_fence c current command.fence
    require (after command.lease_expires_at current.lease_expires_at) lease_conflict
    validate_identity command.command_id "runtime heartbeat command id"

  -- The next binding is not validated again.
  unfoldable pub heartbeat : RuntimeBinding → HeartbeatCommand → Result BindingDecision
  heartbeat current command = do
    check_binding_heartbeat current command
    let next = heartbeat_binding current command
    event ←
        new_binding_event c next "runtime.heartbeat" command.command_id command.fence.at
          (fence_fields next (field "leaseExpiresAt" (Json.time next.lease_expires_at) Fields.end))
    ok (record { binding = next; events = event ∷ []; intents = [] })

  unfoldable pub check_takeover : RuntimeBinding → TakeoverCommand → Result (Unit {0})
  check_takeover current command = do
    validate_binding c current
    require
        (command.binding_id is current.binding_id && command.expected_revision == current.revision)
        revision_conflict
    refuse
        (binding_state_terminal current.state
          || is_zero command.at
          || before command.at current.lease_expires_at
          || not (command.generation == u64_inc current.generation)
          || leb command.fencing_token current.fencing_token
          || not (after command.lease_expires_at command.at))
        fence_conflict
    validate_identity command.lease_owner "takeover lease owner"
    validate_identity command.command_id "takeover command id"

  -- The next binding is not validated again.
  unfoldable pub takeover : RuntimeBinding → TakeoverCommand → Result BindingDecision
  takeover current command = do
    check_takeover current command
    lease_hash ← private_token_digest c command.lease_token
    let next = taken_over current command lease_hash
    intent ← new_binding_intent c DurableIntentKind.reconcile next (binding_payload next)
    event ←
        new_binding_event c next "runtime.taken-over" command.command_id command.at
          (binding_payload next)
    ok (record { binding = next; events = event ∷ []; intents = intent ∷ [] })

  unfoldable pub check_begin_release : RuntimeBinding → ReleaseCommand → Result (Unit {0})
  check_begin_release current command = do
    validate_binding c current
    validate_fence c current command.fence
    validate_identity command.command_id "runtime release command id"
    require
        (binding_state_eq current.state RuntimeBindingState.active
          || binding_state_eq current.state RuntimeBindingState.preparing)
        invalid_transition

  -- The cleanup intent of an owned runtime.
  unfoldable pub release_intents : RuntimeBinding → Bool → Result (List DurableIntent)
  release_intents next true = do
    intent ← new_binding_intent c DurableIntentKind.cleanup next (binding_payload next)
    ok (intent ∷ [])
  release_intents next false = ok []

  unfoldable pub begin_release : RuntimeBinding → ReleaseCommand → Result BindingDecision
  begin_release current command = do
    check_begin_release current command
    let next = releasing current command.fence.at
    intents ← release_intents next (owned current)
    validate_binding c next
    event ←
        new_binding_event c next ("runtime." ++ binding_state_name next.state) command.command_id
          command.fence.at
          (fence_fields current
            (field "ownership" (Json.text (effect_ownership_name current.ownership)) Fields.end))
    ok (record { binding = next; events = event ∷ []; intents = intents })

  unfoldable pub check_finish_release : RuntimeBinding → ReleaseCommand → Result (Unit {0})
  check_finish_release current command = do
    validate_binding c current
    validate_fence c current command.fence
    validate_identity command.command_id "runtime release completion command id"
    require
        (binding_state_eq current.state RuntimeBindingState.stopping
          && owned current
          && observed_state_eq current.observed_state RuntimeObservedState.stopped)
        invalid_transition

  unfoldable pub finish_release : RuntimeBinding → ReleaseCommand → Result BindingDecision
  finish_release current command = do
    check_finish_release current command
    let next = released current command.fence.at
    validate_binding c next
    event ← new_binding_event c next "runtime.released" command.command_id command.fence.at (
        fence_fields current
          (field "observationDigest" (Json.text current.observation_digest) Fields.end))
    ok (record { binding = next; events = event ∷ []; intents = [] })
