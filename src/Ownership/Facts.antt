-- ===== src/Ownership/Facts.antt =====
-- kernel/ownership/closure.go: `DeriveClosureFacts`, the count of what a Run still owns.
use xgc2_orchestration_core.Base.{
  ℕ, String, Bool, false, ◌&&◌, ◌||◌, not, Option, none, some, List, [], ◌∷◌, ◌==◌, ◌is◌, Result,
  ok, invalid, ◌>>=◌, ◌>>◌, require, refuse, u64_inc, if◌then◌else◌,
}
use xgc2_orchestration_core.Contracts.Identity.{valid_identifier}
use xgc2_orchestration_core.Contracts.Json.{Canonical}
use xgc2_orchestration_core.Contracts.Statuses.{
  InvocationStatus, invocation_status_eq, invocation_status_terminal, compensation_status_terminal,
  attempt_status_terminal, run_status_terminal,
}
use xgc2_orchestration_core.Contracts.Records.{
  Run, ParentRunLink, Invocation, Attempt, InvocationLedger, RunClosureFacts,
}
use xgc2_orchestration_core.Contracts.Runtimes.{
  EffectOwnership, effect_ownership_eq, effect_ownership_valid, RuntimeBinding,
  binding_state_terminal,
}
use xgc2_orchestration_core.Contracts.EffectStates.{
  CompensationPolicy, EffectState, effect_state_eq, effect_state_terminal,
  effect_compensation_terminal, closes_required,
}
use xgc2_orchestration_core.Contracts.Effects.{EffectRecord}
use xgc2_orchestration_core.Contracts.Ownership.{
  resource_state_valid, resource_state_terminal, ResourceOwnershipFact, OwnershipClosureBase,
}
use xgc2_orchestration_core.Execution.Run.Validation.{validate_run}
use xgc2_orchestration_core.Execution.Invocation.Validation.{validate_invocation_ledger}
use xgc2_orchestration_core.Effect.Records.{validate_record}
use xgc2_orchestration_core.Runtime.Validation.{validate_binding}

-- The facts so far, and the identities that are taken: of the map `seen` only the keys matter.
pub record Derivation : Type 0 where
  pub facts : RunClosureFacts
  pub seen : List String

unfoldable pub taken : List String → String → Bool
taken [] id = false
taken (s ∷ rest) id = s is id || taken rest id

-- `unique`, with the facts that are counted after it.
unfoldable pub claim_identity : Derivation → String → RunClosureFacts → Result Derivation
claim_identity st id facts = do
  refuse (taken st.seen id) (invalid "ownership identity is shared")
  ok (record { facts = facts; seen = id ∷ st.seen })

-- `if b { counter++ }`.
abbrev pub count_if : Bool → ℕ → ℕ
count_if b n = if b then u64_inc n else n

abbrev pub is_active : Invocation → Bool
is_active i =
    not (invocation_status_terminal i.status)
    || not (compensation_status_terminal i.compensation_status)

abbrev pub is_waiting : Invocation → Bool
is_waiting i = invocation_status_eq i.status InvocationStatus.waiting

unfoldable pub count_live : ℕ → List Attempt → ℕ
count_live n [] = n
count_live n (a ∷ rest) = count_live (count_if (not (attempt_status_terminal a.status)) n) rest

unfoldable pub count_invocation : RunClosureFacts → InvocationLedger → RunClosureFacts
unfolding count_live
count_invocation f l = record f {
  active_invocation_count = count_if (is_active l.invocation) f.active_invocation_count;
  open_wait_count = count_if (is_waiting l.invocation) f.open_wait_count;
  live_attempt_count = count_live f.live_attempt_count l.attempts;
}

abbrev pub child_open : Run → Bool
child_open child = not (run_status_terminal child.status)

unfoldable pub count_child : RunClosureFacts → Run → RunClosureFacts
count_child f child = record f { open_child_count = count_if (child_open child) f.open_child_count }

abbrev pub effect_open : EffectRecord → Bool
effect_open r = not (effect_state_terminal r.state) || effect_state_eq r.state EffectState.uncertain

-- The `switch` on the compensation policy.
unfoldable pub policy_open : EffectRecord → CompensationPolicy → Bool
policy_open r CompensationPolicy.required = not (closes_required r.compensation_state)
policy_open r CompensationPolicy.best_effort =
    not (effect_compensation_terminal r.compensation_state)
policy_open r _ = false

abbrev pub compensation_open : EffectRecord → Bool
compensation_open r =
    effect_state_eq r.state EffectState.applied
    && effect_ownership_eq r.intent.ownership EffectOwnership.owned
    && policy_open r r.intent.compensation_policy

unfoldable pub count_effect : RunClosureFacts → EffectRecord → RunClosureFacts
count_effect f r = record f {
  open_effect_count = count_if (effect_open r) f.open_effect_count;
  open_effect_compensation_count = count_if (compensation_open r) f.open_effect_compensation_count;
}

abbrev pub runtime_open : RuntimeBinding → Bool
runtime_open b =
    effect_ownership_eq b.ownership EffectOwnership.owned && not (binding_state_terminal b.state)

unfoldable pub count_runtime : RunClosureFacts → RuntimeBinding → RunClosureFacts
count_runtime f b = record f {
  open_owned_runtime_count = count_if (runtime_open b) f.open_owned_runtime_count;
}

abbrev pub resource_open : ResourceOwnershipFact → Bool
resource_open r =
    effect_ownership_eq r.ownership EffectOwnership.owned && not (resource_state_terminal r.state)

unfoldable pub count_resource : RunClosureFacts → ResourceOwnershipFact → RunClosureFacts
count_resource f r = record f {
  open_owned_resource_count = count_if (resource_open r) f.open_owned_resource_count;
}

abbrev pub is_child_of : Option ParentRunLink → Run → Run → Bool
is_child_of none child base = false
is_child_of (some parent) child base =
    parent.parent_run_id is base.run_id && child.root_run_id is base.root_run_id

unfoldable pub no_facts : Run → ℕ → RunClosureFacts
no_facts run graph_revision = record {
  run_revision = run.revision;
  ownership_graph_revision = graph_revision;
  active_invocation_count = 0;
  live_attempt_count = 0;
  open_wait_count = 0;
  open_child_count = 0;
  open_effect_count = 0;
  open_effect_compensation_count = 0;
  open_owned_runtime_count = 0;
  open_owned_resource_count = 0;
}

unfoldable pub no_derivation : Run → ℕ → Derivation
unfolding no_facts
no_derivation run graph_revision = record { facts = no_facts run graph_revision; seen = [] }

-- A loop whose body counts an item, or returns an error.
unfoldable pub derive_each {ℓ} :
    {A : Type ℓ} → (Derivation → A → Result Derivation) → Derivation → List A → Result Derivation
derive_each body st [] = ok st
derive_each body st (x ∷ xs) = do next ← body st x; derive_each body next xs

module _ (c : Canonical) (run : Run) where
  unfoldable pub derive_invocation : Derivation → InvocationLedger → Result Derivation
  derive_invocation st l = do
    validate_invocation_ledger c l
    require (l.invocation.run_id is run.run_id)
        (invalid "ownership graph invocation belongs to another run")
    claim_identity st l.invocation.invocation_id (count_invocation st.facts l)

  unfoldable pub derive_child : Derivation → Run → Result Derivation
  derive_child st child = do
    validate_run child
    require (is_child_of child.parent child run) (invalid "ownership graph child link")
    claim_identity st child.run_id (count_child st.facts child)

  unfoldable pub derive_effect : Derivation → EffectRecord → Result Derivation
  derive_effect st r = do
    validate_record c r
    require (r.intent.run_id is run.run_id)
        (invalid "ownership graph effect belongs to another run")
    claim_identity st r.effect_id (count_effect st.facts r)

  unfoldable pub derive_runtime : Derivation → RuntimeBinding → Result Derivation
  derive_runtime st b = do
    validate_binding c b
    require (b.run_id is run.run_id) (invalid "ownership graph runtime belongs to another run")
    claim_identity st b.binding_id (count_runtime st.facts b)

  unfoldable pub derive_resource : Derivation → ResourceOwnershipFact → Result Derivation
  derive_resource st r = do
    require
        (valid_identifier r.binding_id
          && r.run_id is run.run_id
          && effect_ownership_valid r.ownership
          && resource_state_valid r.state)
        (invalid "ownership graph resource fact")
    claim_identity st r.binding_id (count_resource st.facts r)

module _ (c : Canonical) where
  -- The five loops.
  unfoldable pub derive_owned : OwnershipClosureBase → Derivation → Result Derivation
  derive_owned base start = do
    invocations ← derive_each (derive_invocation c base.run) start base.invocations
    children ← derive_each (derive_child c base.run) invocations base.child_runs
    effects ← derive_each (derive_effect c base.run) children base.effects
    runtimes ← derive_each (derive_runtime c base.run) effects base.runtimes
    derive_each (derive_resource c base.run) runtimes base.resources

  unfoldable pub derive_closure_facts : OwnershipClosureBase → ℕ → Result RunClosureFacts
  derive_closure_facts base graph_revision = do
    refuse (graph_revision == 0) (invalid "ownership graph revision is required")
    validate_run base.run
    refuse (run_status_terminal base.run.status)
        (invalid "ownership graph closure-base run is already terminal")
    resources ← derive_owned base (no_derivation base.run graph_revision)
    ok resources.facts
