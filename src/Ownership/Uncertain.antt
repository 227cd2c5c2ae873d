-- ===== src/Ownership/Uncertain.antt =====
-- An effect that ended uncertain, and the closure of the Run that owns it.
use xgc2_orchestration_core.Base.{
  ℕ, true, false, ◌≡◌, ◌≢◌, ◌<◌, ◌∙◌, List, [], ◌∷◌, ◌++◌, refl, ok, arith,
}
use xgc2_orchestration_core.Contracts.Json.{Canonical}
use xgc2_orchestration_core.Contracts.EffectStates.{
  EffectState, effect_state_eq, effect_state_terminal,
}
use xgc2_orchestration_core.Contracts.Effects.{EffectRecord}
use xgc2_orchestration_core.Contracts.Records.{RunClosureFacts}
use xgc2_orchestration_core.Contracts.Ownership.{OwnershipGraph}
use xgc2_orchestration_core.Effect.Outcomes.{can_begin}
use xgc2_orchestration_core.Effect.Steps.{EffectReach}
use xgc2_orchestration_core.Effect.Frozen.{reported, EffectReach-SameOutcome}
use xgc2_orchestration_core.Ownership.Facts.{effect_open}
use xgc2_orchestration_core.Ownership.Graph.{closure_facts}
use xgc2_orchestration_core.Ownership.Quiet.{size, quiet, none_of}
use xgc2_orchestration_core.Ownership.Terminal.{closure_facts-ClosedBy}

none_of-split :
    (before : List EffectRecord) (r : EffectRecord) (after : List EffectRecord)
    → effect_open r ≡ true
    → none_of effect_open (before ++ r ∷ after) ≡ false
unfolding none_of
none_of-split [] r after o = rw o refl
none_of-split (x ∷ before) r after o = ground (arith, none_of-split before r after o)

module _ (c : Canonical) where
  still_uncertain :
      {b m : EffectRecord} {n : ℕ}
      → b.state ≡ EffectState.uncertain
      → EffectReach c b n m
      → m.state ≡ EffectState.uncertain
  unfolding reported can_begin effect_state_eq effect_state_terminal
  still_uncertain u r = (EffectReach-SameOutcome c (rw u refl) r).state ∙ u

  -- An uncertain effect keeps its Run from closing for good: whatever operations on it are accepted, a
  -- request for its reconciliation included, no record of a closure is accepted that has it among
  -- the effects of the Run; provided that the Run owns fewer than 2^64 things.
  pub uncertain-closure_facts :
      {b m : EffectRecord} {n : ℕ} (graph : OwnershipGraph) (before after : List EffectRecord)
      {facts : RunClosureFacts}
      → b.state ≡ EffectState.uncertain
      → EffectReach c b n m
      → graph.closure_base.effects ≡ before ++ m ∷ after
      → size graph.closure_base < 18446744073709551616
      → closure_facts c graph ≢ ok facts
  unfolding quiet effect_state_eq effect_state_terminal
  uncertain-closure_facts {m = m} graph before after u r owned small h =
      let closed = closure_facts-ClosedBy c graph small h in
      let unsettled : effect_open m ≡ true = rw (still_uncertain u r) refl in
      ground (arith, closed.owns_nothing, owned, none_of-split before m after unsettled)
