-- ===== src/Effect/Closing.antt =====
-- The operations on a prepared effect implement its state machine, and what that says of an effect that
-- is closed.
use xgc2_orchestration_core.Base.{ℕ, Bool, true, false, ◌||◌, ◌≡◌, ok, arith}
use xgc2_orchestration_core.Contracts.Json.{Canonical}
use xgc2_orchestration_core.Contracts.EffectStates.{
  EffectState, EffectCompensationState, effect_compensation_eq, closes_required,
}
use xgc2_orchestration_core.Contracts.Effects.{EffectRecord}
use xgc2_orchestration_core.Effect.Commands.{PrepareCommand, EffectDecision}
use xgc2_orchestration_core.Effect.Primary.{prepare_effect}
use xgc2_orchestration_core.Effect.Steps.{EffectStep, EffectStep-EffectChange, EffectReach}
use xgc2_orchestration_core.Effect.Machine.{fits, primary_move, compensation_move, EffectMove}
use xgc2_orchestration_core.Effect.Moves.{EffectChange-EffectMove, EffectMove-fits}
use xgc2_orchestration_core.Effect.Validity.{prepare_effect-SoundEffect}

-- Applied and either not to be compensated or closed by its compensation, or canceled.
unfoldable pub settled : EffectState → EffectCompensationState → Bool
settled EffectState.applied k =
    closes_required k || effect_compensation_eq k EffectCompensationState.not_required
settled EffectState.canceled k = true
settled s k = false

settled-EffectMove :
    {s t : EffectState} {k l : EffectCompensationState} → settled s k ≡ true → ¬ EffectMove s k t l
unfolding settled closes_required primary_move compensation_move effect_compensation_eq
settled-EffectMove closed EffectMove.cancel = ground arith
settled-EffectMove closed EffectMove.cancel_owned = ground arith
settled-EffectMove closed (EffectMove.primary h) = ground arith
settled-EffectMove closed (EffectMove.compensation h) = ground arith

module _ (c : Canonical) where
  EffectStep-EffectMove :
      {b : EffectRecord} {d : EffectDecision}
      → fits b.state b.compensation_state ≡ true
      → EffectStep c b d
      → EffectMove b.state b.compensation_state d.effect.state d.effect.compensation_state
  EffectStep-EffectMove f s = EffectChange-EffectMove c f (EffectStep-EffectChange c s)

  EffectReach-fits :
      {b m : EffectRecord} {n : ℕ}
      → fits b.state b.compensation_state ≡ true
      → EffectReach c b n m
      → fits m.state m.compensation_state ≡ true
  EffectReach-fits f EffectReach.here = f
  EffectReach-fits f (EffectReach.further r s) =
      EffectMove-fits (EffectStep-EffectMove (EffectReach-fits f r) s) (EffectReach-fits f r)

  -- The operations on a prepared effect implement its state machine: whichever is accepted next, the
  -- pair of the primary and the compensation state makes one of the moves of `EffectMove`.
  pub EffectReach-EffectMove :
      (command : PrepareCommand) {d e : EffectDecision} {l : EffectRecord} {n : ℕ}
      → prepare_effect c command ≡ ok d
      → EffectReach c d.effect n l
      → EffectStep c l e
      → EffectMove l.state l.compensation_state e.effect.state e.effect.compensation_state
  EffectReach-EffectMove command h r s =
      EffectStep-EffectMove (EffectReach-fits (prepare_effect-SoundEffect c command h).consistent r)
        s

  -- A settled effect is final: once an effect that was prepared and operated on is canceled, or is
  -- applied and either needs no compensation or has one that succeeded or is reconciled, no operation
  -- on it is accepted any more.
  pub settled_effect :
      (command : PrepareCommand) {d e : EffectDecision} {l : EffectRecord} {n : ℕ}
      → prepare_effect c command ≡ ok d
      → EffectReach c d.effect n l
      → settled l.state l.compensation_state ≡ true
      → ¬ EffectStep c l e
  settled_effect command h r closed s =
      settled-EffectMove closed (EffectReach-EffectMove command h r s)
