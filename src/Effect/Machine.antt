-- ===== src/Effect/Machine.antt =====
-- The state machine that the operations on an effect implement: what the pair of its primary and its
-- compensation state can be, and how it moves.
use xgc2_orchestration_core.Base.{Bool, true, false, ◌≡◌}
use xgc2_orchestration_core.Contracts.EffectStates.{
  EffectState, EffectCompensationState, effect_compensation_eq,
}

-- Only an applied effect compensates, and only a canceled one has canceled it before.
unfoldable pub fits : EffectState → EffectCompensationState → Bool
fits EffectState.applied k = true
fits EffectState.canceled EffectCompensationState.canceled = true
fits EffectState.canceled k = effect_compensation_eq k EffectCompensationState.not_required
fits s EffectCompensationState.unscheduled = true
fits s k = effect_compensation_eq k EffectCompensationState.not_required

-- The moves of the primary state.
unfoldable pub primary_move : EffectState → EffectState → Bool
primary_move EffectState.prepared EffectState.applying = true
primary_move EffectState.failed EffectState.applying = true
primary_move EffectState.applying EffectState.applying = true
primary_move EffectState.applying EffectState.applied = true
primary_move EffectState.applying EffectState.failed = true
primary_move EffectState.applying EffectState.uncertain = true
primary_move EffectState.uncertain EffectState.uncertain = true
primary_move s t = false

-- The moves of the compensation of an applied effect.
unfoldable pub compensation_move : EffectCompensationState → EffectCompensationState → Bool
compensation_move EffectCompensationState.unscheduled EffectCompensationState.pending = true
compensation_move EffectCompensationState.unscheduled EffectCompensationState.canceled = true
compensation_move EffectCompensationState.pending EffectCompensationState.running = true
compensation_move EffectCompensationState.pending EffectCompensationState.canceled = true
compensation_move EffectCompensationState.running EffectCompensationState.running = true
compensation_move EffectCompensationState.running EffectCompensationState.succeeded = true
compensation_move EffectCompensationState.running EffectCompensationState.retry_wait = true
compensation_move EffectCompensationState.running EffectCompensationState.failed = true
compensation_move EffectCompensationState.running EffectCompensationState.canceled = true
compensation_move EffectCompensationState.retry_wait EffectCompensationState.running = true
compensation_move EffectCompensationState.retry_wait EffectCompensationState.failed = true
compensation_move EffectCompensationState.retry_wait EffectCompensationState.canceled = true
compensation_move EffectCompensationState.retry_wait EffectCompensationState.reconciled = true
compensation_move EffectCompensationState.failed EffectCompensationState.reconciled = true
compensation_move EffectCompensationState.canceled EffectCompensationState.reconciled = true
compensation_move k l = false

-- A move of the pair: a prepared effect is canceled with its compensation, if it has one; else the
-- primary state moves and the compensation waits; else an applied effect compensates.
pub data EffectMove
    : EffectState → EffectCompensationState → EffectState → EffectCompensationState → Type 0 where
  cancel :
      EffectMove EffectState.prepared EffectCompensationState.not_required EffectState.canceled
        EffectCompensationState.not_required
  cancel_owned :
      EffectMove EffectState.prepared EffectCompensationState.unscheduled EffectState.canceled
        EffectCompensationState.canceled
  primary :
      {s t : EffectState} {k : EffectCompensationState}
      → primary_move s t ≡ true
      → EffectMove s k t k
  compensation :
      {k l : EffectCompensationState}
      → compensation_move k l ≡ true
      → EffectMove EffectState.applied k EffectState.applied l
