-- ===== src/Effect/Moves.antt =====
-- Every accepted operation on an effect is a move of its state machine.
use xgc2_orchestration_core.Base.{true, false, ◌≡◌, ◌∙◌, refl, ◌⊎◌, inl, inr, ok, arith, Bool-cases}
use xgc2_orchestration_core.Contracts.Json.{Canonical}
use xgc2_orchestration_core.Contracts.EffectStates.{
  EffectState, effect_state_eq, EffectCompensationState, effect_compensation_eq,
}
use xgc2_orchestration_core.Contracts.Effects.{EffectRecord, CommandLedger}
use xgc2_orchestration_core.Effect.Records.{
  is_compensated, validate_compensation_fields, validate_effect_compensation, validate_record,
}
use xgc2_orchestration_core.Effect.Commands.{
  BeginCommand, ObserveReceiptCommand, ReconcileCommand, CancelPreparedCommand, CompensationCommand,
  ObserveCompensationCommand, ReconcileCompensationCommand,
}
use xgc2_orchestration_core.Effect.Outcomes.{
  canceled_effect, begun_effect, received, received_effect, reconciling_effect, can_begin,
}
use xgc2_orchestration_core.Effect.Primary.{
  check_cancel_prepared, check_begin, check_receipt_observation, check_reconciliation,
}
use xgc2_orchestration_core.Effect.Remedies.{
  compensation_allowed, validate_effect_compensation_transition, start_compensation,
  compensated_effect, compensation_received, compensation_received_effect, reconciled_effect,
}
use xgc2_orchestration_core.Effect.Compensation.{
  check_effect_compensation, check_compensation_observation, check_compensation_reconciliation,
}
use xgc2_orchestration_core.Effect.Steps.{EffectChange}
use xgc2_orchestration_core.Effect.Machine.{fits, primary_move, compensation_move, EffectMove}

effect_state_eq-eq : (s t : EffectState) → effect_state_eq s t ≡ true → s ≡ t
unfolding effect_state_eq
effect_state_eq-eq s t h = ground arith

applied_move :
    (b m : EffectRecord)
    → b.state ≡ EffectState.applied
    → m.state ≡ EffectState.applied
    → compensation_move b.compensation_state m.compensation_state ≡ true
    → EffectMove b.state b.compensation_state m.state m.compensation_state
applied_move b m from to h = rw (from, to) (EffectMove.compensation h)

primary_moves :
    (b m : EffectRecord)
    → m.compensation_state ≡ b.compensation_state
    → primary_move b.state m.state ≡ true
    → EffectMove b.state b.compensation_state m.state m.compensation_state
primary_moves b m same h = rw same (EffectMove.primary h)

allowed_move :
    (k l : EffectCompensationState) → compensation_allowed k l ≡ true → compensation_move k l ≡ true
unfolding compensation_allowed compensation_move
allowed_move k l h = ground arith

module _ (c : Canonical) where
  prepared_compensation :
      (b : EffectRecord)
      → validate_record c b ≡ ok tt
      → b.state ≡ EffectState.prepared
      → fits b.state b.compensation_state ≡ true
      → ((is_compensated b ≡ false) × (b.compensation_state ≡ EffectCompensationState.not_required))
        ⊎ ((is_compensated b ≡ true) × (b.compensation_state ≡ EffectCompensationState.unscheduled))
  unfolding validate_record validate_effect_compensation validate_compensation_fields fits
      effect_compensation_eq
  prepared_compensation b valid s f = elim (Bool-cases (is_compensated b)) [
    | inl required ↦ inr (required, ground arith)
    | inr free ↦ inl (free, ground arith)
  ]

  begun_move :
      (b : EffectRecord) (command : BeginCommand)
      → check_begin c b command ≡ ok tt
      → primary_move b.state EffectState.applying ≡ true
  unfolding check_begin can_begin effect_state_eq primary_move
  begun_move b command h = ground arith

  received_move :
      (b : EffectRecord) (ledger : CommandLedger) (command : ObserveReceiptCommand)
      → check_receipt_observation c b ledger command ≡ ok tt
      → primary_move b.state (received_effect b command.receipt).state ≡ true
  unfolding check_receipt_observation effect_state_eq primary_move received_effect received
  received_move b ledger command h = ground arith

  requested_move :
      (b : EffectRecord) (command : ReconcileCommand)
      → check_reconciliation c b command ≡ ok tt
      → primary_move b.state b.state ≡ true
  unfolding check_reconciliation effect_state_eq primary_move
  requested_move b command h = ground arith

  compensated_applied :
      (b : EffectRecord) (command : CompensationCommand)
      → check_effect_compensation c b command ≡ ok tt
      → (b.state ≡ EffectState.applied)
        × (compensation_allowed b.compensation_state command.to ≡ true)
  unfolding check_effect_compensation validate_effect_compensation_transition effect_state_eq
  compensated_applied b command h = ground arith

  compensated_state :
      (b : EffectRecord) (command : CompensationCommand)
      → ((compensated_effect b command).state ≡ b.state)
        × ((compensated_effect b command).compensation_state ≡ command.to)
  unfolding compensated_effect start_compensation
  compensated_state b command = ground arith

  compensation_received_moves :
      (b : EffectRecord) (ledger : CommandLedger) (command : ObserveCompensationCommand)
      → check_compensation_observation c b ledger command ≡ ok tt
      → (b.state ≡ EffectState.applied)
        × ((compensation_received_effect b command.receipt).state ≡ EffectState.applied)
        × (compensation_move b.compensation_state
              (compensation_received_effect b command.receipt).compensation_state
            ≡ true)
  unfolding check_compensation_observation compensation_received_effect compensation_received
      compensation_move effect_state_eq effect_compensation_eq
  compensation_received_moves b ledger command h = ground arith

  reconciled_moves :
      (b : EffectRecord) (command : ReconcileCompensationCommand)
      → check_compensation_reconciliation c b command ≡ ok tt
      → (b.state ≡ EffectState.applied)
        × (compensation_move b.compensation_state EffectCompensationState.reconciled ≡ true)
  unfolding check_compensation_reconciliation compensation_move effect_state_eq
      effect_compensation_eq
  reconciled_moves b command h = ground arith

  canceled_moves :
      (b : EffectRecord) (command : CancelPreparedCommand)
      → check_cancel_prepared c b command ≡ ok tt
      → (b.state ≡ EffectState.prepared) × (validate_record c b ≡ ok tt)
  unfolding check_cancel_prepared effect_state_eq
  canceled_moves b command h = ground arith

  canceled_move :
      (b : EffectRecord) (command : CancelPreparedCommand)
      → check_cancel_prepared c b command ≡ ok tt
      → fits b.state b.compensation_state ≡ true
      → EffectMove b.state b.compensation_state EffectState.canceled
          (canceled_effect b command).compensation_state
  unfolding canceled_effect
  canceled_move b command h f =
      let (prepared, valid) = canceled_moves b command h in
      elim (prepared_compensation b valid prepared f) [
        | inl (free, waits) ↦ rw (prepared, free, waits) EffectMove.cancel
        | inr (required, waits) ↦ rw (prepared, required, waits) EffectMove.cancel_owned
      ]

  pub EffectChange-EffectMove :
      {b m : EffectRecord}
      → fits b.state b.compensation_state ≡ true
      → EffectChange c b m
      → EffectMove b.state b.compensation_state m.state m.compensation_state
  EffectChange-EffectMove {b} f (EffectChange.canceled_by command h valid e) =
      rw e (unfold canceled_effect in canceled_move b command h f)
  EffectChange-EffectMove {b} {m} f (EffectChange.begun_by command h valid e) =
      primary_moves b m (rw e (unfold begun_effect in refl))
        (rw e (unfold begun_effect in begun_move b command h))
  EffectChange-EffectMove {b} {m} f (EffectChange.received_by ledger command h valid e) =
      primary_moves b m (rw e (unfold received_effect received in ground arith))
        (rw e (received_move b ledger command h))
  EffectChange-EffectMove {b} {m} f (EffectChange.requested_by command h e) =
      primary_moves b m (rw e (unfold reconciling_effect in refl))
        (rw e (unfold reconciling_effect in requested_move b command h))
  EffectChange-EffectMove {b} {m} f (EffectChange.compensated_by command h valid e) =
      let (applied, allowed) = compensated_applied b command h in
      let (kept, moved) = compensated_state b command in
      applied_move b m applied (rw e (kept ∙ applied))
        (rw (e, moved) (allowed_move b.compensation_state command.to allowed))
  EffectChange-EffectMove {b} {m} f
        (EffectChange.compensation_received_by ledger command h valid e) =
      let (applied, kept, moved) = compensation_received_moves b ledger command h in
      applied_move b m applied (rw e kept) (rw e moved)
  EffectChange-EffectMove {b} {m} f (EffectChange.reconciled_by command h valid e) =
      let (applied, moved) = reconciled_moves b command h in
      applied_move b m applied (rw e (unfold reconciled_effect in applied))
        (rw e (unfold reconciled_effect in moved))

fits_primary :
    (s t : EffectState) (k : EffectCompensationState)
    → fits s k ≡ true
    → primary_move s t ≡ true
    → fits t k ≡ true
unfolding fits primary_move effect_compensation_eq
fits_primary s t k f h = ground arith

-- A move keeps what the pair of states can be.
pub EffectMove-fits :
    {s t : EffectState} {k l : EffectCompensationState}
    → EffectMove s k t l
    → fits s k ≡ true
    → fits t l ≡ true
EffectMove-fits EffectMove.cancel f = unfold fits effect_compensation_eq in refl
EffectMove-fits EffectMove.cancel_owned f = unfold fits in refl
EffectMove-fits {s} {t} {k} (EffectMove.primary h) f = fits_primary s t k f h
EffectMove-fits (EffectMove.compensation h) f = unfold fits in refl
