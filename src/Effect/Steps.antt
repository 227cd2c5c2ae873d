-- ===== src/Effect/Steps.antt =====
-- The accepted operations on an effect as steps, what each has checked and changed, and the records
-- that they lead to.
use xgc2_orchestration_core.Base.{ℕ, suc, ◌≡◌, ok, arith}
use xgc2_orchestration_core.Contracts.Json.{Canonical}
use xgc2_orchestration_core.Contracts.Effects.{EffectRecord, CommandLedger}
use xgc2_orchestration_core.Effect.Records.{validate_record}
use xgc2_orchestration_core.Effect.Commands.{
  BeginCommand, ObserveReceiptCommand, ReconcileCommand, CancelPreparedCommand, CompensationCommand,
  ObserveCompensationCommand, ReconcileCompensationCommand, EffectDecision,
}
use xgc2_orchestration_core.Effect.Outcomes.{
  canceled_effect, begun_effect, received_effect, reconciling_effect,
}
use xgc2_orchestration_core.Effect.Primary.{
  check_cancel_prepared, cancel_prepared, check_begin, begin_effect, check_receipt_observation,
  observe_effect, check_reconciliation, request_reconciliation,
}
use xgc2_orchestration_core.Effect.Remedies.{
  compensated_effect, compensation_received_effect, reconciled_effect,
}
use xgc2_orchestration_core.Effect.Compensation.{
  check_effect_compensation, transition_compensation, check_compensation_observation,
  observe_compensation, check_compensation_reconciliation, reconcile_compensation,
}

module _ (c : Canonical) where
  -- A step is one accepted operation and its decision.
  pub data EffectStep (b : EffectRecord) (d : EffectDecision) : Type 0 where
    canceling :
        (command : CancelPreparedCommand) → cancel_prepared c b command ≡ ok d → EffectStep b d
    beginning : (command : BeginCommand) → begin_effect c b command ≡ ok d → EffectStep b d
    observing :
        (ledger : CommandLedger) (command : ObserveReceiptCommand)
        → observe_effect c b ledger command ≡ ok d
        → EffectStep b d
    requesting :
        (command : ReconcileCommand) → request_reconciliation c b command ≡ ok d → EffectStep b d
    compensating :
        (command : CompensationCommand)
        → transition_compensation c b command ≡ ok d
        → EffectStep b d
    receiving :
        (ledger : CommandLedger) (command : ObserveCompensationCommand)
        → observe_compensation c b ledger command ≡ ok d
        → EffectStep b d
    reconciling :
        (command : ReconcileCompensationCommand)
        → reconcile_compensation c b command ≡ ok d
        → EffectStep b d

  -- What an accepted operation does to the record, with the checks that it passed.
  pub data EffectChange (b m : EffectRecord) : Type 0 where
    canceled_by :
        (command : CancelPreparedCommand)
        → check_cancel_prepared c b command ≡ ok tt
        → validate_record c m ≡ ok tt
        → m ≡ canceled_effect b command
        → EffectChange b m
    begun_by :
        (command : BeginCommand)
        → check_begin c b command ≡ ok tt
        → validate_record c m ≡ ok tt
        → m ≡ begun_effect b command
        → EffectChange b m
    received_by :
        (ledger : CommandLedger) (command : ObserveReceiptCommand)
        → check_receipt_observation c b ledger command ≡ ok tt
        → validate_record c m ≡ ok tt
        → m ≡ received_effect b command.receipt
        → EffectChange b m
    requested_by :
        (command : ReconcileCommand)
        → check_reconciliation c b command ≡ ok tt
        → m ≡ reconciling_effect b command
        → EffectChange b m
    compensated_by :
        (command : CompensationCommand)
        → check_effect_compensation c b command ≡ ok tt
        → validate_record c m ≡ ok tt
        → m ≡ compensated_effect b command
        → EffectChange b m
    compensation_received_by :
        (ledger : CommandLedger) (command : ObserveCompensationCommand)
        → check_compensation_observation c b ledger command ≡ ok tt
        → validate_record c m ≡ ok tt
        → m ≡ compensation_received_effect b command.receipt
        → EffectChange b m
    reconciled_by :
        (command : ReconcileCompensationCommand)
        → check_compensation_reconciliation c b command ≡ ok tt
        → validate_record c m ≡ ok tt
        → m ≡ reconciled_effect b command
        → EffectChange b m

  pub EffectStep-EffectChange :
      {b : EffectRecord} {d : EffectDecision} → EffectStep b d → EffectChange b d.effect
  unfolding cancel_prepared begin_effect observe_effect request_reconciliation
      transition_compensation observe_compensation reconcile_compensation
  EffectStep-EffectChange (EffectStep.canceling command h) =
      EffectChange.canceled_by command (ground arith) (ground arith) (ground arith)
  EffectStep-EffectChange (EffectStep.beginning command h) =
      EffectChange.begun_by command (ground arith) (ground arith) (ground arith)
  EffectStep-EffectChange (EffectStep.observing ledger command h) =
      EffectChange.received_by ledger command (ground arith) (ground arith) (ground arith)
  EffectStep-EffectChange (EffectStep.requesting command h) =
      EffectChange.requested_by command (ground arith) (ground arith)
  EffectStep-EffectChange (EffectStep.compensating command h) =
      EffectChange.compensated_by command (ground arith) (ground arith) (ground arith)
  EffectStep-EffectChange (EffectStep.receiving ledger command h) =
      EffectChange.compensation_received_by ledger command (ground arith) (ground arith)
        (ground arith)
  EffectStep-EffectChange (EffectStep.reconciling command h) =
      EffectChange.reconciled_by command (ground arith) (ground arith) (ground arith)

  -- The records that a number of accepted operations leads to.
  pub data EffectReach (b : EffectRecord) : ℕ → EffectRecord → Type 0 where
    here : EffectReach b 0 b
    further :
        {n : ℕ} {l : EffectRecord} {d : EffectDecision}
        → EffectReach b n l
        → EffectStep l d
        → EffectReach b (suc n) d.effect
