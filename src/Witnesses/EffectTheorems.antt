-- ===== src/Witnesses/EffectTheorems.antt =====
-- The theorems on effects at the examples.
use xgc2_orchestration_core.Base.{true, ◌≡◌, refl, ok, arith}
use xgc2_orchestration_core.Contracts.EffectStates.{effect_state_eq, effect_state_terminal}
use xgc2_orchestration_core.Contracts.Effects.{CommandEnvelope}
use xgc2_orchestration_core.Effect.Checks.{validate_target_fence}
use xgc2_orchestration_core.Effect.Primary.{replay_prepare}
use xgc2_orchestration_core.Effect.Outcomes.{can_begin}
use xgc2_orchestration_core.Effect.Steps.{EffectStep, EffectReach}
use xgc2_orchestration_core.Effect.Frozen.{SameOutcome, reported, concluded, outcome_final}
use xgc2_orchestration_core.Effect.Machine.{EffectMove}
use xgc2_orchestration_core.Effect.Validity.{SoundEffect, EffectReach-SoundEffect}
use xgc2_orchestration_core.Effect.Closing.{settled, EffectReach-EffectMove, settled_effect}
use xgc2_orchestration_core.Effect.Outbox.{dispatches, Dispatch, EffectStep-Dispatch}
use xgc2_orchestration_core.Effect.Replay.{unchanged, replay_prepare-same}
use xgc2_orchestration_core.Effect.Ledgers.{ReceiptHistory, validate_ledger-ReceiptHistory}
use xgc2_orchestration_core.Effect.Fences.{
  decode, is_well_formed, accepted, validate_target_fence-decode,
}
use xgc2_orchestration_core.Witnesses.Encoder.{encoder}
use xgc2_orchestration_core.Witnesses.Effects.{
  preparation, prepared_disk, start, starting, taken_ledger, done_ledger, taking, applied_by,
  applied_disk, undo, pending_disk, undoing, giving_up, canceled_disk, disk_fence,
}
use xgc2_orchestration_core.Witnesses.EffectRuns.{
  preparing-ok, starting-ok, acceptance-ok, success-ok, undoing-ok, canceling-ok, done_ledger-ok,
}

disk_applied : EffectReach encoder prepared_disk 3 applied_disk
disk_applied =
    EffectReach.further
      (EffectReach.further
        (EffectReach.further EffectReach.here (EffectStep.beginning start starting-ok))
        (EffectStep.observing _ taking acceptance-ok))
      (EffectStep.observing taken_ledger applied_by success-ok)

disk_pending : EffectReach encoder applied_disk 1 pending_disk
disk_pending = EffectReach.further EffectReach.here (EffectStep.compensating undo undoing-ok)

disk_canceled : EffectReach encoder prepared_disk 1 canceled_disk
disk_canceled = EffectReach.further EffectReach.here (EffectStep.canceling giving_up canceling-ok)

disk_concluded : concluded applied_disk ≡ true
unfolding concluded reported effect_state_terminal can_begin effect_state_eq
disk_concluded = refl

disk_settled : settled canceled_disk.state canceled_disk.compensation_state ≡ true
unfolding settled
disk_settled = refl

start_dispatches : dispatches starting.intents ≡ true
unfolding dispatches
start_dispatches = refl

outcome_final_example : SameOutcome applied_disk pending_disk
outcome_final_example = outcome_final encoder disk_concluded disk_pending

EffectReach-SoundEffect_example : SoundEffect encoder 3 applied_disk
EffectReach-SoundEffect_example =
    EffectReach-SoundEffect encoder preparation preparing-ok (omega arith) disk_applied

EffectReach-EffectMove_example :
    EffectMove applied_disk.state applied_disk.compensation_state pending_disk.state
      pending_disk.compensation_state
EffectReach-EffectMove_example =
    EffectReach-EffectMove encoder preparation preparing-ok disk_applied
      (EffectStep.compensating undo undoing-ok)

settled_effect_example : ¬ EffectStep encoder canceled_disk undoing
settled_effect_example = settled_effect encoder preparation preparing-ok disk_canceled disk_settled

EffectStep-Dispatch_example : (e : CommandEnvelope) × Dispatch encoder prepared_disk starting e
EffectStep-Dispatch_example =
    EffectStep-Dispatch encoder (EffectStep.beginning start starting-ok) start_dispatches

replay_prepare-same_example :
    replay_prepare encoder applied_disk preparation ≡ ok (unchanged applied_disk)
replay_prepare-same_example =
    replay_prepare-same encoder preparation preparing-ok (omega arith) disk_applied

validate_ledger-ReceiptHistory_example : ReceiptHistory done_ledger.receipts
validate_ledger-ReceiptHistory_example =
    validate_ledger-ReceiptHistory encoder done_ledger done_ledger-ok

validate_target_fence-decode_example :
    accepted (validate_target_fence disk_fence) ≡ is_well_formed (decode disk_fence)
validate_target_fence-decode_example = validate_target_fence-decode disk_fence
