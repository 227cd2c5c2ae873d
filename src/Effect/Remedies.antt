-- ===== src/Effect/Remedies.antt =====
-- kernel/effect/effect.go: the records that the operations on the compensation write, and its
-- transition table.
use xgc2_orchestration_core.Base.{
  Bool, true, false, ◌&&◌, ◌||◌, not, Option, none, some, ◌is◌, Result, invalid, invalid_transition,
  ◌>>◌, require, refuse, is_set, Time, after, u64_inc, u32_inc, if◌then◌else◌,
}
use xgc2_orchestration_core.Contracts.EffectStates.{
  EffectCompensationState, effect_compensation_eq, effect_compensation_valid, ReceiptStatus,
}
use xgc2_orchestration_core.Contracts.Effects.{EffectRecord, CommandReceipt}
use xgc2_orchestration_core.Execution.Identity.{validate_identity}
use xgc2_orchestration_core.Effect.Checks.{validate_effect_failure}
use xgc2_orchestration_core.Effect.Records.{in_compensation}
use xgc2_orchestration_core.Effect.Commands.{CompensationCommand, ReconcileCompensationCommand}
use xgc2_orchestration_core.Effect.Outcomes.{is_transient}

-- The literal `allowed` table; a missing row or cell is `false`.
unfoldable pub compensation_allowed : EffectCompensationState → EffectCompensationState → Bool
compensation_allowed EffectCompensationState.unscheduled EffectCompensationState.pending = true
compensation_allowed EffectCompensationState.unscheduled EffectCompensationState.canceled = true
compensation_allowed EffectCompensationState.pending EffectCompensationState.running = true
compensation_allowed EffectCompensationState.pending EffectCompensationState.canceled = true
compensation_allowed EffectCompensationState.running EffectCompensationState.succeeded = true
compensation_allowed EffectCompensationState.running EffectCompensationState.retry_wait = true
compensation_allowed EffectCompensationState.running EffectCompensationState.failed = true
compensation_allowed EffectCompensationState.running EffectCompensationState.canceled = true
compensation_allowed EffectCompensationState.retry_wait EffectCompensationState.running = true
compensation_allowed EffectCompensationState.retry_wait EffectCompensationState.failed = true
compensation_allowed EffectCompensationState.retry_wait EffectCompensationState.canceled = true
compensation_allowed _ _ = false

abbrev pub is_compensation : EffectCompensationState → EffectCompensationState → Bool
is_compensation state wanted = effect_compensation_eq state wanted

-- `t != nil && t.After(at)`.
abbrev pub later_than : Option Time → Time → Bool
later_than none at = false
later_than (some t) at = after t at

unfoldable pub validate_effect_compensation_transition :
    EffectCompensationState → CompensationCommand → Result (Unit {0})
validate_effect_compensation_transition from command = do
  require (effect_compensation_valid command.to && compensation_allowed from command.to)
      invalid_transition
  if is_compensation command.to EffectCompensationState.running
      then validate_identity command.compensation_command_id "compensation command id"
      else require (command.compensation_command_id is "")
          (invalid "compensation command id is only set on running")
  if is_compensation command.to EffectCompensationState.retry_wait
      then require (later_than command.retry_at command.at && is_transient command.failure)
          (invalid "compensation retry-wait requires transient failure and future time")
      else refuse (is_set command.retry_at)
          (invalid "retry time is only set on compensation retry-wait")
  if is_compensation command.to EffectCompensationState.failed
      then validate_effect_failure command.failure false
      else refuse
          (not (is_compensation command.to EffectCompensationState.retry_wait)
            && is_set command.failure)
          (invalid "compensation failure is only set on failure or retry-wait")

-- The record when the compensation starts to run.
unfoldable pub start_compensation : EffectRecord → CompensationCommand → EffectRecord
start_compensation r command = record r {
  compensation_attempt_count = u32_inc r.compensation_attempt_count;
  compensation_command_id = command.compensation_command_id;
  compensation_started_at = some command.at;
  compensation_finished_at = none;
}

abbrev pub finishes : EffectCompensationState → Bool
finishes state =
    is_compensation state EffectCompensationState.succeeded
    || is_compensation state EffectCompensationState.failed
    || is_compensation state EffectCompensationState.canceled

unfoldable pub compensated_effect : EffectRecord → CompensationCommand → EffectRecord
unfolding start_compensation
compensated_effect r command =
    let moved = record r {
      compensation_state = command.to;
      compensation_failure = command.failure;
      compensation_next_at = command.retry_at;
      updated_at = command.at;
      revision = u64_inc r.revision;
    } in
    if is_compensation command.to EffectCompensationState.running
    then start_compensation moved command
    else if finishes command.to
    then record moved { compensation_finished_at = some command.at }
    else moved

-- The `switch` on the status of a compensation's receipt, on a record that has its new revision and
-- time already.
unfoldable pub compensation_received : EffectRecord → CommandReceipt → ReceiptStatus → EffectRecord
compensation_received r receipt ReceiptStatus.accepted = r
compensation_received r receipt ReceiptStatus.succeeded = record r {
  compensation_state = EffectCompensationState.succeeded;
  compensation_finished_at = some receipt.observed_at;
}
compensation_received r receipt ReceiptStatus.other = r
compensation_received r receipt _ = record r {
  compensation_state = EffectCompensationState.failed;
  compensation_failure = receipt.failure;
  compensation_finished_at = some receipt.observed_at;
}

unfoldable pub compensation_received_effect : EffectRecord → CommandReceipt → EffectRecord
unfolding compensation_received
compensation_received_effect r receipt =
    compensation_received
      (record r { updated_at = receipt.observed_at; revision = u64_inc r.revision }) receipt
      receipt.status

unfoldable pub reconciled_effect : EffectRecord → ReconcileCompensationCommand → EffectRecord
reconciled_effect r command = record r {
  compensation_state = EffectCompensationState.reconciled;
  compensation_failure = none;
  compensation_next_at = none;
  compensation_reconciliation = some (record {
    requested_revision = command.expected_revision;
    evidence_digest = command.evidence_digest;
    reconciled_by = command.reconciled_by;
    reason_code = command.reason_code;
    command_id = command.command_id;
    observed_at = command.at;
  });
  compensation_finished_at = some command.at;
  updated_at = command.at;
  revision = u64_inc r.revision;
}

-- The states in which a separate authority may close a required compensation.
abbrev pub awaits_reconciliation : EffectRecord → Bool
awaits_reconciliation r =
    in_compensation r EffectCompensationState.failed
    || in_compensation r EffectCompensationState.canceled
    || in_compensation r EffectCompensationState.retry_wait
