-- ===== src/Execution/Invocation/OneLive/Compensation.antt =====
-- At most one attempt is live after a compensation is scheduled, claimed and resolved.
use xgc2_orchestration_core.Base.{ℕ, true, false, ◌≡◌, refl, ◌∙◌, sym, ok, arith}
use xgc2_orchestration_core.Contracts.Json.{Canonical}
use xgc2_orchestration_core.Contracts.Records.{Attempt, InvocationLedger}
use xgc2_orchestration_core.Contracts.Statuses.{
  attempt_status_terminal, attempt_status_eq, AttemptPhase, attempt_phase_eq, invocation_status_eq,
  invocation_status_terminal, CompensationStatus, compensation_status_eq,
}
use xgc2_orchestration_core.Execution.Invocation.Validation.{
  validate_invocation_ledger, validate_compensation,
}
use xgc2_orchestration_core.Execution.Invocation.Fence.{
  AttemptFence, active_pointer, validate_attempt_fence_for_phase, close_attempt,
}
use xgc2_orchestration_core.Execution.Invocation.Compensation.{
  ScheduleInvocationCompensationCommand, ClaimCompensationCommand,
  TransitionInvocationCompensationCommand, scheduled, compensation_claimed, compensated,
  check_schedule, check_claim_compensation, check_compensation, validate_compensation_transition,
  check_compensation_target,
}
use xgc2_orchestration_core.Execution.Invocation.Live.{locate-get_elem?}
use xgc2_orchestration_core.Execution.Invocation.OneLive.{
  OneLive, active_any_of_compensation, valid-inactive, valid-uncompensated, valid-compensating,
  close-AllEnded, ended-OneLive, append-OneLive,
}
use xgc2_orchestration_core.Execution.Invocation.OneLive.Primary.{Fenced, fence_for_phase, quiet}

module _ (c : Canonical) (l : InvocationLedger) (o : OneLive l) where
  schedule_facts :
      (command : ScheduleInvocationCompensationCommand)
      → check_schedule c l command ≡ ok tt
      → compensation_status_eq l.invocation.compensation_status CompensationStatus.running ≡ false
  unfolding check_schedule compensation_status_eq
  schedule_facts command h = ground arith

  pub schedule-OneLive :
      (m : InvocationLedger) (command : ScheduleInvocationCompensationCommand)
      → check_schedule c l command ≡ ok tt
      → m ≡ scheduled l command.at
      → OneLive m
  unfolding scheduled
  schedule-OneLive m command checked e = rw e (record {
    idle = o.idle;
    one = o.one;
    inactive = o.inactive;
    uncompensated = λ h. o.uncompensated (schedule_facts command checked);
  })

  claim_compensation_facts :
      (command : ClaimCompensationCommand)
      → check_claim_compensation c l command ≡ ok tt
      → (validate_invocation_ledger c l ≡ ok tt)
        × (compensation_status_eq l.invocation.compensation_status CompensationStatus.running
            ≡ false)
        × (compensation_status_eq l.invocation.compensation_status CompensationStatus.not_required
            ≡ false)
        × (compensation_status_eq l.invocation.compensation_status CompensationStatus.unscheduled
            ≡ false)
  unfolding check_claim_compensation compensation_status_eq
  claim_compensation_facts command h = ground arith

  -- A compensation that is neither off nor unscheduled follows the end of the invocation.
  follows_end :
      validate_invocation_ledger c l ≡ ok tt
      → compensation_status_eq l.invocation.compensation_status CompensationStatus.not_required
        ≡ false
      → compensation_status_eq l.invocation.compensation_status CompensationStatus.unscheduled
        ≡ false
      → invocation_status_terminal l.invocation.status ≡ true
  unfolding validate_invocation_ledger validate_compensation
  follows_end h p q = ground arith

  ended_pointer :
      validate_invocation_ledger c l ≡ ok tt
      → invocation_status_terminal l.invocation.status ≡ true
      → l.invocation.active_attempt_id ≡ ""
  unfolding invocation_status_eq invocation_status_terminal
  ended_pointer h t = valid-inactive c l h (ground arith)

  pub compensation_claim-OneLive :
      (m : InvocationLedger) (command : ClaimCompensationCommand) (a : Attempt)
      → check_claim_compensation c l command ≡ ok tt
      → validate_invocation_ledger c m ≡ ok tt
      → m ≡ compensation_claimed l a command.at
      → OneLive m
  unfolding compensation_claimed compensation_status_eq
  compensation_claim-OneLive m command a checked valid e =
      let (sound, resting, required, planned) = claim_compensation_facts command checked in
      let primary = ended_pointer sound (follows_end sound required planned) in
      let none_live = quiet c l o primary (valid-uncompensated c l sound resting) in
      let pointer : m.invocation.active_compensation_attempt_id ≡ a.attempt_id = rw e refl in
      let p = active_any_of_compensation m.invocation (rw e primary) in
      let running : compensation_status_eq m.invocation.compensation_status
            CompensationStatus.running
          ≡ true =
        rw e refl in
      append-OneLive c m l.attempts a valid (rw e refl) (p ∙ pointer)
        (λ q. (valid-compensating c m valid running).0 (sym p ∙ q)) none_live

  compensation_facts :
      (command : TransitionInvocationCompensationCommand) (n : ℕ) (a : Attempt)
      → check_compensation c l command ≡ ok (n, a)
      → (validate_invocation_ledger c l ≡ ok tt)
        × (validate_attempt_fence_for_phase c l command.fence AttemptPhase.compensation ≡ ok (n, a))
        × (compensation_status_eq l.invocation.compensation_status CompensationStatus.running
            ≡ true)
        × (check_compensation_target command command.to ≡ ok tt)
  unfolding check_compensation validate_compensation_transition
  compensation_facts command n a h = ground arith

  closing_target :
      (command : TransitionInvocationCompensationCommand)
      → check_compensation_target command command.to ≡ ok tt
      → attempt_status_terminal command.attempt_to ≡ true
  unfolding check_compensation_target attempt_status_eq attempt_status_terminal
  closing_target command h = ground arith

  compensation_pointer :
      (fence : AttemptFence) (n : ℕ) (a : Attempt)
      → Fenced l fence AttemptPhase.compensation n a
      → l.invocation.active_compensation_attempt_id ≡ a.attempt_id
  unfolding active_pointer attempt_phase_eq
  compensation_pointer fence n a f = ground (arith, f.pointed, f.in_phase)

  pub compensate-OneLive :
      (m : InvocationLedger) (command : TransitionInvocationCompensationCommand) (n : ℕ)
      (a : Attempt)
      → check_compensation c l command ≡ ok (n, a)
      → validate_invocation_ledger c m ≡ ok tt
      → m ≡ compensated l n a command
      → OneLive m
  unfolding compensated close_attempt
  compensate-OneLive m command n a checked valid e =
      let (sound, fenced, running, target) = compensation_facts command n a checked in
      let f = fence_for_phase c l command.fence AttemptPhase.compensation n a fenced in
      let primary = ended_pointer sound (valid-compensating c l sound running).1 in
      ended-OneLive c m valid (
        rw e (
          close-AllEnded l command.fence.attempt_id n a
            (close_attempt command.attempt_to command.failure command.fence.at a) o
            (active_any_of_compensation l.invocation primary
              ∙ compensation_pointer command.fence n a f
              ∙ (locate-get_elem? l.attempts command.fence.attempt_id n a f.at).1)
            f.at (closing_target command target)))
