-- ===== src/Execution/Invocation/OneLive/Primary.antt =====
-- At most one attempt is live after a claim and after the result of a worker.
use xgc2_orchestration_core.Base.{
  ℕ, String, true, false, some, ◌≡◌, refl, ◌∙◌, sym, ok, arith, eq_iff, inl, inr, Option-cases,
  Bool-cases,
}
use xgc2_orchestration_core.Contracts.Json.{Canonical}
use xgc2_orchestration_core.Contracts.Records.{Attempt, InvocationLedger}
use xgc2_orchestration_core.Contracts.Statuses.{
  attempt_status_terminal, attempt_status_eq, AttemptPhase, attempt_phase_eq, invocation_status_eq,
  invocation_status_terminal,
}
use xgc2_orchestration_core.Execution.Invocation.Validation.{
  locate, is_active, validate_invocation_ledger, validate_invocation_transition, invocation_allowed,
}
use xgc2_orchestration_core.Execution.Invocation.Fence.{
  AttemptFence, active_pointer, check_located_fence, validate_attempt_fence_any,
  validate_attempt_fence_for_phase,
}
use xgc2_orchestration_core.Execution.Invocation.Claims.{
  ClaimInvocationCommand, claimed, check_claim,
}
use xgc2_orchestration_core.Execution.Invocation.Primary.{
  TransitionInvocationCommand, transitioned, transitioned_invocation, transitioned_attempt,
  check_transition, validate_aligned_transition, check_aligned,
}
use xgc2_orchestration_core.Execution.Invocation.Live.{AllEnded, locate-get_elem?}
use xgc2_orchestration_core.Execution.Invocation.OneLive.{
  OneLive, active_any, active_any_of, valid-inactive, valid-active, valid-open, close-AllEnded,
  ended-OneLive, append-OneLive, set-OneLive,
}

-- What the lease fence of a phase passes.
pub record Fenced (l : InvocationLedger) (fence : AttemptFence) (phase : AttemptPhase) (n : ℕ)
    (a : Attempt) : Type 0 where
  pub at : locate l.attempts fence.attempt_id ≡ some (n, a)
  pub pointed : active_pointer l.invocation a.phase ≡ a.attempt_id
  pub in_phase : attempt_phase_eq a.phase phase ≡ true

module _ (c : Canonical) where
  pub fence_any :
      (l : InvocationLedger) (fence : AttemptFence) (n : ℕ) (a : Attempt)
      → validate_attempt_fence_any c l fence ≡ ok (n, a)
      → (locate l.attempts fence.attempt_id ≡ some (n, a))
        × (active_pointer l.invocation a.phase ≡ a.attempt_id)
  unfolding validate_attempt_fence_any check_located_fence
  fence_any l fence n a h = elim (Option-cases (locate l.attempts fence.attempt_id)) [
    | inl e ↦ absurd (ground arith)
    | inr ((k, b), e) ↦ ground (arith, eq_iff (active_pointer l.invocation b.phase) b.attempt_id)
  ]

  pub fence_for_phase :
      (l : InvocationLedger) (fence : AttemptFence) (phase : AttemptPhase) (n : ℕ) (a : Attempt)
      → validate_attempt_fence_for_phase c l fence phase ≡ ok (n, a)
      → Fenced l fence phase n a
  unfolding validate_attempt_fence_for_phase
  fence_for_phase l fence phase n a h = ground (arith, fence_any l fence n a)

  module _ (l : InvocationLedger) (o : OneLive l) where
    -- With both pointers empty nothing is live.
    pub quiet :
        l.invocation.active_attempt_id ≡ ""
        → l.invocation.active_compensation_attempt_id ≡ ""
        → AllEnded l.attempts
    quiet p q = o.idle (active_any_of l.invocation q ∙ p)

    claim_facts :
        (command : ClaimInvocationCommand)
        → check_claim c l command ≡ ok tt
        → (validate_invocation_ledger c l ≡ ok tt)
          × (is_active l.invocation.status ≡ false)
          × (invocation_status_terminal l.invocation.status ≡ false)
    unfolding check_claim invocation_status_eq invocation_status_terminal
    claim_facts command h = ground arith

    pub claim-OneLive :
        (m : InvocationLedger) (command : ClaimInvocationCommand) (a : Attempt)
        → check_claim c l command ≡ ok tt
        → validate_invocation_ledger c m ≡ ok tt
        → m ≡ claimed l a command.at
        → OneLive m
    unfolding claimed invocation_status_eq
    claim-OneLive m command a checked valid e =
        let (sound, resting, open_) = claim_facts command checked in
        let uncompensated = valid-open c l sound open_ in
        let none_live = quiet (valid-inactive c l sound resting) uncompensated in
        let pointer : m.invocation.active_attempt_id ≡ a.attempt_id = rw e refl in
        let p = active_any_of m.invocation (rw e uncompensated) in
        let running : is_active m.invocation.status ≡ true = rw e refl in
        append-OneLive c m l.attempts a valid (rw e refl) (p ∙ pointer)
          (λ q. valid-active c m valid running (sym p ∙ q)) none_live

    -- The attempt of an execution that its pointer names, in an open invocation.
    pub pointed_at :
        (id : String) (n : ℕ) (a : Attempt)
        → validate_invocation_ledger c l ≡ ok tt
        → invocation_status_terminal l.invocation.status ≡ false
        → locate l.attempts id ≡ some (n, a)
        → l.invocation.active_attempt_id ≡ a.attempt_id
        → active_any l.invocation ≡ id
    pointed_at id n a sound open_ at pointed =
        active_any_of l.invocation (valid-open c l sound open_)
        ∙ pointed
        ∙ (locate-get_elem? l.attempts id n a at).1

    transition_facts :
        (command : TransitionInvocationCommand) (n : ℕ) (a : Attempt)
        → check_transition c l command ≡ ok (n, a)
        → (validate_invocation_ledger c l ≡ ok tt)
          × (validate_attempt_fence_for_phase c l command.fence AttemptPhase.execution ≡ ok (n, a))
          × (invocation_status_terminal l.invocation.status ≡ false)
          × (validate_aligned_transition command ≡ ok tt)
    unfolding check_transition validate_invocation_transition invocation_allowed
        invocation_status_terminal
    transition_facts command n a h = ground arith

    execution_pointer :
        (fence : AttemptFence) (n : ℕ) (a : Attempt)
        → Fenced l fence AttemptPhase.execution n a
        → l.invocation.active_attempt_id ≡ a.attempt_id
    unfolding active_pointer attempt_phase_eq
    execution_pointer fence n a f = ground (arith, f.pointed, f.in_phase)

    ending_alignment :
        (command : TransitionInvocationCommand)
        → validate_aligned_transition command ≡ ok tt
        → is_active command.to ≡ false
        → attempt_status_terminal command.attempt_to ≡ true
    unfolding validate_aligned_transition check_aligned attempt_status_eq attempt_status_terminal
        invocation_status_eq
    ending_alignment command h k = ground arith

    keeps_pointer :
        (command : TransitionInvocationCommand)
        → is_active command.to ≡ true
        → (transitioned_invocation l.invocation command).active_attempt_id
          ≡ l.invocation.active_attempt_id
    unfolding transitioned_invocation invocation_status_eq invocation_status_terminal
    keeps_pointer command h = ground arith

    pub transition-OneLive :
        (m : InvocationLedger) (command : TransitionInvocationCommand) (n : ℕ) (a : Attempt)
        → check_transition c l command ≡ ok (n, a)
        → validate_invocation_ledger c m ≡ ok tt
        → m ≡ transitioned l n a command
        → OneLive m
    unfolding transitioned transitioned_attempt
    transition-OneLive m command n a checked valid e =
        let (sound, fenced, open_, aligned) = transition_facts command n a checked in
        let f = fence_for_phase l command.fence AttemptPhase.execution n a fenced in
        let p =
          pointed_at command.fence.attempt_id n a sound open_ f.at
            (execution_pointer command.fence n a f) in
        let uncompensated : m.invocation.active_compensation_attempt_id ≡ "" =
          rw e (unfold transitioned_invocation in valid-open c l sound open_) in
        elim (Bool-cases (is_active command.to)) [
          | inl stays ↦
              let q = active_any_of m.invocation uncompensated in
              let active : is_active m.invocation.status ≡ true =
                rw e (unfold transitioned_invocation in stays) in
              set-OneLive c l m n a (transitioned_attempt a command) valid o (rw p f.at) refl
                (rw e refl)
                (q
                  ∙ rw e (keeps_pointer command stays)
                  ∙ sym (active_any_of l.invocation (valid-open c l sound open_)))
                (λ r. valid-active c m valid active (sym q ∙ r))
          | inr ends ↦ ended-OneLive c m valid (
              rw e (
                close-AllEnded l command.fence.attempt_id n a (transitioned_attempt a command) o p
                  f.at (ending_alignment command aligned ends)))
        ]
