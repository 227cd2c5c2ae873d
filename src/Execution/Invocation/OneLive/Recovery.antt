-- ===== src/Execution/Invocation/OneLive/Recovery.antt =====
-- At most one attempt is live after a heartbeat, an expiry, a resolved wait, a cancellation and an end
-- without a lease.
use xgc2_orchestration_core.Base.{
  ℕ, true, false, some, List, ◌≡◌, refl, ◌∙◌, sym, ok, Time, u64_inc, arith, set, ◌is◌, is→eq,
  eq_iff, inl, inr, Option-cases, Bool-cases,
}
use xgc2_orchestration_core.Contracts.Json.{Canonical}
use xgc2_orchestration_core.Contracts.Records.{Attempt, InvocationLedger}
use xgc2_orchestration_core.Contracts.Statuses.{
  attempt_status_terminal, AttemptStatus, invocation_status_eq, invocation_status_terminal,
}
use xgc2_orchestration_core.Execution.Invocation.Validation.{
  locate, is_active, validate_invocation_ledger,
}
use xgc2_orchestration_core.Execution.Invocation.Fence.{validate_attempt_fence_any, close_attempt}
use xgc2_orchestration_core.Execution.Invocation.Waits.{
  ResolveInvocationWaitCommand, wait_resolved, check_wait_resolution, check_waiting_attempt,
  wait_resolution,
}
use xgc2_orchestration_core.Execution.Invocation.Recovery.{
  HeartbeatAttemptCommand, ExpireInvocationAttemptCommand, ResolveUnleasedInvocationCommand,
  CancelInvocationCommand, heartbeaten, expired, unleased, canceled, canceled_attempts,
  cancel_located, check_heartbeat, check_expiry, check_expired_attempt, check_unleased,
  check_cancel, unleased_allowed,
}
use xgc2_orchestration_core.Execution.Invocation.Live.{AllEnded, locate-get_elem?}
use xgc2_orchestration_core.Execution.Invocation.OneLive.{
  OneLive, active_any_of, valid-inactive, valid-open, close-AllEnded, ended-OneLive,
  replace-OneLive,
}
use xgc2_orchestration_core.Execution.Invocation.OneLive.Primary.{fence_any, quiet, pointed_at}

module _ (c : Canonical) where
  module _ (l : InvocationLedger) (o : OneLive l) where
    resolve_facts :
        (command : ResolveInvocationWaitCommand) (n : ℕ) (a : Attempt) (to : AttemptStatus)
        → check_wait_resolution c l command ≡ ok (n, a, to)
        → (validate_invocation_ledger c l ≡ ok tt)
          × (invocation_status_terminal l.invocation.status ≡ false)
          × (locate l.attempts command.attempt_id ≡ some (n, a))
          × (l.invocation.active_attempt_id ≡ a.attempt_id)
          × (attempt_status_terminal to ≡ true)
    unfolding check_wait_resolution check_waiting_attempt wait_resolution invocation_status_eq
        invocation_status_terminal attempt_status_terminal
    resolve_facts command n a to h = elim (Option-cases (locate l.attempts command.attempt_id)) [
      | inl none_found ↦ absurd (ground arith)
      | inr ((k, b), at) ↦ ground (arith, eq_iff b.attempt_id l.invocation.active_attempt_id)
    ]

    pub resolve-OneLive :
        (m : InvocationLedger) (command : ResolveInvocationWaitCommand) (n : ℕ) (a : Attempt)
        (to : AttemptStatus)
        → check_wait_resolution c l command ≡ ok (n, a, to)
        → validate_invocation_ledger c m ≡ ok tt
        → m ≡ wait_resolved l n a command to
        → OneLive m
    unfolding wait_resolved close_attempt
    resolve-OneLive m command n a to checked valid e =
        let (sound, open_, at, pointed, ended) = resolve_facts command n a to checked in
        ended-OneLive c m valid (
          rw e (
            close-AllEnded l command.attempt_id n a (close_attempt to command.failure command.at a)
              o (pointed_at c l o command.attempt_id n a sound open_ at pointed) at ended))

    expiry_facts :
        (command : ExpireInvocationAttemptCommand) (n : ℕ) (a : Attempt)
        → check_expiry c l command ≡ ok (n, a)
        → (validate_invocation_ledger c l ≡ ok tt)
          × (invocation_status_terminal l.invocation.status ≡ false)
          × (locate l.attempts command.attempt_id ≡ some (n, a))
          × (command.attempt_id ≡ l.invocation.active_attempt_id)
    unfolding check_expiry check_expired_attempt invocation_status_eq invocation_status_terminal
    expiry_facts command n a h = elim (Option-cases (locate l.attempts command.attempt_id)) [
      | inl none_found ↦ absurd (ground arith)
      | inr ((k, b), at) ↦ ground (arith, eq_iff command.attempt_id l.invocation.active_attempt_id)
    ]

    pub expire-OneLive :
        (m : InvocationLedger) (command : ExpireInvocationAttemptCommand) (n : ℕ) (a : Attempt)
        → check_expiry c l command ≡ ok (n, a)
        → validate_invocation_ledger c m ≡ ok tt
        → m ≡ expired l n a command
        → OneLive m
    unfolding expired close_attempt attempt_status_terminal
    expire-OneLive m command n a checked valid e =
        let (sound, open_, at, pointed) = expiry_facts command n a checked in
        ended-OneLive c m valid (
          rw e (
            close-AllEnded l command.attempt_id n a
              (close_attempt AttemptStatus.abandoned (some command.failure) command.at a) o
              (active_any_of l.invocation (valid-open c l sound open_) ∙ sym pointed) at refl))

    heartbeat_facts :
        (command : HeartbeatAttemptCommand) (n : ℕ) (a : Attempt)
        → check_heartbeat c l command ≡ ok (n, a)
        → validate_attempt_fence_any c l command.fence ≡ ok (n, a)
    unfolding check_heartbeat
    heartbeat_facts command n a h = ground arith

    pub heartbeat-OneLive :
        (m : InvocationLedger) (command : HeartbeatAttemptCommand) (n : ℕ) (a : Attempt)
        → check_heartbeat c l command ≡ ok (n, a)
        → m ≡ heartbeaten l n a command
        → OneLive m
    unfolding heartbeaten
    heartbeat-OneLive m command n a checked e =
        let (at, pointed) = fence_any c l command.fence n a (heartbeat_facts command n a checked) in
        let (found, named) = locate-get_elem? l.attempts command.fence.attempt_id n a at in
        rw e (
          replace-OneLive l (heartbeaten l n a command) n a
            (record a {
              lease_expires_at = command.lease_expires_at;
              updated_at = command.fence.at;
              revision = u64_inc a.revision;
            })
            o found refl (λ h. h) refl refl o.inactive o.uncompensated)

    unleased_facts :
        (command : ResolveUnleasedInvocationCommand)
        → check_unleased c l command ≡ ok tt
        → (validate_invocation_ledger c l ≡ ok tt)
          × (is_active l.invocation.status ≡ false)
          × (invocation_status_terminal l.invocation.status ≡ false)
    unfolding check_unleased unleased_allowed invocation_status_eq invocation_status_terminal
    unleased_facts command h = ground arith

    pub unleased-OneLive :
        (m : InvocationLedger) (command : ResolveUnleasedInvocationCommand)
        → check_unleased c l command ≡ ok tt
        → validate_invocation_ledger c m ≡ ok tt
        → m ≡ unleased l command
        → OneLive m
    unfolding unleased
    unleased-OneLive m command checked valid e =
        let (sound, resting, open_) = unleased_facts command checked in
        ended-OneLive c m valid
          (rw e (quiet c l o (valid-inactive c l sound resting) (valid-open c l sound open_)))

    cancel_facts :
        (command : CancelInvocationCommand)
        → check_cancel c l command ≡ ok tt
        → (validate_invocation_ledger c l ≡ ok tt)
          × (invocation_status_terminal l.invocation.status ≡ false)
    unfolding check_cancel
    cancel_facts command h = ground arith

    canceled_attempts-AllEnded :
        (attempts : List Attempt) (at : Time)
        → l.invocation.active_compensation_attempt_id ≡ ""
        → canceled_attempts l at ≡ ok attempts
        → AllEnded attempts
    unfolding canceled_attempts cancel_located close_attempt attempt_status_terminal
    canceled_attempts-AllEnded attempts at p h =
        elim (Bool-cases (l.invocation.active_attempt_id is "")) [
          | inl idle ↦
              let built : l.attempts ≡ attempts = ground arith in
              rw (← built) (quiet c l o (is→eq _ _ idle) p)
          | inr busy ↦ elim (Option-cases (locate l.attempts l.invocation.active_attempt_id)) [
            | inl none_found ↦ absurd (ground arith)
            | inr ((n, a), found) ↦
                let built : set l.attempts n (close_attempt AttemptStatus.canceled a.failure at a)
                    ≡ attempts =
                  ground arith in
                rw (← built) (
                  close-AllEnded l l.invocation.active_attempt_id n a
                    (close_attempt AttemptStatus.canceled a.failure at a) o
                    (active_any_of l.invocation p) found refl)
          ]
        ]

    pub cancel-OneLive :
        (m : InvocationLedger) (command : CancelInvocationCommand) (attempts : List Attempt)
        → check_cancel c l command ≡ ok tt
        → canceled_attempts l command.at ≡ ok attempts
        → validate_invocation_ledger c m ≡ ok tt
        → m ≡ canceled l attempts command.at
        → OneLive m
    unfolding canceled
    cancel-OneLive m command attempts checked built valid e =
        let (sound, open_) = cancel_facts command checked in
        ended-OneLive c m valid
          (rw e (canceled_attempts-AllEnded attempts command.at (valid-open c l sound open_) built))
