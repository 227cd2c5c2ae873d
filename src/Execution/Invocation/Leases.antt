-- ===== src/Execution/Invocation/Leases.antt =====
-- Who may report on an attempt: the lease fence of the operations of a worker.
use xgc2_orchestration_core.Base.{
  ℕ, String, true, some, ◌≡◌, ◌<◌, ◌≤◌, Result, Error, ◌≢◌, ok, err, arith, eq_iff, inl, inr,
  Option-cases, Result-cases,
}
use xgc2_orchestration_core.Contracts.Json.{Canonical}
use xgc2_orchestration_core.Contracts.Records.{Attempt, InvocationLedger}
use xgc2_orchestration_core.Execution.Identity.{private_token_digest}
use xgc2_orchestration_core.Execution.Invocation.Validation.{locate}
use xgc2_orchestration_core.Execution.Invocation.Fence.{
  AttemptFence, InvocationDecision, active_pointer, token_matches, check_located_fence,
  validate_attempt_fence_any, validate_attempt_fence_for_phase,
}
use xgc2_orchestration_core.Execution.Invocation.Live.{locate-get_elem?}
use xgc2_orchestration_core.Execution.Invocation.OneLive.Primary.{fence_any}
use xgc2_orchestration_core.Execution.Invocation.Primary.{
  TransitionInvocationCommand, check_transition, transition_invocation,
}
use xgc2_orchestration_core.Execution.Invocation.Recovery.{
  HeartbeatAttemptCommand, check_heartbeat, heartbeat_attempt,
}
use xgc2_orchestration_core.Execution.Invocation.Compensation.{
  TransitionInvocationCompensationCommand, check_compensation, transition_invocation_compensation,
}

-- The operations of a worker at its attempt.
pub data WorkerCommand : Type 0 where
  result : TransitionInvocationCommand → WorkerCommand
  beat : HeartbeatAttemptCommand → WorkerCommand
  compensation_result : TransitionInvocationCompensationCommand → WorkerCommand

unfoldable pub worker_fence : WorkerCommand → AttemptFence
worker_fence (WorkerCommand.result command) = command.fence
worker_fence (WorkerCommand.beat command) = command.fence
worker_fence (WorkerCommand.compensation_result command) = command.fence

module _ (c : Canonical) where
  unfoldable pub report : InvocationLedger → WorkerCommand → Result InvocationDecision
  report l (WorkerCommand.result command) = transition_invocation c l command
  report l (WorkerCommand.beat command) = heartbeat_attempt c l command
  report l (WorkerCommand.compensation_result command) =
      transition_invocation_compensation c l command

  -- The worker of a fence holds the lease of an attempt that the invocation points to.
  pub record HoldsLease (l : InvocationLedger) (fence : AttemptFence) (a : Attempt) : Type 0 where
    pub named : a.attempt_id ≡ fence.attempt_id
    pub token : private_token_digest c fence.lease_token ≡ ok a.lease_token_hash
    pub unexpired : fence.at < a.lease_expires_at
    pub current : a.revision ≡ fence.attempt_revision
    pub pointed : active_pointer l.invocation a.phase ≡ a.attempt_id
    pub invocation_current : fence.invocation_revision ≡ l.invocation.revision
    pub later : l.invocation.updated_at ≤ fence.at

  token-matches :
      (r : Result String) (expected : String) → token_matches r expected ≡ true → r ≡ ok expected
  unfolding token_matches
  token-matches (ok hash) expected h = ground (arith, eq_iff expected hash)
  token-matches (err e) expected h = absurd (ground arith)

  located_name :
      (l : InvocationLedger) (fence : AttemptFence) (n : ℕ) (a : Attempt)
      → locate l.attempts fence.attempt_id ≡ some (n, a)
      → a.attempt_id ≡ fence.attempt_id
  located_name l fence n a h = (locate-get_elem? l.attempts fence.attempt_id n a h).1

  fence-HoldsLease :
      (l : InvocationLedger) (fence : AttemptFence) (n : ℕ) (a : Attempt)
      → validate_attempt_fence_any c l fence ≡ ok (n, a)
      → HoldsLease l fence a
  unfolding validate_attempt_fence_any check_located_fence
  fence-HoldsLease l fence n a h = elim (Option-cases (locate l.attempts fence.attempt_id)) [
    | inl e ↦ absurd (ground arith)
    | inr ((k, b), e) ↦ ground (
      arith,
      eq_iff (active_pointer l.invocation b.phase) b.attempt_id,
      located_name l fence k b e,
      token-matches (private_token_digest c fence.lease_token) b.lease_token_hash,
    )
  ]

  report_fenced :
      (l : InvocationLedger) (command : WorkerCommand) (d : InvocationDecision)
      → report l command ≡ ok d
      → (p : ℕ × Attempt) × (validate_attempt_fence_any c l (worker_fence command) ≡ ok p)
  unfolding report worker_fence transition_invocation heartbeat_attempt
      transition_invocation_compensation check_transition check_heartbeat check_compensation
      validate_attempt_fence_for_phase
  report_fenced l command d h =
      elim (Result-cases (validate_attempt_fence_any c l (worker_fence command))) [
        | inl found ↦ found
        | inr (e, failed) ↦ absurd (refused command h failed)
      ]
    where
      refused :
          {e : Error} (w : WorkerCommand)
          → report l w ≡ ok d
          → validate_attempt_fence_any c l (worker_fence w) ≢ err e
      refused (WorkerCommand.result command) h f = ground arith
      refused (WorkerCommand.beat command) h f = ground arith
      refused (WorkerCommand.compensation_result command) h f = ground arith

  -- A result, a compensation result or a heartbeat of a worker is only accepted from the holder of an
  -- unexpired lease: the ledger has the attempt that the fence names, at the revision that it states,
  -- the digest of the token is the one of the lease, the time is before its end and not before the
  -- last update, the invocation has the stated revision and still points to the attempt.
  pub report-HoldsLease :
      (l : InvocationLedger) (command : WorkerCommand) (d : InvocationDecision)
      → report l command ≡ ok d
      → (n : ℕ) × (a : Attempt) × (locate l.attempts (worker_fence command).attempt_id
          ≡ some (n, a))
        × HoldsLease l (worker_fence command) a
  report-HoldsLease l command d h =
      let ((n, a), fenced) = report_fenced l command d h in
      (
        n,
        a,
        (fence_any c l (worker_fence command) n a fenced).0,
        fence-HoldsLease l (worker_fence command) n a fenced,
      )
