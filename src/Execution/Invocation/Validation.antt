-- ===== src/Execution/Invocation/Validation.antt =====
-- kernel/execution/invocation.go: the transition tables and what a well-formed ledger is.
use xgc2_orchestration_core.Base.{
  ℕ, suc, String, Bool, true, false, ◌&&◌, ◌||◌, not, Option, none, some, List, [], ◌∷◌, ◌==◌, ◌is◌,
  Result, ok, err, invalid, invalid_transition, ◌>>=◌, ◌>>◌, require, refuse, is_set, is_nil,
  differ, is_zero, before, after, u32_inc, if◌then◌else◌, ◌%◌,
}
use xgc2_orchestration_core.Contracts.Identity.{valid_digest, valid_type_ref}
use xgc2_orchestration_core.Contracts.Json.{Canonical}
use xgc2_orchestration_core.Contracts.Statuses.{
  FailureClass, failure_class_eq, InvocationStatus, invocation_status_eq, invocation_status_valid,
  invocation_status_terminal, CompensationStatus, compensation_status_eq, compensation_status_valid,
  AttemptPhase, attempt_phase_eq, attempt_phase_valid, AttemptStatus, attempt_status_eq,
  attempt_status_valid, attempt_status_terminal,
}
use xgc2_orchestration_core.Contracts.Records.{
  StructuredFailure, Invocation, Attempt, InvocationLedger,
}
use xgc2_orchestration_core.Execution.Identity.{
  validate_identities, validate_failure, or_empty, stable_invocation_id, stable_attempt_id,
}

-- The literal `allowed` tables; a missing row or cell is `false`.
unfoldable pub invocation_allowed : InvocationStatus → InvocationStatus → Bool
invocation_allowed InvocationStatus.ready InvocationStatus.running = true
invocation_allowed InvocationStatus.ready InvocationStatus.skipped = true
invocation_allowed InvocationStatus.ready InvocationStatus.canceled = true
invocation_allowed InvocationStatus.running InvocationStatus.waiting = true
invocation_allowed InvocationStatus.running InvocationStatus.retry_wait = true
invocation_allowed InvocationStatus.running InvocationStatus.succeeded = true
invocation_allowed InvocationStatus.running InvocationStatus.failed = true
invocation_allowed InvocationStatus.running InvocationStatus.canceled = true
invocation_allowed InvocationStatus.waiting InvocationStatus.running = true
invocation_allowed InvocationStatus.waiting InvocationStatus.retry_wait = true
invocation_allowed InvocationStatus.waiting InvocationStatus.succeeded = true
invocation_allowed InvocationStatus.waiting InvocationStatus.failed = true
invocation_allowed InvocationStatus.waiting InvocationStatus.canceled = true
invocation_allowed InvocationStatus.retry_wait InvocationStatus.running = true
invocation_allowed InvocationStatus.retry_wait InvocationStatus.failed = true
invocation_allowed InvocationStatus.retry_wait InvocationStatus.canceled = true
invocation_allowed _ _ = false

unfoldable pub validate_invocation_transition :
    InvocationStatus → InvocationStatus → Result (Unit {0})
validate_invocation_transition from to = do
  refuse
      (not (invocation_status_valid from)
        || not (invocation_status_valid to)
        || invocation_status_eq from to)
      invalid_transition
  require (invocation_allowed from to) invalid_transition

unfoldable pub attempt_allowed : AttemptStatus → AttemptStatus → Bool
attempt_allowed AttemptStatus.running AttemptStatus.waiting = true
attempt_allowed AttemptStatus.running AttemptStatus.succeeded = true
attempt_allowed AttemptStatus.running AttemptStatus.failed = true
attempt_allowed AttemptStatus.running AttemptStatus.canceled = true
attempt_allowed AttemptStatus.running AttemptStatus.abandoned = true
attempt_allowed AttemptStatus.waiting AttemptStatus.running = true
attempt_allowed AttemptStatus.waiting AttemptStatus.succeeded = true
attempt_allowed AttemptStatus.waiting AttemptStatus.failed = true
attempt_allowed AttemptStatus.waiting AttemptStatus.canceled = true
attempt_allowed AttemptStatus.waiting AttemptStatus.abandoned = true
attempt_allowed _ _ = false

unfoldable pub validate_attempt_transition : AttemptStatus → AttemptStatus → Result (Unit {0})
validate_attempt_transition from to = do
  refuse
      (not (attempt_status_valid from)
        || not (attempt_status_valid to)
        || attempt_status_eq from to)
      invalid_transition
  require (attempt_allowed from to) invalid_transition

unfoldable pub count_phase : List Attempt → AttemptPhase → ℕ
count_phase [] phase = 0
count_phase (a ∷ rest) phase =
    let n = count_phase rest phase in if attempt_phase_eq a.phase phase then suc n else n

abbrev pub deeper : Option (ℕ × Attempt) → Option (ℕ × Attempt)
deeper none = none
deeper (some (i, a)) = some (suc i, a)

-- The index and the value of the first attempt with an identity: the loops of `findAttempt`, of the
-- lease fence and of the reducers that look an attempt up.
unfoldable pub locate : List Attempt → String → Option (ℕ × Attempt)
locate [] id = none
locate (a ∷ rest) id = if a.attempt_id is id then some (0, a) else deeper (locate rest id)

-- `failure.Class == contracts.FailureTransient`, and false of nil.
abbrev pub is_transient : Option StructuredFailure → Bool
is_transient none = false
is_transient (some failure) = failure_class_eq failure.class FailureClass.transient

-- The part of `validateInvocationCompensation` for a state with no active attempt.
unfoldable pub validate_idle_compensation : Invocation → CompensationStatus → Result (Unit {0})
validate_idle_compensation i CompensationStatus.retry_wait =
    refuse (is_nil i.compensation_next_at || not (is_transient i.compensation_failure))
      (invalid "compensation retry-wait")
validate_idle_compensation i CompensationStatus.failed =
    refuse (is_set i.compensation_next_at || is_nil i.compensation_failure)
      (invalid "failed compensation")
validate_idle_compensation i CompensationStatus.other = err (invalid "compensation state")
validate_idle_compensation i CompensationStatus.not_required = err (invalid "compensation state")
validate_idle_compensation i CompensationStatus.running = err (invalid "compensation state")
validate_idle_compensation i _ =
    refuse (is_set i.compensation_next_at || is_set i.compensation_failure)
      (invalid "compensation failure or retry time")

unfoldable pub validate_compensation : Invocation → Result (Unit {0})
validate_compensation i =
    if compensation_status_eq i.compensation_status CompensationStatus.not_required
    then refuse
        (not (i.compensation_attempt_count == 0)
          || not (i.active_compensation_attempt_id is "")
          || is_set i.compensation_failure
          || is_set i.compensation_next_at)
        (invalid "not-required compensation")
    else do
      refuse
          (not (compensation_status_eq i.compensation_status CompensationStatus.unscheduled)
            && not (invocation_status_terminal i.status))
          (invalid "compensation before primary invocation is terminal")
      if compensation_status_eq i.compensation_status CompensationStatus.running
          then refuse
              (i.active_compensation_attempt_id is ""
                || is_set i.compensation_failure
                || is_set i.compensation_next_at)
              (invalid "running compensation")
          else (do
            require (i.active_compensation_attempt_id is "") (invalid "inactive compensation")
            validate_idle_compensation i i.compensation_status)

abbrev pub seen_before : List String → String → Bool
seen_before [] id = false
seen_before (s ∷ seen) id = s is id || seen_before seen id

abbrev pub bump : AttemptPhase → AttemptPhase → ℕ → ℕ
bump phase counted n = if attempt_phase_eq phase counted then u32_inc n else n

-- The pointer to an active attempt of a phase.
unfoldable pub validate_active : String → AttemptPhase → Option (ℕ × Attempt) → Result (Unit {0})
validate_active id phase none =
    require (id is "") (invalid "active attempt pointer is missing or terminal")
validate_active id phase (some (n, a)) =
    require (id is "" || (attempt_phase_eq a.phase phase && not (attempt_status_terminal a.status)))
      (invalid "active attempt pointer is missing or terminal")

abbrev pub is_active : InvocationStatus → Bool
is_active s =
    invocation_status_eq s InvocationStatus.running
    || invocation_status_eq s InvocationStatus.waiting

abbrev pub keeps_failure : InvocationStatus → Bool
keeps_failure s =
    invocation_status_eq s InvocationStatus.failed
    || invocation_status_eq s InvocationStatus.retry_wait

unfoldable pub validate_invocation_state : Invocation → Result (Unit {0})
validate_invocation_state i = do
  refuse
      (not (invocation_status_valid i.status)
        || not (compensation_status_valid i.compensation_status)
        || i.revision == 0
        || is_zero i.created_at
        || before i.updated_at i.created_at)
      (invalid "invocation lifecycle")
  refuse (differ (invocation_status_terminal i.status) (is_set i.finished_at))
      (invalid "invocation terminal state and finishedAt")
  refuse (is_active i.status && i.active_attempt_id is "")
      (invalid "active invocation requires an active attempt")
  refuse (not (is_active i.status) && not (i.active_attempt_id is ""))
      (invalid "inactive invocation retains an execution attempt pointer")
  refuse
      (invocation_status_eq i.status InvocationStatus.retry_wait
        && (not (i.active_attempt_id is "") || is_nil i.next_attempt_at))
      (invalid "retry-wait invocation")
  refuse
      (invocation_status_eq i.status InvocationStatus.waiting
        && (i.current_wait_ref is "" || i.wait_generation == 0))
      (invalid "waiting invocation wait generation")
  refuse
      (invocation_status_eq i.status InvocationStatus.succeeded
        && not (valid_digest i.output_refs_digest))
      (invalid "succeeded invocation output refs digest")
  validate_failure i.primary_failure (keeps_failure i.status) "invocation primary failure"
  refuse (not (keeps_failure i.status) && is_set i.primary_failure)
      (invalid "invocation primary failure outside failed or retry-wait")

-- `uint32(countPhase(…))`.
unfoldable pub validate_counts : InvocationLedger → Result (Unit {0})
validate_counts l = do
  require
      (l.invocation.execution_attempt_count
        == count_phase l.attempts AttemptPhase.execution % 4294967296)
      (invalid "invocation execution attempt count")
  require
      (l.invocation.compensation_attempt_count
        == count_phase l.attempts AttemptPhase.compensation % 4294967296)
      (invalid "invocation compensation attempt count")

module _ (c : Canonical) where
  unfoldable pub validate_attempt : Attempt → Invocation → Result (Unit {0})
  validate_attempt a i = do
    require
        (a.invocation_id is i.invocation_id
          && a.run_id is i.run_id
          && a.namespace_id is i.namespace_id)
        (invalid "attempt belongs to another invocation")
    refuse
        (not (attempt_phase_valid a.phase)
          || not (attempt_status_valid a.status)
          || a.ordinal == 0
          || a.revision == 0)
        (invalid "attempt phase, status, ordinal, or revision")
    require
        (a.attempt_id is or_empty (stable_attempt_id c i.invocation_id a.phase a.ordinal)
          && a.resolved_input_digest is i.resolved_input_digest)
        (invalid "attempt stable identity or resolved input digest")
    refuse
        (not (valid_digest a.lease_token_hash)
          || is_zero a.created_at
          || is_zero a.started_at
          || before a.updated_at a.created_at)
        (invalid "attempt lease hash or timestamps")
    refuse (differ (attempt_status_terminal a.status) (is_set a.finished_at))
        (invalid "attempt terminal state and finishedAt")
    require
        (if attempt_status_terminal a.status
          then is_zero a.lease_expires_at
          else after a.lease_expires_at a.updated_at)
        (invalid "attempt lease")
    validate_failure a.failure
        (attempt_status_eq a.status AttemptStatus.failed
          || attempt_status_eq a.status AttemptStatus.abandoned)
        "attempt failure"

  -- The loop over the attempts, with the identities seen and the last ordinal of each phase.
  unfoldable pub validate_attempts :
      Invocation → List String → ℕ → ℕ → List Attempt → Result (Unit {0})
  validate_attempts i seen executions compensations [] = ok tt
  validate_attempts i seen executions compensations (a ∷ rest) = do
    validate_attempt a i
    refuse (seen_before seen a.attempt_id) (invalid "attempt identity is duplicated")
    require
        (a.ordinal == (
          if attempt_phase_eq a.phase AttemptPhase.execution
          then u32_inc executions
          else u32_inc compensations))
        (invalid "attempt ordinals")
    validate_attempts i (a.attempt_id ∷ seen) (bump a.phase AttemptPhase.execution executions)
        (bump a.phase AttemptPhase.compensation compensations) rest

  unfoldable pub validate_invocation_refs : Invocation → Result (Unit {0})
  validate_invocation_refs i = do
    validate_identities (i.invocation_id ∷ i.namespace_id ∷ i.run_id ∷ i.node_id ∷ [])
    expected ← stable_invocation_id c i.run_id i.node_id
    require (expected is i.invocation_id) (invalid "invocation stable identity")
    require
        (valid_type_ref i.type_ref
          && valid_digest i.descriptor_digest
          && valid_digest i.resolved_input_digest
          && valid_digest i.input_refs_digest)
        (invalid "invocation type or frozen digest")

  unfoldable pub validate_invocation_ledger : InvocationLedger → Result (Unit {0})
  validate_invocation_ledger l = do
    validate_invocation_refs l.invocation
    validate_invocation_state l.invocation
    validate_counts l
    validate_compensation l.invocation
    validate_attempts l.invocation [] 0 0 l.attempts
    validate_active l.invocation.active_attempt_id AttemptPhase.execution
        (locate l.attempts l.invocation.active_attempt_id)
    validate_active l.invocation.active_compensation_attempt_id AttemptPhase.compensation
        (locate l.attempts l.invocation.active_compensation_attempt_id)
