-- ===== src/Execution/Invocation/Fence.antt =====
-- kernel/execution/invocation.go: the decision of a reducer, the lease fence of a worker's attempt
-- and how an attempt is closed.
use xgc2_orchestration_core.Base.{
  ℕ, String, Bool, false, ◌&&◌, ◌||◌, Option, none, some, List, [], ◌∷◌, ◌==◌, ◌is◌, Result, ok,
  err, revision_conflict, lease_conflict, ◌>>=◌, ◌>>◌, require, refuse, Time, no_time, is_zero,
  before, u64_inc, if◌then◌else◌,
}
use xgc2_orchestration_core.Contracts.Json.{Fields, Canonical}
use xgc2_orchestration_core.Contracts.Statuses.{AttemptPhase, attempt_phase_eq, AttemptStatus}
use xgc2_orchestration_core.Contracts.Records.{
  StructuredFailure, Invocation, Attempt, InvocationLedger, DomainEvent, DurableIntent,
}
use xgc2_orchestration_core.Execution.Identity.{private_token_digest}
use xgc2_orchestration_core.Execution.Event.{new_event}
use xgc2_orchestration_core.Execution.Invocation.Validation.{locate}

pub record InvocationDecision : Type 0 where
  pub ledger : InvocationLedger
  pub events : List DomainEvent
  pub intents : List DurableIntent

pub record AttemptFence : Type 0 where
  pub invocation_id : String
  pub invocation_revision : ℕ
  pub attempt_id : String
  pub attempt_revision : ℕ
  pub lease_token : String
  pub at : Time

-- `activeID` of the fence: the pointer of the attempt's phase.
unfoldable pub active_pointer : Invocation → AttemptPhase → String
active_pointer i phase =
    if attempt_phase_eq phase AttemptPhase.compensation
    then i.active_compensation_attempt_id
    else i.active_attempt_id

-- The digest of a private token, or `lease_conflict` where it has none.
unfoldable pub token_matches : Result String → String → Bool
token_matches (ok hash) expected = expected is hash
token_matches (err e) expected = false

module _ (c : Canonical) where
  unfoldable pub check_located_fence :
      Invocation → AttemptFence → Option (ℕ × Attempt) → Result (ℕ × Attempt)
  check_located_fence i fence none = err lease_conflict
  check_located_fence i fence (some (index, a)) = do
    require
        (token_matches (private_token_digest c fence.lease_token) a.lease_token_hash
          && a.revision == fence.attempt_revision
          && before fence.at a.lease_expires_at)
        lease_conflict
    require (active_pointer i a.phase is a.attempt_id) lease_conflict
    ok (index, a)

  -- `validateAttemptFenceAny`, with the attempt beside its index.
  unfoldable pub validate_attempt_fence_any : InvocationLedger → AttemptFence → Result (ℕ × Attempt)
  validate_attempt_fence_any l fence = do
    require
        (fence.invocation_id is l.invocation.invocation_id
          && fence.invocation_revision == l.invocation.revision)
        revision_conflict
    refuse (is_zero fence.at || before fence.at l.invocation.updated_at) lease_conflict
    check_located_fence l.invocation fence (locate l.attempts fence.attempt_id)

  unfoldable pub validate_attempt_fence_for_phase :
      InvocationLedger → AttemptFence → AttemptPhase → Result (ℕ × Attempt)
  validate_attempt_fence_for_phase l fence phase = do
    (index, a) ← validate_attempt_fence_any l fence
    require (attempt_phase_eq a.phase phase) lease_conflict
    ok (index, a)

  -- `newEvent("invocation", …)` of a ledger, and the decision that carries it.
  unfoldable pub decide :
      InvocationLedger
      → String
      → String
      → Time
      → Fields
      → List DurableIntent
      → Result InvocationDecision
  decide l event_type command_id at payload intents = do
    event ←
        new_event c "invocation" l.invocation.invocation_id l.invocation.revision event_type
          command_id at payload
    ok (record { ledger = l; events = event ∷ []; intents = intents })

-- An attempt that ends: no lease, a finish time, and one more revision.
unfoldable pub close_attempt : AttemptStatus → Option StructuredFailure → Time → Attempt → Attempt
close_attempt status failure at a = record a {
  status = status;
  failure = failure;
  lease_expires_at = no_time;
  updated_at = at;
  revision = u64_inc a.revision;
  finished_at = some at;
}
