-- ===== src/Execution/Run/Validation.antt =====
-- kernel/execution/run.go: what a well-formed Run is, and the transition table. A validator returns
-- its first error; the checks stand in the order of the source, cut into the parts named below.
use xgc2_orchestration_core.Base.{
  ℕ, String, Bool, true, false, ◌&&◌, ◌||◌, not, Option, none, some, List, [], ◌∷◌, ◌==◌, ◌is◌,
  Result, ok, invalid, invalid_transition, ◌>>◌, require, refuse, is_set, is_nil, differ, is_zero,
  outside, before, u64_inc, if◌then◌else◌,
}
use xgc2_orchestration_core.Contracts.Identity.{valid_identifier, valid_digest}
use xgc2_orchestration_core.Contracts.Statuses.{
  RunStatus, run_status_eq, run_status_valid, run_status_terminal, TerminationKind,
  termination_kind_eq, termination_kind_valid, requires_stopping,
}
use xgc2_orchestration_core.Contracts.Records.{ActionRef, TerminationIntent, ParentRunLink, Run}
use xgc2_orchestration_core.Execution.Identity.{
  validate_identities, validate_optional_identities, validate_canonical_text, validate_failure,
  validate_failures, max_message_bytes,
}

-- The literal `allowed` table of `ValidateRunTransition`; a missing row or cell is `false`.
unfoldable pub run_allowed : RunStatus → RunStatus → Bool
run_allowed RunStatus.accepted RunStatus.queued = true
run_allowed RunStatus.accepted RunStatus.running = true
run_allowed RunStatus.accepted RunStatus.stopping = true
run_allowed RunStatus.accepted RunStatus.rejected = true
run_allowed RunStatus.queued RunStatus.running = true
run_allowed RunStatus.queued RunStatus.stopping = true
run_allowed RunStatus.running RunStatus.waiting = true
run_allowed RunStatus.running RunStatus.stopping = true
run_allowed RunStatus.running RunStatus.succeeded = true
run_allowed RunStatus.waiting RunStatus.running = true
run_allowed RunStatus.waiting RunStatus.stopping = true
run_allowed RunStatus.waiting RunStatus.succeeded = true
run_allowed RunStatus.stopping RunStatus.failed = true
run_allowed RunStatus.stopping RunStatus.canceled = true
run_allowed RunStatus.stopping RunStatus.stopped = true
run_allowed _ _ = false

unfoldable pub validate_run_transition : RunStatus → RunStatus → Result (Unit {0})
validate_run_transition from to = do
  refuse (not (run_status_valid from) || not (run_status_valid to) || run_status_eq from to)
      invalid_transition
  require (run_allowed from to) invalid_transition

-- `terminalStatus`; the default of the `switch` is the empty status.
unfoldable pub terminal_status : TerminationKind → RunStatus
terminal_status TerminationKind.failed = RunStatus.failed
terminal_status TerminationKind.canceled = RunStatus.canceled
terminal_status TerminationKind.stopped = RunStatus.stopped
terminal_status _ = RunStatus.other

unfoldable pub validate_termination : TerminationIntent → Result (Unit {0})
validate_termination intent = do
  refuse (not (requires_stopping intent.kind) || intent.requested_revision == 0)
      (invalid "termination intent kind or requested revision")
  validate_identities (intent.requested_by ∷ intent.reason_code ∷ intent.command_id ∷ [])
  validate_canonical_text intent.reason "termination reason" max_message_bytes false
  refuse (is_zero intent.requested_at) (invalid "termination requestedAt")
  validate_failure intent.primary_failure (termination_kind_eq intent.kind TerminationKind.failed)
      "termination primary failure"

unfoldable pub validate_parent : ParentRunLink → String → String → Result (Unit {0})
validate_parent parent run_id root_run_id = do
  validate_identities
      (parent.parent_run_id ∷ parent.parent_invocation_id ∷ parent.call_node_id ∷ [])
  refuse
      (not (valid_digest parent.mapping_digest)
        || parent.parent_run_id is run_id
        || root_run_id is run_id)
      (invalid "parent run link or mapping digest")

unfoldable pub action_ref_valid : ActionRef → Bool
action_ref_valid ref =
    valid_identifier ref.action_id && valid_identifier ref.version && valid_digest ref.digest

-- The digests of a loop over a map or a slice.
unfoldable pub validate_digests : List String → Result (Unit {0})
validate_digests [] = ok tt
validate_digests (d ∷ ds) = do require (valid_digest d) (invalid "digest"); validate_digests ds

-- The admission fences, which `ValidateRun` and `validateAdmitRun` check alike.
unfoldable pub validate_admission_fences :
    String → String → String → ℕ → Option ParentRunLink → Result (Unit {0})
validate_admission_fences policy_ref policy_digest owner_ref owner_generation parent = do
  refuse
      (differ (policy_ref is "") (policy_digest is "")
        || differ (owner_ref is "") (owner_generation == 0))
      (invalid "run admission policy and active owner fences")
  refuse (not (policy_digest is "") && not (valid_digest policy_digest))
      (invalid "run admission policy digest")
  refuse (is_set parent && (not (policy_ref is "") || not (owner_ref is "")))
      (invalid "child run root ingress policy or active owner")
  refuse (not (owner_ref is "") && policy_ref is "") (invalid "run active owner policy")

unfoldable pub validate_run_refs : Run → Result (Unit {0})
validate_run_refs run = do
  validate_identities (
      run.run_id ∷ run.namespace_id ∷ run.execution_plan_ref ∷ run.trigger_ref ∷ run.root_run_id
      ∷ run.actor_ref ∷ run.source_ref ∷ [])
  require (action_ref_valid run.action_ref) (invalid "run action ref")
  validate_digests (run.plan_digest ∷ run.trigger_digest ∷ run.input_digest ∷ [])
  validate_optional_identities (
      run.provenance_artifact_ref ∷ run.scope_ref ∷ run.correlation_ref ∷ run.admission_policy_ref
      ∷ run.active_owner_ref ∷ run.result_ref ∷ [])

unfoldable pub validate_run_times : Run → Result (Unit {0})
validate_run_times run = do
  refuse
      (not (run_status_valid run.status)
        || run.revision == 0
        || is_zero run.accepted_at
        || before run.updated_at run.accepted_at)
      (invalid "run state, revision, or timestamps")
  refuse (outside run.started_at run.accepted_at run.updated_at) (invalid "run startedAt")
  refuse (differ (run_status_terminal run.status) (is_set run.finished_at))
      (invalid "run terminal state and finishedAt")
  refuse (outside run.finished_at run.accepted_at run.updated_at) (invalid "run finishedAt")

-- `expectedRevision` of the frozen termination: one past the request, and two in a terminal state.
unfoldable pub frozen_revision : RunStatus → ℕ → ℕ
frozen_revision status requested =
    if run_status_terminal status then u64_inc (u64_inc requested) else u64_inc requested

unfoldable pub validate_frozen : Run → TerminationIntent → Result (Unit {0})
validate_frozen run intent = do
  validate_termination intent
  refuse (not (run_status_eq run.status RunStatus.stopping) && not (run_status_terminal run.status))
      (invalid "frozen termination intent outside stopping or terminal state")
  refuse
      (run_status_terminal run.status
        && not (run_status_eq (terminal_status intent.kind) run.status))
      (invalid "terminal run status and frozen termination intent")
  require (run.revision == frozen_revision run.status intent.requested_revision)
      (invalid "run revision and frozen termination request")

unfoldable pub validate_optional_frozen : Run → Option TerminationIntent → Result (Unit {0})
validate_optional_frozen run none = ok tt
validate_optional_frozen run (some intent) = validate_frozen run intent

unfoldable pub validate_run_termination : Run → Result (Unit {0})
validate_run_termination run = do
  refuse (run_status_eq run.status RunStatus.stopping && is_nil run.termination)
      (invalid "stopping run termination intent")
  validate_optional_frozen run run.termination

unfoldable pub validate_run_outcome : Run → Result (Unit {0})
validate_run_outcome run = do
  validate_failure run.primary_failure (run_status_eq run.status RunStatus.failed)
      "run primary failure"
  validate_failures run.cleanup_failures
  refuse
      (run_status_eq run.status RunStatus.succeeded
        && (not (termination_kind_eq run.termination_kind TerminationKind.completed)
            || run.result_ref is ""))
      (invalid "succeeded run termination kind and result ref")
  refuse
      (run_status_eq run.status RunStatus.rejected
        && not (termination_kind_eq run.termination_kind TerminationKind.rejected))
      (invalid "rejected run termination kind")
  refuse (run_status_terminal run.status && not (termination_kind_valid run.termination_kind))
      (invalid "terminal run termination kind")

unfoldable pub validate_optional_parent : Option ParentRunLink → String → String → Result (Unit {0})
validate_optional_parent none run_id root_run_id = ok tt
validate_optional_parent (some parent) run_id root_run_id =
    validate_parent parent run_id root_run_id

unfoldable pub validate_run : Run → Result (Unit {0})
validate_run run = do
  validate_run_refs run
  validate_run_times run
  validate_run_termination run
  validate_run_outcome run
  validate_optional_parent run.parent run.run_id run.root_run_id
  validate_admission_fences run.admission_policy_ref run.admission_policy_digest
      run.active_owner_ref run.active_owner_generation run.parent
