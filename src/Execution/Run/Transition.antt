-- ===== src/Execution/Run/Transition.antt =====
-- kernel/execution/run.go: admission of a Run and its transitions.
use Prim.Native.String.{◌++◌}
use xgc2_orchestration_core.Base.{
  ℕ, String, Bool, true, false, ◌&&◌, ◌||◌, not, Option, none, some, List, [], ◌∷◌, ◌==◌, ◌is◌,
  Result, ok, err, invalid, invalid_transition, revision_conflict, closure_open, ◌>>=◌, ◌>>◌,
  require, refuse, is_set, Time, is_zero, before, u64_inc, if◌then◌else◌,
}
use xgc2_orchestration_core.Contracts.Json.{Json, Fields, field, num, Canonical}
use xgc2_orchestration_core.Contracts.Statuses.{
  RunStatus, run_status_eq, run_status_terminal, run_status_name, TerminationKind,
  termination_kind_name, requires_stopping, DurableIntentKind,
}
use xgc2_orchestration_core.Contracts.Records.{
  ActionRef, StructuredFailure, TerminationIntent, ParentRunLink, Run, RunClosureFacts, satisfied,
  DomainEvent, DurableIntent,
}
use xgc2_orchestration_core.Execution.Identity.{
  action_ref_json, validate_identity, validate_identities, validate_optional_identity,
}
use xgc2_orchestration_core.Execution.Event.{new_event, new_durable_intent}
use xgc2_orchestration_core.Execution.Run.Validation.{
  validate_run, validate_run_transition, validate_termination, terminal_status, validate_digests,
  action_ref_valid, validate_admission_fences,
}

pub record AdmitRunCommand : Type 0 where
  pub run_id : String
  pub namespace_id : String
  pub action_ref : ActionRef
  pub execution_plan_ref : String
  pub plan_digest : String
  pub trigger_ref : String
  pub trigger_digest : String
  pub input_digest : String
  pub provenance_artifact_ref : String
  pub scope_ref : String
  pub parent : Option ParentRunLink
  pub root_run_id : String
  pub actor_ref : String
  pub source_ref : String
  pub correlation_ref : String
  pub admission_policy_ref : String
  pub admission_policy_digest : String
  pub active_owner_ref : String
  pub active_owner_generation : ℕ
  pub command_id : String
  pub at : Time

pub record RunTransitionCommand : Type 0 where
  pub run_id : String
  pub expected_revision : ℕ
  pub to : RunStatus
  pub termination : Option TerminationIntent
  pub result_ref : String
  pub cleanup_failures : List StructuredFailure
  pub closure : RunClosureFacts
  pub command_id : String
  pub at : Time

pub record RunDecision : Type 0 where
  pub run : Run
  pub events : List DomainEvent
  pub intents : List DurableIntent

unfoldable pub validate_admit_run : AdmitRunCommand → Result (Unit {0})
validate_admit_run command = do
  validate_identities (
      command.run_id ∷ command.namespace_id ∷ command.execution_plan_ref ∷ command.trigger_ref
      ∷ command.actor_ref ∷ command.source_ref ∷ command.command_id ∷ [])
  refuse (is_zero command.at) (invalid "run admission time")
  validate_digests (command.plan_digest ∷ command.trigger_digest ∷ command.input_digest ∷ [])
  require (action_ref_valid command.action_ref) (invalid "run admission action ref")
  validate_optional_identity command.admission_policy_ref "run admission policy ref"
  validate_optional_identity command.active_owner_ref "run active owner ref"
  validate_admission_fences command.admission_policy_ref command.admission_policy_digest
      command.active_owner_ref command.active_owner_generation command.parent

-- The Run that `AdmitRun` builds.
unfoldable pub admitted_run : AdmitRunCommand → Run
admitted_run command = record {
  run_id = command.run_id;
  namespace_id = command.namespace_id;
  action_ref = command.action_ref;
  execution_plan_ref = command.execution_plan_ref;
  plan_digest = command.plan_digest;
  trigger_ref = command.trigger_ref;
  trigger_digest = command.trigger_digest;
  input_digest = command.input_digest;
  provenance_artifact_ref = command.provenance_artifact_ref;
  scope_ref = command.scope_ref;
  parent = command.parent;
  root_run_id = if command.root_run_id is "" then command.run_id else command.root_run_id;
  actor_ref = command.actor_ref;
  source_ref = command.source_ref;
  correlation_ref = command.correlation_ref;
  admission_policy_ref = command.admission_policy_ref;
  admission_policy_digest = command.admission_policy_digest;
  active_owner_ref = command.active_owner_ref;
  active_owner_generation = command.active_owner_generation;
  status = RunStatus.accepted;
  termination = none;
  termination_kind = TerminationKind.other;
  result_ref = "";
  primary_failure = none;
  cleanup_failures = [];
  accepted_at = command.at;
  started_at = none;
  updated_at = command.at;
  finished_at = none;
  revision = 1;
}

-- `current.Termination == nil || terminalStatus(current.Termination.Kind) != command.To`.
unfoldable pub closes_otherwise : Option TerminationIntent → RunStatus → Bool
closes_otherwise none to = true
closes_otherwise (some intent) to = not (run_status_eq (terminal_status intent.kind) to)

-- `validateRunTransitionGuards`, its last part: a target other than stopping.
unfoldable pub validate_other_guards : Run → RunTransitionCommand → Result (Unit {0})
validate_other_guards current command = do
  refuse (is_set command.termination) (invalid "termination intent frozen off entry to stopping")
  refuse
      (run_status_eq current.status RunStatus.stopping
        && closes_otherwise current.termination command.to)
      (invalid "terminal run status and frozen termination intent")
  refuse (run_status_eq command.to RunStatus.succeeded && command.result_ref is "")
      (invalid "succeeded run result ref")
  refuse
      (run_status_eq command.to RunStatus.rejected
        && not (run_status_eq current.status RunStatus.accepted))
      (invalid "only an accepted run can be rejected")

-- The guard on `command.Termination` on entry to stopping.
unfoldable pub validate_stop_intent : Option TerminationIntent → Result (Unit {0})
validate_stop_intent none = err (invalid "stopping requires an intent")
validate_stop_intent (some intent) = do
  require (requires_stopping intent.kind) (invalid "stopping requires an intent")
  validate_termination intent

unfoldable pub validate_run_transition_guards : Run → RunTransitionCommand → Result (Unit {0})
validate_run_transition_guards current command = do
  refuse (run_status_terminal command.to && not (satisfied command.closure)) closure_open
  refuse (not (run_status_terminal command.to) && not (command.result_ref is ""))
      (invalid "only a succeeded terminal run can publish a result")
  if run_status_eq command.to RunStatus.stopping
      then (do
        refuse (is_set current.termination) (invalid "run termination intent is already frozen")
        validate_stop_intent command.termination)
      else validate_other_guards current command

-- The checks of `TransitionRun` before it builds the next Run.
unfoldable pub check_run_transition : Run → RunTransitionCommand → Result (Unit {0})
check_run_transition current command = do
  validate_run current
  require (command.run_id is current.run_id) (invalid "run transition targets another aggregate")
  require (command.expected_revision == current.revision) revision_conflict
  refuse (is_zero command.at || before command.at current.updated_at)
      (invalid "run transition time")
  validate_identity command.command_id "run command id"
  validate_run_transition current.status command.to
  refuse (run_status_terminal current.status) invalid_transition
  refuse (run_status_terminal command.to && not (command.closure.run_revision == current.revision))
      (invalid "run closure facts revision")
  validate_run_transition_guards current command

abbrev pub or_started : Option Time → Bool → Time → Option Time
or_started none true at = some at
or_started none false at = none
or_started (some t) starts at = some t

-- `next.TerminationKind` and `next.PrimaryFailure` of a terminal Run, from its frozen intent.
abbrev pub closing_kind : Option TerminationIntent → TerminationKind → TerminationKind
closing_kind none kind = kind
closing_kind (some intent) kind = if requires_stopping intent.kind then intent.kind else kind

abbrev pub closing_failure :
    Option TerminationIntent → Option StructuredFailure → Option StructuredFailure
closing_failure none failure = failure
closing_failure (some intent) failure =
    if requires_stopping intent.kind then intent.primary_failure else failure

-- The kind that the target alone decides.
abbrev pub direct_kind : RunStatus → TerminationKind → TerminationKind
direct_kind RunStatus.succeeded kind = TerminationKind.completed
direct_kind RunStatus.rejected kind = TerminationKind.rejected
direct_kind _ kind = kind

-- The next Run. `cloneRun` and its parts copy, and here values are never shared. The frozen intent
-- is that of the next Run; on a terminal target it is the current one.
unfoldable pub next_run : Run → RunTransitionCommand → Run
next_run current command = record current {
  status = command.to;
  revision = u64_inc current.revision;
  updated_at = command.at;
  started_at =
      or_started current.started_at (run_status_eq command.to RunStatus.running) command.at;
  termination =
      if run_status_eq command.to RunStatus.stopping
      then command.termination
      else current.termination;
  result_ref =
      if run_status_eq command.to RunStatus.succeeded
      then command.result_ref
      else current.result_ref;
  termination_kind =
      let kind = direct_kind command.to current.termination_kind in
      if run_status_terminal command.to then closing_kind current.termination kind else kind;
  primary_failure =
      if run_status_terminal command.to
      then closing_failure current.termination current.primary_failure
      else current.primary_failure;
  cleanup_failures =
      if run_status_terminal command.to then command.cleanup_failures else current.cleanup_failures;
  finished_at = if run_status_terminal command.to then some command.at else current.finished_at;
}

-- The payload of the event of a transition.
unfoldable pub transition_payload : Run → Run → Fields
transition_payload current next = field "from" (Json.text (run_status_name current.status)) (
    field "to" (Json.text (run_status_name next.status)) (
      field "terminationKind" (Json.text (termination_kind_name next.termination_kind)) Fields.end))

abbrev frozen_kind : Option TerminationIntent → TerminationKind
frozen_kind none = TerminationKind.other
frozen_kind (some intent) = intent.kind

module _ (c : Canonical) where
  unfoldable pub admit_run : AdmitRunCommand → Result RunDecision
  admit_run command = do
    validate_admit_run command
    let run = admitted_run command
    validate_run run
    event ← new_event c "run" run.run_id run.revision "run.accepted" command.command_id command.at (
        field "actionRef" (action_ref_json run.action_ref) (
          field "planDigest" (Json.text run.plan_digest) (
            field "triggerDigest" (Json.text run.trigger_digest)
              (field "inputDigest" (Json.text run.input_digest) Fields.end))))
    ok (record { run = run; events = event ∷ []; intents = [] })

  -- The cleanup intent that entering stopping adds.
  unfoldable pub cleanup_intent : Run → Result DurableIntent
  cleanup_intent next = new_durable_intent c DurableIntentKind.cleanup next.run_id next.revision (
      field "runId" (Json.text next.run_id) (
        field "terminationKind" (Json.text (termination_kind_name (frozen_kind next.termination)))
          (field "runRevision" (num next.revision) Fields.end)))

  unfoldable pub stopping_intents : Run → RunStatus → Result (List DurableIntent)
  stopping_intents next RunStatus.stopping = do intent ← cleanup_intent next; ok (intent ∷ [])
  stopping_intents next _ = ok []

  -- The event of a transition to the next Run.
  unfoldable pub run_event : Run → Run → RunTransitionCommand → Result DomainEvent
  run_event current next command =
      new_event c "run" next.run_id next.revision ("run." ++ run_status_name command.to)
        command.command_id command.at (transition_payload current next)

  unfoldable pub transition_run : Run → RunTransitionCommand → Result RunDecision
  transition_run current command = do
    check_run_transition current command
    let next = next_run current command
    validate_run next
    event ← run_event current next command
    intents ← stopping_intents next command.to
    ok (record { run = next; events = event ∷ []; intents = intents })
