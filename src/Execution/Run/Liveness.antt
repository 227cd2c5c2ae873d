-- ===== src/Execution/Run/Liveness.antt =====
-- A stopping Run can end: the transition that its frozen intent asks for is never refused, once its
-- closure is proved.
use Prim.Native.String.{◌++◌}
use xgc2_orchestration_core.Base.{
  String, true, false, none, some, [], ◌∷◌, ◌+◌, ◌≤◌, ◌<◌, ◌≡◌, refl, ◌∙◌, ap, ok, arith, ◌is◌,
  ◌>>◌,
}
use xgc2_orchestration_core.Contracts.Identity.{valid_identifier}
use xgc2_orchestration_core.Contracts.Json.{obj, Canonical, digest_value}
use xgc2_orchestration_core.Contracts.Statuses.{
  RunStatus, run_status_terminal, run_status_eq, run_status_valid, TerminationKind,
  requires_stopping, termination_kind_eq, termination_kind_valid, run_status_name,
}
use xgc2_orchestration_core.Contracts.Records.{TerminationIntent, Run, satisfied, DomainEvent}
use xgc2_orchestration_core.Execution.Identity.{
  validate_identity, validate_identities, validate_failures, stable_event_id, validate_failure,
}
use xgc2_orchestration_core.Execution.Checks.{validate_failure_relabel, new_event_ok}
use xgc2_orchestration_core.Execution.Event.{new_event}
use xgc2_orchestration_core.Execution.Run.Validation.{
  validate_run, run_allowed, terminal_status, validate_run_times, validate_run_outcome,
  validate_run_termination, validate_run_refs, validate_frozen, validate_optional_frozen,
  frozen_revision, validate_optional_parent, validate_termination, validate_admission_fences,
  validate_run_transition,
}
use xgc2_orchestration_core.Execution.Run.Transition.{
  run_event, RunTransitionCommand, RunDecision, validate_run_transition_guards,
  check_run_transition, validate_other_guards, closes_otherwise, next_run, transition_run,
  stopping_intents, transition_payload,
}

-- A command that asks for the end that a stopping Run has frozen, with a proof of its closure.
pub record ClosesRun (r : Run) (intent : TerminationIntent) (command : RunTransitionCommand)
    : Type 0 where
  pub same_run : (command.run_id is r.run_id) ≡ true
  pub fenced : command.expected_revision ≡ r.revision
  pub later : r.updated_at ≤ command.at
  pub identified : valid_identifier command.command_id ≡ true
  pub target : command.to ≡ terminal_status intent.kind
  pub no_intent : command.termination ≡ none
  pub closure_fenced : command.closure.run_revision ≡ r.revision
  pub closed : satisfied command.closure ≡ true
  pub cleanup : validate_failures command.cleanup_failures ≡ ok tt

module _ (r : Run) (intent : TerminationIntent) (command : RunTransitionCommand)
    (valid : validate_run r ≡ ok tt) (stopping : r.status ≡ RunStatus.stopping)
    (frozen : r.termination ≡ some intent) (closes : ClosesRun r intent command) where
  intent_valid : validate_termination intent ≡ ok tt
  unfolding validate_run validate_run_termination validate_optional_frozen validate_frozen
  intent_valid = ground arith

  intent_kind : requires_stopping intent.kind ≡ true
  unfolding validate_termination
  intent_kind = ground (arith, intent_valid)

  timed : 0 < r.updated_at
  unfolding validate_run validate_run_times
  timed = ground arith

  checked : check_run_transition r command ≡ ok tt
  unfolding check_run_transition validate_identity validate_run_transition run_allowed
      terminal_status run_status_terminal run_status_eq run_status_valid requires_stopping
      validate_run_transition_guards validate_other_guards closes_otherwise
  checked = ground (arith, intent_kind, timed)

  -- The parts of `validate_run` for the next Run.
  next_refs : validate_run_refs (next_run r command) ≡ ok tt
  unfolding validate_run validate_run_refs next_run terminal_status run_status_eq
  next_refs = ground (arith, intent_kind)

  next_times :
      r.revision + 1 < 18446744073709551616 → validate_run_times (next_run r command) ≡ ok tt
  unfolding validate_run validate_run_times next_run terminal_status run_status_eq run_status_valid
      run_status_terminal requires_stopping
  next_times small = ground (arith, intent_kind)

  next_termination : validate_run_termination (next_run r command) ≡ ok tt
  unfolding validate_run validate_run_termination validate_optional_frozen validate_frozen next_run
      terminal_status run_status_eq run_status_terminal frozen_revision requires_stopping
  next_termination = ground (arith, intent_kind, intent_valid)

  next_failure :
      validate_failure
        (next_run r command).primary_failure
        (run_status_eq (next_run r command).status RunStatus.failed)
        "termination primary failure"
      ≡ ok tt
  unfolding validate_termination next_run terminal_status run_status_eq run_status_terminal
      requires_stopping termination_kind_eq
  next_failure = ground (arith, intent_kind, intent_valid)

  next_ended :
      (run_status_eq (next_run r command).status RunStatus.succeeded ≡ false)
      × (run_status_eq (next_run r command).status RunStatus.rejected ≡ false)
      × (termination_kind_valid (next_run r command).termination_kind ≡ true)
      × ((next_run r command).cleanup_failures ≡ command.cleanup_failures)
  unfolding next_run terminal_status run_status_eq run_status_terminal requires_stopping
      termination_kind_valid
  next_ended = ground (arith, intent_kind)

  next_outcome : validate_run_outcome (next_run r command) ≡ ok tt
  unfolding validate_run_outcome
  next_outcome = ground (
    arith,
    next_ended,
    validate_failure_relabel (next_run r command).primary_failure
        (run_status_eq (next_run r command).status RunStatus.failed) "termination primary failure"
        "run primary failure" next_failure,
  )

  next_owner :
      (validate_optional_parent
          (next_run r command).parent
          (next_run r command).run_id
          (next_run r command).root_run_id
        >> validate_admission_fences
            (next_run r command).admission_policy_ref
            (next_run r command).admission_policy_digest
            (next_run r command).active_owner_ref
            (next_run r command).active_owner_generation
            (next_run r command).parent)
      ≡ ok tt
  unfolding validate_run next_run
  next_owner = ground arith

  next_valid : r.revision + 1 < 18446744073709551616 → validate_run (next_run r command) ≡ ok tt
  unfolding validate_run
  next_valid small = rw (next_refs, next_times small, next_termination, next_outcome) next_owner

module _ (c : Canonical) (r : Run) (intent : TerminationIntent) (command : RunTransitionCommand)
    {digest event_id : String} (valid : validate_run r ≡ ok tt)
    (stopping : r.status ≡ RunStatus.stopping) (frozen : r.termination ≡ some intent)
    (closes : ClosesRun r intent command) (room : r.revision + 1 < 18446744073709551616)
    (encoded : digest_value c (obj (transition_payload r (next_run r command))) ≡ ok digest)
    (named : stable_event_id c "run" r.run_id (r.revision + 1) ≡ ok event_id) where
  event_named : valid_identifier ("run." ++ run_status_name command.to) ≡ true
  unfolding terminal_status requires_stopping valid_identifier
  event_named =
      rw closes.target
        (by_kind intent.kind (intent_kind r intent command valid stopping frozen closes))
    where
      by_kind :
          (k : TerminationKind)
          → requires_stopping k ≡ true
          → valid_identifier ("run." ++ run_status_name (terminal_status k)) ≡ true
      by_kind TerminationKind.failed h = refl
      by_kind TerminationKind.canceled h = refl
      by_kind TerminationKind.stopped h = refl
      by_kind TerminationKind.completed h = cc
      by_kind TerminationKind.rejected h = cc
      by_kind TerminationKind.other h = cc

  run_named : valid_identifier r.run_id ≡ true
  unfolding validate_run validate_run_refs validate_identities validate_identity
  run_named = ground arith

  run_named_run : valid_identifier "run" ≡ true
  unfolding valid_identifier
  run_named_run = refl

  next_names :
      ((next_run r command).run_id ≡ r.run_id)
      × ((next_run r command).revision ≡ r.revision + 1)
      × ((next_run r command).status ≡ command.to)
  unfolding next_run
  next_names = ground arith

  no_intents : stopping_intents c (next_run r command) command.to ≡ ok []
  unfolding stopping_intents terminal_status requires_stopping
  no_intents = ground (arith, intent_kind r intent command valid stopping frozen closes)

  ends_terminal : run_status_terminal command.to ≡ true
  unfolding terminal_status requires_stopping run_status_terminal
  ends_terminal = ground (arith, intent_kind r intent command valid stopping frozen closes)

  event_ok :
      (e : DomainEvent) × (new_event c "run"
          (next_run r command).run_id
          (next_run r command).revision
          ("run." ++ run_status_name command.to)
          command.command_id
          command.at
          (transition_payload r (next_run r command))
        ≡ ok e)
  event_ok =
      new_event_ok c "run" (next_run r command).run_id ("run." ++ run_status_name command.to)
        command.command_id (next_run r command).revision command.at
        (transition_payload r (next_run r command)) {event_id = event_id} run_named_run
        (rw next_names.0 run_named) (omega (arith, next_names.1))
        (omega (arith, timed r intent command valid stopping frozen closes, closes.later))
        event_named closes.identified encoded (rw (next_names.0, next_names.1) named)

  -- A valid stopping Run always accepts the command that ends it: for a termination intent that it
  -- has frozen, an identified command of the right Run and revision that does not move time back,
  -- carries satisfied closure facts of that revision and valid cleanup failures, and asks for the
  -- status of the intent is accepted, and the Run is terminal in that status, provided that the
  -- revision does not overflow 64 bits and the encoder accepts the event.
  pub stopping_terminates :
      (d : RunDecision) × (transition_run c r command ≡ ok d)
      × (d.run.status ≡ terminal_status intent.kind)
      × (run_status_terminal d.run.status ≡ true)
  unfolding transition_run run_event
  stopping_terminates =
      let (e, built) = event_ok in
      (
        record { run = next_run r command; events = e ∷ []; intents = [] },
        rw (
          checked r intent command valid stopping frozen closes,
          next_valid r intent command valid stopping frozen closes room,
          built,
          no_intents,
        ),
        next_names.2 ∙ closes.target,
        ap run_status_terminal next_names.2 ∙ ends_terminal,
      )
