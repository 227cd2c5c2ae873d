-- ===== src/Execution/Run/Revisions.antt =====
-- The compare-and-swap of a Run: revisions, and what a transition cannot change.
use xgc2_orchestration_core.Base.{
  ◌+◌, ◌≤◌, ◌<◌, ◌≡◌, ◌≢◌, refl, ok, err, revision_conflict, arith, u64_inc, eq_iff,
}
use xgc2_orchestration_core.Contracts.Json.{Canonical}
use xgc2_orchestration_core.Contracts.Records.{Run}
use xgc2_orchestration_core.Execution.Run.Validation.{validate_run, validate_run_times}
use xgc2_orchestration_core.Execution.Run.Transition.{
  RunTransitionCommand, RunDecision, check_run_transition, next_run, transition_run,
}
use xgc2_orchestration_core.Execution.Run.Accepted.{
  transition_run-Accepted, run-transition_run, transition_run-valid,
}

-- What a Run is: its action, plan, inputs, lineage and admission.
pub record SameRun (r s : Run) : Type 0 where
  pub run_id : s.run_id ≡ r.run_id
  pub namespace_id : s.namespace_id ≡ r.namespace_id
  pub action_ref : s.action_ref ≡ r.action_ref
  pub execution_plan_ref : s.execution_plan_ref ≡ r.execution_plan_ref
  pub plan_digest : s.plan_digest ≡ r.plan_digest
  pub trigger_ref : s.trigger_ref ≡ r.trigger_ref
  pub trigger_digest : s.trigger_digest ≡ r.trigger_digest
  pub input_digest : s.input_digest ≡ r.input_digest
  pub provenance_artifact_ref : s.provenance_artifact_ref ≡ r.provenance_artifact_ref
  pub scope_ref : s.scope_ref ≡ r.scope_ref
  pub parent : s.parent ≡ r.parent
  pub root_run_id : s.root_run_id ≡ r.root_run_id
  pub actor_ref : s.actor_ref ≡ r.actor_ref
  pub source_ref : s.source_ref ≡ r.source_ref
  pub correlation_ref : s.correlation_ref ≡ r.correlation_ref
  pub admission_policy_ref : s.admission_policy_ref ≡ r.admission_policy_ref
  pub admission_policy_digest : s.admission_policy_digest ≡ r.admission_policy_digest
  pub active_owner_ref : s.active_owner_ref ≡ r.active_owner_ref
  pub active_owner_generation : s.active_owner_generation ≡ r.active_owner_generation
  pub accepted_at : s.accepted_at ≡ r.accepted_at

pub next_run-SameRun : (r : Run) (command : RunTransitionCommand) → SameRun r (next_run r command)
unfolding next_run
next_run-SameRun r command = ground arith

pub validate_run-revision : (r : Run) → validate_run r ≡ ok tt → r.revision ≢ 0
unfolding validate_run validate_run_times
validate_run-revision r h = ground arith

pub revision-next_run :
    (r : Run) (command : RunTransitionCommand)
    → r.revision < 18446744073709551616
    → validate_run (next_run r command) ≡ ok tt
    → (next_run r command).revision ≡ r.revision + 1
revision-next_run r command small h = omega (arith, counted, validate_run-revision _ h)
  where
    counted : (next_run r command).revision ≡ u64_inc r.revision
    counted = unfold next_run in refl

module _ (c : Canonical) (current : Run) (command : RunTransitionCommand) where
  -- An accepted transition keeps the identity of a Run, its frozen inputs, lineage and admission,
  -- moves its clock forward to the time of the command, and adds exactly one to its revision: the
  -- 64-bit counter does not wrap.
  pub transition_run-SameRun :
      {d : RunDecision}
      → current.revision < 18446744073709551616
      → transition_run c current command ≡ ok d
      → SameRun current d.run
        × (d.run.revision ≡ current.revision + 1)
        × (current.updated_at ≤ d.run.updated_at)
  transition_run-SameRun {d} small h = (
    rw next (next_run-SameRun current command),
    rw next (
        revision-next_run current command small
          (rw next at (transition_run-valid c current command h))),
    rw next (unfold next_run in (transition_run-Accepted c current command h).later),
  )
    where
      next : d.run ≡ next_run current command
      next = run-transition_run c current command h

-- Once a transition is accepted, every other command that was issued against the same revision is
-- refused with a revision conflict: no update is lost.
pub transition_run-conflict :
    (c : Canonical) (current : Run) (first second : RunTransitionCommand) {d : RunDecision}
    → current.revision < 18446744073709551616
    → transition_run c current first ≡ ok d
    → second.run_id ≡ current.run_id
    → second.expected_revision ≡ current.revision
    → transition_run c d.run second ≡ err revision_conflict
unfolding transition_run check_run_transition
transition_run-conflict c current first second {d} small h same expected =
    let (kept, counted, _) = transition_run-SameRun c current first small h in
    ground (
      arith,
      transition_run-valid c current first h,
      kept.run_id,
      eq_iff second.run_id d.run.run_id,
    )
