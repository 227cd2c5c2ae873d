-- ===== src/Execution/Run/Events.antt =====
-- What a transition of a Run announces: its domain event, and the cleanup intent of stopping.
use Prim.Native.String.{◌++◌}
use xgc2_orchestration_core.Base.{List, [], ◌∷◌, ◌≡◌, refl, ok, Result-cases, inl, inr, arith}
use xgc2_orchestration_core.Contracts.Json.{Canonical, digest_value, obj}
use xgc2_orchestration_core.Contracts.Statuses.{RunStatus, run_status_name, DurableIntentKind}
use xgc2_orchestration_core.Contracts.Records.{Run, DomainEvent, DurableIntent}
use xgc2_orchestration_core.Execution.Identity.{stable_event_id, stable_intent_id}
use xgc2_orchestration_core.Execution.Event.{new_durable_intent}
use xgc2_orchestration_core.Execution.Checks.{new_event-fields}
use xgc2_orchestration_core.Execution.Run.Transition.{
  RunTransitionCommand, RunDecision, next_run, transition_run, stopping_intents, cleanup_intent,
  run_event, transition_payload,
}

-- The event of a transition to a status.
pub record AnnouncesRun (c : Canonical) (command : RunTransitionCommand) (r : Run) (e : DomainEvent)
    : Type 0 where
  pub aggregate_type : e.aggregate_type ≡ "run"
  pub aggregate_id : e.aggregate_id ≡ r.run_id
  pub aggregate_revision : e.aggregate_revision ≡ r.revision
  pub event_type : e.event_type ≡ "run." ++ run_status_name command.to
  pub command_id : e.command_id ≡ command.command_id
  pub occurred_at : e.occurred_at ≡ command.at
  pub payload_digest : digest_value c (obj e.payload) ≡ ok e.payload_digest
  pub event_id : stable_event_id c "run" r.run_id r.revision ≡ ok e.event_id

-- The intents of a transition: one cleanup of the Run on entry to stopping, and else none.
abbrev pub Cleanup : Canonical → Run → List DurableIntent → RunStatus → Type 0
Cleanup c r intents RunStatus.stopping =
    (i : DurableIntent) × (intents ≡ i ∷ [])
    × ((i.kind ≡ DurableIntentKind.cleanup)
        × (i.aggregate_id ≡ r.run_id)
        × (stable_intent_id c DurableIntentKind.cleanup r.run_id r.revision ≡ ok i.identity)
        × (digest_value c (obj i.payload) ≡ ok i.payload_digest))
Cleanup c r intents _ = intents ≡ []

module _ (c : Canonical) where
  cleanup_intent-fields :
      (r : Run) {i : DurableIntent}
      → cleanup_intent c r ≡ ok i
      → (i.kind ≡ DurableIntentKind.cleanup)
        × (i.aggregate_id ≡ r.run_id)
        × (stable_intent_id c DurableIntentKind.cleanup r.run_id r.revision ≡ ok i.identity)
        × (digest_value c (obj i.payload) ≡ ok i.payload_digest)
  unfolding cleanup_intent new_durable_intent
  cleanup_intent-fields r h = ground arith

  stopping_intents-Cleanup :
      (r : Run) (to : RunStatus) {intents : List DurableIntent}
      → stopping_intents c r to ≡ ok intents
      → Cleanup c r intents to
  unfolding stopping_intents
  stopping_intents-Cleanup r RunStatus.stopping h = elim (Result-cases (cleanup_intent c r)) [
    | inl (i, built) ↦ (i, ground arith, (cleanup_intent-fields r built))
    | inr (x, failed) ↦ absurd (ground arith)
  ]
  stopping_intents-Cleanup r _ h = ground arith

  run_event-AnnouncesRun :
      (r next : Run) (command : RunTransitionCommand) {e : DomainEvent}
      → run_event c r next command ≡ ok e
      → AnnouncesRun c command next e
  unfolding run_event
  run_event-AnnouncesRun r next command h = ground (
    arith,
    new_event-fields c "run" next.run_id ("run." ++ run_status_name command.to) command.command_id
        next.revision command.at (transition_payload r next) h,
  )

  -- An accepted transition emits exactly one domain event, with the identity, the new revision, the
  -- command and the instant of the transition and the digest of its payload; and it emits one cleanup
  -- intent on entry to stopping, with the identity of that revision, and no intent else.
  pub transition_run-events :
      (r : Run) (command : RunTransitionCommand) {d : RunDecision}
      → transition_run c r command ≡ ok d
      → ((e : DomainEvent) × (d.events ≡ e ∷ []) × AnnouncesRun c command d.run e)
        × Cleanup c d.run d.intents command.to
  unfolding transition_run
  transition_run-events r command {d} h =
      elim (Result-cases (run_event c r (next_run r command) command)) [
        | inl (e, built) ↦
            elim (Result-cases (stopping_intents c (next_run r command) command.to)) [
              | inl (intents, added) ↦
                  let same : d
                      ≡ record { run = next_run r command; events = e ∷ []; intents = intents } =
                    ground arith in
                  rw same (
                    (e, refl, run_event-AnnouncesRun r (next_run r command) command built),
                    stopping_intents-Cleanup (next_run r command) command.to added,
                  )
              | inr (x, failed) ↦ absurd (ground arith)
            ]
        | inr (x, failed) ↦ absurd (ground arith)
      ]
