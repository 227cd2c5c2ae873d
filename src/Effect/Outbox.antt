-- ===== src/Effect/Outbox.antt =====
-- What an operation on an effect puts into the outbox.
use xgc2_orchestration_core.Base.{
  Bool, true, false, ◌||◌, List, [], ◌∷◌, length, ◌≡◌, ok, arith, some, Result-cases, inl, inr,
}
use xgc2_orchestration_core.Contracts.Json.{Canonical}
use xgc2_orchestration_core.Contracts.Statuses.{DurableIntentKind}
use xgc2_orchestration_core.Contracts.Records.{DurableIntent}
use xgc2_orchestration_core.Contracts.EffectStates.{EffectState, EffectCompensationState}
use xgc2_orchestration_core.Contracts.Effects.{EffectRecord, CommandEnvelope}
use xgc2_orchestration_core.Effect.Envelopes.{
  validate_private_envelope_tokens, validate_envelope_for_intent,
}
use xgc2_orchestration_core.Effect.Commands.{BeginCommand, CompensationCommand, EffectDecision}
use xgc2_orchestration_core.Effect.Events.{effect_intent}
use xgc2_orchestration_core.Effect.Outcomes.{new_ledger, can_begin, begun_effect}
use xgc2_orchestration_core.Effect.Primary.{
  check_begin, begin_effect, cancel_prepared, observe_effect, request_reconciliation,
}
use xgc2_orchestration_core.Effect.Remedies.{is_compensation, compensated_effect}
use xgc2_orchestration_core.Effect.Compensation.{
  compensation_intents, transition_compensation, observe_compensation, reconcile_compensation,
}
use xgc2_orchestration_core.Effect.Steps.{EffectStep}

abbrev pub is_outbox : DurableIntentKind → Bool
is_outbox DurableIntentKind.outbox = true
is_outbox _ = false

unfoldable pub dispatches : List DurableIntent → Bool
dispatches [] = false
dispatches (i ∷ rest) = is_outbox i.kind || dispatches rest

-- What a decision that puts a command into the outbox is.
pub record Dispatch (c : Canonical) (b : EffectRecord) (d : EffectDecision) (e : CommandEnvelope)
    : Type 0 where
  pub startable : can_begin b ≡ true
  pub applying : d.effect.state ≡ EffectState.applying
  pub command : d.effect.command_id ≡ e.command_id
  pub ledger : d.ledger ≡ some (new_ledger e)
  pub tokens : validate_private_envelope_tokens c e ≡ ok tt
  pub once : length d.intents ≡ 1

module _ (c : Canonical) where
  begin_effect-Dispatch :
      (b : EffectRecord) (command : BeginCommand) (d : EffectDecision)
      → begin_effect c b command ≡ ok d
      → Dispatch c b d command.envelope
  unfolding begin_effect check_begin begun_effect validate_envelope_for_intent
  begin_effect-Dispatch b command d h = ground arith

  compensation_intents-dispatches :
      (next : EffectRecord) (wanted : Bool) (intents : List DurableIntent)
      → compensation_intents c next wanted ≡ ok intents
      → dispatches intents ≡ false
  unfolding compensation_intents effect_intent dispatches
  compensation_intents-dispatches next true intents h = ground arith
  compensation_intents-dispatches next false intents h = ground arith

  transition_compensation-dispatches :
      (b : EffectRecord) (command : CompensationCommand) (d : EffectDecision)
      → transition_compensation c b command ≡ ok d
      → dispatches d.intents ≡ false
  unfolding transition_compensation
  transition_compensation-dispatches b command d h =
      let next = compensated_effect b command in
      let wanted =
        is_compensation command.to EffectCompensationState.pending
        || is_compensation command.to EffectCompensationState.retry_wait in
      elim (Result-cases (compensation_intents c next wanted)) [
        | inl (intents, made) ↦
            ground (arith, compensation_intents-dispatches next wanted intents made)
        | inr (x, failed) ↦ absurd (ground arith)
      ]

  -- A command enters the outbox only when an effect begins: an accepted operation with an outbox intent
  -- has started an effect that was prepared or had failed for a transient reason, its record is
  -- applying that command, its ledger is a new one for the envelope, the private key and token of the
  -- envelope match their public hashes, and it is the only intent.
  pub EffectStep-Dispatch :
      {b : EffectRecord} {d : EffectDecision}
      → EffectStep c b d
      → dispatches d.intents ≡ true
      → (e : CommandEnvelope) × Dispatch c b d e
  unfolding cancel_prepared observe_effect request_reconciliation observe_compensation
      reconcile_compensation effect_intent dispatches
  EffectStep-Dispatch (EffectStep.canceling command h) sent = absurd (ground arith)
  EffectStep-Dispatch {b} {d} (EffectStep.beginning command h) sent =
      (command.envelope, begin_effect-Dispatch b command d h)
  EffectStep-Dispatch (EffectStep.observing ledger command h) sent = absurd (ground arith)
  EffectStep-Dispatch (EffectStep.requesting command h) sent = absurd (ground arith)
  EffectStep-Dispatch {b} {d} (EffectStep.compensating command h) sent =
      absurd (ground (arith, transition_compensation-dispatches b command d h))
  EffectStep-Dispatch (EffectStep.receiving ledger command h) sent = absurd (ground arith)
  EffectStep-Dispatch (EffectStep.reconciling command h) sent = absurd (ground arith)
