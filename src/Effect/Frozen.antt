-- ===== src/Effect/Frozen.antt =====
-- What operations on an effect do not change: what was prepared, and an outcome that was observed.
use xgc2_orchestration_core.Base.{ℕ, Bool, true, ◌&&◌, not, ◌≡◌, refl, ◌∙◌, arith}
use xgc2_orchestration_core.Contracts.Json.{Canonical}
use xgc2_orchestration_core.Contracts.EffectStates.{
  EffectState, effect_state_eq, effect_state_terminal,
}
use xgc2_orchestration_core.Contracts.Effects.{EffectRecord}
use xgc2_orchestration_core.Effect.Outcomes.{
  canceled_effect, begun_effect, received, received_effect, reconciling_effect, can_begin,
}
use xgc2_orchestration_core.Effect.Primary.{
  check_cancel_prepared, check_begin, check_receipt_observation,
}
use xgc2_orchestration_core.Effect.Remedies.{
  start_compensation, compensated_effect, compensation_received, compensation_received_effect,
  reconciled_effect,
}
use xgc2_orchestration_core.Effect.Steps.{EffectChange, EffectStep-EffectChange, EffectReach}

-- What `Prepare` has written.
pub record SameEffect (b m : EffectRecord) : Type 0 where
  pub effect_id : m.effect_id ≡ b.effect_id
  pub intent : m.intent ≡ b.intent
  pub preparation_digest : m.preparation_digest ≡ b.preparation_digest
  pub prepared_at : m.prepared_at ≡ b.prepared_at

-- What the command of an effect was, and what came of it.
pub record SameOutcome (b m : EffectRecord) : Type 0 where
  pub state : m.state ≡ b.state
  pub command_id : m.command_id ≡ b.command_id
  pub command_identity_digest : m.command_identity_digest ≡ b.command_identity_digest
  pub external_identity : m.external_identity ≡ b.external_identity
  pub result_digest : m.result_digest ≡ b.result_digest
  pub result_artifact_ref : m.result_artifact_ref ≡ b.result_artifact_ref
  pub primary_failure : m.primary_failure ≡ b.primary_failure
  pub applying_at : m.applying_at ≡ b.applying_at
  pub primary_terminal_at : m.primary_terminal_at ≡ b.primary_terminal_at
  pub primary_terminal_revision : m.primary_terminal_revision ≡ b.primary_terminal_revision

-- In a terminal state, and not to be tried again.
unfoldable pub reported : EffectRecord → Bool
reported r = effect_state_terminal r.state && not (can_begin r)

-- Applied, canceled, or failed for good: what became of it is known.
unfoldable pub concluded : EffectRecord → Bool
unfolding reported
concluded r = reported r && not (effect_state_eq r.state EffectState.uncertain)

module _ (c : Canonical) where
  pub EffectChange-SameEffect : {b m : EffectRecord} → EffectChange c b m → SameEffect b m
  unfolding canceled_effect begun_effect received received_effect reconciling_effect
      start_compensation compensated_effect compensation_received compensation_received_effect
      reconciled_effect
  EffectChange-SameEffect (EffectChange.canceled_by command h valid e) = rw e (ground arith)
  EffectChange-SameEffect (EffectChange.begun_by command h valid e) = rw e (ground arith)
  EffectChange-SameEffect (EffectChange.received_by ledger command h valid e) = rw e (ground arith)
  EffectChange-SameEffect (EffectChange.requested_by command h e) = rw e (ground arith)
  EffectChange-SameEffect (EffectChange.compensated_by command h valid e) = rw e (ground arith)
  EffectChange-SameEffect (EffectChange.compensation_received_by ledger command h valid e) =
      rw e (ground arith)
  EffectChange-SameEffect (EffectChange.reconciled_by command h valid e) = rw e (ground arith)

  pub EffectReach-SameEffect : {b m : EffectRecord} {n : ℕ} → EffectReach c b n m → SameEffect b m
  EffectReach-SameEffect EffectReach.here = record {
    effect_id = refl;
    intent = refl;
    preparation_digest = refl;
    prepared_at = refl;
  }
  EffectReach-SameEffect (EffectReach.further r s) =
      let before = EffectReach-SameEffect r in
      let last = EffectChange-SameEffect (EffectStep-EffectChange c s) in
      record {
        effect_id = last.effect_id ∙ before.effect_id;
        intent = last.intent ∙ before.intent;
        preparation_digest = last.preparation_digest ∙ before.preparation_digest;
        prepared_at = last.prepared_at ∙ before.prepared_at;
      }

  EffectChange-SameOutcome :
      {b m : EffectRecord} → reported b ≡ true → EffectChange c b m → SameOutcome b m
  unfolding reported can_begin effect_state_eq effect_state_terminal check_cancel_prepared
      check_begin check_receipt_observation reconciling_effect start_compensation compensated_effect
      compensation_received compensation_received_effect reconciled_effect
  EffectChange-SameOutcome k (EffectChange.canceled_by command h valid e) = absurd (ground arith)
  EffectChange-SameOutcome k (EffectChange.begun_by command h valid e) = absurd (ground arith)
  EffectChange-SameOutcome k (EffectChange.received_by ledger command h valid e) =
      absurd (ground arith)
  EffectChange-SameOutcome k (EffectChange.requested_by command h e) = rw e (ground arith)
  EffectChange-SameOutcome k (EffectChange.compensated_by command h valid e) = rw e (ground arith)
  EffectChange-SameOutcome k (EffectChange.compensation_received_by ledger command h valid e) =
      rw e (ground arith)
  EffectChange-SameOutcome k (EffectChange.reconciled_by command h valid e) = rw e (ground arith)

  SameOutcome-reported :
      {b m : EffectRecord} → SameOutcome b m → reported b ≡ true → reported m ≡ true
  unfolding reported can_begin
  SameOutcome-reported same k = rw (same.state, same.primary_failure) k

  -- No operation rewrites a terminal report, also not that of an uncertain effect.
  pub EffectReach-SameOutcome :
      {b m : EffectRecord} {n : ℕ} → reported b ≡ true → EffectReach c b n m → SameOutcome b m
  EffectReach-SameOutcome k EffectReach.here = record {
    state = refl;
    command_id = refl;
    command_identity_digest = refl;
    external_identity = refl;
    result_digest = refl;
    result_artifact_ref = refl;
    primary_failure = refl;
    applying_at = refl;
    primary_terminal_at = refl;
    primary_terminal_revision = refl;
  }
  EffectReach-SameOutcome k (EffectReach.further r s) =
      let before = EffectReach-SameOutcome k r in
      let last =
        EffectChange-SameOutcome (SameOutcome-reported before k) (EffectStep-EffectChange c s) in
      record {
        state = last.state ∙ before.state;
        command_id = last.command_id ∙ before.command_id;
        command_identity_digest = last.command_identity_digest ∙ before.command_identity_digest;
        external_identity = last.external_identity ∙ before.external_identity;
        result_digest = last.result_digest ∙ before.result_digest;
        result_artifact_ref = last.result_artifact_ref ∙ before.result_artifact_ref;
        primary_failure = last.primary_failure ∙ before.primary_failure;
        applying_at = last.applying_at ∙ before.applying_at;
        primary_terminal_at = last.primary_terminal_at ∙ before.primary_terminal_at;
        primary_terminal_revision =
            last.primary_terminal_revision ∙ before.primary_terminal_revision;
      }

  -- A known outcome is final: once an effect is applied, canceled, or failed with a failure that is not
  -- transient, whatever operations are accepted later, its state, its command, its result, its
  -- failure, the external identity and the time and revision of the outcome stay as they are.
  pub outcome_final :
      {b m : EffectRecord} {n : ℕ} → concluded b ≡ true → EffectReach c b n m → SameOutcome b m
  unfolding concluded
  outcome_final k = EffectReach-SameOutcome (ground arith)
