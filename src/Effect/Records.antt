-- ===== src/Effect/Records.antt =====
-- kernel/effect/effect.go: what a well-formed intent and a well-formed record are.
use xgc2_orchestration_core.Base.{
  String, Bool, true, false, ◌&&◌, ◌||◌, not, Option, none, some, [], ◌∷◌, ltb, ◌==◌, ◌is◌, Result,
  ok, err, invalid, ◌>>◌, require, refuse, is_set, is_nil, differ, Time, no_time, is_zero, before,
  after, u64_inc, outside, if◌then◌else◌,
}
use xgc2_orchestration_core.Contracts.Identity.{valid_type_ref, valid_digest}
use xgc2_orchestration_core.Contracts.Json.{Canonical, digest_value}
use xgc2_orchestration_core.Contracts.Statuses.{FailureClass, failure_class_eq}
use xgc2_orchestration_core.Contracts.Records.{StructuredFailure}
use xgc2_orchestration_core.Contracts.Runtimes.{
  EffectOwnership, effect_ownership_eq, effect_ownership_valid,
}
use xgc2_orchestration_core.Contracts.EffectStates.{
  CompensationPolicy, compensation_policy_eq, compensation_policy_valid, EffectState,
  effect_state_eq, effect_state_valid, effect_state_terminal, EffectCompensationState,
  effect_compensation_eq, effect_compensation_valid,
}
use xgc2_orchestration_core.Contracts.Effects.{
  EffectIntent, EffectRecord, EffectCompensationReconciliation,
}
use xgc2_orchestration_core.Execution.Identity.{
  validate_identity, validate_identities, validate_optional_identity,
}
use xgc2_orchestration_core.Effect.Json.{effect_intent_json, object_json}
use xgc2_orchestration_core.Effect.Checks.{validate_sorted_identities, validate_effect_failure}

-- The text is the same as a digest that was computed, or computing it failed.
abbrev pub is_digest : Result String → String → Bool
is_digest (ok expected) digest = expected is digest
is_digest (err e) digest = false

-- `intent.Deadline.IsZero() || (!at.IsZero() && !intent.Deadline.After(at))`, where a zero `at` asks for
-- no comparison.
abbrev pub deadline_passed : Time → Time → Bool
deadline_passed deadline at = is_zero deadline || (not (is_zero at) && not (after deadline at))

module _ (c : Canonical) where
  -- The part of `ValidateIntent` that does not look at the time.
  unfoldable pub validate_intent_content : EffectIntent → Result (Unit {0})
  validate_intent_content i = do
    validate_identities (
        i.effect_id ∷ i.namespace_id ∷ i.run_id ∷ i.invocation_id ∷ i.prepared_attempt_id
        ∷ i.effect_key ∷ i.target_ref ∷ [])
    require (valid_type_ref i.kind) (invalid "effect kind must be a versioned type ref")
    require
        (valid_digest i.intent_schema_digest
          && valid_digest i.intent_digest
          && valid_digest i.policy_digest
          && valid_digest i.descriptor_digest)
        (invalid "effect intent digests")
    validate_optional_identity i.intent_artifact_ref "intent artifact ref"
    require (is_set i.intent) (invalid "effect intent payload is required")
    require (is_digest (digest_value c (object_json i.intent)) i.intent_digest)
        (invalid "effect intent payload digest")
    require (effect_ownership_valid i.ownership && compensation_policy_valid i.compensation_policy)
        (invalid "effect ownership or compensation policy")
    refuse
        (not (effect_ownership_eq i.ownership EffectOwnership.owned)
          && not (compensation_policy_eq i.compensation_policy CompensationPolicy.none))
        (invalid "only owned effects can require compensation")
    validate_sorted_identities i.required_capability_refs

  unfoldable pub validate_intent : EffectIntent → Time → Result (Unit {0})
  validate_intent i at = do
    validate_intent_content i
    refuse (deadline_passed i.deadline at) (invalid "effect deadline must be after preparation")

abbrev pub is_compensated : EffectRecord → Bool
is_compensated r = not (compensation_policy_eq r.intent.compensation_policy CompensationPolicy.none)

-- The command of a record, which a prepared or canceled effect does not have.
unfoldable pub validate_application : EffectRecord → Result (Unit {0})
validate_application r =
    if effect_state_eq r.state EffectState.prepared
    then refuse
        (not (r.command_id is "")
          || not (r.command_identity_digest is "")
          || is_set r.applying_at
          || is_set r.primary_terminal_at
          || not (r.primary_terminal_revision == 0))
        (invalid "prepared effect contains application state")
    else if effect_state_eq r.state EffectState.canceled
    then refuse
        (not (r.command_id is "")
          || not (r.command_identity_digest is "")
          || is_set r.applying_at
          || is_nil r.primary_terminal_at)
        (invalid "pre-dispatch canceled effect")
    else do
      validate_identity r.command_id "effect command id"
      refuse (not (valid_digest r.command_identity_digest) || is_nil r.applying_at)
          (invalid "started effect requires command identity and applying time")

unfoldable pub validate_lifecycle : EffectRecord → Result (Unit {0})
validate_lifecycle r = do
  refuse (outside r.applying_at r.prepared_at r.updated_at) (invalid "effect applying time")
  refuse (differ (effect_state_terminal r.state) (is_set r.primary_terminal_at))
      (invalid "effect terminal observation and terminal time disagree")
  refuse (outside r.primary_terminal_at r.prepared_at r.updated_at) (invalid "effect terminal time")
  refuse
      (differ (effect_state_terminal r.state) (not (r.primary_terminal_revision == 0))
        || ltb r.revision r.primary_terminal_revision)
      (invalid "effect primary terminal revision")

abbrev pub is_uncertain : Option StructuredFailure → Bool
is_uncertain none = false
is_uncertain (some failure) = failure_class_eq failure.class FailureClass.uncertain

abbrev pub observes_nothing : EffectRecord → Bool
observes_nothing r =
    r.result_digest is ""
    && r.result_artifact_ref is ""
    && r.external_identity is ""
    && is_nil r.primary_failure

-- The `switch` on the state.
unfoldable pub validate_outcome : EffectRecord → EffectState → Result (Unit {0})
validate_outcome r EffectState.applied =
    refuse (not (valid_digest r.result_digest) || is_set r.primary_failure)
      (invalid "applied effect requires a result digest and no failure")
validate_outcome r EffectState.failed = do
  validate_effect_failure r.primary_failure false
  refuse (is_uncertain r.primary_failure) (invalid "failed effect requires a non-uncertain failure")
validate_outcome r EffectState.uncertain = do
  validate_effect_failure r.primary_failure true
  require (is_uncertain r.primary_failure)
      (invalid "uncertain effect requires an uncertain failure")
validate_outcome r _ =
    require (observes_nothing r) (invalid "effect contains a terminal observation")

abbrev pub in_compensation : EffectRecord → EffectCompensationState → Bool
in_compensation r state = effect_compensation_eq r.compensation_state state

-- The part of `validateCompensation` before the proof of a reconciliation.
unfoldable pub validate_compensation_fields : EffectRecord → Result (Unit {0})
validate_compensation_fields r = do
  refuse (in_compensation r EffectCompensationState.not_required)
      (invalid "compensatable effect is marked not-required")
  refuse (r.compensation_attempt_count == 0 && in_compensation r EffectCompensationState.running)
      (invalid "running compensation has no attempt")
  refuse
      (if in_compensation r EffectCompensationState.retry_wait
        then is_nil r.compensation_next_at || is_nil r.compensation_failure
        else is_set r.compensation_next_at)
      (invalid "compensation retry-wait")
  refuse
      (if in_compensation r EffectCompensationState.failed
        then is_nil r.compensation_failure
        else not (in_compensation r EffectCompensationState.retry_wait)
          && is_set r.compensation_failure)
      (invalid "compensation failure")
  if in_compensation r EffectCompensationState.running
      then validate_identity r.compensation_command_id "compensation command id"
      else ok tt

-- `t != nil && t.Equal(at)`.
abbrev pub is_at : Option Time → Time → Bool
is_at none at = false
is_at (some t) at = t == at

unfoldable pub validate_proof :
    EffectRecord → Option EffectCompensationReconciliation → Result (Unit {0})
validate_proof r none = refuse true (invalid "reconciled compensation proof")
validate_proof r (some proof) = do
  refuse
      (not (compensation_policy_eq r.intent.compensation_policy CompensationPolicy.required)
        || proof.requested_revision == 0
        || not (u64_inc proof.requested_revision == r.revision)
        || not (valid_digest proof.evidence_digest)
        || is_zero proof.observed_at
        || not (proof.observed_at == r.updated_at)
        || not (is_at r.compensation_finished_at proof.observed_at))
      (invalid "reconciled compensation proof")
  validate_identities (proof.reconciled_by ∷ proof.reason_code ∷ proof.command_id ∷ [])

unfoldable pub validate_reconciliation : EffectRecord → Result (Unit {0})
unfolding validate_proof
validate_reconciliation r =
    if in_compensation r EffectCompensationState.reconciled
    then validate_proof r r.compensation_reconciliation
    else refuse (is_set r.compensation_reconciliation)
        (invalid "compensation reconciliation proof exists outside reconciled state")

unfoldable pub validate_effect_compensation : EffectRecord → Result (Unit {0})
unfolding validate_compensation_fields validate_reconciliation
validate_effect_compensation r =
    if is_compensated r
    then validate_compensation_fields r >> validate_reconciliation r
    else refuse
        (not (in_compensation r EffectCompensationState.not_required)
          || is_set r.compensation_reconciliation)
        (invalid "non-compensatable effect has compensation state")

unfoldable pub validate_record_kinds : EffectRecord → Result (Unit {0})
validate_record_kinds r =
    refuse
      (not (r.effect_id is r.intent.effect_id)
        || not (effect_state_valid r.state)
        || not (effect_compensation_valid r.compensation_state)
        || r.revision == 0)
      (invalid "effect identity, state, compensation state, or revision")

unfoldable pub validate_record_times : EffectRecord → Result (Unit {0})
validate_record_times r =
    refuse (is_zero r.prepared_at || before r.updated_at r.prepared_at)
      (invalid "effect timestamps")

module _ (c : Canonical) where
  unfoldable pub validate_preparation_digest : EffectRecord → Result (Unit {0})
  validate_preparation_digest r =
      require (is_digest (digest_value c (effect_intent_json r.intent)) r.preparation_digest)
        (invalid "effect preparation digest")

  unfoldable pub validate_record : EffectRecord → Result (Unit {0})
  validate_record r = do
    validate_intent c r.intent no_time
    validate_record_kinds r
    validate_preparation_digest r
    validate_record_times r
    validate_application r
    validate_lifecycle r
    validate_outcome r r.state
    validate_effect_compensation r
