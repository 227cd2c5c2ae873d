-- ===== src/Effect/Validity.antt =====
-- Every record that operations lead to from a prepared effect is well-formed, also after the operation
-- that does not validate its result.
use xgc2_orchestration_core.Base.{
  ℕ, suc, true, ◌+◌, ◌<◌, ◌≤◌, ◌≡◌, refl, ok, arith, no_time, u64_inc, Result-cases, inl, inr,
}
use xgc2_orchestration_core.Contracts.Json.{Canonical, digest_value}
use xgc2_orchestration_core.Contracts.EffectStates.{
  EffectState, effect_state_eq, effect_compensation_eq,
}
use xgc2_orchestration_core.Contracts.Effects.{EffectRecord}
use xgc2_orchestration_core.Effect.Json.{effect_intent_json}
use xgc2_orchestration_core.Effect.Records.{
  validate_intent, validate_record_kinds, validate_record_times, validate_preparation_digest,
  validate_application, validate_lifecycle, validate_outcome, validate_effect_compensation,
  validate_compensation_fields, validate_reconciliation, validate_record,
}
use xgc2_orchestration_core.Effect.Commands.{ReconcileCommand, PrepareCommand, EffectDecision}
use xgc2_orchestration_core.Effect.Outcomes.{
  prepared_effect, reconciling_effect, canceled_effect, begun_effect, received, received_effect,
}
use xgc2_orchestration_core.Effect.Primary.{check_reconciliation, prepare_effect}
use xgc2_orchestration_core.Effect.Remedies.{
  start_compensation, compensated_effect, compensation_received, compensation_received_effect,
  reconciled_effect,
}
use xgc2_orchestration_core.Effect.Steps.{EffectChange, EffectStep-EffectChange, EffectReach}
use xgc2_orchestration_core.Effect.Machine.{fits}
use xgc2_orchestration_core.Effect.Moves.{EffectChange-EffectMove, EffectMove-fits}

module _ (c : Canonical) where
  -- The parts of `validate_record`, all passed.
  record ValidEffect (r : EffectRecord) : Type 0 where
    intent : validate_intent c r.intent no_time ≡ ok tt
    kinds : validate_record_kinds r ≡ ok tt
    digest : validate_preparation_digest c r ≡ ok tt
    times : validate_record_times r ≡ ok tt
    application : validate_application r ≡ ok tt
    lifecycle : validate_lifecycle r ≡ ok tt
    outcome : validate_outcome r r.state ≡ ok tt
    compensation : validate_effect_compensation r ≡ ok tt

  parts : (r : EffectRecord) → validate_record c r ≡ ok tt → ValidEffect r
  unfolding validate_record
  parts r h = ground arith

  whole : (r : EffectRecord) → ValidEffect r → validate_record c r ≡ ok tt
  unfolding validate_record
  whole r v =
      rw
        (
          v.intent, v.kinds, v.digest, v.times, v.application, v.lifecycle, v.outcome,
          v.compensation,
        )
        refl

  -- What a request for a reconciliation has passed.
  record Requests (r : EffectRecord) (command : ReconcileCommand) : Type 0 where
    valid : validate_record c r ≡ ok tt
    uncertain : r.state ≡ EffectState.uncertain
    later : r.updated_at ≤ command.at

  requests :
      (r : EffectRecord) (command : ReconcileCommand)
      → check_reconciliation c r command ≡ ok tt
      → Requests r command
  unfolding check_reconciliation effect_state_eq
  requests r command h = ground arith

  reconciling_kinds :
      (r : EffectRecord) (command : ReconcileCommand)
      → validate_record_kinds r ≡ ok tt
      → r.revision + 1 < 18446744073709551616
      → validate_record_kinds (reconciling_effect r command) ≡ ok tt
  unfolding validate_record_kinds reconciling_effect
  reconciling_kinds r command h small = ground arith

  reconciling_times :
      (r : EffectRecord) (command : ReconcileCommand)
      → validate_record_times r ≡ ok tt
      → r.updated_at ≤ command.at
      → validate_record_times (reconciling_effect r command) ≡ ok tt
  unfolding validate_record_times reconciling_effect
  reconciling_times r command h later = ground arith

  reconciling_lifecycle :
      (r : EffectRecord) (command : ReconcileCommand)
      → validate_lifecycle r ≡ ok tt
      → r.updated_at ≤ command.at
      → r.revision + 1 < 18446744073709551616
      → validate_lifecycle (reconciling_effect r command) ≡ ok tt
  unfolding validate_lifecycle reconciling_effect
  reconciling_lifecycle r command h later small = ground arith

  reconciling_compensation :
      (r : EffectRecord) (command : ReconcileCommand)
      → validate_effect_compensation r ≡ ok tt
      → fits EffectState.uncertain r.compensation_state ≡ true
      → validate_effect_compensation (reconciling_effect r command) ≡ ok tt
  unfolding validate_effect_compensation validate_compensation_fields validate_reconciliation fits
      reconciling_effect effect_compensation_eq
  reconciling_compensation r command h f = ground arith

  reconciling-valid :
      (r : EffectRecord) (command : ReconcileCommand)
      → check_reconciliation c r command ≡ ok tt
      → fits r.state r.compensation_state ≡ true
      → r.revision + 1 < 18446744073709551616
      → validate_record c (reconciling_effect r command) ≡ ok tt
  unfolding reconciling_effect validate_preparation_digest validate_application validate_outcome
  reconciling-valid r command h f small =
      let q = requests r command h in
      let v = parts r q.valid in
      whole (reconciling_effect r command) (record {
        intent = v.intent;
        kinds = reconciling_kinds r command v.kinds small;
        digest = v.digest;
        times = reconciling_times r command v.times q.later;
        application = v.application;
        lifecycle = reconciling_lifecycle r command v.lifecycle q.later small;
        outcome = v.outcome;
        compensation = reconciling_compensation r command v.compensation (rw q.uncertain at f);
      })

  EffectChange-valid :
      {b m : EffectRecord}
      → fits b.state b.compensation_state ≡ true
      → b.revision + 1 < 18446744073709551616
      → EffectChange c b m
      → validate_record c m ≡ ok tt
  EffectChange-valid f small (EffectChange.canceled_by command h valid e) = valid
  EffectChange-valid f small (EffectChange.begun_by command h valid e) = valid
  EffectChange-valid f small (EffectChange.received_by ledger command h valid e) = valid
  EffectChange-valid {b} f small (EffectChange.requested_by command h e) =
      rw e (reconciling-valid b command h f small)
  EffectChange-valid f small (EffectChange.compensated_by command h valid e) = valid
  EffectChange-valid f small (EffectChange.compensation_received_by ledger command h valid e) =
      valid
  EffectChange-valid f small (EffectChange.reconciled_by command h valid e) = valid

  EffectChange-revision :
      {b m : EffectRecord} → EffectChange c b m → m.revision ≡ u64_inc b.revision
  unfolding canceled_effect begun_effect received received_effect reconciling_effect
      start_compensation compensated_effect compensation_received compensation_received_effect
      reconciled_effect
  EffectChange-revision (EffectChange.canceled_by command h valid e) = rw e (ground arith)
  EffectChange-revision (EffectChange.begun_by command h valid e) = rw e (ground arith)
  EffectChange-revision (EffectChange.received_by ledger command h valid e) = rw e (ground arith)
  EffectChange-revision (EffectChange.requested_by command h e) = rw e (ground arith)
  EffectChange-revision (EffectChange.compensated_by command h valid e) = rw e (ground arith)
  EffectChange-revision (EffectChange.compensation_received_by ledger command h valid e) =
      rw e (ground arith)
  EffectChange-revision (EffectChange.reconciled_by command h valid e) = rw e (ground arith)

  -- The invariant of the records of an effect after a number of operations.
  pub record SoundEffect (n : ℕ) (r : EffectRecord) : Type 0 where
    pub valid : validate_record c r ≡ ok tt
    pub consistent : fits r.state r.compensation_state ≡ true
    pub counted : r.revision ≡ suc n

  -- A freshly prepared effect.
  pub prepare_effect-SoundEffect :
      (command : PrepareCommand) {d : EffectDecision}
      → prepare_effect c command ≡ ok d
      → SoundEffect 0 d.effect
  unfolding prepare_effect prepared_effect fits effect_compensation_eq
  prepare_effect-SoundEffect command {d} h =
      elim (Result-cases (digest_value c (effect_intent_json command.intent))) [
        | inl (digest, digested) ↦ record {
          valid = ground arith;
          consistent = ground arith;
          counted = ground arith;
        }
        | inr (x, failed) ↦ absurd (ground arith)
      ]

  -- However many operations are accepted after an effect was prepared, short of 2^64 of them, the
  -- record passes `ValidateRecord`, its compensation state is one that its primary state allows
  -- (`fits`), and its revision is one more than the number of operations.
  pub EffectReach-SoundEffect :
      (command : PrepareCommand) {d : EffectDecision} {m : EffectRecord} {n : ℕ}
      → prepare_effect c command ≡ ok d
      → suc n < 18446744073709551616
      → EffectReach c d.effect n m
      → SoundEffect n m
  EffectReach-SoundEffect command h small EffectReach.here = prepare_effect-SoundEffect command h
  EffectReach-SoundEffect command {d} {m} {n} h small (EffectReach.further {n = k} r s) =
      let before = EffectReach-SoundEffect command h (omega arith) r in
      let change = EffectStep-EffectChange c s in
      record {
        valid = EffectChange-valid before.consistent (omega (arith, before.counted)) change;
        consistent =
            EffectMove-fits (EffectChange-EffectMove c before.consistent change) before.consistent;
        counted = omega (arith, EffectChange-revision change, before.counted);
      }
