-- ===== src/Witnesses/EffectConflict.antt =====
-- Two preparations of one effect that differ in an artifact, with an encoder that tells them apart.
use Prim.Native.String.{◌++◌}
use xgc2_orchestration_core.Base.{
  ℕ, zero, suc, String, Result, [], ◌∷◌, ◌≡◌, ◌≢◌, refl, ok, err, effect_conflict, arith, ◌==◌,
  ◌is◌, if◌then◌else◌, eq_iff,
}
use xgc2_orchestration_core.Contracts.Identity.{
  valid_identifier, valid_digest, valid_type_ref, is_trimmed,
}
use xgc2_orchestration_core.Contracts.Json.{Json, Fields, field, Canonical, digest_value}
use xgc2_orchestration_core.Contracts.Runtimes.{effect_ownership_eq, effect_ownership_valid}
use xgc2_orchestration_core.Contracts.EffectStates.{
  compensation_policy_eq, compensation_policy_valid, effect_state_eq, effect_state_valid,
  effect_state_terminal, effect_compensation_eq, effect_compensation_valid,
}
use xgc2_orchestration_core.Contracts.Effects.{EffectRecord}
use xgc2_orchestration_core.Execution.Identity.{
  validate_identity, validate_identities, validate_optional_identity, stable_id, stable_event_id,
}
use xgc2_orchestration_core.Effect.Json.{effect_intent_json}
use xgc2_orchestration_core.Effect.Checks.{
  stable_effect_part, stable_effect_id, codes_before, text_before, strings_are_sorted,
  validate_distinct, validate_sorted_identities,
}
use xgc2_orchestration_core.Effect.Records.{
  validate_intent_content, validate_intent, validate_application, validate_lifecycle,
  validate_outcome, validate_compensation_fields, validate_reconciliation,
  validate_effect_compensation, validate_record_kinds, validate_record_times,
  validate_preparation_digest, validate_record,
}
use xgc2_orchestration_core.Effect.Commands.{PrepareCommand, EffectDecision}
use xgc2_orchestration_core.Effect.Events.{effect_event}
use xgc2_orchestration_core.Effect.Outcomes.{prepared_effect}
use xgc2_orchestration_core.Effect.Primary.{check_prepare, prepare_effect, replay_prepare}
use xgc2_orchestration_core.Effect.Steps.{EffectReach}
use xgc2_orchestration_core.Effect.Replay.{replay_prepare-conflict}
use xgc2_orchestration_core.Witnesses.Encoder.{digest, hex}
use xgc2_orchestration_core.Witnesses.Effects.{
  disk_intent, preparation, prepared_disk, preparing, disk_event,
}

abbrev members : Fields → ℕ
members Fields.end = zero
members (Fields.field name value rest) = suc (members rest)

abbrev written : Json → Result String
written (Json.obj fields) = ok (if members fields == 18 then "{18}" else "{}")
written value = ok "[]"

abbrev second_hex : String
second_hex = "fedcba9876543210fedcba9876543210fedcba9876543210fedcba9876543210"

abbrev counting : Canonical
counting = record {
  marshal = written;
  sha256_hex = λ text. if text is "{18}" then second_hex else hex;
}

abbrev second_preparation : PrepareCommand
second_preparation = record {
  intent = record disk_intent { intent_artifact_ref = "artifact-1" };
  command_id = "command-9";
  at = 110;
}

abbrev second_disk : EffectRecord
second_disk = record prepared_disk {
  intent = record disk_intent { intent_artifact_ref = "artifact-1" };
  preparation_digest = "sha256:" ++ second_hex;
  prepared_at = 110;
  updated_at = 110;
}

abbrev second_preparing : EffectDecision
second_preparing = record preparing {
  effect = second_disk;
  events =
      disk_event 1 "effect.prepared" "command-9" 110 (
        field "preparationDigest" (Json.text ("sha256:" ++ second_hex))
          (field "intentDigest" (Json.text digest) Fields.end))
      ∷ [];
}

counting-ok : prepare_effect counting preparation ≡ ok preparing
unfolding valid_identifier valid_digest valid_type_ref is_trimmed digest_value effect_ownership_eq
    effect_ownership_valid compensation_policy_eq compensation_policy_valid effect_state_eq
    effect_state_valid effect_state_terminal effect_compensation_eq effect_compensation_valid
    validate_identity validate_identities validate_optional_identity stable_id stable_event_id
    effect_intent_json stable_effect_part stable_effect_id codes_before text_before
    strings_are_sorted validate_distinct validate_sorted_identities validate_intent_content
    validate_intent validate_application validate_lifecycle validate_outcome
    validate_compensation_fields validate_reconciliation validate_effect_compensation
    validate_record_kinds validate_record_times validate_preparation_digest validate_record
    effect_event prepared_effect check_prepare prepare_effect
counting-ok = refl

second_counting-ok : prepare_effect counting second_preparation ≡ ok second_preparing
unfolding valid_identifier valid_digest valid_type_ref is_trimmed digest_value effect_ownership_eq
    effect_ownership_valid compensation_policy_eq compensation_policy_valid effect_state_eq
    effect_state_valid effect_state_terminal effect_compensation_eq effect_compensation_valid
    validate_identity validate_identities validate_optional_identity stable_id stable_event_id
    effect_intent_json stable_effect_part stable_effect_id codes_before text_before
    strings_are_sorted validate_distinct validate_sorted_identities validate_intent_content
    validate_intent validate_application validate_lifecycle validate_outcome
    validate_compensation_fields validate_reconciliation validate_effect_compensation
    validate_record_kinds validate_record_times validate_preparation_digest validate_record
    effect_event prepared_effect check_prepare prepare_effect
second_counting-ok = refl

distinct_digests : preparing.effect.preparation_digest ≢ second_preparing.effect.preparation_digest
distinct_digests =
    let both = eq_iff digest second_disk.preparation_digest in λ same. ground (arith, both, same)

replay_prepare-conflict_example :
    replay_prepare counting prepared_disk second_preparation ≡ err effect_conflict
replay_prepare-conflict_example =
    replay_prepare-conflict counting preparation second_preparation counting-ok (omega arith)
      EffectReach.here second_counting-ok distinct_digests
