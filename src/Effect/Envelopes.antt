-- ===== src/Effect/Envelopes.antt =====
-- kernel/effect/effect.go: the envelope of a command, and the intent that it carries out.
use xgc2_orchestration_core.Base.{
  String, Bool, true, false, ◌&&◌, ◌||◌, not, List, [], ◌∷◌, ◌is◌, Result, ok, invalid,
  command_conflict, ◌>>◌, require, refuse, Time, is_zero, after, if◌then◌else◌,
}
use xgc2_orchestration_core.Contracts.Identity.{valid_digest, valid_optional_digest}
use xgc2_orchestration_core.Contracts.Json.{Canonical, digest_value}
use xgc2_orchestration_core.Contracts.EffectStates.{command_risk_valid}
use xgc2_orchestration_core.Contracts.Effects.{EffectIntent, CommandEnvelope}
use xgc2_orchestration_core.Execution.Identity.{
  validate_identities, validate_optional_identity, private_token_digest,
}
use xgc2_orchestration_core.Effect.Json.{command_identity_json}
use xgc2_orchestration_core.Effect.Checks.{validate_sorted_identities, validate_target_fence}
use xgc2_orchestration_core.Effect.Records.{is_digest}

-- `equalStrings`.
unfoldable pub equal_strings : List String → List String → Bool
equal_strings [] [] = true
equal_strings [] (t ∷ ts) = false
equal_strings (s ∷ ss) [] = false
equal_strings (s ∷ ss) (t ∷ ts) = s is t && equal_strings ss ts

-- `len(values) == 0`.
abbrev pub is_empty : List String → Bool
is_empty [] = true
is_empty (s ∷ ss) = false

unfoldable pub validate_no_token : CommandEnvelope → Result (Unit {0})
validate_no_token e =
    require (e.capability_token is "" && e.capability_token_hash is "")
      (invalid "command without capabilities carries a capability token")

module _ (c : Canonical) where
  unfoldable pub command_identity_digest : CommandEnvelope → Result String
  command_identity_digest e = digest_value c (command_identity_json e)

  unfoldable pub validate_envelope : CommandEnvelope → Result (Unit {0})
  validate_envelope e = do
    validate_identities (
        e.command_id ∷ e.effect_id ∷ e.namespace_id ∷ e.target_ref ∷ e.action ∷ e.actor_ref
        ∷ e.source_ref ∷ e.reason_code ∷ e.cancellation_id ∷ [])
    validate_optional_identity e.request_id "request id"
    refuse (not (command_risk_valid e.risk) || is_zero e.deadline)
        (invalid "command risk or deadline")
    require
        (valid_digest e.idempotency_key_hash
          && valid_digest e.identity_digest
          && valid_digest e.payload_digest
          && valid_digest e.policy_digest
          && valid_digest e.descriptor_digest)
        (invalid "command digests")
    require
        (valid_optional_digest e.manifest_digest && valid_optional_digest e.capability_token_hash)
        (invalid "command manifest or capability token hash")
    validate_optional_identity e.payload_artifact_ref "payload artifact ref"
    validate_sorted_identities e.required_capability_refs
    validate_target_fence e.fence
    require (is_digest (command_identity_digest e) e.identity_digest)
        (invalid "command identity digest")

  unfoldable pub validate_private_envelope_tokens : CommandEnvelope → Result (Unit {0})
  validate_private_envelope_tokens e = do
    validate_envelope e
    require (is_digest (private_token_digest c e.idempotency_key) e.idempotency_key_hash)
        (invalid "command idempotency key does not match its public hash")
    if is_empty e.required_capability_refs
        then validate_no_token e
        else require (is_digest (private_token_digest c e.capability_token) e.capability_token_hash)
            (invalid "command capability token does not match its public hash")

  -- Without the private part, which `validate_private_envelope_tokens` checks.
  unfoldable pub validate_public_for_intent :
      CommandEnvelope → EffectIntent → Time → Result (Unit {0})
  validate_public_for_intent e i at = do
    validate_envelope e
    require
        (e.effect_id is i.effect_id
          && e.namespace_id is i.namespace_id
          && e.target_ref is i.target_ref
          && e.policy_digest is i.policy_digest
          && e.descriptor_digest is i.descriptor_digest
          && equal_strings e.required_capability_refs i.required_capability_refs)
        command_conflict
    refuse (after e.deadline i.deadline || not (after e.deadline at))
        (invalid "command deadline exceeds the prepared effect deadline or has elapsed")
    if is_empty i.required_capability_refs then validate_no_token e else ok tt

  unfoldable pub validate_envelope_for_intent :
      CommandEnvelope → EffectIntent → Time → Bool → Result (Unit {0})
  validate_envelope_for_intent e i at require_private = do
    validate_public_for_intent e i at
    if require_private then validate_private_envelope_tokens e else ok tt
