-- ===== src/Execution/Identity.antt =====
-- kernel/execution/identity.go: stable identities and the checks on texts and failures. The
-- canonical encoder and the hash are the argument `c`.
use Prim.Native.String.{◌++◌, len}
use xgc2_orchestration_core.Base.{
  ℕ, String, Bool, true, false, ◌&&◌, ◌||◌, not, Option, none, some, List, [], ◌∷◌, leb, ◌==◌, ◌is◌,
  Result, ok, err, invalid, ◌>>=◌, ◌>>◌, require, refuse, if◌then◌else◌,
}
use xgc2_orchestration_core.Contracts.Identity.{
  codes, valid_identifier, valid_type_ref, valid_digest, is_trimmed,
}
use xgc2_orchestration_core.Contracts.Json.{
  Json, Items, Fields, nil, cons, num, obj, field, Canonical,
}
use xgc2_orchestration_core.Contracts.Statuses.{
  AttemptPhase, attempt_phase_name, DurableIntentKind, durable_intent_kind_name,
  failure_class_valid,
}
use xgc2_orchestration_core.Contracts.Records.{ActionRef, StructuredFailure}

abbrev pub max_message_bytes : ℕ
max_message_bytes = 4096

-- What a caller reads from `value, _ := f()`.
abbrev pub or_empty : Result String → String
or_empty (ok s) = s
or_empty (err e) = ""

-- An `ActionRef` as encoding/json writes it.
unfoldable pub action_ref_json : ActionRef → Json
action_ref_json ref = obj (
    field "actionId" (Json.text ref.action_id)
      (field "version" (Json.text ref.version) (field "digest" (Json.text ref.digest) Fields.end)))

module _ (c : Canonical) where
  unfoldable pub stable_id : String → String → Items → Result String
  stable_id prefix domain parts = do
    require (valid_identifier prefix && valid_type_ref domain) (invalid "stable identity domain")
    canonical ← c.marshal (Json.arr (cons (Json.text domain) parts))
    ok (prefix ++ "-" ++ c.sha256_hex canonical)

  unfoldable pub stable_invocation_id : String → String → Result String
  stable_invocation_id run_id node_id =
      stable_id "inv" "xgc.invocation/v1" (cons (Json.text run_id) (cons (Json.text node_id) nil))

  unfoldable pub stable_child_run_id : String → ActionRef → Result String
  stable_child_run_id parent_invocation_id action = do
    require
        (valid_identifier parent_invocation_id
          && valid_identifier action.action_id
          && valid_identifier action.version
          && valid_digest action.digest)
        (invalid "child Run parent invocation or Action ref")
    stable_id "run" "xgc.child-run/v1"
        (cons (Json.text parent_invocation_id) (cons (action_ref_json action) nil))

  unfoldable pub stable_child_trigger_event_id : String → Result String
  stable_child_trigger_event_id child_run_id = do
    require (valid_identifier child_run_id) (invalid "child trigger Run identity")
    stable_id "trg" "xgc.child-trigger/v1" (cons (Json.text child_run_id) nil)

  unfoldable pub stable_attempt_id : String → AttemptPhase → ℕ → Result String
  stable_attempt_id invocation_id phase ordinal = stable_id "att" "xgc.attempt/v1" (
      cons (Json.text invocation_id)
        (cons (Json.text (attempt_phase_name phase)) (cons (num ordinal) nil)))

  unfoldable pub stable_event_id : String → String → ℕ → Result String
  stable_event_id aggregate_type aggregate_id revision =
      stable_id "evt" "xgc.domain-event/v1"
        (cons (Json.text aggregate_type) (cons (Json.text aggregate_id) (cons (num revision) nil)))

  unfoldable pub stable_intent_id : DurableIntentKind → String → ℕ → Result String
  stable_intent_id kind aggregate_id revision = stable_id "dti" "xgc.durable-intent/v1" (
      cons (Json.text (durable_intent_kind_name kind))
        (cons (Json.text aggregate_id) (cons (num revision) nil)))

unfoldable pub validate_identity : String → String → Result (Unit {0})
validate_identity value label = require (valid_identifier value) (invalid label)

-- `for label, value := range map[string]string{…}`. The order of a Go map is not fixed, so which of
-- several errors comes back is not either; that there is one does not depend on the order.
unfoldable pub validate_identities : List String → Result (Unit {0})
unfolding validate_identity
validate_identities [] = ok tt
validate_identities (v ∷ vs) = do validate_identity v "identity"; validate_identities vs

unfoldable pub validate_optional_identity : String → String → Result (Unit {0})
unfolding validate_identity
validate_optional_identity value label =
    if value is "" then ok tt else validate_identity value label

unfoldable pub validate_optional_identities : List String → Result (Unit {0})
unfolding validate_optional_identity
validate_optional_identities [] = ok tt
validate_optional_identities (v ∷ vs) = do
  validate_optional_identity v "optional identity"
  validate_optional_identities vs

contains_code : ℕ → List ℕ → Bool
contains_code n [] = false
contains_code n (c ∷ cs) = c == n || contains_code n cs

unfoldable pub validate_canonical_text : String → String → ℕ → Bool → Result (Unit {0})
unfolding contains_code
validate_canonical_text value label maximum required =
    if value is ""
    then refuse required (invalid label)
    else require
        (leb (len value) maximum && is_trimmed value && not (contains_code 0 (codes value)))
        (invalid label)

module _ (c : Canonical) where
  unfoldable pub private_token_digest : String → Result String
  private_token_digest value = do
    validate_canonical_text value "private identity" 512 true
    ok ("sha256:" ++ c.sha256_hex value)

unfoldable pub validate_failure_value : StructuredFailure → String → Result (Unit {0})
unfolding validate_identity validate_optional_identity validate_canonical_text
validate_failure_value failure label = do
  require (failure_class_valid failure.class) (invalid label)
  validate_identity failure.code label
  validate_canonical_text failure.message label max_message_bytes true
  validate_optional_identity failure.evidence_ref label

unfoldable pub validate_failure : Option StructuredFailure → Bool → String → Result (Unit {0})
validate_failure none required label = refuse required (invalid label)
validate_failure (some failure) required label = validate_failure_value failure label

-- The loop over `run.CleanupFailures`.
unfoldable pub validate_failures : List StructuredFailure → Result (Unit {0})
validate_failures [] = ok tt
validate_failures (f ∷ fs) = do
  validate_failure (some f) true "cleanup failure"
  validate_failures fs
