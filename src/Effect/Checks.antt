-- ===== src/Effect/Checks.antt =====
-- The checks of kernel/effect on texts, failures and fences, and its stable identities. An identity
-- is checked as in kernel/execution.
use Prim.Native.String.{◌++◌}
use xgc2_orchestration_core.Base.{
  ℕ, suc, String, Bool, true, false, ◌&&◌, ◌||◌, not, Option, none, some, List, [], ◌∷◌, ltb, ◌==◌,
  ◌is◌, Result, ok, invalid, ◌>>=◌, ◌>>◌, require, refuse, is_set, if◌then◌else◌,
}
use xgc2_orchestration_core.Contracts.Identity.{codes, valid_identifier, valid_digest}
use xgc2_orchestration_core.Contracts.Json.{
  Json, Items, cons, nil, num, arr, Canonical, digest_value,
}
use xgc2_orchestration_core.Contracts.Statuses.{FailureClass, failure_class_eq, failure_class_valid}
use xgc2_orchestration_core.Contracts.Records.{StructuredFailure}
use xgc2_orchestration_core.Contracts.EffectStates.{FenceKind}
use xgc2_orchestration_core.Contracts.Effects.{
  RevisionFence, GenerationFence, IdempotentCreateFence, TargetFence,
}
use xgc2_orchestration_core.Execution.Identity.{validate_identity, validate_optional_identity}
use xgc2_orchestration_core.Effect.Json.{target_fence_json}

module _ (c : Canonical) where
  -- `stableID`: the digest without its prefix `sha256:`, which `digest_value` has put in front.
  unfoldable pub stable_effect_part : String → String → Items → Result String
  stable_effect_part prefix domain parts = do
    canonical ← c.marshal (arr (cons (Json.text domain) parts))
    ok (prefix ++ "-" ++ c.sha256_hex canonical)

  unfoldable pub stable_effect_id : String → String → Result String
  stable_effect_id invocation_id effect_key =
      stable_effect_part "eff" "xgc.effect/v1"
        (cons (Json.text invocation_id) (cons (Json.text effect_key) nil))

  unfoldable pub stable_receipt_id : String → ℕ → Result String
  stable_receipt_id command_id sequence =
      stable_effect_part "rcp" "xgc.command-receipt/v1"
        (cons (Json.text command_id) (cons (num sequence) nil))

-- Go's `<` on strings compares bytes; on valid UTF-8 that is the order of the code points.
unfoldable pub codes_before : List ℕ → List ℕ → Bool
codes_before xs [] = false
codes_before [] (y ∷ ys) = true
codes_before (x ∷ xs) (y ∷ ys) = ltb x y || (x == y && codes_before xs ys)

unfoldable pub text_before : String → String → Bool
unfolding codes_before
text_before s t = codes_before (codes s) (codes t)

-- `sort.StringsAreSorted`.
unfoldable pub strings_are_sorted : List String → Bool
unfolding text_before
strings_are_sorted (s ∷ t ∷ rest) = not (text_before t s) && strings_are_sorted (t ∷ rest)
strings_are_sorted _ = true

abbrev pub repeats : Option String → String → Bool
repeats none value = false
repeats (some previous) value = previous is value

-- The loop of `validateSortedIdentities`, with the element before the rest.
unfoldable pub validate_distinct : Option String → List String → Result (Unit {0})
validate_distinct previous [] = ok tt
validate_distinct previous (value ∷ rest) = do
  validate_identity value "sorted identity"
  refuse (repeats previous value) (invalid "sorted identities contain a duplicate")
  validate_distinct (some value) rest

unfoldable pub validate_sorted_identities : List String → Result (Unit {0})
unfolding strings_are_sorted validate_distinct
validate_sorted_identities values = do
  require (strings_are_sorted values) (invalid "identities must be sorted")
  validate_distinct none values

unfoldable pub validate_effect_failure : Option StructuredFailure → Bool → Result (Unit {0})
validate_effect_failure none uncertain = refuse true (invalid "failure is required")
validate_effect_failure (some failure) uncertain = do
  refuse
      (not (failure_class_valid failure.class)
        || not (valid_identifier failure.code)
        || failure.message is "")
      (invalid "failure")
  refuse (uncertain && not (failure_class_eq failure.class FailureClass.uncertain))
      (invalid "failure must be uncertain")
  validate_optional_identity failure.evidence_ref "failure evidence ref"

abbrev pub fence_variants : TargetFence → ℕ
fence_variants f =
    let revision = (if is_set f.revision then 1 else 0) in
    let generation = (if is_set f.generation then suc revision else revision) in
    if is_set f.idempotent_create then suc generation else generation

unfoldable pub validate_revision_fence : TargetFence → Option RevisionFence → Result (Unit {0})
validate_revision_fence f none = refuse true (invalid "revision fence union")
validate_revision_fence f (some revision) = do
  refuse (is_set f.generation || is_set f.idempotent_create || revision.expected_revision == 0)
      (invalid "revision fence union")
  validate_identity revision.target_id "revision fence target id"

unfoldable pub validate_generation_fence : TargetFence → Option GenerationFence → Result (Unit {0})
validate_generation_fence f none = refuse true (invalid "generation fence union")
validate_generation_fence f (some generation) = do
  refuse
      (is_set f.revision
        || is_set f.idempotent_create
        || generation.generation == 0
        || generation.fencing_token == 0)
      (invalid "generation fence union")
  validate_identity generation.binding_id "generation fence binding id"

unfoldable pub validate_create_fence :
    TargetFence → Option IdempotentCreateFence → Result (Unit {0})
validate_create_fence f none = refuse true (invalid "idempotent-create fence union")
validate_create_fence f (some create) = do
  refuse (is_set f.revision || is_set f.generation || not (valid_digest create.identity_digest))
      (invalid "idempotent-create fence union")
  validate_identity create.target_namespace "idempotent-create target namespace"

unfoldable pub validate_fence_kind : TargetFence → FenceKind → Result (Unit {0})
unfolding validate_revision_fence validate_generation_fence validate_create_fence
validate_fence_kind f FenceKind.revision = validate_revision_fence f f.revision
validate_fence_kind f FenceKind.generation = validate_generation_fence f f.generation
validate_fence_kind f FenceKind.idempotent_create = validate_create_fence f f.idempotent_create
validate_fence_kind f FenceKind.other = refuse true (invalid "target fence kind")

unfoldable pub validate_target_fence : TargetFence → Result (Unit {0})
unfolding validate_fence_kind
validate_target_fence f = do
  require (fence_variants f == 1) (invalid "target fence must select exactly one variant")
  validate_fence_kind f f.kind

module _ (c : Canonical) where
  unfoldable pub fence_digest : TargetFence → Result String
  fence_digest f = do validate_target_fence f; digest_value c (target_fence_json f)
