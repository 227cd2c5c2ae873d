-- ===== src/Effect/Fences.antt =====
-- The target fence as the closed union that it stands for.
use xgc2_orchestration_core.Base.{
  Bool, true, false, ◌&&◌, not, Option, none, some, ◌==◌, ◌≡◌, ok, err, Result, arith,
}
use xgc2_orchestration_core.Contracts.Identity.{valid_identifier, valid_digest}
use xgc2_orchestration_core.Contracts.EffectStates.{FenceKind}
use xgc2_orchestration_core.Contracts.Effects.{
  RevisionFence, GenerationFence, IdempotentCreateFence, TargetFence,
}
use xgc2_orchestration_core.Execution.Identity.{validate_identity}
use xgc2_orchestration_core.Effect.Checks.{
  validate_revision_fence, validate_generation_fence, validate_create_fence, validate_fence_kind,
  validate_target_fence,
}

-- A fence is one of three.
pub data FenceUnion : Type 0 where
  on_revision : RevisionFence → FenceUnion
  on_generation : GenerationFence → FenceUnion
  on_create : IdempotentCreateFence → FenceUnion

-- Its numbers are not zero, its digest is one, and its identifier is valid.
unfoldable pub well_formed : FenceUnion → Bool
well_formed (FenceUnion.on_revision f) =
    not (f.expected_revision == 0) && valid_identifier f.target_id
well_formed (FenceUnion.on_generation f) =
    not (f.generation == 0) && not (f.fencing_token == 0) && valid_identifier f.binding_id
well_formed (FenceUnion.on_create f) =
    valid_digest f.identity_digest && valid_identifier f.target_namespace

-- What a kind and three pointers say, if they say one thing.
decode_members :
    FenceKind
    → Option RevisionFence
    → Option GenerationFence
    → Option IdempotentCreateFence
    → Option FenceUnion
decode_members FenceKind.revision (some f) none none = some (FenceUnion.on_revision f)
decode_members FenceKind.generation none (some f) none = some (FenceUnion.on_generation f)
decode_members FenceKind.idempotent_create none none (some f) = some (FenceUnion.on_create f)
decode_members kind revision generation create = none

unfoldable pub decode : TargetFence → Option FenceUnion
unfolding decode_members
decode f = decode_members f.kind f.revision f.generation f.idempotent_create

unfoldable pub is_well_formed : Option FenceUnion → Bool
unfolding well_formed
is_well_formed none = false
is_well_formed (some u) = well_formed u

abbrev pub accepted : Result (Unit {0}) → Bool
accepted (ok tt) = true
accepted (err e) = false

-- A target fence is accepted exactly when its kind and its pointers say one thing, a fence on a
-- revision, on a generation or on an idempotent creation, and that fence is well-formed: its numbers
-- are not zero, its digest is one, and the identifier of its target is valid.
pub validate_target_fence-decode :
    (f : TargetFence) → accepted (validate_target_fence f) ≡ is_well_formed (decode f)
unfolding decode decode_members is_well_formed validate_target_fence validate_fence_kind
    validate_revision_fence validate_generation_fence validate_create_fence validate_identity
validate_target_fence-decode f = ground arith
