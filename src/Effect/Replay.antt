-- ===== src/Effect/Replay.antt =====
-- Preparing an effect again.
use xgc2_orchestration_core.Base.{
  ℕ, suc, [], none, ◌<◌, ◌≡◌, ◌≢◌, ok, err, effect_conflict, arith, eq_iff, refl, true, ◌&&◌, ◌is◌,
}
use xgc2_orchestration_core.Contracts.Json.{Canonical}
use xgc2_orchestration_core.Contracts.Effects.{EffectRecord}
use xgc2_orchestration_core.Effect.Commands.{PrepareCommand, EffectDecision}
use xgc2_orchestration_core.Effect.Primary.{prepare_effect, replay_prepare}
use xgc2_orchestration_core.Effect.Steps.{EffectReach}
use xgc2_orchestration_core.Effect.Frozen.{SameEffect, EffectReach-SameEffect}
use xgc2_orchestration_core.Effect.Validity.{EffectReach-SoundEffect}

-- The decision that changes nothing and announces nothing.
abbrev pub unchanged : EffectRecord → EffectDecision
unchanged r = record { effect = r; ledger = none; events = []; intents = [] }

module _ (c : Canonical) (command : PrepareCommand) where
  -- Preparing an effect is idempotent for its whole life: however many operations were accepted since
  -- it was prepared, short of 2^64, the same command again is accepted, and gives back the record as
  -- it stands, without an event or an intent.
  pub replay_prepare-same :
      {d : EffectDecision} {m : EffectRecord} {n : ℕ}
      → prepare_effect c command ≡ ok d
      → suc n < 18446744073709551616
      → EffectReach c d.effect n m
      → replay_prepare c m command ≡ ok (unchanged m)
  unfolding replay_prepare
  replay_prepare-same {d} {m} h small r =
      let same = EffectReach-SameEffect c r in
      rw ((EffectReach-SoundEffect c command h small r).valid, h, agree same) refl
    where
      agree :
          SameEffect d.effect m
          → (m.effect_id is d.effect.effect_id
              && m.preparation_digest is d.effect.preparation_digest)
            ≡ true
      agree same = ground (
        arith,
        eq_iff m.effect_id d.effect.effect_id,
        eq_iff m.preparation_digest d.effect.preparation_digest,
        same.effect_id,
        same.preparation_digest,
      )

  -- A prepared effect is never replaced by another one: a second command that would be accepted on
  -- its own, with an intent whose digest differs, is refused with an effect conflict after the
  -- first, however many operations later, short of 2^64.
  pub replay_prepare-conflict :
      (second : PrepareCommand) {d e : EffectDecision} {m : EffectRecord} {n : ℕ}
      → prepare_effect c command ≡ ok d
      → suc n < 18446744073709551616
      → EffectReach c d.effect n m
      → prepare_effect c second ≡ ok e
      → d.effect.preparation_digest ≢ e.effect.preparation_digest
      → replay_prepare c m second ≡ err effect_conflict
  unfolding replay_prepare
  replay_prepare-conflict second {d} {e} {m} h small r prepared distinct = ground (
    arith,
    (EffectReach-SoundEffect c command h small r).valid,
    eq_iff m.preparation_digest e.effect.preparation_digest,
    (EffectReach-SameEffect c r).preparation_digest,
  )
