-- ===== src/Ownership/Counts.antt =====
-- The derived facts are the counts of what is open, and are satisfied exactly when nothing is.
use xgc2_orchestration_core.Base.{
  ℕ, ◌&&◌, ◌||◌, List, [], ◌∷◌, ◌≡◌, ◌<◌, refl, ap, sym, ok, arith, ◌∙◌, Result, Result-cases,
  bind_ok, inl, inr,
}
use xgc2_orchestration_core.Contracts.Json.{Canonical}
use xgc2_orchestration_core.Contracts.Records.{Run, InvocationLedger, RunClosureFacts, satisfied}
use xgc2_orchestration_core.Contracts.Runtimes.{RuntimeBinding}
use xgc2_orchestration_core.Contracts.Effects.{EffectRecord}
use xgc2_orchestration_core.Contracts.Ownership.{ResourceOwnershipFact, OwnershipClosureBase}
use xgc2_orchestration_core.Ownership.Facts.{
  Derivation, claim_identity, is_active, is_waiting, child_open, effect_open, compensation_open,
  runtime_open, resource_open, count_invocation, count_child, count_effect, count_runtime,
  count_resource, no_facts, no_derivation, derive_each, derive_invocation, derive_child,
  derive_effect, derive_runtime, derive_resource, derive_owned, derive_closure_facts,
}
use xgc2_orchestration_core.Ownership.Quiet.{
  none_of, none_of-or, size, holds, quiet, tally, tally-none_of, live_tally, any_live,
  live_tally-none_of,
}

count_all {ℓ} :
    {A : Type ℓ}
    → (RunClosureFacts → A → RunClosureFacts)
    → RunClosureFacts
    → List A
    → RunClosureFacts
count_all count f [] = f
count_all count f (x ∷ xs) = count_all count (count f x) xs

derive_each-facts {ℓ} :
    {A : Type ℓ} (body : Derivation → A → Result Derivation)
    (count : RunClosureFacts → A → RunClosureFacts)
    → ((st next : Derivation) (x : A) → body st x ≡ ok next → next.facts ≡ count st.facts x)
    → (st last : Derivation) (xs : List A) → derive_each body st xs ≡ ok last
    → last.facts ≡ count_all count st.facts xs
unfolding derive_each count_all
derive_each-facts body count step st last [] h = ground arith
derive_each-facts body count step st last (x ∷ xs) h = elim (Result-cases (body st x)) [
  | inl (next, done) ↦
      derive_each-facts body count step next last xs (rw done at h)
      ∙ ap (λ f. count_all count f xs) (step st next x done)
  | inr (e, failed) ↦ absurd (ground arith)
]

count_invocations :
    (f : RunClosureFacts) (ls : List InvocationLedger)
    → count_all count_invocation f ls ≡ record f {
      active_invocation_count = tally (λ l. is_active l.invocation) f.active_invocation_count ls;
      open_wait_count = tally (λ l. is_waiting l.invocation) f.open_wait_count ls;
      live_attempt_count = live_tally f.live_attempt_count ls;
    }
unfolding count_all tally live_tally count_invocation
count_invocations f [] = refl
count_invocations f (l ∷ ls) = count_invocations (count_invocation f l) ls

count_children :
    (f : RunClosureFacts) (xs : List Run)
    → count_all count_child f xs
      ≡ record f { open_child_count = tally child_open f.open_child_count xs }
unfolding count_all tally count_child
count_children f [] = refl
count_children f (x ∷ xs) = count_children (count_child f x) xs

count_effects :
    (f : RunClosureFacts) (xs : List EffectRecord)
    → count_all count_effect f xs ≡ record f {
      open_effect_count = tally effect_open f.open_effect_count xs;
      open_effect_compensation_count = tally compensation_open f.open_effect_compensation_count xs;
    }
unfolding count_all tally count_effect
count_effects f [] = refl
count_effects f (x ∷ xs) = count_effects (count_effect f x) xs

count_runtimes :
    (f : RunClosureFacts) (xs : List RuntimeBinding)
    → count_all count_runtime f xs
      ≡ record f { open_owned_runtime_count = tally runtime_open f.open_owned_runtime_count xs }
unfolding count_all tally count_runtime
count_runtimes f [] = refl
count_runtimes f (x ∷ xs) = count_runtimes (count_runtime f x) xs

count_resources :
    (f : RunClosureFacts) (xs : List ResourceOwnershipFact)
    → count_all count_resource f xs
      ≡ record f { open_owned_resource_count = tally resource_open f.open_owned_resource_count xs }
unfolding count_all tally count_resource
count_resources f [] = refl
count_resources f (x ∷ xs) = count_resources (count_resource f x) xs

-- The facts of a base, counted.
facts_of : OwnershipClosureBase → ℕ → RunClosureFacts
facts_of base graph_revision = record {
  run_revision = base.run.revision;
  ownership_graph_revision = graph_revision;
  active_invocation_count = tally (λ l. is_active l.invocation) 0 base.invocations;
  live_attempt_count = live_tally 0 base.invocations;
  open_wait_count = tally (λ l. is_waiting l.invocation) 0 base.invocations;
  open_child_count = tally child_open 0 base.child_runs;
  open_effect_count = tally effect_open 0 base.effects;
  open_effect_compensation_count = tally compensation_open 0 base.effects;
  open_owned_runtime_count = tally runtime_open 0 base.runtimes;
  open_owned_resource_count = tally resource_open 0 base.resources;
}

module _ (c : Canonical) (run : Run) (st next : Derivation) where
  derive_invocation-facts :
      (l : InvocationLedger)
      → derive_invocation c run st l ≡ ok next
      → next.facts ≡ count_invocation st.facts l
  unfolding derive_invocation claim_identity
  derive_invocation-facts l h = ground arith

  derive_child-facts :
      (r : Run) → derive_child c run st r ≡ ok next → next.facts ≡ count_child st.facts r
  unfolding derive_child claim_identity
  derive_child-facts r h = ground arith

  derive_effect-facts :
      (r : EffectRecord) → derive_effect c run st r ≡ ok next → next.facts ≡ count_effect st.facts r
  unfolding derive_effect claim_identity
  derive_effect-facts r h = ground arith

  derive_runtime-facts :
      (b : RuntimeBinding)
      → derive_runtime c run st b ≡ ok next
      → next.facts ≡ count_runtime st.facts b
  unfolding derive_runtime claim_identity
  derive_runtime-facts b h = ground arith

  derive_resource-facts :
      (r : ResourceOwnershipFact)
      → derive_resource c run st r ≡ ok next
      → next.facts ≡ count_resource st.facts r
  unfolding derive_resource claim_identity
  derive_resource-facts r h = ground arith

module _ (c : Canonical) (base : OwnershipClosureBase) (graph_revision : ℕ) where
  -- The loops count one after the other.
  derive_owned-facts :
      (start last : Derivation)
      → derive_owned c base start ≡ ok last
      → last.facts
        ≡ count_all count_resource
            (count_all count_runtime
              (count_all count_effect
                (count_all count_child
                  (count_all count_invocation start.facts base.invocations)
                  base.child_runs)
                base.effects)
              base.runtimes)
            base.resources
  unfolding derive_owned
  derive_owned-facts start last h =
      let (s, h, k) = bind_ok _ _ h in
      let (t, i, k) = bind_ok _ _ k in
      let (u, j, k) = bind_ok _ _ k in
      let (v, l, k) = bind_ok _ _ k in
      let run = base.run in
      rw⁻¹
        (
          derive_each-facts _ count_invocation (λ s t x. derive_invocation-facts c run s t x) start
              s base.invocations h,
          derive_each-facts _ count_child (λ s t x. derive_child-facts c run s t x) s t
              base.child_runs i,
          derive_each-facts _ count_effect (λ s t x. derive_effect-facts c run s t x) t u
              base.effects j,
          derive_each-facts _ count_runtime (λ s t x. derive_runtime-facts c run s t x) u v
              base.runtimes l,
        )
        (derive_each-facts _ count_resource (λ s t x. derive_resource-facts c run s t x) v last
          base.resources k)

  derive_closure_facts-facts_of :
      (facts : RunClosureFacts)
      → derive_closure_facts c base graph_revision ≡ ok facts
      → facts ≡ facts_of base graph_revision
  unfolding derive_closure_facts facts_of no_derivation no_facts
  derive_closure_facts-facts_of facts h =
      let start = no_derivation base.run graph_revision in
      let (last, ran, same) =
        bind_ok (derive_owned c base start) (λ r. ok r.facts) {t = facts} (ground arith) in
      let counted = derive_owned-facts start last ran in
      let found : last.facts ≡ facts = ground arith in
      sym found
      ∙ rw
          (
            counted,
            count_invocations start.facts base.invocations,
            count_children _ base.child_runs,
            count_effects _ base.effects,
            count_runtimes _ base.runtimes,
            count_resources _ base.resources,
          )
          refl

  holds-none_of :
      (ls : List InvocationLedger)
      → none_of holds ls ≡ (
          (none_of (λ l. is_active l.invocation) ls && none_of (λ l. is_waiting l.invocation) ls)
          && none_of any_live ls)
  holds-none_of ls =
      none_of-or (λ l. is_active l.invocation || is_waiting l.invocation) any_live ls
      ∙ ap (λ b. b && none_of any_live ls)
          (none_of-or (λ l. is_active l.invocation) (λ l. is_waiting l.invocation) ls)

  satisfied-facts_of :
      size base < 18446744073709551616 → satisfied (facts_of base graph_revision) ≡ quiet base
  unfolding satisfied facts_of quiet
  satisfied-facts_of small = ground (
    arith,
    tally-none_of (λ l. is_active l.invocation) 0 base.invocations (omega (arith, small)),
    tally-none_of (λ l. is_waiting l.invocation) 0 base.invocations (omega (arith, small)),
    live_tally-none_of 0 base.invocations (omega (arith, small)),
    tally-none_of child_open 0 base.child_runs (omega (arith, small)),
    tally-none_of effect_open 0 base.effects (omega (arith, small)),
    tally-none_of compensation_open 0 base.effects (omega (arith, small)),
    tally-none_of runtime_open 0 base.runtimes (omega (arith, small)),
    tally-none_of resource_open 0 base.resources (omega (arith, small)),
    holds-none_of base.invocations,
  )

  -- The derived facts are satisfied exactly when the Run owns nothing that is open: every invocation and
  -- its compensation have ended, none waits, no attempt is live, every child Run has ended, no effect
  -- is unobserved or uncertain, the compensations of owned effects are done as their policies ask, and
  -- every owned runtime and resource has ended; provided that there are fewer than 2^64 of all of
  -- them together.
  pub derive_closure_facts-quiet :
      {facts : RunClosureFacts}
      → derive_closure_facts c base graph_revision ≡ ok facts
      → size base < 18446744073709551616
      → satisfied facts ≡ quiet base
  derive_closure_facts-quiet {facts} h small =
      ap satisfied (derive_closure_facts-facts_of facts h) ∙ satisfied-facts_of small
