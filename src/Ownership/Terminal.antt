-- ===== src/Ownership/Terminal.antt =====
-- What an accepted record of a closure proves of the terminal Run.
use xgc2_orchestration_core.Base.{
  true, false, ◌≡◌, ◌<◌, ◌∙◌, sym, refl, ok, arith, Result-cases, inl, inr, is→eq,
}
use xgc2_orchestration_core.Contracts.Json.{Canonical}
use xgc2_orchestration_core.Contracts.Statuses.{run_status_terminal}
use xgc2_orchestration_core.Contracts.Records.{Run, RunClosureFacts, satisfied}
use xgc2_orchestration_core.Contracts.Ownership.{OwnershipGraph}
use xgc2_orchestration_core.Execution.Run.Transition.{RunDecision, transition_run}
use xgc2_orchestration_core.Ownership.Json.{run_json}
use xgc2_orchestration_core.Ownership.Facts.{derive_closure_facts}
use xgc2_orchestration_core.Ownership.Graph.{
  verification, exact_run, validate_terminal_projection, closure_facts,
}
use xgc2_orchestration_core.Ownership.Quiet.{size, quiet}
use xgc2_orchestration_core.Ownership.Counts.{derive_closure_facts-quiet}

-- A Run was not terminal, owned nothing open, and the terminal Run is, as it is encoded, the result of
-- the transition with these facts.
pub record ClosedBy (c : Canonical) (graph : OwnershipGraph) (facts : RunClosureFacts)
    : Type 0 where
  pub before : run_status_terminal graph.closure_base.run.status ≡ false
  pub after : run_status_terminal graph.terminal_run.status ≡ true
  pub owns_nothing : quiet graph.closure_base ≡ true
  pub decision : RunDecision
  pub allowed :
      transition_run c graph.closure_base.run
        (verification graph.closure_base.run graph.terminal_run facts)
      ≡ ok decision
  pub exact : c.marshal (run_json decision.run) ≡ c.marshal (run_json graph.terminal_run)

module _ (c : Canonical) where
  projected :
      (base terminal : Run) (facts : RunClosureFacts)
      → validate_terminal_projection c base terminal facts ≡ ok tt
      → (run_status_terminal terminal.status ≡ true)
        × ((d : RunDecision) × (transition_run c base (verification base terminal facts) ≡ ok d)
            × (exact_run c d.run terminal ≡ true))
  unfolding validate_terminal_projection
  projected base terminal facts h =
      elim (Result-cases (transition_run c base (verification base terminal facts))) [
        | inl (d, moved) ↦ (ground arith, (d, moved, ground arith))
        | inr (e, failed) ↦ absurd (ground arith)
      ]

  exactly :
      (left right : Run)
      → exact_run c left right ≡ true
      → c.marshal (run_json left) ≡ c.marshal (run_json right)
  unfolding exact_run
  exactly left right h = elim (Result-cases (c.marshal (run_json left))) [
    | inr (e, x) ↦ absurd (ground arith)
    | inl (s, l) ↦ elim (Result-cases (c.marshal (run_json right))) [
      | inr (e, x) ↦ absurd (ground arith)
      | inl (t, r) ↦ rw (l, r, is→eq s t (ground arith)) refl
    ]
  ]

  accepted :
      (graph : OwnershipGraph) (facts : RunClosureFacts)
      → closure_facts c graph ≡ ok facts
      → (derive_closure_facts c graph.closure_base graph.revision ≡ ok facts)
        × (satisfied facts ≡ true)
        × (validate_terminal_projection c graph.closure_base.run graph.terminal_run facts ≡ ok tt)
  unfolding closure_facts
  accepted graph facts h =
      elim (Result-cases (derive_closure_facts c graph.closure_base graph.revision)) [
        | inl (derived, found) ↦ (ground arith, ground arith, ground arith)
        | inr (e, failed) ↦ absurd (ground arith)
      ]

  open_before :
      (graph : OwnershipGraph) (facts : RunClosureFacts)
      → derive_closure_facts c graph.closure_base graph.revision ≡ ok facts
      → run_status_terminal graph.closure_base.run.status ≡ false
  unfolding derive_closure_facts
  open_before graph facts h = ground arith

  -- A record of a closure is only accepted for a Run that was not terminal and owned nothing open, and
  -- only with a terminal Run that is encoded as the result of `TransitionRun` on it with the derived
  -- facts; provided that the Run owns fewer than 2^64 things.
  pub closure_facts-ClosedBy :
      (graph : OwnershipGraph) {facts : RunClosureFacts}
      → size graph.closure_base < 18446744073709551616
      → closure_facts c graph ≡ ok facts
      → ClosedBy c graph facts
  closure_facts-ClosedBy graph {facts} small h =
      let (found, zero, valid) = accepted graph facts h in
      let (after, (d, moved, exact)) =
        projected graph.closure_base.run graph.terminal_run facts valid in
      record {
        before = open_before graph facts found;
        after = after;
        owns_nothing =
            sym (derive_closure_facts-quiet c graph.closure_base graph.revision found small) ∙ zero;
        decision = d;
        allowed = moved;
        exact = exactly d.run graph.terminal_run exact;
      }
