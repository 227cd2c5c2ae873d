-- ===== src/Ownership/Graph.antt =====
-- kernel/ownership/closure.go: `ClosureFacts`, which accepts the persisted record of a closure.
use xgc2_orchestration_core.Base.{
  String, Bool, false, ◌&&◌, ◌||◌, not, none, ◌==◌, ◌is◌, Result, ok, invalid, closure_open, ◌>>=◌,
  ◌>>◌, require, refuse, before, u64_inc,
}
use xgc2_orchestration_core.Contracts.Json.{Canonical}
use xgc2_orchestration_core.Contracts.Statuses.{run_status_terminal}
use xgc2_orchestration_core.Contracts.Records.{Run, RunClosureFacts, satisfied}
use xgc2_orchestration_core.Contracts.Ownership.{ownership_graph_schema_version, OwnershipGraph}
use xgc2_orchestration_core.Execution.Run.Validation.{validate_run}
use xgc2_orchestration_core.Execution.Run.Transition.{RunTransitionCommand, transition_run}
use xgc2_orchestration_core.Ownership.Json.{run_json}
use xgc2_orchestration_core.Ownership.Facts.{derive_closure_facts}

-- Go's `==` on the struct.
unfoldable pub facts_eq : RunClosureFacts → RunClosureFacts → Bool
facts_eq f g =
    f.run_revision == g.run_revision
    && f.ownership_graph_revision == g.ownership_graph_revision
    && f.active_invocation_count == g.active_invocation_count
    && f.live_attempt_count == g.live_attempt_count
    && f.open_wait_count == g.open_wait_count
    && f.open_child_count == g.open_child_count
    && f.open_effect_count == g.open_effect_count
    && f.open_effect_compensation_count == g.open_effect_compensation_count
    && f.open_owned_runtime_count == g.open_owned_runtime_count
    && f.open_owned_resource_count == g.open_owned_resource_count

-- Both texts are there, and are the same.
abbrev pub same_text : Result String → Result String → Bool
same_text (ok s) (ok t) = s is t
same_text a b = false

-- The transition that the terminal Run must be the result of.
unfoldable pub verification : Run → Run → RunClosureFacts → RunTransitionCommand
verification base terminal facts = record {
  run_id = base.run_id;
  expected_revision = base.revision;
  to = terminal.status;
  termination = none;
  result_ref = terminal.result_ref;
  cleanup_failures = terminal.cleanup_failures;
  closure = facts;
  command_id = "verify-ownership-terminal";
  at = terminal.updated_at;
}

module _ (c : Canonical) where
  unfoldable pub exact_run : Run → Run → Bool
  exact_run left right = same_text (c.marshal (run_json left)) (c.marshal (run_json right))

  unfoldable pub validate_terminal_projection : Run → Run → RunClosureFacts → Result (Unit {0})
  validate_terminal_projection base terminal facts = do
    validate_run terminal
    refuse
        (not (run_status_terminal terminal.status)
          || not (terminal.run_id is base.run_id)
          || not (terminal.revision == u64_inc base.revision)
          || before terminal.updated_at base.updated_at)
        (invalid "ownership graph terminal run is not the exact next run revision")
    decision ← transition_run c base (verification base terminal facts)
    require (exact_run decision.run terminal)
        (invalid "ownership graph terminal run differs from the proved terminal transition")

  unfoldable pub closure_facts : OwnershipGraph → Result RunClosureFacts
  closure_facts graph = do
    refuse (not (graph.schema_version is ownership_graph_schema_version) || graph.revision == 0)
        (invalid "ownership graph schema and revision are required")
    facts ← derive_closure_facts c graph.closure_base graph.revision
    require (facts_eq facts graph.closure_facts)
        (invalid "persisted closure facts differ from the closure-base proof")
    require (satisfied facts) closure_open
    validate_terminal_projection graph.closure_base.run graph.terminal_run facts
    ok facts
