-- ===== src/Workflow/Walk.antt =====
-- The walk of a Run along its plan: what is recorded stays, and no position waits for a later one.
use xgc2_orchestration_core.Base.{
  suc, String, Bool, none, some, get_elem?, ◌is◌, ◌≡◌, ap, is→eq, ◌∙◌, ok, arith, Option-cases,
  Bool-cases, inl, inr,
}
use xgc2_orchestration_core.Contracts.Records.{StructuredFailure}
use xgc2_orchestration_core.Workflow.Routing.{
  NodeOutcome, NodeResult, NodeMap, lookup, insert, RunSnapshot, require_current_node, advance,
  clear_waits, succeeded_outcome, failed_outcome, skipped_outcome, record_succeeded_node,
  record_failed_node, record_skipped_node,
}

keeps :
    (outcomes : NodeMap NodeOutcome) (node id : String) (outcome kept : NodeOutcome)
    → lookup outcomes node ≡ none
    → lookup outcomes id ≡ some kept
    → lookup (insert outcomes node outcome) id ≡ some kept
unfolding lookup
keeps outcomes node id outcome kept new old = elim (Bool-cases (node is id)) [
  | inl same ↦ absurd (clash (is→eq node id same))
  | inr distinct ↦ rw distinct old
]
  where
    clash : node ≡ id → ⊥
    clash e = ground (arith, rw e at new, old)

module _ {Waiting ActionCall : Type 0} where
  -- A step records the outcome of the current node.
  pub data RoutingStep (s t : RunSnapshot Waiting ActionCall) : Type 0 where
    succeeding :
        (node : String) (result : NodeResult)
        → record_succeeded_node s node result ≡ ok t
        → RoutingStep s t
    failing :
        (node : String) (failure : StructuredFailure) (handled : Bool)
        → record_failed_node s node failure ≡ ok (t, handled)
        → RoutingStep s t
    skipping : (node : String) → record_skipped_node s node ≡ ok t → RoutingStep s t

  pub data Walk (s : RunSnapshot Waiting ActionCall) : RunSnapshot Waiting ActionCall → Type 0 where
    here : Walk s s
    further : {l t : RunSnapshot Waiting ActionCall} → Walk s l → RoutingStep l t → Walk s t

  -- What every step does.
  pub record Advances (s t : RunSnapshot Waiting ActionCall) : Type 0 where
    pub node : String
    pub outcome : NodeOutcome
    pub current : get_elem? s.node_order s.next_node ≡ some node
    pub unknown : lookup s.node_outcomes node ≡ none
    pub order : t.node_order ≡ s.node_order
    pub edges : t.plan_edges ≡ s.plan_edges
    pub next : t.next_node ≡ suc s.next_node
    pub outcomes : t.node_outcomes ≡ insert s.node_outcomes node outcome

  current_node :
      (s : RunSnapshot Waiting ActionCall) (node : String)
      → require_current_node s node ≡ ok tt
      → (get_elem? s.node_order s.next_node ≡ some node) × (lookup s.node_outcomes node ≡ none)
  unfolding require_current_node
  current_node s node h = elim (Option-cases (get_elem? s.node_order s.next_node)) [
    | inl outside ↦ absurd (ground arith)
    | inr (found, at_next) ↦ (at_next ∙ ap some (is→eq found node (ground arith)), ground arith)
  ]

  pub RoutingStep-Advances : {s t : RunSnapshot Waiting ActionCall} → RoutingStep s t → Advances s t
  unfolding record_succeeded_node record_failed_node record_skipped_node advance clear_waits
  RoutingStep-Advances {s} (RoutingStep.succeeding node result h) =
      let (current, unknown) = current_node s node (ground arith) in
      record {
        node = node;
        outcome = succeeded_outcome result;
        current = current;
        unknown = unknown;
        order = ground arith;
        edges = ground arith;
        next = ground arith;
        outcomes = ground arith;
      }
  RoutingStep-Advances {s} (RoutingStep.failing node failure handled h) =
      let (current, unknown) = current_node s node (ground arith) in
      record {
        node = node;
        outcome = failed_outcome failure;
        current = current;
        unknown = unknown;
        order = ground arith;
        edges = ground arith;
        next = ground arith;
        outcomes = ground arith;
      }
  RoutingStep-Advances {s} (RoutingStep.skipping node h) =
      let (current, unknown) = current_node s node (ground arith) in
      record {
        node = node;
        outcome = skipped_outcome;
        current = current;
        unknown = unknown;
        order = ground arith;
        edges = ground arith;
        next = ground arith;
        outcomes = ground arith;
      }

  -- The routing outcome of a node is final: whatever nodes are recorded later as succeeded, failed or
  -- skipped, an outcome that is there stays as it is.
  pub Walk-outcome :
      {s t : RunSnapshot Waiting ActionCall} (id : String) {outcome : NodeOutcome}
      → Walk s t
      → lookup s.node_outcomes id ≡ some outcome
      → lookup t.node_outcomes id ≡ some outcome
  Walk-outcome id Walk.here known = known
  Walk-outcome id {outcome} (Walk.further {l} w step) known =
      let a = RoutingStep-Advances step in
      rw a.outcomes
        (keeps l.node_outcomes a.node id a.outcome outcome a.unknown (Walk-outcome id w known))
