-- ===== src/Witnesses/Routing.antt =====
-- A plan of two nodes, walked, and a retry policy; the theorems at them.
use Prim.Native.Nat.{◌*◌, pred}
use xgc2_orchestration_core.Base.{String, true, none, some, [], ◌∷◌, ◌≡◌, ◌≢◌, refl, ok, arith}
use xgc2_orchestration_core.Contracts.Json.{Fields}
use xgc2_orchestration_core.Contracts.Workflows.{
  EdgeKind, EdgeCondition, WorkflowEdge, NodeRetryPolicy,
}
use xgc2_orchestration_core.Workflow.Retry.{validate_retry_policy, retry_delay}
use xgc2_orchestration_core.Workflow.Backoff.{capped, doubled, retry_delay-doubled}
use xgc2_orchestration_core.Workflow.Routing.{
  NodeDisposition, NodeResult, lookup, elem, RunSnapshot, current_node_disposition,
  require_current_node, advance, clear_waits, succeeded_outcome, record_succeeded_node,
}
use xgc2_orchestration_core.Workflow.Walk.{RoutingStep, Walk, Walk-outcome}
use xgc2_orchestration_core.Workflow.Progress.{position, ordered, Walk-progress}

abbrev policy : NodeRetryPolicy
policy = record { max_attempts = 5; initial_backoff_millis = 100; max_backoff_millis = 500 }

policy-ok : validate_retry_policy (some policy) ≡ ok tt
unfolding validate_retry_policy
policy-ok = refl

retry_delay-doubled_example :
    retry_delay policy 3 ≡ some (capped 500 (doubled (pred 3) 100) * 1000000)
retry_delay-doubled_example = retry_delay-doubled policy 3 policy-ok (omega arith) (omega arith)

abbrev edge : WorkflowEdge
edge = record {
  source = "fetch";
  target = "store";
  kind = EdgeKind.control;
  condition = EdgeCondition.success;
  route = "";
  source_port = "";
}

abbrev fresh : RunSnapshot String String
fresh = record {
  plan_edges = edge ∷ [];
  node_order = "fetch" ∷ "store" ∷ [];
  node_outputs = [];
  node_outcomes = [];
  next_node = 0;
  waiting = none;
  action_call = none;
  retry_wait = none;
}

abbrev fetched : NodeResult
fetched = record { output = Fields.end; output_digest = ""; route = ""; source_ports = [] }

abbrev halfway : RunSnapshot String String
halfway = record fresh {
  node_outputs = ("fetch", Fields.end) ∷ [];
  node_outcomes = ("fetch", succeeded_outcome fetched) ∷ [];
  next_node = 1;
}

abbrev stored : RunSnapshot String String
stored = record halfway {
  node_outputs = ("store", Fields.end) ∷ ("fetch", Fields.end) ∷ [];
  node_outcomes = ("store", succeeded_outcome fetched) ∷ ("fetch", succeeded_outcome fetched) ∷ [];
  next_node = 2;
}

fetch-ok : record_succeeded_node fresh "fetch" fetched ≡ ok halfway
unfolding record_succeeded_node require_current_node advance clear_waits lookup
fetch-ok = refl

store-ok : record_succeeded_node halfway "store" fetched ≡ ok stored
unfolding record_succeeded_node require_current_node advance clear_waits lookup
store-ok = refl

fresh_ordered : ordered fresh.node_order fresh.plan_edges ≡ true
unfolding ordered elem position
fresh_ordered = refl

fetch_known : lookup halfway.node_outcomes "fetch" ≡ some (succeeded_outcome fetched)
unfolding lookup
fetch_known = refl

halfway-Walk : Walk fresh halfway
halfway-Walk = Walk.further Walk.here (RoutingStep.succeeding "fetch" fetched fetch-ok)

stored-Walk : Walk halfway stored
stored-Walk = Walk.further Walk.here (RoutingStep.succeeding "store" fetched store-ok)

Walk-outcome_example : lookup stored.node_outcomes "fetch" ≡ some (succeeded_outcome fetched)
Walk-outcome_example = Walk-outcome "fetch" stored-Walk fetch_known

Walk-progress_example :
    (d : NodeDisposition) × (current_node_disposition halfway ≡ ok d)
    × (d ≢ NodeDisposition.blocked)
Walk-progress_example = Walk-progress refl fresh_ordered halfway-Walk (omega arith)
