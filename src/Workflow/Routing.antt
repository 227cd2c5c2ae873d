-- ===== src/Workflow/Routing.antt =====
-- controller/routing.go: which node of a compiled plan a Run executes or skips next, and how the
-- outcome of a node is recorded. Of `RunSnapshot` and `NodeResult` these are the members that routing
-- reads or writes; a wait and a child call are only ever cleared, so what they hold is left open.
use xgc2_orchestration_core.Base.{
  ℕ, suc, String, Bool, false, ◌&&◌, ◌||◌, Option, none, some, List, [], ◌∷◌, get_elem?, ◌is◌,
  Result, ok, err, invalid, ◌>>=◌, ◌>>◌, require, refuse, is_set, Time, if◌then◌else◌,
}
use xgc2_orchestration_core.Contracts.Json.{Fields}
use xgc2_orchestration_core.Contracts.Statuses.{InvocationStatus, invocation_status_eq}
use xgc2_orchestration_core.Contracts.Records.{StructuredFailure}
use xgc2_orchestration_core.Contracts.Workflows.{EdgeCondition, WorkflowEdge}

pub data NodeDisposition : Type 0 where
  blocked ready skipped : NodeDisposition

pub record NodeOutcome : Type 0 where
  pub status : InvocationStatus
  pub output_digest : String
  pub route : String
  pub source_ports : List String
  pub failure : Option StructuredFailure

pub record NodeResult : Type 0 where
  pub output : Fields
  pub output_digest : String
  pub route : String
  pub source_ports : List String

pub record RetryWaitOccurrence : Type 0 where
  pub invocation_id : String
  pub attempt_ordinal : ℕ
  pub available_at : Time

-- A map from node ids. The newest entry of a key is the one that counts.
abbrev pub NodeMap {ℓ} : Type ℓ → Type ℓ
NodeMap V = List (String × V)

unfoldable pub lookup {ℓ} : {V : Type ℓ} → NodeMap V → String → Option V
lookup [] key = none
lookup ((name, value) ∷ rest) key = if name is key then some value else lookup rest key

-- `map[key] = value`.
abbrev pub insert {ℓ} : {V : Type ℓ} → NodeMap V → String → V → NodeMap V
insert m key value = (key, value) ∷ m

unfoldable pub elem : List String → String → Bool
elem [] s = false
elem (t ∷ rest) s = t is s || elem rest s

pub record RunSnapshot (Waiting ActionCall : Type 0) : Type 0 where
  pub plan_edges : List WorkflowEdge
  pub node_order : List String
  pub node_outputs : NodeMap Fields
  pub node_outcomes : NodeMap NodeOutcome
  pub next_node : ℕ
  pub waiting : Option Waiting
  pub action_call : Option ActionCall
  pub retry_wait : Option RetryWaitOccurrence

abbrev pub has_ended : NodeOutcome → InvocationStatus → Bool
has_ended outcome status = invocation_status_eq outcome.status status

-- The `switch` on the condition.
unfoldable pub condition_matches : EdgeCondition → NodeOutcome → Bool
condition_matches EdgeCondition.success outcome = has_ended outcome InvocationStatus.succeeded
condition_matches EdgeCondition.failure outcome = has_ended outcome InvocationStatus.failed
condition_matches EdgeCondition.always outcome =
    has_ended outcome InvocationStatus.succeeded || has_ended outcome InvocationStatus.failed
condition_matches EdgeCondition.other outcome = false

unfoldable pub outcome_publishes_port : NodeOutcome → String → Bool
unfolding elem
outcome_publishes_port outcome port =
    has_ended outcome InvocationStatus.succeeded
    && (port is "main" || port is outcome.route || elem outcome.source_ports port)

unfoldable pub edge_matches : WorkflowEdge → NodeOutcome → Bool
unfolding condition_matches outcome_publishes_port
edge_matches edge outcome =
    condition_matches edge.condition outcome
    && (edge.route is "" || outcome.route is edge.route)
    && (edge.source_port is "" || outcome_publishes_port outcome edge.source_port)

-- An edge that enters the node from a node that is in the order.
abbrev pub enters : List String → String → WorkflowEdge → Bool
enters order node edge = edge.target is node && elem order edge.source

-- What an incoming edge says, and what the rest of the loop says after it.
unfoldable pub join : Option NodeOutcome → WorkflowEdge → NodeDisposition → NodeDisposition
join none edge rest = NodeDisposition.blocked
join (some outcome) edge rest = if edge_matches edge outcome then rest else NodeDisposition.skipped

-- The loop over the edges.
unfoldable pub resolve_edges :
    List String → NodeMap NodeOutcome → String → List WorkflowEdge → NodeDisposition
resolve_edges order outcomes node [] = NodeDisposition.ready
resolve_edges order outcomes node (e ∷ rest) =
    let later = resolve_edges order outcomes node rest in
    if enters order node e then join (lookup outcomes e.source) e later else later

-- `snapshot.NodeOrder[snapshot.NextNode]`, where an index out of range is an error.
unfoldable pub node_at : Option String → Result String
node_at none = err (invalid "current node position is outside the execution plan")
node_at (some node) = ok node

abbrev pub succeeded_outcome : NodeResult → NodeOutcome
succeeded_outcome result = record {
  status = InvocationStatus.succeeded;
  output_digest = result.output_digest;
  route = result.route;
  source_ports = result.source_ports;
  failure = none;
}

abbrev pub failed_outcome : StructuredFailure → NodeOutcome
failed_outcome failure = record {
  status = InvocationStatus.failed;
  output_digest = "";
  route = "";
  source_ports = [];
  failure = some failure;
}

abbrev pub skipped_outcome : NodeOutcome
skipped_outcome = record {
  status = InvocationStatus.skipped;
  output_digest = "";
  route = "";
  source_ports = [];
  failure = none;
}

unfoldable pub failure_handled_by : List WorkflowEdge → List String → String → NodeOutcome → Bool
failure_handled_by [] order node outcome = false
failure_handled_by (e ∷ rest) order node outcome =
    (e.source is node && elem order e.target && edge_matches e outcome)
    || failure_handled_by rest order node outcome

abbrev pub is_current : Option String → String → Bool
is_current none node = false
is_current (some current) node = current is node

module _ {Waiting ActionCall : Type 0} where
  unfoldable pub current_node_disposition : RunSnapshot Waiting ActionCall → Result NodeDisposition
  unfolding node_at
  current_node_disposition s = do
    node ← node_at (get_elem? s.node_order s.next_node)
    ok (resolve_edges s.node_order s.node_outcomes node s.plan_edges)

  unfoldable pub require_current_node : RunSnapshot Waiting ActionCall → String → Result (Unit {0})
  require_current_node s node = do
    require (is_current (get_elem? s.node_order s.next_node) node)
        (invalid "node is not the current workflow position")
    refuse (is_set (lookup s.node_outcomes node))
        (invalid "node already has a terminal routing outcome")

  -- An outcome at the current position, which is left.
  unfoldable pub advance :
      RunSnapshot Waiting ActionCall → String → NodeOutcome → RunSnapshot Waiting ActionCall
  advance s node outcome = record s {
    node_outcomes = insert s.node_outcomes node outcome;
    next_node = suc s.next_node;
  }

  unfoldable pub clear_waits : RunSnapshot Waiting ActionCall → RunSnapshot Waiting ActionCall
  clear_waits s = record s { waiting = none; action_call = none; retry_wait = none }

  unfoldable pub record_succeeded_node :
      RunSnapshot Waiting ActionCall → String → NodeResult → Result (RunSnapshot Waiting ActionCall)
  unfolding advance clear_waits
  record_succeeded_node s node result = do
    require_current_node s node
    let outcome = succeeded_outcome result
    ok (
        clear_waits (record (advance s node outcome) {
          node_outputs = insert s.node_outputs node result.output;
        }))

  unfoldable pub failure_handled : RunSnapshot Waiting ActionCall → String → NodeOutcome → Bool
  unfolding failure_handled_by
  failure_handled s node outcome =
      has_ended outcome InvocationStatus.failed
      && failure_handled_by s.plan_edges s.node_order node outcome

  unfoldable pub record_failed_node :
      RunSnapshot Waiting ActionCall
      → String
      → StructuredFailure
      → Result (RunSnapshot Waiting ActionCall × Bool)
  unfolding advance clear_waits failure_handled
  record_failed_node s node failure = do
    require_current_node s node
    let outcome = failed_outcome failure
    let next = clear_waits (advance s node outcome)
    ok (next, failure_handled next node outcome)

  unfoldable pub record_skipped_node :
      RunSnapshot Waiting ActionCall → String → Result (RunSnapshot Waiting ActionCall)
  unfolding advance
  record_skipped_node s node = do require_current_node s node; ok (advance s node skipped_outcome)
