-- ===== src/Workflow/Progress.antt =====
-- No position of a plan whose edges go forward waits for a later one.
use xgc2_orchestration_core.Base.{
  ℕ, zero, suc, String, Bool, true, ◌&&◌, ◌||◌, not, Option, some, List, [], ◌∷◌, length, get_elem?,
  ltb, ◌is◌, is_set, ◌≡◌, ◌≢◌, ◌<◌, ◌≤◌, refl, ap, sym, subst, is→eq, ◌∙◌, ok, arith, eq_iff,
  Bool-cases, inl, inr, if◌then◌else◌,
}
use xgc2_orchestration_core.Contracts.Workflows.{WorkflowEdge}
use xgc2_orchestration_core.Workflow.Routing.{
  NodeDisposition, NodeOutcome, NodeMap, lookup, insert, elem, enters, join, node_at, resolve_edges,
  RunSnapshot, current_node_disposition,
}
use xgc2_orchestration_core.Workflow.Walk.{Walk, RoutingStep-Advances}

abbrev pub known : NodeMap NodeOutcome → String → Bool
known outcomes id = is_set (lookup outcomes id)

-- The first nodes of an order all have an outcome.
unfoldable pub resolved : ℕ → List String → NodeMap NodeOutcome → Bool
resolved zero order outcomes = true
resolved (suc n) [] outcomes = true
resolved (suc n) (x ∷ xs) outcomes = known outcomes x && resolved n xs outcomes

-- The first place of a node in an order.
unfoldable pub position : List String → String → ℕ
position [] x = 0
position (y ∷ ys) x = if y is x then 0 else suc (position ys x)

-- An edge between two nodes of the order goes forward.
abbrev pub goes_forward : List String → WorkflowEdge → Bool
goes_forward order e =
    not (elem order e.source && elem order e.target)
    || ltb (position order e.source) (position order e.target)

-- An order is topological for the edges between its nodes.
unfoldable pub ordered : List String → List WorkflowEdge → Bool
ordered order [] = true
ordered order (e ∷ rest) = goes_forward order e && ordered order rest

resolved-insert :
    (n : ℕ) (order : List String) (outcomes : NodeMap NodeOutcome) (node : String)
    (outcome : NodeOutcome)
    → resolved n order outcomes ≡ true
    → resolved n order (insert outcomes node outcome) ≡ true
unfolding resolved lookup
resolved-insert zero order outcomes node outcome h = refl
resolved-insert (suc n) [] outcomes node outcome h = refl
resolved-insert (suc n) (x ∷ xs) outcomes node outcome h =
    ground (arith, resolved-insert n xs outcomes node outcome (ground arith))

resolved-next :
    (n : ℕ) (order : List String) (outcomes : NodeMap NodeOutcome) (node : String)
    → get_elem? order n ≡ some node
    → known outcomes node ≡ true
    → resolved n order outcomes ≡ true
    → resolved (suc n) order outcomes ≡ true
unfolding resolved
resolved-next zero [] outcomes node at_n new h = refl
resolved-next zero (x ∷ xs) outcomes node at_n new h = ground arith
resolved-next (suc n) [] outcomes node at_n new h = refl
resolved-next (suc n) (x ∷ xs) outcomes node at_n new h =
    ground (arith, resolved-next n xs outcomes node at_n new (ground arith))

known-insert :
    (outcomes : NodeMap NodeOutcome) (node : String) (outcome : NodeOutcome)
    → known (insert outcomes node outcome) node ≡ true
unfolding lookup
known-insert outcomes node outcome = ground (arith, eq_iff node node)

get-position :
    (n : ℕ) (order : List String) (x : String)
    → get_elem? order n ≡ some x
    → (position order x ≤ n) × (elem order x ≡ true)
unfolding position elem
get-position n [] x at_n = ground arith
get-position zero (y ∷ ys) x at_n = ground (arith, eq_iff y x)
get-position (suc n) (y ∷ ys) x at_n = ground (arith, get-position n ys x at_n)

first-known :
    (n : ℕ) (y : String) (ys : List String) (outcomes : NodeMap NodeOutcome)
    → resolved (suc n) (y ∷ ys) outcomes ≡ true
    → known outcomes y ≡ true
unfolding resolved
first-known n y ys outcomes h = ground arith

known-position :
    (n : ℕ) (order : List String) (outcomes : NodeMap NodeOutcome) (x : String)
    → resolved n order outcomes ≡ true
    → elem order x ≡ true
    → position order x < n
    → known outcomes x ≡ true
unfolding resolved position elem
known-position n [] outcomes x h there early = ground arith
known-position zero (y ∷ ys) outcomes x h there early = ground arith
known-position (suc n) (y ∷ ys) outcomes x h there early = elim (Bool-cases (y is x)) [
  | inl same ↦ subst (λ z. known outcomes z ≡ true) (is→eq y x same) (first-known n y ys outcomes h)
  | inr distinct ↦ known-position n ys outcomes x (ground arith) (ground arith) (ground arith)
]

source-known :
    (n : ℕ) (order : List String) (outcomes : NodeMap NodeOutcome) (node : String)
    (e : WorkflowEdge)
    → get_elem? order n ≡ some node
    → resolved n order outcomes ≡ true
    → goes_forward order e ≡ true
    → enters order node e ≡ true
    → known outcomes e.source ≡ true
source-known n order outcomes node e at_n h forward inside =
    let same = is→eq e.target node (ground arith) in
    let (early, there) = get-position n order e.target (at_n ∙ ap some (sym same)) in
    known-position n order outcomes e.source h (ground arith) (ground (arith, early, there))

join-unblocked :
    (found : Option NodeOutcome) (e : WorkflowEdge) (rest : NodeDisposition)
    → is_set found ≡ true
    → rest ≢ NodeDisposition.blocked
    → join found e rest ≢ NodeDisposition.blocked
unfolding join
join-unblocked found e rest there later = ground (arith, later)

unblocked :
    (n : ℕ) (order : List String) (outcomes : NodeMap NodeOutcome) (node : String)
    (edges : List WorkflowEdge)
    → get_elem? order n ≡ some node
    → resolved n order outcomes ≡ true
    → ordered order edges ≡ true
    → resolve_edges order outcomes node edges ≢ NodeDisposition.blocked
unfolding resolve_edges ordered
unblocked n order outcomes node [] at_n h forward = ground arith
unblocked n order outcomes node (e ∷ rest) at_n h forward =
    let later = unblocked n order outcomes node rest at_n h (ground arith) in
    elim (Bool-cases (enters order node e)) [
      | inr outside ↦ ground (arith, later)
      | inl inside ↦
          let there = source-known n order outcomes node e at_n h (ground arith) inside in
          ground (
            arith,
            join-unblocked (lookup outcomes e.source) e (resolve_edges order outcomes node rest)
                there later,
          )
    ]

get-some :
    (n : ℕ) (order : List String) → n < length order → (x : String) × (get_elem? order n ≡ some x)
get-some n [] inside = absurd (omega arith)
get-some zero (x ∷ xs) inside = (x, refl)
get-some (suc n) (x ∷ xs) inside = get-some n xs (omega arith)

module _ {Waiting ActionCall : Type 0} where
  -- What a walk keeps.
  record Walked (s t : RunSnapshot Waiting ActionCall) : Type 0 where
    order : t.node_order ≡ s.node_order
    edges : t.plan_edges ≡ s.plan_edges
    done : resolved t.next_node t.node_order t.node_outcomes ≡ true

  Walk-Walked : {s t : RunSnapshot Waiting ActionCall} → s.next_node ≡ 0 → Walk s t → Walked s t
  Walk-Walked {s} start Walk.here = record {
    order = refl;
    edges = refl;
    done = rw start (unfold resolved in refl);
  }
  Walk-Walked start (Walk.further {l} w step) =
      let before = Walk-Walked start w in
      let a = RoutingStep-Advances step in
      record {
        order = a.order ∙ before.order;
        edges = a.edges ∙ before.edges;
        done =
            rw (a.next, a.order, a.outcomes)
              (resolved-next l.next_node l.node_order _ a.node a.current
                (known-insert l.node_outcomes a.node a.outcome)
                (resolved-insert l.next_node l.node_order l.node_outcomes a.node a.outcome
                  before.done));
      }

  -- A Run never waits for a node that comes later in its order: when the order is topological for the
  -- edges of the plan between its nodes, then after any number of recorded outcomes from the first
  -- position on, the current position, if there is one, is ready or skipped.
  pub Walk-progress :
      {s t : RunSnapshot Waiting ActionCall}
      → s.next_node ≡ 0
      → ordered s.node_order s.plan_edges ≡ true
      → Walk s t
      → t.next_node < length t.node_order
      → (d : NodeDisposition) × (current_node_disposition t ≡ ok d) × (d ≢ NodeDisposition.blocked)
  unfolding current_node_disposition node_at
  Walk-progress {s} {t} start forward w inside =
      let walked = Walk-Walked start w in
      let (node, at_next) = get-some t.next_node t.node_order inside in
      (
        resolve_edges t.node_order t.node_outcomes node t.plan_edges,
        rw at_next refl,
        unblocked t.next_node t.node_order t.node_outcomes node t.plan_edges at_next walked.done
            (rw (walked.order, walked.edges) forward),
      )
