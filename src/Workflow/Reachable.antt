-- ===== src/Workflow/Reachable.antt =====
-- kernel/workflow/compile.go: the search of a dependency graph, and dominance. A graph is the list of
-- its nodes with their successors; the order in which a Go map is walked does not matter here.
use Prim.Native.Nat.{ℕ, zero, suc}
use xgc2_orchestration_core.Base.{
  String, Bool, true, false, ◌||◌, not, Option, none, some, List, [], ◌∷◌, ◌++◌, length, ◌is◌, ◌+◌,
  ◌≤◌, ◌≡◌, refl, arith, eq_iff, Bool-cases, inl, inr, if◌then◌else◌,
}
use xgc2_orchestration_core.Workflow.Routing.{elem}

abbrev pub DependencyGraph : Type 0
DependencyGraph = List (String × List String)

-- `graph[nodeID]`, which is empty for a node that is not there.
unfoldable pub successors : DependencyGraph → String → List String
successors [] node = []
successors ((name, targets) ∷ rest) node = if name is node then targets else successors rest node

-- The loop of `reachable`, with the queue and the nodes that are marked.
unfoldable pub search_from :
    DependencyGraph → String → ℕ → List String → List String → Option (List String)
search_from graph excluded fuel [] marked = some marked
search_from graph excluded zero (node ∷ queue) marked = none
search_from graph excluded (suc fuel) (node ∷ queue) marked =
    let skip = search_from graph excluded fuel queue marked in
    let visit = search_from graph excluded fuel (queue ++ successors graph node) (node ∷ marked) in
    if node is excluded || elem marked node then skip else visit

unfoldable pub edge_total : DependencyGraph → ℕ
edge_total [] = 0
edge_total ((name, targets) ∷ rest) = length targets + edge_total rest

-- As many rounds as there are starts and edges: every round takes one entry off the queue, and an edge
-- is put on it once at most.
unfoldable pub reachable : DependencyGraph → List String → String → Option (List String)
unfolding search_from edge_total
reachable graph starts excluded =
    search_from graph excluded (length starts + edge_total graph) starts []

-- Without an answer of the search there is none.
unfoldable pub answer : Option (List String) → String → Option Bool
answer none target = none
answer (some marked) target = some (not (elem marked target))

unfoldable pub dominates : String → String → DependencyGraph → List String → Option Bool
unfolding answer
dominates source target graph entries =
    if source is target then some true else answer (reachable graph entries source) target

-- The edges out of nodes that are not marked.
edges_left : DependencyGraph → List String → ℕ
edges_left [] marked = 0
edges_left ((name, targets) ∷ rest) marked =
    let later = edges_left rest marked in if elem marked name then later else length targets + later

edges_left-mark :
    (graph : DependencyGraph) (marked : List String) (node : String)
    → edges_left graph (node ∷ marked) ≤ edges_left graph marked
unfolding edges_left elem
edges_left-mark [] marked node = omega arith
edges_left-mark ((name, targets) ∷ rest) marked node =
    ground (arith, edges_left-mark rest marked node)

edges_left-visit :
    (graph : DependencyGraph) (marked : List String) (node : String)
    → elem marked node ≡ false
    → edges_left graph (node ∷ marked) + length (successors graph node) ≤ edges_left graph marked
unfolding edges_left successors elem
edges_left-visit [] marked node new = omega arith
edges_left-visit ((name, targets) ∷ rest) marked node new = ground (
  arith,
  edges_left-mark rest marked node,
  edges_left-visit rest marked node new,
  eq_iff name node,
  eq_iff node name,
)

length-append : (xs ys : List String) → length (xs ++ ys) ≡ length xs + length ys
length-append [] ys = omega arith
length-append (x ∷ xs) ys = omega (arith, length-append xs ys)

search_from-total :
    (graph : DependencyGraph) (excluded : String) (fuel : ℕ) (queue marked : List String)
    → length queue + edges_left graph marked ≤ fuel
    → (found : List String) × (search_from graph excluded fuel queue marked ≡ some found)
unfolding search_from
search_from-total graph excluded fuel [] marked enough = (marked, ground arith)
search_from-total graph excluded zero (node ∷ queue) marked enough = absurd (omega arith)
search_from-total graph excluded (suc fuel) (node ∷ queue) marked enough =
    elim (Bool-cases (node is excluded || elem marked node)) [
      | inl seen ↦ rw seen (search_from-total graph excluded fuel queue marked (omega arith))
      | inr new ↦ rw new (
          search_from-total graph excluded fuel (queue ++ successors graph node) (node ∷ marked) (
            omega (
              arith,
              enough,
              length-append queue (successors graph node),
              edges_left-visit graph marked node (ground arith),
            )))
    ]

edges_left-all : (graph : DependencyGraph) → edges_left graph [] ≡ edge_total graph
unfolding edges_left edge_total elem
edges_left-all [] = refl
edges_left-all ((name, targets) ∷ rest) = ground (arith, edges_left-all rest)

-- The search of a graph ends: in at most as many rounds as there are starts and edges, with the list
-- of the nodes that it has marked.
pub reachable-total :
    (graph : DependencyGraph) (starts : List String) (excluded : String)
    → (found : List String) × (reachable graph starts excluded ≡ some found)
unfolding reachable
reachable-total graph starts excluded =
    search_from-total graph excluded (length starts + edge_total graph) starts []
      (omega (arith, edges_left-all graph))
