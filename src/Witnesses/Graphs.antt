-- ===== src/Witnesses/Graphs.antt =====
-- A graph of three nodes, and the theorems on its search.
use xgc2_orchestration_core.Base.{String, true, false, some, List, [], ◌∷◌, ◌≡◌, ◌≢◌, ◌⊎◌}
use xgc2_orchestration_core.Workflow.Reachable.{
  DependencyGraph, reachable, reachable-total, dominates,
}
use xgc2_orchestration_core.Workflow.Dominance.{Avoiding, dominates_lem}

abbrev fetch : String
fetch = "fetch"

abbrev parse : String
parse = "parse"

abbrev store : String
store = "store"

abbrev diamond : DependencyGraph
diamond = (fetch, parse ∷ store ∷ []) ∷ (parse, store ∷ []) ∷ (store, []) ∷ []

reachable-total_example :
    (found : List String) × (reachable diamond (fetch ∷ []) parse ≡ some found)
reachable-total_example = reachable-total diamond (fetch ∷ []) parse

dominates_lem_example :
    ((dominates parse store diamond (fetch ∷ []) ≡ some true)
      × ((parse ≡ store) ⊎ (¬ Avoiding diamond (fetch ∷ []) parse store)))
    ⊎ ((dominates parse store diamond (fetch ∷ []) ≡ some false)
        × (parse ≢ store)
        × Avoiding diamond (fetch ∷ []) parse store)
dominates_lem_example = dominates_lem parse store diamond (fetch ∷ [])
