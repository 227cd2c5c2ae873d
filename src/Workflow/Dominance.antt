-- ===== src/Workflow/Dominance.antt =====
-- What the search of a graph marks, and what it says that one node dominates another.
use xgc2_orchestration_core.Base.{
  ℕ, zero, suc, String, Bool, true, false, ◌||◌, some, List, [], ◌∷◌, ◌++◌, ◌is◌, ◌≡◌, ◌≢◌, ◌⊎◌,
  refl, subst, sym, arith, eq_iff, is→eq, Bool-cases, inl, inr,
}
use xgc2_orchestration_core.Workflow.Routing.{elem}
use xgc2_orchestration_core.Workflow.Reachable.{
  DependencyGraph, successors, search_from, reachable, reachable-total, answer, dominates,
}

-- A path from an entry that avoids a node.
pub data Avoiding (graph : DependencyGraph) (entries : List String) (avoided : String)
    : String → Type 0 where
  enter :
      {x : String}
      → elem entries x ≡ true
      → (x is avoided) ≡ false
      → Avoiding graph entries avoided x
  walk :
      {x y : String}
      → Avoiding graph entries avoided x
      → elem (successors graph x) y ≡ true
      → (y is avoided) ≡ false
      → Avoiding graph entries avoided y

elem-append : (xs ys : List String) (x : String) → elem (xs ++ ys) x ≡ (elem xs x || elem ys x)
unfolding elem
elem-append [] ys x = refl
elem-append (y ∷ xs) ys x = ground (arith, elem-append xs ys x)

module _ (graph : DependencyGraph) (entries : List String) (avoided : String) where
  -- A node that the search needs not care about: it is avoided, or marked, or waits in the queue.
  handled : List String → List String → String → Bool
  handled marked queue x = x is avoided || elem marked x || elem queue x

  -- The invariant of the search.
  record Searching (queue marked : List String) : Type 0 where
    sound : (x : String) → elem marked x ≡ true → Avoiding graph entries avoided x
    queued :
        (x : String)
        → elem queue x ≡ true
        → (x is avoided) ≡ false
        → Avoiding graph entries avoided x
    started : (x : String) → elem entries x ≡ true → handled marked queue x ≡ true
    closed :
        (x y : String)
        → elem marked x ≡ true
        → elem (successors graph x) y ≡ true
        → handled marked queue y ≡ true

  handled-skip :
      (node : String) (queue marked : List String) (x : String)
      → (node is avoided || elem marked node) ≡ true
      → handled marked (node ∷ queue) x ≡ true
      → handled marked queue x ≡ true
  unfolding handled elem
  handled-skip node queue marked x seen h = elim (Bool-cases (node is x)) [
    | inr distinct ↦ ground (arith, distinct)
    | inl same ↦
        let both = subst (λ z. (z is avoided || elem marked z) ≡ true) (is→eq node x same) seen in
        ground (arith, both)
  ]

  handled-visit :
      (node : String) (queue marked : List String) (x : String)
      → handled marked (node ∷ queue) x ≡ true
      → handled (node ∷ marked) (queue ++ successors graph node) x ≡ true
  unfolding handled elem
  handled-visit node queue marked x h = ground (arith, elem-append queue (successors graph node) x)

  skip :
      (node : String) (queue marked : List String)
      → (node is avoided || elem marked node) ≡ true
      → Searching (node ∷ queue) marked
      → Searching queue marked
  unfolding elem
  skip node queue marked seen s = record {
    sound = s.sound;
    queued = λ x there free. s.queued x (ground (arith, there)) free;
    started = λ x there. handled-skip node queue marked x seen (s.started x there);
    closed = λ x y there edge. handled-skip node queue marked y seen (s.closed x y there edge);
  }

  visit :
      (node : String) (queue marked : List String)
      → (node is avoided || elem marked node) ≡ false
      → Searching (node ∷ queue) marked
      → Searching (queue ++ successors graph node) (node ∷ marked)
  unfolding elem handled
  visit node queue marked new s = record {
    sound = sound;
    queued = queued;
    started = λ x there. handled-visit node queue marked x (s.started x there);
    closed = closed;
  }
    where
      path : Avoiding graph entries avoided node
      path = s.queued node (ground (arith, eq_iff node node)) (ground (arith, new))

      sound : (x : String) → elem (node ∷ marked) x ≡ true → Avoiding graph entries avoided x
      sound x there = elim (Bool-cases (node is x)) [
        | inl same ↦ subst (Avoiding graph entries avoided) (is→eq node x same) path
        | inr distinct ↦ s.sound x (ground (arith, there, distinct))
      ]

      queued :
          (x : String)
          → elem (queue ++ successors graph node) x ≡ true
          → (x is avoided) ≡ false
          → Avoiding graph entries avoided x
      queued x there free = elim (Bool-cases (elem queue x)) [
        | inl before ↦ s.queued x (ground (arith, before)) free
        | inr new_here ↦
            Avoiding.walk path
              (ground (arith, there, new_here, elem-append queue (successors graph node) x)) free
      ]

      closed :
          (x y : String)
          → elem (node ∷ marked) x ≡ true
          → elem (successors graph x) y ≡ true
          → handled (node ∷ marked) (queue ++ successors graph node) y ≡ true
      closed x y there edge = elim (Bool-cases (node is x)) [
        | inl same ↦
            let out =
              subst (λ z. elem (successors graph z) y ≡ true) (sym (is→eq node x same)) edge in
            ground (arith, out, elem-append queue (successors graph node) y)
        | inr distinct ↦
            handled-visit node queue marked y (s.closed x y (ground (arith, there, distinct)) edge)
      ]

  searched :
      (fuel : ℕ) (queue marked found : List String)
      → search_from graph avoided fuel queue marked ≡ some found
      → Searching queue marked
      → Searching [] found
  unfolding search_from
  searched fuel [] marked found h s =
      let same : marked ≡ found = ground arith in subst (Searching []) same s
  searched zero (node ∷ queue) marked found h s = absurd (ground arith)
  searched (suc fuel) (node ∷ queue) marked found h s =
      elim (Bool-cases (node is avoided || elem marked node)) [
        | inl seen ↦ searched fuel queue marked found (rw seen at h) (skip node queue marked seen s)
        | inr new ↦
            searched fuel (queue ++ successors graph node) (node ∷ marked) found (rw new at h)
              (visit node queue marked new s)
      ]

  begin : Searching entries []
  unfolding elem handled
  begin = record {
    sound = λ x there. absurd (ground (arith, there));
    queued = λ x there free. Avoiding.enter there free;
    started = λ x there. ground (arith, there);
    closed = λ x y there edge. absurd (ground (arith, there));
  }

  complete :
      {x : String} (found : List String)
      → Searching [] found
      → Avoiding graph entries avoided x
      → elem found x ≡ true
  unfolding handled elem
  complete {x} found s (Avoiding.enter there free) = ground (arith, s.started x there)
  complete {x = y} found s (Avoiding.walk {x = x} p edge free) =
      ground (arith, s.closed x y (complete found s p) edge)

-- One node dominates another for some entries exactly when they are the same node or no path from an
-- entry avoids the first and comes to the second; and the search always decides which.
pub dominates_lem :
    (source target : String) (graph : DependencyGraph) (entries : List String)
    → ((dominates source target graph entries ≡ some true)
        × ((source ≡ target) ⊎ (¬ Avoiding graph entries source target)))
      ⊎ ((dominates source target graph entries ≡ some false)
          × (source ≢ target)
          × Avoiding graph entries source target)
unfolding dominates answer reachable
dominates_lem source target graph entries = elim (Bool-cases (source is target)) [
  | inl same ↦ inl (ground (arith, same), inl (is→eq source target same))
  | inr distinct ↦
      let (found, answered) = reachable-total graph entries source in
      let s =
        searched graph entries source _ entries [] found answered (begin graph entries source) in
      elim (Bool-cases (elem found target)) [
        | inl there ↦ inr (
          ground (arith, distinct, answered, there),
          ground (arith, eq_iff source target, distinct),
          s.sound target there,
        )
        | inr missed ↦ inl (
          ground (arith, distinct, answered, missed),
          inr (λ path. ground (arith, complete graph entries source found s path, missed)),
        )
      ]
]
