-- ===== src/Graph/Order.antt =====
-- The order of the rules (`TopologicalOrder` in internal/devserver/graph.go).
pub mod Counts
pub mod Kept
pub mod Keys
pub mod Loop
use hamr.Base.{ℕ, zero, suc, String, Bool, Option, none, some, List, [], ◌∷◌, ◌++◌, if◌then◌else◌}
use hamr.Base.Int.{ℤ, pos, ◌-ℤ◌, is_zero}
use hamr.Base.Lists.{length}
use hamr.Base.Assoc.{Assoc, lookup, insert}
use hamr.Graph.{GraphNode, Graph}

-- A key that is missing reads as 0, or as an empty list.
unfoldable pub degree_at : String → Assoc ℤ → ℤ
unfolding lookup
degree_at n m = elim (lookup n m) [ none ↦ pos 0 | some d ↦ d ]

unfoldable pub list_at : String → Assoc (List String) → List String
unfolding lookup
list_at n m = elim (lookup n m) [ none ↦ [] | some names ↦ names ]

-- The inner loop of the first one, over the dependencies of a rule.
unfoldable pub add_dependees : String → List String → Assoc (List String) → Assoc (List String)
unfolding insert list_at
add_dependees name [] m = m
add_dependees name (dep ∷ deps) m =
    add_dependees name deps (insert dep (list_at dep m ++ (name ∷ [])) m)

unfoldable pub all_dependees : Assoc GraphNode → Assoc (List String) → Assoc (List String)
unfolding add_dependees
all_dependees [] m = m
all_dependees ((name, node) ∷ nodes) m = all_dependees nodes (add_dependees name node.deps m)

unfoldable pub in_degrees : Assoc GraphNode → Assoc ℤ
in_degrees [] = []
in_degrees ((name, node) ∷ nodes) = (name, pos (length node.deps)) ∷ in_degrees nodes

unfoldable pub ready : Assoc ℤ → List String
ready [] = []
ready ((name, degree) ∷ degrees) =
    let rest = ready degrees in if is_zero degree then name ∷ rest else rest

-- The inner loop of the last one: the degrees and the queue.
unfoldable pub release : List String → Assoc ℤ → List String → Assoc ℤ × List String
unfolding degree_at insert ◌-ℤ◌
release [] degrees queue = (degrees, queue)
release (dep ∷ deps) degrees queue =
    let degree = degree_at dep degrees -ℤ pos 1 in
    release deps (insert dep degree degrees) (if is_zero degree then queue ++ (dep ∷ []) else queue)

-- The loop over the queue, on fuel; `none` when it runs out.
unfoldable pub take_ready :
    ℕ → Assoc (List String) → Assoc ℤ → List String → List String → Option (List String)
unfolding release list_at
take_ready fuel dependees degrees [] order = some order
take_ready zero dependees degrees (name ∷ queue) order = none
take_ready (suc fuel) dependees degrees (name ∷ queue) order =
    let (degrees', queue') = release (list_at name dependees) degrees queue in
    take_ready fuel dependees degrees' queue' (order ++ (name ∷ []))

unfoldable pub topological_order : ℕ → Graph → Option (List String)
unfolding take_ready all_dependees in_degrees ready
topological_order fuel g =
    take_ready fuel (all_dependees g.nodes []) (in_degrees g.nodes) (ready (in_degrees g.nodes)) []
