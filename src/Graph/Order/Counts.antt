-- ===== src/Graph/Order/Counts.antt =====
-- Counts of names in the lists that `TopologicalOrder` builds (internal/devserver/graph.go).
use hamr.Base.{
  ℕ, ◌+◌, String, none, some, List, [], ◌∷◌, ◌++◌, ◌==◌, ◌≡◌, arith, refl, eq_iff, eqb,
  if◌then◌else◌,
}
use hamr.Base.Int.{pos}
use hamr.Base.Lists.{length}
use hamr.Base.Assoc.{Assoc, lookup, insert, lookup-insert}
use hamr.Graph.{GraphNode}
use hamr.Graph.Order.{degree_at, list_at, add_dependees, all_dependees, in_degrees, ready}

-- How often a name stands in a list.
unfoldable pub count : String → List String → ℕ
count n [] = 0
count n (x ∷ xs) = (if x == n then 1 else 0) + count n xs

pub count-append : (n : String) (xs ys : List String) → count n (xs ++ ys) ≡ count n xs + count n ys
unfolding count
count-append n [] ys = omega arith
count-append n (x ∷ xs) ys = omega (arith, count-append n xs ys)

-- The dependencies of a rule, none when it is not known.
unfoldable pub deps_of : String → Assoc GraphNode → List String
unfolding lookup
deps_of n nodes = elim (lookup n nodes) [ none ↦ [] | some node ↦ node.deps ]

-- How many dependencies are not among the names that are done.
unfoldable pub waiting : List String → List String → ℕ
unfolding count
waiting order [] = 0
waiting order (d ∷ deps) = (if eqb (count d order) 0 then 1 else 0) + waiting order deps

pub waiting_nil : (deps : List String) → waiting [] deps ≡ length deps
unfolding waiting count
waiting_nil [] = refl
waiting_nil (d ∷ deps) = omega (arith, waiting_nil deps)

pub waiting_append :
    (order : List String) (x : String) (deps : List String)
    → count x order ≡ 0
    → waiting (order ++ (x ∷ [])) deps + count x deps ≡ waiting order deps
unfolding waiting count
waiting_append order x [] new = refl
waiting_append order x (d ∷ deps) new =
    ground (
      arith,
      waiting_append order x deps new,
      count-append d order (x ∷ []),
      eq_iff x d,
      eq_iff d x,
    )

-- One entry for each key, as in a Go map.
abbrev pub HasOneEach : Assoc GraphNode → Type 0
HasOneEach [] = Unit
HasOneEach ((k, _) ∷ nodes) = (lookup k nodes ≡ none) × HasOneEach nodes

count-add_dependees :
    (n x name : String) (deps : List String) (m : Assoc (List String))
    → count n (list_at x (add_dependees name deps m))
      ≡ count n (list_at x m) + (if name == n then count x deps else 0)
unfolding add_dependees list_at count
count-add_dependees n x name [] m = ground arith
count-add_dependees n x name (dep ∷ deps) m = ground (
  arith,
  count-add_dependees n x name deps (insert dep (list_at dep m ++ (name ∷ [])) m),
  lookup-insert dep x (list_at dep m ++ (name ∷ [])) m,
  count-append n (list_at dep m) (name ∷ []),
  eq_iff dep x,
)

pub count-all_dependees :
    (n x : String) (nodes : Assoc GraphNode) (m : Assoc (List String))
    → HasOneEach nodes
    → count n (list_at x (all_dependees nodes m))
      ≡ count n (list_at x m) + count x (deps_of n nodes)
unfolding all_dependees deps_of lookup count
count-all_dependees n x [] m one = ground arith
count-all_dependees n x ((k, node) ∷ nodes) m one = ground (
  arith,
  count-all_dependees n x nodes (add_dependees k node.deps m) one.1,
  count-add_dependees n x k node.deps m,
  eq_iff k n,
)

pub degree_at-in_degrees :
    (n : String) (nodes : Assoc GraphNode)
    → degree_at n (in_degrees nodes) ≡ pos (length (deps_of n nodes))
unfolding degree_at in_degrees deps_of lookup
degree_at-in_degrees n [] = refl
degree_at-in_degrees n ((k, node) ∷ nodes) = ground (arith, degree_at-in_degrees n nodes)

-- Who is ready at the start: each rule without dependencies, once.
pub count-ready :
    (n : String) (nodes : Assoc GraphNode)
    → HasOneEach nodes
    → count n (ready (in_degrees nodes))
      ≡ elim (lookup n nodes) [ none ↦ 0 | some node ↦ if eqb (length node.deps) 0 then 1 else 0 ]
unfolding ready in_degrees lookup count
count-ready n [] one = refl
count-ready n ((k, node) ∷ nodes) one = ground (arith, count-ready n nodes one.1, eq_iff k n)
