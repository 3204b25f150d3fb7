-- ===== src/Graph/Order/Loop.antt =====
-- The loop of `TopologicalOrder` over the queue (internal/devserver/graph.go).
use hamr.Base.{
  ℕ, zero, suc, ◌+◌, ◌≤◌, ◌<◌, String, Option, some, List, [], ◌∷◌, ◌++◌, ◌==◌, ◌≡◌, arith, inl,
  inr, Bool-cases, refl, eq_iff, eqb, if◌then◌else◌,
}
use hamr.Base.Int.{ℤ}
use hamr.Base.Lists.{append_nil, append_assoc, length}
use hamr.Base.Assoc.{Assoc, lookup}
use hamr.Graph.{GraphNode, Graph}
use hamr.Graph.Order.{list_at, all_dependees, in_degrees, ready, take_ready, topological_order}
use hamr.Graph.Order.Counts.{count, count-append, deps_of, waiting, HasOneEach}
use hamr.Graph.Order.Kept.{IsKnown, IsKept, release-IsKept, popped-IsKept, start-IsKept}

-- `rest` goes on from the names `done`: each name is new, and its dependencies stand before it.
abbrev pub IsInOrder : Assoc GraphNode → List String → List String → Type 0
IsInOrder nodes done [] = Unit
IsInOrder nodes done (x ∷ rest) =
    (count x done ≡ 0)
    × (waiting done (deps_of x nodes) ≡ 0)
    × IsInOrder nodes (done ++ (x ∷ [])) rest

-- A known name whose dependencies are all in the order is in it too.
abbrev pub IsClosed : Assoc GraphNode → List String → Type 0
IsClosed nodes order =
    (n : String) → IsKnown nodes n → waiting order (deps_of n nodes) ≡ 0 → 1 ≤ count n order

snoc-IsInOrder :
    (nodes : Assoc GraphNode) (done rest : List String) (x : String)
    → count x (done ++ rest) ≡ 0
    → waiting (done ++ rest) (deps_of x nodes) ≡ 0
    → IsInOrder nodes done rest
    → IsInOrder nodes done (rest ++ (x ∷ []))
snoc-IsInOrder nodes done [] x new free h =
    (ground (arith, append_nil done), ground (arith, append_nil done), tt)
snoc-IsInOrder nodes done (y ∷ rest) x new free (a, b, h) = (
  a,
  b,
  snoc-IsInOrder nodes (done ++ (y ∷ [])) rest x
      (ground (arith, new, append_assoc done (y ∷ []) rest))
      (ground (arith, free, append_assoc done (y ∷ []) rest)) h,
)

-- How many entries are not in the order.
unfoldable remaining : List String → Assoc GraphNode → ℕ
unfolding count
remaining order [] = 0
remaining order ((k, _) ∷ nodes) = (if eqb (count k order) 0 then 1 else 0) + remaining order nodes

remaining_le :
    (order : List String) (x : String) (nodes : Assoc GraphNode)
    → remaining (order ++ (x ∷ [])) nodes ≤ remaining order nodes
unfolding remaining
remaining_le order x [] = omega arith
remaining_le order x ((k, node) ∷ nodes) =
    ground (arith, remaining_le order x nodes, count-append k order (x ∷ []))

remaining_lt :
    (order : List String) (x : String) (nodes : Assoc GraphNode)
    → count x order ≡ 0
    → IsKnown nodes x
    → remaining (order ++ (x ∷ [])) nodes < remaining order nodes
unfolding remaining lookup count
remaining_lt order x [] new (node, e) = absurd (ground arith)
remaining_lt order x ((k, node) ∷ nodes) new (node', e) = elim (Bool-cases (k == x)) [
  | inl same ↦ ground (arith, eq_iff k x, remaining_le order x nodes, count-append k order (x ∷ []))
  | inr other ↦ ground (
    arith,
    remaining_lt order x nodes new (node', ground arith),
    count-append k order (x ∷ []),
    eq_iff x k,
    eq_iff k x,
  )
]

remaining_nil : (nodes : Assoc GraphNode) → remaining [] nodes ≡ length nodes
unfolding remaining count
remaining_nil [] = refl
remaining_nil ((k, _) ∷ nodes) = omega (arith, remaining_nil nodes)

abbrev pub IsOrder : Graph → Option (List String) → Type 0
IsOrder g result =
    (order : List String) × (result ≡ some order)
    × IsInOrder g.nodes [] order
    × IsClosed g.nodes order

at_head : (x : String) (queue order : List String) → 1 ≤ count x (x ∷ queue) + count x order
unfolding count
at_head x queue order = ground (arith, eq_iff x x)

fresh :
    {nodes : Assoc GraphNode} {degrees : Assoc ℤ} (x : String) (queue order : List String)
    → IsKept nodes degrees (x ∷ queue) [] order
    → count x order ≡ 0
unfolding count
fresh x queue order k = ground (arith, k.once x, eq_iff x x)

take_ready-IsOrder :
    (g : Graph) (fuel : ℕ) (degrees : Assoc ℤ) (queue order : List String)
    → HasOneEach g.nodes
    → remaining order g.nodes ≤ fuel
    → IsKept g.nodes degrees queue [] order
    → IsInOrder g.nodes [] order
    → IsOrder g (take_ready fuel (all_dependees g.nodes []) degrees queue order)
unfolding take_ready count
take_ready-IsOrder g fuel degrees [] order one enough k h =
    (order, refl, h, λ n known e. ground (arith, k.all n known))
take_ready-IsOrder g zero degrees (x ∷ queue) order one enough k h = absurd (
    omega (
      arith,
      remaining_lt order x g.nodes (fresh x queue order k) (k.known x (at_head x queue order)),
    ))
take_ready-IsOrder g (suc fuel) degrees (x ∷ queue) order one enough k h =
    let new = fresh x queue order k in
    let less = remaining_lt order x g.nodes new (k.known x (at_head x queue order)) in
    take_ready-IsOrder g fuel _ _ (order ++ (x ∷ [])) one (omega (arith, less))
      (release-IsKept g.nodes (list_at x (all_dependees g.nodes [])) degrees queue _
        (popped-IsKept g.nodes degrees x queue order one k))
      (snoc-IsInOrder g.nodes [] order x new (omega (arith, k.free x (at_head x queue order))) h)

-- For a graph with one node for each name, fuel for each node is enough: the result is an order in
-- which each name stands once and after all its dependencies, and a node is left out of it only if
-- one of its dependencies is.
pub topological_order-IsOrder :
    (g : Graph) → HasOneEach g.nodes → IsOrder g (topological_order (length g.nodes) g)
unfolding topological_order
topological_order-IsOrder g one =
    take_ready-IsOrder g (length g.nodes) (in_degrees g.nodes) (ready (in_degrees g.nodes)) [] one
      (omega (arith, remaining_nil g.nodes)) (start-IsKept g.nodes one) tt
