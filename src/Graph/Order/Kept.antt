-- ===== src/Graph/Order/Kept.antt =====
-- What the loops of `TopologicalOrder` keep (internal/devserver/graph.go).
use hamr.Base.{
  ◌+◌, ◌≤◌, String, none, some, List, [], ◌∷◌, ◌++◌, ◌==◌, ◌≡◌, arith, inl, inr, Option-cases,
  Bool-cases, eq_iff, eqb, if◌then◌else◌, ◌∙◌, sym,
}
use hamr.Base.Int.{ℤ, pos, ◌-ℤ◌, is_zero}
use hamr.Base.Lists.{length}
use hamr.Base.Assoc.{Assoc, lookup, insert, lookup-insert}
use hamr.Graph.{GraphNode}
use hamr.Graph.Order.{degree_at, list_at, all_dependees, in_degrees, ready, release}
use hamr.Graph.Order.Counts.{
  count, count-append, deps_of, waiting, waiting_nil, waiting_append, HasOneEach,
  count-all_dependees, degree_at-in_degrees, count-ready,
}

abbrev pub IsKnown : Assoc GraphNode → String → Type 0
IsKnown nodes n = (node : GraphNode) × (lookup n nodes ≡ some node)

-- The names `pending` are the dependees of the last name of `order` that have not been seen yet. A
-- degree counts the dependencies that are not done and the places that are pending; the names of the
-- queue and of the order are the known ones without either, each of them once.
pub record IsKept (nodes : Assoc GraphNode) (degrees : Assoc ℤ) (queue pending order : List String)
    : Type 0 where
  pub degree :
      (n : String) → degree_at n degrees ≡ pos (waiting order (deps_of n nodes) + count n pending)
  pub once : (n : String) → count n queue + count n order ≤ 1
  pub known : (n : String) → 1 ≤ count n queue + count n order → IsKnown nodes n
  pub free :
      (n : String)
      → 1 ≤ count n queue + count n order
      → waiting order (deps_of n nodes) + count n pending ≡ 0
  pub all :
      (n : String)
      → IsKnown nodes n
      → waiting order (deps_of n nodes) + count n pending ≡ 0
      → 1 ≤ count n queue + count n order
  pub asked : (n : String) → 1 ≤ count n pending → IsKnown nodes n

asked_by-IsKnown :
    (n x : String) (nodes : Assoc GraphNode) → 1 ≤ count x (deps_of n nodes) → IsKnown nodes n
unfolding deps_of count
asked_by-IsKnown n x nodes h = elim (Option-cases (lookup n nodes)) [
  | inl e ↦ absurd (ground arith)
  | inr (node, e) ↦ (node, e)
]

ready-IsKnown :
    (n : String) (nodes : Assoc GraphNode)
    → 1 ≤ elim (lookup n nodes) [ none ↦ 0 | some node ↦ if eqb (length node.deps) 0 then 1 else 0 ]
    → IsKnown nodes n
ready-IsKnown n nodes h = elim (Option-cases (lookup n nodes)) [
  | inl e ↦ absurd (ground arith)
  | inr (node, e) ↦ (node, e)
]

count_dependees :
    (n x : String) (nodes : Assoc GraphNode)
    → HasOneEach nodes
    → count n (list_at x (all_dependees nodes [])) ≡ count x (deps_of n nodes)
unfolding list_at lookup count
count_dependees n x nodes one = omega (arith, count-all_dependees n x nodes [] one)

-- One round of the inner loop.
released-IsKept :
    (nodes : Assoc GraphNode) (degrees : Assoc ℤ) (dep : String) (queue pending order : List String)
    → IsKept nodes degrees queue (dep ∷ pending) order
    → let degree = degree_at dep degrees -ℤ pos 1 in
      IsKept nodes
        (insert dep degree degrees)
        (if is_zero degree then queue ++ (dep ∷ []) else queue)
        pending
        order
unfolding degree_at count ◌-ℤ◌
released-IsKept nodes degrees dep queue pending order k =
    let here : degree_at dep degrees -ℤ pos 1
        ≡ pos (waiting order (deps_of dep nodes) + count dep pending) =
      ground (arith, k.degree dep, eq_iff dep dep) in
    let degree = degree_at dep degrees -ℤ pos 1 in
    let known_still : (n : String)
        → 1 ≤ count n (if is_zero degree then queue ++ (dep ∷ []) else queue) + count n order
        → IsKnown nodes n =
      λ n h. elim (Bool-cases (dep == n)) [
        | inl e ↦ k.asked n (ground arith)
        | inr e ↦ k.known n (ground (arith, count-append n queue (dep ∷ [])))
      ] in
    record {
      degree =
          λ n. ground (arith, k.degree n, here, lookup-insert dep n degree degrees, eq_iff dep n);
      once = λ n.
          ground (arith, k.once n, k.free n, here, count-append n queue (dep ∷ []), eq_iff dep n);
      known = λ n h. known_still n h;
      free = λ n h. ground (arith, k.free n, here, count-append n queue (dep ∷ []), eq_iff dep n);
      all = λ n known e.
          ground (arith, k.all n known, here, count-append n queue (dep ∷ []), eq_iff dep n);
      asked = λ n h. k.asked n (ground arith);
    }

-- The whole inner loop.
pub release-IsKept :
    (nodes : Assoc GraphNode) (pending : List String) (degrees : Assoc ℤ)
    (queue order : List String)
    → IsKept nodes degrees queue pending order
    → IsKept nodes (release pending degrees queue).0 (release pending degrees queue).1 [] order
unfolding release
release-IsKept nodes [] degrees queue order k = k
release-IsKept nodes (dep ∷ pending) degrees queue order k =
    release-IsKept nodes pending _ _ order (released-IsKept nodes degrees dep queue pending order k)

-- Taking the first name of the queue: its dependees are pending then.
pub popped-IsKept :
    (nodes : Assoc GraphNode) (degrees : Assoc ℤ) (x : String) (queue order : List String)
    → HasOneEach nodes
    → IsKept nodes degrees (x ∷ queue) [] order
    → IsKept nodes degrees queue (list_at x (all_dependees nodes [])) (order ++ (x ∷ []))
unfolding count
popped-IsKept nodes degrees x queue order one k =
    let new : count x order ≡ 0 = ground (arith, k.once x, eq_iff x x) in
    let pending : (n : String)
        → count n (list_at x (all_dependees nodes [])) ≡ count x (deps_of n nodes) =
      λ n. count_dependees n x nodes one in
    let same : (n : String)
        → waiting (order ++ (x ∷ [])) (deps_of n nodes)
            + count n (list_at x (all_dependees nodes []))
          ≡ waiting order (deps_of n nodes) + 0 =
      λ n. omega (arith, pending n, waiting_append order x (deps_of n nodes) new) in
    let moved : (n : String)
        → count n queue + count n (order ++ (x ∷ [])) ≡ count n (x ∷ queue) + count n order =
      λ n. ground (arith, count-append n order (x ∷ [])) in
    record {
      degree = λ n. ground (arith, k.degree n, same n);
      once = λ n. omega (arith, k.once n, moved n);
      known = λ n h. k.known n (omega (arith, moved n));
      free = λ n h. same n ∙ k.free n (omega (arith, moved n));
      all = λ n known e. omega (arith, k.all n known (sym (same n) ∙ e), moved n);
      asked = λ n h. asked_by-IsKnown n x nodes (omega (arith, pending n));
    }

-- The start of the loop.
pub start-IsKept :
    (nodes : Assoc GraphNode)
    → HasOneEach nodes
    → IsKept nodes (in_degrees nodes) (ready (in_degrees nodes)) [] []
unfolding count deps_of
start-IsKept nodes one = record {
  degree = λ n. ground (arith, degree_at-in_degrees n nodes, waiting_nil (deps_of n nodes));
  once = λ n. ground (arith, count-ready n nodes one);
  known = λ n h. ready-IsKnown n nodes (ground (arith, count-ready n nodes one));
  free = λ n h. ground (arith, count-ready n nodes one, waiting_nil (deps_of n nodes));
  all =
      λ n known e. ground (arith, count-ready n nodes one, known.1, waiting_nil (deps_of n nodes));
  asked = λ n h. absurd (ground arith);
}
