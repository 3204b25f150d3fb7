-- ===== src/Graph/Order/Keys.antt =====
-- One node for each name in the graph of a list of rules (`NewGraph` in
-- internal/devserver/graph.go).
use hamr.Base.{
  String, List, [], ◌∷◌, ◌==◌, arith, inl, inr, Bool-cases, eq_iff, refl, subst, subst,
  if◌then◌else◌,
}
use hamr.Base.Assoc.{Assoc, lookup, insert, lookup-insert}
use hamr.Graph.{GraphNode, Graph, WatchRule, add_rule, add_rules, new_graph}
use hamr.Graph.Order.Counts.{HasOneEach}

insert-HasOneEach :
    (k : String) (node : GraphNode) (nodes : Assoc GraphNode)
    → HasOneEach nodes
    → HasOneEach (insert k node nodes)
unfolding insert lookup
insert-HasOneEach k node [] one = (refl, tt)
insert-HasOneEach k node ((k', node') ∷ nodes) one = elim (Bool-cases (k' == k)) [
  | inl e ↦
      let same : Path (Assoc GraphNode) ((k', node) ∷ nodes)
          (if k' == k then (k', node) ∷ nodes else (k', node') ∷ insert k node nodes) =
        ground (arith, e) in
      subst HasOneEach same one
  | inr e ↦
      let same : Path (Assoc GraphNode) ((k', node') ∷ insert k node nodes)
          (if k' == k then (k', node) ∷ nodes else (k', node') ∷ insert k node nodes) =
        ground (arith, e) in
      subst HasOneEach same (
        ground (arith, one.0, lookup-insert k k' node nodes, eq_iff k k', eq_iff k' k),
        insert-HasOneEach k node nodes one.1,
      )
]

add_rules-HasOneEach :
    (rules : List WatchRule) (g : Graph) → HasOneEach g.nodes → HasOneEach (add_rules rules g).nodes
unfolding add_rules add_rule
add_rules-HasOneEach [] g one = one
add_rules-HasOneEach (r ∷ rules) g one =
    add_rules-HasOneEach rules (add_rule r g) (insert-HasOneEach _ _ g.nodes one)

pub new_graph-HasOneEach : (rules : List WatchRule) → HasOneEach (new_graph rules).nodes
new_graph-HasOneEach rules = add_rules-HasOneEach rules _ tt
