-- ===== src/Graph/Run.antt =====
-- The graph as rules start and end: who waits, and until when.
use hamr.Base.{
  ℕ, ◌<◌, String, Bool, true, not, ◌&&◌, none, some, List, [], ◌∷◌, ◌≡◌, ◌⊎◌, inl, inr, refl,
  Option-cases,
}
use hamr.Base.Assoc.{Assoc, lookup}
use hamr.Graph.{
  GraphNode, Graph, WatchRule, empty_graph, add_rule, add_rules, new_graph, mark_running, mark_done,
  wait_on, all_closed, wait_for_deps,
}
use hamr.Graph.Waits.{
  IsConsistent, add_rule-IsConsistent, mark_running-IsConsistent, mark_done-IsConsistent,
}

pub data Action : Type 0 where
  starts : String → Action
  ends : String → Action

unfoldable pub perform : Action → Graph → Graph
unfolding mark_running mark_done
perform (starts name) g = mark_running name g
perform (ends name) g = mark_done name g

unfoldable pub perform_all : List Action → Graph → Graph
unfolding perform
perform_all [] g = g
perform_all (a ∷ acts) g = perform_all acts (perform a g)

empty_graph-IsConsistent : IsConsistent empty_graph
unfolding lookup
empty_graph-IsConsistent = record {
  known = λ k n e. absurd (cc);
  state = λ k n e. absurd (cc);
  own = λ k j n m e f s. absurd (cc);
}

add_rules-IsConsistent :
    (rules : List WatchRule) (g : Graph) → IsConsistent g → IsConsistent (add_rules rules g)
unfolding add_rules
add_rules-IsConsistent [] g c = c
add_rules-IsConsistent (r ∷ rules) g c =
    add_rules-IsConsistent rules (add_rule r g) (add_rule-IsConsistent r g c)

pub new_graph-IsConsistent : (rules : List WatchRule) → IsConsistent (new_graph rules)
new_graph-IsConsistent rules = add_rules-IsConsistent rules empty_graph empty_graph-IsConsistent

perform-IsConsistent : (a : Action) (g : Graph) → IsConsistent g → IsConsistent (perform a g)
unfolding perform
perform-IsConsistent (starts name) g c = mark_running-IsConsistent name g c
perform-IsConsistent (ends name) g c = mark_done-IsConsistent name g c

pub perform_all-IsConsistent :
    (acts : List Action) (g : Graph) → IsConsistent g → IsConsistent (perform_all acts g)
unfolding perform_all
perform_all-IsConsistent [] g c = c
perform_all-IsConsistent (a ∷ acts) g c =
    perform_all-IsConsistent acts (perform a g) (perform-IsConsistent a g c)

-- No dependency that is known runs.
unfoldable pub none_running : Assoc GraphNode → List String → Bool
unfolding lookup
none_running nodes [] = true
none_running nodes (dep ∷ deps) =
    let rest = none_running nodes deps in
    elim (lookup dep nodes) [ none ↦ rest | some node ↦ not node.running && rest ]

all_closed-wait_on :
    (g : Graph) (deps : List String)
    → IsConsistent g
    → all_closed g.closed (wait_on g.nodes deps) ≡ none_running g.nodes deps
unfolding all_closed wait_on none_running
all_closed-wait_on g [] c = refl
all_closed-wait_on g (dep ∷ deps) c = elim (Option-cases (lookup dep g.nodes)) [
  | inl e ↦ rw (e, wait_on, none_running) (all_closed-wait_on g deps c)
  | inr (node, e) ↦
      rw (e, wait_on, none_running, all_closed)
        (cc (c.state dep node e, all_closed-wait_on g deps c))
]

-- In a graph that `NewGraph` makes of any rules, after any sequence of rules that are marked running
-- and done: the wait of a known rule ends at once exactly when none of its known dependencies runs.
pub wait_for_deps-none_running :
    (rules : List WatchRule) (acts : List Action) (name : String) (node : GraphNode)
    → lookup name (perform_all acts (new_graph rules)).nodes ≡ some node
    → (channels : List ℕ) × (wait_for_deps name (perform_all acts (new_graph rules))
        ≡ some channels)
      × (all_closed (perform_all acts (new_graph rules)).closed channels
          ≡ none_running (perform_all acts (new_graph rules)).nodes node.deps)
unfolding wait_for_deps
wait_for_deps-none_running rules acts name node e =
    let g = perform_all acts (new_graph rules) in
    let c = perform_all-IsConsistent acts (new_graph rules) (new_graph-IsConsistent rules) in
    (wait_on g.nodes node.deps, rw (e, wait_for_deps) refl, all_closed-wait_on g node.deps c)

-- The channel of a rule, as a wait has read it: closed, or still that of the rule.
abbrev pub Held : String → ℕ → Graph → Type 0
Held dep channel g =
    (channel < g.fresh)
    × ((g.closed channel ≡ true)
        ⊎ ((n : GraphNode) × (lookup dep g.nodes ≡ some n) × (n.done_channel ≡ channel)))
