-- ===== src/Graph.antt =====
-- The graph of watch rules (internal/devserver/graph.go): which rules run, and the channels that
-- those who depend on them wait on. A channel is an address, and `closed` says which are closed.
pub mod Waits
pub mod Run
pub mod Order
use hamr.Base.{
  ℕ, suc, String, Bool, true, false, not, ◌&&◌, Option, none, some, List, [], ◌∷◌, eqb,
  if◌then◌else◌,
}
use hamr.Base.Assoc.{Assoc, lookup, insert}

pub record GraphNode : Type 0 where
  pub deps : List String
  pub done_channel : ℕ
  pub running : Bool

-- `fresh` is the address of the next channel that is made.
pub record Graph : Type 0 where
  pub nodes : Assoc GraphNode
  pub closed : ℕ → Bool
  pub fresh : ℕ

-- A watch rule, as far as the graph reads it.
pub record WatchRule : Type 0 where
  pub name : String
  pub depends : List String

abbrev pub write : ℕ → Bool → (ℕ → Bool) → ℕ → Bool
write channel value closed c = if eqb channel c then value else closed c

abbrev pub empty_graph : Graph
empty_graph = record { nodes = []; closed = λ _. false; fresh = 0 }

-- One round of `NewGraph`: a channel that is closed at once.
unfoldable pub add_rule : WatchRule → Graph → Graph
unfolding insert
add_rule r g = record {
  nodes =
      insert r.name (record { deps = r.depends; done_channel = g.fresh; running = false }) g.nodes;
  closed = write g.fresh true g.closed;
  fresh = suc g.fresh;
}

unfoldable pub add_rules : List WatchRule → Graph → Graph
unfolding add_rule
add_rules [] g = g
add_rules (r ∷ rules) g = add_rules rules (add_rule r g)

abbrev pub new_graph : List WatchRule → Graph
new_graph rules = add_rules rules empty_graph

unfoldable pub mark_running : String → Graph → Graph
unfolding lookup insert
mark_running name g = elim (lookup name g.nodes) [
  | none ↦ g
  | some node ↦ if node.running then g else record {
    nodes = insert name (record node { done_channel = g.fresh; running = true }) g.nodes;
    closed = write g.fresh false g.closed;
    fresh = suc g.fresh;
  }
]

unfoldable pub mark_done : String → Graph → Graph
unfolding lookup insert
mark_done name g = elim (lookup name g.nodes) [
  | none ↦ g
  | some node ↦ record g {
    nodes = insert name (record node { running = false }) g.nodes;
    closed = if g.closed node.done_channel then g.closed else write node.done_channel true g.closed;
  }
]

-- The channels of the dependencies that are known.
unfoldable pub wait_on : Assoc GraphNode → List String → List ℕ
unfolding lookup
wait_on nodes [] = []
wait_on nodes (dep ∷ deps) =
    let rest = wait_on nodes deps in
    elim (lookup dep nodes) [ none ↦ rest | some node ↦ node.done_channel ∷ rest ]

unfoldable pub all_closed : (ℕ → Bool) → List ℕ → Bool
all_closed closed [] = true
all_closed closed (c ∷ channels) = closed c && all_closed closed channels

-- `WaitForDeps`, up to its waits: `none` for a rule that is not known, else the channels.
unfoldable pub wait_for_deps : String → Graph → Option (List ℕ)
unfolding lookup wait_on
wait_for_deps name g = elim (lookup name g.nodes) [
  | none ↦ none
  | some node ↦ some (wait_on g.nodes node.deps)
]
