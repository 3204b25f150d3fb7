-- ===== src/Tests/Graphs.antt =====
-- Two watch rules: the server depends on the assets.
use hamr.Base.{true, false, some, List, [], ◌∷◌, ◌≡◌, refl}
use hamr.Base.Assoc.{lookup, insert}
use hamr.Graph.{GraphNode, Graph, WatchRule, new_graph, add_rules}
use hamr.Base.Lists.{length}
use hamr.Graph.Order.{
  topological_order, take_ready, all_dependees, in_degrees, ready, release, add_dependees, list_at,
  degree_at,
}
use hamr.Graph.Order.Keys.{new_graph-HasOneEach}
use hamr.Graph.Order.Loop.{IsOrder, topological_order-IsOrder}
use hamr.Graph.Run.{Action, starts, ends, perform_all}

abbrev rules : List WatchRule
rules =
    record { name = "assets"; depends = [] }
    ∷ record { name = "server"; depends = "assets" ∷ [] }
    ∷ []

abbrev running : List Action
running = starts "server" ∷ ends "server" ∷ starts "assets" ∷ []

abbrev server : GraphNode
server = record { deps = "assets" ∷ []; done_channel = 2; running = false }

abbrev assets : GraphNode
assets = record { deps = []; done_channel = 0; running = false }

server_stored : lookup "server" (perform_all running (new_graph rules)).nodes ≡ some server
unfolding lookup perform_all add_rules
server_stored = refl

-- The graph in which the assets are built.
abbrev building : Graph
building = perform_all (starts "assets" ∷ []) (new_graph rules)

abbrev built : GraphNode
built = record { deps = []; done_channel = 2; running = true }

-- The order of the rules.
topological_order-IsOrder_example :
    IsOrder (new_graph rules) (topological_order (length (new_graph rules).nodes) (new_graph rules))
topological_order-IsOrder_example =
    topological_order-IsOrder (new_graph rules) (new_graph-HasOneEach rules)

server_last : topological_order 2 (new_graph rules) ≡ some ("assets" ∷ "server" ∷ [])
unfolding topological_order take_ready all_dependees in_degrees ready add_rules release
    add_dependees list_at degree_at insert lookup
server_last = refl
