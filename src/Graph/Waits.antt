-- ===== src/Graph/Waits.antt =====
-- The channels of the rules, as rules are added, start and end (internal/devserver/graph.go).
use hamr.Base.{
  ◌<◌, String, true, false, not, some, ◌≡◌, inl, inr, arith, eq_iff, Option-cases, Bool-cases,
}
use hamr.Base.Assoc.{lookup, lookup-insert}
use hamr.Graph.{GraphNode, Graph, WatchRule, add_rule, mark_running, mark_done}

-- A rule has a channel of its own, which is closed unless the rule runs.
pub record IsConsistent (g : Graph) : Type 0 where
  pub known : (k : String) (n : GraphNode) → lookup k g.nodes ≡ some n → n.done_channel < g.fresh
  pub state :
      (k : String) (n : GraphNode)
      → lookup k g.nodes ≡ some n
      → g.closed n.done_channel ≡ not n.running
  pub own :
      (k j : String) (n m : GraphNode)
      → lookup k g.nodes ≡ some n
      → lookup j g.nodes ≡ some m
      → n.done_channel ≡ m.done_channel
      → k ≡ j

pub add_rule-IsConsistent :
    (r : WatchRule) (g : Graph) → IsConsistent g → IsConsistent (add_rule r g)
unfolding add_rule
add_rule-IsConsistent r g c =
    let node : GraphNode = record { deps = r.depends; done_channel = g.fresh; running = false } in
    record {
      known = λ k n e. ground (arith, lookup-insert r.name k node g.nodes, c.known k n);
      state =
          λ k n e. ground (arith, lookup-insert r.name k node g.nodes, c.known k n, c.state k n);
      own = λ k j n m e f same. ground (
        arith,
        lookup-insert r.name k node g.nodes,
        lookup-insert r.name j node g.nodes,
        c.known k n,
        c.known j m,
        c.own k j n m,
        eq_iff r.name k,
        eq_iff r.name j,
      );
    }

pub mark_running-IsConsistent :
    (name : String) (g : Graph) → IsConsistent g → IsConsistent (mark_running name g)
unfolding mark_running
mark_running-IsConsistent name g c = elim (Option-cases (lookup name g.nodes)) [
  | inl e ↦ rw (e, mark_running) c
  | inr (node, e) ↦ elim (Bool-cases node.running) [
    | inl y ↦ rw (e, y, mark_running) c
    | inr n ↦
        let node' : GraphNode = record node { done_channel = g.fresh; running = true } in
        rw (e, n, mark_running)
          (record {
            known = λ k m f. ground (arith, lookup-insert name k node' g.nodes, c.known k m);
            state = λ k m f.
                ground (arith, lookup-insert name k node' g.nodes, c.known k m, c.state k m);
            own = λ k j m o f h same. ground (
              arith,
              lookup-insert name k node' g.nodes,
              lookup-insert name j node' g.nodes,
              c.known k m,
              c.known j o,
              c.own k j m o,
              eq_iff name k,
              eq_iff name j,
            );
          })
  ]
]

pub mark_done-IsConsistent :
    (name : String) (g : Graph) → IsConsistent g → IsConsistent (mark_done name g)
unfolding mark_done
mark_done-IsConsistent name g c = elim (Option-cases (lookup name g.nodes)) [
  | inl e ↦ rw (e, mark_done) c
  | inr (node, e) ↦
      let node' : GraphNode = record node { running = false } in
      rw (e, mark_done)
        (record {
          known = λ k m f.
              ground (arith, lookup-insert name k node' g.nodes, c.known k m, c.known name node);
          state = λ k m f. ground (
            arith,
            lookup-insert name k node' g.nodes,
            c.state k m,
            c.state name node,
            c.own k name m node,
            eq_iff name k,
          );
          own = λ k j m o f h same. ground (
            arith,
            lookup-insert name k node' g.nodes,
            lookup-insert name j node' g.nodes,
            c.own k j m o,
            c.own k name m node,
            c.own name j node o,
            c.own j name o node,
            eq_iff name k,
            eq_iff name j,
          );
        })
]
