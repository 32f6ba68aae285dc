-- ===== src/GoalGraph/Listing.antt =====
-- The topological order of a created goal graph (packages/control/src/goal-graph/graph.ts) lists its nodes.
use aurora_ai_native.Prelude.{◌≤◌, String, ◌≡◌, arith}
use aurora_ai_native.GoalGraph.Types.{GoalGraph, CreateGoalGraphInput, created}
use aurora_ai_native.GoalGraph.Assess.{LocaleLe}
use aurora_ai_native.GoalGraph.Create.{sorted_nodes, sorted_edges, create_goal_graph}
use aurora_ai_native.GoalGraph.Counting.{count}
use aurora_ai_native.GoalGraph.Exhaustion.{count-by_length}
use aurora_ai_native.GoalGraph.Created.{
  ids_of, sorted-once, sorted-IsClosed, created-checks, created-order, topological_order-kahn,
}
use aurora_ai_native.GoalGraph.Acyclic.{end_exhausts, length-ids_of}

-- The order of a created graph has exactly the ids of its nodes, each of them once.
pub create-lists_nodes :
    (le : LocaleLe) (input : CreateGoalGraphInput) (graph : GoalGraph) (id : String)
    → create_goal_graph le input ≡ created graph
    → (count graph.topological_order id ≡ count (ids_of graph.nodes) id)
      × (count graph.topological_order id ≤ 1)
create-lists_nodes le input graph id h =
    let (nodes_checked, edges_checked) = created-checks le input graph h in
    let (nodes_are, edges_are, ordered) = created-order le input graph h in
    let nodes = sorted_nodes le input.nodes in
    let edges = sorted_edges le input.edges in
    let (order_is, long) = topological_order-kahn le nodes edges graph.topological_order ordered in
    let once = sorted-once le input nodes_checked edges_checked in
    let tracked =
      (end_exhausts le nodes edges (sorted-IsClosed le input nodes_checked edges_checked) once).0 in
    let fewer : (v : String) → count graph.topological_order v ≤ count (ids_of nodes) v =
      λ v. rw order_is (omega (arith, tracked.within v)) in
    let as_many =
      count-by_length graph.topological_order (ids_of nodes) fewer
        (omega (arith, long, length-ids_of nodes)) id in
    rw nodes_are (omega (arith, fewer id, as_many), omega (arith, fewer id, once id))
