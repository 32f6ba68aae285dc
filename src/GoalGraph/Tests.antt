-- ===== src/GoalGraph/Tests.antt =====
-- A small goal graph, and the theorems about the assessment of its nodes.
use aurora_ai_native.Prelude.{
  ℕ, ◌≤◌, String, ◌≡◌, refl, ◌≢◌, false, none, some, List, [], ◌∷◌, arith, ◌==◌, length, sort_by,
  if◌then◌else◌, non_empty, text_le, returned,
}
use aurora_ai_native.Lifecycle.{
  LifecycleState-discrete, LifecycleEntityKind-discrete, goal, succeeded, failed,
}
use aurora_ai_native.GoalGraph.Types.{
  GoalGraph, GoalGraphNode, GoalGraphEdge, all_success, waiting, ready, GoalGraphStateSnapshot,
  dependencies_succeeded, CreateGoalGraphInput, created, rejected, cycle_detected, self_edge,
  GoalGraphDependencyAssessment,
}
use aurora_ai_native.GoalGraph.Assess.{
  predecessor_node_ids, join, assess_node, assess_goal_graph_dependencies,
}
use aurora_ai_native.GoalGraph.Create.{
  create_goal_graph, check_nodes, check_edges, lifecycle_key, edge_key,
  deterministic_topological_order, kahn_end, kahn_start, kahn, release, incoming_of, outgoing_of,
  push_incoming, push_outgoing, empty_lists, initial_indegree, sorted_nodes, sorted_edges,
}
use aurora_ai_native.GoalGraph.Order.{IsForward}
use aurora_ai_native.GoalGraph.Created.{create-IsForward}
use aurora_ai_native.GoalGraph.Acyclic.{create_acyclic}
use aurora_ai_native.GoalGraph.Counting.{count}
use aurora_ai_native.GoalGraph.Created.{ids_of}
use aurora_ai_native.GoalGraph.Listing.{create-lists_nodes}
use aurora_ai_native.GoalGraph.Readiness.{assess_settles}

abbrev node : String → GoalGraphNode
node id = record {
  node_id = id;
  lifecycle_ref = record { kind = goal; id = id };
  join_policy = all_success;
}

abbrev edge : String → String → GoalGraphEdge
edge source target = record { from_node_id = source; to_node_id = target }

abbrev graph_input : List GoalGraphEdge → CreateGoalGraphInput
graph_input edges = record {
  graph_id = "p1";
  tenant_id = "t1";
  correlation_id = "c1";
  nodes = node "d" ∷ node "b" ∷ node "c" ∷ node "a" ∷ [];
  edges = edges;
}

abbrev diamond : List GoalGraphEdge
diamond = edge "a" "b" ∷ edge "a" "c" ∷ edge "b" "d" ∷ edge "c" "d" ∷ []

abbrev diamond_graph : GoalGraph
diamond_graph = record {
  graph_id = "p1";
  tenant_id = "t1";
  correlation_id = "c1";
  nodes = node "a" ∷ node "b" ∷ node "c" ∷ node "d" ∷ [];
  edges = diamond;
  topological_order = "a" ∷ "b" ∷ "c" ∷ "d" ∷ [];
}

program : Unit {0}
unfolding create_goal_graph check_nodes check_edges lifecycle_key edge_key
    deterministic_topological_order kahn_end kahn_start kahn release incoming_of outgoing_of
    push_incoming push_outgoing empty_lists initial_indegree sorted_nodes sorted_edges sort_by
    non_empty predecessor_node_ids join assess_node assess_goal_graph_dependencies
    LifecycleState-discrete LifecycleEntityKind-discrete
program = tt

create_diamond : create_goal_graph text_le (graph_input diamond) ≡ created diamond_graph
unfolding program
create_diamond = refl

create_cycle :
    create_goal_graph text_le (graph_input (edge "d" "a" ∷ diamond)) ≡ rejected cycle_detected
unfolding program
create_cycle = refl

create_self_edge :
    create_goal_graph text_le (graph_input (edge "d" "d" ∷ diamond))
    ≡ rejected (self_edge (edge "d" "d"))
unfolding program
create_self_edge = refl

abbrev states : GoalGraphStateSnapshot
states id = if id == "a" then some succeeded else if id == "b" then some succeeded else some failed

abbrev early : GoalGraphStateSnapshot
early id = if id == "a" then some succeeded else none

abbrev assessed : GoalGraphDependencyAssessment
assessed = record {
  node_id = "c";
  disposition = ready;
  reason = dependencies_succeeded;
  predecessor_node_ids = "a" ∷ [];
}

assess_settles_example :
    (a : GoalGraphDependencyAssessment) × (assess_goal_graph_dependencies text_le diamond_graph "d"
        states
      ≡ returned a)
    × (a.disposition ≢ waiting)
unfolding program
assess_settles_example = assess_settles text_le diamond_graph (node "d") "d" states refl refl

create-IsForward_example :
    (length diamond_graph.topological_order ≡ length diamond_graph.nodes)
    × IsForward diamond_graph.edges (λ u. false) diamond_graph.topological_order
create-IsForward_example =
    create-IsForward text_le (graph_input diamond) diamond_graph create_diamond

abbrev depth : String → ℕ
depth id = if id == "a" then 0 else if id == "d" then 2 else 1

create_acyclic_example : create_goal_graph text_le (graph_input diamond) ≢ rejected cycle_detected
create_acyclic_example =
    create_acyclic text_le (graph_input diamond) depth
      (omega arith, (omega arith, (omega arith, (omega arith, tt))))

create-lists_nodes_example :
    (count diamond_graph.topological_order "b" ≡ count (ids_of diamond_graph.nodes) "b")
    × (count diamond_graph.topological_order "b" ≤ 1)
create-lists_nodes_example =
    create-lists_nodes text_le (graph_input diamond) diamond_graph "b" create_diamond
