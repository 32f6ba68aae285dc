-- ===== src/GoalGraph/Create.antt =====
-- createGoalGraph (packages/control/src/goal-graph/graph.ts): validation of nodes and edges, and the
-- deterministic topological order. A `Map` is a function into `Option`, a `Set` of texts the list of
-- its members.
use Prim.Native.String
use mathlib.Core.Option
use aurora_ai_native.Prelude.{
  ℕ, zero, suc, ◌+◌, ◌-◌, String, Bool, ◌||◌, not, Option, none, some, List, [], ◌∷◌, ◌++◌, map,
  ◌==◌, length, filter, any, sort_by, ltb, eqb, if◌then◌else◌, or_else, non_empty,
}
use aurora_ai_native.Lifecycle.{LifecycleEntityKind, objective, goal, task}
use aurora_ai_native.GoalGraph.Types.{
  GoalGraphNode, GoalGraphEdge, CreateGoalGraphInput, GoalGraphRejection, invalid_graph_id,
  node_limit_exceeded, edge_limit_exceeded, cycle_detected, invalid_node_id, duplicate_node_id,
  duplicate_lifecycle_ref, fan_in_limit_exceeded, fan_out_limit_exceeded, unknown_edge_node,
  self_edge, duplicate_edge, CreateGoalGraphResult, created, rejected,
}
use aurora_ai_native.GoalGraph.Assess.{LocaleLe}

-- GOAL_GRAPH_LIMITS
abbrev pub max_nodes : ℕ
max_nodes = 256

abbrev pub max_edges : ℕ
max_edges = 2048

abbrev pub max_fan_in : ℕ
max_fan_in = 64

abbrev pub max_fan_out : ℕ
max_fan_out = 64

abbrev kind_text : LifecycleEntityKind → String
kind_text objective = "OBJECTIVE"
kind_text goal = "GOAL"
kind_text task = "TASK"

unfoldable pub lifecycle_key : GoalGraphNode → String
lifecycle_key node =
    String.◌++◌ (kind_text node.lifecycle_ref.kind) (String.◌++◌ ":" node.lifecycle_ref.id)

unfoldable pub edge_key : GoalGraphEdge → String
edge_key edge = String.◌++◌ edge.from_node_id (String.◌++◌ "\0" edge.to_node_id)

-- `set.has(text)`
abbrev pub has : List String → String → Bool
has texts text = any (λ other. other == text) texts

-- The loop over the nodes, with the ids and the lifecycle keys seen so far: the first rejection.
unfoldable pub check_nodes :
    List GoalGraphNode → List String → List String → Option GoalGraphRejection
check_nodes [] ids keys = none
check_nodes (node ∷ nodes) ids keys =
    let rest = check_nodes nodes (node.node_id ∷ ids) (lifecycle_key node ∷ keys) in
    if not (non_empty node.node_id) || not (non_empty node.lifecycle_ref.id)
    then some (invalid_node_id node.node_id)
    else if has ids node.node_id
    then some (duplicate_node_id node.node_id)
    else if has keys (lifecycle_key node)
    then some (duplicate_lifecycle_ref node.node_id)
    else rest

-- `map.get(key) ?? 0` of a map of counts, and `map.set(key, value)`.
abbrev pub Counts : Type 0
Counts = String → ℕ

abbrev pub set_count : Counts → String → ℕ → Counts
set_count counts key value k = if k == key then value else counts k

-- The loop over the edges, with the keys seen so far and the counts of edges into and out of a node.
unfoldable pub check_edges :
    List String → List GoalGraphEdge → List String → Counts → Counts → Option GoalGraphRejection
check_edges ids [] keys fan_in fan_out = none
check_edges ids (edge ∷ edges) keys fan_in fan_out =
    let next_fan_in = fan_in edge.to_node_id + 1 in
    let next_fan_out = fan_out edge.from_node_id + 1 in
    let rest =
      check_edges ids edges (edge_key edge ∷ keys) (set_count fan_in edge.to_node_id next_fan_in)
        (set_count fan_out edge.from_node_id next_fan_out) in
    if not (has ids edge.from_node_id) || not (has ids edge.to_node_id)
    then some (unknown_edge_node edge)
    else if edge.from_node_id == edge.to_node_id
    then some (self_edge edge)
    else if has keys (edge_key edge)
    then some (duplicate_edge edge)
    else if ltb max_fan_in next_fan_in
    then some (fan_in_limit_exceeded edge.to_node_id)
    else if ltb max_fan_out next_fan_out
    then some (fan_out_limit_exceeded edge.from_node_id)
    else rest

-- A `Map<string, string[]>`.
abbrev pub Adjacency : Type 0
Adjacency = String → Option (List String)

-- `for (const node of nodes) map.set(node.nodeId, [])`
unfoldable pub empty_lists : List GoalGraphNode → Adjacency
empty_lists nodes id = if has (map (λ n. n.node_id) nodes) id then some [] else none

-- `map.get(key)?.push(value)`
abbrev pub push_value : Adjacency → String → String → Adjacency
push_value m key value id =
    if id == key then Option.map (λ values. values ++ value ∷ []) (m id) else m id

unfoldable pub push_incoming : List GoalGraphEdge → Adjacency → Adjacency
push_incoming [] m = m
push_incoming (edge ∷ edges) m =
    push_incoming edges (push_value m edge.to_node_id edge.from_node_id)

unfoldable pub push_outgoing : List GoalGraphEdge → Adjacency → Adjacency
push_outgoing [] m = m
push_outgoing (edge ∷ edges) m =
    push_outgoing edges (push_value m edge.from_node_id edge.to_node_id)

-- `for (const values of map.values()) values.sort(…)`
abbrev pub sort_values : LocaleLe → Adjacency → Adjacency
sort_values le m id = Option.map (sort_by le) (m id)

unfoldable pub incoming_of : LocaleLe → List GoalGraphNode → List GoalGraphEdge → Adjacency
incoming_of le nodes edges = sort_values le (push_incoming edges (empty_lists nodes))

unfoldable pub outgoing_of : LocaleLe → List GoalGraphNode → List GoalGraphEdge → Adjacency
outgoing_of le nodes edges = sort_values le (push_outgoing edges (empty_lists nodes))

-- `indegree.get(id) ?? 0` after the map was filled from `incoming`.
unfoldable pub initial_indegree : Adjacency → Counts
initial_indegree incoming id = elim (incoming id) [ none ↦ 0 | some sources ↦ length sources ]

pub record KahnState : Type 0 where
  pub ready : List String
  pub indegree : Counts
  pub order : List String

-- The inner loop over the successors of a node. `next === 0` is asked of `indegree - 1`: the count was
-- 1. A count of 0 goes below zero there and here stays 0, and neither of them is ever 1 again.
unfoldable pub release : LocaleLe → List String → KahnState → KahnState
release le [] s = s
release le (successor ∷ successors) s = release le successors (record s {
  indegree = set_count s.indegree successor (s.indegree successor - 1);
  ready = if eqb (s.indegree successor) 1 then sort_by le (s.ready ++ successor ∷ []) else s.ready;
})

-- `while (ready.length > 0)`, on fuel.
unfoldable pub kahn : LocaleLe → Adjacency → ℕ → KahnState → KahnState
kahn le outgoing zero s = s
kahn le outgoing (suc fuel) s = elim (s.ready) [
  | [] ↦ s
  | id ∷ rest ↦ kahn le outgoing fuel (
      release le (or_else (outgoing id) []) (record s { ready = rest; order = s.order ++ id ∷ [] }))
]

unfoldable pub kahn_start : LocaleLe → List GoalGraphNode → List GoalGraphEdge → KahnState
kahn_start le nodes edges = record {
  ready = sort_by le (
      map (λ n. n.node_id)
        (filter (λ n. eqb (initial_indegree (incoming_of le nodes edges) n.node_id) 0) nodes));
  indegree = initial_indegree (incoming_of le nodes edges);
  order = [];
}

-- A node enters `ready` at most once, so a round for each node is enough.
unfoldable pub kahn_end : LocaleLe → List GoalGraphNode → List GoalGraphEdge → KahnState
kahn_end le nodes edges =
    kahn le (outgoing_of le nodes edges) (length nodes) (kahn_start le nodes edges)

unfoldable pub deterministic_topological_order :
    LocaleLe → List GoalGraphNode → List GoalGraphEdge → Option (List String)
deterministic_topological_order le nodes edges =
    let order = (kahn_end le nodes edges).order in
    if eqb (length order) (length nodes) then some order else none

abbrev finish :
    CreateGoalGraphInput
    → List GoalGraphNode
    → List GoalGraphEdge
    → Option (List String)
    → CreateGoalGraphResult
finish input nodes edges none = rejected cycle_detected
finish input nodes edges (some order) = created (record {
  graph_id = input.graph_id;
  tenant_id = input.tenant_id;
  correlation_id = input.correlation_id;
  nodes = nodes;
  edges = edges;
  topological_order = order;
})

unfoldable pub sorted_nodes : LocaleLe → List GoalGraphNode → List GoalGraphNode
sorted_nodes le nodes = sort_by (λ a b. le a.node_id b.node_id) nodes

unfoldable pub sorted_edges : LocaleLe → List GoalGraphEdge → List GoalGraphEdge
sorted_edges le edges = sort_by (λ a b. le (edge_key a) (edge_key b)) edges

abbrev order_checked :
    LocaleLe
    → CreateGoalGraphInput
    → Option GoalGraphRejection
    → Option GoalGraphRejection
    → CreateGoalGraphResult
order_checked le input (some rejection) edges_checked = rejected rejection
order_checked le input none (some rejection) = rejected rejection
order_checked le input none none =
    let nodes = sorted_nodes le input.nodes in
    let edges = sorted_edges le input.edges in
    finish input nodes edges (deterministic_topological_order le nodes edges)

unfoldable pub create_goal_graph : LocaleLe → CreateGoalGraphInput → CreateGoalGraphResult
create_goal_graph le input =
    if not (non_empty input.graph_id)
    then rejected invalid_graph_id
    else if ltb max_nodes (length input.nodes)
    then rejected node_limit_exceeded
    else if ltb max_edges (length input.edges)
    then rejected edge_limit_exceeded
    else order_checked le input (check_nodes input.nodes [] [])
        (check_edges (map (λ n. n.node_id) input.nodes) input.edges [] (λ k. 0) (λ k. 0))
