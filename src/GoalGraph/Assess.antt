-- ===== src/GoalGraph/Assess.antt =====
-- assessGoalGraphDependencies (packages/control/src/goal-graph/graph.ts): what the states of a node's
-- predecessors mean for the node. `localeCompare` enters as the order that it sorts by.
use Prim.Native.String
use aurora_ai_native.Prelude.{
  String, Bool, false, ◌||◌, not, Option, none, some, List, map, ◌==◌, filter, any, all, find?,
  is_empty, Outcome, sort_by, if◌then◌else◌, returned, threw,
}
use aurora_ai_native.Lifecycle.{
  LifecycleState, succeeded, failed, cancelled, superseded, is_state, is_terminal_lifecycle_state,
}
use aurora_ai_native.GoalGraph.Types.{
  GoalGraphNode, GoalGraph, GoalGraphJoinPolicy, all_success, all_terminal, any_success,
  GoalGraphDependencyDisposition, ready, waiting, propagate_failure, propagate_cancellation,
  terminal, GoalGraphDependencyReason, root_node, dependencies_succeeded, dependencies_terminal,
  any_dependency_succeeded, dependencies_pending, dependency_failed,
  dependency_cancelled_or_superseded, node_already_terminal, GoalGraphDependencyAssessment,
  GoalGraphStateSnapshot,
}

-- `a.localeCompare(b) <= 0`
abbrev pub LocaleLe : Type 0
LocaleLe = String → String → Bool

unfoldable pub predecessor_node_ids : LocaleLe → GoalGraph → String → List String
unfolding sort_by
predecessor_node_ids le graph node_id =
    sort_by le (map (λ e. e.from_node_id) (filter (λ e. e.to_node_id == node_id) graph.edges))

abbrev pub state_is : LifecycleState → Option LifecycleState → Bool
state_is s none = false
state_is s (some t) = is_state t s

-- `state !== undefined && TERMINAL_STATES.has(state)`
abbrev pub is_terminal_state : Option LifecycleState → Bool
is_terminal_state none = false
is_terminal_state (some s) = is_terminal_lifecycle_state s

abbrev assessment :
    String
    → List String
    → GoalGraphDependencyDisposition
    → GoalGraphDependencyReason
    → GoalGraphDependencyAssessment
assessment node_id predecessors disposition reason = record {
  node_id = node_id;
  disposition = disposition;
  reason = reason;
  predecessor_node_ids = predecessors;
}

-- What the join policy makes of the states of the predecessors.
unfoldable pub join :
    GoalGraphJoinPolicy
    → List (Option LifecycleState)
    → GoalGraphDependencyDisposition × GoalGraphDependencyReason
join all_terminal states =
    if all is_terminal_state states
    then (ready, dependencies_terminal)
    else (waiting, dependencies_pending)
join any_success states =
    if any (state_is succeeded) states
    then (ready, any_dependency_succeeded)
    else if not (all is_terminal_state states)
    then (waiting, dependencies_pending)
    else if any (state_is failed) states
    then (propagate_failure, dependency_failed)
    else (propagate_cancellation, dependency_cancelled_or_superseded)
join all_success states =
    if all (state_is succeeded) states
    then (ready, dependencies_succeeded)
    else if any (state_is failed) states
    then (propagate_failure, dependency_failed)
    else if any (λ s. state_is cancelled s || state_is superseded s) states
    then (propagate_cancellation, dependency_cancelled_or_superseded)
    else (waiting, dependencies_pending)

unfoldable pub assess_node :
    LocaleLe
    → GoalGraph
    → GoalGraphNode
    → String
    → GoalGraphStateSnapshot
    → GoalGraphDependencyAssessment
assess_node le graph node node_id states =
    if is_terminal_state (states node_id)
    then assessment node_id predecessors terminal node_already_terminal
    else if is_empty predecessors
    then assessment node_id predecessors ready root_node
    else assessment node_id predecessors joined.0 joined.1
  where
    predecessors : List String
    predecessors = predecessor_node_ids le graph node_id

    joined : GoalGraphDependencyDisposition × GoalGraphDependencyReason
    joined = join node.join_policy (map states predecessors)

abbrev assess_found :
    LocaleLe
    → GoalGraph
    → Option GoalGraphNode
    → String
    → GoalGraphStateSnapshot
    → Outcome GoalGraphDependencyAssessment
assess_found le graph none node_id states = threw (String.◌++◌ "Unknown goal graph node: " node_id)
assess_found le graph (some node) node_id states =
    returned (assess_node le graph node node_id states)

unfoldable pub assess_goal_graph_dependencies :
    LocaleLe → GoalGraph → String → GoalGraphStateSnapshot → Outcome GoalGraphDependencyAssessment
assess_goal_graph_dependencies le graph node_id states =
    assess_found le graph (find? (λ n. n.node_id == node_id) graph.nodes) node_id states
