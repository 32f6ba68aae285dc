-- ===== src/GoalGraph/Types.antt =====
-- packages/control/src/goal-graph/types.ts.
use aurora_ai_native.Prelude.{String, Option, List}
use aurora_ai_native.Lifecycle.{LifecycleEntityRef, LifecycleState}

pub data GoalGraphJoinPolicy : Type 0 where
  all_success all_terminal any_success : GoalGraphJoinPolicy

pub record GoalGraphNode : Type 0 where
  pub node_id : String
  pub lifecycle_ref : LifecycleEntityRef
  pub join_policy : GoalGraphJoinPolicy

pub record GoalGraphEdge : Type 0 where
  pub from_node_id : String
  pub to_node_id : String

pub record GoalGraph : Type 0 where
  pub graph_id : String
  pub tenant_id : String
  pub correlation_id : String
  pub nodes : List GoalGraphNode
  pub edges : List GoalGraphEdge
  pub topological_order : List String

pub record CreateGoalGraphInput : Type 0 where
  pub graph_id : String
  pub tenant_id : String
  pub correlation_id : String
  pub nodes : List GoalGraphNode
  pub edges : List GoalGraphEdge

-- A rejection code, with the node or the edge that the result names beside it.
pub data GoalGraphRejection : Type 0 where
  invalid_graph_id node_limit_exceeded edge_limit_exceeded cycle_detected : GoalGraphRejection
  invalid_node_id duplicate_node_id duplicate_lifecycle_ref : String → GoalGraphRejection
  fan_in_limit_exceeded fan_out_limit_exceeded : String → GoalGraphRejection
  unknown_edge_node self_edge duplicate_edge : GoalGraphEdge → GoalGraphRejection

pub data CreateGoalGraphResult : Type 0 where
  created : GoalGraph → CreateGoalGraphResult
  rejected : GoalGraphRejection → CreateGoalGraphResult

pub data GoalGraphDependencyDisposition : Type 0 where
  ready waiting propagate_failure propagate_cancellation terminal : GoalGraphDependencyDisposition

pub data GoalGraphDependencyReason : Type 0 where
  root_node dependencies_succeeded dependencies_terminal : GoalGraphDependencyReason
  any_dependency_succeeded dependencies_pending dependency_failed : GoalGraphDependencyReason
  dependency_cancelled_or_superseded node_already_terminal : GoalGraphDependencyReason

pub record GoalGraphDependencyAssessment : Type 0 where
  pub node_id : String
  pub disposition : GoalGraphDependencyDisposition
  pub reason : GoalGraphDependencyReason
  pub predecessor_node_ids : List String

-- The states of the nodes by their ids; `none` where the snapshot has no state.
abbrev pub GoalGraphStateSnapshot : Type 0
GoalGraphStateSnapshot = String → Option LifecycleState
