-- ===== src/Scheduler/Types.antt =====
-- packages/control/src/scheduler/types.ts. Counts are natural numbers.
use aurora_ai_native.Prelude.{ℕ, String, Bool, Option, List}
use aurora_ai_native.Budget.{ExecutionBudget, ExecutionBudgetUsage}
use aurora_ai_native.GoalGraph.Types.{
  GoalGraph, GoalGraphStateSnapshot, GoalGraphDependencyDisposition,
}

pub record SchedulerPolicy : Type 0 where
  pub max_concurrency : ℕ
  pub max_dispatch_per_tick : ℕ

pub record SchedulerFairnessCursor : Type 0 where
  pub next_topological_index : ℕ
  pub turn : ℕ

pub record SchedulerTickInput : Type 0 where
  pub tenant_id : String
  pub correlation_id : String
  pub graph : GoalGraph
  pub states : GoalGraphStateSnapshot
  pub budget : ExecutionBudget
  pub budget_usage : ExecutionBudgetUsage
  pub policy : SchedulerPolicy
  pub fairness : Option SchedulerFairnessCursor
  pub cancellation_requested : Option Bool

pub record SchedulerCapacity : Type 0 where
  pub active_graph_nodes : ℕ
  pub policy_slots : ℕ
  pub budget_slots : ℕ
  pub dispatch_slots : ℕ

pub record SchedulerPropagation : Type 0 where
  pub node_id : String
  pub disposition : GoalGraphDependencyDisposition
  pub predecessor_node_ids : List String

pub data SchedulerBackpressureReason : Type 0 where
  no_backpressure cancellation_requested no_dependency_ready_nodes : SchedulerBackpressureReason
  policy_concurrency_exhausted budget_concurrency_exhausted : SchedulerBackpressureReason
  dispatch_limit_reached : SchedulerBackpressureReason

pub record SchedulerPlan : Type 0 where
  pub tenant_id : String
  pub correlation_id : String
  pub graph_id : String
  pub dispatch_node_ids : List String
  pub deferred_ready_node_ids : List String
  pub propagations : List SchedulerPropagation
  pub capacity : SchedulerCapacity
  pub backpressure_reason : SchedulerBackpressureReason
  pub next_fairness : SchedulerFairnessCursor

pub data SchedulerRejectionCode : Type 0 where
  tenant_mismatch correlation_mismatch budget_tenant_mismatch : SchedulerRejectionCode
  budget_correlation_mismatch invalid_policy invalid_fairness_cursor : SchedulerRejectionCode
  invalid_budget_usage : SchedulerRejectionCode

pub data SchedulerTickResult : Type 0 where
  planned : SchedulerPlan → SchedulerTickResult
  rejected : SchedulerRejectionCode → SchedulerTickResult
