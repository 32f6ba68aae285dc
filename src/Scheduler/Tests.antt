-- ===== src/Scheduler/Tests.antt =====
-- Ticks over a small graph, and the theorems at them.
use mathlib.Core.List.{Memᴰ}
use aurora_ai_native.Prelude.{
  ℕ, ◌-◌, ◌≤◌, String, ◌≡◌, refl, ◌≢◌, ◌↔◌, Bool, true, Option, none, some, List, [], ◌∷◌, ◌++◌,
  ◌==◌, length, sort_by, if◌then◌else◌, text_le, returned, threw,
}
use aurora_ai_native.Lifecycle.{LifecycleState-discrete, goal, succeeded, ready as ready_state}
use aurora_ai_native.Budget.{
  ExecutionBudget, ExecutionBudgetUsage, objective, hold, is_valid_execution_budget_usage,
}
use aurora_ai_native.GoalGraph.Types.{
  GoalGraph, GoalGraphNode, GoalGraphEdge, all_success, GoalGraphStateSnapshot,
}
use aurora_ai_native.GoalGraph.Assess.{
  predecessor_node_ids, join, assess_node, assess_goal_graph_dependencies,
}
use aurora_ai_native.Scheduler.Types.{
  SchedulerTickInput, SchedulerPlan, planned, dispatch_limit_reached,
}
use aurora_ai_native.Scheduler.{
  plan_scheduler_tick, plan_of, valid_policy, valid_fairness, rotate_topological_order,
  count_active, calculate_capacity, dependency_ready_node_ids, propagations_from, propagation_plans,
  index_of, last, next_fairness_cursor, backpressure_reason_of, fair_order, dispatch_of,
  deferred_of, has_id,
}
use aurora_ai_native.Scheduler.Queue.{IsDistinct}
use aurora_ai_native.Scheduler.Capacity.{plan-dispatch_bounded}
use aurora_ai_native.Scheduler.Ready.{IsReleased}
use aurora_ai_native.Scheduler.Plan.{plan_never_throws, plan_names_ready, plan-dispatch_after}

abbrev node : String → GoalGraphNode
node id = record {
  node_id = id;
  lifecycle_ref = record { kind = goal; id = id };
  join_policy = all_success;
}

abbrev edge : String → String → GoalGraphEdge
edge source target = record { from_node_id = source; to_node_id = target }

abbrev graph : GoalGraph
graph = record {
  graph_id = "p1";
  tenant_id = "t1";
  correlation_id = "c1";
  nodes = node "a" ∷ node "b" ∷ node "c" ∷ node "d" ∷ [];
  edges = edge "a" "b" ∷ edge "a" "c" ∷ edge "b" "d" ∷ edge "c" "d" ∷ [];
  topological_order = "a" ∷ "b" ∷ "c" ∷ "d" ∷ [];
}

abbrev states : GoalGraphStateSnapshot
states id = if id == "a" then some succeeded else some ready_state

abbrev budget : ExecutionBudget
budget = record {
  budget_id = "b1";
  tenant_id = "t1";
  root_correlation_id = "c1";
  scope = objective;
  scope_id = "o1";
  limits = record {
    max_latency_ms = 1000;
    max_cost_micros = 1000;
    max_reasoning_units = 1000;
    max_tool_calls = 1000;
    max_concurrency = 4;
  };
  exhaustion_policy = hold;
  created_at = "2026-07-10T12:00:00Z";
}

abbrev usage : ExecutionBudgetUsage
usage = record {
  elapsed_latency_ms = 0;
  cost_micros = 0;
  reasoning_units = 0;
  tool_calls = 0;
  active_concurrency = 0;
  peak_concurrency = 0;
}

-- A tick that may send out so many nodes, and whether a cancellation is requested.
abbrev tick : ℕ → Option Bool → SchedulerTickInput
tick per_tick stop = record {
  tenant_id = "t1";
  correlation_id = "c1";
  graph = graph;
  states = states;
  budget = budget;
  budget_usage = usage;
  policy = record { max_concurrency = 4; max_dispatch_per_tick = per_tick };
  fairness = some (record { next_topological_index = 2; turn = 5 });
  cancellation_requested = stop;
}

program : Unit {0}
unfolding plan_scheduler_tick plan_of valid_policy valid_fairness rotate_topological_order
    count_active calculate_capacity dependency_ready_node_ids propagations_from propagation_plans
    index_of last next_fairness_cursor backpressure_reason_of fair_order dispatch_of deferred_of
    sort_by predecessor_node_ids join assess_node assess_goal_graph_dependencies
    is_valid_execution_budget_usage LifecycleState-discrete
program = tt

abbrev plan : ℕ → Option Bool → List String → SchedulerPlan
plan per_tick stop ready_ids =
    plan_of (tick per_tick stop) (record { next_topological_index = 2; turn = 5 }) ready_ids []

tick_plans :
    (plan_scheduler_tick text_le (tick 1 none) ≡ returned (planned (plan 1 none ("b" ∷ "c" ∷ []))))
    × ((plan 1 none ("b" ∷ "c" ∷ [])).dispatch_node_ids ≡ "c" ∷ [])
    × ((plan 1 none ("b" ∷ "c" ∷ [])).deferred_ready_node_ids ≡ "b" ∷ [])
    × ((plan 1 none ("b" ∷ "c" ∷ [])).next_fairness
        ≡ record { next_topological_index = 3; turn = 6 })
    × ((plan 1 none ("b" ∷ "c" ∷ [])).backpressure_reason ≡ dispatch_limit_reached)
unfolding program
tick_plans = (refl, refl, refl, refl, refl)

tick_all :
    plan_scheduler_tick text_le (tick 2 none) ≡ returned (planned (plan 2 none ("b" ∷ "c" ∷ [])))
unfolding program
tick_all = refl

tick_stopped :
    plan_scheduler_tick text_le (tick 2 (some true))
    ≡ returned (planned (plan 2 (some true) ("b" ∷ "c" ∷ [])))
unfolding program
tick_stopped = refl

graph-IsDistinct : IsDistinct graph.topological_order
graph-IsDistinct = (refl, (refl, (refl, (refl, tt))))

plan_never_throws_example : plan_scheduler_tick text_le (tick 1 none) ≢ threw "unknown"
plan_never_throws_example = plan_never_throws text_le (tick 1 none) "unknown"

plan_names_ready_example :
    let p = plan 1 none ("b" ∷ "c" ∷ []) in
    IsDistinct (p.dispatch_node_ids ++ p.deferred_ready_node_ids)
    × ((has_id (p.dispatch_node_ids ++ p.deferred_ready_node_ids) "b" ≡ true) ↔ (
        (has_id graph.topological_order "b" ≡ true)
        × IsReleased text_le graph states graph.nodes "b"))
plan_names_ready_example =
    plan_names_ready text_le (tick 1 none) (plan 1 none ("b" ∷ "c" ∷ [])) "b" graph-IsDistinct
      tick_plans.0

plan-dispatch_after_example : states "a" ≡ some succeeded
unfolding program
plan-dispatch_after_example =
    plan-dispatch_after text_le (tick 1 none) (plan 1 none ("b" ∷ "c" ∷ [])) "c" (node "c")
      (edge "a" "c") graph-IsDistinct tick_plans.0 refl refl refl (Memᴰ.tail (Memᴰ.head refl)) refl

plan-dispatch_bounded_example :
    let p = plan 1 none ("b" ∷ "c" ∷ []) in
    (length p.dispatch_node_ids ≤ 1)
    × (length p.dispatch_node_ids ≤ 4 - count_active graph.nodes states)
    × (length p.dispatch_node_ids ≤ 4 - 0)
plan-dispatch_bounded_example =
    plan-dispatch_bounded text_le (tick 1 none) (plan 1 none ("b" ∷ "c" ∷ [])) tick_plans.0
