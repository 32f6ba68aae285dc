-- ===== src/Scheduler.antt =====
-- packages/control/src/scheduler/scheduler.ts: one tick of the scheduler plans which ready nodes of a
-- goal graph go out next. `assessGoalGraphDependencies` may throw, so a tick is an `Outcome`.
pub mod Types
pub mod Queue
pub mod Capacity
pub mod Ready
pub mod Plan
mod Tests
use aurora_ai_native.Prelude.{
  ℕ, suc, ◌+◌, ◌-◌, ◌%◌, min, String, Bool, true, false, ◌&&◌, ◌||◌, not, Option, none, some, List,
  [], ◌∷◌, ◌++◌, ◌==◌, length, take, drop, filter, any, push_if, is_empty, Outcome, sort_by, ltb,
  leb, eqb, if◌then◌else◌, or_else, returned, threw,
}
use aurora_ai_native.Lifecycle.{ready as ready_state, active}
use aurora_ai_native.Budget.{
  is_valid_execution_budget_usage, max_safe_integer, positive_safe_integer,
}
use aurora_ai_native.GoalGraph.Types.{
  GoalGraph, GoalGraphNode, GoalGraphStateSnapshot, GoalGraphDependencyDisposition, ready, waiting,
  propagate_failure, propagate_cancellation, GoalGraphDependencyAssessment,
}
use aurora_ai_native.GoalGraph.Assess.{LocaleLe, state_is, assess_goal_graph_dependencies}
use Types.{
  SchedulerPolicy, SchedulerFairnessCursor, SchedulerTickInput, SchedulerCapacity,
  SchedulerPropagation, SchedulerBackpressureReason, no_backpressure, cancellation_requested,
  no_dependency_ready_nodes, policy_concurrency_exhausted, budget_concurrency_exhausted,
  dispatch_limit_reached, SchedulerPlan, SchedulerRejectionCode, tenant_mismatch,
  correlation_mismatch, budget_tenant_mismatch, budget_correlation_mismatch, invalid_policy,
  invalid_fairness_cursor, invalid_budget_usage, SchedulerTickResult, planned, rejected,
}

abbrev pub max_scheduler_concurrency : ℕ
max_scheduler_concurrency = 256

unfoldable pub valid_policy : SchedulerPolicy → Bool
valid_policy policy =
    positive_safe_integer policy.max_concurrency
    && leb policy.max_concurrency max_scheduler_concurrency
    && positive_safe_integer policy.max_dispatch_per_tick
    && leb policy.max_dispatch_per_tick policy.max_concurrency

abbrev pub initial_fairness : SchedulerFairnessCursor
initial_fairness = record { next_topological_index = 0; turn = 0 }

unfoldable pub valid_fairness : SchedulerFairnessCursor → GoalGraph → Bool
valid_fairness fairness graph =
    (if eqb (length graph.topological_order) 0
      then eqb fairness.next_topological_index 0
      else ltb fairness.next_topological_index (length graph.topological_order))
    && leb fairness.turn max_safe_integer

unfoldable pub rotate_topological_order : GoalGraph → ℕ → List String
rotate_topological_order graph start =
    if eqb (length graph.topological_order) 0
    then []
    else drop start graph.topological_order ++ take start graph.topological_order

unfoldable pub count_active : List GoalGraphNode → GoalGraphStateSnapshot → ℕ
count_active [] states = 0
count_active (node ∷ nodes) states =
    count_active nodes states + (if state_is active (states node.node_id) then 1 else 0)

-- `Math.max(0, a - b)` is the truncated difference.
unfoldable pub calculate_capacity : SchedulerTickInput → SchedulerCapacity
calculate_capacity input = record {
  active_graph_nodes = active_nodes;
  policy_slots = policy_slots;
  budget_slots = budget_slots;
  dispatch_slots = min (min policy_slots budget_slots) input.policy.max_dispatch_per_tick;
}
  where
    active_nodes : ℕ
    active_nodes = count_active input.graph.nodes input.states

    policy_slots : ℕ
    policy_slots = input.policy.max_concurrency - active_nodes

    budget_slots : ℕ
    budget_slots = input.budget.limits.max_concurrency - input.budget_usage.active_concurrency

infixl 5 ◌>>=◌
abbrev ◌>>=◌ {ℓ κ} : {A : Type ℓ} {B : Type κ} → Outcome A → (A → Outcome B) → Outcome B
returned a >>= f = f a
threw message >>= f = threw message

abbrev is_ready : GoalGraphDependencyDisposition → Bool
is_ready ready = true
is_ready _ = false

abbrev is_propagation : GoalGraphDependencyDisposition → Bool
is_propagation propagate_failure = true
is_propagation propagate_cancellation = true
is_propagation _ = false

module _ (le : LocaleLe) (graph : GoalGraph) (states : GoalGraphStateSnapshot) where
  abbrev assess : GoalGraphNode → Outcome GoalGraphDependencyAssessment
  assess node = assess_goal_graph_dependencies le graph node.node_id states

  -- dependencyReadyNodeIds, over the nodes that are left. The code collects the ids in a set, which is
  -- only asked for membership.
  unfoldable pub dependency_ready_node_ids : List GoalGraphNode → Outcome (List String)
  dependency_ready_node_ids [] = returned []
  dependency_ready_node_ids (node ∷ nodes) =
      let rest = dependency_ready_node_ids nodes in
      if not (state_is ready_state (states node.node_id)) then rest else do
        assessment ← assess node
        ids ← rest
        returned (push_if (is_ready assessment.disposition) node.node_id ids)

  -- The loop of propagationPlans.
  unfoldable pub propagations_from : List GoalGraphNode → Outcome (List SchedulerPropagation)
  propagations_from [] = returned []
  propagations_from (node ∷ nodes) = do
    assessment ← assess node
    plans ← propagations_from nodes
    returned (
        push_if (is_propagation assessment.disposition)
          (record {
            node_id = node.node_id;
            disposition = assessment.disposition;
            predecessor_node_ids = assessment.predecessor_node_ids;
          })
          plans)

  unfoldable pub propagation_plans : Outcome (List SchedulerPropagation)
  propagation_plans = do
    plans ← propagations_from graph.nodes
    returned (sort_by (λ a b. le a.node_id b.node_id) plans)

-- `ids.includes(id)`, and the test of a set of ids.
abbrev pub has_id : List String → String → Bool
has_id ids id = any (λ other. other == id) ids

unfoldable pub index_of : List String → String → Option ℕ
index_of [] id = none
index_of (other ∷ ids) id =
    let rest = index_of ids id in
    if other == id then some 0 else elim rest [ none ↦ none | some i ↦ some (suc i) ]

unfoldable pub last : List String → Option String
last [] = none
last (id ∷ ids) = let rest = last ids in elim ids [ [] ↦ some id | other ∷ others ↦ rest ]

-- `(lastIndex + 1) % length`, where an id that is not there has the index -1.
abbrev index_after : GoalGraph → Option ℕ → ℕ
index_after graph none = 0 % length graph.topological_order
index_after graph (some i) = (i + 1) % length graph.topological_order

abbrev cursor_at : GoalGraph → SchedulerFairnessCursor → Option String → SchedulerFairnessCursor
cursor_at graph current none = record current { turn = current.turn + 1 }
cursor_at graph current (some id) = record {
  next_topological_index = index_after graph (index_of graph.topological_order id);
  turn = current.turn + 1;
}

unfoldable pub next_fairness_cursor :
    GoalGraph → SchedulerFairnessCursor → List String → SchedulerFairnessCursor
next_fairness_cursor graph current dispatched =
    if eqb (length graph.topological_order) 0 || is_empty dispatched
    then record current { turn = current.turn + 1 }
    else cursor_at graph current (last dispatched)

abbrev pub is_requested : Option Bool → Bool
is_requested none = false
is_requested (some b) = b

unfoldable pub backpressure_reason_of :
    SchedulerTickInput → SchedulerCapacity → ℕ → ℕ → SchedulerBackpressureReason
backpressure_reason_of input capacity ready_count dispatch_count =
    if is_requested input.cancellation_requested
    then cancellation_requested
    else if eqb ready_count 0
    then no_dependency_ready_nodes
    else if eqb capacity.policy_slots 0
    then policy_concurrency_exhausted
    else if eqb capacity.budget_slots 0
    then budget_concurrency_exhausted
    else if ltb dispatch_count ready_count
    then dispatch_limit_reached
    else no_backpressure

-- The ready nodes in the order of the turn.
unfoldable pub fair_order : GoalGraph → SchedulerFairnessCursor → List String → List String
fair_order graph fairness ready_ids =
    filter (has_id ready_ids) (rotate_topological_order graph fairness.next_topological_index)

unfoldable pub dispatch_of : SchedulerTickInput → List String → List String
dispatch_of input order =
    if is_requested input.cancellation_requested
    then []
    else take (calculate_capacity input).dispatch_slots order

unfoldable pub deferred_of : List String → List String → List String
deferred_of dispatched order = filter (λ id. not (has_id dispatched id)) order

-- The plan of a tick whose ready nodes and propagations are known.
unfoldable pub plan_of :
    SchedulerTickInput
    → SchedulerFairnessCursor
    → List String
    → List SchedulerPropagation
    → SchedulerPlan
plan_of input fairness ready_ids propagations =
    let order = fair_order input.graph fairness ready_ids in
    let dispatched = dispatch_of input order in
    record {
      tenant_id = input.tenant_id;
      correlation_id = input.correlation_id;
      graph_id = input.graph.graph_id;
      dispatch_node_ids = dispatched;
      deferred_ready_node_ids = deferred_of dispatched order;
      propagations = propagations;
      capacity = calculate_capacity input;
      backpressure_reason =
          backpressure_reason_of input (calculate_capacity input) (length order)
            (length dispatched);
      next_fairness = next_fairness_cursor input.graph fairness dispatched;
    }

abbrev pub fairness_of : SchedulerTickInput → SchedulerFairnessCursor
fairness_of input = or_else input.fairness initial_fairness

unfoldable pub plan_scheduler_tick : LocaleLe → SchedulerTickInput → Outcome SchedulerTickResult
plan_scheduler_tick le input =
    if not (input.graph.tenant_id == input.tenant_id)
    then returned (rejected tenant_mismatch)
    else if not (input.graph.correlation_id == input.correlation_id)
    then returned (rejected correlation_mismatch)
    else if not (input.budget.tenant_id == input.tenant_id)
    then returned (rejected budget_tenant_mismatch)
    else if not (input.budget.root_correlation_id == input.correlation_id)
    then returned (rejected budget_correlation_mismatch)
    else if not (valid_policy input.policy)
    then returned (rejected invalid_policy)
    else if not (is_valid_execution_budget_usage input.budget_usage)
    then returned (rejected invalid_budget_usage)
    else if not (valid_fairness (fairness_of input) input.graph)
    then returned (rejected invalid_fairness_cursor)
    else do
      ready_ids ← dependency_ready_node_ids le input.graph input.states input.graph.nodes
      propagations ← propagation_plans le input.graph input.states
      returned (planned (plan_of input (fairness_of input) ready_ids propagations))
