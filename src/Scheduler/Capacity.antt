-- ===== src/Scheduler/Capacity.antt =====
-- How much a tick sends out, and where the next turn begins
-- (packages/control/src/scheduler/scheduler.ts).
use aurora_ai_native.Prelude.{
  ℕ, ◌+◌, ◌-◌, ◌≤◌, ◌<◌, String, ◌≡◌, refl, inl, inr, true, some, List, [], ◌∷◌, arith, length,
  length-take, Outcome-cases, Bool-cases, Option-cases, returned,
}
use aurora_ai_native.GoalGraph.Types.{GoalGraph}
use aurora_ai_native.GoalGraph.Assess.{LocaleLe}
use aurora_ai_native.Budget.{max_safe_integer}
use aurora_ai_native.Scheduler.Types.{
  SchedulerFairnessCursor, SchedulerTickInput, SchedulerPlan, planned, cancellation_requested,
  SchedulerPropagation,
}
use aurora_ai_native.Scheduler.{
  propagation_plans, dependency_ready_node_ids, index_of, next_fairness_cursor, valid_fairness,
  dispatch_of, calculate_capacity, count_active, is_requested, plan_scheduler_tick, plan_of,
  fairness_of, backpressure_reason_of, fair_order,
}

-- A planned tick is the plan of its ready nodes and propagations, under a valid cursor.
pub planned-plan_of :
    (le : LocaleLe) (input : SchedulerTickInput) (plan : SchedulerPlan)
    → plan_scheduler_tick le input ≡ returned (planned plan)
    → (ready_ids : List String) × (propagations : List SchedulerPropagation) × (plan
        ≡ plan_of input (fairness_of input) ready_ids propagations)
      × (valid_fairness (fairness_of input) input.graph ≡ true)
      × (dependency_ready_node_ids le input.graph input.states input.graph.nodes
          ≡ returned ready_ids)
unfolding plan_scheduler_tick
planned-plan_of le input plan h =
    elim (Outcome-cases (dependency_ready_node_ids le input.graph input.states input.graph.nodes)) [
      | inl (ids, e) ↦ elim (Outcome-cases (propagation_plans le input.graph input.states)) [
        | inl (plans, f) ↦ (ids, plans, ground arith, ground arith, e)
        | inr (m, f) ↦ absurd (ground arith)
      ]
      | inr (m, e) ↦ absurd (ground arith)
    ]

length-dispatch_of :
    (input : SchedulerTickInput) (order : List String)
    → length (dispatch_of input order) ≤ (calculate_capacity input).dispatch_slots
unfolding dispatch_of
length-dispatch_of input order = elim (Bool-cases (is_requested input.cancellation_requested)) [
  | inl stopped ↦ rw stopped (omega arith)
  | inr going ↦
      rw going (omega (arith, length-take (calculate_capacity input).dispatch_slots order))
]

dispatch_slots-le :
    (input : SchedulerTickInput)
    → ((calculate_capacity input).dispatch_slots ≤ input.policy.max_dispatch_per_tick)
      × ((calculate_capacity input).dispatch_slots
          ≤ input.policy.max_concurrency - count_active input.graph.nodes input.states)
      × ((calculate_capacity input).dispatch_slots
          ≤ input.budget.limits.max_concurrency - input.budget_usage.active_concurrency)
unfolding calculate_capacity
dispatch_slots-le input = omega arith

-- A planned tick sends out no more than the policy allows in a tick, no more than fits beside the
-- active nodes under the policy's concurrency, and no more than the budget's concurrency has left.
pub plan-dispatch_bounded :
    (le : LocaleLe) (input : SchedulerTickInput) (plan : SchedulerPlan)
    → plan_scheduler_tick le input ≡ returned (planned plan)
    → (length plan.dispatch_node_ids ≤ input.policy.max_dispatch_per_tick)
      × (length plan.dispatch_node_ids
          ≤ input.policy.max_concurrency - count_active input.graph.nodes input.states)
      × (length plan.dispatch_node_ids
          ≤ input.budget.limits.max_concurrency - input.budget_usage.active_concurrency)
unfolding plan_of
plan-dispatch_bounded le input plan h =
    let (ready_ids, propagations, e, valid, r) = planned-plan_of le input plan h in
    let order = fair_order input.graph (fairness_of input) ready_ids in
    rw e (omega (arith, length-dispatch_of input order, dispatch_slots-le input))

-- While a cancellation is requested a planned tick sends nothing out, and says so.
pub plan_cancelled :
    (le : LocaleLe) (input : SchedulerTickInput) (plan : SchedulerPlan)
    → input.cancellation_requested ≡ some true
    → plan_scheduler_tick le input ≡ returned (planned plan)
    → (plan.dispatch_node_ids ≡ []) × (plan.backpressure_reason ≡ cancellation_requested)
unfolding plan_of dispatch_of backpressure_reason_of
plan_cancelled le input plan c h =
    let (ready_ids, propagations, e, valid, r) = planned-plan_of le input plan h in
    rw (e, c) (refl, refl)

index_of-lt : (ids : List String) (id : String) {i : ℕ} → index_of ids id ≡ some i → i < length ids
unfolding index_of
index_of-lt [] id h = ground arith
index_of-lt (other ∷ ids) id h = elim (Option-cases (index_of ids id)) [
  | inl absent ↦ ground arith
  | inr (j, found) ↦ let below = index_of-lt ids id found in ground arith
]

next_fairness-valid :
    (graph : GoalGraph) (current : SchedulerFairnessCursor) (dispatched : List String)
    → valid_fairness current graph ≡ true
    → current.turn < max_safe_integer
    → valid_fairness (next_fairness_cursor graph current dispatched) graph ≡ true
unfolding valid_fairness next_fairness_cursor
next_fairness-valid graph current dispatched v t = ground arith

next_fairness-turn :
    (graph : GoalGraph) (current : SchedulerFairnessCursor) (dispatched : List String)
    → (next_fairness_cursor graph current dispatched).turn ≡ current.turn + 1
unfolding next_fairness_cursor
next_fairness-turn graph current dispatched = ground arith

-- The cursor that a planned tick leaves is valid for the same graph, as long as the turns can be
-- counted: a next tick with it is not refused for its cursor.
pub plan-next_fairness_valid :
    (le : LocaleLe) (input : SchedulerTickInput) (plan : SchedulerPlan)
    → plan_scheduler_tick le input ≡ returned (planned plan)
    → (fairness_of input).turn < max_safe_integer
    → (valid_fairness plan.next_fairness input.graph ≡ true)
      × (plan.next_fairness.turn ≡ (fairness_of input).turn + 1)
unfolding plan_of
plan-next_fairness_valid le input plan h t =
    let (ready_ids, propagations, e, valid, r) = planned-plan_of le input plan h in
    let dispatched = dispatch_of input (fair_order input.graph (fairness_of input) ready_ids) in
    rw e (
      next_fairness-valid input.graph (fairness_of input) dispatched valid t,
      next_fairness-turn input.graph (fairness_of input) dispatched,
    )
