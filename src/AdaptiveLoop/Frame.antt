-- ===== src/AdaptiveLoop/Frame.antt =====
-- The checks of a control frame and the start of a loop (services/agent-runtime/src/loop/controller.ts).
use aurora_ai_native.Prelude.{
  ℕ, String, Bool, true, false, ◌&&◌, ◌||◌, not, none, List, [], ◌∷◌, ◌==◌, all, contains, leb,
  if◌then◌else◌, non_empty, trimmed_length, is_identifier,
}
use aurora_ai_native.Budget.{
  ExecutionBudgetState, exhausted, ExecutionBudgetAction, apply, stop_optional, hold,
  positive_safe_integer, max_safe_integer,
}
use aurora_ai_native.WorkerPool.Types.{
  AgentWorkJustification, iterative_observe_plan_required, specialist_coordination_required,
  WorkerState, active,
}
use aurora_ai_native.AdaptiveLoop.Types.{
  at_observe, BoundedAdaptiveLoopConfig, RouteFamily, model_family, specialist_family,
  computer_use_planning_family, SelectedRoute, RouteProjection, selected_route, abstained_route,
  PlanStatus, plan_ready_status, plan_blocked_status, AdaptiveLoopControlFrame,
  AdaptiveLoopSnapshot, StartAdaptiveLoopInput, invalid_config, invalid_control_frame,
  route_not_selected, route_not_agent_suitable, plan_is_blocked, budget_not_available,
  StartAdaptiveLoopResult, loop_started, start_rejected,
}

unfoldable pub valid_identifier : String → Bool
valid_identifier text = is_identifier 200 text

unfoldable pub valid_reference : String → Bool
valid_reference text = leb 1 (trimmed_length text) && leb (trimmed_length text) 512

abbrev pub valid_non_negative_safe_integer : ℕ → Bool
valid_non_negative_safe_integer n = leb n max_safe_integer

unfoldable pub valid_config : BoundedAdaptiveLoopConfig → Bool
valid_config config =
    positive_safe_integer config.max_iterations
    && positive_safe_integer config.max_elapsed_ms
    && positive_safe_integer config.max_model_calls
    && positive_safe_integer config.max_tool_planning_calls
    && positive_safe_integer config.max_repair_attempts

abbrev pub is_agent_route_family : RouteFamily → Bool
is_agent_route_family model_family = true
is_agent_route_family specialist_family = true
is_agent_route_family computer_use_planning_family = true
is_agent_route_family _ = false

unfoldable pub same_context : String → String → AdaptiveLoopControlFrame → Bool
same_context tenant_id correlation_id frame =
    frame.worker.tenant_id == tenant_id
    && frame.worker.correlation_id == correlation_id
    && frame.capability_plan.tenant_id == tenant_id
    && frame.capability_plan.correlation_id == correlation_id
    && frame.budget.tenant_id == tenant_id
    && frame.budget.correlation_id == correlation_id

-- `new Set(texts).size === texts.length`
unfoldable pub all_distinct : List String → Bool
all_distinct [] = true
all_distinct (text ∷ texts) = not (contains texts text) && all_distinct texts

unfoldable pub valid_frame_shape : AdaptiveLoopControlFrame → Bool
valid_frame_shape frame =
    valid_non_negative_safe_integer frame.now_epoch_ms
    && frame.worker.authority_semantics == "AGENT_RUNTIME_OWNERSHIP_ONLY_NO_AUTHORITY"
    && not frame.worker.authorizes_execution
    && not frame.worker.can_invoke_tools
    && non_empty frame.worker.task_id
    && valid_non_negative_safe_integer frame.worker.generation
    && frame.capability_plan.source == "W04_CAPABILITY_PLAN"
    && not frame.capability_plan.authorizes_execution
    && non_empty frame.capability_plan.registry_version
    && all valid_identifier frame.capability_plan.selected_capability_ids
    && all_distinct frame.capability_plan.selected_capability_ids
    && frame.budget.source == "W04_EXECUTION_BUDGET_ASSESSMENT"
    && non_empty frame.budget.budget_id
    && frame.budget.mandatory_safety_validation_required
    && not frame.budget.can_skip_mandatory_validation
    && not frame.budget.authorizes_execution
    && valid_non_negative_safe_integer frame.budget.remaining.latency_ms
    && valid_non_negative_safe_integer frame.budget.remaining.reasoning_units
    && valid_non_negative_safe_integer frame.budget.remaining.tool_calls

abbrev pub worker_is_active : WorkerState → Bool
worker_is_active active = true
worker_is_active _ = false

abbrev pub is_iterative : AgentWorkJustification → Bool
is_iterative iterative_observe_plan_required = true
is_iterative specialist_coordination_required = false

unfoldable pub worker_usable_for_loop : AdaptiveLoopControlFrame → Bool
worker_usable_for_loop frame =
    worker_is_active frame.worker.state
    && frame.worker.owner_present
    && not frame.worker.cancel_requested
    && leb 1 frame.worker.generation
    && is_iterative frame.worker.justification

abbrev pub is_exhausted : ExecutionBudgetState → Bool
is_exhausted exhausted = true
is_exhausted _ = false

abbrev pub stops_or_holds : ExecutionBudgetAction → Bool
stops_or_holds (apply stop_optional) = true
stops_or_holds (apply hold) = true
stops_or_holds _ = false

unfoldable pub budget_available : AdaptiveLoopControlFrame → Bool
budget_available frame =
    not (is_exhausted frame.budget.state)
    && not (stops_or_holds frame.budget.action)
    && leb 1 frame.budget.remaining.latency_ms

abbrev pub plan_is_ready : PlanStatus → Bool
plan_is_ready plan_ready_status = true
plan_is_ready plan_blocked_status = false

abbrev pub first_snapshot : StartAdaptiveLoopInput → SelectedRoute → AdaptiveLoopSnapshot
first_snapshot input route = record {
  loop_id = input.loop_id;
  tenant_id = route.tenant_id;
  correlation_id = route.correlation_id;
  worker_task_id = input.frame.worker.task_id;
  worker_generation = input.frame.worker.generation;
  phase = at_observe;
  strategy = record {
    family = route.family;
    strategy_id = route.strategy_id;
    strategy_version = route.strategy_version;
  };
  capability_registry_version = input.frame.capability_plan.registry_version;
  budget_id = input.frame.budget.budget_id;
  config = input.config;
  usage = record { iterations = 0; model_calls = 0; tool_planning_calls = 0; repair_attempts = 0 };
  started_at_epoch_ms = input.frame.now_epoch_ms;
  last_transition_epoch_ms = input.frame.now_epoch_ms;
  last_evidence_reference = none;
  planned_actions = [];
  terminal_reason = none;
}

abbrev pub start_on_route : StartAdaptiveLoopInput → RouteProjection → StartAdaptiveLoopResult
start_on_route input abstained_route = start_rejected route_not_selected
start_on_route input (selected_route route) =
    if not (route.source == "W05_B_INTELLIGENCE_ROUTE")
      || route.authorizes_execution
      || not route.downstream_execution_still_requires_current_validation
      || not (same_context route.tenant_id route.correlation_id input.frame)
    then start_rejected invalid_control_frame
    else if not (is_agent_route_family route.family)
        || not (valid_identifier route.strategy_id)
        || not (valid_identifier route.strategy_version)
        || not (worker_usable_for_loop input.frame)
    then start_rejected route_not_agent_suitable
    else if not (plan_is_ready input.frame.capability_plan.status)
    then start_rejected plan_is_blocked
    else if not (budget_available input.frame)
    then start_rejected budget_not_available
    else loop_started (first_snapshot input route)

unfoldable pub start_adaptive_loop : StartAdaptiveLoopInput → StartAdaptiveLoopResult
start_adaptive_loop input =
    if not (valid_config input.config) || not (valid_identifier input.loop_id)
    then start_rejected invalid_config
    else if not (valid_frame_shape input.frame)
    then start_rejected invalid_control_frame
    else start_on_route input input.route
