-- ===== src/Budget.antt =====
-- packages/control/src/budget/budget.ts: limits, usage and child budgets of an execution.
-- Quantities are natural numbers, so `Number.isSafeInteger(n) && n >= 0` is the bound `2 ^ 53 - 1`.
-- A sum of two safe integers is exact or, where it is rounded, not safe, so natural addition decides
-- the same.
mod Types
pub mod Project
pub mod Child
pub mod Account
mod Tests
pub use Types.*
use aurora_ai_native.Prelude.{
  ℕ, ◌+◌, ◌-◌, max, Bool, true, ◌&&◌, ◌||◌, not, Option, none, some, List, [], push_if, is_empty,
  Outcome, ltb, leb, if◌then◌else◌, is_none, or_else, non_empty, DateParse, returned, threw,
}

-- Number.MAX_SAFE_INTEGER
abbrev pub max_safe_integer : ℕ
max_safe_integer = 9007199254740991

abbrev pub non_negative_safe_integer : ℕ → Bool
non_negative_safe_integer n = leb n max_safe_integer

abbrev pub positive_safe_integer : ℕ → Bool
positive_safe_integer n = leb n max_safe_integer && ltb 0 n

unfoldable pub initial_execution_budget_usage : ExecutionBudgetUsage
initial_execution_budget_usage = record {
  elapsed_latency_ms = 0;
  cost_micros = 0;
  reasoning_units = 0;
  tool_calls = 0;
  active_concurrency = 0;
  peak_concurrency = 0;
}

unfoldable pub is_valid_execution_budget_limits : ExecutionBudgetLimits → Bool
is_valid_execution_budget_limits limits =
    positive_safe_integer limits.max_latency_ms
    && positive_safe_integer limits.max_cost_micros
    && positive_safe_integer limits.max_reasoning_units
    && positive_safe_integer limits.max_tool_calls
    && positive_safe_integer limits.max_concurrency

unfoldable pub is_valid_execution_budget_usage : ExecutionBudgetUsage → Bool
is_valid_execution_budget_usage usage =
    non_negative_safe_integer usage.elapsed_latency_ms
    && non_negative_safe_integer usage.cost_micros
    && non_negative_safe_integer usage.reasoning_units
    && non_negative_safe_integer usage.tool_calls
    && non_negative_safe_integer usage.active_concurrency
    && non_negative_safe_integer usage.peak_concurrency
    && leb usage.active_concurrency usage.peak_concurrency

abbrev valid_or_absent : Option ℕ → Bool
valid_or_absent none = true
valid_or_absent (some n) = non_negative_safe_integer n

unfoldable pub is_valid_usage_delta : ExecutionBudgetUsageDelta → Bool
is_valid_usage_delta delta =
    valid_or_absent delta.elapsed_latency_ms
    && valid_or_absent delta.cost_micros
    && valid_or_absent delta.reasoning_units
    && valid_or_absent delta.tool_calls
    && valid_or_absent delta.active_concurrency

unfoldable pub create_execution_budget :
    DateParse → CreateExecutionBudgetInput → ExecutionBudgetCreateResult
create_execution_budget date_parse input =
    if not (non_empty input.budget_id) || not (non_empty input.scope_id)
    then create_rejected invalid_identity
    else if is_none (date_parse input.created_at)
    then create_rejected invalid_timestamp
    else if not (is_valid_execution_budget_limits input.limits)
    then create_rejected invalid_limits
    else created (record {
      budget_id = input.budget_id;
      tenant_id = input.tenant_id;
      root_correlation_id = input.root_correlation_id;
      scope = input.scope;
      scope_id = input.scope_id;
      limits = input.limits;
      exhaustion_policy = input.exhaustion_policy;
      created_at = input.created_at;
    })

-- `Math.max(0, limit - used)` is the truncated difference.
unfoldable pub remaining_from :
    ExecutionBudgetLimits → ExecutionBudgetUsage → ExecutionBudgetRemaining
remaining_from limits usage = record {
  latency_ms = limits.max_latency_ms - usage.elapsed_latency_ms;
  cost_micros = limits.max_cost_micros - usage.cost_micros;
  reasoning_units = limits.max_reasoning_units - usage.reasoning_units;
  tool_calls = limits.max_tool_calls - usage.tool_calls;
  concurrency_slots = limits.max_concurrency - usage.active_concurrency;
}

unfoldable pub utilization_from :
    ExecutionBudgetLimits → ExecutionBudgetUsage → ExecutionBudgetUtilization
utilization_from limits usage = record {
  latency = (usage.elapsed_latency_ms, limits.max_latency_ms);
  cost = (usage.cost_micros, limits.max_cost_micros);
  reasoning = (usage.reasoning_units, limits.max_reasoning_units);
  tool_calls = (usage.tool_calls, limits.max_tool_calls);
  concurrency = (usage.active_concurrency, limits.max_concurrency);
}

unfoldable pub exhausted_dimensions :
    ExecutionBudgetLimits → ExecutionBudgetUsage → List ExecutionBudgetDimension
exhausted_dimensions limits usage =
    push_if (leb limits.max_latency_ms usage.elapsed_latency_ms) latency_ms (
      push_if (leb limits.max_cost_micros usage.cost_micros) cost_micros (
        push_if (leb limits.max_reasoning_units usage.reasoning_units) reasoning_units (
          push_if (leb limits.max_tool_calls usage.tool_calls) tool_calls
            (push_if (leb limits.max_concurrency usage.active_concurrency) concurrency []))))

abbrev exhausted_state : ExecutionBudgetExhaustionPolicy → ExecutionBudgetState
exhausted_state degrade_optional = degraded
exhausted_state _ = exhausted

-- What assessExecutionBudget returns of a valid usage.
unfoldable pub assessment_of : ExecutionBudget → ExecutionBudgetUsage → ExecutionBudgetAssessment
assessment_of budget usage =
    let dims = exhausted_dimensions budget.limits usage in
    record {
      budget_id = budget.budget_id;
      state = if is_empty dims then within_budget else exhausted_state budget.exhaustion_policy;
      action = if is_empty dims then continue_optional else apply budget.exhaustion_policy;
      exhausted_dimensions = dims;
      remaining = remaining_from budget.limits usage;
      utilization = utilization_from budget.limits usage;
    }

unfoldable pub assess_execution_budget :
    ExecutionBudget → ExecutionBudgetUsage → Outcome ExecutionBudgetAssessment
assess_execution_budget budget usage =
    if not (is_valid_execution_budget_usage usage)
    then threw "ExecutionBudget usage must be finite, non-negative safe integers."
    else returned (assessment_of budget usage)

-- The sums of projectUsage, before the result is validated.
unfoldable pub projected_sums :
    ExecutionBudgetUsage → ExecutionBudgetUsageDelta → ExecutionBudgetUsage
projected_sums usage delta =
    let active = or_else delta.active_concurrency usage.active_concurrency in
    record {
      elapsed_latency_ms = usage.elapsed_latency_ms + or_else delta.elapsed_latency_ms 0;
      cost_micros = usage.cost_micros + or_else delta.cost_micros 0;
      reasoning_units = usage.reasoning_units + or_else delta.reasoning_units 0;
      tool_calls = usage.tool_calls + or_else delta.tool_calls 0;
      active_concurrency = active;
      peak_concurrency = max usage.peak_concurrency active;
    }

unfoldable pub project_usage :
    ExecutionBudgetUsage → ExecutionBudgetUsageDelta → Option ExecutionBudgetUsage
project_usage usage delta =
    if not (is_valid_execution_budget_usage usage) || not (is_valid_usage_delta delta)
    then none
    else if is_valid_execution_budget_usage (projected_sums usage delta)
    then some (projected_sums usage delta)
    else none

unfoldable pub exceeded_dimensions :
    ExecutionBudgetLimits → ExecutionBudgetUsage → List ExecutionBudgetDimension
exceeded_dimensions limits usage =
    push_if (ltb limits.max_latency_ms usage.elapsed_latency_ms) latency_ms (
      push_if (ltb limits.max_cost_micros usage.cost_micros) cost_micros (
        push_if (ltb limits.max_reasoning_units usage.reasoning_units) reasoning_units (
          push_if (ltb limits.max_tool_calls usage.tool_calls) tool_calls
            (push_if (ltb limits.max_concurrency usage.active_concurrency) concurrency []))))

-- `assessExecutionBudget` may throw, and so may what calls it.
abbrev with_assessment {ℓ} :
    {A : Type ℓ} → (ExecutionBudgetAssessment → A) → Outcome ExecutionBudgetAssessment → Outcome A
with_assessment f (returned a) = returned (f a)
with_assessment f (threw message) = threw message

abbrev projection : ExecutionBudget → Option ExecutionBudgetUsage → Outcome BudgetProjectionResult
projection budget none = returned (projection_rejected invalid_delta)
projection budget (some projected) =
    if not (is_empty (exceeded_dimensions budget.limits projected))
    then returned (
        constrained budget.exhaustion_policy projected
          (exceeded_dimensions budget.limits projected))
    else with_assessment (fits projected) (assess_execution_budget budget projected)

unfoldable pub project_optional_budget_usage :
    ExecutionBudget
    → ExecutionBudgetUsage
    → ExecutionBudgetUsageDelta
    → Outcome BudgetProjectionResult
project_optional_budget_usage budget usage delta =
    if not (is_valid_execution_budget_usage usage)
    then returned (projection_rejected invalid_usage)
    else if not (is_valid_usage_delta delta)
    then returned (projection_rejected invalid_delta)
    else projection budget (project_usage usage delta)

abbrev recording : ExecutionBudget → Option ExecutionBudgetUsage → Outcome BudgetUsageRecordResult
recording budget none = returned (record_rejected invalid_delta)
recording budget (some usage) =
    with_assessment (recorded usage) (assess_execution_budget budget usage)

unfoldable pub record_observed_budget_usage :
    ExecutionBudget
    → ExecutionBudgetUsage
    → ExecutionBudgetUsageDelta
    → Outcome BudgetUsageRecordResult
record_observed_budget_usage budget usage delta =
    if not (is_valid_execution_budget_usage usage)
    then returned (record_rejected invalid_usage)
    else if not (is_valid_usage_delta delta)
    then returned (record_rejected invalid_delta)
    else recording budget (project_usage usage delta)

unfoldable pub child_constraint_dimensions :
    ExecutionBudgetLimits
    → ChildBudgetRequest
    → ExecutionBudgetRemaining
    → List ExecutionBudgetDimension
child_constraint_dimensions parent_limits request remaining =
    push_if (ltb remaining.latency_ms request.limits.max_latency_ms) latency_ms (
      push_if (ltb remaining.cost_micros request.limits.max_cost_micros) cost_micros (
        push_if (ltb remaining.reasoning_units request.limits.max_reasoning_units) reasoning_units (
          push_if (ltb remaining.tool_calls request.limits.max_tool_calls) tool_calls (
            push_if (ltb parent_limits.max_concurrency request.limits.max_concurrency) concurrency
              []))))

abbrev pub child_scope : ChildScope → ExecutionBudgetScope
child_scope child_goal = goal
child_scope child_task = task

unfoldable pub derive_child_execution_budget :
    DateParse
    → ExecutionBudget
    → ExecutionBudgetUsage
    → ChildBudgetRequest
    → ChildBudgetDerivationResult
derive_child_execution_budget date_parse parent parent_usage request =
    let dims =
      child_constraint_dimensions parent.limits request
        (remaining_from parent.limits parent_usage) in
    if not (is_valid_execution_budget_usage parent_usage)
      || not (is_valid_execution_budget_limits request.limits)
      || not (non_empty request.budget_id)
      || not (non_empty request.scope_id)
      || is_none (date_parse request.created_at)
    then child_rejected invalid_request []
    else if not (is_empty dims)
    then child_rejected parent_budget_insufficient dims
    else derived (record {
      budget_id = request.budget_id;
      tenant_id = parent.tenant_id;
      root_correlation_id = parent.root_correlation_id;
      scope = child_scope request.scope;
      scope_id = request.scope_id;
      limits = request.limits;
      exhaustion_policy = or_else request.exhaustion_policy parent.exhaustion_policy;
      created_at = request.created_at;
    })
