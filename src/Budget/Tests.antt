-- ===== src/Budget/Tests.antt =====
-- A budget, its use and a child of it, and the theorems at them.
use aurora_ai_native.Prelude.{
  ℕ, ◌<◌, ◌≡◌, refl, ◌≢◌, ◌↔◌, true, none, some, [], ◌∷◌, arith, non_empty, DateParse, returned,
}
use aurora_ai_native.Budget.{
  ExecutionBudget, ExecutionBudgetLimits, ExecutionBudgetUsage, ExecutionBudgetUsageDelta,
  objective, task, hold, ChildBudgetRequest, child_task, derived, derive_child_execution_budget,
  projected_sums, project_usage, project_optional_budget_usage, record_observed_budget_usage, fits,
  assessment_of, assess_execution_budget, exceeded_dimensions, exhausted_dimensions,
  is_valid_execution_budget_usage, is_valid_execution_budget_limits, is_valid_usage_delta,
  remaining_from, utilization_from, child_constraint_dimensions, initial_execution_budget_usage,
  create_execution_budget,
}
use aurora_ai_native.Budget.Project.{IsWithin, IsProjection, project-fits_iff}
use aurora_ai_native.Budget.Child.{IsCovered, derive_child-IsCovered, child_usage-fits}
use aurora_ai_native.Budget.Account.{
  ExecutionBudgetDimension-discrete, record_all, IsSumOf, record_all-IsSumOf,
}

abbrev limits_of : ℕ → ExecutionBudgetLimits
limits_of n = record {
  max_latency_ms = n;
  max_cost_micros = n;
  max_reasoning_units = n;
  max_tool_calls = n;
  max_concurrency = n;
}

abbrev budget : ExecutionBudget
budget = record {
  budget_id = "b1";
  tenant_id = "t1";
  root_correlation_id = "c1";
  scope = objective;
  scope_id = "o1";
  limits = limits_of 100;
  exhaustion_policy = hold;
  created_at = "2026-07-10T12:00:00Z";
}

abbrev used : ℕ → ExecutionBudgetUsage
used n = record {
  elapsed_latency_ms = n;
  cost_micros = n;
  reasoning_units = n;
  tool_calls = n;
  active_concurrency = 2;
  peak_concurrency = 2;
}

abbrev delta : ℕ → ExecutionBudgetUsageDelta
delta n = record {
  elapsed_latency_ms = some n;
  cost_micros = some n;
  reasoning_units = none;
  tool_calls = some 1;
  active_concurrency = some 3;
}

abbrev request : ChildBudgetRequest
request = record {
  budget_id = "b2";
  scope = child_task;
  scope_id = "k1";
  limits = limits_of 50;
  exhaustion_policy = none;
  created_at = "2026-07-10T12:00:00Z";
}

abbrev child : ExecutionBudget
child = record {
  budget_id = "b2";
  tenant_id = "t1";
  root_correlation_id = "c1";
  scope = task;
  scope_id = "k1";
  limits = limits_of 50;
  exhaustion_policy = hold;
  created_at = "2026-07-10T12:00:00Z";
}

abbrev parse : DateParse
parse text = some 0

program : Unit {0}
unfolding project_optional_budget_usage project_usage projected_sums record_observed_budget_usage
    assess_execution_budget assessment_of exceeded_dimensions exhausted_dimensions remaining_from
    utilization_from is_valid_execution_budget_usage is_valid_execution_budget_limits
    is_valid_usage_delta derive_child_execution_budget child_constraint_dimensions non_empty
    initial_execution_budget_usage create_execution_budget record_all
    ExecutionBudgetDimension-discrete
program = tt

derived_example : derive_child_execution_budget parse budget (used 40) request ≡ derived child
unfolding program
derived_example = refl

IsProjection_example :
    (n : ℕ) → n < 1000 → IsProjection (used 40) (delta n) (projected_sums (used 40) (delta n))
unfolding program
IsProjection_example n h = ground arith

project-fits_iff_example :
    (project_optional_budget_usage budget (used 40) (delta 60)
      ≡ returned (
          fits
            (projected_sums (used 40) (delta 60))
            (assessment_of budget (projected_sums (used 40) (delta 60)))))
    ↔ IsProjection (used 40) (delta 60) (projected_sums (used 40) (delta 60))
      × IsWithin budget.limits (projected_sums (used 40) (delta 60))
      × (assessment_of budget (projected_sums (used 40) (delta 60))
          ≡ assessment_of budget (projected_sums (used 40) (delta 60)))
project-fits_iff_example =
    project-fits_iff budget (used 40) (delta 60) (projected_sums (used 40) (delta 60))
      (assessment_of budget (projected_sums (used 40) (delta 60)))

over_limit : ¬ IsWithin budget.limits (projected_sums (used 40) (delta 61))
unfolding projected_sums
over_limit w = omega arith

derive_child-IsCovered_example :
    (child.tenant_id ≡ budget.tenant_id)
    × (child.root_correlation_id ≡ budget.root_correlation_id)
    × (child.scope ≢ objective)
    × (is_valid_execution_budget_limits child.limits ≡ true)
    × IsCovered budget.limits (used 40) child.limits
derive_child-IsCovered_example =
    derive_child-IsCovered parse budget (used 40) request child derived_example

child_usage-fits_example :
    project_optional_budget_usage budget (used 40) (delta 50)
    ≡ returned (
        fits
          (projected_sums (used 40) (delta 50))
          (assessment_of budget (projected_sums (used 40) (delta 50))))
unfolding program
child_usage-fits_example =
    child_usage-fits parse budget (used 40) request child (delta 50) refl derived_example
      (omega arith)

abbrev after : ExecutionBudgetUsage
after = record {
  elapsed_latency_ms = 60;
  cost_micros = 60;
  reasoning_units = 40;
  tool_calls = 42;
  active_concurrency = 3;
  peak_concurrency = 3;
}

record_all-IsSumOf_example :
    IsSumOf (used 40) after (delta 5 ∷ delta 15 ∷ [])
    × (is_valid_execution_budget_usage after ≡ true)
unfolding program
record_all-IsSumOf_example =
    record_all-IsSumOf budget (delta 5 ∷ delta 15 ∷ []) (used 40) after refl refl
