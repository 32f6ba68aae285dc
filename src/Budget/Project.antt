-- ===== src/Budget/Project.antt =====
-- projectOptionalBudgetUsage (packages/control/src/budget/budget.ts): when a planned usage fits.
use aurora_ai_native.Prelude.{
  ◌≤◌, String, ◌≡◌, ◌≢◌, ◌↔◌, inl, inr, true, false, some, [], arith, is_empty, Bool-cases,
  returned, threw,
}
use aurora_ai_native.Budget.{
  constrained, ExecutionBudget, ExecutionBudgetUsage, ExecutionBudgetLimits,
  ExecutionBudgetUsageDelta, ExecutionBudgetAssessment, fits, project_optional_budget_usage,
  projected_sums, is_valid_execution_budget_usage, is_valid_usage_delta, assessment_of,
  project_usage, assess_execution_budget, exceeded_dimensions,
}

-- A usage within the limits, in every dimension.
pub record IsWithin (limits : ExecutionBudgetLimits) (usage : ExecutionBudgetUsage) : Type 0 where
  pub latency : usage.elapsed_latency_ms ≤ limits.max_latency_ms
  pub cost : usage.cost_micros ≤ limits.max_cost_micros
  pub reasoning : usage.reasoning_units ≤ limits.max_reasoning_units
  pub calls : usage.tool_calls ≤ limits.max_tool_calls
  pub slots : usage.active_concurrency ≤ limits.max_concurrency

pub exceeded-IsWithin :
    (limits : ExecutionBudgetLimits) (usage : ExecutionBudgetUsage)
    → is_empty (exceeded_dimensions limits usage) ≡ true
    → IsWithin limits usage
unfolding exceeded_dimensions
exceeded-IsWithin limits usage h = record {
  latency = ground arith;
  cost = ground arith;
  reasoning = ground arith;
  calls = ground arith;
  slots = ground arith;
}

pub IsWithin-exceeded :
    (limits : ExecutionBudgetLimits) (usage : ExecutionBudgetUsage)
    → IsWithin limits usage
    → is_empty (exceeded_dimensions limits usage) ≡ true
unfolding exceeded_dimensions
IsWithin-exceeded limits usage w = ground arith

-- The sums of a valid usage and a valid delta, in safe numbers again.
pub record IsProjection (usage : ExecutionBudgetUsage) (delta : ExecutionBudgetUsageDelta)
    (p : ExecutionBudgetUsage) : Type 0 where
  pub usage_valid : is_valid_execution_budget_usage usage ≡ true
  pub delta_valid : is_valid_usage_delta delta ≡ true
  pub sums : p ≡ projected_sums usage delta
  pub sums_valid : is_valid_execution_budget_usage (projected_sums usage delta) ≡ true

pub project_usage-IsProjection :
    (usage : ExecutionBudgetUsage) (delta : ExecutionBudgetUsageDelta) (p : ExecutionBudgetUsage)
    → (project_usage usage delta ≡ some p) ↔ IsProjection usage delta p
unfolding project_usage
project_usage-IsProjection usage delta p = (λ h. ground arith, λ h. ground arith)

not_within :
    (limits : ExecutionBudgetLimits) (usage : ExecutionBudgetUsage)
    → ¬ IsWithin limits usage
    → is_empty (exceeded_dimensions limits usage) ≡ false
not_within limits usage over = elim (Bool-cases (is_empty (exceeded_dimensions limits usage))) [
  | inl h ↦ absurd (over (exceeded-IsWithin limits usage h))
  | inr h ↦ h
]

module _ (budget : ExecutionBudget) (usage : ExecutionBudgetUsage)
    (delta : ExecutionBudgetUsageDelta) (p : ExecutionBudgetUsage)
    (a : ExecutionBudgetAssessment) where
  fits-project_usage :
      project_optional_budget_usage budget usage delta ≡ returned (fits p a)
      → (project_usage usage delta ≡ some p)
        × (is_empty (exceeded_dimensions budget.limits p) ≡ true)
        × (a ≡ assessment_of budget p)
  unfolding project_optional_budget_usage assess_execution_budget
  fits-project_usage h = (ground arith, ground arith, ground arith)

  IsProjection-fits :
      IsProjection usage delta p
      → IsWithin budget.limits p
      → a ≡ assessment_of budget p
      → project_optional_budget_usage budget usage delta ≡ returned (fits p a)
  unfolding project_optional_budget_usage assess_execution_budget
  IsProjection-fits i w e =
      let f = (project_usage-IsProjection usage delta p).1 i in
      let within = IsWithin-exceeded budget.limits p w in
      ground (arith, i.usage_valid, i.delta_valid, i.sums_valid, i.sums)

-- A planned usage fits exactly when usage, delta and sums are valid and the sums stay within every
-- limit; the result then holds the sums and their assessment.
pub project-fits_iff :
    (budget : ExecutionBudget) (usage : ExecutionBudgetUsage) (delta : ExecutionBudgetUsageDelta)
    (p : ExecutionBudgetUsage) (a : ExecutionBudgetAssessment)
    → (project_optional_budget_usage budget usage delta ≡ returned (fits p a))
      ↔ IsProjection usage delta p × IsWithin budget.limits p × (a ≡ assessment_of budget p)
project-fits_iff budget usage delta p a = (
  λ h.
      let (e, within, assessed) = fits-project_usage budget usage delta p a h in
      (
        (project_usage-IsProjection usage delta p).0 e,
        exceeded-IsWithin budget.limits p within,
        assessed,
      ),
  λ (i, w, e). IsProjection-fits budget usage delta p a i w e,
)

-- A planned usage that is valid but over some limit is reported as constrained, with the policy of
-- the budget, and with at least one dimension.
pub project-constrained :
    (budget : ExecutionBudget) (usage : ExecutionBudgetUsage) (delta : ExecutionBudgetUsageDelta)
    (p : ExecutionBudgetUsage)
    → IsProjection usage delta p
    → ¬ IsWithin budget.limits p
    → (project_optional_budget_usage budget usage delta
        ≡ returned (constrained budget.exhaustion_policy p (exceeded_dimensions budget.limits p)))
      × (exceeded_dimensions budget.limits p ≢ [])
unfolding project_optional_budget_usage
project-constrained budget usage delta p i over =
    let e = (project_usage-IsProjection usage delta p).1 i in
    let f : is_empty (exceeded_dimensions budget.limits p) ≡ false =
      not_within budget.limits p over in
    (ground (arith, i.usage_valid, i.delta_valid), λ g. ground arith)

-- Planning never throws, whatever the usage and the delta.
pub project_never_throws :
    (budget : ExecutionBudget) (usage : ExecutionBudgetUsage) (delta : ExecutionBudgetUsageDelta)
    (message : String)
    → project_optional_budget_usage budget usage delta ≢ threw message
unfolding project_optional_budget_usage assess_execution_budget project_usage
project_never_throws budget usage delta message h = ground arith
