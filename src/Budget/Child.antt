-- ===== src/Budget/Child.antt =====
-- deriveChildExecutionBudget (packages/control/src/budget/budget.ts): a child never gets more than
-- its parent has left.
use aurora_ai_native.Prelude.{
  ℕ, ◌-◌, ◌≤◌, ◌≡◌, refl, ◌≢◌, true, Option, none, some, arith, is_empty, or_else, DateParse,
  returned,
}
use aurora_ai_native.Budget.{
  max_safe_integer, ExecutionBudget, ExecutionBudgetUsage, ExecutionBudgetLimits,
  ExecutionBudgetUsageDelta, objective, ChildBudgetRequest, derived, derive_child_execution_budget,
  child_constraint_dimensions, remaining_from, is_valid_execution_budget_usage,
  is_valid_execution_budget_limits, is_valid_usage_delta, valid_or_absent, projected_sums, fits,
  assessment_of, project_optional_budget_usage,
}
use aurora_ai_native.Budget.Project.{IsWithin, IsProjection, project-fits_iff}

-- Limits that leave room for a usage under the limits of a parent.
pub record IsCovered (parent : ExecutionBudgetLimits) (used : ExecutionBudgetUsage)
    (child : ExecutionBudgetLimits) : Type 0 where
  pub latency : child.max_latency_ms ≤ parent.max_latency_ms - used.elapsed_latency_ms
  pub cost : child.max_cost_micros ≤ parent.max_cost_micros - used.cost_micros
  pub reasoning : child.max_reasoning_units ≤ parent.max_reasoning_units - used.reasoning_units
  pub calls : child.max_tool_calls ≤ parent.max_tool_calls - used.tool_calls
  pub slots : child.max_concurrency ≤ parent.max_concurrency

constraints-IsCovered :
    (parent : ExecutionBudgetLimits) (used : ExecutionBudgetUsage) (request : ChildBudgetRequest)
    → is_empty (child_constraint_dimensions parent request (remaining_from parent used)) ≡ true
    → IsCovered parent used request.limits
unfolding child_constraint_dimensions remaining_from
constraints-IsCovered parent used request h = record {
  latency = ground arith;
  cost = ground arith;
  reasoning = ground arith;
  calls = ground arith;
  slots = ground arith;
}

module _ (date_parse : DateParse) (parent : ExecutionBudget) (used : ExecutionBudgetUsage)
    (request : ChildBudgetRequest) (child : ExecutionBudget)
    (given : derive_child_execution_budget date_parse parent used request ≡ derived child) where
  derived_checks :
      (is_valid_execution_budget_usage used ≡ true)
      × (is_valid_execution_budget_limits child.limits ≡ true)
      × (child.limits ≡ request.limits)
      × (is_empty
            (child_constraint_dimensions parent.limits request (remaining_from parent.limits used))
          ≡ true)
  unfolding derive_child_execution_budget
  derived_checks = (ground arith, ground arith, ground arith, ground arith)

  -- A derived child stays in its parent's tenant and correlation, is of no objective, has valid
  -- limits, and in every dimension no more than the parent has left, in concurrency no more than the
  -- parent's own limit.
  pub derive_child-IsCovered :
      (child.tenant_id ≡ parent.tenant_id)
      × (child.root_correlation_id ≡ parent.root_correlation_id)
      × (child.scope ≢ objective)
      × (is_valid_execution_budget_limits child.limits ≡ true)
      × IsCovered parent.limits used child.limits
  unfolding derive_child_execution_budget
  derive_child-IsCovered = (
    ground arith,
    ground arith,
    λ e. ground arith,
    derived_checks.1,
    rw derived_checks.2 (constraints-IsCovered parent.limits used request derived_checks.3),
  )

-- A delta of usage that stays within a child's limits, and whose concurrency, the parent's own where it
-- gives none, stays within the parent's.
pub record IsSpend (parent child : ExecutionBudgetLimits) (used : ExecutionBudgetUsage)
    (delta : ExecutionBudgetUsageDelta) : Type 0 where
  pub latency : or_else delta.elapsed_latency_ms 0 ≤ child.max_latency_ms
  pub cost : or_else delta.cost_micros 0 ≤ child.max_cost_micros
  pub reasoning : or_else delta.reasoning_units 0 ≤ child.max_reasoning_units
  pub calls : or_else delta.tool_calls 0 ≤ child.max_tool_calls
  pub slots : or_else delta.active_concurrency used.active_concurrency ≤ parent.max_concurrency

covered-IsWithin :
    (parent child : ExecutionBudgetLimits) (used : ExecutionBudgetUsage)
    (delta : ExecutionBudgetUsageDelta)
    → IsCovered parent used child
    → is_valid_execution_budget_limits child ≡ true
    → IsSpend parent child used delta
    → IsWithin parent (projected_sums used delta)
unfolding projected_sums is_valid_execution_budget_limits
covered-IsWithin parent child used delta c v w = record {
  latency = ground arith;
  cost = ground arith;
  reasoning = ground arith;
  calls = ground arith;
  slots = ground arith;
}

pub record IsSafeUsage (u : ExecutionBudgetUsage) : Type 0 where
  pub latency : u.elapsed_latency_ms ≤ max_safe_integer
  pub cost : u.cost_micros ≤ max_safe_integer
  pub reasoning : u.reasoning_units ≤ max_safe_integer
  pub calls : u.tool_calls ≤ max_safe_integer
  pub active : u.active_concurrency ≤ u.peak_concurrency
  pub peak : u.peak_concurrency ≤ max_safe_integer

valid-IsSafeUsage :
    (u : ExecutionBudgetUsage) → is_valid_execution_budget_usage u ≡ true → IsSafeUsage u
unfolding is_valid_execution_budget_usage
valid-IsSafeUsage u h = record {
  latency = ground arith;
  cost = ground arith;
  reasoning = ground arith;
  calls = ground arith;
  active = ground arith;
  peak = ground arith;
}

IsSafeUsage-valid :
    (u : ExecutionBudgetUsage) → IsSafeUsage u → is_valid_execution_budget_usage u ≡ true
unfolding is_valid_execution_budget_usage
IsSafeUsage-valid u s = ground arith

limits_safe :
    (l : ExecutionBudgetLimits)
    → is_valid_execution_budget_limits l ≡ true
    → (l.max_latency_ms ≤ max_safe_integer)
      × (l.max_cost_micros ≤ max_safe_integer)
      × (l.max_reasoning_units ≤ max_safe_integer)
      × (l.max_tool_calls ≤ max_safe_integer)
      × (l.max_concurrency ≤ max_safe_integer)
unfolding is_valid_execution_budget_limits
limits_safe l h = (ground arith, ground arith, ground arith, ground arith, ground arith)

absent_or_safe :
    (value : Option ℕ) (other : ℕ)
    → or_else value other ≤ max_safe_integer
    → valid_or_absent value ≡ true
absent_or_safe none other h = refl
absent_or_safe (some n) other h = ground arith

spend-valid :
    (parent child : ExecutionBudgetLimits) (used : ExecutionBudgetUsage)
    (delta : ExecutionBudgetUsageDelta)
    → is_valid_execution_budget_limits parent ≡ true
    → is_valid_execution_budget_limits child ≡ true
    → IsSpend parent child used delta
    → is_valid_usage_delta delta ≡ true
unfolding is_valid_usage_delta
spend-valid parent child used delta p c w =
    let (p1, p2, p3, p4, p5) = limits_safe parent p in
    let (c1, c2, c3, c4, c5) = limits_safe child c in
    ground (
      arith,
      absent_or_safe delta.elapsed_latency_ms 0 (omega (arith, w.latency)),
      absent_or_safe delta.cost_micros 0 (omega (arith, w.cost)),
      absent_or_safe delta.reasoning_units 0 (omega (arith, w.reasoning)),
      absent_or_safe delta.tool_calls 0 (omega (arith, w.calls)),
      absent_or_safe delta.active_concurrency used.active_concurrency (omega (arith, w.slots)),
    )

within-IsSafeUsage :
    (parent : ExecutionBudgetLimits) (used : ExecutionBudgetUsage)
    (delta : ExecutionBudgetUsageDelta)
    → is_valid_execution_budget_limits parent ≡ true
    → IsSafeUsage used
    → IsWithin parent (projected_sums used delta)
    → IsSafeUsage (projected_sums used delta)
unfolding projected_sums
within-IsSafeUsage parent used delta p u w = omega (arith, limits_safe parent p)

spend-IsProjection :
    (parent child : ExecutionBudgetLimits) (used : ExecutionBudgetUsage)
    (delta : ExecutionBudgetUsageDelta)
    → is_valid_execution_budget_limits parent ≡ true
    → is_valid_execution_budget_limits child ≡ true
    → is_valid_execution_budget_usage used ≡ true
    → IsSpend parent child used delta
    → IsWithin parent (projected_sums used delta)
    → IsProjection used delta (projected_sums used delta)
spend-IsProjection parent child used delta p c u spend w = record {
  usage_valid = u;
  delta_valid = spend-valid parent child used delta p c spend;
  sums = refl;
  sums_valid =
      IsSafeUsage-valid (projected_sums used delta)
        (within-IsSafeUsage parent used delta p (valid-IsSafeUsage used u) w);
}

-- Where a parent with valid limits has given a child its budget, a delta of usage that is in latency, cost,
-- reasoning and tool calls at most the child's limits fits the parent's budget with the usage that the
-- child was derived from, as long as the active concurrency after it is at most the parent's limit.
pub child_usage-fits :
    (date_parse : DateParse) (parent : ExecutionBudget) (used : ExecutionBudgetUsage)
    (request : ChildBudgetRequest) (child : ExecutionBudget) (delta : ExecutionBudgetUsageDelta)
    → is_valid_execution_budget_limits parent.limits ≡ true
    → derive_child_execution_budget date_parse parent used request ≡ derived child
    → IsSpend parent.limits child.limits used delta
    → project_optional_budget_usage parent used delta
      ≡ returned
          (fits (projected_sums used delta) (assessment_of parent (projected_sums used delta)))
child_usage-fits date_parse parent used request child delta valid given spend =
    let checks = derived_checks date_parse parent used request child given in
    let (t, r, s, limits_valid, covered) =
      derive_child-IsCovered date_parse parent used request child given in
    let w = covered-IsWithin parent.limits child.limits used delta covered limits_valid spend in
    (project-fits_iff parent used delta (projected_sums used delta)
        (assessment_of parent (projected_sums used delta))).1
      (
        spend-IsProjection parent.limits child.limits used delta valid limits_valid checks.0 spend
            w,
        w,
        refl,
      )
