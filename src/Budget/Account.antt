-- ===== src/Budget/Account.antt =====
-- Recording of observed usage and its assessment (packages/control/src/budget/budget.ts).
use mathlib.Core.Path.{subst}
use aurora_ai_native.Prelude.{
  ℕ, ◌+◌, ◌≤◌, ◌≡◌, ap, ◌↔◌, inl, inr, Bool, true, Option, none, some, List, [], ◌∷◌, arith, any,
  Outcome, Option-cases, or_else, holds, returned, threw,
}
use aurora_ai_native.Budget.{
  ExecutionBudget, ExecutionBudgetUsage, ExecutionBudgetLimits, ExecutionBudgetUsageDelta,
  ExecutionBudgetAssessment, ExecutionBudgetRemaining, ExecutionBudgetDimension, latency_ms,
  cost_micros, reasoning_units, tool_calls, concurrency, BudgetUsageRecordResult, recorded,
  record_observed_budget_usage, is_valid_execution_budget_usage, record_rejected, assessment_of,
  assess_execution_budget, exhausted_dimensions, remaining_from, projected_sums,
}
use aurora_ai_native.Budget.Project.{IsProjection, project_usage-IsProjection}

unfoldable pub ExecutionBudgetDimension-discrete : Discrete ExecutionBudgetDimension
ExecutionBudgetDimension-discrete = hlevel

abbrev pub lists : List ExecutionBudgetDimension → ExecutionBudgetDimension → Bool
lists dims d = any (λ e. holds (ExecutionBudgetDimension-discrete d e)) dims

abbrev pub left_in : ExecutionBudgetRemaining → ExecutionBudgetDimension → ℕ
left_in r latency_ms = r.latency_ms
left_in r cost_micros = r.cost_micros
left_in r reasoning_units = r.reasoning_units
left_in r tool_calls = r.tool_calls
left_in r concurrency = r.concurrency_slots

-- A dimension is listed as exhausted exactly when nothing is left in it.
pub exhausted-remaining_iff :
    (limits : ExecutionBudgetLimits) (usage : ExecutionBudgetUsage) (d : ExecutionBudgetDimension)
    → (lists (exhausted_dimensions limits usage) d ≡ true)
      ↔ (left_in (remaining_from limits usage) d ≡ 0)
unfolding exhausted_dimensions remaining_from
exhausted-remaining_iff limits usage latency_ms = (λ h. ground arith, λ h. ground arith)
exhausted-remaining_iff limits usage _ = (λ h. ground arith, λ h. ground arith)

module _ (budget : ExecutionBudget) (usage : ExecutionBudgetUsage)
    (delta : ExecutionBudgetUsageDelta) (p : ExecutionBudgetUsage)
    (a : ExecutionBudgetAssessment) where
  recorded-IsProjection :
      record_observed_budget_usage budget usage delta ≡ returned (recorded p a)
      → IsProjection usage delta p × (a ≡ assessment_of budget p)
  unfolding record_observed_budget_usage assess_execution_budget
  recorded-IsProjection h =
      ((project_usage-IsProjection usage delta p).0 (ground arith), ground arith)

  IsProjection-recorded :
      IsProjection usage delta p
      → a ≡ assessment_of budget p
      → record_observed_budget_usage budget usage delta ≡ returned (recorded p a)
  unfolding record_observed_budget_usage assess_execution_budget
  IsProjection-recorded i e =
      let f = (project_usage-IsProjection usage delta p).1 i in
      ground (arith, i.usage_valid, i.delta_valid, i.sums_valid, i.sums)

-- An observed usage is recorded exactly when usage, delta and sums are valid, whatever the limits:
-- the counters are the sums, and the assessment is of them.
pub record-recorded_iff :
    (budget : ExecutionBudget) (usage : ExecutionBudgetUsage) (delta : ExecutionBudgetUsageDelta)
    (p : ExecutionBudgetUsage) (a : ExecutionBudgetAssessment)
    → (record_observed_budget_usage budget usage delta ≡ returned (recorded p a))
      ↔ IsProjection usage delta p × (a ≡ assessment_of budget p)
record-recorded_iff budget usage delta p a = (
  λ h. recorded-IsProjection budget usage delta p a h,
  λ (i, e). IsProjection-recorded budget usage delta p a i e,
)

-- The usage after a result, where it was recorded.
abbrev pub usage_after : Outcome BudgetUsageRecordResult → Option ExecutionBudgetUsage
usage_after (returned (recorded usage assessment)) = some usage
usage_after (returned (record_rejected code)) = none
usage_after (threw message) = none

-- Deltas one after the other; `none` once one of them is rejected.
abbrev record_next :
    (ExecutionBudgetUsage → Option ExecutionBudgetUsage)
    → Option ExecutionBudgetUsage
    → Option ExecutionBudgetUsage
record_next rest none = none
record_next rest (some usage) = rest usage

unfoldable pub record_all :
    ExecutionBudget
    → List ExecutionBudgetUsageDelta
    → ExecutionBudgetUsage
    → Option ExecutionBudgetUsage
record_all budget [] usage = some usage
record_all budget (d ∷ ds) usage =
    record_next (record_all budget ds) (usage_after (record_observed_budget_usage budget usage d))

abbrev pub total : (ExecutionBudgetUsageDelta → Option ℕ) → List ExecutionBudgetUsageDelta → ℕ
total part [] = 0
total part (d ∷ ds) = or_else (part d) 0 + total part ds

-- What a later usage owes to an earlier one and to the deltas between them.
pub record IsSumOf (before after : ExecutionBudgetUsage) (ds : List ExecutionBudgetUsageDelta)
    : Type 0 where
  pub latency :
      after.elapsed_latency_ms ≡ before.elapsed_latency_ms + total (λ d. d.elapsed_latency_ms) ds
  pub cost : after.cost_micros ≡ before.cost_micros + total (λ d. d.cost_micros) ds
  pub reasoning : after.reasoning_units ≡ before.reasoning_units + total (λ d. d.reasoning_units) ds
  pub calls : after.tool_calls ≡ before.tool_calls + total (λ d. d.tool_calls) ds
  pub peak : before.peak_concurrency ≤ after.peak_concurrency

step-IsProjection :
    (budget : ExecutionBudget) (usage : ExecutionBudgetUsage) (delta : ExecutionBudgetUsageDelta)
    (p : ExecutionBudgetUsage)
    → usage_after (record_observed_budget_usage budget usage delta) ≡ some p
    → IsProjection usage delta p
unfolding record_observed_budget_usage assess_execution_budget
step-IsProjection budget usage delta p h =
    (project_usage-IsProjection usage delta p).0 (ground arith)

IsSumOf-cons :
    (usage p after : ExecutionBudgetUsage) (d : ExecutionBudgetUsageDelta)
    (ds : List ExecutionBudgetUsageDelta)
    → IsProjection usage d p
    → IsSumOf p after ds
    → IsSumOf usage after (d ∷ ds)
unfolding projected_sums
IsSumOf-cons usage p after d ds i s = ground (arith, i.sums, ap (λ u. u.peak_concurrency) i.sums)

-- Recorded deltas add up: every counter has grown by the sum of its deltas, the peak concurrency has
-- not fallen, and the usage is valid again, with its peak at least its active concurrency.
pub record_all-IsSumOf :
    (budget : ExecutionBudget) (ds : List ExecutionBudgetUsageDelta)
    (usage after : ExecutionBudgetUsage)
    → is_valid_execution_budget_usage usage ≡ true
    → record_all budget ds usage ≡ some after
    → IsSumOf usage after ds × (is_valid_execution_budget_usage after ≡ true)
unfolding record_all
record_all-IsSumOf budget [] usage after v h =
    let e : usage ≡ after = cc in
    subst (λ u. IsSumOf usage u [] × (is_valid_execution_budget_usage u ≡ true)) e (omega arith, v)
record_all-IsSumOf budget (d ∷ ds) usage after v h =
    elim (Option-cases (usage_after (record_observed_budget_usage budget usage d))) [
      | inl refused ↦ absurd (ground arith)
      | inr (p, e) ↦
          let i = step-IsProjection budget usage d p e in
          let (s, w) =
            record_all-IsSumOf budget ds p after (rw i.sums i.sums_valid) (ground arith) in
          (IsSumOf-cons usage p after d ds i s, w)
    ]
