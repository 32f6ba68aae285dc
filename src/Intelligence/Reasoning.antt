-- ===== src/Intelligence/Reasoning.antt =====
-- resolveReasoningLevel (packages/intelligence/src/reasoning-level/resolver.ts).
use aurora_ai_native.Prelude.{
  ℕ, zero, suc, ◌+◌, min, String, Bool, true, false, ◌||◌, not, Option, none, some, List, [], ◌∷◌,
  ◌++◌, ◌==◌, push_if, Outcome, ltb, leb, if◌then◌else◌, returned, threw,
}
use aurora_ai_native.Budget.{
  ExecutionBudgetState, degraded, exhausted, ExecutionBudgetAction, apply, degrade_optional,
  stop_optional, hold, max_safe_integer,
}

pub data ReasoningLevel : Type 0 where
  level_0 level_1 level_2 level_3 level_4 level_5 : ReasoningLevel

pub data ReasoningUncertainty : Type 0 where
  no_uncertainty low_uncertainty medium_uncertainty : ReasoningUncertainty
  high_uncertainty unknown_uncertainty : ReasoningUncertainty

pub data ClassifiedTaskComplexity : Type 0 where
  trivial_task low_task medium_task high_task very_high_task unknown_task : ClassifiedTaskComplexity

pub record ReasoningBudgetProjection : Type 0 where
  pub source : String
  pub budget_id : String
  pub state : ExecutionBudgetState
  pub action : ExecutionBudgetAction
  pub remaining_reasoning_units : ℕ
  pub mandatory_safety_validation_required : Bool
  pub can_skip_mandatory_validation : Bool
  pub authorizes_execution : Bool

-- Of the classification, what the resolution reads.
pub record ReasoningLevelRequest : Type 0 where
  pub tenant_id : String
  pub correlation_id : String
  pub classified_tenant_id : String
  pub classified_correlation_id : String
  pub complexity : ClassifiedTaskComplexity
  pub uncertainty : ReasoningUncertainty
  pub budget : Option ReasoningBudgetProjection

pub data ReasoningLevelReason : Type 0 where
  task_need_from_complexity unknown_complexity_requires_caution : ReasoningLevelReason
  uncertainty_escalation very_high_uncertainty_escalation : ReasoningLevelReason
  budget_optional_degradation budget_is_exhausted budget_is_held : ReasoningLevelReason
  budget_insufficient_for_minimum_task_need : ReasoningLevelReason

-- `RESOLVED` has a level, `HELD` has none.
pub record ReasoningLevelResolution : Type 0 where
  pub tenant_id : String
  pub correlation_id : String
  pub level : Option ReasoningLevel
  pub requested_level : ReasoningLevel
  pub reasons : List ReasoningLevelReason
  pub budget_id : Option String

abbrev pub ordinal : ReasoningLevel → ℕ
ordinal level_0 = 0
ordinal level_1 = 1
ordinal level_2 = 2
ordinal level_3 = 3
ordinal level_4 = 4
ordinal level_5 = 5

abbrev pub nominal_reasoning_units : ReasoningLevel → ℕ
nominal_reasoning_units level_0 = 0
nominal_reasoning_units level_1 = 1
nominal_reasoning_units level_2 = 3
nominal_reasoning_units level_3 = 8
nominal_reasoning_units level_4 = 16
nominal_reasoning_units level_5 = 32

abbrev pub levels : List ReasoningLevel
levels = level_0 ∷ level_1 ∷ level_2 ∷ level_3 ∷ level_4 ∷ level_5 ∷ []

abbrev pub base_level : ClassifiedTaskComplexity → ReasoningLevel
base_level trivial_task = level_0
base_level low_task = level_1
base_level medium_task = level_2
base_level high_task = level_3
base_level very_high_task = level_4
base_level unknown_task = level_3

-- `LEVELS[ordinal] ?? 'L5'`
abbrev pub level_at : List ReasoningLevel → ℕ → ReasoningLevel
level_at [] n = level_5
level_at (l ∷ ls) zero = l
level_at (l ∷ ls) (suc n) = level_at ls n

unfoldable pub escalate : ReasoningLevel → ℕ → ReasoningLevel
escalate level steps = level_at levels (min 5 (ordinal level + steps))

-- `requestedLevel`: the level, and the reasons.
unfoldable pub requested_level : ClassifiedTaskComplexity → ReasoningUncertainty → ReasoningLevel
unfolding escalate
requested_level complexity medium_uncertainty = escalate (base_level complexity) 1
requested_level complexity high_uncertainty = escalate (base_level complexity) 2
requested_level complexity unknown_uncertainty = escalate (base_level complexity) 2
requested_level complexity no_uncertainty = base_level complexity
requested_level complexity low_uncertainty = base_level complexity

abbrev pub is_unknown_task : ClassifiedTaskComplexity → Bool
is_unknown_task unknown_task = true
is_unknown_task _ = false

abbrev pub uncertainty_reasons : ReasoningUncertainty → List ReasoningLevelReason
uncertainty_reasons medium_uncertainty = uncertainty_escalation ∷ []
uncertainty_reasons high_uncertainty = very_high_uncertainty_escalation ∷ []
uncertainty_reasons unknown_uncertainty = very_high_uncertainty_escalation ∷ []
uncertainty_reasons no_uncertainty = []
uncertainty_reasons low_uncertainty = []

unfoldable pub request_reasons :
    ClassifiedTaskComplexity → ReasoningUncertainty → List ReasoningLevelReason
request_reasons complexity uncertainty =
    task_need_from_complexity
    ∷ push_if (is_unknown_task complexity) unknown_complexity_requires_caution
        (uncertainty_reasons uncertainty)

-- `validateBudget`: the message of what it throws.
unfoldable pub invalid_budget : ReasoningBudgetProjection → Option String
invalid_budget b =
    if b.budget_id == ""
    then some "budgetId must be non-empty"
    else if not (leb b.remaining_reasoning_units max_safe_integer)
    then some "remainingReasoningUnits must be a non-negative safe integer"
    else if not (b.source == "W04_EXECUTION_BUDGET_ASSESSMENT")
        || not b.mandatory_safety_validation_required
        || b.can_skip_mandatory_validation
        || b.authorizes_execution
    then some "invalid W04 ExecutionBudget consumer projection"
    else none

-- The loop of `highestAffordableLevel`.
unfoldable pub affordable_from : ℕ → ReasoningLevel → List ReasoningLevel → ReasoningLevel
affordable_from remaining affordable [] = affordable
affordable_from remaining affordable (l ∷ ls) =
    affordable_from remaining (if leb (nominal_reasoning_units l) remaining then l else affordable)
      ls

unfoldable pub highest_affordable_level : ℕ → ReasoningLevel
highest_affordable_level remaining = affordable_from remaining level_0 levels

abbrev pub reasoning_resolution :
    ReasoningLevelRequest
    → Option ReasoningBudgetProjection
    → Option ReasoningLevel
    → List ReasoningLevelReason
    → ReasoningLevelResolution
reasoning_resolution q budget level more = record {
  tenant_id = q.tenant_id;
  correlation_id = q.correlation_id;
  level = level;
  requested_level = requested_level q.complexity q.uncertainty;
  reasons = request_reasons q.complexity q.uncertainty ++ more;
  budget_id = elim budget [ none ↦ none | some b ↦ some b.budget_id ];
}

abbrev pub action_holds : ExecutionBudgetAction → Bool
action_holds (apply hold) = true
action_holds _ = false

abbrev pub is_stop : ExecutionBudgetAction → Bool
is_stop (apply stop_optional) = true
is_stop _ = false

abbrev pub is_degrade : ExecutionBudgetAction → Bool
is_degrade (apply degrade_optional) = true
is_degrade _ = false

abbrev pub state_exhausted : ExecutionBudgetState → Bool
state_exhausted exhausted = true
state_exhausted _ = false

abbrev pub state_degraded : ExecutionBudgetState → Bool
state_degraded degraded = true
state_degraded _ = false

unfoldable pub resolve_within :
    ReasoningLevelRequest → ReasoningBudgetProjection → ReasoningLevelResolution
resolve_within q b =
    let wanted = requested_level q.complexity q.uncertainty in
    let affordable = highest_affordable_level b.remaining_reasoning_units in
    if action_holds b.action
    then reasoning_resolution q (some b) none (budget_is_held ∷ [])
    else if state_exhausted b.state || is_stop b.action
    then reasoning_resolution q (some b) none (budget_is_exhausted ∷ [])
    else if ltb (ordinal affordable) (ordinal wanted)
    then (if is_degrade b.action || state_degraded b.state
        then reasoning_resolution q (some b) (some affordable) (budget_optional_degradation ∷ [])
        else reasoning_resolution q (some b) none (budget_insufficient_for_minimum_task_need ∷ []))
    else reasoning_resolution q (some b) (some wanted) []

abbrev pub resolve_valid :
    ReasoningLevelRequest
    → ReasoningBudgetProjection
    → Option String
    → Outcome ReasoningLevelResolution
resolve_valid q b (some message) = threw message
resolve_valid q b none = returned (resolve_within q b)

abbrev pub resolve_budgeted :
    ReasoningLevelRequest → Option ReasoningBudgetProjection → Outcome ReasoningLevelResolution
resolve_budgeted q none =
    returned (reasoning_resolution q none (some (requested_level q.complexity q.uncertainty)) [])
resolve_budgeted q (some b) = resolve_valid q b (invalid_budget b)

unfoldable pub resolve_reasoning_level : ReasoningLevelRequest → Outcome ReasoningLevelResolution
resolve_reasoning_level q =
    if not (q.tenant_id == q.classified_tenant_id)
    then threw "reasoning request tenant must match classification tenant"
    else if not (q.correlation_id == q.classified_correlation_id)
    then threw "reasoning request correlation must match classification correlation"
    else resolve_budgeted q q.budget
