-- ===== src/Budget/Types.antt =====
-- packages/control/src/budget/types.ts. Quantities are natural numbers. A share of a limit
-- (`used / limit`) stands as the pair of the two numbers.
use aurora_ai_native.Prelude.{ℕ, String, Option, List}

pub data ExecutionBudgetDimension : Type 0 where
  latency_ms cost_micros reasoning_units tool_calls concurrency : ExecutionBudgetDimension

pub data ExecutionBudgetScope : Type 0 where
  objective goal task : ExecutionBudgetScope

pub data ExecutionBudgetExhaustionPolicy : Type 0 where
  degrade_optional stop_optional hold : ExecutionBudgetExhaustionPolicy

pub data ExecutionBudgetState : Type 0 where
  within_budget degraded exhausted : ExecutionBudgetState

-- The actions are `CONTINUE_OPTIONAL` and the exhaustion policies.
pub data ExecutionBudgetAction : Type 0 where
  continue_optional : ExecutionBudgetAction
  apply : ExecutionBudgetExhaustionPolicy → ExecutionBudgetAction

pub record ExecutionBudgetLimits : Type 0 where
  pub max_latency_ms : ℕ
  pub max_cost_micros : ℕ
  pub max_reasoning_units : ℕ
  pub max_tool_calls : ℕ
  pub max_concurrency : ℕ

pub record ExecutionBudgetUsage : Type 0 where
  pub elapsed_latency_ms : ℕ
  pub cost_micros : ℕ
  pub reasoning_units : ℕ
  pub tool_calls : ℕ
  pub active_concurrency : ℕ
  pub peak_concurrency : ℕ

pub record ExecutionBudgetUsageDelta : Type 0 where
  pub elapsed_latency_ms : Option ℕ
  pub cost_micros : Option ℕ
  pub reasoning_units : Option ℕ
  pub tool_calls : Option ℕ
  pub active_concurrency : Option ℕ

pub record ExecutionBudget : Type 0 where
  pub budget_id : String
  pub tenant_id : String
  pub root_correlation_id : String
  pub scope : ExecutionBudgetScope
  pub scope_id : String
  pub limits : ExecutionBudgetLimits
  pub exhaustion_policy : ExecutionBudgetExhaustionPolicy
  pub created_at : String

pub record CreateExecutionBudgetInput : Type 0 where
  pub budget_id : String
  pub tenant_id : String
  pub root_correlation_id : String
  pub scope : ExecutionBudgetScope
  pub scope_id : String
  pub limits : ExecutionBudgetLimits
  pub exhaustion_policy : ExecutionBudgetExhaustionPolicy
  pub created_at : String

pub record ExecutionBudgetRemaining : Type 0 where
  pub latency_ms : ℕ
  pub cost_micros : ℕ
  pub reasoning_units : ℕ
  pub tool_calls : ℕ
  pub concurrency_slots : ℕ

pub record ExecutionBudgetUtilization : Type 0 where
  pub latency : ℕ × ℕ
  pub cost : ℕ × ℕ
  pub reasoning : ℕ × ℕ
  pub tool_calls : ℕ × ℕ
  pub concurrency : ℕ × ℕ

pub record ExecutionBudgetAssessment : Type 0 where
  pub budget_id : String
  pub state : ExecutionBudgetState
  pub action : ExecutionBudgetAction
  pub exhausted_dimensions : List ExecutionBudgetDimension
  pub remaining : ExecutionBudgetRemaining
  pub utilization : ExecutionBudgetUtilization

-- A child budget is of a goal or of a task, never of an objective.
pub data ChildScope : Type 0 where
  child_goal child_task : ChildScope

pub record ChildBudgetRequest : Type 0 where
  pub budget_id : String
  pub scope : ChildScope
  pub scope_id : String
  pub limits : ExecutionBudgetLimits
  pub exhaustion_policy : Option ExecutionBudgetExhaustionPolicy
  pub created_at : String

pub data CreateRejection : Type 0 where
  invalid_identity invalid_timestamp invalid_limits : CreateRejection

pub data ExecutionBudgetCreateResult : Type 0 where
  created : ExecutionBudget → ExecutionBudgetCreateResult
  create_rejected : CreateRejection → ExecutionBudgetCreateResult

pub data ChildRejection : Type 0 where
  invalid_request parent_budget_insufficient : ChildRejection

pub data ChildBudgetDerivationResult : Type 0 where
  derived : ExecutionBudget → ChildBudgetDerivationResult
  child_rejected : ChildRejection → List ExecutionBudgetDimension → ChildBudgetDerivationResult

pub data UsageRejection : Type 0 where
  invalid_usage invalid_delta : UsageRejection

pub data BudgetProjectionResult : Type 0 where
  fits : ExecutionBudgetUsage → ExecutionBudgetAssessment → BudgetProjectionResult
  constrained :
      ExecutionBudgetExhaustionPolicy
      → ExecutionBudgetUsage
      → List ExecutionBudgetDimension
      → BudgetProjectionResult
  projection_rejected : UsageRejection → BudgetProjectionResult

pub data BudgetUsageRecordResult : Type 0 where
  recorded : ExecutionBudgetUsage → ExecutionBudgetAssessment → BudgetUsageRecordResult
  record_rejected : UsageRejection → BudgetUsageRecordResult
