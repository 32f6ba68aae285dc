-- ===== src/AdaptiveLoop/Types.antt =====
-- services/agent-runtime/src/loop/types.ts. Of the tenant and the correlation the ids are kept. A
-- snapshot's fields that are constants of their type are left out; those of the projections stay, since
-- the code checks them.
use aurora_ai_native.Prelude.{ℕ, String, Bool, Option, List}
use aurora_ai_native.Budget.{ExecutionBudgetState, ExecutionBudgetAction}
use aurora_ai_native.WorkerPool.Store.{WorkerRecordSnapshot}

pub data AdaptiveLoopPhase : Type 0 where
  at_observe at_plan at_tool_plan at_waiting_tool_observation : AdaptiveLoopPhase
  at_inspect at_repair at_validate : AdaptiveLoopPhase
  ended_completed ended_abstained ended_escalated : AdaptiveLoopPhase
  ended_cancelled ended_budget_exhausted ended_failed : AdaptiveLoopPhase

pub record BoundedAdaptiveLoopConfig : Type 0 where
  pub max_iterations : ℕ
  pub max_elapsed_ms : ℕ
  pub max_model_calls : ℕ
  pub max_tool_planning_calls : ℕ
  pub max_repair_attempts : ℕ

pub data RouteFamily : Type 0 where
  deterministic_family model_family specialist_family : RouteFamily
  computer_use_planning_family human_family : RouteFamily

pub record SelectedRoute : Type 0 where
  pub source : String
  pub tenant_id : String
  pub correlation_id : String
  pub family : RouteFamily
  pub strategy_id : String
  pub strategy_version : String
  pub authorizes_execution : Bool
  pub downstream_execution_still_requires_current_validation : Bool

pub data RouteProjection : Type 0 where
  selected_route : SelectedRoute → RouteProjection
  abstained_route : RouteProjection

pub data PlanStatus : Type 0 where
  plan_ready_status plan_blocked_status : PlanStatus

pub record CapabilityPlanProjection : Type 0 where
  pub source : String
  pub tenant_id : String
  pub correlation_id : String
  pub registry_version : String
  pub status : PlanStatus
  pub selected_capability_ids : List String
  pub authorizes_execution : Bool

pub record LoopBudgetRemaining : Type 0 where
  pub latency_ms : ℕ
  pub reasoning_units : ℕ
  pub tool_calls : ℕ

pub record LoopBudgetProjection : Type 0 where
  pub source : String
  pub tenant_id : String
  pub correlation_id : String
  pub budget_id : String
  pub state : ExecutionBudgetState
  pub action : ExecutionBudgetAction
  pub remaining : LoopBudgetRemaining
  pub mandatory_safety_validation_required : Bool
  pub can_skip_mandatory_validation : Bool
  pub authorizes_execution : Bool

pub record AdaptiveLoopControlFrame : Type 0 where
  pub worker : WorkerRecordSnapshot
  pub capability_plan : CapabilityPlanProjection
  pub budget : LoopBudgetProjection
  pub now_epoch_ms : ℕ

pub record PlannedToolAction : Type 0 where
  pub capability_id : String
  pub action_type : String
  pub execution_boundary : String
  pub plan_reference : String

pub record AdaptiveLoopUsage : Type 0 where
  pub iterations : ℕ
  pub model_calls : ℕ
  pub tool_planning_calls : ℕ
  pub repair_attempts : ℕ

pub data AdaptiveLoopTerminalReason : Type 0 where
  validation_passed control_frame_invalid worker_ownership_changed : AdaptiveLoopTerminalReason
  capability_plan_blocked w04_budget_stop : AdaptiveLoopTerminalReason
  local_iteration_limit local_elapsed_limit local_model_call_limit : AdaptiveLoopTerminalReason
  local_tool_planning_limit local_repair_limit : AdaptiveLoopTerminalReason
  w04_reasoning_budget_exhausted w04_tool_budget_exhausted : AdaptiveLoopTerminalReason
  w04_latency_budget_exhausted stopped_by_control : AdaptiveLoopTerminalReason
  abstained_by_step escalated_by_step failed_by_step : AdaptiveLoopTerminalReason
  unknown_tool_observation : AdaptiveLoopTerminalReason

pub record LoopStrategy : Type 0 where
  pub family : RouteFamily
  pub strategy_id : String
  pub strategy_version : String

pub record AdaptiveLoopSnapshot : Type 0 where
  pub loop_id : String
  pub tenant_id : String
  pub correlation_id : String
  pub worker_task_id : String
  pub worker_generation : ℕ
  pub phase : AdaptiveLoopPhase
  pub strategy : LoopStrategy
  pub capability_registry_version : String
  pub budget_id : String
  pub config : BoundedAdaptiveLoopConfig
  pub usage : AdaptiveLoopUsage
  pub started_at_epoch_ms : ℕ
  pub last_transition_epoch_ms : ℕ
  pub last_evidence_reference : Option String
  pub planned_actions : List PlannedToolAction
  pub terminal_reason : Option AdaptiveLoopTerminalReason

pub record StartAdaptiveLoopInput : Type 0 where
  pub loop_id : String
  pub route : RouteProjection
  pub config : BoundedAdaptiveLoopConfig
  pub frame : AdaptiveLoopControlFrame

pub data StepDisposition : Type 0 where
  step_tool_plan step_validate step_abstain step_escalate step_fail : StepDisposition

pub data ToolPlanDisposition : Type 0 where
  tool_await_observation tool_validate tool_abstain tool_escalate tool_fail : ToolPlanDisposition

pub data InspectionDisposition : Type 0 where
  inspect_validate inspect_repair inspect_abstain : InspectionDisposition
  inspect_escalate inspect_fail : InspectionDisposition

pub data ValidationOutcome : Type 0 where
  outcome_pass outcome_repair outcome_abstain outcome_escalate outcome_fail : ValidationOutcome

pub data ObservationStatus : Type 0 where
  status_observed status_unknown status_failed : ObservationStatus

-- Each event begins with its evidence reference.
pub data AdaptiveLoopEvent : Type 0 where
  observation_ready : String → AdaptiveLoopEvent
  plan_ready : String → Bool → StepDisposition → AdaptiveLoopEvent
  tool_plan_ready : String → List PlannedToolAction → ToolPlanDisposition → AdaptiveLoopEvent
  tool_observation_ready : String → ObservationStatus → AdaptiveLoopEvent
  inspection_ready : String → Bool → InspectionDisposition → AdaptiveLoopEvent
  repair_ready : String → Bool → StepDisposition → AdaptiveLoopEvent
  validation_ready : String → ValidationOutcome → AdaptiveLoopEvent
  cancel_requested_event : String → AdaptiveLoopEvent

pub data StartRejection : Type 0 where
  invalid_config invalid_control_frame route_not_selected : StartRejection
  route_not_agent_suitable plan_is_blocked budget_not_available : StartRejection

pub data StartAdaptiveLoopResult : Type 0 where
  loop_started : AdaptiveLoopSnapshot → StartAdaptiveLoopResult
  start_rejected : StartRejection → StartAdaptiveLoopResult

-- The status and the code of a result: the two agree but where a rejection says why.
pub data AdvanceCode : Type 0 where
  has_advanced has_terminated already_terminal invalid_event : AdvanceCode

pub record AdvanceAdaptiveLoopResult : Type 0 where
  pub code : AdvanceCode
  pub snapshot : AdaptiveLoopSnapshot
