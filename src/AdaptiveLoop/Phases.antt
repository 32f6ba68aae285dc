-- ===== src/AdaptiveLoop/Phases.antt =====
-- `advanceAdaptiveLoop` (services/agent-runtime/src/loop/controller.ts): a function for each phase.
use aurora_ai_native.Prelude.{
  ◌+◌, String, not, Option, none, some, List, length, ltb, leb, if◌then◌else◌,
}
use aurora_ai_native.AdaptiveLoop.Types.{
  AdaptiveLoopPhase, at_observe, at_plan, at_tool_plan, at_waiting_tool_observation, at_inspect,
  at_repair, at_validate, ended_completed, ended_abstained, ended_escalated, ended_cancelled,
  ended_budget_exhausted, ended_failed, AdaptiveLoopControlFrame, PlannedToolAction,
  AdaptiveLoopUsage, validation_passed, local_iteration_limit, local_tool_planning_limit,
  local_repair_limit, w04_tool_budget_exhausted, stopped_by_control, abstained_by_step,
  escalated_by_step, failed_by_step, unknown_tool_observation, AdaptiveLoopSnapshot,
  StepDisposition, step_validate, step_abstain, step_escalate, step_fail, ToolPlanDisposition,
  tool_await_observation, tool_validate, tool_abstain, tool_escalate, tool_fail,
  InspectionDisposition, inspect_validate, inspect_repair, inspect_abstain, inspect_escalate,
  inspect_fail, outcome_pass, outcome_repair, outcome_abstain, outcome_escalate, outcome_fail,
  status_unknown, AdaptiveLoopEvent, observation_ready, plan_ready, tool_plan_ready,
  tool_observation_ready, inspection_ready, repair_ready, validation_ready, cancel_requested_event,
  already_terminal, AdvanceAdaptiveLoopResult,
}
use aurora_ai_native.AdaptiveLoop.Frame.{valid_reference}
use aurora_ai_native.AdaptiveLoop.Advance.{
  model_usage_or_limit, is_terminal_phase, evidence_of, reject_event, advanced, stop, ModelUsage,
  usage_left, usage_limit, disposition_result, valid_planned_actions, frame_failure,
}

abbrev pub in_observe :
    AdaptiveLoopSnapshot → AdaptiveLoopControlFrame → AdaptiveLoopEvent → AdvanceAdaptiveLoopResult
in_observe s frame (observation_ready evidence) =
    if leb s.config.max_iterations s.usage.iterations
    then stop s ended_budget_exhausted local_iteration_limit evidence frame
    else advanced s at_plan evidence frame
        (record (s.usage) { iterations = s.usage.iterations + 1 }) s.planned_actions
in_observe s frame _ = reject_event s

abbrev pub after_model :
    AdaptiveLoopSnapshot
    → AdaptiveLoopControlFrame
    → String
    → StepDisposition
    → ModelUsage
    → AdvanceAdaptiveLoopResult
after_model s frame evidence disposition (usage_limit result) = result
after_model s frame evidence disposition (usage_left usage) =
    disposition_result s frame evidence disposition usage

abbrev pub in_plan :
    AdaptiveLoopSnapshot → AdaptiveLoopControlFrame → AdaptiveLoopEvent → AdvanceAdaptiveLoopResult
in_plan s frame (plan_ready evidence used_model disposition) =
    after_model s frame evidence disposition (model_usage_or_limit s frame evidence used_model)
in_plan s frame _ = reject_event s

abbrev pub tool_planned :
    AdaptiveLoopSnapshot
    → AdaptiveLoopControlFrame
    → String
    → List PlannedToolAction
    → AdaptiveLoopUsage
    → ToolPlanDisposition
    → AdvanceAdaptiveLoopResult
tool_planned s frame evidence actions usage tool_await_observation =
    advanced s at_waiting_tool_observation evidence frame usage actions
tool_planned s frame evidence actions usage tool_validate =
    advanced s at_validate evidence frame usage actions
tool_planned s frame evidence actions usage tool_abstain =
    disposition_result s frame evidence step_abstain usage
tool_planned s frame evidence actions usage tool_escalate =
    disposition_result s frame evidence step_escalate usage
tool_planned s frame evidence actions usage tool_fail =
    disposition_result s frame evidence step_fail usage

abbrev pub in_tool_plan :
    AdaptiveLoopSnapshot → AdaptiveLoopControlFrame → AdaptiveLoopEvent → AdvanceAdaptiveLoopResult
in_tool_plan s frame (tool_plan_ready evidence actions disposition) =
    if leb s.config.max_tool_planning_calls s.usage.tool_planning_calls
    then stop s ended_budget_exhausted local_tool_planning_limit evidence frame
    else if not (valid_planned_actions actions frame)
    then (if ltb frame.budget.remaining.tool_calls (length actions)
        then stop s ended_budget_exhausted w04_tool_budget_exhausted evidence frame
        else reject_event s)
    else tool_planned s frame evidence actions
        (record (s.usage) { tool_planning_calls = s.usage.tool_planning_calls + 1 }) disposition
in_tool_plan s frame _ = reject_event s

abbrev pub in_waiting :
    AdaptiveLoopSnapshot → AdaptiveLoopControlFrame → AdaptiveLoopEvent → AdvanceAdaptiveLoopResult
in_waiting s frame (tool_observation_ready evidence status_unknown) =
    stop s ended_escalated unknown_tool_observation evidence frame
in_waiting s frame (tool_observation_ready evidence _) =
    advanced s at_inspect evidence frame s.usage s.planned_actions
in_waiting s frame _ = reject_event s

abbrev pub inspected :
    AdaptiveLoopSnapshot
    → AdaptiveLoopControlFrame
    → String
    → InspectionDisposition
    → ModelUsage
    → AdvanceAdaptiveLoopResult
inspected s frame evidence disposition (usage_limit result) = result
inspected s frame evidence inspect_repair (usage_left usage) =
    advanced s at_repair evidence frame usage s.planned_actions
inspected s frame evidence inspect_validate (usage_left usage) =
    disposition_result s frame evidence step_validate usage
inspected s frame evidence inspect_abstain (usage_left usage) =
    disposition_result s frame evidence step_abstain usage
inspected s frame evidence inspect_escalate (usage_left usage) =
    disposition_result s frame evidence step_escalate usage
inspected s frame evidence inspect_fail (usage_left usage) =
    disposition_result s frame evidence step_fail usage

abbrev pub in_inspect :
    AdaptiveLoopSnapshot → AdaptiveLoopControlFrame → AdaptiveLoopEvent → AdvanceAdaptiveLoopResult
in_inspect s frame (inspection_ready evidence used_model disposition) =
    inspected s frame evidence disposition (model_usage_or_limit s frame evidence used_model)
in_inspect s frame _ = reject_event s

abbrev pub repaired :
    AdaptiveLoopSnapshot
    → AdaptiveLoopControlFrame
    → String
    → StepDisposition
    → ModelUsage
    → AdvanceAdaptiveLoopResult
repaired s frame evidence disposition (usage_limit result) = result
repaired s frame evidence disposition (usage_left usage) =
    disposition_result s frame evidence disposition
      (record usage { repair_attempts = s.usage.repair_attempts + 1 })

abbrev pub in_repair :
    AdaptiveLoopSnapshot → AdaptiveLoopControlFrame → AdaptiveLoopEvent → AdvanceAdaptiveLoopResult
in_repair s frame (repair_ready evidence used_model disposition) =
    if leb s.config.max_repair_attempts s.usage.repair_attempts
    then stop s ended_budget_exhausted local_repair_limit evidence frame
    else repaired s frame evidence disposition (model_usage_or_limit s frame evidence used_model)
in_repair s frame _ = reject_event s

abbrev pub in_validate :
    AdaptiveLoopSnapshot → AdaptiveLoopControlFrame → AdaptiveLoopEvent → AdvanceAdaptiveLoopResult
in_validate s frame (validation_ready evidence outcome_pass) =
    stop s ended_completed validation_passed evidence frame
in_validate s frame (validation_ready evidence outcome_repair) =
    if leb s.config.max_iterations s.usage.iterations
    then stop s ended_budget_exhausted local_iteration_limit evidence frame
    else advanced s at_repair evidence frame
        (record (s.usage) { iterations = s.usage.iterations + 1 }) s.planned_actions
in_validate s frame (validation_ready evidence outcome_abstain) =
    stop s ended_abstained abstained_by_step evidence frame
in_validate s frame (validation_ready evidence outcome_escalate) =
    stop s ended_escalated escalated_by_step evidence frame
in_validate s frame (validation_ready evidence outcome_fail) =
    stop s ended_failed failed_by_step evidence frame
in_validate s frame _ = reject_event s

-- `switch (snapshot.phase)`
abbrev pub in_phase :
    AdaptiveLoopPhase
    → AdaptiveLoopSnapshot
    → AdaptiveLoopControlFrame
    → AdaptiveLoopEvent
    → AdvanceAdaptiveLoopResult
in_phase at_observe s frame event = in_observe s frame event
in_phase at_plan s frame event = in_plan s frame event
in_phase at_tool_plan s frame event = in_tool_plan s frame event
in_phase at_waiting_tool_observation s frame event = in_waiting s frame event
in_phase at_inspect s frame event = in_inspect s frame event
in_phase at_repair s frame event = in_repair s frame event
in_phase at_validate s frame event = in_validate s frame event
in_phase _ s frame event = reject_event s

-- `event.kind === 'CANCEL_REQUESTED'`, else the switch.
abbrev pub on_event :
    AdaptiveLoopSnapshot → AdaptiveLoopControlFrame → AdaptiveLoopEvent → AdvanceAdaptiveLoopResult
on_event s frame (cancel_requested_event evidence) =
    stop s ended_cancelled stopped_by_control evidence frame
on_event s frame event = in_phase s.phase s frame event

abbrev pub or_failure :
    Option AdvanceAdaptiveLoopResult → AdvanceAdaptiveLoopResult → AdvanceAdaptiveLoopResult
or_failure none result = result
or_failure (some failure) result = failure

unfoldable pub advance_adaptive_loop :
    AdaptiveLoopSnapshot → AdaptiveLoopEvent → AdaptiveLoopControlFrame → AdvanceAdaptiveLoopResult
advance_adaptive_loop s event frame =
    if is_terminal_phase s.phase
    then record { code = already_terminal; snapshot = s }
    else or_failure (frame_failure s frame) (
        if not (valid_reference (evidence_of event))
        then reject_event s
        else on_event s frame event)
