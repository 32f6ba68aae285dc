-- ===== src/AdaptiveLoop/Advance.antt =====
-- `advanceAdaptiveLoop` (services/agent-runtime/src/loop/controller.ts).
use aurora_ai_native.Prelude.{
  ℕ, ◌+◌, ◌-◌, String, Bool, true, false, ◌||◌, not, Option, none, some, List, [], ◌∷◌, ◌==◌,
  length, contains, ltb, leb, eqb, if◌then◌else◌,
}
use aurora_ai_native.Budget.{max_safe_integer}
use aurora_ai_native.AdaptiveLoop.Types.{
  AdaptiveLoopPhase, at_tool_plan, at_validate, ended_completed, ended_abstained, ended_escalated,
  ended_cancelled, ended_budget_exhausted, ended_failed, AdaptiveLoopControlFrame,
  PlannedToolAction, AdaptiveLoopUsage, AdaptiveLoopTerminalReason, control_frame_invalid,
  worker_ownership_changed, capability_plan_blocked, w04_budget_stop, local_elapsed_limit,
  local_model_call_limit, w04_reasoning_budget_exhausted, w04_latency_budget_exhausted,
  stopped_by_control, abstained_by_step, escalated_by_step, failed_by_step, AdaptiveLoopSnapshot,
  StepDisposition, step_tool_plan, step_validate, step_abstain, step_escalate, step_fail,
  AdaptiveLoopEvent, observation_ready, plan_ready, tool_plan_ready, tool_observation_ready,
  inspection_ready, repair_ready, validation_ready, cancel_requested_event, has_advanced,
  has_terminated, invalid_event, AdvanceAdaptiveLoopResult,
}
use aurora_ai_native.AdaptiveLoop.Frame.{
  valid_identifier, valid_reference, valid_non_negative_safe_integer, same_context,
  valid_frame_shape, worker_is_active, is_exhausted, stops_or_holds, plan_is_ready,
}
use Prim.Native.String

abbrev pub is_terminal_phase : AdaptiveLoopPhase → Bool
is_terminal_phase ended_completed = true
is_terminal_phase ended_abstained = true
is_terminal_phase ended_escalated = true
is_terminal_phase ended_cancelled = true
is_terminal_phase ended_budget_exhausted = true
is_terminal_phase ended_failed = true
is_terminal_phase _ = false

abbrev pub evidence_of : AdaptiveLoopEvent → String
evidence_of (observation_ready e) = e
evidence_of (plan_ready e used_model disposition) = e
evidence_of (tool_plan_ready e actions disposition) = e
evidence_of (tool_observation_ready e status) = e
evidence_of (inspection_ready e used_model disposition) = e
evidence_of (repair_ready e used_model disposition) = e
evidence_of (validation_ready e outcome) = e
evidence_of (cancel_requested_event e) = e

unfoldable pub transition_time : AdaptiveLoopSnapshot → ℕ → ℕ
transition_time s candidate =
    if not (valid_non_negative_safe_integer candidate) || ltb candidate s.last_transition_epoch_ms
    then s.last_transition_epoch_ms
    else candidate

abbrev pub or_kept : Option String → Option String → Option String
or_kept none kept = kept
or_kept (some text) kept = some text

abbrev pub terminate :
    AdaptiveLoopSnapshot
    → AdaptiveLoopPhase
    → AdaptiveLoopTerminalReason
    → ℕ
    → Option String
    → AdaptiveLoopUsage
    → AdvanceAdaptiveLoopResult
terminate s phase reason now evidence usage = record {
  code = has_terminated;
  snapshot = record s {
    phase = phase;
    usage = usage;
    terminal_reason = some reason;
    last_transition_epoch_ms = transition_time s now;
    last_evidence_reference = or_kept evidence s.last_evidence_reference;
  };
}

abbrev pub reject_event : AdaptiveLoopSnapshot → AdvanceAdaptiveLoopResult
reject_event s = record { code = invalid_event; snapshot = s }

abbrev pub advanced :
    AdaptiveLoopSnapshot
    → AdaptiveLoopPhase
    → String
    → AdaptiveLoopControlFrame
    → AdaptiveLoopUsage
    → List PlannedToolAction
    → AdvanceAdaptiveLoopResult
advanced s phase evidence frame usage actions = record {
  code = has_advanced;
  snapshot = record s {
    phase = phase;
    usage = usage;
    planned_actions = actions;
    last_transition_epoch_ms = frame.now_epoch_ms;
    last_evidence_reference = some evidence;
    terminal_reason = none;
  };
}

-- `terminate(snapshot, …, frame.nowEpochMs, event.evidenceReference)`
abbrev pub stop :
    AdaptiveLoopSnapshot
    → AdaptiveLoopPhase
    → AdaptiveLoopTerminalReason
    → String
    → AdaptiveLoopControlFrame
    → AdvanceAdaptiveLoopResult
stop s phase reason evidence frame =
    terminate s phase reason frame.now_epoch_ms (some evidence) s.usage

pub data ModelUsage : Type 0 where
  usage_left : AdaptiveLoopUsage → ModelUsage
  usage_limit : AdvanceAdaptiveLoopResult → ModelUsage

unfoldable pub model_usage_or_limit :
    AdaptiveLoopSnapshot → AdaptiveLoopControlFrame → String → Bool → ModelUsage
model_usage_or_limit s frame evidence used_model =
    if not used_model
    then usage_left s.usage
    else if eqb frame.budget.remaining.reasoning_units 0
    then usage_limit (stop s ended_budget_exhausted w04_reasoning_budget_exhausted evidence frame)
    else if leb s.config.max_model_calls s.usage.model_calls
    then usage_limit (stop s ended_budget_exhausted local_model_call_limit evidence frame)
    else usage_left (record (s.usage) { model_calls = s.usage.model_calls + 1 })

abbrev pub disposition_result :
    AdaptiveLoopSnapshot
    → AdaptiveLoopControlFrame
    → String
    → StepDisposition
    → AdaptiveLoopUsage
    → AdvanceAdaptiveLoopResult
disposition_result s frame evidence step_tool_plan usage =
    advanced s at_tool_plan evidence frame usage []
disposition_result s frame evidence step_validate usage =
    advanced s at_validate evidence frame usage s.planned_actions
disposition_result s frame evidence step_abstain usage =
    terminate s ended_abstained abstained_by_step frame.now_epoch_ms (some evidence) usage
disposition_result s frame evidence step_escalate usage =
    terminate s ended_escalated escalated_by_step frame.now_epoch_ms (some evidence) usage
disposition_result s frame evidence step_fail usage =
    terminate s ended_failed failed_by_step frame.now_epoch_ms (some evidence) usage

unfoldable pub action_key : PlannedToolAction → String
action_key a =
    String.◌++◌ a.capability_id
      (String.◌++◌ "\0" (String.◌++◌ a.action_type (String.◌++◌ "\0" a.plan_reference)))

-- The loop over the actions; `seen` holds the keys so far.
unfoldable pub actions_accepted : List String → List String → List PlannedToolAction → Bool
unfolding valid_identifier valid_reference action_key
actions_accepted allowed seen [] = true
actions_accepted allowed seen (a ∷ actions) =
    let rest = actions_accepted allowed (action_key a ∷ seen) actions in
    if not (valid_identifier a.capability_id)
      || not (valid_identifier a.action_type)
      || not (a.execution_boundary == "W07_REQUIRED")
      || not (valid_reference a.plan_reference)
      || not (contains allowed a.capability_id)
    then false
    else if contains seen (action_key a)
    then false
    else rest

unfoldable pub valid_planned_actions : List PlannedToolAction → AdaptiveLoopControlFrame → Bool
valid_planned_actions actions frame =
    if eqb (length actions) 0
    then false
    else if ltb frame.budget.remaining.tool_calls (length actions)
    then false
    else actions_accepted frame.capability_plan.selected_capability_ids [] actions

-- How the loop ends by the frame: the phase and the reason of `frameFailure`'s `terminate`.
unfoldable pub frame_ending :
    AdaptiveLoopSnapshot
    → AdaptiveLoopControlFrame
    → Option (AdaptiveLoopPhase × AdaptiveLoopTerminalReason)
frame_ending s frame =
    let now = frame.now_epoch_ms in
    if not (valid_frame_shape frame)
    then some (ended_failed, control_frame_invalid)
    else if not (same_context s.tenant_id s.correlation_id frame)
    then some (ended_failed, control_frame_invalid)
    else if not (frame.worker.task_id == s.worker_task_id)
        || not (eqb frame.worker.generation s.worker_generation)
        || not (worker_is_active frame.worker.state)
        || not frame.worker.owner_present
    then some (ended_failed, worker_ownership_changed)
    else if frame.worker.cancel_requested
    then some (ended_cancelled, stopped_by_control)
    else if not (frame.capability_plan.registry_version == s.capability_registry_version)
        || not (frame.budget.budget_id == s.budget_id)
    then some (ended_failed, control_frame_invalid)
    else if not (plan_is_ready frame.capability_plan.status)
    then some (ended_failed, capability_plan_blocked)
    else if ltb now s.last_transition_epoch_ms || ltb now s.started_at_epoch_ms
    then some (ended_failed, control_frame_invalid)
    else if not (leb (now - s.started_at_epoch_ms) max_safe_integer)
        || ltb s.config.max_elapsed_ms (now - s.started_at_epoch_ms)
    then some (ended_budget_exhausted, local_elapsed_limit)
    else if eqb frame.budget.remaining.latency_ms 0
    then some (ended_budget_exhausted, w04_latency_budget_exhausted)
    else if is_exhausted frame.budget.state || stops_or_holds frame.budget.action
    then some (ended_budget_exhausted, w04_budget_stop)
    else none

abbrev pub ended_by :
    AdaptiveLoopSnapshot
    → AdaptiveLoopControlFrame
    → Option (AdaptiveLoopPhase × AdaptiveLoopTerminalReason)
    → Option AdvanceAdaptiveLoopResult
ended_by s frame none = none
ended_by s frame (some (phase, reason)) =
    some (terminate s phase reason frame.now_epoch_ms none s.usage)

unfoldable pub frame_failure :
    AdaptiveLoopSnapshot → AdaptiveLoopControlFrame → Option AdvanceAdaptiveLoopResult
frame_failure s frame = ended_by s frame (frame_ending s frame)
