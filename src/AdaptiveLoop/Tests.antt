-- ===== src/AdaptiveLoop/Tests.antt =====
-- Runs of the adaptive loop (services/agent-runtime/src/loop/controller.ts) on concrete inputs.
use aurora_ai_native.Prelude.{
  ℕ, ◌≤◌, ◌≡◌, refl, true, false, none, List, [], ◌∷◌, non_empty, trimmed_length, is_identifier,
}
use aurora_ai_native.Budget.{within_budget, continue_optional}
use aurora_ai_native.WorkerPool.Types.{active, iterative_observe_plan_required}
use aurora_ai_native.AdaptiveLoop.Types.{
  at_tool_plan, at_validate, model_family, SelectedRoute, selected_route, plan_ready_status,
  AdaptiveLoopControlFrame, PlannedToolAction, AdaptiveLoopSnapshot, StartAdaptiveLoopInput,
  step_tool_plan, step_validate, tool_await_observation, tool_validate, inspect_validate,
  outcome_pass, outcome_repair, status_observed, AdaptiveLoopEvent, observation_ready, plan_ready,
  tool_plan_ready, tool_observation_ready, inspection_ready, repair_ready, validation_ready,
  loop_started,
}
use aurora_ai_native.AdaptiveLoop.Frame.{
  valid_identifier, valid_reference, valid_config, same_context, all_distinct, valid_frame_shape,
  worker_usable_for_loop, budget_available, first_snapshot, start_adaptive_loop,
}
use aurora_ai_native.AdaptiveLoop.Advance.{
  model_usage_or_limit, transition_time, action_key, actions_accepted, valid_planned_actions,
  frame_ending, frame_failure,
}
use aurora_ai_native.AdaptiveLoop.Phases.{advance_adaptive_loop}
use aurora_ai_native.AdaptiveLoop.Steps.{IsInLimits, IsExplained}
use aurora_ai_native.AdaptiveLoop.Runs.{
  run_loop, count_advances, count_advances_le, start-run_loop-IsInLimits,
}
use aurora_ai_native.AdaptiveLoop.Safety.{
  is_completed, is_pass, IsUsable, advance-completed, IsPlanned, advance-IsPlanned,
}

abbrev frame_at : ℕ → AdaptiveLoopControlFrame
frame_at now = record {
  worker = record {
    task_id = "a";
    tenant_id = "t";
    correlation_id = "c";
    justification = iterative_observe_plan_required;
    state = active;
    generation = 1;
    owner_present = true;
    cancel_requested = false;
    terminal_reason = none;
    last_transition_epoch_ms = 1;
    last_heartbeat_epoch_ms = none;
    authority_semantics = "AGENT_RUNTIME_OWNERSHIP_ONLY_NO_AUTHORITY";
    authorizes_execution = false;
    can_invoke_tools = false;
  };
  capability_plan = record {
    source = "W04_CAPABILITY_PLAN";
    tenant_id = "t";
    correlation_id = "c";
    registry_version = "1";
    status = plan_ready_status;
    selected_capability_ids = "read" ∷ [];
    authorizes_execution = false;
  };
  budget = record {
    source = "W04_EXECUTION_BUDGET_ASSESSMENT";
    tenant_id = "t";
    correlation_id = "c";
    budget_id = "b";
    state = within_budget;
    action = continue_optional;
    remaining = record { latency_ms = 9; reasoning_units = 9; tool_calls = 1 };
    mandatory_safety_validation_required = true;
    can_skip_mandatory_validation = false;
    authorizes_execution = false;
  };
  now_epoch_ms = now;
}

abbrev chosen : SelectedRoute
chosen = record {
  source = "W05_B_INTELLIGENCE_ROUTE";
  tenant_id = "t";
  correlation_id = "c";
  family = model_family;
  strategy_id = "s";
  strategy_version = "1";
  authorizes_execution = false;
  downstream_execution_still_requires_current_validation = true;
}

abbrev beginning : StartAdaptiveLoopInput
beginning = record {
  loop_id = "l";
  route = selected_route chosen;
  config = record {
    max_iterations = 2;
    max_elapsed_ms = 50;
    max_model_calls = 3;
    max_tool_planning_calls = 2;
    max_repair_attempts = 1;
  };
  frame = frame_at 1;
}

abbrev started : AdaptiveLoopSnapshot
started = first_snapshot beginning chosen

abbrev read_action : PlannedToolAction
read_action = record {
  capability_id = "read";
  action_type = "get";
  execution_boundary = "W07_REQUIRED";
  plan_reference = "p";
}

abbrev events : List (AdaptiveLoopEvent × AdaptiveLoopControlFrame)
events =
    (observation_ready "e", frame_at 2)
    ∷ (plan_ready "e" true step_tool_plan, frame_at 3)
    ∷ (tool_plan_ready "e" (read_action ∷ []) tool_await_observation, frame_at 4)
    ∷ (tool_observation_ready "e" status_observed, frame_at 5)
    ∷ (plan_ready "e" true step_tool_plan, frame_at 5)
    ∷ (inspection_ready "e" true inspect_validate, frame_at 6)
    ∷ (validation_ready "e" outcome_repair, frame_at 7)
    ∷ (repair_ready "e" false step_validate, frame_at 8)
    ∷ []

program : Unit {0}
unfolding run_loop count_advances start_adaptive_loop advance_adaptive_loop model_usage_or_limit
    valid_planned_actions actions_accepted action_key frame_failure frame_ending transition_time
    valid_frame_shape same_context worker_usable_for_loop budget_available valid_config
    valid_identifier valid_reference all_distinct non_empty trimmed_length is_identifier
program = tt

starts : start_adaptive_loop beginning ≡ loop_started started
unfolding program
starts = refl

validating : (run_loop started events).phase ≡ at_validate
unfolding program
validating = refl

advanced_calls : count_advances started events ≡ 7
unfolding program
advanced_calls = refl

count_advances_le_example : count_advances started events ≤ 11
count_advances_le_example = count_advances_le started events

start-run_loop-IsInLimits_example :
    IsInLimits beginning.config (run_loop started events).usage
    × IsExplained (run_loop started events)
start-run_loop-IsInLimits_example = start-run_loop-IsInLimits beginning started events starts

abbrev at_end : AdaptiveLoopSnapshot
at_end = record started { phase = at_validate }

passes :
    is_completed
      (advance_adaptive_loop at_end (validation_ready "e" outcome_pass) (frame_at 9)).snapshot.phase
    ≡ true
unfolding program
passes = refl

advance-completed_example :
    (at_end.phase ≡ at_validate)
    × (is_pass (validation_ready "e" outcome_pass) ≡ true)
    × IsUsable at_end (frame_at 9)
advance-completed_example =
    advance-completed at_end (validation_ready "e" outcome_pass) (frame_at 9) refl passes

abbrev at_tools : AdaptiveLoopSnapshot
at_tools = record started { phase = at_tool_plan }

advance-IsPlanned_example :
    IsPlanned at_tools
      (frame_at 9)
      (advance_adaptive_loop at_tools
        (tool_plan_ready "e" (read_action ∷ []) tool_validate)
        (frame_at 9)).snapshot.planned_actions
advance-IsPlanned_example =
    advance-IsPlanned at_tools (tool_plan_ready "e" (read_action ∷ []) tool_validate) (frame_at 9)
