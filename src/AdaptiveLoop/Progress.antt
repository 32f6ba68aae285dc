-- ===== src/AdaptiveLoop/Progress.antt =====
-- Every advance of the adaptive loop is a step within its limits
-- (services/agent-runtime/src/loop/controller.ts).
use aurora_ai_native.Prelude.{◌≡◌, refl, Bool, true, not, Option, none, some, arith}
use aurora_ai_native.AdaptiveLoop.Types.{
  AdaptiveLoopPhase, at_observe, at_plan, at_tool_plan, at_waiting_tool_observation, at_inspect,
  at_repair, at_validate, AdaptiveLoopControlFrame, AdaptiveLoopTerminalReason,
  AdaptiveLoopSnapshot, AdaptiveLoopEvent, observation_ready, plan_ready, tool_plan_ready,
  tool_observation_ready, inspection_ready, repair_ready, validation_ready, cancel_requested_event,
  AdvanceAdaptiveLoopResult,
}
use aurora_ai_native.AdaptiveLoop.Frame.{valid_reference}
use aurora_ai_native.AdaptiveLoop.Advance.{
  is_terminal_phase, evidence_of, frame_ending, ended_by, frame_failure,
}
use aurora_ai_native.AdaptiveLoop.Phases.{in_phase, on_event, or_failure, advance_adaptive_loop}
use aurora_ai_native.AdaptiveLoop.Steps.{
  rank, IsStep, same_usage-IsGrown, terminate-IsStep, stop-IsStep, reject-IsStep, if-IsStep,
}
use aurora_ai_native.AdaptiveLoop.PhaseSteps.{
  observe-IsStep, plan-IsStep, tool_plan-IsStep, waiting-IsStep, inspect-IsStep, repair-IsStep,
  validate-IsStep,
}

in_phase-IsStep :
    (phase : AdaptiveLoopPhase) (s : AdaptiveLoopSnapshot) (frame : AdaptiveLoopControlFrame)
    (event : AdaptiveLoopEvent)
    → s.phase ≡ phase
    → IsStep (rank s.phase) s (in_phase phase s frame event)
in_phase-IsStep at_observe s frame event e = observe-IsStep s frame event e
in_phase-IsStep at_plan s frame event e = plan-IsStep s frame event e
in_phase-IsStep at_tool_plan s frame event e = tool_plan-IsStep s frame event e
in_phase-IsStep at_waiting_tool_observation s frame event e = waiting-IsStep s frame event e
in_phase-IsStep at_inspect s frame event e = inspect-IsStep s frame event e
in_phase-IsStep at_repair s frame event e = repair-IsStep s frame event
in_phase-IsStep at_validate s frame event e = validate-IsStep s frame event e
in_phase-IsStep _ s frame event e = reject-IsStep s

on_event-IsStep :
    (s : AdaptiveLoopSnapshot) (frame : AdaptiveLoopControlFrame) (event : AdaptiveLoopEvent)
    → IsStep (rank s.phase) s (on_event s frame event)
on_event-IsStep s frame (cancel_requested_event evidence) = stop-IsStep _ s _ _ evidence frame refl
on_event-IsStep s frame (observation_ready a) = in_phase-IsStep s.phase s frame _ refl
on_event-IsStep s frame (plan_ready a b c) = in_phase-IsStep s.phase s frame _ refl
on_event-IsStep s frame (tool_plan_ready a b c) = in_phase-IsStep s.phase s frame _ refl
on_event-IsStep s frame (tool_observation_ready a b) = in_phase-IsStep s.phase s frame _ refl
on_event-IsStep s frame (inspection_ready a b c) = in_phase-IsStep s.phase s frame _ refl
on_event-IsStep s frame (repair_ready a b c) = in_phase-IsStep s.phase s frame _ refl
on_event-IsStep s frame (validation_ready a b) = in_phase-IsStep s.phase s frame _ refl

-- A failure of the frame ends the loop.
abbrev IsFrameFailure : AdaptiveLoopSnapshot → Option AdvanceAdaptiveLoopResult → Type 0
IsFrameFailure s none = Unit
IsFrameFailure s (some r) = IsStep (rank s.phase) s r

abbrev ends : Option (AdaptiveLoopPhase × AdaptiveLoopTerminalReason) → Bool
ends none = true
ends (some (phase, reason)) = is_terminal_phase phase

ends-frame_ending :
    (s : AdaptiveLoopSnapshot) (frame : AdaptiveLoopControlFrame)
    → ends (frame_ending s frame) ≡ true
unfolding frame_ending
ends-frame_ending s frame = ground arith

ended_by-IsFrameFailure :
    (s : AdaptiveLoopSnapshot) (frame : AdaptiveLoopControlFrame)
    (ending : Option (AdaptiveLoopPhase × AdaptiveLoopTerminalReason))
    → ends ending ≡ true
    → IsFrameFailure s (ended_by s frame ending)
ended_by-IsFrameFailure s frame none t = tt
ended_by-IsFrameFailure s frame (some (phase, reason)) t =
    terminate-IsStep (rank s.phase) s phase reason frame.now_epoch_ms none s.usage t
      (same_usage-IsGrown s)

frame_failure-IsFrameFailure :
    (s : AdaptiveLoopSnapshot) (frame : AdaptiveLoopControlFrame)
    → IsFrameFailure s (frame_failure s frame)
unfolding frame_failure
frame_failure-IsFrameFailure s frame =
    ended_by-IsFrameFailure s frame (frame_ending s frame) (ends-frame_ending s frame)

or_failure-IsStep :
    (s : AdaptiveLoopSnapshot) (failure : Option AdvanceAdaptiveLoopResult)
    (r : AdvanceAdaptiveLoopResult)
    → IsFrameFailure s failure
    → IsStep (rank s.phase) s r
    → IsStep (rank s.phase) s (or_failure failure r)
or_failure-IsStep s none r f step = step
or_failure-IsStep s (some failure) r f step = f

pub advance-IsStep :
    (s : AdaptiveLoopSnapshot) (event : AdaptiveLoopEvent) (frame : AdaptiveLoopControlFrame)
    → IsStep (rank s.phase) s (advance_adaptive_loop s event frame)
unfolding advance_adaptive_loop
advance-IsStep s event frame =
    if-IsStep (rank s.phase) s (is_terminal_phase s.phase) _ _
      (λ h. record { same_config = refl; within = λ w. w; explained = λ e. e; paid = omega arith })
      (λ h. or_failure-IsStep s (frame_failure s frame) _ (frame_failure-IsFrameFailure s frame) (
        if-IsStep (rank s.phase) s (not (valid_reference (evidence_of event))) _ _
          (λ h2. reject-IsStep s) (λ h2. on_event-IsStep s frame event)))
