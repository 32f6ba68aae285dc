-- ===== src/AdaptiveLoop/PhaseSteps.antt =====
-- In each phase, an advance of the adaptive loop is a step within its limits
-- (services/agent-runtime/src/loop/controller.ts).
use aurora_ai_native.Prelude.{
  ℕ, ◌+◌, String, ◌≡◌, refl, ap, false, not, some, List, arith, length, ltb, leb,
}
use aurora_ai_native.AdaptiveLoop.Types.{
  at_observe, at_plan, at_tool_plan, at_waiting_tool_observation, at_inspect, at_repair,
  at_validate, AdaptiveLoopControlFrame, PlannedToolAction, AdaptiveLoopUsage, AdaptiveLoopSnapshot,
  StepDisposition, ToolPlanDisposition, tool_await_observation, tool_validate, tool_abstain,
  tool_escalate, tool_fail, InspectionDisposition, inspect_validate, inspect_repair,
  inspect_abstain, inspect_escalate, inspect_fail, outcome_pass, outcome_repair, outcome_abstain,
  outcome_escalate, outcome_fail, status_unknown, AdaptiveLoopEvent, observation_ready, plan_ready,
  tool_plan_ready, tool_observation_ready, inspection_ready, repair_ready, validation_ready,
}
use aurora_ai_native.AdaptiveLoop.Advance.{
  model_usage_or_limit, ModelUsage, usage_left, usage_limit, valid_planned_actions,
}
use aurora_ai_native.AdaptiveLoop.Phases.{
  in_observe, after_model, in_plan, tool_planned, in_tool_plan, in_waiting, inspected, in_inspect,
  repaired, in_repair, in_validate,
}
use aurora_ai_native.AdaptiveLoop.Steps.{
  model_usage_or_limit-IsModelUsage, rank, IsStep, IsGrown, same_usage-IsGrown, terminate-IsStep,
  stop-IsStep, reject-IsStep, advanced-IsStep, disposition-IsStep, if-IsStep, IsModelUsage,
}

-- One more iteration, planning call or repair, where the limit leaves room.
iteration-IsGrown :
    (s : AdaptiveLoopSnapshot)
    → leb s.config.max_iterations s.usage.iterations ≡ false
    → IsGrown s (record (s.usage) { iterations = s.usage.iterations + 1 })
iteration-IsGrown s h = record {
  repairs = omega arith;
  within = λ w. record {
    iterations = ground arith;
    models = w.models;
    tools = w.tools;
    repairs = w.repairs;
  };
}

planning-IsGrown :
    (s : AdaptiveLoopSnapshot)
    → leb s.config.max_tool_planning_calls s.usage.tool_planning_calls ≡ false
    → IsGrown s (record (s.usage) { tool_planning_calls = s.usage.tool_planning_calls + 1 })
planning-IsGrown s h = record {
  repairs = omega arith;
  within = λ w. record {
    iterations = w.iterations;
    models = w.models;
    tools = ground arith;
    repairs = w.repairs;
  };
}

repair-IsGrown :
    (s : AdaptiveLoopSnapshot) (usage : AdaptiveLoopUsage)
    → leb s.config.max_repair_attempts s.usage.repair_attempts ≡ false
    → IsGrown s usage
    → IsGrown s (record usage { repair_attempts = s.usage.repair_attempts + 1 })
repair-IsGrown s usage h g = record {
  repairs = omega arith;
  within = λ w.
      let v = g.within w in
      record {
        iterations = v.iterations;
        models = v.models;
        tools = v.tools;
        repairs = ground arith;
      };
}

pub observe-IsStep :
    (s : AdaptiveLoopSnapshot) (frame : AdaptiveLoopControlFrame) (event : AdaptiveLoopEvent)
    → s.phase ≡ at_observe
    → IsStep (rank s.phase) s (in_observe s frame event)
observe-IsStep s frame (observation_ready evidence) e =
    if-IsStep _ s (leb s.config.max_iterations s.usage.iterations) _ _
      (λ h. stop-IsStep _ s _ _ evidence frame refl)
      (λ h.
        advanced-IsStep _ s at_plan evidence frame _ s.planned_actions refl (iteration-IsGrown s h)
          (omega (arith, ap rank e)))
observe-IsStep s frame _ e = reject-IsStep s

after_model-IsStep :
    (s : AdaptiveLoopSnapshot) (frame : AdaptiveLoopControlFrame) (evidence : String)
    (disposition : StepDisposition) (m : ModelUsage)
    → IsModelUsage 5 s m
    → IsStep 5 s (after_model s frame evidence disposition m)
after_model-IsStep s frame evidence disposition (usage_limit r) step = step
after_model-IsStep s frame evidence disposition (usage_left usage) (same, g) =
    disposition-IsStep 5 s frame evidence disposition usage g (omega (arith, same))

pub plan-IsStep :
    (s : AdaptiveLoopSnapshot) (frame : AdaptiveLoopControlFrame) (event : AdaptiveLoopEvent)
    → s.phase ≡ at_plan
    → IsStep (rank s.phase) s (in_plan s frame event)
plan-IsStep s frame (plan_ready evidence used disposition) e = rw (ap rank e) (
    after_model-IsStep s frame evidence disposition (model_usage_or_limit s frame evidence used)
      (model_usage_or_limit-IsModelUsage 5 s frame evidence used))
plan-IsStep s frame _ e = reject-IsStep s

tool_planned-IsStep :
    (s : AdaptiveLoopSnapshot) (frame : AdaptiveLoopControlFrame) (evidence : String)
    (actions : List PlannedToolAction) (usage : AdaptiveLoopUsage)
    (disposition : ToolPlanDisposition)
    → IsGrown s usage
    → IsStep 4 s (tool_planned s frame evidence actions usage disposition)
tool_planned-IsStep s frame evidence actions usage tool_await_observation g =
    advanced-IsStep 4 s _ evidence frame usage actions refl g (omega (arith, g.repairs))
tool_planned-IsStep s frame evidence actions usage tool_validate g =
    advanced-IsStep 4 s _ evidence frame usage actions refl g (omega (arith, g.repairs))
tool_planned-IsStep s frame evidence actions usage tool_abstain g =
    terminate-IsStep 4 s _ _ frame.now_epoch_ms (some evidence) usage refl g
tool_planned-IsStep s frame evidence actions usage tool_escalate g =
    terminate-IsStep 4 s _ _ frame.now_epoch_ms (some evidence) usage refl g
tool_planned-IsStep s frame evidence actions usage tool_fail g =
    terminate-IsStep 4 s _ _ frame.now_epoch_ms (some evidence) usage refl g

pub tool_plan-IsStep :
    (s : AdaptiveLoopSnapshot) (frame : AdaptiveLoopControlFrame) (event : AdaptiveLoopEvent)
    → s.phase ≡ at_tool_plan
    → IsStep (rank s.phase) s (in_tool_plan s frame event)
tool_plan-IsStep s frame (tool_plan_ready evidence actions disposition) e =
    if-IsStep _ s (leb s.config.max_tool_planning_calls s.usage.tool_planning_calls) _ _
      (λ h. stop-IsStep _ s _ _ evidence frame refl)
      (λ room.
        if-IsStep _ s (not (valid_planned_actions actions frame)) _ _
          (λ h.
            if-IsStep _ s (ltb frame.budget.remaining.tool_calls (length actions)) _ _
              (λ h2. stop-IsStep _ s _ _ evidence frame refl) (λ h2. reject-IsStep s))
          (λ h.
            rw (ap rank e) (
              tool_planned-IsStep s frame evidence actions _ disposition
                (planning-IsGrown s room))))
tool_plan-IsStep s frame _ e = reject-IsStep s

pub waiting-IsStep :
    (s : AdaptiveLoopSnapshot) (frame : AdaptiveLoopControlFrame) (event : AdaptiveLoopEvent)
    → s.phase ≡ at_waiting_tool_observation
    → IsStep (rank s.phase) s (in_waiting s frame event)
waiting-IsStep s frame (tool_observation_ready evidence status_unknown) e =
    stop-IsStep _ s _ _ evidence frame refl
waiting-IsStep s frame (tool_observation_ready evidence _) e =
    advanced-IsStep _ s _ evidence frame s.usage s.planned_actions refl (same_usage-IsGrown s)
      (omega (arith, ap rank e))
waiting-IsStep s frame _ e = reject-IsStep s

inspected-IsStep :
    (s : AdaptiveLoopSnapshot) (frame : AdaptiveLoopControlFrame) (evidence : String)
    (disposition : InspectionDisposition) (m : ModelUsage)
    → IsModelUsage 2 s m
    → IsStep 2 s (inspected s frame evidence disposition m)
inspected-IsStep s frame evidence disposition (usage_limit r) step = step
inspected-IsStep s frame evidence inspect_repair (usage_left usage) (same, g) =
    advanced-IsStep 2 s _ evidence frame usage s.planned_actions refl g (omega (arith, same))
inspected-IsStep s frame evidence inspect_validate (usage_left usage) (same, g) =
    advanced-IsStep 2 s _ evidence frame usage s.planned_actions refl g (omega (arith, same))
inspected-IsStep s frame evidence inspect_abstain (usage_left usage) (same, g) =
    terminate-IsStep 2 s _ _ frame.now_epoch_ms (some evidence) usage refl g
inspected-IsStep s frame evidence inspect_escalate (usage_left usage) (same, g) =
    terminate-IsStep 2 s _ _ frame.now_epoch_ms (some evidence) usage refl g
inspected-IsStep s frame evidence inspect_fail (usage_left usage) (same, g) =
    terminate-IsStep 2 s _ _ frame.now_epoch_ms (some evidence) usage refl g

pub inspect-IsStep :
    (s : AdaptiveLoopSnapshot) (frame : AdaptiveLoopControlFrame) (event : AdaptiveLoopEvent)
    → s.phase ≡ at_inspect
    → IsStep (rank s.phase) s (in_inspect s frame event)
inspect-IsStep s frame (inspection_ready evidence used disposition) e = rw (ap rank e) (
    inspected-IsStep s frame evidence disposition (model_usage_or_limit s frame evidence used)
      (model_usage_or_limit-IsModelUsage 2 s frame evidence used))
inspect-IsStep s frame _ e = reject-IsStep s

-- A repair takes one of those that are left, which pays for a whole round.
repaired-IsStep :
    (k : ℕ) (s : AdaptiveLoopSnapshot) (frame : AdaptiveLoopControlFrame) (evidence : String)
    (disposition : StepDisposition) (m : ModelUsage)
    → leb s.config.max_repair_attempts s.usage.repair_attempts ≡ false
    → IsModelUsage k s m
    → IsStep k s (repaired s frame evidence disposition m)
repaired-IsStep k s frame evidence disposition (usage_limit r) room step = step
repaired-IsStep k s frame evidence disposition (usage_left usage) room (same, g) =
    disposition-IsStep k s frame evidence disposition _ (repair-IsGrown s usage room g)
      (ground arith)

pub repair-IsStep :
    (s : AdaptiveLoopSnapshot) (frame : AdaptiveLoopControlFrame) (event : AdaptiveLoopEvent)
    → IsStep (rank s.phase) s (in_repair s frame event)
repair-IsStep s frame (repair_ready evidence used disposition) =
    if-IsStep _ s (leb s.config.max_repair_attempts s.usage.repair_attempts) _ _
      (λ h. stop-IsStep _ s _ _ evidence frame refl)
      (λ room.
        repaired-IsStep _ s frame evidence disposition (model_usage_or_limit s frame evidence used)
          room (model_usage_or_limit-IsModelUsage _ s frame evidence used))
repair-IsStep s frame _ = reject-IsStep s

pub validate-IsStep :
    (s : AdaptiveLoopSnapshot) (frame : AdaptiveLoopControlFrame) (event : AdaptiveLoopEvent)
    → s.phase ≡ at_validate
    → IsStep (rank s.phase) s (in_validate s frame event)
validate-IsStep s frame (validation_ready evidence outcome_repair) e =
    if-IsStep _ s (leb s.config.max_iterations s.usage.iterations) _ _
      (λ h. stop-IsStep _ s _ _ evidence frame refl)
      (λ h.
        advanced-IsStep _ s at_repair evidence frame _ s.planned_actions refl
          (iteration-IsGrown s h) (omega (arith, ap rank e)))
validate-IsStep s frame (validation_ready evidence outcome_pass) e =
    stop-IsStep _ s _ _ evidence frame refl
validate-IsStep s frame (validation_ready evidence outcome_abstain) e =
    stop-IsStep _ s _ _ evidence frame refl
validate-IsStep s frame (validation_ready evidence outcome_escalate) e =
    stop-IsStep _ s _ _ evidence frame refl
validate-IsStep s frame (validation_ready evidence outcome_fail) e =
    stop-IsStep _ s _ _ evidence frame refl
validate-IsStep s frame _ e = reject-IsStep s
