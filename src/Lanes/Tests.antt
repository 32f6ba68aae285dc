-- ===== src/Lanes/Tests.antt =====
-- Two tasks and their lanes, and the theorem at one of them.
use aurora_ai_native.Prelude.{◌≡◌, refl, ◌↔◌, false, [], ◌∷◌, non_empty, returned}
use aurora_ai_native.Lanes.{
  CapabilityRiskClass, medium, high, read_only, fast, compensatable, template_eligible, plan_ready,
  critical_or_high_risk, template_strategy, LaneResolutionInput, preferred_strategy,
  governing_reasons, resolution_of, resolve_planning_lane,
}
use aurora_ai_native.Lanes.Eligibility.{IsEligible, resolve-fast_iff}

abbrev task : CapabilityRiskClass → LaneResolutionInput
task risk = record {
  task_id = "k1";
  tenant_id = "t1";
  correlation_id = "c1";
  risk_class = risk;
  side_effect_class = read_only;
  reversibility = compensatable;
  complexity = template_eligible;
  capability_plan_status = plan_ready;
  approval_required = false;
  step_up_required = false;
}

resolve_task : resolve_planning_lane (task medium) ≡ returned (resolution_of (task medium))
unfolding resolve_planning_lane non_empty
resolve_task = refl

lane_high : (resolution_of (task high)).reasons ≡ critical_or_high_risk ∷ []
unfolding resolution_of governing_reasons
lane_high = refl

strategy_medium : (resolution_of (task medium)).preferred_planning_strategy ≡ template_strategy
unfolding resolution_of governing_reasons preferred_strategy
strategy_medium = refl

resolve-fast_iff_example :
    (((resolution_of (task medium)).lane ≡ fast) ↔ IsEligible (task medium))
    × ((resolution_of (task medium)).authorizes_execution ≡ false)
resolve-fast_iff_example = resolve-fast_iff (task medium) (resolution_of (task medium)) resolve_task
