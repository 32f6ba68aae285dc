-- ===== src/Lanes.antt =====
-- packages/control/src/lanes: whether a task is planned on the fast or on the governed lane
-- (types.ts, resolver.ts). The classes of risk and side effect are those of
-- packages/registries/src/capabilities/registry.ts. Fields that are constants of their type,
-- `mandatoryValidations` and `authorizesExecution`, are kept.
pub mod Eligibility
mod Tests
use aurora_ai_native.Prelude.{
  String, Bool, true, false, not, List, [], ◌∷◌, push_if, is_empty, Outcome, if◌then◌else◌,
  non_empty, returned, threw,
}

pub data CapabilityRiskClass : Type 0 where
  low medium high critical : CapabilityRiskClass

pub data CapabilitySideEffectClass : Type 0 where
  read_only internal_state local_side_effect : CapabilitySideEffectClass
  external_side_effect destructive : CapabilitySideEffectClass

pub data PlanningLane : Type 0 where
  fast governed : PlanningLane

pub data TaskReversibility : Type 0 where
  reversible compensatable irreversible unknown_reversibility : TaskReversibility

pub data TaskComplexity : Type 0 where
  deterministic template_eligible adaptive unknown_complexity : TaskComplexity

pub data CapabilityPlanStatus : Type 0 where
  plan_ready plan_blocked : CapabilityPlanStatus

pub record LaneResolutionInput : Type 0 where
  pub task_id : String
  pub tenant_id : String
  pub correlation_id : String
  pub risk_class : CapabilityRiskClass
  pub side_effect_class : CapabilitySideEffectClass
  pub reversibility : TaskReversibility
  pub complexity : TaskComplexity
  pub capability_plan_status : CapabilityPlanStatus
  pub approval_required : Bool
  pub step_up_required : Bool

pub data LaneResolutionReason : Type 0 where
  capability_plan_blocked critical_or_high_risk destructive_side_effect : LaneResolutionReason
  irreversible_or_unknown needs_approval needs_step_up : LaneResolutionReason
  adaptive_or_unknown_complexity fast_eligible : LaneResolutionReason

pub record LaneResolutionEvidence : Type 0 where
  pub task_id : String
  pub risk_class : CapabilityRiskClass
  pub side_effect_class : CapabilitySideEffectClass
  pub reversibility : TaskReversibility
  pub complexity : TaskComplexity
  pub capability_plan_status : CapabilityPlanStatus
  pub approval_required : Bool
  pub step_up_required : Bool

pub data PlanningStrategy : Type 0 where
  deterministic_strategy template_strategy governed_reasoning : PlanningStrategy

pub data MandatoryValidation : Type 0 where
  current_policy current_authority executor_preconditions : MandatoryValidation

pub record LaneResolution : Type 0 where
  pub lane : PlanningLane
  pub tenant_id : String
  pub correlation_id : String
  pub reasons : List LaneResolutionReason
  pub evidence : LaneResolutionEvidence
  pub preferred_planning_strategy : PlanningStrategy
  pub mandatory_validations : List MandatoryValidation
  pub authorizes_execution : Bool

abbrev pub is_blocked : CapabilityPlanStatus → Bool
is_blocked plan_ready = false
is_blocked plan_blocked = true

abbrev pub is_risky : CapabilityRiskClass → Bool
is_risky low = false
is_risky medium = false
is_risky high = true
is_risky critical = true

abbrev pub is_destructive : CapabilitySideEffectClass → Bool
is_destructive destructive = true
is_destructive _ = false

abbrev pub is_lasting : TaskReversibility → Bool
is_lasting reversible = false
is_lasting compensatable = false
is_lasting irreversible = true
is_lasting unknown_reversibility = true

abbrev pub is_open_ended : TaskComplexity → Bool
is_open_ended deterministic = false
is_open_ended template_eligible = false
is_open_ended adaptive = true
is_open_ended unknown_complexity = true

unfoldable pub preferred_strategy : LaneResolutionInput → PlanningLane → PlanningStrategy
preferred_strategy input governed = governed_reasoning
preferred_strategy input fast = elim (input.complexity) [
  | deterministic ↦ deterministic_strategy
  | template_eligible ↦ template_strategy
  | adaptive ↦ deterministic_strategy
  | unknown_complexity ↦ deterministic_strategy
]

-- The reasons against the fast lane, in the order in which the code pushes them.
unfoldable pub governing_reasons : LaneResolutionInput → List LaneResolutionReason
governing_reasons input =
    push_if (is_blocked input.capability_plan_status) capability_plan_blocked (
      push_if (is_risky input.risk_class) critical_or_high_risk (
        push_if (is_destructive input.side_effect_class) destructive_side_effect (
          push_if (is_lasting input.reversibility) irreversible_or_unknown (
            push_if input.approval_required needs_approval (
              push_if input.step_up_required needs_step_up
                (push_if (is_open_ended input.complexity) adaptive_or_unknown_complexity []))))))

unfoldable pub resolution_of : LaneResolutionInput → LaneResolution
resolution_of input =
    let reasons = governing_reasons input in
    let lane = if is_empty reasons then fast else governed in
    record {
      lane = lane;
      tenant_id = input.tenant_id;
      correlation_id = input.correlation_id;
      reasons = if is_empty reasons then fast_eligible ∷ [] else reasons;
      evidence = record {
        task_id = input.task_id;
        risk_class = input.risk_class;
        side_effect_class = input.side_effect_class;
        reversibility = input.reversibility;
        complexity = input.complexity;
        capability_plan_status = input.capability_plan_status;
        approval_required = input.approval_required;
        step_up_required = input.step_up_required;
      };
      preferred_planning_strategy = preferred_strategy input lane;
      mandatory_validations = current_policy ∷ current_authority ∷ executor_preconditions ∷ [];
      authorizes_execution = false;
    }

unfoldable pub resolve_planning_lane : LaneResolutionInput → Outcome LaneResolution
resolve_planning_lane input =
    if not (non_empty input.task_id)
    then threw "taskId must not be empty"
    else returned (resolution_of input)
