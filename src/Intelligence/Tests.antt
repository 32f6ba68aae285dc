-- ===== src/Intelligence/Tests.antt =====
-- Runs of the confidence and of the reasoning level (packages/intelligence/src) on concrete inputs.
use aurora_ai_native.Prelude.{ℕ, ◌≡◌, refl, true, false, some, [], ◌∷◌, returned, threw}
use aurora_ai_native.Budget.{degraded, apply, degrade_optional}
use aurora_ai_native.Intelligence.Confidence.{
  proceed_with_evidence, ConfidenceEvaluationRequest, invalid_signal, uncertainty_reasons_of,
  complete_score, classify, evaluation_of, evaluate_confidence,
}
use aurora_ai_native.Intelligence.Disposition.{IsConfident, evaluate-IsConfident}
use aurora_ai_native.Intelligence.Reasoning.{
  level_2, medium_uncertainty, high_task, ReasoningBudgetProjection, ReasoningLevelRequest,
  budget_optional_degradation, ReasoningLevelResolution, escalate, requested_level, request_reasons,
  invalid_budget, affordable_from, highest_affordable_level, reasoning_resolution, resolve_within,
  resolve_reasoning_level,
}
use aurora_ai_native.Intelligence.Levels.{IsPaid, resolve-IsPaid}

abbrev good : ConfidenceEvaluationRequest
good = record {
  tenant_id = "t";
  correlation_id = "c";
  signals = record {
    evidence_quality_bps = some 9000;
    consistency_bps = some 9000;
    coverage_bps = some 8000;
    freshness_bps = some 8000;
    ambiguity_bps = some 1000;
  };
}

program : Unit {0}
unfolding evaluate_confidence invalid_signal uncertainty_reasons_of complete_score classify
    resolve_reasoning_level invalid_budget resolve_within requested_level request_reasons escalate
    highest_affordable_level affordable_from
program = tt

good_returns : evaluate_confidence good ≡ returned (evaluation_of good)
unfolding program
good_returns = refl

good_proceeds : (evaluation_of good).disposition ≡ proceed_with_evidence
unfolding program
good_proceeds = refl

out_of_range :
    evaluate_confidence
      (record good { signals = record (good.signals) { freshness_bps = some 10001 } })
    ≡ threw "freshnessBps must be an integer between 0 and 10000 basis points"
unfolding program
out_of_range = refl

evaluate-IsConfident_example :
    (score : ℕ) × ((evaluation_of good).score_bps ≡ some score) × IsConfident good.signals score
evaluate-IsConfident_example =
    evaluate-IsConfident good (evaluation_of good) good_returns good_proceeds

abbrev tight : ReasoningBudgetProjection
tight = record {
  source = "W04_EXECUTION_BUDGET_ASSESSMENT";
  budget_id = "b";
  state = degraded;
  action = apply degrade_optional;
  remaining_reasoning_units = 4;
  mandatory_safety_validation_required = true;
  can_skip_mandatory_validation = false;
  authorizes_execution = false;
}

abbrev hard_task : ReasoningLevelRequest
hard_task = record {
  tenant_id = "t";
  correlation_id = "c";
  classified_tenant_id = "t";
  classified_correlation_id = "c";
  complexity = high_task;
  uncertainty = medium_uncertainty;
  budget = some tight;
}

abbrev lowered : ReasoningLevelResolution
lowered =
    reasoning_resolution hard_task (some tight) (some level_2) (budget_optional_degradation ∷ [])

lowers : resolve_reasoning_level hard_task ≡ returned lowered
unfolding program
lowers = refl

resolve-IsPaid_example : IsPaid hard_task tight level_2
resolve-IsPaid_example = resolve-IsPaid hard_task tight lowered level_2 refl lowers refl
