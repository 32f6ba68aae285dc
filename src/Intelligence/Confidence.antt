-- ===== src/Intelligence/Confidence.antt =====
-- evaluateConfidence and createCalibrationSample (packages/intelligence/src/confidence/engine.ts).
-- Signals are natural numbers of basis points; `none` stands for null.
use Prim.Native.String
use aurora_ai_native.Prelude.{
  ℕ, ◌+◌, ◌-◌, ◌*◌, ◌/◌, String, Bool, true, false, ◌&&◌, not, Option, none, some, List, [], any,
  push_if, Outcome, ltb, leb, if◌then◌else◌, is_some, DateParse, returned, threw,
}
use aurora_ai_native.Containment.Time.{timestamp_ms}

pub data ConfidenceBand : Type 0 where
  high_band medium_band low_band unknown_band : ConfidenceBand

pub data ConfidenceDisposition : Type 0 where
  proceed_with_evidence verify_first escalate_first abstain_from : ConfidenceDisposition

pub record ConfidenceSignalSet : Type 0 where
  pub evidence_quality_bps : Option ℕ
  pub consistency_bps : Option ℕ
  pub coverage_bps : Option ℕ
  pub freshness_bps : Option ℕ
  pub ambiguity_bps : Option ℕ

pub record ConfidenceEvaluationRequest : Type 0 where
  pub tenant_id : String
  pub correlation_id : String
  pub signals : ConfidenceSignalSet

pub data ConfidenceUncertaintyReason : Type 0 where
  evidence_quality_unknown consistency_unknown : ConfidenceUncertaintyReason
  coverage_unknown freshness_unknown ambiguity_unknown : ConfidenceUncertaintyReason
  high_ambiguity low_evidence_quality signal_conflict : ConfidenceUncertaintyReason

pub record ConfidenceEvaluation : Type 0 where
  pub tenant_id : String
  pub correlation_id : String
  pub score_bps : Option ℕ
  pub band : ConfidenceBand
  pub disposition : ConfidenceDisposition
  pub decomposition : ConfidenceSignalSet
  pub uncertainty_reasons : List ConfidenceUncertaintyReason

pub data CalibrationObservedOutcome : Type 0 where
  correct_outcome incorrect_outcome indeterminate_outcome : CalibrationObservedOutcome

pub record ConfidenceCalibrationSample : Type 0 where
  pub tenant_id : String
  pub correlation_id : String
  pub predicted_score_bps : Option ℕ
  pub predicted_band : ConfidenceBand
  pub observed_outcome : CalibrationObservedOutcome
  pub recorded_at : String

abbrev pub bps_max : ℕ
bps_max = 10000

-- `validateSignal`: whether it does not throw.
abbrev pub valid_signal : Option ℕ → Bool
valid_signal none = true
valid_signal (some value) = leb value bps_max

-- `validateSignals`: the field of the first signal that is out of range.
unfoldable pub invalid_signal : ConfidenceSignalSet → Option String
invalid_signal signals =
    if not (valid_signal signals.evidence_quality_bps)
    then some "evidenceQualityBps"
    else if not (valid_signal signals.consistency_bps)
    then some "consistencyBps"
    else if not (valid_signal signals.coverage_bps)
    then some "coverageBps"
    else if not (valid_signal signals.freshness_bps)
    then some "freshnessBps"
    else if not (valid_signal signals.ambiguity_bps)
    then some "ambiguityBps"
    else none

abbrev pub is_high : Option ℕ → Bool
is_high none = false
is_high (some value) = leb 7000 value

abbrev pub is_low : Option ℕ → Bool
is_low none = false
is_low (some value) = ltb value 4000

-- `Math.abs(consistencyBps - evidenceQualityBps) >= 5_000`
abbrev pub conflicting : Option ℕ → Option ℕ → Bool
conflicting (some a) (some b) = leb 5000 ((a - b) + (b - a))
conflicting none _ = false
conflicting (some a) none = false

unfoldable pub uncertainty_reasons_of : ConfidenceSignalSet → List ConfidenceUncertaintyReason
uncertainty_reasons_of s = push_if (not (is_some s.evidence_quality_bps)) evidence_quality_unknown (
    push_if (not (is_some s.consistency_bps)) consistency_unknown (
      push_if (not (is_some s.coverage_bps)) coverage_unknown (
        push_if (not (is_some s.freshness_bps)) freshness_unknown (
          push_if (not (is_some s.ambiguity_bps)) ambiguity_unknown (
            push_if (is_high s.ambiguity_bps) high_ambiguity (
              push_if (is_low s.evidence_quality_bps) low_evidence_quality (
                push_if (conflicting s.consistency_bps s.evidence_quality_bps) signal_conflict
                  [])))))))

-- `completeScore`: the weighted mean, rounded down. A valid ambiguity is at most `bps_max`.
abbrev pub score_of : ℕ → ℕ → ℕ → ℕ → ℕ → ℕ
score_of quality consistency coverage freshness ambiguity =
    (quality * 30 + consistency * 25 + coverage * 20 + freshness * 15 + (bps_max - ambiguity) * 10)
    / 100

abbrev pub score_with : Option ℕ → Option ℕ → Option ℕ → Option ℕ → Option ℕ → Option ℕ
score_with (some q) (some c) (some v) (some f) (some a) = some (score_of q c v f a)
score_with (some q) (some c) (some v) (some f) none = none
score_with (some q) (some c) (some v) none a = none
score_with (some q) (some c) none f a = none
score_with (some q) none v f a = none
score_with none c v f a = none

unfoldable pub complete_score : ConfidenceSignalSet → Option ℕ
complete_score s =
    score_with s.evidence_quality_bps s.consistency_bps s.coverage_bps s.freshness_bps
      s.ambiguity_bps

abbrev pub same_doubt : ConfidenceUncertaintyReason → Bool
same_doubt signal_conflict = true
same_doubt high_ambiguity = true
same_doubt _ = false

abbrev pub low_ambiguity : Option ℕ → Bool
low_ambiguity none = false
low_ambiguity (some value) = leb value 2000

unfoldable pub classify :
    Option ℕ
    → ConfidenceSignalSet
    → List ConfidenceUncertaintyReason
    → ConfidenceBand × ConfidenceDisposition
classify none signals reasons = (unknown_band, abstain_from)
classify (some score) signals reasons =
    if any same_doubt reasons
    then (if leb 5000 score then (low_band, escalate_first) else (low_band, abstain_from))
    else if leb 8000 score && low_ambiguity signals.ambiguity_bps
    then (high_band, proceed_with_evidence)
    else if leb 6000 score
    then (medium_band, verify_first)
    else if leb 3500 score
    then (low_band, escalate_first)
    else (low_band, abstain_from)

abbrev pub evaluation_of : ConfidenceEvaluationRequest → ConfidenceEvaluation
evaluation_of q = record {
  tenant_id = q.tenant_id;
  correlation_id = q.correlation_id;
  score_bps = complete_score q.signals;
  band = (classify (complete_score q.signals) q.signals (uncertainty_reasons_of q.signals)).0;
  disposition =
      (classify (complete_score q.signals) q.signals (uncertainty_reasons_of q.signals)).1;
  decomposition = q.signals;
  uncertainty_reasons = uncertainty_reasons_of q.signals;
}

abbrev pub evaluated : ConfidenceEvaluationRequest → Option String → Outcome ConfidenceEvaluation
evaluated q (some field) =
    threw (String.◌++◌ field " must be an integer between 0 and 10000 basis points")
evaluated q none = returned (evaluation_of q)

unfoldable pub evaluate_confidence : ConfidenceEvaluationRequest → Outcome ConfidenceEvaluation
evaluate_confidence q = evaluated q (invalid_signal q.signals)

unfoldable pub create_calibration_sample :
    DateParse
    → ConfidenceEvaluation
    → CalibrationObservedOutcome
    → String
    → Outcome ConfidenceCalibrationSample
create_calibration_sample date_parse e outcome recorded_at =
    if not (is_some (timestamp_ms date_parse recorded_at))
    then threw "recordedAt must be a valid RFC3339 timestamp"
    else returned (record {
      tenant_id = e.tenant_id;
      correlation_id = e.correlation_id;
      predicted_score_bps = e.score_bps;
      predicted_band = e.band;
      observed_outcome = outcome;
      recorded_at = recorded_at;
    })
