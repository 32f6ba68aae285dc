-- ===== src/Intelligence/Disposition.antt =====
-- What a confidence is worth (packages/intelligence/src/confidence/engine.ts).
use aurora_ai_native.Prelude.{
  ℕ, ◌+◌, ◌≤◌, ◌<◌, String, ◌≡◌, refl, sym, ap, ◌∙◌, true, false, Option, none, some, arith, any,
  returned,
}
use aurora_ai_native.Intelligence.Confidence.{
  proceed_with_evidence, ConfidenceSignalSet, ConfidenceEvaluationRequest, ConfidenceEvaluation,
  invalid_signal, conflicting, uncertainty_reasons_of, score_of, score_with, complete_score,
  same_doubt, low_ambiguity, classify, evaluation_of, evaluated, evaluate_confidence,
}

-- The signals that let a result proceed.
pub record IsConfident (s : ConfidenceSignalSet) (score : ℕ) : Type 0 where
  pub quality : ℕ
  pub consistency : ℕ
  pub coverage : ℕ
  pub freshness : ℕ
  pub ambiguity : ℕ
  pub has_quality : s.evidence_quality_bps ≡ some quality
  pub has_consistency : s.consistency_bps ≡ some consistency
  pub has_coverage : s.coverage_bps ≡ some coverage
  pub has_freshness : s.freshness_bps ≡ some freshness
  pub has_ambiguity : s.ambiguity_bps ≡ some ambiguity
  pub is_score : score ≡ score_of quality consistency coverage freshness ambiguity
  pub high : (8000 ≤ score) × (score ≤ 10000)
  pub clear : ambiguity ≤ 2000
  pub agreeing : (consistency < quality + 5000) × (quality < consistency + 5000)

proceed-cases :
    (score : Option ℕ) (s : ConfidenceSignalSet)
    → (classify score s (uncertainty_reasons_of s)).1 ≡ proceed_with_evidence
    → (n : ℕ) × (score ≡ some n)
      × (8000 ≤ n)
      × (low_ambiguity s.ambiguity_bps ≡ true)
      × (any same_doubt (uncertainty_reasons_of s) ≡ false)
unfolding classify
proceed-cases none s h = ground arith
proceed-cases (some n) s h = (n, refl, ground arith, ground arith, ground arith)

score_le :
    (q c v f a : ℕ) → q ≤ 10000 → c ≤ 10000 → v ≤ 10000 → f ≤ 10000 → score_of q c v f a ≤ 10000
score_le q c v f a hq hc hv hf = omega arith

proceed-IsConfident :
    (q c v f a : Option ℕ) (n : ℕ)
    → invalid_signal (record {
      evidence_quality_bps = q;
      consistency_bps = c;
      coverage_bps = v;
      freshness_bps = f;
      ambiguity_bps = a;
    })
      ≡ none
    → score_with q c v f a ≡ some n
    → 8000 ≤ n
    → low_ambiguity a ≡ true
    → conflicting c q ≡ false
    → IsConfident
        (record {
          evidence_quality_bps = q;
          consistency_bps = c;
          coverage_bps = v;
          freshness_bps = f;
          ambiguity_bps = a;
        })
        n
unfolding invalid_signal
proceed-IsConfident (some q) (some c) (some v) (some f) (some a) n valid e high clear same =
    let is_n : n ≡ score_of q c v f a = ground arith in
    record {
      quality = q;
      consistency = c;
      coverage = v;
      freshness = f;
      ambiguity = a;
      has_quality = refl;
      has_consistency = refl;
      has_coverage = refl;
      has_freshness = refl;
      has_ambiguity = refl;
      is_score = is_n;
      high = (
        high,
        rw is_n (score_le q c v f a (ground arith) (ground arith) (ground arith) (ground arith)),
      );
      clear = ground arith;
      agreeing = (ground arith, ground arith);
    }
proceed-IsConfident (some q) (some c) (some v) (some f) none n valid e high clear same =
    ground arith
proceed-IsConfident (some q) (some c) (some v) none a n valid e high clear same = ground arith
proceed-IsConfident (some q) (some c) none f a n valid e high clear same = ground arith
proceed-IsConfident (some q) none v f a n valid e high clear same = ground arith
proceed-IsConfident none c v f a n valid e high clear same = ground arith

doubtless-agreeing :
    (s : ConfidenceSignalSet)
    → any same_doubt (uncertainty_reasons_of s) ≡ false
    → conflicting s.consistency_bps s.evidence_quality_bps ≡ false
unfolding uncertainty_reasons_of
doubtless-agreeing s h = ground arith

evaluated-returned :
    (q : ConfidenceEvaluationRequest) (invalid : Option String) (e : ConfidenceEvaluation)
    → evaluated q invalid ≡ returned e
    → (invalid ≡ none) × (e ≡ evaluation_of q)
evaluated-returned q (some field) e h = ground arith
evaluated-returned q none e h = (refl, ground arith)

-- An evaluation that lets a result proceed knows all five signals; its score is their weighted mean,
-- between 8,000 and 10,000 basis points; the ambiguity is at most 2,000, and the consistency and the
-- quality of the evidence are less than 5,000 apart.
pub evaluate-IsConfident :
    (q : ConfidenceEvaluationRequest) (e : ConfidenceEvaluation)
    → evaluate_confidence q ≡ returned e
    → e.disposition ≡ proceed_with_evidence
    → (score : ℕ) × (e.score_bps ≡ some score) × IsConfident q.signals score
unfolding evaluate_confidence complete_score
evaluate-IsConfident q e h d =
    let (valid, is_e) = evaluated-returned q (invalid_signal q.signals) e h in
    let s = q.signals in
    let proceeds = sym (ap (λ t. t.disposition) is_e) ∙ d in
    let (n, score, high, clear, doubtless) = proceed-cases (complete_score s) s proceeds in
    (
      n,
      ap (λ t. t.score_bps) is_e ∙ score,
      proceed-IsConfident s.evidence_quality_bps s.consistency_bps s.coverage_bps s.freshness_bps
          s.ambiguity_bps n valid score high clear (doubtless-agreeing s doubtless),
    )
