-- ===== src/Executors/Accepted.antt =====
-- A classified uncertainty is accepted by the reconciliation
-- (services/executors/src/reconciliation/reconciliation.ts).
use aurora_ai_native.Prelude.{ℕ, ◌<◌, ◌≡◌, ◌⊎◌, Option, none, some, [], ◌∷◌, DateParse}
use aurora_ai_native.Containment.Time.{timestamp_ms}
use aurora_ai_native.Executors.Ambiguity.{
  ClassifyExecutionAmbiguityRequest, ExecutionUncertaintyRecord,
}
use aurora_ai_native.Executors.Reconciliation.{
  ReconciliationObservation, RetrySafeguardEvidence, ReconcileExecutionUncertaintyRequest,
  still_uncertain, reconciliation_required, ReconciliationResult,
}
use aurora_ai_native.Executors.Settled.{Settles}

module _ {ℓ} {Parameters : Type ℓ} where
  -- The reconciliation that follows a classification.
  abbrev pub asked :
      ClassifyExecutionAmbiguityRequest Parameters
      → ExecutionUncertaintyRecord
      → Option ReconciliationObservation
      → Option RetrySafeguardEvidence
      → ReconcileExecutionUncertaintyRequest Parameters
  asked c u observation safeguards = record {
    schema_version = c.schema_version;
    action_intent = c.action_intent;
    uncertainty = u;
    observation = observation;
    retry_safeguards = safeguards;
  }

  -- An observation whose time cannot be read or lies before the uncertain attempt.
  abbrev pub IsUntimely :
      DateParse → ClassifyExecutionAmbiguityRequest Parameters → ReconciliationObservation → Type 0
  IsUntimely date_parse c o =
      (timestamp_ms date_parse o.observed_at ≡ none)
      ⊎ ((at : ℕ) × (start : ℕ) × (date_parse o.observed_at ≡ some at)
          × (date_parse c.occurred_at ≡ some start)
          × (at < start))

  abbrev pub IsAnswer :
      DateParse
      → ClassifyExecutionAmbiguityRequest Parameters
      → Option ReconciliationObservation
      → ReconciliationResult
      → Type 0
  IsAnswer date_parse c none r =
      (r.state ≡ still_uncertain) × (r.reasons ≡ reconciliation_required ∷ [])
  IsAnswer date_parse c (some o) r =
      (IsUntimely date_parse c o × (r.state ≡ still_uncertain)) ⊎ Settles o.state r
