-- ===== src/Executors/Reconciliation.antt =====
-- reconcileExecutionUncertainty (services/executors/src/reconciliation/reconciliation.ts).
use aurora_ai_native.Prelude.{
  ℕ, ◌+◌, String, Bool, true, false, ◌&&◌, ◌||◌, not, Option, none, some, List, [], ◌∷◌, ◌==◌, ltb,
  leb, eqb, if◌then◌else◌, is_some, DateParse,
}
use aurora_ai_native.Containment.Time.{timestamp_ms}
use aurora_ai_native.Executors.Intent.{ActionIntent}
use aurora_ai_native.Executors.Safeguards.{ExecutionSafeguardResult}
use aurora_ai_native.Executors.Ambiguity.{ExecutionUncertaintyRecord}

pub data ObservationState : Type 0 where
  effect_observed no_effect_confirmed indeterminate : ObservationState

pub record ReconciliationObservation : Type 0 where
  pub state : ObservationState
  pub observed_at : String

pub record RetrySafeguardEvidence : Type 0 where
  pub attempt_number : ℕ
  pub evaluated_at : String
  pub result : ExecutionSafeguardResult

pub record ReconcileExecutionUncertaintyRequest {ℓ} (Parameters : Type ℓ) : Type ℓ where
  pub schema_version : String
  pub action_intent : ActionIntent Parameters
  pub uncertainty : ExecutionUncertaintyRecord
  pub observation : Option ReconciliationObservation
  pub retry_safeguards : Option RetrySafeguardEvidence

pub data ReconciliationState : Type 0 where
  still_uncertain effect_was_observed : ReconciliationState
  no_effect_retry_blocked no_effect_retry_eligible : ReconciliationState

pub data ReconciliationReason : Type 0 where
  reconciliation_required schema_mismatch action_intent_mismatch : ReconciliationReason
  correlation_mismatch uncertainty_invalid time_invalid : ReconciliationReason
  time_order_invalid effect_already_observed reconciliation_indeterminate : ReconciliationReason
  retry_attempt_limit_reached retry_guards_required : ReconciliationReason
  retry_guards_time_invalid retry_guards_stale : ReconciliationReason
  retry_guards_attempt_mismatch retry_guards_blocked : ReconciliationReason

pub record ReconciliationResult : Type 0 where
  pub schema_version : String
  pub action_intent_id : String
  pub state : ReconciliationState
  pub reasons : List ReconciliationReason
  pub reconciliation_required : Bool
  pub retry_eligible_after_fresh_guards : Bool
  pub next_attempt_number : Option ℕ

module _ {ℓ} {Parameters : Type ℓ} where
  -- `reconciliationResult`: at most one reason, so nothing to sort.
  abbrev pub reconciliation_result :
      ReconcileExecutionUncertaintyRequest Parameters
      → ReconciliationState
      → List ReconciliationReason
      → Bool
      → Bool
      → Option ℕ
      → ReconciliationResult
  reconciliation_result q state reasons required eligible next = record {
    schema_version = q.schema_version;
    action_intent_id = q.action_intent.action_intent_id;
    state = state;
    reasons = reasons;
    reconciliation_required = required;
    retry_eligible_after_fresh_guards = eligible;
    next_attempt_number = next;
  }

  abbrev pub uncertain :
      ReconcileExecutionUncertaintyRequest Parameters → ReconciliationReason → ReconciliationResult
  uncertain q reason = reconciliation_result q still_uncertain (reason ∷ []) true false none

  abbrev pub blocked :
      ReconcileExecutionUncertaintyRequest Parameters → ReconciliationReason → ReconciliationResult
  blocked q reason = reconciliation_result q no_effect_retry_blocked (reason ∷ []) false false none

  -- `validUncertaintyRecord`
  unfoldable pub valid_uncertainty_record :
      DateParse → ReconcileExecutionUncertaintyRequest Parameters → Bool
  valid_uncertainty_record date_parse q =
      let u = q.uncertainty in
      let result = u.execution_result in
      let error = result.error in
      u.kind == "EXECUTION_UNCERTAINTY_RECORD"
      && leb 1 u.attempt_number
      && leb 1 u.max_attempts
      && leb u.attempt_number u.max_attempts
      && is_some (timestamp_ms date_parse u.occurred_at)
      && not u.authorizes_execution
      && result.kind == "ExecutionResult"
      && result.schema_version == u.schema_version
      && result.correlation_id == u.correlation_id
      && result.timestamp == u.occurred_at
      && result.outcome == "EXECUTION_UNCERTAIN"
      && error.kind == "CanonicalError"
      && error.schema_version == u.schema_version
      && error.code == "EXECUTION_UNCERTAIN"
      && error.category == "EXECUTION_UNCERTAIN"
      && error.retryability == "RECONCILE_BEFORE_RETRY"
      && error.correlation_id == u.correlation_id
      && error.timestamp == u.occurred_at
      && error.classification == q.action_intent.data_classification

  -- The safeguards of the next attempt, evaluated at `evaluated`.
  abbrev pub with_safeguards :
      ReconcileExecutionUncertaintyRequest Parameters
      → RetrySafeguardEvidence
      → ℕ
      → Option ℕ
      → ReconciliationResult
  with_safeguards q evidence observed none = blocked q retry_guards_time_invalid
  with_safeguards q evidence observed (some evaluated) =
      if ltb evaluated observed
      then blocked q retry_guards_stale
      else if not (eqb evidence.attempt_number (q.uncertainty.attempt_number + 1))
      then blocked q retry_guards_attempt_mismatch
      else if not (evidence.result.schema_version == q.schema_version)
          || not (evidence.result.action_intent_id == q.action_intent.action_intent_id)
          || not evidence.result.safe_to_invoke_external
      then blocked q retry_guards_blocked
      else reconciliation_result q no_effect_retry_eligible [] false true
          (some (q.uncertainty.attempt_number + 1))

  abbrev pub retry_guarded :
      DateParse
      → ReconcileExecutionUncertaintyRequest Parameters
      → ℕ
      → Option RetrySafeguardEvidence
      → ReconciliationResult
  retry_guarded date_parse q observed none = blocked q retry_guards_required
  retry_guarded date_parse q observed (some evidence) =
      with_safeguards q evidence observed (timestamp_ms date_parse evidence.evaluated_at)

  abbrev pub by_observation :
      DateParse
      → ReconcileExecutionUncertaintyRequest Parameters
      → ℕ
      → ObservationState
      → ReconciliationResult
  by_observation date_parse q observed effect_observed =
      reconciliation_result q effect_was_observed (effect_already_observed ∷ []) false false none
  by_observation date_parse q observed indeterminate = uncertain q reconciliation_indeterminate
  by_observation date_parse q observed no_effect_confirmed =
      if leb q.uncertainty.max_attempts q.uncertainty.attempt_number
      then blocked q retry_attempt_limit_reached
      else retry_guarded date_parse q observed q.retry_safeguards

  abbrev pub timed :
      DateParse
      → ReconcileExecutionUncertaintyRequest Parameters
      → ObservationState
      → Option ℕ
      → Option ℕ
      → ReconciliationResult
  timed date_parse q state none occurred = uncertain q time_invalid
  timed date_parse q state (some observed) none = uncertain q time_invalid
  timed date_parse q state (some observed) (some occurred) =
      if ltb observed occurred
      then uncertain q time_order_invalid
      else by_observation date_parse q observed state

  abbrev pub observed_or_required :
      DateParse
      → ReconcileExecutionUncertaintyRequest Parameters
      → Option ReconciliationObservation
      → ReconciliationResult
  observed_or_required date_parse q none = uncertain q reconciliation_required
  observed_or_required date_parse q (some observation) =
      timed date_parse q observation.state (timestamp_ms date_parse observation.observed_at)
        (timestamp_ms date_parse q.uncertainty.occurred_at)

  unfoldable pub reconcile_execution_uncertainty :
      DateParse → ReconcileExecutionUncertaintyRequest Parameters → ReconciliationResult
  reconcile_execution_uncertainty date_parse q =
      if not (q.schema_version == q.action_intent.schema_version)
        || not (q.schema_version == q.uncertainty.schema_version)
      then uncertain q schema_mismatch
      else if not (q.action_intent.action_intent_id == q.uncertainty.action_intent_id)
      then uncertain q action_intent_mismatch
      else if not (q.action_intent.correlation_id == q.uncertainty.correlation_id)
      then uncertain q correlation_mismatch
      else if not (valid_uncertainty_record date_parse q)
      then uncertain q uncertainty_invalid
      else observed_or_required date_parse q q.observation
