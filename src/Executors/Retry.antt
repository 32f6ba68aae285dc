-- ===== src/Executors/Retry.antt =====
-- When a retry is safe (services/executors/src/reconciliation/reconciliation.ts and
-- services/executors/src/safeguards/safeguards.ts).
use aurora_ai_native.Prelude.{
  ℕ, ◌+◌, ◌≤◌, ◌≡◌, refl, true, Option, none, some, arith, eqb_iff, eq_iff, DateParse,
}
use aurora_ai_native.Containment.Time.{timestamp_ms, timestamp_ms-parsed}
use aurora_ai_native.Executors.Reconciliation.{
  ObservationState, effect_observed, no_effect_confirmed, indeterminate, ReconciliationObservation,
  RetrySafeguardEvidence, ReconcileExecutionUncertaintyRequest, with_safeguards, retry_guarded,
  by_observation, timed, observed_or_required, reconcile_execution_uncertainty,
}
use aurora_ai_native.Executors.Uncertainty.{IsUncertaintyOf, valid-IsUncertaintyOf}

module _ {ℓ} {Parameters : Type ℓ} where
  -- What stands behind a retry.
  pub record IsRetryable (date_parse : DateParse)
      (q : ReconcileExecutionUncertaintyRequest Parameters) (next : ℕ) : Type ℓ where
    pub observation : ReconciliationObservation
    pub evidence : RetrySafeguardEvidence
    pub occurred : ℕ
    pub observed : ℕ
    pub evaluated : ℕ
    pub is_observation : q.observation ≡ some observation
    pub is_evidence : q.retry_safeguards ≡ some evidence
    pub no_effect : observation.state ≡ no_effect_confirmed
    pub occurred_at : date_parse q.uncertainty.occurred_at ≡ some occurred
    pub observed_at : date_parse observation.observed_at ≡ some observed
    pub evaluated_at : date_parse evidence.evaluated_at ≡ some evaluated
    pub in_order : (occurred ≤ observed) × (observed ≤ evaluated)
    pub is_next : (next ≡ q.uncertainty.attempt_number + 1) × (evidence.attempt_number ≡ next)
    pub in_limit : next ≤ q.uncertainty.max_attempts
    pub for_intent : IsUncertaintyOf q
    pub guards : evidence.result.safe_to_invoke_external ≡ true
    pub guarded_intent : evidence.result.action_intent_id ≡ q.action_intent.action_intent_id
    pub guarded_schema : evidence.result.schema_version ≡ q.schema_version

  with_safeguards-eligible :
      (q : ReconcileExecutionUncertaintyRequest Parameters) (evidence : RetrySafeguardEvidence)
      (observed next : ℕ) (evaluated : Option ℕ)
      → (with_safeguards q evidence observed evaluated).next_attempt_number ≡ some next
      → (e : ℕ) × (evaluated ≡ some e)
        × (observed ≤ e)
        × (next ≡ q.uncertainty.attempt_number + 1)
        × (evidence.attempt_number ≡ next)
        × (evidence.result.safe_to_invoke_external ≡ true)
        × (evidence.result.action_intent_id ≡ q.action_intent.action_intent_id)
        × (evidence.result.schema_version ≡ q.schema_version)
  with_safeguards-eligible q evidence observed next none h = ground arith
  with_safeguards-eligible q evidence observed next (some e) h = (
    e,
    refl,
    ground arith,
    ground arith,
    ground (arith, eqb_iff evidence.attempt_number (q.uncertainty.attempt_number + 1)),
    ground arith,
    ground (arith, eq_iff evidence.result.action_intent_id q.action_intent.action_intent_id),
    ground (arith, eq_iff evidence.result.schema_version q.schema_version),
  )

  no_effect-eligible :
      (date_parse : DateParse) (q : ReconcileExecutionUncertaintyRequest Parameters)
      (observed next : ℕ) (state : ObservationState)
      → (by_observation date_parse q observed state).next_attempt_number ≡ some next
      → (state ≡ no_effect_confirmed)
        × (q.uncertainty.attempt_number + 1 ≤ q.uncertainty.max_attempts)
        × ((retry_guarded date_parse q observed q.retry_safeguards).next_attempt_number ≡ some next)
  no_effect-eligible date_parse q observed next effect_observed h = ground arith
  no_effect-eligible date_parse q observed next indeterminate h = ground arith
  no_effect-eligible date_parse q observed next no_effect_confirmed h =
      (refl, ground arith, ground arith)

  timed-eligible :
      (date_parse : DateParse) (q : ReconcileExecutionUncertaintyRequest Parameters) (next : ℕ)
      (state : ObservationState) (observed occurred : Option ℕ)
      → (timed date_parse q state observed occurred).next_attempt_number ≡ some next
      → (o : ℕ) × (c : ℕ) × (observed ≡ some o)
        × (occurred ≡ some c)
        × (c ≤ o)
        × ((by_observation date_parse q o state).next_attempt_number ≡ some next)
  timed-eligible date_parse q next state none occurred h = ground arith
  timed-eligible date_parse q next state (some o) none h = ground arith
  timed-eligible date_parse q next state (some o) (some c) h =
      (o, c, refl, refl, ground arith, ground arith)

  guarded-eligible :
      (date_parse : DateParse) (q : ReconcileExecutionUncertaintyRequest Parameters)
      (observed next : ℕ) (safeguards : Option RetrySafeguardEvidence)
      → (retry_guarded date_parse q observed safeguards).next_attempt_number ≡ some next
      → (evidence : RetrySafeguardEvidence) × (safeguards ≡ some evidence)
        × ((with_safeguards q evidence observed
              (timestamp_ms date_parse evidence.evaluated_at)).next_attempt_number
            ≡ some next)
  guarded-eligible date_parse q observed next none h = ground arith
  guarded-eligible date_parse q observed next (some evidence) h = (evidence, refl, h)

  observed-eligible :
      (date_parse : DateParse) (q : ReconcileExecutionUncertaintyRequest Parameters) (next : ℕ)
      (observation : Option ReconciliationObservation)
      → (observed_or_required date_parse q observation).next_attempt_number ≡ some next
      → (o : ReconciliationObservation) × (observation ≡ some o)
        × ((timed date_parse q o.state
              (timestamp_ms date_parse o.observed_at)
              (timestamp_ms date_parse q.uncertainty.occurred_at)).next_attempt_number
            ≡ some next)
  observed-eligible date_parse q next none h = ground arith
  observed-eligible date_parse q next (some o) h = (o, refl, h)

  checked-eligible :
      (date_parse : DateParse) (q : ReconcileExecutionUncertaintyRequest Parameters) (next : ℕ)
      → (reconcile_execution_uncertainty date_parse q).next_attempt_number ≡ some next
      → IsUncertaintyOf q
        × ((observed_or_required date_parse q q.observation).next_attempt_number ≡ some next)
  unfolding reconcile_execution_uncertainty
  checked-eligible date_parse q next h = (
    valid-IsUncertaintyOf date_parse q
        (ground (arith, eq_iff q.schema_version q.action_intent.schema_version))
        (ground (arith, eq_iff q.schema_version q.uncertainty.schema_version))
        (ground (arith, eq_iff q.action_intent.action_intent_id q.uncertainty.action_intent_id))
        (ground (arith, eq_iff q.action_intent.correlation_id q.uncertainty.correlation_id))
        (ground arith),
    ground arith,
  )

  -- A reconciliation that names a next attempt does so on an uncertainty of the request's own intent, whose
  -- result and error repeat its schema version, correlation and time and ask for a reconciliation, and whose
  -- effect was confirmed absent, not before the attempt; the next attempt is the one after it and within the
  -- limit; and its safeguards are of the same intent and schema version, were evaluated for that very attempt,
  -- not before the observation, and allow an external call. The instants are those that the platform reads.
  pub reconcile-IsRetryable :
      (date_parse : DateParse) (q : ReconcileExecutionUncertaintyRequest Parameters) (next : ℕ)
      → (reconcile_execution_uncertainty date_parse q).next_attempt_number ≡ some next
      → IsRetryable date_parse q next
  reconcile-IsRetryable date_parse q next h =
      let (for_intent, h1) = checked-eligible date_parse q next h in
      let (o, is_o, h2) = observed-eligible date_parse q next q.observation h1 in
      let (observed, occurred, at_o, at_c, order, h3) =
        timed-eligible date_parse q next o.state _ _ h2 in
      let (absent, limit, h4) = no_effect-eligible date_parse q observed next o.state h3 in
      let (evidence, is_e, h5) =
        guarded-eligible date_parse q observed next q.retry_safeguards h4 in
      let (evaluated, at_e, later, is_next, attempt, passed, same_intent, same_schema) =
        with_safeguards-eligible q evidence observed next _ h5 in
      record {
        observation = o;
        evidence = evidence;
        occurred = occurred;
        observed = observed;
        evaluated = evaluated;
        is_observation = is_o;
        is_evidence = is_e;
        no_effect = absent;
        occurred_at = timestamp_ms-parsed date_parse q.uncertainty.occurred_at occurred at_c;
        observed_at = timestamp_ms-parsed date_parse o.observed_at observed at_o;
        evaluated_at = timestamp_ms-parsed date_parse evidence.evaluated_at evaluated at_e;
        in_order = (order, later);
        is_next = (is_next, attempt);
        in_limit = omega (arith, limit, is_next);
        for_intent = for_intent;
        guards = passed;
        guarded_intent = same_intent;
        guarded_schema = same_schema;
      }
