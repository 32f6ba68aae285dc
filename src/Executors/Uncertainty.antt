-- ===== src/Executors/Uncertainty.antt =====
-- What makes a record of uncertainty valid (services/executors/src/reconciliation/reconciliation.ts).
use aurora_ai_native.Prelude.{
  ◌≤◌, ◌≡◌, sym, true, false, leb→le, &&-eq-true, not-eq-true, eq_iff, DateParse,
}
use aurora_ai_native.Executors.Reconciliation.{
  ReconcileExecutionUncertaintyRequest, valid_uncertainty_record,
}

module _ {ℓ} {Parameters : Type ℓ} where
  -- The uncertainty of a request is one of its intent: of the same schema version, id and correlation, at
  -- an attempt within its limit, and its result and error repeat it and ask for a reconciliation.
  pub record IsUncertaintyOf (q : ReconcileExecutionUncertaintyRequest Parameters) : Type ℓ where
    pub schema : q.uncertainty.schema_version ≡ q.schema_version
    pub intent_schema : q.action_intent.schema_version ≡ q.schema_version
    pub intent : q.uncertainty.action_intent_id ≡ q.action_intent.action_intent_id
    pub correlation : q.uncertainty.correlation_id ≡ q.action_intent.correlation_id
    pub kind : q.uncertainty.kind ≡ "EXECUTION_UNCERTAINTY_RECORD"
    pub attempt : 1 ≤ q.uncertainty.attempt_number
    pub limit : q.uncertainty.attempt_number ≤ q.uncertainty.max_attempts
    pub unauthorized : q.uncertainty.authorizes_execution ≡ false
    pub result_kind : q.uncertainty.execution_result.kind ≡ "ExecutionResult"
    pub result_schema : q.uncertainty.execution_result.schema_version ≡ q.uncertainty.schema_version
    pub result_correlation :
        q.uncertainty.execution_result.correlation_id ≡ q.uncertainty.correlation_id
    pub result_time : q.uncertainty.execution_result.timestamp ≡ q.uncertainty.occurred_at
    pub outcome : q.uncertainty.execution_result.outcome ≡ "EXECUTION_UNCERTAIN"
    pub error_kind : q.uncertainty.execution_result.error.kind ≡ "CanonicalError"
    pub error_schema :
        q.uncertainty.execution_result.error.schema_version ≡ q.uncertainty.schema_version
    pub code : q.uncertainty.execution_result.error.code ≡ "EXECUTION_UNCERTAIN"
    pub category : q.uncertainty.execution_result.error.category ≡ "EXECUTION_UNCERTAIN"
    pub retryability : q.uncertainty.execution_result.error.retryability ≡ "RECONCILE_BEFORE_RETRY"
    pub error_correlation :
        q.uncertainty.execution_result.error.correlation_id ≡ q.uncertainty.correlation_id
    pub error_time : q.uncertainty.execution_result.error.timestamp ≡ q.uncertainty.occurred_at
    pub classification :
        q.uncertainty.execution_result.error.classification ≡ q.action_intent.data_classification

  pub valid-IsUncertaintyOf :
      (date_parse : DateParse) (q : ReconcileExecutionUncertaintyRequest Parameters)
      → q.schema_version ≡ q.action_intent.schema_version
      → q.schema_version ≡ q.uncertainty.schema_version
      → q.action_intent.action_intent_id ≡ q.uncertainty.action_intent_id
      → q.action_intent.correlation_id ≡ q.uncertainty.correlation_id
      → valid_uncertainty_record date_parse q ≡ true
      → IsUncertaintyOf q
  unfolding valid_uncertainty_record
  valid-IsUncertaintyOf date_parse q e1 e2 e3 e4 h =
      let (h18, c19) = &&-eq-true _ _ h in
      let (h17, c18) = &&-eq-true _ _ h18 in
      let (h16, c17) = &&-eq-true _ _ h17 in
      let (h15, c16) = &&-eq-true _ _ h16 in
      let (h14, c15) = &&-eq-true _ _ h15 in
      let (h13, c14) = &&-eq-true _ _ h14 in
      let (h12, c13) = &&-eq-true _ _ h13 in
      let (h11, c12) = &&-eq-true _ _ h12 in
      let (h10, c11) = &&-eq-true _ _ h11 in
      let (h9, c10) = &&-eq-true _ _ h10 in
      let (h8, c9) = &&-eq-true _ _ h9 in
      let (h7, c8) = &&-eq-true _ _ h8 in
      let (h6, c7) = &&-eq-true _ _ h7 in
      let (h5, c6) = &&-eq-true _ _ h6 in
      let (h4, c5) = &&-eq-true _ _ h5 in
      let (h3, c4) = &&-eq-true _ _ h4 in
      let (h2, c3) = &&-eq-true _ _ h3 in
      let (c1, c2) = &&-eq-true _ _ h2 in
      record {
        schema = sym e2;
        intent_schema = sym e1;
        intent = sym e3;
        correlation = sym e4;
        attempt = leb→le 1 q.uncertainty.attempt_number c2;
        limit = leb→le q.uncertainty.attempt_number q.uncertainty.max_attempts c4;
        unauthorized = not-eq-true q.uncertainty.authorizes_execution c6;
        kind = (eq_iff q.uncertainty.kind "EXECUTION_UNCERTAINTY_RECORD").0 c1;
        result_kind = (eq_iff q.uncertainty.execution_result.kind "ExecutionResult").0 c7;
        result_schema =
            (eq_iff q.uncertainty.execution_result.schema_version q.uncertainty.schema_version).0
              c8;
        result_correlation =
            (eq_iff q.uncertainty.execution_result.correlation_id q.uncertainty.correlation_id).0
              c9;
        result_time =
            (eq_iff q.uncertainty.execution_result.timestamp q.uncertainty.occurred_at).0 c10;
        outcome = (eq_iff q.uncertainty.execution_result.outcome "EXECUTION_UNCERTAIN").0 c11;
        error_kind = (eq_iff q.uncertainty.execution_result.error.kind "CanonicalError").0 c12;
        error_schema =
            (eq_iff q.uncertainty.execution_result.error.schema_version
                q.uncertainty.schema_version).0
              c13;
        code = (eq_iff q.uncertainty.execution_result.error.code "EXECUTION_UNCERTAIN").0 c14;
        category =
            (eq_iff q.uncertainty.execution_result.error.category "EXECUTION_UNCERTAIN").0 c15;
        retryability =
            (eq_iff q.uncertainty.execution_result.error.retryability "RECONCILE_BEFORE_RETRY").0
              c16;
        error_correlation =
            (eq_iff q.uncertainty.execution_result.error.correlation_id
                q.uncertainty.correlation_id).0
              c17;
        error_time =
            (eq_iff q.uncertainty.execution_result.error.timestamp q.uncertainty.occurred_at).0 c18;
        classification =
            (eq_iff q.uncertainty.execution_result.error.classification
                q.action_intent.data_classification).0
              c19;
      }
