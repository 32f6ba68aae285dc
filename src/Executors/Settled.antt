-- ===== src/Executors/Settled.antt =====
-- What a timely observation settles (services/executors/src/reconciliation/reconciliation.ts).
use aurora_ai_native.Prelude.{
  ◌||◌, not, ◌==◌, leb, eqb, ℕ, ◌+◌, ◌≡◌, refl, ◌⊎◌, inl, inr, Bool, true, false, Option, none,
  some, [], ◌∷◌, All, ltb, if◌then◌else◌, DateParse,
}
use aurora_ai_native.Containment.Time.{timestamp_ms}
use aurora_ai_native.Executors.Reconciliation.{
  ObservationState, effect_observed, no_effect_confirmed, indeterminate, RetrySafeguardEvidence,
  ReconcileExecutionUncertaintyRequest, still_uncertain, effect_was_observed,
  no_effect_retry_blocked, no_effect_retry_eligible, ReconciliationReason, schema_mismatch,
  action_intent_mismatch, correlation_mismatch, uncertainty_invalid, reconciliation_indeterminate,
  retry_attempt_limit_reached, retry_guards_required, retry_guards_time_invalid, retry_guards_stale,
  retry_guards_attempt_mismatch, retry_guards_blocked, reconciliation_result, blocked,
  ReconciliationResult, with_safeguards, retry_guarded, by_observation,
}

-- The reasons that find fault with the uncertainty itself.
abbrev pub is_refusal : ReconciliationReason → Bool
is_refusal schema_mismatch = true
is_refusal action_intent_mismatch = true
is_refusal correlation_mismatch = true
is_refusal uncertainty_invalid = true
is_refusal _ = false

-- What a timely observation settles.
abbrev pub Settles : ObservationState → ReconciliationResult → Type 0
Settles effect_observed r = (r.state ≡ effect_was_observed) × (r.next_attempt_number ≡ none)
Settles indeterminate r =
    (r.state ≡ still_uncertain) × (r.reasons ≡ reconciliation_indeterminate ∷ [])
Settles no_effect_confirmed r =
    (r.reconciliation_required ≡ false)
    × ((r.state ≡ no_effect_retry_blocked) ⊎ (r.state ≡ no_effect_retry_eligible))

-- What a reconciliation answers without fault.
abbrev pub Ends : ObservationState → ReconciliationResult → Type 0
Ends state r = Settles state r × All (λ r. is_refusal r ≡ false) r.reasons

if-Ends :
    (c : Bool) (state : ObservationState) (a b : ReconciliationResult)
    → Ends state a
    → Ends state b
    → Ends state (if c then a else b)
if-Ends true state a b ha hb = ha
if-Ends false state a b ha hb = hb

module _ {ℓ} {Parameters : Type ℓ} where
  blocked-Ends :
      (q : ReconcileExecutionUncertaintyRequest Parameters) (reason : ReconciliationReason)
      → is_refusal reason ≡ false
      → Ends no_effect_confirmed (blocked q reason)
  blocked-Ends q reason h = ((refl, inl refl), (h, tt))

  eligible-Ends :
      (q : ReconcileExecutionUncertaintyRequest Parameters)
      → Ends no_effect_confirmed (
          reconciliation_result q no_effect_retry_eligible [] false true
            (some (q.uncertainty.attempt_number + 1)))
  eligible-Ends q = ((refl, inr refl), tt)

  tested-Ends :
      (q : ReconcileExecutionUncertaintyRequest Parameters) (stale other unsafe : Bool)
      → Ends no_effect_confirmed (
          if stale
          then blocked q retry_guards_stale
          else if other
          then blocked q retry_guards_attempt_mismatch
          else if unsafe
          then blocked q retry_guards_blocked
          else reconciliation_result q no_effect_retry_eligible [] false true
              (some (q.uncertainty.attempt_number + 1)))
  tested-Ends q true other unsafe = blocked-Ends q retry_guards_stale refl
  tested-Ends q false true unsafe = blocked-Ends q retry_guards_attempt_mismatch refl
  tested-Ends q false false true = blocked-Ends q retry_guards_blocked refl
  tested-Ends q false false false = eligible-Ends q

  with_safeguards-Ends :
      (q : ReconcileExecutionUncertaintyRequest Parameters) (evidence : RetrySafeguardEvidence)
      (observed : ℕ) (evaluated : Option ℕ)
      → Ends no_effect_confirmed (with_safeguards q evidence observed evaluated)
  with_safeguards-Ends q evidence observed none = blocked-Ends q retry_guards_time_invalid refl
  with_safeguards-Ends q evidence observed (some e) =
      tested-Ends q (ltb e observed)
        (not (eqb evidence.attempt_number (q.uncertainty.attempt_number + 1)))
        (not (evidence.result.schema_version == q.schema_version)
          || not (evidence.result.action_intent_id == q.action_intent.action_intent_id)
          || not evidence.result.safe_to_invoke_external)

  pub settled :
      (date_parse : DateParse) (q : ReconcileExecutionUncertaintyRequest Parameters) (at : ℕ)
      (state : ObservationState)
      → Ends state (by_observation date_parse q at state)
  settled date_parse q at effect_observed = ((refl, refl), (refl, tt))
  settled date_parse q at indeterminate = ((refl, refl), (refl, tt))
  settled date_parse q at no_effect_confirmed =
      if-Ends (leb q.uncertainty.max_attempts q.uncertainty.attempt_number) no_effect_confirmed
        (blocked q retry_attempt_limit_reached) (retry_guarded date_parse q at q.retry_safeguards)
        (blocked-Ends q retry_attempt_limit_reached refl) (guarded q.retry_safeguards)
    where
      guarded :
          (s : Option RetrySafeguardEvidence)
          → Ends no_effect_confirmed (retry_guarded date_parse q at s)
      guarded none = blocked-Ends q retry_guards_required refl
      guarded (some e) = with_safeguards-Ends q e at (timestamp_ms date_parse e.evaluated_at)
