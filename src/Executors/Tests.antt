-- ===== src/Executors/Tests.antt =====
-- Runs of the executors' functions (services/executors/src) on concrete inputs.
use aurora_ai_native.Prelude.{
  ℕ, String, ◌≡◌, refl, true, none, some, [], ◌∷◌, ◌==◌, insert_sorted, sort_by, unique_by, leb,
  if◌then◌else◌, DateParse, returned,
}
use aurora_ai_native.Containment.Time.{timestamp_ms, rfc3339_pattern}
use aurora_ai_native.Executors.Times.{parse_time, rfc3339}
use aurora_ai_native.Executors.Intent.{required_idempotency, ActionIntent}
use aurora_ai_native.Executors.Safeguards.{
  reserved, ExecutionSafeguardRequest, every_holds, safe, guard_reason,
  evaluate_execution_safeguards,
}
use aurora_ai_native.Executors.Ambiguity.{
  connection_lost, after_external_invocation_started, ClassifyExecutionAmbiguityRequest,
  classification_rejected, unique_sorted_texts, known_failure, uncertainty_of, ambiguity_reasons,
  classify_execution_ambiguity,
}
use aurora_ai_native.Executors.Reconciliation.{
  no_effect_confirmed, ReconciliationObservation, RetrySafeguardEvidence,
  ReconcileExecutionUncertaintyRequest, valid_uncertainty_record, reconcile_execution_uncertainty,
}
use aurora_ai_native.Executors.Target.{
  device_target, ExecutionTargetReference, target_available, ExecutableTargetBinding,
  TargetResolutionRequest, ambiguous, resolved_to, unresolved, target_matches, tenant_matches,
  target_version_matches, resolve_execution_target,
}
use aurora_ai_native.Executors.Resolution.{IsUsableTarget, resolve-IsUsableTarget}
use aurora_ai_native.Executors.Retry.{IsRetryable, reconcile-IsRetryable}
use aurora_ai_native.Executors.Accepted.{asked}
use aurora_ai_native.Executors.Guards.{IsGuarded, IsFenced, safeguards-IsGuarded}

-- A clock that knows three moments.
abbrev clock : DateParse
clock text =
    if text == "2026-01-01T00:00:00Z"
    then some 0
    else if text == "2026-01-01T00:00:01Z"
    then some 1000
    else if text == "2026-01-01T00:00:02Z"
    then some 2000
    else none

abbrev write_intent : ActionIntent ℕ
write_intent = record {
  schema_version = "1";
  action_intent_id = "i";
  capability = "crm";
  action_type = "write";
  tenant_id = "t";
  correlation_id = "c";
  idempotency = required_idempotency "k";
  preconditions = record { precondition_type = "open"; parameters = 3 } ∷ [];
  deadline_at = "2026-01-01T00:00:02Z";
  data_classification = "INTERNAL";
}

abbrev attempt_request : ExecutionSafeguardRequest ℕ
attempt_request = record {
  schema_version = "1";
  action_intent = write_intent;
  evaluated_at = "2026-01-01T00:00:01Z";
  attempt_number = 2;
  max_attempts = 3;
  quota = some (record { limit = 5; used = 4 });
  evaluate_precondition = λ c. returned (leb 3 c.parameters);
  canonical_payload_hash = some "h";
  idempotency_fence = some (λ request. returned reserved);
}

program : Unit {0}
unfolding evaluate_execution_safeguards guard_reason every_holds classify_execution_ambiguity
    ambiguity_reasons unique_sorted_texts sort_by insert_sorted unique_by known_failure
    reconcile_execution_uncertainty valid_uncertainty_record timestamp_ms rfc3339_pattern parse_time
    rfc3339 resolve_execution_target target_matches tenant_matches target_version_matches
program = tt

attempt_is_safe :
    ((evaluate_execution_safeguards clock attempt_request).0).safe_to_invoke_external ≡ true
unfolding program
attempt_is_safe = refl

safeguards-IsGuarded_example :
    IsGuarded clock attempt_request
    × IsFenced attempt_request (evaluate_execution_safeguards clock attempt_request)
safeguards-IsGuarded_example = safeguards-IsGuarded clock attempt_request attempt_is_safe

abbrev lost : ClassifyExecutionAmbiguityRequest ℕ
lost = record {
  schema_version = "1";
  action_intent = write_intent;
  occurred_at = "2026-01-01T00:00:00Z";
  attempt_number = 1;
  max_attempts = 3;
  signal = connection_lost;
  phase = after_external_invocation_started;
}

twice_invalid :
    classify_execution_ambiguity clock
      (record lost { attempt_number = 0; max_attempts = 0; occurred_at = "now" })
    ≡ classification_rejected ("ATTEMPT_INVALID" ∷ "ATTEMPT_LIMIT_INVALID" ∷ "INVALID_TIME" ∷ [])
unfolding program
twice_invalid = refl

abbrev absent : ReconciliationObservation
absent = record { state = no_effect_confirmed; observed_at = "2026-01-01T00:00:01Z" }

abbrev fresh_guards : RetrySafeguardEvidence
fresh_guards = record {
  attempt_number = 2;
  evaluated_at = "2026-01-01T00:00:01Z";
  result = safe attempt_request true;
}

abbrev retry_request : ReconcileExecutionUncertaintyRequest ℕ
retry_request = asked lost (uncertainty_of lost) (some absent) (some fresh_guards)

next_is_two : (reconcile_execution_uncertainty clock retry_request).next_attempt_number ≡ some 2
unfolding program
next_is_two = refl

reconcile-IsRetryable_example : IsRetryable clock retry_request 2
reconcile-IsRetryable_example = reconcile-IsRetryable clock retry_request 2 next_is_two

abbrev lamp_target : ExecutionTargetReference
lamp_target = record { schema_version = "1"; identity = device_target "lamp" }

abbrev lamp_of : String → ExecutableTargetBinding
lamp_of owner = record {
  schema_version = "1";
  binding_id = "b";
  tenant_id = owner;
  target = lamp_target;
  state = target_available;
  fresh_until = some "2026-01-01T00:00:02Z";
  compatible_action_intent_schema_versions = "1" ∷ [];
  preconditions_satisfied = true;
}

abbrev lamp_request : TargetResolutionRequest
lamp_request = record {
  schema_version = "1";
  action_intent_schema_version = "1";
  tenant_id = "t";
  evaluated_at = "2026-01-01T00:00:01Z";
  target = lamp_target;
  bindings = lamp_of "other" ∷ lamp_of "t" ∷ [];
}

lamp_resolves : resolve_execution_target clock lamp_request ≡ resolved_to (lamp_of "t")
unfolding program
lamp_resolves = refl

twice_is_ambiguous :
    resolve_execution_target clock
      (record lamp_request { bindings = lamp_of "t" ∷ lamp_of "t" ∷ [] })
    ≡ unresolved ambiguous
unfolding program
twice_is_ambiguous = refl

resolve-IsUsableTarget_example : IsUsableTarget clock lamp_request (lamp_of "t")
resolve-IsUsableTarget_example =
    resolve-IsUsableTarget clock lamp_request (lamp_of "t") lamp_resolves
