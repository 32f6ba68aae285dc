-- ===== src/Executors/Ambiguity.antt =====
-- classifyExecutionAmbiguity (services/executors/src/reconciliation/reconciliation.ts).
use aurora_ai_native.Prelude.{
  ℕ, String, Bool, true, false, ◌||◌, not, Option, none, some, List, [], ◌==◌, push_if, is_empty,
  values, sort_by, unique_by, ltb, leb, if◌then◌else◌, is_some, text_le, DateParse,
}
use aurora_ai_native.Containment.Time.{timestamp_ms}
use aurora_ai_native.Executors.Intent.{ActionIntent}

pub data ExecutionAmbiguitySignal : Type 0 where
  timeout connection_lost ack_without_verification : ExecutionAmbiguitySignal
  readback_unknown readback_mismatch : ExecutionAmbiguitySignal

pub data ExternalInvocationPhase : Type 0 where
  before_external_invocation after_external_invocation_started : ExternalInvocationPhase

pub record ClassifyExecutionAmbiguityRequest {ℓ} (Parameters : Type ℓ) : Type ℓ where
  pub schema_version : String
  pub action_intent : ActionIntent Parameters
  pub occurred_at : String
  pub attempt_number : ℕ
  pub max_attempts : ℕ
  pub signal : ExecutionAmbiguitySignal
  pub phase : ExternalInvocationPhase

pub record CanonicalError : Type 0 where
  pub kind : String
  pub schema_version : String
  pub code : String
  pub category : String
  pub message : String
  pub retryability : String
  pub correlation_id : String
  pub ambiguity_signal : Option ExecutionAmbiguitySignal
  pub timestamp : String
  pub classification : String

pub record ExecutionResult : Type 0 where
  pub kind : String
  pub schema_version : String
  pub correlation_id : String
  pub timestamp : String
  pub outcome : String
  pub error : CanonicalError

pub record ExecutionUncertaintyRecord : Type 0 where
  pub kind : String
  pub schema_version : String
  pub action_intent_id : String
  pub correlation_id : String
  pub occurred_at : String
  pub attempt_number : ℕ
  pub max_attempts : ℕ
  pub signal : ExecutionAmbiguitySignal
  pub execution_result : ExecutionResult
  pub authorizes_execution : Bool

pub data ExecutionAmbiguityClassification : Type 0 where
  classification_rejected : List String → ExecutionAmbiguityClassification
  known_pre_execution_failure : ExecutionResult → ExecutionAmbiguityClassification
  execution_uncertain : ExecutionUncertaintyRecord → ExecutionAmbiguityClassification

-- `[...new Set(values)].sort()`
unfoldable pub unique_sorted_texts : List String → List String
unfolding sort_by unique_by
unique_sorted_texts values = sort_by text_le (unique_by (λ x y. x == y) values)

abbrev pub is_timeout : ExecutionAmbiguitySignal → Bool
is_timeout timeout = true
is_timeout _ = false

abbrev pub is_connection_lost : ExecutionAmbiguitySignal → Bool
is_connection_lost connection_lost = true
is_connection_lost _ = false

abbrev pub signal_compatible_with_phase : ExecutionAmbiguitySignal → ExternalInvocationPhase → Bool
signal_compatible_with_phase signal after_external_invocation_started = true
signal_compatible_with_phase signal before_external_invocation =
    is_timeout signal || is_connection_lost signal

module _ {ℓ} {Parameters : Type ℓ} where
  unfoldable pub known_failure : ClassifyExecutionAmbiguityRequest Parameters → ExecutionResult
  known_failure q = record {
    kind = "ExecutionResult";
    schema_version = q.schema_version;
    correlation_id = q.action_intent.correlation_id;
    timestamp = q.occurred_at;
    outcome = "FAILED";
    error = record {
      kind = "CanonicalError";
      schema_version = q.schema_version;
      code = if is_timeout q.signal then "TIMEOUT_BEFORE_EXECUTION" else "DEPENDENCY_UNAVAILABLE";
      category = if is_timeout q.signal then "TIMEOUT" else "DEPENDENCY_FAILURE";
      message =
          if is_timeout q.signal
          then "Execution did not start before the timeout boundary."
          else "Execution did not start because the dependency connection was unavailable.";
      retryability =
          if is_timeout q.signal then "RETRY_AFTER_GUARDS" else "RETRY_AFTER_BACKOFF_AND_GUARDS";
      correlation_id = q.action_intent.correlation_id;
      ambiguity_signal = none;
      timestamp = q.occurred_at;
      classification = q.action_intent.data_classification;
    };
  }

  abbrev pub uncertain_fact : ClassifyExecutionAmbiguityRequest Parameters → ExecutionResult
  uncertain_fact q = record {
    kind = "ExecutionResult";
    schema_version = q.schema_version;
    correlation_id = q.action_intent.correlation_id;
    timestamp = q.occurred_at;
    outcome = "EXECUTION_UNCERTAIN";
    error = record {
      kind = "CanonicalError";
      schema_version = q.schema_version;
      code = "EXECUTION_UNCERTAIN";
      category = "EXECUTION_UNCERTAIN";
      message = "An external side effect may have occurred; reconcile before any equivalent retry.";
      retryability = "RECONCILE_BEFORE_RETRY";
      correlation_id = q.action_intent.correlation_id;
      ambiguity_signal = some q.signal;
      timestamp = q.occurred_at;
      classification = q.action_intent.data_classification;
    };
  }

  abbrev pub uncertainty_of :
      ClassifyExecutionAmbiguityRequest Parameters → ExecutionUncertaintyRecord
  uncertainty_of q = record {
    kind = "EXECUTION_UNCERTAINTY_RECORD";
    schema_version = q.schema_version;
    action_intent_id = q.action_intent.action_intent_id;
    correlation_id = q.action_intent.correlation_id;
    occurred_at = q.occurred_at;
    attempt_number = q.attempt_number;
    max_attempts = q.max_attempts;
    signal = q.signal;
    execution_result = uncertain_fact q;
    authorizes_execution = false;
  }

  -- The reasons, in the order of the checks. Attempts are natural numbers.
  unfoldable pub ambiguity_reasons :
      DateParse → ClassifyExecutionAmbiguityRequest Parameters → List String
  ambiguity_reasons date_parse q =
      push_if (not (is_some (timestamp_ms date_parse q.occurred_at))) "INVALID_TIME" (
        push_if (leb q.attempt_number 0) "ATTEMPT_INVALID" (
          push_if (leb q.max_attempts 0) "ATTEMPT_LIMIT_INVALID" (
            push_if (ltb q.max_attempts q.attempt_number) "ATTEMPT_INVALID" (
              push_if (not (signal_compatible_with_phase q.signal q.phase))
                "SIGNAL_PHASE_INCOMPATIBLE" []))))

  abbrev pub classified_in :
      ClassifyExecutionAmbiguityRequest Parameters
      → ExternalInvocationPhase
      → ExecutionAmbiguityClassification
  classified_in q before_external_invocation = known_pre_execution_failure (known_failure q)
  classified_in q after_external_invocation_started = execution_uncertain (uncertainty_of q)

  unfoldable pub classify_execution_ambiguity :
      DateParse → ClassifyExecutionAmbiguityRequest Parameters → ExecutionAmbiguityClassification
  classify_execution_ambiguity date_parse q =
      if not (is_empty (ambiguity_reasons date_parse q))
      then classification_rejected (unique_sorted_texts (ambiguity_reasons date_parse q))
      else classified_in q q.phase
