-- ===== src/Executors/Intent.antt =====
-- The part of an action intent (packages/contracts/src/actions/action-intent.ts) that the executors read.
use aurora_ai_native.Prelude.{String, List}

pub record ActionPrecondition {ℓ} (Parameters : Type ℓ) : Type ℓ where
  pub precondition_type : String
  pub parameters : Parameters

-- `REQUIRED` with its key, or `NOT_APPLICABLE`.
pub data ActionIdempotency : Type 0 where
  required_idempotency : String → ActionIdempotency
  not_applicable : ActionIdempotency

pub record ActionIntent {ℓ} (Parameters : Type ℓ) : Type ℓ where
  pub schema_version : String
  pub action_intent_id : String
  pub capability : String
  pub action_type : String
  pub tenant_id : String
  pub correlation_id : String
  pub idempotency : ActionIdempotency
  pub preconditions : List (ActionPrecondition Parameters)
  pub deadline_at : String
  pub data_classification : String
