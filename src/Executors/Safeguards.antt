-- ===== src/Executors/Safeguards.antt =====
-- evaluateExecutionSafeguards (services/executors/src/safeguards/safeguards.ts). Attempts and quotas are
-- natural numbers. With the result stands the reservation that the idempotency fence was asked for.
use Prim.Native.String
use aurora_ai_native.Prelude.{
  ℕ, String, Bool, true, false, ◌&&◌, Option, none, some, List, [], ◌∷◌, ◌==◌, Outcome, ltb, leb,
  if◌then◌else◌, DateParse, returned, threw,
}
use aurora_ai_native.Executors.Times.{parse_time}
use aurora_ai_native.Executors.Intent.{
  ActionPrecondition, ActionIdempotency, required_idempotency, not_applicable, ActionIntent,
}

pub record FenceRequest : Type 0 where
  pub tenant_id : String
  pub key : String
  pub operation_name : String
  pub canonical_payload_hash : String

pub data IdempotencyFenceDecision : Type 0 where
  reserved replay_completed inflight conflict : IdempotencyFenceDecision

pub record ExecutionQuotaSnapshot : Type 0 where
  pub limit : ℕ
  pub used : ℕ

pub record ExecutionSafeguardRequest {ℓ} (Parameters : Type ℓ) : Type ℓ where
  pub schema_version : String
  pub action_intent : ActionIntent Parameters
  pub evaluated_at : String
  pub attempt_number : ℕ
  pub max_attempts : ℕ
  pub quota : Option ExecutionQuotaSnapshot
  pub evaluate_precondition : ActionPrecondition Parameters → Outcome Bool
  pub canonical_payload_hash : Option String
  pub idempotency_fence : Option (FenceRequest → Outcome IdempotencyFenceDecision)

pub data ExecutionSafeguardReason : Type 0 where
  invalid_safeguard_time deadline_expired attempt_invalid : ExecutionSafeguardReason
  attempt_limit_reached quota_invalid quota_exhausted : ExecutionSafeguardReason
  precondition_failed idempotency_configuration_invalid : ExecutionSafeguardReason
  idempotency_replay_completed idempotency_inflight : ExecutionSafeguardReason
  idempotency_conflict idempotency_fence_failed : ExecutionSafeguardReason

pub record ExecutionSafeguardResult : Type 0 where
  pub schema_version : String
  pub action_intent_id : String
  pub safe_to_invoke_external : Bool
  pub idempotency_reserved : Bool
  pub reasons : List ExecutionSafeguardReason

abbrev pub quota_reason : Option ExecutionQuotaSnapshot → Option ExecutionSafeguardReason
quota_reason none = none
quota_reason (some quota) =
    if leb quota.limit 0
    then some quota_invalid
    else if leb quota.limit quota.used
    then some quota_exhausted
    else none

module _ {ℓ} {Parameters : Type ℓ} where
  -- `preconditions.every(evaluatePrecondition)`: it stops at the first that does not hold or throws.
  unfoldable pub every_holds :
      (ActionPrecondition Parameters → Outcome Bool) → List (ActionPrecondition Parameters) → Bool
  every_holds evaluate [] = true
  every_holds evaluate (c ∷ conditions) =
      let rest = every_holds evaluate conditions in
      elim (evaluate c) [ returned b ↦ b && rest | threw message ↦ false ]

  -- `fail(request, [reason])`: one reason is unique and sorted.
  abbrev pub unsafe :
      ExecutionSafeguardRequest Parameters → ExecutionSafeguardReason → ExecutionSafeguardResult
  unsafe q reason = record {
    schema_version = q.schema_version;
    action_intent_id = q.action_intent.action_intent_id;
    safe_to_invoke_external = false;
    idempotency_reserved = false;
    reasons = reason ∷ [];
  }

  abbrev pub safe : ExecutionSafeguardRequest Parameters → Bool → ExecutionSafeguardResult
  safe q fenced = record {
    schema_version = q.schema_version;
    action_intent_id = q.action_intent.action_intent_id;
    safe_to_invoke_external = true;
    idempotency_reserved = fenced;
    reasons = [];
  }

  -- The guards before the idempotency: the reason of the first that fails.
  unfoldable pub guard_reason :
      DateParse → ExecutionSafeguardRequest Parameters → Option ExecutionSafeguardReason
  guard_reason date_parse q = elim (parse_time date_parse q.evaluated_at) [
    | none ↦ some invalid_safeguard_time
    | some evaluated ↦ elim (parse_time date_parse q.action_intent.deadline_at) [
      | none ↦ some invalid_safeguard_time
      | some deadline ↦
          if leb deadline evaluated
          then some deadline_expired
          else if leb q.attempt_number 0
          then some attempt_invalid
          else if leb q.max_attempts 0
          then some attempt_invalid
          else if ltb q.max_attempts q.attempt_number
          then some attempt_limit_reached
          else elim (quota_reason q.quota) [
            | some reason ↦ some reason
            | none ↦
                if every_holds q.evaluate_precondition q.action_intent.preconditions
                then none
                else some precondition_failed
          ]
    ]
  ]

  abbrev pub fence_answered :
      ExecutionSafeguardRequest Parameters
      → Outcome IdempotencyFenceDecision
      → ExecutionSafeguardResult
  fence_answered q (threw message) = unsafe q idempotency_fence_failed
  fence_answered q (returned replay_completed) = unsafe q idempotency_replay_completed
  fence_answered q (returned inflight) = unsafe q idempotency_inflight
  fence_answered q (returned conflict) = unsafe q idempotency_conflict
  fence_answered q (returned reserved) = safe q true

  abbrev pub fence_request : ExecutionSafeguardRequest Parameters → String → String → FenceRequest
  fence_request q key hash = record {
    tenant_id = q.action_intent.tenant_id;
    key = key;
    operation_name =
        String.◌++◌ q.action_intent.capability (String.◌++◌ ":" q.action_intent.action_type);
    canonical_payload_hash = hash;
  }

  abbrev pub fenced :
      ExecutionSafeguardRequest Parameters
      → String
      → Option String
      → Option (FenceRequest → Outcome IdempotencyFenceDecision)
      → ExecutionSafeguardResult × Option FenceRequest
  fenced q key none fence = (unsafe q idempotency_configuration_invalid, none)
  fenced q key (some hash) none = (unsafe q idempotency_configuration_invalid, none)
  fenced q key (some hash) (some reserve) =
      if hash == ""
      then (unsafe q idempotency_configuration_invalid, none)
      else (fence_answered q (reserve (fence_request q key hash)), some (fence_request q key hash))

  abbrev pub by_idempotency :
      ExecutionSafeguardRequest Parameters
      → ActionIdempotency
      → ExecutionSafeguardResult × Option FenceRequest
  by_idempotency q not_applicable = (safe q false, none)
  by_idempotency q (required_idempotency key) =
      fenced q key q.canonical_payload_hash q.idempotency_fence

  abbrev pub guarded :
      ExecutionSafeguardRequest Parameters
      → Option ExecutionSafeguardReason
      → ExecutionSafeguardResult × Option FenceRequest
  guarded q (some reason) = (unsafe q reason, none)
  guarded q none = by_idempotency q q.action_intent.idempotency

  unfoldable pub evaluate_execution_safeguards :
      DateParse
      → ExecutionSafeguardRequest Parameters
      → ExecutionSafeguardResult × Option FenceRequest
  evaluate_execution_safeguards date_parse q = guarded q (guard_reason date_parse q)
