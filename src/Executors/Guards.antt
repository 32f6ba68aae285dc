-- ===== src/Executors/Guards.antt =====
-- What stands behind a safe attempt (services/executors/src/safeguards/safeguards.ts).
use aurora_ai_native.Prelude.{
  ℕ, ◌≤◌, ◌<◌, String, ◌≡◌, refl, ◌⊎◌, inl, inr, Bool, true, false, Option, none, some, List, [],
  ◌∷◌, All, arith, ◌==◌, Outcome, if◌then◌else◌, DateParse, returned,
}
use aurora_ai_native.Executors.Times.{parse_time, parse_time-parsed}
use aurora_ai_native.Executors.Intent.{
  ActionPrecondition, ActionIdempotency, required_idempotency, not_applicable,
}
use aurora_ai_native.Executors.Safeguards.{
  FenceRequest, IdempotencyFenceDecision, reserved, ExecutionQuotaSnapshot,
  ExecutionSafeguardRequest, ExecutionSafeguardReason, idempotency_configuration_invalid,
  ExecutionSafeguardResult, quota_reason, every_holds, unsafe, guard_reason, fence_answered,
  fence_request, fenced, by_idempotency, guarded, evaluate_execution_safeguards,
}

-- A quota, where there is one, is positive and not used up.
abbrev pub HasRoom : Option ExecutionQuotaSnapshot → Type 0
HasRoom none = Unit
HasRoom (some snapshot) = (1 ≤ snapshot.limit) × (snapshot.used < snapshot.limit)

quota_reason-HasRoom :
    (quota : Option ExecutionQuotaSnapshot) → quota_reason quota ≡ none → HasRoom quota
quota_reason-HasRoom none h = tt
quota_reason-HasRoom (some snapshot) h = (ground arith, ground arith)

module _ {ℓ} {Parameters : Type ℓ} where
  -- The guards that an attempt has passed.
  pub record IsGuarded (date_parse : DateParse) (q : ExecutionSafeguardRequest Parameters)
      : Type ℓ where
    pub evaluated : ℕ
    pub deadline : ℕ
    pub is_evaluated : date_parse q.evaluated_at ≡ some evaluated
    pub is_deadline : date_parse q.action_intent.deadline_at ≡ some deadline
    pub in_time : evaluated < deadline
    pub attempt : (1 ≤ q.attempt_number) × (q.attempt_number ≤ q.max_attempts)
    pub quota : HasRoom q.quota
    pub preconditions :
        All (λ c. q.evaluate_precondition c ≡ returned true) q.action_intent.preconditions

  every_holds-All :
      (evaluate : ActionPrecondition Parameters → Outcome Bool)
      (conditions : List (ActionPrecondition Parameters))
      → every_holds evaluate conditions ≡ true
      → All (λ c. evaluate c ≡ returned true) conditions
  unfolding every_holds
  every_holds-All evaluate [] h = tt
  every_holds-All evaluate (c ∷ conditions) h =
      (ground arith, every_holds-All evaluate conditions (ground arith))

  guard_reason-IsGuarded :
      (date_parse : DateParse) (q : ExecutionSafeguardRequest Parameters)
      → guard_reason date_parse q ≡ none
      → IsGuarded date_parse q
  unfolding guard_reason
  guard_reason-IsGuarded date_parse q h =
      go (parse_time date_parse q.evaluated_at) (parse_time date_parse q.action_intent.deadline_at)
        refl refl
    where
      go :
          (e d : Option ℕ)
          → parse_time date_parse q.evaluated_at ≡ e
          → parse_time date_parse q.action_intent.deadline_at ≡ d
          → IsGuarded date_parse q
      go none d is_e is_d = ground arith
      go (some e) none is_e is_d = ground arith
      go (some e) (some d) is_e is_d = record {
        evaluated = e;
        deadline = d;
        is_evaluated = parse_time-parsed date_parse q.evaluated_at e is_e;
        is_deadline = parse_time-parsed date_parse q.action_intent.deadline_at d is_d;
        in_time = ground arith;
        attempt = (ground arith, ground arith);
        quota = quota_reason-HasRoom q.quota (ground arith);
        preconditions =
            every_holds-All q.evaluate_precondition q.action_intent.preconditions (ground arith);
      }

  -- The idempotency of a safe attempt.
  abbrev pub IsFenced :
      ExecutionSafeguardRequest Parameters → ExecutionSafeguardResult × Option FenceRequest → Type 0
  IsFenced q (result, call) =
      ((q.action_intent.idempotency ≡ not_applicable) × (call ≡ none))
      ⊎ ((key : String) × (hash : String) × (reserve : FenceRequest
            → Outcome IdempotencyFenceDecision)
          × (q.action_intent.idempotency ≡ required_idempotency key)
          × (q.idempotency_fence ≡ some reserve)
          × (call ≡ some (fence_request q key hash))
          × (reserve (fence_request q key hash) ≡ returned reserved))

  fence_answered-safe :
      (q : ExecutionSafeguardRequest Parameters) (answer : Outcome IdempotencyFenceDecision)
      → (fence_answered q answer).safe_to_invoke_external ≡ true
      → answer ≡ returned reserved
  fence_answered-safe q answer h = ground arith

  if-IsFenced :
      (q : ExecutionSafeguardRequest Parameters) (c : Bool)
      (a b : ExecutionSafeguardResult × Option FenceRequest)
      → (a.0).safe_to_invoke_external ≡ false
      → ((b.0).safe_to_invoke_external ≡ true → IsFenced q b)
      → ((if c then a else b).0).safe_to_invoke_external ≡ true
      → IsFenced q (if c then a else b)
  if-IsFenced q true a b un f h = ground arith
  if-IsFenced q false a b un f h = f h

  fenced-IsFenced :
      (q : ExecutionSafeguardRequest Parameters) (key : String) (hash : Option String)
      (fence : Option (FenceRequest → Outcome IdempotencyFenceDecision))
      → q.action_intent.idempotency ≡ required_idempotency key
      → q.idempotency_fence ≡ fence
      → ((fenced q key hash fence).0).safe_to_invoke_external ≡ true
      → IsFenced q (fenced q key hash fence)
  fenced-IsFenced q key none fence is_key is_fence h = ground arith
  fenced-IsFenced q key (some hash) none is_key is_fence h = ground arith
  fenced-IsFenced q key (some hash) (some reserve) is_key is_fence h =
      if-IsFenced q (hash == "") (unsafe q idempotency_configuration_invalid, none) _ refl
        (λ h1. inr (
          key,
          hash,
          reserve,
          is_key,
          is_fence,
          refl,
          fence_answered-safe q (reserve (fence_request q key hash)) h1,
        ))
        h

  guarded-IsFenced :
      (q : ExecutionSafeguardRequest Parameters) (reason : Option ExecutionSafeguardReason)
      → ((guarded q reason).0).safe_to_invoke_external ≡ true
      → (reason ≡ none) × IsFenced q (guarded q reason)
  guarded-IsFenced q (some reason) h = ground arith
  guarded-IsFenced q none h = (refl, go q.action_intent.idempotency refl h)
    where
      go :
          (i : ActionIdempotency)
          → q.action_intent.idempotency ≡ i
          → ((by_idempotency q i).0).safe_to_invoke_external ≡ true
          → IsFenced q (by_idempotency q i)
      go not_applicable e h = inl (e, refl)
      go (required_idempotency key) e h =
          fenced-IsFenced q key q.canonical_payload_hash q.idempotency_fence e refl h

  -- Safeguards that allow an external call were evaluated before the deadline, at the instants that the
  -- platform reads, for an attempt within its limit; a quota, where there is one, is positive with less
  -- used than its limit; every precondition was evaluated to true without throwing; and where the intent requires
  -- idempotency, the fence was asked for the intent's key and answered that it is reserved. Where it does
  -- not apply, the fence was not asked.
  pub safeguards-IsGuarded :
      (date_parse : DateParse) (q : ExecutionSafeguardRequest Parameters)
      → ((evaluate_execution_safeguards date_parse q).0).safe_to_invoke_external ≡ true
      → IsGuarded date_parse q × IsFenced q (evaluate_execution_safeguards date_parse q)
  unfolding evaluate_execution_safeguards
  safeguards-IsGuarded date_parse q h =
      let (passed, is_fenced) = guarded-IsFenced q (guard_reason date_parse q) h in
      (guard_reason-IsGuarded date_parse q passed, is_fenced)
