-- ===== src/Executors/Resolution.antt =====
-- What a resolved target is (services/executors/src/target-resolution/resolver.ts).
use aurora_ai_native.Prelude.{
  ℕ, ◌<◌, String, ◌≡◌, refl, sym, ap, ◌∙◌, ◌↔◌, inl, inr, Bool, true, false, ◌&&◌, Option, none,
  some, List, [], ◌∷◌, ◌++◌, arith, eq_iff, ◌==◌, filter, All, contains, Option-cases, &&-eq-true,
  filter-filter, filter-IsSingle, DateParse,
}
use aurora_ai_native.Containment.Time.{timestamp_ms, timestamp_ms-parsed}
use aurora_ai_native.Executors.Target.{
  TargetIdentity, provider_target, device_target, workflow_target, local_service_target,
  TargetBindingState, target_available, ExecutableTargetBinding, TargetResolutionRequest,
  resolved_to, same_option, same_target_identity, binding_state_reason, freshness_reason,
  resolve_single, resolve_matches, target_matches, tenant_matches, target_version_matches,
  resolve_at, resolve_execution_target,
}

-- A binding of the request's target, tenant and target version.
pub record IsSought (q : TargetResolutionRequest) (b : ExecutableTargetBinding) : Type 0 where
  pub target : b.target.identity ≡ q.target.identity
  pub tenant : b.tenant_id ≡ q.tenant_id
  pub target_version : b.target.schema_version ≡ q.target.schema_version

-- A binding has no moment of staleness, or one that the platform reads and that lies ahead.
abbrev pub IsFresh : DateParse → ℕ → Option String → Type 0
IsFresh date_parse now none = Unit
IsFresh date_parse now (some until) = (at : ℕ) × (date_parse until ≡ some at) × (now < at)

-- The binding that a request resolves to.
pub record IsUsableTarget (date_parse : DateParse) (q : TargetResolutionRequest)
    (b : ExecutableTargetBinding) : Type 0 where
  pub evaluated : ℕ
  pub is_evaluated : date_parse q.evaluated_at ≡ some evaluated
  pub before : List ExecutableTargetBinding
  pub after : List ExecutableTargetBinding
  pub split : q.bindings ≡ before ++ (b ∷ after)
  pub sought : IsSought q b
  pub none_before : All (λ c. ¬ (IsSought q c)) before
  pub none_after : All (λ c. ¬ (IsSought q c)) after
  pub same_version : b.schema_version ≡ q.schema_version
  pub is_available : b.state ≡ target_available
  pub fresh : IsFresh date_parse evaluated b.fresh_until
  pub compatible :
      contains b.compatible_action_intent_schema_versions q.action_intent_schema_version ≡ true
  pub satisfied : b.preconditions_satisfied ≡ true

same_option_iff : (a b : Option String) → (same_option a b ≡ true) ↔ (a ≡ b)
same_option_iff none none = (λ h. refl, λ e. refl)
same_option_iff none (some b) = (λ h. ground arith, λ e. ground arith)
same_option_iff (some a) none = (λ h. ground arith, λ e. ground arith)
same_option_iff (some a) (some b) =
    (λ h. ground (arith, eq_iff a b), λ e. ground (arith, eq_iff a b))

-- The comparison of identities is equality.
same_identity_iff : (a b : TargetIdentity) → (same_target_identity a b ≡ true) ↔ (a ≡ b)
same_identity_iff (provider_target p t r a) (provider_target p' t' r' a') = (
  λ h.
      ground (arith, eq_iff p p', same_option_iff t t', same_option_iff r r', same_option_iff a a'),
  λ e.
      ground (arith, eq_iff p p', same_option_iff t t', same_option_iff r r', same_option_iff a a'),
)
same_identity_iff (device_target b) (device_target b') =
    (ground (arith, eq_iff b b'), ground (arith, eq_iff b b'))
same_identity_iff (workflow_target b) (workflow_target b') =
    (ground (arith, eq_iff b b'), ground (arith, eq_iff b b'))
same_identity_iff (local_service_target b) (local_service_target b') =
    (ground (arith, eq_iff b b'), ground (arith, eq_iff b b'))
same_identity_iff a b = (λ h. ground arith, λ h. ground arith)

-- The three tests on a binding, in the order of the filters.
abbrev is_sought : TargetResolutionRequest → ExecutableTargetBinding → Bool
is_sought q b =
    same_target_identity b.target.identity q.target.identity
    && b.tenant_id == q.tenant_id
    && b.target.schema_version == q.target.schema_version

is_sought-IsSought :
    (q : TargetResolutionRequest) (b : ExecutableTargetBinding)
    → is_sought q b ≡ true
    → IsSought q b
is_sought-IsSought q b h =
    let (h2, version) = &&-eq-true _ _ h in
    let (target, tenant) = &&-eq-true _ _ h2 in
    record {
      target = (same_identity_iff b.target.identity q.target.identity).0 target;
      tenant = (eq_iff b.tenant_id q.tenant_id).0 tenant;
      target_version = (eq_iff b.target.schema_version q.target.schema_version).0 version;
    }

not-IsSought :
    (q : TargetResolutionRequest) (b : ExecutableTargetBinding)
    → is_sought q b ≡ false
    → ¬ (IsSought q b)
not-IsSought q b h s =
    let target = (same_identity_iff b.target.identity q.target.identity).1 s.target in
    let tenant = (eq_iff b.tenant_id q.tenant_id).1 s.tenant in
    let version = (eq_iff b.target.schema_version q.target.schema_version).1 s.target_version in
    let e = rw (target, tenant, version) at h in cc

not-IsSought-All :
    (q : TargetResolutionRequest) (bs : List ExecutableTargetBinding)
    → All (λ c. is_sought q c ≡ false) bs
    → All (λ c. ¬ (IsSought q c)) bs
not-IsSought-All q [] h = tt
not-IsSought-All q (b ∷ bs) (h, hs) = (not-IsSought q b h, not-IsSought-All q bs hs)

matches-is_sought :
    (q : TargetResolutionRequest) → target_version_matches q ≡ filter (is_sought q) q.bindings
unfolding target_version_matches tenant_matches target_matches
matches-is_sought q = ap (filter _) (filter-filter _ _ q.bindings) ∙ filter-filter _ _ q.bindings

freshness-IsFresh :
    (date_parse : DateParse) (n : ℕ) (fresh_until : Option String)
    → freshness_reason date_parse n fresh_until ≡ none
    → IsFresh date_parse n fresh_until
freshness-IsFresh date_parse n none h = tt
freshness-IsFresh date_parse n (some until) h =
    elim (Option-cases (timestamp_ms date_parse until)) [
      | inl unread ↦ let e = rw (unread, freshness_reason) at h in ground arith
      | inr (at, read) ↦
          let e = rw (read, freshness_reason) at h in
          (at, timestamp_ms-parsed date_parse until at read, ground arith)
    ]

resolve_at-evaluated :
    (date_parse : DateParse) (q : TargetResolutionRequest) (at : Option ℕ)
    (b : ExecutableTargetBinding)
    → resolve_at date_parse q at ≡ resolved_to b
    → (n : ℕ) × (at ≡ some n)
      × (resolve_matches date_parse n q (target_version_matches q) ≡ resolved_to b)
resolve_at-evaluated date_parse q none b h = ground arith
resolve_at-evaluated date_parse q (some n) b h = (n, refl, ground arith)

single-same :
    (date_parse : DateParse) (n : ℕ) (q : TargetResolutionRequest) (c b : ExecutableTargetBinding)
    → resolve_single date_parse n q c ≡ resolved_to b
    → c ≡ b
single-same date_parse n q c b h = ground arith

resolve_matches-single :
    (date_parse : DateParse) (n : ℕ) (q : TargetResolutionRequest)
    (bs : List ExecutableTargetBinding) (b : ExecutableTargetBinding)
    → resolve_matches date_parse n q bs ≡ resolved_to b
    → (bs ≡ b ∷ []) × (resolve_single date_parse n q b ≡ resolved_to b)
resolve_matches-single date_parse n q [] b h = ground arith
resolve_matches-single date_parse n q (c ∷ []) b h =
    let same = single-same date_parse n q c b h in
    (ap (λ x. x ∷ []) same, sym (ap (resolve_single date_parse n q) same) ∙ h)
resolve_matches-single date_parse n q (c ∷ d ∷ bs) b h = ground arith

state-is_available : (s : TargetBindingState) → binding_state_reason s ≡ none → s ≡ target_available
state-is_available s h = ground arith

single-usable :
    (date_parse : DateParse) (n : ℕ) (q : TargetResolutionRequest) (b : ExecutableTargetBinding)
    → resolve_single date_parse n q b ≡ resolved_to b
    → (b.schema_version ≡ q.schema_version)
      × (binding_state_reason b.state ≡ none)
      × (freshness_reason date_parse n b.fresh_until ≡ none)
      × (contains b.compatible_action_intent_schema_versions q.action_intent_schema_version ≡ true)
      × (b.preconditions_satisfied ≡ true)
single-usable date_parse n q b h = (
  ground (arith, eq_iff b.schema_version q.schema_version),
  ground arith,
  ground arith,
  ground arith,
  ground arith,
)

-- A target that is resolved is the only binding of the request's target, tenant and target version: the
-- list of bindings has it at one place, and no other place holds a binding of that identity (reference and
-- account included), tenant and target version. It has the request's schema version, is available, has no
-- moment of staleness or one that the platform reads as later than the evaluation, is compatible with the
-- intent's schema version, and its preconditions hold.
pub resolve-IsUsableTarget :
    (date_parse : DateParse) (q : TargetResolutionRequest) (b : ExecutableTargetBinding)
    → resolve_execution_target date_parse q ≡ resolved_to b
    → IsUsableTarget date_parse q b
unfolding resolve_execution_target
resolve-IsUsableTarget date_parse q b h =
    let (n, at, h1) =
      resolve_at-evaluated date_parse q (timestamp_ms date_parse q.evaluated_at) b h in
    let (only, h2) = resolve_matches-single date_parse n q (target_version_matches q) b h1 in
    let (version, state, fresh, compatible, satisfied) = single-usable date_parse n q b h2 in
    let found = filter-IsSingle (is_sought q) q.bindings b (sym (matches-is_sought q) ∙ only) in
    record {
      evaluated = n;
      is_evaluated = timestamp_ms-parsed date_parse q.evaluated_at n at;
      before = found.before;
      after = found.after;
      split = found.split;
      sought = is_sought-IsSought q b found.passes;
      none_before = not-IsSought-All q found.before found.none_before;
      none_after = not-IsSought-All q found.after found.none_after;
      same_version = version;
      is_available = state-is_available b.state state;
      fresh = freshness-IsFresh date_parse n b.fresh_until fresh;
      compatible = compatible;
      satisfied = satisfied;
    }
