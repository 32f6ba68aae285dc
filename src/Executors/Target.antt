-- ===== src/Executors/Target.antt =====
-- resolveExecutionTarget (services/executors/src/target-resolution/resolver.ts).
use aurora_ai_native.Prelude.{
  ℕ, String, Bool, true, false, ◌&&◌, not, Option, none, some, List, [], ◌∷◌, ◌==◌, filter,
  is_empty, contains, leb, if◌then◌else◌, DateParse,
}
use aurora_ai_native.Containment.Time.{timestamp_ms}

-- The identity of a target, by its kind.
pub data TargetIdentity : Type 0 where
  provider_target : String → Option String → Option String → Option String → TargetIdentity
  device_target workflow_target local_service_target : String → TargetIdentity

pub record ExecutionTargetReference : Type 0 where
  pub schema_version : String
  pub identity : TargetIdentity

pub data TargetBindingState : Type 0 where
  target_available target_unavailable target_degraded target_retired : TargetBindingState

pub record ExecutableTargetBinding : Type 0 where
  pub schema_version : String
  pub binding_id : String
  pub tenant_id : String
  pub target : ExecutionTargetReference
  pub state : TargetBindingState
  pub fresh_until : Option String
  pub compatible_action_intent_schema_versions : List String
  pub preconditions_satisfied : Bool

pub record TargetResolutionRequest : Type 0 where
  pub schema_version : String
  pub action_intent_schema_version : String
  pub tenant_id : String
  pub evaluated_at : String
  pub target : ExecutionTargetReference
  pub bindings : List ExecutableTargetBinding

pub data TargetResolutionReason : Type 0 where
  not_found ambiguous tenant_mismatched is_unavailable is_degraded : TargetResolutionReason
  is_retired is_stale target_time_invalid incompatible : TargetResolutionReason
  precondition_unsatisfied : TargetResolutionReason

-- Every refusal has one reason, so nothing is sorted. The schema version and the target, which a result
-- repeats from its request, are left out.
pub data TargetResolutionResult : Type 0 where
  resolved_to : ExecutableTargetBinding → TargetResolutionResult
  unresolved : TargetResolutionReason → TargetResolutionResult

abbrev pub same_option : Option String → Option String → Bool
same_option none none = true
same_option (some a) (some b) = a == b
same_option none (some b) = false
same_option (some a) none = false

abbrev pub same_target_identity : TargetIdentity → TargetIdentity → Bool
same_target_identity (provider_target p t r a) (provider_target p' t' r' a') =
    p == p' && same_option t t' && same_option r r' && same_option a a'
same_target_identity (device_target b) (device_target b') = b == b'
same_target_identity (workflow_target b) (workflow_target b') = b == b'
same_target_identity (local_service_target b) (local_service_target b') = b == b'
same_target_identity _ _ = false

abbrev pub binding_state_reason : TargetBindingState → Option TargetResolutionReason
binding_state_reason target_available = none
binding_state_reason target_unavailable = some is_unavailable
binding_state_reason target_degraded = some is_degraded
binding_state_reason target_retired = some is_retired

-- `freshUntil`, where the binding has it.
abbrev pub freshness_reason : DateParse → ℕ → Option String → Option TargetResolutionReason
freshness_reason date_parse evaluated none = none
freshness_reason date_parse evaluated (some until) = elim (timestamp_ms date_parse until) [
  | none ↦ some target_time_invalid
  | some fresh_until ↦ if leb fresh_until evaluated then some is_stale else none
]

abbrev pub then_resolve :
    Option TargetResolutionReason → TargetResolutionResult → TargetResolutionResult
then_resolve (some reason) result = unresolved reason
then_resolve none result = result

abbrev pub resolve_single :
    DateParse → ℕ → TargetResolutionRequest → ExecutableTargetBinding → TargetResolutionResult
resolve_single date_parse evaluated q b =
    if not (b.schema_version == q.schema_version)
    then unresolved incompatible
    else then_resolve (binding_state_reason b.state) (
        then_resolve (freshness_reason date_parse evaluated b.fresh_until) (
          if not
            (contains b.compatible_action_intent_schema_versions q.action_intent_schema_version)
          then unresolved incompatible
          else if not b.preconditions_satisfied
          then unresolved precondition_unsatisfied
          else resolved_to b))

-- `targetVersionMatches`: none, more than one, or the one.
abbrev pub resolve_matches :
    DateParse → ℕ → TargetResolutionRequest → List ExecutableTargetBinding → TargetResolutionResult
resolve_matches date_parse evaluated q [] = unresolved incompatible
resolve_matches date_parse evaluated q (b ∷ []) = resolve_single date_parse evaluated q b
resolve_matches date_parse evaluated q (b ∷ c ∷ bs) = unresolved ambiguous

unfoldable pub target_matches : TargetResolutionRequest → List ExecutableTargetBinding
target_matches q = filter (λ b. same_target_identity b.target.identity q.target.identity) q.bindings

unfoldable pub tenant_matches : TargetResolutionRequest → List ExecutableTargetBinding
tenant_matches q = filter (λ b. b.tenant_id == q.tenant_id) (target_matches q)

unfoldable pub target_version_matches : TargetResolutionRequest → List ExecutableTargetBinding
target_version_matches q =
    filter (λ b. b.target.schema_version == q.target.schema_version) (tenant_matches q)

abbrev pub resolve_at : DateParse → TargetResolutionRequest → Option ℕ → TargetResolutionResult
resolve_at date_parse q none = unresolved target_time_invalid
resolve_at date_parse q (some evaluated) =
    if is_empty (target_matches q)
    then unresolved not_found
    else if is_empty (tenant_matches q)
    then unresolved tenant_mismatched
    else resolve_matches date_parse evaluated q (target_version_matches q)

unfoldable pub resolve_execution_target :
    DateParse → TargetResolutionRequest → TargetResolutionResult
resolve_execution_target date_parse q =
    resolve_at date_parse q (timestamp_ms date_parse q.evaluated_at)
