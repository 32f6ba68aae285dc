-- ===== src/CapabilityPlan.antt =====
-- packages/control/src/capability-plan/planner.ts: which bindings of a capability registry a plan
-- selects. Instants are natural, so `nowEpochMs` is finite and `nowEpochMs - observedAt > maxAgeMs`
-- adds the age on the other side. `maxAgeMs` is natural too: the source takes a fraction of a millisecond.
pub mod Types
pub mod Current
pub mod Tenancy
mod Tests
use aurora_ai_native.Prelude.{
  ℕ, ◌+◌, String, Bool, true, false, ◌&&◌, not, Option, none, some, List, [], map, ◌==◌, filter,
  any, all, find?, is_empty, sort_by, ltb, if◌then◌else◌, or_else, text_le, DateParse,
}
use aurora_ai_native.Lanes.{plan_ready, plan_blocked}
use aurora_ai_native.CapabilityPlan.Types.{
  CapabilityTargetKind, provider, device, workflow, local_service, gateway,
  CapabilityAvailabilityState, available, degraded, unavailable, unknown,
  CapabilityCurrentAvailability, current_available, current_degraded, not_available, not_known,
  stale, CapabilityReadbackStrategy, no_readback, receipt, state_compare, reconcile,
  CapabilityEvidenceStrategy, required, optional, not_applicable, ProvenanceKind, aurora_native,
  legacy_seed, toca_reference, CapabilityPlanSelectionReason, selected, capability_not_found,
  tenant_mismatch, capability_not_current, incompatible_capability, no_current_binding,
  SelectionStatus, is_selected, unsatisfied, CapabilityAvailabilityObservation,
  CapabilityBindingDescriptor, CapabilityProvenance, CapabilityDescriptor,
  CapabilityRegistrySnapshot, CapabilityRequirement, CapabilityPlanInput, CapabilityPlanSelection,
  CapabilityPlan,
}

abbrev pub same_kind : CapabilityTargetKind → CapabilityTargetKind → Bool
same_kind provider provider = true
same_kind device device = true
same_kind workflow workflow = true
same_kind local_service local_service = true
same_kind gateway gateway = true
same_kind _ _ = false

abbrev pub availability_of : CapabilityAvailabilityState → CapabilityCurrentAvailability
availability_of available = current_available
availability_of degraded = current_degraded
availability_of unavailable = not_available
availability_of unknown = not_known

unfoldable pub find_capability : CapabilityRegistrySnapshot → String → Option CapabilityDescriptor
find_capability registry id = find? (λ entry. entry.capability_id == id) registry.entries

abbrev pub observed_since :
    CapabilityAvailabilityObservation → ℕ → Option ℕ → CapabilityCurrentAvailability
observed_since observation now none = not_known
observed_since observation now (some observed_at) =
    if ltb (observed_at + observation.max_age_ms) now
    then stale
    else availability_of observation.state

unfoldable pub evaluate_capability_availability :
    DateParse → CapabilityAvailabilityObservation → ℕ → CapabilityCurrentAvailability
evaluate_capability_availability date_parse observation now =
    observed_since observation now (date_parse observation.observed_at)

-- `tenantId === undefined || tenantId === input.tenantId`
abbrev pub tenant_allows : Option String → String → Bool
tenant_allows none tenant = true
tenant_allows (some owner) tenant = owner == tenant

abbrev pub capability_tenant_matches : CapabilityDescriptor → CapabilityPlanInput → Bool
capability_tenant_matches descriptor input = tenant_allows descriptor.tenant_id input.tenant_id

abbrev pub binding_matches_tenant : CapabilityBindingDescriptor → CapabilityPlanInput → Bool
binding_matches_tenant binding input = tenant_allows binding.tenant_id input.tenant_id

abbrev pub some_kind_supported :
    List CapabilityTargetKind → Option (List CapabilityTargetKind) → Bool
some_kind_supported supported none = true
some_kind_supported supported (some accepted) =
    any (λ kind. any (same_kind kind) supported) accepted

abbrev pub all_keys_offered : List String → Option (List String) → Bool
all_keys_offered offered none = true
all_keys_offered offered (some wanted) = all (λ key. any (λ k. k == key) offered) wanted

unfoldable pub capability_matches_requirement : CapabilityDescriptor → CapabilityRequirement → Bool
capability_matches_requirement descriptor requirement =
    some_kind_supported descriptor.supported_target_kinds requirement.accepted_target_kinds
    && all_keys_offered descriptor.compatibility_keys requirement.required_compatibility_keys

abbrev pub current_enough : CapabilityCurrentAvailability → Bool → Bool
current_enough current_available allow_degraded = true
current_enough current_degraded allow_degraded = allow_degraded
current_enough _ allow_degraded = false

abbrev pub kind_accepted : Option (List CapabilityTargetKind) → CapabilityTargetKind → Bool
kind_accepted none kind = true
kind_accepted (some accepted) kind = any (same_kind kind) accepted

abbrev pub key_wanted : Option (List String) → String → Bool
key_wanted none key = true
key_wanted (some wanted) key = any (λ k. k == key) wanted

-- The four filters on the bindings, one after the other.
unfoldable pub usable_bindings :
    DateParse
    → CapabilityPlanInput
    → CapabilityRequirement
    → List CapabilityBindingDescriptor
    → List CapabilityBindingDescriptor
usable_bindings date_parse input requirement bindings =
    filter
      (λ b.
        current_enough
          (evaluate_capability_availability date_parse b.availability input.now_epoch_ms)
          (or_else requirement.allow_degraded false))
      (filter (λ b. key_wanted requirement.required_compatibility_keys b.compatibility_key)
        (filter (λ b. kind_accepted requirement.accepted_target_kinds b.target_kind)
          (filter (λ b. binding_matches_tenant b input) bindings)))

abbrev pub unsatisfied_for :
    CapabilityRequirement
    → CapabilityPlanSelectionReason
    → Option CapabilityCurrentAvailability
    → CapabilityPlanSelection
unsatisfied_for requirement reason availability = record {
  requirement_id = requirement.requirement_id;
  capability_id = requirement.capability_id;
  status = unsatisfied;
  reason = reason;
  current_availability = availability;
  selected_binding_ids = [];
}

abbrev pub binding_ids :
    DateParse → CapabilityPlanInput → CapabilityRequirement → CapabilityDescriptor → List String
binding_ids date_parse input requirement descriptor =
    sort_by text_le
      (map (λ b. b.binding_id) (usable_bindings date_parse input requirement descriptor.bindings))

abbrev pub select_found :
    DateParse
    → CapabilityPlanInput
    → CapabilityRequirement
    → Option CapabilityDescriptor
    → CapabilityPlanSelection
select_found date_parse input requirement none =
    unsatisfied_for requirement capability_not_found none
select_found date_parse input requirement (some descriptor) =
    let current =
      evaluate_capability_availability date_parse descriptor.availability input.now_epoch_ms in
    let ids = binding_ids date_parse input requirement descriptor in
    if not (capability_tenant_matches descriptor input)
    then unsatisfied_for requirement tenant_mismatch none
    else if not (capability_matches_requirement descriptor requirement)
    then unsatisfied_for requirement incompatible_capability none
    else if not (current_enough current (or_else requirement.allow_degraded false))
    then unsatisfied_for requirement capability_not_current (some current)
    else if is_empty ids
    then unsatisfied_for requirement no_current_binding (some current)
    else record {
      requirement_id = requirement.requirement_id;
      capability_id = requirement.capability_id;
      status = is_selected;
      reason = selected;
      current_availability = some current;
      selected_binding_ids = ids;
    }

unfoldable pub select_requirement :
    DateParse
    → CapabilityRegistrySnapshot
    → CapabilityPlanInput
    → CapabilityRequirement
    → CapabilityPlanSelection
select_requirement date_parse registry input requirement =
    select_found date_parse input requirement (find_capability registry requirement.capability_id)

abbrev pub has_selected : CapabilityPlanSelection → Bool
has_selected selection = elim (selection.status) [ is_selected ↦ true | unsatisfied ↦ false ]

abbrev plan_with : CapabilityPlanInput → Bool → List CapabilityPlanSelection → CapabilityPlan
plan_with input ready selections = record {
  tenant_id = input.tenant_id;
  correlation_id = input.correlation_id;
  registry_version = input.registry_version;
  status = if ready then plan_ready else plan_blocked;
  selections = selections;
  authorizes_execution = false;
}

unfoldable pub plan_capabilities :
    DateParse → CapabilityRegistrySnapshot → CapabilityPlanInput → CapabilityPlan
plan_capabilities date_parse registry input =
    let selections = map (select_requirement date_parse registry input) input.requirements in
    if not (registry.registry_version == input.registry_version)
    then plan_with input false (
        map (λ requirement. unsatisfied_for requirement capability_not_current none)
          input.requirements)
    else plan_with input (all has_selected selections) selections
