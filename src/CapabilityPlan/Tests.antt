-- ===== src/CapabilityPlan/Tests.antt =====
-- A small registry and a plan from it, and the theorem at them.
use mathlib.Core.List.{Memᴰ}
use aurora_ai_native.Prelude.{
  String, ◌≡◌, refl, Option, none, some, [], ◌∷◌, ◌==◌, sort_by, if◌then◌else◌, DateParse,
}
use aurora_ai_native.Lanes.{low, read_only, plan_ready}
use aurora_ai_native.CapabilityPlan.Types.{
  device, available, current_available, no_readback, optional, aurora_native, selected, is_selected,
  CapabilityAvailabilityObservation, CapabilityBindingDescriptor, CapabilityRegistrySnapshot,
  CapabilityRequirement, CapabilityPlanInput, CapabilityPlanSelection,
}
use aurora_ai_native.CapabilityPlan.{
  plan_capabilities, select_requirement, find_capability, usable_bindings,
  evaluate_capability_availability, capability_matches_requirement,
}
use aurora_ai_native.CapabilityPlan.Tenancy.{IsJustified, plan-IsJustified}

abbrev parse : DateParse
parse text = if text == "noon" then some 100 else none

abbrev seen : CapabilityAvailabilityObservation
seen = record { state = available; observed_at = "noon"; max_age_ms = 50; source = "probe" }

abbrev binding_of : String → Option String → CapabilityBindingDescriptor
binding_of id owner = record {
  binding_id = id;
  target_kind = device;
  compatibility_key = "v1";
  tenant_id = owner;
  availability = seen;
}

abbrev registry : CapabilityRegistrySnapshot
registry = record {
  registry_version = "r1";
  entries =
      record {
        capability_id = "lamp";
        semantic_version = "1.0.0";
        name = "Lamp";
        description = "";
        tenant_id = none;
        supported_target_kinds = device ∷ [];
        compatibility_keys = "v1" ∷ [];
        required_permission_claims = [];
        preconditions = [];
        risk_class = low;
        side_effect_class = read_only;
        readback_strategy = no_readback;
        evidence_strategy = optional;
        availability = seen;
        bindings = binding_of "theirs" (some "t2") ∷ binding_of "ours" (some "t1") ∷ [];
        provenance = record {
          source_kind = aurora_native;
          source_ref = "s";
          adjudication_id = none;
        };
      }
      ∷ [];
}

abbrev wish : CapabilityRequirement
wish = record {
  requirement_id = "w1";
  capability_id = "lamp";
  accepted_target_kinds = some (device ∷ []);
  required_compatibility_keys = none;
  allow_degraded = none;
}

abbrev wishes : CapabilityPlanInput
wishes = record {
  tenant_id = "t1";
  correlation_id = "c1";
  registry_version = "r1";
  now_epoch_ms = 120;
  requirements = wish ∷ [];
}

abbrev choice : CapabilityPlanSelection
choice = record {
  requirement_id = "w1";
  capability_id = "lamp";
  status = is_selected;
  reason = selected;
  current_availability = some current_available;
  selected_binding_ids = "ours" ∷ [];
}

plan_selections : (plan_capabilities parse registry wishes).selections ≡ choice ∷ []
unfolding plan_capabilities select_requirement find_capability usable_bindings
    evaluate_capability_availability capability_matches_requirement sort_by
plan_selections = refl

plan_status : (plan_capabilities parse registry wishes).status ≡ plan_ready
unfolding plan_capabilities select_requirement find_capability usable_bindings
    evaluate_capability_availability capability_matches_requirement sort_by
plan_status = refl

choice_there : Memᴰ choice (plan_capabilities parse registry wishes).selections
choice_there = rw plan_selections (Memᴰ.head refl)

plan-IsJustified_example :
    (registry.registry_version ≡ wishes.registry_version)
    × (requirement : CapabilityRequirement) × Memᴰ requirement wishes.requirements
    × IsJustified parse registry wishes requirement "ours"
plan-IsJustified_example =
    plan-IsJustified parse registry wishes choice "ours" choice_there (Memᴰ.head refl)
