-- ===== src/Templates/Tests.antt =====
-- A small template, its registry and plan, and the theorem at them.
use aurora_ai_native.Prelude.{
  ◌≡◌, refl, false, none, some, [], ◌∷◌, map, All, lookup, insert, insert_sorted, sort_by,
}
use aurora_ai_native.Lanes.{low, read_only, plan_ready}
use aurora_ai_native.CapabilityPlan.Types.{
  device, available, current_available, no_readback, optional, aurora_native, selected, is_selected,
  CapabilityDescriptor, CapabilityPlan,
}
use aurora_ai_native.CapabilityPlan.{find_capability}
use aurora_ai_native.Templates.Types.{
  template_active, PlanTemplateMatchCriteria, PlanTemplate, PlanTemplateBindingInput, PlanBinding,
  capability_version_incompatible, bound, bind_rejected,
}
use aurora_ai_native.Templates.Bind.{
  equal_match_criteria, by_requirement, compatibility_of, selection_of, missing_key,
  bind_requirement, bind_requirements, bind_plan_template,
}
use aurora_ai_native.Templates.Binding.{IsCompatible, IsChecked, bind-IsCompatible}

abbrev lamp : CapabilityDescriptor
lamp = record {
  capability_id = "lamp";
  semantic_version = "1.0.0";
  name = "Lamp";
  description = "";
  tenant_id = none;
  supported_target_kinds = device ∷ [];
  compatibility_keys = "v1" ∷ "v2" ∷ [];
  required_permission_claims = [];
  preconditions = [];
  risk_class = low;
  side_effect_class = read_only;
  readback_strategy = no_readback;
  evidence_strategy = optional;
  availability = record {
    state = available;
    observed_at = "noon";
    max_age_ms = 50;
    source = "probe";
  };
  bindings = [];
  provenance = record { source_kind = aurora_native; source_ref = "s"; adjudication_id = none };
}

abbrev criteria : PlanTemplateMatchCriteria
criteria = record { intent_kind = "home"; task_kind = "light"; input_contract_version = "1" }

abbrev lit : PlanTemplate
lit = record {
  template_id = "lit";
  semantic_version = "1";
  content_hash = "sha256:0";
  status = template_active;
  match_criteria = criteria;
  requirement_order = "w" ∷ [];
  registry_versions = "r1" ∷ [];
  requirements =
      record {
        requirement_id = "w";
        capability_id = "lamp";
        allowed_capability_versions = "1.0.0" ∷ [];
        required_compatibility_keys = "v2" ∷ [];
      }
      ∷ [];
  provenance_ref = "s";
}

abbrev plan_of_lamp : CapabilityPlan
plan_of_lamp = record {
  tenant_id = "t";
  correlation_id = "c";
  registry_version = "r1";
  status = plan_ready;
  selections =
      record {
        requirement_id = "w";
        capability_id = "lamp";
        status = is_selected;
        reason = selected;
        current_availability = some current_available;
        selected_binding_ids = "b2" ∷ "b1" ∷ [];
      }
      ∷ [];
  authorizes_execution = false;
}

abbrev lamp_input : PlanTemplateBindingInput
lamp_input = record {
  tenant_id = "t";
  correlation_id = "c";
  expected_content_hash = "sha256:0";
  match_criteria = criteria;
  template = lit;
  capability_plan = plan_of_lamp;
  registry = record { registry_version = "r1"; entries = lamp ∷ [] };
}

abbrev lamp_binding : PlanBinding
lamp_binding = record {
  tenant_id = "t";
  correlation_id = "c";
  template_ref = record {
    template_id = "lit";
    semantic_version = "1";
    content_hash = "sha256:0";
    provenance_ref = "s";
  };
  registry_version = "r1";
  requirement_order = "w" ∷ [];
  selections =
      record {
        requirement_id = "w";
        capability_id = "lamp";
        capability_version = "1.0.0";
        selected_binding_ids = "b1" ∷ "b2" ∷ [];
      }
      ∷ [];
  authorizes_execution = false;
}

program : Unit {0}
unfolding bind_plan_template bind_requirements bind_requirement compatibility_of by_requirement
    selection_of missing_key equal_match_criteria find_capability lookup insert sort_by
    insert_sorted
program = tt

lamp_is_bound : bind_plan_template lamp_input ≡ bound lamp_binding
unfolding program
lamp_is_bound = refl

unknown_version :
    bind_plan_template (record lamp_input {
      registry = record {
        registry_version = "r1";
        entries = record lamp { semantic_version = "2" } ∷ [];
      };
    })
    ≡ bind_rejected (capability_version_incompatible "w" "lamp")
unfolding program
unknown_version = refl

bind-IsCompatible_example :
    IsChecked lamp_input
    × All (IsCompatible lamp_input) lamp_binding.selections
    × (map (λ s. s.requirement_id) lamp_binding.selections ≡ lit.requirement_order)
    × (lamp_binding.tenant_id ≡ lamp_input.tenant_id)
bind-IsCompatible_example = bind-IsCompatible lamp_input lamp_binding lamp_is_bound
