-- ===== src/Templates/Bind.antt =====
-- bindPlanTemplate (packages/control/src/templates/templates.ts).
use aurora_ai_native.Prelude.{
  String, Bool, true, false, ◌&&◌, not, Option, none, some, List, [], ◌∷◌, ◌==◌, find?, Dict,
  contains, lookup, insert, sort_by, if◌then◌else◌, text_le,
}
use aurora_ai_native.Lanes.{CapabilityPlanStatus, plan_ready, plan_blocked}
use aurora_ai_native.CapabilityPlan.Types.{
  CapabilityDescriptor, CapabilityPlanSelection, CapabilityRegistrySnapshot, CapabilityPlan,
}
use aurora_ai_native.CapabilityPlan.{find_capability, has_selected}
use aurora_ai_native.Templates.Types.{
  PlanTemplateStatus, template_active, template_invalidated, PlanTemplateMatchCriteria,
  PlanTemplateRequirementCompatibility, PlanTemplate, PlanTemplateBindingInput,
  PlanBindingSelection, PlanBindingRejection, template_is_invalidated, content_hash_mismatch,
  match_criteria_mismatch, plan_tenant_mismatch, plan_correlation_mismatch, plan_not_ready,
  registry_snapshot_mismatch, registry_version_incompatible, requirement_not_selected,
  capability_mismatch, registry_entry_not_found, capability_version_incompatible,
  compatibility_key_missing, BindPlanTemplateResult, bound, bind_rejected,
}

unfoldable pub equal_match_criteria : PlanTemplateMatchCriteria → PlanTemplateMatchCriteria → Bool
equal_match_criteria left right =
    left.intent_kind == right.intent_kind
    && left.task_kind == right.task_kind
    && left.input_contract_version == right.input_contract_version

-- `new Map(requirements.map(…))`: a later entry of the same id takes the place of an earlier one.
unfoldable pub by_requirement :
    List PlanTemplateRequirementCompatibility
    → Dict PlanTemplateRequirementCompatibility
    → Dict PlanTemplateRequirementCompatibility
by_requirement [] d = d
by_requirement (r ∷ rs) d = by_requirement rs (insert r.requirement_id r d)

unfoldable pub compatibility_of :
    PlanTemplate → String → Option PlanTemplateRequirementCompatibility
compatibility_of template id = lookup id (by_requirement template.requirements [])

unfoldable pub selection_of : CapabilityPlan → String → Option CapabilityPlanSelection
selection_of p id = find? (λ candidate. candidate.requirement_id == id) p.selections

-- One turn of the loop: a selection, or why there is none.
pub data BindStep : Type 0 where
  binds : PlanBindingSelection → BindStep
  stops : PlanBindingRejection → BindStep

abbrev pub bind_descriptor :
    String
    → PlanTemplateRequirementCompatibility
    → CapabilityPlanSelection
    → CapabilityDescriptor
    → Option String
    → BindStep
bind_descriptor id c chosen descriptor (some key) =
    stops (compatibility_key_missing id c.capability_id key)
bind_descriptor id c chosen descriptor none = binds (record {
  requirement_id = id;
  capability_id = descriptor.capability_id;
  capability_version = descriptor.semantic_version;
  selected_binding_ids = sort_by text_le chosen.selected_binding_ids;
})

-- `requiredCompatibilityKeys.find((key) => !descriptor.compatibilityKeys.includes(key))`
unfoldable pub missing_key :
    PlanTemplateRequirementCompatibility → CapabilityDescriptor → Option String
missing_key c descriptor =
    find? (λ key. not (contains descriptor.compatibility_keys key)) c.required_compatibility_keys

abbrev pub bind_found :
    String
    → PlanTemplateRequirementCompatibility
    → CapabilityPlanSelection
    → Option CapabilityDescriptor
    → BindStep
bind_found id c chosen none = stops (registry_entry_not_found id c.capability_id)
bind_found id c chosen (some descriptor) =
    if not (contains c.allowed_capability_versions descriptor.semantic_version)
    then stops (capability_version_incompatible id c.capability_id)
    else bind_descriptor id c chosen descriptor (missing_key c descriptor)

abbrev pub bind_selection :
    CapabilityRegistrySnapshot
    → String
    → PlanTemplateRequirementCompatibility
    → Option CapabilityPlanSelection
    → BindStep
bind_selection registry id c none = stops (requirement_not_selected id)
bind_selection registry id c (some chosen) =
    if not (has_selected chosen)
    then stops (requirement_not_selected id)
    else if not (chosen.capability_id == c.capability_id)
    then stops (capability_mismatch id chosen.capability_id)
    else bind_found id c chosen (find_capability registry c.capability_id)

abbrev pub bind_compatibility :
    PlanTemplateBindingInput → String → Option PlanTemplateRequirementCompatibility → BindStep
bind_compatibility input id none = stops (requirement_not_selected id)
bind_compatibility input id (some c) =
    bind_selection input.registry id c (selection_of input.capability_plan id)

unfoldable pub bind_requirement : PlanTemplateBindingInput → String → BindStep
bind_requirement input id = bind_compatibility input id (compatibility_of input.template id)

pub data BindSteps : Type 0 where
  all_bound : List PlanBindingSelection → BindSteps
  stopped : PlanBindingRejection → BindSteps

abbrev pub and_then : BindStep → BindSteps → BindSteps
and_then (stops rejection) rest = stopped rejection
and_then (binds chosen) (stopped rejection) = stopped rejection
and_then (binds chosen) (all_bound others) = all_bound (chosen ∷ others)

-- The loop over `template.requirementOrder`.
unfoldable pub bind_requirements : PlanTemplateBindingInput → List String → BindSteps
bind_requirements input [] = all_bound []
bind_requirements input (id ∷ ids) =
    and_then (bind_requirement input id) (bind_requirements input ids)

abbrev pub is_template_active : PlanTemplateStatus → Bool
is_template_active template_active = true
is_template_active template_invalidated = false

abbrev pub is_plan_ready : CapabilityPlanStatus → Bool
is_plan_ready plan_ready = true
is_plan_ready plan_blocked = false

abbrev pub bound_with : PlanTemplateBindingInput → BindSteps → BindPlanTemplateResult
bound_with input (stopped rejection) = bind_rejected rejection
bound_with input (all_bound selections) = bound (record {
  tenant_id = input.tenant_id;
  correlation_id = input.correlation_id;
  template_ref = record {
    template_id = input.template.template_id;
    semantic_version = input.template.semantic_version;
    content_hash = input.template.content_hash;
    provenance_ref = input.template.provenance_ref;
  };
  registry_version = input.registry.registry_version;
  requirement_order = input.template.requirement_order;
  selections = selections;
  authorizes_execution = false;
})

unfoldable pub bind_plan_template : PlanTemplateBindingInput → BindPlanTemplateResult
bind_plan_template input =
    if not (is_template_active input.template.status)
    then bind_rejected template_is_invalidated
    else if not (input.expected_content_hash == input.template.content_hash)
    then bind_rejected content_hash_mismatch
    else if not (equal_match_criteria input.template.match_criteria input.match_criteria)
    then bind_rejected match_criteria_mismatch
    else if not (input.capability_plan.tenant_id == input.tenant_id)
    then bind_rejected plan_tenant_mismatch
    else if not (input.capability_plan.correlation_id == input.correlation_id)
    then bind_rejected plan_correlation_mismatch
    else if not (is_plan_ready input.capability_plan.status)
    then bind_rejected plan_not_ready
    else if not (input.capability_plan.registry_version == input.registry.registry_version)
    then bind_rejected registry_snapshot_mismatch
    else if not (contains input.template.registry_versions input.registry.registry_version)
    then bind_rejected registry_version_incompatible
    else bound_with input (bind_requirements input input.template.requirement_order)
