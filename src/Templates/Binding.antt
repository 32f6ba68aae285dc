-- ===== src/Templates/Binding.antt =====
-- What a bound template has been checked for (packages/control/src/templates/templates.ts).
use mathlib.Core.List.{Memᴰ}
use aurora_ai_native.Prelude.{
  String, ◌≡◌, refl, sym, ap, ◌∙◌, true, not, Option, none, some, List, [], ◌∷◌, map, arith, eq_iff,
  find?, All, contains, mem-find?, ◌==◌,
}
use aurora_ai_native.Lanes.{plan_ready}
use aurora_ai_native.CapabilityPlan.Types.{
  is_selected, CapabilityDescriptor, CapabilityPlanSelection,
}
use aurora_ai_native.CapabilityPlan.{find_capability, has_selected}
use aurora_ai_native.Templates.Types.{
  template_active, PlanTemplateRequirementCompatibility, PlanTemplateBindingInput,
  PlanBindingSelection, PlanBinding, bound,
}
use aurora_ai_native.Templates.Listed.{
  compatibility_of-listed, is_active-status, is_ready-status, criteria-equal,
}
use aurora_ai_native.Templates.Bind.{
  compatibility_of, selection_of, BindStep, binds, stops, missing_key, bind_found, bind_selection,
  bind_compatibility, bind_requirement, BindSteps, all_bound, stopped, and_then, bind_requirements,
  bound_with, bind_plan_template,
}

-- What stands behind one selection of a binding.
pub record IsCompatible (input : PlanTemplateBindingInput) (s : PlanBindingSelection) : Type 0 where
  pub requirement : PlanTemplateRequirementCompatibility
  pub planned : CapabilityPlanSelection
  pub descriptor : CapabilityDescriptor
  pub required : compatibility_of input.template s.requirement_id ≡ some requirement
  pub in_template : Memᴰ requirement input.template.requirements
  pub required_for : requirement.requirement_id ≡ s.requirement_id
  pub in_plan : Memᴰ planned input.capability_plan.selections
  pub same_requirement : planned.requirement_id ≡ s.requirement_id
  pub is_chosen : planned.status ≡ is_selected
  pub same_capability : planned.capability_id ≡ requirement.capability_id
  pub in_registry : Memᴰ descriptor input.registry.entries
  pub of_capability : descriptor.capability_id ≡ requirement.capability_id
  pub versioned : s.capability_version ≡ descriptor.semantic_version
  pub allowed : contains requirement.allowed_capability_versions s.capability_version ≡ true
  pub keys :
      All
        (λ key. contains descriptor.compatibility_keys key ≡ true)
        requirement.required_compatibility_keys

missing-All :
    (offered keys : List String)
    → find? (λ key. not (contains offered key)) keys ≡ none
    → All (λ key. contains offered key ≡ true) keys
missing-All offered [] h = tt
missing-All offered (key ∷ keys) h = (ground arith, missing-All offered keys (ground arith))

chosen-status :
    (planned : CapabilityPlanSelection) → has_selected planned ≡ true → planned.status ≡ is_selected
chosen-status planned h = ground arith

found-IsCompatible :
    (input : PlanTemplateBindingInput) (id : String) (c : PlanTemplateRequirementCompatibility)
    (planned : CapabilityPlanSelection) (descriptor : Option CapabilityDescriptor)
    (s : PlanBindingSelection)
    → compatibility_of input.template id ≡ some c
    → selection_of input.capability_plan id ≡ some planned
    → has_selected planned ≡ true
    → planned.capability_id ≡ c.capability_id
    → find_capability input.registry c.capability_id ≡ descriptor
    → bind_found id c planned descriptor ≡ binds s
    → IsCompatible input s × (s.requirement_id ≡ id)
unfolding missing_key selection_of find_capability
found-IsCompatible input id c planned none s e1 e2 e3 e4 e5 h = ground arith
found-IsCompatible input id c planned (some descriptor) s e1 e2 e3 e4 e5 h =
    let same : s.requirement_id ≡ id = ground arith in
    let (in_template, is_required) = compatibility_of-listed input.template id c e1 in
    let (in_plan, is_planned) =
      mem-find? (λ candidate. candidate.requirement_id == id) input.capability_plan.selections
        planned e2 in
    let (in_registry, is_registered) =
      mem-find? (λ entry. entry.capability_id == c.capability_id) input.registry.entries descriptor
        e5 in
    let version : s.capability_version ≡ descriptor.semantic_version = ground arith in
    (
      record {
        requirement = c;
        planned = planned;
        descriptor = descriptor;
        required = ap (compatibility_of input.template) same ∙ e1;
        in_template = in_template;
        required_for = is_required ∙ sym same;
        in_plan = in_plan;
        same_requirement = (eq_iff planned.requirement_id id).0 is_planned ∙ sym same;
        is_chosen = chosen-status planned e3;
        same_capability = e4;
        in_registry = in_registry;
        of_capability = (eq_iff descriptor.capability_id c.capability_id).0 is_registered;
        versioned = version;
        allowed = ap (contains c.allowed_capability_versions) version ∙ ground arith;
        keys =
            missing-All descriptor.compatibility_keys c.required_compatibility_keys (ground arith);
      },
      same,
    )

selection-IsCompatible :
    (input : PlanTemplateBindingInput) (id : String) (c : PlanTemplateRequirementCompatibility)
    (planned : Option CapabilityPlanSelection) (s : PlanBindingSelection)
    → compatibility_of input.template id ≡ some c
    → selection_of input.capability_plan id ≡ planned
    → bind_selection input.registry id c planned ≡ binds s
    → IsCompatible input s × (s.requirement_id ≡ id)
selection-IsCompatible input id c none s e1 e2 h = ground arith
selection-IsCompatible input id c (some planned) s e1 e2 h =
    found-IsCompatible input id c planned (find_capability input.registry c.capability_id) s e1 e2
      (ground arith) (ground (arith, eq_iff planned.capability_id c.capability_id)) refl
      (ground arith)

requirement-IsCompatible :
    (input : PlanTemplateBindingInput) (id : String)
    (c : Option PlanTemplateRequirementCompatibility) (s : PlanBindingSelection)
    → compatibility_of input.template id ≡ c
    → bind_compatibility input id c ≡ binds s
    → IsCompatible input s × (s.requirement_id ≡ id)
requirement-IsCompatible input id none s e h = ground arith
requirement-IsCompatible input id (some c) s e h =
    selection-IsCompatible input id c (selection_of input.capability_plan id) s e refl h

and_then-all_bound :
    (step : BindStep) (rest : BindSteps) (selections : List PlanBindingSelection)
    → and_then step rest ≡ all_bound selections
    → (s : PlanBindingSelection) × (others : List PlanBindingSelection) × (step ≡ binds s)
      × (rest ≡ all_bound others)
      × (selections ≡ s ∷ others)
and_then-all_bound (stops rejection) rest selections h = ground arith
and_then-all_bound (binds s) (stopped rejection) selections h = ground arith
and_then-all_bound (binds s) (all_bound others) selections h = (s, others, refl, refl, ground arith)

requirements-IsCompatible :
    (input : PlanTemplateBindingInput) (ids : List String) (selections : List PlanBindingSelection)
    → bind_requirements input ids ≡ all_bound selections
    → All (IsCompatible input) selections × (map (λ s. s.requirement_id) selections ≡ ids)
unfolding bind_requirements bind_requirement
requirements-IsCompatible input [] selections h =
    let e : selections ≡ [] = ground arith in rw e (tt, refl)
requirements-IsCompatible input (id ∷ ids) selections h =
    let (s, others, e1, e2, e) =
      and_then-all_bound (bind_requirement input id) (bind_requirements input ids) selections h in
    let (compatible, same) =
      requirement-IsCompatible input id (compatibility_of input.template id) s refl e1 in
    let (rest, order) = requirements-IsCompatible input ids others e2 in
    rw e (
      (compatible, rest),
      ap (λ i. i ∷ map (λ t. t.requirement_id) others) same ∙ ap (λ l. id ∷ l) order,
    )

-- What a binding has been checked for as a whole.
pub record IsChecked (input : PlanTemplateBindingInput) : Type 0 where
  pub is_active : input.template.status ≡ template_active
  pub content : input.expected_content_hash ≡ input.template.content_hash
  pub intent_kind : input.template.match_criteria.intent_kind ≡ input.match_criteria.intent_kind
  pub task_kind : input.template.match_criteria.task_kind ≡ input.match_criteria.task_kind
  pub input_contract :
      input.template.match_criteria.input_contract_version
      ≡ input.match_criteria.input_contract_version
  pub tenant : input.capability_plan.tenant_id ≡ input.tenant_id
  pub correlation : input.capability_plan.correlation_id ≡ input.correlation_id
  pub ready : input.capability_plan.status ≡ plan_ready
  pub registry : input.capability_plan.registry_version ≡ input.registry.registry_version
  pub version : contains input.template.registry_versions input.registry.registry_version ≡ true

bound_with-selections :
    (input : PlanTemplateBindingInput) (steps : BindSteps) (binding : PlanBinding)
    → bound_with input steps ≡ bound binding
    → (steps ≡ all_bound binding.selections)
      × (binding.tenant_id ≡ input.tenant_id)
      × (binding.requirement_order ≡ input.template.requirement_order)
bound_with-selections input (stopped rejection) binding h = ground arith
bound_with-selections input (all_bound selections) binding h =
    (ground arith, ground arith, ground arith)

bind-IsChecked :
    (input : PlanTemplateBindingInput) (binding : PlanBinding)
    → bind_plan_template input ≡ bound binding
    → IsChecked input
      × (bound_with input (bind_requirements input input.template.requirement_order)
          ≡ bound binding)
unfolding bind_plan_template
bind-IsChecked input binding h = (
  record {
    is_active = is_active-status input.template.status (ground arith);
    content = ground (arith, eq_iff input.expected_content_hash input.template.content_hash);
    intent_kind =
        (criteria-equal input.template.match_criteria input.match_criteria (ground arith)).0;
    task_kind =
        (criteria-equal input.template.match_criteria input.match_criteria (ground arith)).1;
    input_contract =
        (criteria-equal input.template.match_criteria input.match_criteria (ground arith)).2;
    tenant = ground (arith, eq_iff input.capability_plan.tenant_id input.tenant_id);
    correlation = ground (arith, eq_iff input.capability_plan.correlation_id input.correlation_id);
    ready = is_ready-status input.capability_plan.status (ground arith);
    registry =
        ground
          (arith, eq_iff input.capability_plan.registry_version input.registry.registry_version);
    version = ground arith;
  },
  ground arith,
)

-- A template that is bound is active, has the content hash, the intent kind, the task kind and the input
-- contract version that were asked for, and is compatible with a ready plan of the same tenant, correlation
-- and registry version; its selections follow the template's order, requirement by requirement, and each is
-- selected in the plan for the capability that the template asks for by that id and the registry has, in a version
-- that the template allows and with every compatibility key that it requires.
pub bind-IsCompatible :
    (input : PlanTemplateBindingInput) (binding : PlanBinding)
    → bind_plan_template input ≡ bound binding
    → IsChecked input
      × All (IsCompatible input) binding.selections
      × (map (λ s. s.requirement_id) binding.selections ≡ input.template.requirement_order)
      × (binding.tenant_id ≡ input.tenant_id)
bind-IsCompatible input binding h =
    let (checked, h1) = bind-IsChecked input binding h in
    let (steps, tenant, order) =
      bound_with-selections input (bind_requirements input input.template.requirement_order) binding
        h1 in
    let (compatible, ids) =
      requirements-IsCompatible input input.template.requirement_order binding.selections steps in
    (checked, compatible, ids, tenant)
