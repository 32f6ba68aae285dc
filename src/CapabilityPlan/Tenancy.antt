-- ===== src/CapabilityPlan/Tenancy.antt =====
-- Where the bindings that a plan selects come from (packages/control/src/capability-plan/planner.ts).
use mathlib.Core.List.{Memᴰ}
use aurora_ai_native.Prelude.{
  String, ◌≡◌, ◌⊎◌, inl, inr, true, false, none, some, List, eq_iff, ◌==◌, is_empty, Bool-cases,
  Option-cases, or_else, text_le, no_member, mem-filter, mem-sort_by, mem-map, mem-find?, DateParse,
}
use aurora_ai_native.CapabilityPlan.Types.{
  capability_not_current, CapabilityBindingDescriptor, CapabilityDescriptor,
  CapabilityRegistrySnapshot, CapabilityRequirement, CapabilityPlanInput, CapabilityPlanSelection,
}
use aurora_ai_native.CapabilityPlan.Current.{
  tenant_allowed, IsCurrent, IsAccepted, availability-IsCurrent, kind-IsAccepted, key-IsAccepted,
}
use aurora_ai_native.CapabilityPlan.{
  key_wanted, find_capability, capability_tenant_matches, binding_matches_tenant, kind_accepted,
  current_enough, usable_bindings, select_found, select_requirement, plan_capabilities,
  evaluate_capability_availability, capability_matches_requirement, unsatisfied_for, binding_ids,
}

module _ (date_parse : DateParse) (registry : CapabilityRegistrySnapshot)
    (input : CapabilityPlanInput) where
  -- Why a binding may serve a requirement: the registry has it for the capability, neither of them belongs
  -- to another tenant, both are current enough, and its kind of target and its key are accepted.
  pub record IsJustified (requirement : CapabilityRequirement) (id : String) : Type 0 where
    pub descriptor : CapabilityDescriptor
    pub binding : CapabilityBindingDescriptor
    pub registered : Memᴰ descriptor registry.entries
    pub same_capability : descriptor.capability_id ≡ requirement.capability_id
    pub listed : Memᴰ binding descriptor.bindings
    pub named : id ≡ binding.binding_id
    pub own_capability :
        (descriptor.tenant_id ≡ none) ⊎ (descriptor.tenant_id ≡ some input.tenant_id)
    pub own_binding : (binding.tenant_id ≡ none) ⊎ (binding.tenant_id ≡ some input.tenant_id)
    pub capability_current :
        IsCurrent date_parse descriptor.availability input.now_epoch_ms requirement.allow_degraded
    pub binding_current :
        IsCurrent date_parse binding.availability input.now_epoch_ms requirement.allow_degraded
    pub kind : IsAccepted requirement.accepted_target_kinds binding.target_kind
    pub key : IsAccepted requirement.required_compatibility_keys binding.compatibility_key

  usable-conditions :
      (requirement : CapabilityRequirement) (bindings : List CapabilityBindingDescriptor)
      (b : CapabilityBindingDescriptor)
      → Memᴰ b (usable_bindings date_parse input requirement bindings)
      → Memᴰ b bindings
        × (binding_matches_tenant b input ≡ true)
        × (kind_accepted requirement.accepted_target_kinds b.target_kind ≡ true)
        × (key_wanted requirement.required_compatibility_keys b.compatibility_key ≡ true)
        × (current_enough
              (evaluate_capability_availability date_parse b.availability input.now_epoch_ms)
              (or_else requirement.allow_degraded false)
            ≡ true)
  unfolding usable_bindings
  usable-conditions requirement bindings b m =
      let (m3, current) = mem-filter _ _ b m in
      let (m2, key) = mem-filter _ _ b m3 in
      let (m1, kind) = mem-filter _ _ b m2 in
      let (m0, tenant) = mem-filter _ bindings b m1 in (m0, tenant, kind, key, current)

  select_found-ids :
      (requirement : CapabilityRequirement) (d : CapabilityDescriptor) (id : String)
      → Memᴰ id (select_found date_parse input requirement (some d)).selected_binding_ids
      → (capability_tenant_matches d input ≡ true)
        × (current_enough
              (evaluate_capability_availability date_parse d.availability input.now_epoch_ms)
              (or_else requirement.allow_degraded false)
            ≡ true)
        × Memᴰ id (binding_ids date_parse input requirement d)
  select_found-ids requirement d id m =
      let current =
        current_enough
          (evaluate_capability_availability date_parse d.availability input.now_epoch_ms)
          (or_else requirement.allow_degraded false) in
      elim (Bool-cases (capability_tenant_matches d input)) [
        | inr t ↦ no_member (rw t at m)
        | inl t ↦ elim (Bool-cases (capability_matches_requirement d requirement)) [
          | inr c ↦ no_member (rw (t, c) at m)
          | inl c ↦ elim (Bool-cases current) [
            | inr a ↦ no_member (rw (t, c, a) at m)
            | inl a ↦ elim (Bool-cases (is_empty (binding_ids date_parse input requirement d))) [
              | inr e ↦ (t, a, rw (t, c, a, e) at m)
              | inl e ↦ no_member (rw (t, c, a, e) at m)
            ]
          ]
        ]
      ]

  select-IsJustified :
      (requirement : CapabilityRequirement) (id : String)
      → Memᴰ id (select_requirement date_parse registry input requirement).selected_binding_ids
      → IsJustified requirement id
  unfolding select_requirement find_capability
  select-IsJustified requirement id m =
      elim (Option-cases (find_capability registry requirement.capability_id)) [
        | inl missing ↦ no_member (rw missing at m)
        | inr (d, found) ↦
            let (registered, same) =
              mem-find? (λ entry. entry.capability_id == requirement.capability_id) registry.entries
                d found in
            let (tenant, current, listed_id) = select_found-ids requirement d id (rw found at m) in
            let (b, usable, named) =
              mem-map (λ b. b.binding_id) _ id (mem-sort_by text_le _ id listed_id) in
            let (listed, own, kind, key, b_current) =
              usable-conditions requirement d.bindings b usable in
            record {
              descriptor = d;
              binding = b;
              registered = registered;
              same_capability = (eq_iff d.capability_id requirement.capability_id).0 same;
              listed = listed;
              named = named;
              own_capability = tenant_allowed d.tenant_id input.tenant_id tenant;
              own_binding = tenant_allowed b.tenant_id input.tenant_id own;
              capability_current =
                  availability-IsCurrent date_parse d.availability input.now_epoch_ms
                    requirement.allow_degraded current;
              binding_current =
                  availability-IsCurrent date_parse b.availability input.now_epoch_ms
                    requirement.allow_degraded b_current;
              kind = kind-IsAccepted requirement.accepted_target_kinds b.target_kind kind;
              key = key-IsAccepted requirement.required_compatibility_keys b.compatibility_key key;
            }
      ]

  -- Every binding that a plan selects is there for one of the requirements: the registry, in the version
  -- that was asked for, has an entry of the capability's id that lists it; neither the capability nor the
  -- binding belongs to another tenant; the availability of both was observed at a time that the platform
  -- reads, no longer ago than its age limit, as available or, where the requirement allows it, degraded;
  -- and its kind of target and its compatibility key are among those that the requirement names, where it
  -- names any.
  pub plan-IsJustified :
      (selection : CapabilityPlanSelection) (id : String)
      → Memᴰ selection (plan_capabilities date_parse registry input).selections
      → Memᴰ id selection.selected_binding_ids
      → (registry.registry_version ≡ input.registry_version)
        × (requirement : CapabilityRequirement) × Memᴰ requirement input.requirements
        × IsJustified requirement id
  unfolding plan_capabilities
  plan-IsJustified selection id s m =
      elim (Bool-cases (registry.registry_version == input.registry_version)) [
        | inl same ↦
            let (r, asked, e) =
              mem-map (select_requirement date_parse registry input) _ selection (rw same at s) in
            (
              (eq_iff registry.registry_version input.registry_version).0 same,
              r,
              asked,
              select-IsJustified r id (rw e at m),
            )
        | inr other ↦
            let (r, asked, e) =
              mem-map (λ r. unsatisfied_for r capability_not_current none) _ selection
                (rw other at s) in
            no_member (rw e at m)
      ]
