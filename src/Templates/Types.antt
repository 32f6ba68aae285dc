-- ===== src/Templates/Types.antt =====
-- packages/control/src/templates/types.ts. The fields that are constants of their type are left out, and
-- of the provenance all but the reference; so are the reason and the conditions of an invalidation,
-- which bindPlanTemplate does not read.
use aurora_ai_native.Prelude.{String, Bool, List}
use aurora_ai_native.CapabilityPlan.Types.{CapabilityPlan, CapabilityRegistrySnapshot}

pub data PlanTemplateStatus : Type 0 where
  template_active template_invalidated : PlanTemplateStatus

pub record PlanTemplateMatchCriteria : Type 0 where
  pub intent_kind : String
  pub task_kind : String
  pub input_contract_version : String

pub record PlanTemplateRequirementCompatibility : Type 0 where
  pub requirement_id : String
  pub capability_id : String
  pub allowed_capability_versions : List String
  pub required_compatibility_keys : List String

pub record PlanTemplate : Type 0 where
  pub template_id : String
  pub semantic_version : String
  pub content_hash : String
  pub status : PlanTemplateStatus
  pub match_criteria : PlanTemplateMatchCriteria
  pub requirement_order : List String
  pub registry_versions : List String
  pub requirements : List PlanTemplateRequirementCompatibility
  pub provenance_ref : String

pub record PlanTemplateBindingInput : Type 0 where
  pub tenant_id : String
  pub correlation_id : String
  pub expected_content_hash : String
  pub match_criteria : PlanTemplateMatchCriteria
  pub template : PlanTemplate
  pub capability_plan : CapabilityPlan
  pub registry : CapabilityRegistrySnapshot

pub record PlanBindingSelection : Type 0 where
  pub requirement_id : String
  pub capability_id : String
  pub capability_version : String
  pub selected_binding_ids : List String

pub record PlanTemplateRef : Type 0 where
  pub template_id : String
  pub semantic_version : String
  pub content_hash : String
  pub provenance_ref : String

pub record PlanBinding : Type 0 where
  pub tenant_id : String
  pub correlation_id : String
  pub template_ref : PlanTemplateRef
  pub registry_version : String
  pub requirement_order : List String
  pub selections : List PlanBindingSelection
  pub authorizes_execution : Bool

-- The codes; those of one requirement carry it.
pub data PlanBindingRejection : Type 0 where
  template_is_invalidated content_hash_mismatch match_criteria_mismatch : PlanBindingRejection
  plan_tenant_mismatch plan_correlation_mismatch plan_not_ready : PlanBindingRejection
  registry_snapshot_mismatch registry_version_incompatible : PlanBindingRejection
  requirement_not_selected : String → PlanBindingRejection
  capability_mismatch registry_entry_not_found : String → String → PlanBindingRejection
  capability_version_incompatible : String → String → PlanBindingRejection
  compatibility_key_missing : String → String → String → PlanBindingRejection

pub data BindPlanTemplateResult : Type 0 where
  bound : PlanBinding → BindPlanTemplateResult
  bind_rejected : PlanBindingRejection → BindPlanTemplateResult
