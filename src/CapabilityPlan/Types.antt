-- ===== src/CapabilityPlan/Types.antt =====
-- packages/control/src/capability-plan/types.ts, and the types of a capability registry
-- (packages/registries/src/capabilities/registry.ts) that a plan is made from. The kinds that are
-- constants of their type (`planKind`, `registryKind`) are left out.
use aurora_ai_native.Prelude.{ℕ, String, Bool, Option, List}
use aurora_ai_native.Lanes.{CapabilityRiskClass, CapabilitySideEffectClass, CapabilityPlanStatus}

pub data CapabilityTargetKind : Type 0 where
  provider device workflow local_service gateway : CapabilityTargetKind

pub data CapabilityAvailabilityState : Type 0 where
  available degraded unavailable unknown : CapabilityAvailabilityState

pub data CapabilityCurrentAvailability : Type 0 where
  current_available current_degraded : CapabilityCurrentAvailability
  not_available not_known stale : CapabilityCurrentAvailability

pub data CapabilityReadbackStrategy : Type 0 where
  no_readback receipt state_compare reconcile : CapabilityReadbackStrategy

pub data CapabilityEvidenceStrategy : Type 0 where
  required optional not_applicable : CapabilityEvidenceStrategy

pub record CapabilityAvailabilityObservation : Type 0 where
  pub state : CapabilityAvailabilityState
  pub observed_at : String
  pub max_age_ms : ℕ
  pub source : String

pub record CapabilityBindingDescriptor : Type 0 where
  pub binding_id : String
  pub target_kind : CapabilityTargetKind
  pub compatibility_key : String
  pub tenant_id : Option String
  pub availability : CapabilityAvailabilityObservation

pub data ProvenanceKind : Type 0 where
  aurora_native legacy_seed toca_reference : ProvenanceKind

pub record CapabilityProvenance : Type 0 where
  pub source_kind : ProvenanceKind
  pub source_ref : String
  pub adjudication_id : Option String

pub record CapabilityDescriptor : Type 0 where
  pub capability_id : String
  pub semantic_version : String
  pub name : String
  pub description : String
  pub tenant_id : Option String
  pub supported_target_kinds : List CapabilityTargetKind
  pub compatibility_keys : List String
  pub required_permission_claims : List String
  pub preconditions : List String
  pub risk_class : CapabilityRiskClass
  pub side_effect_class : CapabilitySideEffectClass
  pub readback_strategy : CapabilityReadbackStrategy
  pub evidence_strategy : CapabilityEvidenceStrategy
  pub availability : CapabilityAvailabilityObservation
  pub bindings : List CapabilityBindingDescriptor
  pub provenance : CapabilityProvenance

pub record CapabilityRegistrySnapshot : Type 0 where
  pub registry_version : String
  pub entries : List CapabilityDescriptor

pub record CapabilityRequirement : Type 0 where
  pub requirement_id : String
  pub capability_id : String
  pub accepted_target_kinds : Option (List CapabilityTargetKind)
  pub required_compatibility_keys : Option (List String)
  pub allow_degraded : Option Bool

pub record CapabilityPlanInput : Type 0 where
  pub tenant_id : String
  pub correlation_id : String
  pub registry_version : String
  pub now_epoch_ms : ℕ
  pub requirements : List CapabilityRequirement

pub data CapabilityPlanSelectionReason : Type 0 where
  selected capability_not_found tenant_mismatch : CapabilityPlanSelectionReason
  capability_not_current incompatible_capability no_current_binding : CapabilityPlanSelectionReason

pub data SelectionStatus : Type 0 where
  is_selected unsatisfied : SelectionStatus

pub record CapabilityPlanSelection : Type 0 where
  pub requirement_id : String
  pub capability_id : String
  pub status : SelectionStatus
  pub reason : CapabilityPlanSelectionReason
  pub current_availability : Option CapabilityCurrentAvailability
  pub selected_binding_ids : List String

pub record CapabilityPlan : Type 0 where
  pub tenant_id : String
  pub correlation_id : String
  pub registry_version : String
  pub status : CapabilityPlanStatus
  pub selections : List CapabilityPlanSelection
  pub authorizes_execution : Bool
