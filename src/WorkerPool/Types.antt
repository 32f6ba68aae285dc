-- ===== src/WorkerPool/Types.antt =====
-- services/agent-runtime/src/runtime/types.ts. Of the tenant and the correlation the ids are kept; the
-- fields that are constants of their type (`authoritySemantics`, `canInvokeTools`) are left out.
use aurora_ai_native.Prelude.{ℕ, String, Bool, Option}

pub data AgentWorkJustification : Type 0 where
  iterative_observe_plan_required specialist_coordination_required : AgentWorkJustification

pub data WorkerState : Type 0 where
  pending claiming active releasing lease_lost lease_uncertain : WorkerState
  completed cancelled failed : WorkerState

pub data WorkerTerminalReason : Type 0 where
  work_completed work_failed cancelled_by_control : WorkerTerminalReason

pub record AgentWorkerRuntimeConfig : Type 0 where
  pub max_workers : ℕ
  pub max_tracked_tasks : ℕ
  pub lease_ttl_ms : ℕ
  pub heartbeat_interval_ms : ℕ

pub record AgentWorkerTask : Type 0 where
  pub task_id : String
  pub tenant_id : String
  pub correlation_id : String
  pub justification : AgentWorkJustification

pub record WorkerOperationContext : Type 0 where
  pub tenant_id : String
  pub correlation_id : String

pub record LeaseResult {ℓ} (Status : Type ℓ) : Type ℓ where
  pub status : Status
  pub from_durable_lease : Bool
  pub tenant_id : String
  pub lease_key : String
  pub owner_token : String
  pub authorizes_execution : Bool

pub data AcquireStatus : Type 0 where
  acquired not_acquired : AcquireStatus

pub data HeartbeatStatus : Type 0 where
  current lost : HeartbeatStatus

pub data ReleaseStatus : Type 0 where
  released not_owner : ReleaseStatus

pub record MutableWorkerRecord : Type 0 where
  pub task : AgentWorkerTask
  pub state : WorkerState
  pub generation : ℕ
  pub owner_token : Option String
  pub cancel_requested : Bool
  pub cancel_requested_at_epoch_ms : Option ℕ
  pub terminal_reason : Option WorkerTerminalReason
  pub last_transition_epoch_ms : ℕ
  pub last_heartbeat_epoch_ms : Option ℕ

pub data WorkerDecisionCode : Type 0 where
  submitted duplicate_task tracking_capacity_reached invalid_task : WorkerDecisionCode
  claimed reclaimed worker_capacity_reached invalid_state : WorkerDecisionCode
  owner_mismatch lease_not_acquired lease_current lease_was_lost : WorkerDecisionCode
  lease_is_uncertain invalid_lease_result lease_port_error : WorkerDecisionCode
  cancel_was_requested was_cancelled was_completed has_failed : WorkerDecisionCode
  pruned task_not_found : WorkerDecisionCode
