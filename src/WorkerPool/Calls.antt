-- ===== src/WorkerPool/Calls.antt =====
-- What the operations of BoundedAgentWorkerPool (services/agent-runtime/src/runtime/pool.ts)
-- hold and return, and the operations that do not wait.
use mathlib.Core.Option
use aurora_ai_native.Prelude.{
  ℕ, ◌+◌, String, false, ◌||◌, not, Option, none, some, [], length, lookup, insert, erase, Outcome,
  ltb, leb, if◌then◌else◌, is_some, returned, threw,
}
use aurora_ai_native.Budget.{positive_safe_integer}
use aurora_ai_native.WorkerPool.Types.{
  WorkerState, pending, WorkerTerminalReason, AgentWorkerRuntimeConfig, AgentWorkerTask,
  WorkerOperationContext, MutableWorkerRecord, WorkerDecisionCode, submitted, duplicate_task,
  tracking_capacity_reached, invalid_task, invalid_state, pruned, task_not_found,
}
use aurora_ai_native.WorkerPool.Store.{
  record_key, record_for, Pool, is_terminal, put_record, valid_epoch_ms, valid_task,
  WorkerRecordSnapshot, snapshot_of, WorkerRuntimeDecision, decision,
}

pub data AcquireMode : Type 0 where
  claim_mode reclaim_mode : AcquireMode

-- What a pending call holds across its `await`.
pub record AcquireLocals : Type 0 where
  pub ref : ℕ
  pub context : WorkerOperationContext
  pub task_id : String
  pub owner : String
  pub now : ℕ
  pub mode : AcquireMode
  pub previous_state : WorkerState
  pub previous_owner : Option String

pub record HeartbeatLocals : Type 0 where
  pub ref : ℕ
  pub owner : String
  pub now : ℕ

pub record ReleaseLocals : Type 0 where
  pub ref : ℕ
  pub owner : String
  pub now : ℕ
  pub terminal_state : WorkerState
  pub terminal_reason : WorkerTerminalReason
  pub success_code : WorkerDecisionCode

pub data PendingCall : Type 0 where
  acquiring : AcquireLocals → PendingCall
  beating : HeartbeatLocals → PendingCall
  letting_go : ReleaseLocals → PendingCall

pub data Progress : Type 0 where
  decided : WorkerRuntimeDecision → Pool → Progress
  waiting : PendingCall → Pool → Progress

abbrev pub no_record : Pool → Progress
no_record p = decided (decision p task_not_found none) p

abbrev pub refuse : Pool → WorkerDecisionCode → MutableWorkerRecord → Progress
refuse p code r = decided (decision p code (some r)) p

-- The record gets its new fields, and the call ends.
abbrev pub settle : Pool → ℕ → WorkerDecisionCode → MutableWorkerRecord → Progress
settle p ref code r = decided (decision (put_record p ref r) code (some r)) (put_record p ref r)

new_pool_rejected : AgentWorkerRuntimeConfig → Option String
new_pool_rejected config =
    if not (positive_safe_integer config.max_workers)
    then some "maxWorkers must be a positive safe integer"
    else if not (positive_safe_integer config.max_tracked_tasks)
    then some "maxTrackedTasks must be a positive safe integer"
    else if not (positive_safe_integer config.lease_ttl_ms)
    then some "leaseTtlMs must be a positive safe integer"
    else if not (positive_safe_integer config.heartbeat_interval_ms)
    then some "heartbeatIntervalMs must be a positive safe integer"
    else if ltb config.max_tracked_tasks config.max_workers
    then some "maxTrackedTasks must be greater than or equal to maxWorkers"
    else if leb config.lease_ttl_ms config.heartbeat_interval_ms
    then some "heartbeatIntervalMs must be lower than leaseTtlMs"
    else none

abbrev pub empty_pool : AgentWorkerRuntimeConfig → Pool
empty_pool config = record { config = config; records = []; heap = λ ref. none; next_ref = 0 }

unfoldable pub new_pool : AgentWorkerRuntimeConfig → Outcome Pool
unfolding new_pool_rejected
new_pool config = elim (new_pool_rejected config) [
  | some message ↦ threw message
  | none ↦ returned (empty_pool config)
]

unfoldable pub snapshot : Pool → WorkerOperationContext → String → Option WorkerRecordSnapshot
snapshot p context task_id =
    Option.map (λ found. snapshot_of (found.1)) (record_for p context task_id)

abbrev pub fresh_record : AgentWorkerTask → ℕ → MutableWorkerRecord
fresh_record task now = record {
  task = task;
  state = pending;
  generation = 0;
  owner_token = none;
  cancel_requested = false;
  cancel_requested_at_epoch_ms = none;
  terminal_reason = none;
  last_transition_epoch_ms = now;
  last_heartbeat_epoch_ms = none;
}

-- `this.#records.set(key, record)` of a new object.
abbrev pub store_new : Pool → String → MutableWorkerRecord → Pool
store_new p key r = record (put_record p p.next_ref r) {
  records = insert key p.next_ref p.records;
  next_ref = p.next_ref + 1;
}

abbrev pub existing_record : Pool → Option ℕ → Option MutableWorkerRecord
existing_record p none = none
existing_record p (some ref) = p.heap ref

unfoldable pub submit : Pool → AgentWorkerTask → ℕ → WorkerRuntimeDecision × Pool
submit p task now =
    let key = record_key task.tenant_id task.task_id in
    let added = store_new p key (fresh_record task now) in
    if not (valid_task task) || not (valid_epoch_ms now)
    then (decision p invalid_task none, p)
    else if is_some (lookup key p.records)
    then (decision p duplicate_task (existing_record p (lookup key p.records)), p)
    else if leb p.config.max_tracked_tasks (length p.records)
    then (decision p tracking_capacity_reached none, p)
    else (decision added submitted (some (fresh_record task now)), added)

abbrev pub forget_found : Pool → Option (ℕ × MutableWorkerRecord) → WorkerRuntimeDecision × Pool
forget_found p none = (decision p task_not_found none, p)
forget_found p (some (ref, r)) =
    let left = record p {
      records = erase (record_key r.task.tenant_id r.task.task_id) p.records;
    } in
    if not (is_terminal r.state)
    then (decision p invalid_state (some r), p)
    else (decision left pruned none, left)

unfoldable pub forget_terminal :
    Pool → WorkerOperationContext → String → WorkerRuntimeDecision × Pool
forget_terminal p context task_id = forget_found p (record_for p context task_id)
