-- ===== src/WorkerPool/Control.antt =====
-- `heartbeat` and `cancel` (services/agent-runtime/src/runtime/pool.ts).
use aurora_ai_native.Prelude.{
  ℕ, ◌+◌, String, Bool, true, false, ◌||◌, not, Option, none, some, ◌==◌, leb, if◌then◌else◌,
}
use aurora_ai_native.Budget.{max_safe_integer}
use aurora_ai_native.WorkerPool.Types.{
  WorkerState, pending, claiming, active, lease_lost, lease_uncertain, cancelled,
  cancelled_by_control, WorkerOperationContext, LeaseResult, HeartbeatStatus, current, lost,
  MutableWorkerRecord, invalid_state, owner_mismatch, lease_current, lease_was_lost,
  invalid_lease_result, lease_port_error, cancel_was_requested, was_cancelled,
}
use aurora_ai_native.WorkerPool.Store.{
  record_for, Pool, is_terminal, put_record, valid_owner_token, lease_key, lease_result_matches,
  valid_operation_time,
}
use aurora_ai_native.WorkerPool.Calls.{
  HeartbeatLocals, beating, Progress, waiting, no_record, refuse, settle,
}
use aurora_ai_native.WorkerPool.Release.{owned_by, begin_release}

abbrev pub is_active_state : WorkerState → Bool
is_active_state active = true
is_active_state _ = false

abbrev pub heartbeat_found : Pool → String → ℕ → Option (ℕ × MutableWorkerRecord) → Progress
heartbeat_found p owner now none = no_record p
heartbeat_found p owner now (some (ref, r)) =
    if not (is_active_state r.state)
    then refuse p invalid_state r
    else if not (owned_by r.owner_token owner)
    then refuse p owner_mismatch r
    else if not (valid_operation_time r now) || not (valid_owner_token owner)
    then refuse p invalid_state r
    else if not (leb (now + p.config.lease_ttl_ms) max_safe_integer)
    then refuse p invalid_state r
    else waiting (beating (record { ref = ref; owner = owner; now = now })) p

unfoldable pub begin_heartbeat : Pool → WorkerOperationContext → String → String → ℕ → Progress
begin_heartbeat p context task_id owner now =
    heartbeat_found p owner now (record_for p context task_id)

abbrev pub heartbeat_granted :
    Pool → HeartbeatLocals → MutableWorkerRecord → HeartbeatStatus → Progress
heartbeat_granted p l r lost =
    settle p l.ref lease_was_lost
      (record r { state = lease_lost; owner_token = none; last_transition_epoch_ms = l.now })
heartbeat_granted p l r current =
    settle p l.ref lease_current (record r { last_heartbeat_epoch_ms = some l.now })

-- `heartbeat`, behind the lease port.
abbrev pub heartbeat_answered :
    Pool → HeartbeatLocals → MutableWorkerRecord → Option (LeaseResult HeartbeatStatus) → Progress
heartbeat_answered p l r none =
    settle p l.ref lease_port_error
      (record r { state = lease_uncertain; last_transition_epoch_ms = l.now })
heartbeat_answered p l r (some result) =
    if not (lease_result_matches result r.task.tenant_id (lease_key r.task.task_id) l.owner)
    then settle p l.ref invalid_lease_result
        (record r { state = lease_uncertain; last_transition_epoch_ms = l.now })
    else heartbeat_granted p l r result.status

-- A reference is never left dangling, so the first case does not occur.
abbrev pub heartbeat_resumed :
    Pool
    → HeartbeatLocals
    → Option (LeaseResult HeartbeatStatus)
    → Option MutableWorkerRecord
    → Progress
heartbeat_resumed p l answer none = no_record p
heartbeat_resumed p l answer (some r) = heartbeat_answered p l r answer

unfoldable pub resume_heartbeat :
    Pool → HeartbeatLocals → Option (LeaseResult HeartbeatStatus) → Progress
resume_heartbeat p l answer = heartbeat_resumed p l answer (p.heap l.ref)

-- `!record.ownerToken`, else the token.
abbrev pub usable_token : Option String → Option String
usable_token none = none
usable_token (some token) = if token == "" then none else some token

abbrev pub cancel_with :
    Pool → ℕ → MutableWorkerRecord → WorkerOperationContext → String → ℕ → Option String → Progress
cancel_with p ref r context task_id now none = settle p ref invalid_state r
cancel_with p ref r context task_id now (some owner) =
    begin_release (put_record p ref r) context task_id owner now cancelled cancelled_by_control
      was_cancelled

-- The record has the request on it.
abbrev pub cancel_requested_on :
    Pool → ℕ → MutableWorkerRecord → WorkerOperationContext → String → ℕ → WorkerState → Progress
cancel_requested_on p ref r context task_id now claiming =
    settle p ref cancel_was_requested (record r { last_transition_epoch_ms = now })
cancel_requested_on p ref r context task_id now pending = settle p ref was_cancelled (record r {
  state = cancelled;
  owner_token = none;
  terminal_reason = some cancelled_by_control;
  last_transition_epoch_ms = now;
})
cancel_requested_on p ref r context task_id now lease_lost = settle p ref was_cancelled (record r {
  state = cancelled;
  owner_token = none;
  terminal_reason = some cancelled_by_control;
  last_transition_epoch_ms = now;
})
cancel_requested_on p ref r context task_id now active =
    cancel_with p ref r context task_id now (usable_token r.owner_token)
cancel_requested_on p ref r context task_id now lease_uncertain =
    cancel_with p ref r context task_id now (usable_token r.owner_token)
cancel_requested_on p ref r context task_id now _ = settle p ref invalid_state r

abbrev pub cancel_found :
    Pool → WorkerOperationContext → String → ℕ → Option (ℕ × MutableWorkerRecord) → Progress
cancel_found p context task_id now none = no_record p
cancel_found p context task_id now (some (ref, r)) =
    if not (valid_operation_time r now)
    then refuse p invalid_state r
    else if is_terminal r.state
    then refuse p invalid_state r
    else cancel_requested_on p ref
        (record r { cancel_requested = true; cancel_requested_at_epoch_ms = some now }) context
        task_id now r.state

unfoldable pub begin_cancel : Pool → WorkerOperationContext → String → ℕ → Progress
begin_cancel p context task_id now =
    cancel_found p context task_id now (record_for p context task_id)
