-- ===== src/WorkerPool/Acquire.antt =====
-- `#acquireOwnership` (services/agent-runtime/src/runtime/pool.ts), of `claim` and `reclaim`.
use aurora_ai_native.Prelude.{
  ℕ, ◌+◌, ◌-◌, max, String, Bool, true, false, ◌||◌, not, Option, none, some, leb, if◌then◌else◌,
  or_else,
}
use aurora_ai_native.Budget.{max_safe_integer}
use aurora_ai_native.WorkerPool.Types.{
  WorkerState, pending, claiming, active, lease_lost, lease_uncertain, cancelled,
  cancelled_by_control, WorkerOperationContext, LeaseResult, AcquireStatus, acquired, not_acquired,
  MutableWorkerRecord, WorkerDecisionCode, claimed, reclaimed, worker_capacity_reached,
  invalid_state, lease_not_acquired, invalid_lease_result, lease_port_error, was_cancelled,
}
use aurora_ai_native.WorkerPool.Store.{
  record_for, Pool, is_occupied, active_worker_count, put_record, valid_owner_token, lease_key,
  lease_result_matches, valid_operation_time,
}
use aurora_ai_native.WorkerPool.Calls.{
  AcquireMode, claim_mode, reclaim_mode, AcquireLocals, acquiring, Progress, waiting, no_record,
  refuse, settle,
}
use aurora_ai_native.WorkerPool.Release.{begin_release}

abbrev pub may_acquire : AcquireMode → WorkerState → Bool
may_acquire claim_mode pending = true
may_acquire claim_mode _ = false
may_acquire reclaim_mode lease_lost = true
may_acquire reclaim_mode lease_uncertain = true
may_acquire reclaim_mode _ = false

-- `#acquireOwnership`, up to the lease port.
abbrev pub acquire_found :
    Pool
    → WorkerOperationContext
    → String
    → String
    → ℕ
    → AcquireMode
    → Option (ℕ × MutableWorkerRecord)
    → Progress
acquire_found p context task_id owner now mode none = no_record p
acquire_found p context task_id owner now mode (some (ref, r)) =
    if not (may_acquire mode r.state) || r.cancel_requested
    then refuse p invalid_state r
    else if not (valid_owner_token owner) || not (valid_operation_time r now)
    then refuse p invalid_state r
    else if leb p.config.max_workers
        (active_worker_count p - (if is_occupied r.state then 1 else 0))
    then refuse p worker_capacity_reached r
    else if not (leb (now + p.config.lease_ttl_ms) max_safe_integer)
    then refuse p invalid_state r
    else waiting
        (acquiring (record {
          ref = ref;
          context = context;
          task_id = task_id;
          owner = owner;
          now = now;
          mode = mode;
          previous_state = r.state;
          previous_owner = r.owner_token;
        }))
        (put_record p ref
          (record r { state = claiming; owner_token = some owner; last_transition_epoch_ms = now }))

unfoldable pub begin_acquire :
    Pool → WorkerOperationContext → String → String → ℕ → AcquireMode → Progress
begin_acquire p context task_id owner now mode =
    acquire_found p context task_id owner now mode (record_for p context task_id)

abbrev pub acquired_code : AcquireMode → WorkerDecisionCode
acquired_code claim_mode = claimed
acquired_code reclaim_mode = reclaimed

-- The lease port has said whether the lease is acquired.
abbrev pub acquire_granted : Pool → AcquireLocals → MutableWorkerRecord → AcquireStatus → Progress
acquire_granted p l r not_acquired =
    if r.cancel_requested
    then settle p l.ref was_cancelled (record r {
      state = cancelled;
      owner_token = none;
      terminal_reason = some cancelled_by_control;
      last_transition_epoch_ms = or_else r.cancel_requested_at_epoch_ms l.now;
    })
    else settle p l.ref lease_not_acquired (record r {
      state = l.previous_state;
      owner_token = l.previous_owner;
      last_transition_epoch_ms = l.now;
    })
acquire_granted p l r acquired =
    if r.cancel_requested
    then begin_release
        (put_record p l.ref
          (record r { generation = r.generation + 1; last_heartbeat_epoch_ms = some l.now }))
        l.context l.task_id l.owner (or_else r.cancel_requested_at_epoch_ms l.now) cancelled
        cancelled_by_control was_cancelled
    else settle p l.ref (acquired_code l.mode) (record r {
      generation = r.generation + 1;
      last_heartbeat_epoch_ms = some l.now;
      state = active;
      last_transition_epoch_ms = l.now;
    })

-- `#acquireOwnership`, behind the lease port.
abbrev pub acquire_answered :
    Pool → AcquireLocals → MutableWorkerRecord → Option (LeaseResult AcquireStatus) → Progress
acquire_answered p l r none = settle p l.ref lease_port_error (record r {
  state = lease_uncertain;
  last_transition_epoch_ms = max r.last_transition_epoch_ms l.now;
})
acquire_answered p l r (some result) =
    if not (lease_result_matches result r.task.tenant_id (lease_key r.task.task_id) l.owner)
    then settle p l.ref invalid_lease_result (record r {
      state = lease_uncertain;
      last_transition_epoch_ms = max r.last_transition_epoch_ms l.now;
    })
    else acquire_granted p l r result.status

-- A reference is never left dangling, so the first case does not occur.
abbrev pub acquire_resumed :
    Pool
    → AcquireLocals
    → Option (LeaseResult AcquireStatus)
    → Option MutableWorkerRecord
    → Progress
acquire_resumed p l answer none = no_record p
acquire_resumed p l answer (some r) = acquire_answered p l r answer

unfoldable pub resume_acquire : Pool → AcquireLocals → Option (LeaseResult AcquireStatus) → Progress
resume_acquire p l answer = acquire_resumed p l answer (p.heap l.ref)
