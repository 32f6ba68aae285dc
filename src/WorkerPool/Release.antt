-- ===== src/WorkerPool/Release.antt =====
-- `#terminalRelease` (services/agent-runtime/src/runtime/pool.ts): `complete`, `fail` and a cancellation
-- give the lease back.
use aurora_ai_native.Prelude.{
  ℕ, String, Bool, true, false, ◌||◌, not, Option, none, some, ◌==◌, if◌then◌else◌,
}
use aurora_ai_native.WorkerPool.Types.{
  WorkerState, claiming, active, releasing, lease_lost, lease_uncertain, WorkerTerminalReason,
  WorkerOperationContext, LeaseResult, ReleaseStatus, released, not_owner, MutableWorkerRecord,
  WorkerDecisionCode, invalid_state, owner_mismatch, lease_was_lost, invalid_lease_result,
  lease_port_error,
}
use aurora_ai_native.WorkerPool.Store.{
  record_for, Pool, put_record, valid_owner_token, lease_key, lease_result_matches,
  valid_operation_time,
}
use aurora_ai_native.WorkerPool.Calls.{
  ReleaseLocals, letting_go, Progress, waiting, no_record, refuse, settle,
}

abbrev pub may_release : WorkerState → Bool
may_release active = true
may_release lease_uncertain = true
may_release claiming = true
may_release _ = false

-- `record.ownerToken === ownerToken`
abbrev pub owned_by : Option String → String → Bool
owned_by none owner = false
owned_by (some token) owner = token == owner

-- `#terminalRelease`, up to the lease port.
abbrev pub release_found :
    Pool
    → String
    → ℕ
    → WorkerState
    → WorkerTerminalReason
    → WorkerDecisionCode
    → Option (ℕ × MutableWorkerRecord)
    → Progress
release_found p owner now target reason code none = no_record p
release_found p owner now target reason code (some (ref, r)) =
    if not (may_release r.state)
    then refuse p invalid_state r
    else if not (owned_by r.owner_token owner)
    then refuse p owner_mismatch r
    else if not (valid_owner_token owner) || not (valid_operation_time r now)
    then refuse p invalid_state r
    else waiting
        (letting_go (record {
          ref = ref;
          owner = owner;
          now = now;
          terminal_state = target;
          terminal_reason = reason;
          success_code = code;
        }))
        (put_record p ref (record r { state = releasing; last_transition_epoch_ms = now }))

unfoldable pub begin_release :
    Pool
    → WorkerOperationContext
    → String
    → String
    → ℕ
    → WorkerState
    → WorkerTerminalReason
    → WorkerDecisionCode
    → Progress
begin_release p context task_id owner now target reason code =
    release_found p owner now target reason code (record_for p context task_id)

abbrev pub release_granted : Pool → ReleaseLocals → MutableWorkerRecord → ReleaseStatus → Progress
release_granted p l r not_owner =
    settle p l.ref lease_was_lost (record r { state = lease_lost; owner_token = none })
release_granted p l r released = settle p l.ref l.success_code (record r {
  state = l.terminal_state;
  owner_token = none;
  terminal_reason = some l.terminal_reason;
  last_transition_epoch_ms = l.now;
})

-- `#terminalRelease`, behind the lease port.
abbrev pub release_answered :
    Pool → ReleaseLocals → MutableWorkerRecord → Option (LeaseResult ReleaseStatus) → Progress
release_answered p l r none = settle p l.ref lease_port_error (record r { state = lease_uncertain })
release_answered p l r (some result) =
    if not (lease_result_matches result r.task.tenant_id (lease_key r.task.task_id) l.owner)
    then settle p l.ref invalid_lease_result (record r { state = lease_uncertain })
    else release_granted p l r result.status

-- A reference is never left dangling, so the first case does not occur.
abbrev pub release_resumed :
    Pool
    → ReleaseLocals
    → Option (LeaseResult ReleaseStatus)
    → Option MutableWorkerRecord
    → Progress
release_resumed p l answer none = no_record p
release_resumed p l answer (some r) = release_answered p l r answer

unfoldable pub resume_release : Pool → ReleaseLocals → Option (LeaseResult ReleaseStatus) → Progress
resume_release p l answer = release_resumed p l answer (p.heap l.ref)
