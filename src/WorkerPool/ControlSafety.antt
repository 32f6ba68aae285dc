-- ===== src/WorkerPool/ControlSafety.antt =====
-- A heartbeat and a cancellation keep the pool within its capacity
-- (services/agent-runtime/src/runtime/pool.ts).
use aurora_ai_native.Prelude.{
  ℕ, ◌+◌, ◌≤◌, String, ◌≡◌, refl, ap, false, ◌||◌, not, Option, none, some, arith, leb,
}
use aurora_ai_native.Budget.{max_safe_integer}
use aurora_ai_native.WorkerPool.Types.{
  WorkerState, pending, claiming, active, releasing, lease_lost, lease_uncertain, completed,
  cancelled, failed, cancelled_by_control, WorkerOperationContext, LeaseResult, HeartbeatStatus,
  current, lost, MutableWorkerRecord, invalid_state, lease_current, lease_was_lost,
  invalid_lease_result, lease_port_error, cancel_was_requested, was_cancelled,
}
use aurora_ai_native.WorkerPool.Store.{
  Pool, is_terminal, put_record, valid_owner_token, lease_key, lease_result_matches,
  valid_operation_time,
}
use aurora_ai_native.WorkerPool.Calls.{HeartbeatLocals}
use aurora_ai_native.WorkerPool.Release.{owned_by}
use aurora_ai_native.WorkerPool.Control.{
  is_active_state, heartbeat_found, heartbeat_granted, heartbeat_answered, heartbeat_resumed,
  resume_heartbeat, usable_token, cancel_with, cancel_requested_on, cancel_found,
}
use aurora_ai_native.WorkerPool.Capacity.{
  IsBounded, occupies, IsFound, IsSafe, settle-IsSafe, if-IsSafe,
}
use aurora_ai_native.WorkerPool.Safety.{place, begin_release-IsSafe}

pub resume_heartbeat-IsSafe :
    (p : Pool) (l : HeartbeatLocals) (answer : Option (LeaseResult HeartbeatStatus))
    → IsBounded p
    → occupies (p.heap l.ref) ≡ 1
    → IsSafe (resume_heartbeat p l answer)
unfolding resume_heartbeat
resume_heartbeat-IsSafe p l answer b o = go (p.heap l.ref) refl
  where
    status :
        (r : MutableWorkerRecord) (status : HeartbeatStatus)
        → p.heap l.ref ≡ some r
        → IsSafe (heartbeat_granted p l r status)
    status r lost e = settle-IsSafe p l.ref lease_was_lost _ b (omega arith)
    status r current e = settle-IsSafe p l.ref lease_current _ b (omega (arith, ap occupies e))

    answered :
        (r : MutableWorkerRecord) (answer : Option (LeaseResult HeartbeatStatus))
        → p.heap l.ref ≡ some r
        → IsSafe (heartbeat_answered p l r answer)
    answered r none e = settle-IsSafe p l.ref lease_port_error _ b (omega (arith, o))
    answered r (some result) e =
        if-IsSafe
          (not (lease_result_matches result r.task.tenant_id (lease_key r.task.task_id) l.owner)) _
          _ (λ h. settle-IsSafe p l.ref invalid_lease_result _ b (omega (arith, o)))
          (λ h. status r result.status e)

    go :
        (r : Option MutableWorkerRecord)
        → p.heap l.ref ≡ r
        → IsSafe (heartbeat_resumed p l answer r)
    go none e = b
    go (some r) e = answered r answer e

is_active_state-place : (s : WorkerState) → not (is_active_state s) ≡ false → place s ≡ 1
is_active_state-place s h = ground arith

pub heartbeat_found-IsSafe :
    (p : Pool) (owner : String) (now : ℕ) (found : Option (ℕ × MutableWorkerRecord))
    → IsBounded p
    → IsFound p found
    → IsSafe (heartbeat_found p owner now found)
heartbeat_found-IsSafe p owner now none b f = b
heartbeat_found-IsSafe p owner now (some (ref, r)) b f =
    if-IsSafe (not (is_active_state r.state)) _ _ (λ h. b)
      (λ h1.
        if-IsSafe (not (owned_by r.owner_token owner)) _ _ (λ h. b)
          (λ h2.
            if-IsSafe (not (valid_operation_time r now) || not (valid_owner_token owner)) _ _
              (λ h. b)
              (λ h3.
                if-IsSafe (not (leb (now + p.config.lease_ttl_ms) max_safe_integer)) _ _ (λ h. b)
                  (λ h4. (b, omega (arith, is_active_state-place r.state h1, ap occupies f))))))

-- A cancellation leaves the record in its state, or moves it to one that does not count.
cancel_with-IsSafe :
    (p : Pool) (ref : ℕ) (r : MutableWorkerRecord) (context : WorkerOperationContext) (id : String)
    (now : ℕ) (owner : Option String)
    → IsBounded p
    → occupies (some r) ≤ occupies (p.heap ref)
    → IsSafe (cancel_with p ref r context id now owner)
cancel_with-IsSafe p ref r context id now none b o = settle-IsSafe p ref invalid_state r b o
cancel_with-IsSafe p ref r context id now (some owner) b o =
    begin_release-IsSafe (put_record p ref r) context id owner now cancelled cancelled_by_control
      was_cancelled refl (settle-IsSafe p ref was_cancelled r b o)

cancel_requested_on-IsSafe :
    (p : Pool) (ref : ℕ) (r : MutableWorkerRecord) (context : WorkerOperationContext) (id : String)
    (now : ℕ) (s : WorkerState)
    → IsBounded p
    → occupies (some r) ≤ occupies (p.heap ref)
    → IsSafe (cancel_requested_on p ref r context id now s)
cancel_requested_on-IsSafe p ref r context id now claiming b o =
    settle-IsSafe p ref cancel_was_requested _ b o
cancel_requested_on-IsSafe p ref r context id now pending b o =
    settle-IsSafe p ref was_cancelled _ b (omega arith)
cancel_requested_on-IsSafe p ref r context id now lease_lost b o =
    settle-IsSafe p ref was_cancelled _ b (omega arith)
cancel_requested_on-IsSafe p ref r context id now active b o =
    cancel_with-IsSafe p ref r context id now (usable_token r.owner_token) b o
cancel_requested_on-IsSafe p ref r context id now lease_uncertain b o =
    cancel_with-IsSafe p ref r context id now (usable_token r.owner_token) b o
cancel_requested_on-IsSafe p ref r context id now releasing b o =
    settle-IsSafe p ref invalid_state r b o
cancel_requested_on-IsSafe p ref r context id now completed b o =
    settle-IsSafe p ref invalid_state r b o
cancel_requested_on-IsSafe p ref r context id now cancelled b o =
    settle-IsSafe p ref invalid_state r b o
cancel_requested_on-IsSafe p ref r context id now failed b o =
    settle-IsSafe p ref invalid_state r b o

pub cancel_found-IsSafe :
    (p : Pool) (context : WorkerOperationContext) (id : String) (now : ℕ)
    (found : Option (ℕ × MutableWorkerRecord))
    → IsBounded p
    → IsFound p found
    → IsSafe (cancel_found p context id now found)
cancel_found-IsSafe p context id now none b f = b
cancel_found-IsSafe p context id now (some (ref, r)) b f =
    if-IsSafe (not (valid_operation_time r now)) _ _ (λ h. b)
      (λ h1.
        if-IsSafe (is_terminal r.state) _ _ (λ h. b)
          (λ h2.
            cancel_requested_on-IsSafe p ref _ context id now r.state b
              (omega (arith, ap occupies f))))
