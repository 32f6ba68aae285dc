-- ===== src/WorkerPool/Safety.antt =====
-- A release and an acquisition keep the pool within its capacity
-- (services/agent-runtime/src/runtime/pool.ts).
use aurora_ai_native.Prelude.{
  ℕ, ◌+◌, ◌-◌, String, ◌≡◌, refl, ap, false, ◌||◌, not, Option, none, some, arith, leb,
  if◌then◌else◌,
}
use aurora_ai_native.Budget.{max_safe_integer}
use aurora_ai_native.WorkerPool.Types.{
  WorkerState, claiming, releasing, cancelled, WorkerTerminalReason, cancelled_by_control,
  WorkerOperationContext, LeaseResult, AcquireStatus, acquired, not_acquired, ReleaseStatus,
  released, not_owner, MutableWorkerRecord, WorkerDecisionCode, lease_not_acquired, lease_was_lost,
  invalid_lease_result, lease_port_error, was_cancelled,
}
use aurora_ai_native.WorkerPool.Store.{
  record_for, Pool, is_occupied, active_worker_count, valid_owner_token, lease_key,
  lease_result_matches, valid_operation_time,
}
use aurora_ai_native.WorkerPool.Calls.{AcquireMode, AcquireLocals, ReleaseLocals}
use aurora_ai_native.WorkerPool.Release.{
  may_release, owned_by, release_found, begin_release, release_granted, release_answered,
  release_resumed, resume_release,
}
use aurora_ai_native.WorkerPool.Acquire.{
  may_acquire, acquire_found, acquired_code, acquire_granted, acquire_answered, acquire_resumed,
  resume_acquire,
}
use aurora_ai_native.WorkerPool.Perform.{answer}
use aurora_ai_native.WorkerPool.Capacity.{
  record_for-IsFound, IsBounded, occupies, put_record-IsBounded, IsFound, IsSafe, settle-IsSafe,
  if-IsSafe, occupies-put_record,
}

-- A state that may be released counts.
abbrev pub place : WorkerState → ℕ
place s = if is_occupied s then 1 else 0

may_release-place : (s : WorkerState) → not (may_release s) ≡ false → place s ≡ 1
may_release-place s h = ground arith

release_found-IsSafe :
    (p : Pool) (owner : String) (now : ℕ) (target : WorkerState) (reason : WorkerTerminalReason)
    (code : WorkerDecisionCode) (found : Option (ℕ × MutableWorkerRecord))
    → is_occupied target ≡ false
    → IsBounded p
    → IsFound p found
    → IsSafe (release_found p owner now target reason code found)
release_found-IsSafe p owner now target reason code none t b f = b
release_found-IsSafe p owner now target reason code (some (ref, r)) t b f =
    if-IsSafe (not (may_release r.state)) _ _ (λ h. b)
      (λ h1.
        if-IsSafe (not (owned_by r.owner_token owner)) _ _ (λ h. b)
          (λ h2.
            if-IsSafe (not (valid_owner_token owner) || not (valid_operation_time r now)) _ _
              (λ h. b)
              (λ h3.
                let r' = record r { state = releasing; last_transition_epoch_ms = now } in
                (
                  settle-IsSafe p ref code r' b
                      (omega (arith, may_release-place r.state h1, ap occupies f)),
                  (occupies-put_record p ref r', t),
                ))))

pub begin_release-IsSafe :
    (p : Pool) (context : WorkerOperationContext) (id owner : String) (now : ℕ)
    (target : WorkerState) (reason : WorkerTerminalReason) (code : WorkerDecisionCode)
    → is_occupied target ≡ false
    → IsBounded p
    → IsSafe (begin_release p context id owner now target reason code)
unfolding begin_release
begin_release-IsSafe p context id owner now target reason code t b =
    release_found-IsSafe p owner now target reason code (record_for p context id) t b
      (record_for-IsFound p context id)

release_granted-IsSafe :
    (p : Pool) (l : ReleaseLocals) (r : MutableWorkerRecord) (status : ReleaseStatus)
    → IsBounded p
    → occupies (p.heap l.ref) ≡ 1
    → is_occupied l.terminal_state ≡ false
    → IsSafe (release_granted p l r status)
release_granted-IsSafe p l r not_owner b o t =
    settle-IsSafe p l.ref lease_was_lost _ b (omega arith)
release_granted-IsSafe p l r released b o t =
    settle-IsSafe p l.ref l.success_code _ b (ground (arith, t))

release_answered-IsSafe :
    (p : Pool) (l : ReleaseLocals) (r : MutableWorkerRecord)
    (answer : Option (LeaseResult ReleaseStatus))
    → IsBounded p
    → occupies (p.heap l.ref) ≡ 1
    → is_occupied l.terminal_state ≡ false
    → IsSafe (release_answered p l r answer)
release_answered-IsSafe p l r none b o t =
    settle-IsSafe p l.ref lease_port_error _ b (omega (arith, o))
release_answered-IsSafe p l r (some result) b o t =
    if-IsSafe
      (not (lease_result_matches result r.task.tenant_id (lease_key r.task.task_id) l.owner)) _ _
      (λ h. settle-IsSafe p l.ref invalid_lease_result _ b (omega (arith, o)))
      (λ h. release_granted-IsSafe p l r result.status b o t)

pub resume_release-IsSafe :
    (p : Pool) (l : ReleaseLocals) (answer : Option (LeaseResult ReleaseStatus))
    → IsBounded p
    → occupies (p.heap l.ref) ≡ 1
    → is_occupied l.terminal_state ≡ false
    → IsSafe (resume_release p l answer)
unfolding resume_release
resume_release-IsSafe p l answer b o t = go (p.heap l.ref)
  where
    go : (r : Option MutableWorkerRecord) → IsSafe (release_resumed p l answer r)
    go none = b
    go (some r) = release_answered-IsSafe p l r answer b o t

pub acquire_found-IsSafe :
    (p : Pool) (context : WorkerOperationContext) (id owner : String) (now : ℕ) (mode : AcquireMode)
    (found : Option (ℕ × MutableWorkerRecord))
    → IsBounded p
    → IsFound p found
    → IsSafe (acquire_found p context id owner now mode found)
acquire_found-IsSafe p context id owner now mode none b f = b
acquire_found-IsSafe p context id owner now mode (some (ref, r)) b f =
    if-IsSafe (not (may_acquire mode r.state) || r.cancel_requested) _ _ (λ h. b)
      (λ h1.
        if-IsSafe (not (valid_owner_token owner) || not (valid_operation_time r now)) _ _ (λ h. b)
          (λ h2.
            if-IsSafe (leb p.config.max_workers (active_worker_count p - occupies (some r))) _ _
              (λ h. b)
              (λ room.
                if-IsSafe (not (leb (now + p.config.lease_ttl_ms) max_safe_integer)) _ _ (λ h. b)
                  (λ h3.
                    let r' = record r {
                      state = claiming;
                      owner_token = some owner;
                      last_transition_epoch_ms = now;
                    } in
                    (
                      put_record-IsBounded p ref r' b (ground (arith, ap occupies f)),
                      occupies-put_record p ref r',
                    )))))

acquire_granted-IsSafe :
    (p : Pool) (l : AcquireLocals) (r : MutableWorkerRecord) (status : AcquireStatus)
    → IsBounded p
    → occupies (p.heap l.ref) ≡ 1
    → p.heap l.ref ≡ some r
    → IsSafe (acquire_granted p l r status)
acquire_granted-IsSafe p l r not_acquired b o e =
    if-IsSafe r.cancel_requested _ _ (λ h. settle-IsSafe p l.ref was_cancelled _ b (omega arith))
      (λ h. settle-IsSafe p l.ref lease_not_acquired _ b (ground (arith, o)))
acquire_granted-IsSafe p l r acquired b o e =
    if-IsSafe r.cancel_requested _ _
      (λ h.
        begin_release-IsSafe _ l.context l.task_id l.owner _ cancelled cancelled_by_control
          was_cancelled refl
          (put_record-IsBounded p l.ref _ b (omega (arith, b.occupied, ap occupies e))))
      (λ h. settle-IsSafe p l.ref (acquired_code l.mode) _ b (omega (arith, o)))

acquire_answered-IsSafe :
    (p : Pool) (l : AcquireLocals) (r : MutableWorkerRecord)
    (answer : Option (LeaseResult AcquireStatus))
    → IsBounded p
    → occupies (p.heap l.ref) ≡ 1
    → p.heap l.ref ≡ some r
    → IsSafe (acquire_answered p l r answer)
acquire_answered-IsSafe p l r none b o e =
    settle-IsSafe p l.ref lease_port_error _ b (omega (arith, o))
acquire_answered-IsSafe p l r (some result) b o e =
    if-IsSafe
      (not (lease_result_matches result r.task.tenant_id (lease_key r.task.task_id) l.owner)) _ _
      (λ h. settle-IsSafe p l.ref invalid_lease_result _ b (omega (arith, o)))
      (λ h. acquire_granted-IsSafe p l r result.status b o e)

pub resume_acquire-IsSafe :
    (p : Pool) (l : AcquireLocals) (answer : Option (LeaseResult AcquireStatus))
    → IsBounded p
    → occupies (p.heap l.ref) ≡ 1
    → IsSafe (resume_acquire p l answer)
unfolding resume_acquire
resume_acquire-IsSafe p l answer b o = go (p.heap l.ref) refl
  where
    go : (r : Option MutableWorkerRecord) → p.heap l.ref ≡ r → IsSafe (acquire_resumed p l answer r)
    go none e = b
    go (some r) e = acquire_answered-IsSafe p l r answer b o e
