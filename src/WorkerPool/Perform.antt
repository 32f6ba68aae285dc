-- ===== src/WorkerPool/Perform.antt =====
-- The operations of BoundedAgentWorkerPool (services/agent-runtime/src/runtime/pool.ts) from call to
-- return, with nothing in between, and runs of them.
use aurora_ai_native.Prelude.{ℕ, String, Option, List, [], ◌∷◌}
use aurora_ai_native.WorkerPool.Types.{
  completed, failed, work_completed, work_failed, AgentWorkerTask, WorkerOperationContext,
  LeaseResult, AcquireStatus, HeartbeatStatus, ReleaseStatus, was_completed, has_failed,
}
use aurora_ai_native.WorkerPool.Store.{Pool}
use aurora_ai_native.WorkerPool.Calls.{
  claim_mode, reclaim_mode, PendingCall, acquiring, beating, letting_go, Progress, decided, waiting,
  submit, forget_terminal,
}
use aurora_ai_native.WorkerPool.Release.{begin_release, resume_release}
use aurora_ai_native.WorkerPool.Acquire.{begin_acquire, resume_acquire}
use aurora_ai_native.WorkerPool.Control.{begin_heartbeat, resume_heartbeat, begin_cancel}

-- What the lease port answers to the calls of one operation; `none` for a port that throws.
pub record Answers : Type 0 where
  pub on_acquire : Option (LeaseResult AcquireStatus)
  pub on_heartbeat : Option (LeaseResult HeartbeatStatus)
  pub on_release : Option (LeaseResult ReleaseStatus)

pub data Operation : Type 0 where
  submits : AgentWorkerTask → ℕ → Operation
  claims : WorkerOperationContext → String → String → ℕ → Operation
  reclaims : WorkerOperationContext → String → String → ℕ → Operation
  beats : WorkerOperationContext → String → String → ℕ → Operation
  completes : WorkerOperationContext → String → String → ℕ → Operation
  fails : WorkerOperationContext → String → String → ℕ → Operation
  cancels : WorkerOperationContext → String → ℕ → Operation
  forgets : WorkerOperationContext → String → Operation

abbrev pub begin : Pool → Operation → Progress
begin p (submits task now) = let (d, q) = submit p task now in decided d q
begin p (claims context id owner now) = begin_acquire p context id owner now claim_mode
begin p (reclaims context id owner now) = begin_acquire p context id owner now reclaim_mode
begin p (beats context id owner now) = begin_heartbeat p context id owner now
begin p (completes context id owner now) =
    begin_release p context id owner now completed work_completed was_completed
begin p (fails context id owner now) =
    begin_release p context id owner now failed work_failed has_failed
begin p (cancels context id now) = begin_cancel p context id now
begin p (forgets context id) = let (d, q) = forget_terminal p context id in decided d q

abbrev pub resume : Pool → PendingCall → Answers → Progress
resume p (acquiring l) a = resume_acquire p l a.on_acquire
resume p (beating l) a = resume_heartbeat p l a.on_heartbeat
resume p (letting_go l) a = resume_release p l a.on_release

-- The lease port answers at once. An acquisition that meets a cancellation waits a second time.
abbrev pub answer : Answers → Progress → Progress
answer a (decided d p) = decided d p
answer a (waiting call p) = resume p call a

abbrev pub pool_of : Progress → Pool
pool_of (decided d p) = p
pool_of (waiting call p) = p

unfoldable pub perform : Pool → Operation → Answers → Pool
perform p op a = pool_of (answer a (answer a (begin p op)))

unfoldable pub run_pool : Pool → List (Operation × Answers) → Pool
unfolding perform
run_pool p [] = p
run_pool p (step ∷ steps) = run_pool (perform p (step.0) (step.1)) steps
