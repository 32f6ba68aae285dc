-- ===== src/WorkerPool/Runs.antt =====
-- Runs of the pool's operations (services/agent-runtime/src/runtime/pool.ts).
use aurora_ai_native.Prelude.{refl, List, [], ◌∷◌, arith}
use aurora_ai_native.WorkerPool.Types.{
  completed, failed, work_completed, work_failed, AgentWorkerRuntimeConfig, was_completed,
  has_failed,
}
use aurora_ai_native.WorkerPool.Store.{record_for, Pool}
use aurora_ai_native.WorkerPool.Calls.{
  claim_mode, reclaim_mode, acquiring, beating, letting_go, Progress, decided, waiting, empty_pool,
}
use aurora_ai_native.WorkerPool.Acquire.{begin_acquire}
use aurora_ai_native.WorkerPool.Control.{begin_heartbeat, begin_cancel}
use aurora_ai_native.WorkerPool.Perform.{
  Answers, Operation, submits, claims, reclaims, beats, completes, fails, cancels, forgets, begin,
  answer, pool_of, perform, run_pool,
}
use aurora_ai_native.WorkerPool.Capacity.{record_for-IsFound, IsBounded, IsSafe}
use aurora_ai_native.WorkerPool.Safety.{
  begin_release-IsSafe, resume_release-IsSafe, acquire_found-IsSafe, resume_acquire-IsSafe,
}
use aurora_ai_native.WorkerPool.ControlSafety.{
  resume_heartbeat-IsSafe, heartbeat_found-IsSafe, cancel_found-IsSafe,
}
use aurora_ai_native.WorkerPool.Tracking.{submit-IsBounded, forget_terminal-IsBounded}

begin-IsSafe : (p : Pool) (op : Operation) → IsBounded p → IsSafe (begin p op)
unfolding begin_acquire begin_heartbeat begin_cancel
begin-IsSafe p (submits task now) b = submit-IsBounded p task now b
begin-IsSafe p (claims context id owner now) b =
    acquire_found-IsSafe p context id owner now claim_mode (record_for p context id) b
      (record_for-IsFound p context id)
begin-IsSafe p (reclaims context id owner now) b =
    acquire_found-IsSafe p context id owner now reclaim_mode (record_for p context id) b
      (record_for-IsFound p context id)
begin-IsSafe p (beats context id owner now) b =
    heartbeat_found-IsSafe p owner now (record_for p context id) b (record_for-IsFound p context id)
begin-IsSafe p (completes context id owner now) b =
    begin_release-IsSafe p context id owner now completed work_completed was_completed refl b
begin-IsSafe p (fails context id owner now) b =
    begin_release-IsSafe p context id owner now failed work_failed has_failed refl b
begin-IsSafe p (cancels context id now) b =
    cancel_found-IsSafe p context id now (record_for p context id) b
      (record_for-IsFound p context id)
begin-IsSafe p (forgets context id) b = forget_terminal-IsBounded p context id b

answer-IsSafe : (a : Answers) (now : Progress) → IsSafe now → IsSafe (answer a now)
answer-IsSafe a (decided d p) b = b
answer-IsSafe a (waiting (acquiring l) p) (b, held) = resume_acquire-IsSafe p l a.on_acquire b held
answer-IsSafe a (waiting (beating l) p) (b, held) =
    resume_heartbeat-IsSafe p l a.on_heartbeat b held
answer-IsSafe a (waiting (letting_go l) p) (b, (held, rest)) =
    resume_release-IsSafe p l a.on_release b held rest

pool_of-IsBounded : (now : Progress) → IsSafe now → IsBounded (pool_of now)
pool_of-IsBounded (decided d p) b = b
pool_of-IsBounded (waiting call p) (b, held) = b

-- Operations that run one after the other, whatever the lease port answers to each, keep a pool within
-- its capacity: no more workers occupied than `maxWorkers` and no more tasks tracked than
-- `maxTrackedTasks`, and each record in the map once.
pub run_pool-IsBounded :
    (p : Pool) (steps : List (Operation × Answers)) → IsBounded p → IsBounded (run_pool p steps)
unfolding perform run_pool
run_pool-IsBounded p [] b = b
run_pool-IsBounded p (step ∷ steps) b = run_pool-IsBounded (perform p (step.0) (step.1)) steps (
    pool_of-IsBounded _
      (answer-IsSafe (step.1) _ (answer-IsSafe (step.1) _ (begin-IsSafe p (step.0) b))))

pub empty_pool-IsBounded : (config : AgentWorkerRuntimeConfig) → IsBounded (empty_pool config)
empty_pool-IsBounded config = record {
  occupied = ground arith;
  tracked = ground arith;
  once = λ ref. ground arith;
  fresh = λ ref later. refl;
}
