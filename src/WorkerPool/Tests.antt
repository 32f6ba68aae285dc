-- ===== src/WorkerPool/Tests.antt =====
-- Runs of the pool (services/agent-runtime/src/runtime/pool.ts) on concrete inputs.
use aurora_ai_native.Prelude.{
  String, ◌≡◌, refl, true, false, none, some, List, [], ◌∷◌, length, lookup, insert, non_empty,
  trimmed_length, is_identifier,
}
use aurora_ai_native.WorkerPool.Types.{
  iterative_observe_plan_required, AgentWorkerRuntimeConfig, AgentWorkerTask,
  WorkerOperationContext, LeaseResult, acquired, current, released,
}
use aurora_ai_native.WorkerPool.Store.{
  record_key, record_for, Pool, active_worker_count, valid_owner_token, lease_key, valid_task,
  valid_context, context_matches, lease_result_matches,
}
use aurora_ai_native.WorkerPool.Calls.{beating, empty_pool, submit}
use aurora_ai_native.WorkerPool.Release.{begin_release, resume_release}
use aurora_ai_native.WorkerPool.Acquire.{begin_acquire, resume_acquire}
use aurora_ai_native.WorkerPool.Control.{begin_heartbeat, resume_heartbeat}
use aurora_ai_native.WorkerPool.Perform.{
  Answers, Operation, submits, claims, beats, completes, begin, resume, pool_of, perform, run_pool,
}
use aurora_ai_native.WorkerPool.Capacity.{IsBounded}
use aurora_ai_native.WorkerPool.Runs.{run_pool-IsBounded, empty_pool-IsBounded}

abbrev one_worker : AgentWorkerRuntimeConfig
one_worker = record {
  max_workers = 1;
  max_tracked_tasks = 2;
  lease_ttl_ms = 100;
  heartbeat_interval_ms = 10;
}

abbrev context : WorkerOperationContext
context = record { tenant_id = "t"; correlation_id = "c" }

abbrev work : String → AgentWorkerTask
work id = record {
  task_id = id;
  tenant_id = "t";
  correlation_id = "c";
  justification = iterative_observe_plan_required;
}

abbrev lease {ℓ} : {S : Type ℓ} → S → String → LeaseResult S
lease status id = record {
  status = status;
  from_durable_lease = true;
  tenant_id = "t";
  lease_key = lease_key id;
  owner_token = "o";
  authorizes_execution = false;
}

abbrev granted : String → Answers
granted id = record {
  on_acquire = some (lease acquired id);
  on_heartbeat = some (lease current id);
  on_release = some (lease released id);
}

abbrev steps : List (Operation × Answers)
steps =
    (submits (work "a") 1, granted "a")
    ∷ (submits (work "b") 1, granted "b")
    ∷ (submits (work "d") 1, granted "d")
    ∷ (claims context "a" "o" 2, granted "a")
    ∷ (claims context "b" "o" 2, granted "b")
    ∷ []

program : Unit {0}
unfolding run_pool perform begin_acquire resume_acquire begin_release resume_release begin_heartbeat
    resume_heartbeat submit record_for lookup insert valid_owner_token lease_key record_key
    valid_task valid_context context_matches lease_result_matches non_empty trimmed_length
    is_identifier
program = tt

busy : active_worker_count (run_pool (empty_pool one_worker) steps) ≡ 1
unfolding program
busy = refl

tracked_tasks : length (run_pool (empty_pool one_worker) steps).records ≡ 2
unfolding program
tracked_tasks = refl

run_pool-IsBounded_example : IsBounded (run_pool (empty_pool one_worker) steps)
run_pool-IsBounded_example =
    run_pool-IsBounded (empty_pool one_worker) steps (empty_pool-IsBounded one_worker)

-- A heartbeat of `a` waits while `a` completes and `b` is claimed. Then its port throws, and the
-- completed task counts again: two workers, of one that is allowed.
abbrev late_heartbeat : Pool
late_heartbeat =
    let p = run_pool (empty_pool one_worker) steps in
    let waiting_heartbeat = begin p (beats context "a" "o" 3) in
    let p' =
      run_pool (pool_of waiting_heartbeat) (
        (completes context "a" "o" 3, granted "a")
        ∷ (claims context "b" "o" 4, granted "b")
        ∷ []) in
    pool_of (
      resume p' (beating (record { ref = 0; owner = "o"; now = 3 }))
        (record { on_acquire = none; on_heartbeat = none; on_release = none }))

late_heartbeat_overruns : active_worker_count late_heartbeat ≡ 2
unfolding program
late_heartbeat_overruns = refl
