-- ===== src/WorkerPool/Store.antt =====
-- The state of BoundedAgentWorkerPool (services/agent-runtime/src/runtime/pool.ts). A record is an object
-- that a pending call may still hold after it has left the map, so the records stand in a heap and the
-- map holds references.
use Prim.Native.String
use mathlib.Core.Option
use aurora_ai_native.Prelude.{
  ℕ, ◌+◌, String, Bool, true, false, ◌&&◌, ◌||◌, not, Option, none, some, List, [], ◌∷◌, ◌==◌, Dict,
  lookup, values, leb, eqb, if◌then◌else◌, is_some, non_empty, trimmed_length, is_identifier,
}
use aurora_ai_native.Budget.{max_safe_integer}
use aurora_ai_native.WorkerPool.Types.{
  AgentWorkJustification, WorkerState, claiming, active, releasing, lease_uncertain, completed,
  cancelled, failed, WorkerTerminalReason, AgentWorkerRuntimeConfig, AgentWorkerTask,
  WorkerOperationContext, LeaseResult, MutableWorkerRecord, WorkerDecisionCode,
}

pub record Pool : Type 0 where
  pub config : AgentWorkerRuntimeConfig
  pub records : Dict ℕ
  pub heap : ℕ → Option MutableWorkerRecord
  pub next_ref : ℕ

abbrev pub is_occupied : WorkerState → Bool
is_occupied claiming = true
is_occupied active = true
is_occupied releasing = true
is_occupied lease_uncertain = true
is_occupied _ = false

abbrev pub is_terminal : WorkerState → Bool
is_terminal completed = true
is_terminal cancelled = true
is_terminal failed = true
is_terminal _ = false

-- The record behind a reference, as far as it counts: a place of the heap is free or occupied.
abbrev pub record_occupied : Option MutableWorkerRecord → Bool
record_occupied none = false
record_occupied (some r) = is_occupied r.state

-- The loop of `activeWorkerCount`.
abbrev pub count_occupied : (ℕ → Option MutableWorkerRecord) → List ℕ → ℕ
count_occupied heap [] = 0
count_occupied heap (ref ∷ refs) =
    (if record_occupied (heap ref) then 1 else 0) + count_occupied heap refs

abbrev pub active_worker_count : Pool → ℕ
active_worker_count p = count_occupied p.heap (values p.records)

-- `record.… = …`
abbrev pub put_record : Pool → ℕ → MutableWorkerRecord → Pool
put_record p ref r = record p { heap = λ other. if eqb other ref then some r else p.heap other }

abbrev pub valid_epoch_ms : ℕ → Bool
valid_epoch_ms n = leb n max_safe_integer

unfoldable pub valid_owner_token : String → Bool
valid_owner_token token = leb 1 (trimmed_length token) && leb (trimmed_length token) 256

unfoldable pub lease_key : String → String
lease_key task_id = String.◌++◌ "w05-agent-task:" task_id

unfoldable pub record_key : String → String → String
record_key tenant_id task_id = String.◌++◌ tenant_id (String.◌++◌ "\0" task_id)

unfoldable pub valid_task : AgentWorkerTask → Bool
valid_task task =
    is_identifier 160 task.task_id && non_empty task.tenant_id && non_empty task.correlation_id

unfoldable pub valid_context : WorkerOperationContext → Bool
valid_context context = non_empty context.tenant_id && non_empty context.correlation_id

unfoldable pub context_matches : MutableWorkerRecord → WorkerOperationContext → Bool
context_matches r context =
    r.task.tenant_id == context.tenant_id && r.task.correlation_id == context.correlation_id

unfoldable pub lease_result_matches {ℓ} :
    {S : Type ℓ} → LeaseResult S → String → String → String → Bool
lease_result_matches result tenant_id key owner =
    result.from_durable_lease
    && result.tenant_id == tenant_id
    && result.lease_key == key
    && result.owner_token == owner
    && not result.authorizes_execution

abbrev pub valid_operation_time : MutableWorkerRecord → ℕ → Bool
valid_operation_time r now = valid_epoch_ms now && leb r.last_transition_epoch_ms now

-- `#recordFor`: the reference of the record, and the record.
abbrev pub matching :
    WorkerOperationContext → ℕ → Option MutableWorkerRecord → Option (ℕ × MutableWorkerRecord)
matching context ref none = none
matching context ref (some r) = if context_matches r context then some (ref, r) else none

abbrev pub dereferenced :
    Pool → WorkerOperationContext → Option ℕ → Option (ℕ × MutableWorkerRecord)
dereferenced p context none = none
dereferenced p context (some ref) = matching context ref (p.heap ref)

unfoldable pub record_for :
    Pool → WorkerOperationContext → String → Option (ℕ × MutableWorkerRecord)
unfolding valid_context context_matches
record_for p context task_id =
    if not (valid_context context) || not (is_identifier 160 task_id)
    then none
    else dereferenced p context (lookup (record_key context.tenant_id task_id) p.records)

pub record WorkerRecordSnapshot : Type 0 where
  pub task_id : String
  pub tenant_id : String
  pub correlation_id : String
  pub justification : AgentWorkJustification
  pub state : WorkerState
  pub generation : ℕ
  pub owner_present : Bool
  pub cancel_requested : Bool
  pub terminal_reason : Option WorkerTerminalReason
  pub last_transition_epoch_ms : ℕ
  pub last_heartbeat_epoch_ms : Option ℕ
  pub authority_semantics : String
  pub authorizes_execution : Bool
  pub can_invoke_tools : Bool

unfoldable pub snapshot_of : MutableWorkerRecord → WorkerRecordSnapshot
snapshot_of r = record {
  task_id = r.task.task_id;
  tenant_id = r.task.tenant_id;
  correlation_id = r.task.correlation_id;
  justification = r.task.justification;
  state = r.state;
  generation = r.generation;
  owner_present = is_some r.owner_token;
  cancel_requested = r.cancel_requested;
  terminal_reason = r.terminal_reason;
  last_transition_epoch_ms = r.last_transition_epoch_ms;
  last_heartbeat_epoch_ms = r.last_heartbeat_epoch_ms;
  authority_semantics = "AGENT_RUNTIME_OWNERSHIP_ONLY_NO_AUTHORITY";
  authorizes_execution = false;
  can_invoke_tools = false;
}

-- Of the three constants that say that a decision gives no authority, one stands here.
pub record WorkerRuntimeDecision : Type 0 where
  pub code : WorkerDecisionCode
  pub snapshot : Option WorkerRecordSnapshot
  pub active_workers : ℕ
  pub max_workers : ℕ
  pub authorizes_execution : Bool

-- `#decision`, of the state after the call.
unfoldable pub decision :
    Pool → WorkerDecisionCode → Option MutableWorkerRecord → WorkerRuntimeDecision
decision p code r = record {
  code = code;
  snapshot = Option.map snapshot_of r;
  active_workers = active_worker_count p;
  max_workers = p.config.max_workers;
  authorizes_execution = false;
}
