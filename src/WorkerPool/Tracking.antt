-- ===== src/WorkerPool/Tracking.antt =====
-- `submit` and `forgetTerminal` keep the pool within its capacity
-- (services/agent-runtime/src/runtime/pool.ts).
use aurora_ai_native.Prelude.{
  ℕ, ◌+◌, ◌≤◌, String, ◌≡◌, refl, ap, Bool, true, false, ◌||◌, not, Option, none, some, [], ◌∷◌,
  arith, length, Dict, lookup, insert, erase, values, length-insert, length-erase, leb, eqb,
  if◌then◌else◌, eqb_iff, is_some,
}
use aurora_ai_native.WorkerPool.Types.{AgentWorkerTask, WorkerOperationContext, MutableWorkerRecord}
use aurora_ai_native.WorkerPool.Store.{
  record_for, record_key, Pool, is_occupied, is_terminal, count_occupied, valid_epoch_ms,
  valid_task, WorkerRuntimeDecision,
}
use aurora_ai_native.WorkerPool.Calls.{
  fresh_record, store_new, submit, forget_found, forget_terminal,
}
use aurora_ai_native.WorkerPool.Capacity.{
  times, IsBounded, occupies, written, count_written_elsewhere, written_here,
}

count_occupied-insert :
    (heap : ℕ → Option MutableWorkerRecord) (key : String) (ref : ℕ) (d : Dict ℕ)
    → lookup key d ≡ none
    → count_occupied heap (values (insert key ref d))
      ≡ count_occupied heap (values d) + occupies (heap ref)
unfolding lookup insert
count_occupied-insert heap key ref [] h = ground arith
count_occupied-insert heap key ref (e ∷ d) h = ground (arith, count_occupied-insert heap key ref d)

times-insert :
    (other : ℕ) (key : String) (ref : ℕ) (d : Dict ℕ)
    → lookup key d ≡ none
    → times other (values (insert key ref d))
      ≡ times other (values d) + (if eqb ref other then 1 else 0)
unfolding lookup insert
times-insert other key ref [] h = ground arith
times-insert other key ref (e ∷ d) h = ground (arith, times-insert other key ref d)

count_occupied-erase :
    (heap : ℕ → Option MutableWorkerRecord) (key : String) (d : Dict ℕ)
    → count_occupied heap (values (erase key d)) ≤ count_occupied heap (values d)
unfolding erase
count_occupied-erase heap key [] = ground arith
count_occupied-erase heap key (e ∷ d) = ground (arith, count_occupied-erase heap key d)

times-erase :
    (other : ℕ) (key : String) (d : Dict ℕ)
    → times other (values (erase key d)) ≤ times other (values d)
unfolding erase
times-erase other key [] = ground arith
times-erase other key (e ∷ d) = ground (arith, times-erase other key d)

store_new-IsBounded :
    (p : Pool) (key : String) (r : MutableWorkerRecord)
    → is_occupied r.state ≡ false
    → lookup key p.records ≡ none
    → leb p.config.max_tracked_tasks (length p.records) ≡ false
    → IsBounded p
    → IsBounded (store_new p key r)
store_new-IsBounded p key r idle new room b = record {
  occupied = omega (
    arith,
    b.occupied,
    count_occupied-insert (written p.heap p.next_ref r) key p.next_ref p.records new,
    count_written_elsewhere p.heap p.next_ref r (values p.records)
        (b.fresh p.next_ref (omega arith)),
    written_here p.heap p.next_ref r,
    ap {B = ℕ} (λ s. if s then 1 else 0) idle,
  );
  tracked = ground (arith, length-insert key p.next_ref p.records, ap is_some new);
  once = λ ref. ground (
    arith,
    times-insert ref key p.next_ref p.records new,
    b.once ref,
    b.fresh ref,
    eqb_iff p.next_ref ref,
  );
  fresh = λ ref later.
      ground
        (arith, times-insert ref key p.next_ref p.records new, b.fresh ref, eqb_iff p.next_ref ref);
}

if-IsBounded :
    (c : Bool) (a b : WorkerRuntimeDecision × Pool)
    → (c ≡ true → IsBounded (a.1))
    → (c ≡ false → IsBounded (b.1))
    → IsBounded ((if c then a else b).1)
if-IsBounded true a b f g = f refl
if-IsBounded false a b f g = g refl

is_some-none : (o : Option ℕ) → is_some o ≡ false → o ≡ none
is_some-none o h = ground arith

pub submit-IsBounded :
    (p : Pool) (task : AgentWorkerTask) (now : ℕ) → IsBounded p → IsBounded ((submit p task now).1)
unfolding submit
submit-IsBounded p task now b =
    if-IsBounded (not (valid_task task) || not (valid_epoch_ms now)) _ _ (λ h. b)
      (λ h1.
        if-IsBounded (is_some (lookup (record_key task.tenant_id task.task_id) p.records)) _ _
          (λ h. b)
          (λ h2.
            if-IsBounded (leb p.config.max_tracked_tasks (length p.records)) _ _ (λ h. b)
              (λ room.
                store_new-IsBounded p (record_key task.tenant_id task.task_id)
                  (fresh_record task now) refl
                  (is_some-none (lookup (record_key task.tenant_id task.task_id) p.records) h2) room
                  b)))

erase-IsBounded :
    (p : Pool) (key : String) → IsBounded p → IsBounded (record p { records = erase key p.records })
erase-IsBounded p key b = record {
  occupied = omega (arith, b.occupied, count_occupied-erase p.heap key p.records);
  tracked = omega (arith, b.tracked, length-erase key p.records);
  once = λ ref. omega (arith, b.once ref, times-erase ref key p.records);
  fresh = λ ref later. omega (arith, b.fresh ref later, times-erase ref key p.records);
}

pub forget_terminal-IsBounded :
    (p : Pool) (context : WorkerOperationContext) (id : String)
    → IsBounded p
    → IsBounded ((forget_terminal p context id).1)
unfolding forget_terminal
forget_terminal-IsBounded p context id b = go (record_for p context id)
  where
    go : (found : Option (ℕ × MutableWorkerRecord)) → IsBounded ((forget_found p found).1)
    go none = b
    go (some (ref, r)) =
        if-IsBounded (not (is_terminal r.state)) _ _ (λ h. b)
          (λ h. erase-IsBounded p (record_key r.task.tenant_id r.task.task_id) b)
