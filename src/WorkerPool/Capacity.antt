-- ===== src/WorkerPool/Capacity.antt =====
-- The pool (services/agent-runtime/src/runtime/pool.ts) stays within its capacity.
use aurora_ai_native.Prelude.{
  ℕ, ◌+◌, ◌≤◌, String, ◌≡◌, refl, ap, ◌⊎◌, inl, inr, Bool, true, false, ◌||◌, not, Option, none,
  some, List, [], ◌∷◌, arith, length, filter, lookup, values, eqb, if◌then◌else◌, eqb_iff,
  Bool-cases, is_identifier,
}
use aurora_ai_native.WorkerPool.Types.{
  WorkerOperationContext, MutableWorkerRecord, WorkerDecisionCode,
}
use aurora_ai_native.WorkerPool.Store.{
  record_key, record_occupied, record_for, Pool, is_occupied, count_occupied, active_worker_count,
  put_record, valid_context, context_matches, matching, dereferenced,
}
use aurora_ai_native.WorkerPool.Calls.{
  PendingCall, acquiring, beating, letting_go, Progress, decided, waiting, settle,
}

abbrev pub times : ℕ → List ℕ → ℕ
times ref refs = length (filter (λ other. eqb other ref) refs)

-- No more workers are occupied and no more tasks tracked than the configuration allows, and the map
-- holds each reference once, and none that is still to come.
pub record IsBounded (p : Pool) : Type 0 where
  pub occupied : active_worker_count p ≤ p.config.max_workers
  pub tracked : length p.records ≤ p.config.max_tracked_tasks
  pub once : (ref : ℕ) → times ref (values p.records) ≤ 1
  pub fresh : (ref : ℕ) → p.next_ref ≤ ref → times ref (values p.records) ≡ 0

-- One place of the heap counts at most once.
abbrev pub occupies : Option MutableWorkerRecord → ℕ
occupies r = if record_occupied r then 1 else 0

abbrev pub written :
    (ℕ → Option MutableWorkerRecord) → ℕ → MutableWorkerRecord → ℕ → Option MutableWorkerRecord
written heap ref r other = if eqb other ref then some r else heap other

pub count_written_elsewhere :
    (heap : ℕ → Option MutableWorkerRecord) (ref : ℕ) (r : MutableWorkerRecord) (refs : List ℕ)
    → times ref refs ≡ 0
    → count_occupied (written heap ref r) refs ≡ count_occupied heap refs
count_written_elsewhere heap ref r [] h = refl
count_written_elsewhere heap ref r (x ∷ refs) h =
    ground (arith, count_written_elsewhere heap ref r refs)

count_written :
    (heap : ℕ → Option MutableWorkerRecord) (ref : ℕ) (r : MutableWorkerRecord) (refs : List ℕ)
    → times ref refs ≤ 1
    → (times ref refs ≡ 0) × (count_occupied (written heap ref r) refs ≡ count_occupied heap refs)
      ⊎ (count_occupied (written heap ref r) refs + occupies (heap ref)
          ≡ count_occupied heap refs + occupies (some r))
count_written heap ref r [] h = inl (refl, refl)
count_written heap ref r (x ∷ refs) h = elim (Bool-cases (eqb x ref)) [
  | inl same ↦
      let e = (eqb_iff x ref).0 same in
      inr (ground (arith, count_written_elsewhere heap ref r refs, ap heap e))
  | inr other ↦ elim (count_written heap ref r refs (ground arith)) [
    | inl (never, kept) ↦ inl (ground arith, ground arith)
    | inr counts ↦ inr (ground arith)
  ]
]

pub put_record-IsBounded :
    (p : Pool) (ref : ℕ) (r : MutableWorkerRecord)
    → IsBounded p
    → active_worker_count p + occupies (some r) ≤ p.config.max_workers + occupies (p.heap ref)
    → IsBounded (put_record p ref r)
put_record-IsBounded p ref r b room = record {
  occupied = elim (count_written p.heap ref r (values p.records) (b.once ref)) [
    | inl (never, kept) ↦ omega arith
    | inr counts ↦ omega arith
  ];
  tracked = b.tracked;
  once = b.once;
  fresh = b.fresh;
}

-- The record that an operation works on stands in the heap.
abbrev pub IsFound : Pool → Option (ℕ × MutableWorkerRecord) → Type 0
IsFound p none = Unit
IsFound p (some (ref, r)) = p.heap ref ≡ some r

if-IsFound :
    (p : Pool) (c : Bool) (a b : Option (ℕ × MutableWorkerRecord))
    → IsFound p a
    → IsFound p b
    → IsFound p (if c then a else b)
if-IsFound p true a b fa fb = fa
if-IsFound p false a b fa fb = fb

matching-IsFound :
    (p : Pool) (context : WorkerOperationContext) (ref : ℕ) (r : Option MutableWorkerRecord)
    → p.heap ref ≡ r
    → IsFound p (matching context ref r)
matching-IsFound p context ref none e = tt
matching-IsFound p context ref (some r) e =
    if-IsFound p (context_matches r context) (some (ref, r)) none e tt

dereferenced-IsFound :
    (p : Pool) (context : WorkerOperationContext) (ref : Option ℕ)
    → IsFound p (dereferenced p context ref)
dereferenced-IsFound p context none = tt
dereferenced-IsFound p context (some ref) = matching-IsFound p context ref (p.heap ref) refl

pub record_for-IsFound :
    (p : Pool) (context : WorkerOperationContext) (id : String)
    → IsFound p (record_for p context id)
unfolding record_for
record_for-IsFound p context id =
    if-IsFound p (not (valid_context context) || not (is_identifier 160 id)) none
      (dereferenced p context (lookup (record_key context.tenant_id id) p.records)) tt
      (dereferenced-IsFound p context (lookup (record_key context.tenant_id id) p.records))

-- The record of a call that waits for the lease port counts already, and a release ends in a state that
-- does not count.
abbrev pub IsHeld : Pool → PendingCall → Type 0
IsHeld p (acquiring l) = occupies (p.heap l.ref) ≡ 1
IsHeld p (beating l) = occupies (p.heap l.ref) ≡ 1
IsHeld p (letting_go l) = (occupies (p.heap l.ref) ≡ 1) × (is_occupied l.terminal_state ≡ false)

abbrev pub IsSafe : Progress → Type 0
IsSafe (decided d p) = IsBounded p
IsSafe (waiting call p) = IsBounded p × IsHeld p call

-- A write that takes no place that the record has not.
pub settle-IsSafe :
    (p : Pool) (ref : ℕ) (code : WorkerDecisionCode) (r : MutableWorkerRecord)
    → IsBounded p
    → occupies (some r) ≤ occupies (p.heap ref)
    → IsSafe (settle p ref code r)
settle-IsSafe p ref code r b room = put_record-IsBounded p ref r b (omega (arith, b.occupied))

pub if-IsSafe :
    (c : Bool) (a b : Progress)
    → (c ≡ true → IsSafe a)
    → (c ≡ false → IsSafe b)
    → IsSafe (if c then a else b)
if-IsSafe true a b f g = f refl
if-IsSafe false a b f g = g refl

pub written_here :
    (heap : ℕ → Option MutableWorkerRecord) (ref : ℕ) (r : MutableWorkerRecord)
    → occupies (written heap ref r ref) ≡ occupies (some r)
written_here heap ref r = ground (arith, eqb_iff ref ref)

pub occupies-put_record :
    (p : Pool) (ref : ℕ) (r : MutableWorkerRecord)
    → occupies ((put_record p ref r).heap ref) ≡ occupies (some r)
occupies-put_record p ref r = written_here p.heap ref r
