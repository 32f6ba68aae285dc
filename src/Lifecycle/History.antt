-- ===== src/Lifecycle/History.antt =====
-- What holds of a lifecycle record over every sequence of transition requests.
use aurora_ai_native.Prelude.{
  ℕ, ◌+◌, ◌≤◌, ◌≡◌, refl, sym, ap, ◌∙◌, ◌≢◌, ◌⊎◌, inl, inr, true, none, some, List, [], ◌∷◌, arith,
  All, returned,
}
use aurora_ai_native.Lifecycle.{
  is_terminal_lifecycle_state, draft, cancelled, superseded, LifecycleState-discrete,
  CancellationRecord, SupersessionRecord, LifecycleRecord, CreateLifecycleRecordInput,
  create_lifecycle_record, LifecycleTransitionRequest, LifecycleTransitionResult, applied, rejected,
  next_record, transition_lifecycle,
}
use aurora_ai_native.Lifecycle.Diagram.{IsLive, ⟶-allowed}
use aurora_ai_native.Lifecycle.Transition.{
  cancel-IsAdmissible, transition-applied_iff, transition-cases, IsAdmissible,
}

-- The record that a caller holds after a result.
abbrev pub record_of : LifecycleTransitionResult → LifecycleRecord
record_of (applied record' event) = record'
record_of (rejected code current) = current

abbrev applications : LifecycleTransitionResult → ℕ
applications (applied record' event) = 1
applications (rejected code current) = 0

-- Requests one after the other, and how many of them are applied.
unfoldable pub run : LifecycleRecord → List LifecycleTransitionRequest → LifecycleRecord
run r [] = r
run r (q ∷ qs) = run (record_of (transition_lifecycle r q)) qs

unfoldable pub count_applied : LifecycleRecord → List LifecycleTransitionRequest → ℕ
count_applied r [] = 0
count_applied r (q ∷ qs) =
    applications (transition_lifecycle r q)
    + count_applied (record_of (transition_lifecycle r q)) qs

-- The cancellation stands exactly on a cancelled record, the supersession exactly on a superseded
-- one, with another entity for its successor.
pub record IsConsistent (r : LifecycleRecord) : Type 0 where
  pub cancelled_has : r.state ≡ cancelled → (c : CancellationRecord) × (r.cancellation ≡ some c)
  pub else_no_cancellation : r.state ≢ cancelled → r.cancellation ≡ none
  pub superseded_has :
      r.state ≡ superseded
      → (s : SupersessionRecord) × (r.supersession ≡ some s) × (s.successor ≢ r.entity)
  pub else_no_supersession : r.state ≢ superseded → r.supersession ≡ none

pub create-IsConsistent :
    (input : CreateLifecycleRecordInput) {r : LifecycleRecord}
    → create_lifecycle_record input ≡ returned r
    → IsConsistent r × (r.state ≡ draft) × (r.revision ≡ 0)
unfolding create_lifecycle_record
create-IsConsistent input h = ground arith

next_record-IsConsistent :
    (r : LifecycleRecord) (q : LifecycleTransitionRequest)
    → IsConsistent r
    → IsAdmissible r q
    → IsConsistent (next_record r q)
unfolding next_record LifecycleState-discrete
next_record-IsConsistent r q c a = ground (arith, ⟶-allowed a.edge)

-- One request, with the transition shut: either it is admissible and one revision is added, or
-- nothing changes.
step-cases :
    (r : LifecycleRecord) (q : LifecycleTransitionRequest)
    → IsAdmissible r q
        × (record_of (transition_lifecycle r q) ≡ next_record r q)
        × (applications (transition_lifecycle r q) ≡ 1)
      ⊎ (record_of (transition_lifecycle r q) ≡ r) × (applications (transition_lifecycle r q) ≡ 0)
step-cases r q = elim (transition-cases r q) [
  | inl (a, h) ↦ inl (a, ap record_of h, ap applications h)
  | inr (c, h) ↦ inr (ap record_of h, ap applications h)
]

step-IsConsistent :
    (r : LifecycleRecord) (q : LifecycleTransitionRequest)
    → IsConsistent r
    → IsConsistent (record_of (transition_lifecycle r q))
step-IsConsistent r q c = elim (step-cases r q) [
  | inl (a, e, n) ↦ rw e (next_record-IsConsistent r q c a)
  | inr (e, n) ↦ rw e c
]

-- Every sequence of requests keeps a record consistent: the cancellation stands exactly on a cancelled
-- record, the supersession exactly on a superseded one, with another entity for its successor.
pub run-IsConsistent :
    (r : LifecycleRecord) (qs : List LifecycleTransitionRequest)
    → IsConsistent r
    → IsConsistent (run r qs)
unfolding run
run-IsConsistent r [] c = c
run-IsConsistent r (q ∷ qs) c =
    run-IsConsistent (record_of (transition_lifecycle r q)) qs (step-IsConsistent r q c)

step-revision :
    (r : LifecycleRecord) (q : LifecycleTransitionRequest)
    → (record_of (transition_lifecycle r q)).revision
      ≡ r.revision + applications (transition_lifecycle r q)
unfolding next_record
step-revision r q = elim (step-cases r q) [
  | inl (a, e, n) ↦ rw (e, n) refl
  | inr (e, n) ↦ rw (e, n) (omega arith)
]

-- The revision counts the applied requests.
pub run-revision :
    (r : LifecycleRecord) (qs : List LifecycleTransitionRequest)
    → (run r qs).revision ≡ r.revision + count_applied r qs
unfolding run count_applied
run-revision r [] = omega arith
run-revision r (q ∷ qs) =
    omega (arith, step-revision r q, run-revision (record_of (transition_lifecycle r q)) qs)

step_stale :
    (r : LifecycleRecord) (q : LifecycleTransitionRequest)
    → q.expected_revision ≢ r.revision
    → (record_of (transition_lifecycle r q) ≡ r) × (applications (transition_lifecycle r q) ≡ 0)
step_stale r q stale = elim (step-cases r q) [
  | inl (a, e, n) ↦ absurd (stale a.same_revision)
  | inr kept ↦ kept
]

run_stale :
    (n : ℕ) (r : LifecycleRecord) (qs : List LifecycleTransitionRequest)
    → All (λ q. q.expected_revision ≡ n) qs
    → n ≢ r.revision
    → count_applied r qs ≡ 0
unfolding count_applied
run_stale n r [] same stale = refl
run_stale n r (q ∷ qs) same stale =
    let (kept, zero_applied) = step_stale r q (λ e. stale (sym same.0 ∙ e)) in
    rw (kept, zero_applied) (omega (arith, run_stale n r qs same.1 stale))

-- Of requests that expect one and the same revision at most one is applied.
pub run_once_per_revision :
    (n : ℕ) (r : LifecycleRecord) (qs : List LifecycleTransitionRequest)
    → All (λ q. q.expected_revision ≡ n) qs
    → count_applied r qs ≤ 1
unfolding count_applied next_record
run_once_per_revision n r [] same = omega arith
run_once_per_revision n r (q ∷ qs) same = elim (step-cases r q) [
  | inl (a, e, one) ↦
      rw (e, one)
        (omega (
          arith,
          run_stale n (next_record r q) qs same.1
              (λ h. absurd (omega (arith, a.same_revision, same.0))),
        ))
  | inr (e, zero_applied) ↦
      rw (e, zero_applied) (omega (arith, run_once_per_revision n r qs same.1))
]

-- A record in a terminal state is left as it is by every sequence of requests, and none is applied.
pub run_terminal :
    (r : LifecycleRecord) (qs : List LifecycleTransitionRequest)
    → is_terminal_lifecycle_state r.state ≡ true
    → (run r qs ≡ r) × (count_applied r qs ≡ 0)
unfolding run count_applied
run_terminal r [] h = (refl, refl)
run_terminal r (q ∷ qs) h = elim (step-cases r q) [
  | inl (a, e, n) ↦ absurd (ground (arith, ⟶-allowed a.edge))
  | inr (e, n) ↦ rw (e, n) ((run_terminal r qs h).0, omega (arith, (run_terminal r qs h).1))
]

-- A record that is not yet in a terminal state can be cancelled: the request with its tenant and its
-- revision that names no successor is applied, the record is cancelled, and it holds the reason and the time of the request.
pub cancel_live :
    (r : LifecycleRecord) (q : LifecycleTransitionRequest)
    → IsLive r.state
    → q.tenant_id ≡ r.tenant_id
    → q.expected_revision ≡ r.revision
    → q.to ≡ cancelled
    → q.superseded_by ≡ none
    → ((run r (q ∷ [])).state ≡ cancelled)
      × ((run r (q ∷ [])).cancellation
          ≡ some (record {
            reason = q.reason;
            requested_at = q.at;
            correlation_id = q.correlation_id;
          }))
unfolding run next_record LifecycleState-discrete
cancel_live r q live tenant revision to unnamed =
    rw ((transition-applied_iff r q).1 (cancel-IsAdmissible r q live tenant revision to unnamed))
      (to, ground arith)
