-- ===== src/Lifecycle/Tests.antt =====
-- Small lives of a lifecycle record, and the theorems at them.
use aurora_ai_native.Prelude.{ℕ, ◌≡◌, refl, ◌↔◌, none, some, List, [], ◌∷◌, arith, non_empty}
use aurora_ai_native.Lifecycle.{
  LifecycleState, LifecycleState-discrete, LifecycleEntityKind-discrete, draft, ready, active,
  blocked, succeeded, failed, cancelled, goal, LifecycleRecord, LifecycleTransitionRequest, applied,
  rejected, invalid_transition, transition_lifecycle, next_record, transition_event,
  create_lifecycle_record,
}
use aurora_ai_native.Lifecycle.Diagram.{active_live}
use aurora_ai_native.Lifecycle.Transition.{IsAdmissible, transition-applied_iff}
use aurora_ai_native.Lifecycle.History.{
  run, count_applied, IsConsistent, run-IsConsistent, run_terminal, cancel_live,
}

abbrev record_in : LifecycleState → ℕ → LifecycleRecord
record_in state revision = record {
  entity = record { kind = goal; id = "g1" };
  tenant_id = "t1";
  root_correlation_id = "c0";
  parent = none;
  state = state;
  revision = revision;
  created_at = "2026-07-10T12:00:00Z";
  updated_at = "2026-07-10T12:00:00Z";
  cancellation = none;
  supersession = none;
  evidence = [];
}

abbrev request : LifecycleState → ℕ → LifecycleTransitionRequest
request to revision = record {
  tenant_id = "t1";
  correlation_id = "c1";
  expected_revision = revision;
  to = to;
  at = "2026-07-10T12:05:00Z";
  reason = "plan";
  evidence = none;
  superseded_by = none;
}

abbrev life : List LifecycleTransitionRequest
life =
    request ready 0
    ∷ request active 1
    ∷ request ready 2
    ∷ request blocked 2
    ∷ request active 3
    ∷ request succeeded 4
    ∷ request failed 5
    ∷ []

program : Unit {0}
unfolding run count_applied transition_lifecycle next_record transition_event non_empty
    create_lifecycle_record LifecycleState-discrete LifecycleEntityKind-discrete
program = tt

life_succeeds :
    ((run (record_in draft 0) life).state ≡ succeeded)
    × (count_applied (record_in draft 0) life ≡ 5)
unfolding program
life_succeeds = (refl, refl)

skipped_state :
    transition_lifecycle (record_in draft 0) (request active 0)
    ≡ rejected invalid_transition (record_in draft 0)
unfolding program
skipped_state = refl

draft-IsConsistent : IsConsistent (record_in draft 0)
draft-IsConsistent = ground arith

transition-applied_iff_example :
    (transition_lifecycle (record_in draft 0) (request ready 0)
      ≡ applied
          (next_record (record_in draft 0) (request ready 0))
          (transition_event (record_in draft 0) (request ready 0)))
    ↔ IsAdmissible (record_in draft 0) (request ready 0)
transition-applied_iff_example = transition-applied_iff (record_in draft 0) (request ready 0)

run-IsConsistent_example : IsConsistent (run (record_in draft 0) life)
run-IsConsistent_example = run-IsConsistent (record_in draft 0) life draft-IsConsistent

run_terminal_example :
    (run (record_in failed 3) life ≡ record_in failed 3)
    × (count_applied (record_in failed 3) life ≡ 0)
unfolding LifecycleState-discrete
run_terminal_example = run_terminal (record_in failed 3) life refl

cancel_live_example :
    ((run (record_in active 4) (request cancelled 4 ∷ [])).state ≡ cancelled)
    × ((run (record_in active 4) (request cancelled 4 ∷ [])).cancellation
        ≡ some (record {
          reason = "plan";
          requested_at = "2026-07-10T12:05:00Z";
          correlation_id = "c1";
        }))
cancel_live_example =
    cancel_live (record_in active 4) (request cancelled 4) active_live refl refl refl refl
