-- ===== src/Containment/Tests.antt =====
-- Small inputs of the containment code, and the theorems at them.
use aurora_ai_native.Prelude.{
  String, ◌≡◌, refl, ◌≢◌, ◌↔◌, Bool, true, false, Option, none, some, List, [], ◌∷◌, arith, eq_iff,
  ◌==◌, if◌then◌else◌, DateParse,
}
use aurora_ai_native.Containment.Time.{rfc3339_pattern, timestamp_ms}
use aurora_ai_native.Containment.Circuit.{
  half_open, CircuitSnapshot, CircuitEvent, success, failure, recovery_window_elapsed,
  half_open_probe_started, CircuitTransitionRequest, transition_circuit, valid_circuit_config,
  closed_with, opened_with,
}
use aurora_ai_native.Containment.Circuit.Fencing.{
  Moves, transition_circuit-Moves_iff, IsSound, run_circuit, run_circuit_fenced,
}
use aurora_ai_native.Containment.Circuit.Threshold.{IsFailure, run_circuit_trips}
use aurora_ai_native.Containment.KillSwitch.{
  KillSwitchSnapshot, active, inactive, activate, deactivate, KillSwitchCommand, RecoveryGate,
  not_validated, validated, KillSwitchTransitionRequest, transition_kill_switch,
}
use aurora_ai_native.Containment.KillSwitch.Safety.{
  IsAcceptable, transition_kill_switch-accepted_iff, run_switch, run_switch_stays_active,
}
use aurora_ai_native.Containment.Gate.{
  valid_containment_config, EvaluateFailureContainmentRequest, evaluate_failure_containment,
  healthy, in_flight, cancellation_requested, in_flight_cancellation_requires_reconciliation,
}
use aurora_ai_native.Containment.Gate.Clearance.{
  IsClear, evaluate-IsClear_iff, eligible_probe_proceeds, reservation, with_circuit,
}

pattern_accepts :
    (rfc3339_pattern "2026-07-10T12:00:00.123Z" ≡ true)
    × (rfc3339_pattern "2026-07-10T12:00:00-03:00" ≡ true)
unfolding rfc3339_pattern
pattern_accepts = (refl, refl)

pattern_refuses :
    (rfc3339_pattern "2026-07-10T12:00:00" ≡ false)
    × (rfc3339_pattern "2026-07-10T12:00:00.Z" ≡ false)
    × (rfc3339_pattern "2026-07-10T12:00:00.1234567890Z" ≡ false)
    × (rfc3339_pattern "2026-07-10T12:00:00Z " ≡ false)
unfolding rfc3339_pattern
pattern_refuses = (refl, refl, refl, refl)

-- Two instants an hour apart.
abbrev noon : String
noon = "2026-07-10T12:00:00Z"

abbrev one : String
one = "2026-07-10T13:00:00Z"

abbrev parse : DateParse
parse text = if text == noon then some 0 else some 3600000

abbrev make_request : CircuitSnapshot → CircuitEvent → Option String → CircuitTransitionRequest
make_request snapshot event owner = record {
  snapshot = snapshot;
  event = event;
  observed_at = one;
  failure_threshold = 3;
  recovery_after_ms = 60000;
  probe_action_intent_id = owner;
}

abbrev half_open_of : Bool → Option String → CircuitSnapshot
half_open_of probing owner = record {
  state = half_open;
  consecutive_failures = 3;
  opened_at = none;
  half_open_probe_in_flight = probing;
  half_open_probe_action_intent_id = owner;
}

program : Unit {0}
unfolding transition_circuit timestamp_ms run_circuit transition_kill_switch
    evaluate_failure_containment valid_containment_config valid_circuit_config
program = tt

transition_circuit-Moves_iff_example :
    (((transition_circuit parse
          (make_request (opened_with 3 noon) recovery_window_elapsed none)).accepted
        ≡ true)
      × ((transition_circuit parse
            (make_request (opened_with 3 noon) recovery_window_elapsed none)).snapshot
          ≡ half_open_of false none))
    ↔ Moves parse
        (make_request (opened_with 3 noon) recovery_window_elapsed none)
        3600000
        (half_open_of false none)
unfolding program
transition_circuit-Moves_iff_example =
    transition_circuit-Moves_iff parse
      (make_request (opened_with 3 noon) recovery_window_elapsed none) 3600000
      (half_open_of false none) refl refl

opened-IsSound : IsSound parse (opened_with 3 noon)
unfolding program
opened-IsSound = record { probe_owned = refl; opening_known = λ h. (0, refl) }

abbrev strangers : List CircuitTransitionRequest
strangers =
    make_request (closed_with 0) success (some "a2")
    ∷ make_request (closed_with 0) half_open_probe_started (some "a2")
    ∷ make_request (closed_with 0) failure none
    ∷ []

not_owner : ◌≢◌ {A = Option String} (some "a2") (some "a1")
not_owner e = ground (arith, eq_iff "a2" "a1")

run_circuit_fenced_example :
    run_circuit parse (half_open_of true (some "a1")) strangers ≡ half_open_of true (some "a1")
run_circuit_fenced_example =
    run_circuit_fenced parse (half_open_of true (some "a1")) "a1" strangers refl refl refl
      (not_owner, (not_owner, (λ e. ground arith, tt)))

abbrev reported : CircuitTransitionRequest
reported = make_request (closed_with 0) failure none

reported-IsFailure : IsFailure parse 3 reported
unfolding program
reported-IsFailure = record { fails = refl; under = refl; instant = 3600000; readable = refl }

run_circuit_trips_example :
    (run_circuit parse (closed_with 1) (reported ∷ []) ≡ closed_with 2)
    × (run_circuit parse (closed_with 1) (reported ∷ reported ∷ []) ≡ opened_with 3 one)
run_circuit_trips_example =
    run_circuit_trips parse 3 1 (reported ∷ []) reported (reported-IsFailure, tt) reported-IsFailure
      refl

abbrev switch_at : String → KillSwitchSnapshot
switch_at at = record { state = active; changed_at = at }

abbrev switch_request_of : KillSwitchCommand → RecoveryGate → KillSwitchTransitionRequest
switch_request_of command gate = record {
  snapshot = switch_at noon;
  command = command;
  changed_at = one;
  recovery_gate = gate;
}

transition_kill_switch-accepted_iff_example :
    ((transition_kill_switch parse (switch_request_of deactivate validated)).accepted ≡ true)
    ↔ IsAcceptable parse (switch_request_of deactivate validated)
transition_kill_switch-accepted_iff_example =
    transition_kill_switch-accepted_iff parse (switch_request_of deactivate validated)

abbrev attempts : List KillSwitchTransitionRequest
attempts = switch_request_of deactivate not_validated ∷ switch_request_of activate validated ∷ []

run_switch_stays_active_example : (run_switch parse (switch_at noon) attempts).state ≡ active
run_switch_stays_active_example =
    run_switch_stays_active parse (switch_at noon) attempts refl
      (λ d v. ground arith, (λ d v. ground arith, tt))

abbrev gate_request : Bool → CircuitSnapshot → EvaluateFailureContainmentRequest
gate_request cancelled circuit = record {
  schema_version = "1.0.0";
  action_intent_id = "a1";
  evaluated_at = one;
  phase = in_flight;
  snapshot = record {
    circuit = circuit;
    kill_switch = record { state = inactive; changed_at = noon };
    dependency_health = healthy;
    cancellation_requested = cancelled;
    current_in_flight = 1;
    max_in_flight = 4;
    retry_depth = 0;
    max_retry_depth = 2;
  };
  non_authoritative_signals = none;
}

cancelled_reasons :
    (evaluate_failure_containment parse (gate_request true (closed_with 0))).reasons
    ≡ cancellation_requested ∷ in_flight_cancellation_requires_reconciliation ∷ []
unfolding program
cancelled_reasons = refl

evaluate-IsClear_iff_example :
    ((evaluate_failure_containment parse
        (gate_request false (closed_with 2))).may_proceed_to_other_guards
      ≡ true)
    ↔ IsClear parse (gate_request false (closed_with 2))
evaluate-IsClear_iff_example = evaluate-IsClear_iff parse (gate_request false (closed_with 2))

eligible_probe_proceeds_example :
    let q = gate_request false (half_open_of false none) in
    let reserved = transition_circuit parse (reservation parse q 3 60000) in
    ((evaluate_failure_containment parse q).may_proceed_to_other_guards ≡ false)
    × (reserved.accepted ≡ true)
    × ((evaluate_failure_containment parse
          (with_circuit parse q reserved.snapshot)).may_proceed_to_other_guards
        ≡ true)
unfolding program
eligible_probe_proceeds_example =
    eligible_probe_proceeds parse (gate_request false (half_open_of false none)) 3 60000 refl
      (omega arith)
