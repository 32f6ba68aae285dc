-- ===== src/Containment/Circuit.antt =====
-- The circuit breaker: transitionCircuit of
-- services/executors/src/failure-containment/failure-containment.ts, and its types in types.ts.
-- Counts are natural numbers, so `Number.isInteger(n) && n >= 0` and `Number.isFinite` hold of them.
pub mod Fencing
pub mod Threshold
use aurora_ai_native.Prelude.{
  ℕ, ◌+◌, String, Bool, true, false, ◌&&◌, not, Option, none, some, List, [], ◌∷◌, ◌==◌, ltb, leb,
  if◌then◌else◌, is_none, is_some, DateParse,
}
use aurora_ai_native.Containment.Time.{timestamp_ms}

pub data CircuitState : Type 0 where
  closed open_circuit half_open : CircuitState

pub record CircuitSnapshot : Type 0 where
  pub state : CircuitState
  pub consecutive_failures : ℕ
  pub opened_at : Option String
  pub half_open_probe_in_flight : Bool
  pub half_open_probe_action_intent_id : Option String

pub data CircuitEvent : Type 0 where
  success failure recovery_window_elapsed half_open_probe_started : CircuitEvent

pub record CircuitTransitionRequest : Type 0 where
  pub snapshot : CircuitSnapshot
  pub event : CircuitEvent
  pub observed_at : String
  pub failure_threshold : ℕ
  pub recovery_after_ms : ℕ
  pub probe_action_intent_id : Option String

pub data CircuitTransitionReason : Type 0 where
  invalid_time invalid_circuit_config invalid_circuit_transition : CircuitTransitionReason
  recovery_window_not_elapsed half_open_probe_already_in_flight : CircuitTransitionReason
  half_open_probe_owner_required half_open_probe_owner_mismatch : CircuitTransitionReason

pub record CircuitTransitionResult : Type 0 where
  pub accepted : Bool
  pub snapshot : CircuitSnapshot
  pub reasons : List CircuitTransitionReason

-- Every caller gives one reason, of which `uniqueSorted` makes the list of that reason.
abbrev pub invalid_circuit_transition_of :
    CircuitSnapshot → CircuitTransitionReason → CircuitTransitionResult
invalid_circuit_transition_of snapshot reason = record {
  accepted = false;
  snapshot = snapshot;
  reasons = reason ∷ [];
}

abbrev accept : CircuitSnapshot → CircuitTransitionResult
accept snapshot = record { accepted = true; snapshot = snapshot; reasons = [] }

-- A reserved probe has an owner, and nothing else has.
abbrev pub probe_state_consistent : CircuitState → Bool → Option String → Bool
probe_state_consistent half_open true owner = is_some owner
probe_state_consistent half_open false owner = is_none owner
probe_state_consistent closed probing owner = not probing && is_none owner
probe_state_consistent open_circuit probing owner = not probing && is_none owner

abbrev pub probe_consistent : CircuitSnapshot → Bool
probe_consistent s =
    probe_state_consistent s.state s.half_open_probe_in_flight s.half_open_probe_action_intent_id

unfoldable pub valid_circuit_config : CircuitTransitionRequest → Bool
valid_circuit_config request = leb 1 request.failure_threshold && probe_consistent request.snapshot

abbrev pub closed_with : ℕ → CircuitSnapshot
closed_with failures = record {
  state = closed;
  consecutive_failures = failures;
  opened_at = none;
  half_open_probe_in_flight = false;
  half_open_probe_action_intent_id = none;
}

abbrev pub opened_with : ℕ → String → CircuitSnapshot
opened_with failures at = record {
  state = open_circuit;
  consecutive_failures = failures;
  opened_at = some at;
  half_open_probe_in_flight = false;
  half_open_probe_action_intent_id = none;
}

abbrev pub half_open_with : ℕ → CircuitSnapshot
half_open_with failures = record {
  state = half_open;
  consecutive_failures = failures;
  opened_at = none;
  half_open_probe_in_flight = false;
  half_open_probe_action_intent_id = none;
}

-- The branch of a closed circuit.
unfoldable pub transition_closed : CircuitTransitionRequest → CircuitEvent → CircuitTransitionResult
transition_closed request success = accept (closed_with 0)
transition_closed request failure =
    let failures = request.snapshot.consecutive_failures + 1 in
    accept (
      if leb request.failure_threshold failures
      then opened_with failures request.observed_at
      else closed_with failures)
transition_closed request recovery_window_elapsed =
    invalid_circuit_transition_of request.snapshot invalid_circuit_transition
transition_closed request half_open_probe_started =
    invalid_circuit_transition_of request.snapshot invalid_circuit_transition

-- `observedAt - openedAt < recoveryAfterMs`, with the difference added up on the other side.
abbrev recover : CircuitTransitionRequest → ℕ → Option ℕ → CircuitTransitionResult
recover request observed_at none = invalid_circuit_transition_of request.snapshot invalid_time
recover request observed_at (some opened_at) =
    if ltb observed_at (opened_at + request.recovery_after_ms)
    then invalid_circuit_transition_of request.snapshot recovery_window_not_elapsed
    else accept (half_open_with request.snapshot.consecutive_failures)

abbrev pub instant_of : DateParse → Option String → Option ℕ
instant_of date_parse none = none
instant_of date_parse (some at) = timestamp_ms date_parse at

-- The branch of an open circuit.
unfoldable pub transition_open :
    DateParse → CircuitTransitionRequest → ℕ → CircuitEvent → CircuitTransitionResult
transition_open date_parse request observed_at recovery_window_elapsed =
    recover request observed_at (instant_of date_parse request.snapshot.opened_at)
transition_open date_parse request observed_at _ =
    invalid_circuit_transition_of request.snapshot invalid_circuit_transition

abbrev start_probe : CircuitTransitionRequest → Option String → CircuitTransitionResult
start_probe request none =
    invalid_circuit_transition_of request.snapshot half_open_probe_owner_required
start_probe request (some owner) = accept (record (request.snapshot) {
  half_open_probe_in_flight = true;
  half_open_probe_action_intent_id = some owner;
})

-- The end of a probe, with what follows where the owner reports it.
abbrev owned :
    CircuitTransitionRequest
    → Option String
    → Option String
    → CircuitTransitionResult
    → CircuitTransitionResult
owned request (some owner) (some caller) done =
    if not (caller == owner)
    then invalid_circuit_transition_of request.snapshot half_open_probe_owner_mismatch
    else done
owned request none caller done =
    invalid_circuit_transition_of request.snapshot half_open_probe_owner_required
owned request (some owner) none done =
    invalid_circuit_transition_of request.snapshot half_open_probe_owner_required

abbrev finish_probe : CircuitTransitionRequest → CircuitTransitionResult → CircuitTransitionResult
finish_probe request done =
    if not request.snapshot.half_open_probe_in_flight
    then invalid_circuit_transition_of request.snapshot half_open_probe_owner_required
    else owned request request.snapshot.half_open_probe_action_intent_id
        request.probe_action_intent_id done

-- The branches of a half-open circuit.
unfoldable pub transition_half_open :
    CircuitTransitionRequest → CircuitEvent → CircuitTransitionResult
transition_half_open request half_open_probe_started =
    if request.snapshot.half_open_probe_in_flight
    then invalid_circuit_transition_of request.snapshot half_open_probe_already_in_flight
    else start_probe request request.probe_action_intent_id
transition_half_open request success = finish_probe request (accept (closed_with 0))
transition_half_open request failure =
    finish_probe request
      (accept (opened_with (request.snapshot.consecutive_failures + 1) request.observed_at))
transition_half_open request recovery_window_elapsed =
    invalid_circuit_transition_of request.snapshot invalid_circuit_transition

abbrev dispatch : DateParse → CircuitTransitionRequest → ℕ → CircuitState → CircuitTransitionResult
dispatch date_parse request observed_at closed = transition_closed request request.event
dispatch date_parse request observed_at open_circuit =
    transition_open date_parse request observed_at request.event
dispatch date_parse request observed_at half_open = transition_half_open request request.event

abbrev at_instant : DateParse → CircuitTransitionRequest → Option ℕ → CircuitTransitionResult
at_instant date_parse request none = invalid_circuit_transition_of request.snapshot invalid_time
at_instant date_parse request (some observed_at) =
    if not (valid_circuit_config request)
    then invalid_circuit_transition_of request.snapshot invalid_circuit_config
    else dispatch date_parse request observed_at request.snapshot.state

unfoldable pub transition_circuit : DateParse → CircuitTransitionRequest → CircuitTransitionResult
unfolding valid_circuit_config transition_closed transition_open transition_half_open
transition_circuit date_parse request =
    at_instant date_parse request (timestamp_ms date_parse request.observed_at)
