-- ===== src/Containment/Gate.antt =====
-- The gate in front of an execution: evaluateFailureContainment of
-- services/executors/src/failure-containment/failure-containment.ts, and its types in types.ts.
-- Of the action intent only its id is read. Counts are natural numbers, so
-- `Number.isInteger(n) && n >= 0` holds of them.
pub mod Clearance
use aurora_ai_native.Prelude.{
  ℕ, String, Bool, true, false, ◌&&◌, ◌||◌, not, Option, none, some, List, [], ◌∷◌, ◌==◌, push_if,
  is_empty, sort_by, unique_by, ltb, leb, if◌then◌else◌, is_none, is_some, text_le, DateParse,
}
use aurora_ai_native.Containment.Time.{timestamp_ms}
use aurora_ai_native.Containment.Circuit.{
  CircuitState, closed, open_circuit, half_open, CircuitSnapshot, probe_consistent,
}
use aurora_ai_native.Containment.KillSwitch.{
  KillSwitchState, active, inactive, KillSwitchSnapshot, same_switch,
}

pub data DependencyHealth : Type 0 where
  healthy degraded unavailable : DependencyHealth

pub record FailureContainmentSnapshot : Type 0 where
  pub circuit : CircuitSnapshot
  pub kill_switch : KillSwitchSnapshot
  pub dependency_health : DependencyHealth
  pub cancellation_requested : Bool
  pub current_in_flight : ℕ
  pub max_in_flight : ℕ
  pub retry_depth : ℕ
  pub max_retry_depth : ℕ

pub data ExecutionContainmentPhase : Type 0 where
  queued pre_external in_flight post_external : ExecutionContainmentPhase

-- The signals are carried by the request and read by nothing: confidence and urgency, which are
-- numbers between 0 and 1, stand in hundredths.
pub record NonAuthoritativeExecutionSignals : Type 0 where
  pub fast_lane : Option Bool
  pub confidence : Option ℕ
  pub urgency : Option ℕ
  pub router_override_requested : Option Bool

pub record EvaluateFailureContainmentRequest : Type 0 where
  pub schema_version : String
  pub action_intent_id : String
  pub evaluated_at : String
  pub phase : ExecutionContainmentPhase
  pub snapshot : FailureContainmentSnapshot
  pub non_authoritative_signals : Option NonAuthoritativeExecutionSignals

pub data FailureContainmentReason : Type 0 where
  invalid_time invalid_containment_config kill_switch_active circuit_open : FailureContainmentReason
  half_open_probe_reservation_required half_open_probe_in_flight : FailureContainmentReason
  dependency_unavailable overload_limit_reached : FailureContainmentReason
  cascading_retry_limit_reached cancellation_requested : FailureContainmentReason
  in_flight_cancellation_requires_reconciliation : FailureContainmentReason

pub data CancellationDisposition : Type 0 where
  nothing stop_before_external reconcile_in_flight : CancellationDisposition

pub record FailureContainmentResult : Type 0 where
  pub schema_version : String
  pub action_intent_id : String
  pub may_proceed_to_other_guards : Bool
  pub degraded_mode : Bool
  pub half_open_probe_eligible : Bool
  pub cancellation_disposition : CancellationDisposition
  pub requires_reconciliation_handoff : Bool
  pub reasons : List FailureContainmentReason

-- The texts of the reasons, by which they are told apart and sorted.
abbrev pub reason_text : FailureContainmentReason → String
reason_text invalid_time = "INVALID_TIME"
reason_text invalid_containment_config = "INVALID_CONTAINMENT_CONFIG"
reason_text kill_switch_active = "KILL_SWITCH_ACTIVE"
reason_text circuit_open = "CIRCUIT_OPEN"
reason_text half_open_probe_reservation_required = "HALF_OPEN_PROBE_RESERVATION_REQUIRED"
reason_text half_open_probe_in_flight = "HALF_OPEN_PROBE_IN_FLIGHT"
reason_text dependency_unavailable = "DEPENDENCY_UNAVAILABLE"
reason_text overload_limit_reached = "OVERLOAD_LIMIT_REACHED"
reason_text cascading_retry_limit_reached = "CASCADING_RETRY_LIMIT_REACHED"
reason_text cancellation_requested = "CANCELLATION_REQUESTED"
reason_text in_flight_cancellation_requires_reconciliation =
    "IN_FLIGHT_CANCELLATION_REQUIRES_RECONCILIATION"

unfoldable pub unique_sorted : List FailureContainmentReason → List FailureContainmentReason
unfolding sort_by unique_by
unique_sorted values =
    sort_by (λ x y. text_le (reason_text x) (reason_text y))
      (unique_by (λ x y. reason_text x == reason_text y) values)

unfoldable pub valid_containment_config : EvaluateFailureContainmentRequest → Bool
valid_containment_config request =
    leb 1 request.snapshot.max_in_flight
    && leb 1 request.snapshot.max_retry_depth
    && probe_consistent request.snapshot.circuit

abbrev pub is_active : KillSwitchState → Bool
is_active s = same_switch s active

abbrev pub is_closed : CircuitState → Bool
is_closed closed = true
is_closed _ = false

abbrev pub is_open : CircuitState → Bool
is_open open_circuit = true
is_open _ = false

abbrev pub is_half_open : CircuitState → Bool
is_half_open half_open = true
is_half_open _ = false

abbrev pub is_unavailable : DependencyHealth → Bool
is_unavailable unavailable = true
is_unavailable _ = false

abbrev is_degraded : DependencyHealth → Bool
is_degraded degraded = true
is_degraded _ = false

abbrev pub before_external : ExecutionContainmentPhase → Bool
before_external queued = true
before_external pre_external = true
before_external _ = false

-- `owner !== actionIntentId`, where the owner may be undefined.
abbrev other_owner : Option String → String → Bool
other_owner none id = true
other_owner (some owner) id = not (owner == id)

abbrev half_open_reasons :
    CircuitSnapshot → String → List FailureContainmentReason → List FailureContainmentReason
half_open_reasons circuit id rest =
    if is_half_open circuit.state
    then if not circuit.half_open_probe_in_flight
      then half_open_probe_reservation_required ∷ rest
      else push_if (other_owner circuit.half_open_probe_action_intent_id id)
          half_open_probe_in_flight rest
    else rest

abbrev cancellation_reasons : Bool → ExecutionContainmentPhase → List FailureContainmentReason
cancellation_reasons requested phase =
    if requested
    then cancellation_requested
      ∷ push_if (not (before_external phase)) in_flight_cancellation_requires_reconciliation []
    else []

-- The reasons in the order in which the code pushes them.
unfoldable pub containment_reasons :
    DateParse → EvaluateFailureContainmentRequest → List FailureContainmentReason
containment_reasons date_parse request =
    push_if (is_none (timestamp_ms date_parse evaluated_at)) invalid_time (
      push_if (not valid_config) invalid_containment_config (
        push_if (is_active kill_switch.state) kill_switch_active (
          push_if (is_open circuit.state) circuit_open (
            half_open_reasons circuit action_intent_id (
              push_if (is_unavailable dependency_health) dependency_unavailable (
                push_if (valid_config && leb max_in_flight current_in_flight) overload_limit_reached
                  (push_if (valid_config && leb max_retry_depth retry_depth)
                    cascading_retry_limit_reached
                    (cancellation_reasons snapshot.cancellation_requested phase))))))))
  where
    open request use {evaluated_at, action_intent_id, phase, snapshot}
    open snapshot use {
      circuit, kill_switch, dependency_health, current_in_flight, max_in_flight, retry_depth,
      max_retry_depth,
    }

    valid_config : Bool
    valid_config = valid_containment_config request

unfoldable pub probe_eligible : DateParse → EvaluateFailureContainmentRequest → Bool
probe_eligible date_parse request =
    is_some (timestamp_ms date_parse request.evaluated_at)
    && valid_containment_config request
    && is_half_open request.snapshot.circuit.state
    && not request.snapshot.circuit.half_open_probe_in_flight
    && not (is_active request.snapshot.kill_switch.state)
    && not (is_unavailable request.snapshot.dependency_health)
    && not request.snapshot.cancellation_requested
    && ltb request.snapshot.current_in_flight request.snapshot.max_in_flight
    && ltb request.snapshot.retry_depth request.snapshot.max_retry_depth

abbrev disposition : Bool → ExecutionContainmentPhase → CancellationDisposition
disposition requested phase =
    if requested
    then if before_external phase then stop_before_external else reconcile_in_flight
    else nothing

unfoldable pub evaluate_failure_containment :
    DateParse → EvaluateFailureContainmentRequest → FailureContainmentResult
unfolding containment_reasons probe_eligible unique_sorted
evaluate_failure_containment date_parse request = record {
  schema_version = request.schema_version;
  action_intent_id = request.action_intent_id;
  may_proceed_to_other_guards = is_empty (containment_reasons date_parse request);
  degraded_mode =
      is_degraded request.snapshot.dependency_health
      || not (is_closed request.snapshot.circuit.state);
  half_open_probe_eligible = probe_eligible date_parse request;
  cancellation_disposition = disposition request.snapshot.cancellation_requested request.phase;
  requires_reconciliation_handoff =
      request.snapshot.cancellation_requested && not (before_external request.phase);
  reasons = unique_sorted (containment_reasons date_parse request);
}
