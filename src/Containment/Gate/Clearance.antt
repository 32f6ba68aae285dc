-- ===== src/Containment/Gate/Clearance.antt =====
-- When the gate lets an execution through, and how a half-open circuit's probe gets past it.
use aurora_ai_native.Prelude.{
  ℕ, ◌<◌, ◌≡◌, ◌≢◌, ◌↔◌, ◌⊎◌, Bool, true, false, not, none, some, arith, eq_iff, if◌then◌else◌,
  DateParse,
}
use aurora_ai_native.Containment.Time.{timestamp_ms}
use aurora_ai_native.Containment.Circuit.{
  closed, half_open, half_open_probe_started, CircuitSnapshot, CircuitTransitionRequest,
  transition_circuit,
}
use aurora_ai_native.Containment.KillSwitch.{inactive}
use aurora_ai_native.Containment.Gate.{
  unavailable, EvaluateFailureContainmentRequest, stop_before_external, reconcile_in_flight,
  before_external, valid_containment_config, evaluate_failure_containment,
}

module _ (date_parse : DateParse) where
  -- The conditions under which nothing holds an execution back.
  pub record IsClear (q : EvaluateFailureContainmentRequest) : Type 0 where
    pub instant : ℕ
    pub readable : timestamp_ms date_parse q.evaluated_at ≡ some instant
    pub switch_off : q.snapshot.kill_switch.state ≡ inactive
    pub circuit_passable :
        (q.snapshot.circuit.state ≡ closed)
          × (q.snapshot.circuit.half_open_probe_in_flight ≡ false)
          × (q.snapshot.circuit.half_open_probe_action_intent_id ≡ none)
        ⊎ (q.snapshot.circuit.state ≡ half_open)
          × (q.snapshot.circuit.half_open_probe_in_flight ≡ true)
          × (q.snapshot.circuit.half_open_probe_action_intent_id ≡ some q.action_intent_id)
    pub dependency_there : q.snapshot.dependency_health ≢ unavailable
    pub room : q.snapshot.current_in_flight < q.snapshot.max_in_flight
    pub retries_left : q.snapshot.retry_depth < q.snapshot.max_retry_depth
    pub not_cancelled : q.snapshot.cancellation_requested ≡ false

  abbrev may_proceed : EvaluateFailureContainmentRequest → Bool
  may_proceed q = (evaluate_failure_containment date_parse q).may_proceed_to_other_guards

  module _ (q : EvaluateFailureContainmentRequest) where
    clear_instant :
        may_proceed q ≡ true → (t : ℕ) × (timestamp_ms date_parse q.evaluated_at ≡ some t)
    unfolding evaluate_failure_containment
    clear_instant h = ground arith

    clear_state :
        may_proceed q ≡ true
        → (q.snapshot.kill_switch.state ≡ inactive)
          × (q.snapshot.dependency_health ≢ unavailable)
          × (q.snapshot.cancellation_requested ≡ false)
    unfolding evaluate_failure_containment
    clear_state h = (ground arith, ground arith, ground arith)

    clear_config : may_proceed q ≡ true → valid_containment_config q ≡ true
    unfolding evaluate_failure_containment
    clear_config h = ground arith

    clear_limits :
        may_proceed q ≡ true
        → (q.snapshot.current_in_flight < q.snapshot.max_in_flight)
          × (q.snapshot.retry_depth < q.snapshot.max_retry_depth)
    unfolding evaluate_failure_containment
    clear_limits h = ground (arith, clear_config h)

    clear_circuit :
        may_proceed q ≡ true
        → (q.snapshot.circuit.state ≡ closed)
            × (q.snapshot.circuit.half_open_probe_in_flight ≡ false)
            × (q.snapshot.circuit.half_open_probe_action_intent_id ≡ none)
          ⊎ (q.snapshot.circuit.state ≡ half_open)
            × (q.snapshot.circuit.half_open_probe_in_flight ≡ true)
            × (q.snapshot.circuit.half_open_probe_action_intent_id ≡ some q.action_intent_id)
    unfolding evaluate_failure_containment valid_containment_config
    clear_circuit h = grind (arith, clear_config h, eq_iff)

    IsClear-proceeds : IsClear q → may_proceed q ≡ true
    unfolding evaluate_failure_containment valid_containment_config
    IsClear-proceeds c = ground (arith, eq_iff q.action_intent_id q.action_intent_id)

  -- The gate lets an execution pass on to the other guards exactly when the instant is readable, the
  -- kill switch is off, the circuit is closed without a probe or half-open with this execution's own
  -- probe, the dependency is not unavailable, there is room in flight, retries are left, and no
  -- cancellation is requested (IsClear).
  pub evaluate-IsClear_iff :
      (q : EvaluateFailureContainmentRequest)
      → ((evaluate_failure_containment date_parse q).may_proceed_to_other_guards ≡ true) ↔ IsClear q
  evaluate-IsClear_iff q = (
    λ h.
        let (t, e) = clear_instant q h in
        let (off, there, going) = clear_state q h in
        let (room, left) = clear_limits q h in
        record {
          instant = t;
          readable = e;
          switch_off = off;
          circuit_passable = clear_circuit q h;
          dependency_there = there;
          room = room;
          retries_left = left;
          not_cancelled = going;
        },
    IsClear-proceeds q,
  )

  -- A requested cancellation always holds the execution back and bars it from the probe: an execution
  -- that has not gone out is stopped, and one that has is handed over to reconciliation.
  pub evaluate-cancellation :
      (q : EvaluateFailureContainmentRequest)
      → q.snapshot.cancellation_requested ≡ true
      → let result = evaluate_failure_containment date_parse q in
        (result.may_proceed_to_other_guards ≡ false)
        × (result.half_open_probe_eligible ≡ false)
        × (result.requires_reconciliation_handoff ≡ not (before_external q.phase))
        × (result.cancellation_disposition
            ≡ (if before_external q.phase then stop_before_external else reconcile_in_flight))
  unfolding evaluate_failure_containment
  evaluate-cancellation q h = (ground arith, ground arith, ground arith, ground arith)

  -- The request to reserve the probe for the execution that the gate looked at.
  abbrev pub reservation : EvaluateFailureContainmentRequest → ℕ → ℕ → CircuitTransitionRequest
  reservation q threshold recovery = record {
    snapshot = q.snapshot.circuit;
    event = half_open_probe_started;
    observed_at = q.evaluated_at;
    failure_threshold = threshold;
    recovery_after_ms = recovery;
    probe_action_intent_id = some q.action_intent_id;
  }

  abbrev pub with_circuit :
      EvaluateFailureContainmentRequest → CircuitSnapshot → EvaluateFailureContainmentRequest
  with_circuit q c = record q { snapshot = record (q.snapshot) { circuit = c } }

  -- An execution that may reserve the probe is held back until it does; then the circuit, whose
  -- failure threshold is positive, accepts the reservation, and the gate lets the execution through.
  pub eligible_probe_proceeds :
      (q : EvaluateFailureContainmentRequest) (threshold recovery : ℕ)
      → (evaluate_failure_containment date_parse q).half_open_probe_eligible ≡ true
      → 0 < threshold
      → let reserved = transition_circuit date_parse (reservation q threshold recovery) in
        ((evaluate_failure_containment date_parse q).may_proceed_to_other_guards ≡ false)
        × (reserved.accepted ≡ true)
        × ((evaluate_failure_containment date_parse
              (with_circuit q reserved.snapshot)).may_proceed_to_other_guards
            ≡ true)
  unfolding evaluate_failure_containment transition_circuit valid_containment_config
  eligible_probe_proceeds q threshold recovery h pos =
      (ground arith, ground arith, ground (arith, eq_iff q.action_intent_id q.action_intent_id))
