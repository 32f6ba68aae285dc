-- ===== src/Containment/Circuit/Threshold.antt =====
-- When a closed circuit opens.
use aurora_ai_native.Prelude.{
  ℕ, ◌+◌, ◌<◌, ◌≡◌, ap, ◌∙◌, some, List, [], ◌∷◌, ◌++◌, arith, length, All, DateParse,
}
use aurora_ai_native.Containment.Time.{timestamp_ms}
use aurora_ai_native.Containment.Circuit.{
  failure, CircuitTransitionRequest, transition_circuit, closed_with, opened_with,
}
use aurora_ai_native.Containment.Circuit.Fencing.{request_of, run_circuit}

module _ (date_parse : DateParse) (threshold : ℕ) where
  -- A failure that is reported at a readable instant, under the given threshold.
  pub record IsFailure (q : CircuitTransitionRequest) : Type 0 where
    pub fails : q.event ≡ failure
    pub under : q.failure_threshold ≡ threshold
    pub instant : ℕ
    pub readable : timestamp_ms date_parse q.observed_at ≡ some instant

  failure_below :
      (k : ℕ) (q : CircuitTransitionRequest)
      → IsFailure q
      → k + 1 < threshold
      → (transition_circuit date_parse (request_of date_parse (closed_with k) q)).snapshot
        ≡ closed_with (k + 1)
  unfolding transition_circuit
  failure_below k q f h = ground arith

  failure_last :
      (k : ℕ) (q : CircuitTransitionRequest)
      → IsFailure q
      → k + 1 ≡ threshold
      → (transition_circuit date_parse (request_of date_parse (closed_with k) q)).snapshot
        ≡ opened_with threshold q.observed_at
  unfolding transition_circuit
  failure_last k q f h = ground arith

  -- Fewer failures in a row than the threshold only count up.
  pub run_circuit_below :
      (k : ℕ) (qs : List CircuitTransitionRequest)
      → All IsFailure qs
      → k + length qs < threshold
      → run_circuit date_parse (closed_with k) qs ≡ closed_with (k + length qs)
  unfolding run_circuit
  run_circuit_below k [] fs h = ap closed_with (omega arith)
  run_circuit_below k (q ∷ qs) fs h =
      rw (failure_below k q fs.0 (omega arith))
        (run_circuit_below (k + 1) qs fs.1 (omega arith) ∙ ap closed_with (omega arith))

  trips :
      (k : ℕ) (qs : List CircuitTransitionRequest) (last : CircuitTransitionRequest)
      → All IsFailure qs
      → IsFailure last
      → k + length qs + 1 ≡ threshold
      → run_circuit date_parse (closed_with k) (qs ++ last ∷ [])
        ≡ opened_with threshold last.observed_at
  unfolding run_circuit
  trips k [] last fs f h = failure_last k last f (omega arith)
  trips k (q ∷ qs) last fs f h =
      ap (λ s. run_circuit date_parse s (qs ++ last ∷ [])) (failure_below k q fs.0 (omega arith))
      ∙ trips (k + 1) qs last fs.1 f (omega arith)

  -- A closed circuit opens at the failure that makes the threshold full, and no failure in a row
  -- before that one opens it.
  pub run_circuit_trips :
      (k : ℕ) (qs : List CircuitTransitionRequest) (last : CircuitTransitionRequest)
      → All IsFailure qs
      → IsFailure last
      → k + length qs + 1 ≡ threshold
      → (run_circuit date_parse (closed_with k) qs ≡ closed_with (k + length qs))
        × (run_circuit date_parse (closed_with k) (qs ++ last ∷ [])
            ≡ opened_with threshold last.observed_at)
  run_circuit_trips k qs last fs f h =
      (run_circuit_below k qs fs (omega arith), trips k qs last fs f h)
