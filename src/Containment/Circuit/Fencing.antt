-- ===== src/Containment/Circuit/Fencing.antt =====
-- The circuit breaker against the moves that it is meant to make.
use mathlib.Core.Path.{subst}
use aurora_ai_native.Prelude.{
  ℕ, ◌+◌, ◌≤◌, ◌<◌, String, ◌≡◌, refl, sym, ◌≢◌, ◌↔◌, inl, inr, true, false, some, List, [], ◌∷◌,
  arith, eq_iff, length, All, Bool-cases, DateParse,
}
use aurora_ai_native.Containment.Time.{timestamp_ms}
use aurora_ai_native.Containment.Circuit.{
  probe_consistent, closed, open_circuit, half_open, CircuitSnapshot, success, failure,
  recovery_window_elapsed, half_open_probe_started, CircuitTransitionRequest, instant_of,
  valid_circuit_config, transition_circuit, closed_with, opened_with, half_open_with,
}

module _ (date_parse : DateParse) where
  -- The moves of a request that is made at the instant `t`, with the snapshot that each leads to.
  pub data Moves (q : CircuitTransitionRequest) (t : ℕ) : CircuitSnapshot → Type 0 where
    reset : q.snapshot.state ≡ closed → q.event ≡ success → Moves q t (closed_with 0)
    count :
        q.snapshot.state ≡ closed
        → q.event ≡ failure
        → q.snapshot.consecutive_failures + 1 < q.failure_threshold
        → Moves q t (closed_with (q.snapshot.consecutive_failures + 1))
    trip :
        q.snapshot.state ≡ closed
        → q.event ≡ failure
        → q.failure_threshold ≤ q.snapshot.consecutive_failures + 1
        → Moves q t (opened_with (q.snapshot.consecutive_failures + 1) q.observed_at)
    recover :
        (opened : ℕ)
        → q.snapshot.state ≡ open_circuit
        → q.event ≡ recovery_window_elapsed
        → instant_of date_parse q.snapshot.opened_at ≡ some opened
        → opened + q.recovery_after_ms ≤ t
        → Moves q t (half_open_with q.snapshot.consecutive_failures)
    reserve :
        (owner : String)
        → q.snapshot.state ≡ half_open
        → q.event ≡ half_open_probe_started
        → q.snapshot.half_open_probe_in_flight ≡ false
        → q.probe_action_intent_id ≡ some owner
        → Moves q t (record (q.snapshot) {
          half_open_probe_in_flight = true;
          half_open_probe_action_intent_id = some owner;
        })
    heal :
        (owner : String)
        → q.snapshot.state ≡ half_open
        → q.event ≡ success
        → q.snapshot.half_open_probe_in_flight ≡ true
        → q.snapshot.half_open_probe_action_intent_id ≡ some owner
        → q.probe_action_intent_id ≡ some owner
        → Moves q t (closed_with 0)
    relapse :
        (owner : String)
        → q.snapshot.state ≡ half_open
        → q.event ≡ failure
        → q.snapshot.half_open_probe_in_flight ≡ true
        → q.snapshot.half_open_probe_action_intent_id ≡ some owner
        → q.probe_action_intent_id ≡ some owner
        → Moves q t (opened_with (q.snapshot.consecutive_failures + 1) q.observed_at)

  module _ (q : CircuitTransitionRequest) where
    accepted-time :
        (transition_circuit date_parse q).accepted ≡ true
        → (t : ℕ) × (timestamp_ms date_parse q.observed_at ≡ some t)
          × (valid_circuit_config q ≡ true)
    unfolding transition_circuit
    accepted-time h = ground arith

    accepted-Moves :
        {t : ℕ}
        → timestamp_ms date_parse q.observed_at ≡ some t
        → (transition_circuit date_parse q).accepted ≡ true
        → Moves q t (transition_circuit date_parse q).snapshot
    unfolding transition_circuit
    accepted-Moves e h = grind (arith, eq_iff, reset, count, trip, recover, reserve, heal, relapse)

    Moves-accepted :
        {t : ℕ} {s : CircuitSnapshot}
        → timestamp_ms date_parse q.observed_at ≡ some t
        → valid_circuit_config q ≡ true
        → Moves q t s
        → ((transition_circuit date_parse q).accepted ≡ true)
          × ((transition_circuit date_parse q).snapshot ≡ s)
    unfolding transition_circuit
    Moves-accepted e v (reset a b) = ground arith
    Moves-accepted e v (count a b c) = ground arith
    Moves-accepted e v (trip a b c) = ground arith
    Moves-accepted e v (recover o a b c d) = ground arith
    Moves-accepted e v (reserve o a b c d) = ground arith
    Moves-accepted e v (heal o a b c d f) = ground (arith, eq_iff o o)
    Moves-accepted e v (relapse o a b c d f) = ground (arith, eq_iff o o)

  -- At a readable instant and with a valid configuration, a request is accepted exactly with the
  -- snapshots that its moves lead to.
  pub transition_circuit-Moves_iff :
      (q : CircuitTransitionRequest) (t : ℕ) (s : CircuitSnapshot)
      → timestamp_ms date_parse q.observed_at ≡ some t
      → valid_circuit_config q ≡ true
      → (((transition_circuit date_parse q).accepted ≡ true)
          × ((transition_circuit date_parse q).snapshot ≡ s))
        ↔ Moves q t s
  transition_circuit-Moves_iff q t s e v =
      (λ h. subst (Moves q t) h.1 (accepted-Moves q e h.0), Moves-accepted q e v)

  -- A request that is not accepted changes nothing and gives one reason; one that is accepted gives
  -- none.
  pub transition_circuit-refused :
      (q : CircuitTransitionRequest)
      → ((transition_circuit date_parse q).accepted ≡ false
          → ((transition_circuit date_parse q).snapshot ≡ q.snapshot)
            × (length (transition_circuit date_parse q).reasons ≡ 1))
        × ((transition_circuit date_parse q).accepted ≡ true
            → (transition_circuit date_parse q).reasons ≡ [])
  unfolding transition_circuit
  transition_circuit-refused q = (λ h. ground arith, λ h. ground arith)

  -- Between two requests a probe has an owner exactly while it is reserved, which it is only in a
  -- half-open circuit, and an open circuit has a readable instant of opening.
  pub record IsSound (s : CircuitSnapshot) : Type 0 where
    pub probe_owned : probe_consistent s ≡ true
    pub opening_known :
        s.state ≡ open_circuit → (t : ℕ) × (instant_of date_parse s.opened_at ≡ some t)

  Moves-IsSound :
      {q : CircuitTransitionRequest} {t : ℕ} {s : CircuitSnapshot}
      → timestamp_ms date_parse q.observed_at ≡ some t
      → Moves q t s
      → IsSound s
  Moves-IsSound e (reset a b) = ground arith
  Moves-IsSound e (count a b c) = ground arith
  Moves-IsSound {t} e (trip a b c) = record { probe_owned = refl; opening_known = λ h. (t, e) }
  Moves-IsSound e (recover o a b c d) = ground arith
  Moves-IsSound e (reserve o a b c d) = ground arith
  Moves-IsSound e (heal o a b c d f) = ground arith
  Moves-IsSound {t} e (relapse o a b c d f) = record {
    probe_owned = refl;
    opening_known = λ h. (t, e);
  }

  -- Every request, accepted or not, keeps a circuit sound: a probe has an owner exactly while it is
  -- reserved, which it is only in a half-open circuit, and an open circuit has a readable instant of
  -- opening.
  pub transition_circuit-IsSound :
      (q : CircuitTransitionRequest)
      → IsSound q.snapshot
      → IsSound (transition_circuit date_parse q).snapshot
  transition_circuit-IsSound q sound =
      elim (Bool-cases (transition_circuit date_parse q).accepted) [
        | inl h ↦ let (t, e, v) = accepted-time q h in Moves-IsSound e (accepted-Moves q e h)
        | inr h ↦ subst IsSound (sym ((transition_circuit-refused q).0 h).0) sound
      ]

  -- The request `q` made of the snapshot `s`, and requests one after the other.
  abbrev pub request_of : CircuitSnapshot → CircuitTransitionRequest → CircuitTransitionRequest
  request_of s q = record q { snapshot = s }

  unfoldable pub run_circuit : CircuitSnapshot → List CircuitTransitionRequest → CircuitSnapshot
  run_circuit s [] = s
  run_circuit s (q ∷ qs) = run_circuit (transition_circuit date_parse (request_of s q)).snapshot qs

  Moves-owner :
      {q : CircuitTransitionRequest} {t : ℕ} {s : CircuitSnapshot} {owner : String}
      → q.snapshot.state ≡ half_open
      → q.snapshot.half_open_probe_in_flight ≡ true
      → q.snapshot.half_open_probe_action_intent_id ≡ some owner
      → Moves q t s
      → q.probe_action_intent_id ≡ some owner
  Moves-owner h p o (reset a b) = cc
  Moves-owner h p o (count a b c) = cc
  Moves-owner h p o (trip a b c) = cc
  Moves-owner h p o (recover x a b c d) = cc
  Moves-owner h p o (reserve x a b c d) = cc
  Moves-owner h p o (heal x a b c d f) = cc
  Moves-owner h p o (relapse x a b c d f) = cc

  stranger_refused :
      (s : CircuitSnapshot) (q : CircuitTransitionRequest) (owner : String)
      → s.state ≡ half_open
      → s.half_open_probe_in_flight ≡ true
      → s.half_open_probe_action_intent_id ≡ some owner
      → q.probe_action_intent_id ≢ some owner
      → (transition_circuit date_parse (request_of s q)).snapshot ≡ s
  stranger_refused s q owner h p o stranger =
      elim (Bool-cases (transition_circuit date_parse (request_of s q)).accepted) [
        | inl yes_accepted ↦
            let (t, e, v) = accepted-time (request_of s q) yes_accepted in
            absurd (stranger (Moves-owner h p o (accepted-Moves (request_of s q) e yes_accepted)))
        | inr refused ↦ ((transition_circuit-refused (request_of s q)).0 refused).0
      ]

  -- While a probe is reserved, requests that do not name its owner leave the circuit as it is,
  -- however many they are.
  pub run_circuit_fenced :
      (s : CircuitSnapshot) (owner : String) (qs : List CircuitTransitionRequest)
      → s.state ≡ half_open
      → s.half_open_probe_in_flight ≡ true
      → s.half_open_probe_action_intent_id ≡ some owner
      → All (λ q. q.probe_action_intent_id ≢ some owner) qs
      → run_circuit s qs ≡ s
  unfolding run_circuit
  run_circuit_fenced s owner [] h p o strangers = refl
  run_circuit_fenced s owner (q ∷ qs) h p o strangers =
      rw (stranger_refused s q owner h p o strangers.0)
        (run_circuit_fenced s owner qs h p o strangers.1)
