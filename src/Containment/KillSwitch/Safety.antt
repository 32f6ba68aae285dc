-- ===== src/Containment/KillSwitch/Safety.antt =====
-- What the kill switch guarantees.
use aurora_ai_native.Prelude.{
  ℕ, ◌≤◌, ◌<◌, ◌≡◌, ◌≢◌, ◌↔◌, inl, inr, true, false, some, List, [], ◌∷◌, arith, All, Bool-cases,
  DateParse,
}
use aurora_ai_native.Containment.Time.{timestamp_ms}
use aurora_ai_native.Containment.KillSwitch.{
  active, KillSwitchSnapshot, deactivate, validated, KillSwitchTransitionRequest,
  transition_kill_switch, target_state,
}

module _ (date_parse : DateParse) where
  -- A request is accepted exactly when both instants are readable, the request is not older than the
  -- switch, a change of state is strictly newer, and a deactivation has passed the recovery gate.
  pub record IsAcceptable (q : KillSwitchTransitionRequest) : Type 0 where
    pub requested : ℕ
    pub current : ℕ
    pub requested_readable : timestamp_ms date_parse q.changed_at ≡ some requested
    pub current_readable : timestamp_ms date_parse q.snapshot.changed_at ≡ some current
    pub not_older : current ≤ requested
    pub newer_if_changed : q.snapshot.state ≢ target_state q.command → current < requested
    pub recovered : q.command ≡ deactivate → q.recovery_gate ≡ validated

  accepted-IsAcceptable :
      (q : KillSwitchTransitionRequest) (r c : ℕ)
      → timestamp_ms date_parse q.changed_at ≡ some r
      → timestamp_ms date_parse q.snapshot.changed_at ≡ some c
      → (transition_kill_switch date_parse q).accepted ≡ true
      → (c ≤ r)
        × (q.snapshot.state ≢ target_state q.command → c < r)
        × (q.command ≡ deactivate → q.recovery_gate ≡ validated)
  unfolding transition_kill_switch
  accepted-IsAcceptable q r c e f h = (ground arith, ground arith, ground arith)

  accepted_readable :
      (q : KillSwitchTransitionRequest)
      → (transition_kill_switch date_parse q).accepted ≡ true
      → (r : ℕ) × (timestamp_ms date_parse q.changed_at ≡ some r)
        × ((c : ℕ) × (timestamp_ms date_parse q.snapshot.changed_at ≡ some c))
  unfolding transition_kill_switch
  accepted_readable q h = ground arith

  IsAcceptable-accepted :
      (q : KillSwitchTransitionRequest)
      → IsAcceptable q
      → (transition_kill_switch date_parse q).accepted ≡ true
  unfolding transition_kill_switch
  IsAcceptable-accepted q a = ground arith

  -- A request is accepted exactly when both instants are readable, it is not older than the switch, a
  -- change of state is strictly newer, and a deactivation has passed the recovery gate (IsAcceptable).
  pub transition_kill_switch-accepted_iff :
      (q : KillSwitchTransitionRequest)
      → ((transition_kill_switch date_parse q).accepted ≡ true) ↔ IsAcceptable q
  transition_kill_switch-accepted_iff q = (
    λ h.
        let (r, e, (c, f)) = accepted_readable q h in
        let (a, b, d) = accepted-IsAcceptable q r c e f h in
        record {
          requested = r;
          current = c;
          requested_readable = e;
          current_readable = f;
          not_older = a;
          newer_if_changed = b;
          recovered = d;
        },
    IsAcceptable-accepted q,
  )

  abbrev pub switch_request :
      KillSwitchSnapshot → KillSwitchTransitionRequest → KillSwitchTransitionRequest
  switch_request s q = record q { snapshot = s }

  -- Requests one after the other, each made of the snapshot that the last one left.
  unfoldable pub run_switch :
      KillSwitchSnapshot → List KillSwitchTransitionRequest → KillSwitchSnapshot
  run_switch s [] = s
  run_switch s (q ∷ qs) =
      run_switch (transition_kill_switch date_parse (switch_request s q)).snapshot qs

  step_stays_active :
      (s : KillSwitchSnapshot) (q : KillSwitchTransitionRequest)
      → s.state ≡ active
      → (q.command ≡ deactivate → q.recovery_gate ≢ validated)
      → (transition_kill_switch date_parse (switch_request s q)).snapshot.state ≡ active
  unfolding transition_kill_switch
  step_stays_active s q h g = ground arith

  -- An active kill switch stays active under every sequence of requests none of which is a
  -- deactivation with a validated recovery gate.
  pub run_switch_stays_active :
      (s : KillSwitchSnapshot) (qs : List KillSwitchTransitionRequest)
      → s.state ≡ active
      → All (λ q. q.command ≡ deactivate → q.recovery_gate ≢ validated) qs
      → (run_switch s qs).state ≡ active
  unfolding run_switch
  run_switch_stays_active s [] h gs = h
  run_switch_stays_active s (q ∷ qs) h gs =
      run_switch_stays_active (transition_kill_switch date_parse (switch_request s q)).snapshot qs
        (step_stays_active s q h gs.0) gs.1

  step_changed_at :
      (q : KillSwitchTransitionRequest)
      → ((transition_kill_switch date_parse q).accepted ≡ true
          → (transition_kill_switch date_parse q).snapshot.changed_at ≡ q.changed_at)
        × ((transition_kill_switch date_parse q).accepted ≡ false
            → (transition_kill_switch date_parse q).snapshot ≡ q.snapshot)
  unfolding transition_kill_switch
  step_changed_at q = (λ h. ground arith, λ h. ground arith)

  step_time :
      (s : KillSwitchSnapshot) (q : KillSwitchTransitionRequest) (t : ℕ)
      → timestamp_ms date_parse s.changed_at ≡ some t
      → (u : ℕ) × (timestamp_ms date_parse
            (transition_kill_switch date_parse (switch_request s q)).snapshot.changed_at
          ≡ some u)
        × (t ≤ u)
  step_time s q t e =
      elim (Bool-cases (transition_kill_switch date_parse (switch_request s q)).accepted) [
        | inl h ↦
            let (r, f, (c, g)) = accepted_readable (switch_request s q) h in
            let (a, b, d) = accepted-IsAcceptable (switch_request s q) r c f g h in
            (r, rw ((step_changed_at (switch_request s q)).0 h) f, ground arith)
        | inr h ↦ (t, rw ((step_changed_at (switch_request s q)).1 h) e, omega arith)
      ]

  -- The instant of the last change stays readable and never goes back.
  pub run_switch_monotone :
      (s : KillSwitchSnapshot) (qs : List KillSwitchTransitionRequest) (t : ℕ)
      → timestamp_ms date_parse s.changed_at ≡ some t
      → (u : ℕ) × (timestamp_ms date_parse (run_switch s qs).changed_at ≡ some u) × (t ≤ u)
  unfolding run_switch
  run_switch_monotone s [] t e = (t, e, omega arith)
  run_switch_monotone s (q ∷ qs) t e =
      let (u, f, le) = step_time s q t e in
      let (v, g, le') =
        run_switch_monotone (transition_kill_switch date_parse (switch_request s q)).snapshot qs u
          f in
      (v, g, omega arith)
