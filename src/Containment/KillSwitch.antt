-- ===== src/Containment/KillSwitch.antt =====
-- The kill switch: transitionKillSwitch of
-- services/executors/src/failure-containment/failure-containment.ts, and its types in types.ts.
pub mod Safety
use aurora_ai_native.Prelude.{
  ℕ, String, Bool, true, false, ◌&&◌, not, Option, none, some, List, [], ◌∷◌, ltb, eqb,
  if◌then◌else◌, DateParse,
}
use aurora_ai_native.Containment.Time.{timestamp_ms}

pub data KillSwitchState : Type 0 where
  inactive active : KillSwitchState

pub record KillSwitchSnapshot : Type 0 where
  pub state : KillSwitchState
  pub changed_at : String

pub data KillSwitchCommand : Type 0 where
  activate deactivate : KillSwitchCommand

pub data RecoveryGate : Type 0 where
  not_required validated not_validated : RecoveryGate

pub record KillSwitchTransitionRequest : Type 0 where
  pub snapshot : KillSwitchSnapshot
  pub command : KillSwitchCommand
  pub changed_at : String
  pub recovery_gate : RecoveryGate

pub data KillSwitchTransitionReason : Type 0 where
  invalid_time stale_kill_switch_transition kill_switch_time_conflict : KillSwitchTransitionReason
  kill_switch_recovery_not_validated : KillSwitchTransitionReason

pub record KillSwitchTransitionResult : Type 0 where
  pub accepted : Bool
  pub snapshot : KillSwitchSnapshot
  pub reasons : List KillSwitchTransitionReason

-- Every caller gives one reason, of which `uniqueSorted` makes the list of that reason.
abbrev invalid_kill_switch_transition :
    KillSwitchTransitionRequest → KillSwitchTransitionReason → KillSwitchTransitionResult
invalid_kill_switch_transition request reason = record {
  accepted = false;
  snapshot = request.snapshot;
  reasons = reason ∷ [];
}

abbrev pub target_state : KillSwitchCommand → KillSwitchState
target_state activate = active
target_state deactivate = inactive

abbrev pub same_switch : KillSwitchState → KillSwitchState → Bool
same_switch inactive inactive = true
same_switch active active = true
same_switch _ _ = false

abbrev pub is_validated : RecoveryGate → Bool
is_validated validated = true
is_validated _ = false

abbrev pub is_deactivate : KillSwitchCommand → Bool
is_deactivate deactivate = true
is_deactivate activate = false

abbrev between : KillSwitchTransitionRequest → Option ℕ → Option ℕ → KillSwitchTransitionResult
between request (some requested_at) (some current_at) =
    if ltb requested_at current_at
    then invalid_kill_switch_transition request stale_kill_switch_transition
    else if eqb requested_at current_at
        && not (same_switch (target_state request.command) request.snapshot.state)
    then invalid_kill_switch_transition request kill_switch_time_conflict
    else if is_deactivate request.command && not (is_validated request.recovery_gate)
    then invalid_kill_switch_transition request kill_switch_recovery_not_validated
    else record {
      accepted = true;
      snapshot = record { state = target_state request.command; changed_at = request.changed_at };
      reasons = [];
    }
between request none current_at = invalid_kill_switch_transition request invalid_time
between request (some requested_at) none = invalid_kill_switch_transition request invalid_time

unfoldable pub transition_kill_switch :
    DateParse → KillSwitchTransitionRequest → KillSwitchTransitionResult
transition_kill_switch date_parse request =
    between request (timestamp_ms date_parse request.changed_at)
      (timestamp_ms date_parse request.snapshot.changed_at)
