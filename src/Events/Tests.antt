-- ===== src/Events/Tests.antt =====
-- Small replays, and the theorems at them.
use aurora_ai_native.Prelude.{
  ℕ, ◌+◌, ◌≤◌, String, ◌≡◌, refl, ◌≢◌, ◌↔◌, Bool, true, false, none, some, List, [], ◌∷◌, map, All,
  lookup, insert, erase, non_empty, returned,
}
use aurora_ai_native.Events.Envelope.{EventEnvelope}
use aurora_ai_native.Events.Replay.{
  ReplaySafety, read_only, idempotent_internal, external_side_effect, ReplayInput, DeadLetterReason,
  sequence_gap, DeadLetterRecord, quarantined, ReplayCoordinator, new_coordinator,
  dead_letter_id_of, quarantine, current_checkpoint, accept_unordered, accept_ordered, process,
  checkpoint, release_for_reconciliation,
}
use aurora_ai_native.Events.Replay.Order.{
  replay, accepted_inputs, sequences, next_numbers, with_id, replay_gapless, replay_once,
}
use aurora_ai_native.Events.Replay.Quarantine.{IsReasonFor, release-process}

abbrev event : String → EventEnvelope
event id = record {
  schema_version = "1.0.0";
  event_id = id;
  event_type = "aurora.task.done";
  occurred_at = "noon";
  correlation_id = "c1";
  tenant_id = "t1";
  subject = none;
  data_classification = none;
  labels = none;
}

abbrev numbered : String → ReplaySafety → ℕ → ReplayInput × String
numbered id safety n = (
  record {
    envelope = event id;
    safety = safety;
    ordering = some (record { stream_key = "s"; sequence = n });
  },
  "noon",
)

abbrev calls : List (ReplayInput × String)
calls =
    numbered "a" read_only 1
    ∷ numbered "b" read_only 3
    ∷ numbered "a" read_only 2
    ∷ numbered "c" idempotent_internal 2
    ∷ numbered "d" external_side_effect 3
    ∷ numbered "" read_only 3
    ∷ []

program : Unit {0}
unfolding process accept_ordered accept_unordered quarantine lookup insert erase dead_letter_id_of
    non_empty release_for_reconciliation checkpoint
program = tt

replayed :
    map (λ (input : ReplayInput). input.envelope.event_id) (accepted_inputs new_coordinator calls)
    ≡ "a" ∷ "c" ∷ []
unfolding program
replayed = refl

replayed_letters :
    map (λ e. e.0) (replay new_coordinator calls).dead_letters
    ≡ "b:SEQUENCE_GAP" ∷ "d:FRESH_AUTHORITY_REQUIRED" ∷ []
unfolding program
replayed_letters = refl

abbrev gap : ReplayInput
gap = (numbered "b" read_only 3).0

abbrev gap_letter : DeadLetterRecord
gap_letter = record {
  dead_letter_id = "b:SEQUENCE_GAP";
  envelope = event "b";
  reason = sequence_gap;
  ordering = gap.ordering;
  safety = read_only;
  first_quarantined_at = "noon";
  last_quarantined_at = "noon";
  attempts = 1;
  execution_authorized = false;
}

abbrev with_gap : ReplayCoordinator
with_gap = record new_coordinator { dead_letters = ("b:SEQUENCE_GAP", gap_letter) ∷ [] }

gap_quarantined :
    process new_coordinator gap "noon" ≡ returned (quarantined "b" gap_letter, with_gap)
unfolding program
gap_quarantined = refl

never :
    (reason : DeadLetterReason)
    → lookup (dead_letter_id_of gap reason) new_coordinator.dead_letters ≡ none
unfolding lookup
never reason = refl

replay_gapless_example :
    (n : ℕ) × (sequences "s" (accepted_inputs new_coordinator calls)
      ≡ next_numbers (current_checkpoint new_coordinator "s") n)
    × (current_checkpoint (replay new_coordinator calls) "s"
        ≡ current_checkpoint new_coordinator "s" + n)
replay_gapless_example = replay_gapless "s" new_coordinator calls

replay_once_example :
    (with_id "a" (accepted_inputs new_coordinator calls) ≤ 1)
    × All (λ input. input.safety ≢ external_side_effect) (accepted_inputs new_coordinator calls)
replay_once_example = replay_once "a" new_coordinator calls

release-process_example :
    (needs_fresh : Bool) × (release_for_reconciliation with_gap "b:SEQUENCE_GAP"
      ≡ returned (record {
        envelope = event "b";
        reason = sequence_gap;
        ordering = gap.ordering;
        safety = read_only;
        execution_authorized = false;
        requires_fresh_authority_validation = needs_fresh;
      }))
    × ((needs_fresh ≡ true) ↔ (◌≡◌ {A = ReplaySafety} read_only external_side_effect))
    × IsReasonFor new_coordinator gap sequence_gap
    × (with_gap.seen_event_ids ≡ [])
    × (with_gap.checkpoints ≡ [])
release-process_example =
    release-process new_coordinator with_gap gap "noon" "b" gap_letter never gap_quarantined
