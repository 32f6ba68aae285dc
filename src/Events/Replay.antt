-- ===== src/Events/Replay.antt =====
-- packages/events/src/replay: which events a replay accepts (types.ts, replay-coordinator.ts). A call
-- that throws has changed nothing. `executionAuthorized` is the constant false of its type and is kept.
pub mod Order
pub mod Quarantine
use Prim.Native.String
use aurora_ai_native.Prelude.{
  ℕ, ◌+◌, String, Bool, true, false, not, Option, none, some, List, [], ◌∷◌, Dict, contains, lookup,
  insert, erase, Outcome, leb, eqb, if◌then◌else◌, is_none, or_else, non_empty, returned, threw,
}
use aurora_ai_native.Events.Envelope.{EventEnvelope}

pub data ReplaySafety : Type 0 where
  read_only idempotent_internal external_side_effect : ReplaySafety

pub record OrderingRequirement : Type 0 where
  pub stream_key : String
  pub sequence : ℕ

pub record ReplayInput : Type 0 where
  pub envelope : EventEnvelope
  pub safety : ReplaySafety
  pub ordering : Option OrderingRequirement

pub data DeadLetterReason : Type 0 where
  sequence_gap stale_or_out_of_order fresh_authority_required : DeadLetterReason

pub record DeadLetterRecord : Type 0 where
  pub dead_letter_id : String
  pub envelope : EventEnvelope
  pub reason : DeadLetterReason
  pub ordering : Option OrderingRequirement
  pub safety : ReplaySafety
  pub first_quarantined_at : String
  pub last_quarantined_at : String
  pub attempts : ℕ
  pub execution_authorized : Bool

pub data ReplayDecision : Type 0 where
  accepted : String → Option ℕ → ReplayDecision
  duplicate : String → Option ℕ → ReplayDecision
  quarantined : String → DeadLetterRecord → ReplayDecision

pub record ReplayRelease : Type 0 where
  pub envelope : EventEnvelope
  pub reason : DeadLetterReason
  pub ordering : Option OrderingRequirement
  pub safety : ReplaySafety
  pub execution_authorized : Bool
  pub requires_fresh_authority_validation : Bool

pub record ReplayCoordinator : Type 0 where
  pub seen_event_ids : List String
  pub checkpoints : Dict ℕ
  pub dead_letters : Dict DeadLetterRecord

abbrev pub new_coordinator : ReplayCoordinator
new_coordinator = record { seen_event_ids = []; checkpoints = []; dead_letters = [] }

abbrev pub letter_reason_text : DeadLetterReason → String
letter_reason_text sequence_gap = "SEQUENCE_GAP"
letter_reason_text stale_or_out_of_order = "STALE_OR_OUT_OF_ORDER"
letter_reason_text fresh_authority_required = "FRESH_AUTHORITY_REQUIRED"

abbrev pub is_external : ReplaySafety → Bool
is_external external_side_effect = true
is_external _ = false

abbrev pub is_fresh_authority : DeadLetterReason → Bool
is_fresh_authority fresh_authority_required = true
is_fresh_authority _ = false

unfoldable pub dead_letter_id_of : ReplayInput → DeadLetterReason → String
dead_letter_id_of input reason =
    String.◌++◌ input.envelope.event_id (String.◌++◌ ":" (letter_reason_text reason))

abbrev pub fresh_letter : ReplayInput → String → DeadLetterReason → DeadLetterRecord
fresh_letter input observed_at reason = record {
  dead_letter_id = dead_letter_id_of input reason;
  envelope = input.envelope;
  reason = reason;
  ordering = input.ordering;
  safety = input.safety;
  first_quarantined_at = observed_at;
  last_quarantined_at = observed_at;
  attempts = 1;
  execution_authorized = false;
}

abbrev pub letter_after :
    ReplayInput → String → DeadLetterReason → Option DeadLetterRecord → DeadLetterRecord
letter_after input observed_at reason none = fresh_letter input observed_at reason
letter_after input observed_at reason (some existing) = record existing {
  last_quarantined_at = observed_at;
  attempts = existing.attempts + 1;
}

unfoldable pub quarantine :
    ReplayCoordinator → ReplayInput → String → DeadLetterReason → ReplayDecision × ReplayCoordinator
quarantine c input observed_at reason =
    let id = dead_letter_id_of input reason in
    let letter = letter_after input observed_at reason (lookup id c.dead_letters) in
    (
      quarantined input.envelope.event_id letter,
      record c { dead_letters = insert id letter c.dead_letters },
    )

abbrev pub current_checkpoint : ReplayCoordinator → String → ℕ
current_checkpoint c stream = or_else (lookup stream c.checkpoints) 0

-- The part of `process` behind the check of the ordering, without one and with one.
unfoldable pub accept_unordered :
    ReplayCoordinator → ReplayInput → String → ReplayDecision × ReplayCoordinator
unfolding quarantine
accept_unordered c input observed_at =
    if is_external input.safety then quarantine c input observed_at fresh_authority_required else (
      accepted input.envelope.event_id none,
      record c { seen_event_ids = input.envelope.event_id ∷ c.seen_event_ids },
    )

unfoldable pub accept_ordered :
    ReplayCoordinator
    → ReplayInput
    → OrderingRequirement
    → String
    → ReplayDecision × ReplayCoordinator
unfolding quarantine
accept_ordered c input o observed_at =
    if is_external input.safety
    then quarantine c input observed_at fresh_authority_required
    else if leb o.sequence (current_checkpoint c o.stream_key)
    then quarantine c input observed_at stale_or_out_of_order
    else if not (eqb o.sequence (current_checkpoint c o.stream_key + 1))
    then quarantine c input observed_at sequence_gap
    else (
      accepted input.envelope.event_id (some o.sequence),
      record c {
        seen_event_ids = input.envelope.event_id ∷ c.seen_event_ids;
        checkpoints = insert o.stream_key o.sequence c.checkpoints;
      },
    )

abbrev pub process_new :
    ReplayCoordinator
    → ReplayInput
    → Option OrderingRequirement
    → String
    → Outcome (ReplayDecision × ReplayCoordinator)
process_new c input none observed_at = returned (accept_unordered c input observed_at)
process_new c input (some o) observed_at =
    if not (non_empty o.stream_key)
    then threw "streamKey must not be empty"
    else if not (leb 1 o.sequence)
    then threw "sequence must be a positive integer"
    else returned (accept_ordered c input o observed_at)

abbrev pub known_checkpoint : ReplayCoordinator → Option OrderingRequirement → Option ℕ
known_checkpoint c none = none
known_checkpoint c (some o) = lookup o.stream_key c.checkpoints

unfoldable pub process :
    ReplayCoordinator → ReplayInput → String → Outcome (ReplayDecision × ReplayCoordinator)
unfolding accept_ordered accept_unordered
process c input observed_at =
    if not (non_empty input.envelope.event_id)
    then threw "eventId must not be empty"
    else if contains c.seen_event_ids input.envelope.event_id
    then returned (duplicate input.envelope.event_id (known_checkpoint c input.ordering), c)
    else process_new c input input.ordering observed_at

unfoldable pub checkpoint : ReplayCoordinator → String → Outcome ℕ
checkpoint c stream =
    if not (non_empty stream)
    then threw "streamKey must not be empty"
    else returned (current_checkpoint c stream)

abbrev unknown_letter : String → String
unknown_letter id = String.◌++◌ "unknown dead letter: " id

abbrev pub release_of : String → Option DeadLetterRecord → Outcome ReplayRelease
release_of id none = threw (unknown_letter id)
release_of id (some letter) = returned (record {
  envelope = letter.envelope;
  reason = letter.reason;
  ordering = letter.ordering;
  safety = letter.safety;
  execution_authorized = false;
  requires_fresh_authority_validation = is_fresh_authority letter.reason;
})

unfoldable pub release_for_reconciliation : ReplayCoordinator → String → Outcome ReplayRelease
release_for_reconciliation c id = release_of id (lookup id c.dead_letters)

unfoldable pub resolve : ReplayCoordinator → String → Outcome ReplayCoordinator
resolve c id =
    if is_none (lookup id c.dead_letters)
    then threw (unknown_letter id)
    else returned (record c { dead_letters = erase id c.dead_letters })
