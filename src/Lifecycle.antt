-- ===== src/Lifecycle.antt =====
-- packages/control/src/lifecycle: the record of an objective, a goal or a task, and the
-- transitions of its state (types.ts, state-machine.ts). Identifiers are texts, a revision is a
-- natural number, and an optional field is an `Option`.
pub mod Diagram
pub mod Transition
pub mod History
mod Tests
use aurora_ai_native.Prelude.{
  ℕ, ◌+◌, String, Bool, false, ◌&&◌, not, Option, none, some, List, [], ◌∷◌, ◌++◌, ◌==◌, any,
  Outcome, eqb, if◌then◌else◌, is_none, is_some, or_else, holds, non_empty, returned, threw,
}

pub data LifecycleState : Type 0 where
  draft ready active blocked succeeded failed cancelled superseded : LifecycleState

pub data LifecycleEntityKind : Type 0 where
  objective goal task : LifecycleEntityKind

unfoldable pub LifecycleState-discrete : Discrete LifecycleState
LifecycleState-discrete = hlevel

unfoldable pub LifecycleEntityKind-discrete : Discrete LifecycleEntityKind
LifecycleEntityKind-discrete = hlevel

abbrev pub is_state : LifecycleState → LifecycleState → Bool
is_state s t = holds (LifecycleState-discrete s t)

pub record LifecycleEntityRef : Type 0 where
  pub kind : LifecycleEntityKind
  pub id : String

pub record LifecycleEvidenceRef : Type 0 where
  pub evidence_id : String
  pub source : String
  pub recorded_at : String

pub record CancellationRecord : Type 0 where
  pub reason : String
  pub requested_at : String
  pub correlation_id : String

pub record SupersessionRecord : Type 0 where
  pub successor : LifecycleEntityRef
  pub reason : String
  pub superseded_at : String
  pub correlation_id : String

pub record LifecycleRecord : Type 0 where
  pub entity : LifecycleEntityRef
  pub tenant_id : String
  pub root_correlation_id : String
  pub parent : Option LifecycleEntityRef
  pub state : LifecycleState
  pub revision : ℕ
  pub created_at : String
  pub updated_at : String
  pub cancellation : Option CancellationRecord
  pub supersession : Option SupersessionRecord
  pub evidence : List LifecycleEvidenceRef

pub record CreateLifecycleRecordInput : Type 0 where
  pub entity : LifecycleEntityRef
  pub tenant_id : String
  pub root_correlation_id : String
  pub parent : Option LifecycleEntityRef
  pub created_at : String
  pub evidence : Option (List LifecycleEvidenceRef)

pub record LifecycleTransitionRequest : Type 0 where
  pub tenant_id : String
  pub correlation_id : String
  pub expected_revision : ℕ
  pub to : LifecycleState
  pub at : String
  pub reason : String
  pub evidence : Option LifecycleEvidenceRef
  pub superseded_by : Option LifecycleEntityRef

pub data LifecycleRejectionCode : Type 0 where
  tenant_mismatch revision_conflict terminal_state invalid_transition : LifecycleRejectionCode
  supersession_target_required unexpected_supersession_target : LifecycleRejectionCode
  self_supersession : LifecycleRejectionCode

pub record LifecycleTransitionEvent : Type 0 where
  pub entity : LifecycleEntityRef
  pub tenant_id : String
  pub root_correlation_id : String
  pub transition_correlation_id : String
  pub from : LifecycleState
  pub to : LifecycleState
  pub previous_revision : ℕ
  pub new_revision : ℕ
  pub at : String
  pub reason : String
  pub evidence : Option LifecycleEvidenceRef

pub data LifecycleTransitionResult : Type 0 where
  applied : LifecycleRecord → LifecycleTransitionEvent → LifecycleTransitionResult
  rejected : LifecycleRejectionCode → LifecycleRecord → LifecycleTransitionResult

-- The table ALLOWED_TRANSITIONS.
abbrev pub allowed_transitions : LifecycleState → List LifecycleState
allowed_transitions draft = ready ∷ cancelled ∷ superseded ∷ []
allowed_transitions ready = active ∷ blocked ∷ cancelled ∷ superseded ∷ []
allowed_transitions active = blocked ∷ succeeded ∷ failed ∷ cancelled ∷ superseded ∷ []
allowed_transitions blocked = ready ∷ active ∷ failed ∷ cancelled ∷ superseded ∷ []
allowed_transitions succeeded = []
allowed_transitions failed = []
allowed_transitions cancelled = []
allowed_transitions superseded = []

-- The set TERMINAL_STATES.
abbrev terminal_states : List LifecycleState
terminal_states = succeeded ∷ failed ∷ cancelled ∷ superseded ∷ []

abbrev pub is_terminal_lifecycle_state : LifecycleState → Bool
is_terminal_lifecycle_state s = any (is_state s) terminal_states

abbrev pub same_entity : LifecycleEntityRef → LifecycleEntityRef → Bool
same_entity l r = holds (LifecycleEntityKind-discrete l.kind r.kind) && l.id == r.id

unfoldable pub create_lifecycle_record : CreateLifecycleRecordInput → Outcome LifecycleRecord
create_lifecycle_record input =
    if not (non_empty input.entity.id)
    then threw "entity.id must not be empty"
    else if not (non_empty input.created_at)
    then threw "createdAt must not be empty"
    else returned (record {
      entity = input.entity;
      tenant_id = input.tenant_id;
      root_correlation_id = input.root_correlation_id;
      parent = input.parent;
      state = draft;
      revision = 0;
      created_at = input.created_at;
      updated_at = input.created_at;
      cancellation = none;
      supersession = none;
      evidence = or_else input.evidence [];
    })

-- The fields that a transition adds only in its own case.
abbrev next_cancellation : LifecycleRecord → LifecycleTransitionRequest → Option CancellationRecord
next_cancellation current request =
    if is_state request.to cancelled
    then some (record {
      reason = request.reason;
      requested_at = request.at;
      correlation_id = request.correlation_id;
    })
    else current.cancellation

abbrev supersession_by :
    LifecycleTransitionRequest
    → Option LifecycleEntityRef
    → Option SupersessionRecord
    → Option SupersessionRecord
supersession_by request none kept = kept
supersession_by request (some target) kept = some (record {
  successor = target;
  reason = request.reason;
  superseded_at = request.at;
  correlation_id = request.correlation_id;
})

abbrev next_supersession : LifecycleRecord → LifecycleTransitionRequest → Option SupersessionRecord
next_supersession current request =
    if is_state request.to superseded
    then supersession_by request request.superseded_by current.supersession
    else current.supersession

abbrev next_evidence :
    List LifecycleEvidenceRef → Option LifecycleEvidenceRef → List LifecycleEvidenceRef
next_evidence old none = old
next_evidence old (some e) = old ++ e ∷ []

abbrev same_entity_as : LifecycleEntityRef → Option LifecycleEntityRef → Bool
same_entity_as entity none = false
same_entity_as entity (some target) = same_entity entity target

-- What an accepted request makes of the record, and the event that reports it.
unfoldable pub next_record : LifecycleRecord → LifecycleTransitionRequest → LifecycleRecord
next_record current request = record current {
  state = request.to;
  revision = current.revision + 1;
  updated_at = request.at;
  evidence = next_evidence current.evidence request.evidence;
  cancellation = next_cancellation current request;
  supersession = next_supersession current request;
}

unfoldable pub transition_event :
    LifecycleRecord → LifecycleTransitionRequest → LifecycleTransitionEvent
transition_event current request = record {
  entity = current.entity;
  tenant_id = current.tenant_id;
  root_correlation_id = current.root_correlation_id;
  transition_correlation_id = request.correlation_id;
  from = current.state;
  to = request.to;
  previous_revision = current.revision;
  new_revision = current.revision + 1;
  at = request.at;
  reason = request.reason;
  evidence = request.evidence;
}

unfoldable pub transition_lifecycle :
    LifecycleRecord → LifecycleTransitionRequest → LifecycleTransitionResult
transition_lifecycle current request =
    if not (request.tenant_id == current.tenant_id)
    then rejected tenant_mismatch current
    else if not (eqb request.expected_revision current.revision)
    then rejected revision_conflict current
    else if is_terminal_lifecycle_state current.state
    then rejected terminal_state current
    else if not (any (is_state request.to) (allowed_transitions current.state))
    then rejected invalid_transition current
    else if is_state request.to superseded && is_none request.superseded_by
    then rejected supersession_target_required current
    else if not (is_state request.to superseded) && is_some request.superseded_by
    then rejected unexpected_supersession_target current
    else if is_state request.to superseded && same_entity_as current.entity request.superseded_by
    then rejected self_supersession current
    else applied (next_record current request) (transition_event current request)
