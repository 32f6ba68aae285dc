-- ===== src/Lifecycle/Transition.antt =====
-- transitionLifecycle (packages/control/src/lifecycle/state-machine.ts) against the diagram.
use mathlib.Core.Path.{subst}
use aurora_ai_native.Prelude.{
  ◌≡◌, sym, ◌≢◌, ◌↔◌, ◌⊎◌, inl, inr, true, none, some, arith, eq_iff, Option-cases,
}
use aurora_ai_native.Lifecycle.{
  cancelled, superseded, LifecycleEntityRef, LifecycleRecord, LifecycleTransitionRequest,
  LifecycleTransitionEvent, applied, rejected, LifecycleRejectionCode, same_entity, next_record,
  transition_event, transition_lifecycle,
}
use aurora_ai_native.Lifecycle.Diagram.{◌⟶◌, IsLive, cancel, allowed-⟶, ⟶-allowed}

-- The successor that a request names fits its target state: none, unless the record is superseded,
-- and then one other than the record's own entity.
abbrev pub NamesSuccessor : LifecycleRecord → LifecycleTransitionRequest → Type 0
NamesSuccessor r q =
    (q.to ≡ superseded) × ((e : LifecycleEntityRef) × (q.superseded_by ≡ some e) × (e ≢ r.entity))
    ⊎ (q.to ≢ superseded) × (q.superseded_by ≡ none)

pub record IsAdmissible (r : LifecycleRecord) (q : LifecycleTransitionRequest) : Type 0 where
  pub same_tenant : q.tenant_id ≡ r.tenant_id
  pub same_revision : q.expected_revision ≡ r.revision
  pub edge : r.state ⟶ q.to
  pub successor : NamesSuccessor r q

entity_path : (a b : LifecycleEntityRef) → a.kind ≡ b.kind → a.id ≡ b.id → a ≡ b
entity_path a b p q = λ i. record { kind = p i; id = q i }

pub same_entity_iff : (a b : LifecycleEntityRef) → (same_entity a b ≡ true) ↔ (a ≡ b)
same_entity_iff a b =
    (λ h. ground (arith, eq_iff a.id b.id, entity_path a b), λ h. ground (arith, eq_iff a.id b.id))

module _ (r : LifecycleRecord) (q : LifecycleTransitionRequest) where
  applied-same :
      {s : LifecycleRecord} {e : LifecycleTransitionEvent}
      → transition_lifecycle r q ≡ applied s e
      → (q.tenant_id ≡ r.tenant_id) × (q.expected_revision ≡ r.revision)
  unfolding transition_lifecycle
  applied-same h = ground (arith, eq_iff q.tenant_id r.tenant_id)

  applied-⟶ :
      {s : LifecycleRecord} {e : LifecycleTransitionEvent}
      → transition_lifecycle r q ≡ applied s e
      → r.state ⟶ q.to
  unfolding transition_lifecycle
  applied-⟶ h = ground (arith, allowed-⟶ r.state q.to)

  applied-NamesSuccessor :
      {s : LifecycleRecord} {e : LifecycleTransitionEvent}
      → transition_lifecycle r q ≡ applied s e
      → NamesSuccessor r q
  unfolding transition_lifecycle
  applied-NamesSuccessor h = elim (Option-cases q.superseded_by) [
    | inl missing ↦ ground arith
    | inr (e, named) ↦ ground (arith, same_entity_iff r.entity e)
  ]

  pub IsAdmissible-applied :
      IsAdmissible r q → transition_lifecycle r q ≡ applied (next_record r q) (transition_event r q)
  unfolding transition_lifecycle
  IsAdmissible-applied a = elim (Option-cases q.superseded_by) [
    | inl missing ↦ ground (arith, eq_iff q.tenant_id r.tenant_id, ⟶-allowed a.edge)
    | inr (e, named) ↦
        ground (arith, eq_iff q.tenant_id r.tenant_id, ⟶-allowed a.edge, same_entity_iff r.entity e)
  ]

split :
    (r : LifecycleRecord) (q : LifecycleTransitionRequest)
    → (transition_lifecycle r q ≡ applied (next_record r q) (transition_event r q))
      ⊎ ((c : LifecycleRejectionCode) × (transition_lifecycle r q ≡ rejected c r))
unfolding transition_lifecycle
split r q = ground arith

-- A request is applied exactly when its tenant and its expected revision are the record's, its target
-- is one edge of the diagram away, and it names a successor, other than the record's own entity,
-- exactly for a supersession.
pub transition-applied_iff :
    (r : LifecycleRecord) (q : LifecycleTransitionRequest)
    → (transition_lifecycle r q ≡ applied (next_record r q) (transition_event r q))
      ↔ IsAdmissible r q
transition-applied_iff r q = (
  λ h. record {
    same_tenant = (applied-same r q h).0;
    same_revision = (applied-same r q h).1;
    edge = applied-⟶ r q h;
    successor = applied-NamesSuccessor r q h;
  },
  IsAdmissible-applied r q,
)

-- A transition is applied with the record and the event of the request, or leaves the record as it
-- was.
pub transition-cases :
    (r : LifecycleRecord) (q : LifecycleTransitionRequest)
    → IsAdmissible r q
        × (transition_lifecycle r q ≡ applied (next_record r q) (transition_event r q))
      ⊎ ((c : LifecycleRejectionCode) × (transition_lifecycle r q ≡ rejected c r))
transition-cases r q = elim (split r q) [
  | inl h ↦ inl ((transition-applied_iff r q).0 h, h)
  | inr other ↦ inr other
]

-- The successor of a live record's cancellation.
pub cancel-IsAdmissible :
    (r : LifecycleRecord) (q : LifecycleTransitionRequest)
    → IsLive r.state
    → q.tenant_id ≡ r.tenant_id
    → q.expected_revision ≡ r.revision
    → q.to ≡ cancelled
    → q.superseded_by ≡ none
    → IsAdmissible r q
cancel-IsAdmissible r q live tenant revision to none_named = record {
  same_tenant = tenant;
  same_revision = revision;
  edge = subst (λ s. r.state ⟶ s) (sym to) (cancel live);
  successor = inr (λ e. ground arith, none_named);
}
