-- ===== src/Events/Replay/Quarantine.antt =====
-- What becomes of a quarantined event (packages/events/src/replay/replay-coordinator.ts).
use aurora_ai_native.Prelude.{
  ℕ, ◌+◌, ◌≤◌, ◌<◌, String, ◌≡◌, refl, ap, ◌∙◌, ◌≢◌, ◌↔◌, ◌⊎◌, inl, inr, Bool, true, false,
  Bool-cases, leb→le, eqb, eqb_iff, Option, none, some, arith, eq_iff, lookup, insert,
  lookup-insert, leb, if◌then◌else◌, returned,
}
use aurora_ai_native.Events.Replay.{
  ReplaySafety, read_only, idempotent_internal, external_side_effect, OrderingRequirement,
  ReplayInput, DeadLetterReason, sequence_gap, stale_or_out_of_order, fresh_authority_required,
  DeadLetterRecord, quarantined, ReplayCoordinator, is_external, is_fresh_authority,
  dead_letter_id_of, fresh_letter, quarantine, current_checkpoint, process, release_of,
  release_for_reconciliation,
}

abbrev reason_at : ReplayCoordinator → ReplayInput → Option OrderingRequirement → DeadLetterReason
reason_at c input none = fresh_authority_required
reason_at c input (some o) =
    if is_external input.safety
    then fresh_authority_required
    else if leb o.sequence (current_checkpoint c o.stream_key)
    then stale_or_out_of_order
    else sequence_gap

process-quarantine :
    (c c' : ReplayCoordinator) (input : ReplayInput) (ordering : Option OrderingRequirement)
    (at id : String) (letter : DeadLetterRecord)
    → input.ordering ≡ ordering
    → process c input at ≡ returned (quarantined id letter, c')
    → (quarantined id letter, c') ≡ quarantine c input at (reason_at c input ordering)
unfolding process
process-quarantine c c' input none at id letter e h = ground arith
process-quarantine c c' input (some o) at id letter e h = ground arith

quarantine-fresh :
    (c c' : ReplayCoordinator) (input : ReplayInput) (at id : String) (letter : DeadLetterRecord)
    (reason : DeadLetterReason)
    → (quarantined id letter, c') ≡ quarantine c input at reason
    → lookup (dead_letter_id_of input reason) c.dead_letters ≡ none
    → (letter ≡ fresh_letter input at reason)
      × (c' ≡ record c {
        dead_letters = insert (dead_letter_id_of input reason) letter c.dead_letters;
      })
unfolding quarantine
quarantine-fresh c c' input at id letter reason e fresh = (ground arith, ground arith)

-- Why a letter has its reason: its event has external effects; or it has none and its place in its stream is
-- not behind the checkpoint, or leaves a gap behind it.
abbrev pub IsReasonFor : ReplayCoordinator → ReplayInput → DeadLetterReason → Type 0
IsReasonFor c input reason =
    ((reason ≡ fresh_authority_required) × (input.safety ≡ external_side_effect))
    ⊎ ((o : OrderingRequirement) × (input.ordering ≡ some o)
        × (input.safety ≢ external_side_effect)
        × ((reason ≡ stale_or_out_of_order) × (o.sequence ≤ current_checkpoint c o.stream_key)
            ⊎ (reason ≡ sequence_gap) × (current_checkpoint c o.stream_key + 1 < o.sequence)))

external-safety :
    (safety : ReplaySafety)
    → ((is_external safety ≡ true) × (safety ≡ external_side_effect))
      ⊎ ((is_external safety ≡ false) × (safety ≢ external_side_effect))
external-safety external_side_effect = inl (refl, refl)
external-safety read_only = inr (refl, λ e. ground arith)
external-safety idempotent_internal = inr (refl, λ e. ground arith)

accepted_no_letter :
    (c c' : ReplayCoordinator) (input : ReplayInput) (at id : String) (letter : DeadLetterRecord)
    → input.ordering ≡ none
    → is_external input.safety ≡ false
    → ¬ (process c input at ≡ returned (quarantined id letter, c'))
unfolding process
accepted_no_letter c c' input at id letter e x h = ground arith

next_no_letter :
    (c c' : ReplayCoordinator) (input : ReplayInput) (at id : String) (letter : DeadLetterRecord)
    (o : OrderingRequirement)
    → input.ordering ≡ some o
    → is_external input.safety ≡ false
    → o.sequence ≡ current_checkpoint c o.stream_key + 1
    → ¬ (process c input at ≡ returned (quarantined id letter, c'))
unfolding process
next_no_letter c c' input at id letter o e x n h = ground arith

gap : (n k : ℕ) → leb n k ≡ false → ¬ (n ≡ k + 1) → k + 1 < n
gap n k h other = elim (Bool-cases (eqb n (k + 1))) [
  | inl e ↦ absurd (other ((eqb_iff n (k + 1)).0 e))
  | inr d ↦ ground arith
]

reason_at-IsReasonFor :
    (c c' : ReplayCoordinator) (input : ReplayInput) (at id : String) (letter : DeadLetterRecord)
    (ordering : Option OrderingRequirement)
    → input.ordering ≡ ordering
    → process c input at ≡ returned (quarantined id letter, c')
    → IsReasonFor c input (reason_at c input ordering)
reason_at-IsReasonFor c c' input at id letter none e h = elim (external-safety input.safety) [
  | inl (x, is_external) ↦ inl (refl, is_external)
  | inr (x, internal) ↦ absurd (accepted_no_letter c c' input at id letter e x h)
]
reason_at-IsReasonFor c c' input at id letter (some o) e h = elim (external-safety input.safety) [
  | inl (x, is_external) ↦ inl (rw x refl, is_external)
  | inr (x, internal) ↦
      let other = next_no_letter c c' input at id letter o e x in
      inr (
        o,
        e,
        internal,
        elim (Bool-cases (leb o.sequence (current_checkpoint c o.stream_key))) [
          | inl behind ↦ inl (rw (x, behind) refl, leb→le _ _ behind)
          | inr ahead ↦ inr (
            rw (x, ahead) refl,
            gap o.sequence (current_checkpoint c o.stream_key) ahead (λ n. other n h),
          )
        ],
      )
]

fresh-external :
    (c : ReplayCoordinator) (input : ReplayInput) (reason : DeadLetterReason)
    → IsReasonFor c input reason
    → (is_fresh_authority reason ≡ true) ↔ (input.safety ≡ external_side_effect)
fresh-external c input reason (inl (e, x)) = (λ h. x, λ h. rw e refl)
fresh-external c input reason (inr (o, is_o, internal, inl (e, stale))) =
    (λ h. let k = rw e at h in ground arith, λ h. absurd (internal h))
fresh-external c input reason (inr (o, is_o, internal, inr (e, far))) =
    (λ h. let k = rw e at h in ground arith, λ h. absurd (internal h))

-- An event that was never quarantined before is quarantined for a reason that it has: its effects are
-- external, or they are not and its place in its stream is at or behind the checkpoint, or leaves a gap. It
-- is then released for reconciliation as it came in (of the envelope what the model keeps), without an
-- authorization, and with a fresh validation asked for exactly where its effects are external; its
-- quarantine moves neither the accepted ids nor the checkpoints.
pub release-process :
    (c c' : ReplayCoordinator) (input : ReplayInput) (at id : String) (letter : DeadLetterRecord)
    → ((reason : DeadLetterReason) → lookup (dead_letter_id_of input reason) c.dead_letters ≡ none)
    → process c input at ≡ returned (quarantined id letter, c')
    → (needs_fresh : Bool) × (release_for_reconciliation c' letter.dead_letter_id
        ≡ returned (record {
          envelope = input.envelope;
          reason = letter.reason;
          ordering = input.ordering;
          safety = input.safety;
          execution_authorized = false;
          requires_fresh_authority_validation = needs_fresh;
        }))
      × ((needs_fresh ≡ true) ↔ (input.safety ≡ external_side_effect))
      × IsReasonFor c input letter.reason
      × (c'.seen_event_ids ≡ c.seen_event_ids)
      × (c'.checkpoints ≡ c.checkpoints)
unfolding release_for_reconciliation
release-process c c' input at id letter fresh h =
    let reason = reason_at c input input.ordering in
    let key = dead_letter_id_of input reason in
    let why = reason_at-IsReasonFor c c' input at id letter input.ordering refl h in
    let (is_fresh, state_is) =
      quarantine-fresh c c' input at id letter reason
        (process-quarantine c c' input input.ordering at id letter refl h) (fresh reason) in
    let letters = ap (λ (s : ReplayCoordinator). s.dead_letters) state_is in
    let here =
      ap (λ d. lookup key d) letters
      ∙ lookup-insert key key letter c.dead_letters
      ∙ ap (λ b. if b then some letter else lookup key c.dead_letters) ((eq_iff key key).1 refl)
      ∙ ap (λ l. some l) is_fresh in
    (
      is_fresh_authority reason,
      rw is_fresh (ap (λ o. release_of key o) here),
      fresh-external c input reason why,
      rw is_fresh why,
      ap (λ (s : ReplayCoordinator). s.seen_event_ids) state_is,
      ap (λ (s : ReplayCoordinator). s.checkpoints) state_is,
    )
