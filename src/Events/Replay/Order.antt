-- ===== src/Events/Replay/Order.antt =====
-- What a replay accepts, over every sequence of inputs (packages/events/src/replay).
use aurora_ai_native.Prelude.{
  ℕ, zero, suc, ◌+◌, ◌≤◌, String, ◌≡◌, refl, sym, ap, ◌∙◌, ◌≢◌, ◌⊎◌, inl, inr, Bool, true, false,
  Option, none, some, List, [], ◌∷◌, arith, eq_iff, ◌==◌, length, filter, push_if, All, contains,
  lookup, insert, lookup-insert, Outcome, if◌then◌else◌, Bool-cases, or_else, returned, threw,
}
use aurora_ai_native.Events.Replay.{
  external_side_effect, OrderingRequirement, ReplayInput, ReplayDecision, accepted, duplicate,
  quarantined, ReplayCoordinator, current_checkpoint, process,
}

-- One input and the moment of its observation. A call that throws leaves the coordinator as it was.
abbrev pub after_call :
    ReplayCoordinator → Outcome (ReplayDecision × ReplayCoordinator) → ReplayCoordinator
after_call c (returned (d, c')) = c'
after_call c (threw message) = c

abbrev pub is_accepted : Outcome (ReplayDecision × ReplayCoordinator) → Bool
is_accepted (returned (accepted id at, c')) = true
is_accepted (returned (duplicate id at, c')) = false
is_accepted (returned (quarantined id letter, c')) = false
is_accepted (threw message) = false

abbrev pub replay : ReplayCoordinator → List (ReplayInput × String) → ReplayCoordinator
replay c [] = c
replay c (call ∷ calls) = replay (after_call c (process c (call.0) (call.1))) calls

-- The inputs that the replay accepts, in order.
abbrev pub accepted_inputs : ReplayCoordinator → List (ReplayInput × String) → List ReplayInput
accepted_inputs c [] = []
accepted_inputs c (call ∷ calls) =
    push_if (is_accepted (process c (call.0) (call.1))) (call.0)
      (accepted_inputs (after_call c (process c (call.0) (call.1))) calls)

-- The sequence numbers that the inputs have in a stream.
abbrev pub in_stream : String → Option OrderingRequirement → List ℕ → List ℕ
in_stream stream none rest = rest
in_stream stream (some o) rest = if o.stream_key == stream then o.sequence ∷ rest else rest

abbrev pub sequences : String → List ReplayInput → List ℕ
sequences stream [] = []
sequences stream (input ∷ inputs) = in_stream stream input.ordering (sequences stream inputs)

-- The `n` numbers after `from`.
abbrev pub next_numbers : ℕ → ℕ → List ℕ
next_numbers from zero = []
next_numbers from (suc n) = (from + 1) ∷ next_numbers (from + 1) n

abbrev pub with_id : String → List ReplayInput → ℕ
with_id id inputs = length (filter (λ input. input.envelope.event_id == id) inputs)

-- What one call does: either it accepts nothing and moves no checkpoint, or it accepts a new event that
-- has no effect outside, the next one of its stream where it has one.
record IsRefusal (c c' : ReplayCoordinator) (taken : Bool) : Type 0 where
  not_taken : taken ≡ false
  seen_kept : c'.seen_event_ids ≡ c.seen_event_ids
  checkpoints_kept : c'.checkpoints ≡ c.checkpoints

record IsAcceptance (c c' : ReplayCoordinator) (input : ReplayInput) (taken : Bool) : Type 0 where
  was_taken : taken ≡ true
  harmless : input.safety ≢ external_side_effect
  new : contains c.seen_event_ids input.envelope.event_id ≡ false
  seen_grown : c'.seen_event_ids ≡ input.envelope.event_id ∷ c.seen_event_ids
  moved :
      (input.ordering ≡ none) × (c'.checkpoints ≡ c.checkpoints)
      ⊎ ((o : OrderingRequirement) × (input.ordering ≡ some o)
          × (o.sequence ≡ current_checkpoint c o.stream_key + 1)
          × (c'.checkpoints ≡ insert o.stream_key o.sequence c.checkpoints))

process-cases :
    (c : ReplayCoordinator) (input : ReplayInput) (at : String)
    → IsRefusal c (after_call c (process c input at)) (is_accepted (process c input at))
      ⊎ IsAcceptance c (after_call c (process c input at)) input (is_accepted (process c input at))
unfolding process
process-cases c input at = ground arith

current_checkpoint-insert :
    (c c' : ReplayCoordinator) (k stream : String) (n : ℕ)
    → c'.checkpoints ≡ insert k n c.checkpoints
    → current_checkpoint c' stream ≡ (if k == stream then n else current_checkpoint c stream)
current_checkpoint-insert c c' k stream n e =
    ap (λ d. or_else (lookup stream d) 0) e
    ∙ ap (λ o. or_else o 0) (lookup-insert stream k n c.checkpoints)
    ∙ pick (k == stream) (lookup stream c.checkpoints)
  where
    pick :
        (b : Bool) (o : Option ℕ)
        → or_else (if b then some n else o) 0 ≡ (if b then n else or_else o 0)
    pick true o = refl
    pick false o = refl

-- One accepted input in front of the others.
sequences-taken :
    (stream : String) (input : ReplayInput) (taken : Bool) (rest : List ReplayInput)
    (ordering : Option OrderingRequirement)
    → taken ≡ true
    → input.ordering ≡ ordering
    → sequences stream (push_if taken input rest)
      ≡ in_stream stream ordering (sequences stream rest)
sequences-taken stream input taken rest ordering t e =
    ap (λ b. sequences stream (push_if b input rest)) t
    ∙ ap (λ o. in_stream stream o (sequences stream rest)) e

sequences-skipped :
    (stream : String) (input : ReplayInput) (taken : Bool) (rest : List ReplayInput)
    → taken ≡ false
    → sequences stream (push_if taken input rest) ≡ sequences stream rest
sequences-skipped stream input taken rest t = ap (λ b. sequences stream (push_if b input rest)) t

-- The numbers that a replay accepts in a stream follow its checkpoint without a gap, and the checkpoint
-- then stands at the last of them.
pub replay_gapless :
    (stream : String) (c : ReplayCoordinator) (calls : List (ReplayInput × String))
    → (n : ℕ) × (sequences stream (accepted_inputs c calls)
        ≡ next_numbers (current_checkpoint c stream) n)
      × (current_checkpoint (replay c calls) stream ≡ current_checkpoint c stream + n)
replay_gapless stream c [] = (0, refl, omega arith)
replay_gapless stream c (call ∷ calls) =
    let input = call.0 in
    let c' = after_call c (process c input (call.1)) in
    let taken = is_accepted (process c input (call.1)) in
    let rest = accepted_inputs c' calls in
    let (n, numbers, last) = replay_gapless stream c' calls in
    elim (process-cases c input (call.1)) [
      | inl r ↦
          let same = ap (λ d. or_else (lookup stream d) 0) r.checkpoints_kept in
          (
            n,
            sequences-skipped stream input taken rest r.not_taken
                ∙ numbers
                ∙ ap (λ from. next_numbers from n) same,
            last ∙ ap (λ from. from + n) same,
          )
      | inr a ↦ elim (a.moved) [
        | inl (unordered, kept) ↦
            let same = ap (λ d. or_else (lookup stream d) 0) kept in
            (
              n,
              sequences-taken stream input taken rest none a.was_taken unordered
                  ∙ numbers
                  ∙ ap (λ from. next_numbers from n) same,
              last ∙ ap (λ from. from + n) same,
            )
        | inr (o, ordered, next, moved) ↦
            let cp = current_checkpoint-insert c c' o.stream_key stream o.sequence moved in
            let head = sequences-taken stream input taken rest (some o) a.was_taken ordered in
            elim (Bool-cases (o.stream_key == stream)) [
              | inl here ↦
                  let key = (eq_iff o.stream_key stream).0 here in
                  let number = next ∙ ap (λ k. current_checkpoint c k + 1) key in
                  let stands : current_checkpoint c' stream ≡ current_checkpoint c stream + 1 =
                    cp
                    ∙ ap (λ b. if b then o.sequence else current_checkpoint c stream) here
                    ∙ number in
                  (
                    suc n,
                    head
                        ∙ ap
                            (λ b.
                              if b
                              then o.sequence ∷ sequences stream rest
                              else sequences stream rest)
                            here
                        ∙ ap (λ m. m ∷ sequences stream rest) number
                        ∙ ap (λ l. (current_checkpoint c stream + 1) ∷ l)
                            (numbers ∙ ap (λ from. next_numbers from n) stands),
                    omega (arith, last, stands),
                  )
              | inr elsewhere ↦
                  let same =
                    cp
                    ∙ ap (λ b. if b then o.sequence else current_checkpoint c stream) elsewhere in
                  (
                    n,
                    head
                        ∙ ap
                            (λ b.
                              if b
                              then o.sequence ∷ sequences stream rest
                              else sequences stream rest)
                            elsewhere
                        ∙ numbers
                        ∙ ap (λ from. next_numbers from n) same,
                    last ∙ ap (λ from. from + n) same,
                  )
            ]
      ]
    ]

accepted_once :
    (id : String) (c : ReplayCoordinator) (calls : List (ReplayInput × String))
    → (with_id id (accepted_inputs c calls) ≤ 1)
      × (contains c.seen_event_ids id ≡ true → with_id id (accepted_inputs c calls) ≡ 0)
accepted_once id c [] = (omega arith, λ m. refl)
accepted_once id c (call ∷ calls) =
    let input = call.0 in
    let c' = after_call c (process c input (call.1)) in
    let taken = is_accepted (process c input (call.1)) in
    let rest = accepted_inputs c' calls in
    let (once, never) = accepted_once id c' calls in
    elim (process-cases c input (call.1)) [
      | inl r ↦
          let e = ap (λ b. with_id id (push_if b input rest)) r.not_taken in
          (omega (arith, e, once), λ m. e ∙ never (ap (λ ids. contains ids id) r.seen_kept ∙ m))
      | inr a ↦
          let e = ap (λ b. with_id id (push_if b input rest)) a.was_taken in
          let seen = ap (λ ids. contains ids id) a.seen_grown in
          elim (Bool-cases (input.envelope.event_id == id)) [
            | inl same ↦
                let none_left = never (ground (arith, seen)) in
                let eq = (eq_iff input.envelope.event_id id).0 same in
                let fresh = sym (ap (λ i. contains c.seen_event_ids i) eq) ∙ a.new in
                (ground (arith, e, none_left), λ m. ground arith)
            | inr other ↦ (
              ground (arith, e, once),
              λ m. let l = never (ground (arith, seen, m)) in ground (arith, e, l),
            )
          ]
    ]

accepted_harmless :
    (c : ReplayCoordinator) (calls : List (ReplayInput × String))
    → All (λ input. input.safety ≢ external_side_effect) (accepted_inputs c calls)
accepted_harmless c [] = tt
accepted_harmless c (call ∷ calls) = elim (process-cases c (call.0) (call.1)) [
  | inl r ↦ rw (r.not_taken) (accepted_harmless (after_call c (process c (call.0) (call.1))) calls)
  | inr a ↦
      rw (a.was_taken)
        (a.harmless, accepted_harmless (after_call c (process c (call.0) (call.1))) calls)
]

-- A replay accepts no event id twice, whatever is replayed, and nothing that has an effect outside.
pub replay_once :
    (id : String) (c : ReplayCoordinator) (calls : List (ReplayInput × String))
    → (with_id id (accepted_inputs c calls) ≤ 1)
      × All (λ input. input.safety ≢ external_side_effect) (accepted_inputs c calls)
replay_once id c calls = ((accepted_once id c calls).0, accepted_harmless c calls)
