-- ===== src/Intelligence/Levels.antt =====
-- A resolved level is one that the budget pays for
-- (packages/intelligence/src/reasoning-level/resolver.ts).
use aurora_ai_native.Prelude.{
  ℕ, ◌≤◌, String, ◌≡◌, sym, ap, ◌∙◌, ◌⊎◌, inl, inr, true, false, ◌||◌, Option, none, some, List, [],
  ◌∷◌, arith, leb, leb→le, Bool-cases, returned,
}
use aurora_ai_native.Intelligence.Reasoning.{
  ReasoningLevel, level_0, ReasoningBudgetProjection, ReasoningLevelRequest,
  ReasoningLevelResolution, ordinal, nominal_reasoning_units, levels, requested_level,
  invalid_budget, affordable_from, highest_affordable_level, action_holds, is_stop, is_degrade,
  state_exhausted, state_degraded, resolve_within, resolve_valid, resolve_budgeted,
  resolve_reasoning_level,
}

affordable-units :
    (remaining : ℕ) (affordable : ReasoningLevel) (ls : List ReasoningLevel)
    → nominal_reasoning_units affordable ≤ remaining
    → nominal_reasoning_units (affordable_from remaining affordable ls) ≤ remaining
unfolding affordable_from
affordable-units remaining affordable [] h = h
affordable-units remaining affordable (l ∷ ls) h =
    elim (Bool-cases (leb (nominal_reasoning_units l) remaining)) [
      | inl fits ↦
          rw fits
            (affordable-units remaining l ls (leb→le (nominal_reasoning_units l) remaining fits))
      | inr over ↦ rw over (affordable-units remaining affordable ls h)
    ]

highest_affordable-units :
    (remaining : ℕ) → nominal_reasoning_units (highest_affordable_level remaining) ≤ remaining
unfolding highest_affordable_level
highest_affordable-units remaining = affordable-units remaining level_0 levels (ground arith)

-- The levels cost more as they rise.
units_monotone :
    (a b : ReasoningLevel)
    → ordinal a ≤ ordinal b
    → nominal_reasoning_units a ≤ nominal_reasoning_units b
units_monotone a b h = ground arith

-- What stands behind a level under a budget.
pub record IsPaid (q : ReasoningLevelRequest) (b : ReasoningBudgetProjection)
    (level : ReasoningLevel) : Type 0 where
  pub paid : nominal_reasoning_units level ≤ b.remaining_reasoning_units
  pub not_above : ordinal level ≤ ordinal (requested_level q.complexity q.uncertainty)
  pub needed :
      (level ≡ requested_level q.complexity q.uncertainty)
      ⊎ ((is_degrade b.action || state_degraded b.state) ≡ true)
  pub open_budget : (action_holds b.action || state_exhausted b.state || is_stop b.action) ≡ false

resolve_within-IsPaid :
    (q : ReasoningLevelRequest) (b : ReasoningBudgetProjection) (level : ReasoningLevel)
    → (resolve_within q b).level ≡ some level
    → IsPaid q b level
unfolding resolve_within
resolve_within-IsPaid q b level h =
    let affordable = highest_affordable_level b.remaining_reasoning_units in
    let units = highest_affordable-units b.remaining_reasoning_units in
    let monotone = units_monotone (requested_level q.complexity q.uncertainty) affordable in
    record {
      paid = ground (arith, units, monotone);
      not_above = ground arith;
      needed = ground arith;
      open_budget = ground arith;
    }

budgeted-within :
    (q : ReasoningLevelRequest) (b : ReasoningBudgetProjection) (invalid : Option String)
    (r : ReasoningLevelResolution)
    → resolve_valid q b invalid ≡ returned r
    → r ≡ resolve_within q b
budgeted-within q b (some message) r h = ground arith
budgeted-within q b none r h = ground arith

checked-budgeted :
    (q : ReasoningLevelRequest) (r : ReasoningLevelResolution)
    → resolve_reasoning_level q ≡ returned r
    → resolve_budgeted q q.budget ≡ returned r
unfolding resolve_reasoning_level
checked-budgeted q r h = ground arith

-- A level that is resolved under a budget costs no more units than remain, is not above the level that
-- the task asks for, and is below it only where the budget is degraded or degrades; the budget is then
-- neither held, stopped nor exhausted.
pub resolve-IsPaid :
    (q : ReasoningLevelRequest) (b : ReasoningBudgetProjection) (r : ReasoningLevelResolution)
    (level : ReasoningLevel)
    → q.budget ≡ some b
    → resolve_reasoning_level q ≡ returned r
    → r.level ≡ some level
    → IsPaid q b level
resolve-IsPaid q b r level e h l =
    let h1 = sym (ap (resolve_budgeted q) e) ∙ checked-budgeted q r h in
    let within = budgeted-within q b (invalid_budget b) r h1 in
    resolve_within-IsPaid q b level (sym (ap (λ t. t.level) within) ∙ l)
