-- ===== src/Lanes/Eligibility.antt =====
-- When resolvePlanningLane (packages/control/src/lanes/resolver.ts) chooses the fast lane.
use aurora_ai_native.Prelude.{
  ◌≡◌, refl, ◌≢◌, ◌↔◌, ◌⊎◌, inl, inr, Bool, true, false, arith, is_empty, returned,
}
use aurora_ai_native.Lanes.{
  CapabilityRiskClass, low, medium, high, critical, CapabilitySideEffectClass, read_only,
  internal_state, local_side_effect, external_side_effect, destructive, fast, TaskReversibility,
  reversible, compensatable, irreversible, unknown_reversibility, TaskComplexity, deterministic,
  template_eligible, adaptive, unknown_complexity, CapabilityPlanStatus, plan_ready, plan_blocked,
  LaneResolutionInput, LaneResolution, is_blocked, is_risky, is_destructive, is_lasting,
  is_open_ended, governing_reasons, resolution_of, resolve_planning_lane,
}

-- The conditions of the fast lane.
pub record IsEligible (input : LaneResolutionInput) : Type 0 where
  pub plan : input.capability_plan_status ≡ plan_ready
  pub risk : (input.risk_class ≡ low) ⊎ (input.risk_class ≡ medium)
  pub effect : input.side_effect_class ≢ destructive
  pub undo : (input.reversibility ≡ reversible) ⊎ (input.reversibility ≡ compensatable)
  pub approved : input.approval_required ≡ false
  pub stepped_up : input.step_up_required ≡ false
  pub plain : (input.complexity ≡ deterministic) ⊎ (input.complexity ≡ template_eligible)

not_risky : (c : CapabilityRiskClass) → is_risky c ≡ false → (c ≡ low) ⊎ (c ≡ medium)
not_risky low h = inl refl
not_risky medium h = inr refl
not_risky high h = absurd (ground arith)
not_risky critical h = absurd (ground arith)

not_lasting :
    (r : TaskReversibility) → is_lasting r ≡ false → (r ≡ reversible) ⊎ (r ≡ compensatable)
not_lasting reversible h = inl refl
not_lasting compensatable h = inr refl
not_lasting irreversible h = absurd (ground arith)
not_lasting unknown_reversibility h = absurd (ground arith)

not_open_ended :
    (c : TaskComplexity) → is_open_ended c ≡ false → (c ≡ deterministic) ⊎ (c ≡ template_eligible)
not_open_ended deterministic h = inl refl
not_open_ended template_eligible h = inr refl
not_open_ended adaptive h = absurd (ground arith)
not_open_ended unknown_complexity h = absurd (ground arith)

is_ready_plan : (s : CapabilityPlanStatus) → is_blocked s ≡ false → s ≡ plan_ready
is_ready_plan plan_ready h = refl
is_ready_plan plan_blocked h = absurd (ground arith)

not_destructive : (c : CapabilitySideEffectClass) → c ≢ destructive → is_destructive c ≡ false
not_destructive read_only h = refl
not_destructive internal_state h = refl
not_destructive local_side_effect h = refl
not_destructive external_side_effect h = refl
not_destructive destructive h = absurd (h refl)

-- Of the two sides of a choice both fail the test.
either :
    {A : Type 0} (p : A → Bool) {c a b : A}
    → p a ≡ false
    → p b ≡ false
    → (c ≡ a) ⊎ (c ≡ b)
    → p c ≡ false
either p pa pb (inl e) = rw e pa
either p pa pb (inr e) = rw e pb

no_reasons-IsEligible :
    (input : LaneResolutionInput) → is_empty (governing_reasons input) ≡ true → IsEligible input
unfolding governing_reasons
no_reasons-IsEligible input h = record {
  plan = is_ready_plan input.capability_plan_status (ground arith);
  risk = not_risky input.risk_class (ground arith);
  effect = λ e. let d : is_destructive input.side_effect_class ≡ true = rw e refl in ground arith;
  undo = not_lasting input.reversibility (ground arith);
  approved = ground arith;
  stepped_up = ground arith;
  plain = not_open_ended input.complexity (ground arith);
}

IsEligible-no_reasons :
    (input : LaneResolutionInput) → IsEligible input → is_empty (governing_reasons input) ≡ true
unfolding governing_reasons
IsEligible-no_reasons input i =
    let plan : is_blocked input.capability_plan_status ≡ false = rw (i.plan) refl in
    let risk = either is_risky refl refl i.risk in
    let effect = not_destructive input.side_effect_class i.effect in
    let undo = either is_lasting refl refl i.undo in
    let plain = either is_open_ended refl refl i.plain in
    ground (arith, i.approved, i.stepped_up, plan, risk, effect, undo, plain)

lane-IsEligible :
    (input : LaneResolutionInput) → ((resolution_of input).lane ≡ fast) ↔ IsEligible input
unfolding resolution_of
lane-IsEligible input = (
  λ h. no_reasons-IsEligible input (ground arith),
  λ i. let e = IsEligible-no_reasons input i in ground arith,
)

-- A task goes to the fast lane exactly when its plan is ready, its risk is low or medium, its effect is
-- not destructive, it can be undone or compensated for, it needs neither approval nor a step-up, and
-- its complexity is deterministic or for a template; and no lane is an authorization.
pub resolve-fast_iff :
    (input : LaneResolutionInput) (r : LaneResolution)
    → resolve_planning_lane input ≡ returned r
    → ((r.lane ≡ fast) ↔ IsEligible input) × (r.authorizes_execution ≡ false)
unfolding resolve_planning_lane resolution_of
resolve-fast_iff input r h =
    let e : r ≡ resolution_of input = ground arith in (rw e (lane-IsEligible input), rw e refl)
