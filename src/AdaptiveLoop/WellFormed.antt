-- ===== src/AdaptiveLoop/WellFormed.antt =====
-- What the checks of a control frame ask for (validFrameShape and sameContext of
-- services/agent-runtime/src/loop/controller.ts).
use aurora_ai_native.Prelude.{
  ◌≤◌, String, ◌≡◌, true, false, List, [], ◌∷◌, eq_iff, All, contains, leb→le, &&-eq-true,
  not-eq-true, all, non_empty, is_identifier,
}
use aurora_ai_native.Budget.{max_safe_integer}
use aurora_ai_native.AdaptiveLoop.Types.{AdaptiveLoopControlFrame}
use aurora_ai_native.AdaptiveLoop.Frame.{
  valid_identifier, same_context, all_distinct, valid_frame_shape,
}

-- No text stands twice in a list.
abbrev pub AllDifferent : List String → Type 0
AllDifferent [] = Unit
AllDifferent (text ∷ texts) = (contains texts text ≡ false) × AllDifferent texts

-- A frame whose numbers are safe, whose ids are there, whose parts are what they say they are, and none of
-- whose parts authorizes an execution, invokes tools or skips the mandatory validation.
pub record IsWellFormed (frame : AdaptiveLoopControlFrame) : Type 0 where
  pub now : frame.now_epoch_ms ≤ max_safe_integer
  pub semantics : frame.worker.authority_semantics ≡ "AGENT_RUNTIME_OWNERSHIP_ONLY_NO_AUTHORITY"
  pub worker_unauthorized : frame.worker.authorizes_execution ≡ false
  pub no_tools : frame.worker.can_invoke_tools ≡ false
  pub task : non_empty frame.worker.task_id ≡ true
  pub generation : frame.worker.generation ≤ max_safe_integer
  pub plan_source : frame.capability_plan.source ≡ "W04_CAPABILITY_PLAN"
  pub plan_unauthorized : frame.capability_plan.authorizes_execution ≡ false
  pub registry : non_empty frame.capability_plan.registry_version ≡ true
  pub ids : All (λ id. is_identifier 200 id ≡ true) frame.capability_plan.selected_capability_ids
  pub distinct : AllDifferent frame.capability_plan.selected_capability_ids
  pub budget_source : frame.budget.source ≡ "W04_EXECUTION_BUDGET_ASSESSMENT"
  pub budget : non_empty frame.budget.budget_id ≡ true
  pub safety_required : frame.budget.mandatory_safety_validation_required ≡ true
  pub no_skip : frame.budget.can_skip_mandatory_validation ≡ false
  pub budget_unauthorized : frame.budget.authorizes_execution ≡ false
  pub latency : frame.budget.remaining.latency_ms ≤ max_safe_integer
  pub reasoning : frame.budget.remaining.reasoning_units ≤ max_safe_integer
  pub calls : frame.budget.remaining.tool_calls ≤ max_safe_integer

-- The three parts of a frame are of one tenant and correlation.
pub record IsOwn (tenant_id correlation_id : String) (frame : AdaptiveLoopControlFrame)
    : Type 0 where
  pub worker_tenant : frame.worker.tenant_id ≡ tenant_id
  pub worker_correlation : frame.worker.correlation_id ≡ correlation_id
  pub plan_tenant : frame.capability_plan.tenant_id ≡ tenant_id
  pub plan_correlation : frame.capability_plan.correlation_id ≡ correlation_id
  pub budget_tenant : frame.budget.tenant_id ≡ tenant_id
  pub budget_correlation : frame.budget.correlation_id ≡ correlation_id

all-identifiers :
    (ids : List String)
    → all valid_identifier ids ≡ true
    → All (λ id. is_identifier 200 id ≡ true) ids
unfolding valid_identifier
all-identifiers [] h = tt
all-identifiers (id ∷ ids) h =
    let (first, rest) = &&-eq-true _ _ h in (first, all-identifiers ids rest)

distinct-AllDifferent : (ids : List String) → all_distinct ids ≡ true → AllDifferent ids
unfolding all_distinct
distinct-AllDifferent [] h = tt
distinct-AllDifferent (id ∷ ids) h =
    let (first, rest) = &&-eq-true _ _ h in
    (not-eq-true (contains ids id) first, distinct-AllDifferent ids rest)

pub shape-IsWellFormed :
    (frame : AdaptiveLoopControlFrame) → valid_frame_shape frame ≡ true → IsWellFormed frame
unfolding valid_frame_shape
shape-IsWellFormed frame h =
    let (h18, c19) = &&-eq-true _ _ h in
    let (h17, c18) = &&-eq-true _ _ h18 in
    let (h16, c17) = &&-eq-true _ _ h17 in
    let (h15, c16) = &&-eq-true _ _ h16 in
    let (h14, c15) = &&-eq-true _ _ h15 in
    let (h13, c14) = &&-eq-true _ _ h14 in
    let (h12, c13) = &&-eq-true _ _ h13 in
    let (h11, c12) = &&-eq-true _ _ h12 in
    let (h10, c11) = &&-eq-true _ _ h11 in
    let (h9, c10) = &&-eq-true _ _ h10 in
    let (h8, c9) = &&-eq-true _ _ h9 in
    let (h7, c8) = &&-eq-true _ _ h8 in
    let (h6, c7) = &&-eq-true _ _ h7 in
    let (h5, c6) = &&-eq-true _ _ h6 in
    let (h4, c5) = &&-eq-true _ _ h5 in
    let (h3, c4) = &&-eq-true _ _ h4 in
    let (h2, c3) = &&-eq-true _ _ h3 in
    let (c1, c2) = &&-eq-true _ _ h2 in
    record {
      now = leb→le frame.now_epoch_ms max_safe_integer c1;
      semantics =
          (eq_iff frame.worker.authority_semantics "AGENT_RUNTIME_OWNERSHIP_ONLY_NO_AUTHORITY").0
            c2;
      worker_unauthorized = not-eq-true frame.worker.authorizes_execution c3;
      no_tools = not-eq-true frame.worker.can_invoke_tools c4;
      task = c5;
      generation = leb→le frame.worker.generation max_safe_integer c6;
      plan_source = (eq_iff frame.capability_plan.source "W04_CAPABILITY_PLAN").0 c7;
      plan_unauthorized = not-eq-true frame.capability_plan.authorizes_execution c8;
      registry = c9;
      ids = all-identifiers frame.capability_plan.selected_capability_ids c10;
      distinct = distinct-AllDifferent frame.capability_plan.selected_capability_ids c11;
      budget_source = (eq_iff frame.budget.source "W04_EXECUTION_BUDGET_ASSESSMENT").0 c12;
      budget = c13;
      safety_required = c14;
      no_skip = not-eq-true frame.budget.can_skip_mandatory_validation c15;
      budget_unauthorized = not-eq-true frame.budget.authorizes_execution c16;
      latency = leb→le frame.budget.remaining.latency_ms max_safe_integer c17;
      reasoning = leb→le frame.budget.remaining.reasoning_units max_safe_integer c18;
      calls = leb→le frame.budget.remaining.tool_calls max_safe_integer c19;
    }

pub context-IsOwn :
    (tenant_id correlation_id : String) (frame : AdaptiveLoopControlFrame)
    → same_context tenant_id correlation_id frame ≡ true
    → IsOwn tenant_id correlation_id frame
unfolding same_context
context-IsOwn tenant_id correlation_id frame h =
    let (h5, c6) = &&-eq-true _ _ h in
    let (h4, c5) = &&-eq-true _ _ h5 in
    let (h3, c4) = &&-eq-true _ _ h4 in
    let (h2, c3) = &&-eq-true _ _ h3 in
    let (c1, c2) = &&-eq-true _ _ h2 in
    record {
      worker_tenant = (eq_iff frame.worker.tenant_id tenant_id).0 c1;
      worker_correlation = (eq_iff frame.worker.correlation_id correlation_id).0 c2;
      plan_tenant = (eq_iff frame.capability_plan.tenant_id tenant_id).0 c3;
      plan_correlation = (eq_iff frame.capability_plan.correlation_id correlation_id).0 c4;
      budget_tenant = (eq_iff frame.budget.tenant_id tenant_id).0 c5;
      budget_correlation = (eq_iff frame.budget.correlation_id correlation_id).0 c6;
    }
