-- ===== src/AdaptiveLoop/Steps.antt =====
-- What one advance of the adaptive loop does to its limits (services/agent-runtime/src/loop/controller.ts).
use aurora_ai_native.Prelude.{
  ℕ, ◌+◌, ◌-◌, ◌*◌, ◌≤◌, String, ◌≡◌, refl, sym, Bool, true, false, Option, some, List, [], arith,
  leb, eqb, if◌then◌else◌, is_some,
}
use aurora_ai_native.AdaptiveLoop.Types.{
  AdaptiveLoopPhase, at_observe, at_plan, at_tool_plan, at_waiting_tool_observation, at_inspect,
  at_validate, BoundedAdaptiveLoopConfig, AdaptiveLoopControlFrame, PlannedToolAction,
  AdaptiveLoopUsage, AdaptiveLoopTerminalReason, AdaptiveLoopSnapshot, StepDisposition,
  step_tool_plan, step_validate, step_abstain, step_escalate, step_fail, AdvanceCode, has_advanced,
  AdvanceAdaptiveLoopResult,
}
use aurora_ai_native.AdaptiveLoop.Advance.{
  model_usage_or_limit, is_terminal_phase, terminate, reject_event, advanced, stop, ModelUsage,
  usage_left, usage_limit, disposition_result,
}

-- How many advances a phase is from the end of its round. A round ends with a repair.
abbrev pub rank : AdaptiveLoopPhase → ℕ
rank at_observe = 6
rank at_plan = 5
rank at_tool_plan = 4
rank at_waiting_tool_observation = 3
rank at_inspect = 2
rank at_validate = 1
rank _ = 0

abbrev pub repairs_left : BoundedAdaptiveLoopConfig → AdaptiveLoopUsage → ℕ
repairs_left config usage = config.max_repair_attempts - usage.repair_attempts

abbrev pub count_advance : AdvanceCode → ℕ
count_advance has_advanced = 1
count_advance _ = 0

-- The usage is within the limits of the configuration.
pub record IsInLimits (config : BoundedAdaptiveLoopConfig) (usage : AdaptiveLoopUsage)
    : Type 0 where
  pub iterations : usage.iterations ≤ config.max_iterations
  pub models : usage.model_calls ≤ config.max_model_calls
  pub tools : usage.tool_planning_calls ≤ config.max_tool_planning_calls
  pub repairs : usage.repair_attempts ≤ config.max_repair_attempts

-- A loop has a terminal reason exactly when it has ended.
abbrev pub IsExplained : AdaptiveLoopSnapshot → Type 0
IsExplained s = is_some s.terminal_reason ≡ is_terminal_phase s.phase

-- A result of an advance from a phase of rank `k`: the rounds left and the rest of this one cover what
-- the result has left, and the advance itself.
pub record IsStep (k : ℕ) (s : AdaptiveLoopSnapshot) (r : AdvanceAdaptiveLoopResult) : Type 0 where
  pub same_config : r.snapshot.config ≡ s.config
  pub within : IsInLimits s.config s.usage → IsInLimits s.config r.snapshot.usage
  pub explained : IsExplained s → IsExplained r.snapshot
  pub paid :
      rank r.snapshot.phase + 5 * repairs_left s.config r.snapshot.usage + count_advance r.code
      ≤ k + 5 * repairs_left s.config s.usage

-- A usage that the phase may leave.
pub record IsGrown (s : AdaptiveLoopSnapshot) (usage : AdaptiveLoopUsage) : Type 0 where
  pub repairs : s.usage.repair_attempts ≤ usage.repair_attempts
  pub within : IsInLimits s.config s.usage → IsInLimits s.config usage

pub same_usage-IsGrown : (s : AdaptiveLoopSnapshot) → IsGrown s s.usage
same_usage-IsGrown s = record { repairs = ground arith; within = λ w. w }

terminal-rank : (phase : AdaptiveLoopPhase) → is_terminal_phase phase ≡ true → rank phase ≡ 0
terminal-rank phase h = ground arith

pub terminate-IsStep :
    (k : ℕ) (s : AdaptiveLoopSnapshot) (phase : AdaptiveLoopPhase)
    (reason : AdaptiveLoopTerminalReason) (now : ℕ) (evidence : Option String)
    (usage : AdaptiveLoopUsage)
    → is_terminal_phase phase ≡ true
    → IsGrown s usage
    → IsStep k s (terminate s phase reason now evidence usage)
terminate-IsStep k s phase reason now evidence usage t g = record {
  same_config = refl;
  within = g.within;
  explained = λ e. sym t;
  paid = omega (arith, terminal-rank phase t, g.repairs);
}

pub stop-IsStep :
    (k : ℕ) (s : AdaptiveLoopSnapshot) (phase : AdaptiveLoopPhase)
    (reason : AdaptiveLoopTerminalReason) (evidence : String) (frame : AdaptiveLoopControlFrame)
    → is_terminal_phase phase ≡ true
    → IsStep k s (stop s phase reason evidence frame)
stop-IsStep k s phase reason evidence frame t =
    terminate-IsStep k s phase reason frame.now_epoch_ms (some evidence) s.usage t
      (same_usage-IsGrown s)

pub reject-IsStep : (s : AdaptiveLoopSnapshot) → IsStep (rank s.phase) s (reject_event s)
reject-IsStep s = record {
  same_config = refl;
  within = λ w. w;
  explained = λ e. e;
  paid = omega arith;
}

pub advanced-IsStep :
    (k : ℕ) (s : AdaptiveLoopSnapshot) (phase : AdaptiveLoopPhase) (evidence : String)
    (frame : AdaptiveLoopControlFrame) (usage : AdaptiveLoopUsage)
    (actions : List PlannedToolAction)
    → is_terminal_phase phase ≡ false
    → IsGrown s usage
    → rank phase + 5 * repairs_left s.config usage + 1 ≤ k + 5 * repairs_left s.config s.usage
    → IsStep k s (advanced s phase evidence frame usage actions)
advanced-IsStep k s phase evidence frame usage actions t g paid = record {
  same_config = refl;
  within = g.within;
  explained = λ e. sym t;
  paid = paid;
}

pub disposition-IsStep :
    (k : ℕ) (s : AdaptiveLoopSnapshot) (frame : AdaptiveLoopControlFrame) (evidence : String)
    (disposition : StepDisposition) (usage : AdaptiveLoopUsage)
    → IsGrown s usage
    → 5 + 5 * repairs_left s.config usage ≤ k + 5 * repairs_left s.config s.usage
    → IsStep k s (disposition_result s frame evidence disposition usage)
disposition-IsStep k s frame evidence step_tool_plan usage g paid =
    advanced-IsStep k s at_tool_plan evidence frame usage [] refl g (omega (arith, paid))
disposition-IsStep k s frame evidence step_validate usage g paid =
    advanced-IsStep k s at_validate evidence frame usage s.planned_actions refl g
      (omega (arith, paid))
disposition-IsStep k s frame evidence step_abstain usage g paid =
    terminate-IsStep k s _ _ frame.now_epoch_ms (some evidence) usage refl g
disposition-IsStep k s frame evidence step_escalate usage g paid =
    terminate-IsStep k s _ _ frame.now_epoch_ms (some evidence) usage refl g
disposition-IsStep k s frame evidence step_fail usage g paid =
    terminate-IsStep k s _ _ frame.now_epoch_ms (some evidence) usage refl g

pub if-IsStep :
    (k : ℕ) (s : AdaptiveLoopSnapshot) (c : Bool) (a b : AdvanceAdaptiveLoopResult)
    → (c ≡ true → IsStep k s a)
    → (c ≡ false → IsStep k s b)
    → IsStep k s (if c then a else b)
if-IsStep k s true a b f g = f refl
if-IsStep k s false a b f g = g refl

-- A model call takes one of the calls that are left, and no repair.
abbrev pub IsModelUsage : ℕ → AdaptiveLoopSnapshot → ModelUsage → Type 0
IsModelUsage k s (usage_left usage) =
    (usage.repair_attempts ≡ s.usage.repair_attempts) × IsGrown s usage
IsModelUsage k s (usage_limit r) = IsStep k s r

if-IsModelUsage :
    (k : ℕ) (s : AdaptiveLoopSnapshot) (c : Bool) (a b : ModelUsage)
    → IsModelUsage k s a
    → (c ≡ false → IsModelUsage k s b)
    → IsModelUsage k s (if c then a else b)
if-IsModelUsage k s true a b f g = f
if-IsModelUsage k s false a b f g = g refl

model_call-IsGrown :
    (s : AdaptiveLoopSnapshot)
    → leb s.config.max_model_calls s.usage.model_calls ≡ false
    → IsGrown s (record (s.usage) { model_calls = s.usage.model_calls + 1 })
model_call-IsGrown s h = record {
  repairs = omega arith;
  within = λ w. record {
    iterations = w.iterations;
    models = ground arith;
    tools = w.tools;
    repairs = w.repairs;
  };
}

pub model_usage_or_limit-IsModelUsage :
    (k : ℕ) (s : AdaptiveLoopSnapshot) (frame : AdaptiveLoopControlFrame) (evidence : String)
    (used : Bool)
    → IsModelUsage k s (model_usage_or_limit s frame evidence used)
unfolding model_usage_or_limit
model_usage_or_limit-IsModelUsage k s frame evidence false = (refl, same_usage-IsGrown s)
model_usage_or_limit-IsModelUsage k s frame evidence true =
    if-IsModelUsage k s (eqb frame.budget.remaining.reasoning_units 0) _ _
      (stop-IsStep k s _ _ evidence frame refl)
      (λ h.
        if-IsModelUsage k s (leb s.config.max_model_calls s.usage.model_calls) _ _
          (stop-IsStep k s _ _ evidence frame refl) (λ room. (refl, model_call-IsGrown s room)))
