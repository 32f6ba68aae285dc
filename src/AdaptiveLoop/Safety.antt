-- ===== src/AdaptiveLoop/Safety.antt =====
-- What the adaptive loop needs to go on and to complete (services/agent-runtime/src/loop/controller.ts).
use aurora_ai_native.Prelude.{
  ◌-◌, ◌≤◌, String, ◌≡◌, refl, ◌≢◌, ◌⊎◌, inl, inr, Bool, true, false, not, Option, none, some, List,
  [], ◌∷◌, arith, eq_iff, length, All, contains, if◌then◌else◌, eqb_iff,
}
use aurora_ai_native.Budget.{
  ExecutionBudgetState, exhausted, ExecutionBudgetAction, apply, stop_optional, hold,
}
use aurora_ai_native.WorkerPool.Types.{WorkerState, active}
use aurora_ai_native.AdaptiveLoop.Types.{
  AdaptiveLoopPhase, PlanStatus, plan_ready_status, at_validate, ended_completed,
  AdaptiveLoopControlFrame, PlannedToolAction, AdaptiveLoopTerminalReason, AdaptiveLoopSnapshot,
  outcome_pass, AdaptiveLoopEvent, validation_ready, AdvanceAdaptiveLoopResult,
}
use aurora_ai_native.AdaptiveLoop.Frame.{
  valid_reference, worker_is_active, is_exhausted, stops_or_holds, plan_is_ready,
}
use aurora_ai_native.AdaptiveLoop.WellFormed.{
  IsWellFormed, IsOwn, shape-IsWellFormed, context-IsOwn,
}
use aurora_ai_native.AdaptiveLoop.Advance.{
  model_usage_or_limit, evidence_of, reject_event, action_key, actions_accepted,
  valid_planned_actions, frame_ending, ended_by, frame_failure,
}
use aurora_ai_native.AdaptiveLoop.Phases.{in_phase, on_event, or_failure, advance_adaptive_loop}

abbrev pub is_completed : AdaptiveLoopPhase → Bool
is_completed ended_completed = true
is_completed _ = false

abbrev pub is_pass : AdaptiveLoopEvent → Bool
is_pass (validation_ready evidence outcome_pass) = true
is_pass _ = false

completed-in_phase :
    (phase : AdaptiveLoopPhase) (s : AdaptiveLoopSnapshot) (frame : AdaptiveLoopControlFrame)
    (event : AdaptiveLoopEvent)
    → s.phase ≡ phase
    → is_completed phase ≡ false
    → is_completed (in_phase phase s frame event).snapshot.phase ≡ true
    → (phase ≡ at_validate) × (is_pass event ≡ true)
unfolding model_usage_or_limit
completed-in_phase phase s frame event e o h = ground arith

-- What a frame grants that does not end the loop.
pub record IsUsable (s : AdaptiveLoopSnapshot) (frame : AdaptiveLoopControlFrame) : Type 0 where
  pub shape : IsWellFormed frame
  pub own : IsOwn s.tenant_id s.correlation_id frame
  pub task : frame.worker.task_id ≡ s.worker_task_id
  pub worker : frame.worker.state ≡ active
  pub owner : frame.worker.owner_present ≡ true
  pub generation : frame.worker.generation ≡ s.worker_generation
  pub not_cancelled : frame.worker.cancel_requested ≡ false
  pub registry : frame.capability_plan.registry_version ≡ s.capability_registry_version
  pub ready : frame.capability_plan.status ≡ plan_ready_status
  pub forward : s.last_transition_epoch_ms ≤ frame.now_epoch_ms
  pub in_time : frame.now_epoch_ms - s.started_at_epoch_ms ≤ s.config.max_elapsed_ms
  pub budget : frame.budget.budget_id ≡ s.budget_id
  pub latency : 1 ≤ frame.budget.remaining.latency_ms
  pub not_exhausted : frame.budget.state ≢ exhausted
  pub goes_on : (frame.budget.action ≢ apply stop_optional) × (frame.budget.action ≢ apply hold)

active-state : (state : WorkerState) → worker_is_active state ≡ true → state ≡ active
active-state state h = ground arith

ready-status : (status : PlanStatus) → plan_is_ready status ≡ true → status ≡ plan_ready_status
ready-status status h = ground arith

not_exhausted-state :
    (state : ExecutionBudgetState) → is_exhausted state ≡ false → state ≢ exhausted
not_exhausted-state state h e = ground arith

goes_on-action :
    (action : ExecutionBudgetAction)
    → stops_or_holds action ≡ false
    → (action ≢ apply stop_optional) × (action ≢ apply hold)
goes_on-action action h =
    (λ e. let k = rw e at h in ground arith, λ e. let k = rw e at h in ground arith)

frame_ending-IsUsable :
    (s : AdaptiveLoopSnapshot) (frame : AdaptiveLoopControlFrame)
    → frame_ending s frame ≡ none
    → IsUsable s frame
unfolding frame_ending
frame_ending-IsUsable s frame h = record {
  shape = shape-IsWellFormed frame (ground arith);
  own = context-IsOwn s.tenant_id s.correlation_id frame (ground arith);
  task = ground (arith, eq_iff frame.worker.task_id s.worker_task_id);
  worker = active-state frame.worker.state (ground arith);
  owner = ground arith;
  generation = ground (arith, eqb_iff frame.worker.generation s.worker_generation);
  not_cancelled = ground arith;
  registry =
      ground (arith, eq_iff frame.capability_plan.registry_version s.capability_registry_version);
  ready = ready-status frame.capability_plan.status (ground arith);
  forward = ground arith;
  in_time = ground arith;
  budget = ground (arith, eq_iff frame.budget.budget_id s.budget_id);
  latency = ground arith;
  not_exhausted = not_exhausted-state frame.budget.state (ground arith);
  goes_on = goes_on-action frame.budget.action (ground arith);
}

completed-ended_by :
    (s : AdaptiveLoopSnapshot) (frame : AdaptiveLoopControlFrame) (rest : AdvanceAdaptiveLoopResult)
    → is_completed (or_failure (frame_failure s frame) rest).snapshot.phase ≡ true
    → (frame_ending s frame ≡ none) × (is_completed rest.snapshot.phase ≡ true)
unfolding frame_failure frame_ending
completed-ended_by s frame rest h = ground arith

completed-on_event :
    (s : AdaptiveLoopSnapshot) (frame : AdaptiveLoopControlFrame) (event : AdaptiveLoopEvent)
    → is_completed s.phase ≡ false
    → is_completed (on_event s frame event).snapshot.phase ≡ true
    → (s.phase ≡ at_validate) × (is_pass event ≡ true)
completed-on_event s frame event o h =
    ground (arith, completed-in_phase s.phase s frame event refl o)

-- A loop that has not completed completes only from its validation, by a validation event whose outcome
-- is PASS, under a frame whose worker, plan and budget are all of the loop's own tenant and correlation, its
-- task, registry version and budget; whose numbers are safe, whose capability ids are valid and distinct, and
-- none of whose parts authorizes an execution, invokes tools or skips the mandatory validation; that is not
-- before the last transition and within the elapsed limit; and where the worker is active, owned, of the
-- loop's generation and not cancelled, the capability plan is ready, and the budget is not exhausted, leaves
-- latency and neither stops nor holds.
pub advance-completed :
    (s : AdaptiveLoopSnapshot) (event : AdaptiveLoopEvent) (frame : AdaptiveLoopControlFrame)
    → is_completed s.phase ≡ false
    → is_completed (advance_adaptive_loop s event frame).snapshot.phase ≡ true
    → (s.phase ≡ at_validate) × (is_pass event ≡ true) × IsUsable s frame
unfolding advance_adaptive_loop
advance-completed s event frame o h =
    let checked =
      if not (valid_reference (evidence_of event))
      then reject_event s
      else on_event s frame event in
    let (usable, passed) = completed-ended_by s frame checked (ground arith) in
    let (validated, pass) = completed-on_event s frame event o (ground arith) in
    (validated, pass, frame_ending-IsUsable s frame usable)

accepted-All :
    (allowed seen : List String) (actions : List PlannedToolAction)
    → actions_accepted allowed seen actions ≡ true
    → All
        (λ a. (contains allowed a.capability_id ≡ true) × (a.execution_boundary ≡ "W07_REQUIRED"))
        actions
unfolding actions_accepted
accepted-All allowed seen [] h = tt
accepted-All allowed seen (a ∷ actions) h = (
  (ground arith, ground (arith, eq_iff a.execution_boundary "W07_REQUIRED")),
  accepted-All allowed (action_key a ∷ seen) actions (ground arith),
)

-- The planned actions of a result: kept, dropped, or a tool plan that the frame allows.
abbrev pub IsPlanned :
    AdaptiveLoopSnapshot → AdaptiveLoopControlFrame → List PlannedToolAction → Type 0
IsPlanned s frame actions =
    (actions ≡ s.planned_actions)
    ⊎ (actions ≡ [])
    ⊎ (length actions ≤ frame.budget.remaining.tool_calls)
      × All
          (λ a.
            (contains frame.capability_plan.selected_capability_ids a.capability_id ≡ true)
            × (a.execution_boundary ≡ "W07_REQUIRED"))
          actions

planned-in_phase :
    (phase : AdaptiveLoopPhase) (s : AdaptiveLoopSnapshot) (frame : AdaptiveLoopControlFrame)
    (event : AdaptiveLoopEvent) (actions : List PlannedToolAction)
    → (in_phase phase s frame event).snapshot.planned_actions ≡ actions
    → (actions ≡ s.planned_actions) ⊎ (actions ≡ []) ⊎ (valid_planned_actions actions frame ≡ true)
unfolding model_usage_or_limit
planned-in_phase phase s frame event actions h = ground arith

planned-on_event :
    (s : AdaptiveLoopSnapshot) (frame : AdaptiveLoopControlFrame) (event : AdaptiveLoopEvent)
    → ((on_event s frame event).snapshot.planned_actions ≡ s.planned_actions)
      ⊎ ((on_event s frame event).snapshot.planned_actions ≡ [])
      ⊎ (valid_planned_actions (on_event s frame event).snapshot.planned_actions frame ≡ true)
planned-on_event s frame event = ground (
  arith,
  planned-in_phase s.phase s frame event (in_phase s.phase s frame event).snapshot.planned_actions
      refl,
)

planned-ended_by :
    (s : AdaptiveLoopSnapshot) (frame : AdaptiveLoopControlFrame)
    (ending : Option (AdaptiveLoopPhase × AdaptiveLoopTerminalReason))
    (rest : AdvanceAdaptiveLoopResult)
    → ((or_failure (ended_by s frame ending) rest).snapshot.planned_actions ≡ s.planned_actions)
      ⊎ ((or_failure (ended_by s frame ending) rest).snapshot.planned_actions
          ≡ rest.snapshot.planned_actions)
planned-ended_by s frame none rest = inr refl
planned-ended_by s frame (some (phase, reason)) rest = inl refl

planned-advance :
    (s : AdaptiveLoopSnapshot) (event : AdaptiveLoopEvent) (frame : AdaptiveLoopControlFrame)
    (actions : List PlannedToolAction)
    → (advance_adaptive_loop s event frame).snapshot.planned_actions ≡ actions
    → (actions ≡ s.planned_actions) ⊎ (actions ≡ []) ⊎ (valid_planned_actions actions frame ≡ true)
unfolding advance_adaptive_loop frame_failure
planned-advance s event frame actions h =
    let checked =
      if not (valid_reference (evidence_of event))
      then reject_event s
      else on_event s frame event in
    ground (
      arith,
      planned-on_event s frame event,
      planned-ended_by s frame (frame_ending s frame) checked,
    )

valid-IsPlanned :
    (s : AdaptiveLoopSnapshot) (frame : AdaptiveLoopControlFrame) (actions : List PlannedToolAction)
    → valid_planned_actions actions frame ≡ true
    → IsPlanned s frame actions
unfolding valid_planned_actions
valid-IsPlanned s frame actions h = inr (
    inr (
      ground arith,
      accepted-All frame.capability_plan.selected_capability_ids [] actions (ground arith),
    ))

-- Whatever the event, the planned actions of the result are those of the snapshot, or none, or a tool
-- plan with at most as many actions as the budget's remaining tool calls, each for a capability that the
-- frame's plan has selected and each bound to the W07 boundary.
pub advance-IsPlanned :
    (s : AdaptiveLoopSnapshot) (event : AdaptiveLoopEvent) (frame : AdaptiveLoopControlFrame)
    → IsPlanned s frame (advance_adaptive_loop s event frame).snapshot.planned_actions
advance-IsPlanned s event frame =
    elim (planned-advance s event frame
      (advance_adaptive_loop s event frame).snapshot.planned_actions refl) [
        | inl kept ↦ inl kept
        | inr (inl dropped) ↦ inr (inl dropped)
        | inr (inr planned) ↦ valid-IsPlanned s frame _ planned
      ]
