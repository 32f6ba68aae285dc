-- ===== src/AdaptiveLoop/Runs.antt =====
-- Runs of the adaptive loop (services/agent-runtime/src/loop/controller.ts).
use aurora_ai_native.Prelude.{ℕ, ◌+◌, ◌-◌, ◌*◌, ◌≤◌, ◌≡◌, refl, sym, ap, ◌∙◌, List, [], ◌∷◌, arith}
use aurora_ai_native.AdaptiveLoop.Types.{
  AdaptiveLoopPhase, BoundedAdaptiveLoopConfig, SelectedRoute, RouteProjection, selected_route,
  abstained_route, AdaptiveLoopControlFrame, AdaptiveLoopSnapshot, StartAdaptiveLoopInput,
  AdaptiveLoopEvent, loop_started, AdvanceAdaptiveLoopResult,
}
use aurora_ai_native.AdaptiveLoop.Frame.{first_snapshot, start_on_route, start_adaptive_loop}
use aurora_ai_native.AdaptiveLoop.Phases.{advance_adaptive_loop}
use aurora_ai_native.AdaptiveLoop.Steps.{
  rank, repairs_left, count_advance, IsInLimits, IsExplained, IsStep,
}
use aurora_ai_native.AdaptiveLoop.Progress.{advance-IsStep}

-- The events of a run, each with the frame that it is advanced by.
unfoldable pub run_loop :
    AdaptiveLoopSnapshot
    → List (AdaptiveLoopEvent × AdaptiveLoopControlFrame)
    → AdaptiveLoopSnapshot
run_loop s [] = s
run_loop s (call ∷ calls) = run_loop (advance_adaptive_loop s (call.0) (call.1)).snapshot calls

-- How many of the calls have the status `ADVANCED`.
unfoldable pub count_advances :
    AdaptiveLoopSnapshot → List (AdaptiveLoopEvent × AdaptiveLoopControlFrame) → ℕ
count_advances s [] = 0
count_advances s (call ∷ calls) =
    let r = advance_adaptive_loop s (call.0) (call.1) in
    count_advance r.code + count_advances r.snapshot calls

potential-count_advances :
    (s : AdaptiveLoopSnapshot) (calls : List (AdaptiveLoopEvent × AdaptiveLoopControlFrame))
    → count_advances s calls ≤ rank s.phase + 5 * repairs_left s.config s.usage
unfolding count_advances
potential-count_advances s [] = omega arith
potential-count_advances s (call ∷ calls) =
    let r = advance_adaptive_loop s (call.0) (call.1) in
    let step = advance-IsStep s (call.0) (call.1) in
    omega (
      arith,
      step.paid,
      potential-count_advances r.snapshot calls,
      ap (λ config. config.max_repair_attempts - r.snapshot.usage.repair_attempts) step.same_config,
    )

rank_le : (phase : AdaptiveLoopPhase) → rank phase ≤ 6
rank_le phase = ground arith

-- From every snapshot, whatever the events and the frames, at most `6 + 5 * maxRepairAttempts` of the
-- calls advance the loop; every other call ends it or is rejected.
pub count_advances_le :
    (s : AdaptiveLoopSnapshot) (calls : List (AdaptiveLoopEvent × AdaptiveLoopControlFrame))
    → count_advances s calls ≤ 6 + 5 * s.config.max_repair_attempts
count_advances_le s calls = omega (arith, potential-count_advances s calls, rank_le s.phase)

step-IsInLimits :
    (k : ℕ) (config : BoundedAdaptiveLoopConfig) (s : AdaptiveLoopSnapshot)
    (r : AdvanceAdaptiveLoopResult)
    → s.config ≡ config
    → IsStep k s r
    → IsInLimits config s.usage
    → IsInLimits config r.snapshot.usage
step-IsInLimits k config s r e step w = rw (sym e) (step.within (rw e w))

run_loop-IsInLimits :
    (config : BoundedAdaptiveLoopConfig) (s : AdaptiveLoopSnapshot)
    (calls : List (AdaptiveLoopEvent × AdaptiveLoopControlFrame))
    → s.config ≡ config
    → IsInLimits config s.usage
    → IsExplained s
    → IsInLimits config (run_loop s calls).usage × IsExplained (run_loop s calls)
unfolding run_loop
run_loop-IsInLimits config s [] same w e = (w, e)
run_loop-IsInLimits config s (call ∷ calls) same w e =
    let r = advance_adaptive_loop s (call.0) (call.1) in
    let step = advance-IsStep s (call.0) (call.1) in
    run_loop-IsInLimits config r.snapshot calls (step.same_config ∙ same)
      (step-IsInLimits (rank s.phase) config s r same step w) (step.explained e)

start_on_route-first :
    (input : StartAdaptiveLoopInput) (route : RouteProjection) (s : AdaptiveLoopSnapshot)
    → start_on_route input route ≡ loop_started s
    → (selected : SelectedRoute) × (s ≡ first_snapshot input selected)
start_on_route-first input abstained_route s h = ground arith
start_on_route-first input (selected_route route) s h = (route, ground arith)

start-first :
    (input : StartAdaptiveLoopInput) (s : AdaptiveLoopSnapshot)
    → start_adaptive_loop input ≡ loop_started s
    → (selected : SelectedRoute) × (s ≡ first_snapshot input selected)
unfolding start_adaptive_loop
start-first input s h = start_on_route-first input input.route s (ground arith)

first_snapshot-IsInLimits :
    (input : StartAdaptiveLoopInput) (route : SelectedRoute)
    → IsInLimits input.config (first_snapshot input route).usage
first_snapshot-IsInLimits input route = record {
  iterations = omega arith;
  models = omega arith;
  tools = omega arith;
  repairs = omega arith;
}

-- A loop that starts stays within its configuration: over every sequence of events and frames, the
-- iterations, the model calls, the tool planning calls and the repairs are at most the configured
-- numbers, and the loop has a terminal reason exactly when it is in a terminal phase.
pub start-run_loop-IsInLimits :
    (input : StartAdaptiveLoopInput) (s : AdaptiveLoopSnapshot)
    (calls : List (AdaptiveLoopEvent × AdaptiveLoopControlFrame))
    → start_adaptive_loop input ≡ loop_started s
    → IsInLimits input.config (run_loop s calls).usage × IsExplained (run_loop s calls)
start-run_loop-IsInLimits input s calls h =
    let (route, e) = start-first input s h in
    run_loop-IsInLimits input.config s calls (ap (λ t. t.config) e)
      (rw e (first_snapshot-IsInLimits input route)) (rw e refl)
