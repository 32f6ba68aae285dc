-- ===== src/Scheduler/Plan.antt =====
-- Which nodes a planned tick is about (packages/control/src/scheduler/scheduler.ts).
use mathlib.Core.List.{Memᴰ}
use aurora_ai_native.Prelude.{
  ℕ, ◌+◌, ◌≤◌, ◌<◌, String, ◌≡◌, refl, sym, ap, ◌∙◌, ◌≢◌, ◌↔◌, true, some, [], ◌++◌, arith, ◌==◌,
  length, find?, length-append, &&-eq-true, returned, threw,
}
use aurora_ai_native.Lifecycle.{succeeded}
use aurora_ai_native.GoalGraph.Types.{GoalGraphNode, GoalGraphEdge, all_success}
use aurora_ai_native.GoalGraph.Assess.{LocaleLe}
use aurora_ai_native.GoalGraph.Readiness.{assess-ready_edges}
use aurora_ai_native.Scheduler.Types.{SchedulerTickInput, SchedulerPlan, planned, no_backpressure}
use aurora_ai_native.Scheduler.{
  calculate_capacity, SchedulerCapacity, deferred_of, backpressure_reason_of, propagation_plans,
  has_id, plan_scheduler_tick, plan_of, fairness_of, fair_order, dispatch_of,
}
use aurora_ai_native.Scheduler.Queue.{
  nil_of_length, IsDistinct, fair_order-IsDistinct, dispatch-append-deferred, has_id-fair_order,
  has_id-append,
}
use aurora_ai_native.Scheduler.Ready.{
  IsReleased, ready_ids-IsReleased, mem-ready_ids, ready_ids_return, plans_return,
}
use aurora_ai_native.Scheduler.Capacity.{planned-plan_of}

-- A tick returns a plan or a rejection on every input: it assesses only nodes of its graph, so the
-- assessment never throws.
pub plan_never_throws :
    (le : LocaleLe) (input : SchedulerTickInput) (message : String)
    → plan_scheduler_tick le input ≢ threw message
unfolding plan_scheduler_tick propagation_plans
plan_never_throws le input message h =
    let (ids, e) = ready_ids_return le input.graph input.states input.graph.nodes (λ n m. m) in
    let (plans, f) = plans_return le input.graph input.states input.graph.nodes (λ n m. m) in
    ground arith

-- Where the graph's topological order has no id twice, the nodes that a planned tick names, those that go out and those that are put off, stand once each,
-- and they are exactly the ready nodes that the topological order has.
pub plan_names_ready :
    (le : LocaleLe) (input : SchedulerTickInput) (plan : SchedulerPlan) (id : String)
    → IsDistinct input.graph.topological_order
    → plan_scheduler_tick le input ≡ returned (planned plan)
    → IsDistinct (plan.dispatch_node_ids ++ plan.deferred_ready_node_ids)
      × ((has_id (plan.dispatch_node_ids ++ plan.deferred_ready_node_ids) id ≡ true) ↔ (
          (has_id input.graph.topological_order id ≡ true)
          × IsReleased le input.graph input.states input.graph.nodes id))
unfolding plan_of
plan_names_ready le input plan id d h =
    let (ready_ids, propagations, e, valid, r) = planned-plan_of le input plan h in
    let order = fair_order input.graph (fairness_of input) ready_ids in
    let distinct = fair_order-IsDistinct input.graph (fairness_of input) ready_ids d in
    let whole : plan.dispatch_node_ids ++ plan.deferred_ready_node_ids ≡ order =
      ap (λ p. p.dispatch_node_ids ++ p.deferred_ready_node_ids) e
      ∙ dispatch-append-deferred input order distinct in
    let members = has_id-fair_order input.graph (fairness_of input) ready_ids id in
    rw whole (
      distinct,
      (
        λ m.
            let (t, s) = &&-eq-true _ _ (sym members ∙ m) in
            (
              t,
              ready_ids-IsReleased le input.graph input.states input.graph.nodes ready_ids id r s,
            ),
        λ (t, s).
            let m =
              mem-ready_ids le input.graph input.states id s.assessment s.state s.assessed
                s.disposition s.node input.graph.nodes ready_ids r s.among s.named in
            members ∙ rw (t, m) refl,
      ),
    )

-- Where the graph's topological order has no id twice, a node that goes out in a planned tick and joins on
-- ALL_SUCCESS has behind it, for every edge of the graph into it, a source that has succeeded.
pub plan-dispatch_after :
    (le : LocaleLe) (input : SchedulerTickInput) (plan : SchedulerPlan) (id : String)
    (node : GoalGraphNode) (e : GoalGraphEdge)
    → IsDistinct input.graph.topological_order
    → plan_scheduler_tick le input ≡ returned (planned plan)
    → has_id plan.dispatch_node_ids id ≡ true
    → find? (λ n. n.node_id == id) input.graph.nodes ≡ some node
    → node.join_policy ≡ all_success
    → Memᴰ e input.graph.edges
    → e.to_node_id ≡ id
    → input.states e.from_node_id ≡ some succeeded
plan-dispatch_after le input plan id node e d h out found policy m to =
    let names = plan_names_ready le input plan id d h in
    let listed : has_id (plan.dispatch_node_ids ++ plan.deferred_ready_node_ids) id ≡ true =
      has_id-append plan.dispatch_node_ids plan.deferred_ready_node_ids id ∙ rw out refl in
    let (t, r) = names.1.0 listed in
    assess-ready_edges le input.graph node id input.states r.assessment e found policy r.assessed
      r.disposition m to

no_backpressure-all :
    (input : SchedulerTickInput) (capacity : SchedulerCapacity) (ready_count dispatch_count : ℕ)
    → backpressure_reason_of input capacity ready_count dispatch_count ≡ no_backpressure
    → (0 < ready_count) × (ready_count ≤ dispatch_count)
unfolding backpressure_reason_of
no_backpressure-all input capacity ready_count dispatch_count h = (ground arith, ground arith)

-- A planned tick that reports no backpressure puts nothing off, and sends something out.
pub plan-no_backpressure :
    (le : LocaleLe) (input : SchedulerTickInput) (plan : SchedulerPlan)
    → IsDistinct input.graph.topological_order
    → plan_scheduler_tick le input ≡ returned (planned plan)
    → plan.backpressure_reason ≡ no_backpressure
    → (plan.deferred_ready_node_ids ≡ []) × (0 < length plan.dispatch_node_ids)
unfolding plan_of
plan-no_backpressure le input plan d h none_held =
    let (ready_ids, propagations, e, valid, r) = planned-plan_of le input plan h in
    let order = fair_order input.graph (fairness_of input) ready_ids in
    let distinct = fair_order-IsDistinct input.graph (fairness_of input) ready_ids d in
    let out = dispatch_of input order in
    let put_off = deferred_of out order in
    let split = dispatch-append-deferred input order distinct in
    let (some_ready, all_out) =
      no_backpressure-all input (calculate_capacity input) (length order) (length out)
        (sym (ap (λ p. p.backpressure_reason) e) ∙ none_held) in
    let sizes : length out + length put_off ≡ length order =
      sym (length-append out put_off) ∙ ap length split in
    rw e (nil_of_length put_off (ground arith), omega arith)
