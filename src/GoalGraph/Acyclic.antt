-- ===== src/GoalGraph/Acyclic.antt =====
-- When createGoalGraph (packages/control/src/goal-graph/graph.ts) reports a cycle.
use aurora_ai_native.Prelude.{
  ℕ, zero, suc, ◌+◌, ◌≤◌, ◌<◌, String, ◌≡◌, refl, sym, ap, ◌≢◌, inl, inr, Bool, true, none, some,
  List, [], ◌∷◌, arith, eq_iff, ◌==◌, length, filter, All, ltb, eqb, Bool-cases,
}
use aurora_ai_native.GoalGraph.Types.{
  GoalGraphNode, GoalGraphEdge, CreateGoalGraphInput, rejected, cycle_detected,
}
use aurora_ai_native.GoalGraph.Assess.{LocaleLe}
use aurora_ai_native.GoalGraph.Create.{
  has, Counts, kahn_start, kahn_end, outgoing_of, incoming_of, initial_indegree, check_nodes,
  check_edges, lifecycle_key, deterministic_topological_order, sorted_nodes, sorted_edges,
  create_goal_graph, edge_key, set_count,
}
use aurora_ai_native.GoalGraph.Counting.{count, edges_between, pending, count-sort_by}
use aurora_ai_native.GoalGraph.Adjacency.{IsClosed, count-outgoing}
use aurora_ai_native.GoalGraph.Exhaustion.{IsTracked, kahn_exhausts, length-by_count}
use aurora_ai_native.GoalGraph.Created.{
  ids_of, start-IsSettled, end-IsSettled, sorted-once, sorted-IsClosed, has-by_count, All-sort_by,
  filter-once,
}

check_nodes-no_cycle :
    (nodes : List GoalGraphNode) (ids keys : List String)
    → check_nodes nodes ids keys ≢ some cycle_detected
unfolding check_nodes
check_nodes-no_cycle [] ids keys h = absurd (ground arith)
check_nodes-no_cycle (n ∷ nodes) ids keys h =
    check_nodes-no_cycle nodes (n.node_id ∷ ids) (lifecycle_key n ∷ keys) (ground arith)

check_edges-no_cycle :
    (ids : List String) (edges : List GoalGraphEdge) (keys : List String) (fan_in fan_out : Counts)
    → check_edges ids edges keys fan_in fan_out ≢ some cycle_detected
unfolding check_edges
check_edges-no_cycle ids [] keys fan_in fan_out h = absurd (ground arith)
check_edges-no_cycle ids (e ∷ edges) keys fan_in fan_out h =
    check_edges-no_cycle ids edges (edge_key e ∷ keys)
      (set_count fan_in e.to_node_id (fan_in e.to_node_id + 1))
      (set_count fan_out e.from_node_id (fan_out e.from_node_id + 1)) (ground arith)

cycle-checks :
    (le : LocaleLe) (input : CreateGoalGraphInput)
    → create_goal_graph le input ≡ rejected cycle_detected
    → (check_nodes input.nodes [] [] ≡ none)
      × (check_edges (ids_of input.nodes) input.edges [] (λ k. 0) (λ k. 0) ≡ none)
      × (deterministic_topological_order le
            (sorted_nodes le input.nodes)
            (sorted_edges le input.edges)
          ≡ none)
unfolding create_goal_graph
cycle-checks le input h =
    let a = check_nodes-no_cycle input.nodes [] [] in
    let b = check_edges-no_cycle (ids_of input.nodes) input.edges [] (λ k. 0) (λ k. 0) in
    (ground arith, ground arith, ground arith)

pub length-ids_of : (nodes : List GoalGraphNode) → length (ids_of nodes) ≡ length nodes
length-ids_of [] = refl
length-ids_of (n ∷ nodes) = omega (arith, length-ids_of nodes)

between_known :
    (ids : List String) (edges : List GoalGraphEdge) (u v : String)
    → IsClosed ids edges
    → 1 ≤ edges_between edges u v
    → has ids v ≡ true
between_known ids [] u v closed h = absurd (omega arith)
between_known ids (e ∷ edges) u v closed h = elim (Bool-cases (e.to_node_id == v)) [
  | inl same ↦ let eq = (eq_iff e.to_node_id v).0 same in rw (sym eq) closed.0.1
  | inr other ↦ between_known ids edges u v closed.1 (ground arith)
]

filter-all_kept :
    (p : String → Bool) (nodes : List GoalGraphNode) (v : String)
    → p v ≡ true
    → count (ids_of (filter (λ n. p n.node_id) nodes)) v ≡ count (ids_of nodes) v
filter-all_kept p [] v h = refl
filter-all_kept p (n ∷ nodes) v h = elim (Bool-cases (n.node_id == v)) [
  | inl same ↦
      let e = (eq_iff n.node_id v).0 same in
      let kept : p n.node_id ≡ true = rw e h in ground (arith, filter-all_kept p nodes v h)
  | inr other ↦ ground (arith, filter-all_kept p nodes v h)
]

module _ (ids order : List String) (rank : String → ℕ) (v : String)
    (before : (u : String) → rank u < rank v → 1 ≤ count ids u → 1 ≤ count order u) where
  pending_ordered :
      (edges : List GoalGraphEdge)
      → IsClosed ids edges
      → All (λ e. rank e.from_node_id < rank e.to_node_id) edges
      → pending edges (has order) v ≡ 0
  pending_ordered [] closed ranked = refl
  pending_ordered (e ∷ edges) closed ranked =
      let rest = pending_ordered edges closed.1 ranked.1 in
      elim (Bool-cases (e.to_node_id == v)) [
        | inl same ↦
            let eq = (eq_iff e.to_node_id v).0 same in
            let lower : rank e.from_node_id < rank v = rw (sym eq) ranked.0 in
            let known : 1 ≤ count ids e.from_node_id =
              ground (arith, closed.0.0, has-by_count ids e.from_node_id) in
            let done = before e.from_node_id lower known in
            ground (arith, done, has-by_count order e.from_node_id)
        | inr other ↦ ground arith
      ]

module _ (le : LocaleLe) (nodes : List GoalGraphNode) (edges : List GoalGraphEdge)
    (closed : IsClosed (ids_of nodes) edges)
    (distinct : (v : String) → count (ids_of nodes) v ≤ 1) where
  start-IsTracked : IsTracked (ids_of nodes) (kahn_start le nodes edges)
  unfolding kahn_start
  start-IsTracked =
      let zero_at = λ (id : String). eqb (initial_indegree (incoming_of le nodes edges) id) 0 in
      let sorted =
        λ (v : String). count-sort_by le (ids_of (filter (λ n. zero_at n.node_id) nodes)) v in
      record {
        within = λ v. omega (arith, sorted v, filter-once (λ n. zero_at n.node_id) nodes v);
        complete = λ v m z.
            let all_kept = filter-all_kept zero_at nodes v (ground arith) in
            omega (arith, m, sorted v, all_kept);
      }

  edge_known : (id v : String) → 1 ≤ edges_between edges id v → 1 ≤ count (ids_of nodes) v
  edge_known id v h =
      ground
        (arith, between_known (ids_of nodes) edges id v closed h, has-by_count (ids_of nodes) v)

  pub end_exhausts :
      IsTracked (ids_of nodes) (kahn_end le nodes edges) × ((kahn_end le nodes edges).ready ≡ [])
  unfolding kahn_end
  end_exhausts =
      kahn_exhausts le edges (ids_of nodes) (outgoing_of le nodes edges)
        (count-outgoing le nodes edges closed) edge_known (length nodes) (kahn_start le nodes edges)
        (start-IsSettled le nodes edges closed distinct) start-IsTracked
        (omega (arith, length-ids_of nodes))

  module _ (rank : String → ℕ)
      (ranked : All (λ e. rank e.from_node_id < rank e.to_node_id) edges) where
    all_ordered :
        (bound : ℕ) (v : String)
        → rank v < bound
        → 1 ≤ count (ids_of nodes) v
        → 1 ≤ count ((kahn_end le nodes edges).order) v
    all_ordered zero v low m = absurd (omega arith)
    all_ordered (suc bound) v low m =
        let end = kahn_end le nodes edges in
        let (tracked, empty) = end_exhausts in
        let settled = end-IsSettled le nodes edges closed distinct in
        let done =
          pending_ordered (ids_of nodes) end.order rank v
            (λ u lower. all_ordered bound u (omega (arith, lower, low))) edges closed ranked in
        omega (
          arith,
          tracked.complete v m (omega (arith, settled.counted v, done)),
          ap (λ xs. count xs v) empty,
        )

    ranked_order : deterministic_topological_order le nodes edges ≢ none
    unfolding deterministic_topological_order
    ranked_order h =
        let end = kahn_end le nodes edges in
        let (tracked, empty) = end_exhausts in
        let enough = length-by_count (ids_of nodes) end.order (λ v.
          elim (Bool-cases (ltb 0 (count (ids_of nodes) v))) [
            | inl m ↦
                omega (arith, distinct v, all_ordered (suc (rank v)) v (omega arith) (ground arith))
            | inr m ↦ ground arith
          ]) in
        let bounded =
          length-by_count end.order (ids_of nodes) (λ v. omega (arith, tracked.within v)) in
        let n = length-ids_of nodes in ground arith

-- A graph whose edges go up in some rank of its ids, which is a graph without a cycle, is never rejected
-- for a cycle.
pub create_acyclic :
    (le : LocaleLe) (input : CreateGoalGraphInput) (rank : String → ℕ)
    → All (λ e. rank e.from_node_id < rank e.to_node_id) input.edges
    → create_goal_graph le input ≢ rejected cycle_detected
unfolding sorted_edges
create_acyclic le input rank ranked h =
    let (nodes_checked, edges_checked, no_order) = cycle-checks le input h in
    ranked_order le (sorted_nodes le input.nodes) (sorted_edges le input.edges)
      (sorted-IsClosed le input nodes_checked edges_checked)
      (sorted-once le input nodes_checked edges_checked) rank
      (All-sort_by (λ a b. le (edge_key a) (edge_key b)) _ input.edges ranked) no_order
