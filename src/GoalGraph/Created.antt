-- ===== src/GoalGraph/Created.antt =====
-- What a created goal graph is (packages/control/src/goal-graph/graph.ts).
use aurora_ai_native.Prelude.{
  ◌≤◌, String, ◌≡◌, refl, sym, ap, ◌∙◌, inl, inr, Bool, true, false, none, some, List, [], ◌∷◌, map,
  arith, eq_iff, ◌==◌, length, filter, All, insert_sorted, sort_by, ltb, eqb, Bool-cases,
}
use aurora_ai_native.GoalGraph.Types.{
  GoalGraph, GoalGraphNode, GoalGraphEdge, CreateGoalGraphInput, created,
}
use aurora_ai_native.GoalGraph.Assess.{LocaleLe}
use aurora_ai_native.GoalGraph.Create.{
  edge_key, has, kahn_start, kahn_end, outgoing_of, incoming_of, initial_indegree, check_nodes,
  check_edges, lifecycle_key, deterministic_topological_order, sorted_nodes, sorted_edges,
  create_goal_graph,
}
use aurora_ai_native.GoalGraph.Counting.{count, count-sort_by, pending_none}
use aurora_ai_native.GoalGraph.Adjacency.{
  check_edges-IsClosed, IsClosed, count-outgoing, initial_indegree-arriving,
}
use aurora_ai_native.GoalGraph.Order.{IsForward, IsSettled, kahn-IsSettled}

abbrev pub ids_of : List GoalGraphNode → List String
ids_of nodes = map (λ n. n.node_id) nodes

check_nodes-once :
    (nodes : List GoalGraphNode) (ids keys : List String)
    → check_nodes nodes ids keys ≡ none
    → (v : String) → (count (ids_of nodes) v ≤ 1) × (has ids v ≡ true → count (ids_of nodes) v ≡ 0)
unfolding check_nodes
check_nodes-once [] ids keys h v = (omega arith, λ m. refl)
check_nodes-once (n ∷ nodes) ids keys h v =
    let (one, none_left) =
      check_nodes-once nodes (n.node_id ∷ ids) (lifecycle_key n ∷ keys) (ground arith) v in
    elim (Bool-cases (n.node_id == v)) [
      | inl same ↦
          let e = (eq_iff n.node_id v).0 same in
          let zero_left = none_left (rw same refl) in
          let new : has ids n.node_id ≡ false = ground arith in
          let new_v : has ids v ≡ false = rw e at new in (ground arith, λ m. absurd (ground arith))
      | inr other ↦ (ground arith, λ m. ground (arith, none_left (ground arith)))
    ]

-- Counts and membership do not see the order of nodes.
module _ (le : GoalGraphNode → GoalGraphNode → Bool) where
  count-insert_node :
      (n : GoalGraphNode) (nodes : List GoalGraphNode) (v : String)
      → count (ids_of (insert_sorted le n nodes)) v ≡ count (ids_of (n ∷ nodes)) v
  unfolding insert_sorted
  count-insert_node n [] v = refl
  count-insert_node n (m ∷ nodes) v = ground (arith, count-insert_node n nodes v)

  count-sort_nodes :
      (nodes : List GoalGraphNode) (v : String)
      → count (ids_of (sort_by le nodes)) v ≡ count (ids_of nodes) v
  unfolding sort_by
  count-sort_nodes [] v = refl
  count-sort_nodes (n ∷ nodes) v =
      ground (arith, count-insert_node n (sort_by le nodes) v, count-sort_nodes nodes v)

pub has-by_count : (xs : List String) (v : String) → has xs v ≡ ltb 0 (count xs v)
has-by_count [] v = ground arith
has-by_count (x ∷ xs) v = ground (arith, has-by_count xs v)

module _ {ℓ κ} {A : Type ℓ} (le : A → A → Bool) (P : A → Type κ) where
  All-insert_sorted : (x : A) (xs : List A) → P x → All P xs → All P (insert_sorted le x xs)
  unfolding insert_sorted
  All-insert_sorted x [] p ps = (p, tt)
  All-insert_sorted x (y ∷ ys) p ps = elim (Bool-cases (le x y)) [
    | inl first ↦ rw first (p, ps)
    | inr later ↦ rw later (ps.0, All-insert_sorted x ys p ps.1)
  ]

  pub All-sort_by : (xs : List A) → All P xs → All P (sort_by le xs)
  unfolding sort_by
  All-sort_by [] ps = tt
  All-sort_by (x ∷ xs) ps = All-insert_sorted x (sort_by le xs) ps.0 (All-sort_by xs ps.1)

module _ {ℓ κ} {A : Type ℓ} {P Q : A → Type κ} (f : (x : A) → P x → Q x) where
  All-map : (xs : List A) → All P xs → All Q xs
  All-map [] ps = tt
  All-map (x ∷ xs) ps = (f x ps.0, All-map xs ps.1)

pub filter-once :
    (p : GoalGraphNode → Bool) (nodes : List GoalGraphNode) (v : String)
    → count (ids_of (filter p nodes)) v ≤ count (ids_of nodes) v
filter-once p [] v = omega arith
filter-once p (n ∷ nodes) v = ground (arith, filter-once p nodes v)

-- What is kept by a test of the id passes the test.
filter-kept :
    (p : String → Bool) (nodes : List GoalGraphNode) (v : String)
    → 1 ≤ count (ids_of (filter (λ n. p n.node_id) nodes)) v
    → p v ≡ true
filter-kept p [] v h = absurd (omega arith)
filter-kept p (n ∷ nodes) v h = elim (Bool-cases (n.node_id == v)) [
  | inl same ↦
      let e = (eq_iff n.node_id v).0 same in
      elim (Bool-cases (p n.node_id)) [
        | inl kept ↦ rw e at kept
        | inr dropped ↦ filter-kept p nodes v (ground arith)
      ]
  | inr other ↦ filter-kept p nodes v (ground arith)
]

module _ (le : LocaleLe) (nodes : List GoalGraphNode) (edges : List GoalGraphEdge)
    (closed : IsClosed (ids_of nodes) edges)
    (distinct : (v : String) → count (ids_of nodes) v ≤ 1) where
  pub start-IsSettled : IsSettled edges (kahn_start le nodes edges) []
  unfolding kahn_start
  start-IsSettled =
      let zero_at = λ (id : String). eqb (initial_indegree (incoming_of le nodes edges) id) 0 in
      let sorted =
        λ (v : String). count-sort_by le (ids_of (filter (λ n. zero_at n.node_id) nodes)) v in
      record {
        counted = λ v.
            omega (arith, initial_indegree-arriving le nodes edges closed v, pending_none edges v);
        zero_queued = λ v h.
            let kept = filter-kept zero_at nodes v (omega (arith, h, sorted v)) in ground arith;
        once =
            λ v. omega (arith, sorted v, filter-once (λ n. zero_at n.node_id) nodes v, distinct v);
        forward = tt;
      }

  pub end-IsSettled : IsSettled edges (kahn_end le nodes edges) []
  unfolding kahn_end
  end-IsSettled =
      kahn-IsSettled le edges (outgoing_of le nodes edges) (length nodes)
        (kahn_start le nodes edges) (count-outgoing le nodes edges closed) start-IsSettled

-- Both checks of a created graph have passed, and the order is that of its sorted nodes and edges.
pub created-checks :
    (le : LocaleLe) (input : CreateGoalGraphInput) (graph : GoalGraph)
    → create_goal_graph le input ≡ created graph
    → (check_nodes input.nodes [] [] ≡ none)
      × (check_edges (ids_of input.nodes) input.edges [] (λ k. 0) (λ k. 0) ≡ none)
unfolding create_goal_graph
created-checks le input graph h = (ground arith, ground arith)

pub created-order :
    (le : LocaleLe) (input : CreateGoalGraphInput) (graph : GoalGraph)
    → create_goal_graph le input ≡ created graph
    → (graph.nodes ≡ sorted_nodes le input.nodes)
      × (graph.edges ≡ sorted_edges le input.edges)
      × (deterministic_topological_order le
            (sorted_nodes le input.nodes)
            (sorted_edges le input.edges)
          ≡ some graph.topological_order)
unfolding create_goal_graph
created-order le input graph h = (ground arith, ground arith, ground arith)

pub topological_order-kahn :
    (le : LocaleLe) (nodes : List GoalGraphNode) (edges : List GoalGraphEdge) (order : List String)
    → deterministic_topological_order le nodes edges ≡ some order
    → (order ≡ (kahn_end le nodes edges).order) × (length order ≡ length nodes)
unfolding deterministic_topological_order
topological_order-kahn le nodes edges order h = (ground arith, ground arith)

-- Once both checks have passed, no id stands twice among the sorted nodes, and the sorted edges are
-- closed.
module _ (le : LocaleLe) (input : CreateGoalGraphInput)
    (nodes_checked : check_nodes input.nodes [] [] ≡ none)
    (edges_checked : check_edges (ids_of input.nodes) input.edges [] (λ k. 0) (λ k. 0) ≡ none) where
  pub sorted-once : (v : String) → count (ids_of (sorted_nodes le input.nodes)) v ≤ 1
  unfolding sorted_nodes
  sorted-once v =
      let (once, fresh) = check_nodes-once input.nodes [] [] nodes_checked v in
      omega (arith, once, count-sort_nodes (λ a b. le a.node_id b.node_id) input.nodes v)

  sorted-has :
      (v : String)
      → has (ids_of input.nodes) v ≡ true
      → has (ids_of (sorted_nodes le input.nodes)) v ≡ true
  unfolding sorted_nodes
  sorted-has v m =
      let s = sort_by (λ a b. le a.node_id b.node_id) input.nodes in
      ground (
        arith,
        m,
        has-by_count (ids_of input.nodes) v,
        has-by_count (ids_of s) v,
        count-sort_nodes (λ a b. le a.node_id b.node_id) input.nodes v,
      )

  pub sorted-IsClosed :
      IsClosed (ids_of (sorted_nodes le input.nodes)) (sorted_edges le input.edges)
  unfolding sorted_edges
  sorted-IsClosed =
      All-sort_by (λ a b. le (edge_key a) (edge_key b)) _ input.edges
        (All-map (λ e ends. (sorted-has e.from_node_id ends.0, sorted-has e.to_node_id ends.1))
          input.edges
          (check_edges-IsClosed (ids_of input.nodes) input.edges [] (λ k. 0) (λ k. 0)
            edges_checked))

  end-order-IsForward :
      IsForward
        (sorted_edges le input.edges)
        (λ u. false)
        (kahn_end le (sorted_nodes le input.nodes) (sorted_edges le input.edges)).order
  end-order-IsForward =
      (end-IsSettled le (sorted_nodes le input.nodes) (sorted_edges le input.edges) sorted-IsClosed
        sorted-once).forward

-- The order of a created graph is as long as its list of nodes, no id stands twice in it, and every
-- edge into an id comes from an id before it.
pub create-IsForward :
    (le : LocaleLe) (input : CreateGoalGraphInput) (graph : GoalGraph)
    → create_goal_graph le input ≡ created graph
    → (length graph.topological_order ≡ length graph.nodes)
      × IsForward graph.edges (λ u. false) graph.topological_order
create-IsForward le input graph h =
    let (nodes_checked, edges_checked) = created-checks le input graph h in
    let (nodes_are, edges_are, ordered) = created-order le input graph h in
    let (order_is, long) = topological_order-kahn le _ _ graph.topological_order ordered in
    (
      long ∙ ap (λ ns. length ns) (sym nodes_are),
      rw edges_are (rw order_is (end-order-IsForward le input nodes_checked edges_checked)),
    )
