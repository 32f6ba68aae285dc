-- ===== src/GoalGraph/Adjacency.antt =====
-- The adjacency of a graph (packages/control/src/goal-graph/graph.ts) against the edges it is built from.
use aurora_ai_native.Prelude.{
  ◌+◌, String, ◌≡◌, refl, sym, ap, ◌∙◌, inl, inr, true, false, Option, none, some, List, [], ◌∷◌,
  ◌++◌, map, arith, eq_iff, ◌==◌, length, All, length-append, sort_by, length-sort_by, Bool-cases,
  or_else,
}
use aurora_ai_native.GoalGraph.Types.{GoalGraphNode, GoalGraphEdge}
use aurora_ai_native.GoalGraph.Create.{
  has, Adjacency, Counts, empty_lists, push_incoming, push_outgoing, push_value, incoming_of,
  outgoing_of, initial_indegree, check_edges, edge_key, set_count,
}
use aurora_ai_native.GoalGraph.Assess.{LocaleLe}
use aurora_ai_native.GoalGraph.Counting.{
  count, edges_between, arriving, count-append, count-sort_by,
}

-- Both ends of every edge are among the ids.
abbrev pub IsClosed : List String → List GoalGraphEdge → Type 0
IsClosed ids edges =
    All (λ e. (has ids e.from_node_id ≡ true) × (has ids e.to_node_id ≡ true)) edges

pub check_edges-IsClosed :
    (ids : List String) (edges : List GoalGraphEdge) (keys : List String) (fan_in fan_out : Counts)
    → check_edges ids edges keys fan_in fan_out ≡ none
    → IsClosed ids edges
unfolding check_edges
check_edges-IsClosed ids [] keys fan_in fan_out h = tt
check_edges-IsClosed ids (e ∷ edges) keys fan_in fan_out h = (
  (ground arith, ground arith),
  check_edges-IsClosed ids edges (edge_key e ∷ keys)
      (set_count fan_in e.to_node_id (fan_in e.to_node_id + 1))
      (set_count fan_out e.from_node_id (fan_out e.from_node_id + 1)) (ground arith),
)

push_outgoing-none :
    (edges : List GoalGraphEdge) (m : Adjacency) (id : String)
    → m id ≡ none
    → push_outgoing edges m id ≡ none
unfolding push_outgoing
push_outgoing-none [] m id h = h
push_outgoing-none (e ∷ edges) m id h =
    push_outgoing-none edges (push_value m e.from_node_id e.to_node_id) id
      (elim (Bool-cases (id == e.from_node_id)) [ inl s ↦ rw s (rw h refl) | inr s ↦ rw s h ])

push_outgoing-edges_between :
    (edges : List GoalGraphEdge) (m : Adjacency) (id : String) (xs : List String)
    → m id ≡ some xs
    → (ys : List String) × (push_outgoing edges m id ≡ some ys)
      × ((v : String) → count ys v ≡ count xs v + edges_between edges id v)
unfolding push_outgoing
push_outgoing-edges_between [] m id xs h = (xs, h, λ v. omega arith)
push_outgoing-edges_between (e ∷ edges) m id xs h =
    let next = push_value m e.from_node_id e.to_node_id in
    elim (Bool-cases (id == e.from_node_id)) [
      | inl s ↦
          let (ys, at, counts) =
            push_outgoing-edges_between edges next id (xs ++ e.to_node_id ∷ [])
              (rw s (rw h refl)) in
          (
            ys,
            at,
            λ v. ground (
              arith,
              counts v,
              count-append xs (e.to_node_id ∷ []) v,
              eq_iff id e.from_node_id,
              eq_iff e.from_node_id id,
            ),
          )
      | inr s ↦
          let (ys, at, counts) = push_outgoing-edges_between edges next id xs (rw s h) in
          (
            ys,
            at,
            λ v. ground (arith, counts v, eq_iff id e.from_node_id, eq_iff e.from_node_id id),
          )
    ]

push_incoming-none :
    (edges : List GoalGraphEdge) (m : Adjacency) (id : String)
    → m id ≡ none
    → push_incoming edges m id ≡ none
unfolding push_incoming
push_incoming-none [] m id h = h
push_incoming-none (e ∷ edges) m id h =
    push_incoming-none edges (push_value m e.to_node_id e.from_node_id) id
      (elim (Bool-cases (id == e.to_node_id)) [ inl s ↦ rw s (rw h refl) | inr s ↦ rw s h ])

push_incoming-arriving :
    (edges : List GoalGraphEdge) (m : Adjacency) (id : String) (xs : List String)
    → m id ≡ some xs
    → (ys : List String) × (push_incoming edges m id ≡ some ys)
      × (length ys ≡ length xs + arriving edges id)
unfolding push_incoming
push_incoming-arriving [] m id xs h = (xs, h, omega arith)
push_incoming-arriving (e ∷ edges) m id xs h =
    let next = push_value m e.to_node_id e.from_node_id in
    elim (Bool-cases (id == e.to_node_id)) [
      | inl s ↦
          let (ys, at, counts) =
            push_incoming-arriving edges next id (xs ++ e.from_node_id ∷ []) (rw s (rw h refl)) in
          (
            ys,
            at,
            ground (
              arith,
              counts,
              length-append xs (e.from_node_id ∷ []),
              eq_iff id e.to_node_id,
              eq_iff e.to_node_id id,
            ),
          )
      | inr s ↦
          let (ys, at, counts) = push_incoming-arriving edges next id xs (rw s h) in
          (ys, at, ground (arith, counts, eq_iff id e.to_node_id, eq_iff e.to_node_id id))
    ]

between_none :
    (ids : List String) (edges : List GoalGraphEdge) (u v : String)
    → IsClosed ids edges
    → has ids u ≡ false
    → edges_between edges u v ≡ 0
between_none ids [] u v closed h = refl
between_none ids (e ∷ edges) u v closed h = elim (Bool-cases (e.from_node_id == u)) [
  | inl s ↦
      let eq = (eq_iff e.from_node_id u).0 s in
      let known : has ids u ≡ true = rw (sym eq) closed.0.0 in absurd (ground arith)
  | inr s ↦ ground (arith, between_none ids edges u v closed.1 h)
]

arriving_none :
    (ids : List String) (edges : List GoalGraphEdge) (v : String)
    → IsClosed ids edges
    → has ids v ≡ false
    → arriving edges v ≡ 0
arriving_none ids [] v closed h = refl
arriving_none ids (e ∷ edges) v closed h = elim (Bool-cases (e.to_node_id == v)) [
  | inl s ↦
      let eq = (eq_iff e.to_node_id v).0 s in
      let known : has ids v ≡ true = rw (sym eq) closed.0.1 in absurd (ground arith)
  | inr s ↦ ground (arith, arriving_none ids edges v closed.1 h)
]

initial_indegree-some :
    (m : Adjacency) (id : String) (xs : List String)
    → m id ≡ some xs
    → initial_indegree m id ≡ length xs
unfolding initial_indegree
initial_indegree-some m id xs h =
    ap (λ (o : Option (List String)). elim o [ none ↦ 0 | some sources ↦ length sources ]) h

initial_indegree-none : (m : Adjacency) (id : String) → m id ≡ none → initial_indegree m id ≡ 0
unfolding initial_indegree
initial_indegree-none m id h =
    ap (λ (o : Option (List String)). elim o [ none ↦ 0 | some sources ↦ length sources ]) h

module _ (le : LocaleLe) (nodes : List GoalGraphNode) (edges : List GoalGraphEdge)
    (closed : IsClosed (map (λ n. n.node_id) nodes) edges) where
  pub count-outgoing :
      (id v : String)
      → count (or_else (outgoing_of le nodes edges id) []) v ≡ edges_between edges id v
  unfolding outgoing_of empty_lists
  count-outgoing id v = elim (Bool-cases (has (map (λ n. n.node_id) nodes) id)) [
    | inl known ↦
        let (ys, at, counts) =
          push_outgoing-edges_between edges (empty_lists nodes) id [] (rw known refl) in
        rw at (ground (arith, counts v, count-sort_by le ys v))
    | inr unknown ↦
        rw (push_outgoing-none edges (empty_lists nodes) id (rw unknown refl))
          (sym (between_none _ edges id v closed unknown))
  ]

  pub initial_indegree-arriving :
      (v : String) → initial_indegree (incoming_of le nodes edges) v ≡ arriving edges v
  unfolding incoming_of empty_lists
  initial_indegree-arriving v = elim (Bool-cases (has (map (λ n. n.node_id) nodes) v)) [
    | inl known ↦
        let (ys, at, counts) =
          push_incoming-arriving edges (empty_lists nodes) v [] (rw known refl) in
        let d = initial_indegree-some (incoming_of le nodes edges) v (sort_by le ys) (rw at refl) in
        omega (arith, counts, d, length-sort_by le ys)
    | inr unknown ↦
        let none_there = push_incoming-none edges (empty_lists nodes) v (rw unknown refl) in
        initial_indegree-none (incoming_of le nodes edges) v (rw none_there refl)
        ∙ sym (arriving_none _ edges v closed unknown)
  ]
