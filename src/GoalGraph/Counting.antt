-- ===== src/GoalGraph/Counting.antt =====
-- How often an id stands in a list, and how the adjacency of a graph (packages/control/src/goal-graph/graph.ts)
-- counts its edges.
use aurora_ai_native.Prelude.{
  ℕ, ◌+◌, String, ◌≡◌, refl, sym, inl, inr, Bool, false, ◌&&◌, ◌||◌, not, List, [], ◌∷◌, ◌++◌,
  arith, eq_iff, ◌==◌, length, filter, insert_sorted, sort_by, Bool-cases,
}
use aurora_ai_native.GoalGraph.Types.{GoalGraphEdge}
use aurora_ai_native.GoalGraph.Create.{has}

abbrev pub count : List String → String → ℕ
count xs v = length (filter (λ x. x == v) xs)

-- The edges into a node whose source is not among the ids before it.
abbrev pub pending : List GoalGraphEdge → (String → Bool) → String → ℕ
pending edges before v =
    length (filter (λ e. e.to_node_id == v && not (before e.from_node_id)) edges)

-- The edges from one node to another, and those into a node.
abbrev pub edges_between : List GoalGraphEdge → String → String → ℕ
edges_between edges u v = length (filter (λ e. e.from_node_id == u && e.to_node_id == v) edges)

abbrev pub arriving : List GoalGraphEdge → String → ℕ
arriving edges v = length (filter (λ e. e.to_node_id == v) edges)

pub count-append : (xs ys : List String) (v : String) → count (xs ++ ys) v ≡ count xs v + count ys v
count-append [] ys v = omega arith
count-append (x ∷ xs) ys v = ground (arith, count-append xs ys v)

count-insert_sorted :
    (le : String → String → Bool) (x : String) (xs : List String) (v : String)
    → count (insert_sorted le x xs) v ≡ count (x ∷ xs) v
unfolding insert_sorted
count-insert_sorted le x [] v = refl
count-insert_sorted le x (y ∷ ys) v = ground (arith, count-insert_sorted le x ys v)

pub count-sort_by :
    (le : String → String → Bool) (xs : List String) (v : String)
    → count (sort_by le xs) v ≡ count xs v
unfolding sort_by
count-sort_by le [] v = refl
count-sort_by le (x ∷ xs) v =
    ground (arith, count-insert_sorted le x (sort_by le xs) v, count-sort_by le xs v)

pub has-count : (xs : List String) (v : String) → count xs v ≡ 0 → has xs v ≡ false
has-count [] v h = refl
has-count (x ∷ xs) v h = ground (arith, has-count xs v)

pub pending_same :
    (edges : List GoalGraphEdge) (p q : String → Bool) (v : String)
    → ((u : String) → p u ≡ q u)
    → pending edges p v ≡ pending edges q v
pending_same [] p q v same = refl
pending_same (e ∷ edges) p q v same =
    ground (arith, pending_same edges p q v same, same e.from_node_id)

-- Once an id is among those before, the edges from it are pending no more.
pub pending_next :
    (edges : List GoalGraphEdge) (p : String → Bool) (id v : String)
    → p id ≡ false
    → pending edges p v ≡ pending edges (λ u. p u || id == u) v + edges_between edges id v
pending_next [] p id v new = omega arith
pending_next (e ∷ edges) p id v new = elim (Bool-cases (e.from_node_id == id)) [
  | inl same ↦
      let eq = (eq_iff e.from_node_id id).0 same in
      let p_new : p e.from_node_id ≡ false = rw eq new in
      ground (arith, pending_next edges p id v new, eq_iff id e.from_node_id, sym eq)
  | inr other ↦
      ground
        (arith, pending_next edges p id v new, eq_iff id e.from_node_id, eq_iff e.from_node_id id)
]

pub pending_none :
    (edges : List GoalGraphEdge) (v : String) → pending edges (λ u. false) v ≡ arriving edges v
pending_none [] v = refl
pending_none (e ∷ edges) v = ground (arith, pending_none edges v)
