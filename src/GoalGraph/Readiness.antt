-- ===== src/GoalGraph/Readiness.antt =====
-- What the dependency assessment (packages/control/src/goal-graph/graph.ts) promises to the
-- scheduler.
use mathlib.Core.List.{Memᴰ}
use aurora_ai_native.Prelude.{
  String, ◌≡◌, refl, sym, ap, ◌∙◌, ◌≢◌, ◌⊎◌, inl, inr, Bool, true, ◌||◌, Option, none, some, List,
  [], ◌∷◌, map, arith, eq_iff, ◌==◌, filter, any, all, find?, sort_by, all-sort_by, Bool-cases,
  &&-eq-true, returned,
}
use aurora_ai_native.Lifecycle.{
  LifecycleState, LifecycleState-discrete, succeeded, failed, cancelled, superseded,
}
use aurora_ai_native.GoalGraph.Types.{
  GoalGraphNode, GoalGraphEdge, GoalGraph, GoalGraphJoinPolicy, all_success, all_terminal,
  any_success, ready, waiting, GoalGraphDependencyAssessment, GoalGraphStateSnapshot,
}
use aurora_ai_native.GoalGraph.Assess.{
  LocaleLe, predecessor_node_ids, state_is, is_terminal_state, join, assess_node,
  assess_goal_graph_dependencies,
}

-- The predecessors have all ended.
abbrev pub AllEnded : List (Option LifecycleState) → Type 0
AllEnded states = all is_terminal_state states ≡ true

-- An ended state is a success, a failure, or a cancellation or supersession.
ended-cases :
    (states : List (Option LifecycleState))
    → AllEnded states
    → (all (state_is succeeded) states ≡ true)
      ⊎ (any (state_is failed) states ≡ true)
      ⊎ (any (λ s. state_is cancelled s || state_is superseded s) states ≡ true)
unfolding LifecycleState-discrete
ended-cases [] h = inl refl
ended-cases (none ∷ states) h = absurd (ground arith)
ended-cases (some s ∷ states) h = ground (arith, ended-cases states)

-- Once all predecessors have ended, no join policy waits any longer.
pub join_settles :
    (policy : GoalGraphJoinPolicy) (states : List (Option LifecycleState))
    → AllEnded states
    → (join policy states).0 ≢ waiting
unfolding join
join_settles all_success states h = ground (arith, ended-cases states h)
join_settles all_terminal states h = ground arith
join_settles any_success states h = ground arith

-- How the states of a list may go on: an ended one stays as it is.
abbrev pub Evolves : List (Option LifecycleState) → List (Option LifecycleState) → Type 0
Evolves [] [] = Unit
Evolves [] (t ∷ ts) = ⊥
Evolves (s ∷ ss) [] = ⊥
Evolves (s ∷ ss) (t ∷ ts) = (is_terminal_state s ≡ true → t ≡ s) × Evolves ss ts

all-Evolves :
    (p : Option LifecycleState → Bool) (ss ts : List (Option LifecycleState))
    → ((s : Option LifecycleState) → p s ≡ true → is_terminal_state s ≡ true)
    → Evolves ss ts
    → all p ss ≡ true
    → all p ts ≡ true
all-Evolves p [] [] ends e h = refl
all-Evolves p [] (t ∷ ts) ends e h = absurd e
all-Evolves p (s ∷ ss) [] ends e h = absurd e
all-Evolves p (s ∷ ss) (t ∷ ts) ends e h =
    let (ps, rest) = &&-eq-true (p s) (all p ss) h in
    let more = all-Evolves p ss ts ends e.1 rest in rw (e.0 (ends s ps)) (ground arith)

any-Evolves :
    (p : Option LifecycleState → Bool) (ss ts : List (Option LifecycleState))
    → ((s : Option LifecycleState) → p s ≡ true → is_terminal_state s ≡ true)
    → Evolves ss ts
    → any p ss ≡ true
    → any p ts ≡ true
any-Evolves p [] [] ends e h = h
any-Evolves p [] (t ∷ ts) ends e h = absurd e
any-Evolves p (s ∷ ss) [] ends e h = absurd e
any-Evolves p (s ∷ ss) (t ∷ ts) ends e h = elim (Bool-cases (p s)) [
  | inl ps ↦ rw (e.0 (ends s ps)) (ground arith)
  | inr other ↦ let more = any-Evolves p ss ts ends e.1 (ground arith) in ground arith
]

succeeded_ends :
    (s : Option LifecycleState) → state_is succeeded s ≡ true → is_terminal_state s ≡ true
unfolding LifecycleState-discrete
succeeded_ends none h = ground arith
succeeded_ends (some s) h = ground arith

-- A dependency that is ready stays ready, however the states of its predecessors go on.
pub join-ready_stable :
    (policy : GoalGraphJoinPolicy) (ss ts : List (Option LifecycleState))
    → Evolves ss ts
    → (join policy ss).0 ≡ ready
    → (join policy ts).0 ≡ ready
unfolding join
join-ready_stable all_success ss ts e h =
    let more = all-Evolves (state_is succeeded) ss ts succeeded_ends e (ground arith) in
    ground arith
join-ready_stable all_terminal ss ts e h =
    let more = all-Evolves is_terminal_state ss ts (λ s p. p) e (ground arith) in ground arith
join-ready_stable any_success ss ts e h =
    let more = any-Evolves (state_is succeeded) ss ts succeeded_ends e (ground arith) in
    ground arith

all-map {ℓ κ} :
    {A : Type ℓ} {B : Type κ} (p : B → Bool) (f : A → B) (xs : List A)
    → all p (map f xs) ≡ all (λ x. p (f x)) xs
all-map p f [] = refl
all-map p f (x ∷ xs) = ground (arith, all-map p f xs)

-- What holds of the sources of all edges into a node.
all-edges_into :
    (p : String → Bool) (node_id : String) (edges : List GoalGraphEdge) {e : GoalGraphEdge}
    → all (λ d. p d.from_node_id) (filter (λ d. d.to_node_id == node_id) edges) ≡ true
    → Memᴰ e edges
    → e.to_node_id ≡ node_id
    → p e.from_node_id ≡ true
all-edges_into p node_id [] h m to = elim m [ ]
all-edges_into p node_id (d ∷ edges) h (Memᴰ.head q) to =
    let same = ap (λ (x : GoalGraphEdge). x.to_node_id) q in
    let source = ap (λ (x : GoalGraphEdge). p x.from_node_id) q in
    ground (arith, eq_iff d.to_node_id node_id)
all-edges_into p node_id (d ∷ edges) h (Memᴰ.tail m) to =
    all-edges_into p node_id edges (ground arith) m to

join-all_success :
    (states : List (Option LifecycleState))
    → (join all_success states).0 ≡ ready
    → all (state_is succeeded) states ≡ true
unfolding join
join-all_success states h = ground arith

pub state_is-eq :
    (s : LifecycleState) (o : Option LifecycleState) → state_is s o ≡ true → o ≡ some s
unfolding LifecycleState-discrete
state_is-eq s none h = ground arith
state_is-eq s (some t) h = ground arith

module _ (le : LocaleLe) (graph : GoalGraph) (node : GoalGraphNode) (node_id : String)
    (states : GoalGraphStateSnapshot) where
  assess_node-ready :
      (assess_node le graph node node_id states).disposition ≡ ready
      → (predecessor_node_ids le graph node_id ≡ [])
        ⊎ ((join node.join_policy (map states (predecessor_node_ids le graph node_id))).0 ≡ ready)
  unfolding assess_node
  assess_node-ready h = ground arith

  assess_node-waiting :
      (assess_node le graph node node_id states).disposition ≡ waiting
      → (join node.join_policy (map states (predecessor_node_ids le graph node_id))).0 ≡ waiting
  unfolding assess_node
  assess_node-waiting h = ground arith

  ready-predecessors :
      node.join_policy ≡ all_success
      → (assess_node le graph node node_id states).disposition ≡ ready
      → all (state_is succeeded) (map states (predecessor_node_ids le graph node_id)) ≡ true
  ready-predecessors policy h = elim (assess_node-ready h) [
    | inl root ↦ rw root refl
    | inr joined ↦ join-all_success _ (rw policy at joined)
  ]

  ready-edges :
      {e : GoalGraphEdge}
      → node.join_policy ≡ all_success
      → (assess_node le graph node node_id states).disposition ≡ ready
      → Memᴰ e graph.edges
      → e.to_node_id ≡ node_id
      → states e.from_node_id ≡ some succeeded
  unfolding predecessor_node_ids
  ready-edges policy h m to =
      let sources =
        map (λ (e : GoalGraphEdge). e.from_node_id)
          (filter (λ e. e.to_node_id == node_id) graph.edges) in
      let sorted = ready-predecessors policy h in
      let unsorted : all (λ i. state_is succeeded (states i)) sources ≡ true =
        sym (all-sort_by (λ i. state_is succeeded (states i)) le sources)
        ∙ sym (all-map (state_is succeeded) states (sort_by le sources))
        ∙ sorted in
      state_is-eq succeeded _ (
        all-edges_into (λ i. state_is succeeded (states i)) node_id graph.edges
          (sym (
              all-map (λ i. state_is succeeded (states i)) (λ (x : GoalGraphEdge). x.from_node_id)
                (filter (λ x. x.to_node_id == node_id) graph.edges))
            ∙ unsorted)
          m to)

-- A node that joins on ALL_SUCCESS is assessed as ready only if the source of every edge into it has
-- succeeded.
pub assess-ready_edges :
    (le : LocaleLe) (graph : GoalGraph) (node : GoalGraphNode) (node_id : String)
    (states : GoalGraphStateSnapshot) (a : GoalGraphDependencyAssessment) (e : GoalGraphEdge)
    → find? (λ n. n.node_id == node_id) graph.nodes ≡ some node
    → node.join_policy ≡ all_success
    → assess_goal_graph_dependencies le graph node_id states ≡ returned a
    → a.disposition ≡ ready
    → Memᴰ e graph.edges
    → e.to_node_id ≡ node_id
    → states e.from_node_id ≡ some succeeded
unfolding assess_goal_graph_dependencies
assess-ready_edges le graph node node_id states a e found policy h is_ready m to =
    let same : assess_node le graph node node_id states ≡ a = ground arith in
    ready-edges le graph node node_id states policy (rw same is_ready) m to

-- The assessment of a node of the graph returns, and once all of the node's predecessors have ended
-- it does not tell the node to wait.
pub assess_settles :
    (le : LocaleLe) (graph : GoalGraph) (node : GoalGraphNode) (node_id : String)
    (states : GoalGraphStateSnapshot)
    → find? (λ n. n.node_id == node_id) graph.nodes ≡ some node
    → AllEnded (map states (predecessor_node_ids le graph node_id))
    → (a : GoalGraphDependencyAssessment) × (assess_goal_graph_dependencies le graph node_id states
        ≡ returned a)
      × (a.disposition ≢ waiting)
unfolding assess_goal_graph_dependencies
assess_settles le graph node node_id states found ended = (
  assess_node le graph node node_id states,
  ground arith,
  λ w. join_settles node.join_policy _ ended (assess_node-waiting le graph node node_id states w),
)

pub eq-state_is :
    (s : LifecycleState) (o : Option LifecycleState) → o ≡ some s → state_is s o ≡ true
unfolding LifecycleState-discrete
eq-state_is s none h = ground arith
eq-state_is s (some t) h = ground arith
