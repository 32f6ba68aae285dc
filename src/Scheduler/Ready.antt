-- ===== src/Scheduler/Ready.antt =====
-- The loops of a tick over the nodes of the graph: which ids they collect (packages/control/src/scheduler/scheduler.ts).
use mathlib.Core.List.{Memᴰ}
use mathlib.Core.Path.{subst}
use aurora_ai_native.Prelude.{
  String, ◌≡◌, refl, sym, ap, ◌∙◌, ◌≢◌, ◌⊎◌, inl, inr, true, some, List, [], ◌∷◌, arith, eq_iff,
  ◌==◌, find?, push_if, Outcome-cases, Bool-cases, returned, threw,
}
use aurora_ai_native.Lifecycle.{ready as ready_state}
use aurora_ai_native.GoalGraph.Types.{
  GoalGraphDependencyDisposition, GoalGraph, GoalGraphNode, GoalGraphStateSnapshot,
  GoalGraphDependencyAssessment, ready,
}
use aurora_ai_native.GoalGraph.Assess.{
  LocaleLe, state_is, assess_goal_graph_dependencies, assess_node,
}
use aurora_ai_native.GoalGraph.Readiness.{state_is-eq, eq-state_is}
use aurora_ai_native.Scheduler.{
  is_propagation, SchedulerPropagation, is_ready, propagations_from, has_id,
  dependency_ready_node_ids,
}

find-mem :
    (node : GoalGraphNode) (nodes : List GoalGraphNode)
    → Memᴰ node nodes
    → (found : GoalGraphNode) × (find? (λ n. n.node_id == node.node_id) nodes ≡ some found)
find-mem node [] m = elim m [ ]
find-mem node (n ∷ nodes) (Memᴰ.head e) =
    let same = ap (λ (x : GoalGraphNode). x.node_id) e in
    (n, ground (arith, eq_iff n.node_id node.node_id))
find-mem node (n ∷ nodes) (Memᴰ.tail m) =
    let (found, e) = find-mem node nodes m in
    elim (Bool-cases (n.node_id == node.node_id)) [
      | inl same ↦ (n, rw same refl)
      | inr differs ↦ (found, rw differs e)
    ]

module _ (le : LocaleLe) (graph : GoalGraph) (states : GoalGraphStateSnapshot) where
  -- The assessment of a node of the graph returns.
  assess-mem :
      (node : GoalGraphNode)
      → Memᴰ node graph.nodes
      → (a : GoalGraphDependencyAssessment) × (assess_goal_graph_dependencies le graph node.node_id
            states
          ≡ returned a)
  unfolding assess_goal_graph_dependencies
  assess-mem node m =
      let (found, e) = find-mem node graph.nodes m in
      (assess_node le graph found node.node_id states, rw e refl)

  pub ready_ids_return :
      (nodes : List GoalGraphNode)
      → ((node : GoalGraphNode) → Memᴰ node nodes → Memᴰ node graph.nodes)
      → (ids : List String) × (dependency_ready_node_ids le graph states nodes ≡ returned ids)
  unfolding dependency_ready_node_ids
  ready_ids_return [] inside = ([], refl)
  ready_ids_return (node ∷ nodes) inside =
      let (ids, e) = ready_ids_return nodes (λ n m. inside n (Memᴰ.tail m)) in
      let (a, f) = assess-mem node (inside node (Memᴰ.head refl)) in
      elim (Bool-cases (state_is ready_state (states node.node_id))) [
        | inl is ↦ (push_if (is_ready a.disposition) node.node_id ids, ground arith)
        | inr other ↦ (ids, ground arith)
      ]

  pub plans_return :
      (nodes : List GoalGraphNode)
      → ((node : GoalGraphNode) → Memᴰ node nodes → Memᴰ node graph.nodes)
      → (plans : List SchedulerPropagation) × (propagations_from le graph states nodes
          ≡ returned plans)
  unfolding propagations_from
  plans_return [] inside = ([], refl)
  plans_return (node ∷ nodes) inside =
      let (plans, e) = plans_return nodes (λ n m. inside n (Memᴰ.tail m)) in
      let (a, f) = assess-mem node (inside node (Memᴰ.head refl)) in
      (
        push_if (is_propagation a.disposition)
            (record {
              node_id = node.node_id;
              disposition = a.disposition;
              predecessor_node_ids = a.predecessor_node_ids;
            })
            plans,
        ground arith,
      )

is_ready-eq : (d : GoalGraphDependencyDisposition) → is_ready d ≡ true → d ≡ ready
is_ready-eq d h = ground arith

-- A node of the graph is ready: it is in the state READY and is assessed as ready.
pub record IsReleased (le : LocaleLe) (graph : GoalGraph) (states : GoalGraphStateSnapshot)
    (nodes : List GoalGraphNode) (id : String) : Type 0 where
  pub node : GoalGraphNode
  pub among : Memᴰ node nodes
  pub named : node.node_id ≡ id
  pub state : states id ≡ some ready_state
  pub assessment : GoalGraphDependencyAssessment
  pub assessed : assess_goal_graph_dependencies le graph id states ≡ returned assessment
  pub disposition : assessment.disposition ≡ ready

module _ (le : LocaleLe) (graph : GoalGraph) (states : GoalGraphStateSnapshot) where
  IsReleased-cons :
      {nodes : List GoalGraphNode} {id : String} (node : GoalGraphNode)
      → IsReleased le graph states nodes id
      → IsReleased le graph states (node ∷ nodes) id
  IsReleased-cons node r = record {
    node = r.node;
    among = Memᴰ.tail r.among;
    named = r.named;
    state = r.state;
    assessment = r.assessment;
    assessed = r.assessed;
    disposition = r.disposition;
  }

  returned_only :
      (node : GoalGraphNode) (nodes : List GoalGraphNode) (ids : List String) (message : String)
      → dependency_ready_node_ids le graph states (node ∷ nodes) ≡ returned ids
      → dependency_ready_node_ids le graph states nodes ≢ threw message
  unfolding dependency_ready_node_ids
  returned_only node nodes ids message h e =
      elim (Outcome-cases (assess_goal_graph_dependencies le graph node.node_id states)) [
        | inl (a, f) ↦ ground arith
        | inr (m, f) ↦ ground arith
      ]

  first_node :
      (node : GoalGraphNode) (nodes : List GoalGraphNode) (ids rest : List String)
      → dependency_ready_node_ids le graph states (node ∷ nodes) ≡ returned ids
      → dependency_ready_node_ids le graph states nodes ≡ returned rest
      → (ids ≡ rest)
        ⊎ (ids ≡ node.node_id ∷ rest) × IsReleased le graph states (node ∷ nodes) node.node_id
  unfolding dependency_ready_node_ids
  first_node node nodes ids rest h e =
      elim (Bool-cases (state_is ready_state (states node.node_id))) [
        | inl is ↦
            elim (Outcome-cases (assess_goal_graph_dependencies le graph node.node_id states)) [
              | inl (a, f) ↦ elim (Bool-cases (is_ready a.disposition)) [
                | inl now ↦ inr (
                  ground arith,
                  record {
                    node = node;
                    among = Memᴰ.head refl;
                    named = refl;
                    state = state_is-eq ready_state (states node.node_id) is;
                    assessment = a;
                    assessed = f;
                    disposition = is_ready-eq a.disposition now;
                  },
                )
                | inr later ↦ inl (ground arith)
              ]
              | inr (m, f) ↦ absurd (ground arith)
            ]
        | inr other ↦ inl (ground arith)
      ]

  -- One round of the loop: the first node is left out, or it is ready.
  ready_ids-cases :
      (node : GoalGraphNode) (nodes : List GoalGraphNode) (ids : List String)
      → dependency_ready_node_ids le graph states (node ∷ nodes) ≡ returned ids
      → (rest : List String) × (dependency_ready_node_ids le graph states nodes ≡ returned rest)
        × ((ids ≡ rest)
            ⊎ (ids ≡ node.node_id ∷ rest) × IsReleased le graph states (node ∷ nodes) node.node_id)
  unfolding dependency_ready_node_ids
  ready_ids-cases node nodes ids h =
      elim (Outcome-cases (dependency_ready_node_ids le graph states nodes)) [
        | inl (rest, e) ↦ (rest, e, first_node node nodes ids rest h e)
        | inr (message, e) ↦ absurd (returned_only node nodes ids message h e)
      ]

  pub ready_ids-IsReleased :
      (nodes : List GoalGraphNode) (ids : List String) (id : String)
      → dependency_ready_node_ids le graph states nodes ≡ returned ids
      → has_id ids id ≡ true
      → IsReleased le graph states nodes id
  unfolding dependency_ready_node_ids
  ready_ids-IsReleased [] ids id h m = absurd (ground arith)
  ready_ids-IsReleased (node ∷ nodes) ids id h m =
      let (rest, e, first) = ready_ids-cases node nodes ids h in
      elim first [
        | inl same ↦ IsReleased-cons node (ready_ids-IsReleased nodes rest id e (rw same at m))
        | inr (grown, r) ↦ elim (Bool-cases (node.node_id == id)) [
          | inl same ↦
              subst (IsReleased le graph states (node ∷ nodes)) ((eq_iff node.node_id id).0 same) r
          | inr differs ↦
              IsReleased-cons node
                (ready_ids-IsReleased nodes rest id e (let n = rw grown at m in ground arith))
        ]
      ]

  head_ready :
      (node : GoalGraphNode) (nodes : List GoalGraphNode) (ids rest : List String)
      (a : GoalGraphDependencyAssessment)
      → dependency_ready_node_ids le graph states (node ∷ nodes) ≡ returned ids
      → dependency_ready_node_ids le graph states nodes ≡ returned rest
      → states node.node_id ≡ some ready_state
      → assess_goal_graph_dependencies le graph node.node_id states ≡ returned a
      → a.disposition ≡ ready
      → ids ≡ node.node_id ∷ rest
  unfolding dependency_ready_node_ids
  head_ready node nodes ids rest a h e s f d =
      let is = eq-state_is ready_state (states node.node_id) s in ground arith

  module _ (id : String) (a : GoalGraphDependencyAssessment) (s : states id ≡ some ready_state)
      (f : assess_goal_graph_dependencies le graph id states ≡ returned a)
      (d : a.disposition ≡ ready) where
    pub mem-ready_ids :
        (node : GoalGraphNode) (nodes : List GoalGraphNode) (ids : List String)
        → dependency_ready_node_ids le graph states nodes ≡ returned ids
        → Memᴰ node nodes
        → node.node_id ≡ id
        → has_id ids id ≡ true
    mem-ready_ids node [] ids h m named = elim m [ ]
    mem-ready_ids node (n ∷ nodes) ids h (Memᴰ.head same) named =
        let (rest, e, first) = ready_ids-cases n nodes ids h in
        let here : n.node_id ≡ id = sym (ap (λ (x : GoalGraphNode). x.node_id) same) ∙ named in
        let grown = head_ready n nodes ids rest a h e (rw here s) (rw here f) d in
        rw grown (ground (arith, eq_iff n.node_id id))
    mem-ready_ids node (n ∷ nodes) ids h (Memᴰ.tail m) named =
        let (rest, e, first) = ready_ids-cases n nodes ids h in
        let before = mem-ready_ids node nodes rest e m named in
        elim first [ inl same ↦ rw same before | inr (grown, r) ↦ rw grown (ground arith) ]
