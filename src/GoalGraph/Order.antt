-- ===== src/GoalGraph/Order.antt =====
-- The topological order of a created goal graph (packages/control/src/goal-graph/graph.ts).
use aurora_ai_native.Prelude.{
  ℕ, zero, suc, ◌+◌, ◌-◌, ◌≤◌, String, ◌≡◌, refl, sym, ap, ◌∙◌, Bool, false, ◌||◌, List, [], ◌∷◌,
  ◌++◌, arith, eq_iff, ◌==◌, sort_by, eqb, if◌then◌else◌, or_else,
}
use aurora_ai_native.GoalGraph.Types.{GoalGraphEdge}
use aurora_ai_native.GoalGraph.Assess.{LocaleLe}
use aurora_ai_native.GoalGraph.Create.{has, Adjacency, KahnState, release, kahn, set_count}
use aurora_ai_native.GoalGraph.Counting.{
  count, edges_between, pending, count-append, count-sort_by, has-count, pending_same, pending_next,
}

-- Every id of the list is new, and every edge into it comes from an id before it.
abbrev pub IsForward : List GoalGraphEdge → (String → Bool) → List String → Type 0
IsForward edges before [] = Unit
IsForward edges before (v ∷ vs) =
    (before v ≡ false) × (pending edges before v ≡ 0) × IsForward edges (λ u. before u || v == u) vs

IsForward-snoc :
    (edges : List GoalGraphEdge) (before : String → Bool) (xs : List String) (v : String)
    → IsForward edges before xs
    → (before v || has xs v) ≡ false
    → pending edges (λ u. before u || has xs u) v ≡ 0
    → IsForward edges before (xs ++ v ∷ [])
IsForward-snoc edges before [] v f new none_pending = (
  ground arith,
  pending_same edges before (λ u. before u || false) v (λ u. ground arith) ∙ none_pending,
  tt,
)
IsForward-snoc edges before (x ∷ xs) v f new none_pending =
    let (x_new, x_none_pending, rest) = f in
    (
      x_new,
      x_none_pending,
      IsForward-snoc edges (λ u. before u || x == u) xs v rest (ground arith)
          (pending_same edges (λ u. (before u || x == u) || has xs u)
              (λ u. before u || (x == u || has xs u)) v (λ u. ground arith)
            ∙ none_pending),
    )

has_snoc : (xs : List String) (x u : String) → has (xs ++ x ∷ []) u ≡ (has xs u || x == u)
has_snoc [] x u = ground arith
has_snoc (y ∷ ys) x u = ground (arith, has_snoc ys x u)

-- Between two steps of the inner loop, with the successors that are left: the count of a node is that
-- of its pending edges and of its places among the successors, what is queued or ordered has the count
-- 0 and stands once, and the order is forward.
pub record IsSettled (edges : List GoalGraphEdge) (s : KahnState) (left : List String)
    : Type 0 where
  pub counted : (v : String) → s.indegree v ≡ pending edges (has s.order) v + count left v
  pub zero_queued : (v : String) → 1 ≤ count s.ready v + count s.order v → s.indegree v ≡ 0
  pub once : (v : String) → count s.ready v + count s.order v ≤ 1
  pub forward : IsForward edges (λ u. false) s.order

-- One turn of the inner loop.
abbrev pub after_successor : LocaleLe → String → KahnState → KahnState
after_successor le x s = record s {
  indegree = set_count s.indegree x (s.indegree x - 1);
  ready = if eqb (s.indegree x) 1 then sort_by le (s.ready ++ x ∷ []) else s.ready;
}

pub after_successor-IsSettled :
    (le : LocaleLe) (edges : List GoalGraphEdge) (x : String) (left : List String) (s : KahnState)
    → IsSettled edges s (x ∷ left)
    → IsSettled edges (after_successor le x s) left
after_successor-IsSettled le edges x left s i = record {
  counted = λ v. ground (arith, i.counted v, i.counted x, eq_iff x v, eq_iff v x);
  zero_queued = λ v h. ground (
    arith,
    i.zero_queued v,
    i.zero_queued x,
    eq_iff x v,
    eq_iff v x,
    count-sort_by le (s.ready ++ x ∷ []) v,
    count-append s.ready (x ∷ []) v,
  );
  once = λ v. ground (
    arith,
    i.once v,
    i.zero_queued x,
    eq_iff x v,
    eq_iff v x,
    count-sort_by le (s.ready ++ x ∷ []) v,
    count-append s.ready (x ∷ []) v,
  );
  forward = i.forward;
}

pub release-IsSettled :
    (le : LocaleLe) (edges : List GoalGraphEdge) (left : List String) (s : KahnState)
    → IsSettled edges s left
    → IsSettled edges (release le left s) []
unfolding release
release-IsSettled le edges [] s i = i
release-IsSettled le edges (x ∷ left) s i =
    release-IsSettled le edges left (after_successor le x s)
      (after_successor-IsSettled le edges x left s i)

-- The first queued id moves to the end of the order; its successors are left.
pub take_first :
    (edges : List GoalGraphEdge) (successors : List String) (s : KahnState) (id : String)
    (rest : List String)
    → s.ready ≡ id ∷ rest
    → ((v : String) → count successors v ≡ edges_between edges id v)
    → IsSettled edges s []
    → IsSettled edges (record s { ready = rest; order = s.order ++ id ∷ [] }) successors
take_first edges successors s id rest e out i =
    let total : (v : String)
        → count s.ready v + count s.order v ≡ count rest v + count (s.order ++ id ∷ []) v =
      λ v. let c = ap (λ xs. count xs v) e in ground (arith, c, count-append s.order (id ∷ []) v) in
    let not_ordered : count s.order id ≡ 0 =
      let c = ap (λ xs. count xs id) e in ground (arith, c, i.once id, eq_iff id id) in
    let new = has-count s.order id not_ordered in
    let first_zero : s.indegree id ≡ 0 =
      let c = ap (λ xs. count xs id) e in i.zero_queued id (ground (arith, c, eq_iff id id)) in
    record {
      counted = λ v.
          let p = pending_next edges (has s.order) id v new in
          let q =
            pending_same edges (λ u. has s.order u || id == u) (has (s.order ++ id ∷ [])) v
              (λ u. sym (has_snoc s.order id u)) in
          omega (arith, p, q, i.counted v, out v);
      zero_queued = λ v h. i.zero_queued v (omega (arith, h, total v));
      once = λ v. omega (arith, i.once v, total v);
      forward =
          IsForward-snoc edges (λ u. false) s.order id i.forward new
            (omega (arith, i.counted id, first_zero));
    }

-- One round of the outer loop takes the first queued id out.
pub kahn-IsSettled :
    (le : LocaleLe) (edges : List GoalGraphEdge) (outgoing : Adjacency) (fuel : ℕ) (s : KahnState)
    → ((id v : String) → count (or_else (outgoing id) []) v ≡ edges_between edges id v)
    → IsSettled edges s []
    → IsSettled edges (kahn le outgoing fuel s) []
unfolding kahn
kahn-IsSettled le edges outgoing zero s out i = i
kahn-IsSettled le edges outgoing (suc fuel) s out i =
    go (λ t. kahn-IsSettled le edges outgoing fuel t out) s.ready refl
  where
    go :
        ((t : KahnState) → IsSettled edges t [] → IsSettled edges (kahn le outgoing fuel t) [])
        → (ready : List String) → s.ready ≡ ready
        → IsSettled edges
            (elim ready [
              | [] ↦ s
              | id ∷ rest ↦ kahn le outgoing fuel (
                  release le
                    (or_else (outgoing id) [])
                    (record s { ready = rest; order = s.order ++ id ∷ [] }))
            ])
            []
    go next [] e = i
    go next (id ∷ rest) e = next _ (
        release-IsSettled le edges (or_else (outgoing id) []) _
          (take_first edges (or_else (outgoing id) []) s id rest e (out id) i))
