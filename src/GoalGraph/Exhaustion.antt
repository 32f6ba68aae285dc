-- ===== src/GoalGraph/Exhaustion.antt =====
-- The loop of the topological order (packages/control/src/goal-graph/graph.ts) empties its queue: one
-- round for each node is enough.
use aurora_ai_native.Prelude.{
  ℕ, zero, suc, ◌+◌, ◌≤◌, String, ◌≡◌, refl, ap, inl, inr, List, [], ◌∷◌, ◌++◌, arith, eq_iff, ◌==◌,
  length, length-append, if◌then◌else◌, Bool-cases, or_else,
}
use aurora_ai_native.GoalGraph.Types.{GoalGraphEdge}
use aurora_ai_native.GoalGraph.Assess.{LocaleLe}
use aurora_ai_native.GoalGraph.Create.{Adjacency, KahnState, release, kahn}
use aurora_ai_native.GoalGraph.Order.{
  IsSettled, after_successor, after_successor-IsSettled, release-IsSettled, take_first,
}
use aurora_ai_native.GoalGraph.Counting.{count-append, count-sort_by, edges_between}
use aurora_ai_native.GoalGraph.Counting.{count}

-- A list without the first place of an id.
abbrev without : String → List String → List String
without x [] = []
without x (y ∷ ys) = let rest = without x ys in if y == x then ys else y ∷ rest

length-without :
    (x : String) (ys : List String) → 1 ≤ count ys x → suc (length (without x ys)) ≡ length ys
length-without x [] h = absurd (omega arith)
length-without x (y ∷ ys) h = ground (arith, length-without x ys)

count-without :
    (x : String) (ys : List String) (v : String) → count ys v ≤ count (x ∷ without x ys) v
count-without x [] v = omega arith
count-without x (y ∷ ys) v = elim (Bool-cases (y == x)) [
  | inl same ↦ let e = (eq_iff y x).0 same in rw same (rw e (omega arith))
  | inr other ↦ ground (arith, count-without x ys v)
]

-- A list in which every id stands at most as often as in another is at most as long.
pub length-by_count :
    (xs ys : List String) → ((v : String) → count xs v ≤ count ys v) → length xs ≤ length ys
length-by_count [] ys h = omega arith
length-by_count (x ∷ xs) ys h =
    let there : 1 ≤ count ys x = let hx = h x in ground (arith, eq_iff x x) in
    let rest =
      length-by_count xs (without x ys)
        (λ v. let hv = h v in ground (arith, count-without x ys v)) in
    omega (arith, rest, length-without x ys there)

length_zero {ℓ} : {A : Type ℓ} (xs : List A) → length xs ≤ 0 → xs ≡ []
length_zero [] h = refl
length_zero (x ∷ xs) h = absurd (omega arith)

-- Where it is also as long, the two count alike.
pub count-by_length :
    (xs ys : List String)
    → ((v : String) → count xs v ≤ count ys v)
    → length ys ≤ length xs
    → (v : String) → count ys v ≤ count xs v
count-by_length [] ys h long v =
    let c = ap (λ l. count l v) (length_zero ys long) in omega (arith, c)
count-by_length (x ∷ xs) ys h long v =
    let there : 1 ≤ count ys x = let hx = h x in ground (arith, eq_iff x x) in
    let rest =
      count-by_length xs (without x ys) (λ u. let hu = h u in ground (arith, count-without x ys u))
        (omega (arith, long, length-without x ys there)) v in
    ground (arith, rest, count-without x ys v)

-- Queued and ordered ids are among those of the nodes, and a node of count 0 is queued or ordered.
pub record IsTracked (ids : List String) (s : KahnState) : Type 0 where
  pub within : (v : String) → count s.ready v + count s.order v ≤ count ids v
  pub complete :
      (v : String) → 1 ≤ count ids v → s.indegree v ≡ 0 → 1 ≤ count s.ready v + count s.order v

release-order :
    (le : LocaleLe) (left : List String) (s : KahnState) → (release le left s).order ≡ s.order
unfolding release
release-order le [] s = refl
release-order le (x ∷ left) s = release-order le left (after_successor le x s)

module _ (le : LocaleLe) (edges : List GoalGraphEdge) (ids : List String) where
  after_successor-IsTracked :
      (x : String) (left : List String) (s : KahnState)
      → 1 ≤ count ids x
      → IsSettled edges s (x ∷ left)
      → IsTracked ids s
      → IsTracked ids (after_successor le x s)
  after_successor-IsTracked x left s known i t = record {
    within = λ v. ground (
      arith,
      t.within v,
      i.zero_queued x,
      eq_iff x v,
      eq_iff v x,
      known,
      count-sort_by le (s.ready ++ x ∷ []) v,
      count-append s.ready (x ∷ []) v,
    );
    complete = λ v m z. ground (
      arith,
      t.complete v m,
      eq_iff x v,
      eq_iff v x,
      count-sort_by le (s.ready ++ x ∷ []) v,
      count-append s.ready (x ∷ []) v,
    );
  }

  release-IsTracked :
      (left : List String) (s : KahnState)
      → ((x : String) → 1 ≤ count left x → 1 ≤ count ids x)
      → IsSettled edges s left
      → IsTracked ids s
      → IsTracked ids (release le left s)
  unfolding release
  release-IsTracked [] s known i t = t
  release-IsTracked (x ∷ left) s known i t =
      let here : 1 ≤ count ids x = known x (ground (arith, eq_iff x x)) in
      release-IsTracked left (after_successor le x s) (λ y m. known y (ground arith))
        (after_successor-IsSettled le edges x left s i)
        (after_successor-IsTracked x left s here i t)

  take_first-IsTracked :
      (s : KahnState) (id : String) (rest : List String)
      → s.ready ≡ id ∷ rest
      → IsTracked ids s
      → IsTracked ids (record s { ready = rest; order = s.order ++ id ∷ [] })
  take_first-IsTracked s id rest e t =
      let total : (v : String)
          → count s.ready v + count s.order v ≡ count rest v + count (s.order ++ id ∷ []) v =
        λ v.
          let c = ap (λ xs. count xs v) e in ground (arith, c, count-append s.order (id ∷ []) v) in
      record {
        within = λ v. omega (arith, t.within v, total v);
        complete = λ v m z. omega (arith, t.complete v m z, total v);
      }

  stuck_empty : (s : KahnState) → IsTracked ids s → length ids ≤ length s.order → s.ready ≡ []
  stuck_empty s t long =
      let bound =
        length-by_count (s.ready ++ s.order) ids
          (λ v. omega (arith, t.within v, count-append s.ready s.order v)) in
      length_zero s.ready (omega (arith, bound, length-append s.ready s.order))

  module _ (outgoing : Adjacency)
      (out : (id v : String) → count (or_else (outgoing id) []) v ≡ edges_between edges id v)
      (known : (id v : String) → 1 ≤ edges_between edges id v → 1 ≤ count ids v) where
    -- With a round for each node that is not yet ordered the queue is empty at the end.
    pub kahn_exhausts :
        (fuel : ℕ) (s : KahnState)
        → IsSettled edges s []
        → IsTracked ids s
        → length ids ≤ length s.order + fuel
        → IsTracked ids (kahn le outgoing fuel s) × ((kahn le outgoing fuel s).ready ≡ [])
    unfolding kahn
    kahn_exhausts zero s i t long = (t, stuck_empty s t (omega (arith, long)))
    kahn_exhausts (suc fuel) s i t long = go (λ t. kahn_exhausts fuel t) s.ready refl
      where
        go :
            ((r : KahnState)
              → IsSettled edges r []
              → IsTracked ids r
              → length ids ≤ length r.order + fuel
              → IsTracked ids (kahn le outgoing fuel r) × ((kahn le outgoing fuel r).ready ≡ []))
            → (ready : List String) → s.ready ≡ ready
            → let end : KahnState = elim ready [
              | [] ↦ s
              | id ∷ rest ↦ kahn le outgoing fuel (
                  release le
                    (or_else (outgoing id) [])
                    (record s { ready = rest; order = s.order ++ id ∷ [] }))
            ] in
              IsTracked ids end × (end.ready ≡ [])
        go next [] e = (t, e)
        go next (id ∷ rest) e =
            let left = or_else (outgoing id) [] in
            let first = record s { ready = rest; order = s.order ++ id ∷ [] } in
            let settled = take_first edges left s id rest e (out id) i in
            next (release le left first) (release-IsSettled le edges left first settled)
              (release-IsTracked left first (λ x m. known id x (omega (arith, m, out id x))) settled
                (take_first-IsTracked s id rest e t))
              (omega (
                arith,
                long,
                ap (λ xs. length xs) (release-order le left first),
                length-append s.order (id ∷ []),
              ))
