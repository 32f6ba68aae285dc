-- ===== src/Scheduler/Queue.antt =====
-- The queue of a tick (packages/control/src/scheduler/scheduler.ts): the ids in the order of the turn,
-- those that go out and those that stay.
use aurora_ai_native.Prelude.{
  ℕ, zero, suc, String, ◌≡◌, refl, sym, ap, ◌∙◌, inl, inr, Bool, true, false, ◌&&◌, ◌||◌, not, List,
  [], ◌∷◌, ◌++◌, arith, eq_iff, ◌==◌, length, take, drop, filter, take-append-drop, eqb, Bool-cases,
}
use aurora_ai_native.GoalGraph.Types.{GoalGraph}
use aurora_ai_native.Scheduler.Types.{SchedulerFairnessCursor, SchedulerTickInput}
use aurora_ai_native.Scheduler.{
  has_id, rotate_topological_order, fair_order, dispatch_of, deferred_of, calculate_capacity,
  is_requested,
}

-- No id stands twice.
abbrev pub IsDistinct : List String → Type 0
IsDistinct [] = Unit
IsDistinct (x ∷ xs) = (has_id xs x ≡ false) × IsDistinct xs

abbrev AreDisjoint : List String → List String → Type 0
AreDisjoint xs ys = (a : String) → has_id xs a ≡ true → has_id ys a ≡ false

has_id_self : (xs : List String) (x : String) → has_id (x ∷ xs) x ≡ true
has_id_self xs x = ground (arith, eq_iff x x)

pub has_id-append :
    (xs ys : List String) (a : String) → has_id (xs ++ ys) a ≡ (has_id xs a || has_id ys a)
has_id-append [] ys a = refl
has_id-append (x ∷ xs) ys a = ground (arith, has_id-append xs ys a)

has_id-filter :
    (p : String → Bool) (xs : List String) (a : String)
    → has_id (filter p xs) a ≡ true
    → (has_id xs a ≡ true) × (p a ≡ true)
has_id-filter p [] a h = absurd (ground arith)
has_id-filter p (x ∷ xs) a h = elim (Bool-cases (x == a)) [
  | inl same ↦
      let e = (eq_iff x a).0 same in
      elim (Bool-cases (p x)) [
        | inl px ↦ (ground arith, rw e at px)
        | inr other ↦ let (m, pa) = has_id-filter p xs a (ground arith) in (ground arith, pa)
      ]
  | inr differs ↦ let (m, pa) = has_id-filter p xs a (ground arith) in (ground arith, pa)
]

filter-IsDistinct :
    (p : String → Bool) (xs : List String) → IsDistinct xs → IsDistinct (filter p xs)
filter-IsDistinct p [] d = tt
filter-IsDistinct p (x ∷ xs) d =
    let rest = filter-IsDistinct p xs d.1 in
    let new : has_id (filter p xs) x ≡ false = elim (Bool-cases (has_id (filter p xs) x)) [
      | inl h ↦ absurd (ground (arith, has_id-filter p xs x h))
      | inr h ↦ h
    ] in
    elim (Bool-cases (p x)) [ inl px ↦ rw px (new, rest) | inr other ↦ rw other rest ]

AreDisjoint-symm : (xs ys : List String) → AreDisjoint xs ys → AreDisjoint ys xs
AreDisjoint-symm xs ys d a h = elim (Bool-cases (has_id xs a)) [
  | inl m ↦ absurd (ground (arith, d a m))
  | inr m ↦ m
]

append-IsDistinct :
    (xs ys : List String)
    → IsDistinct xs
    → IsDistinct ys
    → AreDisjoint xs ys
    → IsDistinct (xs ++ ys)
append-IsDistinct [] ys dx dy d = dy
append-IsDistinct (x ∷ xs) ys dx dy d = (
  ground (arith, has_id-append xs ys x, d x (has_id_self xs x)),
  append-IsDistinct xs ys dx.1 dy (λ a m. d a (ground arith)),
)

IsDistinct-append :
    (xs ys : List String)
    → IsDistinct (xs ++ ys)
    → IsDistinct xs × IsDistinct ys × AreDisjoint xs ys
IsDistinct-append [] ys d = (tt, d, λ a h. absurd (ground arith))
IsDistinct-append (x ∷ xs) ys (new, d) =
    let (dx, dy, apart) = IsDistinct-append xs ys d in
    (
      (ground (arith, has_id-append xs ys x), dx),
      dy,
      λ a h. elim (Bool-cases (x == a)) [
        | inl same ↦
            let e = (eq_iff x a).0 same in
            let n = rw e at new in ground (arith, has_id-append xs ys a)
        | inr differs ↦ apart a (ground arith)
      ],
    )

pub rotate-IsDistinct :
    (k : ℕ) (xs : List String) → IsDistinct xs → IsDistinct (drop k xs ++ take k xs)
rotate-IsDistinct k xs d =
    let (front, back, apart) = IsDistinct-append (take k xs) (drop k xs) (rw take-append-drop d) in
    append-IsDistinct (drop k xs) (take k xs) back front
      (AreDisjoint-symm (take k xs) (drop k xs) apart)

-- An id that is not in the list is not missed by a filter.
filter_absent :
    (x : String) (q : String → Bool) (xs : List String)
    → has_id xs x ≡ false
    → filter (λ id. not (x == id || q id)) xs ≡ filter (λ id. not (q id)) xs
filter_absent x q [] h = refl
filter_absent x q (y ∷ ys) h = ground (arith, filter_absent x q ys, eq_iff x y, eq_iff y x)

filter_all : (xs : List String) → filter (λ id. not false) xs ≡ xs
filter_all [] = refl
filter_all (x ∷ xs) = ap (λ l. x ∷ l) (filter_all xs)

-- What is not among the first ids of a list without repetition is its rest.
deferred-take : (n : ℕ) (xs : List String) → IsDistinct xs → deferred_of (take n xs) xs ≡ drop n xs
unfolding deferred_of
deferred-take zero xs d = filter_all xs
deferred-take (suc n) [] d = refl
deferred-take (suc n) (x ∷ xs) d =
    rw has_id_self (filter_absent x (has_id (take n xs)) xs d.0 ∙ deferred-take n xs d.1)

pub fair_order-IsDistinct :
    (graph : GoalGraph) (fairness : SchedulerFairnessCursor) (ready_ids : List String)
    → IsDistinct graph.topological_order
    → IsDistinct (fair_order graph fairness ready_ids)
unfolding fair_order rotate_topological_order
fair_order-IsDistinct graph fairness ready_ids d =
    elim (Bool-cases (eqb (length graph.topological_order) 0)) [
      | inl e ↦ rw e tt
      | inr e ↦ rw e (
          filter-IsDistinct (has_id ready_ids) _
            (rotate-IsDistinct fairness.next_topological_index graph.topological_order d))
    ]

-- The ids that go out, followed by those that stay, are the queue.
pub dispatch-append-deferred :
    (input : SchedulerTickInput) (order : List String)
    → IsDistinct order
    → dispatch_of input order ++ deferred_of (dispatch_of input order) order ≡ order
unfolding dispatch_of
dispatch-append-deferred input order d =
    elim (Bool-cases (is_requested input.cancellation_requested)) [
      | inl stopped ↦ rw stopped (unfold deferred_of in filter_all order)
      | inr going ↦
          let n = (calculate_capacity input).dispatch_slots in
          rw (going, deferred-take n order d) (take-append-drop n order)
    ]

||_comm : (a b : Bool) → (a || b) ≡ (b || a)
||_comm a b = ground arith

has_id-drop-take :
    (k : ℕ) (xs : List String) (a : String) → has_id (drop k xs ++ take k xs) a ≡ has_id xs a
has_id-drop-take k xs a =
    has_id-append (drop k xs) (take k xs) a
    ∙ ||_comm (has_id (drop k xs) a) (has_id (take k xs) a)
    ∙ sym (has_id-append (take k xs) (drop k xs) a)
    ∙ ap (λ l. has_id l a) (take-append-drop k xs)

has_id-filter_iff :
    (p : String → Bool) (xs : List String) (a : String)
    → has_id (filter p xs) a ≡ (has_id xs a && p a)
has_id-filter_iff p [] a = refl
has_id-filter_iff p (x ∷ xs) a = elim (Bool-cases (x == a)) [
  | inl same ↦
      let e = (eq_iff x a).0 same in
      let px : p x ≡ p a = ap p e in ground (arith, has_id-filter_iff p xs a)
  | inr differs ↦ ground (arith, has_id-filter_iff p xs a)
]

pub nil_of_length : (xs : List String) → eqb (length xs) 0 ≡ true → xs ≡ []
nil_of_length [] h = refl
nil_of_length (x ∷ xs) h = ground arith

-- The queue holds exactly the ready ids of the topological order, whatever the turn.
pub has_id-fair_order :
    (graph : GoalGraph) (fairness : SchedulerFairnessCursor) (ready_ids : List String) (a : String)
    → has_id (fair_order graph fairness ready_ids) a
      ≡ (has_id graph.topological_order a && has_id ready_ids a)
unfolding fair_order rotate_topological_order
has_id-fair_order graph fairness ready_ids a =
    elim (Bool-cases (eqb (length graph.topological_order) 0)) [
      | inl e ↦ rw (e, nil_of_length graph.topological_order e) refl
      | inr e ↦
          let k = fairness.next_topological_index in
          let order = graph.topological_order in
          rw e (
            has_id-filter_iff (has_id ready_ids) (drop k order ++ take k order) a
            ∙ ap (λ b. b && has_id ready_ids a) (has_id-drop-take k order a))
    ]
