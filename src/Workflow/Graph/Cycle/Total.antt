-- ===== src/Workflow/Graph/Cycle/Total.antt =====
-- The fuel of the cycle search of workflow/graph.go suffices.
use mathlib.Core.List.Memᴰ as MemD
use miletos.Common.{
  ℕ, zero, suc, ◌≤◌, ◌<◌, String, ◌≡◌, refl, sym, ◌⊎◌, inl, inr, Bool, true, false, some, List, [],
  ◌∷◌, ◌++◌, map, Memᴰ, arith, length, count_where, string_eq, ◌==◌, ==_iff, sort_by, mem-sort_by,
  str_lt,
}
use miletos.Workflow.{Edge, Workflow}
use miletos.Workflow.Graph.{outgoing}
use miletos.Workflow.Graph.Reach.{outgoing-HasEdge}
use miletos.Workflow.Graph.Cycle.{
  VisitState, node_unvisited, node_visiting, node_visited, update, drop, CycleDetector, Search,
  walk, enter, leave, finish, visit, scan, new_detector, node_ids_of, sorted_outgoing, universe,
  cycle_search,
}

abbrev is_unvisited : VisitState → Bool
is_unvisited node_unvisited = true
is_unvisited _ = false

pub VisitState-cases :
    (s : VisitState) → (s ≡ node_unvisited) ⊎ (s ≡ node_visiting) ⊎ (s ≡ node_visited)
VisitState-cases node_unvisited = inl refl
VisitState-cases node_visiting = inr (inl refl)
VisitState-cases node_visited = inr (inr refl)

abbrev unvisited_in : List String → (String → VisitState) → ℕ
unvisited_in xs state = count_where (λ x. is_unvisited (state x)) xs

count-update :
    (xs : List String) (state : String → VisitState) (n : String) (v : VisitState)
    → is_unvisited v ≡ false
    → unvisited_in xs (update state n v) ≤ unvisited_in xs state
count-update [] state n v h = omega arith
count-update (x ∷ xs) state n v h = ground (arith, count-update xs state n v h)

count-update_lt :
    (xs : List String) (state : String → VisitState) (n : String) (v : VisitState)
    → is_unvisited v ≡ false
    → state n ≡ node_unvisited
    → Memᴰ n xs
    → unvisited_in xs (update state n v) < unvisited_in xs state
count-update_lt [] state n v h u m = elim m [ ]
count-update_lt (x ∷ xs) state n v h u (Memᴰ.head e) =
    let seen : (n == x) ≡ true = (==_iff n x).1 e in
    let new : state x ≡ node_unvisited = rw (← e) u in
    rw (seen, new) (ground (arith, count-update xs state n v h))
count-update_lt (x ∷ xs) state n v h u (Memᴰ.tail m) =
    ground (arith, count-update_lt xs state n v h u m, ==_iff n x)

-- A search ends with a result, and has left no more nodes unvisited than before.
abbrev Ends : List String → CycleDetector → Search → Type 0
Ends xs d s =
    ((d' : CycleDetector) × (s ≡ some (d', []))
      × (unvisited_in xs d'.state ≤ unvisited_in xs d.state))
    ⊎ ((d' : CycleDetector) × (c : String) × (cs : List String) × (s ≡ some (d', c ∷ cs)))

Ends-mono :
    (xs : List String) (d d' : CycleDetector) (s : Search)
    → unvisited_in xs d'.state ≤ unvisited_in xs d.state
    → Ends xs d' s
    → Ends xs d s
Ends-mono xs d d' s le (inl (e, p, fewer)) = inl (e, p, omega arith)
Ends-mono xs d d' s le (inr (e, c, cs, p)) = inr (e, c, cs, p)

-- What a call of `visit` at an unvisited node of `xs` must deliver.
abbrev GoEnds : List String → (CycleDetector → String → Search) → ℕ → Type 0
GoEnds xs go bound =
    (d : CycleDetector) (n : String)
    → Memᴰ n xs
    → d.state n ≡ node_unvisited
    → unvisited_in xs d.state ≤ bound
    → Ends xs d (go d n)

walk-Ends :
    (xs : List String) (go : CycleDetector → String → Search) (bound : ℕ)
    → GoEnds xs go bound
    → (d : CycleDetector) (targets : List String) → ((t : String) → Memᴰ t targets → Memᴰ t xs)
    → unvisited_in xs d.state ≤ bound
    → Ends xs d (walk go d targets)
unfolding walk
walk-Ends xs go bound ends d [] inside h = inl (d, refl, omega arith)
walk-Ends xs go bound ends d (t ∷ ts) inside h = elim (VisitState-cases (d.state t)) [
  | inl new ↦ elim (ends d t (inside t (Memᴰ.head refl)) new h) [
    | inl (d', e, fewer) ↦
        rw (new, walk)
          (rw (e, walk)
            (Ends-mono xs d d' _ fewer
              (walk-Ends xs go bound ends d' ts (λ u m. inside u (Memᴰ.tail m)) (omega arith))))
    | inr (d', c, cs, e) ↦ rw (new, walk) (rw (e, walk) (inr (d', c, cs, refl)))
  ]
  | inr (inl on_stack) ↦ rw (on_stack, walk) (found d (drop (d.stack_index t) d.stack))
  | inr (inr done) ↦
      rw (done, walk) (walk-Ends xs go bound ends d ts (λ u m. inside u (Memᴰ.tail m)) h)
]
  where
    found : (d' : CycleDetector) (path : List String) → Ends xs d (some (d', path ++ t ∷ []))
    found d' [] = inr (d', t, [], refl)
    found d' (c ∷ cs) = inr (d', c, cs ++ t ∷ [], refl)

visit-Ends :
    (xs : List String) (out : String → List String) (fuel : ℕ)
    → ((n t : String) → Memᴰ t (out n) → Memᴰ t xs)
    → GoEnds xs (visit fuel out) fuel
unfolding visit
visit-Ends xs out zero inside d n m new h =
    absurd (omega (arith, count-update_lt xs d.state n node_visited refl new m))
visit-Ends xs out (suc fuel) inside d n m new h =
    let fewer = count-update_lt xs d.state n node_visiting refl new m in
    elim (walk-Ends xs (visit fuel out) fuel (visit-Ends xs out fuel inside) (enter d n) (out n)
      (inside n) (omega arith)) [
        | inl (d', e, le) ↦
            rw (e, finish)
              (inl (leave d' n, refl, omega (arith, count-update xs d'.state n node_visited refl)))
        | inr (d', c, cs, e) ↦ rw (e, finish) (inr (d', c, cs, refl))
      ]

scan-total :
    (xs : List String) (go : CycleDetector → String → Search) (bound : ℕ)
    → GoEnds xs go bound
    → (d : CycleDetector) (ns : List String) → ((n : String) → Memᴰ n ns → Memᴰ n xs)
    → unvisited_in xs d.state ≤ bound
    → (cycle : List String) × (scan go d ns ≡ some cycle)
unfolding scan
scan-total xs go bound ends d [] inside h = ([], refl)
scan-total xs go bound ends d (n ∷ ns) inside h = elim (VisitState-cases (d.state n)) [
  | inl new ↦ elim (ends d n (inside n (Memᴰ.head refl)) new h) [
    | inl (d', e, fewer) ↦
        let rest =
          scan-total xs go bound ends d' ns (λ u m. inside u (Memᴰ.tail m)) (omega arith) in
        (rest.0, rw (new, scan) (rw (e, scan) rest.1))
    | inr (d', c, cs, e) ↦ (c ∷ cs, rw (new, scan) (rw (e, scan) refl))
  ]
  | inr (inl on_stack) ↦
      let rest = scan-total xs go bound ends d ns (λ u m. inside u (Memᴰ.tail m)) h in
      (rest.0, rw (on_stack, scan) rest.1)
  | inr (inr done) ↦
      let rest = scan-total xs go bound ends d ns (λ u m. inside u (Memᴰ.tail m)) h in
      (rest.0, rw (done, scan) rest.1)
]

count-le-length : (xs : List String) (p : String → Bool) → count_where p xs ≤ length xs
count-le-length [] p = omega arith
count-le-length (x ∷ xs) p = ground (arith, count-le-length xs p)

-- The search always ends within its fuel.
pub cycle_search-total :
    {V : Type 0} (w : Workflow V) → (cycle : List String) × (cycle_search w ≡ some cycle)
unfolding cycle_search
cycle_search-total w =
    scan-total (universe w) (visit (length (universe w)) (sorted_outgoing w)) (length (universe w))
      (visit-Ends (universe w) (sorted_outgoing w) (length (universe w)) targets) new_detector
      (sort_by str_lt (node_ids_of w))
      (λ n m.
        MemD.append_left (map (λ e. e.target_node_id) w.edges)
          (mem-sort_by str_lt (node_ids_of w) m))
      (count-le-length (universe w) (λ x. is_unvisited (new_detector.state x)))
  where
    targets : (n t : String) → Memᴰ t (sorted_outgoing w n) → Memᴰ t (universe w)
    targets n t m =
        let (e, k, p, q) = outgoing-HasEdge w.edges (mem-sort_by str_lt (outgoing w.edges n) m) in
        MemD.append_right (node_ids_of w)
          (MemD.cast (sym q) (MemD.map (λ (x : Edge). x.target_node_id) k))
