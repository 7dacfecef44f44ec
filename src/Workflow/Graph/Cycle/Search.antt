-- ===== src/Workflow/Graph/Cycle/Search.antt =====
-- What the depth-first search of workflow/graph.go keeps: visited nodes lead to no cycle, the stack
-- is a chain that holds every node being visited, and a path that it reports is a cycle.
use mathlib.Core.WellFounded.{Acc}
use miletos.Common.{
  ℕ, zero, suc, String, ◌≡◌, refl, sym, ◌∙◌, ap, inl, inr, Option, none, some, List, [], ◌∷◌, ◌++◌,
  Memᴰ, string_eq, ◌==◌, ==_iff, Bool-cases,
}
use miletos.Workflow.Graph.Cycle.{
  node_unvisited, node_visiting, node_visited, drop, drop_last, CycleDetector, Search, walk, enter,
  leave, finish, visit,
}
use miletos.Workflow.Graph.Cycle.Total.{VisitState-cases}
use miletos.Workflow.Graph.Cycle.Chain.{
  Chain, IsCycle, get_elem?, Chain-snoc, Chain-drop, drop-get_elem?, get_elem?-snoc,
  get_elem?-snoc_last, drop_last-snoc,
}

-- `y` is the target of an edge of `x`.
abbrev pub Leads : (String → List String) → String → String → Type 0
Leads out y x = Memᴰ y (out x)

pub record Good (out : String → List String) (d : CycleDetector) : Type 0 where
  pub acyclic : (x : String) → d.state x ≡ node_visited → Acc (Leads out) x
  pub indexed :
      (x : String) → d.state x ≡ node_visiting → get_elem? d.stack (d.stack_index x) ≡ some x

-- What a search that found no cycle leaves behind.
pub record After (out : String → List String) (d d' : CycleDetector) : Type 0 where
  pub good : Good out d'
  pub kept : (x : String) → d.state x ≡ node_visited → d'.state x ≡ node_visited
  pub stack_same : d'.stack ≡ d.stack
  pub still : (x : String) → d'.state x ≡ node_visiting → d.state x ≡ node_visiting
  pub index_same : (x : String) → d'.state x ≡ node_visiting → d'.stack_index x ≡ d.stack_index x

module _ (out : String → List String) where
  After-refl : (d : CycleDetector) → Good out d → After out d d
  After-refl d g = record {
    good = g;
    kept = λ x h. h;
    stack_same = refl;
    still = λ x h. h;
    index_same = λ x h. refl;
  }

  After-trans : (a b c : CycleDetector) → After out a b → After out b c → After out a c
  After-trans a b c p q = record {
    good = q.good;
    kept = λ x h. q.kept x (p.kept x h);
    stack_same = q.stack_same ∙ p.stack_same;
    still = λ x h. p.still x (q.still x h);
    index_same = λ x h. q.index_same x h ∙ p.index_same x (q.still x h);
  }

  -- A search from `d` that is to visit all of `goals` did so, or found a cycle.
  abbrev pub Outcome : CycleDetector → List String → Search → Type 0
  Outcome d goals none = Unit
  Outcome d goals (some (d', [])) =
      After out d d' × ((t : String) → Memᴰ t goals → d'.state t ≡ node_visited)
  Outcome d goals (some (d', c ∷ cs)) = IsCycle out (c ∷ cs)

  abbrev pub GoGood : (CycleDetector → String → Search) → Type 0
  GoGood go =
      (d : CycleDetector) (n : String)
      → Good out d
      → d.state n ≡ node_unvisited
      → Chain out (d.stack ++ n ∷ [])
      → Outcome d (n ∷ []) (go d n)

  found-Outcome :
      (d : CycleDetector) (t : String) (goals path : List String)
      → IsCycle out (path ++ t ∷ [])
      → Outcome d goals (some (d, path ++ t ∷ []))
  found-Outcome d t goals [] c = c
  found-Outcome d t goals (p ∷ path) c = c

  later-Outcome :
      (d d' : CycleDetector) (t : String) (ts : List String) (s : Search)
      → After out d d'
      → d'.state t ≡ node_visited
      → Outcome d' ts s
      → Outcome d (t ∷ ts) s
  later-Outcome d d' t ts none a v o = tt
  later-Outcome d d' t ts (some (e, [])) a v o = (After-trans d d' e a o.0, all_done)
    where
      all_done : (u : String) → Memᴰ u (t ∷ ts) → e.state u ≡ node_visited
      all_done u (Memᴰ.head p) = rw p (o.0.kept t v)
      all_done u (Memᴰ.tail m) = o.1 u m
  later-Outcome d d' t ts (some (e, c ∷ cs)) a v o = o

  walk-Outcome :
      (go : CycleDetector → String → Search)
      → GoGood go
      → (d : CycleDetector) (targets : List String) → Good out d
      → ((t : String) → Memᴰ t targets → Chain out (d.stack ++ t ∷ []))
      → Outcome d targets (walk go d targets)
  unfolding walk
  walk-Outcome go ok d [] g ch = (After-refl d g, λ t m. elim m [ ])
  walk-Outcome go ok d (t ∷ ts) g ch = elim (VisitState-cases (d.state t)) [
    | inl new ↦
        rw (new, walk)
          (resume (go d t) (ok d t g new (ch t (Memᴰ.head refl))) (λ d'. walk-Outcome go ok d' ts))
    | inr (inl on_stack) ↦
        let hit = drop-get_elem? (d.stack_index t) d.stack (g.indexed t on_stack) in
        rw (on_stack, walk)
          (found-Outcome d t (t ∷ ts) (drop (d.stack_index t) d.stack) (
            t,
            hit.0,
            ap (λ xs. xs ++ t ∷ []) hit.1,
            Chain-drop out (d.stack_index t) d.stack t (ch t (Memᴰ.head refl)),
          ))
    | inr (inr done) ↦
        rw (done, walk)
          (later-Outcome d d t ts (walk go d ts) (After-refl d g) done
            (walk-Outcome go ok d ts g (λ u m. ch u (Memᴰ.tail m))))
  ]
    where
      resume :
          (s : Search)
          → Outcome d (t ∷ []) s
          → ((d' : CycleDetector)
              → Good out d'
              → ((u : String) → Memᴰ u ts → Chain out (d'.stack ++ u ∷ []))
              → Outcome d' ts (walk go d' ts))
          → Outcome d (t ∷ ts) (elim s [
            | none ↦ none
            | some (d', []) ↦ walk go d' ts
            | some (d', c ∷ cs) ↦ some (d', c ∷ cs)
          ])
      resume none o rest = tt
      resume (some (d', [])) o rest =
          later-Outcome d d' t ts (walk go d' ts) o.0 (o.1 t (Memᴰ.head refl))
            (rest d' o.0.good (λ u m. rw o.0.stack_same (ch u (Memᴰ.tail m))))
      resume (some (d', c ∷ cs)) o rest = o

  enter-Good : (d : CycleDetector) (n : String) → Good out d → Good out (enter d n)
  enter-Good d n g = record { acyclic = old; indexed = at }
    where
      old : (x : String) → (enter d n).state x ≡ node_visited → Acc (Leads out) x
      old x h = elim (Bool-cases (n == x)) [
        | inl same ↦ cc (rw same at h)
        | inr other ↦ g.acyclic x (rw other at h)
      ]

      at :
          (x : String)
          → (enter d n).state x ≡ node_visiting
          → get_elem? (enter d n).stack ((enter d n).stack_index x) ≡ some x
      at x h = elim (Bool-cases (n == x)) [
        | inl same ↦ rw same (get_elem?-snoc_last d.stack n ∙ ap some ((==_iff n x).0 same))
        | inr other ↦
            rw other (get_elem?-snoc d.stack (d.stack_index x) n (g.indexed x (rw other at h)))
      ]

  leave-After :
      (d d' : CycleDetector) (n : String)
      → Good out d
      → After out (enter d n) d'
      → ((t : String) → Memᴰ t (out n) → d'.state t ≡ node_visited)
      → After out d (leave d' n)
  leave-After d d' n g a done = record {
    good = record { acyclic = acyclic; indexed = indexed };
    kept = kept;
    stack_same = same_stack;
    still = λ x h. (behind x h).0;
    index_same = λ x h. (behind x h).1;
  }
    where
      same_stack : (leave d' n).stack ≡ d.stack
      same_stack = ap drop_last a.stack_same ∙ drop_last-snoc d.stack n

      acyclic : (x : String) → (leave d' n).state x ≡ node_visited → Acc (Leads out) x
      acyclic x h = elim (Bool-cases (n == x)) [
        | inl same ↦
            let e = (==_iff n x).0 same in
            rw (← e) (Acc.intro n (λ t m. a.good.acyclic t (done t m)))
        | inr other ↦ a.good.acyclic x (rw other at h)
      ]

      kept : (x : String) → d.state x ≡ node_visited → (leave d' n).state x ≡ node_visited
      kept x h = elim (Bool-cases (n == x)) [
        | inl same ↦ rw same
        | inr other ↦ rw other (a.kept x (rw other h))
      ]

      -- A node still being visited is another one, and was so before.
      behind :
          (x : String)
          → (leave d' n).state x ≡ node_visiting
          → (d.state x ≡ node_visiting) × ((leave d' n).stack_index x ≡ d.stack_index x)
      behind x h = elim (Bool-cases (n == x)) [
        | inl same ↦ cc (rw same at h)
        | inr other ↦
            let on_stack : d'.state x ≡ node_visiting = rw other at h in
            (rw other at (a.still x on_stack), rw other (rw other at (a.index_same x on_stack)))
      ]

      indexed :
          (x : String)
          → (leave d' n).state x ≡ node_visiting
          → get_elem? (leave d' n).stack ((leave d' n).stack_index x) ≡ some x
      indexed x h =
          let (before, same_index) = behind x h in rw (same_stack, same_index) (g.indexed x before)

  finish-Outcome :
      (d : CycleDetector) (n : String) (s : Search)
      → Good out d
      → Outcome (enter d n) (out n) s
      → Outcome d (n ∷ []) (finish n s)
  finish-Outcome d n none g o = tt
  finish-Outcome d n (some (d', [])) g o = (leave-After d d' n g o.0 o.1, at_node)
    where
      at_node : (t : String) → Memᴰ t (n ∷ []) → (leave d' n).state t ≡ node_visited
      at_node t (Memᴰ.head e) = rw ((==_iff n t).1 (sym e))
      at_node t (Memᴰ.tail m) = elim m [ ]
  finish-Outcome d n (some (d', c ∷ cs)) g o = o

  pub visit-Outcome : (fuel : ℕ) → GoGood (visit fuel out)
  unfolding visit
  visit-Outcome zero d n g new ch = tt
  visit-Outcome (suc fuel) d n g new ch =
      finish-Outcome d n (walk (visit fuel out) (enter d n) (out n)) g (
        walk-Outcome (visit fuel out) (visit-Outcome fuel) (enter d n) (out n) (enter-Good d n g)
          (λ t m. Chain-snoc out d.stack ch m))

  -- What the scan of all nodes reports: a cycle, or that no node leads to one.
  abbrev pub Report : List String → Option (List String) → Type 0
  Report ns none = Unit
  Report ns (some []) = (n : String) → Memᴰ n ns → Acc (Leads out) n
  Report ns (some (c ∷ cs)) = IsCycle out (c ∷ cs)
