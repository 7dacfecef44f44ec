-- ===== src/Workflow/Graph/Cycle/Report.antt =====
-- What `FindCyclePath` of workflow/graph.go reports, in terms of the workflow's edges.
use mathlib.Core.WellFounded.{Acc}
use miletos.Common.{
  String, ◌≡◌, refl, ◌∙◌, none, some, Option, List, [], ◌∷◌, ◌++◌, Memᴰ, sort_by, str_lt,
  sort_by-mem, mem-sort_by, length, inl, inr,
}
use miletos.Workflow.{Edge, Workflow}
use miletos.Workflow.Graph.{outgoing}
use miletos.Workflow.Graph.Reach.{HasEdge, outgoing-HasEdge, HasEdge-outgoing}
use miletos.Workflow.Graph.Cycle.{
  node_visiting, CycleDetector, Search, scan, visit, new_detector, node_ids_of, sorted_outgoing,
  universe, cycle_search, find_cycle_path,
}
use miletos.Workflow.Graph.Cycle.Total.{VisitState-cases, cycle_search-total}
use miletos.Workflow.Graph.Cycle.Chain.{Chain, IsCycle}
use miletos.Workflow.Graph.Cycle.Search.{Leads, Good, Outcome, Report, GoGood, visit-Outcome}

-- One edge or more lead from one node to the other.
pub data Trail (edges : List Edge) : String → String → Type 0 where
  edge : {m n : String} → HasEdge edges m n → Trail edges m n
  then : {m k n : String} → HasEdge edges m k → Trail edges k n → Trail edges m n

-- Each node of the path but the last has an edge to the next.
abbrev pub FollowsEdges : List Edge → List String → Type 0
FollowsEdges edges [] = Unit
FollowsEdges edges (x ∷ []) = Unit
FollowsEdges edges (x ∷ y ∷ ys) = HasEdge edges x y × FollowsEdges edges (y ∷ ys)

module _ (out : String → List String) (go : CycleDetector → String → Search)
    (ok : GoGood out go) where
  scan-Report :
      (d : CycleDetector) (ns : List String)
      → Good out d
      → d.stack ≡ []
      → ((x : String) → d.state x ≡ node_visiting → ⊥)
      → Report out ns (scan go d ns)
  unfolding scan
  scan-Report d [] g e idle = λ n m. elim m [ ]
  scan-Report d (n ∷ ns) g e idle = elim (VisitState-cases (d.state n)) [
    | inl new ↦ rw (new, scan) (resume (go d n) (ok d n g new (rw e tt)) (λ d'. scan-Report d' ns))
    | inr (inl on_stack) ↦ absurd (idle n on_stack)
    | inr (inr done) ↦
        rw (done, scan) (longer (scan go d ns) (g.acyclic n done) (scan-Report d ns g e idle))
  ]
    where
      longer :
          (r : Option (List String)) → Acc (Leads out) n → Report out ns r → Report out (n ∷ ns) r
      longer none a o = tt
      longer (some []) a o = all_of
        where
          all_of : (x : String) → Memᴰ x (n ∷ ns) → Acc (Leads out) x
          all_of x (Memᴰ.head p) = rw p a
          all_of x (Memᴰ.tail m) = o x m
      longer (some (c ∷ cs)) a o = o

      resume :
          (s : Search)
          → Outcome out d (n ∷ []) s
          → ((d' : CycleDetector)
              → Good out d'
              → d'.stack ≡ []
              → ((x : String) → d'.state x ≡ node_visiting → ⊥)
              → Report out ns (scan go d' ns))
          → Report out (n ∷ ns) (elim s [
            | none ↦ none
            | some (d', []) ↦ scan go d' ns
            | some (d', c ∷ cs) ↦ some (c ∷ cs)
          ])
      resume none o rest = tt
      resume (some (d', [])) o rest =
          longer (scan go d' ns) (o.0.good.acyclic n (o.1 n (Memᴰ.head refl)))
            (rest d' o.0.good (o.0.stack_same ∙ e) (λ x h. idle x (o.0.still x h)))
      resume (some (d', c ∷ cs)) o rest = o

cycle_search-Report :
    {V : Type 0} (w : Workflow V)
    → Report (sorted_outgoing w) (sort_by str_lt (node_ids_of w)) (cycle_search w)
unfolding cycle_search
cycle_search-Report w =
    scan-Report (sorted_outgoing w) (visit (length (universe w)) (sorted_outgoing w))
      (visit-Outcome (sorted_outgoing w) (length (universe w))) new_detector
      (sort_by str_lt (node_ids_of w)) (record { acyclic = λ x h. cc; indexed = λ x h. cc }) refl
      (λ x h. cc)

-- The search has a result, and `find_cycle_path` is it.
pub find_cycle_path-Report :
    {V : Type 0} (w : Workflow V)
    → Report (sorted_outgoing w) (sort_by str_lt (node_ids_of w)) (some (find_cycle_path w))
unfolding find_cycle_path
find_cycle_path-Report w =
    let (path, e) = cycle_search-total w in rw e (rw e at (cycle_search-Report w))

Trail-snoc :
    (edges : List Edge) {m k n : String} → Trail edges m k → HasEdge edges k n → Trail edges m n
Trail-snoc edges (Trail.edge e) f = Trail.then e (Trail.edge f)
Trail-snoc edges (Trail.then e t) f = Trail.then e (Trail-snoc edges t f)

module _ {V : Type 0} (w : Workflow V) where
  leads : {m n : String} → HasEdge w.edges m n → Leads (sorted_outgoing w) n m
  leads {m} e = sort_by-mem str_lt (outgoing w.edges m) (HasEdge-outgoing w.edges e)

  Acc-not_Trail : (n : String) → Acc (Leads (sorted_outgoing w)) n → ¬ Trail w.edges n n
  Acc-not_Trail n (Acc.intro _ below) (Trail.edge e) =
      Acc-not_Trail n (below n (leads e)) (Trail.edge e)
  Acc-not_Trail n (Acc.intro _ below) (Trail.then {k} e t) =
      Acc-not_Trail k (below k (leads e)) (Trail-snoc w.edges t e)

-- A workflow for which `FindCyclePath` reports nothing has no node that edges lead back to.
pub find_cycle_path-nil_IsAcyclic :
    {V : Type 0} (w : Workflow V) (n : String)
    → find_cycle_path w ≡ []
    → Memᴰ n (node_ids_of w)
    → ¬ Trail w.edges n n
find_cycle_path-nil_IsAcyclic w n e m =
    Acc-not_Trail w n
      ((rw e at (find_cycle_path-Report w)) n (sort_by-mem str_lt (node_ids_of w) m))

FollowsEdges-Chain :
    {V : Type 0} (w : Workflow V) (path : List String)
    → Chain (sorted_outgoing w) path
    → FollowsEdges w.edges path
FollowsEdges-Chain w [] c = tt
FollowsEdges-Chain w (x ∷ []) c = tt
FollowsEdges-Chain w (x ∷ y ∷ ys) c = (
  outgoing-HasEdge w.edges (mem-sort_by str_lt (outgoing w.edges x) c.0),
  FollowsEdges-Chain w (y ∷ ys) c.1,
)

IsCycle-cons :
    (out : String → List String) (first : String) (rest : List String)
    → IsCycle out (first ∷ rest)
    → (mid : List String) × (first ∷ rest ≡ first ∷ mid ++ first ∷ []) × Chain out (first ∷ rest)
IsCycle-cons out first rest (t, mid, p, c) = let same : t ≡ first = cc p in (mid, rw same at p, c)

-- A path that `FindCyclePath` reports is a cycle of the workflow: it ends in the node that it
-- begins with, and each of its nodes has an edge to the next.
pub find_cycle_path-cons_IsCycle :
    {V : Type 0} (w : Workflow V) (first : String) (rest : List String)
    → find_cycle_path w ≡ first ∷ rest
    → ((mid : List String) × (find_cycle_path w ≡ first ∷ mid ++ first ∷ []))
      × FollowsEdges w.edges (find_cycle_path w)
find_cycle_path-cons_IsCycle w first rest e =
    let c = IsCycle-cons (sorted_outgoing w) first rest (rw e at (find_cycle_path-Report w)) in
    ((c.0, e ∙ c.1), rw e (FollowsEdges-Chain w (first ∷ rest) c.2))
