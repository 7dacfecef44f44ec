-- ===== src/Workflow/Graph/Cycle.antt =====
-- workflow/graph.go: `FindCyclePath` and the depth-first `cycleDetector.visit`. Go's maps `state` and
-- `stackIndex` are functions with the zero value for a missing key. The field `outgoing`, which the
-- detector never changes, is the argument `out`.
pub mod Total
pub mod Chain
pub mod Search
pub mod Report
use miletos.Common.{
  ℕ, zero, suc, ◌+◌, String, Bool, true, false, Option, none, some, List, [], ◌∷◌, ◌++◌, map,
  length, sort_by, str_lt, string_eq, ◌==◌, if◌then◌else◌,
}
use miletos.Workflow.{Edge, Workflow}
use miletos.Workflow.Graph.{outgoing, or_empty}

pub data VisitState : Type 0 where
  node_unvisited node_visiting node_visited : VisitState

-- `m[k] = v` on a map as a function.
abbrev pub update {ℓ} : {A : Type ℓ} → (String → A) → String → A → String → A
update f k v j = if k == j then v else f j

pub record CycleDetector : Type 0 where
  pub state : String → VisitState
  pub stack : List String
  pub stack_index : String → ℕ

abbrev pub drop {ℓ} : {A : Type ℓ} → ℕ → List A → List A
drop zero xs = xs
drop (suc n) [] = []
drop (suc n) (x ∷ xs) = drop n xs

-- `stack[:len(stack)-1]`
abbrev pub drop_last {ℓ} : {A : Type ℓ} → List A → List A
drop_last [] = []
drop_last (x ∷ []) = []
drop_last (x ∷ y ∷ ys) = x ∷ drop_last (y ∷ ys)

-- A search's state and the cycle found, `[]` if none; `none` means that the fuel ran out.
abbrev pub Search : Type 0
Search = Option (CycleDetector × List String)

-- The loop of `visit` over a node's targets, given the recursive call.
unfoldable pub walk : (CycleDetector → String → Search) → CycleDetector → List String → Search
walk go d [] = some (d, [])
walk go d (target ∷ targets) = elim (d.state target) [
  | node_visiting ↦ some (d, drop (d.stack_index target) d.stack ++ target ∷ [])
  | node_visited ↦ walk go d targets
  | node_unvisited ↦ elim (go d target) [
    | none ↦ none
    | some (d', []) ↦ walk go d' targets
    | some (d', c ∷ cs) ↦ some (d', c ∷ cs)
  ]
]

abbrev pub enter : CycleDetector → String → CycleDetector
enter d node_id = record d {
  state = update d.state node_id node_visiting;
  stack_index = update d.stack_index node_id (length d.stack);
  stack = d.stack ++ node_id ∷ [];
}

abbrev pub leave : CycleDetector → String → CycleDetector
leave d node_id = record d {
  stack = drop_last d.stack;
  stack_index = update d.stack_index node_id 0;
  state = update d.state node_id node_visited;
}

abbrev pub finish : String → Search → Search
finish node_id none = none
finish node_id (some (d, [])) = some (leave d node_id, [])
finish node_id (some (d, c ∷ cs)) = some (d, c ∷ cs)

unfoldable pub visit : ℕ → (String → List String) → CycleDetector → String → Search
unfolding walk
visit zero out d node_id = none
visit (suc fuel) out d node_id =
    finish node_id (walk (visit fuel out) (enter d node_id) (out node_id))

-- The loop of `FindCyclePath` over the sorted node ids.
unfoldable pub scan :
    (CycleDetector → String → Search) → CycleDetector → List String → Option (List String)
scan go d [] = some []
scan go d (node_id ∷ node_ids) = elim (d.state node_id) [
  | node_visiting ↦ scan go d node_ids
  | node_visited ↦ scan go d node_ids
  | node_unvisited ↦ elim (go d node_id) [
    | none ↦ none
    | some (d', []) ↦ scan go d' node_ids
    | some (d', c ∷ cs) ↦ some (c ∷ cs)
  ]
]

abbrev pub new_detector : CycleDetector
new_detector = record { state = λ x. node_unvisited; stack = []; stack_index = λ x. 0 }

abbrev pub node_ids_of : {V : Type 0} → Workflow V → List String
node_ids_of w = map (λ n. n.id) w.nodes

abbrev pub sorted_outgoing : {V : Type 0} → Workflow V → String → List String
sorted_outgoing w node_id = sort_by str_lt (outgoing w.edges node_id)

-- A visit goes one level down for each node that it enters: a listed node or an edge's target.
abbrev pub universe : {V : Type 0} → Workflow V → List String
universe w = node_ids_of w ++ map (λ e. e.target_node_id) w.edges

unfoldable pub cycle_search : {V : Type 0} → Workflow V → Option (List String)
unfolding visit scan
cycle_search w =
    scan (visit (length (universe w)) (sorted_outgoing w)) new_detector
      (sort_by str_lt (node_ids_of w))

unfoldable pub find_cycle_path : {V : Type 0} → Workflow V → List String
unfolding cycle_search
find_cycle_path w = or_empty (cycle_search w)
