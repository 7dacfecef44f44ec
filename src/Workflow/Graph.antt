-- ===== src/Workflow/Graph.antt =====
-- internal/features/workflow-runtime/workflow/graph.go: predecessors, roots and descendants.
pub mod Reach
pub mod Cycle
use miletos.Common.{
  ℕ, zero, suc, ◌+◌, String, Bool, true, false, Option, none, some, List, [], ◌∷◌, ◌++◌, map,
  length, filter, contains, sort_by, str_lt, string_eq, ◌==◌, if◌then◌else◌,
}
use miletos.Workflow.{Edge, WorkflowNode, Workflow}

-- `outgoing[nodeID]`: the targets of a node's edges, in the order of the edges.
abbrev pub outgoing : List Edge → String → List String
outgoing [] node_id = []
outgoing (e ∷ es) node_id =
    let rest = outgoing es node_id in
    if e.source_node_id == node_id then e.target_node_id ∷ rest else rest

-- The sources of the edges into a node.
abbrev pub sources_of : List Edge → String → List String
sources_of [] node_id = []
sources_of (e ∷ es) node_id =
    let rest = sources_of es node_id in
    if e.target_node_id == node_id then e.source_node_id ∷ rest else rest

unfoldable pub predecessors : {V : Type 0} → Workflow V → String → List String
predecessors w node_id = sort_by str_lt (sources_of w.edges node_id)

abbrev pub is_empty {ℓ} : {A : Type ℓ} → List A → Bool
is_empty [] = true
is_empty (x ∷ xs) = false

unfoldable pub roots : {V : Type 0} → Workflow V → List (WorkflowNode V)
roots w = filter (λ n. is_empty (predecessors w n.id)) w.nodes

-- The work list of `Downstream`; `none` means that the fuel ran out.
unfoldable pub downstream_loop : ℕ → List Edge → List String → List String → Option (List String)
downstream_loop zero edges queue result = none
downstream_loop (suc fuel) edges [] result = some result
downstream_loop (suc fuel) edges (node_id ∷ queue) result =
    let again = downstream_loop fuel edges queue result in
    let expanded =
      downstream_loop fuel edges (queue ++ outgoing edges node_id) (node_id ∷ result) in
    if contains node_id result then again else expanded

abbrev pub or_empty {ℓ} : {A : Type ℓ} → Option (List A) → List A
or_empty none = []
or_empty (some xs) = xs

-- Each edge is queued once at most, so the number of starts and edges bounds the rounds.
abbrev pub downstream_fuel : List Edge → List String → ℕ
downstream_fuel edges starts = suc (length starts + length edges)

unfoldable pub downstream : {V : Type 0} → Workflow V → List String → List String
unfolding downstream_loop
downstream w starts = or_empty (downstream_loop (downstream_fuel w.edges starts) w.edges starts [])
