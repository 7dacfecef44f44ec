-- ===== src/Execution/Store/Copies.antt =====
-- execution/repository/recovery_repository.go: the copy of the results that a recovery keeps.
use miletos.Common.{
  suc, String, Bool, true, false, ◌&&◌, ◌||◌, Option, none, some, List, [], ◌∷◌, contains,
  find_where, count_where, length, nat_eq, string_eq, ◌==◌, if◌then◌else◌,
}
use miletos.Execution.{NodeStatus, node_succeeded}
use miletos.Execution.Store.{
  StoredOutput, NodeRow, state_transition, Tx, require, read, pure, update_nodes, ◌>>=◌, ◌>>◌,
}
use miletos.Execution.Store.Statuses.{is_pending}

abbrev pub has_succeeded : NodeStatus → Bool
has_succeeded node_succeeded = true
has_succeeded _ = false

abbrev pub is_found : {A : Type 0} → Option A → Bool
is_found none = false
is_found (some a) = true

module _ {V : Type 0} where
  abbrev in_execution : String → String → NodeRow V → Bool
  in_execution company_id execution_id r =
      r.company_id == company_id && r.execution_id == execution_id

  -- The row of a node that has succeeded in the source execution.
  abbrev pub source_of : String → String → String → NodeRow V → Bool
  source_of company_id source_id node_id r =
      in_execution company_id source_id r && r.node_id == node_id && has_succeeded r.status

  -- The rows that the statement updates: a repeated copy meets rows that have succeeded already.
  abbrev pub copyable : String → String → String → List String → List (NodeRow V) → NodeRow V → Bool
  copyable company_id source_id recovery_id node_ids rows r =
      in_execution company_id recovery_id r
      && contains r.node_id node_ids
      && (is_pending r.status || has_succeeded r.status)
      && is_found (find_where (source_of company_id source_id r.node_id) rows)

  abbrev pub copied_output : Option (NodeRow V) → Option (StoredOutput V)
  copied_output none = none
  copied_output (some source) = source.output

  abbrev pub copy_row : Option (StoredOutput V) → NodeRow V → NodeRow V
  copy_row output r = record r {
    status = node_succeeded;
    output = output;
    failure = none;
    started_at = some r.created_at;
    finished_at = some r.created_at;
    updated_at = r.created_at;
    next_attempt_at = none;
    lock_version = if has_succeeded r.status then r.lock_version else suc r.lock_version;
  }

  abbrev pub copy_from : String → String → List (NodeRow V) → NodeRow V → NodeRow V
  copy_from company_id source_id rows r =
      copy_row (copied_output (find_where (source_of company_id source_id r.node_id) rows)) r

  abbrev copy_all : String → String → String → List String → Tx V (Unit {0})
  copy_all company_id source_id recovery_id node_ids = do
    rows ← read (λ s. s.nodes)
    let sources =
        count_where
          (λ r.
            in_execution company_id source_id r
            && contains r.node_id node_ids
            && has_succeeded r.status)
          rows
    let targets =
        count_where (λ r. in_execution company_id recovery_id r && contains r.node_id node_ids) rows
    require (sources == length node_ids && targets == length node_ids) state_transition
    affected ←
        update_nodes (copyable company_id source_id recovery_id node_ids rows)
          (copy_from company_id source_id rows)
    require (affected == length node_ids) state_transition

  -- `CopySuccessfulNodesForCompany`
  unfoldable pub copy_successful_nodes : String → String → String → List String → Tx V (Unit {0})
  unfolding update_nodes
  copy_successful_nodes company_id source_id recovery_id [] = pure tt
  copy_successful_nodes company_id source_id recovery_id (node_id ∷ node_ids) =
      copy_all company_id source_id recovery_id (node_id ∷ node_ids)
