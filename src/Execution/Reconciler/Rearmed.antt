-- ===== src/Execution/Reconciler/Rearmed.antt =====
-- execution/repository/reconciliation_repository.go: a repaired command waits for a dispatcher.
use miletos.Common.{
  ℕ, String, Bool, true, not, ◌&&◌, ◌≡◌, refl, inl, inr, List, [], ◌∷◌, any, arith, update_where,
  string_eq, nat_eq, Bool-cases,
}
use miletos.Execution.{NodeJob}
use miletos.Execution.Store.{Store, NodeRow, OutboxRow, ok, update_nodes, update_outbox}
use miletos.Execution.Store.Outbox.{
  conflicts, is_published, node_command_operation_key, persist_node_command, insert_command,
}
use miletos.Execution.Store.Repairs.{repair_queued_node_command, rearm_row}
use miletos.Execution.Store.Commands.{has_command, command_row-conflicts}

-- The command of a job's attempt is in the outbox and is not published.
abbrev pub awaits_publication : {V : Type 0} → NodeJob V → List (OutboxRow V) → Bool
awaits_publication job rows =
    any
      (λ o.
        conflicts job (node_command_operation_key job job.attempt) o
        && not (is_published o.publication_state))
      rows

module _ {V : Type 0} where
  rearmed-awaits_publication :
      (job : NodeJob V) (destination : String) (available_at : ℕ) (rows : List (OutboxRow V))
      → has_command job job.attempt rows ≡ true
      → awaits_publication job (
          update_where
            (λ o.
              conflicts job (node_command_operation_key job job.attempt) o
              && is_published o.publication_state)
            (rearm_row job destination available_at)
            rows)
        ≡ true
  rearmed-awaits_publication job destination available_at [] h = cc
  rearmed-awaits_publication job destination available_at (o ∷ rows) h =
      elim (Bool-cases (conflicts job (node_command_operation_key job job.attempt) o)) [
        | inl mine ↦ elim (Bool-cases (is_published o.publication_state)) [
          | inl out ↦ rw (mine, out, mine) refl
          | inr waiting ↦ rw (mine, waiting, mine, waiting) refl
        ]
        | inr other ↦
            let rest =
              rearmed-awaits_publication job destination available_at rows (rw other at h) in
            rw (other, other) rest
      ]

  repaired-outbox :
      (message_id : String) (now : ℕ) (node : NodeRow V) (job : NodeJob V) (destination : String)
      (available_at : ℕ) (s s' : Store V)
      → repair_queued_node_command message_id now node job destination available_at s ≡ ok true s'
      → (rows : List (OutboxRow V)) × (has_command job job.attempt rows ≡ true)
        × (s'.outbox
            ≡ update_where
                (λ o.
                  conflicts job (node_command_operation_key job job.attempt) o
                  && is_published o.publication_state)
                (rearm_row job destination available_at)
                rows)
  unfolding repair_queued_node_command update_nodes update_outbox persist_node_command
  repaired-outbox message_id now node job destination available_at s s' h = (
    inserted.outbox,
    ground (arith, command_row-conflicts message_id job job.attempt destination available_at now),
    ground (arith, h),
  )
    where
      inserted : Store V
      inserted =
          insert_command message_id job job.attempt (node_command_operation_key job job.attempt)
            destination available_at now s

  -- When a repair of a queued node's command reports that it was made, the command of the node's
  -- attempt is in the outbox and is not published, so that a dispatcher sends it once more.
  pub repair_queued_node_command-awaits_publication :
      (message_id : String) (now : ℕ) (node : NodeRow V) (job : NodeJob V) (destination : String)
      (available_at : ℕ) (s s' : Store V)
      → repair_queued_node_command message_id now node job destination available_at s ≡ ok true s'
      → awaits_publication job s'.outbox ≡ true
  repair_queued_node_command-awaits_publication message_id now node job destination available_at s
        s' h =
      let (rows, known, e) =
        repaired-outbox message_id now node job destination available_at s s' h in
      rw e (rearmed-awaits_publication job destination available_at rows known)
