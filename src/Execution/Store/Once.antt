-- ===== src/Execution/Store/Once.antt =====
-- execution/repository: a result is saved once.
use miletos.Common.{
  ℕ, String, Bool, ◌≡◌, refl, arith, string_eq, nat_eq, count_where, count-update_where,
}
use miletos.Execution.{FailureSummary, NodeJob, NodeRoutingOutcome}
use miletos.Execution.Store.{Store, state_transition, ok, err, update_nodes}
use miletos.Execution.Store.Attempts.{save_node_success, finishable, succeed_row, stored_output}
use miletos.Execution.Store.Failures.{save_node_failure}
use miletos.Execution.Store.Tables.{save_node_success-nodes}

module _ {V : Type 0} where
  -- A result that has been saved is final: no second result of the job's attempt, a success or a
  -- failure, is saved after a success, whatever the second says.
  pub save_node_success-final :
      (message_id : String) (now later : ℕ) (job : NodeJob V) (output output' : V)
      (routing routing' : NodeRoutingOutcome V) (failure : FailureSummary) (retry : Bool)
      (failed_at next_attempt maximum_attempts delay : ℕ) (destination : String) (s s' : Store V)
      → save_node_success now job output routing s ≡ ok tt s'
      → (save_node_success later job output' routing' s' ≡ err state_transition)
        × (save_node_failure message_id later job failure retry failed_at next_attempt
              maximum_attempts delay destination s'
            ≡ err state_transition)
  unfolding save_node_success save_node_failure update_nodes
  save_node_success-final message_id now later job output output' routing routing' failure retry
        failed_at next_attempt maximum_attempts delay destination s s' h =
      let gone : count_where (finishable job) s'.nodes ≡ 0 =
        rw (save_node_success-nodes s s' now job output routing h) (
          count-update_where (finishable job) (succeed_row now (stored_output output routing))
            s.nodes (λ r hit. ground arith)) in
      (rw gone refl, rw gone refl)
