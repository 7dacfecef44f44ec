-- ===== src/Execution/Scheduler/Finalized.antt =====
-- execution/scheduler.go: what `Finalize` has done when it returns without an error.
use miletos.Common.{
  ℕ, zero, suc, ◌≡◌, refl, inl, inr, String, Bool, true, false, Option, none, some, List, [], ◌∷◌,
  Bool-cases, contains, length, string_eq,
}
use miletos.Workflow.{Workflow}
use miletos.Workflow.Graph.{downstream}
use miletos.Plugin.Registry.{NodeRegistry}
use miletos.Execution.{dependency_failed, execution_failed, execution_succeeded}
use miletos.Execution.Store.{Store, ExecutionRow, NodeRow, ok}
use miletos.Execution.Store.Nodes.{mark_node_skipped}
use miletos.Execution.Store.Statuses.{is_pending}
use miletos.Execution.Store.Executions.{finalize}
use miletos.Execution.Scheduler.{
  Outcomes, decode_all, Verdict, broken_retry, wait, unscheduled, succeed, fail_with, judge,
  terminal_outputs,
}
use miletos.Execution.Scheduler.Programs.{
  Program, value, call, rows_of, list_all_nodes, found_one, fail_execution, restart_if, settle,
  skip_inactive_pending_nodes, skip_blocked, carry_out, finalize_execution,
}
use miletos.Execution.Scheduler.Settle.{
  some_failure, some_active, all_settled, failed_nodes, judge-Judged, judge-wait,
}
use miletos.Execution.Scheduler.Returns.{>>=-value, call-value, pure-value, false-no_true}
use miletos.Execution.Scheduler.Swept.{Skipped, AllQuiet, Swept, skip_inactive_pending_nodes-Swept}

module _ {V : Type 0} (null : V) (now : ℕ) (e : ExecutionRow V) (w : Workflow V) where
  -- Every pending row of a failed execution is blocked by a failure, and is skipped for it.
  pub data Barred (blocked : List String) : List (NodeRow V) → Store V → Store V → Type 0 where
    bars_none : {s : Store V} → Barred blocked [] s s
    passes :
        {r : NodeRow V} {rs : List (NodeRow V)} {s s' : Store V}
        → is_pending r.status ≡ false
        → Barred blocked rs s s'
        → Barred blocked (r ∷ rs) s s'
    bars :
        {r : NodeRow V} {rs : List (NodeRow V)} {s s₁ s' : Store V}
        → is_pending r.status ≡ true
        → contains r.node_id blocked ≡ true
        → mark_node_skipped now e.company_id e.id r.node_id dependency_failed s ≡ ok tt s₁
        → Barred blocked rs s₁ s'
        → Barred blocked (r ∷ rs) s s'

  skip_blocked-Barred :
      (blocked : List String) (rs : List (NodeRow V)) (s s' : Store V)
      → skip_blocked now e blocked rs s ≡ (s', value false)
      → Barred blocked rs s s'
  unfolding skip_blocked
  skip_blocked-Barred blocked [] s s' h =
      let same = (pure-value s s' false false h).0 in rw same bars_none
  skip_blocked-Barred blocked (r ∷ rs) s s' h = elim (Bool-cases (is_pending r.status)) [
    | inr other ↦ passes other (skip_blocked-Barred blocked rs s s' (rw (other, skip_blocked) at h))
    | inl waits ↦ elim (Bool-cases (contains r.node_id blocked)) [
      | inl below ↦
          let skip = mark_node_skipped now e.company_id e.id r.node_id dependency_failed in
          >>=-value (call skip) (λ _. skip_blocked now e blocked rs) s s' false
            (λ s₁ a first h₁.
              bars waits below (call-value skip s s₁ a first)
                (skip_blocked-Barred blocked rs s₁ s' h₁))
            (rw (waits, below, skip_blocked) at h)
      | inr free ↦
          >>=-value (skip_blocked now e blocked rs) found_one s s' false
            (λ s₁ a first h₁. false-no_true s₁ s' h₁) (rw (waits, free, skip_blocked) at h)
    ]
  ]

  module _ (registry : Option (NodeRegistry V)) where
    abbrev pub rows_in : Store V → List (NodeRow V)
    rows_in s = rows_of e.company_id e.id s

    -- The rows can be read, and no pending node is without an active route.
    pub record Quiet (s : Store V) : Type 0 where
      pub outcomes : Outcomes V
      pub decoded : decode_all null registry [] (rows_in s) ≡ some outcomes
      pub none_inactive : AllQuiet null now e w outcomes w.nodes

    -- What `Finalize` may do, and when, from the tables before to those after.
    pub data Finalized : Store V → Store V → Type 0 where
      -- It skips nodes without an active route, and starts anew.
      clears :
          {s s₁ s' : Store V} (os os' : Outcomes V)
          → decode_all null registry [] (rows_in s) ≡ some os
          → Skipped null now e w os s os' s₁
          → Finalized s₁ s'
          → Finalized s s'
      -- It waits for a node.
      waits : {s : Store V} → Quiet s → some_active (rows_in s) ≡ true → Finalized s s
      -- The execution succeeds: all its nodes have succeeded or were skipped.
      succeeds :
          {s s' : Store V}
          → Quiet s
          → all_settled (rows_in s) ≡ true
          → finalize now e.company_id e.id execution_succeeded
              (terminal_outputs w (rows_in s) w.nodes)
              none
              s
            ≡ ok tt s'
          → Finalized s s'
      -- The execution fails: a node has failed, and none is active; each pending one is below a node
      -- that failed, and is skipped first.
      fails :
          {s s₁ s' : Store V}
          → Quiet s
          → some_failure (rows_in s) ≡ true
          → some_active (rows_in s) ≡ false
          → Barred (downstream w (failed_nodes (rows_in s))) (rows_in s) s s₁
          → finalize now e.company_id e.id execution_failed [] (some "One or more nodes failed") s₁
            ≡ ok tt s'
          → Finalized s s'

    carry_out-Finalized :
        (s s' : Store V) (v : Verdict)
        → Quiet s
        → judge w (rows_in s) ≡ v
        → carry_out now e w (rows_in s) v s ≡ (s', value tt)
        → Finalized s s'
    unfolding carry_out
    carry_out-Finalized s s' broken_retry q j h = cc
    carry_out-Finalized s s' wait q j h =
        let same = (pure-value s s' tt tt h).0 in rw same (waits q (judge-wait w (rows_in s) j))
    carry_out-Finalized s s' unscheduled q j h = cc
    carry_out-Finalized s s' (fail_with blocked) q j h =
        let (bad, (idle, below)) = (judge-Judged w (rows_in s)).fails blocked j in
        >>=-value (skip_blocked now e blocked (rows_in s)) (fail_execution now e) s s' tt
          (λ s₁ b first h₁. by_rest bad idle b s₁ (rw below at first) h₁) h
      where
        by_rest :
            some_failure (rows_in s) ≡ true
            → some_active (rows_in s) ≡ false
            → (b : Bool) (s₁ : Store V)
            → skip_blocked now e (downstream w (failed_nodes (rows_in s))) (rows_in s) s
              ≡ (s₁, value b)
            → fail_execution now e b s₁ ≡ (s', value tt)
            → Finalized s s'
        by_rest bad idle true s₁ first h = cc
        by_rest bad idle false s₁ first h =
            fails q bad idle
              (skip_blocked-Barred (downstream w (failed_nodes (rows_in s))) (rows_in s) s s₁ first)
              (call-value
                (finalize now e.company_id e.id execution_failed []
                  (some "One or more nodes failed"))
                s₁ s' tt h)
    carry_out-Finalized s s' succeed q j h =
        succeeds q ((judge-Judged w (rows_in s)).succeeds.0 j) (
          call-value
            (finalize now e.company_id e.id execution_succeeded
              (terminal_outputs w (rows_in s) w.nodes) none)
            s s' tt h)

    settle-Finalized :
        (s s' : Store V) (again : Program V (Unit {0})) (os : Option (Outcomes V))
        → ((s₁ : Store V) → again s₁ ≡ (s', value tt) → Finalized s₁ s')
        → decode_all null registry [] (rows_in s) ≡ os
        → settle null now e w (rows_in s) again os s ≡ (s', value tt)
        → Finalized s s'
    unfolding settle
    settle-Finalized s s' again none go d h = cc
    settle-Finalized s s' again (some os) go d h =
        >>=-value (skip_inactive_pending_nodes null (suc (length w.nodes)) now e w os)
          (restart_if again (carry_out now e w (rows_in s) (judge w (rows_in s)))) s s' tt
          (λ s₁ b first h₁.
            let (os', k) =
              skip_inactive_pending_nodes-Swept null now e w (suc (length w.nodes)) os s s₁ b
                first in
            by_found s₁ b os' k h₁)
          h
      where
        by_found :
            (s₁ : Store V) (b : Bool) (os' : Outcomes V)
            → Swept null now e w os s w.nodes s₁ b os'
            → restart_if again (carry_out now e w (rows_in s) (judge w (rows_in s))) b s₁
              ≡ (s', value tt)
            → Finalized s s'
        by_found s₁ true os' k h = clears os os' d k.path (go s₁ h)
        by_found s₁ false os' k h =
            let (same, rest) = k.none_found refl in
            carry_out-Finalized s s' (judge w (rows_in s))
              (record { outcomes = os; decoded = d; none_inactive = rest }) refl (rw same at h)

    -- When `Finalize` returns without an error, then it has done this and no more. While pending nodes
    -- had no active route, it has skipped them, each for that reason, and read the rows anew; when
    -- none was left, it has left the execution as it was, as a node is active; or ended it as
    -- succeeded, with the outputs of the final nodes, all nodes having succeeded or been skipped; or,
    -- with a node failed and none active, it has skipped all pending nodes, each of them downstream
    -- of a failed one, as those whose dependency failed, and ended the execution as failed.
    pub finalize_execution-Finalized :
        (fuel : ℕ) (s s' : Store V)
        → finalize_execution null registry fuel now e w s ≡ (s', value tt)
        → Finalized s s'
    unfolding finalize_execution list_all_nodes
    finalize_execution-Finalized zero s s' h = cc
    finalize_execution-Finalized (suc fuel) s s' h =
        settle-Finalized s s' (finalize_execution null registry fuel now e w)
          (decode_all null registry [] (rows_in s))
          (λ s₁ h₁. finalize_execution-Finalized fuel s₁ s' h₁) refl h
