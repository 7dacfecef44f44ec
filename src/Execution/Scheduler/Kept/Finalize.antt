-- ===== src/Execution/Scheduler/Kept/Finalize.antt =====
-- execution/scheduler.go: what `Finalize` keeps.
use miletos.Common.{
  ℕ, zero, suc, String, Bool, true, false, Option, none, some, List, [], ◌∷◌, inl, inr, Bool-cases,
  contains, length, string_eq,
}
use miletos.Workflow.{WorkflowNode, Workflow}
use miletos.Plugin.Registry.{NodeRegistry}
use miletos.Execution.{no_active_route, dependency_failed, execution_failed, execution_succeeded}
use miletos.Execution.Store.{ExecutionRow, NodeRow}
use miletos.Execution.Store.Nodes.{mark_node_skipped}
use miletos.Execution.Store.Statuses.{is_pending}
use miletos.Execution.Scheduler.{
  Outcomes, decode_all, is_inactive, skipped_outcome, Verdict, broken_retry, wait, unscheduled,
  succeed, fail_with, judge, terminal_outputs,
}
use miletos.Execution.Scheduler.Programs.{
  Program, ◌>>=◌, call, list_all_nodes, skip_pass, skipped_one, repeat_if, found_one,
  fail_execution, restart_if, settle, skip_inactive_pending_nodes, skip_blocked, carry_out,
  finalize_execution,
}
use miletos.Execution.Scheduler.Kept.{Kept, Keeps, >>=-Keeps, skip-Keeps, finalize-Keeps}

module _ {V : Type 0} (K : Kept V) where
  skip_pass-Keeps :
      (null : V) (now : ℕ) (e : ExecutionRow V) (w : Workflow V) (ns : List (WorkflowNode V))
      (os : Outcomes V)
      → Keeps K (skip_pass null now e w ns os)
  unfolding skip_pass
  skip_pass-Keeps null now e w [] os = λ s. K.same s
  skip_pass-Keeps null now e w (n ∷ ns) os = elim (Bool-cases (is_inactive w os n.id)) [
    | inl idle ↦
        let os' = (n.id, skipped_outcome null) ∷ os in
        let rest = skip_pass null now e w ns os' in
        rw (idle, skip_pass)
          (>>=-Keeps K (call (mark_node_skipped now e.company_id e.id n.id no_active_route))
            (λ _. rest >>= skipped_one) (skip-Keeps K now e.company_id e.id n.id no_active_route)
            (λ _.
              >>=-Keeps K rest skipped_one (skip_pass-Keeps null now e w ns os')
                (λ found s. K.same s)))
    | inr busy ↦ rw (busy, skip_pass) (skip_pass-Keeps null now e w ns os)
  ]

  repeat_if-Keeps :
      (again : Program V Bool) (b : Bool) → Keeps K again → Keeps K (repeat_if again b)
  repeat_if-Keeps again false p = λ s. K.same s
  repeat_if-Keeps again true p = >>=-Keeps K again found_one p (λ b s. K.same s)

  skip_inactive_pending_nodes-Keeps :
      (null : V) (fuel now : ℕ) (e : ExecutionRow V) (w : Workflow V) (os : Outcomes V)
      → Keeps K (skip_inactive_pending_nodes null fuel now e w os)
  unfolding skip_inactive_pending_nodes
  skip_inactive_pending_nodes-Keeps null zero now e w os = λ s. K.same s
  skip_inactive_pending_nodes-Keeps null (suc fuel) now e w os =
      >>=-Keeps K (skip_pass null now e w w.nodes os)
        (λ pass. repeat_if (skip_inactive_pending_nodes null fuel now e w pass.0) pass.1)
        (skip_pass-Keeps null now e w w.nodes os)
        (λ pass.
          repeat_if-Keeps (skip_inactive_pending_nodes null fuel now e w pass.0) pass.1
            (skip_inactive_pending_nodes-Keeps null fuel now e w pass.0))

  skip_blocked-Keeps :
      (now : ℕ) (e : ExecutionRow V) (blocked : List String) (rs : List (NodeRow V))
      → Keeps K (skip_blocked now e blocked rs)
  unfolding skip_blocked
  skip_blocked-Keeps now e blocked [] = λ s. K.same s
  skip_blocked-Keeps now e blocked (r ∷ rs) =
      let rest = skip_blocked-Keeps now e blocked rs in
      elim (Bool-cases (is_pending r.status)) [
        | inr other ↦ rw (other, skip_blocked) rest
        | inl waits ↦ elim (Bool-cases (contains r.node_id blocked)) [
          | inl below ↦
              rw (waits, below, skip_blocked)
                (>>=-Keeps K
                  (call (mark_node_skipped now e.company_id e.id r.node_id dependency_failed))
                  (λ _. skip_blocked now e blocked rs)
                  (skip-Keeps K now e.company_id e.id r.node_id dependency_failed) (λ _. rest))
          | inr free ↦
              rw (waits, free, skip_blocked)
                (>>=-Keeps K (skip_blocked now e blocked rs) found_one rest (λ b s. K.same s))
        ]
      ]

  fail_execution-Keeps :
      (now : ℕ) (e : ExecutionRow V) (b : Bool) → Keeps K (fail_execution now e b)
  fail_execution-Keeps now e true = λ s. K.same s
  fail_execution-Keeps now e false =
      finalize-Keeps K now e.company_id e.id execution_failed [] (some "One or more nodes failed")

  carry_out-Keeps :
      (now : ℕ) (e : ExecutionRow V) (w : Workflow V) (rows : List (NodeRow V)) (v : Verdict)
      → Keeps K (carry_out now e w rows v)
  unfolding carry_out
  carry_out-Keeps now e w rows broken_retry = λ s. K.same s
  carry_out-Keeps now e w rows wait = λ s. K.same s
  carry_out-Keeps now e w rows unscheduled = λ s. K.same s
  carry_out-Keeps now e w rows (fail_with blocked) =
      >>=-Keeps K (skip_blocked now e blocked rows) (fail_execution now e)
        (skip_blocked-Keeps now e blocked rows) (fail_execution-Keeps now e)
  carry_out-Keeps now e w rows succeed =
      finalize-Keeps K now e.company_id e.id execution_succeeded (terminal_outputs w rows w.nodes)
        none

  settle-Keeps :
      (null : V) (now : ℕ) (e : ExecutionRow V) (w : Workflow V) (rows : List (NodeRow V))
      (again : Program V (Unit {0})) (os : Option (Outcomes V))
      → Keeps K again
      → Keeps K (settle null now e w rows again os)
  unfolding settle
  settle-Keeps null now e w rows again none p = λ s. K.same s
  settle-Keeps null now e w rows again (some os) p =
      >>=-Keeps K (skip_inactive_pending_nodes null (suc (length w.nodes)) now e w os)
        (restart_if again (carry_out now e w rows (judge w rows)))
        (skip_inactive_pending_nodes-Keeps null (suc (length w.nodes)) now e w os) restarts
    where
      restarts : (b : Bool) → Keeps K (restart_if again (carry_out now e w rows (judge w rows)) b)
      restarts true = p
      restarts false = carry_out-Keeps now e w rows (judge w rows)

  pub finalize_execution-Keeps :
      (null : V) (registry : Option (NodeRegistry V)) (fuel now : ℕ) (e : ExecutionRow V)
      (w : Workflow V)
      → Keeps K (finalize_execution null registry fuel now e w)
  unfolding finalize_execution list_all_nodes
  finalize_execution-Keeps null registry zero now e w = λ s. K.same s
  finalize_execution-Keeps null registry (suc fuel) now e w =
      >>=-Keeps K (list_all_nodes e.company_id e.id)
        (λ rows.
          settle null now e w rows (finalize_execution null registry fuel now e w)
            (decode_all null registry [] rows))
        (λ s. K.same s)
        (λ rows.
          settle-Keeps null now e w rows (finalize_execution null registry fuel now e w)
            (decode_all null registry [] rows)
            (finalize_execution-Keeps null registry fuel now e w))
