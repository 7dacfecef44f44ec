-- ===== src/Execution/Scheduler/Ends.antt =====
-- execution/scheduler.go: `Finalize` comes to an end, since it starts anew only after it has skipped a
-- pending row.
use miletos.Common.{
  ℕ, zero, suc, ◌<◌, String, Bool, true, false, ◌≡◌, refl, inl, inr, Option, none, some, List, [],
  ◌∷◌, arith, Bool-cases, string_eq, contains, length,
}
use miletos.Workflow.{Workflow}
use miletos.Plugin.Registry.{NodeRegistry}
use miletos.Execution.{dependency_failed, execution_failed, execution_succeeded}
use miletos.Execution.Store.{Store, ExecutionRow, NodeRow, Tx, Result, ok, err}
use miletos.Execution.Store.Nodes.{mark_node_skipped}
use miletos.Execution.Store.Statuses.{is_pending}
use miletos.Execution.Store.Executions.{finalize}
use miletos.Execution.Scheduler.{
  Outcomes, decode_all, judge, Verdict, broken_retry, wait, unscheduled, succeed, fail_with,
  terminal_outputs,
}
use miletos.Execution.Scheduler.Programs.{
  Program, End, value, error, exhausted, ◌>>=◌, continue, call, committed, rows_of, found_one,
  skip_inactive_pending_nodes, list_all_nodes, skip_blocked, fail_execution, carry_out, restart_if,
  settle, finalize_execution,
}
use miletos.Execution.Scheduler.Passes.{Finishes, skip_inactive_pending_nodes-Finishes}
use miletos.Execution.Scheduler.Pending.{pending_rows, Backed}
use miletos.Execution.Scheduler.Skips.{decode_all-Backed, Fewer, skip_inactive_pending_nodes-Fewer}

module _ {V : Type 0} where
  -- A program that comes to an end from all tables.
  abbrev Total : {A : Type 0} → Program V A → Type 0
  Total m = (s : Store V) → Finishes (m s).1

  >>=-Total :
      {A B : Type 0} (m : Program V A) (f : A → Program V B)
      → Total m
      → ((a : A) → Total (f a))
      → Total (m >>= f)
  >>=-Total m f p q s = by_end (m s).0 (m s).1 (p s)
    where
      by_end : (s' : Store V) (end : End _) → Finishes end → Finishes (continue f s' end).1
      by_end s' (value a) h = q a s'
      by_end s' (error e) h = tt
      by_end s' exhausted h = h

  call-Total : {A : Type 0} (t : Tx V A) → Total (call t)
  call-Total {A} t s = by_result (t s)
    where
      by_result : (r : Result V A) → Finishes (committed s r).1
      by_result (ok a s') = tt
      by_result (err x) = tt

  skip_blocked-Total :
      (now : ℕ) (e : ExecutionRow V) (blocked : List String) (rs : List (NodeRow V))
      → Total (skip_blocked now e blocked rs)
  unfolding skip_blocked
  skip_blocked-Total now e blocked [] = λ s. tt
  skip_blocked-Total now e blocked (r ∷ rs) =
      let rest = skip_blocked-Total now e blocked rs in
      elim (Bool-cases (is_pending r.status)) [
        | inr busy ↦ rw (busy, skip_blocked) rest
        | inl waits ↦ elim (Bool-cases (contains r.node_id blocked)) [
          | inl hit ↦
              rw (waits, hit, skip_blocked)
                (>>=-Total
                  (call (mark_node_skipped now e.company_id e.id r.node_id dependency_failed))
                  (λ _. skip_blocked now e blocked rs)
                  (call-Total (mark_node_skipped now e.company_id e.id r.node_id dependency_failed))
                  (λ _. rest))
          | inr free ↦
              rw (waits, free, skip_blocked)
                (>>=-Total (skip_blocked now e blocked rs) found_one rest (λ b s. tt))
        ]
      ]

  fail_execution-Total : (now : ℕ) (e : ExecutionRow V) (b : Bool) → Total (fail_execution now e b)
  fail_execution-Total now e true = λ s. tt
  fail_execution-Total now e false =
      call-Total
        (finalize now e.company_id e.id execution_failed [] (some "One or more nodes failed"))

  carry_out-Total :
      (now : ℕ) (e : ExecutionRow V) (w : Workflow V) (rows : List (NodeRow V)) (v : Verdict)
      → Total (carry_out now e w rows v)
  unfolding carry_out
  carry_out-Total now e w rows broken_retry = λ s. tt
  carry_out-Total now e w rows wait = λ s. tt
  carry_out-Total now e w rows unscheduled = λ s. tt
  carry_out-Total now e w rows (fail_with blocked) =
      >>=-Total (skip_blocked now e blocked rows) (fail_execution now e)
        (skip_blocked-Total now e blocked rows) (fail_execution-Total now e)
  carry_out-Total now e w rows succeed =
      call-Total
        (finalize now e.company_id e.id execution_succeeded (terminal_outputs w rows w.nodes) none)

  -- The rest of `Finalize` ends if a new start does from tables with fewer pending rows.
  settle-Finishes :
      (null : V) (now : ℕ) (e : ExecutionRow V) (w : Workflow V) (rows : List (NodeRow V))
      (again : Program V (Unit {0})) (found : Option (Outcomes V)) (s : Store V)
      → ((os : Outcomes V) → found ≡ some os → Backed e.company_id e.id s os)
      → ((s' : Store V) → pending_rows s' < pending_rows s → Finishes (again s').1)
      → Finishes (settle null now e w rows again found s).1
  unfolding settle
  settle-Finishes null now e w rows again none s b go = tt
  settle-Finishes null now e w rows again (some os) s b go =
      let fuel = suc (length w.nodes) in
      let skips = skip_inactive_pending_nodes null fuel now e w os s in
      by_end skips.0 skips.1 (skip_inactive_pending_nodes-Finishes null now e w os s)
        (skip_inactive_pending_nodes-Fewer null fuel now e w os s (b os refl))
    where
      rest : Program V (Unit {0})
      rest = carry_out now e w rows (judge w rows)

      by_end :
          (s' : Store V) (end : End Bool)
          → Finishes end
          → Fewer s s' end
          → Finishes (continue (restart_if again rest) s' end).1
      by_end s' (value true) f less = go s' less
      by_end s' (value false) f less = carry_out-Total now e w rows (judge w rows) s'
      by_end s' (error x) f less = tt
      by_end s' exhausted f less = f

  -- `Finalize` comes to an end, with a value or an error, if it may start more often than there are
  -- pending rows of nodes in the tables.
  pub finalize_execution-Finishes :
      (null : V) (registry : Option (NodeRegistry V)) (fuel now : ℕ) (e : ExecutionRow V)
      (w : Workflow V) (s : Store V)
      → pending_rows s < fuel
      → Finishes (finalize_execution null registry fuel now e w s).1
  unfolding finalize_execution list_all_nodes
  finalize_execution-Finishes null registry zero now e w s h = absurd (omega (arith, h))
  finalize_execution-Finishes null registry (suc fuel) now e w s h =
      let rows = rows_of e.company_id e.id s in
      settle-Finishes null now e w rows (finalize_execution null registry fuel now e w)
        (decode_all null registry [] rows) s
        (λ os k. decode_all-Backed null registry e.company_id e.id s os k)
        (λ s' less.
          finalize_execution-Finishes null registry fuel now e w s' (omega (arith, h, less)))
