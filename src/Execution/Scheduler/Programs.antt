-- ===== src/Execution/Scheduler/Programs.antt =====
-- execution/scheduler.go: programs of several transactions, and `Finalize` as one.
use miletos.Common.{
  ℕ, zero, suc, String, Bool, true, false, ◌&&◌, Option, none, some, List, [], ◌∷◌, filter,
  contains, length, sort_by, str_lt, ltb, nat_eq, string_eq, ◌==◌, if◌then◌else◌,
}
use miletos.Workflow.{WorkflowNode, Workflow}
use miletos.Plugin.Registry.{NodeRegistry}
use miletos.Execution.{execution_failed, execution_succeeded, no_active_route, dependency_failed}
use miletos.Execution.Store.{
  Store, ExecutionRow, NodeRow, Tx, Result, ok, err, StoreError, state_transition, invalid_outcome,
  awaiting_scheduling,
}
use miletos.Execution.Store.Nodes.{mark_node_skipped}
use miletos.Execution.Store.Statuses.{is_pending}
use miletos.Execution.Store.Executions.{finalize}
use miletos.Execution.Scheduler.{
  Outcomes, decode_all, is_inactive, skipped_outcome, Verdict, broken_retry, wait, unscheduled,
  succeed, fail_with, judge, terminal_outputs,
}

-- How a program ends.
pub data End (A : Type 0) : Type 0 where
  value : A → End A
  error : StoreError → End A
  exhausted : End A

abbrev pub Program : Type 0 → Type 0 → Type 0
Program V A = Store V → Store V × End A

-- What follows a program that has ended.
abbrev pub continue : {V A B : Type 0} → (A → Program V B) → Store V → End A → Store V × End B
continue f s (value a) = f a s
continue f s (error e) = (s, error e)
continue f s exhausted = (s, exhausted)

infixl 5 ◌>>=◌ ◌>>◌
abbrev pub ◌>>=◌ : {V A B : Type 0} → Program V A → (A → Program V B) → Program V B
◌>>=◌ m f s = continue f (m s).0 (m s).1

abbrev pub ◌>>◌ : {V B : Type 0} → Program V (Unit {0}) → Program V B → Program V B
m >> k = m >>= λ _. k

module _ {V : Type 0} where
  abbrev pub pure : {A : Type 0} → A → Program V A
  pure a s = (s, value a)

  abbrev pub raise : {A : Type 0} → StoreError → Program V A
  raise e s = (s, error e)

  abbrev pub exhaust : {A : Type 0} → Program V A
  exhaust s = (s, exhausted)

  -- A transaction, committed or rolled back.
  abbrev pub committed : {A : Type 0} → Store V → Result V A → Store V × End A
  committed s (ok a s') = (s', value a)
  committed s (err e) = (s, error e)

  abbrev pub call : {A : Type 0} → Tx V A → Program V A
  call t s = committed s (t s)

  -- `ORDER BY created_at, node_id`
  abbrev pub created_before : NodeRow V → NodeRow V → Bool
  created_before a b =
      if a.created_at == b.created_at
      then str_lt a.node_id b.node_id
      else ltb a.created_at b.created_at

  abbrev pub rows_of : String → String → Store V → List (NodeRow V)
  rows_of company_id execution_id s =
      sort_by created_before
        (filter (λ r. r.company_id == company_id && r.execution_id == execution_id) s.nodes)

  -- `ListAllNodes`
  unfoldable pub list_all_nodes : String → String → Program V (List (NodeRow V))
  list_all_nodes company_id execution_id s = (s, value (rows_of company_id execution_id s))

  -- A node was skipped, whatever the rest of the pass does.
  abbrev pub skipped_one : Outcomes V × Bool → Program V (Outcomes V × Bool)
  skipped_one rest = pure (rest.0, true)

  -- One pass of `skipInactivePendingNodes`: the outcomes after it, and whether it skipped a node.
  unfoldable pub skip_pass :
      V
      → ℕ
      → ExecutionRow V
      → Workflow V
      → List (WorkflowNode V)
      → Outcomes V
      → Program V (Outcomes V × Bool)
  unfolding is_inactive mark_node_skipped
  skip_pass null now e w [] os = pure (os, false)
  skip_pass null now e w (n ∷ ns) os = elim (is_inactive w os n.id) [
    | false ↦ skip_pass null now e w ns os
    | true ↦
        call (mark_node_skipped now e.company_id e.id n.id no_active_route)
        >> (skip_pass null now e w ns ((n.id, skipped_outcome null) ∷ os) >>= skipped_one)
  ]

  abbrev pub found_one : Bool → Program V Bool
  found_one rest = pure true

  -- After a pass that skipped a node comes another.
  abbrev pub repeat_if : Program V Bool → Bool → Program V Bool
  repeat_if again false = pure false
  repeat_if again true = again >>= found_one

  -- Passes until one skips nothing; whether any did.
  unfoldable pub skip_inactive_pending_nodes :
      V → ℕ → ℕ → ExecutionRow V → Workflow V → Outcomes V → Program V Bool
  unfolding skip_pass
  skip_inactive_pending_nodes null zero now e w os = exhaust
  skip_inactive_pending_nodes null (suc fuel) now e w os =
      skip_pass null now e w w.nodes os >>= λ pass.
      repeat_if (skip_inactive_pending_nodes null fuel now e w pass.0) pass.1

  -- The loop over the pending states of a failed execution; whether one of them is not blocked.
  unfoldable pub skip_blocked : ℕ → ExecutionRow V → List String → List (NodeRow V) → Program V Bool
  unfolding mark_node_skipped
  skip_blocked now e blocked [] = pure false
  skip_blocked now e blocked (r ∷ rs) = elim (is_pending r.status) [
    | false ↦ skip_blocked now e blocked rs
    | true ↦ elim (contains r.node_id blocked) [
      | true ↦
          call (mark_node_skipped now e.company_id e.id r.node_id dependency_failed)
          >> skip_blocked now e blocked rs
      | false ↦ skip_blocked now e blocked rs >>= found_one
    ]
  ]

  abbrev pub fail_execution : ℕ → ExecutionRow V → Bool → Program V (Unit {0})
  fail_execution now e true = raise state_transition
  fail_execution now e false =
      call (finalize now e.company_id e.id execution_failed [] (some "One or more nodes failed"))

  unfoldable pub carry_out :
      ℕ → ExecutionRow V → Workflow V → List (NodeRow V) → Verdict → Program V (Unit {0})
  unfolding finalize terminal_outputs skip_blocked
  carry_out now e w rows broken_retry = raise state_transition
  carry_out now e w rows wait = pure tt
  carry_out now e w rows unscheduled = raise awaiting_scheduling
  carry_out now e w rows (fail_with blocked) =
      skip_blocked now e blocked rows >>= fail_execution now e
  carry_out now e w rows succeed =
      call
        (finalize now e.company_id e.id execution_succeeded (terminal_outputs w rows w.nodes) none)

  -- The rest of `Finalize` once the states are read; it starts anew when a node was skipped.
  abbrev pub restart_if : Program V (Unit {0}) → Program V (Unit {0}) → Bool → Program V (Unit {0})
  restart_if again rest true = again
  restart_if again rest false = rest

  unfoldable pub settle :
      V
      → ℕ
      → ExecutionRow V
      → Workflow V
      → List (NodeRow V)
      → Program V (Unit {0})
      → Option (Outcomes V)
      → Program V (Unit {0})
  unfolding skip_inactive_pending_nodes judge carry_out
  settle null now e w rows again none = raise invalid_outcome
  settle null now e w rows again (some os) =
      skip_inactive_pending_nodes null (suc (length w.nodes)) now e w os
      >>= restart_if again (carry_out now e w rows (judge w rows))

  -- `Finalize`
  unfoldable pub finalize_execution :
      V → Option (NodeRegistry V) → ℕ → ℕ → ExecutionRow V → Workflow V → Program V (Unit {0})
  unfolding list_all_nodes decode_all settle
  finalize_execution null registry zero now e w = exhaust
  finalize_execution null registry (suc fuel) now e w = list_all_nodes e.company_id e.id >>= λ rows.
      settle null now e w rows (finalize_execution null registry fuel now e w)
        (decode_all null registry [] rows)
