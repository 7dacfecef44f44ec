-- ===== src/Execution/Scheduler/Pending.antt =====
-- execution/scheduler.go: the loops of `Finalize` leave no more pending rows than they find, and fewer
-- if they report that they skipped a node.
use miletos.Common.{
  ℕ, zero, suc, ◌+◌, ◌≤◌, ◌<◌, String, Bool, true, false, ◌≡◌, refl, inl, inr, none, some, List, [],
  ◌∷◌, arith, Bool-cases, count_where, update_where, string_eq,
}
use miletos.Workflow.{WorkflowNode, Workflow}
use miletos.Execution.{no_active_route, SkipReason}
use miletos.Execution.Store.{Store, ExecutionRow, NodeRow, Tx, Result, ok, err}
use miletos.Execution.Store.Nodes.{skippable_at, skip_row, mark_node_skipped}
use miletos.Execution.Store.Statuses.{is_pending, skip_reason_of}
use miletos.Execution.Store.Tables.{mark_node_skipped-nodes}
use miletos.Execution.Scheduler.{Outcomes, outcome_at, is_inactive, skipped_outcome}
use miletos.Execution.Scheduler.Programs.{
  Program, End, value, error, exhausted, ◌>>=◌, continue, call, committed, skip_pass, skipped_one,
  repeat_if, found_one, skip_inactive_pending_nodes,
}

module _ {V : Type 0} where
  abbrev pub pending_rows : Store V → ℕ
  pending_rows s = count_where (λ r. is_pending r.status) s.nodes

  -- An update after which the rows that it changed do not wait.
  pub count-pending-le :
      (p : NodeRow V → Bool) (f : NodeRow V → NodeRow V) (rs : List (NodeRow V))
      → ((r : NodeRow V) → is_pending (f r).status ≡ false)
      → count_where (λ r. is_pending r.status) (update_where p f rs)
        ≤ count_where (λ r. is_pending r.status) rs
  count-pending-le p f [] k = omega arith
  count-pending-le p f (r ∷ rs) k =
      let rest = count-pending-le p f rs k in
      elim (Bool-cases (p r)) [
        | inl hit ↦ rw (hit, k r) (ground (arith, rest))
        | inr miss ↦ rw miss (ground (arith, rest))
      ]

  -- A program that leaves no more pending rows than it finds.
  abbrev pub Shrinks : {A : Type 0} → Program V A → Type 0
  Shrinks m = (s : Store V) → pending_rows (m s).0 ≤ pending_rows s

  -- An outcome of the map says that a node is pending.
  abbrev pub pending_at : Outcomes V → String → Bool
  pending_at os id = elim (outcome_at os id) [ none ↦ false | some o ↦ is_pending o.status ]

  -- Each node that is pending in the map has a pending row.
  abbrev pub Backed : String → String → Store V → Outcomes V → Type 0
  Backed company_id execution_id s os =
      (id : String)
      → pending_at os id ≡ true
      → 0 < count_where (skippable_at company_id execution_id id) s.nodes

  skipped-count :
      (now : ℕ) (company_id execution_id id : String) (reason : SkipReason) (xs : List (NodeRow V))
      → count_where
            (λ r. is_pending r.status)
            (update_where (skippable_at company_id execution_id id) (skip_row now reason) xs)
          + count_where (skippable_at company_id execution_id id) xs
        ≡ count_where (λ r. is_pending r.status) xs
  skipped-count now company_id execution_id id reason [] = refl
  skipped-count now company_id execution_id id reason (x ∷ xs) =
      ground (arith, skipped-count now company_id execution_id id reason xs)

  -- A skip takes away the pending rows of its node.
  pub skip-count :
      (now : ℕ) (company_id execution_id id : String) (reason : SkipReason) (s s' : Store V)
      → mark_node_skipped now company_id execution_id id reason s ≡ ok tt s'
      → pending_rows s' + count_where (skippable_at company_id execution_id id) s.nodes
        ≡ pending_rows s
  skip-count now company_id execution_id id reason s s' h =
      rw (mark_node_skipped-nodes s s' now company_id execution_id id reason h)
        (skipped-count now company_id execution_id id (skip_reason_of reason) s.nodes)

  >>=-Shrinks :
      {A B : Type 0} (m : Program V A) (f : A → Program V B)
      → Shrinks m
      → ((a : A) → Shrinks (f a))
      → Shrinks (m >>= f)
  >>=-Shrinks m f p q s = by_end (m s).1 (m s).0 (p s)
    where
      by_end :
          (end : End _) (s' : Store V)
          → pending_rows s' ≤ pending_rows s
          → pending_rows (continue f s' end).0 ≤ pending_rows s
      by_end (value a) s' h = omega (arith, h, q a s')
      by_end (error e) s' h = h
      by_end exhausted s' h = h

  call-Shrinks :
      {A : Type 0} (t : Tx V A)
      → ((s s' : Store V) (a : A) → t s ≡ ok a s' → pending_rows s' ≤ pending_rows s)
      → Shrinks (call t)
  call-Shrinks t k s = by_result (t s) refl
    where
      by_result : (r : Result V _) → t s ≡ r → pending_rows (committed s r).0 ≤ pending_rows s
      by_result (ok a s') e = k s s' a e
      by_result (err x) e = omega arith

  skip-Shrinks :
      (now : ℕ) (company_id execution_id id : String) (reason : SkipReason)
      → Shrinks (call (mark_node_skipped {V = V} now company_id execution_id id reason))
  skip-Shrinks now company_id execution_id id reason =
      call-Shrinks (mark_node_skipped now company_id execution_id id reason)
        (λ s s' a h. omega (arith, skip-count now company_id execution_id id reason s s' h))

  pub skip_pass-Shrinks :
      (null : V) (now : ℕ) (e : ExecutionRow V) (w : Workflow V) (ns : List (WorkflowNode V))
      (os : Outcomes V)
      → Shrinks (skip_pass null now e w ns os)
  unfolding skip_pass
  skip_pass-Shrinks null now e w [] os = λ s. omega arith
  skip_pass-Shrinks null now e w (n ∷ ns) os = elim (Bool-cases (is_inactive w os n.id)) [
    | inr busy ↦ rw (busy, skip_pass) (skip_pass-Shrinks null now e w ns os)
    | inl idle ↦
        let os₁ = (n.id, skipped_outcome null) ∷ os in
        let rest = skip_pass null now e w ns os₁ in
        rw (idle, skip_pass)
          (>>=-Shrinks (call (mark_node_skipped now e.company_id e.id n.id no_active_route))
            (λ _. rest >>= skipped_one) (skip-Shrinks now e.company_id e.id n.id no_active_route)
            (λ _.
              >>=-Shrinks rest skipped_one (skip_pass-Shrinks null now e w ns os₁)
                (λ found s. omega arith)))
  ]

  pub skip_inactive_pending_nodes-Shrinks :
      (null : V) (fuel now : ℕ) (e : ExecutionRow V) (w : Workflow V) (os : Outcomes V)
      → Shrinks (skip_inactive_pending_nodes null fuel now e w os)
  unfolding skip_inactive_pending_nodes
  skip_inactive_pending_nodes-Shrinks null zero now e w os = λ s. omega arith
  skip_inactive_pending_nodes-Shrinks null (suc fuel) now e w os =
      >>=-Shrinks (skip_pass null now e w w.nodes os)
        (λ pass. repeat_if (skip_inactive_pending_nodes null fuel now e w pass.0) pass.1)
        (skip_pass-Shrinks null now e w w.nodes os)
        (λ pass.
          again pass.1 (skip_inactive_pending_nodes null fuel now e w pass.0)
            (skip_inactive_pending_nodes-Shrinks null fuel now e w pass.0))
    where
      again : (b : Bool) (m : Program V Bool) → Shrinks m → Shrinks (repeat_if m b)
      again false m p = λ s. omega arith
      again true m p = >>=-Shrinks m found_one p (λ b s. omega arith)
