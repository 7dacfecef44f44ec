-- ===== src/Execution/Scheduler/Passes.antt =====
-- execution/scheduler.go: `skipInactivePendingNodes` comes to an end, since each pass but the last
-- skips a pending node.
use miletos.Common.{
  ℕ, zero, suc, ◌≤◌, ◌<◌, String, Bool, true, false, ◌≡◌, refl, inl, inr, none, some, List, [], ◌∷◌,
  Memᴰ, arith, Bool-cases, count_where, length, string_eq, ==_refl,
}
use miletos.Workflow.{WorkflowNode, Workflow}
use miletos.Execution.{no_active_route}
use miletos.Execution.Store.{Store, ExecutionRow, Tx, Result, ok, err}
use miletos.Execution.Store.Nodes.{mark_node_skipped}
use miletos.Execution.Store.Statuses.{is_pending}
use miletos.Execution.Scheduler.{Outcomes, outcome_at, is_inactive, skipped_outcome}
use miletos.Execution.Scheduler.Programs.{
  Program, End, value, error, exhausted, ◌>>=◌, ◌>>◌, continue, call, committed, skip_pass,
  skipped_one, repeat_if, found_one, skip_inactive_pending_nodes,
}

-- The program did not run out of fuel.
abbrev pub Finishes : {A : Type 0} → End A → Type 0
Finishes (value a) = Unit
Finishes (error e) = Unit
Finishes exhausted = ⊥

module _ {V : Type 0} where
  abbrev pub pending_in : Outcomes V → WorkflowNode V → Bool
  pending_in os n = elim (outcome_at os n.id) [ none ↦ false | some o ↦ is_pending o.status ]

  -- The nodes that are still pending.
  abbrev pub pending_count : Outcomes V → List (WorkflowNode V) → ℕ
  pending_count os ns = count_where (pending_in os) ns

  is_inactive-pending :
      (w : Workflow V) (os : Outcomes V) (n : WorkflowNode V)
      → is_inactive w os n.id ≡ true
      → pending_in os n ≡ true
  unfolding is_inactive
  is_inactive-pending w os n h = ground (arith, h)

  -- A node that is skipped is pending no longer, and no other becomes so.
  pub skipped-no_more :
      (null : V) (id : String) (os : Outcomes V) (ns : List (WorkflowNode V))
      → pending_count ((id, skipped_outcome null) ∷ os) ns ≤ pending_count os ns
  skipped-no_more null id os [] = omega arith
  skipped-no_more null id os (n ∷ ns) = ground (arith, skipped-no_more null id os ns)

  pub skipped-fewer :
      (null : V) (os : Outcomes V) (n : WorkflowNode V) (ns : List (WorkflowNode V))
      → Memᴰ n ns
      → pending_in os n ≡ true
      → pending_count ((n.id, skipped_outcome null) ∷ os) ns < pending_count os ns
  skipped-fewer null os n [] m h = elim m [ ]
  skipped-fewer null os n (x ∷ xs) (Memᴰ.head e) h =
      rw (← e) (ground (arith, h, ==_refl n.id, skipped-no_more null n.id os xs))
  skipped-fewer null os n (x ∷ xs) (Memᴰ.tail m) h = ground (arith, skipped-fewer null os n xs m h)

  -- A pass ends; it leaves no more pending nodes, and fewer if it skipped one.
  abbrev PassEnds : List (WorkflowNode V) → Outcomes V → End (Outcomes V × Bool) → Type 0
  PassEnds all os (value (os', skipped)) =
      (pending_count os' all ≤ pending_count os all)
      × (skipped ≡ true → pending_count os' all < pending_count os all)
  PassEnds all os (error e) = Unit
  PassEnds all os exhausted = ⊥

  -- The rest of a pass, after a node that was skipped.
  skipped_one-PassEnds :
      (all : List (WorkflowNode V)) (os os₁ : Outcomes V) (s : Store V)
      (end : End (Outcomes V × Bool))
      → pending_count os₁ all < pending_count os all
      → PassEnds all os₁ end
      → PassEnds all os (continue skipped_one s end).1
  skipped_one-PassEnds all os os₁ s (value (os', b)) less (le, fewer) =
      (omega (arith, less, le), λ e. omega (arith, less, le))
  skipped_one-PassEnds all os os₁ s (error e) less h = tt
  skipped_one-PassEnds all os os₁ s exhausted less h = h

  after_call :
      (all : List (WorkflowNode V)) (os : Outcomes V) (rest : Program V (Outcomes V × Bool))
      (t : Tx V (Unit {0})) (s : Store V)
      → ((s' : Store V) → PassEnds all os (rest s').1)
      → PassEnds all os ((call t >> rest) s).1
  after_call all os rest t s p = by_result (t s)
    where
      by_result :
          (r : Result V (Unit {0}))
          → PassEnds all os (continue (λ _. rest) (committed s r).0 (committed s r).1).1
      by_result (ok a s') = p s'
      by_result (err e) = tt

  skip_pass-PassEnds :
      (null : V) (now : ℕ) (e : ExecutionRow V) (w : Workflow V) (all ns : List (WorkflowNode V))
      (os : Outcomes V) (s : Store V)
      → ((n : WorkflowNode V) → Memᴰ n ns → Memᴰ n all)
      → PassEnds all os (skip_pass null now e w ns os s).1
  unfolding skip_pass
  skip_pass-PassEnds null now e w all [] os s sub = (omega arith, λ e. cc)
  skip_pass-PassEnds null now e w all (n ∷ ns) os s sub =
      elim (Bool-cases (is_inactive w os n.id)) [
        | inr busy ↦
            rw (busy, skip_pass)
              (skip_pass-PassEnds null now e w all ns os s (λ x m. sub x (Memᴰ.tail m)))
        | inl idle ↦
            let os₁ = (n.id, skipped_outcome null) ∷ os in
            let rest = skip_pass null now e w ns os₁ in
            let less =
              skipped-fewer null os n all (sub n (Memᴰ.head refl))
                (is_inactive-pending w os n idle) in
            rw (idle, skip_pass)
              (after_call all os (rest >>= skipped_one)
                (mark_node_skipped now e.company_id e.id n.id no_active_route) s
                (λ s'.
                  skipped_one-PassEnds all os os₁ (rest s').0 (rest s').1 less
                    (skip_pass-PassEnds null now e w all ns os₁ s' (λ x m. sub x (Memᴰ.tail m)))))
      ]

  repeat_if-Finishes :
      (again : Program V Bool) (b : Bool) (s : Store V)
      → (b ≡ true → Finishes (again s).1)
      → Finishes (repeat_if again b s).1
  repeat_if-Finishes again false s p = tt
  repeat_if-Finishes again true s p = found_one-Finishes (again s).0 (again s).1 (p refl)
    where
      found_one-Finishes :
          (s' : Store V) (end : End Bool) → Finishes end → Finishes (continue found_one s' end).1
      found_one-Finishes s' (value b) h = tt
      found_one-Finishes s' (error e) h = tt
      found_one-Finishes s' exhausted h = h

  enough-Finishes :
      (null : V) (fuel now : ℕ) (e : ExecutionRow V) (w : Workflow V) (os : Outcomes V)
      (s : Store V)
      → pending_count os w.nodes < fuel
      → Finishes (skip_inactive_pending_nodes null fuel now e w os s).1
  unfolding skip_inactive_pending_nodes
  enough-Finishes null zero now e w os s h = absurd (omega (arith, h))
  enough-Finishes null (suc fuel) now e w os s h =
      by_end (skip_pass null now e w w.nodes os s).0 (skip_pass null now e w w.nodes os s).1
        (skip_pass-PassEnds null now e w w.nodes w.nodes os s (λ x m. m))
        (λ os' s' less. enough-Finishes null fuel now e w os' s' less)
    where
      by_end :
          (s' : Store V) (end : End (Outcomes V × Bool))
          → PassEnds w.nodes os end
          → ((os' : Outcomes V) (s'' : Store V)
              → pending_count os' w.nodes < fuel
              → Finishes (skip_inactive_pending_nodes null fuel now e w os' s'').1)
          → Finishes
              (continue
                (λ pass. repeat_if (skip_inactive_pending_nodes null fuel now e w pass.0) pass.1)
                s'
                end).1
      by_end s' (value (os', b)) (le, fewer) go =
          repeat_if-Finishes (skip_inactive_pending_nodes null fuel now e w os') b s'
            (λ t. go os' s' (omega (arith, h, fewer t)))
      by_end s' (error x) p go = tt
      by_end s' exhausted p go = p

  pub count_where-le-length :
      (p : WorkflowNode V → Bool) (ns : List (WorkflowNode V)) → count_where p ns ≤ length ns
  count_where-le-length p [] = omega arith
  count_where-le-length p (n ∷ ns) = ground (arith, count_where-le-length p ns)

  -- From any outcomes and tables, `skipInactivePendingNodes` comes to an end, with a value or an
  -- error, after as many passes as there are nodes and one more at most: the fuel that `Finalize`
  -- gives it is always enough.
  pub skip_inactive_pending_nodes-Finishes :
      (null : V) (now : ℕ) (e : ExecutionRow V) (w : Workflow V) (os : Outcomes V) (s : Store V)
      → Finishes (skip_inactive_pending_nodes null (suc (length w.nodes)) now e w os s).1
  skip_inactive_pending_nodes-Finishes null now e w os s =
      enough-Finishes null (suc (length w.nodes)) now e w os s
        (omega (arith, count_where-le-length (pending_in os) w.nodes))
