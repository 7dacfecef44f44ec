-- ===== src/Execution/Scheduler/Skips.antt =====
-- execution/scheduler.go: `skipInactivePendingNodes` says that it skipped a node only when there is a
-- pending row less.
use miletos.Common.{
  ℕ, zero, suc, ◌<◌, String, Bool, true, false, ◌&&◌, ◌≡◌, refl, inl, inr, ◌⊎◌, Option, some, List,
  [], ◌∷◌, arith, Bool-cases, Option-cases, count_where, filter, string_eq, ◌==◌, count-sort_by,
}
use miletos.Workflow.{WorkflowNode, Workflow}
use miletos.Plugin.Registry.{NodeRegistry}
use miletos.Execution.{no_active_route}
use miletos.Execution.Routing.{NodeOutcome}
use miletos.Execution.Store.{Store, ExecutionRow, NodeRow, Result, ok, err}
use miletos.Execution.Store.Nodes.{skippable_at, mark_node_skipped}
use miletos.Execution.Store.Statuses.{is_pending}
use miletos.Execution.Scheduler.{Outcomes, decode_outcome, decode_all, is_inactive, skipped_outcome}
use miletos.Execution.Scheduler.Programs.{
  Program, End, value, error, exhausted, ◌>>=◌, continue, committed, rows_of, created_before,
  skip_pass, skipped_one, repeat_if, found_one, skip_inactive_pending_nodes,
}
use miletos.Execution.Scheduler.Pending.{
  pending_rows, Shrinks, Backed, pending_at, skip-count, skip_pass-Shrinks,
  skip_inactive_pending_nodes-Shrinks,
}

module _ {V : Type 0} where
  abbrev waits_at : String → NodeRow V → Bool
  waits_at id r = r.node_id == id && is_pending r.status

  decode_outcome-status :
      (null : V) (registry : Option (NodeRegistry V)) (r : NodeRow V) (o : NodeOutcome V)
      → decode_outcome null registry r ≡ some o
      → o.status ≡ r.status
  unfolding decode_outcome
  decode_outcome-status null registry r o h = ground (arith, h)

  -- A node that is pending in the map was so before, or a row that was read says so.
  decode_all-pending :
      (null : V) (registry : Option (NodeRegistry V)) (rs : List (NodeRow V)) (os os' : Outcomes V)
      (id : String)
      → decode_all null registry os rs ≡ some os'
      → pending_at os' id ≡ true
      → (pending_at os id ≡ true) ⊎ (0 < count_where (waits_at id) rs)
  unfolding decode_all
  decode_all-pending null registry [] os os' id h p = inl (ground (arith, h, p))
  decode_all-pending null registry (r ∷ rs) os os' id h p =
      elim (Option-cases (decode_outcome null registry r)) [
        | inl e ↦ absurd (ground (arith, h, e))
        | inr (o, e) ↦
            let same = decode_outcome-status null registry r o e in
            let below =
              decode_all-pending null registry rs ((r.node_id, o) ∷ os) os' id
                (rw (e, decode_all) at h) p in
            elim below [
              | inl k ↦ elim (Bool-cases (r.node_id == id)) [
                | inl hit ↦ inr (ground (arith, k, hit, same))
                | inr miss ↦ inl (ground (arith, k, miss))
              ]
              | inr k ↦ inr (ground (arith, k))
            ]
      ]

  count-filter :
      (company_id execution_id id : String) (xs : List (NodeRow V))
      → count_where
          (waits_at id)
          (filter (λ r. r.company_id == company_id && r.execution_id == execution_id) xs)
        ≡ count_where (skippable_at company_id execution_id id) xs
  count-filter company_id execution_id id [] = refl
  count-filter company_id execution_id id (x ∷ xs) =
      ground (arith, count-filter company_id execution_id id xs)

  -- The map that `Finalize` reads is backed by the tables.
  pub decode_all-Backed :
      (null : V) (registry : Option (NodeRegistry V)) (company_id execution_id : String)
      (s : Store V) (os : Outcomes V)
      → decode_all null registry [] (rows_of company_id execution_id s) ≡ some os
      → Backed company_id execution_id s os
  decode_all-Backed null registry company_id execution_id s os h id p =
      let mine =
        filter (λ r. r.company_id == company_id && r.execution_id == execution_id) s.nodes in
      elim (decode_all-pending null registry (rows_of company_id execution_id s) [] os id h p) [
        | inl e ↦ absurd (ground (arith, e))
        | inr k ↦ omega (
          arith,
          k,
          count-sort_by created_before (waits_at id) mine,
          count-filter company_id execution_id id s.nodes,
        )
      ]

  -- What a loop that skips rows does to their number: fewer, if it says that it skipped one.
  abbrev pub Fewer : Store V → Store V → End Bool → Type 0
  Fewer s s' (value false) = Unit
  Fewer s s' (value true) = pending_rows s' < pending_rows s
  Fewer s s' (error e) = Unit
  Fewer s s' exhausted = Unit

  abbrev PassFewer : Store V → Store V → End (Outcomes V × Bool) → Type 0
  PassFewer s s' (value (os, b)) = Fewer s s' (value b)
  PassFewer s s' (error e) = Unit
  PassFewer s s' exhausted = Unit

  skipped_one-PassFewer :
      (s s' : Store V) (end : End (Outcomes V × Bool))
      → pending_rows s' < pending_rows s
      → PassFewer s (continue skipped_one s' end).0 (continue skipped_one s' end).1
  skipped_one-PassFewer s s' (value (os, b)) h = h
  skipped_one-PassFewer s s' (error e) h = tt
  skipped_one-PassFewer s s' exhausted h = tt

  is_inactive-pending_at :
      (w : Workflow V) (os : Outcomes V) (id : String)
      → is_inactive w os id ≡ true
      → pending_at os id ≡ true
  unfolding is_inactive
  is_inactive-pending_at w os id h = ground (arith, h)

  -- The first node that a pass skips has a pending row.
  skip_pass-PassFewer :
      (null : V) (now : ℕ) (e : ExecutionRow V) (w : Workflow V) (ns : List (WorkflowNode V))
      (os : Outcomes V) (s : Store V)
      → Backed e.company_id e.id s os
      → PassFewer s (skip_pass null now e w ns os s).0 (skip_pass null now e w ns os s).1
  unfolding skip_pass
  skip_pass-PassFewer null now e w [] os s b = tt
  skip_pass-PassFewer null now e w (n ∷ ns) os s b = elim (Bool-cases (is_inactive w os n.id)) [
    | inr busy ↦ rw (busy, skip_pass) (skip_pass-PassFewer null now e w ns os s b)
    | inl idle ↦
        rw (idle, skip_pass)
          (by_result (skip_pass null now e w ns ((n.id, skipped_outcome null) ∷ os))
            (skip_pass-Shrinks null now e w ns ((n.id, skipped_outcome null) ∷ os))
            (mark_node_skipped now e.company_id e.id n.id no_active_route s)
            (λ s' h. fewer s' h (b n.id (is_inactive-pending_at w os n.id idle))))
  ]
    where
      fewer :
          (s' : Store V)
          → mark_node_skipped now e.company_id e.id n.id no_active_route s ≡ ok tt s'
          → 0 < count_where (skippable_at e.company_id e.id n.id) s.nodes
          → pending_rows s' < pending_rows s
      fewer s' h some_row =
          omega (arith, some_row, skip-count now e.company_id e.id n.id no_active_route s s' h)

      by_result :
          (rest : Program V (Outcomes V × Bool))
          → Shrinks rest
          → (r : Result V (Unit {0}))
          → ((s' : Store V) → r ≡ ok tt s' → pending_rows s' < pending_rows s)
          → PassFewer s
              (continue (λ _. rest >>= skipped_one) (committed s r).0 (committed s r).1).0
              (continue (λ _. rest >>= skipped_one) (committed s r).0 (committed s r).1).1
      by_result rest p (ok tt s') less =
          skipped_one-PassFewer s (rest s').0 (rest s').1 (omega (arith, less s' refl, p s'))
      by_result rest p (err x) less = tt

  found_one-Fewer :
      (s s' : Store V) (end : End Bool)
      → pending_rows s' < pending_rows s
      → Fewer s (continue found_one s' end).0 (continue found_one s' end).1
  found_one-Fewer s s' (value b) h = h
  found_one-Fewer s s' (error e) h = tt
  found_one-Fewer s s' exhausted h = tt

  pub skip_inactive_pending_nodes-Fewer :
      (null : V) (fuel now : ℕ) (e : ExecutionRow V) (w : Workflow V) (os : Outcomes V)
      (s : Store V)
      → Backed e.company_id e.id s os
      → Fewer s
          (skip_inactive_pending_nodes null fuel now e w os s).0
          (skip_inactive_pending_nodes null fuel now e w os s).1
  unfolding skip_inactive_pending_nodes
  skip_inactive_pending_nodes-Fewer null zero now e w os s b = tt
  skip_inactive_pending_nodes-Fewer null (suc fuel) now e w os s b =
      by_end (skip_pass null now e w w.nodes os s).0 (skip_pass null now e w w.nodes os s).1
        (skip_pass-PassFewer null now e w w.nodes os s b)
    where
      again : Outcomes V × Bool → Program V Bool
      again pass = repeat_if (skip_inactive_pending_nodes null fuel now e w pass.0) pass.1

      by_end :
          (s' : Store V) (end : End (Outcomes V × Bool))
          → PassFewer s s' end
          → Fewer s (continue again s' end).0 (continue again s' end).1
      by_end s' (value (os', false)) h = tt
      by_end s' (value (os', true)) h =
          let rest = skip_inactive_pending_nodes null fuel now e w os' in
          found_one-Fewer s (rest s').0 (rest s').1
            (omega (arith, h, skip_inactive_pending_nodes-Shrinks null fuel now e w os' s'))
      by_end s' (error x) h = tt
      by_end s' exhausted h = tt
