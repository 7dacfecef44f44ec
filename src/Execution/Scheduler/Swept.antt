-- ===== src/Execution/Scheduler/Swept.antt =====
-- execution/scheduler.go: what `skipInactivePendingNodes` has done when it returns without an error.
use miletos.Common.{
  ℕ, zero, suc, ◌≡◌, refl, sym, ◌∙◌, inl, inr, Bool, true, false, List, [], ◌∷◌, Memᴰ, All,
  Bool-cases, string_eq,
}
use miletos.Workflow.{WorkflowNode, Workflow}
use miletos.Execution.{no_active_route}
use miletos.Execution.Store.{Store, ExecutionRow, ok}
use miletos.Execution.Store.Nodes.{mark_node_skipped}
use miletos.Execution.Scheduler.{Outcomes, is_inactive, skipped_outcome}
use miletos.Execution.Scheduler.Programs.{
  Program, value, ◌>>=◌, call, skip_pass, skipped_one, repeat_if, found_one,
  skip_inactive_pending_nodes,
}
use miletos.Execution.Scheduler.Plans.{lacks_route, is_inactive-expected}
use miletos.Execution.Scheduler.Returns.{>>=-value, call-value, pure-value}

module _ {V : Type 0} (null : V) (now : ℕ) (e : ExecutionRow V) (w : Workflow V) where
  -- Pending nodes without an active route are skipped one after the other, each on the outcomes with
  -- those before it.
  pub data Skipped : Outcomes V → Store V → Outcomes V → Store V → Type 0 where
    skips_none : {os : Outcomes V} {s : Store V} → Skipped os s os s
    skips :
        {os os' : Outcomes V} {s s₁ s' : Store V} (n : WorkflowNode V)
        → Memᴰ n w.nodes
        → lacks_route w os n.id ≡ true
        → mark_node_skipped now e.company_id e.id n.id no_active_route s ≡ ok tt s₁
        → Skipped ((n.id, skipped_outcome null) ∷ os) s₁ os' s'
        → Skipped os s os' s'

  Skipped-trans :
      {os os₁ os' : Outcomes V} {s s₁ s' : Store V}
      → Skipped os s os₁ s₁
      → Skipped os₁ s₁ os' s'
      → Skipped os s os' s'
  Skipped-trans skips_none q = q
  Skipped-trans (skips n m idle h p) q = skips n m idle h (Skipped-trans p q)

  abbrev pub AllQuiet : Outcomes V → List (WorkflowNode V) → Type 0
  AllQuiet os ns = All (λ n. lacks_route w os n.id ≡ false) ns

  -- What a pass, or all passes, leave: if nothing was skipped, nothing is to skip.
  pub record Swept (os : Outcomes V) (s : Store V) (ns : List (WorkflowNode V)) (s' : Store V)
      (b : Bool) (os' : Outcomes V) : Type 0 where
    pub path : Skipped os s os' s'
    pub none_found : b ≡ false → (s' ≡ s) × AllQuiet os ns

  after_skip :
      {os : Outcomes V} {s s₁ s₂ s' : Store V} {ns : List (WorkflowNode V)}
      {r r₂ : Outcomes V × Bool} (n : WorkflowNode V)
      → Memᴰ n w.nodes
      → lacks_route w os n.id ≡ true
      → mark_node_skipped now e.company_id e.id n.id no_active_route s ≡ ok tt s₁
      → Swept ((n.id, skipped_outcome null) ∷ os) s₁ ns s₂ r₂.1 r₂.0
      → (s' ≡ s₂) × (r ≡ (r₂.0, true))
      → Swept os s (n ∷ ns) s' r.1 r.0
  after_skip n m idle h k (same, found) =
      rw (same, found) (record { path = skips n m idle h k.path; none_found = λ x. cc })

  skip_pass-Swept :
      (ns : List (WorkflowNode V)) (os : Outcomes V) (s s' : Store V) (r : Outcomes V × Bool)
      → ((n : WorkflowNode V) → Memᴰ n ns → Memᴰ n w.nodes)
      → skip_pass null now e w ns os s ≡ (s', value r)
      → Swept os s ns s' r.1 r.0
  unfolding skip_pass
  skip_pass-Swept [] os s s' r sub h =
      let (same, as_it_was) = pure-value s s' (os, false) r h in
      rw (same, as_it_was) (record { path = skips_none; none_found = λ x. (refl, tt) })
  skip_pass-Swept (n ∷ ns) os s s' r sub h = elim (Bool-cases (is_inactive w os n.id)) [
    | inr busy ↦
        let k =
          skip_pass-Swept ns os s s' r (λ x m. sub x (Memᴰ.tail m)) (rw (busy, skip_pass) at h) in
        record {
          path = k.path;
          none_found = λ x.
              let (same, rest) = k.none_found x in
              (same, (sym (is_inactive-expected w os n.id) ∙ busy, rest));
        }
    | inl idle ↦
        let os₁ = (n.id, skipped_outcome null) ∷ os in
        let rest = skip_pass null now e w ns os₁ in
        let skip = mark_node_skipped now e.company_id e.id n.id no_active_route in
        >>=-value (call skip) (λ _. rest >>= skipped_one) s s' r
          (λ s₁ a first h₁.
            >>=-value rest skipped_one s₁ s' r
              (λ s₂ r₂ second h₂.
                after_skip n (sub n (Memᴰ.head refl)) (sym (is_inactive-expected w os n.id) ∙ idle)
                  (call-value skip s s₁ a first)
                  (skip_pass-Swept ns os₁ s₁ s₂ r₂ (λ x m. sub x (Memᴰ.tail m)) second)
                  (pure-value s₂ s' (r₂.0, true) r h₂))
              h₁)
          (rw (idle, skip_pass) at h)
  ]

  after_passes :
      (again : Program V Bool) (found : Bool) (os os₁ : Outcomes V) (s s₁ s' : Store V) (b : Bool)
      → ((s₂ : Store V) (b₂ : Bool)
          → again s₁ ≡ (s₂, value b₂)
          → (os' : Outcomes V) × Swept os₁ s₁ w.nodes s₂ b₂ os')
      → Swept os s w.nodes s₁ found os₁
      → repeat_if again found s₁ ≡ (s', value b)
      → (os' : Outcomes V) × Swept os s w.nodes s' b os'
  after_passes again false os os₁ s s₁ s' b go k h =
      let (same, none_more) = pure-value s₁ s' false b h in (os₁, rw (same, none_more) k)
  after_passes again true os os₁ s s₁ s' b go k h =
      >>=-value again found_one s₁ s' b
        (λ s₂ b₂ second h₂.
          let (same, some_found) = pure-value s₂ s' true b h₂ in
          let (os', k₂) = go s₂ b₂ second in
          (
            os',
            rw (same, some_found)
                (record { path = Skipped-trans k.path k₂.path; none_found = λ x. cc }),
          ))
        h

  pub skip_inactive_pending_nodes-Swept :
      (fuel : ℕ) (os : Outcomes V) (s s' : Store V) (b : Bool)
      → skip_inactive_pending_nodes null fuel now e w os s ≡ (s', value b)
      → (os' : Outcomes V) × Swept os s w.nodes s' b os'
  unfolding skip_inactive_pending_nodes
  skip_inactive_pending_nodes-Swept zero os s s' b h = cc
  skip_inactive_pending_nodes-Swept (suc fuel) os s s' b h =
      >>=-value (skip_pass null now e w w.nodes os)
        (λ pass. repeat_if (skip_inactive_pending_nodes null fuel now e w pass.0) pass.1) s s' b
        (λ s₁ pass first h₁.
          after_passes (skip_inactive_pending_nodes null fuel now e w pass.0) pass.1 os pass.0 s s₁
            s' b (λ s₂ b₂ k. skip_inactive_pending_nodes-Swept fuel pass.0 s₁ s₂ b₂ k)
            (skip_pass-Swept w.nodes os s s₁ pass (λ n m. m) first) h₁)
        h
