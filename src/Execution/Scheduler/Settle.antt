-- ===== src/Execution/Scheduler/Settle.antt =====
-- execution/scheduler.go: what `Finalize` decides, in terms of the rows of the execution.
use miletos.Common.{
  ℕ, String, Bool, true, false, not, ◌&&◌, ◌||◌, ◌≡◌, ◌↔◌, refl, sym, ap, ◌∙◌, inl, inr, Option,
  none, some, List, [], ◌∷◌, ◌++◌, arith, any, all, filter, map, Bool-cases, if◌then◌else◌,
}
use mathlib.Core.List.{append_assoc, append-nil}
use miletos.Workflow.{Workflow}
use miletos.Workflow.Graph.{downstream}
use miletos.Execution.{
  NodeStatus, node_pending, node_ready, node_queued, node_running, node_retry_pending,
  node_succeeded, node_failed, node_skipped, node_cancelled, node_timed_out,
}
use miletos.Execution.Store.{NodeRow}
use miletos.Execution.Store.Statuses.{
  is_pending, is_queued, is_running, is_retry_pending, is_skipped,
}
use miletos.Execution.Scheduler.{
  is_succeeded, is_failure, Summary, no_summary, add_summary, summarize, Verdict, wait, succeed,
  fail_with, verdict_of, judge,
}

abbrev pub is_planned : Option ℕ → Bool
is_planned none = false
is_planned (some t) = true

abbrev is_ready : NodeStatus → Bool
is_ready node_pending = false
is_ready node_ready = true
is_ready node_queued = false
is_ready node_running = false
is_ready node_retry_pending = false
is_ready node_succeeded = false
is_ready node_failed = false
is_ready node_skipped = false
is_ready node_cancelled = false
is_ready node_timed_out = false

-- A node that succeeded or was skipped needs nothing more.
abbrev pub is_settled : NodeStatus → Bool
is_settled s = is_succeeded s || is_skipped s

-- A node that is queued or runs, or whose retry has a time.
abbrev pub is_active : NodeStatus → Option ℕ → Bool
is_active s next = is_queued s || is_running s || (is_retry_pending s && is_planned next)

abbrev is_broken : NodeStatus → Option ℕ → Bool
is_broken s next = is_retry_pending s && not (is_planned next)

abbrev is_waiting : NodeStatus → Bool
is_waiting s = is_pending s || is_ready s

one_of_all :
    (s : NodeStatus) (next : Option ℕ)
    → is_settled s ≡ not (is_failure s || (is_active s next || (is_waiting s || is_broken s next)))
one_of_all s next = ground arith

-- The verdict by the flags.
verdict_of-flags :
    (t : Summary) (b blocked : List String)
    → ((verdict_of t b ≡ succeed)
        ↔ (not (t.failed || (t.active || (t.pending || t.invalid_retry))) ≡ true))
      × (verdict_of t b ≡ fail_with blocked
          → (t.failed ≡ true) × ((t.active ≡ false) × (blocked ≡ b)))
verdict_of-flags t b blocked = ground arith

verdict_of-wait : (t : Summary) (b : List String) → verdict_of t b ≡ wait → t.active ≡ true
verdict_of-wait t b h = ground arith

module _ {V : Type 0} where
  abbrev pub some_failure : List (NodeRow V) → Bool
  some_failure rows = any (λ r. is_failure r.status) rows

  abbrev pub some_active : List (NodeRow V) → Bool
  some_active rows = any (λ r. is_active r.status r.next_attempt_at) rows

  abbrev some_waiting : List (NodeRow V) → Bool
  some_waiting rows = any (λ r. is_waiting r.status) rows

  abbrev some_broken : List (NodeRow V) → Bool
  some_broken rows = any (λ r. is_broken r.status r.next_attempt_at) rows

  abbrev pub all_settled : List (NodeRow V) → Bool
  all_settled rows = all (λ r. is_settled r.status) rows

  abbrev pub failed_nodes : List (NodeRow V) → List String
  failed_nodes rows = map (λ r. r.node_id) (filter (λ r. is_failure r.status) rows)

  record Summed (s t : Summary) (rows : List (NodeRow V)) : Type 0 where
    failures : t.failed ≡ (s.failed || some_failure rows)
    actives : t.active ≡ (s.active || some_active rows)
    waitings : t.pending ≡ (s.pending || some_waiting rows)
    brokens : t.invalid_retry ≡ (s.invalid_retry || some_broken rows)
    ids : t.failed_node_ids ≡ s.failed_node_ids ++ failed_nodes rows

  -- What one row adds.
  record AddedRow (s t : Summary) (r : NodeRow V) (st : NodeStatus) : Type 0 where
    failure : t.failed ≡ (s.failed || is_failure st)
    activity : t.active ≡ (s.active || is_active st r.next_attempt_at)
    waiting : t.pending ≡ (s.pending || is_waiting st)
    breakage : t.invalid_retry ≡ (s.invalid_retry || is_broken st r.next_attempt_at)
    id :
        t.failed_node_ids
        ≡ (if is_failure st then s.failed_node_ids ++ r.node_id ∷ [] else s.failed_node_ids)

  add_summary-AddedRow :
      (s : Summary) (r : NodeRow V) (st : NodeStatus) → AddedRow s (add_summary s r st) r st
  add_summary-AddedRow s r st = ground arith

  Summed-cons :
      (s u t : Summary) (r : NodeRow V) (rows : List (NodeRow V))
      → AddedRow s u r r.status
      → Summed u t rows
      → Summed s t (r ∷ rows)
  Summed-cons s u t r rows a h = record {
    failures = ground (arith, a.failure, h.failures);
    actives = ground (arith, a.activity, h.actives);
    waitings = ground (arith, a.waiting, h.waitings);
    brokens = ground (arith, a.breakage, h.brokens);
    ids = h.ids ∙ joined;
  }
    where
      joined : u.failed_node_ids ++ failed_nodes rows ≡ s.failed_node_ids ++ failed_nodes (r ∷ rows)
      joined = elim (Bool-cases (is_failure r.status)) [
        | inl bad ↦
            let e = rw bad at a.id in
            rw (bad, e) (append_assoc s.failed_node_ids (r.node_id ∷ []) (failed_nodes rows))
        | inr good ↦ let e = rw good at a.id in rw (good, e) refl
      ]

  summarize-Summed : (rows : List (NodeRow V)) (s : Summary) → Summed s (summarize s rows) rows
  unfolding summarize
  summarize-Summed [] s = record {
    failures = ground arith;
    actives = ground arith;
    waitings = ground arith;
    brokens = ground arith;
    ids = sym (append-nil s.failed_node_ids);
  }
  summarize-Summed (r ∷ rows) s =
      Summed-cons s (add_summary s r r.status) (summarize (add_summary s r r.status) rows) r rows
        (add_summary-AddedRow s r r.status) (summarize-Summed rows (add_summary s r r.status))

  all_settled-flags :
      (rows : List (NodeRow V))
      → all_settled rows
        ≡ not (some_failure rows || (some_active rows || (some_waiting rows || some_broken rows)))
  all_settled-flags [] = refl
  all_settled-flags (r ∷ rows) =
      ground (arith, one_of_all r.status r.next_attempt_at, all_settled-flags rows)

  pub judge-wait :
      (w : Workflow V) (rows : List (NodeRow V)) → judge w rows ≡ wait → some_active rows ≡ true
  unfolding judge
  judge-wait w rows e =
      let t = summarize no_summary rows in
      sym (summarize-Summed rows no_summary).actives
      ∙ verdict_of-wait t (downstream w t.failed_node_ids) e

  -- The verdict on an execution, in terms of its rows.
  pub record Judged (w : Workflow V) (rows : List (NodeRow V)) (v : Verdict) : Type 0 where
    pub succeeds : (v ≡ succeed) ↔ (all_settled rows ≡ true)
    pub fails :
        (blocked : List String)
        → v ≡ fail_with blocked
        → (some_failure rows ≡ true)
          × ((some_active rows ≡ false) × (blocked ≡ downstream w (failed_nodes rows)))

  -- `Finalize` decides for success exactly when every node of the execution has succeeded or was
  -- skipped. It decides for failure only when a node has failed, timed out or was cancelled and no
  -- node is queued, runs or waits for a planned retry, and then blocks what `Downstream` finds from
  -- the nodes that failed.
  pub judge-Judged : (w : Workflow V) (rows : List (NodeRow V)) → Judged w rows (judge w rows)
  unfolding judge
  judge-Judged w rows =
      let h = summarize-Summed rows no_summary in
      let t = summarize no_summary rows in
      let by_flags = verdict_of-flags t (downstream w t.failed_node_ids) in
      record {
        succeeds =
            rw (all_settled-flags rows, ← h.failures, ← h.actives, ← h.waitings, ← h.brokens)
              (by_flags []).0;
        fails = λ blocked e.
            let (bad, (idle, same)) = (by_flags blocked).1 e in
            (
              sym h.failures ∙ bad,
              (sym h.actives ∙ idle, same ∙ ap (λ ids. downstream w ids) h.ids),
            );
      }
