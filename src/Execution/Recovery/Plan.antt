-- ===== src/Execution/Recovery/Plan.antt =====
-- execution/recovery.go: what is kept does not depend on what failed, and every node is counted once.
use miletos.Common.{
  suc, ◌+◌, ◌-◌, ◌≤◌, ◌<◌, String, Bool, true, false, not, ◌&&◌, ◌≡◌, refl, inl, inr, Option, none,
  some, List, [], ◌∷◌, ◌++◌, Memᴰ, contains, contains-append, length, arith, nat_eq, string_eq,
  ◌==◌, ==_iff, Bool-cases,
}
use miletos.Workflow.{Workflow}
use miletos.Workflow.Graph.{downstream}
use miletos.Workflow.Graph.Reach.{Reach, downstream-Reach}
use miletos.Plugin.Registry.{NodeRegistry}
use miletos.Execution.{ExecutionStatus}
use miletos.Execution.Store.{NodeRow}
use miletos.Execution.Scheduler.{Outcomes, is_succeeded, failure_reason}
use miletos.Execution.Recovery.{
  Fate, succeeded_fate, out_of_scope_fate, route_skipped_fate, failed_fate, fate_by, fate_of,
  is_succeeded_fate, is_out_of_scope_fate, is_route_skipped_fate, is_failed_fate, is_recoverable,
  ids_with, not_among, preserved_among, RecoveryPlan, planned, recovery_outcomes,
  recovery_ready_count, plan_unless_idle, plan_with, plan_from, plan_recovery,
}

not_among-apart :
    (rerun ids : List String) (id : String)
    → contains id (not_among rerun ids) ≡ true
    → contains id rerun ≡ false
not_among-apart rerun [] id h = cc
not_among-apart rerun (x ∷ xs) id h = elim (Bool-cases (contains x rerun)) [
  | inl again ↦ not_among-apart rerun xs id (rw again at h)
  | inr free ↦ elim (Bool-cases (x == id)) [
    | inl same ↦ cc ((==_iff x id).0 same, free)
    | inr other ↦ not_among-apart rerun xs id (ground (arith, h, free, other))
  ]
]

module _ {V : Type 0} where
  -- A row of a node that succeeded and is not run again.
  pub record KeptRow (rerun : List String) (rows : List (NodeRow V)) (id : String) : Type 0 where
    pub row : NodeRow V
    pub listed : Memᴰ row rows
    pub named : row.node_id ≡ id
    pub has_succeeded : is_succeeded row.status ≡ true
    pub free : contains id rerun ≡ false

  succeeded-status :
      (r : NodeRow V) → is_succeeded_fate (fate_of r) ≡ true → is_succeeded r.status ≡ true
  succeeded-status r h = by_status (is_succeeded r.status) (failure_reason r.status r.failure) h
    where
      by_status : (b : Bool) (reason : _) → is_succeeded_fate (fate_by b reason) ≡ true → b ≡ true
      by_status true reason k = refl
      by_status false reason k = absurd (ground (arith, k))

  preserved_among-KeptRow :
      (rerun out : List String) (rows : List (NodeRow V)) (id : String)
      → contains id (preserved_among rerun out rows) ≡ true
      → KeptRow rerun rows id
  preserved_among-KeptRow rerun out [] id h = cc
  preserved_among-KeptRow rerun out (r ∷ rows) id h = elim (Bool-cases keeps) [
    | inr dropped ↦ older (preserved_among-KeptRow rerun out rows id (rw dropped at h))
    | inl kept ↦ elim (Bool-cases (r.node_id == id)) [
      | inl same ↦ here ((==_iff r.node_id id).0 same) kept
      | inr other ↦
          older (preserved_among-KeptRow rerun out rows id (ground (arith, h, kept, other)))
    ]
  ]
    where
      keeps : Bool
      keeps =
          is_succeeded_fate (fate_of r)
          && not (contains r.node_id rerun)
          && not (contains r.node_id out)

      moved : r.node_id ≡ id → contains r.node_id rerun ≡ false → contains id rerun ≡ false
      moved same free = cc (same, free)

      here : r.node_id ≡ id → keeps ≡ true → KeptRow rerun (r ∷ rows) id
      here same kept = record {
        row = r;
        listed = Memᴰ.head refl;
        named = same;
        has_succeeded = succeeded-status r (ground (arith, kept));
        free = moved same (ground (arith, kept));
      }

      older : KeptRow rerun rows id → KeptRow rerun (r ∷ rows) id
      older k = record {
        row = k.row;
        listed = Memᴰ.tail k.listed;
        named = k.named;
        has_succeeded = k.has_succeeded;
        free = k.free;
      }

  -- The rows that are kept are different rows.
  kept-le :
      (rerun out : List String) (rows : List (NodeRow V))
      → length (preserved_among rerun out rows)
          + length (ids_with is_out_of_scope_fate rows)
          + length (not_among rerun (ids_with is_route_skipped_fate rows))
        ≤ length rows
  kept-le rerun out [] = omega arith
  kept-le rerun out (r ∷ rows) = by_fate (fate_of r) refl (kept-le rerun out rows)
    where
      by_fate :
          (f : Fate)
          → fate_of r ≡ f
          → length (preserved_among rerun out rows)
              + length (ids_with is_out_of_scope_fate rows)
              + length (not_among rerun (ids_with is_route_skipped_fate rows))
            ≤ length rows
          → length (preserved_among rerun out (r ∷ rows))
              + length (ids_with is_out_of_scope_fate (r ∷ rows))
              + length (not_among rerun (ids_with is_route_skipped_fate (r ∷ rows)))
            ≤ suc (length rows)
      by_fate succeeded_fate e ih =
          elim (Bool-cases (not (contains r.node_id rerun) && not (contains r.node_id out))) [
            | inl kept ↦ rw (e, kept) (omega (arith, ih))
            | inr dropped ↦ rw (e, dropped) (omega (arith, ih))
          ]
      by_fate out_of_scope_fate e ih = rw e (omega (arith, ih))
      by_fate route_skipped_fate e ih = elim (Bool-cases (not (contains r.node_id rerun))) [
        | inl kept ↦ rw (e, kept) (omega (arith, ih))
        | inr dropped ↦ rw (e, dropped) (omega (arith, ih))
      ]
      by_fate failed_fate e ih = rw e (omega (arith, ih))

  -- A plan that a recovery can go by.
  pub record Sound (w : Workflow V) (rows : List (NodeRow V)) (p : RecoveryPlan V) : Type 0 where
    pub preserved :
        (id : String)
        → contains id p.preserved_ids ≡ true
        → (r : NodeRow V) × Memᴰ r rows × (r.node_id ≡ id) × (is_succeeded r.status ≡ true)
    pub apart :
        (id : String)
        → contains id (p.preserved_ids ++ p.preserved_route_skipped_ids) ≡ true
        → Reach w.edges p.failed_ids id
        → ⊥
    pub failed : p.failed_ids ≡ ids_with is_failed_fate rows
    pub some_ready : 0 < p.scheduled
    pub counted :
        length rows ≡ length w.nodes
        → length p.preserved_ids
            + length p.out_of_scope_ids
            + length p.preserved_route_skipped_ids
            + p.reset
          ≡ length w.nodes

  planned-Sound :
      (w : Workflow V) (rows : List (NodeRow V)) (failed rerun : List String) (p : RecoveryPlan V)
      → failed ≡ ids_with is_failed_fate rows
      → ((id : String) → contains id rerun ≡ false → Reach w.edges failed id → ⊥)
      → (os : Option (Outcomes V))
      → plan_with w rows failed
          (ids_with is_out_of_scope_fate rows)
          (not_among rerun (ids_with is_route_skipped_fate rows))
          (preserved_among rerun (ids_with is_out_of_scope_fate rows) rows)
          os
        ≡ planned p
      → Sound w rows p
  unfolding recovery_ready_count
  planned-Sound w rows failed rerun p e unreached none k = absurd (ground (arith, k))
  planned-Sound w rows failed rerun p e unreached (some os) k =
      elim (Bool-cases (plan.scheduled == 0)) [
        | inl idle ↦ absurd (refuse idle k)
        | inr busy ↦ rw (← same busy k) (record {
          preserved = λ id h. of_row (preserved_among-KeptRow rerun out rows id h);
          apart = λ id h. unreached id (kept_apart id h);
          failed = e;
          some_ready = ground (arith, busy);
          counted = λ all. ground (arith, all, kept-le rerun out rows);
        })
      ]
    where
      out : List String
      out = ids_with is_out_of_scope_fate rows

      kept : List String
      kept = not_among rerun (ids_with is_route_skipped_fate rows)

      preserved : List String
      preserved = preserved_among rerun out rows

      plan : RecoveryPlan V
      plan = record {
        failed_ids = failed;
        out_of_scope_ids = out;
        preserved_route_skipped_ids = kept;
        preserved_ids = preserved;
        outcomes = os;
        scheduled = recovery_ready_count w os (preserved ++ out ++ kept) w.nodes;
        reset = length w.nodes - length preserved - length out - length kept;
      }

      refuse : (plan.scheduled == 0) ≡ true → plan_unless_idle plan ≡ planned p → ⊥
      refuse idle h = ground (arith, idle, h)

      same : (plan.scheduled == 0) ≡ false → plan_unless_idle plan ≡ planned p → plan ≡ p
      same busy h = cc ((rw busy at h))

      of_row :
          {id : String}
          → KeptRow rerun rows id
          → (r : NodeRow V) × Memᴰ r rows × (r.node_id ≡ id) × (is_succeeded r.status ≡ true)
      of_row k = (k.row, k.listed, k.named, k.has_succeeded)

      kept_apart :
          (id : String) → contains id (preserved ++ kept) ≡ true → contains id rerun ≡ false
      kept_apart id h = elim (Bool-cases (contains id preserved)) [
        | inl mine ↦ (preserved_among-KeptRow rerun out rows id mine).free
        | inr other ↦
            not_among-apart rerun (ids_with is_route_skipped_fate rows) id
              (ground (arith, h, other, contains-append id preserved kept))
      ]

  -- When a recovery is planned, the source execution had failed, was cancelled or timed out. The nodes
  -- whose results are kept have succeeded there; neither they nor the nodes that stay skipped can be
  -- reached from a node that has to run again, which are those that neither succeeded nor were skipped
  -- as out of scope or without a route. At least one node is ready; and if there is a row for each node,
  -- then those that are kept, out of scope, skipped or reset are all of them.
  pub plan_recovery-Sound :
      (null : V) (registry : Option (NodeRegistry V)) (status : ExecutionStatus) (w : Workflow V)
      (rows : List (NodeRow V)) (p : RecoveryPlan V)
      → plan_recovery null registry status w rows ≡ planned p
      → (is_recoverable status ≡ true) × Sound w rows p
  unfolding plan_recovery
  plan_recovery-Sound null registry status w rows p h = elim (Bool-cases (is_recoverable status)) [
    | inr never ↦ absurd (ground (arith, h, never))
    | inl allowed ↦ (allowed, by_failed (ids_with is_failed_fate rows) refl (rw allowed at h))
  ]
    where
      by_failed :
          (failed : List String)
          → failed ≡ ids_with is_failed_fate rows
          → plan_from null registry w rows failed ≡ planned p
          → Sound w rows p
      by_failed [] e k = absurd (ground (arith, k))
      by_failed (f ∷ fs) e k =
          planned-Sound w rows (f ∷ fs) (downstream w (f ∷ fs)) p e
            (λ id free r. absurd (ground (arith, free, (downstream-Reach w (f ∷ fs) id).1 r)))
            (recovery_outcomes null registry _ _ rows []) k
