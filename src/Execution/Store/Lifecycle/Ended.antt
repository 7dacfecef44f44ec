-- ===== src/Execution/Store/Lifecycle/Ended.antt =====
-- execution/repository: what transactions keep of the rows of nodes that have come to an end, and of
-- the constraints on all rows.
use miletos.Common.{
  String, true, ◌≡◌, ◌≢◌, refl, ◌∙◌, sym, arith, List, Memᴰ, All, Bool-cases, inl, inr,
}
use miletos.Execution.{NodeStatus, node_pending, node_succeeded, is_terminal_node_status}
use miletos.Execution.Store.{Store, NodeRow}
use miletos.Execution.Store.Copies.{has_succeeded}
use miletos.Execution.Store.Lifecycle.{
  Allowed, RowOk, Copied, identity_of, Progress, stays, moves, copies, Evolved, none_yet, added,
  changed,
}
use miletos.Execution.Store.Lifecycle.History.{History, History-Evolved}

terminal-no_move : {a b : NodeStatus} → Allowed a b → is_terminal_node_status a ≡ true → ⊥
terminal-no_move Allowed.queue_pending h = cc
terminal-no_move Allowed.queue_ready h = cc
terminal-no_move Allowed.queue_retry h = cc
terminal-no_move Allowed.start h = cc
terminal-no_move Allowed.succeed h = cc
terminal-no_move Allowed.fail h = cc
terminal-no_move Allowed.await_retry h = cc
terminal-no_move Allowed.skip h = cc
terminal-no_move Allowed.repair h = cc

pending-unended : (s : NodeStatus) → s ≡ node_pending → is_terminal_node_status s ≡ true → ⊥
pending-unended s e h = ground arith

succeeded-eq : (s : NodeStatus) → has_succeeded s ≡ true → s ≡ node_succeeded
succeeded-eq s h = ground arith

module _ {V : Type 0} where
  -- What a copy into a row that has succeeded leaves as it is.
  pub record StillEnded (r r' : NodeRow V) : Type 0 where
    pub same_identity : identity_of r' ≡ identity_of r
    pub same_status : r'.status ≡ r.status
    pub same_attempt : r'.attempt ≡ r.attempt
    pub same_version : r'.lock_version ≡ r.lock_version

  -- A copy into a row that has come to an end: the row has succeeded.
  Copied-succeeded :
      {r r' : NodeRow V}
      → Copied r r'
      → is_terminal_node_status r.status ≡ true
      → has_succeeded r.status ≡ true
  Copied-succeeded {r} c h = elim (Bool-cases (has_succeeded r.status)) [
    | inl done ↦ done
    | inr open_still ↦ let waits = c.from open_still in absurd (pending-unended r.status waits h)
  ]

module _ {V : Type 0} {recovers : String → Type 0} where
  Progress-StillEnded :
      {r r' : NodeRow V}
      → Progress recovers r r'
      → is_terminal_node_status r.status ≡ true
      → StillEnded r r'
  Progress-StillEnded stays h = record {
    same_identity = refl;
    same_status = refl;
    same_attempt = refl;
    same_version = refl;
  }
  Progress-StillEnded (moves m p) h = absurd (terminal-no_move m.allowed h)
  Progress-StillEnded (copies {r} {r'} known c p) h =
      let done = Copied-succeeded c h in
      let same : r'.status ≡ r.status = c.to ∙ sym (succeeded-eq r.status done) in
      let k = Progress-StillEnded p (rw same h) in
      record {
        same_identity = k.same_identity ∙ c.same_identity;
        same_status = k.same_status ∙ same;
        same_attempt = k.same_attempt ∙ c.attempts;
        same_version = k.same_version ∙ c.versioned ∙ rw done refl;
      }

  Progress-terminal :
      {r r' : NodeRow V}
      → Progress recovers r r'
      → is_terminal_node_status r.status ≡ true
      → (recovers r.execution_id → r.status ≢ node_succeeded)
      → r ≡ r'
  Progress-terminal stays h apart = refl
  Progress-terminal (moves m p) h apart = absurd (terminal-no_move m.allowed h)
  Progress-terminal (copies {r} known c p) h apart =
      absurd (apart known (succeeded-eq r.status (Copied-succeeded c h)))

  Evolved-StillEnded :
      {rs rs' : List (NodeRow V)} (r : NodeRow V)
      → Evolved recovers rs rs'
      → Memᴰ r rs
      → is_terminal_node_status r.status ≡ true
      → (r' : NodeRow V) × Memᴰ r' rs' × StillEnded r r'
  Evolved-StillEnded r none_yet m h = elim m [ ]
  Evolved-StillEnded r (added f p v) m h =
      let (r', m', k) = Evolved-StillEnded r v m h in (r', Memᴰ.tail m', k)
  Evolved-StillEnded r (changed p v) (Memᴰ.tail m) h =
      let (r', m', k) = Evolved-StillEnded r v m h in (r', Memᴰ.tail m', k)
  Evolved-StillEnded r (changed {r = q} {r' = r'} p v) (Memᴰ.head e) h =
      (r', Memᴰ.head refl, rw e (Progress-StillEnded p (rw e at h)))

  Evolved-terminal :
      {rs rs' : List (NodeRow V)} (r : NodeRow V)
      → Evolved recovers rs rs'
      → Memᴰ r rs
      → is_terminal_node_status r.status ≡ true
      → (recovers r.execution_id → r.status ≢ node_succeeded)
      → Memᴰ r rs'
  Evolved-terminal r none_yet m h apart = elim m [ ]
  Evolved-terminal r (added f p v) m h apart = Memᴰ.tail (Evolved-terminal r v m h apart)
  Evolved-terminal r (changed p v) (Memᴰ.tail m) h apart =
      Memᴰ.tail (Evolved-terminal r v m h apart)
  Evolved-terminal r (changed p v) (Memᴰ.head e) h apart =
      Memᴰ.head (e ∙ Progress-terminal p (rw e at h) (rw e at apart))

  -- A node that has come to an end stays exactly as it is, its output and failure included, through
  -- any transactions, unless it has succeeded in an execution into which results are copied: late or
  -- repeated jobs, retries, skips and finalizations change nothing of it.
  pub History-terminal :
      {s s' : Store V} (r : NodeRow V)
      → History recovers s s'
      → Memᴰ r s.nodes
      → is_terminal_node_status r.status ≡ true
      → (recovers r.execution_id → r.status ≢ node_succeeded)
      → Memᴰ r s'.nodes
  History-terminal r h m e apart = Evolved-terminal r (History-Evolved h) m e apart

  -- A node that has come to an end keeps its identity, status, attempt and lock version through any
  -- transactions, copies into its own row included.
  pub History-StillEnded :
      {s s' : Store V} (r : NodeRow V)
      → History recovers s s'
      → Memᴰ r s.nodes
      → is_terminal_node_status r.status ≡ true
      → (r' : NodeRow V) × Memᴰ r' s'.nodes × StillEnded r r'
  History-StillEnded r h m e = Evolved-StillEnded r (History-Evolved h) m e

  Progress-RowOk : {r r' : NodeRow V} → Progress recovers r r' → RowOk r → RowOk r'
  Progress-RowOk stays o = o
  Progress-RowOk (moves m p) o = Progress-RowOk p (m.stays_ok o)
  Progress-RowOk (copies known c p) o = Progress-RowOk p (c.stays_ok o)

  Evolved-RowOk :
      {rs rs' : List (NodeRow V)} → Evolved recovers rs rs' → All RowOk rs → All RowOk rs'
  Evolved-RowOk none_yet o = tt
  Evolved-RowOk (added f p v) o = (Progress-RowOk p f.is_ok, Evolved-RowOk v o)
  Evolved-RowOk (changed p v) o = (Progress-RowOk p o.0, Evolved-RowOk v o.1)

  -- If the rows meet these constraints before any transactions, they do afterwards: a ready or queued
  -- node has a time of being ready, a queued one of being queued, a running one and one that waits for
  -- a retry of its start; a node has a time of finishing exactly when its status is a final one, and a
  -- time of its next attempt exactly while it waits for a retry; attempts are numbered from 1; and a
  -- node that runs or waits for a retry has been ready. The order of the times is not part of it.
  pub History-RowOk :
      {s s' : Store V} → History recovers s s' → All RowOk s.nodes → All RowOk s'.nodes
  History-RowOk h o = Evolved-RowOk (History-Evolved h) o
