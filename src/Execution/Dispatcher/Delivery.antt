-- ===== src/Execution/Dispatcher/Delivery.antt =====
-- execution/outbox_dispatcher.go: what is marked as published was taken by the queue.
use miletos.Common.{
  ℕ, suc, some, String, Bool, true, false, ◌&&◌, ◌≡◌, refl, List, [], ◌∷◌, ◌++◌, contains,
  contains-append, All, update_where, arith, inl, inr, string_eq, nat_eq, ◌==◌, ==_refl, Bool-cases,
}
use miletos.Execution.Store.{OutboxRow, publishing, Store, Result, ok, err, update_outbox}
use miletos.Execution.Store.Outbox.{
  is_published, OutboxMessage, claim_due, claim_rows, release_stale_claims, is_publication_pending,
  due_messages,
}
use miletos.Execution.Dispatcher.{
  Dispatcher, report, publish_all, publish_claimed, claim_and_publish, dispatch, claim_batch_size,
}
use miletos.Execution.Dispatcher.Delivered.{
  PublishedIn, message_ids, published_ids, taken_ids, Delivered, untouched, Delivered-trans,
  updated-Delivered, release_stale_claims-Delivered, release-Delivered, mark_published-Delivered,
}

module _ {V : Type 0} where
  -- The loop over messages that are all known once the queue has taken them.
  publish_all-Delivered :
      (c : Dispatcher V) (ids : List String) (ms : List (OutboxMessage V)) (s : Store V)
      → ((id : String) → contains id (taken_ids c ms) ≡ true → contains id ids ≡ true)
      → Delivered ids s (publish_all c ms s)
  unfolding publish_all
  publish_all-Delivered c ids [] s known = untouched ids s
  publish_all-Delivered c ids (m ∷ ms) s known =
      Delivered-trans (report-Delivered (c.push m) refl) (
        publish_all-Delivered c ids ms (report c m (c.push m) s)
          (λ id later. known id (also_taken id later)))
    where
      also_taken :
          (id : String)
          → contains id (taken_ids c ms) ≡ true
          → contains id (taken_ids c (m ∷ ms)) ≡ true
      also_taken id later = elim (Bool-cases (c.push m)) [
        | inl hit ↦ rw hit (ground (arith, later))
        | inr miss ↦ rw miss later
      ]

      report-Delivered : (b : Bool) → c.push m ≡ b → Delivered ids s (report c m b s)
      report-Delivered false e = release-Delivered ids m s
      report-Delivered true e =
          mark_published-Delivered ids (c.published_at m) m s
            (known m.id (rw e (ground (arith, ==_refl m.id))))

  claim_rows-Delivered :
      (ids : List String) (owner : String) (now : ℕ) (rows : List (OutboxRow V)) (s s' : Store V)
      (ms : List (OutboxMessage V))
      → claim_rows owner now rows s ≡ ok ms s'
      → Delivered ids s s'
  unfolding claim_rows update_outbox
  claim_rows-Delivered ids owner now [] s s' ms h =
      let same : s ≡ s' = cc h in rw (← same) (untouched ids s)
  claim_rows-Delivered ids owner now (r ∷ rows) s s' ms h =
      by_rest (claim_rows owner now rows claimed) refl
        (claim_rows-Delivered ids owner now rows claimed)
    where
      is_claimable : OutboxRow V → Bool
      is_claimable o =
          o.message_id == r.message_id
          && is_publication_pending o.publication_state
          && o.lock_version == r.lock_version

      claim : OutboxRow V → OutboxRow V
      claim o = record o {
        publication_state = publishing;
        claimed_at = some now;
        claim_owner = some owner;
        lock_version = suc o.lock_version;
      }

      claimed : Store V
      claimed = record s { outbox = update_where is_claimable claim s.outbox }

      by_rest :
          (x : Result V (List (OutboxMessage V)))
          → claim_rows owner now rows claimed ≡ x
          → ((s2 : Store V) (later : List (OutboxMessage V))
              → claim_rows owner now rows claimed ≡ ok later s2
              → Delivered ids claimed s2)
          → Delivered ids s s'
      by_rest (err e) k rest = absurd (ground (arith, h, k))
      by_rest (ok later s2) k rest =
          let same : s2 ≡ s' = ground (arith, h, k) in
          rw (← same) (
            Delivered-trans
              (updated-Delivered ids is_claimable claim s claimed (λ o. refl) (λ o hit e. cc) refl)
              (rest s2 later k))

  claim_due-Delivered :
      (ids : List String) (owner : String) (limit current_timestamp now : ℕ) (s s' : Store V)
      (ms : List (OutboxMessage V))
      → claim_due owner limit current_timestamp now s ≡ ok ms s'
      → Delivered ids s s'
  unfolding claim_due
  claim_due-Delivered ids owner limit current_timestamp now s s' ms h =
      claim_rows-Delivered ids owner now (due_messages current_timestamp limit s.outbox) s s' ms h

  published-PublishedIn :
      (rows : List (OutboxRow V)) (ids : List String)
      → ((id : String) → contains id (published_ids rows) ≡ true → contains id ids ≡ true)
      → All (PublishedIn ids) rows
  published-PublishedIn [] ids h = tt
  published-PublishedIn (r ∷ rows) ids h = (
    λ e. h r.message_id (rw e (ground (arith, ==_refl r.message_id))),
    published-PublishedIn rows ids (λ id k. h id (also id k)),
  )
    where
      also :
          (id : String)
          → contains id (published_ids rows) ≡ true
          → contains id (published_ids (r ∷ rows)) ≡ true
      also id k = elim (Bool-cases (is_published r.publication_state)) [
        | inl hit ↦ rw hit (ground (arith, k))
        | inr miss ↦ rw miss k
      ]

  -- A round of the dispatcher loses no message and adds none, and a message that is published after it
  -- was published before it, or was offered in this round and taken by the queue; whatever the queue
  -- takes or refuses, and whichever of the statements fail.
  pub dispatch-Delivered :
      (c : Dispatcher V) (s : Store V)
      → let r = dispatch c s in
        (message_ids r.0 ≡ message_ids s)
        × All (PublishedIn (published_ids s.outbox ++ taken_ids c r.1)) r.0.outbox
  unfolding dispatch
  dispatch-Delivered c s = by_released (release_stale_claims c.stale_before s) refl
    where
      Goal : Store V × List (OutboxMessage V) → Type 0
      Goal r =
          (message_ids r.0 ≡ message_ids s)
          × All (PublishedIn (published_ids s.outbox ++ taken_ids c r.1)) r.0.outbox

      known : (taken : List String) → All (PublishedIn (published_ids s.outbox ++ taken)) s.outbox
      known taken =
          published-PublishedIn s.outbox (published_ids s.outbox ++ taken)
            (λ id k. rw (contains-append id (published_ids s.outbox) taken) (ground (arith, k)))

      delivered :
          (ms : List (OutboxMessage V)) (s' : Store V)
          → Delivered (published_ids s.outbox ++ taken_ids c ms) s s'
          → Goal (s', ms)
      delivered ms s' d = (d.same_messages, d.published_in (known (taken_ids c ms)))

      by_claimed :
          (s1 : Store V)
          → ((ids : List String) → Delivered ids s s1)
          → (x : Result V (List (OutboxMessage V)))
          → claim_due c.owner claim_batch_size c.current_timestamp c.claimed_at s1 ≡ x
          → Goal (publish_claimed c s1 x)
      by_claimed s1 d (err e) h = delivered [] s1 (d _)
      by_claimed s1 d (ok ms s2) h = delivered ms (publish_all c ms s2) (
          Delivered-trans (d _) (
            Delivered-trans
              (claim_due-Delivered _ c.owner claim_batch_size c.current_timestamp c.claimed_at s1 s2
                ms h)
              (publish_all-Delivered c _ ms s2 (λ id k.
                rw (contains-append id (published_ids s.outbox) (taken_ids c ms))
                  (ground (arith, k))))))

      by_released :
          (x : Result V (Unit {0}))
          → release_stale_claims c.stale_before s ≡ x
          → Goal (claim_and_publish c s x)
      by_released (err e) h = delivered [] s (untouched _ s)
      by_released (ok x s1) h =
          by_claimed s1 (λ ids. release_stale_claims-Delivered ids c.stale_before s s1 h)
            (claim_due c.owner claim_batch_size c.current_timestamp c.claimed_at s1) refl
