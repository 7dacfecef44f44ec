-- ===== src/Execution/Dispatcher/Delivered.antt =====
-- execution/outbox_dispatcher.go: what the reports about a message do to the outbox.
use miletos.Common.{
  ℕ, String, Bool, true, ◌&&◌, ◌≡◌, refl, List, [], ◌∷◌, map, filter, contains, All, update_where,
  update_where-All, arith, inl, inr, string_eq, nat_eq, ==_iff, Bool-cases,
}
use miletos.Execution.Store.{OutboxRow, Store, Result, ok, err, update_outbox}
use miletos.Execution.Store.Outbox.{
  is_published, OutboxMessage, mark_published, release, release_stale_claims, holds_claim,
  publish_row, unclaim, is_publishing, claimed_before,
}
use miletos.Execution.Store.Claims.{mark_published-outbox, release-outbox}
use miletos.Execution.Dispatcher.{Dispatcher, or_unchanged}

module _ {V : Type 0} where
  -- A row that is published is one of these messages.
  abbrev pub PublishedIn : List String → OutboxRow V → Type 0
  PublishedIn ids r = is_published r.publication_state ≡ true → contains r.message_id ids ≡ true

  abbrev pub message_ids : Store V → List String
  message_ids s = map (λ r. r.message_id) s.outbox

  -- The messages that are published, and those that a round offered and the queue took.
  abbrev pub published_ids : List (OutboxRow V) → List String
  published_ids rows = map (λ r. r.message_id) (filter (λ r. is_published r.publication_state) rows)

  abbrev pub taken_ids : Dispatcher V → List (OutboxMessage V) → List String
  taken_ids c ms = map (λ m. m.id) (filter c.push ms)

  pub record Delivered (ids : List String) (before after : Store V) : Type 0 where
    pub same_messages : message_ids after ≡ message_ids before
    pub published_in : All (PublishedIn ids) before.outbox → All (PublishedIn ids) after.outbox

  pub untouched : (ids : List String) (s : Store V) → Delivered ids s s
  untouched ids s = record { same_messages = refl; published_in = λ h. h }

  pub Delivered-trans :
      {ids : List String} {a b c : Store V}
      → Delivered ids a b
      → Delivered ids b c
      → Delivered ids a c
  Delivered-trans p q = record {
    same_messages = cc (p.same_messages, q.same_messages);
    published_in = λ h. q.published_in (p.published_in h);
  }

  update_where-ids :
      (p : OutboxRow V → Bool) (f : OutboxRow V → OutboxRow V) (rows : List (OutboxRow V))
      → ((r : OutboxRow V) → (f r).message_id ≡ r.message_id)
      → map (λ r. r.message_id) (update_where p f rows) ≡ map (λ r. r.message_id) rows
  update_where-ids p f [] same = refl
  update_where-ids p f (r ∷ rows) same = elim (Bool-cases (p r)) [
    | inl hit ↦ rw (hit, same r, update_where-ids p f rows same) refl
    | inr miss ↦ rw (miss, update_where-ids p f rows same) refl
  ]

  pub updated-Delivered :
      (ids : List String) (p : OutboxRow V → Bool) (f : OutboxRow V → OutboxRow V) (s s' : Store V)
      → ((r : OutboxRow V) → (f r).message_id ≡ r.message_id)
      → ((r : OutboxRow V) → p r ≡ true → PublishedIn ids (f r))
      → s'.outbox ≡ update_where p f s.outbox
      → Delivered ids s s'
  updated-Delivered ids p f s s' same known h = record {
    same_messages = cc (h, update_where-ids p f s.outbox same);
    published_in = λ all.
        rw h (update_where-All (PublishedIn ids) p f s.outbox (λ r hit old. known r hit) all);
  }

  pub release_stale_claims-Delivered :
      (ids : List String) (stale_before : ℕ) (s s' : Store V)
      → release_stale_claims stale_before s ≡ ok tt s'
      → Delivered ids s s'
  unfolding release_stale_claims update_outbox
  release_stale_claims-Delivered ids stale_before s s' h =
      updated-Delivered ids
        (λ r. is_publishing r.publication_state && claimed_before r.claimed_at stale_before) unclaim
        s s' (λ r. refl) (λ r hit e. cc) (ground (arith, h))

  pub release-Delivered :
      (ids : List String) (m : OutboxMessage V) (s : Store V)
      → Delivered ids s (or_unchanged s (release m s))
  release-Delivered ids m s = by_result (release m s) refl
    where
      by_result : (r : Result V (Unit {0})) → release m s ≡ r → Delivered ids s (or_unchanged s r)
      by_result (err e) h = untouched ids s
      by_result (ok x s') h =
          updated-Delivered ids (holds_claim m) unclaim s s' (λ r. refl) (λ r hit e. cc)
            (release-outbox m s s' h)

  pub mark_published-Delivered :
      (ids : List String) (now : ℕ) (m : OutboxMessage V) (s : Store V)
      → contains m.id ids ≡ true
      → Delivered ids s (or_unchanged s (mark_published now m s))
  mark_published-Delivered ids now m s taken = by_result (mark_published now m s) refl
    where
      by_result :
          (r : Result V (Unit {0}))
          → mark_published now m s ≡ r
          → Delivered ids s (or_unchanged s r)
      by_result (err e) h = untouched ids s
      by_result (ok x s') h =
          updated-Delivered ids (holds_claim m) (publish_row now) s s' (λ r. refl)
            (λ r hit e. cc (claimed r hit, taken)) (mark_published-outbox now m s s' h)
        where
          claimed : (r : OutboxRow V) → holds_claim m r ≡ true → r.message_id ≡ m.id
          claimed r hit = (==_iff r.message_id m.id).0 (ground (arith, hit))
