-- ===== src/Execution/Dispatcher.antt =====
-- execution/outbox_dispatcher.go: a round of the dispatcher. The queue is known by whether it takes a
-- message; errors that the code only logs change nothing.
pub mod Delivered
pub mod Delivery
use miletos.Common.{ℕ, String, Bool, true, false, List, [], ◌∷◌}
use miletos.Execution.Store.{Store, Result, ok, err}
use miletos.Execution.Store.Outbox.{
  OutboxMessage, claim_due, mark_published, release, release_stale_claims,
}

pub record Dispatcher (V : Type 0) : Type 0 where
  pub owner : String
  pub push : OutboxMessage V → Bool
  pub stale_before : ℕ
  pub current_timestamp : ℕ
  pub claimed_at : ℕ
  pub published_at : OutboxMessage V → ℕ

abbrev pub claim_batch_size : ℕ
claim_batch_size = 50

module _ {V : Type 0} where
  -- The tables after a transaction whose error is logged.
  abbrev pub or_unchanged : {A : Type 0} → Store V → Result V A → Store V
  or_unchanged s (ok a s') = s'
  or_unchanged s (err e) = s

  abbrev pub report : Dispatcher V → OutboxMessage V → Bool → Store V → Store V
  report c m true s = or_unchanged s (mark_published (c.published_at m) m s)
  report c m false s = or_unchanged s (release m s)

  -- The loop over the messages that were claimed.
  unfoldable pub publish_all : Dispatcher V → List (OutboxMessage V) → Store V → Store V
  unfolding mark_published release
  publish_all c [] s = s
  publish_all c (m ∷ ms) s = publish_all c ms (report c m (c.push m) s)

  abbrev pub publish_claimed :
      Dispatcher V → Store V → Result V (List (OutboxMessage V)) → Store V × List (OutboxMessage V)
  unfolding publish_all
  publish_claimed c s (err e) = (s, [])
  publish_claimed c s (ok ms s') = (publish_all c ms s', ms)

  abbrev pub claim_and_publish :
      Dispatcher V → Store V → Result V (Unit {0}) → Store V × List (OutboxMessage V)
  unfolding publish_all claim_due
  claim_and_publish c s (err e) = (s, [])
  claim_and_publish c s (ok x s') =
      publish_claimed c s' (claim_due c.owner claim_batch_size c.current_timestamp c.claimed_at s')

  -- `dispatch`: the tables after it, and the messages that it offered to the queue, in order.
  unfoldable pub dispatch : Dispatcher V → Store V → Store V × List (OutboxMessage V)
  unfolding publish_all claim_due release_stale_claims
  dispatch c s = claim_and_publish c s (release_stale_claims c.stale_before s)
