-- ===== src/Execution/Store/Claims.antt =====
-- execution/repository/outbox_repository.go: a claim is used up by the first report about it.
use miletos.Common.{
  ℕ, ◌≡◌, ◌⊎◌, refl, arith, inl, inr, string_eq, nat_eq, update_where, count_where,
  count-update_where,
}
use miletos.Execution.Store.{Store, state_transition, ok, err, update_outbox}
use miletos.Execution.Store.Outbox.{
  OutboxMessage, holds_claim, mark_published, release, unclaim, publish_row,
}

module _ {V : Type 0} where
  pub mark_published-outbox :
      (now : ℕ) (m : OutboxMessage V) (s s' : Store V)
      → mark_published now m s ≡ ok tt s'
      → s'.outbox ≡ update_where (holds_claim m) (publish_row now) s.outbox
  unfolding mark_published update_outbox
  mark_published-outbox now m s s' h = ground arith

  pub release-outbox :
      (m : OutboxMessage V) (s s' : Store V)
      → release m s ≡ ok tt s'
      → s'.outbox ≡ update_where (holds_claim m) unclaim s.outbox
  unfolding release update_outbox
  release-outbox m s s' h = ground arith

  -- After either report, no row is under the claim.
  claim-gone :
      (now : ℕ) (m : OutboxMessage V) (s s' : Store V)
      → (mark_published now m s ≡ ok tt s') ⊎ (release m s ≡ ok tt s')
      → count_where (holds_claim m) s'.outbox ≡ 0
  claim-gone now m s s' (inl h) =
      rw (mark_published-outbox now m s s' h)
        (count-update_where (holds_claim m) (publish_row now) s.outbox (λ r hit. ground arith))
  claim-gone now m s s' (inr h) =
      rw (release-outbox m s s' h)
        (count-update_where (holds_claim m) unclaim s.outbox (λ r hit. ground arith))

  -- Once a dispatcher has marked a message as published or released it, no second report on the same
  -- claim succeeds, whichever it is: both fail as a state transition, and change nothing.
  pub claim_used_once :
      (now later : ℕ) (m : OutboxMessage V) (s s' : Store V)
      → (mark_published now m s ≡ ok tt s') ⊎ (release m s ≡ ok tt s')
      → (mark_published later m s' ≡ err state_transition) × (release m s' ≡ err state_transition)
  unfolding mark_published release update_outbox
  claim_used_once now later m s s' h =
      let gone = claim-gone now m s s' h in (rw gone refl, rw gone refl)
