-- ===== src/Execution/Store/Outbox.antt =====
-- execution/repository/outbox_repository.go: commands to the node queue, written with the change of
-- state that asks for them, and published later by a dispatcher that claims them.
use miletos.Common.{
  ℕ, suc, ◌+◌, String, Bool, true, false, not, ◌&&◌, ◌||◌, Option, none, some, List, [], ◌∷◌, any,
  is_blank, ltb, leb, nat_eq, string_eq, ◌==◌, if◌then◌else◌, filter, sort_by, str_lt,
}
use miletos.Execution.{NodeJob}
use miletos.Execution.Store.{
  OutboxRow, OperationKey, publication_pending, publishing, published, PublicationState, Store,
  state_transition, invalid_argument, Tx, require, read, modify, pure, update_outbox, ◌>>=◌, ◌>>◌,
}

abbrev pub is_publication_pending : PublicationState → Bool
is_publication_pending publication_pending = true
is_publication_pending publishing = false
is_publication_pending published = false

abbrev pub is_publishing : PublicationState → Bool
is_publishing publication_pending = false
is_publishing publishing = true
is_publishing published = false

abbrev pub is_published : PublicationState → Bool
is_published publication_pending = false
is_published publishing = false
is_published published = true

abbrev pub same_key : OperationKey → OperationKey → Bool
same_key k l =
    k.company_id == l.company_id
    && k.execution_id == l.execution_id
    && k.node_execution_id == l.node_execution_id
    && k.attempt == l.attempt

abbrev pub is_owner : Option String → String → Bool
is_owner none owner = false
is_owner (some o) owner = o == owner

abbrev pub claimed_before : Option ℕ → ℕ → Bool
claimed_before none t = false
claimed_before (some c) t = ltb c t

-- `OutboxMessage`: what a dispatcher holds of a claimed row.
pub record OutboxMessage (V : Type 0) : Type 0 where
  pub id : String
  pub destination : String
  pub message_key : String
  pub payload : NodeJob V
  pub claim_owner : String
  pub lock_version : ℕ

abbrev pub take : {A : Type 0} → ℕ → List A → List A
take ℕ.zero xs = []
take (suc n) [] = []
take (suc n) (x ∷ xs) = x ∷ take n xs

module _ {V : Type 0} where
  abbrev pub node_command_operation_key : NodeJob V → ℕ → OperationKey
  node_command_operation_key job attempt = record {
    company_id = job.company_id;
    execution_id = job.execution_id;
    node_execution_id = job.node_execution_id;
    attempt = attempt;
  }

  -- `ON CONFLICT (company_id, workflow_execution_id, operation_key)`
  abbrev pub conflicts : NodeJob V → OperationKey → OutboxRow V → Bool
  conflicts job key r =
      r.company_id == job.company_id
      && r.execution_id == job.execution_id
      && same_key r.operation_key key

  abbrev pub command_row : String → NodeJob V → ℕ → OperationKey → String → ℕ → ℕ → OutboxRow V
  command_row message_id job attempt key destination available_at now = record {
    message_id = message_id;
    company_id = job.company_id;
    execution_id = job.execution_id;
    node_execution_id = job.node_execution_id;
    node_id = job.node_id;
    attempt = attempt;
    operation_key = key;
    destination = destination;
    message_key = job.node_execution_id;
    payload = job;
    publication_state = publication_pending;
    available_at = available_at;
    created_at = if ltb available_at now then available_at else now;
    claimed_at = none;
    claim_owner = none;
    published_at = none;
    lock_version = 0;
  }

  abbrev pub insert_command :
      String → NodeJob V → ℕ → OperationKey → String → ℕ → ℕ → Store V → Store V
  insert_command message_id job attempt key destination available_at now s =
      if any (conflicts job key) s.outbox then s else record s {
        outbox = command_row message_id job attempt key destination available_at now ∷ s.outbox;
      }

  -- `persistNodeCommand`; the key begins with "node-command:", so that it is never blank.
  unfoldable pub persist_node_command :
      String → ℕ → NodeJob V → ℕ → OperationKey → String → ℕ → Tx V (Unit {0})
  persist_node_command message_id now job attempt key destination available_at = do
    require (not (attempt == 0)) invalid_argument
    require (not (is_blank destination)) invalid_argument
    require (not (available_at == 0)) invalid_argument
    modify (insert_command message_id job attempt key destination available_at now)

  unfoldable pub persist_retry_command : String → ℕ → NodeJob V → String → ℕ → Tx V (Unit {0})
  unfolding persist_node_command
  persist_retry_command message_id now job destination available_at =
      persist_node_command message_id now job (job.attempt + 1)
        (node_command_operation_key job (job.attempt + 1)) destination available_at

  -- `EnsureRetryCommand`
  unfoldable pub ensure_retry_command : String → ℕ → NodeJob V → String → ℕ → Tx V (Unit {0})
  unfolding persist_retry_command
  ensure_retry_command message_id now job destination available_at =
      persist_retry_command message_id now job destination available_at

  abbrev pub holds_claim : OutboxMessage V → OutboxRow V → Bool
  holds_claim m r =
      r.message_id == m.id
      && is_publishing r.publication_state
      && is_owner r.claim_owner m.claim_owner
      && r.lock_version == m.lock_version

  abbrev pub publish_row : ℕ → OutboxRow V → OutboxRow V
  publish_row now r = record r {
    publication_state = published;
    published_at = some now;
    claimed_at = none;
    claim_owner = none;
    lock_version = suc r.lock_version;
  }

  -- `MarkPublished`
  unfoldable pub mark_published : ℕ → OutboxMessage V → Tx V (Unit {0})
  unfolding update_outbox
  mark_published now m = do
    affected ← update_outbox (holds_claim m) (publish_row now)
    require (affected == 1) state_transition

  abbrev pub unclaim : OutboxRow V → OutboxRow V
  unclaim r = record r {
    publication_state = publication_pending;
    claimed_at = none;
    claim_owner = none;
    lock_version = suc r.lock_version;
  }

  -- `Release`
  unfoldable pub release : OutboxMessage V → Tx V (Unit {0})
  unfolding update_outbox
  release m = do
    affected ← update_outbox (holds_claim m) unclaim
    require (affected == 1) state_transition

  -- `ReleaseStaleClaims`
  unfoldable pub release_stale_claims : ℕ → Tx V (Unit {0})
  unfolding update_outbox
  release_stale_claims stale_before = do
    affected ←
        update_outbox
          (λ r. is_publishing r.publication_state && claimed_before r.claimed_at stale_before)
          unclaim
    pure tt

  -- The order of `ClaimDue`: `available_at, created_at, message_id`.
  abbrev pub due_before : OutboxRow V → OutboxRow V → Bool
  due_before a b =
      if a.available_at == b.available_at
      then if a.created_at == b.created_at
        then str_lt a.message_id b.message_id
        else ltb a.created_at b.created_at
      else ltb a.available_at b.available_at

  -- The `SELECT` of `ClaimDue`, without the rows that other transactions have locked.
  unfoldable pub due_messages : ℕ → ℕ → List (OutboxRow V) → List (OutboxRow V)
  due_messages now limit rows = take (if ltb limit 1 || ltb 500 limit then 100 else limit) (
      sort_by due_before
        (filter (λ r. is_publication_pending r.publication_state && leb r.available_at now) rows))

  abbrev pub claim_row : String → ℕ → OutboxRow V → Tx V ℕ
  claim_row owner now m =
      update_outbox
        (λ r.
          r.message_id == m.message_id
          && is_publication_pending r.publication_state
          && r.lock_version == m.lock_version)
        (λ r. record r {
          publication_state = publishing;
          claimed_at = some now;
          claim_owner = some owner;
          lock_version = suc r.lock_version;
        })

  abbrev pub message_of : String → OutboxRow V → OutboxMessage V
  message_of owner r = record {
    id = r.message_id;
    destination = r.destination;
    message_key = r.message_key;
    payload = r.payload;
    claim_owner = owner;
    lock_version = suc r.lock_version;
  }

  -- The second loop of `ClaimDue`.
  unfoldable pub claim_rows : String → ℕ → List (OutboxRow V) → Tx V (List (OutboxMessage V))
  unfolding update_outbox
  claim_rows owner now [] = pure []
  claim_rows owner now (r ∷ rs) = do
    affected ← claim_row owner now r
    require (affected == 1) state_transition
    rest ← claim_rows owner now rs
    pure (message_of owner r ∷ rest)

  -- `ClaimDue`: due by the database's clock, claimed at the time of the program's.
  unfoldable pub claim_due : String → ℕ → ℕ → ℕ → Tx V (List (OutboxMessage V))
  unfolding due_messages claim_rows
  claim_due owner limit current_timestamp now = do
    due ← read (λ s. due_messages current_timestamp limit s.outbox)
    claim_rows owner now due
