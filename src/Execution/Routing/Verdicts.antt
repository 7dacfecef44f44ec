-- ===== src/Execution/Routing/Verdicts.antt =====
-- execution/routing.go: what the routing outcome of a predecessor means for an edge out of it.
use miletos.Common.{
  String, Bool, true, false, Option, none, some, List, [], ◌∷◌, ◌++◌, filter, any, nat_eq,
  string_eq, ◌==◌, if◌then◌else◌,
}
use miletos.Workflow.{Object, Edge}
use miletos.Execution.{
  NodeStatus, node_pending, node_ready, node_queued, node_running, node_retry_pending,
  node_succeeded, node_failed, node_skipped, node_cancelled, node_timed_out,
}
use miletos.Execution.Routing.{NodeOutcome, value_at, is_dependency_failed}

-- What a predecessor means for an edge out of it.
pub data Verdict (V : Type 0) : Type 0 where
  carries : V → Verdict V
  not_taken broken waiting : Verdict V

abbrev pub into : String → List Edge → List Edge
into node_id es = filter (λ e. e.target_node_id == node_id) es

module _ {V : Type 0} where
  abbrev carried : Option V → Verdict V
  carried none = not_taken
  carried (some v) = carries v

  abbrev pub outcome_verdict : String → NodeOutcome V → NodeStatus → Verdict V
  outcome_verdict edge_id o node_succeeded =
      if o.routing.explicit
      then carried (value_at o.routing.edge_payloads edge_id)
      else carries o.output
  outcome_verdict edge_id o node_skipped =
      if is_dependency_failed o.skip_reason then broken else not_taken
  outcome_verdict edge_id o node_failed = broken
  outcome_verdict edge_id o node_timed_out = broken
  outcome_verdict edge_id o node_cancelled = broken
  outcome_verdict edge_id o node_pending = waiting
  outcome_verdict edge_id o node_ready = waiting
  outcome_verdict edge_id o node_queued = waiting
  outcome_verdict edge_id o node_running = waiting
  outcome_verdict edge_id o node_retry_pending = waiting

  abbrev pub predecessor_verdict : String → Option (NodeOutcome V) → Verdict V
  predecessor_verdict edge_id none = waiting
  predecessor_verdict edge_id (some o) = outcome_verdict edge_id o o.status

  abbrev pub verdict : (String → Option (NodeOutcome V)) → Edge → Verdict V
  verdict outcomes e = predecessor_verdict e.id (outcomes e.source_node_id)

  abbrev pub is_broken : Verdict V → Bool
  is_broken (carries v) = false
  is_broken not_taken = false
  is_broken broken = true
  is_broken waiting = false

  abbrev pub is_waiting : Verdict V → Bool
  is_waiting (carries v) = false
  is_waiting not_taken = false
  is_waiting broken = false
  is_waiting waiting = true

  abbrev pub is_carrying : Verdict V → Bool
  is_carrying (carries v) = true
  is_carrying not_taken = false
  is_carrying broken = false
  is_carrying waiting = false

  abbrev pub carried_on : String → Verdict V → Object V
  carried_on edge_id (carries v) = (edge_id, v) ∷ []
  carried_on edge_id not_taken = []
  carried_on edge_id broken = []
  carried_on edge_id waiting = []

  -- The payloads on the edges, the last edge first.
  abbrev pub payloads : (String → Option (NodeOutcome V)) → List Edge → Object V
  payloads outcomes [] = []
  payloads outcomes (e ∷ es) = payloads outcomes es ++ carried_on e.id (verdict outcomes e)

  abbrev pub some_broken : (String → Option (NodeOutcome V)) → List Edge → Bool
  some_broken outcomes es = any (λ e. is_broken (verdict outcomes e)) es

  abbrev pub some_waiting : (String → Option (NodeOutcome V)) → List Edge → Bool
  some_waiting outcomes es = any (λ e. is_waiting (verdict outcomes e)) es

  abbrev pub some_carrying : (String → Option (NodeOutcome V)) → List Edge → Bool
  some_carrying outcomes es = any (λ e. is_carrying (verdict outcomes e)) es
