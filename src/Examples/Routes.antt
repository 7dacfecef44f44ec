-- ===== src/Examples/Routes.antt =====
-- Routing after a node that has succeeded, and decisions about retries.
use miletos.Common.{
  ℕ, String, true, false, ◌≡◌, refl, ◌↔◌, inl, inr, Option, none, some, [], ◌∷◌, string_eq, ◌==◌,
}
use miletos.Execution.{node_succeeded, unexplained}
use miletos.Execution.Routing.{NodeOutcome, resolve_node_routes}
use miletos.Execution.Routing.Resolved.{Resolved, resolve_node_routes-Resolved}
use miletos.Execution.Routing.Verdicts.{into}
use miletos.Execution.Retry.{live, RunError, decide_retry, decide_failure}
use miletos.Execution.Retry.Decision.{
  MayRetry, decide_retry-MayRetry, Consistent, decide_failure-Consistent, IsRefused,
  decide_failure-IsRefused,
}
use miletos.Examples.Graphs.{straight}

abbrev succeeded : NodeOutcome ℕ
succeeded = record {
  status = node_succeeded;
  skip_reason = unexplained;
  output = 7;
  routing = record { explicit = false; edge_payloads = [] };
}

abbrev outcomes : String → Option (NodeOutcome ℕ)
outcomes id = elim (id == "a") [ true ↦ some succeeded | false ↦ none ]

b_is_ready :
    resolve_node_routes straight "b" outcomes
    ≡ record { ready = true; inactive = false; failed = false; edge_payloads = ("e", 7) ∷ [] }
unfolding resolve_node_routes
b_is_ready = refl

resolve_node_routes-Resolved_example :
    Resolved outcomes (into "b" straight.edges) (resolve_node_routes straight "b" outcomes)
resolve_node_routes-Resolved_example = resolve_node_routes-Resolved straight "b" outcomes

abbrev retryable_error : RunError
retryable_error = record {
  is_panic = false;
  is_canceled = false;
  is_deadline = false;
  typed = some (record { category = ""; code = "BUSY"; message = "busy"; can_retry = true });
}

abbrev panic : RunError
panic = record { is_panic = true; is_canceled = false; is_deadline = false; typed = none }

decide_retry-MayRetry_example :
    (((decide_retry live 1 3 true 10 100 0).retry ≡ true) ↔ MayRetry live 1 3 true 10 100 0)
    × ((decide_retry live 1 3 true 10 100 0).retry ≡ true
        → (decide_retry live 1 3 true 10 100 0).delay ≡ 10)
decide_retry-MayRetry_example = decide_retry-MayRetry live 1 3 true 10 100 0

decide_failure-Consistent_example :
    Consistent 1 3 10 100 0 (decide_failure live 1 3 retryable_error true 10 100 0)
decide_failure-Consistent_example = decide_failure-Consistent live 1 3 retryable_error true 10 100 0

decide_failure-IsRefused_example : IsRefused (decide_failure live 1 3 panic true 10 100 0)
decide_failure-IsRefused_example =
    decide_failure-IsRefused live 1 3 panic true 10 100 0 (inr (inl refl))
