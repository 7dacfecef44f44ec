-- ===== src/Execution/Access/Routed.antt =====
-- execution/node_access.go: a handler chooses routes among the edges of its node alone.
use miletos.Common.{
  ℕ, zero, suc, String, Bool, true, false, not, if◌then◌else◌, ◌≡◌, refl, ap, ==_refl, inl, inr,
  Option, none, some, List, [], ◌∷◌, map, contains, arith, filter, string_eq, ◌==◌, Bool-cases,
}
use miletos.Workflow.{Object, Edge, Workflow}
use miletos.Execution.{NodeRoutingOutcome}
use miletos.Execution.Routing.{value_at}
use miletos.Execution.Access.{
  NodeAccess, HandlerRun, ends, pushes, RunEnd, produced, broken, PushError, not_explicit,
  routing_closed, already_selected, is_selected, edge_at, push_onto, push_edge, outcome,
  run_handler, routed_run, new_node_access,
}

abbrev pub edge_ids : List Edge → List String
edge_ids es = map (λ e. e.id) es

abbrev pub keys {ℓ} : {A : Type ℓ} → List (String × A) → List String
keys [] = []
keys ((k, v) ∷ rest) = k ∷ keys rest

edge_at-contains :
    (es : List Edge) (i : ℕ) (e : Edge) → edge_at es i ≡ some e → contains e.id (edge_ids es) ≡ true
edge_at-contains [] i e h = cc
edge_at-contains (x ∷ xs) zero e h =
    let same : x ≡ e = cc h in ground (arith, ap (λ (e : Edge). e.id) same, ==_refl e.id)
edge_at-contains (x ∷ xs) (suc i) e h = ground (arith, edge_at-contains xs i e h)

module _ {V : Type 0} where
  value_at-absent :
      (o : Object V) (id : String) → value_at o id ≡ none → contains id (keys o) ≡ false
  value_at-absent [] id h = refl
  value_at-absent ((k, v) ∷ rest) id h = ground (arith, h, value_at-absent rest id)

  -- Each payload goes to one of the edges, and no edge has two.
  abbrev pub OnEdges : List Edge → Object V → Type 0
  OnEdges es [] = Unit
  OnEdges es ((id, v) ∷ rest) =
      (contains id (edge_ids es) ≡ true) × (contains id (keys rest) ≡ false) × OnEdges es rest

  -- What a handler leaves of an access.
  pub record Follows (before after : NodeAccess V) : Type 0 where
    pub same_edges : after.edges ≡ before.edges
    pub same_mode : after.explicit ≡ before.explicit
    pub on_edges : OnEdges before.edges before.emissions → OnEdges after.edges after.emissions
    pub silent : before.explicit ≡ false → after.emissions ≡ before.emissions

  unmoved : (access : NodeAccess V) → Follows access access
  unmoved access = record {
    same_edges = refl;
    same_mode = refl;
    on_edges = λ h. h;
    silent = λ h. refl;
  }

  push_onto-Follows :
      (access : NodeAccess V) (payload : V) (e : Edge)
      → contains e.id (edge_ids access.edges) ≡ true
      → access.explicit ≡ true
      → Follows access (push_onto access payload (some e)).0
  push_onto-Follows access payload e known mode =
      by_state access.is_closed (value_at access.emissions e.id) refl
    where
      by_state :
          (b : Bool) (taken : Option V)
          → value_at access.emissions e.id ≡ taken
          → Follows access
              (if◌then◌else◌ {A = NodeAccess V × Option PushError} b
                (access, some routing_closed)
                (if is_selected taken
                  then (access, some already_selected)
                  else (record access { emissions = (e.id, payload) ∷ access.emissions }, none))).0
      by_state true taken h = unmoved access
      by_state false (some v) h = unmoved access
      by_state false none h = record {
        same_edges = refl;
        same_mode = refl;
        on_edges = λ o. (known, value_at-absent access.emissions e.id h, o);
        silent = λ off. cc;
      }

  push_edge-Follows :
      (access : NodeAccess V) (index : ℕ) (payload : V)
      → Follows access (push_edge access index payload).0
  unfolding push_edge
  push_edge-Follows access index payload =
      by_mode access.explicit refl (edge_at access.edges index) refl
    where
      by_mode :
          (b : Bool)
          → access.explicit ≡ b
          → (found : Option Edge) → edge_at access.edges index ≡ found
          → Follows access
              (if◌then◌else◌ {A = NodeAccess V × Option PushError}
                (not b)
                (access, some not_explicit)
                (push_onto access payload found)).0
      by_mode false mode found e = unmoved access
      by_mode true mode none e = unmoved access
      by_mode true mode (some edge) e =
          push_onto-Follows access payload edge (edge_at-contains access.edges index edge e) mode

  Follows-trans : {a b c : NodeAccess V} → Follows a b → Follows b c → Follows a c
  Follows-trans p q = record {
    same_edges = cc (p.same_edges, q.same_edges);
    same_mode = cc (p.same_mode, q.same_mode);
    on_edges = λ h. q.on_edges (p.on_edges h);
    silent = λ h. cc (q.silent (cc (h, p.same_mode)), p.silent h);
  }

  run_handler-Follows :
      (run : HandlerRun V) (access : NodeAccess V) → Follows access (run_handler run access).0
  unfolding run_handler
  run_handler-Follows (ends r) access = unmoved access
  run_handler-Follows (pushes index payload next_step) access =
      let answer = push_edge access index payload in
      Follows-trans (push_edge-Follows access index payload)
        (run_handler-Follows (next_step answer.1) answer.0)

  -- The routes that are saved with a node's output.
  pub record RoutesOf (w : Workflow V) (node_id : String) (mode : String) (r : NodeRoutingOutcome V)
      : Type 0 where
    pub on_edges : OnEdges (filter (λ e. e.source_node_id == node_id) w.edges) r.edge_payloads
    pub explicit_only : r.explicit ≡ (mode == "EXPLICIT")
    pub broadcast_none : (mode == "EXPLICIT") ≡ false → r.edge_payloads ≡ []

  -- Whatever a handler does, and in whatever order it pushes: when it produces an output, the routes
  -- that are saved with it go to edges out of its own node alone, to each at most once, and there are
  -- some only if the plugin routes explicitly.
  pub run_handler-RoutesOf :
      (w : Workflow V) (node_id mode : String) (run : HandlerRun V) (output : V)
      (routing : NodeRoutingOutcome V)
      → routed_run (run_handler run (new_node_access w node_id mode)) ≡ (produced output, routing)
      → RoutesOf w node_id mode routing
  unfolding new_node_access outcome
  run_handler-RoutesOf w node_id mode run output routing h =
      by_run (run_handler run start) (run_handler-Follows run start) h
    where
      start : NodeAccess V
      start = new_node_access w node_id mode

      by_run :
          (r : NodeAccess V × RunEnd V)
          → Follows start r.0
          → routed_run r ≡ (produced output, routing)
          → RoutesOf w node_id mode routing
      by_run (access, broken e) f k = absurd (ground (arith, k))
      by_run (access, produced v) f k = elim (Bool-cases access.explicit) [
        | inl on ↦ rw (← (ap (λ p. p.1) (rw on at k))) (record {
          on_edges = rw (← f.same_edges) (f.on_edges tt);
          explicit_only = cc (f.same_mode, on);
          broadcast_none = λ b. f.silent b;
        })
        | inr off ↦ rw (← (ap (λ p. p.1) (rw off at k))) (record {
          on_edges = tt;
          explicit_only = cc (f.same_mode, off);
          broadcast_none = λ b. refl;
        })
      ]
