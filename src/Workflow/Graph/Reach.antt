-- ===== src/Workflow/Graph/Reach.antt =====
-- `Downstream` of workflow/graph.go computes reachability.
use mathlib.Core.List.Memᴰ as MemD
use miletos.Common.{
  ℕ, zero, suc, ◌+◌, ◌<◌, String, ◌≡◌, refl, sym, ap, ◌∙◌, ◌↔◌, inl, inr, true, false, ◌||◌, some,
  List, [], ◌∷◌, ◌++◌, Memᴰ, arith, length, length-append, contains, contains-append, string_eq,
  ◌==◌, ==_iff, Bool-cases, if◌then◌else◌,
}
use miletos.Workflow.{Edge, Workflow}
use miletos.Workflow.Graph.{outgoing, downstream_loop, downstream_fuel, downstream}

-- There is an edge from one node to the other.
abbrev pub HasEdge : List Edge → String → String → Type 0
HasEdge edges m n = (e : Edge) × Memᴰ e edges × (e.source_node_id ≡ m) × (e.target_node_id ≡ n)

pub data Reach (edges : List Edge) (starts : List String) : String → Type 0 where
  start : {n : String} → Memᴰ n starts → Reach edges starts n
  step : {m n : String} → Reach edges starts m → HasEdge edges m n → Reach edges starts n

pub contains_mem : (a : String) (xs : List String) → contains a xs ≡ true → Memᴰ a xs
contains_mem a [] h = cc
contains_mem a (x ∷ xs) h = elim (Bool-cases (x == a)) [
  | inl same ↦ Memᴰ.head (sym ((==_iff x a).0 same))
  | inr other ↦ Memᴰ.tail (contains_mem a xs (ground arith))
]

pub mem_contains : {a : String} (xs : List String) → Memᴰ a xs → contains a xs ≡ true
mem_contains [] m = elim m [ ]
mem_contains {a} (x ∷ xs) (Memᴰ.head e) = ground (arith, ==_iff x a)
mem_contains {a} (x ∷ xs) (Memᴰ.tail m) = ground (arith, mem_contains xs m)

pub outgoing-HasEdge :
    (edges : List Edge) {m n : String} → Memᴰ n (outgoing edges m) → HasEdge edges m n
outgoing-HasEdge [] h = elim h [ ]
outgoing-HasEdge (e ∷ es) {m} {n} h = elim (Bool-cases (e.source_node_id == m)) [
  | inl same ↦ elim (MemD.cases_cons (rw same at h)) [
    | inl p ↦ (e, Memᴰ.head refl, (==_iff e.source_node_id m).0 same, sym p)
    | inr k ↦ later (outgoing-HasEdge es k)
  ]
  | inr other ↦ later (outgoing-HasEdge es (rw other at h))
]
  where
    later : HasEdge es m n → HasEdge (e ∷ es) m n
    later (d, k, p, q) = (d, Memᴰ.tail k, p, q)

pub HasEdge-outgoing :
    (edges : List Edge) {m n : String} → HasEdge edges m n → Memᴰ n (outgoing edges m)
HasEdge-outgoing [] (e, k, p, q) = elim k [ ]
HasEdge-outgoing (d ∷ es) {m} (e, Memᴰ.head h, p, q) =
    let same : (d.source_node_id == m) ≡ true =
      (==_iff d.source_node_id m).1 (ap (λ (x : Edge). x.source_node_id) (sym h) ∙ p) in
    rw same (Memᴰ.head (sym q ∙ ap (λ (x : Edge). x.target_node_id) h))
HasEdge-outgoing (d ∷ es) {m} (e, Memᴰ.tail k, p, q) = elim (Bool-cases (d.source_node_id == m)) [
  | inl same ↦ rw same (Memᴰ.tail (HasEdge-outgoing es (e, k, p, q)))
  | inr other ↦ rw other (HasEdge-outgoing es (e, k, p, q))
]

-- The edges whose source is not in the result: each is still to be queued.
abbrev pending : List Edge → List String → ℕ
pending [] result = 0
pending (e ∷ es) result =
    let rest = pending es result in if contains e.source_node_id result then rest else suc rest

pending-cons :
    (edges : List Edge) (n : String) (result : List String)
    → contains n result ≡ false
    → pending edges result ≡ pending edges (n ∷ result) + length (outgoing edges n)
pending-cons [] n result h = omega arith
pending-cons (e ∷ es) n result h =
    ground (arith, pending-cons es n result h, ==_iff e.source_node_id n, ==_iff n e.source_node_id)

pending-nil : (edges : List Edge) → pending edges [] ≡ length edges
pending-nil [] = refl
pending-nil (e ∷ es) = omega (arith, pending-nil es)

-- Every edge out of a node of the result leads to the result or to the queue.
abbrev Closed : List Edge → List String → List String → Type 0
Closed edges result queue =
    (m n : String)
    → contains m result ≡ true
    → contains n (outgoing edges m) ≡ true
    → (contains n result || contains n queue) ≡ true

record Finished (edges : List Edge) (queue result out : List String) : Type 0 where
  queued : (n : String) → contains n queue ≡ true → contains n out ≡ true
  kept : (n : String) → contains n result ≡ true → contains n out ≡ true
  closed : Closed edges out []

Closed-again :
    (edges : List Edge) (node : String) (queue result : List String)
    → contains node result ≡ true
    → Closed edges result (node ∷ queue)
    → Closed edges result queue
Closed-again edges node queue result old c m n hm hn = ground (arith, c m n hm hn, ==_iff node n)

Closed-expanded :
    (edges : List Edge) (node : String) (queue result : List String)
    → Closed edges result (node ∷ queue)
    → Closed edges (node ∷ result) (queue ++ outgoing edges node)
Closed-expanded edges node queue result c m n hm hn = elim (Bool-cases (contains m result)) [
  | inl old ↦ ground (arith, c m n old hn, contains-append n queue (outgoing edges node))
  | inr new ↦ ground (arith, ==_iff node m, contains-append n queue (outgoing edges node))
]

loop_finishes :
    (fuel : ℕ) (edges : List Edge) (queue result : List String)
    → length queue + pending edges result < fuel
    → Closed edges result queue
    → (out : List String) × (downstream_loop fuel edges queue result ≡ some out)
      × Finished edges queue result out
unfolding downstream_loop
loop_finishes zero edges queue result h c = absurd (omega arith)
loop_finishes (suc fuel) edges [] result h c =
    (result, refl, record { queued = λ n k. cc; kept = λ n k. k; closed = c })
loop_finishes (suc fuel) edges (node ∷ queue) result h c =
    elim (Bool-cases (contains node result)) [
      | inl old ↦
          let (out, e, f) =
            loop_finishes fuel edges queue result (omega arith)
              (Closed-again edges node queue result old c) in
          (
            out,
            rw old e,
            record {
              queued = λ n k. ground (arith, f.queued n, f.kept n, ==_iff node n);
              kept = f.kept;
              closed = f.closed;
            },
          )
      | inr new ↦
          let (out, e, f) =
            loop_finishes fuel edges (queue ++ outgoing edges node) (node ∷ result)
              (omega (
                arith,
                pending-cons edges node result new,
                length-append queue (outgoing edges node),
              ))
              (Closed-expanded edges node queue result c) in
          (
            out,
            rw new e,
            record {
              queued = λ n k.
                  ground
                    (arith, f.queued n, f.kept n, contains-append n queue (outgoing edges node));
              kept = λ n k. f.kept n (ground arith);
              closed = f.closed;
            },
          )
    ]

loop_sound :
    (fuel : ℕ) (edges : List Edge) (starts queue result out : List String)
    → downstream_loop fuel edges queue result ≡ some out
    → ((n : String) → Memᴰ n queue → Reach edges starts n)
    → ((n : String) → contains n result ≡ true → Reach edges starts n)
    → (n : String) → contains n out ≡ true
    → Reach edges starts n
unfolding downstream_loop
loop_sound zero edges starts queue result out h q r n k = cc
loop_sound (suc fuel) edges starts [] result out h q r n k = r n (ground arith)
loop_sound (suc fuel) edges starts (node ∷ queue) result out h q r n k =
    elim (Bool-cases (contains node result)) [
      | inl old ↦
          loop_sound fuel edges starts queue result out (rw old at h) (λ m x. q m (Memᴰ.tail x)) r n
            k
      | inr new ↦
          loop_sound fuel edges starts (queue ++ outgoing edges node) (node ∷ result) out
            (rw new at h) wider grown n k
    ]
  where
    wider : (m : String) → Memᴰ m (queue ++ outgoing edges node) → Reach edges starts m
    wider m x = elim (MemD.append_cases queue x) [
      | inl y ↦ q m (Memᴰ.tail y)
      | inr y ↦ Reach.step (q node (Memᴰ.head refl)) (outgoing-HasEdge edges y)
    ]

    grown : (m : String) → contains m (node ∷ result) ≡ true → Reach edges starts m
    grown m x = elim (Bool-cases (node == m)) [
      | inl same ↦ q m (Memᴰ.head (sym ((==_iff node m).0 same)))
      | inr other ↦ r m (ground arith)
    ]

Reach-Closed :
    (edges : List Edge) (starts out : List String) {n : String}
    → ((m : String) → contains m starts ≡ true → contains m out ≡ true)
    → Closed edges out []
    → Reach edges starts n
    → contains n out ≡ true
Reach-Closed edges starts out {n} s c (Reach.start m) = s n (mem_contains starts m)
Reach-Closed edges starts out {n} s c (Reach.step {m} r e) = ground (
  arith,
  c m n (Reach-Closed edges starts out s c r)
      (mem_contains (outgoing edges m) (HasEdge-outgoing edges e)),
)

-- `Downstream` returns exactly the nodes that edges lead to from the starting nodes, the starting
-- nodes included, on every graph, cyclic or not: the fuel never runs out.
pub downstream-Reach :
    {V : Type 0} (w : Workflow V) (starts : List String) (n : String)
    → (contains n (downstream w starts) ≡ true) ↔ Reach w.edges starts n
unfolding downstream
downstream-Reach w starts n =
    let (out, e, f) =
      loop_finishes (downstream_fuel w.edges starts) w.edges starts []
        (omega (arith, pending-nil w.edges)) (λ m k x y. cc) in
    (
      λ h.
          loop_sound (downstream_fuel w.edges starts) w.edges starts starts [] out e
            (λ m x. Reach.start x) (λ m x. cc) n (rw e at h),
      λ r. rw e (Reach-Closed w.edges starts out f.queued f.closed r),
    )
