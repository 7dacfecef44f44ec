-- ===== src/Workflow/Graph/Cycle/Chain.antt =====
-- Lists of nodes that follow edges, such as the stack of `cycleDetector` in workflow/graph.go.
use miletos.Common.{
  ℕ, zero, suc, String, ◌≡◌, refl, Option, none, some, List, [], ◌∷◌, ◌++◌, Memᴰ, arith, length,
}
use miletos.Workflow.Graph.Cycle.{drop, drop_last}

abbrev pub Chain : (String → List String) → List String → Type 0
Chain out [] = Unit
Chain out (x ∷ []) = Unit
Chain out (x ∷ y ∷ ys) = Memᴰ y (out x) × Chain out (y ∷ ys)

-- A closed path: it ends where it began, and each step follows an edge.
abbrev pub IsCycle : (String → List String) → List String → Type 0
IsCycle out path = (t : String) × (mid : List String) × (path ≡ t ∷ mid ++ t ∷ []) × Chain out path

abbrev pub get_elem? {ℓ} : {A : Type ℓ} → List A → ℕ → Option A
get_elem? [] i = none
get_elem? (x ∷ xs) zero = some x
get_elem? (x ∷ xs) (suc i) = get_elem? xs i

module _ (out : String → List String) where
  pub Chain-snoc :
      (xs : List String) {n t : String}
      → Chain out (xs ++ n ∷ [])
      → Memᴰ t (out n)
      → Chain out ((xs ++ n ∷ []) ++ t ∷ [])
  Chain-snoc [] c m = (m, tt)
  Chain-snoc (x ∷ []) c m = (c.0, (m, tt))
  Chain-snoc (x ∷ y ∷ ys) c m = (c.0, Chain-snoc (y ∷ ys) c.1 m)

  Chain-tail : (x : String) (xs : List String) → Chain out (x ∷ xs) → Chain out xs
  Chain-tail x [] c = tt
  Chain-tail x (y ∷ ys) c = c.1

  pub Chain-drop :
      (k : ℕ) (xs : List String) (t : String)
      → Chain out (xs ++ t ∷ [])
      → Chain out (drop k xs ++ t ∷ [])
  Chain-drop zero xs t c = c
  Chain-drop (suc k) [] t c = tt
  Chain-drop (suc k) (x ∷ xs) t c = Chain-drop k xs t (Chain-tail x (xs ++ t ∷ []) c)

pub drop-get_elem? :
    (k : ℕ) (xs : List String) {t : String}
    → get_elem? xs k ≡ some t
    → (mid : List String) × (drop k xs ≡ t ∷ mid)
drop-get_elem? k [] h = cc
drop-get_elem? zero (x ∷ xs) h = (xs, ground arith)
drop-get_elem? (suc k) (x ∷ xs) h = drop-get_elem? k xs h

pub get_elem?-snoc :
    (xs : List String) (k : ℕ) (n : String) {x : String}
    → get_elem? xs k ≡ some x
    → get_elem? (xs ++ n ∷ []) k ≡ some x
get_elem?-snoc [] k n h = cc
get_elem?-snoc (y ∷ xs) zero n h = h
get_elem?-snoc (y ∷ xs) (suc k) n h = get_elem?-snoc xs k n h

pub get_elem?-snoc_last :
    (xs : List String) (n : String) → get_elem? (xs ++ n ∷ []) (length xs) ≡ some n
get_elem?-snoc_last [] n = refl
get_elem?-snoc_last (y ∷ xs) n = get_elem?-snoc_last xs n

pub drop_last-snoc : (xs : List String) (n : String) → drop_last (xs ++ n ∷ []) ≡ xs
drop_last-snoc [] n = refl
drop_last-snoc (x ∷ []) n = refl
drop_last-snoc (x ∷ y ∷ ys) n = rw (drop_last-snoc (y ∷ ys) n)
