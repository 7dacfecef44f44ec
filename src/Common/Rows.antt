-- ===== src/Common/Rows.antt =====
-- Tables as lists of rows: `UPDATE … WHERE`, with the number of rows affected, and `SELECT`.
use Prim.Native.Nat.{ℕ, suc}
use mathlib.Core.Bool.{Bool}
use mathlib.Core.Option.{Option, none, some}
use mathlib.Core.List.{List, [], ◌∷◌}
use mathlib.Core.Path.{◌≡◌, refl, ap}
use mathlib.Core.Logic.{inl, inr}
use mathlib.Core.Bool.{true, false}
use native.Mathlib.Omega.{arith}
use miletos.Common.Tests.{if◌then◌else◌, Bool-cases}
use miletos.Common.Lists.{All}

module _ {ℓ} {A : Type ℓ} where
  -- The rows after the update.
  abbrev pub update_where : (A → Bool) → (A → A) → List A → List A
  update_where p f [] = []
  update_where p f (x ∷ xs) = (if p x then f x else x) ∷ update_where p f xs

  -- `RowsAffected`.
  abbrev pub count_where : (A → Bool) → List A → ℕ
  count_where p [] = 0
  count_where p (x ∷ xs) = let rest = count_where p xs in if p x then suc rest else rest

  -- An update after which its own condition holds of no row that it changed.
  pub count-update_where :
      (p : A → Bool) (f : A → A) (xs : List A)
      → ((x : A) → p x ≡ true → p (f x) ≡ false)
      → count_where p (update_where p f xs) ≡ 0
  count-update_where p f [] h = refl
  count-update_where p f (x ∷ xs) h = elim (Bool-cases (p x)) [
    | inl hit ↦ rw (hit, h x hit) (count-update_where p f xs h)
    | inr miss ↦ rw (miss, miss) (count-update_where p f xs h)
  ]

  -- What every row satisfies after an update that keeps it.
  pub update_where-All {κ} :
      (P : A → Type κ) (p : A → Bool) (f : A → A) (xs : List A)
      → ((x : A) → p x ≡ true → P x → P (f x))
      → All P xs
      → All P (update_where p f xs)
  update_where-All P p f [] k h = tt
  update_where-All P p f (x ∷ xs) k h = elim (Bool-cases (p x)) [
    | inl hit ↦ rw hit (k x hit h.0, update_where-All P p f xs k h.1)
    | inr miss ↦ rw miss (h.0, update_where-All P p f xs k h.1)
  ]

  -- An update that affects no row.
  pub update_where-none :
      (p : A → Bool) (f : A → A) (xs : List A) → count_where p xs ≡ 0 → update_where p f xs ≡ xs
  update_where-none p f [] h = refl
  update_where-none p f (x ∷ xs) h = elim (Bool-cases (p x)) [
    | inl hit ↦ absurd (ground (arith, h, hit))
    | inr miss ↦ rw miss (ap (λ r. x ∷ r) (update_where-none p f xs (rw miss at h)))
  ]

  -- The first row that a `WHERE` clause selects.
  abbrev pub find_where : (A → Bool) → List A → Option A
  find_where p [] = none
  find_where p (x ∷ xs) = let rest = find_where p xs in if p x then some x else rest
