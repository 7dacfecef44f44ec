-- ===== src/Common/Sort.antt =====
-- Go's stable sorts, `sort.SliceStable` and `sort.Strings`, by insertion.
use Prim.Native.String.{String, compare}
use mathlib.Core.Path.{◌≡◌, refl}
use mathlib.Core.Logic.{inl, inr}
use mathlib.Core.Bool.{Bool}
use mathlib.Core.List.{List, [], ◌∷◌, Memᴰ}
use mathlib.Core.List.Memᴰ as MemD
use native.Mathlib.Omega.{arith}
use text.Mathlib.Text.{is_lt}
use miletos.Common.Tests.{if◌then◌else◌, Bool-cases}
use miletos.Common.Lists.{length}
use miletos.Common.Rows.{count_where}

-- Go's `<` on strings: by bytes.
abbrev pub str_lt : String → String → Bool
str_lt a b = is_lt (compare a b)

module _ {ℓ} {A : Type ℓ} (less : A → A → Bool) where
  unfoldable pub insert_by : A → List A → List A
  insert_by x [] = x ∷ []
  insert_by x (y ∷ ys) = let rest = insert_by x ys in if less y x then y ∷ rest else x ∷ y ∷ ys

  unfoldable pub sort_by : List A → List A
  unfolding insert_by
  sort_by [] = []
  sort_by (x ∷ xs) = insert_by x (sort_by xs)

  length-insert_by : (x : A) (ys : List A) → length (insert_by x ys) ≡ length (x ∷ ys)
  unfolding insert_by
  length-insert_by x [] = refl
  length-insert_by x (y ∷ ys) = ground (arith, length-insert_by x ys)

  pub length-sort_by : (xs : List A) → length (sort_by xs) ≡ length xs
  unfolding sort_by
  length-sort_by [] = refl
  length-sort_by (x ∷ xs) = omega (arith, length-insert_by x (sort_by xs), length-sort_by xs)

  count-insert_by :
      (p : A → Bool) (x : A) (ys : List A) → count_where p (insert_by x ys) ≡ count_where p (x ∷ ys)
  unfolding insert_by
  count-insert_by p x [] = refl
  count-insert_by p x (y ∷ ys) = ground (arith, count-insert_by p x ys)

  pub count-sort_by : (p : A → Bool) (xs : List A) → count_where p (sort_by xs) ≡ count_where p xs
  unfolding sort_by
  count-sort_by p [] = refl
  count-sort_by p (x ∷ xs) = ground (arith, count-insert_by p x (sort_by xs), count-sort_by p xs)

  insert_by-mem : {a : A} (x : A) (ys : List A) → Memᴰ a (x ∷ ys) → Memᴰ a (insert_by x ys)
  unfolding insert_by
  insert_by-mem x [] m = m
  insert_by-mem x (y ∷ ys) (Memᴰ.head e) = elim (Bool-cases (less y x)) [
    | inl after ↦ rw (after, insert_by) (Memᴰ.tail (insert_by-mem x ys (Memᴰ.head e)))
    | inr before ↦ rw (before, insert_by) (Memᴰ.head e)
  ]
  insert_by-mem x (y ∷ ys) (Memᴰ.tail (Memᴰ.head e)) = elim (Bool-cases (less y x)) [
    | inl after ↦ rw (after, insert_by) (Memᴰ.head e)
    | inr before ↦ rw (before, insert_by) (Memᴰ.tail (Memᴰ.head e))
  ]
  insert_by-mem x (y ∷ ys) (Memᴰ.tail (Memᴰ.tail m)) = elim (Bool-cases (less y x)) [
    | inl after ↦ rw (after, insert_by) (Memᴰ.tail (insert_by-mem x ys (Memᴰ.tail m)))
    | inr before ↦ rw (before, insert_by) (Memᴰ.tail (Memᴰ.tail m))
  ]

  mem-insert_by : {a : A} (x : A) (ys : List A) → Memᴰ a (insert_by x ys) → Memᴰ a (x ∷ ys)
  unfolding insert_by
  mem-insert_by x [] m = m
  mem-insert_by {a} x (y ∷ ys) m = elim (Bool-cases (less y x)) [
    | inl after ↦ elim (MemD.cases_cons (rw (after, insert_by) at m)) [
      | inl e ↦ Memᴰ.tail (Memᴰ.head e)
      | inr k ↦ elim (MemD.cases_cons (mem-insert_by x ys k)) [
        | inl e ↦ Memᴰ.head e
        | inr n ↦ Memᴰ.tail (Memᴰ.tail n)
      ]
    ]
    | inr before ↦ rw (before, insert_by) at m
  ]

  -- A sort keeps the members.
  pub sort_by-mem : {a : A} (xs : List A) → Memᴰ a xs → Memᴰ a (sort_by xs)
  unfolding sort_by
  sort_by-mem [] m = m
  sort_by-mem (x ∷ xs) (Memᴰ.head e) = insert_by-mem x (sort_by xs) (Memᴰ.head e)
  sort_by-mem (x ∷ xs) (Memᴰ.tail m) = insert_by-mem x (sort_by xs) (Memᴰ.tail (sort_by-mem xs m))

  pub mem-sort_by : {a : A} (xs : List A) → Memᴰ a (sort_by xs) → Memᴰ a xs
  unfolding sort_by
  mem-sort_by [] m = m
  mem-sort_by (x ∷ xs) m = elim (MemD.cases_cons (mem-insert_by x (sort_by xs) m)) [
    | inl e ↦ Memᴰ.head e
    | inr k ↦ Memᴰ.tail (mem-sort_by xs k)
  ]
