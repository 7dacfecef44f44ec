-- ===== src/Values/Entries.antt =====
-- Writing and deleting an entry of a map, seen from its keys.
use miletos.Common.{
  String, false, ◌≡◌, refl, inl, inr, none, some, string_eq, ◌==◌, ==_refl, ==_iff, if◌then◌else◌,
  arith, Bool-cases,
}
use miletos.Values.{Value, Fields, end, field, field_at, set_field, delete_field}

module _ {N : Type 0} where
  pub field_at-set_field :
      (key : String) (v : Value N) (fs : Fields N) (k : String)
      → field_at (set_field key v fs) k ≡ (if key == k then some v else field_at fs k)
  unfolding field_at set_field
  field_at-set_field key v end k = refl
  field_at-set_field key v (field j w fs) k =
      let rest = field_at-set_field key v fs k in
      elim (Bool-cases (j == key)) [
        | inl same ↦ rw ((==_iff j key).0 same, ==_refl key) (ground arith)
        | inr other ↦ elim (Bool-cases (key == k)) [
          | inr apart ↦ ground (arith, other, apart, rest)
          | inl here ↦
              let moved : (j == k) ≡ false = cc ((==_iff key k).0 here, other) in
              ground (arith, other, here, rest, moved)
        ]
      ]

  pub field_at-delete_field :
      (key : String) (fs : Fields N) (k : String)
      → field_at (delete_field key fs) k ≡ (if key == k then none else field_at fs k)
  unfolding field_at delete_field
  field_at-delete_field key end k = ground arith
  field_at-delete_field key (field j w fs) k =
      let rest = field_at-delete_field key fs k in
      elim (Bool-cases (j == key)) [
        | inl same ↦ rw ((==_iff j key).0 same, ==_refl key) (ground (arith, rest))
        | inr other ↦ elim (Bool-cases (key == k)) [
          | inr apart ↦ ground (arith, other, apart, rest)
          | inl here ↦
              let moved : (j == k) ≡ false = cc ((==_iff key k).0 here, other) in
              ground (arith, other, here, rest, moved)
        ]
      ]
