-- ===== src/Values.antt =====
-- Go's `any` as the runtime uses it for JSON: nil, texts, booleans, numbers of an unknown kind, slices
-- and maps. A map is a list of entries of which the first of a key counts; writing keeps the keys apart.
pub mod Persisted
pub mod Redaction
pub mod Entries
use miletos.Common.{
  ℕ, zero, suc, String, Bool, true, false, ◌||◌, Option, none, some, List, [], ◌∷◌, string_eq, ◌==◌,
  if◌then◌else◌,
}

mutual
  pub data Value (N : Type 0) : Type 0 where
    null : Value N
    text : String → Value N
    boolean : Bool → Value N
    number : N → Value N
    array : Items N → Value N
    object : Fields N → Value N

  pub data Items (N : Type 0) : Type 0 where
    nil : Items N
    cons : Value N → Items N → Items N

  pub data Fields (N : Type 0) : Type 0 where
    end : Fields N
    field : String → Value N → Fields N → Fields N

module _ {N : Type 0} where
  -- `value, exists := m[key]`
  unfoldable pub field_at : Fields N → String → Option (Value N)
  field_at end key = none
  field_at (field k v fs) key = let rest = field_at fs key in if k == key then some v else rest

  abbrev pub is_there : Option (Value N) → Bool
  is_there none = false
  is_there (some v) = true

  -- `len(m)`
  unfoldable pub field_count : Fields N → ℕ
  field_count end = 0
  field_count (field k v fs) = suc (field_count fs)

  -- `m[key] = value`
  unfoldable pub set_field : String → Value N → Fields N → Fields N
  set_field key value end = field key value end
  set_field key value (field k v fs) =
      let rest = set_field key value fs in if k == key then field k value fs else field k v rest

  -- `delete(m, key)`
  unfoldable pub delete_field : String → Fields N → Fields N
  delete_field key end = end
  delete_field key (field k v fs) =
      let rest = delete_field key fs in if k == key then rest else field k v rest

  -- `s, _ := v.(string)`
  abbrev pub as_text : Option (Value N) → String
  as_text (some (text s)) = s
  as_text _ = ""

  -- `m, ok := v.(map[string]any)`
  abbrev pub as_object : Option (Value N) → Option (Fields N)
  as_object (some (object fs)) = some fs
  as_object _ = none
