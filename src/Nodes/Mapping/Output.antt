-- ===== src/Nodes/Mapping/Output.antt =====
-- plugin/map_node.go: what each field of a row becomes by the mappings.
use miletos.Common.{
  String, true, false, not, ◌&&◌, ◌≡◌, refl, inl, inr, Option, none, some, List, [], ◌∷◌, any,
  contains, string_eq, ◌==◌, ==_refl, ==_iff, if◌then◌else◌, arith, Bool-cases,
}
use miletos.Values.{Value, Fields, field_at, set_field, is_there}
use miletos.Values.Entries.{field_at-set_field, field_at-delete_field}
use miletos.Nodes.{or_else, done}
use miletos.Nodes.Mapping.{
  FieldMapping, valid_mappings, apply_mapping, apply_mappings, targets_of, apply_field_mappings,
}

-- Target fields that are all different.
abbrev pub Distinct : List String → Type 0
Distinct [] = Unit
Distinct (t ∷ ts) = (contains t ts ≡ false) × Distinct ts

-- Targets are different from each other and from those that are taken.
pub valid_mappings-Distinct :
    (ms : List FieldMapping) (sources taken targets : List String)
    → valid_mappings ms sources taken ≡ done targets
    → Distinct (targets_of ms)
      × ((t : String) → contains t taken ≡ true → contains t (targets_of ms) ≡ false)
unfolding valid_mappings
valid_mappings-Distinct [] sources taken targets h = (tt, λ t k. refl)
valid_mappings-Distinct (m ∷ ms) sources taken targets h =
    let kept : (contains m.target_field taken ≡ false)
        × (valid_mappings ms (m.source_field ∷ sources) (m.target_field ∷ taken) ≡ done targets) =
      ground (arith, h) in
    let rest =
      valid_mappings-Distinct ms (m.source_field ∷ sources) (m.target_field ∷ taken) targets
        kept.1 in
    (
      (rest.1 m.target_field (ground (arith, ==_refl m.target_field)), rest.0),
      λ t known. apart t known kept.0 (rest.1 t (ground (arith, known))),
    )
  where
    apart :
        (t : String)
        → contains t taken ≡ true
        → contains m.target_field taken ≡ false
        → contains t (targets_of ms) ≡ false
        → contains t (targets_of (m ∷ ms)) ≡ false
    apart t known free later = elim (Bool-cases (m.target_field == t)) [
      | inr other ↦ ground (arith, other, later)
      | inl same ↦ absurd (ground (arith, known, free, (==_iff m.target_field t).0 same))
    ]

module _ {N : Type 0} where
  -- What a mapping of the list writes to a field.
  abbrev pub mapped_to : Fields N → List FieldMapping → String → Option (Value N) → Option (Value N)
  mapped_to row [] k before = before
  mapped_to row (m ∷ ms) k before =
      if m.target_field == k
      then or_else (field_at row m.source_field) before
      else mapped_to row ms k before

  mapped_to-absent :
      (row : Fields N) (ms : List FieldMapping) (k : String) (before : Option (Value N))
      → contains k (targets_of ms) ≡ false
      → mapped_to row ms k before ≡ before
  mapped_to-absent row [] k before h = refl
  mapped_to-absent row (m ∷ ms) k before h = ground (arith, h, mapped_to-absent row ms k before)

  -- One mapping with a source that is there.
  apply_mapping-some :
      (v : Value N) (m : FieldMapping) (targets : List String) (mapped : Fields N) (k : String)
      → field_at (apply_mapping (some v) m targets mapped) k ≡ (
          if (not (m.source_field == m.target_field) && not (contains m.source_field targets))
            && m.source_field == k
          then none
          else if m.target_field == k
          then some v
          else field_at mapped k)
  apply_mapping-some v m targets mapped k = ground (
    arith,
    field_at-set_field m.target_field v mapped k,
    field_at-delete_field m.source_field (set_field m.target_field v mapped) k,
  )

  -- One mapping, at a field that is a target of some mapping.
  apply_mapping-target :
      (found : Option (Value N)) (m : FieldMapping) (targets : List String) (mapped : Fields N)
      (k : String)
      → contains k targets ≡ true
      → field_at (apply_mapping found m targets mapped) k
        ≡ (if m.target_field == k then or_else found (field_at mapped k) else field_at mapped k)
  apply_mapping-target none m targets mapped k known = ground arith
  apply_mapping-target (some v) m targets mapped k known =
      let written = apply_mapping-some v m targets mapped k in
      elim (Bool-cases (m.source_field == k)) [
        | inr other ↦ ground (arith, written, other)
        | inl same ↦
            let kept : contains m.source_field targets ≡ true =
              cc ((==_iff m.source_field k).0 same, known) in
            ground (arith, written, kept)
      ]

  -- A field that is a target: it has the value of its source, or what it had if there is none.
  apply_mappings-target :
      (row : Fields N) (targets : List String) (ms : List FieldMapping) (mapped : Fields N)
      (k : String)
      → contains k targets ≡ true
      → Distinct (targets_of ms)
      → field_at (apply_mappings row targets ms mapped) k ≡ mapped_to row ms k (field_at mapped k)
  unfolding apply_mappings
  apply_mappings-target row targets [] mapped k known distinct = refl
  apply_mappings-target row targets (m ∷ ms) mapped k known distinct =
      let after = apply_mapping (field_at row m.source_field) m targets mapped in
      let rest = apply_mappings-target row targets ms after k known distinct.1 in
      let first = apply_mapping-target (field_at row m.source_field) m targets mapped k known in
      elim (Bool-cases (m.target_field == k)) [
        | inr other ↦ ground (arith, rest, first, other)
        | inl same ↦
            let gone : contains k (targets_of ms) ≡ false =
              cc ((==_iff m.target_field k).0 same, distinct.0) in
            ground (arith, rest, first, same, mapped_to-absent row ms k (field_at after k) gone)
      ]

  -- One mapping, at a field that is no target.
  apply_mapping-other :
      (found : Option (Value N)) (m : FieldMapping) (targets : List String) (mapped : Fields N)
      (k : String)
      → contains k targets ≡ false
      → (m.target_field == k) ≡ false
      → field_at (apply_mapping found m targets mapped) k
        ≡ (if is_there found && m.source_field == k then none else field_at mapped k)
  apply_mapping-other none m targets mapped k free apart = refl
  apply_mapping-other (some v) m targets mapped k free apart =
      let written = apply_mapping-some v m targets mapped k in
      elim (Bool-cases (m.source_field == k)) [
        | inr other ↦ ground (arith, written, other, apart)
        | inl same ↦
            let equal = (==_iff m.source_field k).0 same in
            let unkept : contains m.source_field targets ≡ false = cc (equal, free) in
            let moved : (m.source_field == m.target_field) ≡ false = unequal equal in
            ground (arith, written, unkept, moved, same)
      ]
    where
      unequal : m.source_field ≡ k → (m.source_field == m.target_field) ≡ false
      unequal equal = elim (Bool-cases (m.source_field == m.target_field)) [
        | inr h ↦ h
        | inl h ↦
            absurd
              (ground (arith, apart, equal, (==_iff m.source_field m.target_field).0 h, ==_refl k))
      ]

  -- A field that is no target: it is gone if it is a source.
  apply_mappings-other :
      (row : Fields N) (targets : List String) (ms : List FieldMapping) (mapped : Fields N)
      (k : String)
      → contains k targets ≡ false
      → contains k (targets_of ms) ≡ false
      → (field_at row k ≡ none → field_at mapped k ≡ none)
      → field_at (apply_mappings row targets ms mapped) k
        ≡ (if any (λ m. m.source_field == k) ms then none else field_at mapped k)
  unfolding apply_mappings
  apply_mappings-other row targets [] mapped k free later absent = refl
  apply_mappings-other row targets (m ∷ ms) mapped k free later absent =
      let found = field_at row m.source_field in
      let after = apply_mapping found m targets mapped in
      let step = apply_mapping-other found m targets mapped k free (ground (arith, later)) in
      elim (Bool-cases (m.source_field == k)) [
        | inr other ↦
            let kept : field_at after k ≡ field_at mapped k = ground (arith, step, other) in
            let rest =
              apply_mappings-other row targets ms after k free (ground (arith, later))
                (λ n. cc (kept, absent n)) in
            ground (arith, rest, kept, other)
        | inl same ↦
            let gone : field_at after k ≡ none =
              removed (field_at row m.source_field) step same
                (λ n. absent (cc (n, (==_iff m.source_field k).0 same))) in
            let rest =
              apply_mappings-other row targets ms after k free (ground (arith, later))
                (λ n. gone) in
            ground (arith, rest, gone, same)
      ]
    where
      removed :
          (found : Option (Value N)) {now : Option (Value N)}
          → now ≡ (if is_there found && m.source_field == k then none else field_at mapped k)
          → (m.source_field == k) ≡ true
          → (found ≡ none → field_at mapped k ≡ none)
          → now ≡ none
      removed none h same absence = cc (h, absence refl)
      removed (some v) h same absence = ground (arith, h, same)

  -- What a field of the row becomes by mappings with different targets: a target has the value of its
  -- source, or what it had if there is none; a source that is no target is gone; the others stay.
  abbrev pub mapped_field : Fields N → List FieldMapping → String → Option (Value N)
  mapped_field row ms k =
      if contains k (targets_of ms)
      then mapped_to row ms k (field_at row k)
      else if any (λ m. m.source_field == k) ms
      then none
      else field_at row k

  pub apply_field_mappings-mapped :
      (row : Fields N) (ms : List FieldMapping) (k : String)
      → Distinct (targets_of ms)
      → field_at (apply_field_mappings row ms) k ≡ mapped_field row ms k
  unfolding apply_field_mappings
  apply_field_mappings-mapped row ms k distinct = elim (Bool-cases (contains k (targets_of ms))) [
    | inl known ↦
        ground (arith, known, apply_mappings-target row (targets_of ms) ms row k known distinct)
    | inr free ↦
        ground (arith, free, apply_mappings-other row (targets_of ms) ms row k free free (λ n. n))
  ]
