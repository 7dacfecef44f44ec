-- ===== src/Values/Redaction.antt =====
-- execution/redaction.go: the values of sensitive keys are hidden. `strings.ToLower`, with its tables
-- of Unicode, is a parameter.
use miletos.Common.{
  String, Bool, true, false, ◌&&◌, ◌||◌, not, ◌≡◌, refl, ap, ==_iff, inl, inr, List, [], ◌∷◌,
  contains, arith, Bool-cases, and-true, or-true, string_eq, ◌==◌, if◌then◌else◌,
}
use miletos.Values.{
  Value, null, text, boolean, number, array, object, Items, nil, cons, Fields, end, field,
}

abbrev pub redacted_value : String
redacted_value = "[REDACTED]"

abbrev pub sensitive_keys : List String
sensitive_keys =
    "authorization" ∷ "proxy-authorization" ∷ "cookie" ∷ "set-cookie" ∷ "password" ∷ "secret"
    ∷ "token" ∷ "accesstoken" ∷ "refreshtoken" ∷ "apikey" ∷ "clientsecret" ∷ []

unfoldable pub is_sensitive : (String → String) → String → Bool
is_sensitive lower key = contains (lower key) sensitive_keys

-- `RedactNodeData`
unfoldable mutual
  unfolding is_sensitive

  pub redact_node_data : {N : Type 0} → (String → String) → Value N → Value N
  redact_node_data lower null = null
  redact_node_data lower (text s) = text s
  redact_node_data lower (boolean b) = boolean b
  redact_node_data lower (number n) = number n
  redact_node_data lower (array xs) = array (redact_items lower xs)
  redact_node_data lower (object fs) = object (redact_object lower fs)

  pub redact_items : {N : Type 0} → (String → String) → Items N → Items N
  redact_items lower nil = nil
  redact_items lower (cons v xs) = cons (redact_node_data lower v) (redact_items lower xs)

  pub redact_object : {N : Type 0} → (String → String) → Fields N → Fields N
  redact_object lower end = end
  redact_object lower (field k v fs) =
      let hidden = text redacted_value in
      let shown = redact_node_data lower v in
      let rest = redact_object lower fs in
      field k (if is_sensitive lower k then hidden else shown) rest

abbrev is_hidden : {N : Type 0} → Value N → Bool
is_hidden (text s) = s == redacted_value
is_hidden _ = false

-- Whether every sensitive key, at any depth, has the hidden value.
unfoldable mutual
  unfolding is_sensitive

  pub conceals : {N : Type 0} → (String → String) → Value N → Bool
  conceals lower null = true
  conceals lower (text s) = true
  conceals lower (boolean b) = true
  conceals lower (number n) = true
  conceals lower (array xs) = conceals_items lower xs
  conceals lower (object fs) = conceals_fields lower fs

  pub conceals_items : {N : Type 0} → (String → String) → Items N → Bool
  conceals_items lower nil = true
  conceals_items lower (cons v xs) = conceals lower v && conceals_items lower xs

  pub conceals_fields : {N : Type 0} → (String → String) → Fields N → Bool
  conceals_fields lower end = true
  conceals_fields lower (field k v fs) =
      (not (is_sensitive lower k) || is_hidden v) && conceals lower v && conceals_fields lower fs

mutual
  unfolding redact_node_data conceals

  redact-conceals :
      {N : Type 0} (lower : String → String) (v : Value N)
      → conceals lower (redact_node_data lower v) ≡ true
  redact-conceals lower null = refl
  redact-conceals lower (text s) = refl
  redact-conceals lower (boolean b) = refl
  redact-conceals lower (number n) = refl
  redact-conceals lower (array xs) = redact_items-conceals lower xs
  redact-conceals lower (object fs) = redact_object-conceals lower fs

  redact_items-conceals :
      {N : Type 0} (lower : String → String) (xs : Items N)
      → conceals_items lower (redact_items lower xs) ≡ true
  redact_items-conceals lower nil = refl
  redact_items-conceals lower (cons v xs) =
      ground (arith, redact-conceals lower v, redact_items-conceals lower xs)

  redact_object-conceals :
      {N : Type 0} (lower : String → String) (fs : Fields N)
      → conceals_fields lower (redact_object lower fs) ≡ true
  redact_object-conceals lower end = refl
  redact_object-conceals lower (field k v fs) = elim (Bool-cases (is_sensitive lower k)) [
    | inl secret ↦ rw (secret, redact_object-conceals lower fs) refl
    | inr open_key ↦ rw (open_key, redact-conceals lower v, redact_object-conceals lower fs) refl
  ]

hidden-eq : {N : Type 0} (v : Value N) → is_hidden v ≡ true → v ≡ text redacted_value
hidden-eq null h = cc
hidden-eq (boolean b) h = cc
hidden-eq (number n) h = cc
hidden-eq (array xs) h = cc
hidden-eq (object fs) h = cc
hidden-eq (text s) h = ap text ((==_iff s redacted_value).0 h)

mutual
  unfolding redact_node_data conceals

  concealed-same :
      {N : Type 0} (lower : String → String) (v : Value N)
      → conceals lower v ≡ true
      → redact_node_data lower v ≡ v
  concealed-same lower null h = refl
  concealed-same lower (text s) h = refl
  concealed-same lower (boolean b) h = refl
  concealed-same lower (number n) h = refl
  concealed-same lower (array xs) h = cc (concealed_items-same lower xs h)
  concealed-same lower (object fs) h = cc (concealed_fields-same lower fs h)

  concealed_items-same :
      {N : Type 0} (lower : String → String) (xs : Items N)
      → conceals_items lower xs ≡ true
      → redact_items lower xs ≡ xs
  concealed_items-same lower nil h = refl
  concealed_items-same lower (cons v xs) h =
      let parts = and-true (conceals lower v) (conceals_items lower xs) h in
      cc (concealed-same lower v parts.0, concealed_items-same lower xs parts.1)

  concealed_fields-same :
      {N : Type 0} (lower : String → String) (fs : Fields N)
      → conceals_fields lower fs ≡ true
      → redact_object lower fs ≡ fs
  concealed_fields-same lower end h = refl
  concealed_fields-same lower (field k v fs) h =
      let parts =
        and-true ((not (is_sensitive lower k) || is_hidden v) && conceals lower v)
          (conceals_fields lower fs) h in
      let here = and-true (not (is_sensitive lower k) || is_hidden v) (conceals lower v) parts.0 in
      elim (Bool-cases (is_sensitive lower k)) [
        | inl secret ↦
            let hidden =
              or-true (not (is_sensitive lower k)) (is_hidden v) here.0 (rw secret refl) in
            rw (secret, concealed_fields-same lower fs parts.1, hidden-eq v hidden) refl
        | inr open_key ↦
            rw (open_key, concealed-same lower v here.1, concealed_fields-same lower fs parts.1)
              refl
      ]

-- What is redacted shows no sensitive key at any depth, however it is written; and nothing changes
-- of a value that has none to hide, so that redacting once more changes nothing.
pub redact_node_data-conceals :
    {N : Type 0} (lower : String → String) (v : Value N)
    → (conceals lower (redact_node_data lower v) ≡ true)
      × (conceals lower v ≡ true → redact_node_data lower v ≡ v)
      × (redact_node_data lower (redact_node_data lower v) ≡ redact_node_data lower v)
redact_node_data-conceals lower v = (
  redact-conceals lower v,
  concealed-same lower v,
  concealed-same lower (redact_node_data lower v) (redact-conceals lower v),
)
