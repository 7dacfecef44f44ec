-- ===== src/Values/Persisted.antt =====
-- execution/model/persisted_value.go and routing.go: how values and routes are stored, and read back. A
-- map that may be nil is an option.
use miletos.Common.{
  String, Bool, true, false, ◌&&◌, ◌≡◌, refl, Option, none, some, nat_eq, string_eq, ◌==◌,
  if◌then◌else◌,
}
use miletos.Values.{
  Value, null, text, boolean, number, array, object, Fields, end, field, field_at, field_count,
  is_there, as_text, as_object,
}

abbrev pub persisted_value_format : String
persisted_value_format = "miletos.workflow.persisted-value.v1"

abbrev pub persisted_routed_output_format : String
persisted_routed_output_format = "miletos.workflow.routed-output.v1"

module _ {N : Type 0} where
  -- `EncodePersistedValue`
  unfoldable pub encode_persisted_value : Value N → Fields N
  encode_persisted_value value =
      field "format" (text persisted_value_format) (field "value" value end)

  -- `IsPersistedValue` of a map that is there.
  unfoldable pub is_persisted_value : Fields N → Bool
  unfolding field_at field_count
  is_persisted_value stored =
      as_text (field_at stored "format") == persisted_value_format
      && is_there (field_at stored "value")
      && field_count stored == 2

  abbrev or_null : Option (Value N) → Value N
  or_null none = null
  or_null (some v) = v

  -- `decodeLegacySummary`
  abbrev pub decode_legacy_summary : Fields N → Value N
  decode_legacy_summary stored =
      if is_there (field_at stored "value") && field_count stored == 1
      then or_null (field_at stored "value")
      else object stored

  -- `DecodePersistedValue`
  unfoldable pub decode_persisted_value : Option (Fields N) → Value N
  unfolding is_persisted_value field_at field_count
  decode_persisted_value none = null
  decode_persisted_value (some stored) =
      if is_persisted_value stored
      then or_null (field_at stored "value")
      else decode_legacy_summary stored

  -- `PublicSummary`
  unfoldable pub public_summary : Value N → Fields N
  public_summary null = end
  public_summary (object fs) = fs
  public_summary (text s) = field "value" (text s) end
  public_summary (boolean b) = field "value" (boolean b) end
  public_summary (number n) = field "value" (number n) end
  public_summary (array xs) = field "value" (array xs) end

  -- `EncodePersistedEdgePayloads` of a map that is there.
  unfoldable pub encode_persisted_edge_payloads : Fields N → Fields N
  unfolding encode_persisted_value
  encode_persisted_edge_payloads end = end
  encode_persisted_edge_payloads (field id v fs) =
      field id (object (encode_persisted_value v)) (encode_persisted_edge_payloads fs)

  -- `DecodePersistedEdgePayload`
  unfoldable pub decode_persisted_edge_payload : Value N → Value N
  unfolding is_persisted_value field_at
  decode_persisted_edge_payload (object fs) =
      if is_persisted_value fs then or_null (field_at fs "value") else object fs
  decode_persisted_edge_payload null = null
  decode_persisted_edge_payload (text s) = text s
  decode_persisted_edge_payload (boolean b) = boolean b
  decode_persisted_edge_payload (number n) = number n
  decode_persisted_edge_payload (array xs) = array xs

  -- `DecodePersistedEdgePayloads`
  unfoldable pub decode_persisted_edge_payloads : Fields N → Fields N
  unfolding decode_persisted_edge_payload
  decode_persisted_edge_payloads end = end
  decode_persisted_edge_payloads (field id v fs) =
      field id (decode_persisted_edge_payload v) (decode_persisted_edge_payloads fs)

  -- What `SaveNodeSuccess` stores.
  unfoldable pub write_output : Value N → Bool → Fields N → Fields N
  unfolding encode_persisted_value encode_persisted_edge_payloads
  write_output output explicit payloads =
      if explicit
      then field "format" (text persisted_routed_output_format) (
          field "output" (object (encode_persisted_value output))
            (field "edgePayloads" (object (encode_persisted_edge_payloads payloads)) end))
      else encode_persisted_value output

  -- What `decodePersistedSummaries` reads: the output, and the routes if they were chosen.
  abbrev read_routed :
      Fields N → Option (Fields N) → Option (Fields N) → Value N × Option (Fields N)
  read_routed stored (some output) (some payloads) =
      (decode_persisted_value (some output), some (decode_persisted_edge_payloads payloads))
  read_routed stored (some output) none = (decode_persisted_value (some stored), none)
  read_routed stored none payloads = (decode_persisted_value (some stored), none)

  unfoldable pub read_output : Fields N → Value N × Option (Fields N)
  unfolding decode_persisted_value decode_persisted_edge_payloads field_at
  read_output stored =
      if as_text (field_at stored "format") == persisted_routed_output_format
      then read_routed stored (as_object (field_at stored "output"))
          (as_object (field_at stored "edgePayloads"))
      else (decode_persisted_value (some stored), none)

  -- A value that is stored is read back, whatever it is: also one that looks like a stored value.
  pub decode-encode : (v : Value N) → decode_persisted_value (some (encode_persisted_value v)) ≡ v
  unfolding decode_persisted_value encode_persisted_value is_persisted_value field_at field_count
  decode-encode v = refl

  pub decode-encode_payloads :
      (ps : Fields N) → decode_persisted_edge_payloads (encode_persisted_edge_payloads ps) ≡ ps
  unfolding decode_persisted_edge_payloads encode_persisted_edge_payloads
      decode_persisted_edge_payload encode_persisted_value is_persisted_value field_at field_count
  decode-encode_payloads end = refl
  decode-encode_payloads (field id v fs) = cc (decode-encode_payloads fs)

  abbrev some_if : Bool → Fields N → Option (Fields N)
  some_if true fs = some fs
  some_if false fs = none

  -- The output of a node and the routes that it chose are read back as they were, whatever values they
  -- are, those that look like stored values or outputs included; without a choice of routes none are
  -- read.
  pub read_output-write_output :
      (output : Value N) (explicit : Bool) (payloads : Fields N)
      → read_output (write_output output explicit payloads) ≡ (output, some_if explicit payloads)
  unfolding read_output write_output encode_persisted_value field_at decode_persisted_value
      is_persisted_value field_count
  read_output-write_output output true payloads = cc (decode-encode_payloads payloads)
  read_output-write_output output false payloads = refl
