-- ===== src/Telemetry/Batch.antt =====
-- `ingest` of telemetry_store.cpp: the checks of a batch, and the call.
use ctm.Prelude.{
  ℕ, Bool, true, false, not, ◌&&◌, ◌||◌, List, [], ◌∷◌, Bytes, bytes_eq, codes, Option, none, some,
  ltb, ◌==◌, if◌then◌else◌, length, all_of, add64, Result, ok, err, ◌>>=◌, ◌>>◌, throw_if,
}
use ctm.Json.{JsonLibrary, boolean, unsigned, signed, members, text, member, is_number}
use ctm.Model.{Model, Tag, find_tag, index_model, numeric_types}
use ctm.Model.Fields.{is_one_of, is_alphanumeric}
use ctm.Telemetry.{
  Error, invalid_model, stale_context, invalid_telemetry, type_error, Quality, good, uncertain, bad,
  unknown, Sample, Store, Checked, commit,
}

abbrev pub maximum_source_id_bytes : ℕ
maximum_source_id_bytes = 128

abbrev pub maximum_string_value_bytes : ℕ
maximum_string_value_bytes = 2048

unfoldable pub valid_source : Bytes → Bool
valid_source value =
    not (length value == 0)
    && not (ltb maximum_source_id_bytes (length value))
    && all_of (λ c. is_alphanumeric c || c == b'_' || c == b'-' || c == b'.') value

unfoldable pub quality_of : Bytes → Option Quality
quality_of value =
    if bytes_eq value (codes "good")
    then some good
    else if bytes_eq value (codes "uncertain")
    then some uncertain
    else if bytes_eq value (codes "bad")
    then some bad
    else if bytes_eq value (codes "unknown")
    then some unknown
    else none

module _ (J : JsonLibrary) where
  open J use {Json, kind, Double, number, is_finite}

  unfoldable pub require_fields : Json → List Bytes → Result Error (Unit {0})
  require_fields value allowed = elim (members J value) [
    | none ↦ err invalid_telemetry
    | some fields ↦
        throw_if (not (all_of (λ (field : Bytes × Json). is_one_of allowed field.0) fields))
          invalid_telemetry
  ]

  abbrev is_integer : Json → Bool
  is_integer value = elim (kind value) [ unsigned _ ↦ true | signed _ _ ↦ true | _ ↦ false ]

  -- The last check of `validate_value`, on the `data_type` of the tag.
  unfoldable pub value_matches : Bytes → Json → Bool
  value_matches type value =
      if is_one_of numeric_types type
      then is_number J value
        && is_finite (number value)
        && (not (bytes_eq type (codes "integer")) || is_integer value)
      else if is_one_of (codes "boolean" ∷ codes "bool" ∷ []) type
      then elim (kind value) [ boolean _ ↦ true | _ ↦ false ]
      else elim (text J value) [
        | none ↦ false
        | some s ↦ not (ltb maximum_string_value_bytes (length s))
      ]

  unfoldable pub field : Json → Bytes → Result Error Json
  field value key = elim (member J value key) [ none ↦ err invalid_telemetry | some v ↦ ok v ]

  unfoldable pub unsigned_of : Json → Result Error ℕ
  unsigned_of value = elim (kind value) [ unsigned n ↦ ok n | _ ↦ err invalid_telemetry ]

  unfoldable pub sample_quality : Json → Result Error Quality
  sample_quality value = elim (text J value) [
    | none ↦ err invalid_telemetry
    | some s ↦ elim (quality_of s) [ none ↦ err invalid_telemetry | some q ↦ ok q ]
  ]

  -- `validate_value`, with the sample that it accepts.
  unfoldable pub validate_value : Json → Tag → Result Error (Sample J)
  validate_value sample tag = do
    require_fields sample (codes "value" ∷ codes "quality" ∷ codes "timestamp_ms" ∷ [])
    value ← field sample (codes "value")
    quality_field ← field sample (codes "quality")
    timestamp_field ← field sample (codes "timestamp_ms")
    quality ← sample_quality quality_field
    timestamp ← unsigned_of timestamp_field
    throw_if (not (value_matches tag.data_type value)) invalid_telemetry
    ok (record { value = value; quality = quality; timestamp_ms = timestamp })

  -- The loop over the samples, in the order of their tags' ids.
  unfoldable pub check_samples :
      List Tag → List (Bytes × Json) → Result Error (List (Bytes × Sample J))
  check_samples tags [] = ok []
  check_samples tags ((id, sample) ∷ samples) = elim (find_tag id tags) [
    | none ↦ err invalid_telemetry
    | some tag ↦ do
      checked ← validate_value sample tag
      rest ← check_samples tags samples
      ok ((id, checked) ∷ rest)
  ]

  -- `batch.value("schema_version", "")`.
  unfoldable pub schema_version : Json → Result Error Bytes
  schema_version batch = elim (member J batch (codes "schema_version")) [
    | none ↦ ok []
    | some v ↦ elim (text J v) [ none ↦ err type_error | some s ↦ ok s ]
  ]

  abbrev is_text : Option Json → Bytes → Bool
  is_text value s = elim value [
    | none ↦ false
    | some v ↦ elim (text J v) [ none ↦ false | some t ↦ bytes_eq t s ]
  ]

  abbrev is_unsigned : Option Json → ℕ → Bool
  is_unsigned value n = elim value [
    | none ↦ false
    | some v ↦ elim (kind v) [ unsigned m ↦ m == n | _ ↦ false ]
  ]

  -- The first check: the batch is about this model and this generation.
  unfoldable pub check_identity : Model Double → ℕ → Json → Result Error (Unit {0})
  check_identity model generation batch = elim (members J batch) [
    | none ↦ err invalid_telemetry
    | some fields ↦
        if not (length fields == 7)
        then err stale_context
        else schema_version batch >>= λ version.
            throw_if
              (not (
                bytes_eq version (codes "context-hmi-telemetry/1")
                && is_text (member J batch (codes "model_id")) model.model_id
                && is_unsigned (member J batch (codes "model_revision")) model.revision
                && is_unsigned (member J batch (codes "context_generation")) generation))
              stale_context
  ]

  unfoldable pub check_source : Json → Result Error Bytes
  check_source batch = do
    value ← field batch (codes "source_id")
    elim (text J value) [
      | none ↦ err invalid_telemetry
      | some s ↦ if valid_source s then ok s else err invalid_telemetry
    ]

  unfoldable pub check_values : Json → ℕ → Result Error (List (Bytes × Json))
  check_values batch maximum = do
    value ← field batch (codes "values")
    elim (members J value) [
      | none ↦ err invalid_telemetry
      | some samples ↦
          if length samples == 0 || ltb maximum (length samples)
          then err invalid_telemetry
          else ok samples
    ]

  -- The checks of the batch itself: its source, its sequence number and the values.
  unfoldable pub check_fields :
      Model Double → ℕ → Json → ℕ → Result Error (Bytes × ℕ × List (Bytes × Json))
  check_fields model generation batch maximum = do
    require_fields batch (
        codes "schema_version"
        ∷ codes "model_id"
        ∷ codes "model_revision"
        ∷ codes "context_generation"
        ∷ codes "source_id"
        ∷ codes "sequence"
        ∷ codes "values"
        ∷ [])
    check_identity model generation batch
    source_id ← check_source batch
    sequence_field ← field batch (codes "sequence")
    sequence ← unsigned_of sequence_field
    values ← check_values batch maximum
    ok (source_id, sequence, values)

  -- Everything before the lock.
  unfoldable pub check_batch : Json → ℕ → Json → ℕ → Result Error (Checked J)
  check_batch document generation batch maximum = elim (index_model J document) [
    | err _ ↦ err invalid_model
    | ok model ↦ do
      (source_id, sequence, values) ← check_fields model generation batch maximum
      samples ← check_samples model.tags values
      ok (record { source_id = source_id; sequence = sequence; samples = samples })
  ]

  -- `ingest` as it would be without its handler.
  unfoldable pub try_ingest : Store J → Json → ℕ → Json → ℕ → Result Error (Store J)
  try_ingest s document generation batch now = do
    checked ← check_batch document generation batch s.maximum_values_per_batch
    commit J s generation checked now

  -- `ingest`; the handler counts the failure and throws it on.
  unfoldable pub ingest : Store J → Json → ℕ → Json → ℕ → Store J × Result Error (Unit {0})
  ingest s document generation batch now = elim (try_ingest s document generation batch now) [
    | err e ↦ (record s { rejected_batches = add64 s.rejected_batches 1 }, err e)
    | ok s' ↦ (s', ok tt)
  ]
