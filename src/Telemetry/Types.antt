-- ===== src/Telemetry/Types.antt =====
-- The `data_type` of a tag, as model_validation.cpp and telemetry_store.cpp read it.
use ctm.Prelude.{◌≡◌, true, false, Bytes, codes, none, some, arith, err}
use ctm.Json.{JsonLibrary, member, is_number, text}
use ctm.Model.{Tag, numeric_types}
use ctm.Model.Fields.{is_one_of, lower}
use ctm.Telemetry.{invalid_telemetry}
use ctm.Telemetry.Batch.{
  validate_value, value_matches, require_fields, field, sample_quality, unsigned_of,
}

module _ (J : JsonLibrary) where
  open J use {Json, kind}

  text_of_number : (value : Json) → is_number J value ≡ true → text J value ≡ none
  text_of_number value h = ground arith

  number-refused :
      (type : Bytes) (value : Json)
      → is_one_of numeric_types type ≡ false
      → is_number J value ≡ true
      → value_matches J type value ≡ false
  unfolding value_matches
  number-refused type value h n = ground (arith, text_of_number value n)

  -- A tag is numeric for `index_model` when the lower case of its `data_type` is a numeric type, and for
  -- `ingest` when the `data_type` itself is. Where these differ, as for "Float", every sample that
  -- carries a number is refused.
  pub number_sample-refused :
      (tag : Tag) (sample value : Json)
      → is_one_of numeric_types (lower tag.data_type) ≡ true
      → is_one_of numeric_types tag.data_type ≡ false
      → member J sample (codes "value") ≡ some value
      → is_number J value ≡ true
      → validate_value J sample tag ≡ err invalid_telemetry
  unfolding validate_value require_fields field sample_quality unsigned_of
  number_sample-refused tag sample value as_numeric not_numeric has n =
      ground (arith, has, number-refused tag.data_type value not_numeric n)
