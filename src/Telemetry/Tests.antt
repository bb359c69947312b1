-- ===== src/Telemetry/Tests.antt =====
-- The theorems about telemetry_store.cpp at a small plant, with values and numbers written out.
use ctm.Prelude.{
  ℕ, ◌≤◌, ◌≡◌, refl, ◌⊎◌, false, List, [], ◌∷◌, Bytes-discrete, codes, ok, err, add64, All, map,
  length, any_of, all_of, find, assign,
}
use ctm.Json.{member}
use ctm.Json.Values.{Value, num, str, obj, fields, values}
use ctm.Model.{
  Tag, known, find_tag, read_all, read_alias, read_aliases, asset_fields, read_asset,
  relationship_fields, read_relationship, source_field, tag_fields, read_tag, alarm_fields,
  read_alarm, revision_field, model_fields, model_arrays, read_model, index_model,
}
use ctm.Model.Fields.{
  lower, is_one_of, valid_identity, required, clean_text, string_field, identity_field, allow_only,
  unit_field, bounded_array, optional_string, metadata_field, nonnegative_integer,
}
use ctm.Model.Tests.{plant, accepted}
use ctm.Telemetry.{
  Store, invalid_telemetry, telemetry_out_of_order, good, store_samples, commit, committed,
  reconfigure,
}
use ctm.Telemetry.Batch.{
  valid_source, quality_of, require_fields, value_matches, field, unsigned_of, sample_quality,
  validate_value, check_samples, schema_version, check_identity, check_source, check_values,
  check_fields, check_batch, try_ingest, ingest,
}
use ctm.Telemetry.View.{
  AlarmState, Snapshot, compare, aged, reading, count_reading, readings, overall, alarm_available,
  alarm_state, alarm_states, show, snapshot,
}
use ctm.Telemetry.Commit.{ingest_again-refused}
use ctm.Telemetry.Order.{Request, sequences, Ascending, sequences-Ascending}
use ctm.Telemetry.Declared.{Declared, serve_all, serve_all-bounded}
use ctm.Telemetry.Fresh.{Fresh, snapshot-good}
use ctm.Telemetry.Alarms.{Raised, snapshot-alarms}
use ctm.Telemetry.Types.{number_sample-refused}

abbrev sample : Value
sample = obj (
    fields (
      (codes "quality", str (codes "good"))
      ∷ (codes "timestamp_ms", num 990)
      ∷ (codes "value", num 95)
      ∷ []))

abbrev batch : ℕ → Value
batch sequence = obj (
    fields (
      (codes "context_generation", num 1)
      ∷ (codes "model_id", str (codes "plant"))
      ∷ (codes "model_revision", num 4)
      ∷ (codes "schema_version", str (codes "context-hmi-telemetry/1"))
      ∷ (codes "sequence", num sequence)
      ∷ (codes "source_id", str (codes "plc"))
      ∷ (codes "values", obj (fields ((codes "t1.level", sample) ∷ [])))
      ∷ []))

abbrev fresh : Store values
fresh = record {
  stale_after_ms = 3000;
  maximum_values_per_batch = 512;
  values = [];
  source_sequences = [];
  context_generation = 0;
  accepted_batches = 0;
  rejected_batches = 0;
  accepted_values = 0;
  last_received_ms = 0;
}

abbrev empty : Store values
unfolding reconfigure
empty = reconfigure values fresh 1

ingest_reads : (ingest values empty plant 1 (batch 5) 1000).1 ≡ ok tt
unfolding member find assign any_of all_of Bytes-discrete known find_tag read_all read_alias
    read_aliases asset_fields read_asset relationship_fields read_relationship source_field
    tag_fields read_tag alarm_fields read_alarm revision_field model_fields model_arrays read_model
    index_model lower is_one_of valid_identity required clean_text string_field identity_field
    allow_only unit_field bounded_array optional_string metadata_field nonnegative_integer
    valid_source quality_of require_fields value_matches field unsigned_of sample_quality
    validate_value check_samples schema_version check_identity check_source check_values
    check_fields check_batch try_ingest ingest store_samples commit committed empty
ingest_reads = refl

-- The store after that batch.
abbrev full : Store values
full = record fresh {
  values =
      (
        codes "t1.level",
        record {
          sample = record { value = num 95; quality = good; timestamp_ms = 990 };
          received_timestamp_ms = 1000;
          source_id = codes "plc";
          sequence = 5;
        },
      )
      ∷ [];
  source_sequences = (codes "plc", 5) ∷ [];
  context_generation = 1;
  accepted_batches = 1;
  accepted_values = 1;
  last_received_ms = 1000;
}

ingest_stores : (ingest values empty plant 1 (batch 5) 1000).0 ≡ full
unfolding member find assign any_of all_of Bytes-discrete known find_tag read_all read_alias
    read_aliases asset_fields read_asset relationship_fields read_relationship source_field
    tag_fields read_tag alarm_fields read_alarm revision_field model_fields model_arrays read_model
    index_model lower is_one_of valid_identity required clean_text string_field identity_field
    allow_only unit_field bounded_array optional_string metadata_field nonnegative_integer
    valid_source quality_of require_fields value_matches field unsigned_of sample_quality
    validate_value check_samples schema_version check_identity check_source check_values
    check_fields check_batch try_ingest ingest store_samples commit committed empty
ingest_stores = refl

ingest_refuses : (ingest values full plant 1 (batch 5) 1001).1 ≡ err telemetry_out_of_order
unfolding member find assign any_of all_of Bytes-discrete known find_tag read_all read_alias
    read_aliases asset_fields read_asset relationship_fields read_relationship source_field
    tag_fields read_tag alarm_fields read_alarm revision_field model_fields model_arrays read_model
    index_model lower is_one_of valid_identity required clean_text string_field identity_field
    allow_only unit_field bounded_array optional_string metadata_field nonnegative_integer
    valid_source quality_of require_fields value_matches field unsigned_of sample_quality
    validate_value check_samples schema_version check_identity check_source check_values
    check_fields check_batch try_ingest ingest store_samples commit committed
ingest_refuses = refl

ingest_again-refused_example :
    let s' = (ingest values empty plant 1 (batch 5) 1000).0 in
    ((ingest values s' plant 1 (batch 5) 1001).1 ≡ err telemetry_out_of_order)
    × ((ingest values s' plant 1 (batch 5) 1001).0
        ≡ record s' { rejected_batches = add64 s'.rejected_batches 1 })
ingest_again-refused_example =
    ingest_again-refused values empty plant 1 (batch 5) 1000 1001 ingest_reads

abbrev requests : List (Request values)
requests =
    record { document = plant; generation = 1; batch = batch 5; now = 1000 }
    ∷ record { document = plant; generation = 1; batch = batch 5; now = 1001 }
    ∷ record { document = plant; generation = 1; batch = batch 6; now = 1002 }
    ∷ []

sequences-Ascending_example :
    Ascending values
      (find Bytes-discrete (codes "plc") empty.source_sequences)
      (sequences values (codes "plc") empty requests)
sequences-Ascending_example = sequences-Ascending values (codes "plc") requests empty

serve_all-bounded_example :
    let s' = serve_all values (reconfigure values fresh 1) requests in
    Declared values accepted.0 s'
    × (length s'.values ≤ length accepted.0.tags)
    × (length s'.values ≤ 2048)
serve_all-bounded_example =
    serve_all-bounded values plant accepted.0 fresh 1 requests accepted.1 (refl, (refl, (refl, tt)))

snapshot-alarms_example :
    (view : Snapshot values) × (snapshot values full plant 1 1500 ≡ ok view)
    × (map (λ (state : AlarmState values). state.alarm) view.alarms ≡ accepted.0.alarms)
    × All
        (λ (state : AlarmState values).
          (state.active ≡ false) ⊎ Raised values full 1 1500 state.alarm)
        view.alarms
snapshot-alarms_example = snapshot-alarms values full 1 1500 plant accepted.0 accepted.1

abbrev shown : (view : Snapshot values) × (snapshot values full plant 1 1500 ≡ ok view)
unfolding member find assign any_of all_of Bytes-discrete known find_tag read_all read_alias
    read_aliases asset_fields read_asset relationship_fields read_relationship source_field
    tag_fields read_tag alarm_fields read_alarm revision_field model_fields model_arrays read_model
    index_model lower is_one_of valid_identity required clean_text string_field identity_field
    allow_only unit_field bounded_array optional_string metadata_field nonnegative_integer compare
    aged reading count_reading readings overall alarm_available alarm_state alarm_states show
    snapshot valid_source quality_of require_fields value_matches field unsigned_of sample_quality
    validate_value check_samples schema_version check_identity check_source check_values
    check_fields check_batch try_ingest ingest
shown = (_, refl)

snapshot-good_example : All (Fresh values full 1 1500) accepted.0.tags
unfolding shown
snapshot-good_example =
    snapshot-good values full 1 1500 plant accepted.0 shown.0 accepted.1 shown.1 refl

abbrev float_tag : Tag
float_tag = record {
  id = codes "t1.level";
  asset_id = codes "t1";
  name = codes "Level";
  role = codes "level";
  data_type = codes "Float";
  unit = codes "%";
  source = record { server = codes "plc"; namespace_uri = codes "urn"; identifier = codes "L" };
}

number_sample-refused_example : validate_value values sample float_tag ≡ err invalid_telemetry
unfolding lower is_one_of any_of member find Bytes-discrete
number_sample-refused_example =
    number_sample-refused values float_tag sample (num 95) refl refl refl refl
