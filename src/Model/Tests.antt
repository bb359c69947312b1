-- ===== src/Model/Tests.antt =====
-- A small plant as a document, and the theorem about model_validation.cpp at it.
use ctm.Prelude.{ℕ, ◌≡◌, refl, [], ◌∷◌, Bytes-discrete, codes, ok, any_of, all_of, find}
use ctm.Json.{member}
use ctm.Json.Values.{Value, num, str, arr, obj, items, fields, values}
use ctm.Model.{
  Model, known, find_tag, read_all, read_alias, read_aliases, asset_fields, read_asset,
  relationship_fields, read_relationship, source_field, tag_fields, read_tag, alarm_fields,
  read_alarm, revision_field, model_fields, model_arrays, read_model, index_model,
}
use ctm.Model.Fields.{
  lower, is_one_of, valid_identity, required, clean_text, string_field, identity_field, allow_only,
  unit_field, bounded_array, optional_string, metadata_field, nonnegative_integer,
}
use ctm.Model.Valid.{IsValid}
use ctm.Model.Proofs.{index_model-IsValid}

abbrev pump : Value
pump = obj (
    fields (
      (codes "id", str (codes "p1"))
      ∷ (codes "kind", str (codes "pump"))
      ∷ (codes "name", str (codes "Pump 1"))
      ∷ []))

abbrev tank : Value
tank = obj (
    fields (
      (codes "aliases", arr (items (str (codes "vat") ∷ [])))
      ∷ (codes "id", str (codes "t1"))
      ∷ (codes "kind", str (codes "tank"))
      ∷ (codes "name", str (codes "Tank 1"))
      ∷ []))

abbrev pipe : Value
pipe = obj (
    fields (
      (codes "from", str (codes "p1"))
      ∷ (codes "id", str (codes "r1"))
      ∷ (codes "kind", str (codes "feeds"))
      ∷ (codes "to", str (codes "t1"))
      ∷ []))

abbrev level : Value
level = obj (
    fields (
      (codes "asset_id", str (codes "t1"))
      ∷ (codes "data_type", str (codes "number"))
      ∷ (codes "id", str (codes "t1.level"))
      ∷ (codes "name", str (codes "Level"))
      ∷ (codes "role", str (codes "level"))
      ∷ (
        codes "source",
        obj (
            fields (
              (codes "identifier", str (codes "L"))
              ∷ (codes "namespace_uri", str (codes "urn"))
              ∷ (codes "server", str (codes "plc"))
              ∷ [])),
      )
      ∷ (codes "unit", str (codes "%"))
      ∷ []))

abbrev high : Value
high = obj (
    fields (
      (codes "asset_id", str (codes "t1"))
      ∷ (codes "id", str (codes "a1"))
      ∷ (codes "name", str (codes "High"))
      ∷ (codes "operator", str (codes ">"))
      ∷ (codes "severity", str (codes "high"))
      ∷ (codes "tag_id", str (codes "t1.level"))
      ∷ (codes "threshold", num 90)
      ∷ []))

abbrev pub plant : Value
plant = obj (
    fields (
      (codes "alarms", arr (items (high ∷ [])))
      ∷ (codes "assets", arr (items (pump ∷ tank ∷ [])))
      ∷ (codes "model_id", str (codes "plant"))
      ∷ (codes "name", str (codes "Plant"))
      ∷ (codes "relationships", arr (items (pipe ∷ [])))
      ∷ (codes "revision", num 4)
      ∷ (codes "tags", arr (items (level ∷ [])))
      ∷ []))

abbrev pub accepted : (m : Model ℕ) × (index_model values plant ≡ ok m)
unfolding member find any_of all_of Bytes-discrete known find_tag read_all read_alias read_aliases
    asset_fields read_asset relationship_fields read_relationship source_field tag_fields read_tag
    alarm_fields read_alarm revision_field model_fields model_arrays read_model index_model lower
    is_one_of valid_identity required clean_text string_field identity_field allow_only unit_field
    bounded_array optional_string metadata_field nonnegative_integer
accepted = (_, refl)

index_model-IsValid_example : IsValid accepted.0
index_model-IsValid_example = index_model-IsValid values plant accepted.0 accepted.1
