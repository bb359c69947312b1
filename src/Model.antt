-- ===== src/Model.antt =====
-- src/context_hmi/model_validation.cpp: `index_model`, which checks the document of a plant model. The
-- result keeps the fields that the other parts read from the checked document, in the order of
-- its arrays; the source keeps pointers to the objects in maps by id.
pub mod Fields
pub mod Valid
pub mod Proofs
pub mod Tests
use ctm.Prelude.{
  ℕ, suc, ◌+◌, ◌^◌, ◌-◌, ◌*◌, Bool, true, false, not, ◌&&◌, ◌||◌, List, [], ◌∷◌, ◌++◌, Bytes,
  bytes_eq, codes, Option, none, some, ltb, ◌==◌, if◌then◌else◌, length, map, any_of, Result, ok,
  err, ◌>>=◌, ◌>>◌, throw_if,
}
use ctm.Json.{JsonLibrary, elements, text, member, is_number}
use ctm.Model.Fields.{
  Error, invalid_model, maximum_string, is_control, lower, is_one_of, required, clean_text,
  string_field, identity_field, allow_only, unit_field, bounded_array, optional_string,
  metadata_field, nonnegative_integer,
}

pub record Asset : Type 0 where
  pub id : Bytes
  pub name : Bytes
  pub kind : Bytes
  pub aliases : Option (List Bytes)

pub record Relationship : Type 0 where
  pub id : Bytes
  pub from : Bytes
  pub to : Bytes
  pub kind : Bytes

pub record Source : Type 0 where
  pub server : Bytes
  pub namespace_uri : Bytes
  pub identifier : Bytes

pub record Tag : Type 0 where
  pub id : Bytes
  pub asset_id : Bytes
  pub name : Bytes
  pub role : Bytes
  pub data_type : Bytes
  pub unit : Bytes
  pub source : Source

-- `D` is the type of floating-point numbers.
pub record Alarm (D : Type 0) : Type 0 where
  pub id : Bytes
  pub asset_id : Bytes
  pub name : Bytes
  pub tag_id : Bytes
  pub operator : Bytes
  pub threshold : D
  pub severity : Bytes

pub record Model (D : Type 0) : Type 0 where
  pub model_id : Bytes
  pub revision : ℕ
  pub name : Bytes
  pub assets : List Asset
  pub relationships : List Relationship
  pub tags : List Tag
  pub alarms : List (Alarm D)

-- `count` in a map by id.
unfoldable pub known : Bytes → List Bytes → Bool
known id [] = false
known id (i ∷ ids) = bytes_eq id i || known id ids

abbrev pub asset_ids : List Asset → List Bytes
asset_ids = map (λ asset. asset.id)

abbrev pub relationship_ids : List Relationship → List Bytes
relationship_ids = map (λ relationship. relationship.id)

abbrev pub tag_ids : List Tag → List Bytes
tag_ids = map (λ tag. tag.id)

abbrev pub alarm_ids : {D : Type 0} → List (Alarm D) → List Bytes
alarm_ids = map (λ alarm. alarm.id)

unfoldable pub find_tag : Bytes → List Tag → Option Tag
find_tag id [] = none
find_tag id (tag ∷ tags) = if bytes_eq id tag.id then some tag else find_tag id tags

abbrev pub numeric_types : List Bytes
numeric_types = codes "number" ∷ codes "float" ∷ codes "double" ∷ codes "integer" ∷ []

abbrev pub data_types : List Bytes
data_types =
    codes "number"
    ∷ codes "float"
    ∷ codes "double"
    ∷ codes "integer"
    ∷ codes "boolean"
    ∷ codes "bool"
    ∷ codes "string"
    ∷ []

abbrev pub operators : List Bytes
operators = codes ">" ∷ codes ">=" ∷ codes "<" ∷ codes "<=" ∷ codes "==" ∷ codes "!=" ∷ []

abbrev pub severities : List Bytes
severities = codes "low" ∷ codes "medium" ∷ codes "high" ∷ codes "critical" ∷ []

module _ (J : JsonLibrary) where
  open J use {Json, Double, kind, number, is_finite}

  -- A loop over an array, whose round sees the entries so far.
  unfoldable pub read_all {ℓ} :
      {A : Type ℓ} → (Json → List A → Result Error A) → List Json → List A → Result Error (List A)
  read_all read [] entries = ok entries
  read_all read (item ∷ items) entries = elim (read item entries) [
    | err e ↦ err e
    | ok entry ↦ read_all read items (entries ++ entry ∷ [])
  ]

  unfoldable pub read_alias : Json → List Bytes → Result Error Bytes
  unfolding clean_text
  read_alias item aliases = do
    s ← clean_text J item maximum_string
    throw_if (length s == 0) invalid_model
    ok s

  unfoldable pub read_aliases : Json → Result Error (Option (List Bytes))
  read_aliases asset = elim (member J asset (codes "aliases")) [
    | none ↦ ok none
    | some field ↦ elim (elements J field) [
      | none ↦ err invalid_model
      | some items ↦
          if ltb 32 (length items)
          then err invalid_model
          else read_all read_alias items [] >>= λ aliases. ok (some aliases)
    ]
  ]

  unfoldable pub asset_fields : Json → Result Error Asset
  asset_fields asset = do
    allow_only J asset
        (codes "id" ∷ codes "name" ∷ codes "kind" ∷ codes "aliases" ∷ codes "metadata" ∷ [])
    id ← identity_field J asset (codes "id")
    name ← string_field J asset (codes "name") maximum_string
    asset_kind ← string_field J asset (codes "kind") maximum_string
    aliases ← read_aliases asset
    metadata_field J asset 4096
    ok (record { id = id; name = name; kind = asset_kind; aliases = aliases })

  -- A round of the loop over the assets.
  unfoldable pub read_asset : Json → List Asset → Result Error Asset
  read_asset item assets = do
    asset ← asset_fields item
    throw_if (known asset.id (asset_ids assets)) invalid_model
    ok asset

  unfoldable pub relationship_fields : Json → Result Error Relationship
  relationship_fields rel = do
    allow_only J rel (codes "id" ∷ codes "from" ∷ codes "to" ∷ codes "kind" ∷ codes "metadata" ∷ [])
    id ← identity_field J rel (codes "id")
    from ← identity_field J rel (codes "from")
    to ← identity_field J rel (codes "to")
    rel_kind ← string_field J rel (codes "kind") maximum_string
    ok (record { id = id; from = from; to = to; kind = rel_kind })

  unfoldable pub read_relationship :
      List Asset → Json → List Relationship → Result Error Relationship
  read_relationship assets item relationships = do
    rel ← relationship_fields item
    throw_if (not (known rel.from (asset_ids assets)) || not (known rel.to (asset_ids assets)))
        invalid_model
    throw_if (bytes_eq rel.from rel.to) invalid_model
    throw_if (known rel.id (relationship_ids relationships)) invalid_model
    ok rel

  unfoldable pub source_field : Json → Result Error Source
  source_field tag = do
    source ← required J tag (codes "source")
    allow_only J source (codes "server" ∷ codes "namespace_uri" ∷ codes "identifier" ∷ [])
    server ← string_field J source (codes "server") maximum_string
    namespace_uri ← string_field J source (codes "namespace_uri") maximum_string
    identifier ← string_field J source (codes "identifier") maximum_string
    ok (record { server = server; namespace_uri = namespace_uri; identifier = identifier })

  unfoldable pub tag_fields : Json → Result Error Tag
  tag_fields tag = do
    allow_only J tag (
        codes "id"
        ∷ codes "asset_id"
        ∷ codes "name"
        ∷ codes "role"
        ∷ codes "data_type"
        ∷ codes "unit"
        ∷ codes "source"
        ∷ codes "metadata"
        ∷ [])
    id ← identity_field J tag (codes "id")
    owner ← identity_field J tag (codes "asset_id")
    name ← string_field J tag (codes "name") maximum_string
    role ← string_field J tag (codes "role") maximum_string
    data_type ← string_field J tag (codes "data_type") maximum_string
    throw_if (not (is_one_of data_types (lower data_type))) invalid_model
    unit ← unit_field J tag (codes "unit")
    throw_if
        (is_one_of (codes "level" ∷ codes "flow" ∷ []) (lower role)
          && not (is_one_of numeric_types (lower data_type)))
        invalid_model
    source ← source_field tag
    ok (record {
      id = id;
      asset_id = owner;
      name = name;
      role = role;
      data_type = data_type;
      unit = unit;
      source = source;
    })

  unfoldable pub read_tag : List Asset → Json → List Tag → Result Error Tag
  read_tag assets item tags = do
    tag ← tag_fields item
    throw_if (not (known tag.asset_id (asset_ids assets))) invalid_model
    throw_if (known tag.id (tag_ids tags)) invalid_model
    ok tag

  unfoldable pub alarm_fields : Json → Result Error (Alarm Double)
  alarm_fields alarm = do
    allow_only J alarm (
        codes "id"
        ∷ codes "asset_id"
        ∷ codes "name"
        ∷ codes "tag_id"
        ∷ codes "operator"
        ∷ codes "threshold"
        ∷ codes "severity"
        ∷ codes "metadata"
        ∷ [])
    id ← identity_field J alarm (codes "id")
    owner ← identity_field J alarm (codes "asset_id")
    tag_id ← identity_field J alarm (codes "tag_id")
    operator ← string_field J alarm (codes "operator") 8
    severity ← string_field J alarm (codes "severity") 16
    name ← string_field J alarm (codes "name") maximum_string
    threshold ← required J alarm (codes "threshold")
    throw_if (not (is_number J threshold) || not (is_finite (number threshold))) invalid_model
    ok (record {
      id = id;
      asset_id = owner;
      name = name;
      tag_id = tag_id;
      operator = operator;
      threshold = number threshold;
      severity = severity;
    })

  unfoldable pub read_alarm :
      List Asset → List Tag → Json → List (Alarm Double) → Result Error (Alarm Double)
  read_alarm assets tags item alarms = do
    alarm ← alarm_fields item
    throw_if (not (known alarm.asset_id (asset_ids assets))) invalid_model
    elim (find_tag alarm.tag_id tags) [
      | none ↦ err invalid_model
      | some tag ↦ do
        throw_if (not (bytes_eq tag.asset_id alarm.asset_id)) invalid_model
        throw_if (not (is_one_of numeric_types (lower tag.data_type))) invalid_model
        throw_if (not (is_one_of operators alarm.operator)) invalid_model
        throw_if (not (is_one_of severities (lower alarm.severity))) invalid_model
        throw_if (known alarm.id (alarm_ids alarms)) invalid_model
        ok alarm
    ]

  unfoldable pub revision_field : Json → Result Error ℕ
  revision_field model = do
    revision ← required J model (codes "revision")
    elim (nonnegative_integer J revision) [
      | none ↦ err invalid_model
      | some n ↦ if ltb (2 ^ 32 - 1) n then err invalid_model else ok n
    ]

  -- The checks of the document's own fields: its id, revision and name.
  unfoldable pub model_fields : Json → Result Error (Bytes × ℕ × Bytes)
  model_fields model = do
    allow_only J model (
        codes "model_id"
        ∷ codes "revision"
        ∷ codes "name"
        ∷ codes "assets"
        ∷ codes "relationships"
        ∷ codes "tags"
        ∷ codes "alarms"
        ∷ codes "scenario_name"
        ∷ codes "description"
        ∷ codes "metadata"
        ∷ [])
    model_id ← identity_field J model (codes "model_id")
    revision ← revision_field model
    name ← string_field J model (codes "name") maximum_string
    optional_string J model (codes "scenario_name") maximum_string
    optional_string J model (codes "description") 2048
    metadata_field J model (16 * 1024)
    ok (model_id, revision, name)

  -- Its four arrays.
  unfoldable pub model_arrays : Json → Result Error (List Json × List Json × List Json × List Json)
  model_arrays model = do
    assets ← bounded_array J model (codes "assets") 256
    relationships ← bounded_array J model (codes "relationships") 512
    tags ← bounded_array J model (codes "tags") 2048
    alarms ← bounded_array J model (codes "alarms") 2048
    ok (assets, relationships, tags, alarms)

  -- The four loops, and the index.
  unfoldable pub read_model :
      Bytes
      → ℕ
      → Bytes
      → List Json × List Json × List Json × List Json
      → Result Error (Model Double)
  read_model model_id revision name (asset_items, relationship_items, tag_items, alarm_items) = do
    assets ← read_all read_asset asset_items []
    relationships ← read_all (read_relationship assets) relationship_items []
    tags ← read_all (read_tag assets) tag_items []
    alarms ← read_all (read_alarm assets tags) alarm_items []
    ok (record {
      model_id = model_id;
      revision = revision;
      name = name;
      assets = assets;
      relationships = relationships;
      tags = tags;
      alarms = alarms;
    })

  unfoldable pub index_model : Json → Result Error (Model Double)
  index_model model = do
    (model_id, revision, name) ← model_fields model
    arrays ← model_arrays model
    read_model model_id revision name arrays
