-- ===== src/Model/Valid.antt =====
-- What model_validation.cpp promises of a document that it accepts.
use ctm.Prelude.{
  ◌^◌, ◌≤◌, ◌<◌, ◌≡◌, ◌≢◌, refl, true, false, ◌||◌, List, [], ◌∷◌, ◌++◌, Bytes, bytes_eq,
  bytes_eq_iff, some, arith, All, length, map,
}
use mathlib.Core.List.{map-append}
use ctm.Model.{
  Asset, Relationship, Tag, Alarm, Model, known, asset_ids, relationship_ids, tag_ids, alarm_ids,
  find_tag, numeric_types, operators, severities,
}
use ctm.Model.Fields.{lower, is_one_of}

-- No id twice.
abbrev pub Unique : List Bytes → Type 0
Unique [] = Unit
Unique (id ∷ ids) = (known id ids ≡ false) × Unique ids

-- The ends are declared assets, and different ones.
pub record Connects (assets : List Asset) (r : Relationship) : Type 0 where
  pub from_known : known r.from (asset_ids assets) ≡ true
  pub to_known : known r.to (asset_ids assets) ≡ true
  pub apart : r.from ≢ r.to

-- The alarm stands on a declared numeric tag of its own asset.
pub record Watches {D : Type 0} (assets : List Asset) (tags : List Tag) (a : Alarm D) : Type 0 where
  pub tag : Tag
  pub declared : find_tag a.tag_id tags ≡ some tag
  pub owned : tag.asset_id ≡ a.asset_id
  pub owner_known : known a.asset_id (asset_ids assets) ≡ true
  pub numeric : is_one_of numeric_types (lower tag.data_type) ≡ true
  pub operator : is_one_of operators a.operator ≡ true
  pub severity : is_one_of severities (lower a.severity) ≡ true

pub record IsValid {D : Type 0} (m : Model D) : Type 0 where
  pub revision : m.revision < 2 ^ 32
  pub few_assets : length m.assets ≤ 256
  pub few_relationships : length m.relationships ≤ 512
  pub few_tags : length m.tags ≤ 2048
  pub few_alarms : length m.alarms ≤ 2048
  pub assets : Unique (asset_ids m.assets)
  pub relationships : Unique (relationship_ids m.relationships)
  pub tags : Unique (tag_ids m.tags)
  pub alarms : Unique (alarm_ids m.alarms)
  pub connected : All (Connects m.assets) m.relationships
  pub owned : All (λ tag. known tag.asset_id (asset_ids m.assets) ≡ true) m.tags
  pub watched : All (Watches m.assets m.tags) m.alarms

bytes_eq_comm : (s t : Bytes) → bytes_eq s t ≡ false → bytes_eq t s ≡ false
bytes_eq_comm s t h = ground (arith, bytes_eq_iff s t, bytes_eq_iff t s)

known-snoc :
    (id last : Bytes) (ids : List Bytes)
    → known id (ids ++ last ∷ []) ≡ (known id ids || bytes_eq id last)
unfolding known
known-snoc id last [] = ground arith
known-snoc id last (i ∷ ids) = ground (arith, known-snoc id last ids)

pub Unique-snoc :
    (ids : List Bytes) (last : Bytes)
    → Unique ids
    → known last ids ≡ false
    → Unique (ids ++ last ∷ [])
unfolding known
Unique-snoc [] last u h = (refl, tt)
Unique-snoc (id ∷ ids) last u h = (
  ground (arith, u.0, known-snoc id last ids, bytes_eq_iff id last, bytes_eq_iff last id),
  Unique-snoc ids last u.1 (ground arith),
)

pub All-snoc {ℓ κ} :
    {A : Type ℓ} (P : A → Type κ) (xs : List A) (x : A) → All P xs → P x → All P (xs ++ x ∷ [])
All-snoc P [] x h p = (p, tt)
All-snoc P (y ∷ xs) x h p = (h.0, All-snoc P xs x h.1 p)

-- Adding an entry whose id is new keeps the ids apart.
pub Unique-map_snoc {ℓ} :
    {A : Type ℓ} (id : A → Bytes) (xs : List A) (x : A)
    → Unique (map id xs)
    → known (id x) (map id xs) ≡ false
    → Unique (map id (xs ++ x ∷ []))
Unique-map_snoc id xs x u h = rw (map-append id xs (x ∷ [])) (Unique-snoc (map id xs) (id x) u h)
