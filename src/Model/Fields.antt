-- ===== src/Model/Fields.antt =====
-- src/context_hmi/model_validation.cpp: the functions that check one field. A failure is the
-- `DomainError` with the code `invalid_model`; its text is left out.
use ctm.Prelude.{
  ℕ, ◌+◌, Bool, false, not, ◌&&◌, ◌||◌, List, [], ◌∷◌, Bytes, bytes_eq, codes, Option, none, some,
  leb, ltb, ◌==◌, if◌then◌else◌, length, map, all_of, any_of, Result, ok, err, ◌>>=◌, ◌>>◌,
  throw_if,
}
use ctm.Json.{JsonLibrary, unsigned, signed, members, elements, text, member, is_object}

pub data Error : Type 0 where
  invalid_model : Error

abbrev pub maximum_string : ℕ
maximum_string = 256

-- `std::iscntrl`, `std::isalnum` and `std::tolower` of the C locale.
abbrev pub is_control : ℕ → Bool
is_control c = ltb c 32 || c == 127

abbrev pub between : ℕ → ℕ → ℕ → Bool
between lo hi c = leb lo c && leb c hi

abbrev pub is_alphanumeric : ℕ → Bool
is_alphanumeric c = between b'0' b'9' c || between b'A' b'Z' c || between b'a' b'z' c

unfoldable pub lower : Bytes → Bytes
lower = map (λ c. if between b'A' b'Z' c then c + 32 else c)

unfoldable pub is_one_of : List Bytes → Bytes → Bool
is_one_of names value = any_of (bytes_eq value) names

unfoldable pub valid_identity : Bytes → Bool
valid_identity [] = false
valid_identity (c ∷ value) =
    leb (length (c ∷ value)) maximum_string
    && is_alphanumeric c
    && all_of (λ d. is_alphanumeric d || d == b'_' || d == b'.' || d == b'-') (c ∷ value)

module _ (J : JsonLibrary) where
  open J use {Json, kind, dump_size}

  unfoldable pub required : Json → Bytes → Result Error Json
  required value key = elim (member J value key) [ none ↦ err invalid_model | some v ↦ ok v ]

  -- A string without control characters, of at most `max` bytes.
  unfoldable pub clean_text : Json → ℕ → Result Error Bytes
  clean_text value max = elim (text J value) [
    | none ↦ err invalid_model
    | some s ↦ if ltb max (length s) || any_of is_control s then err invalid_model else ok s
  ]

  unfoldable pub string_field : Json → Bytes → ℕ → Result Error Bytes
  unfolding clean_text
  string_field value key max = do
    field ← required value key
    s ← clean_text field max
    throw_if (length s == 0) invalid_model
    ok s

  unfoldable pub identity_field : Json → Bytes → Result Error Bytes
  identity_field value key = do
    s ← string_field value key maximum_string
    throw_if (not (valid_identity s)) invalid_model
    ok s

  unfoldable pub allow_only : Json → List Bytes → Result Error (Unit {0})
  allow_only value names = elim (members J value) [
    | none ↦ err invalid_model
    | some fields ↦
        throw_if (not (all_of (λ (field : Bytes × Json). is_one_of names field.0) fields))
          invalid_model
  ]

  -- An empty unit is a unit.
  unfoldable pub unit_field : Json → Bytes → Result Error Bytes
  unit_field value key = required value key >>= λ field. clean_text field maximum_string

  -- The array, which the caller reads next.
  unfoldable pub bounded_array : Json → Bytes → ℕ → Result Error (List Json)
  bounded_array value key max = do
    field ← required value key
    elim (elements J field) [
      | none ↦ err invalid_model
      | some items ↦ if ltb max (length items) then err invalid_model else ok items
    ]

  -- A text that may be missing.
  unfoldable pub optional_string : Json → Bytes → ℕ → Result Error (Unit {0})
  optional_string value key max = elim (member J value key) [
    | none ↦ ok tt
    | some _ ↦ string_field value key max >>= λ _. ok tt
  ]

  -- `metadata`, an object whose text is bounded.
  unfoldable pub metadata_field : Json → ℕ → Result Error (Unit {0})
  metadata_field value max = elim (member J value (codes "metadata")) [
    | none ↦ ok tt
    | some metadata ↦
        throw_if (not (is_object J metadata) || ltb max (dump_size metadata)) invalid_model
  ]

  -- `is_nonnegative_integer`, with the integer.
  unfoldable pub nonnegative_integer : Json → Option ℕ
  nonnegative_integer value = elim (kind value) [
    | unsigned n ↦ some n
    | signed negative n ↦ if negative then none else some n
    | _ ↦ none
  ]
