-- ===== src/Json.antt =====
-- nlohmann::json, the library whose values the other parts read: a parameter. `kind` stands for `type`,
-- `get`, `items` and the iterators; `number` for `get<double>`, `dump_size` for `dump().size()`.
-- `Double` is the type of floating-point numbers, with `>`, `>=` and `==`.
pub mod Values
use ctm.Prelude.{ℕ, Bool, true, false, List, Bytes, Bytes-discrete, Option, none, some, find}

-- What a value holds. The members of an object stand in the order of their keys, no key twice.
pub data Kind (J : Type 0) : Type 0 where
  null : Kind J
  boolean : Bool → Kind J
  unsigned : ℕ → Kind J
  -- a signed integer: its absolute value, and whether it is negative
  signed : Bool → ℕ → Kind J
  floating : Kind J
  string : Bytes → Kind J
  array : List J → Kind J
  object : List (Bytes × J) → Kind J

pub record JsonLibrary : Type 1 where
  pub Json : Type 0
  pub Double : Type 0
  pub kind : Json → Kind Json
  pub number : Json → Double
  pub is_finite : Double → Bool
  pub greater : Double → Double → Bool
  pub greater_equal : Double → Double → Bool
  pub equal : Double → Double → Bool
  pub dump_size : Json → ℕ

module _ (J : JsonLibrary) where
  open J use {Json, kind}

  abbrev pub members : Json → Option (List (Bytes × Json))
  members value = elim (kind value) [ object fields ↦ some fields | _ ↦ none ]

  abbrev pub elements : Json → Option (List Json)
  elements value = elim (kind value) [ array items ↦ some items | _ ↦ none ]

  abbrev pub text : Json → Option Bytes
  text value = elim (kind value) [ string s ↦ some s | _ ↦ none ]

  -- `contains` and `at` of an object.
  unfoldable pub member : Json → Bytes → Option Json
  member value key = elim (members value) [
    | none ↦ none
    | some fields ↦ find Bytes-discrete key fields
  ]

  abbrev pub is_object : Json → Bool
  is_object value = elim (kind value) [ object _ ↦ true | _ ↦ false ]

  abbrev pub is_number : Json → Bool
  is_number value = elim (kind value) [
    | unsigned _ ↦ true
    | signed _ _ ↦ true
    | floating ↦ true
    | _ ↦ false
  ]
