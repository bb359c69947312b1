-- ===== src/Csv/Table.antt =====
-- The table functions of context_import_csv.cpp (`header_map`, `cell`, `require_columns`,
-- `check_row_width`), and `trim` of context_import_common.cpp. A map of headers is an association list.
use ctm.Prelude.{
  ℕ, suc, min, Bool, true, false, ◌&&◌, ◌||◌, List, [], ◌∷◌, ◌++◌, Bytes, Bytes-discrete, none,
  some, ltb, ◌==◌, if◌then◌else◌, length, get_elem?, any_of, find, Result, ok, err, ◌>>◌, throw_if,
}
use ctm.Csv.{Limits, Error, field_too_large, invalid_csv, invalid_field, too_many_records, is_empty}

abbrev is_space : ℕ → Bool
is_space c = c == b' ' || c == b'\t' || c == b'\r' || c == b'\n'

unfoldable pub trim_start : Bytes → Bytes
trim_start [] = []
trim_start (c ∷ text) = let rest = trim_start text in if is_space c then rest else c ∷ text

unfoldable pub trim_end : Bytes → Bytes
trim_end [] = []
trim_end (c ∷ text) =
    let rest = trim_end text in if is_empty rest && is_space c then [] else c ∷ rest

unfoldable pub trim : Bytes → Bytes
trim value = trim_end (trim_start value)

abbrev pub Headers : Type 0
Headers = List (Bytes × ℕ)

abbrev pub contains : Headers → Bytes → Bool
contains headers key = elim (find Bytes-discrete key headers) [ none ↦ false | some _ ↦ true ]

module _ (limits : Limits) where
  -- The loop of `header_map`, from column `index` on.
  unfoldable pub add_headers : List Bytes → ℕ → Headers → Result Error Headers
  add_headers [] index headers = ok headers
  add_headers (field ∷ row) index headers =
      let header = trim field in
      let rest = add_headers row (suc index) (headers ++ (header, index) ∷ []) in
      if is_empty header || ltb limits.max_string_bytes (length header) || contains headers header
      then err invalid_csv
      else rest

  -- `header_map`, on the first row.
  unfoldable pub header_map : List Bytes → Result Error Headers
  header_map first = add_headers first 0 []

  abbrev is_control : ℕ → Bool
  is_control c = ltb c 32 || c == 127

  unfoldable pub check_cell : Bytes → Bool → Result Error Bytes
  check_cell value required = do
    throw_if (ltb (min limits.max_field_bytes 256) (length value)) field_too_large
    throw_if (required && is_empty value) invalid_field
    throw_if (any_of is_control value) invalid_field
    ok value

  unfoldable pub cell : List Bytes → Headers → Bytes → Bool → Result Error Bytes
  cell row headers key required = elim (find Bytes-discrete key headers) [
    | none ↦ if required then err invalid_csv else ok []
    | some index ↦ elim (get_elem? row index) [
      | none ↦ if required then err invalid_csv else ok []
      | some value ↦ check_cell value required
    ]
  ]

  unfoldable pub require_columns : Headers → List Bytes → Result Error (Unit {0})
  require_columns headers [] = ok tt
  require_columns headers (name ∷ names) =
      let rest = require_columns headers names in
      if contains headers name then rest else err invalid_csv

  unfoldable pub check_widths : ℕ → List (List Bytes) → Result Error (Unit {0})
  check_widths width [] = ok tt
  check_widths width (row ∷ rows) =
      let rest = check_widths width rows in if length row == width then rest else err invalid_csv

  -- `check_row_width`, on the first row and the others.
  unfoldable pub check_row_width : List Bytes → List (List Bytes) → Result Error (Unit {0})
  check_row_width first others = do
    check_widths (length first) others
    throw_if (ltb limits.max_records_per_artifact (length others)) too_many_records
