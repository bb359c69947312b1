-- ===== src/Csv.antt =====
-- src/context_hmi/context_import_csv.cpp: `parse_csv`, the reader of CSV artifacts. The loop's variables are a
-- record; `++index` past the next character is the field `skip`. A failure is the code that `fail`
-- is given; its path and message are left out. `Limits` are those of context_import.hpp that the
-- reader uses.
pub mod Bounds
pub mod Format
pub mod Cells
pub mod RoundTrip
pub mod Table
pub mod Columns
pub mod Tests
use ctm.Prelude.{
  ℕ, ◌+◌, Bool, true, false, not, ◌&&◌, ◌||◌, List, [], ◌∷◌, ◌++◌, Bytes, leb, ltb, ◌==◌,
  if◌then◌else◌, length, Result, ok, err, ◌>>=◌, ◌>>◌, throw_if,
}

pub record Limits : Type 0 where
  pub max_field_bytes : ℕ
  pub max_columns : ℕ
  pub max_records_per_artifact : ℕ
  pub max_string_bytes : ℕ

pub data Error : Type 0 where
  field_too_large too_many_columns too_many_records invalid_csv invalid_field : Error

-- The variables of `parse_csv`.
pub record Reader : Type 0 where
  pub rows : List (List Bytes)
  pub row : List Bytes
  pub field : Bytes
  pub quoted : Bool
  pub after_quote : Bool
  pub saw_character : Bool
  pub skip : Bool

abbrev pub start : Reader
start = record {
  rows = [];
  row = [];
  field = [];
  quoted = false;
  after_quote = false;
  saw_character = false;
  skip = false;
}

abbrev pub is_empty {ℓ} : {A : Type ℓ} → List A → Bool
is_empty [] = true
is_empty (x ∷ xs) = false

-- Whether the character after the present one is `c`.
abbrev pub next_is : ℕ → Bytes → Bool
next_is c [] = false
next_is c (d ∷ rest) = d == c

module _ (limits : Limits) where
  unfoldable pub check_field : Bytes → Result Error (Unit {0})
  check_field field = throw_if (ltb limits.max_field_bytes (length field)) field_too_large

  -- `row.size() == 1 && row.front().empty() && !saw_character`, on the finished row.
  unfoldable pub is_blank : List Bytes → Bool → Bool
  is_blank (field ∷ []) saw_character = is_empty field && not saw_character
  is_blank row saw_character = false

  unfoldable pub finish_row : Reader → Result Error Reader
  finish_row s = do
    check_field s.field
    let row = s.row ++ s.field ∷ []
    throw_if (ltb limits.max_columns (length row)) too_many_columns
    if is_blank row s.saw_character then ok (record s { row = []; field = [] }) else do
      throw_if (ltb (limits.max_records_per_artifact + 1) (length (s.rows ++ row ∷ [])))
          too_many_records
      ok (record s { rows = s.rows ++ row ∷ []; row = []; field = []; saw_character = false })

  -- A comma outside quotes.
  unfoldable pub end_field : Reader → Result Error Reader
  end_field s = do
    check_field s.field
    throw_if (leb limits.max_columns (length (s.row ++ s.field ∷ []))) too_many_columns
    ok (record s { row = s.row ++ s.field ∷ []; field = []; after_quote = false })

  -- A carriage return or line feed outside quotes; CR LF is one line end.
  unfoldable pub end_line : Reader → ℕ → Bytes → Result Error Reader
  end_line s character rest =
      finish_row (record s { after_quote = false; skip = character == b'\r' && next_is b'\n' rest })

  unfoldable pub push : Reader → ℕ → Result Error Reader
  push s character = do
    check_field (s.field ++ character ∷ [])
    ok (record s { field = s.field ++ character ∷ []; saw_character = true })

  unfoldable pub step_quoted : Reader → ℕ → Bytes → Result Error Reader
  step_quoted s character rest =
      if character == b'"'
      then if next_is b'"' rest
        then ok (record s { field = s.field ++ b'"' ∷ []; skip = true })
        else ok (record s { quoted = false; after_quote = true })
      else push s character

  unfoldable pub step_after_quote : Reader → ℕ → Bytes → Result Error Reader
  step_after_quote s character rest =
      if character == b','
      then end_field s
      else if character == b'\r' || character == b'\n'
      then end_line s character rest
      else err invalid_csv

  unfoldable pub step_plain : Reader → ℕ → Bytes → Result Error Reader
  step_plain s character rest =
      if character == b'"'
      then if not (is_empty s.field)
        then err invalid_csv
        else ok (record s { quoted = true; saw_character = true })
      else if character == b','
      then end_field s
      else if character == b'\r' || character == b'\n'
      then end_line s character rest
      else push s character

  -- One round of the loop.
  unfoldable pub step : Reader → ℕ → Bytes → Result Error Reader
  step s character rest =
      if s.skip
      then ok (record s { skip = false })
      else if s.quoted
      then step_quoted s character rest
      else if s.after_quote
      then step_after_quote s character rest
      else step_plain s character rest

  unfoldable pub loop : Reader → Bytes → Result Error Reader
  loop s [] = ok s
  loop s (character ∷ rest) = elim (step s character rest) [ err e ↦ err e | ok s' ↦ loop s' rest ]

  -- A last row that no line end follows.
  unfoldable pub last_row : Reader → Result Error Reader
  last_row s =
      if s.after_quote || not (is_empty s.field) || not (is_empty s.row) then finish_row s else ok s

  -- What follows the loop.
  unfoldable pub finish : Reader → Result Error (List (List Bytes))
  finish s = do
    throw_if s.quoted invalid_csv
    s' ← last_row s
    throw_if (is_empty s'.rows) invalid_csv
    ok s'.rows

  unfoldable pub parse_csv : Bytes → Result Error (List (List Bytes))
  parse_csv contents = loop start contents >>= finish
