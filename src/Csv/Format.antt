-- ===== src/Csv/Format.antt =====
-- CSV text as the reader of context_import_csv.cpp is meant to understand it: cells that are quoted or not,
-- and lines that end in LF or CR LF.
use ctm.Prelude.{
  ◌+◌, ◌≤◌, ◌<◌, ◌≡◌, ◌≢◌, ◌⊎◌, Bool, true, List, [], ◌∷◌, ◌++◌, Bytes, length, ◌==◌, if◌then◌else◌,
  map,
}
use ctm.Csv.{Limits}

pub record Cell : Type 0 where
  pub quote : Bool
  pub text : Bytes

pub record Line : Type 0 where
  pub first : Cell
  pub others : List Cell
  pub carriage_return : Bool

-- A quote inside quotes is doubled.
unfoldable pub doubled : Bytes → Bytes
doubled [] = []
doubled (c ∷ text) = if c == b'"' then b'"' ∷ b'"' ∷ doubled text else c ∷ doubled text

unfoldable pub cell_text : Cell → Bytes
unfolding doubled
cell_text cell = if cell.quote then b'"' ∷ (doubled cell.text ++ b'"' ∷ []) else cell.text

unfoldable pub others_text : List Cell → Bytes
others_text [] = []
others_text (cell ∷ cells) = b',' ∷ (cell_text cell ++ others_text cells)

abbrev pub line_end : Bool → Bytes
line_end carriage_return = if carriage_return then b'\r' ∷ b'\n' ∷ [] else b'\n' ∷ []

unfoldable pub line_text : Line → Bytes
line_text line = cell_text line.first ++ (others_text line.others ++ line_end line.carriage_return)

unfoldable pub document : List Line → Bytes
document [] = []
document (line ∷ lines) = line_text line ++ document lines

abbrev pub row_of : Line → List Bytes
row_of line = line.first.text ∷ map (λ cell. cell.text) line.others

-- An unquoted cell has no quote, comma or line end in it.
abbrev pub Plain : Bytes → Type 0
Plain [] = Unit
Plain (c ∷ text) = ((c ≢ b'"') × (c ≢ b',') × (c ≢ b'\r') × (c ≢ b'\n')) × Plain text

module _ (limits : Limits) where
  abbrev pub CellFits : Cell → Type 0
  CellFits cell =
      (length cell.text ≤ limits.max_field_bytes) × ((cell.quote ≡ true) ⊎ Plain cell.text)

  abbrev pub CellsFit : List Cell → Type 0
  CellsFit [] = Unit
  CellsFit (cell ∷ cells) = CellFits cell × CellsFit cells

  -- A line of one unquoted empty cell would be a blank line, which the reader skips.
  abbrev pub LineFits : Line → Type 0
  LineFits line =
      CellFits line.first
      × CellsFit line.others
      × (length line.others + 1 ≤ limits.max_columns)
      × ((0 < length line.others) ⊎ ((line.first.quote ≡ true) ⊎ (0 < length line.first.text)))

  abbrev pub LinesFit : List Line → Type 0
  LinesFit [] = Unit
  LinesFit (line ∷ lines) = LineFits line × LinesFit lines
