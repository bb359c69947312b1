-- ===== src/Csv/RoundTrip.antt =====
-- The reader of context_import_csv.cpp on the text of a document: it returns the document's rows.
use mathlib.Core.List.{append_assoc, append-nil}
use ctm.Prelude.{
  ◌+◌, ◌≤◌, ◌<◌, ◌≡◌, ◌⊎◌, inl, inr, refl, sym, ap, ◌∙◌, Bool, true, false, List, [], ◌∷◌, ◌++◌,
  Bytes, arith, length, length-append, map, ok,
}
use ctm.Csv.{
  Limits, Reader, check_field, is_blank, finish_row, end_line, step_after_quote, step_plain, step,
  loop, last_row, finish, parse_csv,
}
use ctm.Csv.Format.{
  Cell, Line, cell_text, others_text, line_end, line_text, document, row_of, CellFits, CellsFit,
  LineFits, LinesFit,
}
use ctm.Csv.Cells.{inside, loop-step, seen, Ends, loop-cell, comma}

-- Between two lines; `skip` is set after a carriage return that a line feed follows.
abbrev between : List (List Bytes) → Bool → Reader
between rows skip = record {
  rows = rows;
  row = [];
  field = [];
  quoted = false;
  after_quote = false;
  saw_character = false;
  skip = skip;
}

-- A finished row is not blank when it has several fields or a character was seen.
not-blank :
    (limits : Limits) (row : List Bytes) (text : Bytes) (saw : Bool)
    → (0 < length row) ⊎ (saw ≡ true)
    → is_blank limits (row ++ text ∷ []) saw ≡ false
unfolding is_blank
not-blank limits [] text saw h = ground (arith, h)
not-blank limits (field ∷ []) text saw h = refl
not-blank limits (field ∷ g ∷ row) text saw h = refl

module _ (limits : Limits) (rows : List (List Bytes)) where
  module _ (row : List Bytes) (cell : Cell) (saw : Bool) (fits : CellFits limits cell)
      (few : length row + 1 ≤ limits.max_columns) (seen_some : (0 < length row) ⊎ (saw ≡ true))
      (few_rows : length rows ≤ limits.max_records_per_artifact) where
    more : List (List Bytes)
    more = rows ++ (row ++ cell.text ∷ []) ∷ []

    finish-line :
        (skip : Bool)
        → finish_row limits (record (inside rows row cell.text false false saw) { skip = skip })
          ≡ ok (between more skip)
    unfolding finish_row check_field more
    finish-line skip = ground (
      arith,
      fits.0,
      few,
      few_rows,
      not-blank limits row cell.text saw seen_some,
      length-append row (cell.text ∷ []),
      length-append rows ((row ++ cell.text ∷ []) ∷ []),
    )

    line_feed :
        (rest : Bytes)
        → step limits (inside rows row cell.text false cell.quote saw) b'\n' rest
          ≡ ok (between more false)
    unfolding step step_plain step_after_quote end_line
    line_feed rest = ground (arith, finish-line false)

    carriage_return :
        (rest : Bytes)
        → step limits (inside rows row cell.text false cell.quote saw) b'\r' (b'\n' ∷ rest)
          ≡ ok (between more true)
    unfolding step step_plain step_after_quote end_line
    carriage_return rest = ground (arith, finish-line true)

    skipped : (rest : Bytes) → step limits (between more true) b'\n' rest ≡ ok (between more false)
    unfolding step
    skipped rest = refl

    loop-line_end :
        (cr : Bool) (rest : Bytes)
        → loop limits (inside rows row cell.text false cell.quote saw) (line_end cr ++ rest)
          ≡ loop limits (between more false) rest
    loop-line_end false rest =
        loop-step limits rows (inside rows row cell.text false cell.quote saw) (between more false)
          b'\n' rest (line_feed rest)
    loop-line_end true rest =
        loop-step limits rows (inside rows row cell.text false cell.quote saw) (between more true)
          b'\r' (b'\n' ∷ rest) (carriage_return rest)
        ∙ loop-step limits rows (between more true) (between more false) b'\n' rest (skipped rest)

  others-Ends :
      (cells : List Cell) (cr : Bool) (rest : Bytes)
      → Ends limits rows (others_text cells ++ (line_end cr ++ rest))
  unfolding others_text
  others-Ends [] true rest = refl
  others-Ends [] false rest = refl
  others-Ends (cell ∷ cells) cr rest = refl

  -- What the cells after the present one, and the line end, add to the rows.
  loop-others :
      (cells : List Cell) (row : List Bytes) (cell : Cell) (saw : Bool) (cr : Bool) (rest : Bytes)
      → CellFits limits cell
      → CellsFit limits cells
      → length row + (length cells + 1) ≤ limits.max_columns
      → (0 < length row + length cells) ⊎ (saw ≡ true)
      → length rows ≤ limits.max_records_per_artifact
      → loop limits
          (inside rows row cell.text false cell.quote saw)
          (others_text cells ++ (line_end cr ++ rest))
        ≡ loop limits
            (between (rows ++ (row ++ cell.text ∷ map (λ cell. cell.text) cells) ∷ []) false)
            rest
  unfolding others_text more
  loop-others [] row cell saw cr rest fits all few some_seen few_rows =
      loop-line_end row cell saw fits (omega (arith, few))
        (elim some_seen [ inl h ↦ inl (omega (arith, h)) | inr h ↦ inr h ]) few_rows cr rest
  loop-others (next ∷ cells) row cell saw cr rest fits all few some_seen few_rows =
      let row' = row ++ cell.text ∷ [] in
      let tail = others_text cells ++ (line_end cr ++ rest) in
      let long = length-append row (cell.text ∷ []) in
      loop-step limits rows (inside rows row cell.text false cell.quote saw)
        (inside rows row' [] false false saw) b','
        ((cell_text next ++ others_text cells) ++ (line_end cr ++ rest))
        (comma limits rows row cell ((cell_text next ++ others_text cells) ++ (line_end cr ++ rest))
          saw fits (omega (arith, few)))
      ∙ ap (loop limits (inside rows row' [] false false saw))
          (append_assoc (cell_text next) (others_text cells) (line_end cr ++ rest))
      ∙ loop-cell limits rows row' next tail saw all.0 (others-Ends cells cr rest)
      ∙ loop-others cells row' next (seen limits rows next saw) cr rest all.0 all.1
          (omega (arith, few, long)) (inl (omega (arith, long))) few_rows
      ∙ ap (λ r. loop limits (between (rows ++ r ∷ []) false) rest)
          (append_assoc row (cell.text ∷ []) (map (λ cell. cell.text) (next ∷ cells)))

  first-seen :
      (line : Line)
      → LineFits limits line
      → (0 < 0 + length line.others) ⊎ (seen limits rows line.first false ≡ true)
  first-seen line fits = elim fits.3 [
    | inl several ↦ inl (omega (arith, several))
    | inr (inl quoted) ↦ inr (rw quoted refl)
    | inr (inr some) ↦ inr (ground (arith, some))
  ]

  loop-line :
      (line : Line) (rest : Bytes)
      → LineFits limits line
      → length rows ≤ limits.max_records_per_artifact
      → loop limits (between rows false) (line_text line ++ rest)
        ≡ loop limits (between (rows ++ row_of line ∷ []) false) rest
  unfolding line_text
  loop-line line rest fits few_rows =
      let cr = line_end line.carriage_return in
      ap (loop limits (between rows false)) (
        append_assoc (cell_text line.first) (others_text line.others ++ cr) rest
        ∙ ap (λ t. cell_text line.first ++ t) (append_assoc (others_text line.others) cr rest))
      ∙ loop-cell limits rows [] line.first (others_text line.others ++ (cr ++ rest)) false fits.0
          (others-Ends line.others line.carriage_return rest)
      ∙ loop-others line.others [] line.first (seen limits rows line.first false)
          line.carriage_return rest fits.0 fits.1 (omega (arith, fits.2)) (first-seen line fits)
          few_rows

module _ (limits : Limits) where
  loop-document :
      (lines : List Line) (rows : List (List Bytes))
      → LinesFit limits lines
      → length rows + length lines ≤ limits.max_records_per_artifact + 1
      → loop limits (between rows false) (document lines)
        ≡ ok (between (rows ++ map row_of lines) false)
  unfolding document loop
  loop-document [] rows fits few = ap (λ r. ok (between r false)) (sym (append-nil rows))
  loop-document (line ∷ lines) rows fits few =
      loop-line limits rows line (document lines) fits.0 (omega (arith, few))
      ∙ loop-document lines (rows ++ row_of line ∷ []) fits.1
          (omega (arith, few, length-append rows (row_of line ∷ [])))
      ∙ ap (λ r. ok (between r false)) (append_assoc rows (row_of line ∷ []) (map row_of lines))

  -- The text of a document of at least one line, and at most one more than the record limit, whose
  -- cells and lines are within the limits, is read as the document's rows: quotes, doubled quotes,
  -- commas and line ends inside rows quotes, and both kinds of line ends are understood.
  pub parse_csv-document :
      (lines : List Line)
      → LinesFit limits lines
      → 0 < length lines
      → length lines ≤ limits.max_records_per_artifact + 1
      → parse_csv limits (document lines) ≡ ok (map row_of lines)
  unfolding parse_csv finish last_row
  parse_csv-document [] fits some few = absurd (omega (arith, some))
  parse_csv-document (line ∷ lines) fits some few =
      rw (loop-document (line ∷ lines) [] fits (omega (arith, few))) refl
