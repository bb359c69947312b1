-- ===== src/Csv/Bounds.antt =====
-- The limits that the reader of context_import_csv.cpp keeps.
use ctm.Prelude.{
  ℕ, ◌+◌, ◌≤◌, ◌<◌, ◌≡◌, ap, inl, inr, false, ◌&&◌, List, [], ◌∷◌, ◌++◌, Bytes, arith, ◌==◌, length,
  length-append, subst, Result-cases, ok,
}
use ctm.Csv.{
  Limits, Reader, start, is_empty, next_is, check_field, is_blank, finish_row, end_field, end_line,
  push, step_quoted, step_after_quote, step_plain, step, loop, last_row, finish, parse_csv,
}

module _ (limits : Limits) where
  abbrev FieldsFit : List Bytes → Type 0
  FieldsFit [] = Unit
  FieldsFit (field ∷ row) = (length field ≤ limits.max_field_bytes) × FieldsFit row

  -- A row has a field, no more fields than columns are allowed, and none that is too large.
  abbrev pub RowFits : List Bytes → Type 0
  RowFits row = FieldsFit row × (0 < length row) × (length row ≤ limits.max_columns)

  abbrev pub RowsFit : List (List Bytes) → Type 0
  RowsFit [] = Unit
  RowsFit (row ∷ rows) = RowFits row × RowsFit rows

  FieldsFit-append :
      (row : List Bytes) (field : Bytes)
      → FieldsFit row
      → length field ≤ limits.max_field_bytes
      → FieldsFit (row ++ field ∷ [])
  FieldsFit-append [] field h k = (k, tt)
  FieldsFit-append (f ∷ row) field h k = (h.0, FieldsFit-append row field h.1 k)

  RowsFit-append :
      (rows : List (List Bytes)) (row : List Bytes)
      → RowsFit rows
      → RowFits row
      → RowsFit (rows ++ row ∷ [])
  RowsFit-append [] row h k = (k, tt)
  RowsFit-append (r ∷ rows) row h k = (h.0, RowsFit-append rows row h.1 k)

  record Bounded (s : Reader) : Type 0 where
    rows_fit : RowsFit s.rows
    row_fits : FieldsFit s.row
    few_rows : length s.rows ≤ limits.max_records_per_artifact + 1

  finish_row-Bounded : (s s' : Reader) → Bounded s → finish_row limits s ≡ ok s' → Bounded s'
  unfolding finish_row check_field is_blank
  finish_row-Bounded s s' b h = ground (
    arith,
    b,
    length-append s.rows ((s.row ++ s.field ∷ []) ∷ []),
    length-append s.row (s.field ∷ []),
    FieldsFit-append s.row s.field b.row_fits,
    RowsFit-append s.rows (s.row ++ s.field ∷ []) b.rows_fit,
  )

  end_field-Bounded : (s s' : Reader) → Bounded s → end_field limits s ≡ ok s' → Bounded s'
  unfolding end_field check_field
  end_field-Bounded s s' b h = ground (arith, b, FieldsFit-append s.row s.field b.row_fits)

  end_line-Bounded :
      (s s' : Reader) (c : ℕ) (rest : Bytes)
      → Bounded s
      → end_line limits s c rest ≡ ok s'
      → Bounded s'
  unfolding end_line
  end_line-Bounded s s' c rest b h =
      finish_row-Bounded (record s { after_quote = false; skip = c == b'\r' && next_is b'\n' rest })
        s' (record { rows_fit = b.rows_fit; row_fits = b.row_fits; few_rows = b.few_rows }) h

  push-Bounded : (s s' : Reader) (c : ℕ) → Bounded s → push limits s c ≡ ok s' → Bounded s'
  unfolding push check_field
  push-Bounded s s' c b h = ground (arith, b)

  step_quoted-Bounded :
      (s s' : Reader) (c : ℕ) (rest : Bytes)
      → Bounded s
      → step_quoted limits s c rest ≡ ok s'
      → Bounded s'
  unfolding step_quoted
  step_quoted-Bounded s s' c rest b h = ground (arith, b, push-Bounded s s' c b)

  step_after_quote-Bounded :
      (s s' : Reader) (c : ℕ) (rest : Bytes)
      → Bounded s
      → step_after_quote limits s c rest ≡ ok s'
      → Bounded s'
  unfolding step_after_quote
  step_after_quote-Bounded s s' c rest b h =
      ground (arith, b, end_field-Bounded s s' b, end_line-Bounded s s' c rest b)

  step_plain-Bounded :
      (s s' : Reader) (c : ℕ) (rest : Bytes)
      → Bounded s
      → step_plain limits s c rest ≡ ok s'
      → Bounded s'
  unfolding step_plain
  step_plain-Bounded s s' c rest b h =
      ground
        (arith, b, end_field-Bounded s s' b, end_line-Bounded s s' c rest b, push-Bounded s s' c b)

  step-Bounded :
      (s s' : Reader) (c : ℕ) (rest : Bytes) → Bounded s → step limits s c rest ≡ ok s' → Bounded s'
  unfolding step
  step-Bounded s s' c rest b h = ground (
    arith,
    b,
    step_quoted-Bounded s s' c rest b,
    step_after_quote-Bounded s s' c rest b,
    step_plain-Bounded s s' c rest b,
  )

  loop-Bounded :
      (contents : Bytes) (s s' : Reader) → Bounded s → loop limits s contents ≡ ok s' → Bounded s'
  unfolding loop
  loop-Bounded [] s s' b h = subst Bounded (ground arith) b
  loop-Bounded (c ∷ rest) s s' b h = elim (Result-cases (step limits s c rest)) [
    | inl (e, failed) ↦ absurd (ground arith)
    | inr (next, went) ↦
        loop-Bounded rest next s' (step-Bounded s next c rest b went) (rw (went, loop) at h)
  ]

  last_row-Bounded : (s s' : Reader) → Bounded s → last_row limits s ≡ ok s' → Bounded s'
  unfolding last_row
  last_row-Bounded s s' b h = ground (arith, b, finish_row-Bounded s s' b)

  length-pos : (rows : List (List Bytes)) → is_empty rows ≡ false → 0 < length rows
  length-pos [] h = absurd (ground arith)
  length-pos (row ∷ rows) h = omega arith

  finish-Bounded :
      (s : Reader) (rows : List (List Bytes))
      → Bounded s
      → finish limits s ≡ ok rows
      → RowsFit rows × (length rows ≤ limits.max_records_per_artifact + 1) × (0 < length rows)
  unfolding finish
  finish-Bounded s rows b h = elim (Result-cases (last_row limits s)) [
    | inl (e, failed) ↦ absurd (ground (arith, failed))
    | inr (s', done) ↦
        let same : (s'.rows ≡ rows) × (is_empty rows ≡ false) = ground (arith, done) in
        let b' = last_row-Bounded s s' b done in
        (
          subst RowsFit same.0 b'.rows_fit,
          omega (arith, b'.few_rows, ap length same.0),
          length-pos rows same.1,
        )
  ]

  -- What the reader accepts has a row, no more rows and columns than the limits allow, and no field
  -- that is too large.
  pub parse_csv-bounds :
      (contents : Bytes) (rows : List (List Bytes))
      → parse_csv limits contents ≡ ok rows
      → RowsFit rows × (length rows ≤ limits.max_records_per_artifact + 1) × (0 < length rows)
  unfolding parse_csv
  parse_csv-bounds contents rows h = elim (Result-cases (loop limits start contents)) [
    | inl (e, failed) ↦ absurd (ground arith)
    | inr (s, read) ↦
        finish-Bounded s rows
          (loop-Bounded contents start s
            (record { rows_fit = tt; row_fits = tt; few_rows = omega arith }) read)
          (ground arith)
  ]
