-- ===== src/Csv/Columns.antt =====
-- How `header_map` and `cell` of context_import_csv.cpp fit together.

use ctm.Prelude.{
  ℕ, zero, suc, ◌+◌, ◌≡◌, refl, ap, ◌∙◌, inl, inr, Bool, List, [], ◌∷◌, ◌++◌, Bytes, Bytes-discrete,
  none, some, arith, Option-cases, length, get_elem?, find, ok, if_pos, subst,
}
use ctm.Csv.{Limits}
use ctm.Csv.Table.{
  trim, Headers, add_headers, header_map, check_cell, cell, check_widths, check_row_width,
}

find-snoc_old :
    (key name : Bytes) (i j : ℕ) (headers : Headers)
    → find Bytes-discrete key headers ≡ some i
    → find Bytes-discrete key (headers ++ (name, j) ∷ []) ≡ some i
unfolding find
find-snoc_old key name i j [] h = absurd (ground arith)
find-snoc_old key name i j ((k, v) ∷ headers) h = ground (arith, find-snoc_old key name i j headers)

find-snoc_new :
    (key : Bytes) (j : ℕ) (headers : Headers)
    → find Bytes-discrete key headers ≡ none
    → find Bytes-discrete key (headers ++ (key, j) ∷ []) ≡ some j
unfolding find
find-snoc_new key j [] h = if_pos (Bytes-discrete key key) refl _ _
find-snoc_new key j ((k, v) ∷ headers) h = ground (arith, find-snoc_new key j headers)

module _ (limits : Limits) where
  add_headers-old :
      (row : List Bytes) (index : ℕ) (headers after : Headers) (key : Bytes) (i : ℕ)
      → find Bytes-discrete key headers ≡ some i
      → add_headers limits row index headers ≡ ok after
      → find Bytes-discrete key after ≡ some i
  unfolding add_headers
  add_headers-old [] index headers after key i found h = ground (arith, found)
  add_headers-old (field ∷ row) index headers after key i found h =
      add_headers-old row (suc index) (headers ++ (trim field, index) ∷ []) after key i
        (find-snoc_old key (trim field) i index headers found) (ground arith)

  -- A header that is added was not there.
  fresh :
      (f : Bytes) (row : List Bytes) (index : ℕ) (headers after : Headers)
      → add_headers limits (f ∷ row) index headers ≡ ok after
      → find Bytes-discrete (trim f) headers ≡ none
  unfolding add_headers
  fresh f row index headers after h = elim (Option-cases (find Bytes-discrete (trim f) headers)) [
    | inl new ↦ new
    | inr (i, old) ↦ absurd (ground (arith, old))
  ]

  add_headers-new :
      (row : List Bytes) (index : ℕ) (headers after : Headers) (i : ℕ) (field : Bytes)
      → add_headers limits row index headers ≡ ok after
      → get_elem? row i ≡ some field
      → find Bytes-discrete (trim field) after ≡ some (index + i)
  unfolding add_headers
  add_headers-new [] index headers after i field h at = absurd (ground arith)
  add_headers-new (f ∷ row) index headers after zero field h at =
      let same : f ≡ field = ground arith in
      let new = find-snoc_new (trim f) index headers (fresh f row index headers after h) in
      subst (λ g. find Bytes-discrete (trim g) after ≡ some (index + 0)) same
        (add_headers-old row (suc index) (headers ++ (trim f, index) ∷ []) after (trim f) index new
            (ground arith)
          ∙ ap some (omega arith))
  add_headers-new (f ∷ row) index headers after (suc i) field h at =
      add_headers-new row (suc index) (headers ++ (trim f, index) ∷ []) after i field (ground arith)
        at
      ∙ ap some (omega arith)

  width_at :
      (width : ℕ) (others : List (List Bytes)) (r : ℕ) (row : List Bytes)
      → check_widths limits width others ≡ ok tt
      → get_elem? others r ≡ some row
      → length row ≡ width
  unfolding check_widths
  width_at width [] r row h at = absurd (ground arith)
  width_at width (x ∷ others) zero row h at = ground arith
  width_at width (x ∷ others) (suc r) row h at = width_at width others r row (ground arith) at

  same_length :
      (first row : List Bytes) (i : ℕ) (name : Bytes)
      → length row ≡ length first
      → get_elem? first i ≡ some name
      → (value : Bytes) × (get_elem? row i ≡ some value)
  same_length [] row i name h at = absurd (ground arith)
  same_length (f ∷ first) [] i name h at = absurd (omega (arith, h))
  same_length (f ∷ first) (v ∷ row) zero name h at = (v, refl)
  same_length (f ∷ first) (v ∷ row) (suc i) name h at =
      same_length first row i name (omega (arith, h)) at

  -- In a table whose headers and widths were accepted, `cell` finds the field of every row under
  -- every column by the trimmed name of its header, and only the checks of the field itself can refuse it:
  -- no column is missing or shadowed, and no row is short.
  pub cell-column :
      (first : List Bytes) (others : List (List Bytes)) (headers : Headers) (r i : ℕ)
      (row : List Bytes) (name : Bytes) (required : Bool)
      → header_map limits first ≡ ok headers
      → check_row_width limits first others ≡ ok tt
      → get_elem? others r ≡ some row
      → get_elem? first i ≡ some name
      → (value : Bytes) × (get_elem? row i ≡ some value)
        × (cell limits row headers (trim name) required ≡ check_cell limits value required)
  unfolding header_map check_row_width cell
  cell-column first others headers r i row name required h widths here at =
      let wide = width_at (length first) others r row (ground arith) here in
      let (value, found) = same_length first row i name wide at in
      let known : find Bytes-discrete (trim name) headers ≡ some i =
        add_headers-new first 0 [] headers i name h at ∙ ap some (omega arith) in
      (value, found, ground (arith, known, found))
