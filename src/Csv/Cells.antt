-- ===== src/Csv/Cells.antt =====
-- The reader of context_import_csv.cpp on the text of a cell, and on the comma after it.
use mathlib.Core.List.{append_assoc, append-nil}
use ctm.Prelude.{
  ℕ, ◌+◌, ◌≤◌, ◌<◌, ◌≡◌, ◌≢◌, inl, inr, refl, sym, ap, ◌∙◌, ℕ_discrete, Bool-cases, Bool, true,
  false, not, ◌||◌, List, [], ◌∷◌, ◌++◌, Bytes, arith, length, length-append, if◌then◌else◌, ok,
}
use ctm.Csv.{
  Limits, Reader, is_empty, next_is, check_field, end_field, push, step_quoted, step_after_quote,
  step_plain, step, loop,
}
use ctm.Csv.Format.{Cell, doubled, cell_text, Plain, CellFits}

-- Inside a cell.
abbrev pub inside : List (List Bytes) → List Bytes → Bytes → Bool → Bool → Bool → Reader
inside rows row field quoted after saw = record {
  rows = rows;
  row = row;
  field = field;
  quoted = quoted;
  after_quote = after;
  saw_character = saw;
  skip = false;
}

or_false : (b : Bool) → (b || false) ≡ b
or_false true = refl
or_false false = refl

or_true : (b : Bool) → (b || true) ≡ true
or_true true = refl
or_true false = refl

doubled-quote : (c : ℕ) (text : Bytes) → c ≡ b'"' → doubled (c ∷ text) ≡ b'"' ∷ b'"' ∷ doubled text
unfolding doubled
doubled-quote c text e = ground (arith, e)

doubled-other : (c : ℕ) (text : Bytes) → c ≢ b'"' → doubled (c ∷ text) ≡ c ∷ doubled text
unfolding doubled
doubled-other c text e = ground (arith, e)

module _ (limits : Limits) (rows : List (List Bytes)) where
  snoc_assoc : (f : Bytes) (c : ℕ) (t : Bytes) → (f ++ c ∷ []) ++ t ≡ f ++ c ∷ t
  snoc_assoc f c t = append_assoc f (c ∷ []) t

  pub loop-step :
      (s s' : Reader) (c : ℕ) (rest : Bytes)
      → step limits s c rest ≡ ok s'
      → loop limits s (c ∷ rest) ≡ loop limits s' rest
  unfolding loop
  loop-step s s' c rest h = rw (h, loop) refl

  -- A doubled quote inside rows quotes.
  quote-quote :
      (row : List Bytes) (field rest : Bytes)
      → loop limits (inside rows row field true false true) (b'"' ∷ b'"' ∷ rest)
        ≡ loop limits (inside rows row (field ++ b'"' ∷ []) true false true) rest
  unfolding loop step step_quoted
  quote-quote row field rest = refl

  push-quoted :
      (row : List Bytes) (field rest : Bytes) (c : ℕ)
      → length field < limits.max_field_bytes
      → c ≢ b'"'
      → step limits (inside rows row field true false true) c rest
        ≡ ok (inside rows row (field ++ c ∷ []) true false true)
  unfolding step step_quoted push check_field
  push-quoted row field rest c fits other =
      ground (arith, fits, other, length-append field (c ∷ []))

  push-plain :
      (row : List Bytes) (field rest : Bytes) (c : ℕ) (saw : Bool)
      → length field < limits.max_field_bytes
      → (c ≢ b'"') × (c ≢ b',') × (c ≢ b'\r') × (c ≢ b'\n')
      → step limits (inside rows row field false false saw) c rest
        ≡ ok (inside rows row (field ++ c ∷ []) false false true)
  unfolding step step_plain push check_field
  push-plain row field rest c saw fits other =
      ground (arith, fits, other, length-append field (c ∷ []))

  close-quote :
      (row : List Bytes) (field rest : Bytes)
      → next_is b'"' rest ≡ false
      → step limits (inside rows row field true false true) b'"' rest
        ≡ ok (inside rows row field false true true)
  unfolding step step_quoted
  close-quote row field rest last = rw last refl

  loop-doubled :
      (row : List Bytes) (field text rest : Bytes)
      → length field + length text ≤ limits.max_field_bytes
      → next_is b'"' rest ≡ false
      → loop limits (inside rows row field true false true) (doubled text ++ b'"' ∷ rest)
        ≡ loop limits (inside rows row (field ++ text) false true true) rest
  unfolding doubled
  loop-doubled row field [] rest fits last =
      loop-step (inside rows row field true false true) (inside rows row field false true true) b'"'
        rest (close-quote row field rest last)
      ∙ ap (λ f. loop limits (inside rows row f false true true) rest) (sym (append-nil field))
  loop-doubled row field (c ∷ text) rest fits last =
      let next =
        loop-doubled row (field ++ c ∷ []) text rest
          (omega (arith, fits, length-append field (c ∷ []))) last in
      let same =
        ap (λ f. loop limits (inside rows row f false true true) rest) (snoc_assoc field c text) in
      elim (ℕ_discrete c b'"') [
        | yes quote ↦
            ap (λ t. loop limits (inside rows row field true false true) (t ++ b'"' ∷ rest))
              (doubled-quote c text quote)
            ∙ quote-quote row field (doubled text ++ b'"' ∷ rest)
            ∙ ap
                (λ q.
                  loop limits (inside rows row (field ++ q ∷ []) true false true)
                    (doubled text ++ b'"' ∷ rest))
                (sym quote)
            ∙ next
            ∙ same
        | no other ↦
            ap (λ t. loop limits (inside rows row field true false true) (t ++ b'"' ∷ rest))
              (doubled-other c text other)
            ∙ loop-step (inside rows row field true false true)
                (inside rows row (field ++ c ∷ []) true false true) c (doubled text ++ b'"' ∷ rest)
                (push-quoted row field (doubled text ++ b'"' ∷ rest) c (omega (arith, fits)) other)
            ∙ next
            ∙ same
      ]

  loop-Plain :
      (row : List Bytes) (field text rest : Bytes) (saw : Bool)
      → length field + length text ≤ limits.max_field_bytes
      → Plain text
      → loop limits (inside rows row field false false saw) (text ++ rest)
        ≡ loop limits
            (inside rows row (field ++ text) false false (saw || not (is_empty text)))
            rest
  loop-Plain row field [] rest saw fits plain =
      ap (λ f. loop limits (inside rows row f false false saw) rest) (sym (append-nil field))
      ∙ ap (λ b. loop limits (inside rows row (field ++ []) false false b) rest)
          (sym (or_false saw))
  loop-Plain row field (c ∷ text) rest saw fits plain =
      loop-step (inside rows row field false false saw)
        (inside rows row (field ++ c ∷ []) false false true) c (text ++ rest)
        (push-plain row field (text ++ rest) c saw (omega arith) plain.0)
      ∙ loop-Plain row (field ++ c ∷ []) text rest true
          (omega (arith, fits, length-append field (c ∷ []))) plain.1
      ∙ ap (λ f. loop limits (inside rows row f false false true) rest) (snoc_assoc field c text)
      ∙ ap (λ b. loop limits (inside rows row (field ++ c ∷ text) false false b) rest)
          (sym (or_true saw))

  -- Whether a character has been seen after the cell.
  abbrev pub seen : Cell → Bool → Bool
  seen cell saw = if cell.quote then true else saw || not (is_empty cell.text)

  -- What may follow a cell.
  abbrev pub Ends : Bytes → Type 0
  Ends rest = next_is b'"' rest ≡ false

  open-quote :
      (row : List Bytes) (rest : Bytes) (saw : Bool)
      → step limits (inside rows row [] false false saw) b'"' rest
        ≡ ok (inside rows row [] true false true)
  unfolding step step_plain
  open-quote row rest saw = refl

  pub loop-cell :
      (row : List Bytes) (cell : Cell) (rest : Bytes) (saw : Bool)
      → CellFits limits cell
      → Ends rest
      → loop limits (inside rows row [] false false saw) (cell_text cell ++ rest)
        ≡ loop limits (inside rows row cell.text false cell.quote (seen cell saw)) rest
  unfolding cell_text
  loop-cell row cell rest saw fits ends = elim (Bool-cases cell.quote) [
    | inl quoted ↦
        rw (quoted, cell_text)
          (loop-step (inside rows row [] false false saw) (inside rows row [] true false true) b'"'
              ((doubled cell.text ++ b'"' ∷ []) ++ rest)
              (open-quote row ((doubled cell.text ++ b'"' ∷ []) ++ rest) saw)
            ∙ ap (loop limits (inside rows row [] true false true))
                (append_assoc (doubled cell.text) (b'"' ∷ []) rest)
            ∙ loop-doubled row [] cell.text rest (omega (arith, fits.0)) ends)
    | inr plain ↦
        rw (plain, cell_text)
          (loop-Plain row [] cell.text rest saw (omega (arith, fits.0))
            (elim fits.1 [ inl q ↦ absurd (ground (arith, q, plain)) | inr p ↦ p ]))
  ]

  -- The comma after a cell, and the line end after the last.
  pub comma :
      (row : List Bytes) (cell : Cell) (rest : Bytes) (saw : Bool)
      → CellFits limits cell
      → length row + 1 < limits.max_columns
      → step limits (inside rows row cell.text false cell.quote saw) b',' rest
        ≡ ok (inside rows (row ++ cell.text ∷ []) [] false false saw)
  unfolding step step_plain step_after_quote end_field check_field
  comma row cell rest saw fits few = ground (arith, few, fits.0, length-append row (cell.text ∷ []))
