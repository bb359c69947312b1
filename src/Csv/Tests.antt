-- ===== src/Csv/Tests.antt =====
-- The theorems about context_import_csv.cpp at a concrete text, with a quoted field that has a
-- comma and a quote in it.
use ctm.Prelude.{
  some, get_elem?, find, Bytes-discrete, Bool, true, false, map, arith, ◌+◌, ◌≡◌, refl, ◌<◌, ◌≤◌,
  List, [], ◌∷◌, Bytes, codes, length, ok,
}
use ctm.Csv.{
  Limits, check_field, is_blank, finish_row, end_field, end_line, push, step_quoted,
  step_after_quote, step_plain, step, loop, last_row, finish, parse_csv,
}
use ctm.Csv.Bounds.{RowsFit, parse_csv-bounds}
use ctm.Csv.Format.{
  Cell, Line, document, line_text, others_text, cell_text, doubled, row_of, LinesFit,
}
use ctm.Csv.RoundTrip.{parse_csv-document}
use ctm.Csv.Table.{
  cell, trim, trim_start, trim_end, check_cell, header_map, add_headers, check_row_width,
  check_widths,
}
use ctm.Csv.Columns.{cell-column}

abbrev limits : Limits
limits = record {
  max_field_bytes = 8;
  max_columns = 2;
  max_records_per_artifact = 2;
  max_string_bytes = 8;
}

abbrev contents : Bytes
contents = codes "id,name\r\n7,\"a,\"\"b\"\n"

abbrev rows : List (List Bytes)
rows = (codes "id" ∷ codes "name" ∷ []) ∷ (codes "7" ∷ codes "a,\"b" ∷ []) ∷ []

parsed : parse_csv limits contents ≡ ok rows
unfolding check_field is_blank finish_row end_field end_line push step_quoted step_after_quote
    step_plain step loop last_row finish parse_csv
parsed = refl

parse_csv-bounds_example : RowsFit limits rows × (length rows ≤ 2 + 1) × (0 < length rows)
parse_csv-bounds_example = parse_csv-bounds limits contents rows parsed

abbrev written : Bool → Bytes → Cell
written quote text = record { quote = quote; text = text }

-- The same text as a document: the last cell is quoted, and the first line ends in CR LF.
abbrev lines : List Line
lines =
    record {
      first = written false (codes "id");
      others = written false (codes "name") ∷ [];
      carriage_return = true;
    }
    ∷ record {
      first = written false (codes "7");
      others = written true (codes "a,\"b") ∷ [];
      carriage_return = false;
    }
    ∷ []

document_text : document lines ≡ contents
unfolding document line_text others_text cell_text doubled
document_text = refl

lines-LinesFit : LinesFit limits lines
lines-LinesFit = ground arith

parse_csv-document_example : parse_csv limits (document lines) ≡ ok (map row_of lines)
parse_csv-document_example =
    parse_csv-document limits lines lines-LinesFit (omega arith) (omega arith)

cell-column_example :
    (value : Bytes) × (get_elem? (codes "7" ∷ codes "pump" ∷ []) 1 ≡ some value)
    × (cell limits
          (codes "7" ∷ codes "pump" ∷ [])
          ((codes "id", 0) ∷ (codes "name", 1) ∷ [])
          (trim (codes " name"))
          true
        ≡ check_cell limits value true)
unfolding header_map add_headers check_row_width check_widths trim trim_start trim_end find
    Bytes-discrete
cell-column_example =
    cell-column limits (codes "id" ∷ codes " name" ∷ []) ((codes "7" ∷ codes "pump" ∷ []) ∷ [])
      ((codes "id", 0) ∷ (codes "name", 1) ∷ []) 0 1 (codes "7" ∷ codes "pump" ∷ []) (codes " name")
      true refl refl refl refl
