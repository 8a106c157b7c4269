-- ===== src/Tests/Diff.antt =====
-- Runs of the diffs.
use nebula_core.Prelude.{◌≡◌, refl, All, List, [], ◌∷◌, pos, map, none, arith}
use nebula_core.Text.{Text, codes, has_prefix, contains, cut, is_space}
use nebula_core.StringSet.{Distinct, mem}
use nebula_core.Diff.{
  parse_hunk_header, parse_unified_diff, split_n, scan_parts, scan_part, scan_int, read_digits,
  is_hunk, TextMap, get, build_field_diff, DiffRow, clean_row, diff_rows_to_lines,
}
use nebula_core.Diff.Numbering.{
  old_side, new_side, number_from, side_texts, IsBodyLine, IsSigned, print_line,
  print-parse_unified_diff,
}
use nebula_core.Diff.Headers.{hunk_header, parse_unified_diff-hunk_header}
use nebula_core.Text.Decimal.{decimal}
use nebula_core.Diff.Fields.{side_rows, row_lines, build_field_diff-sides, diff_rows_to_lines_rows}

abbrev header : Text
header = codes "@@ -3,2 +4,2 @@"

abbrev body : List Text
body = codes " same" ∷ codes "-old" ∷ codes "+new" ∷ []

reads_header : parse_hunk_header header ≡ (pos 3, pos 4)
unfolding parse_hunk_header split_n scan_parts scan_part scan_int read_digits cut contains
    has_prefix is_space
reads_header = refl

-- Without a comma, the start of a hunk is not read.
misses_short_header : parse_hunk_header (codes "@@ -5 +6 @@") ≡ (pos 1, pos 1)
unfolding parse_hunk_header split_n scan_parts scan_part scan_int read_digits cut contains
    has_prefix is_space
misses_short_header = refl

-- The header of the format is the one above.
prints_header : hunk_header (3, 2) (4, 2) none ≡ header
unfolding hunk_header decimal
prints_header = refl

body_lines : All IsBodyLine body
unfolding is_hunk has_prefix
body_lines = (refl, (refl, (refl, tt)))

lines-IsSigned : All IsSigned (header ∷ body)
unfolding is_hunk has_prefix
lines-IsSigned = (refl, (refl, (refl, (refl, tt))))

parse_unified_diff-hunk_header_example :
    (old_side (parse_unified_diff (hunk_header (3, 2) (4, 2) none ∷ body))
      ≡ number_from (pos 3) (side_texts b'+' b'-' body))
    × (new_side (parse_unified_diff (hunk_header (3, 2) (4, 2) none ∷ body))
        ≡ number_from (pos 4) (side_texts b'-' b'+' body))
parse_unified_diff-hunk_header_example =
    parse_unified_diff-hunk_header (3, 2) (4, 2) none body (omega arith) (omega arith) tt body_lines

print-parse_unified_diff_example :
    map print_line (parse_unified_diff (header ∷ body)) ≡ header ∷ body
print-parse_unified_diff_example = print-parse_unified_diff (header ∷ body) lines-IsSigned

abbrev names : List Text
names = codes "name" ∷ codes "type" ∷ []

abbrev old_values : TextMap
old_values = (codes "name", codes "a") ∷ []

abbrev new_values : TextMap
new_values = (codes "name", codes "b") ∷ (codes "type", codes "t") ∷ []

build_field_diff-sides_example :
    (old_side (build_field_diff names old_values new_values)
      ≡ side_rows (get old_values) (get new_values) 1 names)
    × (new_side (build_field_diff names old_values new_values)
        ≡ side_rows (get new_values) (get old_values) 1 names)
build_field_diff-sides_example = build_field_diff-sides names old_values new_values

abbrev one_row : List DiffRow
one_row = record { label = codes "name"; from = codes "a"; to = codes "b" } ∷ []

one_row-Distinct : Distinct (map DiffRow.label (map clean_row one_row))
unfolding mem
one_row-Distinct = (refl, tt)

diff_rows_to_lines_rows_example : diff_rows_to_lines one_row ≡ row_lines 1 (map clean_row one_row)
diff_rows_to_lines_rows_example = diff_rows_to_lines_rows one_row one_row-Distinct
