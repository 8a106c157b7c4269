-- ===== src/Tests/ApprovalDiff.antt =====
-- Runs of the diff of an approval.
use nebula_core.Prelude.{◌++◌, All, List, [], ◌∷◌, pos, true}
use nebula_core.Text.{Text, codes}
use nebula_core.Value.{Fields, end, field, str, format_v}
use nebula_core.Diff.{DiffRow}
use nebula_core.ApprovalDiff.{ViewOptions, parse_view_options, approval_diff_rows}
use nebula_core.ApprovalDiff.Options.{IsOutcome, parse_view_options_lem}
use nebula_core.ApprovalDiff.Cells.{IsCleanRow, approval_diff_rows-IsClean}

abbrev values : List Text
values = codes "Changed" ∷ codes "section=meta" ∷ []

parse_view_options_lem_example : IsOutcome values (pos 40) (parse_view_options values (pos 40))
parse_view_options_lem_example = parse_view_options_lem values (pos 40)

abbrev renamed : DiffRow
renamed = record { label = codes "Name"; from = codes "a"; to = codes "b" }

abbrev focus : ViewOptions
focus = record {
  only_changed = true;
  sections = codes "core" ∷ [];
  max_lines = pos 40;
  raw_only = [];
}

abbrev three_lines : Text
three_lines = codes "a" ++ (10 ∷ codes "b" ++ (10 ∷ codes "c"))

abbrev changes : Fields
changes = field (codes "name") (str (codes "b")) end

approval_diff_rows-IsClean_example : All IsCleanRow (approval_diff_rows format_v changes (pos 40))
approval_diff_rows-IsClean_example = approval_diff_rows-IsClean format_v changes (pos 40)
