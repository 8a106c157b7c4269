-- ===== src/Tests/Grid.antt =====
-- A grid of two columns.
use nebula_core.Prelude.{ℕ, ◌≤◌, ◌≡◌, refl, true, some, List, [], ◌∷◌, map, get_elem?, pos, arith}
use nebula_core.Text.{Text, codes, text_eq, to_lower, trim_space, trim_left, trim_right, is_space}
use nebula_core.Grid.{
  TableColumn, at_least, is_pinned_system_header, strict_min, slot, total, expected, fit_slots,
  separator_width, content_width, fit_grid_columns,
}
use nebula_core.Grid.Fit.{Fitted, fit_slots_lem}
use nebula_core.Grid.Pinned.{narrowed, fit_grid_columns-pinned}

-- Every text is drawn four cells wide.
abbrev four : Text → ℕ
four t = 4

abbrev name_column : TableColumn
name_column = record { header = codes "Name"; width = pos 40 }

abbrev at_column : TableColumn
at_column = record { header = codes " At"; width = pos 19 }

abbrev two_columns : List TableColumn
two_columns = name_column ∷ at_column ∷ []

fit_slots_lem_example :
    Fitted
      (separator_width four (codes "|"))
      (content_width (pos 50) two_columns)
      (map (slot four) two_columns)
      (fit_slots
        (separator_width four (codes "|"))
        (content_width (pos 50) two_columns)
        (map (slot four) two_columns))
fit_slots_lem_example = fit_slots_lem four name_column (at_column ∷ []) (codes "|") (pos 50)

at_pinned : is_pinned_system_header at_column.header ≡ true
unfolding is_pinned_system_header to_lower trim_space trim_left trim_right is_space text_eq
at_pinned = refl

has_room :
    expected (separator_width four (codes "|")) (narrowed (map (slot four) two_columns))
    ≤ content_width (pos 50) two_columns
unfolding expected total slot strict_min at_least is_pinned_system_header to_lower trim_space
    trim_left trim_right is_space text_eq
has_room = omega arith

fit_grid_columns-pinned_example :
    (w : ℕ) × (get_elem? (fit_grid_columns four two_columns (codes "|") (pos 50)) 1
      ≡ some (record at_column { width = pos w }))
    × (at_least 1 at_column.width ≤ w)
fit_grid_columns-pinned_example =
    fit_grid_columns-pinned four two_columns (codes "|") (pos 50) 1 at_column refl at_pinned
      has_room
