-- ===== src/Grid.antt =====
-- The widths of the columns of a grid: fitGridColumns of cli/src/internal/ui/components/tablegrid.go.
-- How wide a text is drawn (`lipgloss.Width`) is a parameter.
use nebula_core.Prelude.{
  ℕ, zero, suc, ◌+◌, ◌-◌, ◌*◌, Bool, true, false, ◌&&◌, not, Option, none, some, List, [], ◌∷◌, map,
  if◌then◌else◌, ltb, leb, length, is_empty, ℤ, pos, negsuc, ◌-ℤ◌, any,
}
use nebula_core.Text.{Text, codes, text_eq, to_lower, trim_space}
use nebula_core.Sanitize.{sanitize_one_line}
pub mod Shrink
pub mod Fit
pub mod Pinned

-- `Align`, which only the drawing reads, is left out.
pub record TableColumn : Type 0 where
  pub header : Text
  pub width : ℤ

abbrev pub table_grid_inset : ℕ
table_grid_inset = 0

abbrev pub table_grid_left_offset : ℕ
table_grid_left_offset = 2

-- The bound where the value is below it.
unfoldable pub at_least : ℕ → ℤ → ℕ
at_least bound (pos w) = if ltb w bound then bound else w
at_least bound (negsuc w) = bound

abbrev pub pinned_headers : List Text
pinned_headers =
    codes "at"
    ∷ codes "last"
    ∷ codes "created"
    ∷ codes "updated"
    ∷ codes "timestamp"
    ∷ codes "when"
    ∷ []

unfoldable pub is_pinned_system_header : Text → Bool
is_pinned_system_header header = any (text_eq (to_lower (trim_space header))) pinned_headers

-- A column of `fitted`, with its entries of minWidthLoose and minWidthStrict.
pub record Slot : Type 0 where
  pub column : TableColumn
  pub width : ℕ
  pub loose : ℕ
  pub strict : ℕ

unfoldable pub strict_min : ℕ → ℕ → Bool → ℕ
strict_min header_min w pinned =
    let compact = if leb w 12 && ltb header_min w then w else header_min in
    if pinned && ltb compact w then w else compact

unfoldable pub slot : (Text → ℕ) → TableColumn → Slot
unfolding at_least strict_min is_pinned_system_header
slot display_width c =
    let w = at_least 1 c.width in
    let header_min = at_least 2 (pos (display_width (sanitize_one_line c.header) + 1)) in
    record {
      column = c;
      width = w;
      loose = header_min;
      strict = strict_min header_min w (is_pinned_system_header c.header);
    }

unfoldable pub total : List Slot → ℕ
total [] = 0
total (s ∷ ss) = s.width + total ss

-- The loop that looks for the column with the most to spare, the first of them.
unfoldable pub best_from : (Slot → ℕ) → Option ℕ → ℕ → ℕ → List Slot → Option ℕ
best_from mins best best_spare i [] = best
best_from mins best best_spare i (s ∷ ss) =
    let more = ltb best_spare (s.width - mins s) in
    best_from mins (if more then some i else best) (if more then s.width - mins s else best_spare)
      (suc i) ss

unfoldable pub lower_at : ℕ → List Slot → List Slot
lower_at i [] = []
lower_at zero (s ∷ ss) = record s { width = s.width - 1 } ∷ ss
lower_at (suc i) (s ∷ ss) = s ∷ lower_at i ss

-- What the loop leaves of the deficit comes second.
unfoldable pub shrink_loop : (Slot → ℕ) → ℕ → List Slot → List Slot × ℕ
unfolding best_from lower_at
shrink_loop mins zero slots = (slots, 0)
shrink_loop mins (suc deficit) slots = elim (best_from mins none 0 0 slots) [
  | none ↦ (slots, suc deficit)
  | some i ↦ shrink_loop mins deficit (lower_at i slots)
]

unfoldable pub shrink_columns : (Slot → ℕ) → ℕ → List Slot → List Slot × ℕ
unfolding shrink_loop
shrink_columns mins deficit slots =
    if is_empty slots then (slots, 0) else shrink_loop mins deficit slots

-- The first of the widest columns.
unfoldable pub widest_from : ℕ → ℕ → ℕ → List Slot → ℕ
widest_from widest w i [] = widest
widest_from widest w i (s ∷ ss) =
    let wider = ltb w s.width in
    widest_from (if wider then i else widest) (if wider then s.width else w) (suc i) ss

unfoldable pub grow_at : ℕ → ℕ → List Slot → List Slot
grow_at i delta [] = []
grow_at zero delta (s ∷ ss) = record s { width = s.width + delta } ∷ ss
grow_at (suc i) delta (s ∷ ss) = s ∷ grow_at i delta ss

unfoldable pub grow_widest : ℕ → List Slot → List Slot
unfolding widest_from grow_at
grow_widest delta [] = []
grow_widest delta (s ∷ ss) = grow_at (widest_from 0 s.width 1 ss) delta (s ∷ ss)

-- The columns and the separators between them.
unfoldable pub expected : ℕ → List Slot → ℕ
unfolding total
expected sep_w slots =
    if ltb 1 (length slots) then total slots + (length slots - 1) * sep_w else total slots

unfoldable pub shrink : ℕ → List Slot → List Slot
unfolding shrink_columns
shrink deficit slots =
    let first = shrink_columns Slot.strict deficit slots in
    if ltb 0 first.1 then (shrink_columns Slot.loose first.1 first.0).0 else first.0

unfoldable pub fit_slots : ℕ → ℕ → List Slot → List Slot
unfolding expected grow_widest shrink
fit_slots sep_w content slots =
    let e = expected sep_w slots in
    if not (is_empty slots) && ltb e content
    then grow_widest (content - e) slots
    else if not (is_empty slots) && ltb content e
    then shrink (e - content) slots
    else slots

abbrev pub separator_width : (Text → ℕ) → Text → ℕ
separator_width display_width sep = at_least 1 (pos (display_width sep))

abbrev pub content_width : ℤ → List TableColumn → ℕ
content_width table_width columns =
    at_least (length columns)
      (table_width -ℤ pos table_grid_left_offset -ℤ pos (table_grid_inset * 2))

unfoldable pub fit_grid_columns : (Text → ℕ) → List TableColumn → Text → ℤ → List TableColumn
unfolding fit_slots slot
fit_grid_columns display_width columns sep table_width =
    map (λ s. record s.column { width = pos s.width })
      (fit_slots (separator_width display_width sep) (content_width table_width columns)
        (map (slot display_width) columns))
