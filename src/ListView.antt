-- ===== src/ListView.antt =====
-- The scrollable list: cli/src/internal/ui/components/list.go, and syncMetadataList of
-- cli/src/internal/ui/metadata.go. Cursor, offset and page size are natural numbers: no code
-- writes a negative one, so the tests for a negative cursor and offset in syncMetadataList never
-- hold.
pub mod Bounds
use nebula_core.Prelude.{
  ℕ, ◌+◌, ◌-◌, Bool, Option, none, some, List, [], ◌∷◌, ℤ, pos, negsuc, if◌then◌else◌, ltb, leb,
  ◌==◌, length, take, drop, is_empty, min,
}
use nebula_core.Text.{Text}

pub record ListView : Type 0 where
  pub items : List Text
  pub cursor : ℕ
  pub offset : ℕ
  pub page_size : ℕ

unfoldable pub new_list : ℕ → ListView
new_list page_size = record { items = []; cursor = 0; offset = 0; page_size = page_size }

unfoldable pub set_items : List Text → ListView → ListView
set_items items l = record l { items = items; cursor = 0; offset = 0 }

-- `len(l.Items)-1` may be -1, so the test is written as a sum.
unfoldable pub down : ListView → ListView
down l =
    if ltb (l.cursor + 1) (length l.items)
    then record l {
      cursor = l.cursor + 1;
      offset = if leb (l.offset + l.page_size) (l.cursor + 1) then l.offset + 1 else l.offset;
    }
    else l

unfoldable pub up : ListView → ListView
up l =
    if ltb 0 l.cursor
    then record l {
      cursor = l.cursor - 1;
      offset = if ltb (l.cursor - 1) l.offset then l.offset - 1 else l.offset;
    }
    else l

-- The slice s[a:b]; none is the panic of a bound out of range.
unfoldable pub slice {ℓ} : {A : Type ℓ} → List A → ℕ → ℕ → Option (List A)
slice s a b =
    if leb a b then (if leb b (length s) then some (take (b - a) (drop a s)) else none) else none

unfoldable pub visible : ListView → Option (List Text)
unfolding slice
visible l =
    if is_empty l.items
    then some []
    else slice l.items l.offset (min (l.offset + l.page_size) (length l.items))

unfoldable pub selected : ListView → ℕ
selected l = l.cursor

unfoldable pub is_selected : ListView → ℕ → Bool
is_selected l abs_idx = abs_idx == l.cursor

unfoldable pub rel_to_abs : ListView → ℕ → ℕ
rel_to_abs l rel_idx = l.offset + rel_idx

-- At least one row.
abbrev page_of : ℤ → ℕ
page_of (pos n) = if ltb n 1 then 1 else n
page_of (negsuc n) = 1

-- The offset that the three tests of syncMetadataList leave, for a cursor in range.
abbrev sync_offset : ℕ → ℕ → ℕ → ℕ → ℕ
sync_offset count page cursor offset =
    let o = min offset (count - page) in
    let o' = if ltb cursor o then cursor else o in
    if leb (o' + page) cursor then cursor + 1 - page else o'

unfoldable pub sync_metadata_list : List Text → ℤ → ListView → ListView
sync_metadata_list fields page_size l =
    let page = page_of page_size in
    let count = length fields in
    let cursor = if leb count l.cursor then count - 1 else l.cursor in
    if is_empty fields
    then record { items = fields; cursor = 0; offset = 0; page_size = page }
    else record {
      items = fields;
      cursor = cursor;
      offset = sync_offset count page cursor l.offset;
      page_size = page;
    }
