-- ===== src/Inbox/Select.antt =====
-- The visible rows of the inbox and the selection (inbox.go: applyFilter, selectedItem,
-- selectAllFiltered, toggleSelectAll, itemAtFilteredIndex, toggleSelected, selectedIDs).
use nebula_core.Prelude.{
  ℕ, suc, Bool, true, false, ℤ, pos, negsuc, Option, none, some, List, [], ◌∷◌, map, if◌then◌else◌,
  get_elem?, length, is_empty,
}
use nebula_core.Text.{Text, text_eq}
use nebula_core.StringSet.{mem, insert, remove}
use nebula_core.Value.{Fields}
use nebula_core.Table.{TableApi}
use nebula_core.Inbox.State.{Approval, InboxModel}
use nebula_core.Inbox.Filter.{Clock, parse_approval_filter, matches_approval_filter}

-- What the inbox takes from outside: the table widget, the time, encoding/json, and the line that
-- formatApprovalLine renders, with the zero value of time.Time.
pub record Env (Table Time Duration : Type 0) : Type 0 where
  pub table_api : TableApi Text Table
  pub clock : Clock Time Duration
  pub decode : Text → Option Fields
  pub line : Approval Time → Text
  pub zero_time : Time

-- The indices, from `i` on, of the items that satisfy `p`.
unfoldable pub matching {ℓ} : {A : Type ℓ} → (A → Bool) → ℕ → List A → List ℕ
matching p i [] = []
matching p i (a ∷ rest) = let later = matching p (suc i) rest in if p a then i ∷ later else later

-- The item of an index, none out of range.
abbrev item_at {ℓ} : {A : Type ℓ} → List A → ℤ → Option A
item_at xs (pos i) = get_elem? xs i
item_at xs (negsuc i) = none

module _ {Table Time Duration : Type 0} (env : Env Table Time Duration) where
  -- A row of the table, empty where the index is out of range.
  row_of : List (Approval Time) → ℕ → Text
  row_of items i = elim (get_elem? items i) [ none ↦ [] | some a ↦ env.line a ]

  unfoldable pub apply_filter : Bool → InboxModel Table Time → InboxModel Table Time
  unfolding row_of
  apply_filter reset_selection m =
      let filter = parse_approval_filter env.clock m.filter_buf in
      let filtered =
        matching (λ a. matches_approval_filter env.clock env.line a filter) 0 m.items in
      let table = env.table_api.set_rows (map (row_of m.items) filtered) m.data_table in
      record m {
        selected = if reset_selection then [] else m.selected;
        filtered = filtered;
        data_table = env.table_api.set_cursor (pos 0) table;
      }

module _ {Time : Type 0} where
  -- The loop of `selectAllFiltered` over the filtered indices.
  unfoldable pub select_each : List (Approval Time) → List ℕ → List Text → List Text
  select_each items [] selected = selected
  select_each items (i ∷ is) selected =
      select_each items is
        (elim (get_elem? items i) [ none ↦ selected | some a ↦ insert a.id selected ])

  -- The loop of `toggleSelectAll`.
  unfoldable pub all_selected : List (Approval Time) → List ℕ → List Text → Bool
  all_selected items [] selected = true
  all_selected items (i ∷ is) selected =
      let rest = all_selected items is selected in
      elim (get_elem? items i) [ none ↦ rest | some a ↦ if mem a.id selected then rest else false ]

  -- The loop of `selectedIDs`.
  unfoldable pub ids_in : List Text → List (Approval Time) → List Text
  ids_in selected [] = []
  ids_in selected (item ∷ items) =
      let rest = ids_in selected items in if mem item.id selected then item.id ∷ rest else rest

  -- The loop of `findApprovalByID`.
  unfoldable pub find_approval_by_id : Text → List (Approval Time) → Option (Approval Time)
  find_approval_by_id id [] = none
  find_approval_by_id id (item ∷ items) =
      if text_eq item.id id then some item else find_approval_by_id id items

module _ {Table Time : Type 0} where
  unfoldable pub item_at_filtered_index : ℤ → InboxModel Table Time → Option (Approval Time)
  item_at_filtered_index idx m = elim (item_at m.filtered idx) [
    | none ↦ none
    | some i ↦ get_elem? m.items i
  ]

  unfoldable pub selected_item :
      TableApi Text Table → InboxModel Table Time → Option (Approval Time)
  unfolding item_at_filtered_index
  selected_item api m = item_at_filtered_index (api.cursor m.data_table) m

  unfoldable pub select_all_filtered : InboxModel Table Time → InboxModel Table Time
  unfolding select_each
  select_all_filtered m = record m { selected = select_each m.items m.filtered m.selected }

  unfoldable pub toggle_select_all : InboxModel Table Time → InboxModel Table Time
  unfolding all_selected
  toggle_select_all m =
      if is_empty m.filtered
      then m
      else if all_selected m.items m.filtered m.selected
      then record m { selected = [] }
      else select_all_filtered m

  unfoldable pub toggle_selected :
      TableApi Text Table → InboxModel Table Time → InboxModel Table Time
  toggle_selected api m = elim (selected_item api m) [
    | none ↦ m
    | some item ↦
        if mem item.id m.selected
        then record m { selected = remove item.id m.selected }
        else record m { selected = insert item.id m.selected }
  ]

  unfoldable pub selected_ids : InboxModel Table Time → List Text
  unfolding ids_in
  selected_ids m = if is_empty m.selected then [] else ids_in m.selected m.items

  unfoldable pub selected_count : InboxModel Table Time → ℕ
  unfolding selected_ids
  selected_count m = length (selected_ids m)
