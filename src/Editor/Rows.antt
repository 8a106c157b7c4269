-- ===== src/Editor/Rows.antt =====
-- The rows of the editor: their list, the selection, the entry that is saved, the clipboard.
use nebula_core.Prelude.{
  ℕ, zero, suc, Bool, false, ◌||◌, Option, none, some, List, [], ◌∷◌, ◌++◌, if◌then◌else◌, leb, ltb,
  ◌==◌, length, get_elem?, set, take, drop, is_empty, ℤ, pos,
}
use nebula_core.Text.{Text, codes, text_eq, to_lower, trim_space}
use nebula_core.Value.{Value, str, Fields, end}
use nebula_core.Metadata.{Checked, ok, err, parse_value, parse_pipe_line, set_metadata_path}
use nebula_core.Metadata.Structured.{Json}
use nebula_core.Metadata.Print.{metadata_to_input}
use nebula_core.Editor.State.{
  EditorRow, MetadataEditor, EditorEnv, no_index, index_below, error_text,
}

-- A map from indices to true.
unfoldable pub has : ℕ → List ℕ → Bool
has i [] = false
has i (j ∷ js) = i == j || has i js

unfoldable pub without : ℕ → List ℕ → List ℕ
without i [] = []
without i (j ∷ js) = let rest = without i js in if i == j then rest else j ∷ rest

-- The indices below a bound.
unfoldable pub below : ℕ → List ℕ → List ℕ
below n [] = []
below n (j ∷ js) = let rest = below n js in if ltb j n then j ∷ rest else rest

-- i, i + 1, … with as many as `n`.
unfoldable pub count_from : ℕ → ℕ → List ℕ
count_from i zero = []
count_from i (suc n) = i ∷ count_from (suc i) n

-- The cursor goes back to its row, or to the first where that row is gone.
unfoldable pub sync_table : {Table : Type 0} → EditorEnv Table → List EditorRow → Table → Table
unfolding index_below
sync_table env rows table =
    let filled = env.table_api.set_rows rows (env.set_columns table) in
    if is_empty rows
    then filled
    else elim (index_below (env.table_api.cursor table) (length rows)) [
      | some i ↦ env.table_api.set_cursor (pos i) filled
      | none ↦ env.table_api.set_cursor (pos 0) filled
    ]

unfoldable pub sync_list :
    {Table : Type 0} → EditorEnv Table → MetadataEditor Table → MetadataEditor Table
unfolding sync_table below
sync_list env m = record m {
  list = sync_table env m.rows m.list;
  selected = below (length m.rows) m.selected;
}

-- none is -1.
unfoldable pub selected_row_index :
    {Table : Type 0} → EditorEnv Table → MetadataEditor Table → Option ℕ
unfolding index_below
selected_row_index env m = index_below (env.table_api.cursor m.list) (length m.rows)

unfoldable pub toggle_selection : {Table : Type 0} → ℕ → MetadataEditor Table → MetadataEditor Table
unfolding has without
toggle_selection idx m = if leb (length m.rows) idx then m else record m {
  selected = if has idx m.selected then without idx m.selected else idx ∷ m.selected;
}

unfoldable pub toggle_select_all : {Table : Type 0} → MetadataEditor Table → MetadataEditor Table
unfolding count_from
toggle_select_all m = if is_empty m.rows then m else record m {
  selected = if length m.selected == length m.rows then [] else count_from 0 (length m.rows);
}

abbrev pub path_key : EditorRow → Text
path_key row = to_lower (trim_space row.path)

-- A row replaces the one with its key, or comes last. The loop's `seen` holds the places of the
-- keys of `cleaned`, in which no key stands twice.
unfoldable pub put_row : EditorRow → List EditorRow → List EditorRow
put_row row [] = row ∷ []
put_row row (r ∷ rows) =
    let rest = put_row row rows in
    if text_eq (path_key r) (path_key row) then row ∷ rows else r ∷ rest

-- The loop that keeps the most recent value of a path.
unfoldable pub clean_rows : List EditorRow → List EditorRow → List EditorRow
unfolding put_row
clean_rows cleaned [] = cleaned
clean_rows cleaned (row ∷ rows) = clean_rows (put_row row cleaned) rows

-- The value of a row; a value that does not parse is taken as it is.
unfoldable pub row_value : Checked Value → Text → Value
row_value (ok v) raw = v
row_value (err e) raw = str raw

-- The loop of rebuildBuffer. An error of setMetadataPath is dropped.
unfoldable pub rows_to_fields : List EditorRow → Fields → Fields
unfolding row_value set_metadata_path parse_value
rows_to_fields [] root = root
rows_to_fields (row ∷ rows) root =
    rows_to_fields rows
      (set_metadata_path root row.path (row_value (parse_value row.value 1) row.value) 1).0

unfoldable pub rebuilt_buffer : Json → List EditorRow → Text
unfolding rows_to_fields metadata_to_input
rebuilt_buffer json rows =
    if is_empty rows then [] else metadata_to_input json (rows_to_fields rows end)

-- The row under edit is replaced; without one the entry comes last.
unfoldable pub place_entry : ℤ → EditorRow → List EditorRow → List EditorRow
unfolding index_below
place_entry idx entry rows = elim (index_below idx (length rows)) [
  | some i ↦ set rows i entry
  | none ↦ rows ++ entry ∷ []
]

unfoldable pub save_entry :
    {Table : Type 0} → EditorEnv Table → EditorRow → MetadataEditor Table → MetadataEditor Table
unfolding place_entry clean_rows rebuilt_buffer sync_list
save_entry env entry m =
    let rows = clean_rows [] (place_entry m.entry_edit_idx entry m.rows) in
    sync_list env (record m {
      rows = rows;
      buffer = rebuilt_buffer env.json rows;
      entry_mode = false;
      entry_buf = [];
      entry_edit_idx = no_index;
      notice = codes "row saved.";
    })

-- commitEntry; an error leaves its text as the notice.
unfoldable pub commit_entry :
    {Table : Type 0} → EditorEnv Table → MetadataEditor Table → MetadataEditor Table
unfolding save_entry parse_pipe_line error_text
commit_entry env m = elim (parse_pipe_line m.entry_buf 1) [
  | err e ↦ record m { notice = error_text e }
  | ok parts ↦ save_entry env (record { path = trim_space parts.0; value = trim_space parts.1 }) m
]

-- append(rows[:idx], rows[idx+1:]...)
unfoldable pub remove_row :
    {Table : Type 0} → EditorEnv Table → ℕ → MetadataEditor Table → MetadataEditor Table
unfolding rebuilt_buffer sync_list
remove_row env idx m =
    let rows = take idx m.rows ++ drop (suc idx) m.rows in
    let synced =
      sync_list env
        (record m { rows = rows; buffer = rebuilt_buffer env.json rows; selected = [] }) in
    record synced { notice = codes "row removed." }

-- sort.Ints
unfoldable pub insert_index : ℕ → List ℕ → List ℕ
insert_index i [] = i ∷ []
insert_index i (j ∷ js) = let rest = insert_index i js in if leb i j then i ∷ j ∷ js else j ∷ rest

unfoldable pub sort_indices : List ℕ → List ℕ
unfolding insert_index
sort_indices [] = []
sort_indices (i ∷ is) = insert_index i (sort_indices is)

abbrev pub or_none : Text → Text
or_none value = if is_empty value then codes "None" else value

-- The values of the indices that are in range.
unfoldable pub values_at : List EditorRow → List ℕ → List Text
values_at rows [] = []
values_at rows (i ∷ is) = elim (get_elem? rows i) [
  | none ↦ values_at rows is
  | some row ↦ or_none (trim_space row.value) ∷ values_at rows is
]

-- The indices that are copied: the selected ones, or that of the cursor.
unfoldable pub copied_indices : {Table : Type 0} → EditorEnv Table → MetadataEditor Table → List ℕ
unfolding sort_indices selected_row_index
copied_indices env m =
    if is_empty m.selected
    then elim (selected_row_index env m) [ some i ↦ i ∷ [] | none ↦ [] ]
    else sort_indices m.selected

-- The texts that copySelectedValues joins by line breaks for the clipboard.
unfoldable pub copied_values : {Table : Type 0} → EditorEnv Table → MetadataEditor Table → List Text
unfolding values_at copied_indices
copied_values env m = values_at m.rows (copied_indices env m)
