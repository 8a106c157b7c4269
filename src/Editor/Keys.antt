-- ===== src/Editor/Keys.antt =====
-- The keys of the editor (HandleKey). A result is the editor, whether it was closed, and the text
-- that was put on the clipboard; none is a panic on an index out of range.
use nebula_core.Prelude.{
  ℕ, ◌+◌, ◌-◌, ◌%◌, Bool, true, false, ◌||◌, Option, none, some, List, [], ◌∷◌, ◌++◌, if◌then◌else◌,
  ◌==◌, length, get_elem?, is_empty, min, pos,
}
use nebula_core.Text.{Text, codes, trim_space, split, join}
use nebula_core.Text.Decimal.{decimal}
use nebula_core.Keys.{KeyPressMsg, is_key, is_back, is_up, is_down, is_enter, is_space, key_text}
use nebula_core.Scopes.{toggle_scope}
use nebula_core.Editor.State.{EditorRow, MetadataEditor, EditorEnv, no_index, drop_last_rune}
use nebula_core.Editor.Rows.{
  sync_list, selected_row_index, toggle_selection, toggle_select_all, commit_entry, remove_row,
  copied_values, or_none,
}

module _ {Table : Type 0} (env : EditorEnv Table) where
  abbrev Editor : Type 0
  Editor = MetadataEditor Table

  abbrev pub Outcome : Type 0
  Outcome = Option (Editor × Bool × Option Text)

  abbrev pub stays : Editor → Outcome
  stays m = some (m, false, none)

  abbrev pub options_of : Editor → List Text
  options_of m = if is_empty m.scope_options then m.scopes else m.scope_options

  unfoldable pub toggle_current_scope : Editor → Outcome
  unfolding toggle_scope
  toggle_current_scope m = elim (get_elem? (options_of m) m.scope_idx) [
    | none ↦ none
    | some scope ↦ stays (record m { scopes = toggle_scope m.scopes scope })
  ]

  -- none where no case of the switch applies, and the key goes on to the other modes.
  unfoldable pub scope_keys : KeyPressMsg → Editor → Option Outcome
  unfolding toggle_current_scope
  scope_keys msg m =
      let n = length (options_of m) in
      if is_key msg (codes "left" ∷ [])
      then some (stays (if n == 0 then m else record m { scope_idx = (m.scope_idx + n - 1) % n }))
      else if is_key msg (codes "right" ∷ [])
      then some (stays (if n == 0 then m else record m { scope_idx = (m.scope_idx + 1) % n }))
      else if is_space msg
      then some (if n == 0 then stays m else toggle_current_scope m)
      else if is_enter msg || is_back msg
      then some (stays (record m { scope_selecting = false }))
      else none

  unfoldable pub entry_keys : KeyPressMsg → Editor → Editor
  unfolding commit_entry drop_last_rune
  entry_keys msg m =
      if is_back msg
      then record m { entry_mode = false; entry_buf = []; entry_edit_idx = no_index }
      else if is_key msg (codes "backspace" ∷ codes "delete" ∷ [])
      then record m { entry_buf = drop_last_rune m.entry_buf }
      else if is_key msg (codes "cmd+backspace" ∷ codes "cmd+delete" ∷ codes "ctrl+u" ∷ [])
      then record m { entry_buf = [] }
      else if is_enter msg
      then commit_entry env m
      else record m { entry_buf = m.entry_buf ++ key_text msg }

  -- The lines that are drawn of a value.
  unfoldable pub drawn_total : List Text → ℕ
  drawn_total [] = 0
  drawn_total (l ∷ ls) = env.drawn_lines l + drawn_total ls

  -- len(m.inspectLines())
  unfoldable pub inspect_line_count : Editor → ℕ
  unfolding drawn_total
  inspect_line_count m = elim (get_elem? m.rows m.inspect_row_idx) [
    | none ↦ 0
    | some row ↦ 3 + drawn_total (split 10 (or_none (trim_space row.value)))
  ]

  abbrev pub page : ℕ
  page = 12

  unfoldable pub inspect_down : Editor → Editor
  unfolding inspect_line_count
  inspect_down m = record m {
    inspect_offset = min (m.inspect_offset + 1) (inspect_line_count m - page);
  }

  -- An offset of 0 stays 0.
  unfoldable pub inspect_up : Editor → Editor
  unfolding inspect_line_count
  inspect_up m = record m {
    inspect_offset = min (m.inspect_offset - 1) (inspect_line_count m - page);
  }

  unfoldable pub inspect_value : Editor → Text
  inspect_value m = elim (get_elem? m.rows m.inspect_row_idx) [ none ↦ [] | some row ↦ row.value ]

  -- The notice after the clipboard was written: its error, or a message.
  abbrev pub copy_notice : Text → Text → Text
  copy_notice value message = elim (env.copy value) [ some e ↦ e | none ↦ message ]

  unfoldable pub copy_inspected : Editor → Outcome
  unfolding inspect_value
  copy_inspected m =
      let raw = inspect_value m in
      let value = if is_empty (trim_space raw) then codes "None" else raw in
      some (record m { notice = copy_notice value (codes "copied value.") }, false, some value)

  unfoldable pub inspect_keys : KeyPressMsg → Editor → Outcome
  unfolding inspect_down inspect_up copy_inspected
  inspect_keys msg m =
      if is_back msg
      then stays (record m { inspect_mode = false; inspect_offset = 0 })
      else if is_down msg
      then stays (inspect_down m)
      else if is_up msg
      then stays (inspect_up m)
      else if is_enter msg
      then copy_inspected m
      else stays m

  -- The key `c`.
  unfoldable pub copy_selected : Editor → Outcome
  unfolding copied_values
  copy_selected m =
      let values = copied_values env m in
      let value = join (10 ∷ []) values in
      let message = codes "copied " ++ (decimal (length values) ++ codes " value(s).") in
      if is_empty values
      then stays m
      else some (record m { notice = copy_notice value message }, false, some value)

  -- `%s | %s`
  abbrev pub entry_text : EditorRow → Text
  entry_text row = row.path ++ (codes " | " ++ row.value)

  unfoldable pub edit_row : ℕ → Editor → Editor
  edit_row idx m = elim (get_elem? m.rows idx) [
    | none ↦ m
    | some row ↦ record m {
      entry_mode = true;
      entry_edit_idx = pos idx;
      entry_buf = entry_text row;
      notice = [];
    }
  ]

  -- What a key does to the row under the cursor, if there is one.
  abbrev pub at_cursor : (ℕ → Editor → Editor) → Editor → Editor
  at_cursor f m = elim (selected_row_index env m) [ none ↦ m | some idx ↦ f idx m ]

  unfoldable pub inspect_row : ℕ → Editor → Editor
  inspect_row idx m = record m {
    inspect_mode = true;
    inspect_row_idx = idx;
    inspect_offset = 0;
    notice = [];
  }

  unfoldable pub table_keys : KeyPressMsg → Editor → Outcome
  unfolding toggle_selection toggle_select_all edit_row remove_row copy_selected inspect_row
      selected_row_index
  table_keys msg m =
      if is_back msg
      then some (record m { active = false }, true, none)
      else if is_key msg (codes "s" ∷ [])
      then stays (record m { scope_selecting = true })
      else if is_down msg
      then stays (record m { list = env.table_api.move_down m.list })
      else if is_up msg
      then stays (record m { list = env.table_api.move_up m.list })
      else if is_space msg
      then stays (at_cursor toggle_selection m)
      else if is_key msg (codes "b" ∷ [])
      then stays (toggle_select_all m)
      else if is_key msg (codes "n" ∷ [])
      then stays
          (record m { entry_mode = true; entry_buf = []; entry_edit_idx = no_index; notice = [] })
      else if is_key msg (codes "e" ∷ [])
      then stays (at_cursor edit_row m)
      else if is_key msg (codes "d" ∷ [])
      then stays (at_cursor (remove_row env) m)
      else if is_key msg (codes "c" ∷ [])
      then copy_selected m
      else if is_enter msg
      then stays (at_cursor inspect_row m)
      else stays m

  -- The modes behind the choice of scopes.
  unfoldable pub mode_keys : KeyPressMsg → Editor → Outcome
  unfolding entry_keys inspect_keys table_keys sync_list
  mode_keys msg m =
      if m.entry_mode
      then stays (entry_keys msg m)
      else if m.inspect_mode
      then inspect_keys msg m
      else table_keys msg (sync_list env m)

  unfoldable pub handle_key : KeyPressMsg → Editor → Outcome
  unfolding scope_keys mode_keys
  handle_key msg m =
      if m.scope_selecting
      then elim (scope_keys msg m) [ some outcome ↦ outcome | none ↦ mode_keys msg m ]
      else mode_keys msg m
