-- ===== src/Relationships/Listing.antt =====
-- The list of relationships: its filter, its keys, the notes edited beside it, and the mode line.
use nebula_core.Prelude.{
  Bool, true, false, ◌&&◌, ◌||◌, not, Option, none, some, List, [], ◌∷◌, ◌++◌, map, if◌then◌else◌,
  is_empty, init, pos, leb_ℤ,
}
use nebula_core.Text.{Text, codes, text_eq, to_lower, trim_space, contains}
use nebula_core.Keys.{KeyPressMsg, is_key, is_back, is_up, is_down, is_enter, is_space, key_text}
use nebula_core.Sanitize.{sanitize_text}
use nebula_core.Diff.{TextMap, get}
use nebula_core.Relationships.State.{
  Relationship, RelationshipsView, view_list, view_detail, create_source_search,
  create_source_select, create_target_search, create_target_select, create_type, ScreenEnv,
  RelationshipsModel, RelCmd, nothing, area_cmd, update_relationship, picked, show_rows,
}
use nebula_core.Relationships.Candidates.{keep, dot}

unfoldable pub display_node : TextMap → Text → Text → Text → Text
unfolding get
display_node names id kind name =
    let t = trim_space kind in
    if not (is_empty (trim_space name))
    then sanitize_text name
    else if not (is_empty (get names id))
    then sanitize_text (get names id)
    else if is_empty t || text_eq t (codes "entity")
    then codes "unknown entity"
    else if text_eq t (codes "context")
    then codes "unknown context"
    else if text_eq t (codes "job")
    then codes "unknown job"
    else codes "unknown"

abbrev pub source_text : TextMap → Relationship → Text
source_text names r = display_node names r.source_id r.source_type r.source_name

abbrev pub target_text : TextMap → Relationship → Text
target_text names r = display_node names r.target_id r.target_type r.target_name

-- `%s · %s -> %s`
unfoldable pub list_label : TextMap → Relationship → Text
unfolding display_node
list_label names r =
    sanitize_text r.kind
    ++ (dot
        ++ (sanitize_text (source_text names r)
            ++ (codes " -> " ++ sanitize_text (target_text names r))))

unfoldable pub matches_query : TextMap → Text → Relationship → Bool
unfolding display_node
matches_query names query r =
    contains query (to_lower (trim_space r.kind))
    || (contains query (to_lower (trim_space r.status))
        || (contains query (to_lower (source_text names r))
            || contains query (to_lower (target_text names r))))

unfoldable pub listed_items : TextMap → Text → List Relationship → List Relationship
unfolding keep matches_query
listed_items names filter_buf all =
    let query = to_lower (trim_space filter_buf) in
    if is_empty query then all else keep (matches_query names query) all

module _ {Table Area : Type 0} (env : ScreenEnv Table Area) where
  abbrev pub Model : Type 0
  Model = RelationshipsModel Table Area

  unfoldable pub apply_list_filter : Model → Model
  unfolding listed_items list_label
  apply_list_filter m =
      let items = listed_items m.names m.filter_buf m.all_items in
      record m {
        items = items;
        data_table = show_rows env.table_api (map (list_label m.names) items) m.data_table;
      }

  unfoldable pub selected_relationship : Model → Option Relationship
  unfolding picked
  selected_relationship m = picked env.table_api m.data_table m.items

  unfoldable pub start_create : Model → Model
  start_create m = record m {
    create_query = [];
    create_results = [];
    create_table = show_rows env.table_api [] m.create_table;
    create_source = none;
    create_target = none;
    create_kind = [];
    create_type_results = [];
    create_type_table = show_rows env.table_api [] m.create_type_table;
    create_type_nav = false;
    create_loading = false;
  }

  unfoldable pub filter_keys : KeyPressMsg → Model → Model
  unfolding apply_list_filter
  filter_keys msg m =
      let ch = key_text msg in
      if is_enter msg
      then record m { filtering = false }
      else if is_back msg
      then apply_list_filter (record m { filtering = false; filter_buf = [] })
      else if is_key msg (codes "backspace" ∷ codes "delete" ∷ [])
      then (if is_empty m.filter_buf
          then m
          else apply_list_filter (record m { filter_buf = init m.filter_buf }))
      else if is_empty ch || (text_eq ch (codes " ") && is_empty m.filter_buf)
      then m
      else apply_list_filter (record m { filter_buf = m.filter_buf ++ ch })

  unfoldable pub open_relationship : Model → Model
  unfolding selected_relationship
  open_relationship m = elim (selected_relationship m) [
    | none ↦ m
    | some r ↦ record m { detail = some r; view = view_detail }
  ]

  unfoldable pub edit_notes : Model → Model
  unfolding selected_relationship
  edit_notes m = elim (selected_relationship m) [
    | none ↦ m
    | some r ↦ record m {
      notes_editing = true;
      notes_dirty = false;
      notes_textarea = env.area_api.set_value r.notes env.area_api.fresh;
    }
  ]

  -- The cursor above the first row goes to the mode line.
  unfoldable pub list_up : Model → Model
  list_up m =
      if leb_ℤ (env.table_api.cursor m.data_table) (pos 0)
      then record m { mode_focus = true }
      else record m { data_table = env.table_api.move_up m.data_table }

  unfoldable pub browse_list : KeyPressMsg → Model → Model
  unfolding list_up open_relationship edit_notes start_create
  browse_list msg m =
      if is_down msg
      then record m { data_table = env.table_api.move_down m.data_table }
      else if is_up msg
      then list_up m
      else if is_enter msg || is_space msg
      then open_relationship m
      else if is_key msg (codes "f" ∷ [])
      then record m { filtering = true }
      else if is_key msg (codes "e" ∷ [])
      then edit_notes m
      else if is_key msg (codes "n" ∷ [])
      then record (start_create m) { view = create_source_search }
      else m

  unfoldable pub list_view_keys : KeyPressMsg → Model → Model
  unfolding filter_keys browse_list
  list_view_keys msg m = if m.filtering then filter_keys msg m else browse_list msg m

  unfoldable pub save_inline_notes : Model → Model × RelCmd
  unfolding selected_relationship
  save_inline_notes m = elim (selected_relationship m) [
    | none ↦ (record m { notes_editing = false }, nothing)
    | some r ↦ (
      m,
      update_relationship r.id
          (record { status = none; notes = env.area_api.value m.notes_textarea }),
    )
  ]

  unfoldable pub notes_edit_keys : KeyPressMsg → Model → Model × RelCmd
  unfolding save_inline_notes
  notes_edit_keys msg m =
      if is_back msg
      then (record m { notes_editing = false; notes_dirty = false }, nothing)
      else if is_key msg (codes "ctrl+s" ∷ [])
      then save_inline_notes m
      else (
        record m { notes_textarea = env.area_api.update msg m.notes_textarea; notes_dirty = true },
        area_cmd,
      )

  abbrev pub is_add : RelationshipsView → Bool
  is_add create_source_search = true
  is_add create_source_select = true
  is_add create_target_search = true
  is_add create_target_select = true
  is_add create_type = true
  is_add RelationshipsView.view_list = false
  is_add RelationshipsView.view_detail = false
  is_add RelationshipsView.view_edit = false
  is_add RelationshipsView.view_confirm = false

  unfoldable pub toggle_mode : Model → Model
  unfolding start_create
  toggle_mode m =
      if is_add m.view
      then record m { mode_focus = false; view = view_list }
      else record (start_create (record m { mode_focus = false })) { view = create_source_search }

  unfoldable pub mode_line_keys : KeyPressMsg → Model → Model
  unfolding toggle_mode
  mode_line_keys msg m =
      if is_down msg || is_up msg
      then record m { mode_focus = false }
      else if is_key msg (codes "left" ∷ [])
          || (is_key msg (codes "right" ∷ []) || (is_space msg || is_enter msg))
      then toggle_mode m
      else if is_back msg
      then record m { mode_focus = false }
      else m
