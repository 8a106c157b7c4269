-- ===== src/Relationships/Update.antt =====
-- The dispatch of messages, and the detail, edit and confirmation views. none is a panic.
use nebula_core.Prelude.{
  ℕ, ◌+◌, ◌-◌, ◌%◌, true, false, ◌&&◌, ◌||◌, not, Option, none, some, List, [], ◌∷◌, ◌++◌,
  if◌then◌else◌, is_empty, ltb, ◌==◌, get_elem?,
}
use nebula_core.Text.{Text, codes, text_eq, trim_space}
use nebula_core.Keys.{KeyPressMsg, is_key, is_back, is_up, is_down, is_enter, is_space}
use nebula_core.Editor.State.{reset, set_scope_options}
use nebula_core.Editor.Keys.{handle_key}
use nebula_core.Relationships.State.{
  Relationship, RelationshipsView, view_list, view_detail, view_edit, view_confirm,
  create_source_search, create_source_select, create_target_search, create_target_select,
  create_type, Candidate, ScreenEnv, RelMsg, spinner_tick, loaded, names_loaded, scopes_loaded,
  entities_loaded, contexts_loaded, jobs_loaded, results, saved, notes_saved, failed, pressed,
  RelCmd, nothing, load_relationships, load_names, update_relationship, status_options,
}
use nebula_core.Relationships.Candidates.{unique_relationship_types}
use nebula_core.Relationships.Listing.{
  Model, apply_list_filter, list_view_keys, notes_edit_keys, mode_line_keys,
}
use nebula_core.Relationships.Create.{
  show_results, search_step, select_step, type_step, choose_source, choose_target,
}

-- The loop of statusIndex from `i` on.
unfoldable pub index_from : ℕ → List Text → Text → ℕ
index_from i [] value = 0
index_from i (o ∷ os) value =
    let later = index_from (i + 1) os value in if text_eq o value then i else later

unfoldable pub status_index : List Text → Text → ℕ
unfolding index_from
status_index options value = index_from 0 options value

module _ {Table Area : Type 0} (env : ScreenEnv Table Area) where
  unfoldable pub start_edit : Model env → Model env
  unfolding status_index reset
  start_edit m = elim m.detail [
    | none ↦ m
    | some r ↦ record m {
      edit_focus = 0;
      edit_status_idx = status_index status_options r.status;
      edit_meta = record (reset env.editor_env m.edit_meta) { buffer = r.notes };
      edit_saving = false;
    }
  ]

  unfoldable pub detail_keys : KeyPressMsg → Model env → Model env
  unfolding start_edit
  detail_keys msg m =
      if is_up msg
      then record m { mode_focus = true }
      else if is_back msg
      then record m { detail = none; meta_expanded = false; view = view_list }
      else if is_key msg (codes "e" ∷ [])
      then record (start_edit m) { view = view_edit }
      else if is_key msg (codes "d" ∷ [])
      then record m { confirm_kind = codes "archive"; view = view_confirm }
      else if is_key msg (codes "m" ∷ [])
      then record m { meta_expanded = not m.meta_expanded }
      else m

  -- Blank notes are left out of the request.
  abbrev pub notes_input : Text → Text
  notes_input buffer = if is_empty (trim_space buffer) then [] else buffer

  unfoldable pub save_edit : Model env → Option (Model env × RelCmd)
  save_edit m = elim m.detail [
    | none ↦ some (m, nothing)
    | some r ↦ elim (get_elem? status_options m.edit_status_idx) [
      | none ↦ none
      | some status ↦ some (
        record m { edit_saving = true },
        update_relationship r.id
            (record { status = some status; notes = notes_input m.edit_meta.buffer }),
      )
    ]
  ]

  -- The keys of the field in focus: the status, or the notes.
  unfoldable pub field_keys : KeyPressMsg → Model env → Model env
  field_keys msg m =
      if m.edit_focus == 0
      then (if is_key msg (codes "left" ∷ [])
          then record m { edit_status_idx = (m.edit_status_idx + 2 - 1) % 2 }
          else if is_key msg (codes "right" ∷ []) || is_space msg
          then record m { edit_status_idx = (m.edit_status_idx + 1) % 2 }
          else m)
      else if m.edit_focus == 1 && is_enter msg
      then record m { edit_meta = record m.edit_meta { active = true } }
      else m

  unfoldable pub edit_keys : KeyPressMsg → Model env → Option (Model env × RelCmd)
  unfolding save_edit field_keys
  edit_keys msg m =
      if m.edit_saving
      then some (m, nothing)
      else if is_down msg
      then some (record m { edit_focus = (m.edit_focus + 1) % 2 }, nothing)
      else if is_up msg
      then some (
        if ltb 0 m.edit_focus then record m { edit_focus = (m.edit_focus - 1 + 2) % 2 } else m,
        nothing,
      )
      else if is_back msg
      then some (record m { view = view_detail }, nothing)
      else if is_key msg (codes "ctrl+s" ∷ [])
      then save_edit m
      else if is_key msg (codes "backspace" ∷ [])
      then some (m, nothing)
      else some (field_keys msg m, nothing)

  unfoldable pub confirm_archive : Option Relationship → Model env → Model env × RelCmd
  confirm_archive none m = (record m { view = view_list }, nothing)
  confirm_archive (some r) m = (
    record m { view = view_detail },
    update_relationship r.id (record { status = some (codes "inactive"); notes = [] }),
  )

  unfoldable pub archive_keys : KeyPressMsg → Model env → Model env × RelCmd
  unfolding confirm_archive
  archive_keys msg m =
      if is_key msg (codes "y" ∷ []) || is_enter msg
      then confirm_archive m.detail m
      else if is_key msg (codes "n" ∷ []) || is_back msg
      then (record m { view = view_detail }, nothing)
      else (m, nothing)

  unfoldable pub view_keys :
      RelationshipsView → KeyPressMsg → Model env → Option (Model env × RelCmd)
  unfolding detail_keys edit_keys archive_keys search_step select_step type_step list_view_keys
  view_keys view_detail msg m = some (detail_keys msg m, nothing)
  view_keys view_edit msg m = edit_keys msg m
  view_keys view_confirm msg m = some (archive_keys msg m)
  view_keys create_source_search msg m = some (search_step env view_list (choose_source env) msg m)
  view_keys create_source_select msg m =
      some (select_step env create_source_search (choose_source env) msg m)
  view_keys create_target_search msg m =
      some (search_step env create_source_search (choose_target env) msg m)
  view_keys create_target_select msg m =
      some (select_step env create_target_search (choose_target env) msg m)
  view_keys create_type msg m = some (type_step env msg m)
  view_keys view_list msg m = some (list_view_keys env msg m, nothing)

  unfoldable pub editor_keys : KeyPressMsg → Model env → Option (Model env × RelCmd)
  unfolding handle_key
  editor_keys msg m = elim (handle_key env.editor_env msg m.edit_meta) [
    | none ↦ none
    | some r ↦ some (record m { edit_meta = r.0 }, nothing)
  ]

  unfoldable pub on_press : KeyPressMsg → Model env → Option (Model env × RelCmd)
  unfolding notes_edit_keys editor_keys mode_line_keys view_keys
  on_press msg m =
      if m.notes_editing
      then some (notes_edit_keys env msg m)
      else if m.edit_meta.active
      then editor_keys msg m
      else if m.mode_focus
      then some (mode_line_keys env msg m, nothing)
      else view_keys m.view msg m

  unfoldable pub on_loaded : List Relationship → Model env → Model env
  unfolding apply_list_filter unique_relationship_types
  on_loaded items m =
      record (apply_list_filter env (record m { loading = false; all_items = items })) {
        type_options = unique_relationship_types items;
      }

  -- Results of a query that is no longer the typed one are dropped.
  unfoldable pub on_results : Text → List Candidate → Model env → Model env
  unfolding show_results
  on_results query found m =
      if text_eq (trim_space query) (trim_space m.create_query) then show_results env found m else m

  unfoldable pub rel_update : RelMsg → Model env → Option (Model env × RelCmd)
  unfolding on_loaded apply_list_filter set_scope_options on_results on_press
  rel_update spinner_tick m = some (m, nothing)
  rel_update (loaded items) m = some (on_loaded items m, load_names items)
  rel_update (names_loaded names) m =
      some (apply_list_filter env (record m { names = names ++ m.names }), nothing)
  rel_update (scopes_loaded options) m = some (
    record m { scope_options = options; edit_meta = set_scope_options options m.edit_meta },
    nothing,
  )
  rel_update (entities_loaded items) m = some (record m { entity_cache = items }, nothing)
  rel_update (contexts_loaded items) m = some (record m { context_cache = items }, nothing)
  rel_update (jobs_loaded items) m = some (record m { job_cache = items }, nothing)
  rel_update (results query found) m = some (on_results query found m, nothing)
  rel_update saved m =
      some (record m { edit_saving = false; loading = true; view = view_list }, load_relationships)
  rel_update notes_saved m =
      some (
        record m { notes_editing = false; notes_dirty = false; loading = true },
        load_relationships,
      )
  rel_update failed m = some (
    record m {
      loading = false;
      edit_saving = false;
      create_loading = false;
      notes_editing = false;
    },
    nothing,
  )
  rel_update (pressed msg) m = on_press msg m
