-- ===== src/Jobs/Listing.antt =====
-- The keys of the list, of its filter, and of the mode line.
use nebula_core.Prelude.{
  Bool, true, false, ◌&&◌, ◌||◌, none, some, [], ◌∷◌, ◌++◌, if◌then◌else◌, is_empty, init, pos,
  leb_ℤ,
}
use nebula_core.Text.{codes, text_eq}
use nebula_core.Keys.{KeyPressMsg, is_key, is_back, is_up, is_down, is_enter, is_space, key_text}
use nebula_core.Relationships.Create.{clear_keys, erase_keys}
use nebula_core.Jobs.State.{
  JobsView, view_add, view_list, view_detail, view_edit, JobsEnv, JobsCmd, nothing, load_jobs,
  load_detail,
}
use nebula_core.Jobs.Search.{
  Model, apply_job_search, job_at_cursor, toggle_selected, toggle_select_all, selected_ids,
  search_for, clear_search, take_suggestion,
}

module _ {Table Form : Type 0} (env : JobsEnv Table Form) where
  unfoldable pub filter_keys : KeyPressMsg → Model env → Model env
  unfolding apply_job_search search_for
  filter_keys msg m =
      let ch = key_text msg in
      if is_enter msg
      then record m { filtering = false }
      else if is_back msg
      then apply_job_search env
          (record m { filtering = false; search_buf = []; search_suggest = [] })
      else if is_key msg erase_keys
      then (if is_empty m.search_buf then m else search_for env (init m.search_buf) m)
      else if is_empty ch || (text_eq ch (codes " ") && is_empty m.search_buf)
      then m
      else search_for env (m.search_buf ++ ch) m

  unfoldable pub list_up : Model env → Model env
  list_up m =
      if leb_ℤ (env.table_api.cursor m.data_table) (pos 0)
      then record m { mode_focus = true }
      else record m { data_table = env.table_api.move_up m.data_table }

  unfoldable pub open_job : Model env → Model env × JobsCmd
  unfolding job_at_cursor
  open_job m = elim (job_at_cursor env m) [
    | none ↦ (m, nothing)
    | some j ↦ (
      record m {
        detail = some j;
        detail_rels = [];
        detail_context = [];
        context_loading = true;
        view = view_detail;
      },
      load_detail j.id,
    )
  ]

  -- The dialogue on the status of the selected jobs, or of the one under the cursor.
  unfoldable pub ask_status : Model env → Model env
  unfolding selected_ids job_at_cursor
  ask_status m =
      let targets = selected_ids env m in
      if is_empty targets
      then elim (job_at_cursor env m) [
        | none ↦ m
        | some j ↦ record m {
          detail = some j;
          view = view_detail;
          changing_st = true;
          status_buf = [];
          status_targets = j.id ∷ [];
        }
      ]
      else record m { changing_st = true; status_buf = []; status_targets = targets }

  unfoldable pub browse_list : KeyPressMsg → Model env → Model env
  unfolding list_up toggle_selected toggle_select_all search_for clear_search take_suggestion
      ask_status
  browse_list msg m =
      let ch = key_text msg in
      if is_space msg
      then toggle_selected env m
      else if is_key msg (codes "b" ∷ [])
      then toggle_select_all env m
      else if is_key msg (codes "f" ∷ [])
      then record m { filtering = true }
      else if is_key msg erase_keys
      then (if is_empty m.search_buf then m else search_for env (init m.search_buf) m)
      else if is_key msg clear_keys || is_back msg
      then clear_search env m
      else if is_key msg (codes "tab" ∷ [])
      then take_suggestion env m
      else if is_key msg (codes "s" ∷ [])
      then ask_status m
      else if is_empty ch
      then m
      else search_for env (m.search_buf ++ ch) m

  unfoldable pub list_keys : KeyPressMsg → Model env → Model env × JobsCmd
  unfolding filter_keys list_up open_job browse_list
  list_keys msg m =
      if m.filtering
      then (filter_keys msg m, nothing)
      else if is_down msg
      then (record m { data_table = env.table_api.move_down m.data_table }, nothing)
      else if is_up msg
      then (list_up m, nothing)
      else if is_enter msg
      then open_job m
      else (browse_list msg m, nothing)

  unfoldable pub is_add_view : JobsView → Bool
  is_add_view view_add = true
  is_add_view view_list = false
  is_add_view view_detail = false
  is_add_view view_edit = false

  unfoldable pub toggle_mode : Model env → Model env × JobsCmd
  unfolding is_add_view
  toggle_mode m =
      if is_add_view m.view
      then (
        record m { mode_focus = false; detail = none; view = view_list; loading = true },
        load_jobs,
      )
      else (record m { mode_focus = false; detail = none; view = view_add }, nothing)

  unfoldable pub mode_keys : KeyPressMsg → Model env → Model env × JobsCmd
  unfolding toggle_mode
  mode_keys msg m =
      if is_down msg || is_up msg
      then (record m { mode_focus = false }, nothing)
      else if is_key msg (codes "left" ∷ [])
          || (is_key msg (codes "right" ∷ []) || (is_space msg || is_enter msg))
      then toggle_mode m
      else if is_back msg
      then (record m { mode_focus = false }, nothing)
      else (m, nothing)
