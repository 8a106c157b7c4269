-- ===== src/Jobs/Update.antt =====
-- The detail view and the dispatch of messages. none is a panic.
use nebula_core.Prelude.{
  Bool, true, false, ◌&&◌, ◌||◌, not, Option, none, some, [], ◌∷◌, if◌then◌else◌,
}
use nebula_core.Text.{Text, codes, text_eq}
use nebula_core.Keys.{KeyPressMsg, is_key, is_back, is_up}
use nebula_core.Relationships.State.{Job}
use nebula_core.Jobs.State.{
  JobsView, view_add, view_list, view_detail, view_edit, JobsEnv, JobsMsg, spinner_tick,
  jobs_loaded, rels_loaded, context_loaded, relationship_changed, status_updated, subtask_created,
  job_created, failed, pressed, other, JobsCmd, nothing, form_cmd, load_jobs, load_rels,
}
use nebula_core.Jobs.Search.{Model, apply_job_search}
use nebula_core.Jobs.Listing.{list_keys, mode_keys}
use nebula_core.Jobs.Forms.{add_keys, start_edit, edit_keys}
use nebula_core.Jobs.Prompts.{
  status_input, subtask_input, link_input, unlink_input, context_prompt_keys,
}

module _ {Table Form : Type 0} (env : JobsEnv Table Form) where
  unfoldable pub leave_detail : Model env → Model env
  leave_detail m = record m {
    detail = none;
    detail_rels = [];
    detail_context = [];
    context_loading = false;
    context_linking = false;
    context_link_buf = [];
    context_creating = false;
    context_create_buf = [];
    view = view_list;
  }

  -- The dialogue on the status of the job shown; its id is read without a test for a job.
  unfoldable pub ask_status_of : Option Job → Model env → Option (Model env)
  ask_status_of none m = none
  ask_status_of (some j) m =
      some (record m { changing_st = true; status_buf = []; status_targets = j.id ∷ [] })

  unfoldable pub open_prompt : KeyPressMsg → Model env → Model env
  unfolding start_edit
  open_prompt msg m =
      if is_key msg (codes "n" ∷ [])
      then record m { creating_subtask = true; subtask_buf = [] }
      else if is_key msg (codes "a" ∷ [])
      then record m { context_creating = true; context_create_buf = [] }
      else if is_key msg (codes "c" ∷ [])
      then record m { context_linking = true; context_link_buf = [] }
      else if is_key msg (codes "l" ∷ [])
      then record m { linking_rel = true; link_buf = [] }
      else if is_key msg (codes "u" ∷ [])
      then record m { unlinking_rel = true; unlink_buf = [] }
      else if is_key msg (codes "e" ∷ [])
      then record (start_edit env m) { view = view_edit }
      else m

  unfoldable pub browse_detail : KeyPressMsg → Model env → Option (Model env)
  unfolding leave_detail ask_status_of open_prompt
  browse_detail msg m =
      if is_up msg
      then some (record m { mode_focus = true })
      else if is_back msg
      then some (leave_detail m)
      else if is_key msg (codes "s" ∷ [])
      then ask_status_of m.detail m
      else some (open_prompt msg m)

  abbrev pub silently : Option (Model env) → Option (Model env × JobsCmd)
  silently none = none
  silently (some m) = some (m, nothing)

  unfoldable pub detail_keys : KeyPressMsg → Model env → Option (Model env × JobsCmd)
  unfolding context_prompt_keys browse_detail
  detail_keys msg m =
      if m.context_linking || m.context_creating
      then some (context_prompt_keys env msg m)
      else silently (browse_detail msg m)

  unfoldable pub view_keys : JobsView → KeyPressMsg → Model env → Option (Model env × JobsCmd)
  unfolding add_keys edit_keys detail_keys list_keys
  view_keys view_add msg m = some (add_keys env msg m)
  view_keys view_edit msg m = some (edit_keys env msg m)
  view_keys view_detail msg m = detail_keys msg m
  view_keys view_list msg m = some (list_keys env msg m)

  unfoldable pub on_press : KeyPressMsg → Model env → Option (Model env × JobsCmd)
  unfolding subtask_input link_input unlink_input status_input mode_keys view_keys
  on_press msg m =
      if m.creating_subtask
      then some (subtask_input env msg m)
      else if m.linking_rel
      then some (link_input env msg m)
      else if m.unlinking_rel
      then some (unlink_input env msg m)
      else if m.changing_st
      then some (status_input env msg m)
      else if m.mode_focus
      then some (mode_keys env msg m)
      else view_keys m.view msg m

  -- The job that a message is about is the one shown.
  abbrev pub shows_job : Text → Option Job → Bool
  shows_job id none = false
  shows_job id (some j) = text_eq j.id id

  -- Messages of other kinds go to the form of the view.
  unfoldable pub forward_add : Option Form → Model env → Model env × JobsCmd
  forward_add none m = (m, nothing)
  forward_add (some form) m =
      if not m.add_saving && not m.add_saved
      then (record m { add_form = some (env.form_api.forward form) }, form_cmd)
      else (m, nothing)

  unfoldable pub forward_edit : Option Form → Model env → Model env × JobsCmd
  forward_edit none m = (m, nothing)
  forward_edit (some form) m =
      if m.edit_saving
      then (m, nothing)
      else (record m { edit_form = some (env.form_api.forward form) }, form_cmd)

  unfoldable pub forward_msg : JobsView → Model env → Model env × JobsCmd
  unfolding forward_add forward_edit
  forward_msg view_add m = forward_add m.add_form m
  forward_msg view_edit m = forward_edit m.edit_form m
  forward_msg view_detail m = (m, nothing)
  forward_msg view_list m = (m, nothing)

  abbrev closed_detail : Model env → Model env
  closed_detail m = record m {
    detail = none;
    detail_context = [];
    context_loading = false;
    loading = true;
  }

  unfoldable pub jobs_update : JobsMsg → Model env → Option (Model env × JobsCmd)
  unfolding apply_job_search on_press forward_msg
  jobs_update spinner_tick m = some (m, nothing)
  jobs_update (jobs_loaded items) m =
      some (apply_job_search env (record m { loading = false; all_items = items }), nothing)
  jobs_update (rels_loaded id rels) m =
      some (if shows_job id m.detail then record m { detail_rels = rels } else m, nothing)
  jobs_update (context_loaded id items) m = some (
    if shows_job id m.detail
        then record m { context_loading = false; detail_context = items }
        else m,
    nothing,
  )
  jobs_update relationship_changed m =
      some (m, elim m.detail [ none ↦ nothing | some j ↦ load_rels j.id ])
  jobs_update status_updated m = some (
    record (closed_detail m) { changing_st = false; status_buf = []; status_targets = [] },
    load_jobs,
  )
  jobs_update subtask_created m =
      some (record (closed_detail m) { creating_subtask = false; subtask_buf = [] }, load_jobs)
  jobs_update job_created m =
      some (record m { add_saving = false; add_saved = true; loading = true }, load_jobs)
  jobs_update (failed err) m = some (
    record m {
      loading = false;
      add_saving = false;
      edit_saving = false;
      changing_st = false;
      status_targets = [];
      creating_subtask = false;
      linking_rel = false;
      unlinking_rel = false;
      context_loading = false;
      context_linking = false;
      context_creating = false;
      add_err = err;
    },
    nothing,
  )
  jobs_update (pressed msg) m = on_press msg m
  jobs_update other m = some (forward_msg m.view m)
