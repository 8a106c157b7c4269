-- ===== src/Jobs/AddForm.antt =====
-- The title of the job to add stays blank, since nothing but the form is typed into.
use nebula_core.Prelude.{◌≡◌, refl, ◌||◌, Option, none, some, [], ◌∷◌, if_cases, arith}
use nebula_core.Text.{codes}
use nebula_core.Keys.{KeyPressMsg, is_key, is_back, is_up}
use nebula_core.Relationships.State.{Job}
use nebula_core.Jobs.State.{
  JobsView, view_add, view_list, view_detail, view_edit, FormState, open_form, completed, aborted,
  JobsEnv, JobsMsg, spinner_tick, jobs_loaded, rels_loaded, context_loaded, relationship_changed,
  status_updated, subtask_created, job_created, failed, pressed, other, JobsCmd,
}
use nebula_core.Jobs.Search.{
  Model, apply_job_search, toggle_id, toggle_selected, toggle_select_all, search_for, clear_search,
  take_suggestion,
}
use nebula_core.Jobs.Listing.{
  filter_keys, list_up, open_job, ask_status, browse_list, list_keys, toggle_mode, mode_keys,
}
use nebula_core.Jobs.Forms.{
  init_add_form, init_edit_form, reset_add_form, save_add, after_add_key, press_add_form, add_keys,
  start_edit, save_edit, after_edit_key, press_edit_form, edit_keys,
}
use nebula_core.Jobs.Prompts.{
  send_status, status_input, send_subtask, subtask_input, send_link, link_input, send_unlink,
  unlink_input, send_context_link, send_context_create, context_prompt_keys,
}
use nebula_core.Jobs.Update.{
  leave_detail, ask_status_of, open_prompt, browse_detail, silently, detail_keys, view_keys,
  on_press, forward_add, forward_edit, forward_msg, jobs_update, shows_job,
}

module _ {Table Form : Type 0} (env : JobsEnv Table Form) where
  abbrev pub IsBlank : Model env → Type 0
  IsBlank m = m.add_title ≡ []

  abbrev BlankStep : Model env × JobsCmd → Type 0
  BlankStep r = IsBlank r.0

  abbrev BlankIf : Option (Model env) → Type 0
  BlankIf none = Unit
  BlankIf (some m) = IsBlank m

  abbrev pub BlankStepIf : Option (Model env × JobsCmd) → Type 0
  BlankStepIf none = Unit
  BlankStepIf (some r) = IsBlank r.0

  module _ (m : Model env) (v : IsBlank m) (k : KeyPressMsg) where
    filter_keys-IsBlank : IsBlank (filter_keys env k m)
    unfolding filter_keys search_for apply_job_search
    filter_keys-IsBlank = ground (arith, v)

    toggle_selected-IsBlank : IsBlank (toggle_selected env m)
    unfolding toggle_selected toggle_id
    toggle_selected-IsBlank = ground (arith, v)

    ask_status-IsBlank : IsBlank (ask_status env m)
    unfolding ask_status
    ask_status-IsBlank = ground (arith, v)

    browse_list-IsBlank : IsBlank (browse_list env k m)
    unfolding browse_list toggle_select_all search_for clear_search take_suggestion apply_job_search
    browse_list-IsBlank = ground (arith, v, toggle_selected-IsBlank, ask_status-IsBlank)

    list_keys-IsBlank : BlankStep (list_keys env k m)
    unfolding list_keys list_up open_job
    list_keys-IsBlank = ground (arith, v, filter_keys-IsBlank, browse_list-IsBlank)

    mode_keys-IsBlank : BlankStep (mode_keys env k m)
    unfolding mode_keys toggle_mode
    mode_keys-IsBlank = ground (arith, v)

  save_add-IsBlank : (m : Model env) → IsBlank m → BlankStep (save_add env m)
  unfolding save_add
  save_add-IsBlank m v = ground (arith, v)

  after_add_key-IsBlank :
      (m : Model env) → IsBlank m → (s : FormState) → BlankStep (after_add_key env s m)
  unfolding after_add_key reset_add_form init_add_form
  after_add_key-IsBlank m v completed = save_add-IsBlank m v
  after_add_key-IsBlank m v aborted = refl
  after_add_key-IsBlank m v open_form = v

  module _ (m : Model env) (v : IsBlank m) (k : KeyPressMsg) where
    press_add_form-IsBlank : (o : Option Form) → BlankStep (press_add_form env k o m)
    unfolding press_add_form init_add_form
    press_add_form-IsBlank none = v
    press_add_form-IsBlank (some form) =
        let next = env.form_api.press k form in
        after_add_key-IsBlank (record m { add_form = some next }) v (env.form_api.form_state next)

    add_keys-IsBlank : BlankStep (add_keys env k m)
    unfolding add_keys reset_add_form init_add_form
    add_keys-IsBlank = ground (arith, v, mode_keys-IsBlank m v k, press_add_form-IsBlank m.add_form)

    save_edit-IsBlank : BlankStep (save_edit env m)
    unfolding save_edit
    save_edit-IsBlank = ground (arith, v)

    start_edit-IsBlank : IsBlank (start_edit env m)
    unfolding start_edit init_edit_form
    start_edit-IsBlank = ground (arith, v)

    status_input-IsBlank : BlankStep (status_input env k m)
    unfolding status_input send_status
    status_input-IsBlank = ground (arith, v)

    subtask_input-IsBlank : BlankStep (subtask_input env k m)
    unfolding subtask_input send_subtask
    subtask_input-IsBlank = ground (arith, v)

    link_input-IsBlank : BlankStep (link_input env k m)
    unfolding link_input send_link
    link_input-IsBlank = ground (arith, v)

    unlink_input-IsBlank : BlankStep (unlink_input env k m)
    unfolding unlink_input send_unlink
    unlink_input-IsBlank = ground (arith, v)

    context_prompt_keys-IsBlank : BlankStep (context_prompt_keys env k m)
    unfolding context_prompt_keys send_context_link send_context_create
    context_prompt_keys-IsBlank = ground (arith, v)

    ask_status_of-IsBlank : (d : Option Job) → BlankIf (ask_status_of env d m)
    unfolding ask_status_of
    ask_status_of-IsBlank none = tt
    ask_status_of-IsBlank (some j) = v

    open_prompt-IsBlank : IsBlank (open_prompt env k m)
    unfolding open_prompt
    open_prompt-IsBlank = ground (arith, v, start_edit-IsBlank)

    browse_detail-IsBlank : BlankIf (browse_detail env k m)
    unfolding browse_detail leave_detail
    browse_detail-IsBlank =
        if_cases BlankIf (is_up k) _ _ (λ _. v)
          λ _.
            if_cases BlankIf (is_back k) _ _ (λ _. v)
              λ _.
                if_cases BlankIf (is_key k (codes "s" ∷ [])) _ _
                  (λ _. ask_status_of-IsBlank m.detail) (λ _. open_prompt-IsBlank)

    silently-IsBlank : (o : Option (Model env)) → BlankIf o → BlankStepIf (silently env o)
    silently-IsBlank none h = tt
    silently-IsBlank (some r) h = h

  after_edit_key-IsBlank :
      (m : Model env)
      → IsBlank m
      → KeyPressMsg
      → (s : FormState) → BlankStep (after_edit_key env s m)
  unfolding after_edit_key
  after_edit_key-IsBlank m v k completed = save_edit-IsBlank m v k
  after_edit_key-IsBlank m v k aborted = v
  after_edit_key-IsBlank m v k open_form = v

  module _ (m : Model env) (v : IsBlank m) (k : KeyPressMsg) where
    press_edit_form-IsBlank : (o : Option Form) → BlankStep (press_edit_form env k o m)
    unfolding press_edit_form init_edit_form
    press_edit_form-IsBlank none = v
    press_edit_form-IsBlank (some form) =
        let next = env.form_api.press k form in
        after_edit_key-IsBlank (record m { edit_form = some next }) v k
          (env.form_api.form_state next)

    edit_keys-IsBlank : BlankStep (edit_keys env k m)
    unfolding edit_keys
    edit_keys-IsBlank =
        ground (arith, v, mode_keys-IsBlank m v k, press_edit_form-IsBlank m.edit_form)

    detail_keys-IsBlank : BlankStepIf (detail_keys env k m)
    unfolding detail_keys
    detail_keys-IsBlank =
        if_cases BlankStepIf (m.context_linking || m.context_creating) _ _
          (λ _. context_prompt_keys-IsBlank m v k)
          (λ _. silently-IsBlank m v k (browse_detail env k m) (browse_detail-IsBlank m v k))

    view_keys-IsBlank : (w : JobsView) → BlankStepIf (view_keys env w k m)
    unfolding view_keys
    view_keys-IsBlank view_add = add_keys-IsBlank m v k
    view_keys-IsBlank view_edit = edit_keys-IsBlank
    view_keys-IsBlank view_detail = detail_keys-IsBlank
    view_keys-IsBlank view_list = list_keys-IsBlank m v k

    on_press-IsBlank : BlankStepIf (on_press env k m)
    unfolding on_press
    on_press-IsBlank =
        if_cases BlankStepIf m.creating_subtask _ _ (λ _. subtask_input-IsBlank m v k)
          λ _.
            if_cases BlankStepIf m.linking_rel _ _ (λ _. link_input-IsBlank m v k)
              λ _.
                if_cases BlankStepIf m.unlinking_rel _ _ (λ _. unlink_input-IsBlank m v k)
                  λ _.
                    if_cases BlankStepIf m.changing_st _ _ (λ _. status_input-IsBlank m v k)
                      λ _.
                        if_cases BlankStepIf m.mode_focus _ _ (λ _. mode_keys-IsBlank m v k)
                          (λ _. view_keys-IsBlank m.view)

  forward_msg-IsBlank :
      (m : Model env) → IsBlank m → (w : JobsView) → BlankStep (forward_msg env w m)
  unfolding forward_msg forward_add forward_edit
  forward_msg-IsBlank m v view_add = ground (arith, v)
  forward_msg-IsBlank m v view_edit = ground (arith, v)
  forward_msg-IsBlank m v view_detail = v
  forward_msg-IsBlank m v view_list = v

  pub jobs_update-IsBlank :
      (m : Model env) → IsBlank m → (msg : JobsMsg) → BlankStepIf (jobs_update env msg m)
  unfolding jobs_update apply_job_search
  jobs_update-IsBlank m v spinner_tick = v
  jobs_update-IsBlank m v (jobs_loaded items) = v
  jobs_update-IsBlank m v (rels_loaded id rels) =
      if_cases IsBlank (shows_job env id m.detail) _ _ (λ _. v) (λ _. v)
  jobs_update-IsBlank m v (context_loaded id items) =
      if_cases IsBlank (shows_job env id m.detail) _ _ (λ _. v) (λ _. v)
  jobs_update-IsBlank m v relationship_changed = v
  jobs_update-IsBlank m v status_updated = v
  jobs_update-IsBlank m v subtask_created = v
  jobs_update-IsBlank m v job_created = v
  jobs_update-IsBlank m v (failed err) = v
  jobs_update-IsBlank m v (pressed k) = on_press-IsBlank m v k
  jobs_update-IsBlank m v other = forward_msg-IsBlank m v m.view
