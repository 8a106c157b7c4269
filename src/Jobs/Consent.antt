-- ===== src/Jobs/Consent.antt =====
-- What the screen asks the server to write, and what it never asks for.
use nebula_core.Prelude.{
  ◌≡◌, refl, subst, true, false, ◌||◌, Option, none, some, [], ◌∷◌, if_cases, is_empty,
}
use nebula_core.Text.{codes, trim_space}
use nebula_core.Keys.{KeyPressMsg, is_key, is_back, is_up, is_down, is_enter, is_space}
use nebula_core.Relationships.State.{Job}
use nebula_core.Jobs.State.{
  JobsView, view_add, view_list, view_detail, view_edit, FormState, open_form, completed, aborted,
  JobsEnv, pressed, JobsCmd, nothing, form_cmd, load_jobs, load_detail, update_job,
}
use nebula_core.Jobs.Search.{Model, job_at_cursor}
use nebula_core.Jobs.Listing.{open_job, list_keys, toggle_mode, mode_keys, is_add_view}
use nebula_core.Jobs.Forms.{
  status_or_pending, save_add, after_add_key, press_add_form, add_keys, save_edit, after_edit_key,
  press_edit_form, edit_keys,
}
use nebula_core.Jobs.Update.{browse_detail, silently, detail_keys, view_keys, on_press, jobs_update}
use nebula_core.Jobs.Requests.{
  Consent, harmless, adds_job, edits_job, Asks, idle, status_input-Asks, subtask_input-Asks,
  link_input-Asks, unlink_input-Asks, context_prompt_keys-Asks,
}

module _ {Table Form : Type 0} (env : JobsEnv Table Form) where
  module _ (m : Model env) (k : KeyPressMsg) where
    abbrev Allowed : Model env × JobsCmd → Type 0
    Allowed = Asks env m k

    abbrev AllowedIf : Option (Model env × JobsCmd) → Type 0
    AllowedIf none = Unit
    AllowedIf (some r) = Allowed r

    silent : Consent env m k nothing
    silent = idle env m k

    typing : Consent env m k form_cmd
    typing = harmless form_cmd refl

    toggle_mode-Allowed : Allowed (toggle_mode env m)
    unfolding toggle_mode
    toggle_mode-Allowed =
        if_cases Allowed (is_add_view env m.view) _ _ (λ _. harmless load_jobs refl) (λ _. silent)

    mode_keys-Allowed : Allowed (mode_keys env k m)
    unfolding mode_keys
    mode_keys-Allowed =
        if_cases Allowed (is_down k || is_up k) _ _ (λ _. silent)
          λ _.
            if_cases Allowed
              (is_key k (codes "left" ∷ [])
                || (is_key k (codes "right" ∷ []) || (is_space k || is_enter k)))
              _ _ (λ _. toggle_mode-Allowed)
              (λ _. if_cases Allowed (is_back k) _ _ (λ _. silent) (λ _. silent))

    list_keys-Allowed : Allowed (list_keys env k m)
    unfolding list_keys open_job
    list_keys-Allowed =
        if_cases Allowed m.filtering _ _ (λ _. silent)
          λ _.
            if_cases Allowed (is_down k) _ _ (λ _. silent)
              λ _.
                if_cases Allowed (is_up k) _ _ (λ _. silent)
                  λ _.
                    if_cases Allowed (is_enter k) _ _ (λ _. opened (job_at_cursor env m))
                      (λ _. silent)
      where
        opened :
            (o : Option Job)
            → Allowed (elim o [
              | none ↦ (m, nothing)
              | some j ↦ (
                record m {
                  detail = some j;
                  detail_rels = [];
                  detail_context = [];
                  context_loading = true;
                  view = view_detail;
                },
                load_detail j.id,
              )
            ])
        opened none = silent
        opened (some j) = harmless (load_detail j.id) refl

    -- The form of the add view takes the key, and the key completes it.
    record AddIsDone : Type 0 where
      form : Form
      shown : m.view ≡ view_add
      not_saving : m.add_saving ≡ false
      not_saved : m.add_saved ≡ false
      filled_in : m.add_form ≡ some form
      done : env.form_api.form_state (env.form_api.press k form) ≡ completed

    -- The form of the edit view takes the key, and the key completes it.
    record EditIsDone : Type 0 where
      form : Form
      shown : m.view ≡ view_edit
      not_saving : m.edit_saving ≡ false
      not_back : is_back k ≡ false
      filled_in : m.edit_form ≡ some form
      done : env.form_api.form_state (env.form_api.press k form) ≡ completed

    save_add-Allowed :
        AddIsDone → (o : Option Form) → Allowed (save_add env (record m { add_form = o }))
    unfolding save_add
    save_add-Allowed d o =
        if_cases Allowed (is_empty (trim_space m.add_title)) _ _ (λ _. silent)
          (λ n. adds_job d.form d.shown d.not_saving d.not_saved d.filled_in d.done n)

    save_edit-Allowed :
        EditIsDone → (o : Option Form) → Allowed (save_edit env (record m { edit_form = o }))
    unfolding save_edit
    save_edit-Allowed d o = by_detail m.detail refl
      where
        by_detail :
            (d : Option Job)
            → m.detail ≡ d
            → Allowed (elim d [
              | none ↦ (record m { edit_form = o }, nothing)
              | some j ↦ (
                record m { edit_form = o; edit_saving = true },
                update_job j.id (record {
                  status = status_or_pending m.edit_status;
                  priority = trim_space m.edit_priority;
                  description = trim_space m.edit_desc;
                }),
              )
            ])
        by_detail none p = silent
        by_detail (some j) p =
            edits_job d.form j d.shown d.not_saving d.not_back d.filled_in d.done p

    after_add-Allowed :
        (o : Option Form) (s : FormState)
        → (s ≡ completed → AddIsDone)
        → Allowed (after_add_key env s (record m { add_form = o }))
    unfolding after_add_key
    after_add-Allowed o completed d = save_add-Allowed (d refl) o
    after_add-Allowed o aborted d = silent
    after_add-Allowed o open_form d = typing

    press_add_form-Allowed :
        m.view ≡ view_add
        → m.add_saving ≡ false
        → m.add_saved ≡ false
        → (o : Option Form) → m.add_form ≡ o
        → Allowed (press_add_form env k o m)
    unfolding press_add_form
    press_add_form-Allowed w sv sd none e = typing
    press_add_form-Allowed w sv sd (some form) e =
        let next = env.form_api.press k form in
        after_add-Allowed (some next) (env.form_api.form_state next) λ d. record {
          form = form;
          shown = w;
          not_saving = sv;
          not_saved = sd;
          filled_in = e;
          done = d;
        }

    add_keys-Allowed : m.view ≡ view_add → Allowed (add_keys env k m)
    unfolding add_keys
    add_keys-Allowed w =
        if_cases Allowed m.add_saving _ _ (λ _. silent)
          λ sv.
            if_cases Allowed m.add_saved _ _ (λ _. silent)
              λ sd.
                if_cases Allowed m.mode_focus _ _ (λ _. mode_keys-Allowed)
                  (λ _. press_add_form-Allowed w sv sd m.add_form refl)

    after_edit-Allowed :
        (o : Option Form) (s : FormState)
        → (s ≡ completed → EditIsDone)
        → Allowed (after_edit_key env s (record m { edit_form = o }))
    unfolding after_edit_key
    after_edit-Allowed o completed d = save_edit-Allowed (d refl) o
    after_edit-Allowed o aborted d = silent
    after_edit-Allowed o open_form d = typing

    press_edit_form-Allowed :
        m.view ≡ view_edit
        → m.edit_saving ≡ false
        → is_back k ≡ false
        → (o : Option Form) → m.edit_form ≡ o
        → Allowed (press_edit_form env k o m)
    unfolding press_edit_form
    press_edit_form-Allowed w sv b none e = typing
    press_edit_form-Allowed w sv b (some form) e =
        let next = env.form_api.press k form in
        after_edit-Allowed (some next) (env.form_api.form_state next) λ d. record {
          form = form;
          shown = w;
          not_saving = sv;
          not_back = b;
          filled_in = e;
          done = d;
        }

    edit_keys-Allowed : m.view ≡ view_edit → Allowed (edit_keys env k m)
    unfolding edit_keys
    edit_keys-Allowed w =
        if_cases Allowed m.edit_saving _ _ (λ _. silent)
          λ sv.
            if_cases Allowed m.mode_focus _ _ (λ _. mode_keys-Allowed)
              λ _.
                if_cases Allowed (is_back k) _ _ (λ _. silent)
                  (λ b. press_edit_form-Allowed w sv b m.edit_form refl)

    silently-Allowed : (o : Option (Model env)) → AllowedIf (silently env o)
    silently-Allowed none = tt
    silently-Allowed (some r) = silent

    detail_keys-Allowed : AllowedIf (detail_keys env k m)
    unfolding detail_keys
    detail_keys-Allowed =
        if_cases AllowedIf (m.context_linking || m.context_creating) _ _
          (λ _. context_prompt_keys-Asks env m k) (λ _. silently-Allowed (browse_detail env k m))

    view_keys-Allowed : (w : JobsView) → m.view ≡ w → AllowedIf (view_keys env w k m)
    unfolding view_keys
    view_keys-Allowed view_add e = add_keys-Allowed e
    view_keys-Allowed view_edit e = edit_keys-Allowed e
    view_keys-Allowed view_detail e = detail_keys-Allowed
    view_keys-Allowed view_list e = list_keys-Allowed

    on_press-Allowed : AllowedIf (on_press env k m)
    unfolding on_press
    on_press-Allowed =
        if_cases AllowedIf m.creating_subtask _ _ (λ e. subtask_input-Asks env m k e)
          λ _.
            if_cases AllowedIf m.linking_rel _ _ (λ e. link_input-Asks env m k e)
              λ _.
                if_cases AllowedIf m.unlinking_rel _ _ (λ e. unlink_input-Asks env m k e)
                  λ _.
                    if_cases AllowedIf m.changing_st _ _ (λ e. status_input-Asks env m k e)
                      λ _.
                        if_cases AllowedIf m.mode_focus _ _ (λ _. mode_keys-Allowed)
                          (λ _. view_keys-Allowed m.view refl)

    -- A key asks for a write only with consent: enter in the prompt for it, with the text of the
    -- prompt and for the jobs that it is about; or, for a new job and for an edited one, the key that
    -- completes the form of the view that is shown while nothing is being saved, with the fields of
    -- the model and, for an edited one, for the job in detail.
    pub jobs_update-Consent :
        (r : Model env × JobsCmd) → jobs_update env (pressed k) m ≡ some r → Consent env m k r.1
    unfolding jobs_update
    jobs_update-Consent r h = subst AllowedIf h on_press-Allowed
