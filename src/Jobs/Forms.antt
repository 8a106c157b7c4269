-- ===== src/Jobs/Forms.antt =====
-- The forms that add and edit a job.
use nebula_core.Prelude.{true, false, Option, none, some, [], if◌then◌else◌, is_empty}
use nebula_core.Text.{Text, codes, trim_space}
use nebula_core.Keys.{KeyPressMsg, is_back}
use nebula_core.Jobs.State.{
  view_detail, FormState, open_form, completed, aborted, JobsEnv, JobsCmd, nothing, form_cmd,
  create_job, update_job, pending,
}
use nebula_core.Jobs.Search.{Model}
use nebula_core.Jobs.Listing.{mode_keys}

unfoldable pub value_or_empty : Option Text → Text
value_or_empty none = []
value_or_empty (some t) = t

-- The status, `pending` where there is none.
unfoldable pub status_or_pending : Text → Text
status_or_pending status = if is_empty status then pending else status

module _ {Table Form : Type 0} (env : JobsEnv Table Form) where
  unfoldable pub init_add_form : Model env → Model env
  init_add_form m = record m {
    add_form = some (env.form_api.new_add m.add_title m.add_desc m.add_status m.add_priority);
  }

  unfoldable pub init_edit_form : Model env → Model env
  init_edit_form m = record m {
    edit_form = some (env.form_api.new_edit m.edit_status m.edit_desc m.edit_priority);
  }

  unfoldable pub reset_add_form : Model env → Model env
  unfolding init_add_form
  reset_add_form m = init_add_form (record m {
    add_saved = false;
    add_saving = false;
    add_err = [];
    add_title = [];
    add_desc = [];
    add_status = pending;
    add_priority = [];
  })

  unfoldable pub save_add : Model env → Model env × JobsCmd
  unfolding status_or_pending
  save_add m =
      let title = trim_space m.add_title in
      if is_empty title then (record m { add_err = codes "Title is required" }, nothing) else (
        record m { add_saving = true },
        create_job (record {
          title = title;
          description = trim_space m.add_desc;
          status = status_or_pending m.add_status;
          priority = trim_space m.add_priority;
        }),
      )

  -- What the state of the form leads to after a key.
  unfoldable pub after_add_key : FormState → Model env → Model env × JobsCmd
  unfolding save_add reset_add_form
  after_add_key completed m = save_add m
  after_add_key aborted m = (reset_add_form m, nothing)
  after_add_key open_form m = (m, form_cmd)

  unfoldable pub press_add_form : KeyPressMsg → Option Form → Model env → Model env × JobsCmd
  unfolding init_add_form after_add_key
  press_add_form msg none m = (init_add_form m, form_cmd)
  press_add_form msg (some form) m =
      let next = env.form_api.press msg form in
      after_add_key (env.form_api.form_state next) (record m { add_form = some next })

  unfoldable pub add_keys : KeyPressMsg → Model env → Model env × JobsCmd
  unfolding reset_add_form mode_keys press_add_form
  add_keys msg m =
      if m.add_saving
      then (m, nothing)
      else if m.add_saved
      then (if is_back msg then reset_add_form m else m, nothing)
      else if m.mode_focus
      then mode_keys env msg m
      else press_add_form msg m.add_form m

  unfoldable pub start_edit : Model env → Model env
  unfolding value_or_empty init_edit_form
  start_edit m = elim m.detail [
    | none ↦ m
    | some j ↦ init_edit_form (record m {
      edit_status = j.status;
      edit_priority = value_or_empty j.priority;
      edit_desc = value_or_empty j.description;
      edit_saving = false;
      edit_form = none;
    })
  ]

  unfoldable pub save_edit : Model env → Model env × JobsCmd
  unfolding status_or_pending
  save_edit m = elim m.detail [
    | none ↦ (m, nothing)
    | some j ↦ (
      record m { edit_saving = true },
      update_job j.id (record {
        status = status_or_pending m.edit_status;
        priority = trim_space m.edit_priority;
        description = trim_space m.edit_desc;
      }),
    )
  ]

  unfoldable pub after_edit_key : FormState → Model env → Model env × JobsCmd
  unfolding save_edit
  after_edit_key completed m = save_edit m
  after_edit_key aborted m = (record m { view = view_detail }, nothing)
  after_edit_key open_form m = (m, form_cmd)

  unfoldable pub press_edit_form : KeyPressMsg → Option Form → Model env → Model env × JobsCmd
  unfolding init_edit_form after_edit_key
  press_edit_form msg none m = (init_edit_form m, form_cmd)
  press_edit_form msg (some form) m =
      let next = env.form_api.press msg form in
      after_edit_key (env.form_api.form_state next) (record m { edit_form = some next })

  unfoldable pub edit_keys : KeyPressMsg → Model env → Model env × JobsCmd
  unfolding mode_keys press_edit_form
  edit_keys msg m =
      if m.edit_saving
      then (m, nothing)
      else if m.mode_focus
      then mode_keys env msg m
      else if is_back msg
      then (record m { view = view_detail }, nothing)
      else press_edit_form msg m.edit_form m
