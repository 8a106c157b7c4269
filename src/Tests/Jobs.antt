-- ===== src/Tests/Jobs.antt =====
-- Runs of the jobs screen.
use nebula_core.Prelude.{◌≡◌, refl, true, false, some, [], ◌∷◌, ◌++◌, ℤ, pos}
use nebula_core.Text.{Text, codes, text_eq, trim_space, trim_left, trim_right, is_space}
use nebula_core.Keys.{
  KeyPressMsg, is_key, is_back, is_up, is_down, is_enter, is_space as is_space_key,
}
use nebula_core.Jobs.State.{
  view_add, view_detail, view_edit, completed, JobsEnv, JobsModel, status_updated, pressed, JobsCmd,
  nothing, form_cmd, load_jobs, update_job_status, new_jobs_model,
}
use nebula_core.Jobs.Listing.{list_keys, list_up, mode_keys, toggle_mode, is_add_view}
use nebula_core.Jobs.Forms.{add_keys, press_add_form, after_add_key, init_add_form, save_add}
use nebula_core.Jobs.Prompts.{status_input, send_status}
use nebula_core.Jobs.Update.{jobs_update, on_press, view_keys}
use nebula_core.Jobs.Panics.{is_none, crashes, jobs_update-is_none, saved_edit_lem}
use nebula_core.Jobs.Requests.{Consent}
use nebula_core.Jobs.Consent.{jobs_update-Consent}
use nebula_core.Jobs.Reach.{is_create_job, Reachable, start, step, jobs_update-adds_none}

-- A table as its cursor, and a form as the title typed into it, which every key completes.
abbrev jobs_env : JobsEnv ℤ Text
jobs_env = record {
  table_api = record {
    cursor = λ t. t;
    set_rows = λ rows t. t;
    set_cursor = λ i t. i;
    move_down = λ t. t;
    move_up = λ t. t;
  };
  new_table = pos 0;
  form_api = record {
    new_add = λ title desc status priority. title;
    new_edit = λ status desc priority. desc;
    press = λ k form. form ++ k.text;
    forward = λ form. form;
    form_state = λ form. completed;
  };
}

abbrev fresh : JobsModel ℤ Text
fresh = new_jobs_model jobs_env

abbrev key : Text → Text → KeyPressMsg
key name text = record { name = name; space_code = false; text = text }

s_press : KeyPressMsg
s_press = key (codes "s") (codes "s")

-- A status was changed from the detail view: the job is gone, the view is not.
abbrev without_job : JobsModel ℤ Text
without_job = record fresh { view = view_detail }

panics : crashes jobs_env (pressed s_press) without_job ≡ true
unfolding is_key text_eq s_press
panics = refl

jobs_update-is_none_example :
    is_none (jobs_update jobs_env (pressed s_press) without_job)
    ≡ crashes jobs_env (pressed s_press) without_job
jobs_update-is_none_example = jobs_update-is_none jobs_env (pressed s_press) without_job

-- An edit on its way to the server.
abbrev saving_edit : JobsModel ℤ Text
saving_edit = record fresh { view = view_edit; edit_saving = true }

saved_edit_lem_example :
    (r : JobsModel ℤ Text) × (jobs_update jobs_env status_updated saving_edit ≡ some (r, load_jobs))
    × ((k : KeyPressMsg) → jobs_update jobs_env (pressed k) r ≡ some (r, nothing))
saved_edit_lem_example = saved_edit_lem jobs_env saving_edit refl refl refl

-- A status is typed for two jobs.
abbrev typing_status : JobsModel ℤ Text
typing_status = record fresh {
  changing_st = true;
  status_buf = codes " done";
  status_targets = codes "j1" ∷ codes "j2" ∷ [];
}

enter : KeyPressMsg
enter = key (codes "enter") []

abbrev status_sent : JobsModel ℤ Text
status_sent = record typing_status {
  changing_st = false;
  status_buf = [];
  status_targets = [];
  selected = [];
}

abbrev done : JobsCmd
done = update_job_status (codes "j1" ∷ codes "j2" ∷ []) (codes "done")

sends_status : jobs_update jobs_env (pressed enter) typing_status ≡ some (status_sent, done)
unfolding jobs_update on_press status_input send_status enter is_back is_enter is_key text_eq
    trim_space trim_left trim_right is_space
sends_status = refl

jobs_update-Consent_example : Consent jobs_env typing_status enter done
jobs_update-Consent_example =
    jobs_update-Consent jobs_env typing_status enter (status_sent, done) sends_status

-- Up to the mode line, to the add view, and a title typed into its form.
up : KeyPressMsg
up = key (codes "up") []

abbrev on_mode_line : JobsModel ℤ Text
on_mode_line = record fresh { mode_focus = true }

abbrev adding : JobsModel ℤ Text
adding = record fresh { view = view_add }

abbrev form_open : JobsModel ℤ Text
form_open = record adding { add_form = some [] }

abbrev refused : JobsModel ℤ Text
refused = record adding { add_form = some (codes "s"); add_err = codes "Title is required" }

went_up : jobs_update jobs_env (pressed up) fresh ≡ some (on_mode_line, nothing)
unfolding jobs_update on_press view_keys list_keys list_up up is_down is_up is_key text_eq
went_up = refl

mode_toggled : jobs_update jobs_env (pressed enter) on_mode_line ≡ some (adding, nothing)
unfolding jobs_update on_press mode_keys toggle_mode is_add_view enter is_down is_up is_enter
    is_space_key is_key text_eq
mode_toggled = refl

form_opened : jobs_update jobs_env (pressed s_press) adding ≡ some (form_open, form_cmd)
unfolding jobs_update on_press view_keys add_keys press_add_form init_add_form s_press
form_opened = refl

title_lost : jobs_update jobs_env (pressed s_press) form_open ≡ some (refused, nothing)
unfolding jobs_update on_press view_keys add_keys press_add_form after_add_key save_add s_press
    trim_space trim_left trim_right is_space
title_lost = refl

form_open-Reachable : Reachable jobs_env form_open
form_open-Reachable =
    let at_mode = step fresh (pressed up) (on_mode_line, nothing) start went_up in
    let at_add = step on_mode_line (pressed enter) (adding, nothing) at_mode mode_toggled in
    step adding (pressed s_press) (form_open, form_cmd) at_add form_opened

jobs_update-adds_none_example : is_create_job nothing ≡ false
jobs_update-adds_none_example =
    jobs_update-adds_none jobs_env form_open (pressed s_press) (refused, nothing)
      form_open-Reachable title_lost
