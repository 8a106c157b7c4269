-- ===== src/Jobs/State.antt =====
-- The state of the screen, its messages and its commands. The forms are those of charm.land/huh.
use nebula_core.Prelude.{Bool, false, Option, none, List, []}
use nebula_core.Text.{Text, codes}
use nebula_core.Keys.{KeyPressMsg}
use nebula_core.Table.{TableApi}
use nebula_core.Relationships.State.{Job, Relationship, Context, CreateInput}

pub data JobsView : Type 0 where
  view_add view_list view_detail view_edit : JobsView

pub record CreateJobInput : Type 0 where
  pub title : Text
  pub description : Text
  pub status : Text
  pub priority : Text

pub record UpdateJobInput : Type 0 where
  pub status : Text
  pub priority : Text
  pub description : Text

pub data FormState : Type 0 where
  open_form completed aborted : FormState

-- A form holds pointers to variables. They are fields of the copy of the model on which the form was
-- made, and a copy that is returned has fields of its own: what is typed into a form stays with the
-- form, and the fields of the model are only read when the form is made.
pub record FormApi (Form : Type 0) : Type 0 where
  pub new_add : Text → Text → Text → Text → Form
  pub new_edit : Text → Text → Text → Form
  pub press : KeyPressMsg → Form → Form
  pub forward : Form → Form
  pub form_state : Form → FormState

pub record JobsEnv (Table Form : Type 0) : Type 0 where
  pub table_api : TableApi Text Table
  pub new_table : Table
  pub form_api : FormApi Form

pub record JobsModel (Table Form : Type 0) : Type 0 where
  pub all_items : List Job
  pub items : List Job
  pub data_table : Table
  pub selected : List Text
  pub loading : Bool
  pub detail : Option Job
  pub detail_rels : List Relationship
  pub filtering : Bool
  pub search_buf : Text
  pub search_suggest : Text
  pub view : JobsView
  pub mode_focus : Bool
  pub changing_st : Bool
  pub status_buf : Text
  pub status_targets : List Text
  pub creating_subtask : Bool
  pub subtask_buf : Text
  pub linking_rel : Bool
  pub link_buf : Text
  pub unlinking_rel : Bool
  pub unlink_buf : Text
  pub detail_context : List Context
  pub context_loading : Bool
  pub context_linking : Bool
  pub context_link_buf : Text
  pub context_creating : Bool
  pub context_create_buf : Text
  pub add_form : Option Form
  pub add_title : Text
  pub add_desc : Text
  pub add_status : Text
  pub add_priority : Text
  pub add_saving : Bool
  pub add_saved : Bool
  pub add_err : Text
  pub edit_form : Option Form
  pub edit_status : Text
  pub edit_priority : Text
  pub edit_desc : Text
  pub edit_saving : Bool

-- `other` stands for the messages of other kinds, which go to the open form.
pub data JobsMsg : Type 0 where
  spinner_tick : JobsMsg
  jobs_loaded : List Job → JobsMsg
  rels_loaded : Text → List Relationship → JobsMsg
  context_loaded : Text → List Context → JobsMsg
  relationship_changed : JobsMsg
  status_updated : JobsMsg
  subtask_created : JobsMsg
  job_created : JobsMsg
  failed : Text → JobsMsg
  pressed : KeyPressMsg → JobsMsg
  other : JobsMsg

-- What a `tea.Cmd` of the screen does: `fail` sends the error, `load_detail` is the batch of the two
-- loads, the context commands carry the job whose context is loaded after them.
pub data JobsCmd : Type 0 where
  nothing : JobsCmd
  form_cmd : JobsCmd
  load_jobs : JobsCmd
  load_detail : Text → JobsCmd
  load_rels : Text → JobsCmd
  fail : Text → JobsCmd
  update_job_status : List Text → Text → JobsCmd
  create_subtask : Text → Text → JobsCmd
  create_relationship : CreateInput → JobsCmd
  archive_relationship : Text → JobsCmd
  link_context : Text → Text → JobsCmd
  create_context : Text → Text → JobsCmd
  create_job : CreateJobInput → JobsCmd
  update_job : Text → UpdateJobInput → JobsCmd

abbrev pub pending : Text
pending = codes "pending"

-- NewJobsModel
abbrev pub new_jobs_model : {Table Form : Type 0} → JobsEnv Table Form → JobsModel Table Form
new_jobs_model env = record {
  all_items = [];
  items = [];
  data_table = env.new_table;
  selected = [];
  loading = false;
  detail = none;
  detail_rels = [];
  filtering = false;
  search_buf = [];
  search_suggest = [];
  view = view_list;
  mode_focus = false;
  changing_st = false;
  status_buf = [];
  status_targets = [];
  creating_subtask = false;
  subtask_buf = [];
  linking_rel = false;
  link_buf = [];
  unlinking_rel = false;
  unlink_buf = [];
  detail_context = [];
  context_loading = false;
  context_linking = false;
  context_link_buf = [];
  context_creating = false;
  context_create_buf = [];
  add_form = none;
  add_title = [];
  add_desc = [];
  add_status = pending;
  add_priority = [];
  add_saving = false;
  add_saved = false;
  add_err = [];
  edit_form = none;
  edit_status = [];
  edit_priority = [];
  edit_desc = [];
  edit_saving = false;
}
