-- ===== src/Relationships/State.antt =====
-- The state of the screen, its messages and its commands. Of the records of the API (types.go) the
-- times, addresses and contents, which are only drawn, are left out.
use nebula_core.Prelude.{ℕ, Bool, Option, none, some, List, [], ◌∷◌, get_elem?, length, pos}
use nebula_core.Text.{Text, codes}
use nebula_core.Keys.{KeyPressMsg}
use nebula_core.Table.{TableApi}
use nebula_core.Diff.{TextMap}
use nebula_core.Editor.State.{MetadataEditor, EditorEnv, index_below}

pub record Relationship : Type 0 where
  pub id : Text
  pub source_type : Text
  pub source_id : Text
  pub source_name : Text
  pub target_type : Text
  pub target_id : Text
  pub target_name : Text
  pub kind : Text
  pub status : Text
  pub notes : Text

pub record Entity : Type 0 where
  pub id : Text
  pub name : Text
  pub kind : Text
  pub status : Text
  pub tags : List Text

pub record Context : Type 0 where
  pub id : Text
  pub title : Text
  pub name : Text
  pub source_type : Text
  pub status : Text
  pub tags : List Text

pub record Job : Type 0 where
  pub id : Text
  pub title : Text
  pub description : Option Text
  pub status : Text
  pub priority : Option Text

pub data RelationshipsView : Type 0 where
  view_list view_detail view_edit view_confirm : RelationshipsView
  create_source_search create_source_select create_target_search create_target_select :
      RelationshipsView
  create_type : RelationshipsView

pub record Candidate : Type 0 where
  pub id : Text
  pub node_type : Text
  pub name : Text
  pub kind : Text
  pub status : Text
  pub tags : List Text

pub record UpdateInput : Type 0 where
  pub status : Option Text
  pub notes : Text

pub record CreateInput : Type 0 where
  pub source_type : Text
  pub source_id : Text
  pub target_type : Text
  pub target_id : Text
  pub kind : Text

-- The text area of charm.land/bubbles.
pub record TextareaApi (Area : Type 0) : Type 0 where
  pub fresh : Area
  pub set_value : Text → Area → Area
  pub value : Area → Text
  pub update : KeyPressMsg → Area → Area

-- What the screen takes from outside.
pub record ScreenEnv (Table Area : Type 0) : Type 0 where
  pub table_api : TableApi Text Table
  pub editor_env : EditorEnv Table
  pub area_api : TextareaApi Area

pub record RelationshipsModel (Table Area : Type 0) : Type 0 where
  pub items : List Relationship
  pub all_items : List Relationship
  pub data_table : Table
  pub loading : Bool
  pub view : RelationshipsView
  pub mode_focus : Bool
  pub filtering : Bool
  pub filter_buf : Text
  pub names : TextMap
  pub scope_options : List Text
  pub entity_cache : List Entity
  pub context_cache : List Context
  pub job_cache : List Job
  pub detail : Option Relationship
  pub meta_expanded : Bool
  pub edit_focus : ℕ
  pub edit_status_idx : ℕ
  pub edit_meta : MetadataEditor Table
  pub edit_saving : Bool
  pub confirm_kind : Text
  pub create_query : Text
  pub create_results : List Candidate
  pub create_table : Table
  pub create_source : Option Candidate
  pub create_target : Option Candidate
  pub create_kind : Text
  pub create_type_results : List Text
  pub create_type_table : Table
  pub create_type_nav : Bool
  pub create_loading : Bool
  pub type_options : List Text
  pub notes_editing : Bool
  pub notes_textarea : Area
  pub notes_dirty : Bool

-- Ticks of the spinner change nothing else.
pub data RelMsg : Type 0 where
  spinner_tick : RelMsg
  loaded : List Relationship → RelMsg
  names_loaded : TextMap → RelMsg
  scopes_loaded : List Text → RelMsg
  entities_loaded : List Entity → RelMsg
  contexts_loaded : List Context → RelMsg
  jobs_loaded : List Job → RelMsg
  results : Text → List Candidate → RelMsg
  saved : RelMsg
  notes_saved : RelMsg
  failed : RelMsg
  pressed : KeyPressMsg → RelMsg

-- What a `tea.Cmd` of the screen asks of the server; `area_cmd` is the blinking of the text area.
pub data RelCmd : Type 0 where
  nothing : RelCmd
  area_cmd : RelCmd
  load_relationships : RelCmd
  load_names : List Relationship → RelCmd
  search_nodes : Text → RelCmd
  update_relationship : Text → UpdateInput → RelCmd
  create_relationship : CreateInput → RelCmd

abbrev pub status_options : List Text
status_options = codes "active" ∷ codes "inactive" ∷ []

-- The item under the cursor of a table, none where the cursor is out of range.
unfoldable pub picked : {Table A : Type 0} → TableApi Text Table → Table → List A → Option A
unfolding index_below
picked api table xs = elim (index_below (api.cursor table) (length xs)) [
  | none ↦ none
  | some i ↦ get_elem? xs i
]

-- SetRows(rows) and SetCursor(0).
abbrev pub show_rows : {Table : Type 0} → TableApi Text Table → List Text → Table → Table
show_rows api rows table = api.set_cursor (pos 0) (api.set_rows rows table)
