-- ===== src/Tests/Relationships.antt =====
-- Runs of the relationships screen.
use nebula_core.Prelude.{
  ℕ, ◌≤◌, ◌≡◌, refl, true, false, none, some, [], ◌∷◌, ℤ, pos, replicate, length, arith,
}
use nebula_core.Text.{Text, codes, text_eq, trim_space, trim_left, trim_right, is_space}
use nebula_core.Keys.{KeyPressMsg, is_key, is_back, is_up, is_down, is_enter}
use nebula_core.Editor.State.{MetadataEditor, no_index}
use nebula_core.Relationships.State.{
  view_list, create_type, Candidate, CreateInput, ScreenEnv, RelationshipsModel, pressed, RelCmd,
  create_relationship,
}
use nebula_core.Relationships.Create.{input_of, type_step, finish, chosen_kind}
use nebula_core.Relationships.Update.{on_press, view_keys, rel_update}
use nebula_core.Relationships.Valid.{IsValid}
use nebula_core.Relationships.Steps.{rel_update-IsValid}
use nebula_core.Relationships.Requests.{Consent}
use nebula_core.Relationships.Consent.{rel_update-Consent}
use nebula_core.Relationships.Escape.{esc, run_idle, IsUncovered, run_idle-esc}

-- A table as its cursor, a text area as its text.
abbrev screen_env : ScreenEnv ℤ Text
screen_env = record {
  table_api = record {
    cursor = λ t. t;
    set_rows = λ rows t. t;
    set_cursor = λ i t. i;
    move_down = λ t. t;
    move_up = λ t. t;
  };
  editor_env = record {
    table_api = record {
      cursor = λ t. t;
      set_rows = λ rows t. t;
      set_cursor = λ i t. i;
      move_down = λ t. t;
      move_up = λ t. t;
    };
    set_columns = λ t. t;
    new_table = pos 0;
    json = record {
      decode = λ t. none;
      decode_string = λ t. none;
      encode = λ v. codes "{}";
      runes = length;
    };
    copy = λ t. none;
    drawn_lines = λ t. 1;
  };
  area_api = record { fresh = []; set_value = λ t a. t; value = λ a. a; update = λ k a. a };
}

abbrev quiet_editor : MetadataEditor ℤ
quiet_editor = record {
  active = false;
  buffer = [];
  scopes = [];
  scope_options = codes "public" ∷ [];
  scope_idx = 0;
  scope_selecting = false;
  rows = [];
  list = pos 0;
  selected = [];
  entry_mode = false;
  entry_buf = [];
  entry_edit_idx = no_index;
  inspect_mode = false;
  inspect_row_idx = 0;
  inspect_offset = 0;
  notice = [];
}

abbrev alice : Candidate
alice = record {
  id = codes "e1";
  node_type = codes "entity";
  name = codes "Alice";
  kind = codes "entity/person";
  status = codes "active";
  tags = [];
}

abbrev plan : Candidate
plan = record {
  id = codes "c1";
  node_type = codes "context";
  name = codes "Plan";
  kind = codes "context/note";
  status = codes "active";
  tags = [];
}

-- Both ends are chosen, and the type is typed.
abbrev typing_kind : RelationshipsModel ℤ Text
typing_kind = record {
  items = [];
  all_items = [];
  data_table = pos 0;
  loading = false;
  view = create_type;
  mode_focus = false;
  filtering = false;
  filter_buf = [];
  names = [];
  scope_options = codes "public" ∷ [];
  entity_cache = [];
  context_cache = [];
  job_cache = [];
  detail = none;
  meta_expanded = false;
  edit_focus = 0;
  edit_status_idx = 0;
  edit_meta = quiet_editor;
  edit_saving = false;
  confirm_kind = [];
  create_query = codes "pl";
  create_results = [];
  create_table = pos 0;
  create_source = some alice;
  create_target = some plan;
  create_kind = codes "owns";
  create_type_results = [];
  create_type_table = pos 0;
  create_type_nav = false;
  create_loading = false;
  type_options = [];
  notes_editing = false;
  notes_textarea = [];
  notes_dirty = false;
}

typing_kind-IsValid : IsValid typing_kind
typing_kind-IsValid = record {
  fits = (refl, refl);
  status_in = omega arith;
  focus_in = omega arith;
  editor_in = record {
    scope_in = omega arith;
    apart = refl;
    inspect_in = λ h. absurd (ground arith);
    selected_in = tt;
    selected_once = tt;
    paths_once = tt;
  };
}

enter : KeyPressMsg
enter = record { name = codes "enter"; space_code = false; text = [] }

rel_update-IsValid_example :
    (r : RelationshipsModel ℤ Text × RelCmd) × (rel_update screen_env (pressed enter) typing_kind
      ≡ some r)
    × IsValid r.0
rel_update-IsValid_example =
    rel_update-IsValid screen_env typing_kind (pressed enter) tt typing_kind-IsValid

-- The request that `enter` sends.
abbrev owns : CreateInput
owns = input_of screen_env alice plan (codes "owns")

created :
    rel_update screen_env (pressed enter) typing_kind
    ≡ some (record typing_kind { view = view_list; loading = true }, create_relationship owns)
unfolding rel_update on_press view_keys type_step finish chosen_kind enter is_back is_up is_down
    is_enter is_key text_eq trim_space trim_left trim_right is_space
created = refl

rel_update-Consent_example : Consent screen_env typing_kind enter (create_relationship owns)
rel_update-Consent_example =
    rel_update-Consent screen_env typing_kind enter
      (record typing_kind { view = view_list; loading = true }, create_relationship owns) created

typing_kind-IsUncovered : IsUncovered screen_env typing_kind
typing_kind-IsUncovered = record { no_notes = refl; no_editor = refl; no_mode = refl }

run_idle-esc_example :
    (n : ℕ) × (n ≤ 4)
    × (r : RelationshipsModel ℤ Text) × (run_idle screen_env (replicate n esc) typing_kind ≡ some r)
    × (r.view ≡ view_list)
run_idle-esc_example = run_idle-esc screen_env typing_kind typing_kind-IsUncovered refl
