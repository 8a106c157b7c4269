-- ===== src/Tests/Editor.antt =====
-- Runs of the metadata editor.
use nebula_core.Prelude.{
  ◌≡◌, refl, ◌≤◌, Bool, true, false, Option, none, some, List, [], ◌∷◌, ◌++◌, if◌then◌else◌, length,
  All, arith, Bool-cases, inl, inr, ap, ℤ, pos,
}
use nebula_core.Text.{
  Text, codes, text_eq, split, split_loop, trim_space, trim_left, trim_right, is_space, join,
}
use nebula_core.Text.Laws.{text_eq_iff}
use nebula_core.Text.Letters.{length-trim_space-le}
use nebula_core.Value.{Value, str, arr, obj, nil, cons, Fields, end, field}
use nebula_core.StringSet.{mem}
use nebula_core.Keys.{KeyPressMsg, is_key, is_space as is_space_key}
use nebula_core.Sanitize.Clean.{IsClean}
use nebula_core.Metadata.{ok, parse_pipe_line}
use nebula_core.Metadata.Structured.{Json, Shrinks, depth_bound, normalize_value}
use nebula_core.Metadata.Settled.{AllTexts, IsSettled, normalize_value_lem}
use nebula_core.Metadata.Print.{metadata_to_input}
use nebula_core.Metadata.Printed.{metadata_to_input-IsClean}
use nebula_core.Editor.State.{
  EditorRow, MetadataEditor, EditorEnv, no_index, is_continuation, drop_last_rune,
}
use nebula_core.Editor.Rows.{has, place_entry, rebuilt_buffer, commit_entry}
use nebula_core.Editor.Keys.{handle_key, scope_keys, toggle_current_scope}
use nebula_core.Editor.Runes.{drop_last_rune-append}
use nebula_core.Editor.Valid.{IsValid, handle_key-IsValid}
use nebula_core.Editor.Buffer.{find_row, last_row, entry_of, commit_entry_lem}

-- A codec that knows one text: `["a"]`.
abbrev small_decode : Text → Option Value
small_decode t =
    if text_eq t (codes "[\"a\"]") then some (arr (cons (str (codes "a")) nil)) else none

abbrev small_json : Json
small_json = record {
  decode = small_decode;
  decode_string = λ t. none;
  encode = λ v. codes "{}";
  runes = length;
}

small_decode-le :
    (raw : Text) (v : Value) → small_decode raw ≡ some v → depth_bound small_json v ≤ length raw
unfolding depth_bound
small_decode-le raw v h = elim (Bool-cases (text_eq raw (codes "[\"a\"]"))) [
  | inl e ↦
      let same : raw ≡ codes "[\"a\"]" = (text_eq_iff raw (codes "[\"a\"]")).0 e in
      ground (arith, ap length same)
  | inr e ↦ absurd (ground arith)
]

small_json-Shrinks : Shrinks small_json
small_json-Shrinks = record {
  decoded_texts = small_decode-le;
  decoded_string = λ raw s h. absurd (ground arith);
  trimmed = length-trim_space-le;
}

-- A text that holds a structure, in a map.
abbrev nested : Value
nested = obj (field (codes "k") (str (codes "[\"a\"]")) end)

normalize_value_lem_example :
    AllTexts (IsSettled small_json) (normalize_value small_json nested)
    × (normalize_value small_json (normalize_value small_json nested)
        ≡ normalize_value small_json nested)
normalize_value_lem_example = normalize_value_lem small_json small_json-Shrinks nested

abbrev nested_fields : Fields
nested_fields = field (codes "k") nested end

metadata_to_input-IsClean_example : All IsClean (metadata_to_input small_json nested_fields)
metadata_to_input-IsClean_example = metadata_to_input-IsClean small_json nested_fields

-- A table as its rows and its cursor.
abbrev Rows : Type 0
Rows = List EditorRow × ℤ

abbrev editor_env : EditorEnv Rows
editor_env = record {
  table_api = record {
    cursor = λ t. t.1;
    set_rows = λ rows t. (rows, t.1);
    set_cursor = λ i t. (t.0, i);
    move_down = λ t. t;
    move_up = λ t. t;
  };
  set_columns = λ t. t;
  new_table = ([], pos 0);
  json = small_json;
  copy = λ t. none;
  drawn_lines = λ t. 1;
}

-- An editor with one row and a typed line.
abbrev typing : MetadataEditor Rows
typing = record {
  active = true;
  buffer = codes "notes";
  scopes = [];
  scope_options = codes "public" ∷ [];
  scope_idx = 0;
  scope_selecting = false;
  rows = record { path = codes "a"; value = codes "1" } ∷ [];
  list = ([], pos 0);
  selected = 0 ∷ [];
  entry_mode = true;
  entry_buf = codes "b | 2";
  entry_edit_idx = no_index;
  inspect_mode = false;
  inspect_row_idx = 0;
  inspect_offset = 0;
  notice = [];
}

typing-IsValid : IsValid typing
unfolding mem
typing-IsValid = record {
  scope_in = omega arith;
  apart = refl;
  inspect_in = λ h. absurd (ground arith);
  selected_in = (omega arith, tt);
  selected_once = (once, tt);
  paths_once = (refl, tt);
}
  where
    once : has 0 [] ≡ false
    once = unfold has in refl

enter : KeyPressMsg
enter = record { name = codes "enter"; space_code = false; text = [] }

handle_key-IsValid_example :
    (r : MetadataEditor Rows × Bool × Option Text) × (handle_key editor_env enter typing ≡ some r)
    × IsValid r.0
handle_key-IsValid_example = handle_key-IsValid editor_env typing enter typing-IsValid

typed_parses : parse_pipe_line (codes "b | 2") 1 ≡ ok (codes "b", codes "2")
unfolding parse_pipe_line split split_loop trim_space trim_left trim_right is_space join
typed_parses = refl

commit_entry_lem_example :
    ((k : Text)
      → find_row k (commit_entry editor_env typing).rows
        ≡ last_row k (
            place_entry typing.entry_edit_idx
              (entry_of editor_env typing (codes "b", codes "2"))
              typing.rows))
    × ((commit_entry editor_env typing).buffer
        ≡ rebuilt_buffer small_json (commit_entry editor_env typing).rows)
commit_entry_lem_example = commit_entry_lem editor_env typing (codes "b", codes "2") typed_parses

-- Two scopes and no options: the second was toggled off, and the space key is pressed again.
abbrev no_options : MetadataEditor Rows
no_options = record typing {
  scopes = codes "public" ∷ [];
  scope_options = [];
  scope_idx = 1;
  scope_selecting = true;
}

space : KeyPressMsg
space = record { name = codes " "; space_code = true; text = codes " " }

panics_without_options : handle_key editor_env space no_options ≡ none
unfolding handle_key scope_keys toggle_current_scope is_key is_space_key text_eq space
panics_without_options = refl

-- An `e` with an acute accent, of two bytes.
drop_last_rune-append_example : drop_last_rune (codes "caf" ++ 195 ∷ 169 ∷ []) ≡ codes "caf"
drop_last_rune-append_example =
    drop_last_rune-append (codes "caf") 195 (169 ∷ []) lead-byte (next_byte, tt)
  where
    lead-byte : is_continuation 195 ≡ false
    lead-byte = unfold is_continuation in refl

    next_byte : is_continuation 169 ≡ true
    next_byte = unfold is_continuation in refl
