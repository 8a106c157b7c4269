-- ===== src/Editor/State.antt =====
-- The state of the editor and what it takes from outside.
use nebula_core.Prelude.{
  ℕ, Bool, true, false, ◌&&◌, Option, none, some, List, [], ◌∷◌, ◌++◌, reverse, if◌then◌else◌, leb,
  ltb, length, ℤ, pos, negsuc,
}
use nebula_core.Text.{Text, codes}
use nebula_core.Text.Decimal.{decimal}
use nebula_core.Table.{TableApi}
use nebula_core.Metadata.{
  MetadataError, odd_indent, no_parent, list_item, no_separator, key_empty, inline_object,
  pipe_too_short, pipe_empty_key, empty_segment, taken,
}
use nebula_core.Metadata.Structured.{Json}

pub record EditorRow : Type 0 where
  pub path : Text
  pub value : Text

pub record MetadataEditor (Table : Type 0) : Type 0 where
  pub active : Bool
  pub buffer : Text
  pub scopes : List Text
  pub scope_options : List Text
  pub scope_idx : ℕ
  pub scope_selecting : Bool
  pub rows : List EditorRow
  pub list : Table
  pub selected : List ℕ
  pub entry_mode : Bool
  pub entry_buf : Text
  pub entry_edit_idx : ℤ
  pub inspect_mode : Bool
  pub inspect_row_idx : ℕ
  pub inspect_offset : ℕ
  pub notice : Text

-- What the editor takes from outside: the table widget with its columns, a new table, the text
-- codec, the clipboard with its error, and how many lines a line of text is drawn in.
pub record EditorEnv (Table : Type 0) : Type 0 where
  pub table_api : TableApi EditorRow Table
  pub set_columns : Table → Table
  pub new_table : Table
  pub json : Json
  pub copy : Text → Option Text
  pub drawn_lines : Text → ℕ

-- -1
abbrev pub no_index : ℤ
no_index = negsuc 0

-- The index that an `int` stands for where it is below the bound.
unfoldable pub index_below : ℤ → ℕ → Option ℕ
index_below (negsuc i) n = none
index_below (pos i) n = if ltb i n then some i else none

abbrev at_line : ℕ → Text → Text
at_line n message = codes "line " ++ (decimal n ++ (codes ": " ++ message))

-- err.Error()
unfoldable pub error_text : MetadataError → Text
error_text (odd_indent n) = at_line n (codes "indent must use 2 spaces (tab inserts 2)")
error_text (no_parent n) = at_line n (codes "indent has no parent key, add a parent line first")
error_text (list_item n) = at_line n (codes "list items not supported, use key: [a, b]")
error_text (no_separator n) = at_line n (codes "expected 'key: value' or 'group | field | value'")
error_text (key_empty n) = at_line n (codes "key is empty")
error_text (inline_object n) = at_line n (codes "inline objects not supported, use nested keys")
error_text (pipe_too_short n) = at_line n (codes "expected at least 'field | value'")
error_text (pipe_empty_key n) = at_line n (codes "empty key segment in pipe row")
error_text (empty_segment n path) =
    at_line n (codes "empty key segment in '" ++ (path ++ codes "'"))
error_text (taken n prefix) =
    at_line n (codes "key '" ++ (prefix ++ codes "' is already set as a value"))

-- A byte inside the code point that an earlier byte begins.
unfoldable pub is_continuation : ℕ → Bool
is_continuation c = leb 128 c && leb c 191

-- What is left of the reversed bytes without the last code point.
unfoldable pub drop_rune_back : Text → Text
unfolding is_continuation
drop_rune_back [] = []
drop_rune_back (c ∷ s) = let rest = drop_rune_back s in if is_continuation c then rest else s

-- dropLastRune, on well-formed UTF-8.
unfoldable pub drop_last_rune : Text → Text
unfolding drop_rune_back
drop_last_rune s = reverse (drop_rune_back (reverse s))

unfoldable pub reset :
    {Table : Type 0} → EditorEnv Table → MetadataEditor Table → MetadataEditor Table
reset env m = record m {
  active = false;
  buffer = [];
  scopes = [];
  scope_idx = 0;
  scope_selecting = false;
  rows = [];
  list = env.new_table;
  selected = [];
  entry_mode = false;
  entry_buf = [];
  entry_edit_idx = no_index;
  inspect_mode = false;
  inspect_row_idx = 0;
  inspect_offset = 0;
  notice = [];
}

unfoldable pub load_notes : {Table : Type 0} → Text → MetadataEditor Table → MetadataEditor Table
load_notes notes m = record m {
  buffer = notes;
  scopes = [];
  rows = [];
  selected = [];
  entry_mode = false;
  entry_buf = [];
  entry_edit_idx = no_index;
  inspect_mode = false;
  inspect_row_idx = 0;
  inspect_offset = 0;
  notice = [];
}

unfoldable pub open_notes : {Table : Type 0} → Text → MetadataEditor Table → MetadataEditor Table
unfolding load_notes
open_notes notes m = load_notes notes (record m { active = true })

unfoldable pub set_scope_options :
    {Table : Type 0} → List Text → MetadataEditor Table → MetadataEditor Table
set_scope_options options m = record m {
  scope_options = options;
  scope_idx = if leb (length options) m.scope_idx then 0 else m.scope_idx;
}
