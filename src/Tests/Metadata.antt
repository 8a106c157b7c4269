-- ===== src/Tests/Metadata.antt =====
-- Runs of the metadata parser.
use nebula_core.Prelude.{List, [], ◌≡◌, refl, ◌∷◌, ◌++◌, none, some, length}
use nebula_core.Text.{
  Text, codes, split, split_loop, join, trim_space, trim_left, trim_right, is_space, cut,
  has_prefix, has_suffix, text_eq,
}
use nebula_core.Value.{field, obj, put_field, str, end, get_field}
use nebula_core.Metadata.{
  ok, set_metadata_path, set_segments, enter, parse_lines_from, parse_line, parse_key_row,
  parse_cut_row, parse_value, parse_scalar, put_at, leading_spaces, is_pipe_row, index_of,
  parse_metadata_input,
}
use nebula_core.Metadata.Paths.{read_segments, read-set_metadata_path}
use nebula_core.Metadata.Stack.{IsLive, IsLiveState, parse_lines_from-IsLiveState}
use nebula_core.Scopes.{normalize_scope_list}
use nebula_core.Metadata.ScopeField.{
  extract_metadata_scopes, merge_metadata_scopes, extract-merge_metadata_scopes,
}
use nebula_core.Metadata.Errors.{ErrorIs, IsWithin, parse_metadata_input-IsWithin}

sets_nested : (set_metadata_path end (codes "a.b") (str (codes "1")) 1).1 ≡ none
unfolding set_metadata_path set_segments enter split split_loop trim_space trim_left trim_right
    is_space get_field
sets_nested = refl

read-set_metadata_path_example :
    read_segments
      (split b'.' (codes "a.b"))
      (set_metadata_path end (codes "a.b") (str (codes "1")) 1).0
    ≡ some (str (codes "1"))
read-set_metadata_path_example =
    read-set_metadata_path end (codes "a.b") (str (codes "1")) 1 sets_nested

abbrev two_lines : Text
two_lines = codes "a: 1" ++ (10 ∷ codes " b: 2")

parse_metadata_input-IsWithin_example :
    ErrorIs (IsWithin 1 (length (split 10 two_lines))) (parse_metadata_input two_lines)
parse_metadata_input-IsWithin_example = parse_metadata_input-IsWithin two_lines

abbrev nested_lines : List Text
nested_lines = codes "a:" ∷ codes "  b: 1" ∷ []

root-IsLive : IsLive [] end
unfolding IsLive
root-IsLive = tt

parse_lines_from-IsLiveState_example : IsLiveState (parse_lines_from 1 nested_lines (end, []))
parse_lines_from-IsLiveState_example =
    parse_lines_from-IsLiveState 1 nested_lines end [] root-IsLive

-- A nested key is stored in its parent.
parses_nested :
    parse_metadata_input (join (10 ∷ []) nested_lines)
    ≡ ok (some (field (codes "a") (obj (field (codes "b") (str (codes "1")) end)) end))
unfolding parse_metadata_input parse_lines_from parse_line parse_key_row parse_cut_row parse_value
    parse_scalar put_at leading_spaces is_pipe_row index_of split split_loop join trim_space
    trim_left trim_right is_space cut has_prefix has_suffix get_field put_field text_eq
parses_nested = refl

extract-merge_metadata_scopes_example :
    extract_metadata_scopes (merge_metadata_scopes end (codes "#Public" ∷ []))
    ≡ normalize_scope_list (normalize_scope_list (codes "#Public" ∷ []))
extract-merge_metadata_scopes_example = extract-merge_metadata_scopes end (codes "#Public" ∷ [])
