-- ===== src/Metadata.antt =====
-- Metadata written as lines: parseMetadataInput of cli/src/internal/ui/metadata.go and what it
-- calls. The stack of maps is the path of its innermost
-- map from the root: every map of the stack is a field of the one before it.
pub mod Paths
pub mod Errors
pub mod Stack
pub mod ScopeField
pub mod Structured
pub mod Settled
pub mod Print
pub mod Printed
use nebula_core.Prelude.{
  ℕ, zero, suc, ◌+◌, ◌-◌, ◌/◌, ◌%◌, Bool, true, false, ◌&&◌, ◌||◌, not, Option, none, some, List,
  [], ◌∷◌, ◌++◌, map, reverse, if◌then◌else◌, leb, ltb, ◌==◌, length, take, init, is_empty, any,
}
use nebula_core.Text.{
  Text, codes, text_eq, trim_space, trim_left, trim_right, has_prefix, has_suffix, trim_prefix,
  trim_suffix, split, join, cut,
}
use nebula_core.Value.{
  Value, null, bool, num, str, arr, obj, Items, nil, cons, Fields, end, field, get_field, put_field,
  format_v,
}
use nebula_core.Scopes.{normalize_scope_list}

-- The errors, each with the number of its line.
pub data MetadataError : Type 0 where
  odd_indent no_parent list_item no_separator key_empty inline_object pipe_too_short
        pipe_empty_key :
      ℕ → MetadataError
  empty_segment taken : ℕ → Text → MetadataError

pub data Checked (A : Type 0) : Type 0 where
  ok : A → Checked A
  err : MetadataError → Checked A

abbrev pub then_check : {A B : Type 0} → Checked A → (A → Checked B) → Checked B
then_check (ok a) f = f a
then_check (err e) f = err e

unfoldable pub leading_spaces : Text → ℕ
leading_spaces [] = 0
leading_spaces (c ∷ s) =
    let rest = leading_spaces s in
    if c == 32 then suc rest else if c == 9 then suc (suc rest) else 0

-- strings.Index of a byte; none where it is -1.
unfoldable pub index_of : ℕ → Text → Option ℕ
index_of k [] = none
index_of k (c ∷ s) =
    let later : Option ℕ = elim (index_of k s) [ none ↦ none | some i ↦ some (suc i) ] in
    if c == k then some 0 else later

unfoldable pub is_pipe_row : Text → Bool
unfolding index_of
is_pipe_row content = elim (index_of b'|' content) [
  | none ↦ false
  | some pipe ↦ elim (index_of b':' content) [ none ↦ true | some colon ↦ ltb pipe colon ]
]

abbrev is_quote : ℕ → Bool
is_quote c = c == 34 || c == 39

abbrev between : ℕ → ℕ → Text → Bool
between a b raw = has_prefix (a ∷ []) raw && has_suffix (b ∷ []) raw

unfoldable pub parse_scalar : Text → Value
parse_scalar raw =
    if is_empty raw
    then str []
    else if between 34 34 raw || between 39 39 raw
    then str (trim_right is_quote (trim_left is_quote raw))
    else str raw

unfoldable pub scalars : List Text → Items
unfolding parse_scalar
scalars [] = nil
scalars (part ∷ parts) = cons (parse_scalar (trim_space part)) (scalars parts)

unfoldable pub parse_value : Text → ℕ → Checked Value
unfolding scalars
parse_value text n =
    let raw = trim_space text in
    let inner = trim_space (trim_suffix (codes "]") (trim_prefix (codes "[") raw)) in
    if is_empty raw
    then ok (str [])
    else if between b'[' b']' raw
    then ok (arr (if is_empty inner then nil else scalars (split b',' inner)))
    else if between b'{' b'}' raw
    then err (inline_object n)
    else ok (parse_scalar raw)

abbrev last_of : List Text → Text
last_of [] = []
last_of (t ∷ []) = t
last_of (t ∷ u ∷ ts) = last_of (u ∷ ts)

unfoldable pub parse_pipe_line : Text → ℕ → Checked (Text × Text)
parse_pipe_line content n =
    let parts = map trim_space (split b'|' content) in
    if ltb (length parts) 2
    then err (pipe_too_short n)
    else if is_empty (last_of parts)
    then err (pipe_too_short n)
    else if any is_empty (init parts)
    then err (pipe_empty_key n)
    else ok (join (codes ".") (init parts), last_of parts)

-- The map that a path enters at a segment: none where the segment holds another value.
unfoldable pub enter : Text → Fields → Option Fields
enter segment current = elim (get_field segment current) [
  | none ↦ some end
  | some v ↦ elim v [ obj child ↦ some child | _ ↦ none ]
]

abbrev pub on_child : {A : Type 0} → Option Fields → A → (Fields → A) → A
on_child none otherwise f = otherwise
on_child (some child) otherwise f = f child

-- The loop over the segments behind `done`, with the map that is written and the error. A map
-- that is entered stays entered when a later segment fails.
module _ (path : Text) (value : Value) (n : ℕ) where
  unfoldable pub set_segments : List Text → List Text → Fields → Fields × Option MetadataError
  unfolding enter
  set_segments done [] current = (current, some (empty_segment n path))
  set_segments done (raw ∷ []) current =
      if is_empty (trim_space raw)
      then (current, some (empty_segment n path))
      else (put_field (trim_space raw) value current, none)
  set_segments done (raw ∷ next ∷ rest) current =
      let entered : Fields × Option MetadataError =
        on_child (enter (trim_space raw) current)
          (current, some (taken n (join (codes ".") (reverse (raw ∷ done)))))
          λ child.
            let below = set_segments (raw ∷ done) (next ∷ rest) child in
            (put_field (trim_space raw) (obj below.0) current, below.1) in
      if is_empty (trim_space raw) then (current, some (empty_segment n path)) else entered

unfoldable pub set_metadata_path : Fields → Text → Value → ℕ → Fields × Option MetadataError
unfolding set_segments
set_metadata_path root path value n = set_segments path value n [] (split b'.' path) root

-- current[key] = value, for the map at a path.
unfoldable pub put_at : List Text → Text → Value → Fields → Fields
put_at [] key value fs = put_field key value fs
put_at (p ∷ path) key value fs = elim (get_field p fs) [
  | none ↦ fs
  | some v ↦ elim v [ obj child ↦ put_field p (obj (put_at path key value child)) fs | _ ↦ fs ]
]

-- The root and the path of the innermost map of the stack.
abbrev pub ParseState : Type 0
ParseState = Fields × List Text

abbrev written : Fields × Option MetadataError → Checked ParseState
written (root, none) = ok (root, [])
written (root, some e) = err e

-- A line `group | field | value`.
unfoldable pub parse_pipe_row : ℕ → Text → Fields → Checked ParseState
unfolding parse_pipe_line parse_value set_metadata_path
parse_pipe_row n content root =
    then_check (parse_pipe_line content n) λ row.
      then_check (parse_value row.1 n) λ value. written (set_metadata_path root row.0 value n)

-- A line `key: value`, or `key:` that opens a map, cut at its first colon.
unfoldable pub parse_cut_row : ℕ → Option (Text × Text) → ParseState → Checked ParseState
unfolding parse_value put_at
parse_cut_row n none s = err (no_separator n)
parse_cut_row n (some (before, after)) (root, path) =
    let key = trim_space before in
    if is_empty key
    then err (key_empty n)
    else if is_empty (trim_space after)
    then ok (put_at path key (obj end) root, path ++ key ∷ [])
    else then_check (parse_value (trim_space after) n)
        λ value. ok (put_at path key value root, path)

unfoldable pub parse_key_row : ℕ → Text → ParseState → Checked ParseState
unfolding parse_cut_row
parse_key_row n content s = parse_cut_row n (cut b':' content) s

unfoldable pub parse_line : ℕ → Text → ParseState → Checked ParseState
unfolding leading_spaces is_pipe_row parse_pipe_row parse_key_row
parse_line n raw (root, path) =
    let line = trim_right (λ c. c == 32 || c == 9) raw in
    let content = trim_space line in
    let spaces = leading_spaces line in
    if is_empty content
    then ok (root, path)
    else if not (spaces % 2 == 0)
    then err (odd_indent n)
    else if ltb (length path) (spaces / 2)
    then err (no_parent n)
    else if has_prefix (codes "- ") content
    then err (list_item n)
    else if is_pipe_row content
    then parse_pipe_row n content root
    else parse_key_row n content (root, take (spaces / 2) path)

unfoldable pub parse_lines_from : ℕ → List Text → ParseState → Checked ParseState
unfolding parse_line
parse_lines_from n [] s = ok s
parse_lines_from n (l ∷ ls) s =
    then_check (parse_line n l s) λ next. parse_lines_from (suc n) ls next

-- none is the nil map of a blank input.
unfoldable pub parse_metadata_input : Text → Checked (Option Fields)
unfolding parse_lines_from
parse_metadata_input input =
    if is_empty (trim_space input)
    then ok none
    else then_check (parse_lines_from 1 (split 10 input) (end, [])) λ s. ok (some s.0)
