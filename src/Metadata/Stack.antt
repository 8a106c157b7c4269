-- ===== src/Metadata/Stack.antt =====
-- The stack of open maps.
use nebula_core.Prelude.{
  ℕ, zero, suc, ◌/◌, ◌%◌, ◌≡◌, not, Option, none, some, List, [], ◌∷◌, ◌++◌, if_cases, ltb, ◌==◌,
  ◌||◌, length, take, is_empty,
}
use nebula_core.Text.{Text, codes, trim_space, trim_right, has_prefix, cut}
use nebula_core.Value.{Value, obj, Fields, end, get_field}
use nebula_core.Metadata.{
  MetadataError, Checked, ok, err, then_check, leading_spaces, is_pipe_row, parse_value,
  parse_pipe_line, set_metadata_path, put_at, ParseState, written, parse_pipe_row, parse_cut_row,
  parse_key_row, parse_line, parse_lines_from,
}
use nebula_core.Metadata.Paths.{get_field-put_field}

-- The path leads from the map through maps to a map.
unfoldable pub IsLive : List Text → Fields → Type 0
IsLive [] fs = Unit
IsLive (p ∷ path) fs = (child : Fields) × (get_field p fs ≡ some (obj child)) × IsLive path child

-- The innermost map is in the root, unless parsing has failed.
abbrev pub IsLiveState : Checked ParseState → Type 0
IsLiveState (ok s) = IsLive s.1 s.0
IsLiveState (err e) = Unit

put_at-IsLive :
    (path : List Text) (key : Text) (v : Value) (fs : Fields)
    → IsLive path fs
    → IsLive path (put_at path key v fs)
unfolding IsLive put_at
put_at-IsLive [] key v fs h = tt
put_at-IsLive (p ∷ path) key v fs h =
    let below = put_at path key v h.0 in
    rw (h.1, put_at) (below, get_field-put_field p (obj below) fs, put_at-IsLive path key v h.0 h.2)

put_at_opens :
    (path : List Text) (key : Text) (fs : Fields)
    → IsLive path fs
    → IsLive (path ++ key ∷ []) (put_at path key (obj end) fs)
unfolding IsLive put_at
put_at_opens [] key fs h = (end, get_field-put_field key (obj end) fs, tt)
put_at_opens (p ∷ path) key fs h =
    let below = put_at path key (obj end) h.0 in
    rw (h.1, put_at) (below, get_field-put_field p (obj below) fs, put_at_opens path key h.0 h.2)

take-IsLive : (n : ℕ) (path : List Text) (fs : Fields) → IsLive path fs → IsLive (take n path) fs
unfolding IsLive
take-IsLive zero path fs h = tt
take-IsLive (suc n) [] fs h = tt
take-IsLive (suc n) (p ∷ path) fs h = (h.0, h.1, take-IsLive n path h.0 h.2)

then_check-IsLiveState :
    {A : Type 0} (r : Checked A) (f : A → Checked ParseState)
    → ((a : A) → IsLiveState (f a))
    → IsLiveState (then_check r f)
then_check-IsLiveState (ok a) f k = k a
then_check-IsLiveState (err e) f k = tt

written-IsLiveState : (r : Fields × Option MetadataError) → IsLiveState (written r)
unfolding IsLive
written-IsLiveState (root, none) = tt
written-IsLiveState (root, some e) = tt

parse_pipe_row-IsLiveState :
    (n : ℕ) (content : Text) (root : Fields) → IsLiveState (parse_pipe_row n content root)
unfolding parse_pipe_row
parse_pipe_row-IsLiveState n content root =
    then_check-IsLiveState (parse_pipe_line content n) _ λ row.
      then_check-IsLiveState (parse_value row.1 n) _
        λ value. written-IsLiveState (set_metadata_path root row.0 value n)

parse_cut_row-IsLiveState :
    (n : ℕ) (o : Option (Text × Text)) (root : Fields) (path : List Text)
    → IsLive path root
    → IsLiveState (parse_cut_row n o (root, path))
unfolding parse_cut_row
parse_cut_row-IsLiveState n none root path h = tt
parse_cut_row-IsLiveState n (some (before, after)) root path h =
    if_cases IsLiveState (is_empty (trim_space before)) _ _ (λ _. tt)
      λ _.
        if_cases IsLiveState (is_empty (trim_space after)) _ _
          (λ _. put_at_opens path (trim_space before) root h)
          λ _.
            then_check-IsLiveState (parse_value (trim_space after) n) _
              (λ value. put_at-IsLive path (trim_space before) value root h)

parse_line-IsLiveState :
    (n : ℕ) (raw : Text) (root : Fields) (path : List Text)
    → IsLive path root
    → IsLiveState (parse_line n raw (root, path))
unfolding parse_line parse_key_row
parse_line-IsLiveState n raw root path h =
    let line = trim_right (λ c. c == 32 || c == 9) raw in
    let content = trim_space line in
    let spaces = leading_spaces line in
    if_cases IsLiveState (is_empty content) _ _ (λ _. h)
      λ _.
        if_cases IsLiveState (not (spaces % 2 == 0)) _ _ (λ _. tt)
          λ _.
            if_cases IsLiveState (ltb (length path) (spaces / 2)) _ _ (λ _. tt)
              λ _.
                if_cases IsLiveState (has_prefix (codes "- ") content) _ _ (λ _. tt)
                  λ _.
                    if_cases IsLiveState (is_pipe_row content) _ _
                      (λ _. parse_pipe_row-IsLiveState n content root)
                      (λ _.
                        parse_cut_row-IsLiveState n (cut b':' content) root (take (spaces / 2) path)
                          (take-IsLive (spaces / 2) path root h))

-- From a state whose innermost map is in the root, any lines that are parsed without an error
-- lead to such a state again: no line is ever written into a map that the result does not hold.
pub parse_lines_from-IsLiveState :
    (n : ℕ) (lines : List Text) (root : Fields) (path : List Text)
    → IsLive path root
    → IsLiveState (parse_lines_from n lines (root, path))
unfolding parse_lines_from
parse_lines_from-IsLiveState n [] root path h = h
parse_lines_from-IsLiveState n (l ∷ ls) root path h =
    lines_after (parse_line n l (root, path)) (parse_line-IsLiveState n l root path h)
      (λ r p. parse_lines_from-IsLiveState (suc n) ls r p)
  where
    lines_after :
        (r : Checked ParseState)
        → IsLiveState r
        → ((root2 : Fields) (path2 : List Text)
            → IsLive path2 root2
            → IsLiveState (parse_lines_from (suc n) ls (root2, path2)))
        → IsLiveState (then_check r λ next. parse_lines_from (suc n) ls next)
    lines_after (ok s) live rest = rest s.0 s.1 live
    lines_after (err e) live rest = tt
