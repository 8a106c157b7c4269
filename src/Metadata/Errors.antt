-- ===== src/Metadata/Errors.antt =====
-- The line that an error names.
use nebula_core.Prelude.{
  ℕ, suc, ◌+◌, ◌/◌, ◌%◌, ◌≤◌, ◌<◌, ◌≡◌, refl, ◌||◌, not, Option, none, some, List, [], ◌∷◌, map,
  if_cases, ltb, ◌==◌, length, take, init, is_empty, any, arith,
}
use nebula_core.Text.{Text, codes, trim_space, trim_right, has_prefix, split, cut}
use nebula_core.Value.{Value, Fields, end}
use nebula_core.Metadata.{
  MetadataError, odd_indent, no_parent, list_item, no_separator, key_empty, inline_object,
  pipe_too_short, pipe_empty_key, empty_segment, taken, Checked, ok, err, then_check,
  leading_spaces, is_pipe_row, parse_value, last_of, between, parse_pipe_line, enter, set_segments,
  set_metadata_path, ParseState, written, parse_pipe_row, parse_cut_row, parse_key_row, on_child,
  parse_line, parse_lines_from, parse_metadata_input,
}

pub line_of : MetadataError → ℕ
line_of (odd_indent n) = n
line_of (no_parent n) = n
line_of (list_item n) = n
line_of (no_separator n) = n
line_of (key_empty n) = n
line_of (inline_object n) = n
line_of (pipe_too_short n) = n
line_of (pipe_empty_key n) = n
line_of (empty_segment n path) = n
line_of (taken n path) = n

-- An error, if there is one, that satisfies `P`.
abbrev pub ErrorIs : {A : Type 0} → (MetadataError → Type 0) → Checked A → Type 0
ErrorIs P (ok a) = Unit
ErrorIs P (err e) = P e

abbrev AtLine : ℕ → {A : Type 0} → Checked A → Type 0
AtLine n r = ErrorIs (λ e. line_of e ≡ n) r

abbrev OptionAtLine : ℕ → Option MetadataError → Type 0
OptionAtLine n none = Unit
OptionAtLine n (some e) = line_of e ≡ n

abbrev PairAtLine : ℕ → Fields × Option MetadataError → Type 0
PairAtLine n r = OptionAtLine n r.1

on_child-cases :
    {A : Type 0} (P : A → Type 0) (o : Option Fields) (a : A) (f : Fields → A)
    → P a
    → ((child : Fields) → P (f child))
    → P (on_child o a f)
on_child-cases P none a f h k = h
on_child-cases P (some child) a f h k = k child

then_check-ErrorIs :
    {A B : Type 0} (P : MetadataError → Type 0) (r : Checked A) (f : A → Checked B)
    → ErrorIs P r
    → ((a : A) → ErrorIs P (f a))
    → ErrorIs P (then_check r f)
then_check-ErrorIs P (ok a) f h k = k a
then_check-ErrorIs P (err e) f h k = h

parse_value-AtLine : (text : Text) (n : ℕ) → AtLine n (parse_value text n)
unfolding parse_value line_of
parse_value-AtLine text n =
    if_cases (AtLine n) (is_empty (trim_space text)) _ _ (λ _. tt)
      λ _.
        if_cases (AtLine n) (between b'[' b']' (trim_space text)) _ _ (λ _. tt)
          λ _. if_cases (AtLine n) (between b'{' b'}' (trim_space text)) _ _ (λ _. refl) (λ _. tt)

parse_pipe_line-AtLine : (content : Text) (n : ℕ) → AtLine n (parse_pipe_line content n)
unfolding parse_pipe_line line_of
parse_pipe_line-AtLine content n =
    let parts = map trim_space (split b'|' content) in
    if_cases (AtLine n) (ltb (length parts) 2) _ _ (λ _. refl)
      λ _.
        if_cases (AtLine n) (is_empty (last_of parts)) _ _ (λ _. refl)
          λ _. if_cases (AtLine n) (any is_empty (init parts)) _ _ (λ _. refl) (λ _. tt)

module _ (path : Text) (value : Value) (n : ℕ) where
  set_segments-AtLine :
      (done segments : List Text) (fs : Fields)
      → OptionAtLine n (set_segments path value n done segments fs).1
  unfolding set_segments line_of
  set_segments-AtLine done [] fs = refl
  set_segments-AtLine done (raw ∷ []) fs =
      if_cases (PairAtLine n) (is_empty (trim_space raw)) (fs, some (empty_segment n path)) _
        (λ _. refl) (λ _. tt)
  set_segments-AtLine done (raw ∷ next ∷ rest) fs =
      if_cases (PairAtLine n) (is_empty (trim_space raw)) (fs, some (empty_segment n path)) _
        (λ _. refl)
        (λ _.
          on_child-cases (PairAtLine n) (enter (trim_space raw) fs) _ _ refl
            (λ child. set_segments-AtLine (raw ∷ done) (next ∷ rest) child))

written-AtLine :
    (n : ℕ) (r : Fields × Option MetadataError) → OptionAtLine n r.1 → AtLine n (written r)
written-AtLine n (root, none) h = tt
written-AtLine n (root, some e) h = h

parse_pipe_row-AtLine :
    (n : ℕ) (content : Text) (root : Fields) → AtLine n (parse_pipe_row n content root)
unfolding parse_pipe_row set_metadata_path
parse_pipe_row-AtLine n content root =
    then_check-ErrorIs (λ e. line_of e ≡ n) (parse_pipe_line content n) _
      (parse_pipe_line-AtLine content n)
      λ row.
        then_check-ErrorIs (λ e. line_of e ≡ n) (parse_value row.1 n) _ (parse_value-AtLine row.1 n)
          λ value.
            written-AtLine n (set_metadata_path root row.0 value n)
              (set_segments-AtLine row.0 value n [] (split b'.' row.0) root)

parse_cut_row-AtLine :
    (n : ℕ) (o : Option (Text × Text)) (s : ParseState) → AtLine n (parse_cut_row n o s)
unfolding parse_cut_row line_of
parse_cut_row-AtLine n none s = refl
parse_cut_row-AtLine n (some (before, after)) (root, path) =
    if_cases (AtLine n) (is_empty (trim_space before)) _ _ (λ _. refl)
      λ _.
        if_cases (AtLine n) (is_empty (trim_space after)) _ _ (λ _. tt)
          λ _.
            then_check-ErrorIs (λ e. line_of e ≡ n) (parse_value (trim_space after) n) _
              (parse_value-AtLine (trim_space after) n) (λ value. tt)

parse_key_row-AtLine :
    (n : ℕ) (content : Text) (s : ParseState) → AtLine n (parse_key_row n content s)
unfolding parse_key_row
parse_key_row-AtLine n content s = parse_cut_row-AtLine n (cut b':' content) s

parse_line-AtLine : (n : ℕ) (raw : Text) (s : ParseState) → AtLine n (parse_line n raw s)
unfolding parse_line line_of
parse_line-AtLine n raw (root, path) =
    let line = trim_right (λ c. c == 32 || c == 9) raw in
    let content = trim_space line in
    let spaces = leading_spaces line in
    if_cases (AtLine n) (is_empty content) _ _ (λ _. tt)
      λ _.
        if_cases (AtLine n) (not (spaces % 2 == 0)) _ _ (λ _. refl)
          λ _.
            if_cases (AtLine n) (ltb (length path) (spaces / 2)) _ _ (λ _. refl)
              λ _.
                if_cases (AtLine n) (has_prefix (codes "- ") content) _ _ (λ _. refl)
                  λ _.
                    if_cases (AtLine n) (is_pipe_row content) _ _
                      (λ _. parse_pipe_row-AtLine n content root)
                      (λ _. parse_key_row-AtLine n content (root, take (spaces / 2) path))

-- The error stands on one of `count` lines from `first` on.
abbrev pub IsWithin : ℕ → ℕ → MetadataError → Type 0
IsWithin first count e = (first ≤ line_of e) × (line_of e < first + count)

widen : {A : Type 0} (n k : ℕ) (r : Checked A) → AtLine n r → ErrorIs (IsWithin n (suc k)) r
widen n k (ok a) h = tt
widen n k (err e) h = omega arith

later :
    {A : Type 0} (n k : ℕ) (r : Checked A)
    → ErrorIs (IsWithin (suc n) k) r
    → ErrorIs (IsWithin n (suc k)) r
later n k (ok a) h = tt
later n k (err e) h = omega arith

lines-IsWithin :
    (n : ℕ) (ls : List Text) (s : ParseState)
    → ErrorIs (IsWithin n (length ls)) (parse_lines_from n ls s)
unfolding parse_lines_from
lines-IsWithin n [] s = tt
lines-IsWithin n (l ∷ ls) s =
    then_check-ErrorIs (IsWithin n (suc (length ls))) (parse_line n l s) _
      (widen n (length ls) (parse_line n l s) (parse_line-AtLine n l s))
      (λ next.
        later n (length ls) (parse_lines_from (suc n) ls next) (lines-IsWithin (suc n) ls next))

-- Whatever the input, an error that parsing gives names a line that the input has.
pub parse_metadata_input-IsWithin :
    (input : Text) → ErrorIs (IsWithin 1 (length (split 10 input))) (parse_metadata_input input)
unfolding parse_metadata_input
parse_metadata_input-IsWithin input =
    if_cases (ErrorIs (IsWithin 1 (length (split 10 input)))) (is_empty (trim_space input)) _ _
      (λ _. tt)
      λ _.
        then_check-ErrorIs (IsWithin 1 (length (split 10 input)))
          (parse_lines_from 1 (split 10 input) (end, [])) _
          (lines-IsWithin 1 (split 10 input) (end, [])) (λ s. tt)
