-- ===== src/ApprovalDiff/Cells.antt =====
-- The rows made of the server's map.
use nebula_core.Prelude.{
  ℕ, zero, suc, ◌-◌, refl, Bool, false, ◌||◌, List, [], ◌∷◌, ◌++◌, map, ℤ, pos, negsuc, arith,
  if_cases, leb, ◌==◌, length, take, All, All-append, is_empty,
}
use nebula_core.Text.{Text, codes, split, join, trim_space, text_eq}
use nebula_core.Text.Letters.{All-trim_right, All-imp, All-join}
use nebula_core.Text.Lines.{IsPart, All-split}
use nebula_core.Text.Decimal.{decimal, IsDigit, decimal-IsDigit}
use nebula_core.Value.{Value, null, bool, num, str, arr, obj, Fields, get_field}
use nebula_core.Sanitize.{sanitize_text}
use nebula_core.Sanitize.Clean.{IsClean, sanitize_text-IsClean}
use nebula_core.Diff.{DiffRow}
use nebula_core.ApprovalDiff.{
  trim_blanks, newline, value_lines, more_lines, clamp_value_lines, cell_text, any_value,
  field_values, value_of, sorted_keys, diff_row, approval_diff_rows,
}

abbrev IsCleanText : Text → Type 0
IsCleanText s = All IsClean s

none-IsClean : IsCleanText (codes "None")
none-IsClean = (refl, (refl, (refl, (refl, tt))))

cell_text-IsClean : (p : Text → Bool) (s : Text) → IsCleanText (cell_text p s)
unfolding cell_text
cell_text-IsClean p s =
    if_cases IsCleanText (is_empty (trim_space s) || p (trim_space s)) (codes "None")
      (sanitize_text (trim_space s)) (λ _. none-IsClean) (λ _. sanitize_text-IsClean (trim_space s))

trimmed-IsClean :
    (ls : List Text) → All (All (IsPart 10 IsClean)) ls → All IsCleanText (map trim_blanks ls)
trimmed-IsClean [] h = tt
trimmed-IsClean (l ∷ ls) h = (
  All-trim_right IsClean (λ c. c == 32 || c == 9) l
      (All-imp (IsPart 10 IsClean) IsClean (λ c k. k.0) l h.0),
  trimmed-IsClean ls h.1,
)

value_lines-IsClean : (value : Text) → All IsCleanText (value_lines value)
unfolding value_lines
value_lines-IsClean value =
    trimmed-IsClean (split 10 (sanitize_text value))
      (All-split 10 IsClean (sanitize_text value) (sanitize_text-IsClean value))

digit-IsClean : (c : ℕ) → IsDigit c → IsClean c
digit-IsClean c h = ground arith

more_lines-IsClean : (k : ℕ) → IsCleanText (more_lines k)
unfolding more_lines
more_lines-IsClean k =
    All-append IsClean (codes "... (+") (decimal k ++ codes " more lines)")
      (refl, (refl, (refl, (refl, (refl, (refl, tt))))))
      (All-append IsClean (decimal k) (codes " more lines)")
        (All-imp IsDigit IsClean digit-IsClean (decimal k) (decimal-IsDigit k))
        (
          refl,
          (
            refl,
            (refl, (refl, (refl, (refl, (refl, (refl, (refl, (refl, (refl, (refl, tt)))))))))),
          ),
        ))

All-take : (n : ℕ) (ls : List Text) → All IsCleanText ls → All IsCleanText (take n ls)
All-take zero ls h = tt
All-take (suc n) [] h = tt
All-take (suc n) (l ∷ ls) h = (h.0, All-take n ls h.1)

newline-IsClean : IsCleanText newline
newline-IsClean = (refl, tt)

clamp-IsClean : (value : Text) (n : ℤ) → IsCleanText value → IsCleanText (clamp_value_lines value n)
unfolding clamp_value_lines
clamp-IsClean value (negsuc n) h = h
clamp-IsClean value (pos zero) h = h
clamp-IsClean value (pos (suc n)) h =
    let lines = value_lines value in
    let last : List Text = more_lines (length lines - suc n) ∷ [] in
    let clean : All IsCleanText lines = value_lines-IsClean value in
    if_cases IsCleanText (leb (length lines) (suc n)) (join newline lines)
      (join newline (take (suc n) lines ++ last))
      (λ _. All-join IsClean newline lines newline-IsClean clean)
      (λ _. All-join IsClean newline (take (suc n) lines ++ last) newline-IsClean (
        All-append IsCleanText (take (suc n) lines) last (All-take (suc n) lines clean)
          (more_lines-IsClean (length lines - suc n), tt)))

abbrev pub IsCleanRow : DiffRow → Type 0
IsCleanRow r = All IsClean r.from × All IsClean r.to

module _ (marshal_indent : Value → Text) where
  any_value-IsClean : (v : Value) → IsCleanText (any_value marshal_indent v)
  unfolding any_value
  any_value-IsClean null = none-IsClean
  any_value-IsClean (str s) = cell_text-IsClean (λ t. false) s
  any_value-IsClean (bool b) = cell_text-IsClean (text_eq (codes "null")) (marshal_indent (bool b))
  any_value-IsClean (num n) = cell_text-IsClean (text_eq (codes "null")) (marshal_indent (num n))
  any_value-IsClean (arr xs) = cell_text-IsClean (text_eq (codes "null")) (marshal_indent (arr xs))
  any_value-IsClean (obj fs) = cell_text-IsClean (text_eq (codes "null")) (marshal_indent (obj fs))

  field_values-IsClean :
      (v : Value)
      → IsCleanText (field_values marshal_indent v).0
        × IsCleanText (field_values marshal_indent v).1
  unfolding field_values
  field_values-IsClean (obj fs) = (any_value-IsClean _, any_value-IsClean _)
  field_values-IsClean null = (none-IsClean, any_value-IsClean null)
  field_values-IsClean (bool b) = (none-IsClean, any_value-IsClean (bool b))
  field_values-IsClean (num n) = (none-IsClean, any_value-IsClean (num n))
  field_values-IsClean (str s) = (none-IsClean, any_value-IsClean (str s))
  field_values-IsClean (arr xs) = (none-IsClean, any_value-IsClean (arr xs))

  rows-IsClean :
      (changes : Fields) (n : ℤ) (keys : List Text)
      → All IsCleanRow (map (diff_row marshal_indent changes n) keys)
  unfolding diff_row
  rows-IsClean changes n [] = tt
  rows-IsClean changes n (k ∷ keys) =
      let v = value_of (get_field k changes) in
      let values = field_values marshal_indent v in
      let clean = field_values-IsClean v in
      (
        (clamp-IsClean values.0 n clean.0, clamp-IsClean values.1 n clean.1),
        rows-IsClean changes n keys,
      )

  -- Whatever the server sends, no value of a row has an ASCII control but newline and tab.
  pub approval_diff_rows-IsClean :
      (changes : Fields) (n : ℤ) → All IsCleanRow (approval_diff_rows marshal_indent changes n)
  unfolding approval_diff_rows
  approval_diff_rows-IsClean changes n = rows-IsClean changes n (sorted_keys changes)
