-- ===== src/Diff/Fields.antt =====
-- What the comparison of fields shows of each field.
use nebula_core.Prelude.{
  ℕ, ◌+◌, ◌≡◌, refl, ap, false, ◌&&◌, not, List, [], ◌∷◌, ◌++◌, map, if◌then◌else◌, is_empty, ℤ,
  pos, arith, Bool-cases, inl, inr, All,
}
use nebula_core.Text.{Text, text_eq}
use nebula_core.Text.Laws.{text_eq_iff, text_eq_refl}
use nebula_core.StringSet.{mem, Distinct}
use nebula_core.Diff.{
  DiffLine, diff_context, diff_add, diff_delete, diff_line, field_text, field_lines, TextMap, get,
  fields_from, build_field_diff, DiffRow, clean_row, put_all, diff_rows_to_lines,
}
use nebula_core.Diff.Numbering.{old_side, new_side}

-- The rows of one field on the side with `value`.
abbrev pub side_row : ℕ → Text → (value other : Text) → List (ℤ × Text)
side_row n field value other =
    if is_empty value && not (is_empty other) then [] else (pos n, field_text field value) ∷ []

-- One side of a table of fields: a row for each field, under the field's number, except where
-- the value is empty on this side only.
pub side_rows : (value other : Text → Text) → ℕ → List Text → List (ℤ × Text)
side_rows value other n [] = []
side_rows value other n (f ∷ fs) =
    side_row n f (value f) (other f) ++ side_rows value other (n + 1) fs

old_side-append : (xs ys : List DiffLine) → old_side (xs ++ ys) ≡ old_side xs ++ old_side ys
unfolding old_side
old_side-append [] ys = refl
old_side-append (x ∷ xs) ys = ground (arith, old_side-append xs ys)

new_side-append : (xs ys : List DiffLine) → new_side (xs ++ ys) ≡ new_side xs ++ new_side ys
unfolding new_side
new_side-append [] ys = refl
new_side-append (x ∷ xs) ys = ground (arith, new_side-append xs ys)

old_side-field_lines :
    (n : ℕ) (f old new : Text) → old_side (field_lines n f old new) ≡ side_row n f old new
unfolding field_lines old_side text_eq
old_side-field_lines n f [] [] = refl
old_side-field_lines n f [] (c ∷ s) = refl
old_side-field_lines n f (c ∷ s) [] = refl
old_side-field_lines n f (c ∷ s) (d ∷ t) = ground arith

new_side-field_lines :
    (n : ℕ) (f old new : Text) → new_side (field_lines n f old new) ≡ side_row n f new old
unfolding field_lines new_side text_eq
new_side-field_lines n f old new = elim (Bool-cases (text_eq old new)) [
  | inl e ↦ let same : old ≡ new = (text_eq_iff old new).0 e in rw (e, same) (new_same new)
  | inr e ↦ rw e (new_differs old new e)
]
  where
    new_same :
        (v : Text)
        → new_side (diff_line diff_context (pos n) (pos n) (field_text f v) ∷ []) ≡ side_row n f v v
    new_same [] = refl
    new_same (c ∷ s) = refl

    new_differs :
        (o v : Text)
        → text_eq o v ≡ false
        → new_side (
            (if is_empty o then [] else diff_line diff_delete (pos n) (pos 0) (field_text f o) ∷ [])
            ++ (if is_empty v
                then []
                else diff_line diff_add (pos 0) (pos n) (field_text f v) ∷ []))
          ≡ side_row n f v o
    new_differs [] [] d = absurd (ground arith)
    new_differs [] (c ∷ s) d = refl
    new_differs (c ∷ s) [] d = refl
    new_differs (c ∷ s) (e ∷ t) d = refl

fields_from-sides :
    (n : ℕ) (fields : List Text) (before after : TextMap)
    → (old_side (fields_from n fields before after) ≡ side_rows (get before) (get after) n fields)
      × (new_side (fields_from n fields before after) ≡ side_rows (get after) (get before) n fields)
unfolding fields_from side_rows old_side new_side
fields_from-sides n [] before after = (refl, refl)
fields_from-sides n (f ∷ fs) before after =
    let lines = field_lines n f (get before f) (get after f) in
    let rest = fields_from (n + 1) fs before after in
    let ih = fields_from-sides (n + 1) fs before after in
    (
      rw (old_side-append lines rest, old_side-field_lines n f (get before f) (get after f), ih.0)
          refl,
      rw (new_side-append lines rest, new_side-field_lines n f (get before f) (get after f), ih.1)
          refl,
    )

-- Each side of a comparison shows the fields in their order, each with its own value and under
-- its number from 1, and leaves a field out only where its value is empty on this side and not
-- on the other: no change is hidden, and an equal value stands on both sides.
pub build_field_diff-sides :
    (fields : List Text) (before after : TextMap)
    → (old_side (build_field_diff fields before after)
        ≡ side_rows (get before) (get after) 1 fields)
      × (new_side (build_field_diff fields before after)
          ≡ side_rows (get after) (get before) 1 fields)
unfolding build_field_diff
build_field_diff-sides fields before after = fields_from-sides 1 fields before after

-- The lines of rows that are compared row by row, without maps.
pub row_lines : ℕ → List DiffRow → List DiffLine
row_lines n [] = []
row_lines n (r ∷ rows) = field_lines n r.label r.from r.to ++ row_lines (n + 1) rows

get-put_all_other :
    (value : DiffRow → Text) (rows : List DiffRow) (m : TextMap) (k : Text)
    → mem k (map DiffRow.label rows) ≡ false
    → get (put_all value rows m) k ≡ get m k
unfolding put_all mem get
get-put_all_other value [] m k h = refl
get-put_all_other value (r ∷ rows) m k h =
    let m2 : TextMap = (r.label, value r) ∷ m in
    let ih : (mem k (map DiffRow.label rows) ≡ false → get (put_all value rows m2) k ≡ get m2 k) =
      get-put_all_other value rows m2 k in
    ground arith

get-put_all :
    (value : DiffRow → Text) (rows : List DiffRow) (m : TextMap)
    → Distinct (map DiffRow.label rows)
    → All (λ r. get (put_all value rows m) r.label ≡ value r) rows
unfolding put_all get
get-put_all value [] m h = tt
get-put_all value (r ∷ rows) m h =
    let m2 : TextMap = (r.label, value r) ∷ m in
    (
      rw (get-put_all_other value rows m2 r.label h.0, text_eq_refl r.label) refl,
      get-put_all value rows m2 h.1,
    )

fields_from-rows :
    (n : ℕ) (rows : List DiffRow) (before after : TextMap)
    → All (λ r. get before r.label ≡ r.from) rows
    → All (λ r. get after r.label ≡ r.to) rows
    → fields_from n (map DiffRow.label rows) before after ≡ row_lines n rows
unfolding fields_from row_lines
fields_from-rows n [] before after hb ha = refl
fields_from-rows n (r ∷ rows) before after hb ha =
    rw (hb.0, ha.0)
      (ap (◌++◌ (field_lines n r.label r.from r.to))
        (fields_from-rows (n + 1) rows before after hb.1 ha.1))

-- Rows whose cleaned labels differ are compared each with its own values, in their order.
pub diff_rows_to_lines_rows :
    (rows : List DiffRow)
    → Distinct (map DiffRow.label (map clean_row rows))
    → diff_rows_to_lines rows ≡ row_lines 1 (map clean_row rows)
unfolding diff_rows_to_lines build_field_diff
diff_rows_to_lines_rows rows h =
    let clean = map clean_row rows in
    fields_from-rows 1 clean (put_all DiffRow.from clean []) (put_all DiffRow.to clean [])
      (get-put_all DiffRow.from clean [] h) (get-put_all DiffRow.to clean [] h)
