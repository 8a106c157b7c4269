-- ===== src/Diff/Numbering.antt =====
-- The numbers of a parsed diff's lines, and its text.
use nebula_core.Prelude.{
  ℕ, ◌≡◌, refl, ap, true, false, ◌||◌, List, [], ◌∷◌, ◌++◌, map, if◌then◌else◌, ◌==◌, ℤ, pos, All,
  arith,
}
use nebula_core.Text.{Text, has_prefix}
use nebula_core.Diff.{
  diff_context, diff_add, diff_delete, diff_hunk, DiffLine, diff_line, is_hunk, parse_hunk_header,
  next, parse_lines, parse_unified_diff,
}

-- The lines of the old file with their numbers.
unfoldable pub old_side : List DiffLine → List (ℤ × Text)
old_side [] = []
old_side (l ∷ ls) = elim l.kind [
  | diff_context ↦ (l.before, l.text) ∷ old_side ls
  | diff_delete ↦ (l.before, l.text) ∷ old_side ls
  | _ ↦ old_side ls
]

-- The lines of the new file with their numbers.
unfoldable pub new_side : List DiffLine → List (ℤ × Text)
new_side [] = []
new_side (l ∷ ls) = elim l.kind [
  | diff_context ↦ (l.after, l.text) ∷ new_side ls
  | diff_add ↦ (l.after, l.text) ∷ new_side ls
  | _ ↦ new_side ls
]

-- Texts numbered one after the other.
pub number_from : ℤ → List Text → List (ℤ × Text)
number_from n [] = []
number_from n (t ∷ ts) = (n, t) ∷ number_from (next n) ts

-- The lines of one file in a hunk: those that do not begin with `other`, without the sign.
pub side_texts : (other own : ℕ) → List Text → List Text
side_texts other own [] = []
side_texts other own ([] ∷ raws) = [] ∷ side_texts other own raws
side_texts other own ((c ∷ s) ∷ raws) =
    let rest = side_texts other own raws in
    if c == other then rest else (if c == own || c == b' ' then s else c ∷ s) ∷ rest

abbrev pub IsBodyLine : Text → Type 0
IsBodyLine raw = is_hunk raw ≡ false

old_side-parse_lines :
    (b a : ℤ) (raws : List Text)
    → All IsBodyLine raws
    → old_side (parse_lines b a raws) ≡ number_from b (side_texts b'+' b'-' raws)
unfolding parse_lines old_side number_from side_texts
old_side-parse_lines b a [] h = refl
old_side-parse_lines b a ([] ∷ raws) h =
    ap (◌∷◌ (b, [])) (old_side-parse_lines (next b) (next a) raws h.1)
old_side-parse_lines b a ((c ∷ s) ∷ raws) h = ground (
  arith,
  old_side-parse_lines b (next a) raws h.1,
  old_side-parse_lines (next b) a raws h.1,
  old_side-parse_lines (next b) (next a) raws h.1,
)

new_side-parse_lines :
    (b a : ℤ) (raws : List Text)
    → All IsBodyLine raws
    → new_side (parse_lines b a raws) ≡ number_from a (side_texts b'-' b'+' raws)
unfolding parse_lines new_side number_from side_texts
new_side-parse_lines b a [] h = refl
new_side-parse_lines b a ([] ∷ raws) h =
    ap (◌∷◌ (a, [])) (new_side-parse_lines (next b) (next a) raws h.1)
new_side-parse_lines b a ((c ∷ s) ∷ raws) h = ground (
  arith,
  new_side-parse_lines b (next a) raws h.1,
  new_side-parse_lines (next b) a raws h.1,
  new_side-parse_lines (next b) (next a) raws h.1,
)

parse_lines_hunk :
    (b a : ℤ) (header : Text) (raws : List Text)
    → is_hunk header ≡ true
    → parse_lines b a (header ∷ raws)
      ≡ diff_line diff_hunk (pos 0) (pos 0) header
        ∷ parse_lines (parse_hunk_header header).0 (parse_hunk_header header).1 raws
unfolding parse_lines is_hunk has_prefix
parse_lines_hunk b a [] raws h = absurd (ground arith)
parse_lines_hunk b a (c ∷ s) raws h = ground arith

-- In a hunk, the lines of the old file are those that do not begin with `+`, numbered one after
-- the other from the old start of the header; those of the new file are the ones that do not
-- begin with `-`, numbered from the new start.
pub parse_unified_diff_hunk :
    (header : Text) (raws : List Text)
    → is_hunk header ≡ true
    → All IsBodyLine raws
    → (old_side (parse_unified_diff (header ∷ raws))
        ≡ number_from (parse_hunk_header header).0 (side_texts b'+' b'-' raws))
      × (new_side (parse_unified_diff (header ∷ raws))
          ≡ number_from (parse_hunk_header header).1 (side_texts b'-' b'+' raws))
unfolding parse_unified_diff old_side new_side
parse_unified_diff_hunk header raws e h =
    let start = parse_hunk_header header in
    rw (parse_lines_hunk (pos 0) (pos 0) header raws e)
      (old_side-parse_lines start.0 start.1 raws h, new_side-parse_lines start.0 start.1 raws h)

hunk_resets :
    (b a b' a' : ℤ) (xs : List Text) (header : Text) (ys : List Text)
    → is_hunk header ≡ true
    → parse_lines b a (xs ++ header ∷ ys) ≡ parse_lines b a xs ++ parse_lines b' a' (header ∷ ys)
unfolding parse_lines
hunk_resets b a b' a' [] header ys e =
    rw (parse_lines_hunk b a header ys e, parse_lines_hunk b' a' header ys e) refl
hunk_resets b a b' a' ([] ∷ xs) header ys e =
    ap (◌∷◌ (diff_line diff_context b a [])) (hunk_resets (next b) (next a) b' a' xs header ys e)
hunk_resets b a b' a' ((c ∷ s) ∷ xs) header ys e =
    let start = parse_hunk_header (c ∷ s) in
    ground (
      arith,
      hunk_resets start.0 start.1 b' a' xs header ys e,
      hunk_resets b (next a) b' a' xs header ys e,
      hunk_resets (next b) a b' a' xs header ys e,
      hunk_resets (next b) (next a) b' a' xs header ys e,
    )

-- A hunk is parsed the same way whatever lines stand before it.
parse_unified_diff-append :
    (xs : List Text) (header : Text) (ys : List Text)
    → is_hunk header ≡ true
    → parse_unified_diff (xs ++ header ∷ ys)
      ≡ parse_unified_diff xs ++ parse_unified_diff (header ∷ ys)
unfolding parse_unified_diff
parse_unified_diff-append xs header ys e =
    hunk_resets (pos 0) (pos 0) (pos 0) (pos 0) xs header ys e

-- The line as a unified diff writes it.
pub print_line : DiffLine → Text
print_line l = elim l.kind [
  | diff_context ↦ b' ' ∷ l.text
  | diff_add ↦ b'+' ∷ l.text
  | diff_delete ↦ b'-' ∷ l.text
  | diff_hunk ↦ l.text
]

-- A line with a sign that the format has: a header, or one that begins with `+`, `-` or a blank.
abbrev pub IsSigned : Text → Type 0
IsSigned [] = ⊥
IsSigned (c ∷ s) = (is_hunk (c ∷ s) || (c == b'+' || (c == b'-' || c == b' '))) ≡ true

print-parse_lines :
    (b a : ℤ) (raws : List Text) → All IsSigned raws → map print_line (parse_lines b a raws) ≡ raws
unfolding parse_lines print_line
print-parse_lines b a [] h = refl
print-parse_lines b a ([] ∷ raws) h = absurd h.0
print-parse_lines b a ((c ∷ s) ∷ raws) h =
    let start = parse_hunk_header (c ∷ s) in
    ground (
      arith,
      print-parse_lines start.0 start.1 raws h.1,
      print-parse_lines b (next a) raws h.1,
      print-parse_lines (next b) a raws h.1,
      print-parse_lines (next b) (next a) raws h.1,
    )

-- Of a diff whose lines are headers or begin with `+`, `-` or a blank, parsing loses nothing: the
-- typed lines printed give the raw lines again.
pub print-parse_unified_diff :
    (raws : List Text) → All IsSigned raws → map print_line (parse_unified_diff raws) ≡ raws
unfolding parse_unified_diff
print-parse_unified_diff raws h = print-parse_lines (pos 0) (pos 0) raws h
