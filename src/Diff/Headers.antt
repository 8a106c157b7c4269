-- ===== src/Diff/Headers.antt =====
-- The headers of hunks: what is read of one that a unified diff writes.
use nebula_core.Prelude.{
  ℕ, suc, ◌≤◌, ◌==◌, ◌≡◌, refl, ap, ◌∙◌, subst, true, false, ◌||◌, Option, none, some, List, [],
  ◌∷◌, ◌++◌, ℤ, pos, All, All-append, arith,
}
use nebula_core.Text.{Text, codes, has_prefix, contains, cut}
use nebula_core.Text.Letters.{All-imp}
use nebula_core.Text.Lines.{IsOther}
use nebula_core.Text.Decimal.{decimal, IsDigit, decimal-IsDigit}
use nebula_core.Diff.{
  split_n, max_int, scan_part, scan_parts, parse_hunk_header, is_hunk, parse_unified_diff,
}
use nebula_core.Diff.Numbering.{
  old_side, new_side, number_from, side_texts, IsBodyLine, parse_unified_diff_hunk,
}
use nebula_core.Diff.Scan.{scan_int-decimal}

module _ (sep : ℕ) where
  cut-part : (w s : Text) → All (IsOther sep) w → cut sep (w ++ sep ∷ s) ≡ some (w, s)
  unfolding cut
  cut-part [] s h = ground arith
  cut-part (c ∷ w) s h = rw (h.0, cut-part w s h.1) refl

  split_n-part :
      (n : ℕ) (w s : Text)
      → All (IsOther sep) w
      → split_n sep (suc n) (w ++ sep ∷ s) ≡ w ∷ split_n sep n s
  unfolding split_n
  split_n-part n w s h = rw (cut-part w s h, split_n) refl

  contains-part : (w s : Text) → contains (sep ∷ []) (w ++ sep ∷ s) ≡ true
  unfolding contains has_prefix
  contains-part [] s = ground arith
  contains-part (c ∷ w) s = ground (arith, contains-part w s)

-- The range of a side: the number of its first line and how many lines there are.
abbrev range : ℕ → ℕ → Text
range start count = decimal start ++ b',' ∷ decimal count

-- What may follow the closing `@@`: nothing, or a heading behind a blank.
abbrev tail_of : Option Text → Text
tail_of none = []
tail_of (some heading) = b' ' ∷ heading

-- A header of the format, with the old and the new range.
unfoldable pub hunk_header : (old new : ℕ × ℕ) → Option Text → Text
hunk_header old new heading =
    codes "@@"
    ++ b' '
      ∷ ((b'-' ∷ range old.0 old.1)
          ++ b' ' ∷ ((b'+' ∷ range new.0 new.1) ++ b' ' ∷ (codes "@@" ++ tail_of heading)))

range-IsOther : (start count : ℕ) → All (IsOther b' ') (range start count)
range-IsOther start count =
    All-append (IsOther b' ') (decimal start) (b',' ∷ decimal count) (printed start)
      (refl, printed count)
  where
    printed : (n : ℕ) → All (IsOther b' ') (decimal n)
    printed n = All-imp IsDigit (IsOther b' ') (λ c h. ground arith) (decimal n) (decimal-IsDigit n)

-- A heading does not begin with a sign.
abbrev pub IsHeading : Option Text → Type 0
IsHeading none = Unit
IsHeading (some []) = Unit
IsHeading (some (c ∷ s)) = (c == b'-' || c == b'+') ≡ false

parts :
    (old new : ℕ × ℕ) (heading : Option Text)
    → split_n b' ' 4 (hunk_header old new heading)
      ≡ codes "@@"
        ∷ ((b'-' ∷ range old.0 old.1)
            ∷ ((b'+' ∷ range new.0 new.1) ∷ split_n b' ' 1 (codes "@@" ++ tail_of heading)))
unfolding hunk_header
parts old new heading =
    rw
      (
        split_n-part b' ' 3 (codes "@@") _ (refl, (refl, tt)),
        split_n-part b' ' 2 (b'-' ∷ range old.0 old.1) _ (refl, range-IsOther old.0 old.1),
        split_n-part b' ' 1 (b'+' ∷ range new.0 new.1) _ (refl, range-IsOther new.0 new.1),
      )
      refl

scan_part-range :
    (sign start count : ℕ) (z : ℤ)
    → start ≤ max_int
    → scan_part sign (sign ∷ range start count) z ≡ pos start
unfolding scan_part
scan_part-range sign start count z l =
    let comma : contains (b',' ∷ []) (sign ∷ range start count) ≡ true =
      contains-part b',' (sign ∷ decimal start) (decimal count) in
    let same : (sign == sign) ≡ true = ground arith in
    rw (same, comma, scan_int-decimal start (b',' ∷ decimal count) l refl) refl

scan_part-other :
    (sign c : ℕ) (s : Text) (z : ℤ) → (c == sign) ≡ false → scan_part sign (c ∷ s) z ≡ z
unfolding scan_part
scan_part-other sign c s z h = rw h refl

scan_parts-heading :
    (sign : ℕ) (heading : Option Text) (z : ℤ)
    → (b'@' == sign) ≡ false
    → (sign == b'-' || sign == b'+') ≡ true
    → IsHeading heading
    → scan_parts sign (split_n b' ' 1 (codes "@@" ++ tail_of heading)) z ≡ z
unfolding scan_parts split_n cut
scan_parts-heading sign none z h s k = scan_part-other sign b'@' _ z h
scan_parts-heading sign (some []) z h s k = unfold scan_part in scan_part-other sign b'@' _ z h
scan_parts-heading sign (some (c ∷ t)) z h s k =
    ap (scan_part sign (c ∷ t)) (scan_part-other sign b'@' (b'@' ∷ []) z h)
    ∙ scan_part-other sign c t z (ground arith)

-- The parts one after the other: one of them sets the value, and those behind it keep it.
scan_parts-old :
    (old new : ℕ × ℕ) (heading : Option Text) (z : ℤ)
    → old.0 ≤ max_int
    → IsHeading heading
    → scan_parts b'-' (split_n b' ' 4 (hunk_header old new heading)) z ≡ pos old.0
unfolding scan_parts
scan_parts-old old new heading z l h =
    let rest = split_n b' ' 1 (codes "@@" ++ tail_of heading) in
    let plus = b'+' ∷ range new.0 new.1 in
    ap (λ ps. scan_parts b'-' ps z) (parts old new heading)
    ∙ (ap (λ y. scan_parts b'-' rest (scan_part b'-' plus y))
          (scan_part-range b'-' old.0 old.1 (scan_part b'-' (codes "@@") z) l)
        ∙ (ap (scan_parts b'-' rest)
              (scan_part-other b'-' b'+' (range new.0 new.1) (pos old.0) refl)
            ∙ scan_parts-heading b'-' heading (pos old.0) refl refl h))

scan_parts-new :
    (old new : ℕ × ℕ) (heading : Option Text) (z : ℤ)
    → new.0 ≤ max_int
    → IsHeading heading
    → scan_parts b'+' (split_n b' ' 4 (hunk_header old new heading)) z ≡ pos new.0
unfolding scan_parts
scan_parts-new old new heading z l h =
    let rest = split_n b' ' 1 (codes "@@" ++ tail_of heading) in
    let minus = b'-' ∷ range old.0 old.1 in
    ap (λ ps. scan_parts b'+' ps z) (parts old new heading)
    ∙ (ap (scan_parts b'+' rest) (
          scan_part-range b'+' new.0 new.1 (scan_part b'+' minus (scan_part b'+' (codes "@@") z)) l)
        ∙ scan_parts-heading b'+' heading (pos new.0) refl refl h)

-- Both starts of a header are read, up to the largest `int`.
parse-hunk_header :
    (old new : ℕ × ℕ) (heading : Option Text)
    → old.0 ≤ max_int
    → new.0 ≤ max_int
    → IsHeading heading
    → parse_hunk_header (hunk_header old new heading) ≡ (pos old.0, pos new.0)
unfolding parse_hunk_header
parse-hunk_header old new heading l l' h =
    ap (λ b. (b, scan_parts b'+' (split_n b' ' 4 (hunk_header old new heading)) (pos 1)))
      (scan_parts-old old new heading (pos 1) l h)
    ∙ ap (λ a. (pos old.0, a)) (scan_parts-new old new heading (pos 1) l' h)

hunk_header-is_hunk :
    (old new : ℕ × ℕ) (heading : Option Text) → is_hunk (hunk_header old new heading) ≡ true
unfolding is_hunk hunk_header has_prefix
hunk_header-is_hunk old new heading = refl

-- In a hunk whose header is `@@ -b,n +a,m @@` with numbers that an `int` holds, and perhaps a heading
-- that does not begin with a sign: the lines of the old file are those that do not begin with `+`,
-- numbered one after the other from `b`; those of the new file are the ones that do not begin with
-- `-`, numbered from `a`.
pub parse_unified_diff-hunk_header :
    (old new : ℕ × ℕ) (heading : Option Text) (raws : List Text)
    → old.0 ≤ max_int
    → new.0 ≤ max_int
    → IsHeading heading
    → All IsBodyLine raws
    → (old_side (parse_unified_diff (hunk_header old new heading ∷ raws))
        ≡ number_from (pos old.0) (side_texts b'+' b'-' raws))
      × (new_side (parse_unified_diff (hunk_header old new heading ∷ raws))
          ≡ number_from (pos new.0) (side_texts b'-' b'+' raws))
parse_unified_diff-hunk_header old new heading raws l l' h body =
    let header = hunk_header old new heading in
    subst
      (λ start.
        (old_side (parse_unified_diff (header ∷ raws))
          ≡ number_from start.0 (side_texts b'+' b'-' raws))
        × (new_side (parse_unified_diff (header ∷ raws))
            ≡ number_from start.1 (side_texts b'-' b'+' raws)))
      (parse-hunk_header old new heading l l' h)
      (parse_unified_diff_hunk header raws (hunk_header-is_hunk old new heading) body)
