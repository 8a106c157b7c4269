-- ===== src/ApprovalDiff/Narrow.antt =====
-- The rows that the focus options leave.
use nebula_core.Prelude.{
  ◌≡◌, refl, ap, Bool, true, false, ◌&&◌, ◌||◌, not, List, [], ◌∷◌, arith, if◌then◌else◌, if_cases,
  Bool-cases, inl, inr, sym, ◌≢◌, any,
}
use nebula_core.Text.{
  Text, codes, text_eq, to_lower, lower, trim_space, trim_left, trim_right, is_space, contains,
}
use nebula_core.Text.Laws.{text_eq_iff, text_eq_refl}
use nebula_core.Diff.{DiffRow}
use nebula_core.Sanitize.{sanitize_text}
use nebula_core.ApprovalDiff.{
  ViewOptions, canonical_diff_section, compare_value, row_changed, section_for_label, is_shown,
  apply_filters,
}

-- The same options without the test for changes, and without the sections.
abbrev pub any_change : ViewOptions → ViewOptions
any_change opts = record opts { only_changed = false }

abbrev pub any_section : ViewOptions → ViewOptions
any_section opts = record opts { sections = [] }

is_shown_split :
    (opts : ViewOptions) (row : DiffRow)
    → is_shown opts row ≡ (is_shown (any_section opts) row && is_shown (any_change opts) row)
unfolding is_shown
is_shown_split opts row = ground arith

-- The two kinds of focus options narrow independently: the rows are those that the sections
-- leave of the changed rows.
pub apply_filters_split :
    (rows : List DiffRow) (opts : ViewOptions)
    → apply_filters rows opts
      ≡ apply_filters (apply_filters rows (any_section opts)) (any_change opts)
unfolding apply_filters
apply_filters_split [] opts = refl
apply_filters_split (row ∷ rows) opts =
    ground (arith, apply_filters_split rows opts, is_shown_split opts row)

-- A name that the option `section=` takes as it is.
abbrev IsCanonical : Text → Type 0
IsCanonical s = canonical_diff_section s ≡ s

section_name_lem :
    IsCanonical (codes "content")
    × IsCanonical (codes "scopes")
    × IsCanonical (codes "tags")
    × IsCanonical (codes "source")
    × IsCanonical (codes "core")
    × IsCanonical (codes "metadata")
    × IsCanonical (codes "other")
unfolding canonical_diff_section trim_space trim_left trim_right to_lower lower is_space text_eq
section_name_lem = (refl, refl, refl, refl, refl, refl, refl)

-- Every section that a label can fall into can be asked for by its name.
canonical-section_for_label :
    (label : Text) → canonical_diff_section (section_for_label label) ≡ section_for_label label
unfolding section_for_label
canonical-section_for_label label =
    let key = to_lower (trim_space label) in
    let P : Text → Type 0 = IsCanonical in
    let names = section_name_lem in
    if_cases P (text_eq key (codes "content")) _ _ (λ _. names.0)
      λ _.
        if_cases P (text_eq key (codes "scopes") || contains (codes "scope") key) _ _ (λ _. names.1)
          λ _.
            if_cases P (text_eq key (codes "tags") || contains (codes "tag") key) _ _ (λ _. names.2)
              λ _.
                if_cases P (text_eq key (codes "source type") || contains (codes "source") key) _ _
                  (λ _. names.3)
                  λ _.
                    if_cases P
                      (text_eq key (codes "title")
                        || (text_eq key (codes "name")
                            || (text_eq key (codes "status") || text_eq key (codes "type"))))
                      _ _ (λ _. names.4)
                      (λ _.
                        if_cases P (contains (codes "metadata") key) _ _ (λ _. names.5)
                          (λ _. names.6))

-- The text that is compared, and whether it is empty or a placeholder.
abbrev pub folded : Text → Text
folded value = trim_space (to_lower (sanitize_text value))

pub is_placeholder : Text → Bool
is_placeholder s =
    any (text_eq s) ([] ∷ codes "none" ∷ codes "null" ∷ codes "<nil>" ∷ codes "-" ∷ codes "--" ∷ [])

apart : (a b : Text) → is_placeholder a ≢ is_placeholder b → text_eq a b ≡ false
apart a b h = elim (Bool-cases (text_eq a b)) [
  | inl e ↦ absurd (h (ap is_placeholder ((text_eq_iff a b).0 e)))
  | inr e ↦ e
]

none-is_placeholder : is_placeholder (codes "none") ≡ true
unfolding is_placeholder text_eq
none-is_placeholder = refl

compare_lem :
    (a b : Text)
    → text_eq
        (if is_placeholder a then codes "none" else a)
        (if is_placeholder b then codes "none" else b)
      ≡ ((is_placeholder a && is_placeholder b) || text_eq a b)
compare_lem a b = elim (Bool-cases (is_placeholder a)) [
  | inl ea ↦ elim (Bool-cases (is_placeholder b)) [
    | inl eb ↦ rw (ea, eb, text_eq_refl (codes "none")) refl
    | inr eb ↦
        rw
          (
            ea,
            eb,
            apart (codes "none") b (differ (codes "none") b none-is_placeholder eb),
            apart a b (differ a b ea eb),
          )
          refl
  ]
  | inr ea ↦ elim (Bool-cases (is_placeholder b)) [
    | inl eb ↦
        rw
          (
            ea,
            eb,
            apart a (codes "none") (λ p. differ (codes "none") a none-is_placeholder ea (sym p)),
            apart a b (λ p. differ b a eb ea (sym p)),
          )
          refl
    | inr eb ↦ rw (ea, eb) refl
  ]
]
  where
    differ :
        (x y : Text)
        → is_placeholder x ≡ true
        → is_placeholder y ≡ false
        → is_placeholder x ≢ is_placeholder y
    differ x y hx hy p = ground arith

-- A row counts as changed exactly where its two values, cleaned, in lower case and trimmed,
-- differ and are not both placeholders or empty.
row_changed_lem :
    (row : DiffRow)
    → row_changed row
      ≡ not (
          (is_placeholder (folded row.from) && is_placeholder (folded row.to))
          || text_eq (folded row.from) (folded row.to))
unfolding row_changed compare_value is_placeholder
row_changed_lem row = ap not (compare_lem (folded row.from) (folded row.to))
