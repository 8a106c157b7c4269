-- ===== src/Scopes/Bulk.antt =====
-- What the bulk edit line yields.
use nebula_core.Prelude.{
  ℕ, ◌≡◌, refl, true, false, List, [], ◌∷◌, ◌++◌, arith, All, is_empty, ◌≢◌, if_cases, every, not,
  ap, ◌∙◌,
}
use nebula_core.Text.{
  Text, codes, lower, to_lower, is_space, trim_left, trim_right, trim_space, has_prefix,
}
use nebula_core.Text.Letters.{All-trim_space, fields_func-no_separator}
use nebula_core.Scopes.{
  trimmed, BulkOp, op_add, op_remove, op_set, BulkResult, parsed, no_input, no_values, bulk_op,
  is_separator, bulk_result, parse_bulk_input,
}

-- A value that can be named on the line: not empty, with no comma and no blank.
abbrev pub IsName : Text → Type 0
IsName v = (is_empty v ≡ false) × All (λ c. is_separator c ≡ false) v

trimmed-IsName :
    (parts : List Text) → All (All (λ c. is_separator c ≡ false)) parts → All IsName (trimmed parts)
unfolding trimmed
trimmed-IsName [] h = tt
trimmed-IsName (p ∷ parts) h =
    if_cases (All IsName) (is_empty (trim_space p)) _ _ (λ _. trimmed-IsName parts h.1)
      (λ e. ((e, All-trim_space (λ c. is_separator c ≡ false) p h.0), trimmed-IsName parts h.1))

-- What a result promises: names, and at least one unless the operation is `set`.
abbrev pub IsUsable : BulkResult → Type 0
IsUsable (parsed b) = All IsName b.values × (b.op ≢ op_set → is_empty b.values ≡ false)
IsUsable no_input = Unit
IsUsable no_values = Unit

bulk_result-IsUsable :
    (op : BulkOp) (values : List Text) → All IsName values → IsUsable (bulk_result op values)
unfolding bulk_result
bulk_result-IsUsable op [] h = go op
  where
    go : (o : BulkOp) → IsUsable (bulk_result o [])
    go op_add = tt
    go op_remove = tt
    go op_set = (tt, λ n. absurd (n refl))
bulk_result-IsUsable op (v ∷ vs) h = (h, λ n. refl)

-- Every line yields a usable result: the values are names, and only `set` may have none of them.
-- The error for a blank line is given exactly where nothing is left after trimming.
pub parse_bulk_input_lem :
    (raw : Text)
    → IsUsable (parse_bulk_input raw)
      × ((is_empty (trim_space raw) ≡ true → parse_bulk_input raw ≡ no_input)
          × (is_empty (trim_space raw) ≡ false → parse_bulk_input raw ≢ no_input))
unfolding parse_bulk_input
parse_bulk_input_lem raw = (
  if_cases IsUsable (is_empty (trim_space raw)) _ _ (λ _. tt)
      (λ _. bulk_result-IsUsable _ _ (trimmed-IsName _ (fields_func-no_separator is_separator _))),
  (λ e. rw e, λ e. rw e (not_blank _ _)),
)
  where
    not_blank : (op : BulkOp) (values : List Text) → bulk_result op values ≢ no_input
    not_blank op values = ground arith

-- The letters of trimming around a letter that is no blank.
trim_space-cons :
    (c : ℕ) (s : Text) → is_space c ≡ false → trim_space (c ∷ s) ≡ c ∷ trim_right is_space s
unfolding trim_space trim_left trim_right
trim_space-cons c s h = ground arith

trim_right-cons :
    (c : ℕ) (s : Text)
    → is_space c ≡ false
    → trim_right is_space (c ∷ s) ≡ c ∷ trim_right is_space s
unfolding trim_right
trim_right-cons c s h = ground arith

-- A word with no blank in it stands whole before what is trimmed behind it.
trim_right-append :
    (w s : Text)
    → All (λ c. is_space c ≡ false) w
    → trim_right is_space (w ++ s) ≡ w ++ trim_right is_space s
trim_right-append [] s h = refl
trim_right-append (c ∷ w) s h =
    trim_right-cons c (w ++ s) h.0 ∙ ap (◌∷◌ c) (trim_right-append w s h.1)

trim_space-append :
    (c : ℕ) (w s : Text)
    → All (λ d. is_space d ≡ false) (c ∷ w)
    → trim_space ((c ∷ w) ++ s) ≡ c ∷ (w ++ trim_right is_space s)
trim_space-append c w s h = trim_space-cons c (w ++ s) h.0 ∙ ap (◌∷◌ c) (trim_right-append w s h.1)

-- A word is checked letter by letter.
no_blank : (w : Text) → every (λ c. not (is_space c)) w ≡ true → All (λ c. is_space c ≡ false) w
no_blank [] h = tt
no_blank (c ∷ w) h = (ground arith, no_blank w (ground arith))

-- The short spellings `+`, `-` and `=` mean `add:`, `remove:` and `set:`.
parse_bulk_input_spellings :
    (s : Text)
    → (parse_bulk_input (codes "add:" ++ s) ≡ parse_bulk_input (codes "+" ++ s))
      × (parse_bulk_input (codes "remove:" ++ s) ≡ parse_bulk_input (codes "-" ++ s))
      × (parse_bulk_input (codes "set:" ++ s) ≡ parse_bulk_input (codes "=" ++ s))
unfolding parse_bulk_input bulk_op has_prefix to_lower lower is_space
parse_bulk_input_spellings s = (
  rw (
    trim_space-append b'a' (codes "dd:") s (no_blank (codes "add:") refl),
    trim_space-append b'+' [] s (refl, tt),
  ),
  rw (
    trim_space-append b'r' (codes "emove:") s (no_blank (codes "remove:") refl),
    trim_space-append b'-' [] s (refl, tt),
  ),
  rw (
    trim_space-append b's' (codes "et:") s (no_blank (codes "set:") refl),
    trim_space-append b'=' [] s (refl, tt),
  ),
)
