-- ===== src/Metadata/Printed.antt =====
-- The text of the editor is clean.
use nebula_core.Prelude.{
  ℕ, zero, suc, ◌+◌, refl, ◌||◌, List, [], ◌∷◌, ◌++◌, replicate, is_empty, All, All-append,
  if_cases,
}
use nebula_core.Text.{Text, codes, text_eq, trim_space, join}
use nebula_core.Text.Order.{sort_entries, All-sort_entries}
use nebula_core.Text.Letters.{All-join}
use nebula_core.Value.{
  Value, null, bool, num, str, arr, obj, Items, nil, cons, Fields, end, field, format_v,
}
use nebula_core.Sanitize.{sanitize_text}
use nebula_core.Sanitize.Clean.{IsClean, sanitize_text-IsClean}
use nebula_core.Metadata.Structured.{Json, normalize_value}
use nebula_core.Metadata.Print.{
  sanitize_metadata_value, humanize_go_map_string, shown_text, format_inline, format_parts,
  format_settled, format_metadata_value, entry_line, lines_of, key_lines, input_entries,
  metadata_input_lines, metadata_to_input,
}

abbrev IsCleanText : Text → Type 0
IsCleanText s = All IsClean s

literals :
    IsCleanText (codes "None")
    × IsCleanText (codes "[")
    × IsCleanText (codes "]")
    × IsCleanText (codes ", ")
literals = ((refl, (refl, (refl, (refl, tt)))), (refl, tt), (refl, tt), (refl, (refl, tt)))

marks : IsCleanText (codes ":") × IsCleanText (codes ": ") × IsCleanText (10 ∷ [])
marks = ((refl, tt), (refl, (refl, tt)), (refl, tt))

blanks-IsClean : (n : ℕ) → IsCleanText (replicate n 32)
blanks-IsClean zero = tt
blanks-IsClean (suc n) = (refl, blanks-IsClean n)

shown_text-IsClean : (s : Text) → IsCleanText (shown_text s)
unfolding shown_text
shown_text-IsClean s =
    if_cases IsCleanText (is_empty (trim_space s) || text_eq (trim_space s) (codes "<nil>"))
      (codes "None") (sanitize_text (trim_space s)) (λ _. literals.0)
      (λ _. sanitize_text-IsClean (trim_space s))

module _ (json : Json) where
  mutual
    unfolding format_inline

    format_inline-IsClean : (v : Value) → IsCleanText (format_inline json v)
    format_inline-IsClean null = literals.0
    format_inline-IsClean (bool b) = shown_text-IsClean (format_v (bool b))
    format_inline-IsClean (num n) = shown_text-IsClean (format_v (num n))
    format_inline-IsClean (str s) = shown_text-IsClean s
    format_inline-IsClean (arr xs) =
        All-append IsClean (codes "[") (join (codes ", ") (format_parts json xs) ++ codes "]")
          literals.1
          (All-append IsClean (join (codes ", ") (format_parts json xs)) (codes "]")
            (All-join IsClean (codes ", ") (format_parts json xs) literals.3
              (format_parts-IsClean xs))
            literals.2)
    format_inline-IsClean (obj fs) =
        sanitize_text-IsClean (json.encode (sanitize_metadata_value (obj fs)))

    format_parts-IsClean : (xs : Items) → All IsCleanText (format_parts json xs)
    format_parts-IsClean nil = tt
    format_parts-IsClean (cons v xs) = (format_inline-IsClean v, format_parts-IsClean xs)

  format_settled-IsClean : (v : Value) → IsCleanText (format_settled json v)
  unfolding format_settled
  format_settled-IsClean (str s) = shown_text-IsClean (humanize_go_map_string s)
  format_settled-IsClean null = format_inline-IsClean null
  format_settled-IsClean (bool b) = format_inline-IsClean (bool b)
  format_settled-IsClean (num n) = format_inline-IsClean (num n)
  format_settled-IsClean (arr xs) = format_inline-IsClean (arr xs)
  format_settled-IsClean (obj fs) = format_inline-IsClean (obj fs)

  entry_line-IsClean :
      (n : ℕ) (k rest : Text) → IsCleanText rest → IsCleanText (entry_line n k rest)
  entry_line-IsClean n k rest h =
      All-append IsClean (replicate n 32) (sanitize_text k ++ rest) (blanks-IsClean n)
        (All-append IsClean (sanitize_text k) rest (sanitize_text-IsClean k) h)

  value_line-IsClean :
      (n : ℕ) (k : Text) (v : Value)
      → IsCleanText (entry_line n k (codes ": " ++ format_metadata_value json v))
  unfolding format_metadata_value
  value_line-IsClean n k v = entry_line-IsClean n k (codes ": " ++ format_metadata_value json v) (
      All-append IsClean (codes ": ") (format_metadata_value json v) marks.1
        (format_settled-IsClean (normalize_value json v)))

  abbrev IsCleanEntry : Text × List Text → Type 0
  IsCleanEntry e = All IsCleanText e.1

  lines_of-IsClean :
      (es : List (Text × List Text)) → All IsCleanEntry es → All IsCleanText (lines_of es)
  lines_of-IsClean [] h = tt
  lines_of-IsClean ((k, ls) ∷ es) h =
      All-append IsCleanText ls (lines_of es) h.0 (lines_of-IsClean es h.1)

  mutual
    unfolding key_lines

    key_lines-IsClean : (n : ℕ) (k : Text) (v : Value) → All IsCleanText (key_lines json n k v)
    key_lines-IsClean n k (obj fs) = (
      entry_line-IsClean n k (codes ":") marks.0,
      lines_of-IsClean (sort_entries (input_entries json (n + 2) fs)) (
          All-sort_entries IsCleanEntry (input_entries json (n + 2) fs)
            (input_entries-IsClean (n + 2) fs)),
    )
    key_lines-IsClean n k null = (value_line-IsClean n k null, tt)
    key_lines-IsClean n k (bool b) = (value_line-IsClean n k (bool b), tt)
    key_lines-IsClean n k (num m) = (value_line-IsClean n k (num m), tt)
    key_lines-IsClean n k (str s) = (value_line-IsClean n k (str s), tt)
    key_lines-IsClean n k (arr xs) = (value_line-IsClean n k (arr xs), tt)

    input_entries-IsClean : (n : ℕ) (fs : Fields) → All IsCleanEntry (input_entries json n fs)
    input_entries-IsClean n end = tt
    input_entries-IsClean n (field k v fs) = (key_lines-IsClean n k v, input_entries-IsClean n fs)

  -- Whatever the metadata, the text that the editor starts from has no ASCII control but newline
  -- and tab: keys, values and encoded structures are all cleaned.
  pub metadata_to_input-IsClean : (fs : Fields) → All IsClean (metadata_to_input json fs)
  unfolding metadata_to_input metadata_input_lines
  metadata_to_input-IsClean fs =
      let entries = input_entries json 0 fs in
      All-join IsClean (10 ∷ []) (lines_of (sort_entries entries)) marks.2 (
        lines_of-IsClean (sort_entries entries)
          (All-sort_entries IsCleanEntry entries (input_entries-IsClean 0 fs)))
