-- ===== src/Metadata/Print.antt =====
-- Metadata as the text of the editor: metadataToInput of cli/src/internal/ui/metadata.go and what
-- it calls. A value is normalised once: formatMetadataInline normalises the parts again, which
-- changes nothing. encoding/json never fails on these values.
use nebula_core.Prelude.{
  ℕ, ◌+◌, ◌&&◌, ◌||◌, not, Option, none, some, List, [], ◌∷◌, ◌++◌, if◌then◌else◌, length, drop,
  replicate, is_empty,
}
use nebula_core.Text.{
  Text, codes, text_eq, trim_space, trim_suffix, has_prefix, has_suffix, cut, join,
}
use nebula_core.Text.Order.{sort_entries}
use nebula_core.Value.{
  Value, null, bool, num, str, arr, obj, Items, nil, cons, Fields, end, field, put_field, format_v,
}
use nebula_core.Sanitize.{sanitize_text}
use nebula_core.Metadata.Structured.{Json, normalize_value}

-- What follows the first occurrence of a text.
unfoldable pub after_text : Text → Text → Option Text
after_text p [] = if is_empty p then some [] else none
after_text p (c ∷ s) =
    if has_prefix p (c ∷ s) then some (drop (length p) (c ∷ s)) else after_text p s

-- The scopes and the text that fmt prints of a map.
unfoldable pub printed_scopes : Text → Text
unfolding after_text
printed_scopes t = elim (after_text (codes "scopes:[") t) [
  | none ↦ []
  | some rest ↦ elim (cut b']' rest) [ none ↦ [] | some (a, b) ↦ trim_space a ]
]

unfoldable pub printed_text : Text → Text
unfolding after_text
printed_text t = elim (after_text (codes "text:") t) [
  | none ↦ []
  | some rest ↦ trim_space (trim_suffix (codes "]") (trim_space rest))
]

unfoldable pub humanize_go_map_string : Text → Text
unfolding printed_scopes printed_text
humanize_go_map_string raw =
    let trimmed = trim_space raw in
    let scopes = printed_scopes trimmed in
    let text = printed_text trimmed in
    if not (has_prefix (codes "map[") trimmed && has_suffix (codes "]") trimmed)
    then raw
    else if not (is_empty text) && not (is_empty scopes)
    then codes "[" ++ (scopes ++ (codes "] " ++ text))
    else if not (is_empty text)
    then text
    else raw

-- Two keys that clean to one text are one key; of their values the first field's is kept.
unfoldable mutual
  pub sanitize_metadata_value : Value → Value
  sanitize_metadata_value null = null
  sanitize_metadata_value (bool b) = bool b
  sanitize_metadata_value (num n) = num n
  sanitize_metadata_value (str s) = str (sanitize_text s)
  sanitize_metadata_value (arr xs) = arr (sanitize_items xs)
  sanitize_metadata_value (obj fs) = obj (sanitize_fields fs)

  pub sanitize_items : Items → Items
  sanitize_items nil = nil
  sanitize_items (cons v xs) = cons (sanitize_metadata_value v) (sanitize_items xs)

  pub sanitize_fields : Fields → Fields
  sanitize_fields end = end
  sanitize_fields (field k v fs) =
      put_field (sanitize_text k) (sanitize_metadata_value v) (sanitize_fields fs)

-- A scalar's text, cleaned, or the placeholder.
unfoldable pub shown_text : Text → Text
shown_text s =
    let trimmed = trim_space s in
    if is_empty trimmed || text_eq trimmed (codes "<nil>")
    then codes "None"
    else sanitize_text trimmed

abbrev pub entry_line : ℕ → Text → Text → Text
entry_line indent key rest = replicate indent 32 ++ (sanitize_text key ++ rest)

abbrev pub lines_of : List (Text × List Text) → List Text
lines_of [] = []
lines_of ((k, ls) ∷ es) = ls ++ lines_of es

module _ (json : Json) where
  -- formatMetadataInline, on a normalised value.
  unfoldable mutual
    unfolding shown_text sanitize_metadata_value

    pub format_inline : Value → Text
    format_inline null = codes "None"
    format_inline (bool b) = shown_text (format_v (bool b))
    format_inline (num n) = shown_text (format_v (num n))
    format_inline (str s) = shown_text s
    format_inline (arr xs) = codes "[" ++ (join (codes ", ") (format_parts xs) ++ codes "]")
    format_inline (obj fs) = sanitize_text (json.encode (sanitize_metadata_value (obj fs)))

    pub format_parts : Items → List Text
    format_parts nil = []
    format_parts (cons v xs) = format_inline v ∷ format_parts xs

  -- formatMetadataValue, on a normalised value.
  unfoldable pub format_settled : Value → Text
  unfolding format_inline humanize_go_map_string
  format_settled (str s) = shown_text (humanize_go_map_string s)
  format_settled null = format_inline null
  format_settled (bool b) = format_inline (bool b)
  format_settled (num n) = format_inline (num n)
  format_settled (arr xs) = format_inline (arr xs)
  format_settled (obj fs) = format_inline (obj fs)

  unfoldable pub format_metadata_value : Value → Text
  unfolding format_settled normalize_value
  format_metadata_value v = format_settled (normalize_value json v)

  -- The lines of one key, and those of each key of a map.
  unfoldable mutual
    unfolding format_metadata_value

    pub key_lines : ℕ → Text → Value → List Text
    key_lines indent k (obj fs) =
        entry_line indent k (codes ":") ∷ lines_of (sort_entries (input_entries (indent + 2) fs))
    key_lines indent k null = entry_line indent k (codes ": " ++ format_metadata_value null) ∷ []
    key_lines indent k (bool b) =
        entry_line indent k (codes ": " ++ format_metadata_value (bool b)) ∷ []
    key_lines indent k (num n) =
        entry_line indent k (codes ": " ++ format_metadata_value (num n)) ∷ []
    key_lines indent k (str s) =
        entry_line indent k (codes ": " ++ format_metadata_value (str s)) ∷ []
    key_lines indent k (arr xs) =
        entry_line indent k (codes ": " ++ format_metadata_value (arr xs)) ∷ []

    pub input_entries : ℕ → Fields → List (Text × List Text)
    input_entries indent end = []
    input_entries indent (field k v fs) = (k, key_lines indent k v) ∷ input_entries indent fs

  unfoldable pub metadata_input_lines : Fields → ℕ → List Text
  unfolding input_entries sort_entries
  metadata_input_lines fs indent = lines_of (sort_entries (input_entries indent fs))

  unfoldable pub metadata_to_input : Fields → Text
  unfolding metadata_input_lines
  metadata_to_input fs = join (10 ∷ []) (metadata_input_lines fs 0)
