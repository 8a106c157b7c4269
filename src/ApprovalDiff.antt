-- ===== src/ApprovalDiff.antt =====
-- The command that shows what an approval would change:
-- cli/src/internal/cmd/approval_diff_output.go. The tables that it draws and the payload for
-- machines are not modelled.
pub mod Options
pub mod Narrow
pub mod Clamp
pub mod Cells
use nebula_core.Prelude.{
  ℕ, zero, suc, ◌+◌, ◌-◌, Bool, true, false, ◌&&◌, ◌||◌, not, Option, none, some, List, [], ◌∷◌,
  ◌++◌, map, if◌then◌else◌, leb, ltb, ◌==◌, length, take, is_empty, ℤ, pos, negsuc, any,
}
use nebula_core.Text.{
  Text, codes, text_eq, to_lower, trim_space, trim_right, has_prefix, trim_prefix, contains, split,
  join,
}
use nebula_core.Text.Decimal.{decimal}
use nebula_core.Text.Order.{text_le}
use nebula_core.StringSet.{mem, insert}
use nebula_core.Value.{Value, null, bool, num, str, arr, obj, Fields, end, field, get_field}
use nebula_core.Sanitize.{sanitize_text}
use nebula_core.Diff.{DiffRow}

pub record ViewOptions : Type 0 where
  pub only_changed : Bool
  pub sections : List Text
  pub max_lines : ℤ
  pub raw_only : List Text

pub data OptionsError : Type 0 where
  invalid_max_lines : ℤ → OptionsError
  missing_section : Text → OptionsError
  unexpected_only : Text → OptionsError

pub data Parsed : Type 0 where
  parsed : ViewOptions → Parsed
  failed : OptionsError → Parsed

-- canonicalDiffSection
unfoldable pub canonical_diff_section : Text → Text
canonical_diff_section section =
    let s = to_lower (trim_space section) in
    if text_eq s (codes "core")
    then codes "core"
    else if text_eq s (codes "metadata") || text_eq s (codes "meta")
    then codes "metadata"
    else if text_eq s (codes "tags") || text_eq s (codes "tag")
    then codes "tags"
    else if text_eq s (codes "scopes") || text_eq s (codes "scope")
    then codes "scopes"
    else if text_eq s (codes "content")
    then codes "content"
    else if text_eq s (codes "source")
    then codes "source"
    else codes "other"

-- The case of the switch that a value of `--only` takes.
pub data OnlyToken : Type 0 where
  blank changed no_section unknown : OnlyToken
  section : Text → OnlyToken

unfoldable pub only_token : Text → OnlyToken
only_token raw =
    let token = to_lower (trim_space raw) in
    let name = trim_space (trim_prefix (codes "section=") token) in
    if is_empty token
    then blank
    else if text_eq token (codes "changed")
    then changed
    else if has_prefix (codes "section=") token
    then (if is_empty name then no_section else section (canonical_diff_section name))
    else unknown

-- The loop over the values of `--only`.
unfoldable pub parse_only : List Text → ViewOptions → Parsed
unfolding only_token
parse_only [] opts = parsed opts
parse_only (raw ∷ only) opts = elim (only_token raw) [
  | blank ↦ parse_only only opts
  | changed ↦ parse_only only (record opts { only_changed = true })
  | section s ↦ parse_only only (record opts { sections = insert s opts.sections })
  | no_section ↦ failed (missing_section raw)
  | unknown ↦ failed (unexpected_only raw)
]

unfoldable pub parse_view_options : List Text → ℤ → Parsed
unfolding parse_only
parse_view_options only (negsuc n) = failed (invalid_max_lines (negsuc n))
parse_view_options only (pos zero) = failed (invalid_max_lines (pos zero))
parse_view_options only (pos (suc n)) =
    parse_only only
      (record { only_changed = false; sections = []; max_lines = pos (suc n); raw_only = only })

-- strings.TrimRight(line, " \t")
abbrev pub trim_blanks : Text → Text
trim_blanks line = trim_right (λ c. c == 32 || c == 9) line

abbrev pub newline : Text
newline = 10 ∷ []

unfoldable pub value_lines : Text → List Text
value_lines value = map trim_blanks (split 10 (sanitize_text value))

-- `... (+%d more lines)`
unfoldable pub more_lines : ℕ → Text
more_lines hidden = codes "... (+" ++ (decimal hidden ++ codes " more lines)")

unfoldable pub clamp_value_lines : Text → ℤ → Text
unfolding value_lines more_lines
clamp_value_lines value (negsuc n) = value
clamp_value_lines value (pos zero) = value
clamp_value_lines value (pos (suc n)) =
    let lines = value_lines value in
    if leb (length lines) (suc n)
    then join newline lines
    else join newline (take (suc n) lines ++ more_lines (length lines - suc n) ∷ [])

-- The text or its placeholder, cleaned.
unfoldable pub cell_text : (Text → Bool) → Text → Text
cell_text is_none value =
    let clean = trim_space value in
    if is_empty clean || is_none clean then codes "None" else sanitize_text clean

unfoldable pub insert_sorted : Text → List Text → List Text
unfolding text_le
insert_sorted k [] = k ∷ []
insert_sorted k (j ∷ ks) =
    let rest = insert_sorted k ks in if text_le k j then k ∷ j ∷ ks else j ∷ rest

-- The keys of a map in the order of sort.Strings.
unfoldable pub sorted_keys : Fields → List Text
unfolding insert_sorted
sorted_keys end = []
sorted_keys (field k v fs) = insert_sorted k (sorted_keys fs)

-- m[k] as an interface: nil where the key is missing.
abbrev pub value_of : Option Value → Value
value_of none = null
value_of (some v) = v

-- How `encoding/json` prints a value with an indent of two blanks.
module _ (marshal_indent : Value → Text) where
  unfoldable pub any_value : Value → Text
  unfolding cell_text
  any_value null = codes "None"
  any_value (str s) = cell_text (λ t. false) s
  any_value (bool b) = cell_text (text_eq (codes "null")) (marshal_indent (bool b))
  any_value (num n) = cell_text (text_eq (codes "null")) (marshal_indent (num n))
  any_value (arr xs) = cell_text (text_eq (codes "null")) (marshal_indent (arr xs))
  any_value (obj fs) = cell_text (text_eq (codes "null")) (marshal_indent (obj fs))

  unfoldable pub field_values : Value → Text × Text
  unfolding any_value
  field_values (obj diff) = (
    any_value (value_of (get_field (codes "from") diff)),
    any_value (value_of (get_field (codes "to") diff)),
  )
  field_values null = (codes "None", any_value null)
  field_values (bool b) = (codes "None", any_value (bool b))
  field_values (num n) = (codes "None", any_value (num n))
  field_values (str s) = (codes "None", any_value (str s))
  field_values (arr xs) = (codes "None", any_value (arr xs))

  unfoldable pub diff_row : Fields → ℤ → Text → DiffRow
  unfolding field_values clamp_value_lines
  diff_row changes max_lines key =
      let values = field_values (value_of (get_field key changes)) in
      record {
        label = key;
        from = clamp_value_lines values.0 max_lines;
        to = clamp_value_lines values.1 max_lines;
      }

  unfoldable pub approval_diff_rows : Fields → ℤ → List DiffRow
  unfolding diff_row sorted_keys
  approval_diff_rows changes max_lines = map (diff_row changes max_lines) (sorted_keys changes)

unfoldable pub compare_value : Text → Text
compare_value value =
    let clean = trim_space (to_lower (sanitize_text value)) in
    if any (text_eq clean)
      ([] ∷ codes "none" ∷ codes "null" ∷ codes "<nil>" ∷ codes "-" ∷ codes "--" ∷ [])
    then codes "none"
    else clean

unfoldable pub row_changed : DiffRow → Bool
unfolding compare_value
row_changed row = not (text_eq (compare_value row.from) (compare_value row.to))

unfoldable pub section_for_label : Text → Text
section_for_label label =
    let key = to_lower (trim_space label) in
    if text_eq key (codes "content")
    then codes "content"
    else if text_eq key (codes "scopes") || contains (codes "scope") key
    then codes "scopes"
    else if text_eq key (codes "tags") || contains (codes "tag") key
    then codes "tags"
    else if text_eq key (codes "source type") || contains (codes "source") key
    then codes "source"
    else if text_eq key (codes "title")
        || (text_eq key (codes "name")
            || (text_eq key (codes "status") || text_eq key (codes "type")))
    then codes "core"
    else if contains (codes "metadata") key
    then codes "metadata"
    else codes "other"

-- The two `continue`s of the loop.
unfoldable pub is_shown : ViewOptions → DiffRow → Bool
unfolding row_changed section_for_label
is_shown opts row =
    if opts.only_changed && not (row_changed row)
    then false
    else if is_empty opts.sections
    then true
    else mem (section_for_label row.label) opts.sections

unfoldable pub apply_filters : List DiffRow → ViewOptions → List DiffRow
unfolding is_shown
apply_filters [] opts = []
apply_filters (row ∷ rows) opts =
    let rest = apply_filters rows opts in if is_shown opts row then row ∷ rest else rest
