-- ===== src/Diff.antt =====
-- Diffs as typed lines: the parsing of a unified diff and the comparison of fields in
-- cli/src/internal/ui/components/diffview.go. Styles and padding are not modelled.
pub mod Numbering
pub mod Scan
pub mod Headers
pub mod Fields
pub mod Digits
use nebula_core.Prelude.{
  ℕ, zero, suc, ◌+◌, ◌-◌, ◌*◌, ◌/◌, Bool, true, false, ◌&&◌, ◌||◌, not, Option, none, some, List,
  [], ◌∷◌, ◌++◌, map, if◌then◌else◌, leb, ltb, ◌==◌, length, is_empty, ℤ, pos, negsuc, ◌+ℤ◌, ◌-ℤ◌,
}
use nebula_core.Text.{Text, codes, text_eq, has_prefix, contains, cut, is_space}
use nebula_core.Sanitize.{sanitize_one_line}

pub data DiffLineKind : Type 0 where
  diff_context diff_add diff_delete diff_hunk : DiffLineKind

pub record DiffLine : Type 0 where
  pub kind : DiffLineKind
  pub before : ℤ
  pub after : ℤ
  pub text : Text

abbrev pub diff_line : DiffLineKind → ℤ → ℤ → Text → DiffLine
diff_line kind before after text = record {
  kind = kind;
  before = before;
  after = after;
  text = text;
}

-- strings.SplitN at a separator of one byte, into `suc n` parts at most.
unfoldable pub split_n : ℕ → ℕ → Text → List Text
split_n sep zero s = s ∷ []
split_n sep (suc n) s = elim (cut sep s) [ none ↦ s ∷ [] | some (a, b) ↦ a ∷ split_n sep n b ]

abbrev pub is_digit : ℕ → Bool
is_digit c = leb b'0' c && leb c b'9'

abbrev so_far : Option ℕ → ℕ
so_far none = 0
so_far (some n) = n

-- The digits at the front of a text; `none` without one.
unfoldable pub read_digits : Option ℕ → Text → Option ℕ
read_digits n [] = n
read_digits n (c ∷ s) =
    let more = read_digits (some (so_far n * 10 + (c - b'0'))) s in if is_digit c then more else n

-- The largest `int` on a machine of 64 bits.
abbrev pub max_int : ℕ
max_int = 9223372036854775807

abbrev bounded : ℕ → ℤ → Option ℤ
bounded n z = if leb n max_int then some z else none

abbrev pub signed : Bool → Option ℕ → Option ℤ
signed minus none = none
signed false (some n) = bounded n (pos n)
signed true (some zero) = some (pos 0)
signed true (some (suc n)) = bounded n (negsuc n)

-- fmt.Sscanf with `%d`, behind the literal of the format: blanks, a sign, digits. `none` where
-- nothing is stored. A line break ends the reading, as does any byte that is no digit.
unfoldable pub scan_int : Text → Option ℤ
unfolding read_digits
scan_int [] = none
scan_int (c ∷ s) =
    let rest = scan_int s in
    if is_space c && not (c == 10)
    then rest
    else if c == b'-'
    then signed true (read_digits none s)
    else if c == b'+'
    then signed false (read_digits none s)
    else signed false (read_digits none (c ∷ s))

-- One part of a hunk header, read for the side whose sign is `sign`.
unfoldable pub scan_part : ℕ → Text → ℤ → ℤ
unfolding scan_int
scan_part sign [] old = old
scan_part sign (c ∷ s) old =
    if c == sign && contains (b',' ∷ []) (c ∷ s)
    then elim (scan_int s) [ some n ↦ n | none ↦ old ]
    else old

unfoldable pub scan_parts : ℕ → List Text → ℤ → ℤ
unfolding scan_part
scan_parts sign [] old = old
scan_parts sign (p ∷ ps) old = scan_parts sign ps (scan_part sign p old)

unfoldable pub parse_hunk_header : Text → ℤ × ℤ
unfolding split_n scan_parts
parse_hunk_header header =
    let parts = split_n b' ' 4 header in
    (scan_parts b'-' parts (pos 1), scan_parts b'+' parts (pos 1))

unfoldable pub is_hunk : Text → Bool
is_hunk raw = has_prefix (codes "@@") raw

abbrev pub next : ℤ → ℤ
next n = n +ℤ pos 1

-- The loop of ParseUnifiedDiff with its two counters.
unfoldable pub parse_lines : ℤ → ℤ → List Text → List DiffLine
unfolding is_hunk parse_hunk_header
parse_lines b a [] = []
parse_lines b a ([] ∷ raws) = diff_line diff_context b a [] ∷ parse_lines (next b) (next a) raws
parse_lines b a ((c ∷ s) ∷ raws) =
    let header = parse_hunk_header (c ∷ s) in
    let hunk = parse_lines header.0 header.1 raws in
    let added = parse_lines b (next a) raws in
    let deleted = parse_lines (next b) a raws in
    let shared = parse_lines (next b) (next a) raws in
    if is_hunk (c ∷ s)
    then diff_line diff_hunk (pos 0) (pos 0) (c ∷ s) ∷ hunk
    else if c == b'+'
    then diff_line diff_add (pos 0) a s ∷ added
    else if c == b'-'
    then diff_line diff_delete b (pos 0) s ∷ deleted
    else diff_line diff_context b a (if c == b' ' then s else c ∷ s) ∷ shared

unfoldable pub parse_unified_diff : List Text → List DiffLine
unfolding parse_lines
parse_unified_diff raws = parse_lines (pos 0) (pos 0) raws

-- `field + ": " + value`
unfoldable pub field_text : Text → Text → Text
field_text field value = field ++ (codes ": " ++ value)

-- The lines of one field at a line number.
unfoldable pub field_lines : ℕ → Text → Text → Text → List DiffLine
unfolding field_text
field_lines n field old new =
    let delete = diff_line diff_delete (pos n) (pos 0) (field_text field old) in
    let add = diff_line diff_add (pos 0) (pos n) (field_text field new) in
    if text_eq old new
    then diff_line diff_context (pos n) (pos n) (field_text field old) ∷ []
    else (if is_empty old then [] else delete ∷ []) ++ (if is_empty new then [] else add ∷ [])

-- map[string]string: the last write stands first; a missing key has the empty text.
abbrev pub TextMap : Type 0
TextMap = List (Text × Text)

unfoldable pub get : TextMap → Text → Text
get [] k = []
get ((j, v) ∷ m) k = let rest = get m k in if text_eq k j then v else rest

unfoldable pub fields_from : ℕ → List Text → TextMap → TextMap → List DiffLine
unfolding field_lines get
fields_from n [] before after = []
fields_from n (field ∷ fields) before after =
    field_lines n field (get before field) (get after field)
    ++ fields_from (n + 1) fields before after

unfoldable pub build_field_diff : List Text → TextMap → TextMap → List DiffLine
unfolding fields_from
build_field_diff fields before after = fields_from 1 fields before after

pub record DiffRow : Type 0 where
  pub label : Text
  pub from : Text
  pub to : Text

abbrev pub clean_row : DiffRow → DiffRow
clean_row r = record {
  label = sanitize_one_line r.label;
  from = sanitize_one_line r.from;
  to = sanitize_one_line r.to;
}

-- The writes of the loop, row after row.
unfoldable pub put_all : (DiffRow → Text) → List DiffRow → TextMap → TextMap
put_all value [] m = m
put_all value (r ∷ rows) m = put_all value rows ((r.label, value r) ∷ m)

unfoldable pub diff_rows_to_lines : List DiffRow → List DiffLine
unfolding build_field_diff put_all
diff_rows_to_lines rows =
    let clean = map clean_row rows in
    build_field_diff (map DiffRow.label clean) (put_all DiffRow.from clean [])
      (put_all DiffRow.to clean [])

-- The loop of digitWidth; `n` steps are enough for `n`.
unfoldable pub digits_loop : ℕ → ℕ → ℕ
digits_loop zero n = 0
digits_loop (suc f) n = let rest = digits_loop f (n / 10) in if n == 0 then 0 else suc rest

unfoldable pub digit_width : ℤ → ℕ
unfolding digits_loop
digit_width (negsuc n) = 1
digit_width (pos n) = if n == 0 then 1 else digits_loop n n
