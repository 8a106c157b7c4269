-- ===== src/Sanitize.antt =====
-- Cleaning of displayed text: cli/src/internal/ui/components/sanitize.go. A regular expression is
-- a function that takes the match off the front of a text. Runes are decoded from their bytes.
pub mod Clean
pub mod Plain
use nebula_core.Prelude.{
  ℕ, zero, suc, ◌==◌, Bool, true, false, ◌&&◌, ◌||◌, not, Option, none, some, List, [], ◌∷◌, ◌++◌,
  if◌then◌else◌, leb, length, is_empty,
}
use nebula_core.Text.{Text, trim_space, replace_byte}
use nebula_core.Text.Runes.{Decoded, pieces}

-- What is left behind the bytes that satisfy `p`.
unfoldable pub skip : (ℕ → Bool) → Text → Text
skip p [] = []
skip p (c ∷ s) = let rest = skip p s in if p c then rest else c ∷ s

abbrev is_parameter : ℕ → Bool
is_parameter c = (leb b'0' c && leb c b'9') || (c == b';' || c == b'?')

abbrev is_intermediate : ℕ → Bool
is_intermediate c = leb b' ' c && leb c b'/'

abbrev is_final : ℕ → Bool
is_final c = leb b'@' c && leb c b'~'

abbrev after_final : Text → Option Text
after_final [] = none
after_final (c ∷ s) = if is_final c then some s else none

abbrev escape : ℕ
escape = 27

-- What is left behind `\x1b` and the byte `c`.
abbrev after_pair : ℕ → Text → Option Text
after_pair c [] = none
after_pair c (a ∷ []) = none
after_pair c (a ∷ b ∷ s) = if a == escape && b == c then some s else none

-- ansiCsiPattern
unfoldable pub match_csi : Text → Option Text
unfolding skip
match_csi s = elim (after_pair b'[' s) [
  | none ↦ none
  | some rest ↦ after_final (skip is_intermediate (skip is_parameter rest))
]

-- What is left behind the first terminator: `\x1b\`, and `\x07` where `bell` says so.
unfoldable pub until_terminator : Bool → Text → Option Text
until_terminator bell [] = none
until_terminator bell (c ∷ s) =
    let later = until_terminator bell s in
    if bell && c == 7
    then some s
    else elim (after_pair 92 (c ∷ s)) [ some rest ↦ some rest | none ↦ later ]

-- ansiOscPattern with `]` and the bell; ansiDcsPattern, ansiApcPattern, ansiPmPattern and
-- ansiSosPattern with `P`, `_`, `^` and `X`.
unfoldable pub match_string : ℕ → Bool → Text → Option Text
unfolding until_terminator
match_string c bell s = elim (after_pair c s) [
  | none ↦ none
  | some rest ↦ until_terminator bell rest
]

-- ReplaceAllString with "". A match is not empty, so the length of the text is enough fuel.
unfoldable pub remove_matches : (Text → Option Text) → ℕ → Text → Text
remove_matches m zero s = []
remove_matches m (suc f) [] = []
remove_matches m (suc f) (c ∷ s) = elim (m (c ∷ s)) [
  | some rest ↦ remove_matches m f rest
  | none ↦ c ∷ remove_matches m f s
]

unfoldable pub replace_all : (Text → Option Text) → Text → Text
unfolding remove_matches
replace_all m s = remove_matches m (length s) s

-- unicode.IsControl
abbrev pub is_control : ℕ → Bool
is_control r = leb r 31 || (leb 127 r && leb r 159)

-- bidiControls: the marks U+200E and U+200F, the embeddings U+202A to U+202E, the isolates U+2066 to
-- U+2069.
abbrev pub is_bidi : ℕ → Bool
is_bidi r = (leb 8206 r && leb r 8207) || ((leb 8234 r && leb r 8238) || (leb 8294 r && leb r 8297))

-- Whether the function that is mapped over the runes returns -1.
unfoldable pub is_dropped : ℕ → Bool
is_dropped r = if r == 10 || r == 9 then false else is_bidi r || is_control r

-- U+FFFD, for which a range over a string takes a byte that begins no rune.
abbrev pub replacement : ℕ
replacement = 65533

abbrev pub code_point : Decoded → ℕ
code_point d = elim d.rune [ none ↦ replacement | some r ↦ r ]

-- What strings.Map writes for a rune that is kept: its bytes, or those of U+FFFD.
abbrev pub written : Decoded → Text
written d = elim d.rune [ none ↦ 239 ∷ 191 ∷ 189 ∷ [] | some r ↦ d.bytes ]

unfoldable pub map_runes : List Decoded → Text
unfolding is_dropped
map_runes [] = []
map_runes (d ∷ ds) =
    let rest = map_runes ds in if is_dropped (code_point d) then rest else written d ++ rest

-- strings.Map with the function that drops control runes.
unfoldable pub drop_controls : Text → Text
unfolding map_runes
drop_controls s = map_runes (pieces (length s) s)

unfoldable pub sanitize_text : Text → Text
unfolding match_csi match_string replace_all
sanitize_text input = drop_controls (
    replace_all (match_string b'X' false) (
      replace_all (match_string b'^' false) (
        replace_all (match_string b'_' false) (
          replace_all (match_string b'P' false)
            (replace_all (match_string b']' true) (replace_all match_csi input))))))

unfoldable pub sanitize_one_line : Text → Text
sanitize_one_line input =
    trim_space (replace_byte 9 32 (replace_byte 13 32 (replace_byte 10 32 (sanitize_text input))))
