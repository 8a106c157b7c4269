-- ===== src/Sanitize/Clean.antt =====
-- What cleaning leaves of a text.
use nebula_core.Prelude.{
  ℕ, zero, suc, ◌==◌, ◌≤◌, ◌<◌, ◌≡◌, refl, Bool, true, false, not, ◌&&◌, ◌||◌, Option, none, [],
  ◌∷◌, All-append, if◌then◌else◌, leb, length, All, arith, ap, if_cases,
}
use nebula_core.Text.{Text, replace_byte}
use nebula_core.Text.Letters.{All-trim_space}
use nebula_core.Text.Runes.{
  Decoded, decoded, is_two, is_three, is_four, decode_four, decode_three, decode_two, decode,
  pieces,
}
use nebula_core.Sanitize.{
  match_csi, match_string, remove_matches, replace_all, is_dropped, code_point, written, map_runes,
  drop_controls, sanitize_text, sanitize_one_line,
}

-- A byte that is no ASCII control but newline and tab.
abbrev pub IsClean : ℕ → Type 0
IsClean c = ((leb 32 c && not (c == 127)) || (c == 9 || c == 10)) ≡ true

-- Where the rune is kept, what is written for it is clean.
abbrev CleanIfKept : Decoded → Type 0
CleanIfKept d = is_dropped (code_point d) ≡ false → All IsClean (written d)

ascii-IsClean : (a : ℕ) → leb a 127 ≡ true → is_dropped a ≡ false → IsClean a
unfolding is_dropped
ascii-IsClean a h e = ground arith

invalid_clean : (a : ℕ) (s : Text) → CleanIfKept (decoded none (a ∷ []) s)
invalid_clean a s e = (refl, (refl, (refl, tt)))

decode_two_clean : (a : ℕ) (s : Text) → CleanIfKept (decode_two a s)
unfolding decode_two decode_three decode_four
decode_two_clean a [] = invalid_clean a []
decode_two_clean a (b ∷ []) =
    if_cases CleanIfKept (is_two a b) _ _ (λ h e. (ground arith, (ground arith, tt)))
      (λ _. invalid_clean a (b ∷ []))
decode_two_clean a (b ∷ c ∷ []) =
    if_cases CleanIfKept (is_two a b) _ _ (λ h e. (ground arith, (ground arith, tt)))
      λ _.
        if_cases CleanIfKept (is_three a b c) _ _
          (λ h e. (ground arith, (ground arith, (ground arith, tt))))
          (λ _. invalid_clean a (b ∷ c ∷ []))
decode_two_clean a (b ∷ c ∷ d ∷ s) =
    if_cases CleanIfKept (is_two a b) _ _ (λ h e. (ground arith, (ground arith, tt)))
      λ _.
        if_cases CleanIfKept (is_three a b c) _ _
          (λ h e. (ground arith, (ground arith, (ground arith, tt))))
          λ _.
            if_cases CleanIfKept (is_four a b c d) _ _
              (λ h e. (ground arith, (ground arith, (ground arith, (ground arith, tt)))))
              (λ _. invalid_clean a (b ∷ c ∷ d ∷ s))

decode_clean : (a : ℕ) (s : Text) → CleanIfKept (decode a s)
unfolding decode
decode_clean a s =
    if_cases CleanIfKept (leb a 127) _ _ (λ h e. (ascii-IsClean a h e, tt))
      (λ _. decode_two_clean a s)

map_runes-IsClean : (f : ℕ) (s : Text) → All IsClean (map_runes (pieces f s))
unfolding map_runes pieces
map_runes-IsClean zero s = tt
map_runes-IsClean (suc f) [] = tt
map_runes-IsClean (suc f) (a ∷ s) =
    let d = decode a s in
    let later = map_runes-IsClean f d.rest in
    if_cases (All IsClean) (is_dropped (code_point d)) _ _ (λ _. later)
      (λ e. All-append IsClean (written d) _ (decode_clean a s e) later)

-- No byte of a cleaned text is a control but newline and tab: no escape sequence can begin in it.
pub sanitize_text-IsClean : (s : Text) → All IsClean (sanitize_text s)
unfolding sanitize_text drop_controls
sanitize_text-IsClean s = map_runes-IsClean _ _

-- A printable ASCII byte, newline or tab.
abbrev pub IsPrintable : ℕ → Type 0
IsPrintable c = IsClean c × (c < 128)

kept_printable : (c : ℕ) → IsPrintable c → is_dropped c ≡ false
unfolding is_dropped
kept_printable c h = ground arith

no_escape : (c : ℕ) → IsPrintable c → (c == 27) ≡ false
no_escape c h = ground arith

-- A pattern that begins with the escape byte.
abbrev NeedsEscape : (Text → Option Text) → Type 0
NeedsEscape m = (c : ℕ) (s : Text) → (c == 27) ≡ false → m (c ∷ s) ≡ none

csi-NeedsEscape : NeedsEscape match_csi
unfolding match_csi
csi-NeedsEscape c [] h = refl
csi-NeedsEscape c (d ∷ s) h = ground arith

string-NeedsEscape : (k : ℕ) (bell : Bool) → NeedsEscape (match_string k bell)
unfolding match_string
string-NeedsEscape k bell c [] h = refl
string-NeedsEscape k bell c (d ∷ s) h = ground arith

module _ (m : Text → Option Text) (needs : NeedsEscape m) where
  remove_matches_printable :
      (f : ℕ) (s : Text) → length s ≤ f → All IsPrintable s → remove_matches m f s ≡ s
  unfolding remove_matches
  remove_matches_printable zero [] l h = refl
  remove_matches_printable zero (c ∷ s) l h = absurd (omega arith)
  remove_matches_printable (suc f) [] l h = refl
  remove_matches_printable (suc f) (c ∷ s) l h =
      rw (needs c s (no_escape c h.0), remove_matches)
        (ap (◌∷◌ c) (remove_matches_printable f s (omega arith) h.1))

  replace_all_printable : (s : Text) → All IsPrintable s → replace_all m s ≡ s
  unfolding replace_all
  replace_all_printable s h = remove_matches_printable (length s) s (omega arith) h

map_runes_printable :
    (f : ℕ) (s : Text) → length s ≤ f → All IsPrintable s → map_runes (pieces f s) ≡ s
unfolding map_runes pieces decode is_dropped
map_runes_printable zero [] l h = refl
map_runes_printable zero (c ∷ s) l h = absurd (omega arith)
map_runes_printable (suc f) [] l h = refl
map_runes_printable (suc f) (c ∷ s) l h =
    let ascii : leb c 127 ≡ true = ground arith in
    let kept : is_dropped c ≡ false = kept_printable c h.0 in
    rw (ascii, kept) (ap (◌∷◌ c) (map_runes_printable f s (omega arith) h.1))

drop_controls_printable : (s : Text) → All IsPrintable s → drop_controls s ≡ s
unfolding drop_controls
drop_controls_printable s h = map_runes_printable (length s) s (omega arith) h

-- A text of printable ASCII bytes, newlines and tabs is left as it is.
sanitize_text_printable : (s : Text) → All IsPrintable s → sanitize_text s ≡ s
unfolding sanitize_text
sanitize_text_printable s h =
    rw
      (
        replace_all_printable match_csi csi-NeedsEscape s h,
        replace_all_printable (match_string b']' true) (string-NeedsEscape b']' true) s h,
        replace_all_printable (match_string b'P' false) (string-NeedsEscape b'P' false) s h,
        replace_all_printable (match_string b'_' false) (string-NeedsEscape b'_' false) s h,
        replace_all_printable (match_string b'^' false) (string-NeedsEscape b'^' false) s h,
        replace_all_printable (match_string b'X' false) (string-NeedsEscape b'X' false) s h,
      )
      (drop_controls_printable s h)

-- No control at all.
abbrev pub IsOnOneLine : ℕ → Type 0
IsOnOneLine c = (leb 32 c ≡ true) × ((c == 127) ≡ false)

blank_out :
    (c : ℕ)
    → IsClean c
    → IsOnOneLine (
        let x = if c == 10 then 32 else c in
        let y = if x == 13 then 32 else x in if y == 9 then 32 else y)
blank_out c h = ground arith

replaced-IsOnOneLine :
    (s : Text)
    → All IsClean s
    → All IsOnOneLine (replace_byte 9 32 (replace_byte 13 32 (replace_byte 10 32 s)))
unfolding replace_byte
replaced-IsOnOneLine [] h = tt
replaced-IsOnOneLine (c ∷ s) h = (blank_out c h.0, replaced-IsOnOneLine s h.1)

-- A text that is cleaned for one line has no control at all: no line break, no tab, no escape.
sanitize_one_line-IsOnOneLine : (s : Text) → All IsOnOneLine (sanitize_one_line s)
unfolding sanitize_one_line
sanitize_one_line-IsOnOneLine s =
    All-trim_space IsOnOneLine _ (replaced-IsOnOneLine (sanitize_text s) (sanitize_text-IsClean s))
