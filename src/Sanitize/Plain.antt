-- ===== src/Sanitize/Plain.antt =====
-- The runes of a cleaned text.
use nebula_core.Prelude.{
  ℕ, zero, suc, ◌==◌, ◌≡◌, refl, subst⁻¹, Bool, true, false, ◌||◌, ◌&&◌, none, some, [], ◌∷◌, ◌++◌,
  leb, length, All, arith, if_cases,
}
use nebula_core.Text.{Text}
use nebula_core.Text.Runes.{
  Decoded, decoded, is_two, is_three, is_four, point_two, point_three, point_four, decode_four,
  decode_three, decode_two, decode, pieces,
}
use nebula_core.Sanitize.Clean.{IsClean, sanitize_text-IsClean}
use nebula_core.Sanitize.{is_dropped, code_point, written, map_runes, drop_controls, sanitize_text}

-- The code points but for the controls (newline and tab are left) and the bidirectional controls.
abbrev pub is_plain : ℕ → Bool
is_plain r =
    (r == 9 || r == 10)
    || ((leb 32 r && leb r 126)
        || ((leb 160 r && leb r 8205)
            || ((leb 8208 r && leb r 8233) || ((leb 8239 r && leb r 8293) || leb 8298 r))))

-- The piece is a rune, not a byte that begins none, and a plain one.
abbrev pub IsPlain : Decoded → Type 0
IsPlain d = elim d.rune [ none ↦ ⊥ | some r ↦ is_plain r ≡ true ]

is_plain-of_kept : (r : ℕ) → is_dropped r ≡ false → is_plain r ≡ true
unfolding is_dropped
is_plain-of_kept r h = ground arith

abbrev ArePlain : ℕ → Text → Type 0
ArePlain f s = All IsPlain (pieces f s)

-- Before a text of plain runes, the bytes leave a text of plain runes.
abbrev Adds : Text → Type 0
Adds w = (rest : Text) → ((f : ℕ) → ArePlain f rest) → (f : ℕ) → ArePlain f (w ++ rest)

abbrev Begins : ℕ → Text → ℕ → Type 0
Begins a bs r = (rest : Text) → decode a (bs ++ rest) ≡ decoded (some r) (a ∷ bs) rest

rune-Adds : (a : ℕ) (bs : Text) (r : ℕ) → Begins a bs r → is_dropped r ≡ false → Adds (a ∷ bs)
unfolding pieces
rune-Adds a bs r d e rest h zero = tt
rune-Adds a bs r d e rest h (suc f) =
    subst⁻¹ (λ x. All IsPlain (x ∷ pieces f x.rest)) (d rest) (is_plain-of_kept r e, h f)

-- Where the rune is kept, what is written for it is read as that rune.
abbrev AddsIfKept : Decoded → Type 0
AddsIfKept d = is_dropped (code_point d) ≡ false → Adds (written d)

one-Begins : (a : ℕ) → leb a 127 ≡ true → Begins a [] a
unfolding decode
one-Begins a h rest = rw h refl

two-Begins : (a b : ℕ) → leb a 127 ≡ false → is_two a b ≡ true → Begins a (b ∷ []) (point_two a b)
unfolding decode decode_two
two-Begins a b n h rest = rw (n, h) refl

three-Begins :
    (a b c : ℕ)
    → leb a 127 ≡ false
    → is_two a b ≡ false
    → is_three a b c ≡ true
    → Begins a (b ∷ c ∷ []) (point_three a b c)
unfolding decode decode_two decode_three
three-Begins a b c n n' h rest = rw (n, n', h) refl

four-Begins :
    (a b c d : ℕ)
    → leb a 127 ≡ false
    → is_two a b ≡ false
    → is_three a b c ≡ false
    → is_four a b c d ≡ true
    → Begins a (b ∷ c ∷ d ∷ []) (point_four a b c d)
unfolding decode decode_two decode_three decode_four
four-Begins a b c d n n' n'' h rest = rw (n, n', n'', h) refl

invalid_adds : (a : ℕ) (s : Text) → AddsIfKept (decoded none (a ∷ []) s)
unfolding decode decode_two decode_three
invalid_adds a s e = rune-Adds 239 (191 ∷ 189 ∷ []) 65533 (λ rest. refl) e

module _ (a : ℕ) (n : leb a 127 ≡ false) where
  decode_two_adds : (s : Text) → AddsIfKept (decode_two a s)
  unfolding decode_two decode_three decode_four
  decode_two_adds [] = invalid_adds a []
  decode_two_adds (b ∷ []) =
      if_cases AddsIfKept (is_two a b) _ _ (λ h. rune-Adds a _ _ (two-Begins a b n h))
        (λ _. invalid_adds a (b ∷ []))
  decode_two_adds (b ∷ c ∷ []) =
      if_cases AddsIfKept (is_two a b) _ _ (λ h. rune-Adds a _ _ (two-Begins a b n h))
        λ n'.
          if_cases AddsIfKept (is_three a b c) _ _
            (λ h. rune-Adds a _ _ (three-Begins a b c n n' h)) (λ _. invalid_adds a (b ∷ c ∷ []))
  decode_two_adds (b ∷ c ∷ d ∷ s) =
      if_cases AddsIfKept (is_two a b) _ _ (λ h. rune-Adds a _ _ (two-Begins a b n h))
        λ n'.
          if_cases AddsIfKept (is_three a b c) _ _
            (λ h. rune-Adds a _ _ (three-Begins a b c n n' h))
            λ n''.
              if_cases AddsIfKept (is_four a b c d) _ _
                (λ h. rune-Adds a _ _ (four-Begins a b c d n n' n'' h))
                (λ _. invalid_adds a (b ∷ c ∷ d ∷ s))

decode_adds : (a : ℕ) (s : Text) → AddsIfKept (decode a s)
unfolding decode
decode_adds a s =
    if_cases AddsIfKept (leb a 127) _ _ (λ h. rune-Adds a [] a (one-Begins a h))
      (λ n. decode_two_adds a n s)

map_runes-ArePlain : (g : ℕ) (s : Text) (f : ℕ) → ArePlain f (map_runes (pieces g s))
unfolding map_runes pieces
map_runes-ArePlain zero s zero = tt
map_runes-ArePlain zero s (suc f) = tt
map_runes-ArePlain (suc g) [] zero = tt
map_runes-ArePlain (suc g) [] (suc f) = tt
map_runes-ArePlain (suc g) (a ∷ s) f =
    let d = decode a s in
    if_cases (ArePlain f) (is_dropped (code_point d)) _ _ (λ _. map_runes-ArePlain g d.rest f)
      (λ e. decode_adds a s e _ (map_runes-ArePlain g d.rest) f)

-- A cleaned text is well-formed UTF-8, whatever the text is, and has no control but newline and tab,
-- in ASCII or above, and no bidirectional control; nor is one of its bytes an ASCII control but
-- newline and tab.
pub sanitize_text-IsPlain :
    (s : Text)
    → All IsPlain (pieces (length (sanitize_text s)) (sanitize_text s))
      × All IsClean (sanitize_text s)
unfolding sanitize_text drop_controls
sanitize_text-IsPlain s = (map_runes-ArePlain _ _ _, sanitize_text-IsClean s)
