-- ===== src/Text/Runes.antt =====
-- The runes of a text: how Go reads UTF-8 (utf8.DecodeRuneInString, a range over a string).
use nebula_core.Prelude.{
  ℕ, zero, suc, ◌+◌, ◌-◌, ◌*◌, ◌≤◌, ◌≡◌, refl, Bool, ◌&&◌, Option, none, some, List, [], ◌∷◌, ◌++◌,
  leb, ◌==◌, length, if◌then◌else◌, if_cases, arith,
}
use nebula_core.Text.{Text}

-- What stands at the front of a text: the bytes that are read and what is left behind them, and the
-- code point, or `none` for a byte that begins no rune.
pub record Decoded : Type 0 where
  pub rune : Option ℕ
  pub bytes : Text
  pub rest : Text

abbrev pub decoded : Option ℕ → Text → Text → Decoded
decoded rune bytes rest = record { rune = rune; bytes = bytes; rest = rest }

abbrev pub is_trailing : ℕ → Bool
is_trailing b = leb 128 b && leb b 191

abbrev pub is_two : ℕ → ℕ → Bool
is_two a b = (leb 194 a && leb a 223) && is_trailing b

-- Neither an overlong form nor a surrogate.
abbrev pub is_three : ℕ → ℕ → ℕ → Bool
is_three a b c =
    (leb 224 a && leb a 239)
    && ((leb (if a == 224 then 160 else 128) b && leb b (if a == 237 then 159 else 191))
        && is_trailing c)

-- Neither an overlong form nor above U+10FFFF.
abbrev pub is_four : ℕ → ℕ → ℕ → ℕ → Bool
is_four a b c d =
    (leb 240 a && leb a 244)
    && ((leb (if a == 240 then 144 else 128) b && leb b (if a == 244 then 143 else 191))
        && (is_trailing c && is_trailing d))

abbrev pub point_two : ℕ → ℕ → ℕ
point_two a b = (a - 192) * 64 + (b - 128)

abbrev pub point_three : ℕ → ℕ → ℕ → ℕ
point_three a b c = ((a - 224) * 64 + (b - 128)) * 64 + (c - 128)

abbrev pub point_four : ℕ → ℕ → ℕ → ℕ → ℕ
point_four a b c d = (((a - 240) * 64 + (b - 128)) * 64 + (c - 128)) * 64 + (d - 128)

unfoldable pub decode_four : ℕ → ℕ → ℕ → Text → Decoded
decode_four a b c [] = decoded none (a ∷ []) (b ∷ c ∷ [])
decode_four a b c (d ∷ s) =
    if is_four a b c d
    then decoded (some (point_four a b c d)) (a ∷ b ∷ c ∷ d ∷ []) s
    else decoded none (a ∷ []) (b ∷ c ∷ d ∷ s)

unfoldable pub decode_three : ℕ → ℕ → Text → Decoded
unfolding decode_four
decode_three a b [] = decoded none (a ∷ []) (b ∷ [])
decode_three a b (c ∷ s) =
    if is_three a b c
    then decoded (some (point_three a b c)) (a ∷ b ∷ c ∷ []) s
    else decode_four a b c s

unfoldable pub decode_two : ℕ → Text → Decoded
unfolding decode_three
decode_two a [] = decoded none (a ∷ []) []
decode_two a (b ∷ s) =
    if is_two a b then decoded (some (point_two a b)) (a ∷ b ∷ []) s else decode_three a b s

-- The front of the text `a ∷ s`.
unfoldable pub decode : ℕ → Text → Decoded
unfolding decode_two
decode a s = if leb a 127 then decoded (some a) (a ∷ []) s else decode_two a s

-- The pieces of a text. Each has a byte at least, so the length of the text is enough fuel.
unfoldable pub pieces : ℕ → Text → List Decoded
unfolding decode
pieces zero s = []
pieces (suc f) [] = []
pieces (suc f) (a ∷ s) = let d = decode a s in d ∷ pieces f d.rest

-- The bytes of the pieces, one after the other.
unfoldable pub bytes_of : List Decoded → Text
bytes_of [] = []
bytes_of (d ∷ ds) = d.bytes ++ bytes_of ds

-- The pieces are the text, and what is left is shorter.
abbrev Splits : ℕ → Text → Decoded → Type 0
Splits a s d = (d.bytes ++ d.rest ≡ a ∷ s) × (length d.rest ≤ length s)

decode-Splits : (a : ℕ) (s : Text) → Splits a s (decode a s)
unfolding decode decode_two decode_three decode_four
decode-Splits a [] =
    if_cases (Splits a []) (leb a 127) _ _ (λ _. (refl, omega arith)) (λ _. (refl, omega arith))
decode-Splits a (b ∷ []) =
    if_cases (Splits a (b ∷ [])) (leb a 127) _ _ (λ _. (refl, omega arith))
      λ _.
        if_cases (Splits a (b ∷ [])) (is_two a b) _ _ (λ _. (refl, omega arith))
          (λ _. (refl, omega arith))
decode-Splits a (b ∷ c ∷ []) =
    let t = b ∷ c ∷ [] in
    if_cases (Splits a t) (leb a 127) _ _ (λ _. (refl, omega arith))
      λ _.
        if_cases (Splits a t) (is_two a b) _ _ (λ _. (refl, omega arith))
          λ _.
            if_cases (Splits a t) (is_three a b c) _ _ (λ _. (refl, omega arith))
              (λ _. (refl, omega arith))
decode-Splits a (b ∷ c ∷ d ∷ s) =
    let t = b ∷ c ∷ d ∷ s in
    if_cases (Splits a t) (leb a 127) _ _ (λ _. (refl, omega arith))
      λ _.
        if_cases (Splits a t) (is_two a b) _ _ (λ _. (refl, omega arith))
          λ _.
            if_cases (Splits a t) (is_three a b c) _ _ (λ _. (refl, omega arith))
              λ _.
                if_cases (Splits a t) (is_four a b c d) _ _ (λ _. (refl, omega arith))
                  (λ _. (refl, omega arith))

-- With the length of the text as fuel, or more, the pieces are the whole text.
bytes_of-pieces : (f : ℕ) (s : Text) → length s ≤ f → bytes_of (pieces f s) ≡ s
unfolding bytes_of pieces
bytes_of-pieces zero [] l = refl
bytes_of-pieces zero (a ∷ s) l = absurd (omega arith)
bytes_of-pieces (suc f) [] l = refl
bytes_of-pieces (suc f) (a ∷ s) l =
    let split = decode-Splits a s in
    let d = decode a s in rw (bytes_of-pieces f d.rest (omega (arith, split.1))) split.0
