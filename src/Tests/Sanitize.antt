-- ===== src/Tests/Sanitize.antt =====
-- Runs of the cleaning of texts.
use nebula_core.Prelude.{◌≡◌, refl, arith, All, [], ◌∷◌, ◌++◌, length}
use nebula_core.Text.{Text, codes}
use nebula_core.Sanitize.{sanitize_text, drop_controls}
use nebula_core.Sanitize.Clean.{IsClean, IsPrintable}
use nebula_core.Sanitize.Plain.{IsPlain, sanitize_text-IsPlain}
use nebula_core.Text.Runes.{pieces}

-- `a`, a sequence that sets a colour, `b`, a line break, a bell.
abbrev coloured : Text
coloured = codes "a" ++ (27 ∷ codes "[31mb" ++ (10 ∷ 7 ∷ []))

sanitize_text-IsPlain_example :
    All IsPlain (pieces (length (sanitize_text coloured)) (sanitize_text coloured))
    × All IsClean (sanitize_text coloured)
sanitize_text-IsPlain_example = sanitize_text-IsPlain coloured

-- U+00E9 is kept; the control U+009B, the override U+202E and the byte 7 are dropped; a byte that
-- begins no rune becomes U+FFFD.
cleans_runes :
    sanitize_text (195 ∷ 169 ∷ 194 ∷ 155 ∷ 226 ∷ 128 ∷ 174 ∷ 7 ∷ 255 ∷ 9 ∷ [])
    ≡ 195 ∷ 169 ∷ 239 ∷ 191 ∷ 189 ∷ 9 ∷ []
unfolding sanitize_text drop_controls pieces
cleans_runes = refl

ok-IsPrintable : All IsPrintable (codes "ok")
ok-IsPrintable = ((refl, omega arith), ((refl, omega arith), tt))
