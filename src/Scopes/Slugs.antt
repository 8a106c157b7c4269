-- ===== src/Scopes/Slugs.antt =====
-- The letters of a normalised tag.
use nebula_core.Prelude.{ℕ, ◌≡◌, refl, false, [], ◌∷◌, arith, All, ◌==◌, if◌then◌else◌}
use nebula_core.Text.{
  Text, codes, lower, to_lower, is_space, fields, replace_byte, trim_space, trim_prefix,
}
use nebula_core.Text.Letters.{All-join, All-fields_func}
use nebula_core.Scopes.{normalize_tag}

-- No underscore and no capital.
abbrev pub IsPlainLetter : ℕ → Type 0
IsPlainLetter c = ((c == b'_') ≡ false) × (lower c ≡ c)

-- Nor a space.
abbrev IsSlugLetter : ℕ → Type 0
IsSlugLetter c = IsPlainLetter c × (is_space c ≡ false)

replaced-IsPlainLetter : (c : ℕ) → IsPlainLetter (if lower c == b'_' then b'-' else lower c)
unfolding lower
replaced-IsPlainLetter c = ground arith

replaced-All : (s : Text) → All IsPlainLetter (replace_byte b'_' b'-' (to_lower s))
unfolding replace_byte to_lower
replaced-All [] = tt
replaced-All (c ∷ s) = (replaced-IsPlainLetter c, replaced-All s)

hyphen : All IsSlugLetter (codes "-")
unfolding lower is_space
hyphen = (((refl, refl), refl), tt)

-- Whatever the value, its tag has no space, no underscore and no capital.
normalize_tag-IsSlugLetter : (s : Text) → All IsSlugLetter (normalize_tag s)
unfolding normalize_tag fields
normalize_tag-IsSlugLetter s = All-join IsSlugLetter (codes "-") _ hyphen (
    All-fields_func IsPlainLetter is_space _
      (replaced-All (trim_prefix (codes "#") (trim_space s))))
