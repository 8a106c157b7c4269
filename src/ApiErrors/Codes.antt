-- ===== src/ApiErrors/Codes.antt =====
-- Codes before messages.
use nebula_core.Prelude.{
  ℕ, ◌≡◌, refl, ap, ◌∙◌, subst, subst⁻¹, append-nil, true, false, ◌&&◌, Option, none, some, [], ◌∷◌,
  ◌++◌, if_cases, is_empty, any, arith, ◌==◌,
}
use nebula_core.Text.{Text, codes, trim_space, trim_left, trim_right, is_space, has_prefix, cut}
use nebula_core.ApiErrors.{
  upper, to_upper, is_code_letter, all_code_letters, code_parts, parse_error_code, format_api_error,
}

letter-not_space : (c : ℕ) → is_code_letter c ≡ true → is_space c ≡ false
unfolding is_code_letter is_space
letter-not_space c h = ground arith

letter-not_colon : (c : ℕ) → is_code_letter c ≡ true → (c == b':') ≡ false
unfolding is_code_letter
letter-not_colon c h = ground arith

letter-upper : (c : ℕ) → is_code_letter c ≡ true → (b' ' == upper c) ≡ false
unfolding is_code_letter upper
letter-upper c h = ground arith

-- What ends in a blank is trimmed behind a text without blanks.
pub trim_right-append :
    (a s : Text)
    → any is_space a ≡ false
    → trim_right is_space (a ++ s) ≡ a ++ trim_right is_space s
unfolding trim_right
trim_right-append [] s h = refl
trim_right-append (c ∷ a) s h =
    if_cases (λ x. x ≡ c ∷ (a ++ trim_right is_space s))
      (is_empty (trim_right is_space (a ++ s)) && is_space c) _ _ (λ e. absurd (ground arith))
      (λ _. ap (λ t. c ∷ t) (trim_right-append a s (ground arith)))

pub trim_left-append : (c : ℕ) (s : Text) → is_space c ≡ false → trim_left is_space (c ∷ s) ≡ c ∷ s
unfolding trim_left
trim_left-append c s h =
    if_cases (λ x. x ≡ c ∷ s) (is_space c) _ _ (λ e. absurd (ground arith)) (λ _. refl)

letters-not_space : (a : Text) → all_code_letters a ≡ true → any is_space a ≡ false
unfolding all_code_letters
letters-not_space [] h = refl
letters-not_space (c ∷ a) h =
    let here = letter-not_space c (ground arith) in
    let later = letters-not_space a (ground arith) in ground (arith, here, later)

-- A code is its own trimmed text.
trim_space-letters : (a : Text) → all_code_letters a ≡ true → trim_space a ≡ a
unfolding trim_space trim_left trim_right all_code_letters
trim_space-letters [] h = refl
trim_space-letters (c ∷ a) h =
    let spaceless = letters-not_space (c ∷ a) h in
    let right =
      subst (λ x. trim_right is_space x ≡ x) (append-nil (c ∷ a))
        (trim_right-append (c ∷ a) [] spaceless) in
    ap (trim_right is_space) (trim_left-append c a (letter-not_space c (ground arith))) ∙ right

cut-append : (a m : Text) → all_code_letters a ≡ true → cut b':' (a ++ b':' ∷ m) ≡ some (a, m)
unfolding cut all_code_letters
cut-append [] m h = refl
cut-append (c ∷ a) m h =
    let later : cut b':' (a ++ b':' ∷ m) ≡ some (a, m) = cut-append a m (ground arith) in
    if_cases (λ o. o ≡ some (c ∷ a, m)) (c == b':') _ _
      (λ e. absurd (ground (arith, letter-not_colon c)))
      (λ _. ap (λ o. elim o [ none ↦ none | some (x, y) ↦ some (c ∷ x, y) ]) later)

no_http : (a : Text) → all_code_letters a ≡ true → has_prefix (codes "HTTP ") (to_upper a) ≡ false
unfolding all_code_letters to_upper has_prefix
no_http [] h = refl
no_http (a ∷ []) h = ground arith
no_http (a ∷ b ∷ []) h = ground arith
no_http (a ∷ b ∷ c ∷ []) h = ground arith
no_http (a ∷ b ∷ c ∷ d ∷ []) h = ground arith
no_http (a ∷ b ∷ c ∷ d ∷ e ∷ s) h = ground (arith, letter-upper e)

trim_space-blank : (s : Text) → trim_space (b' ' ∷ s) ≡ trim_space s
unfolding trim_space trim_left is_space
trim_space-blank s = refl

-- A code and a trimmed message, neither empty, are read back from the text that shows them.
pub parse-format_api_error :
    (code message : Text)
    → all_code_letters code ≡ true
    → is_empty code ≡ false
    → trim_space message ≡ message
    → is_empty message ≡ false
    → (t : Text) × (format_api_error code message ≡ some t) × (parse_error_code t ≡ (code, message))
unfolding format_api_error parse_error_code code_parts
parse-format_api_error code message letters e trimmed f =
    let same = trim_space-letters code letters in
    let blank : trim_space (b' ' ∷ message) ≡ message = trim_space-blank message ∙ trimmed in
    (
      code ++ (codes ": " ++ message),
      rw (same, trimmed, e, f) refl,
      subst⁻¹ Reads (cut-append code (b' ' ∷ message) letters)
          (rw (same, e, no_http code letters, letters, blank) refl),
    )
  where
    Reads : Option (Text × Text) → Type 0
    Reads o = code_parts (code ++ (codes ": " ++ message)) o ≡ (code, message)
