-- ===== src/Text/Decimal.antt =====
-- Natural numbers in decimal.
use nebula_core.Prelude.{
  ℕ, zero, suc, ◌+◌, ◌/◌, ◌%◌, [], ◌∷◌, ◌==◌, ◌≤◌, if◌then◌else◌, All, if_cases, arith,
}
use nebula_core.Text.{Text}

-- The digits of `n` before `s`; `n + 1` steps are enough for `n`.
unfoldable pub digits_before : ℕ → ℕ → Text → Text
digits_before zero n s = s
digits_before (suc f) n s =
    let here = (b'0' + n % 10) ∷ s in
    let more = digits_before f (n / 10) here in if n / 10 == 0 then here else more

-- fmt.Sprintf("%d", n)
unfoldable pub decimal : ℕ → Text
unfolding digits_before
decimal n = digits_before (n + 1) n []

abbrev pub IsDigit : ℕ → Type 0
IsDigit c = (48 ≤ c) × (c ≤ 57)

digits_before-IsDigit : (f n : ℕ) (s : Text) → All IsDigit s → All IsDigit (digits_before f n s)
unfolding digits_before
digits_before-IsDigit zero n s h = h
digits_before-IsDigit (suc f) n s h =
    let here : All IsDigit ((b'0' + n % 10) ∷ s) = (omega arith, h) in
    if_cases (All IsDigit) (n / 10 == 0) ((b'0' + n % 10) ∷ s)
      (digits_before f (n / 10) ((b'0' + n % 10) ∷ s)) (λ _. here)
      (λ _. digits_before-IsDigit f (n / 10) ((b'0' + n % 10) ∷ s) here)

pub decimal-IsDigit : (n : ℕ) → All IsDigit (decimal n)
unfolding decimal
decimal-IsDigit n = digits_before-IsDigit (n + 1) n [] tt
