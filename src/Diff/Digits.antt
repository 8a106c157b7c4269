-- ===== src/Diff/Digits.antt =====
-- The width of a line number.
use nebula_core.Prelude.{
  ℕ, zero, suc, ◌-◌, ◌*◌, ◌/◌, ◌≤◌, ◌<◌, ◌≡◌, refl, pos, arith, ◌⊎◌, inl, inr,
}
use nebula_core.Diff.{digits_loop, digit_width}

abbrev pub pow10 : ℕ → ℕ
pow10 zero = 1
pow10 (suc n) = 10 * pow10 n

-- `w` is the number of decimal digits of `n`.
abbrev pub HasDigits : ℕ → ℕ → Type 0
HasDigits n w = (1 ≤ w) × (pow10 (w - 1) ≤ n) × (n < pow10 w)

digits_loop_zero : (f : ℕ) → digits_loop f 0 ≡ 0
unfolding digits_loop
digits_loop_zero zero = refl
digits_loop_zero (suc f) = refl

one_more : (n w : ℕ) → HasDigits (n / 10) w → HasDigits n (suc w)
one_more n zero h = absurd (omega arith)
one_more n (suc w) h = ground arith

small_or_large : (k : ℕ) → (k < 10) ⊎ (1 ≤ k / 10)
small_or_large k = omega arith

one_digit : (f n : ℕ) → n < 10 → digits_loop f (n / 10) ≡ 0
one_digit f n s = let e : n / 10 ≡ 0 = omega arith in rw e (digits_loop_zero f)

digits_loop_lem : (f n : ℕ) → n ≤ f → 1 ≤ n → HasDigits n (digits_loop f n)
unfolding digits_loop
digits_loop_lem zero n l p = absurd (omega arith)
digits_loop_lem (suc f) n l p = elim (small_or_large n) [
  | inl s ↦ ground (arith, one_digit f n s)
  | inr g ↦
      let more : HasDigits n (suc (digits_loop f (n / 10))) =
        one_more n (digits_loop f (n / 10)) (digits_loop_lem f (n / 10) (omega arith) g) in
      ground arith
]

-- The width of a positive line number is the number of its decimal digits.
pub digit_width_lem : (n : ℕ) → 1 ≤ n → HasDigits n (digit_width (pos n))
unfolding digit_width
digit_width_lem n p =
    let h : HasDigits n (digits_loop n n) = digits_loop_lem n n (omega arith) p in ground arith
