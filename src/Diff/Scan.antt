-- ===== src/Diff/Scan.antt =====
-- The numbers in the headers of hunks: reading (fmt.Sscanf) what is printed.
use nebula_core.Prelude.{
  ℕ, zero, suc, ◌+◌, ◌-◌, ◌*◌, ◌/◌, ◌%◌, ◌≤◌, ◌<◌, ◌==◌, ◌≡◌, refl, ap, ◌∙◌, true, false, not, ◌&&◌,
  none, some, [], ◌∷◌, ◌++◌, leb, is_empty, pos, All, if_cases, arith,
}
use nebula_core.Text.{Text, is_space}
use nebula_core.Text.Decimal.{digits_before, decimal, IsDigit, decimal-IsDigit}
use nebula_core.Diff.{read_digits, max_int, signed, scan_int}

last_digit :
    (n : ℕ) (s : Text) → read_digits (some (n / 10)) ((b'0' + n % 10) ∷ s) ≡ read_digits (some n) s
unfolding read_digits
last_digit n s =
    let digit : (leb b'0' (b'0' + n % 10) && leb (b'0' + n % 10) b'9') ≡ true = ground arith in
    let value : (n / 10) * 10 + (b'0' + n % 10 - b'0') ≡ n = omega arith in rw (digit, value) refl

-- A number that is printed is read back, and reading goes on behind it.
read_digits-digits_before :
    (f n : ℕ) (s : Text) → n < f → read_digits none (digits_before f n s) ≡ read_digits (some n) s
unfolding read_digits digits_before
read_digits-digits_before zero n s l = absurd (omega arith)
read_digits-digits_before (suc f) n s l =
    if_cases (λ t. read_digits none t ≡ read_digits (some n) s) (n / 10 == 0) _ _
      (λ e. ground arith)
      (λ e.
        let here = (b'0' + n % 10) ∷ s in
        let last : read_digits (some (n / 10)) here ≡ read_digits (some n) s = last_digit n s in
        read_digits-digits_before f (n / 10) here (ground arith) ∙ last)

digits_before-append :
    (f n : ℕ) (s t : Text) → digits_before f n s ++ t ≡ digits_before f n (s ++ t)
unfolding digits_before
digits_before-append zero n s t = refl
digits_before-append (suc f) n s t =
    ground (arith, digits_before-append f (n / 10) ((b'0' + n % 10) ∷ s) t)

read_digits-decimal :
    (n : ℕ) (t : Text) → read_digits none (decimal n ++ t) ≡ read_digits (some n) t
unfolding decimal
read_digits-decimal n t =
    ap (read_digits none) (digits_before-append (n + 1) n [] t)
    ∙ read_digits-digits_before (n + 1) n t (omega arith)

is_empty-digits_before : (f n c : ℕ) (s : Text) → is_empty (digits_before f n (c ∷ s)) ≡ false
unfolding digits_before
is_empty-digits_before zero n c s = refl
is_empty-digits_before (suc f) n c s =
    ground (arith, is_empty-digits_before f (n / 10) (b'0' + n % 10) (c ∷ s))

is_empty-decimal : (n : ℕ) → is_empty (decimal n) ≡ false
unfolding decimal digits_before
is_empty-decimal n = ground (arith, is_empty-digits_before n (n / 10) (b'0' + n % 10) [])

-- What follows a number is not read where it does not begin with a digit.
abbrev IsStop : Text → Type 0
IsStop [] = Unit
IsStop (c ∷ s) = (leb b'0' c && leb c b'9') ≡ false

read_digits-IsStop : (n : ℕ) (t : Text) → IsStop t → read_digits (some n) t ≡ some n
unfolding read_digits
read_digits-IsStop n [] h = refl
read_digits-IsStop n (c ∷ s) h = ground arith

scan_int-digit :
    (c : ℕ) (s : Text)
    → IsDigit c
    → (n : ℕ) → n ≤ max_int
    → read_digits none (c ∷ s) ≡ some n
    → scan_int (c ∷ s) ≡ some (pos n)
unfolding scan_int is_space
scan_int-digit c s h n l e =
    let no_blank : (is_space c && not (c == 10)) ≡ false = ground arith in
    let no_minus : (c == b'-') ≡ false = ground arith in
    let no_plus : (c == b'+') ≡ false = ground arith in
    let fits : signed false (some n) ≡ some (pos n) = ground arith in
    rw (no_blank, no_minus, no_plus) (ap (signed false) e ∙ fits)

-- A number that an `int` holds is read back from its digits.
pub scan_int-decimal :
    (n : ℕ) (t : Text) → n ≤ max_int → IsStop t → scan_int (decimal n ++ t) ≡ some (pos n)
scan_int-decimal n t l h =
    go (decimal n) (is_empty-decimal n) (decimal-IsDigit n)
      (read_digits-decimal n t ∙ read_digits-IsStop n t h)
  where
    go :
        (ds : Text)
        → is_empty ds ≡ false
        → All IsDigit ds
        → read_digits none (ds ++ t) ≡ some n
        → scan_int (ds ++ t) ≡ some (pos n)
    go [] e d r = absurd (ground arith)
    go (c ∷ ds) e d r = scan_int-digit c (ds ++ t) d.0 n l r
