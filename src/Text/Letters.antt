-- ===== src/Text/Letters.antt =====
-- What the functions on texts do to a property that all letters have.
use nebula_core.Prelude.{
  arith, ◌≤◌, ℕ, ◌≡◌, Bool, false, List, [], ◌∷◌, reverse, All, All-append, is_empty, if◌then◌else◌,
  if_cases, ◌&&◌, drop, length, zero, suc,
}
use mathlib.Core.List.{reverse-cons}
use nebula_core.Text.{
  Text, trim_left, trim_right, trim_space, is_space, fields_loop, fields_func, join, trim_prefix,
}

module _ {ℓ} (P : ℕ → Type ℓ) where
  pub All-reverse : (s : Text) → All P s → All P (reverse s)
  All-reverse [] h = tt
  All-reverse (c ∷ s) h =
      rw (reverse-cons c s) (All-append P (reverse s) (c ∷ []) (All-reverse s h.1) (h.0, tt))

  pub All-drop : (n : ℕ) (s : Text) → All P s → All P (drop n s)
  All-drop zero s h = h
  All-drop (suc n) [] h = tt
  All-drop (suc n) (c ∷ s) h = All-drop n s h.1

  pub All-trim_left : (p : ℕ → Bool) (s : Text) → All P s → All P (trim_left p s)
  unfolding trim_left
  All-trim_left p [] h = tt
  All-trim_left p (c ∷ s) h = if_cases (All P) (p c) _ _ (λ _. All-trim_left p s h.1) (λ _. h)

  pub All-trim_right : (p : ℕ → Bool) (s : Text) → All P s → All P (trim_right p s)
  unfolding trim_right
  All-trim_right p [] h = tt
  All-trim_right p (c ∷ s) h =
      if_cases (All P) (is_empty (trim_right p s) && p c) _ _ (λ _. tt)
        (λ _. (h.0, All-trim_right p s h.1))

  pub All-trim_space : (s : Text) → All P s → All P (trim_space s)
  unfolding trim_space
  All-trim_space s h = All-trim_right _ _ (All-trim_left _ s h)

  pub All-trim_prefix : (p s : Text) → All P s → All P (trim_prefix p s)
  unfolding trim_prefix
  All-trim_prefix p s h = if_cases (All P) _ _ _ (λ _. All-drop (length p) s h) (λ _. h)

  pub All-join :
      (sep : Text) (parts : List Text) → All P sep → All (All P) parts → All P (join sep parts)
  unfolding join
  All-join sep [] hs h = tt
  All-join sep (s ∷ []) hs h = h.0
  All-join sep (s ∷ t ∷ ts) hs h =
      All-append P s _ h.0 (All-append P sep _ hs (All-join sep (t ∷ ts) hs h.1))

module _ {ℓ} (P : ℕ → Type ℓ) (p : ℕ → Bool) where
  -- A letter of the text that is no separator.
  abbrev pub Kept : ℕ → Type ℓ
  Kept c = P c × (p c ≡ false)

  -- A part that is closed joins the parts unless it is empty.
  All-close :
      (part : Text) (parts : List Text)
      → All Kept part
      → All (All Kept) parts
      → All (All Kept) (if is_empty part then parts else reverse part ∷ parts)
  All-close part parts h hs =
      if_cases (All (All Kept)) (is_empty part) _ _ (λ _. hs) (λ _. (All-reverse Kept part h, hs))

  All-fields_loop :
      (part s : Text) → All Kept part → All P s → All (All Kept) (fields_loop p part s)
  unfolding fields_loop
  All-fields_loop part [] hp hs = All-close part [] hp tt
  All-fields_loop part (c ∷ s) hp hs =
      if_cases (All (All Kept)) (p c) _ _
        (λ _. All-close part (fields_loop p [] s) hp (All-fields_loop [] s tt hs.1))
        (λ e. All-fields_loop (c ∷ part) s ((hs.0, e), hp) hs.1)

  pub All-fields_func : (s : Text) → All P s → All (All Kept) (fields_func p s)
  unfolding fields_func
  All-fields_func s h = All-fields_loop [] s tt h

module _ {ℓ} {A : Type ℓ} where
  pub All-imp {κ μ} :
      (P : A → Type κ) (Q : A → Type μ)
      → ((x : A) → P x → Q x)
      → (xs : List A) → All P xs
      → All Q xs
  All-imp P Q f [] h = tt
  All-imp P Q f (x ∷ xs) h = (f x h.0, All-imp P Q f xs h.1)

  pub All-trivial : (xs : List A) → All (λ x. Unit {0}) xs
  All-trivial [] = tt
  All-trivial (x ∷ xs) = (tt, All-trivial xs)

-- No part between separators has a separator.
pub fields_func-no_separator :
    (p : ℕ → Bool) (s : Text) → All (All (λ c. p c ≡ false)) (fields_func p s)
fields_func-no_separator p s =
    All-imp (All (Kept (λ c. Unit {0}) p)) (All (λ c. p c ≡ false))
      (λ part h. All-imp (Kept (λ c. Unit {0}) p) (λ c. p c ≡ false) (λ c k. k.1) part h) _
      (All-fields_func (λ c. Unit {0}) p s (All-trivial s))

length-trim_left-le : (p : ℕ → Bool) (s : Text) → length (trim_left p s) ≤ length s
unfolding trim_left
length-trim_left-le p [] = omega arith
length-trim_left-le p (c ∷ s) = ground (arith, length-trim_left-le p s)

length-trim_right-le : (p : ℕ → Bool) (s : Text) → length (trim_right p s) ≤ length s
unfolding trim_right
length-trim_right-le p [] = omega arith
length-trim_right-le p (c ∷ s) = ground (arith, length-trim_right-le p s)

-- Trimming makes no text longer.
pub length-trim_space-le : (s : Text) → length (trim_space s) ≤ length s
unfolding trim_space
length-trim_space-le s =
    omega
      (arith, length-trim_right-le is_space (trim_left is_space s), length-trim_left-le is_space s)
