-- ===== src/StringSet/Laws.antt =====
-- Membership after each operation on a set of texts.
use nebula_core.Prelude.{
  ◌≡◌, refl, not, ◌||◌, ◌&&◌, List, [], ◌∷◌, ◌++◌, arith, Bool-cases, inl, inr,
}
use nebula_core.Text.{Text, text_eq}
use nebula_core.Text.Laws.{text_eq_iff}
use nebula_core.StringSet.{mem, insert, remove, Distinct}

pub mem-append : (k : Text) (xs ys : List Text) → mem k (xs ++ ys) ≡ (mem k xs || mem k ys)
unfolding mem
mem-append k [] ys = refl
mem-append k (x ∷ xs) ys = ground (arith, mem-append k xs ys)

pub mem-insert : (k j : Text) (m : List Text) → mem j (insert k m) ≡ (text_eq j k || mem j m)
unfolding insert
mem-insert k j m = elim (Bool-cases (mem k m)) [
  | inl h ↦ rw h (ground (arith, text_eq_iff j k))
  | inr h ↦ rw (h, mem)
]

pub mem-remove : (k j : Text) (m : List Text) → mem j (remove k m) ≡ (not (text_eq j k) && mem j m)
unfolding mem remove
mem-remove k j [] = ground arith
mem-remove k j (x ∷ xs) =
    ground (arith, mem-remove k j xs, text_eq_iff j k, text_eq_iff k x, text_eq_iff j x)

pub insert-Distinct : (k : Text) (m : List Text) → Distinct m → Distinct (insert k m)
unfolding insert
insert-Distinct k m d = elim (Bool-cases (mem k m)) [ inl h ↦ rw h d | inr h ↦ rw h (h, d) ]

pub remove-Distinct : (k : Text) (m : List Text) → Distinct m → Distinct (remove k m)
unfolding remove
remove-Distinct k [] d = tt
remove-Distinct k (x ∷ xs) d = elim (Bool-cases (text_eq k x)) [
  | inl h ↦ rw h (remove-Distinct k xs d.1)
  | inr h ↦ rw h ((ground (arith, mem-remove k x xs)), remove-Distinct k xs d.1)
]
