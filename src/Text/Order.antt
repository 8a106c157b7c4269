-- ===== src/Text/Order.antt =====
-- Texts in the order of sort.Strings.
use nebula_core.Prelude.{
  Bool, true, false, ◌&&◌, ◌||◌, List, [], ◌∷◌, if◌then◌else◌, ltb, ◌==◌, All, if_cases,
}
use nebula_core.Text.{Text}

-- a <= b, byte by byte.
unfoldable pub text_le : Text → Text → Bool
text_le [] t = true
text_le (c ∷ s) [] = false
text_le (c ∷ s) (d ∷ t) = ltb c d || (c == d && text_le s t)

unfoldable pub insert_entry {ℓ} : {A : Type ℓ} → Text × A → List (Text × A) → List (Text × A)
unfolding text_le
insert_entry (k, a) [] = (k, a) ∷ []
insert_entry (k, a) ((j, b) ∷ es) =
    let rest = insert_entry (k, a) es in if text_le k j then (k, a) ∷ (j, b) ∷ es else (j, b) ∷ rest

-- The entries of a map by their keys.
unfoldable pub sort_entries {ℓ} : {A : Type ℓ} → List (Text × A) → List (Text × A)
unfolding insert_entry
sort_entries [] = []
sort_entries (e ∷ es) = insert_entry e (sort_entries es)

module _ {ℓ κ} {A : Type ℓ} (P : Text × A → Type κ) where
  All-insert_entry :
      (k : Text) (a : A) (es : List (Text × A))
      → P (k, a)
      → All P es
      → All P (insert_entry (k, a) es)
  unfolding insert_entry
  All-insert_entry k a [] h hs = (h, tt)
  All-insert_entry k a ((j, b) ∷ es) h hs =
      if_cases (All P) (text_le k j) ((k, a) ∷ (j, b) ∷ es) ((j, b) ∷ insert_entry (k, a) es)
        (λ _. (h, hs)) (λ _. (hs.0, All-insert_entry k a es h hs.1))

  pub All-sort_entries : (es : List (Text × A)) → All P es → All P (sort_entries es)
  unfolding sort_entries
  All-sort_entries [] h = tt
  All-sort_entries ((k, a) ∷ es) h =
      All-insert_entry k a (sort_entries es) h.0 (All-sort_entries es h.1)
