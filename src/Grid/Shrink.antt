-- ===== src/Grid/Shrink.antt =====
-- What the loop of shrinkColumns does to the widths.
use nebula_core.Prelude.{
  ℕ, zero, suc, ◌+◌, ◌-◌, ◌≤◌, ◌<◌, ◌≡◌, refl, sym, ◌∙◌, subst⁻¹, Bool, true, false, Option, none,
  some, List, [], ◌∷◌, if◌then◌else◌, if_cases, ltb, min, ◌⊎◌, inl, inr, arith, is_empty,
}
use nebula_core.Grid.{Slot, total, best_from, lower_at, shrink_loop, shrink_columns}

abbrev pub Slots : Type 0
Slots = List (Slot)

-- The strict minimum of a column, or the loose one.
abbrev pub min_of : Bool → Slot → ℕ
min_of true s = s.strict
min_of false s = s.loose

-- The same columns, none of them below its minimum if it was not before.
abbrev pub Refits : Bool → Slots → Slots → Type 0
Refits m [] [] = Unit
Refits m [] (t ∷ ts) = ⊥
Refits m (s ∷ ss) [] = ⊥
Refits m (s ∷ ss) (t ∷ ts) =
    ((t.column ≡ s.column)
      × (t.loose ≡ s.loose)
      × (t.strict ≡ s.strict)
      × (min s.width (min_of m s) ≤ t.width))
    × Refits m ss ts

-- No column is wider than its minimum.
abbrev pub AtMins : (Slot → ℕ) → Slots → Type 0
AtMins mins [] = Unit
AtMins mins (s ∷ ss) = (s.width ≤ mins s) × AtMins mins ss

-- The column has something to spare.
abbrev Spares : (Slot → ℕ) → ℕ → Slots → Type 0
Spares mins i [] = ⊥
Spares mins zero (s ∷ ss) = mins s < s.width
Spares mins (suc i) (s ∷ ss) = Spares mins i ss

module _ (mins : Slot → ℕ) where
  best_kept : (b sp i : ℕ) (ss : Slots) → (j : ℕ) × (best_from mins (some b) sp i ss ≡ some j)
  unfolding best_from
  best_kept b sp i [] = (b, refl)
  best_kept b sp i (s ∷ ss) =
      if_cases
        (λ o.
          (j : ℕ) × (best_from mins o (if ltb sp (s.width - mins s) then s.width - mins s else sp)
              (suc i) ss
            ≡ some j))
        (ltb sp (s.width - mins s)) (some i) (some b) (λ _. best_kept i _ (suc i) ss)
        (λ _. best_kept b _ (suc i) ss)

  best-AtMins : (i : ℕ) (ss : Slots) → best_from mins none 0 i ss ≡ none → AtMins mins ss
  unfolding best_from
  best-AtMins i [] h = tt
  best-AtMins i (s ∷ ss) h = by_more (best-AtMins (suc i) ss) (ltb 0 (s.width - mins s)) refl h
    where
      by_more :
          (best_from mins none 0 (suc i) ss ≡ none → AtMins mins ss)
          → (more : Bool) → ltb 0 (s.width - mins s) ≡ more
          → best_from mins
              (if more then some i else none)
              (if more then s.width - mins s else 0)
              (suc i)
              ss
            ≡ none
          → AtMins mins (s ∷ ss)
      by_more rest true e h =
          let kept = best_kept i (s.width - mins s) (suc i) ss in
          let no : some kept.0 ≡ none = sym kept.1 ∙ h in absurd (ground arith)
      by_more rest false e h = (ground arith, rest h)

  best-Spares :
      (b : Option ℕ) (sp i : ℕ) (ss : Slots) (j : ℕ)
      → best_from mins b sp i ss ≡ some j
      → (b ≡ some j) ⊎ ((k : ℕ) × (j ≡ i + k) × Spares mins k ss)
  unfolding best_from
  best-Spares b sp i [] j h = inl h
  best-Spares b sp i (s ∷ ss) j h =
      by_more (λ c sq. best-Spares c sq (suc i) ss j) (ltb sp (s.width - mins s)) refl h
    where
      Found : Type 0
      Found = (b ≡ some j) ⊎ ((k : ℕ) × (j ≡ i + k) × Spares mins k (s ∷ ss))

      by_more :
          ((c : Option ℕ) (sq : ℕ)
            → best_from mins c sq (suc i) ss ≡ some j
            → (c ≡ some j) ⊎ ((k : ℕ) × (j ≡ suc i + k) × Spares mins k ss))
          → (more : Bool) → ltb sp (s.width - mins s) ≡ more
          → best_from mins
              (if more then some i else b)
              (if more then s.width - mins s else sp)
              (suc i)
              ss
            ≡ some j
          → Found
      by_more rest true e h = elim (rest (some i) (s.width - mins s) h) [
        | inl q ↦ inr (0, ground arith, ground arith)
        | inr q ↦ inr (suc q.0, omega (arith, q.1), q.2)
      ]
      by_more rest false e h = elim (rest b sp h) [
        | inl q ↦ inl q
        | inr q ↦ inr (suc q.0, omega (arith, q.1), q.2)
      ]

lower-total :
    (mins : Slot → ℕ) (i : ℕ) (ss : Slots)
    → Spares mins i ss
    → suc (total (lower_at i ss)) ≡ total ss
unfolding total lower_at
lower-total mins i [] h = absurd h
lower-total mins zero (s ∷ ss) h = omega arith
lower-total mins (suc i) (s ∷ ss) h = omega (arith, lower-total mins i ss h)

pub refl-Refits : (m : Bool) (ss : Slots) → Refits m ss ss
refl-Refits m [] = tt
refl-Refits m (s ∷ ss) = ((refl, refl, refl, omega arith), refl-Refits m ss)

pub trans-Refits : (m : Bool) (ss ts us : Slots) → Refits m ss ts → Refits m ts us → Refits m ss us
trans-Refits m [] [] [] h g = tt
trans-Refits m [] [] (u ∷ us) h g = g
trans-Refits m [] (t ∷ ts) us h g = absurd h
trans-Refits m (s ∷ ss) [] us h g = absurd h
trans-Refits m (s ∷ ss) (t ∷ ts) [] h g = g
trans-Refits m (s ∷ ss) (t ∷ ts) (u ∷ us) ((a, b, c, d), h) ((e, f, i, j), g) =
    ((e ∙ a, f ∙ b, i ∙ c, at_floor m d j), trans-Refits m ss ts us h g)
  where
    at_floor :
        (m : Bool)
        → min s.width (min_of m s) ≤ t.width
        → min t.width (min_of m t) ≤ u.width
        → min s.width (min_of m s) ≤ u.width
    at_floor true d j = omega arith
    at_floor false d j = omega arith

lower-Refits :
    (m : Bool) (i : ℕ) (ss : Slots) → Spares (min_of m) i ss → Refits m ss (lower_at i ss)
unfolding lower_at
lower-Refits m i [] h = absurd h
lower-Refits m zero (s ∷ ss) h = ((refl, refl, refl, omega arith), refl-Refits m ss)
lower-Refits m (suc i) (s ∷ ss) h = ((refl, refl, refl, omega arith), lower-Refits m i ss h)

-- The loop takes one from a column that has it to spare until the deficit is gone or no column
-- has anything to spare.
abbrev pub Shrunk : Bool → ℕ → Slots → Slots × ℕ → Type 0
Shrunk m deficit ss r =
    Refits m ss r.0 × (total r.0 + deficit ≡ total ss + r.1) × ((r.1 ≡ 0) ⊎ AtMins (min_of m) r.0)

shrink_loop-Shrunk :
    (m : Bool) (deficit : ℕ) (ss : Slots) → Shrunk m deficit ss (shrink_loop (min_of m) deficit ss)
unfolding shrink_loop
shrink_loop-Shrunk m zero ss = (refl-Refits m ss, refl, inl refl)
shrink_loop-Shrunk m (suc deficit) ss =
    by_best (λ ts. shrink_loop-Shrunk m deficit ts) (best_from (min_of m) none 0 0 ss) refl
  where
    by_best :
        ((ts : Slots) → Shrunk m deficit ts (shrink_loop (min_of m) deficit ts))
        → (o : Option ℕ) → best_from (min_of m) none 0 0 ss ≡ o
        → Shrunk m (suc deficit) ss (elim o [
          | none ↦ (ss, suc deficit)
          | some i ↦ shrink_loop (min_of m) deficit (lower_at i ss)
        ])
    by_best rest none e = (refl-Refits m ss, refl, inr (best-AtMins (min_of m) 0 ss e))
    by_best rest (some i) e = elim (best-Spares (min_of m) none 0 0 ss i e) [
      | inl q ↦ absurd (ground arith)
      | inr q ↦
          let at : i ≡ q.0 = omega (arith, q.1) in
          let spare : Spares (min_of m) i ss = subst⁻¹ (λ k. Spares (min_of m) k ss) at q.2 in
          let next = rest (lower_at i ss) in
          let one = lower-total (min_of m) i ss spare in
          (
            trans-Refits m ss (lower_at i ss) (shrink_loop (min_of m) deficit (lower_at i ss)).0
                (lower-Refits m i ss spare) next.0,
            omega (arith, one, next.1),
            next.2,
          )
    ]

pub shrink_columns-Shrunk :
    (m : Bool) (deficit : ℕ) (ss : Slots)
    → is_empty ss ≡ false
    → Shrunk m deficit ss (shrink_columns (min_of m) deficit ss)
unfolding shrink_columns
shrink_columns-Shrunk m deficit [] h = absurd (ground arith)
shrink_columns-Shrunk m deficit (s ∷ ss) h = shrink_loop-Shrunk m deficit (s ∷ ss)
