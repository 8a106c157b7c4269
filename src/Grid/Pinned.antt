-- ===== src/Grid/Pinned.antt =====
-- The columns that fitting keeps as wide as they are.
use nebula_core.Prelude.{
  ℕ, zero, suc, ◌-◌, ◌≤◌, ◌<◌, ◌≡◌, refl, sym, ap, ◌∙◌, subst, Bool, true, false, ◌&&◌, not, Option,
  none, some, List, [], ◌∷◌, map, if_cases, ltb, length, min, inl, inr, arith, is_empty, get_elem?,
  ℤ, pos,
}
use nebula_core.Text.{Text}
use nebula_core.Grid.{
  TableColumn, Slot, at_least, is_pinned_system_header, strict_min, slot, total, shrink_columns,
  expected, shrink, fit_slots, separator_width, content_width, fit_grid_columns,
}
use nebula_core.Grid.Shrink.{Slots, min_of, Refits, AtMins, refl-Refits, shrink_columns-Shrunk}
use nebula_core.Grid.Fit.{grow_widest_lem, expected-total, length-Refits}

-- Every column at its strict minimum.
abbrev pub narrowed : Slots → Slots
narrowed [] = []
narrowed (s ∷ ss) = record s { width = s.strict } ∷ narrowed ss

narrowed-le :
    (ss ts : Slots) → Refits true ss ts → AtMins (min_of true) ts → total ts ≤ total (narrowed ss)
unfolding total
narrowed-le [] [] h a = omega arith
narrowed-le [] (t ∷ ts) h a = absurd h
narrowed-le (s ∷ ss) [] h a = absurd h
narrowed-le (s ∷ ss) (t ∷ ts) ((a, b, c, d), h) (e, g) = omega (arith, narrowed-le ss ts h g, c, e)

length-narrowed : (ss : Slots) → length (narrowed ss) ≡ length ss
length-narrowed [] = refl
length-narrowed (s ∷ ss) = ap suc (length-narrowed ss)

module _ (sep_w content : ℕ) (ss : Slots) (filled : is_empty ss ≡ false)
    (room : expected sep_w (narrowed ss) ≤ content) where
  shrink-Refits :
      content < expected sep_w ss → Refits true ss (shrink (expected sep_w ss - content) ss)
  unfolding shrink
  shrink-Refits over =
      let d = expected sep_w ss - content in
      let first = shrink_columns (min_of true) d ss in
      let one = shrink_columns-Shrunk true d ss filled in
      let lengths = length-Refits true ss first.0 one.0 in
      let same = expected-total sep_w d first.1 ss first.0 lengths one.1 in
      if_cases (Refits true ss) (ltb 0 first.1) _ _
        (λ p. elim one.2 [
          | inl q ↦ absurd (ground arith)
          | inr q ↦
              let gap = total (narrowed ss) - total first.0 in
              let le = narrowed-le ss first.0 one.0 q in
              let wide =
                expected-total sep_w 0 gap first.0 (narrowed ss) (length-narrowed ss ∙ sym lengths)
                  (omega (arith, le)) in
              absurd (ground (arith, over, same, wide, room))
        ])
        (λ p. one.0)

  fit_slots-Refits : Refits true ss (fit_slots sep_w content ss)
  unfolding fit_slots
  fit_slots-Refits =
      if_cases (Refits true ss) (not (is_empty ss) && ltb (expected sep_w ss) content) _ _
        (λ p. (grow_widest_lem true (content - expected sep_w ss) ss filled).0)
        (λ p.
          if_cases (Refits true ss) (not (is_empty ss) && ltb content (expected sep_w ss)) _ _
            (λ q. shrink-Refits (ground arith)) (λ q. refl-Refits true ss))

get-map :
    {A B : Type 0} (f : A → B) (xs : List A) (i : ℕ) (x : A)
    → get_elem? xs i ≡ some x
    → get_elem? (map f xs) i ≡ some (f x)
get-map f [] i x h = absurd (ground arith)
get-map f (y ∷ xs) zero x h = ap (λ o. elim o [ none ↦ none | some a ↦ some (f a) ]) h
get-map f (y ∷ xs) (suc i) x h = get-map f xs i x h

get-filled :
    {A B : Type 0} (f : A → B) (xs : List A) (i : ℕ) (x : A)
    → get_elem? xs i ≡ some x
    → is_empty (map f xs) ≡ false
get-filled f [] i x h = absurd (ground arith)
get-filled f (y ∷ xs) i x h = refl

-- The column that stands where one stood, not narrower than its minimum if it was not before.
abbrev Kept : Bool → Option Slot → Option Slot → Type 0
Kept m none o = Unit
Kept m (some s) none = ⊥
Kept m (some s) (some t) = (t.column ≡ s.column) × (min s.width (min_of m s) ≤ t.width)

get-Kept :
    (m : Bool) (ss ts : Slots) (i : ℕ) → Refits m ss ts → Kept m (get_elem? ss i) (get_elem? ts i)
get-Kept m [] ts i h = tt
get-Kept m (r ∷ ss) [] i h = absurd h
get-Kept m (r ∷ ss) (t ∷ ts) zero ((a, b, c, d), h) = (a, d)
get-Kept m (r ∷ ss) (t ∷ ts) (suc i) h = get-Kept m ss ts i h.1

column_after :
    (m : Bool) (s : Slot) (o : Option Slot)
    → Kept m (some s) o
    → (t : Slot) × (o ≡ some t) × (t.column ≡ s.column) × (min s.width (min_of m s) ≤ t.width)
column_after m s none h = absurd h
column_after m s (some t) h = (t, refl, h.0, h.1)

slot-pinned :
    (display_width : Text → ℕ) (c : TableColumn)
    → is_pinned_system_header c.header ≡ true
    → (slot display_width c).width ≤ (slot display_width c).strict
unfolding slot strict_min
slot-pinned display_width c h = ground arith

-- Where the grid has room for the strict minimums of its columns, a column with a pinned header
-- stays at least as wide as it is.
pub fit_grid_columns-pinned :
    (display_width : Text → ℕ) (columns : List TableColumn) (sep : Text) (table_width : ℤ) (i : ℕ)
    (c : TableColumn)
    → get_elem? columns i ≡ some c
    → is_pinned_system_header c.header ≡ true
    → expected (separator_width display_width sep) (narrowed (map (slot display_width) columns))
      ≤ content_width table_width columns
    → (w : ℕ) × (get_elem? (fit_grid_columns display_width columns sep table_width) i
        ≡ some (record c { width = pos w }))
      × (at_least 1 c.width ≤ w)
unfolding fit_grid_columns slot
fit_grid_columns-pinned display_width columns sep table_width i c e p room =
    let slots = map (slot display_width) columns in
    let content = content_width table_width columns in
    let sep_w = separator_width display_width sep in
    let ts = fit_slots sep_w content slots in
    let s = slot display_width c in
    let refits =
      fit_slots-Refits sep_w content slots (get-filled (slot display_width) columns i c e) room in
    let kept =
      subst (λ o. Kept true o (get_elem? ts i)) (get-map (slot display_width) columns i c e)
        (get-Kept true slots ts i refits) in
    let t = column_after true s (get_elem? ts i) kept in
    let out : Slot → TableColumn = λ u. record u.column { width = pos u.width } in
    let at_width : TableColumn → Option TableColumn =
      λ d. some (record d { width = pos t.0.width }) in
    let shown = get-map out ts i t.0 t.1 in
    (t.0.width, shown ∙ ap at_width t.2, omega (arith, slot-pinned display_width c p, t.3))
