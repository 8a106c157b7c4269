-- ===== src/Grid/Fit.antt =====
-- What fitting does to the widths of the columns.
use nebula_core.Prelude.{
  ℕ, zero, suc, ◌+◌, ◌-◌, ◌*◌, ◌≤◌, ◌<◌, ◌≡◌, refl, ap, Bool, true, false, ◌&&◌, not, List, [], ◌∷◌,
  map, if◌then◌else◌, if_cases, ltb, length, ◌⊎◌, inl, inr, arith, is_empty, ℤ, All,
}
use nebula_core.Text.{Text}
use nebula_core.Grid.{
  TableColumn, strict_min, slot, total, shrink_columns, widest_from, grow_at, grow_widest, expected,
  shrink, fit_slots, separator_width, content_width,
}
use nebula_core.Grid.Shrink.{
  Slots, min_of, Refits, AtMins, refl-Refits, trans-Refits, shrink_columns-Shrunk,
}

-- The strict minimums are not below the loose ones.
abbrev pub LooseFirst : Slots → Type 0
LooseFirst = All (λ s. s.loose ≤ s.strict)

pub length-Refits : (m : Bool) (ss ts : Slots) → Refits m ss ts → length ts ≡ length ss
length-Refits m [] [] h = refl
length-Refits m [] (t ∷ ts) h = absurd h
length-Refits m (s ∷ ss) [] h = absurd h
length-Refits m (s ∷ ss) (t ∷ ts) h = ap suc (length-Refits m ss ts h.1)

filled-Refits :
    (m : Bool) (ss ts : Slots) → Refits m ss ts → is_empty ss ≡ false → is_empty ts ≡ false
filled-Refits m [] ts h e = absurd (ground arith)
filled-Refits m (s ∷ ss) [] h e = absurd h
filled-Refits m (s ∷ ss) (t ∷ ts) h e = refl

loosened : (ss ts : Slots) → LooseFirst ss → Refits true ss ts → Refits false ss ts
loosened [] [] l h = tt
loosened [] (t ∷ ts) l h = h
loosened (s ∷ ss) [] l h = h
loosened (s ∷ ss) (t ∷ ts) l ((a, b, c, d), h) =
    ((a, b, c, omega (arith, l.0)), loosened ss ts l.1 h)

grown :
    (m : Bool) (i delta : ℕ) (ss : Slots)
    → i < length ss
    → Refits m ss (grow_at i delta ss) × (total (grow_at i delta ss) ≡ total ss + delta)
unfolding total grow_at
grown m i delta [] h = absurd (omega arith)
grown m zero delta (s ∷ ss) h = (((refl, refl, refl, omega arith), refl-Refits m ss), omega arith)
grown m (suc i) delta (s ∷ ss) h =
    let rest = grown m i delta ss (omega arith) in
    (((refl, refl, refl, omega arith), rest.0), omega (arith, rest.1))

widest_from-bound :
    (best w i n : ℕ) (ss : Slots) → best < n → i + length ss ≤ n → widest_from best w i ss < n
unfolding widest_from
widest_from-bound best w i n [] h g = h
widest_from-bound best w i n (s ∷ ss) h g =
    let wider = ltb w s.width in
    widest_from-bound (if wider then i else best) (if wider then s.width else w) (suc i) n ss
      (ground arith) (omega arith)

pub grow_widest_lem :
    (m : Bool) (delta : ℕ) (ss : Slots)
    → is_empty ss ≡ false
    → Refits m ss (grow_widest delta ss) × (total (grow_widest delta ss) ≡ total ss + delta)
unfolding grow_widest
grow_widest_lem m delta [] h = absurd (ground arith)
grow_widest_lem m delta (s ∷ ss) h =
    grown m (widest_from 0 s.width 1 ss) delta (s ∷ ss)
      (widest_from-bound 0 s.width 1 (length (s ∷ ss)) ss (omega arith) (omega arith))

-- The widths of columns with the same separators differ by what their totals differ by.
pub expected-total :
    (sep_w a b : ℕ) (ss ts : Slots)
    → length ts ≡ length ss
    → total ts + a ≡ total ss + b
    → expected sep_w ts + a ≡ expected sep_w ss + b
unfolding expected
expected-total sep_w a b ss ts e h = rw e (
    if_cases
      (λ n.
        n + a ≡ (if ltb 1 (length ss) then total ss + (length ss - 1) * sep_w else total ss) + b)
      (ltb 1 (length ss)) _ _
      (λ p.
        if_cases (λ n. total ts + (length ss - 1) * sep_w + a ≡ n + b) (ltb 1 (length ss)) _ _
          (λ _. omega (arith, h)) (λ q. absurd (ground arith)))
      (λ p.
        if_cases (λ n. total ts + a ≡ n + b) (ltb 1 (length ss)) _ _ (λ q. absurd (ground arith))
          (λ _. h)))

abbrev pub Fitted : ℕ → ℕ → Slots → Slots → Type 0
Fitted sep_w content ss ts =
    Refits false ss ts × ((expected sep_w ts ≡ content) ⊎ AtMins (min_of false) ts)

module _ (sep_w content : ℕ) (ss : Slots) (filled : is_empty ss ≡ false) (l : LooseFirst ss) where
  -- The deficit of the columns.
  module _ (over : content < expected sep_w ss) where
    shrink-Fitted : Fitted sep_w content ss (shrink (expected sep_w ss - content) ss)
    unfolding shrink
    shrink-Fitted =
        let d = expected sep_w ss - content in
        let first = shrink_columns (min_of true) d ss in
        let one = shrink_columns-Shrunk true d ss filled in
        let same =
          expected-total sep_w d first.1 ss first.0 (length-Refits true ss first.0 one.0) one.1 in
        let filled_first = filled-Refits true ss first.0 one.0 filled in
        let second = shrink_columns (min_of false) first.1 first.0 in
        let two = shrink_columns-Shrunk false first.1 first.0 filled_first in
        let same_first =
          expected-total sep_w first.1 second.1 first.0 second.0
            (length-Refits false first.0 second.0 two.0) two.1 in
        if_cases (Fitted sep_w content ss) (ltb 0 first.1) _ _
          (λ p. (
            trans-Refits false ss first.0 second.0 (loosened ss first.0 l one.0) two.0,
            elim two.2 [ inl q ↦ inl (omega (arith, over, same, same_first, q)) | inr q ↦ inr q ],
          ))
          (λ p. (loosened ss first.0 l one.0, inl (ground (arith, over, same))))

  fit_slots-Fitted : Fitted sep_w content ss (fit_slots sep_w content ss)
  unfolding fit_slots
  fit_slots-Fitted =
      if_cases (Fitted sep_w content ss) (not (is_empty ss) && ltb (expected sep_w ss) content) _ _
        (λ p.
          let g = grow_widest_lem false (content - expected sep_w ss) ss filled in
          let ts = grow_widest (content - expected sep_w ss) ss in
          let same =
            expected-total sep_w 0 (content - expected sep_w ss) ss ts
              (length-Refits false ss ts g.0) (omega (arith, g.1)) in
          (g.0, inl (ground (arith, same))))
        (λ p.
          if_cases (Fitted sep_w content ss) (not (is_empty ss) && ltb content (expected sep_w ss))
            _ _ (λ q. shrink-Fitted (ground arith))
            (λ q. (refl-Refits false ss, inl (ground (arith, filled)))))

slot-LooseFirst :
    (display_width : Text → ℕ) (c : TableColumn)
    → (slot display_width c).loose ≤ (slot display_width c).strict
unfolding slot strict_min
slot-LooseFirst display_width c = ground arith

pub slots-LooseFirst :
    (display_width : Text → ℕ) (columns : List TableColumn)
    → LooseFirst (map (slot display_width) columns)
slots-LooseFirst display_width [] = tt
slots-LooseFirst display_width (c ∷ cs) =
    (slot-LooseFirst display_width c, slots-LooseFirst display_width cs)

-- The columns of a grid fill its width exactly, unless every one of them is down to what its header
-- needs; no column is narrowed below its header.
pub fit_slots_lem :
    (display_width : Text → ℕ) (c : TableColumn) (cs : List TableColumn) (sep : Text)
    (table_width : ℤ)
    → Fitted
        (separator_width display_width sep)
        (content_width table_width (c ∷ cs))
        (map (slot display_width) (c ∷ cs))
        (fit_slots
          (separator_width display_width sep)
          (content_width table_width (c ∷ cs))
          (map (slot display_width) (c ∷ cs)))
fit_slots_lem display_width c cs sep table_width =
    fit_slots-Fitted (separator_width display_width sep) (content_width table_width (c ∷ cs))
      (map (slot display_width) (c ∷ cs)) refl (slots-LooseFirst display_width (c ∷ cs))
