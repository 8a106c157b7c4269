-- ===== src/Text/Lines.antt =====
-- A text and its parts between separators.
use nebula_core.Prelude.{
  ℕ, ◌≡◌, refl, ap, ◌∙◌, false, List, [], ◌∷◌, ◌++◌, reverse, arith, All, if_cases, ◌==◌,
  append-nil, append_assoc,
}
use mathlib.Core.List.{reverse-cons}
use nebula_core.Text.{Text, split_loop, split, join}
use nebula_core.Text.Letters.{All-reverse}

module _ (sep : ℕ) where
  abbrev pub IsOther : ℕ → Type 0
  IsOther c = (c == sep) ≡ false

  push : (c : ℕ) (part s : Text) → reverse (c ∷ part) ++ s ≡ reverse part ++ c ∷ s
  push c part s = rw (reverse-cons c part, append_assoc (reverse part) (c ∷ []) s) refl

  split_loop-end :
      (part w : Text) → All IsOther w → split_loop sep part w ≡ (reverse part ++ w) ∷ []
  unfolding split_loop
  split_loop-end part [] h = rw (append-nil (reverse part)) refl
  split_loop-end part (c ∷ w) h = rw (h.0, split_loop-end (c ∷ part) w h.1, push c part w) refl

  split_loop-part :
      (part w s : Text)
      → All IsOther w
      → split_loop sep part (w ++ sep ∷ s) ≡ (reverse part ++ w) ∷ split_loop sep [] s
  unfolding split_loop
  split_loop-part part [] s h = ground (arith, append-nil (reverse part))
  split_loop-part part (c ∷ w) s h =
      rw (h.0, split_loop-part (c ∷ part) w s h.1, push c part w) refl

  -- Parts without the separator are found again in their join.
  pub split-join :
      (w : Text) (ws : List Text)
      → All (All IsOther) (w ∷ ws)
      → split sep (join (sep ∷ []) (w ∷ ws)) ≡ w ∷ ws
  unfolding split join
  split-join w [] h = split_loop-end [] w h.0
  split-join w (v ∷ ws) h =
      split_loop-part [] w (join (sep ∷ []) (v ∷ ws)) h.0 ∙ ap (◌∷◌ w) (split-join v ws h.1)

  module _ {ℓ} (P : ℕ → Type ℓ) where
    abbrev pub IsPart : ℕ → Type ℓ
    IsPart c = P c × IsOther c

    All-split_loop :
        (part s : Text) → All IsPart part → All P s → All (All IsPart) (split_loop sep part s)
    unfolding split_loop
    All-split_loop part [] hp hs = (All-reverse IsPart part hp, tt)
    All-split_loop part (c ∷ s) hp hs =
        if_cases (All (All IsPart)) (c == sep) (reverse part ∷ split_loop sep [] s)
          (split_loop sep (c ∷ part) s)
          (λ _. (All-reverse IsPart part hp, All-split_loop [] s tt hs.1))
          (λ e. All-split_loop (c ∷ part) s ((hs.0, e), hp) hs.1)

    -- The letters of the parts are those of the text, without the separator.
    pub All-split : (s : Text) → All P s → All (All IsPart) (split sep s)
    unfolding split
    All-split s h = All-split_loop [] s tt h
