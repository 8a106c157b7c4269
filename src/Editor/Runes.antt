-- ===== src/Editor/Runes.antt =====
-- The backspace key takes back one code point.
use nebula_core.Prelude.{ℕ, ◌≡◌, refl, true, false, [], ◌∷◌, ◌++◌, reverse, append_assoc, All}
use mathlib.Core.List.{reverse-cons, reverse-append, reverse-reverse}
use nebula_core.Text.{Text}
use nebula_core.Text.Letters.{All-reverse}
use nebula_core.Editor.State.{is_continuation, drop_rune_back, drop_last_rune}

abbrev pub IsContinuation : ℕ → Type 0
IsContinuation c = is_continuation c ≡ true

drop_rune_back-continuations :
    (cs : Text) (lead : ℕ) (s : Text)
    → All IsContinuation cs
    → is_continuation lead ≡ false
    → drop_rune_back (cs ++ lead ∷ s) ≡ s
unfolding drop_rune_back
drop_rune_back-continuations [] lead s h e = rw e refl
drop_rune_back-continuations (c ∷ cs) lead s h e =
    rw h.0 (drop_rune_back-continuations cs lead s h.1 e)

-- A code point that was typed last, of any number of bytes, is taken back whole, and nothing else.
pub drop_last_rune-append :
    (s : Text) (lead : ℕ) (cs : Text)
    → is_continuation lead ≡ false
    → All IsContinuation cs
    → drop_last_rune (s ++ lead ∷ cs) ≡ s
unfolding drop_last_rune
drop_last_rune-append s lead cs e h =
    let turned : reverse (s ++ lead ∷ cs) ≡ reverse cs ++ lead ∷ reverse s =
      rw
        (
          reverse-append s (lead ∷ cs),
          reverse-cons lead cs,
          append_assoc (reverse cs) (lead ∷ []) (reverse s),
        )
        refl in
    rw
      (
        turned,
        drop_rune_back-continuations (reverse cs) lead (reverse s) (All-reverse IsContinuation cs h)
            e,
      )
      (reverse-reverse s)
