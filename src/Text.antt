-- ===== src/Text.antt =====
-- Go strings: a text is the list of its bytes. Of the package `strings` the functions that the
-- program calls, with `TrimSpace` and `ToLower` read on ASCII: bytes of longer runes are never
-- trimmed and have no case.
pub mod Laws
pub mod Letters
pub mod Lines
pub mod Order
pub mod Decimal
pub mod Runes
use Prim.Native.Char.{code}
use nebula_core.Prelude.{
  ℕ, zero, suc, ◌+◌, ◌-◌, ◌≡◌, refl, Bool, true, false, not, ◌&&◌, ◌||◌, Option, none, some, List,
  [], ◌∷◌, ◌++◌, map, reverse, String, ltb, leb, ◌==◌, if◌then◌else◌, length, drop, take, is_empty,
}

abbrev pub Text : Type 0
Text = List ℕ

-- A literal of the source.
abbrev pub codes : String → Text
codes String.[] = []
codes (String.◌∷◌ c s) = code c ∷ codes s

unfoldable pub text_eq : Text → Text → Bool
text_eq [] [] = true
text_eq [] (y ∷ ys) = false
text_eq (x ∷ xs) [] = false
text_eq (x ∷ xs) (y ∷ ys) = x == y && text_eq xs ys

-- unicode.IsSpace on ASCII: tab, newline, vertical tab, form feed, carriage return, space.
unfoldable pub is_space : ℕ → Bool
is_space c = (leb 9 c && leb c 13) || c == 32

unfoldable pub lower : ℕ → ℕ
lower c = if leb b'A' c && leb c b'Z' then c + 32 else c

-- strings.ToLower
unfoldable pub to_lower : Text → Text
unfolding lower
to_lower s = map lower s

unfoldable pub trim_left : (ℕ → Bool) → Text → Text
trim_left p [] = []
trim_left p (c ∷ s) = let rest = trim_left p s in if p c then rest else c ∷ s

unfoldable pub trim_right : (ℕ → Bool) → Text → Text
trim_right p [] = []
trim_right p (c ∷ s) = let rest = trim_right p s in if is_empty rest && p c then [] else c ∷ rest

-- strings.TrimSpace
unfoldable pub trim_space : Text → Text
unfolding trim_left trim_right is_space
trim_space s = trim_right is_space (trim_left is_space s)

-- strings.HasPrefix, the prefix first.
unfoldable pub has_prefix : Text → Text → Bool
has_prefix [] s = true
has_prefix (p ∷ ps) [] = false
has_prefix (p ∷ ps) (c ∷ s) = p == c && has_prefix ps s

unfoldable pub has_suffix : Text → Text → Bool
unfolding has_prefix
has_suffix p s = has_prefix (reverse p) (reverse s)

unfoldable pub trim_prefix : Text → Text → Text
unfolding has_prefix
trim_prefix p s = if has_prefix p s then drop (length p) s else s

unfoldable pub trim_suffix : Text → Text → Text
unfolding has_suffix
trim_suffix p s = if has_suffix p s then take (length s - length p) s else s

-- strings.Contains, the part first.
unfoldable pub contains : Text → Text → Bool
unfolding has_prefix
contains p [] = is_empty p
contains p (c ∷ s) = has_prefix p (c ∷ s) || contains p s

-- The rest of `split` with the part read so far.
unfoldable pub split_loop : ℕ → Text → Text → List Text
split_loop sep part [] = reverse part ∷ []
split_loop sep part (c ∷ s) =
    let cut = reverse part ∷ split_loop sep [] s in
    let go_on = split_loop sep (c ∷ part) s in if c == sep then cut else go_on

-- strings.Split at a separator of one byte.
unfoldable pub split : ℕ → Text → List Text
unfolding split_loop
split sep s = split_loop sep [] s

unfoldable pub join : Text → List Text → Text
join sep [] = []
join sep (s ∷ []) = s
join sep (s ∷ t ∷ ts) = s ++ (sep ++ join sep (t ∷ ts))

-- What precedes and follows the first `sep`; `none` without one. strings.SplitN(s, sep, 2).
unfoldable pub cut : ℕ → Text → Option (Text × Text)
cut sep [] = none
cut sep (c ∷ s) =
    let rest : Option (Text × Text) = elim (cut sep s) [
      | none ↦ none
      | some (a, b) ↦ some (c ∷ a, b)
    ] in
    if c == sep then some ([], s) else rest

-- The non-empty parts between bytes that satisfy `p`.
unfoldable pub fields_loop : (ℕ → Bool) → Text → Text → List Text
fields_loop p part [] = if is_empty part then [] else reverse part ∷ []
fields_loop p part (c ∷ s) =
    let go_on = fields_loop p (c ∷ part) s in
    let next = fields_loop p [] s in
    if p c then (if is_empty part then next else reverse part ∷ next) else go_on

-- strings.FieldsFunc
unfoldable pub fields_func : (ℕ → Bool) → Text → List Text
unfolding fields_loop
fields_func p s = fields_loop p [] s

-- strings.Fields
unfoldable pub fields : Text → List Text
unfolding fields_func is_space
fields s = fields_func is_space s

-- strings.ReplaceAll of one byte by another.
unfoldable pub replace_byte : ℕ → ℕ → Text → Text
replace_byte a b s = map (λ c. if c == a then b else c) s
