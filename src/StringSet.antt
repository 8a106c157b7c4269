-- ===== src/StringSet.antt =====
-- A Go `map[string]bool` whose present keys are all true, or a `map[string]struct{}`: the list of
-- its keys. What the program does with it does not depend on the order of the keys.
pub mod Laws
use nebula_core.Prelude.{Bool, true, false, not, ◌||◌, ◌≡◌, List, [], ◌∷◌, if◌then◌else◌}
use nebula_core.Text.{Text, text_eq}

unfoldable pub mem : Text → List Text → Bool
mem k [] = false
mem k (x ∷ xs) = text_eq k x || mem k xs

-- m[k] = true
unfoldable pub insert : Text → List Text → List Text
unfolding mem
insert k m = if mem k m then m else k ∷ m

-- delete(m, k)
unfoldable pub remove : Text → List Text → List Text
remove k [] = []
remove k (x ∷ xs) = let rest = remove k xs in if text_eq k x then rest else x ∷ rest

-- No key stands twice.
abbrev pub Distinct : List Text → Type 0
Distinct [] = Unit
Distinct (x ∷ xs) = (mem x xs ≡ false) × Distinct xs
