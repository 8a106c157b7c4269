-- ===== src/ListView/Bounds.antt =====
-- The cursor of a list stays on the screen.
use nebula_core.Prelude.{
  ℕ, zero, suc, ◌+◌, ◌-◌, ◌≤◌, ◌<◌, ◌≡◌, refl, some, List, [], ◌∷◌, ℤ, pos, negsuc, arith, length,
  take, drop, get_elem?, min, ◌⊎◌, length-take, ap, ◌∙◌,
}
use nebula_core.Text.{Text}
use nebula_core.ListView.{
  ListView, new_list, set_items, down, up, visible, selected, sync_metadata_list,
}

-- The page shows at least a row and scrolls no further than the end of the list; the cursor stands
-- on a row of the page, or the list is empty and at its top.
pub record IsValid (l : ListView) : Type 0 where
  pub page_pos : 0 < l.page_size
  pub above : l.offset ≤ l.cursor
  pub below : l.cursor < l.offset + l.page_size
  pub filled : l.offset ≤ length l.items - l.page_size
  pub in_list : (l.cursor < length l.items) ⊎ ((length l.items ≡ 0) × (l.cursor ≡ 0))

pub set_items-IsValid :
    (items : List Text) (l : ListView) → 0 < l.page_size → IsValid (set_items items l)
unfolding set_items
set_items-IsValid [] l h = ground arith
set_items-IsValid (x ∷ items) l h = ground arith

pub down-IsValid : (l : ListView) → IsValid l → IsValid (down l)
unfolding down
down-IsValid l v = ground arith

pub up-IsValid : (l : ListView) → IsValid l → IsValid (up l)
unfolding up
up-IsValid l v = ground arith

sync-IsValid :
    (fields : List Text) (page : ℤ) (l : ListView) → IsValid (sync_metadata_list fields page l)
unfolding sync_metadata_list
sync-IsValid [] (pos n) l = ground arith
sync-IsValid [] (negsuc n) l = ground arith
sync-IsValid (x ∷ fields) (pos n) l = ground arith
sync-IsValid (x ∷ fields) (negsuc n) l = ground arith

-- What the user and the panels do to a list.
pub data Action : Type 0 where
  go_down go_up : Action
  replace : List Text → Action
  sync : List Text → ℤ → Action

pub act : ListView → Action → ListView
act l go_down = down l
act l go_up = up l
act l (replace items) = set_items items l
act l (sync fields page) = sync_metadata_list fields page l

unfoldable pub act_all : ListView → List Action → ListView
act_all l [] = l
act_all l (a ∷ rest) = act_all (act l a) rest

act-IsValid : (l : ListView) (a : Action) → IsValid l → IsValid (act l a)
unfolding act
act-IsValid l go_down v = down-IsValid l v
act-IsValid l go_up v = up-IsValid l v
act-IsValid l (replace items) v = set_items-IsValid items l v.page_pos
act-IsValid l (sync fields page) v = sync-IsValid fields page l

act_all-IsValid : (l : ListView) (actions : List Action) → IsValid l → IsValid (act_all l actions)
unfolding act_all
act_all-IsValid l [] v = v
act_all-IsValid l (a ∷ rest) v = act_all-IsValid (act l a) rest (act-IsValid l a v)

-- A list with a positive page size keeps its cursor on the page and in the list through any moves,
-- replacements and synchronisations.
pub new_list-IsValid :
    (page : ℕ) (actions : List Action) → 0 < page → IsValid (act_all (new_list page) actions)
unfolding new_list
new_list-IsValid page actions h = act_all-IsValid (new_list page) actions (ground arith)

get_elem?-take {ℓ} :
    {A : Type ℓ} (n i : ℕ) (xs : List A) → i < n → get_elem? (take n xs) i ≡ get_elem? xs i
get_elem?-take zero i xs h = absurd (omega arith)
get_elem?-take (suc n) i [] h = refl
get_elem?-take (suc n) zero (x ∷ xs) h = refl
get_elem?-take (suc n) (suc i) (x ∷ xs) h = get_elem?-take n i xs (omega arith)

get_elem?-drop {ℓ} :
    {A : Type ℓ} (n i j : ℕ) (xs : List A) → j ≡ n + i → get_elem? (drop n xs) i ≡ get_elem? xs j
get_elem?-drop zero i j xs e = ap (get_elem? xs) (omega arith)
get_elem?-drop (suc n) i j [] e = refl
get_elem?-drop (suc n) i zero (x ∷ xs) e = absurd (omega arith)
get_elem?-drop (suc n) i (suc j) (x ∷ xs) e = get_elem?-drop n i j xs (omega arith)

-- Of a valid list that is not empty the visible slice is never out of range, and holds the selected
-- item at the place of the cursor on the page.
pub visible_lem :
    (l : ListView)
    → IsValid l
    → 0 < length l.items
    → (rows : List Text) × (visible l ≡ some rows)
      × (length rows ≤ l.page_size)
      × (get_elem? rows (selected l - l.offset) ≡ get_elem? l.items (selected l))
unfolding visible selected
visible_lem l v h = (
  take (end - l.offset) (drop l.offset l.items),
  ground arith,
  omega (arith, length-take (end - l.offset) (drop l.offset l.items)),
  get_elem?-take (end - l.offset) (l.cursor - l.offset) (drop l.offset l.items) (ground arith)
      ∙ get_elem?-drop l.offset (l.cursor - l.offset) l.cursor l.items (omega (arith, v)),
)
  where
    end : ℕ
    end = min (l.offset + l.page_size) (length l.items)

-- Synchronising a valid list with its own items and page size changes nothing; with other items the
-- cursor stays where it was, or moves to the last item if the list became too short.
sync_lem :
    (l : ListView) (fields : List Text) (page : ℤ)
    → (IsValid l → sync_metadata_list l.items (pos l.page_size) l ≡ l)
      × ((sync_metadata_list fields page l).cursor ≡ min l.cursor (length fields - 1))
unfolding sync_metadata_list
sync_lem l fields page = (λ v. same v, moved fields)
  where
    same : IsValid l → sync_metadata_list l.items (pos l.page_size) l ≡ l
    same v = ground arith

    moved : (fs : List Text) → (sync_metadata_list fs page l).cursor ≡ min l.cursor (length fs - 1)
    moved [] = ground arith
    moved (x ∷ fs) = ground arith
