-- ===== src/Tests/ListView.antt =====
-- Runs of the scrollable list.
use nebula_core.Prelude.{◌-◌, ◌≤◌, ◌≡◌, refl, List, [], ◌∷◌, arith, some, length, get_elem?}
use nebula_core.Text.{Text, codes}
use nebula_core.ListView.{ListView, new_list, set_items, down, visible, selected}
use nebula_core.ListView.Bounds.{IsValid, go_down, replace, act_all, new_list-IsValid, visible_lem}

abbrev letters : List Text
letters = codes "a" ∷ codes "b" ∷ codes "c" ∷ []

-- The cursor on the last of three items, on a page of two.
abbrev scrolled : ListView
scrolled = record { items = letters; cursor = 2; offset = 1; page_size = 2 }

scrolls_down : down (down (set_items letters (new_list 2))) ≡ scrolled
unfolding down set_items new_list
scrolls_down = refl

shows_last_two : visible scrolled ≡ some (codes "b" ∷ codes "c" ∷ [])
unfolding visible
shows_last_two = refl

scrolled-IsValid : IsValid scrolled
scrolled-IsValid = omega arith

new_list-IsValid_example : IsValid (act_all (new_list 2) (replace letters ∷ go_down ∷ go_down ∷ []))
new_list-IsValid_example =
    new_list-IsValid 2 (replace letters ∷ go_down ∷ go_down ∷ []) (omega arith)

visible_lem_example :
    (rows : List Text) × (visible scrolled ≡ some rows)
    × (length rows ≤ 2)
    × (get_elem? rows (selected scrolled - 1) ≡ get_elem? letters (selected scrolled))
visible_lem_example = visible_lem scrolled scrolled-IsValid (omega arith)
