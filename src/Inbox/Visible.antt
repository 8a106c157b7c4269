-- ===== src/Inbox/Visible.antt =====
-- The invariant of a session of the inbox.
use nebula_core.Prelude.{
  ℕ, zero, suc, ◌<◌, ◌≡◌, refl, Bool, true, false, Option, none, some, List, [], ◌∷◌, arith,
  is_empty, any, All, get_elem?, length, if_cases, if◌then◌else◌, ℤ, pos, negsuc,
}
use nebula_core.Text.{Text, text_eq}
use nebula_core.Text.Laws.{text_eq_refl}
use nebula_core.StringSet.{mem, insert, remove, Distinct}
use nebula_core.StringSet.Laws.{insert-Distinct, remove-Distinct}
use nebula_core.Table.{TableApi}
use nebula_core.Inbox.State.{Approval, InboxModel}
use nebula_core.Inbox.Select.{
  item_at_filtered_index, selected_item, select_each, select_all_filtered, toggle_select_all,
  toggle_selected,
}

module _ {Time : Type 0} where
  -- The item of the index has the id.
  abbrev has_id : List (Approval Time) → Text → ℕ → Bool
  has_id items id i = elim (get_elem? items i) [ none ↦ false | some a ↦ text_eq id a.id ]

  -- A visible row has the id.
  abbrev pub visible : List (Approval Time) → List ℕ → Text → Bool
  visible items is id = any (has_id items id) is

  abbrev AllVisible : List (Approval Time) → List ℕ → List Text → Type 0
  AllVisible items is ids = All (λ id. visible items is id ≡ true) ids

  AllVisible-insert :
      (items : List (Approval Time)) (is : List ℕ) (id : Text) (ids : List Text)
      → visible items is id ≡ true
      → AllVisible items is ids
      → AllVisible items is (insert id ids)
  unfolding insert
  AllVisible-insert items is id ids v h =
      if_cases (AllVisible items is) (mem id ids) ids (id ∷ ids) (λ _. h) (λ _. (v, h))

  AllVisible-remove :
      (items : List (Approval Time)) (is : List ℕ) (id : Text) (ids : List Text)
      → AllVisible items is ids
      → AllVisible items is (remove id ids)
  unfolding remove
  AllVisible-remove items is id [] h = tt
  AllVisible-remove items is id (x ∷ ids) h =
      if_cases (AllVisible items is) (text_eq id x) _ _ (λ _. AllVisible-remove items is id ids h.1)
        (λ _. (h.0, AllVisible-remove items is id ids h.1))

  visible-cons :
      (items : List (Approval Time)) (i : ℕ) (is : List ℕ) (ids : List Text)
      → AllVisible items is ids
      → AllVisible items (i ∷ is) ids
  visible-cons items i is [] h = tt
  visible-cons items i is (id ∷ ids) h = (ground arith, visible-cons items i is ids h.1)

  visible_of_get_elem? :
      (items : List (Approval Time)) (is : List ℕ) (n i : ℕ) (a : Approval Time)
      → get_elem? is n ≡ some i
      → get_elem? items i ≡ some a
      → visible items is a.id ≡ true
  visible_of_get_elem? items [] n i a e f = cc
  visible_of_get_elem? items (j ∷ is) zero i a e f = ground (arith, text_eq_refl a.id)
  visible_of_get_elem? items (j ∷ is) (suc n) i a e f =
      ground (arith, visible_of_get_elem? items is n i a e f)

  Distinct-select_each :
      (items : List (Approval Time)) (is : List ℕ) (ids : List Text)
      → Distinct ids
      → Distinct (select_each items is ids)
  unfolding select_each
  Distinct-select_each items [] ids d = d
  Distinct-select_each items (i ∷ is) ids d =
      elim (get_elem? items i)
        as (λ o.
          Distinct (select_each items is (elim o [ none ↦ ids | some a ↦ insert a.id ids ]))) [
            | none ↦ Distinct-select_each items is ids d
            | some a ↦ Distinct-select_each items is (insert a.id ids) (insert-Distinct a.id ids d)
          ]

  -- The loop over some of the rows inserts ids of visible rows only.
  AllVisible-select_each :
      (items : List (Approval Time)) (is js : List ℕ) (ids : List Text)
      → ((id : Text) → visible items js id ≡ true → visible items is id ≡ true)
      → AllVisible items is ids
      → AllVisible items is (select_each items js ids)
  unfolding select_each
  AllVisible-select_each items is [] ids sub h = h
  AllVisible-select_each items is (j ∷ js) ids sub h =
      AllVisible-select_each items is js _ (λ id v. sub id (ground arith))
        (step (get_elem? items j) refl)
    where
      step :
          (o : Option (Approval Time))
          → get_elem? items j ≡ o
          → AllVisible items is (elim o [ none ↦ ids | some a ↦ insert a.id ids ])
      step none e = h
      step (some a) e =
          AllVisible-insert items is a.id ids (sub a.id (ground (arith, text_eq_refl a.id))) h

  -- What a session keeps of the rows and the selection: the indices are in range, each selected id
  -- is that of a visible row, and none is selected twice.
  pub record Shown (items : List (Approval Time)) (filtered : List ℕ) (selected : List Text)
      : Type 0 where
    pub in_range : All (λ i. i < length items) filtered
    pub visible_ids : AllVisible items filtered selected
    pub distinct : Distinct selected

module _ {Table Time : Type 0} where
  abbrev pub ShownIn : InboxModel Table Time → Type 0
  ShownIn m = Shown m.items m.filtered m.selected

  pub select_all_filtered-Shown :
      (m : InboxModel Table Time) → ShownIn m → ShownIn (select_all_filtered m)
  unfolding select_all_filtered
  select_all_filtered-Shown m v = record {
    in_range = v.in_range;
    visible_ids =
        AllVisible-select_each m.items m.filtered m.filtered m.selected (λ id h. h) v.visible_ids;
    distinct = Distinct-select_each m.items m.filtered m.selected v.distinct;
  }

  pub cleared-Shown : (m : InboxModel Table Time) → ShownIn m → ShownIn (record m { selected = [] })
  cleared-Shown m v = record { in_range = v.in_range; visible_ids = tt; distinct = tt }

  pub toggle_select_all-Shown :
      (m : InboxModel Table Time) → ShownIn m → ShownIn (toggle_select_all m)
  unfolding toggle_select_all
  toggle_select_all-Shown m v =
      if_cases ShownIn (is_empty m.filtered) _ _ (λ _. v)
        λ _. if_cases ShownIn _ _ _ (λ _. cleared-Shown m v) (λ _. select_all_filtered-Shown m v)

  visible-item_at_filtered_index :
      (idx : ℤ) (m : InboxModel Table Time) {a : Approval Time}
      → item_at_filtered_index idx m ≡ some a
      → visible m.items m.filtered a.id ≡ true
  unfolding item_at_filtered_index
  visible-item_at_filtered_index (negsuc n) m h = cc
  visible-item_at_filtered_index (pos n) m {a} h = go (get_elem? m.filtered n) refl h
    where
      go :
          (o : Option ℕ)
          → get_elem? m.filtered n ≡ o
          → elim o [ none ↦ none | some i ↦ get_elem? m.items i ] ≡ some a
          → visible m.items m.filtered a.id ≡ true
      go none e f = cc
      go (some i) e f = visible_of_get_elem? m.items m.filtered n i a e f

  pub visible-selected_item :
      (api : TableApi Text Table) (m : InboxModel Table Time) {a : Approval Time}
      → selected_item api m ≡ some a
      → visible m.items m.filtered a.id ≡ true
  unfolding selected_item
  visible-selected_item api m h = visible-item_at_filtered_index (api.cursor m.data_table) m h

  pub toggle_selected-Shown :
      (api : TableApi Text Table) (m : InboxModel Table Time)
      → ShownIn m
      → ShownIn (toggle_selected api m)
  unfolding toggle_selected
  toggle_selected-Shown api m v = go (selected_item api m) refl
    where
      go :
          (o : Option (Approval Time))
          → selected_item api m ≡ o
          → ShownIn (elim o [
            | none ↦ m
            | some item ↦
                if mem item.id m.selected
                then record m { selected = remove item.id m.selected }
                else record m { selected = insert item.id m.selected }
          ])
      go none e = v
      go (some item) e =
          if_cases ShownIn (mem item.id m.selected) _ _
            (λ _. record {
              in_range = v.in_range;
              visible_ids = AllVisible-remove m.items m.filtered item.id m.selected v.visible_ids;
              distinct = remove-Distinct item.id m.selected v.distinct;
            })
            (λ _. record {
              in_range = v.in_range;
              visible_ids =
                  AllVisible-insert m.items m.filtered item.id m.selected
                    (visible-selected_item api m e) v.visible_ids;
              distinct = insert-Distinct item.id m.selected v.distinct;
            })
