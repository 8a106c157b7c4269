-- ===== src/Inbox/Selection.antt =====
-- What the selection keys of the inbox do.
use nebula_core.Prelude.{
  ℕ, ◌≡◌, refl, Bool, true, false, not, ◌||◌, ◌&&◌, Option, none, some, List, [], ◌∷◌, arith,
  is_empty, any, get_elem?, if◌then◌else◌,
}
use nebula_core.Text.{Text, text_eq}
use nebula_core.Text.Laws.{text_eq_iff, text_eq_refl}
use nebula_core.StringSet.{mem, insert}
use nebula_core.StringSet.Laws.{mem-insert, mem-remove}
use nebula_core.Table.{TableApi}
use nebula_core.Inbox.State.{Approval, InboxModel}
use nebula_core.Inbox.Select.{
  selected_item, select_each, select_all_filtered, all_selected, toggle_select_all, toggle_selected,
  ids_in, selected_ids,
}
use nebula_core.Inbox.Visible.{visible}

module _ {Time : Type 0} where
  -- An item of the list has the id.
  abbrev pub has_item : List (Approval Time) → Text → Bool
  has_item items id = any (λ a. text_eq id a.id) items

  mem-ids_in :
      (id : Text) (selected : List Text) (items : List (Approval Time))
      → mem id (ids_in selected items) ≡ (mem id selected && has_item items id)
  unfolding ids_in mem
  mem-ids_in id selected [] = ground arith
  mem-ids_in id selected (item ∷ items) =
      ground (arith, mem-ids_in id selected items, text_eq_iff id item.id)

  mem-select_each :
      (id : Text) (items : List (Approval Time)) (is : List ℕ) (selected : List Text)
      → mem id (select_each items is selected) ≡ (mem id selected || visible items is id)
  unfolding select_each
  mem-select_each id items [] selected = ground arith
  mem-select_each id items (i ∷ is) selected =
      go (get_elem? items i) refl (λ sel. mem-select_each id items is sel)
    where
      go :
          (o : Option (Approval Time))
          → get_elem? items i ≡ o
          → ((sel : List Text)
              → mem id (select_each items is sel) ≡ (mem id sel || visible items is id))
          → mem id
              (select_each items is (elim o [ none ↦ selected | some a ↦ insert a.id selected ]))
            ≡ (mem id selected || visible items (i ∷ is) id)
      go none e ih = ground (arith, ih selected)
      go (some a) e ih = ground (arith, ih (insert a.id selected), mem-insert a.id id selected)

  -- The test of the loop in terms of the visible ids.
  visible-all_selected :
      (id : Text) (items : List (Approval Time)) (is : List ℕ) (selected : List Text)
      → all_selected items is selected ≡ true
      → visible items is id ≡ true
      → mem id selected ≡ true
  unfolding all_selected
  visible-all_selected id items [] selected a v = cc
  visible-all_selected id items (i ∷ is) selected a v =
      go (get_elem? items i) refl (visible-all_selected id items is selected)
    where
      go :
          (o : Option (Approval Time))
          → get_elem? items i ≡ o
          → (all_selected items is selected ≡ true
              → visible items is id ≡ true
              → mem id selected ≡ true)
          → mem id selected ≡ true
      go none e ih = ih (ground arith) (ground arith)
      go (some x) e ih = ground (arith, ih, text_eq_iff id x.id)

  all_selected-visible :
      (items : List (Approval Time)) (is : List ℕ) (selected : List Text)
      → ((id : Text) → visible items is id ≡ true → mem id selected ≡ true)
      → all_selected items is selected ≡ true
  unfolding all_selected
  all_selected-visible items [] selected h = refl
  all_selected-visible items (i ∷ is) selected h =
      go (get_elem? items i) refl
        (all_selected-visible items is selected (λ id v. h id (ground arith)))
    where
      go :
          (o : Option (Approval Time))
          → get_elem? items i ≡ o
          → all_selected items is selected ≡ true
          → all_selected items (i ∷ is) selected ≡ true
      go none e ih = ground arith
      go (some x) e ih = ground (arith, h x.id, text_eq_refl x.id)

module _ {Table Time : Type 0} where
  -- Exactly the selected ids of loaded items are acted on.
  pub mem-selected_ids :
      (id : Text) (m : InboxModel Table Time)
      → mem id (selected_ids m) ≡ (mem id m.selected && has_item m.items id)
  unfolding selected_ids
  mem-selected_ids id m = go m.selected
    where
      go :
          (sel : List Text)
          → mem id (if is_empty sel then [] else ids_in sel m.items)
            ≡ (mem id sel && has_item m.items id)
      go [] = unfold mem in refl
      go (x ∷ sel) = mem-ids_in id (x ∷ sel) m.items

  pub mem-select_all_filtered :
      (id : Text) (m : InboxModel Table Time)
      → mem id (select_all_filtered m).selected
        ≡ (mem id m.selected || visible m.items m.filtered id)
  unfolding select_all_filtered
  mem-select_all_filtered id m = mem-select_each id m.items m.filtered m.selected

  -- The key `b` with rows on the screen: if the id of every visible row is selected, the selection
  -- becomes empty; if that of some visible row is not, the ids of the visible rows join it.
  pub toggle_select_all_lem :
      (m : InboxModel Table Time)
      → is_empty m.filtered ≡ false
      → (((id : Text) → visible m.items m.filtered id ≡ true → mem id m.selected ≡ true)
          → (toggle_select_all m).selected ≡ [])
        × ((v id : Text)
            → visible m.items m.filtered v ≡ true
            → mem v m.selected ≡ false
            → mem id (toggle_select_all m).selected
              ≡ (mem id m.selected || visible m.items m.filtered id))
  unfolding toggle_select_all
  toggle_select_all_lem m some_rows = (
    λ h. rw (some_rows, all_selected-visible m.items m.filtered m.selected h),
    λ v id shown missing. rw (some_rows, not_all v shown missing) (mem-select_all_filtered id m),
  )
    where
      not_all :
          (v : Text)
          → visible m.items m.filtered v ≡ true
          → mem v m.selected ≡ false
          → all_selected m.items m.filtered m.selected ≡ false
      not_all v shown missing = ground (arith, visible-all_selected v m.items m.filtered m.selected)

  mem-toggle_selected :
      (api : TableApi Text Table) (m : InboxModel Table Time) (id : Text) (a : Approval Time)
      → selected_item api m ≡ some a
      → mem id (toggle_selected api m).selected
        ≡ (if text_eq id a.id then not (mem id m.selected) else mem id m.selected)
  unfolding toggle_selected
  mem-toggle_selected api m id a e =
      rw (e, toggle_selected)
        (ground (
          arith,
          mem-insert a.id id m.selected,
          mem-remove a.id id m.selected,
          text_eq_iff id a.id,
        ))
