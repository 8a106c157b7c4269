-- ===== src/Inbox/Targets.antt =====
-- The requests that the inbox acts on: the selected ones, or else the one in detail, or else the one
-- under the cursor (inbox.go: approveSelected).
use nebula_core.Prelude.{
  ◌≡◌, refl, Bool, false, not, ◌&&◌, Option, none, some, List, [], ◌∷◌, arith, is_empty, any,
  if◌then◌else◌,
}
use nebula_core.Text.{Text, text_eq}
use nebula_core.StringSet.{mem}
use nebula_core.Inbox.State.{
  Approval, InboxModel, Cmd, no_cmd, load_approvals, load_approval_diff, approve_requests,
  approve_with_input, reject_requests, scope_required,
}
use nebula_core.Inbox.Select.{Env, selected_item, ids_in, selected_ids}
use nebula_core.Inbox.Selection.{has_item, mem-selected_ids}
use nebula_core.Inbox.Flow.{target_ids, approve_selected}

-- The ids that a command approves.
abbrev pub approved : Cmd → List Text
approved (approve_requests ids) = ids
approved (approve_with_input id scopes trusted) = id ∷ []
approved no_cmd = []
approved load_approvals = []
approved (load_approval_diff id) = []
approved (reject_requests ids notes) = []
approved scope_required = []

module _ {Time : Type 0} where
  is_empty-ids_in :
      (selected : List Text) (items : List (Approval Time))
      → is_empty (ids_in selected items) ≡ not (any (λ a. mem a.id selected) items)
  unfolding ids_in
  is_empty-ids_in selected [] = refl
  is_empty-ids_in selected (item ∷ items) = ground (arith, is_empty-ids_in selected items)

  none_selected : (items : List (Approval Time)) → any (λ a. mem a.id []) items ≡ false
  unfolding mem
  none_selected [] = refl
  none_selected (item ∷ items) = none_selected items

  -- The approval has the id.
  abbrev pub names : Option (Approval Time) → Text → Bool
  names none id = false
  names (some a) id = text_eq id a.id

module _ {Table Time Duration : Type 0} (env : Env Table Time Duration) where
  -- The approval in detail has the id, or, without one, that under the cursor.
  abbrev pub falls_back : InboxModel Table Time → Text → Bool
  falls_back m id = elim m.detail [
    | none ↦ names (selected_item env.table_api m) id
    | some a ↦ text_eq id a.id
  ]

  -- The id of some loaded item is selected.
  abbrev pub some_selected : InboxModel Table Time → Bool
  some_selected m = any (λ a. mem a.id m.selected) m.items

  is_empty-selected_ids :
      (m : InboxModel Table Time) → is_empty (selected_ids m) ≡ not (some_selected m)
  unfolding selected_ids
  is_empty-selected_ids m = go m.selected
    where
      go :
          (sel : List Text)
          → is_empty (if is_empty sel then [] else ids_in sel m.items)
            ≡ not (any (λ a. mem a.id sel) m.items)
      go [] = ground (arith, none_selected m.items)
      go (x ∷ sel) = is_empty-ids_in (x ∷ sel) m.items

  mem-target_ids :
      (id : Text) (m : InboxModel Table Time)
      → mem id (target_ids env m)
        ≡ (if some_selected m then mem id m.selected && has_item m.items id else falls_back m id)
  unfolding target_ids mem
  mem-target_ids id m =
      go m.detail (selected_item env.table_api m) (selected_ids m) (is_empty-selected_ids m)
        (mem-selected_ids id m)
    where
      go :
          (d o : Option (Approval Time)) (ids : List Text)
          → is_empty ids ≡ not (some_selected m)
          → mem id ids ≡ (mem id m.selected && has_item m.items id)
          → mem id (
              let ids' = if is_empty ids then elim d [ none ↦ [] | some a ↦ a.id ∷ [] ] else ids in
              if is_empty ids' then elim o [ none ↦ [] | some a ↦ a.id ∷ [] ] else ids')
            ≡ (if some_selected m
                then mem id m.selected && has_item m.items id
                else elim d [ none ↦ names o id | some a ↦ text_eq id a.id ])
      go d o (x ∷ ids) e h = ground arith
      go none none [] e h = ground arith
      go none (some b) [] e h = ground arith
      go (some a) o [] e h = ground arith

  abbrev answer : InboxModel Table Time → List Text → InboxModel Table Time × Cmd
  answer m ids =
      if is_empty ids then (m, no_cmd) else (record m { detail = none }, approve_requests ids)

  approved-approve_selected :
      (m : InboxModel Table Time) → approved (approve_selected env m).1 ≡ target_ids env m
  unfolding approve_selected
  approved-approve_selected m = go (target_ids env m)
    where
      go : (ids : List Text) → approved (answer m ids).1 ≡ ids
      go [] = refl
      go (x ∷ ids) = refl

  -- If the id of some loaded item is selected, approving approves exactly the selected ids of loaded
  -- items; if none is, exactly the id in detail, or, with nothing in detail, that of the row under
  -- the cursor, if there is one.
  pub mem-approve_selected :
      (id : Text) (m : InboxModel Table Time)
      → mem id (approved (approve_selected env m).1)
        ≡ (if some_selected m then mem id m.selected && has_item m.items id else falls_back m id)
  mem-approve_selected id m = rw (approved-approve_selected m) (mem-target_ids id m)
