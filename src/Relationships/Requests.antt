-- ===== src/Relationships/Requests.antt =====
-- The writes that a key may ask for, and the keys of the views that edit.
use nebula_core.Prelude.{
  ◌≡◌, refl, Bool, true, false, ◌||◌, Option, none, some, [], ◌∷◌, if_cases, is_empty, get_elem?,
}
use nebula_core.Text.{Text, codes}
use nebula_core.Keys.{KeyPressMsg, is_key, is_back, is_up, is_down, is_enter}
use nebula_core.Relationships.State.{
  Relationship, view_edit, view_confirm, create_type, Candidate, ScreenEnv, RelCmd, nothing,
  area_cmd, load_relationships, load_names, search_nodes, update_relationship, create_relationship,
  status_options,
}
use nebula_core.Relationships.Listing.{
  Model, selected_relationship, save_inline_notes, notes_edit_keys,
}
use nebula_core.Relationships.Create.{chosen_kind, input_of}
use nebula_core.Relationships.Update.{
  notes_input, save_edit, edit_keys, confirm_archive, archive_keys,
}

abbrev pub is_write : RelCmd → Bool
is_write nothing = false
is_write area_cmd = false
is_write load_relationships = false
is_write (load_names items) = false
is_write (search_nodes query) = false
is_write (update_relationship id input) = true
is_write (create_relationship input) = true

module _ {Table Area : Type 0} (env : ScreenEnv Table Area) where
  -- The writes that a key may ask for: the notes typed beside the list, the edited status and
  -- notes, the archive that was confirmed, and the relationship of which both ends were chosen.
  pub data Consent (m : Model env) (k : KeyPressMsg) : RelCmd → Type 0 where
    reads : (c : RelCmd) → is_write c ≡ false → Consent m k c
    saves_notes :
        (r : Relationship)
        → m.notes_editing ≡ true
        → is_key k (codes "ctrl+s" ∷ []) ≡ true
        → selected_relationship env m ≡ some r
        → Consent m k (
            update_relationship r.id
              (record { status = none; notes = env.area_api.value m.notes_textarea }))
    saves_edit :
        (r : Relationship) (status : Text)
        → m.view ≡ view_edit
        → m.edit_saving ≡ false
        → is_key k (codes "ctrl+s" ∷ []) ≡ true
        → m.detail ≡ some r
        → get_elem? status_options m.edit_status_idx ≡ some status
        → Consent m k (
            update_relationship r.id
              (record { status = some status; notes = notes_input env m.edit_meta.buffer }))
    archives :
        (r : Relationship)
        → m.view ≡ view_confirm
        → (is_key k (codes "y" ∷ []) || is_enter k) ≡ true
        → m.detail ≡ some r
        → Consent m k
            (update_relationship r.id (record { status = some (codes "inactive"); notes = [] }))
    creates :
        (source target : Candidate)
        → m.view ≡ create_type
        → is_enter k ≡ true
        → m.create_source ≡ some source
        → m.create_target ≡ some target
        → is_empty (chosen_kind env m) ≡ false
        → Consent m k (create_relationship (input_of env source target (chosen_kind env m)))

  module _ (m : Model env) (k : KeyPressMsg) where
    abbrev pub Asks : Model env × RelCmd → Type 0
    Asks r = Consent m k r.1

    abbrev pub AsksIf : Option (Model env × RelCmd) → Type 0
    AsksIf none = Unit
    AsksIf (some r) = Asks r

    pub idle : Consent m k nothing
    idle = reads nothing refl

    save_inline_notes-Asks :
        m.notes_editing ≡ true
        → is_key k (codes "ctrl+s" ∷ []) ≡ true
        → Asks (save_inline_notes env m)
    unfolding save_inline_notes
    save_inline_notes-Asks e h = by_selected (selected_relationship env m) refl
      where
        by_selected :
            (o : Option Relationship)
            → selected_relationship env m ≡ o
            → Asks (elim o [
              | none ↦ (record m { notes_editing = false }, nothing)
              | some r ↦ (
                m,
                update_relationship r.id
                    (record { status = none; notes = env.area_api.value m.notes_textarea }),
              )
            ])
        by_selected none p = idle
        by_selected (some r) p = saves_notes r e h p

    pub notes_edit_keys-Asks : m.notes_editing ≡ true → Asks (notes_edit_keys env k m)
    unfolding notes_edit_keys
    notes_edit_keys-Asks e =
        if_cases Asks (is_back k) _ _ (λ _. idle)
          λ _.
            if_cases Asks (is_key k (codes "ctrl+s" ∷ [])) _ _ (λ h. save_inline_notes-Asks e h)
              (λ _. reads area_cmd refl)

    save_edit-Asks :
        m.view ≡ view_edit
        → m.edit_saving ≡ false
        → is_key k (codes "ctrl+s" ∷ []) ≡ true
        → AsksIf (save_edit env m)
    unfolding save_edit
    save_edit-Asks e s h = by_detail m.detail refl
      where
        by_status :
            (r : Relationship)
            → m.detail ≡ some r
            → (o : Option Text) → get_elem? status_options m.edit_status_idx ≡ o
            → AsksIf (elim o [
              | none ↦ none
              | some status ↦ some (
                record m { edit_saving = true },
                update_relationship r.id
                    (record { status = some status; notes = notes_input env m.edit_meta.buffer }),
              )
            ])
        by_status r p none q = tt
        by_status r p (some status) q = saves_edit r status e s h p q

        by_detail :
            (d : Option Relationship)
            → m.detail ≡ d
            → AsksIf (elim d [
              | none ↦ some (m, nothing)
              | some r ↦ elim (get_elem? status_options m.edit_status_idx) [
                | none ↦ none
                | some status ↦ some (
                  record m { edit_saving = true },
                  update_relationship r.id
                      (record { status = some status; notes = notes_input env m.edit_meta.buffer }),
                )
              ]
            ])
        by_detail none p = idle
        by_detail (some r) p = by_status r p (get_elem? status_options m.edit_status_idx) refl

    pub edit_keys-Asks : m.view ≡ view_edit → AsksIf (edit_keys env k m)
    unfolding edit_keys
    edit_keys-Asks e =
        if_cases AsksIf m.edit_saving _ _ (λ _. idle)
          λ s.
            if_cases AsksIf (is_down k) _ _ (λ _. idle)
              λ _.
                if_cases AsksIf (is_up k) _ _ (λ _. idle)
                  λ _.
                    if_cases AsksIf (is_back k) _ _ (λ _. idle)
                      λ _.
                        if_cases AsksIf (is_key k (codes "ctrl+s" ∷ [])) _ _
                          (λ h. save_edit-Asks e s h)
                          λ _.
                            if_cases AsksIf (is_key k (codes "backspace" ∷ [])) _ _ (λ _. idle)
                              (λ _. idle)

    pub archive_keys-Asks : m.view ≡ view_confirm → Asks (archive_keys env k m)
    unfolding archive_keys confirm_archive
    archive_keys-Asks e =
        if_cases Asks (is_key k (codes "y" ∷ []) || is_enter k) _ _ (λ h. confirmed h m.detail refl)
          λ _. if_cases Asks (is_key k (codes "n" ∷ []) || is_back k) _ _ (λ _. idle) (λ _. idle)
      where
        confirmed :
            (is_key k (codes "y" ∷ []) || is_enter k) ≡ true
            → (d : Option Relationship) → m.detail ≡ d
            → Asks (confirm_archive env d m)
        confirmed h none p = idle
        confirmed h (some r) p = archives r e h p
