-- ===== src/Relationships/Editing.antt =====
-- The edit view keeps its indices in range, and the editor on it valid.
use nebula_core.Prelude.{
  ℕ, ◌+◌, ◌-◌, ◌%◌, ◌<◌, ◌≡◌, refl, subst, subst⁻¹, true, false, ◌&&◌, ◌||◌, Option, none, some,
  List, [], ◌∷◌, if_cases, arith, ltb, ◌==◌, get_elem?, length,
}
use native.Mathlib.Nat.{mod-lt}
use nebula_core.Text.{Text, codes, text_eq}
use nebula_core.Keys.{KeyPressMsg, is_key, is_back, is_up, is_down, is_enter, is_space}
use nebula_core.Editor.State.{MetadataEditor, EditorEnv, reset, set_scope_options}
use nebula_core.Editor.Valid.{IsValid as EditorIsValid, get_some}
use nebula_core.Relationships.State.{
  Relationship, RelationshipsView, view_detail, view_edit, ScreenEnv, nothing, update_relationship,
  status_options,
}
use nebula_core.Relationships.Listing.{Model}
use nebula_core.Relationships.Update.{
  index_from, status_index, start_edit, notes_input, save_edit, field_keys, edit_keys,
}
use nebula_core.Relationships.Valid.{is_some, Fits, IsValid, EndsValid, IsValid-of_Kept}

index_from-bound :
    (i : ℕ) (os : List Text) (value : Text)
    → 0 < i + length os
    → index_from i os value < i + length os
unfolding index_from
index_from-bound i [] value h = h
index_from-bound i (o ∷ []) value h =
    if_cases (λ j. j < i + 1) (text_eq o value) _ _ (λ _. omega arith) (λ _. omega arith)
index_from-bound i (o ∷ p ∷ os) value h =
    let later = index_from-bound (i + 1) (p ∷ os) value (omega arith) in
    if_cases (λ j. j < i + length (o ∷ p ∷ os)) (text_eq o value) _ _ (λ _. omega arith)
      (λ _. omega (arith, later))

module _ {Table : Type 0} (env : EditorEnv Table) (m : MetadataEditor Table)
    (v : EditorIsValid m) where
  some_option : 0 < length m.scope_options
  some_option = omega (arith, v.scope_in)

  reset-EditorIsValid : (notes : Text) → EditorIsValid (record (reset env m) { buffer = notes })
  unfolding reset
  reset-EditorIsValid notes = record {
    scope_in = some_option;
    apart = refl;
    inspect_in = λ h. absurd (ground arith);
    selected_in = tt;
    selected_once = tt;
    paths_once = tt;
  }

  activated : EditorIsValid (record m { active = true })
  activated = record {
    scope_in = v.scope_in;
    apart = v.apart;
    inspect_in = v.inspect_in;
    selected_in = v.selected_in;
    selected_once = v.selected_once;
    paths_once = v.paths_once;
  }

  pub options_set :
      (options : List Text) → 0 < length options → EditorIsValid (set_scope_options options m)
  unfolding set_scope_options
  options_set options h = record {
    scope_in = ground arith;
    apart = v.apart;
    inspect_in = v.inspect_in;
    selected_in = v.selected_in;
    selected_once = v.selected_once;
    paths_once = v.paths_once;
  }

module _ {Table Area : Type 0} (env : ScreenEnv Table Area) where
  module _ (m : Model env) (v : IsValid m) where
    pub shown :
        (w : RelationshipsView) → m.view ≡ w → Fits w m.detail m.create_source m.create_target
    shown w e = subst (λ w. Fits w m.detail m.create_source m.create_target) e v.fits

    pub moved_to :
        (w : RelationshipsView)
        → Fits w m.detail m.create_source m.create_target
        → IsValid (record m { view = w })
    moved_to w h = record {
      fits = h;
      status_in = v.status_in;
      focus_in = v.focus_in;
      editor_in = v.editor_in;
    }

    pub start_edit-IsValid :
        is_some m.detail ≡ true → IsValid (record (start_edit env m) { view = view_edit })
    unfolding start_edit status_index
    start_edit-IsValid h = by_detail m.detail
      where
        by_detail :
            (d : Option Relationship)
            → IsValid
                (record (elim d [
                  | none ↦ m
                  | some r ↦ record m {
                    edit_focus = 0;
                    edit_status_idx = index_from 0 status_options r.status;
                    edit_meta = record (reset env.editor_env m.edit_meta) { buffer = r.notes };
                    edit_saving = false;
                  }
                ]) { view = view_edit })
        by_detail none = moved_to view_edit h
        by_detail (some r) = record {
          fits = h;
          status_in = index_from-bound 0 status_options r.status (omega arith);
          focus_in = omega arith;
          editor_in = reset-EditorIsValid env.editor_env m.edit_meta v.editor_in r.notes;
        }

    save_edit-Ends : EndsValid (save_edit env m)
    unfolding save_edit
    save_edit-Ends = by_detail m.detail
      where
        Saved : Relationship → Option Text → Type 0
        Saved r o = EndsValid (elim o [
          | none ↦ none
          | some status ↦ some (
            record m { edit_saving = true },
            update_relationship r.id
                (record { status = some status; notes = notes_input env m.edit_meta.buffer }),
          )
        ])

        saving : IsValid (record m { edit_saving = true })
        saving =
            IsValid-of_Kept m (record m { edit_saving = true })
              (refl, refl, refl, refl, refl, refl, refl) v

        by_detail :
            (d : Option Relationship)
            → EndsValid (elim d [
              | none ↦ some (m, nothing)
              | some r ↦ elim (get_elem? status_options m.edit_status_idx) [
                | none ↦ none
                | some status ↦ some (
                  record m { edit_saving = true },
                  update_relationship r.id
                      (record { status = some status; notes = notes_input env m.edit_meta.buffer }),
                )
              ]
            ])
        by_detail none = v
        by_detail (some r) =
            let status = get_some status_options m.edit_status_idx v.status_in in
            subst⁻¹ (Saved r) status.1 saving

    turned : (i : ℕ) → IsValid (record m { edit_status_idx = i % 2 })
    turned i = record {
      fits = v.fits;
      status_in = mod-lt i {m = 2} (omega arith);
      focus_in = v.focus_in;
      editor_in = v.editor_in;
    }

    focused : (i : ℕ) → IsValid (record m { edit_focus = i % 2 })
    focused i = record {
      fits = v.fits;
      status_in = v.status_in;
      focus_in = mod-lt i {m = 2} (omega arith);
      editor_in = v.editor_in;
    }

    field_keys-IsValid : (k : KeyPressMsg) → IsValid (field_keys env k m)
    unfolding field_keys
    field_keys-IsValid k =
        if_cases IsValid (m.edit_focus == 0) _ _
          (λ _.
            if_cases IsValid (is_key k (codes "left" ∷ [])) _ _
              (λ _. turned (m.edit_status_idx + 2 - 1))
              (λ _.
                if_cases IsValid (is_key k (codes "right" ∷ []) || is_space k) _ _
                  (λ _. turned (m.edit_status_idx + 1)) (λ _. v)))
          (λ _.
            if_cases IsValid (m.edit_focus == 1 && is_enter k) _ _
              (λ _. record {
                fits = v.fits;
                status_in = v.status_in;
                focus_in = v.focus_in;
                editor_in = activated env.editor_env m.edit_meta v.editor_in;
              })
              (λ _. v))

    pub edit_keys-Ends : (k : KeyPressMsg) → m.view ≡ view_edit → EndsValid (edit_keys env k m)
    unfolding edit_keys
    edit_keys-Ends k e =
        if_cases EndsValid m.edit_saving _ _ (λ _. v)
          λ _.
            if_cases EndsValid (is_down k) _ _ (λ _. focused (m.edit_focus + 1))
              λ _.
                if_cases EndsValid (is_up k) _ _
                  (λ _.
                    if_cases IsValid (ltb 0 m.edit_focus) _ _ (λ _. focused (m.edit_focus - 1 + 2))
                      (λ _. v))
                  λ _.
                    if_cases EndsValid (is_back k) _ _
                      (λ _. moved_to view_detail (shown view_edit e))
                      λ _.
                        if_cases EndsValid (is_key k (codes "ctrl+s" ∷ [])) _ _
                          (λ _. save_edit-Ends)
                          λ _.
                            if_cases EndsValid (is_key k (codes "backspace" ∷ [])) _ _ (λ _. v)
                              (λ _. field_keys-IsValid k)
