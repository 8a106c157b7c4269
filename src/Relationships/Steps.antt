-- ===== src/Relationships/Steps.antt =====
-- Every message keeps every view with what it shows.
use nebula_core.Prelude.{◌<◌, ◌≡◌, refl, subst⁻¹, Option, none, some, if_cases, length}
use nebula_core.Keys.{KeyPressMsg}
use nebula_core.Editor.Valid.{handle_key-IsValid}
use nebula_core.Relationships.State.{
  ScreenEnv, RelMsg, spinner_tick, loaded, names_loaded, scopes_loaded, entities_loaded,
  contexts_loaded, jobs_loaded, results, saved, notes_saved, failed, pressed, RelCmd, nothing,
}
use nebula_core.Relationships.Listing.{Model, apply_list_filter, notes_edit_keys}
use nebula_core.Relationships.Update.{editor_keys, on_press, rel_update}
use nebula_core.Relationships.Valid.{
  IsValid, EndsValid, Kept, IsValid-of_Kept, on_results-Kept, on_loaded-Kept, notes_edit_keys-Kept,
  mode_line_keys-IsValid,
}
use nebula_core.Relationships.Editing.{options_set}
use nebula_core.Relationships.Views.{view_keys-Ends}

-- The scope options that are loaded are not empty.
abbrev pub HasOptions : RelMsg → Type 0
HasOptions spinner_tick = Unit
HasOptions (loaded items) = Unit
HasOptions (names_loaded names) = Unit
HasOptions (scopes_loaded options) = 0 < length options
HasOptions (entities_loaded items) = Unit
HasOptions (contexts_loaded items) = Unit
HasOptions (jobs_loaded items) = Unit
HasOptions (results query found) = Unit
HasOptions saved = Unit
HasOptions notes_saved = Unit
HasOptions failed = Unit
HasOptions (pressed k) = Unit

module _ {Table Area : Type 0} (env : ScreenEnv Table Area) where
  module _ (m : Model env) (v : IsValid m) where
    editor_keys-Ends : (k : KeyPressMsg) → EndsValid (editor_keys env k m)
    unfolding editor_keys
    editor_keys-Ends k =
        let ends = handle_key-IsValid env.editor_env m.edit_meta k v.editor_in in
        subst⁻¹
          (λ o.
            EndsValid
              (elim o [ none ↦ none | some r ↦ some (record m { edit_meta = r.0 }, nothing) ]))
          ends.1
          (record {
            fits = v.fits;
            status_in = v.status_in;
            focus_in = v.focus_in;
            editor_in = ends.2;
          })

    on_press-Ends : (k : KeyPressMsg) → EndsValid (on_press env k m)
    unfolding on_press
    on_press-Ends k =
        if_cases EndsValid m.notes_editing _ _
          (λ _. IsValid-of_Kept m (notes_edit_keys env k m).0 (notes_edit_keys-Kept env m k) v)
          λ _.
            if_cases EndsValid m.edit_meta.active _ _ (λ _. editor_keys-Ends k)
              λ _.
                if_cases EndsValid m.mode_focus _ _ (λ _. mode_line_keys-IsValid env m k v)
                  (λ _. view_keys-Ends env m v k m.view refl)

    unchanged : {r : Model env} → Kept m r → IsValid r
    unchanged {r} h = IsValid-of_Kept m r h v

    same : Kept m m
    same = (refl, refl, refl, refl, refl, refl, refl)

    rel_update-Ends : (msg : RelMsg) → HasOptions msg → EndsValid (rel_update env msg m)
    unfolding rel_update apply_list_filter
    rel_update-Ends spinner_tick h = v
    rel_update-Ends (loaded items) h = unchanged (on_loaded-Kept env m items)
    rel_update-Ends (names_loaded names) h = unchanged same
    rel_update-Ends (scopes_loaded options) h = record {
      fits = v.fits;
      status_in = v.status_in;
      focus_in = v.focus_in;
      editor_in = options_set env.editor_env m.edit_meta v.editor_in options h;
    }
    rel_update-Ends (entities_loaded items) h = unchanged same
    rel_update-Ends (contexts_loaded items) h = unchanged same
    rel_update-Ends (jobs_loaded items) h = unchanged same
    rel_update-Ends (results query found) h = unchanged (on_results-Kept env m query found)
    rel_update-Ends saved h = record {
      fits = tt;
      status_in = v.status_in;
      focus_in = v.focus_in;
      editor_in = v.editor_in;
    }
    rel_update-Ends notes_saved h = unchanged same
    rel_update-Ends failed h = unchanged same
    rel_update-Ends (pressed k) h = on_press-Ends k

  ends_valid :
      (o : Option (Model env × RelCmd))
      → EndsValid o
      → (r : Model env × RelCmd) × (o ≡ some r) × IsValid r.0
  ends_valid (some r) h = (r, refl, h)
  ends_valid none h = absurd h

  -- The screen handles every message without a panic, and keeps every view with what it shows: while
  -- the scope options that it loads are not empty, a valid screen stays valid.
  pub rel_update-IsValid :
      (m : Model env) (msg : RelMsg)
      → HasOptions msg
      → IsValid m
      → (r : Model env × RelCmd) × (rel_update env msg m ≡ some r) × IsValid r.0
  rel_update-IsValid m msg h v = ends_valid (rel_update env msg m) (rel_update-Ends m v msg h)
