-- ===== src/Relationships/Valid.antt =====
-- Every view has what it shows.
use nebula_core.Prelude.{
  ◌<◌, ◌≡◌, refl, Bool, true, false, ◌||◌, Option, none, some, List, [], ◌∷◌, if_cases, arith,
}
use nebula_core.Text.{Text, codes}
use nebula_core.Keys.{KeyPressMsg, is_key, is_up, is_down, is_enter, is_space}
use nebula_core.Editor.Valid.{IsValid as EditorIsValid}
use nebula_core.Relationships.State.{
  Relationship, RelationshipsView, view_list, view_detail, view_edit, view_confirm,
  create_source_search, create_source_select, create_target_search, create_target_select,
  create_type, Candidate, ScreenEnv, RelationshipsModel, RelCmd,
}
use nebula_core.Relationships.Listing.{
  Model, apply_list_filter, start_create, filter_keys, open_relationship, edit_notes, list_up,
  browse_list, list_view_keys, save_inline_notes, notes_edit_keys, is_add, toggle_mode,
  mode_line_keys,
}
use nebula_core.Relationships.Create.{show_results}
use nebula_core.Relationships.Update.{on_loaded, on_results}

abbrev pub is_some : {A : Type 0} → Option A → Bool
is_some none = false
is_some (some a) = true

-- What the views need: a relationship to show, a source, and a source and a target. No key leads
-- to the views that only select.
abbrev pub Fits :
    RelationshipsView → Option Relationship → Option Candidate → Option Candidate → Type 0
Fits view_list d s t = Unit
Fits view_detail d s t = is_some d ≡ true
Fits view_edit d s t = is_some d ≡ true
Fits view_confirm d s t = is_some d ≡ true
Fits create_source_search d s t = Unit
Fits create_source_select d s t = ⊥
Fits create_target_search d s t = is_some s ≡ true
Fits create_target_select d s t = ⊥
Fits create_type d s t = (is_some s ≡ true) × (is_some t ≡ true)

module _ {Table Area : Type 0} where
  pub record IsValid (m : RelationshipsModel Table Area) : Type 0 where
    pub fits : Fits m.view m.detail m.create_source m.create_target
    pub status_in : m.edit_status_idx < 2
    pub focus_in : m.edit_focus < 2
    pub editor_in : EditorIsValid m.edit_meta

  abbrev pub ValidStep : RelationshipsModel Table Area × RelCmd → Type 0
  ValidStep r = IsValid r.0

  abbrev pub EndsValid : Option (RelationshipsModel Table Area × RelCmd) → Type 0
  EndsValid none = ⊥
  EndsValid (some r) = IsValid r.0

  -- What validity speaks of is left as it is.
  abbrev pub Kept : RelationshipsModel Table Area → RelationshipsModel Table Area → Type 0
  Kept m r =
      (r.view ≡ m.view)
      × (r.detail ≡ m.detail)
      × (r.create_source ≡ m.create_source)
      × (r.create_target ≡ m.create_target)
      × (r.edit_status_idx ≡ m.edit_status_idx)
      × (r.edit_focus ≡ m.edit_focus)
      × (r.edit_meta ≡ m.edit_meta)

  pub IsValid-of_Kept : (m r : RelationshipsModel Table Area) → Kept m r → IsValid m → IsValid r
  IsValid-of_Kept m r (a, b, c, d, e, f, g) v = record {
    fits = rw (a, b, c, d) v.fits;
    status_in = rw e v.status_in;
    focus_in = rw f v.focus_in;
    editor_in = rw g v.editor_in;
  }

module _ {Table Area : Type 0} (env : ScreenEnv Table Area) (m : Model env) where
  pub on_results-Kept :
      (query : Text) (found : List Candidate) → Kept m (on_results env query found m)
  unfolding on_results show_results
  on_results-Kept query found = ground arith

  pub on_loaded-Kept : (items : List Relationship) → Kept m (on_loaded env items m)
  unfolding on_loaded apply_list_filter
  on_loaded-Kept items = (refl, refl, refl, refl, refl, refl, refl)

module _ {Table Area : Type 0} (env : ScreenEnv Table Area) (m : Model env) (k : KeyPressMsg) where
  filter_keys-Kept : Kept m (filter_keys env k m)
  unfolding filter_keys apply_list_filter
  filter_keys-Kept = ground arith

  list_up-Kept : Kept m (list_up env m)
  unfolding list_up
  list_up-Kept = ground arith

  edit_notes-Kept : Kept m (edit_notes env m)
  unfolding edit_notes
  edit_notes-Kept = ground arith

  pub notes_edit_keys-Kept : Kept m (notes_edit_keys env k m).0
  unfolding notes_edit_keys save_inline_notes
  notes_edit_keys-Kept = ground arith

  module _ (v : IsValid m) where
    pub to_list-IsValid : IsValid (record m { view = view_list })
    to_list-IsValid = record {
      fits = tt;
      status_in = v.status_in;
      focus_in = v.focus_in;
      editor_in = v.editor_in;
    }

    open_relationship-IsValid : IsValid (open_relationship env m)
    unfolding open_relationship
    open_relationship-IsValid = ground arith

    browse_list-IsValid : IsValid (browse_list env k m)
    unfolding browse_list start_create
    browse_list-IsValid =
        if_cases IsValid (is_down k) _ _ (λ _. ground arith)
          λ _.
            if_cases IsValid (is_up k) _ _ (λ _. IsValid-of_Kept m (list_up env m) list_up-Kept v)
              λ _.
                if_cases IsValid (is_enter k || is_space k) _ _ (λ _. open_relationship-IsValid)
                  λ _.
                    if_cases IsValid (is_key k (codes "f" ∷ [])) _ _ (λ _. ground arith)
                      λ _.
                        if_cases IsValid (is_key k (codes "e" ∷ [])) _ _
                          (λ _. IsValid-of_Kept m (edit_notes env m) edit_notes-Kept v)
                          λ _.
                            if_cases IsValid (is_key k (codes "n" ∷ [])) _ _ (λ _. ground arith)
                              (λ _. v)

    pub list_view_keys-IsValid : IsValid (list_view_keys env k m)
    unfolding list_view_keys
    list_view_keys-IsValid =
        if_cases IsValid m.filtering _ _
          (λ _. IsValid-of_Kept m (filter_keys env k m) filter_keys-Kept v)
          (λ _. browse_list-IsValid)

    toggle_mode-IsValid : IsValid (toggle_mode env m)
    unfolding toggle_mode start_create
    toggle_mode-IsValid =
        if_cases IsValid (is_add env m.view) _ _ (λ _. ground arith) (λ _. ground arith)

    pub mode_line_keys-IsValid : IsValid (mode_line_keys env k m)
    unfolding mode_line_keys
    mode_line_keys-IsValid = ground (arith, toggle_mode-IsValid)
