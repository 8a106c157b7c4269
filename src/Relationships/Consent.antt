-- ===== src/Relationships/Consent.antt =====
-- What the screen asks the server to write, and on which key.
use nebula_core.Prelude.{
  ◌≡◌, refl, subst, true, ◌&&◌, ◌||◌, Option, none, some, ◌++◌, if_cases, is_empty, init,
}
use nebula_core.Text.{codes, text_eq, trim_space}
use nebula_core.Keys.{KeyPressMsg, is_key, is_back, is_up, is_down, is_enter, key_text}
use nebula_core.Editor.Keys.{Outcome, handle_key}
use nebula_core.Relationships.State.{
  RelationshipsView, view_list, view_detail, view_edit, view_confirm, create_source_search,
  create_source_select, create_target_search, create_target_select, create_type, Candidate,
  ScreenEnv, pressed, RelCmd, nothing, search_nodes,
}
use nebula_core.Relationships.Listing.{Model}
use nebula_core.Relationships.Create.{
  clear_keys, erase_keys, has_cache, update_create_search, choose_source, choose_target, type_query,
  search_step, select_step, chosen_kind, finish, type_step,
}
use nebula_core.Relationships.Update.{view_keys, editor_keys, on_press, rel_update}
use nebula_core.Relationships.Requests.{
  Consent, reads, creates, Asks, AsksIf, idle, notes_edit_keys-Asks, edit_keys-Asks,
  archive_keys-Asks,
}

module _ {Table Area : Type 0} (env : ScreenEnv Table Area) where
  module _ (m : Model env) (k : KeyPressMsg) where
    abbrev Allowed : Model env × RelCmd → Type 0
    Allowed = Asks env m k

    abbrev AllowedIf : Option (Model env × RelCmd) → Type 0
    AllowedIf = AsksIf env m k

    nothing_asked : Consent env m k nothing
    nothing_asked = idle env m k

    searched : (q : Model env) → Allowed (update_create_search env q)
    unfolding update_create_search
    searched q =
        if_cases Allowed (is_empty (trim_space q.create_query)) _ _ (λ _. nothing_asked)
          (λ _.
            if_cases Allowed (has_cache env q) _ _ (λ _. nothing_asked)
              (λ _. reads (search_nodes (trim_space q.create_query)) refl))

    search_step-Allowed :
        (back : RelationshipsView) (choose : Candidate → Model env → Model env)
        → Allowed (search_step env back choose k m)
    unfolding search_step type_query
    search_step-Allowed back choose =
        if_cases Allowed (is_back k || is_key k (clear_keys)) _ _ (λ _. nothing_asked)
          λ _.
            if_cases Allowed (is_down k) _ _ (λ _. nothing_asked)
              λ _.
                if_cases Allowed (is_up k) _ _ (λ _. nothing_asked)
                  λ _.
                    if_cases Allowed (is_enter k) _ _ (λ _. nothing_asked)
                      λ _.
                        if_cases Allowed (is_key k (erase_keys)) _ _
                          (λ _.
                            if_cases Allowed (is_empty m.create_query) _ _ (λ _. nothing_asked)
                              (λ _. searched (record m { create_query = init m.create_query })))
                          (λ _.
                            if_cases Allowed
                              (is_empty (key_text k)
                                || (text_eq (key_text k) (codes " ") && is_empty m.create_query))
                              _ _ (λ _. nothing_asked)
                              (λ _.
                                searched
                                  (record m { create_query = m.create_query ++ key_text k })))

    select_step-Allowed :
        (back : RelationshipsView) (choose : Candidate → Model env → Model env)
        → Allowed (select_step env back choose k m)
    unfolding select_step
    select_step-Allowed back choose =
        if_cases Allowed (is_back k) _ _ (λ _. nothing_asked)
          λ _.
            if_cases Allowed (is_down k) _ _ (λ _. nothing_asked)
              λ _.
                if_cases Allowed (is_up k) _ _ (λ _. nothing_asked)
                  (λ _. if_cases Allowed (is_enter k) _ _ (λ _. nothing_asked) (λ _. nothing_asked))

    finish-Allowed :
        m.view ≡ create_type
        → is_enter k ≡ true
        → (s t : Option Candidate) → m.create_source ≡ s
        → m.create_target ≡ t
        → Allowed (finish env s t (chosen_kind env m) m)
    unfolding finish
    finish-Allowed e h none t p q = nothing_asked
    finish-Allowed e h (some s) none p q = nothing_asked
    finish-Allowed e h (some s) (some t) p q =
        if_cases Allowed (is_empty (chosen_kind env m)) _ _ (λ _. nothing_asked)
          (λ n. creates s t e h p q n)

    type_step-Allowed : m.view ≡ create_type → Allowed (type_step env k m)
    unfolding type_step
    type_step-Allowed e =
        if_cases Allowed (is_back k) _ _ (λ _. nothing_asked)
          λ _.
            if_cases Allowed (is_down k) _ _ (λ _. nothing_asked)
              λ _.
                if_cases Allowed (is_up k) _ _ (λ _. nothing_asked)
                  λ _.
                    if_cases Allowed (is_enter k) _ _
                      (λ h. finish-Allowed e h m.create_source m.create_target refl refl)
                      λ _.
                        if_cases Allowed (is_key k (erase_keys)) _ _ (λ _. nothing_asked)
                          λ _.
                            if_cases Allowed (is_key k (clear_keys)) _ _ (λ _. nothing_asked)
                              (λ _. nothing_asked)

    view_keys-Allowed : (w : RelationshipsView) → m.view ≡ w → AllowedIf (view_keys env w k m)
    unfolding view_keys
    view_keys-Allowed view_list e = nothing_asked
    view_keys-Allowed view_detail e = nothing_asked
    view_keys-Allowed view_edit e = edit_keys-Asks env m k e
    view_keys-Allowed view_confirm e = archive_keys-Asks env m k e
    view_keys-Allowed create_source_search e = search_step-Allowed view_list (choose_source env)
    view_keys-Allowed create_source_select e =
        select_step-Allowed create_source_search (choose_source env)
    view_keys-Allowed create_target_search e =
        search_step-Allowed create_source_search (choose_target env)
    view_keys-Allowed create_target_select e =
        select_step-Allowed create_target_search (choose_target env)
    view_keys-Allowed create_type e = type_step-Allowed e

    editor_keys-Allowed : AllowedIf (editor_keys env k m)
    unfolding editor_keys
    editor_keys-Allowed = by_outcome (handle_key env.editor_env k m.edit_meta)
      where
        by_outcome :
            (o : Outcome env.editor_env)
            → AllowedIf
                (elim o [ none ↦ none | some r ↦ some (record m { edit_meta = r.0 }, nothing) ])
        by_outcome none = tt
        by_outcome (some r) = nothing_asked

    on_press-Allowed : AllowedIf (on_press env k m)
    unfolding on_press
    on_press-Allowed =
        if_cases AllowedIf m.notes_editing _ _ (λ e. notes_edit_keys-Asks env m k e)
          λ _.
            if_cases AllowedIf m.edit_meta.active _ _ (λ _. editor_keys-Allowed)
              λ _.
                if_cases AllowedIf m.mode_focus _ _ (λ _. nothing_asked)
                  (λ _. view_keys-Allowed m.view refl)

    -- A key asks for a write only with consent: of the notes, the edited relationship or the archive
    -- that are shown, or of a new relationship between the two ends that were chosen.
    pub rel_update-Consent :
        (r : Model env × RelCmd) → rel_update env (pressed k) m ≡ some r → Consent env m k r.1
    unfolding rel_update
    rel_update-Consent r h = subst AllowedIf h on_press-Allowed
