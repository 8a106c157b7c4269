-- ===== src/Relationships/Wizard.antt =====
-- The steps of the wizard keep every view with what it shows.
use nebula_core.Prelude.{
  ◌≡◌, refl, true, ◌&&◌, ◌||◌, Option, none, some, [], if_cases, is_empty, arith,
}
use nebula_core.Text.{Text, codes, text_eq}
use nebula_core.Keys.{KeyPressMsg, is_key, is_back, is_up, is_down, is_enter, key_text}
use nebula_core.Relationships.State.{
  RelationshipsView, create_target_search, create_type, Candidate, ScreenEnv, picked,
}
use nebula_core.Relationships.Listing.{Model}
use nebula_core.Relationships.Create.{
  clear_keys, erase_keys, clear_search, show_suggestions, reset_type_suggestions,
  update_type_suggestions, show_results, update_create_search, choose_source, choose_target,
  choose_candidate, leave_search, type_query, search_step, chosen_kind, finish, type_kind,
  move_suggestion, type_text, type_step,
}
use nebula_core.Relationships.Valid.{is_some, Fits, IsValid, ValidStep, Kept, IsValid-of_Kept}

module _ {Table Area : Type 0} (env : ScreenEnv Table Area) (m : Model env) where
  update_create_search-Kept : Kept m (update_create_search env m).0
  unfolding update_create_search show_results
  update_create_search-Kept = ground arith

module _ {Table Area : Type 0} (env : ScreenEnv Table Area) (m : Model env) (k : KeyPressMsg) where
  type_text-Kept : Kept m (type_text env k m)
  unfolding type_text type_kind update_type_suggestions show_suggestions
  type_text-Kept = ground arith

  module _ (v : IsValid m) where
    leave_search-IsValid :
        (back : RelationshipsView)
        → Fits back m.detail m.create_source m.create_target
        → IsValid (leave_search env back m)
    unfolding leave_search clear_search
    leave_search-IsValid back h =
        if_cases IsValid (is_empty m.create_query) _ _
          (λ _. record {
            fits = h;
            status_in = v.status_in;
            focus_in = v.focus_in;
            editor_in = v.editor_in;
          })
          (λ _. record {
            fits = v.fits;
            status_in = v.status_in;
            focus_in = v.focus_in;
            editor_in = v.editor_in;
          })

    pub choose_source-IsValid : (item : Candidate) → IsValid (choose_source env item m)
    unfolding choose_source clear_search
    choose_source-IsValid item = record {
      fits = refl;
      status_in = v.status_in;
      focus_in = v.focus_in;
      editor_in = v.editor_in;
    }

    pub choose_target-IsValid :
        is_some m.create_source ≡ true → (item : Candidate) → IsValid (choose_target env item m)
    unfolding choose_target clear_search reset_type_suggestions show_suggestions
    choose_target-IsValid h item = record {
      fits = (h, refl);
      status_in = v.status_in;
      focus_in = v.focus_in;
      editor_in = v.editor_in;
    }

    searched :
        (query : Text) → ValidStep (update_create_search env (record m { create_query = query }))
    searched query =
        let next : Model env = record m { create_query = query } in
        IsValid-of_Kept next (update_create_search env next).0 (update_create_search-Kept env next)
          (record {
            fits = v.fits;
            status_in = v.status_in;
            focus_in = v.focus_in;
            editor_in = v.editor_in;
          })

    module _ (choose : Candidate → Model env → Model env)
        (chosen : (item : Candidate) → IsValid (choose item m)) where
      choose_candidate-IsValid : IsValid (choose_candidate env choose m)
      unfolding choose_candidate
      choose_candidate-IsValid = by_pick (picked env.table_api m.create_table m.create_results)
        where
          by_pick :
              (o : Option Candidate) → IsValid (elim o [ none ↦ m | some item ↦ choose item m ])
          by_pick none = v
          by_pick (some item) = chosen item

      module _ (back : RelationshipsView)
          (h : Fits back m.detail m.create_source m.create_target) where
        pub search_step-IsValid : ValidStep (search_step env back choose k m)
        unfolding search_step type_query
        search_step-IsValid =
            if_cases ValidStep (is_back k || is_key k (clear_keys)) _ _
              (λ _. leave_search-IsValid back h)
              λ _.
                if_cases ValidStep (is_down k) _ _ (λ _. ground arith)
                  λ _.
                    if_cases ValidStep (is_up k) _ _ (λ _. ground arith)
                      λ _.
                        if_cases ValidStep (is_enter k) _ _ (λ _. choose_candidate-IsValid)
                          λ _.
                            if_cases ValidStep (is_key k (erase_keys)) _ _
                              (λ _.
                                if_cases ValidStep (is_empty m.create_query) _ _ (λ _. v)
                                  (λ _. searched _))
                              (λ _.
                                if_cases ValidStep
                                  (is_empty (key_text k)
                                    || (text_eq (key_text k) (codes " ")
                                        && is_empty m.create_query))
                                  _ _ (λ _. v) (λ _. searched _))

    module _ (h : Fits create_type m.detail m.create_source m.create_target) where
      to_target-IsValid : IsValid (record m { view = create_target_search })
      to_target-IsValid = record {
        fits = h.0;
        status_in = v.status_in;
        focus_in = v.focus_in;
        editor_in = v.editor_in;
      }

      finish-IsValid : (s t : Option Candidate) (kind : Text) → ValidStep (finish env s t kind m)
      unfolding finish
      finish-IsValid none t kind = v
      finish-IsValid (some s) none kind = v
      finish-IsValid (some s) (some t) kind =
          if_cases ValidStep (is_empty kind) _ _ (λ _. v)
            (λ _. record {
              fits = tt;
              status_in = v.status_in;
              focus_in = v.focus_in;
              editor_in = v.editor_in;
            })

      kind_typed : (kind : Text) → IsValid (type_kind env kind m)
      unfolding type_kind update_type_suggestions show_suggestions
      kind_typed kind = record {
        fits = v.fits;
        status_in = v.status_in;
        focus_in = v.focus_in;
        editor_in = v.editor_in;
      }

      moved : (move : Table → Table) → IsValid (move_suggestion env move m)
      unfolding move_suggestion
      moved move = ground arith

      pub type_step-IsValid : ValidStep (type_step env k m)
      unfolding type_step
      type_step-IsValid =
          if_cases ValidStep (is_back k) _ _ (λ _. to_target-IsValid)
            λ _.
              if_cases ValidStep (is_down k) _ _ (λ _. moved env.table_api.move_down)
                λ _.
                  if_cases ValidStep (is_up k) _ _ (λ _. moved env.table_api.move_up)
                    λ _.
                      if_cases ValidStep (is_enter k) _ _
                        (λ _. finish-IsValid m.create_source m.create_target (chosen_kind env m))
                        λ _.
                          if_cases ValidStep (is_key k (erase_keys)) _ _
                            (λ _.
                              if_cases IsValid (is_empty m.create_kind) _ _ (λ _. v)
                                (λ _. kind_typed _))
                            λ _.
                              if_cases ValidStep (is_key k (clear_keys)) _ _
                                (λ _.
                                  if_cases IsValid (is_empty m.create_kind) _ _
                                    (λ _. to_target-IsValid) (λ _. kind_typed []))
                                (λ _. IsValid-of_Kept m (type_text env k m) type_text-Kept v)
