-- ===== src/Relationships/Views.antt =====
-- The keys of every view keep it with what it shows.
use nebula_core.Prelude.{◌≡◌, ◌||◌, Option, none, some, [], ◌∷◌, if_cases, arith}
use nebula_core.Text.{codes}
use nebula_core.Keys.{KeyPressMsg, is_key, is_back, is_up, is_enter}
use nebula_core.Relationships.State.{
  Relationship, RelationshipsView, view_list, view_detail, view_edit, view_confirm,
  create_source_search, create_source_select, create_target_search, create_target_select,
  create_type, ScreenEnv,
}
use nebula_core.Relationships.Listing.{Model}
use nebula_core.Relationships.Create.{choose_source, choose_target}
use nebula_core.Relationships.Update.{detail_keys, confirm_archive, archive_keys, view_keys}
use nebula_core.Relationships.Valid.{IsValid, ValidStep, EndsValid, list_view_keys-IsValid}
use nebula_core.Relationships.Wizard.{
  search_step-IsValid, type_step-IsValid, choose_source-IsValid, choose_target-IsValid,
}
use nebula_core.Relationships.Editing.{shown, moved_to, start_edit-IsValid, edit_keys-Ends}

module _ {Table Area : Type 0} (env : ScreenEnv Table Area) (m : Model env) (v : IsValid m) where
  detail_keys-IsValid : (k : KeyPressMsg) → m.view ≡ view_detail → IsValid (detail_keys env k m)
  unfolding detail_keys
  detail_keys-IsValid k e =
      if_cases IsValid (is_up k) _ _ (λ _. ground arith)
        λ _.
          if_cases IsValid (is_back k) _ _ (λ _. ground arith)
            λ _.
              if_cases IsValid (is_key k (codes "e" ∷ [])) _ _
                (λ _. start_edit-IsValid env m v (shown env m v view_detail e))
                λ _.
                  if_cases IsValid (is_key k (codes "d" ∷ [])) _ _
                    (λ _. record {
                      fits = shown env m v view_detail e;
                      status_in = v.status_in;
                      focus_in = v.focus_in;
                      editor_in = v.editor_in;
                    })
                    (λ _.
                      if_cases IsValid (is_key k (codes "m" ∷ [])) _ _ (λ _. ground arith) (λ _. v))

  archive_keys-IsValid :
      (k : KeyPressMsg) → m.view ≡ view_confirm → ValidStep (archive_keys env k m)
  unfolding archive_keys confirm_archive
  archive_keys-IsValid k e =
      if_cases ValidStep (is_key k (codes "y" ∷ []) || is_enter k) _ _ (λ _. confirmed m.detail)
        λ _.
          if_cases ValidStep (is_key k (codes "n" ∷ []) || is_back k) _ _
            (λ _. moved_to env m v view_detail (shown env m v view_confirm e)) (λ _. v)
    where
      confirmed : (d : Option Relationship) → ValidStep (confirm_archive env d m)
      confirmed none = moved_to env m v view_list tt
      confirmed (some r) = moved_to env m v view_detail (shown env m v view_confirm e)

  pub view_keys-Ends :
      (k : KeyPressMsg) (w : RelationshipsView) → m.view ≡ w → EndsValid (view_keys env w k m)
  unfolding view_keys
  view_keys-Ends k view_list e = list_view_keys-IsValid env m k v
  view_keys-Ends k view_detail e = detail_keys-IsValid k e
  view_keys-Ends k view_edit e = edit_keys-Ends env m v k e
  view_keys-Ends k view_confirm e = archive_keys-IsValid k e
  view_keys-Ends k create_source_search e =
      search_step-IsValid env m k v (choose_source env) (choose_source-IsValid env m k v) view_list
        tt
  view_keys-Ends k create_source_select e = absurd (shown env m v create_source_select e)
  view_keys-Ends k create_target_search e =
      let source = shown env m v create_target_search e in
      search_step-IsValid env m k v (choose_target env) (choose_target-IsValid env m k v source)
        create_source_search tt
  view_keys-Ends k create_target_select e = absurd (shown env m v create_target_select e)
  view_keys-Ends k create_type e = type_step-IsValid env m k v (shown env m v create_type e)
