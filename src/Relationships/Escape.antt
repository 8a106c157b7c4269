-- ===== src/Relationships/Escape.antt =====
-- Leaving the wizard.
use nebula_core.Prelude.{
  ℕ, zero, suc, ◌≤◌, ◌≡◌, refl, sym, ap, ◌∙◌, Bool, true, false, Option, none, some, List, [], ◌∷◌,
  if◌then◌else◌, if_cases, is_empty, arith, replicate,
}
use nebula_core.Text.{codes, text_eq}
use nebula_core.Keys.{KeyPressMsg, is_key, is_back}
use nebula_core.Relationships.State.{
  RelationshipsView, view_list, view_detail, view_edit, view_confirm, create_source_search,
  create_source_select, create_target_search, create_target_select, create_type, Candidate,
  ScreenEnv, pressed, RelCmd, nothing,
}
use nebula_core.Relationships.Listing.{Model, is_add}
use nebula_core.Relationships.Create.{
  choose_source, choose_target, clear_search, leave_search, search_step, select_step, type_step,
}
use nebula_core.Relationships.Update.{view_keys, on_press, rel_update}

-- `esc`
abbrev pub esc : KeyPressMsg
esc = record { name = codes "esc"; space_code = false; text = [] }

esc-back : is_back esc ≡ true
unfolding is_back is_key text_eq
esc-back = refl

-- The presses of `esc` that lead from a view of the wizard back to the list, with an empty query or
-- not, and 0 in the list; none in the other views.
abbrev pub presses : Bool → RelationshipsView → Option ℕ
presses q view_list = some 0
presses q view_detail = none
presses q view_edit = none
presses q view_confirm = none
presses q create_source_search = some (if q then 1 else 2)
presses q create_source_select = some (if q then 2 else 3)
presses q create_target_search = some (if q then 2 else 3)
presses q create_target_select = some (if q then 3 else 4)
presses q create_type = some (if q then 3 else 4)

module _ {Table Area : Type 0} (env : ScreenEnv Table Area) where
  -- Nothing lies over the view.
  pub record IsUncovered (m : Model env) : Type 0 where
    pub no_notes : m.notes_editing ≡ false
    pub no_editor : m.edit_meta.active ≡ false
    pub no_mode : m.mode_focus ≡ false

  -- What is left after keys that each ask for nothing.
  unfoldable pub run_idle : List KeyPressMsg → Model env → Option (Model env)
  run_idle [] m = some m
  run_idle (k ∷ ks) m = elim (rel_update env (pressed k) m) [
    | none ↦ none
    | some r ↦ elim r.1 [ nothing ↦ run_idle ks r.0 | _ ↦ none ]
  ]

  abbrev presses_left : Model env → Option ℕ
  presses_left m = presses (is_empty m.create_query) m.view

  abbrev Closer : ℕ → Option (Model env × RelCmd) → Type 0
  Closer n o = (r : Model env) × (o ≡ some (r, nothing)) × IsUncovered r × (presses_left r ≡ some n)

  module _ (m : Model env) (u : IsUncovered m) where
    to_view : (w : RelationshipsView) → IsUncovered (record m { view = w })
    to_view w = record { no_notes = u.no_notes; no_editor = u.no_editor; no_mode = u.no_mode }

    press_view : on_press env esc m ≡ view_keys env m.view esc m
    unfolding on_press
    press_view = ground (arith, u.no_notes, u.no_editor, u.no_mode)

    leave_search-IsUncovered : (back : RelationshipsView) → IsUncovered (leave_search env back m)
    unfolding leave_search clear_search
    leave_search-IsUncovered back =
        if_cases IsUncovered (is_empty m.create_query) _ _ (λ _. to_view back)
          (λ _. record { no_notes = u.no_notes; no_editor = u.no_editor; no_mode = u.no_mode })

    same : (i : ℕ) {n : ℕ} → some (suc i) ≡ some (suc n) → some i ≡ some n
    same i h = ground arith

    module _ (w back : RelationshipsView) (k n : ℕ) (e : m.view ≡ w)
        (counted : presses (is_empty m.create_query) w ≡ some (suc n))
        (empty_back : presses true back ≡ some k) (empty_here : presses true w ≡ some (suc k))
        (typed_here : presses false w ≡ some (suc (suc k))) where
      presses_left-leave_search : presses_left (leave_search env back m) ≡ some n
      unfolding leave_search clear_search
      presses_left-leave_search =
          if_cases (λ r. presses_left r ≡ some n) (is_empty m.create_query) _ _ (λ q. at_back q)
            (λ q. cleared q)
        where
          here : (b : Bool) → is_empty m.create_query ≡ b → presses b w ≡ some (suc n)
          here b q = sym (ap (λ b. presses b w) q) ∙ counted

          at_back :
              is_empty m.create_query ≡ true → presses_left (record m { view = back }) ≡ some n
          at_back q =
              let i : some (suc k) ≡ some (suc n) = sym empty_here ∙ here true q in
              ap (λ b. presses b back) q ∙ (empty_back ∙ same k i)

          cleared : is_empty m.create_query ≡ false → presses true m.view ≡ some n
          cleared q =
              let i : some (suc (suc k)) ≡ some (suc n) = sym typed_here ∙ here false q in
              ap (presses true) e ∙ (empty_here ∙ same (suc k) i)

      search_step-Closer :
          (choose : Candidate → Model env → Model env)
          → Closer n (some (search_step env back choose esc m))
      unfolding search_step is_back is_key text_eq
      search_step-Closer choose =
          (leave_search env back m, refl, leave_search-IsUncovered back, presses_left-leave_search)

    view_keys-Closer :
        (n : ℕ) (w : RelationshipsView)
        → m.view ≡ w
        → presses (is_empty m.create_query) w ≡ some (suc n)
        → Closer n (view_keys env w esc m)
    unfolding view_keys search_step select_step type_step is_back is_key text_eq
    view_keys-Closer n view_list e h = absurd (ground arith)
    view_keys-Closer n view_detail e h = absurd (ground arith)
    view_keys-Closer n view_edit e h = absurd (ground arith)
    view_keys-Closer n view_confirm e h = absurd (ground arith)
    view_keys-Closer n create_source_search e h =
        search_step-Closer create_source_search view_list 0 n e h refl refl refl (choose_source env)
    view_keys-Closer n create_source_select e h =
        (record m { view = create_source_search }, refl, to_view create_source_search, ground arith)
    view_keys-Closer n create_target_search e h =
        search_step-Closer create_target_search create_source_search 1 n e h refl refl refl
          (choose_target env)
    view_keys-Closer n create_target_select e h =
        (record m { view = create_target_search }, refl, to_view create_target_search, ground arith)
    view_keys-Closer n create_type e h =
        (record m { view = create_target_search }, refl, to_view create_target_search, ground arith)

  rel_update-Closer :
      (n : ℕ) (m : Model env)
      → IsUncovered m
      → presses_left m ≡ some (suc n)
      → Closer n (rel_update env (pressed esc) m)
  unfolding rel_update
  rel_update-Closer n m u h = rw (press_view m u) (view_keys-Closer m u n m.view refl h)

  in_list : (b : Bool) (w : RelationshipsView) → presses b w ≡ some 0 → w ≡ view_list
  in_list b view_list h = refl
  in_list b view_detail h = absurd (ground arith)
  in_list b view_edit h = absurd (ground arith)
  in_list b view_confirm h = absurd (ground arith)
  in_list b create_source_search h = absurd (ground arith)
  in_list b create_source_select h = absurd (ground arith)
  in_list b create_target_search h = absurd (ground arith)
  in_list b create_target_select h = absurd (ground arith)
  in_list b create_type h = absurd (ground arith)

  abbrev Returns : ℕ → Model env → Type 0
  Returns n m = (r : Model env) × (run_idle (replicate n esc) m ≡ some r) × (r.view ≡ view_list)

  run_idle-press :
      (k : KeyPressMsg) (ks : List KeyPressMsg) (m r : Model env)
      → rel_update env (pressed k) m ≡ some (r, nothing)
      → run_idle (k ∷ ks) m ≡ run_idle ks r
  unfolding run_idle
  run_idle-press k ks m r h = rw (h, run_idle) refl

  returns : (m : Model env) (n : ℕ) → IsUncovered m → presses_left m ≡ some n → Returns n m
  unfolding run_idle
  returns m zero u h = (m, refl, in_list (is_empty m.create_query) m.view h)
  returns m (suc n) u h =
      let next = rel_update-Closer n m u h in
      let rest = returns next.0 n next.2 next.3 in
      (rest.0, run_idle-press esc (replicate n esc) m next.0 next.1 ∙ rest.1, rest.2)

  within :
      (b : Bool) (w : RelationshipsView)
      → is_add env w ≡ true
      → (n : ℕ) × (n ≤ 4) × (presses b w ≡ some n)
  within b view_list h = absurd (ground arith)
  within b view_detail h = absurd (ground arith)
  within b view_edit h = absurd (ground arith)
  within b view_confirm h = absurd (ground arith)
  within b create_source_search h = (if b then 1 else 2, ground arith, refl)
  within b create_source_select h = (if b then 2 else 3, ground arith, refl)
  within b create_target_search h = (if b then 2 else 3, ground arith, refl)
  within b create_target_select h = (if b then 3 else 4, ground arith, refl)
  within b create_type h = (if b then 3 else 4, ground arith, refl)

  -- From every view of the wizard, with nothing over it (no notes edited, the editor inactive, the
  -- mode line not focused), at most four presses of `esc` lead back to
  -- the list, and nothing is asked for on the way.
  pub run_idle-esc :
      (m : Model env)
      → IsUncovered m
      → is_add env m.view ≡ true
      → (n : ℕ) × (n ≤ 4)
        × (r : Model env) × (run_idle (replicate n esc) m ≡ some r)
        × (r.view ≡ view_list)
  run_idle-esc m u h =
      let n = within (is_empty m.create_query) m.view h in
      let end = returns m n.0 u n.2 in (n.0, n.1, end.0, end.1, end.2)
