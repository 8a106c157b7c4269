-- ===== src/Jobs/Panics.antt =====
-- Where the screen panics, and where it stops to listen.
use nebula_core.Prelude.{
  ◌≡◌, refl, ◌∙◌, subst⁻¹, Bool, true, false, ◌&&◌, ◌||◌, not, Option, none, some, List, [], ◌∷◌,
  if_cases, arith,
}
use nebula_core.Text.{Text, codes, text_eq}
use nebula_core.Text.Laws.{text_eq_iff}
use nebula_core.Keys.{KeyPressMsg, is_key, is_back, is_up}
use nebula_core.Relationships.State.{Job}
use nebula_core.Jobs.State.{
  JobsView, view_add, view_list, view_detail, view_edit, JobsEnv, JobsMsg, spinner_tick,
  jobs_loaded, rels_loaded, context_loaded, relationship_changed, status_updated, subtask_created,
  job_created, failed, pressed, other, JobsCmd, nothing, load_jobs,
}
use nebula_core.Jobs.Search.{Model}
use nebula_core.Jobs.Forms.{edit_keys}
use nebula_core.Jobs.Update.{
  ask_status_of, browse_detail, detail_keys, view_keys, on_press, jobs_update, silently,
}

abbrev pub is_none : {A : Type 0} → Option A → Bool
is_none none = true
is_none (some a) = false

abbrev pub is_detail : JobsView → Bool
is_detail view_detail = true
is_detail view_add = false
is_detail view_list = false
is_detail view_edit = false

abbrev pub s_key : List Text
s_key = codes "s" ∷ []

s_key-name : (k : KeyPressMsg) → is_key k s_key ≡ true → k.name ≡ codes "s"
unfolding is_key
s_key-name k h = (text_eq_iff k.name (codes "s")).0 (ground arith)

s_key-up : (k : KeyPressMsg) → is_key k s_key ≡ true → is_up k ≡ false
unfolding is_key is_up text_eq
s_key-up k h = subst⁻¹ (λ n. (text_eq n (codes "up") || false) ≡ false) (s_key-name k h) refl

s_key-back : (k : KeyPressMsg) → is_key k s_key ≡ true → is_back k ≡ false
unfolding is_key is_back text_eq
s_key-back k h =
    subst⁻¹
      (λ n.
        (text_eq n (codes "esc")
          || (text_eq n (codes "escape") || (text_eq n (codes "ctrl+[") || false)))
        ≡ false)
      (s_key-name k h) refl

module _ {Table Form : Type 0} (env : JobsEnv Table Form) where
  -- A prompt or the mode line takes the keys.
  abbrev pub is_covered : Model env → Bool
  is_covered m =
      m.creating_subtask || (m.linking_rel || (m.unlinking_rel || (m.changing_st || m.mode_focus)))

  -- The key s in the detail view without a job, no prompt open and the mode line not focused.
  abbrev pub crashes : JobsMsg → Model env → Bool
  crashes (pressed k) m =
      not (is_covered m)
      && (is_detail m.view
          && (not (m.context_linking || m.context_creating)
              && (is_none m.detail && is_key k s_key)))
  crashes spinner_tick m = false
  crashes (jobs_loaded items) m = false
  crashes (rels_loaded id rels) m = false
  crashes (context_loaded id items) m = false
  crashes relationship_changed m = false
  crashes status_updated m = false
  crashes subtask_created m = false
  crashes job_created m = false
  crashes (failed err) m = false
  crashes other m = false

  module _ (k : KeyPressMsg) (m : Model env) where
    abbrev Falls : Bool → Option (Model env) → Type 0
    Falls b o = is_none o ≡ b

    abbrev StepFalls : Bool → Option (Model env × JobsCmd) → Type 0
    StepFalls b o = is_none o ≡ b

    ask_status_of-none : (d : Option Job) → is_none (ask_status_of env d m) ≡ is_none d
    unfolding ask_status_of
    ask_status_of-none none = refl
    ask_status_of-none (some j) = refl

    browse_detail-none : is_none (browse_detail env k m) ≡ is_none m.detail && is_key k s_key
    unfolding browse_detail
    browse_detail-none =
        if_cases (Falls (is_none m.detail && is_key k s_key)) (is_up k) _ _
          (λ u. ground (arith, s_key-up k))
          λ _.
            if_cases (Falls (is_none m.detail && is_key k s_key)) (is_back k) _ _
              (λ u. ground (arith, s_key-back k))
              λ _.
                if_cases (Falls (is_none m.detail && is_key k s_key)) (is_key k s_key) _ _
                  (λ h. ask_status_of-none m.detail ∙ with_s h) (λ h. without_s h)
      where
        with_s : is_key k s_key ≡ true → is_none m.detail ≡ is_none m.detail && is_key k s_key
        with_s h = ground arith

        without_s : is_key k s_key ≡ false → false ≡ is_none m.detail && is_key k s_key
        without_s h = ground arith

    silently-none : (o : Option (Model env)) → is_none (silently env o) ≡ is_none o
    silently-none none = refl
    silently-none (some r) = refl

    detail_keys-none :
        is_none (detail_keys env k m)
        ≡ not (m.context_linking || m.context_creating) && (is_none m.detail && is_key k s_key)
    unfolding detail_keys
    detail_keys-none =
        let rest = is_none m.detail && is_key k s_key in
        if_cases (StepFalls (not (m.context_linking || m.context_creating) && rest))
          (m.context_linking || m.context_creating) _ _ (λ c. prompted c rest)
          (λ c. silently-none (browse_detail env k m) ∙ (browse_detail-none ∙ unprompted c rest))
      where
        prompted :
            (m.context_linking || m.context_creating) ≡ true
            → (b : Bool) → false ≡ not (m.context_linking || m.context_creating) && b
        prompted c b = ground arith

        unprompted :
            (m.context_linking || m.context_creating) ≡ false
            → (b : Bool) → b ≡ not (m.context_linking || m.context_creating) && b
        unprompted c b = ground arith

    view_keys-none :
        (w : JobsView)
        → is_none (view_keys env w k m)
          ≡ is_detail w
            && (not (m.context_linking || m.context_creating)
                && (is_none m.detail && is_key k s_key))
    unfolding view_keys
    view_keys-none view_add = refl
    view_keys-none view_edit = refl
    view_keys-none view_list = refl
    view_keys-none view_detail = detail_keys-none

    on_press-none : is_none (on_press env k m) ≡ crashes (pressed k) m
    unfolding on_press
    on_press-none =
        let rest =
          is_detail m.view
          && (not (m.context_linking || m.context_creating)
              && (is_none m.detail && is_key k s_key)) in
        if_cases (StepFalls (not (is_covered m) && rest)) m.creating_subtask _ _
          (λ e. covered rest (ground arith))
          λ a.
            if_cases (StepFalls (not (is_covered m) && rest)) m.linking_rel _ _
              (λ e. covered rest (ground arith))
              λ b.
                if_cases (StepFalls (not (is_covered m) && rest)) m.unlinking_rel _ _
                  (λ e. covered rest (ground arith))
                  λ c.
                    if_cases (StepFalls (not (is_covered m) && rest)) m.changing_st _ _
                      (λ e. covered rest (ground arith))
                      λ d.
                        if_cases (StepFalls (not (is_covered m) && rest)) m.mode_focus _ _
                          (λ e. covered rest (ground arith))
                          (λ e. view_keys-none m.view ∙ uncovered rest (ground arith))
      where
        covered : (rest : Bool) → is_covered m ≡ true → false ≡ not (is_covered m) && rest
        covered rest h = ground arith

        uncovered : (rest : Bool) → is_covered m ≡ false → rest ≡ not (is_covered m) && rest
        uncovered rest h = ground arith

  -- The screen panics exactly where the key s is pressed in the detail view with no job shown, no
  -- prompt open and the mode line not focused.
  pub jobs_update-is_none :
      (msg : JobsMsg) (m : Model env) → is_none (jobs_update env msg m) ≡ crashes msg m
  unfolding jobs_update
  jobs_update-is_none spinner_tick m = refl
  jobs_update-is_none (jobs_loaded items) m = refl
  jobs_update-is_none (rels_loaded id rels) m = refl
  jobs_update-is_none (context_loaded id items) m = refl
  jobs_update-is_none relationship_changed m = refl
  jobs_update-is_none status_updated m = refl
  jobs_update-is_none subtask_created m = refl
  jobs_update-is_none job_created m = refl
  jobs_update-is_none (failed err) m = refl
  jobs_update-is_none (pressed k) m = on_press-none k m
  jobs_update-is_none other m = refl

  deaf :
      (m : Model env) (k : KeyPressMsg)
      → m.view ≡ view_edit
      → m.edit_saving ≡ true
      → is_covered m ≡ false
      → on_press env k m ≡ some (m, nothing)
  unfolding on_press view_keys edit_keys
  deaf m k e s c =
      if_cases Same m.creating_subtask _ _ (λ h. absurd (ground arith))
        λ _.
          if_cases Same m.linking_rel _ _ (λ h. absurd (ground arith))
            λ _.
              if_cases Same m.unlinking_rel _ _ (λ h. absurd (ground arith))
                λ _.
                  if_cases Same m.changing_st _ _ (λ h. absurd (ground arith))
                    λ _.
                      if_cases Same m.mode_focus _ _ (λ h. absurd (ground arith))
                        (λ _. subst⁻¹ (λ w. view_keys env w k m ≡ some (m, nothing)) e saving)
    where
      Same : Option (Model env × JobsCmd) → Type 0
      Same o = o ≡ some (m, nothing)

      saving : some (edit_keys env k m) ≡ some (m, nothing)
      saving =
          if_cases (λ p. some p ≡ some (m, nothing)) m.edit_saving _ _ (λ _. refl)
            (λ h. absurd (ground arith))

  -- After an edit that was saved, the screen takes no key any more.
  pub saved_edit_lem :
      (m : Model env)
      → m.view ≡ view_edit
      → m.edit_saving ≡ true
      → is_covered m ≡ false
      → (r : Model env) × (jobs_update env status_updated m ≡ some (r, load_jobs))
        × ((k : KeyPressMsg) → jobs_update env (pressed k) r ≡ some (r, nothing))
  unfolding jobs_update
  saved_edit_lem m e s c =
      let r : Model env = record m {
        detail = none;
        detail_context = [];
        context_loading = false;
        loading = true;
        changing_st = false;
        status_buf = [];
        status_targets = [];
      } in
      (r, refl, λ k. deaf r k e s (ground arith))
