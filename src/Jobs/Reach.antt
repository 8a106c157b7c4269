-- ===== src/Jobs/Reach.antt =====
-- What the screen never asks for, whatever messages it is sent.
use nebula_core.Prelude.{
  ◌≡◌, refl, subst, Bool, true, false, Option, none, some, List, [], ◌∷◌, arith, is_empty,
}
use nebula_core.Text.{Text, trim_space, trim_left, trim_right}
use nebula_core.Keys.{KeyPressMsg}
use nebula_core.Relationships.State.{Job}
use nebula_core.Jobs.State.{
  JobsView, view_add, view_list, view_detail, view_edit, JobsEnv, JobsMsg, spinner_tick,
  jobs_loaded, rels_loaded, context_loaded, relationship_changed, status_updated, subtask_created,
  job_created, failed, pressed, other, JobsCmd, nothing, form_cmd, load_jobs, load_detail,
  load_rels, fail, update_job_status, create_subtask, create_relationship, archive_relationship,
  link_context, create_context, create_job, update_job, new_jobs_model,
}
use nebula_core.Jobs.Search.{Model}
use nebula_core.Jobs.Prompts.{link_request}
use nebula_core.Jobs.Update.{forward_add, forward_edit, forward_msg, jobs_update}
use nebula_core.Jobs.Requests.{
  is_write, Consent, harmless, changes_status, creates_subtask, links, unlinks, links_context,
  creates_context, adds_job, edits_job,
}
use nebula_core.Jobs.AddForm.{IsBlank, BlankStepIf, jobs_update-IsBlank}
use nebula_core.Jobs.Consent.{jobs_update-Consent}

abbrev pub is_create_job : JobsCmd → Bool
is_create_job (create_job input) = true
is_create_job nothing = false
is_create_job form_cmd = false
is_create_job load_jobs = false
is_create_job (load_detail id) = false
is_create_job (load_rels id) = false
is_create_job (fail err) = false
is_create_job (update_job_status ids status) = false
is_create_job (create_subtask id title) = false
is_create_job (create_relationship input) = false
is_create_job (archive_relationship id) = false
is_create_job (link_context id context) = false
is_create_job (create_context id title) = false
is_create_job (update_job id input) = false

no_write : (c : JobsCmd) → is_write c ≡ false → is_create_job c ≡ false
no_write (create_job input) h = absurd (ground arith)
no_write nothing h = refl
no_write form_cmd h = refl
no_write load_jobs h = refl
no_write (load_detail id) h = refl
no_write (load_rels id) h = refl
no_write (fail err) h = refl
no_write (update_job_status ids status) h = refl
no_write (create_subtask id title) h = refl
no_write (create_relationship input) h = refl
no_write (archive_relationship id) h = refl
no_write (link_context id context) h = refl
no_write (create_context id title) h = refl
no_write (update_job id input) h = refl

link_request-other : (id : Text) (parts : List Text) → is_create_job (link_request id parts) ≡ false
unfolding link_request
link_request-other id [] = refl
link_request-other id (a ∷ []) = refl
link_request-other id (a ∷ b ∷ []) = refl
link_request-other id (a ∷ b ∷ c ∷ ds) = refl

module _ {Table Form : Type 0} (env : JobsEnv Table Form) where
  -- The screens that messages lead to from a new one.
  pub data Reachable : Model env → Type 0 where
    start : Reachable (new_jobs_model env)
    step :
        (m : Model env) (msg : JobsMsg) (r : Model env × JobsCmd)
        → Reachable m
        → jobs_update env msg m ≡ some r
        → Reachable r.0

  IsBlank-of_Reachable : (m : Model env) → Reachable m → IsBlank env m
  IsBlank-of_Reachable m start = refl
  IsBlank-of_Reachable m (step m' msg r h e) =
      subst (BlankStepIf env) e (jobs_update-IsBlank env m' (IsBlank-of_Reachable m' h) msg)

  module _ (m : Model env) (v : IsBlank env m) where
    blank_title : is_empty (trim_space m.add_title) ≡ false → ⊥
    unfolding trim_space trim_left trim_right
    blank_title n =
        let no : is_empty (trim_space []) ≡ false =
          subst (λ t. is_empty (trim_space t) ≡ false) v n in
        absurd (ground arith)

    nothing_added : (k : KeyPressMsg) {c : JobsCmd} → Consent env m k c → is_create_job c ≡ false
    nothing_added k (harmless c h) = no_write c h
    nothing_added k (changes_status e h n s) = refl
    nothing_added k (creates_subtask j e h p n) = refl
    nothing_added k (links j e h p) = link_request-other j.id _
    nothing_added k (unlinks j e h p n) = refl
    nothing_added k (links_context j e h p n) = refl
    nothing_added k (creates_context j e h p n) = refl
    nothing_added k (adds_job form w sv sd o d n) = absurd (blank_title n)
    nothing_added k (edits_job form j w sv b o d p) = refl

    abbrev NoneAdded : Option (Model env × JobsCmd) → Type 0
    NoneAdded none = Unit
    NoneAdded (some r) = is_create_job r.1 ≡ false

    press_adds_none :
        (k : KeyPressMsg) (o : Option (Model env × JobsCmd))
        → jobs_update env (pressed k) m ≡ o
        → NoneAdded o
    press_adds_none k none e = tt
    press_adds_none k (some r) e = nothing_added k (jobs_update-Consent env m k r e)

    forward_adds_none : (w : JobsView) → is_create_job (forward_msg env w m).1 ≡ false
    unfolding forward_msg forward_add forward_edit
    forward_adds_none view_add = ground arith
    forward_adds_none view_edit = ground arith
    forward_adds_none view_detail = refl
    forward_adds_none view_list = refl

    reload_adds_none :
        (d : Option Job)
        → is_create_job (elim d [ none ↦ nothing | some j ↦ load_rels j.id ]) ≡ false
    reload_adds_none none = refl
    reload_adds_none (some j) = refl

    adds_none : (msg : JobsMsg) → NoneAdded (jobs_update env msg m)
    unfolding jobs_update
    adds_none spinner_tick = refl
    adds_none (jobs_loaded items) = refl
    adds_none (rels_loaded id rels) = refl
    adds_none (context_loaded id items) = refl
    adds_none relationship_changed = reload_adds_none m.detail
    adds_none status_updated = refl
    adds_none subtask_created = refl
    adds_none job_created = refl
    adds_none (failed err) = refl
    adds_none (pressed k) = press_adds_none k (jobs_update env (pressed k) m) refl
    adds_none other = forward_adds_none m.view

  -- Whatever messages a new screen is sent, and whatever is typed into its forms, it never asks the
  -- server to create a job.
  pub jobs_update-adds_none :
      (m : Model env) (msg : JobsMsg) (r : Model env × JobsCmd)
      → Reachable m
      → jobs_update env msg m ≡ some r
      → is_create_job r.1 ≡ false
  jobs_update-adds_none m msg r h e =
      subst (NoneAdded m (IsBlank-of_Reachable m h)) e (adds_none m (IsBlank-of_Reachable m h) msg)
