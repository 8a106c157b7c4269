-- ===== src/Jobs/Requests.antt =====
-- The writes that a key may ask for, and the prompts and forms that ask for them.
use nebula_core.Prelude.{
  ◌≡◌, refl, Bool, true, false, ◌||◌, Option, none, some, [], ◌∷◌, if◌then◌else◌, if_cases, arith,
  is_empty,
}
use nebula_core.Text.{codes, trim_space, fields}
use nebula_core.Keys.{KeyPressMsg, is_key, is_back, is_enter}
use nebula_core.Relationships.State.{Job}
use nebula_core.Relationships.Create.{clear_keys, erase_keys}
use nebula_core.Jobs.State.{
  view_add, view_edit, completed, JobsEnv, JobsCmd, nothing, form_cmd, load_jobs, load_detail,
  load_rels, fail, update_job_status, create_subtask, create_relationship, archive_relationship,
  link_context, create_context, create_job, update_job,
}
use nebula_core.Jobs.Search.{Model}
use nebula_core.Jobs.Forms.{status_or_pending}
use nebula_core.Jobs.Prompts.{
  unlinked_id, link_request, status_ids, send_status, status_input, send_subtask, subtask_input,
  send_link, link_input, send_unlink, unlink_input, send_context_link, send_context_create,
  context_prompt_keys,
}

abbrev pub is_write : JobsCmd → Bool
is_write nothing = false
is_write form_cmd = false
is_write load_jobs = false
is_write (load_detail id) = false
is_write (load_rels id) = false
is_write (fail err) = false
is_write (update_job_status ids status) = true
is_write (create_subtask id title) = true
is_write (create_relationship input) = true
is_write (archive_relationship id) = true
is_write (link_context id context) = true
is_write (create_context id title) = true
is_write (create_job input) = true
is_write (update_job id input) = true

module _ {Table Form : Type 0} (env : JobsEnv Table Form) where
  -- Each write is confirmed by enter in its prompt, with the text of the prompt and for the jobs that
  -- it is about, or by the key that completes the form of the view that is shown.
  pub data Consent (m : Model env) (k : KeyPressMsg) : JobsCmd → Type 0 where
    harmless : (c : JobsCmd) → is_write c ≡ false → Consent m k c
    changes_status :
        m.changing_st ≡ true
        → is_enter k ≡ true
        → is_empty (status_ids env m) ≡ false
        → is_empty (trim_space m.status_buf) ≡ false
        → Consent m k (update_job_status (status_ids env m) (trim_space m.status_buf))
    creates_subtask :
        (j : Job)
        → m.creating_subtask ≡ true
        → is_enter k ≡ true
        → m.detail ≡ some j
        → is_empty (trim_space m.subtask_buf) ≡ false
        → Consent m k (create_subtask j.id (trim_space m.subtask_buf))
    links :
        (j : Job)
        → m.linking_rel ≡ true
        → is_enter k ≡ true
        → m.detail ≡ some j
        → Consent m k (link_request j.id (fields (trim_space m.link_buf)))
    unlinks :
        (j : Job)
        → m.unlinking_rel ≡ true
        → is_enter k ≡ true
        → m.detail ≡ some j
        → is_empty (trim_space m.unlink_buf) ≡ false
        → Consent m k (archive_relationship (unlinked_id (trim_space m.unlink_buf) m.detail_rels))
    links_context :
        (j : Job)
        → m.context_linking ≡ true
        → is_key k (codes "enter" ∷ []) ≡ true
        → m.detail ≡ some j
        → is_empty (trim_space m.context_link_buf) ≡ false
        → Consent m k (link_context j.id (trim_space m.context_link_buf))
    creates_context :
        (j : Job)
        → m.context_creating ≡ true
        → is_key k (codes "enter" ∷ []) ≡ true
        → m.detail ≡ some j
        → is_empty (trim_space m.context_create_buf) ≡ false
        → Consent m k (create_context j.id (trim_space m.context_create_buf))
    adds_job :
        (form : Form)
        → m.view ≡ view_add
        → m.add_saving ≡ false
        → m.add_saved ≡ false
        → m.add_form ≡ some form
        → env.form_api.form_state (env.form_api.press k form) ≡ completed
        → is_empty (trim_space m.add_title) ≡ false
        → Consent m k (
            create_job (record {
              title = trim_space m.add_title;
              description = trim_space m.add_desc;
              status = status_or_pending m.add_status;
              priority = trim_space m.add_priority;
            }))
    edits_job :
        (form : Form) (j : Job)
        → m.view ≡ view_edit
        → m.edit_saving ≡ false
        → is_back k ≡ false
        → m.edit_form ≡ some form
        → env.form_api.form_state (env.form_api.press k form) ≡ completed
        → m.detail ≡ some j
        → Consent m k (
            update_job j.id (record {
              status = status_or_pending m.edit_status;
              priority = trim_space m.edit_priority;
              description = trim_space m.edit_desc;
            }))

  module _ (m : Model env) (k : KeyPressMsg) where
    abbrev pub Asks : Model env × JobsCmd → Type 0
    Asks r = Consent m k r.1

    pub idle : Consent m k nothing
    idle = harmless nothing refl

    send_status-Asks : m.changing_st ≡ true → is_enter k ≡ true → Asks (send_status env m)
    unfolding send_status
    send_status-Asks e h =
        if_cases Asks (is_empty (status_ids env m) || is_empty (trim_space m.status_buf)) _ _
          (λ _. idle) (λ n. changes_status e h (ground arith) (ground arith))

    pub status_input-Asks : m.changing_st ≡ true → Asks (status_input env k m)
    unfolding status_input
    status_input-Asks e =
        if_cases Asks (is_back k) _ _ (λ _. idle)
          λ _.
            if_cases Asks (is_enter k) _ _ (λ h. send_status-Asks e h)
              λ _. if_cases Asks (is_key k (codes "backspace" ∷ [])) _ _ (λ _. idle) (λ _. idle)

    send_subtask-Asks : m.creating_subtask ≡ true → is_enter k ≡ true → Asks (send_subtask env m)
    unfolding send_subtask
    send_subtask-Asks e h =
        if_cases Asks (is_empty (trim_space m.subtask_buf)) _ _ (λ _. idle)
          (λ n. by_detail n m.detail refl)
      where
        by_detail :
            is_empty (trim_space m.subtask_buf) ≡ false
            → (d : Option Job) → m.detail ≡ d
            → Asks (elim d [
              | none ↦ (record m { creating_subtask = false; subtask_buf = [] }, nothing)
              | some j ↦ (
                record m { creating_subtask = false; subtask_buf = [] },
                create_subtask j.id (trim_space m.subtask_buf),
              )
            ])
        by_detail n none p = idle
        by_detail n (some j) p = creates_subtask j e h p n

    pub subtask_input-Asks : m.creating_subtask ≡ true → Asks (subtask_input env k m)
    unfolding subtask_input
    subtask_input-Asks e =
        if_cases Asks (is_back k) _ _ (λ _. idle)
          λ _.
            if_cases Asks (is_enter k) _ _ (λ h. send_subtask-Asks e h)
              λ _. if_cases Asks (is_key k (codes "backspace" ∷ [])) _ _ (λ _. idle) (λ _. idle)

    send_link-Asks : m.linking_rel ≡ true → is_enter k ≡ true → Asks (send_link env m)
    unfolding send_link
    send_link-Asks e h = by_detail m.detail refl
      where
        by_detail :
            (d : Option Job)
            → m.detail ≡ d
            → Asks (elim d [
              | none ↦ (record m { linking_rel = false; link_buf = [] }, nothing)
              | some j ↦ (
                record m { linking_rel = false; link_buf = [] },
                link_request j.id (fields (trim_space m.link_buf)),
              )
            ])
        by_detail none p = idle
        by_detail (some j) p = links j e h p

    pub link_input-Asks : m.linking_rel ≡ true → Asks (link_input env k m)
    unfolding link_input
    link_input-Asks e =
        if_cases Asks (is_back k) _ _ (λ _. idle)
          λ _.
            if_cases Asks (is_enter k) _ _ (λ h. send_link-Asks e h)
              λ _. if_cases Asks (is_key k (codes "backspace" ∷ [])) _ _ (λ _. idle) (λ _. idle)

    send_unlink-Asks : m.unlinking_rel ≡ true → is_enter k ≡ true → Asks (send_unlink env m)
    unfolding send_unlink
    send_unlink-Asks e h = by_detail m.detail refl
      where
        by_detail :
            (d : Option Job)
            → m.detail ≡ d
            → Asks (elim d [
              | none ↦ (record m { unlinking_rel = false; unlink_buf = [] }, nothing)
              | some j ↦
                  if is_empty (trim_space m.unlink_buf)
                  then (record m { unlinking_rel = false; unlink_buf = [] }, nothing)
                  else (
                    record m { unlinking_rel = false; unlink_buf = [] },
                    archive_relationship (unlinked_id (trim_space m.unlink_buf) m.detail_rels),
                  )
            ])
        by_detail none p = idle
        by_detail (some j) p =
            if_cases Asks (is_empty (trim_space m.unlink_buf)) _ _ (λ _. idle)
              (λ n. unlinks j e h p n)

    pub unlink_input-Asks : m.unlinking_rel ≡ true → Asks (unlink_input env k m)
    unfolding unlink_input
    unlink_input-Asks e =
        if_cases Asks (is_back k) _ _ (λ _. idle)
          λ _.
            if_cases Asks (is_enter k) _ _ (λ h. send_unlink-Asks e h)
              λ _. if_cases Asks (is_key k (codes "backspace" ∷ [])) _ _ (λ _. idle) (λ _. idle)

    for_job :
        (c : Job → JobsCmd)
        → ((j : Job) → m.detail ≡ some j → Consent m k (c j))
        → (d : Option Job) → m.detail ≡ d
        → Consent m k (elim d [ none ↦ fail (codes "no job selected") | some j ↦ c j ])
    for_job c h none p = harmless (fail (codes "no job selected")) refl
    for_job c h (some j) p = h j p

    send_context_link-Asks :
        m.context_linking ≡ true
        → is_key k (codes "enter" ∷ []) ≡ true
        → Asks (send_context_link env m)
    unfolding send_context_link
    send_context_link-Asks e h =
        if_cases Asks (is_empty (trim_space m.context_link_buf)) _ _
          (λ _. harmless (fail (codes "context id is required")) refl)
          (λ n.
            for_job (λ j. link_context j.id (trim_space m.context_link_buf))
              (λ j p. links_context j e h p n) m.detail refl)

    send_context_create-Asks :
        m.context_creating ≡ true
        → is_key k (codes "enter" ∷ []) ≡ true
        → Asks (send_context_create env m)
    unfolding send_context_create
    send_context_create-Asks e h =
        if_cases Asks (is_empty (trim_space m.context_create_buf)) _ _
          (λ _. harmless (fail (codes "context title is required")) refl)
          (λ n.
            for_job (λ j. create_context j.id (trim_space m.context_create_buf))
              (λ j p. creates_context j e h p n) m.detail refl)

    pub context_prompt_keys-Asks : Asks (context_prompt_keys env k m)
    unfolding context_prompt_keys
    context_prompt_keys-Asks =
        if_cases Asks (is_back k) _ _ (λ _. idle)
          λ _.
            if_cases Asks (is_key k (codes "enter" ∷ [])) _ _
              (λ h.
                if_cases Asks m.context_linking _ _ (λ e. send_context_link-Asks e h)
                  (λ _.
                    if_cases Asks m.context_creating _ _ (λ e. send_context_create-Asks e h)
                      (λ _. idle)))
              (λ _.
                if_cases Asks (is_key k (erase_keys)) _ _ (λ _. idle)
                  (λ _. if_cases Asks (is_key k (clear_keys)) _ _ (λ _. idle) (λ _. idle)))
