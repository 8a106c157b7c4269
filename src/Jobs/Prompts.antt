-- ===== src/Jobs/Prompts.antt =====
-- The prompts over the detail view: status, subtask, link, unlink and context.
use nebula_core.Prelude.{
  ℕ, ◌+◌, ◌-◌, ◌*◌, ◌%◌, Bool, true, false, ◌&&◌, ◌||◌, none, some, List, [], ◌∷◌, ◌++◌,
  if◌then◌else◌, is_empty, init, ltb, leb, length, get_elem?,
}
use nebula_core.Text.{Text, codes, trim_space, fields, join}
use nebula_core.Keys.{KeyPressMsg, is_key, is_back, is_enter, key_text}
use nebula_core.Relationships.State.{Relationship}
use nebula_core.Relationships.Create.{clear_keys, erase_keys}
use nebula_core.Jobs.State.{
  JobsEnv, JobsCmd, nothing, fail, update_job_status, create_subtask, create_relationship,
  archive_relationship, link_context, create_context,
}
use nebula_core.Jobs.Search.{Model}

-- 2 ^ 63, the first `int` out of range.
abbrev int_end : ℕ
int_end = 9223372036854775808

-- The loop of parsePositiveListIndex; the 64 bits of the `int`.
unfoldable pub parse_index_loop : ℕ → Text → ℕ
parse_index_loop total [] = total
parse_index_loop total (c ∷ s) =
    let rest = parse_index_loop ((total * 10 + (c - b'0')) % (int_end * 2)) s in
    if leb b'0' c && leb c b'9' then rest else 0

unfoldable pub parse_positive_list_index : Text → ℕ
unfolding parse_index_loop
parse_positive_list_index value = parse_index_loop 0 value

-- `idx > 0` of an `int`.
abbrev pub is_positive : ℕ → Bool
is_positive bits = ltb 0 bits && ltb bits int_end

-- The relationship that a row number names, or else the id itself.
unfoldable pub unlinked_id : Text → List Relationship → Text
unfolding parse_positive_list_index
unlinked_id value rels =
    let idx = parse_positive_list_index value in
    if is_positive idx && leb idx (length rels)
    then elim (get_elem? rels (idx - 1)) [ none ↦ value | some r ↦ r.id ]
    else value

-- The text without its last byte; the empty one is left as it is.
abbrev pub erased : Text → Text
erased buf = if is_empty buf then buf else init buf

-- `target_type target_id relationship_type`
unfoldable pub link_request : Text → List Text → JobsCmd
link_request id (target_type ∷ target_id ∷ kind ∷ kinds) = create_relationship (record {
  source_type = codes "job";
  source_id = id;
  target_type = trim_space target_type;
  target_id = trim_space target_id;
  kind = trim_space (join (codes " ") (kind ∷ kinds));
})
link_request id parts = fail (codes "link format: target_type target_id relationship_type")

module _ {Table Form : Type 0} (env : JobsEnv Table Form) where
  abbrev pub close_status : Model env → Model env
  close_status m = record m { changing_st = false; status_buf = []; status_targets = [] }

  -- The jobs whose status changes.
  abbrev pub status_ids : Model env → List Text
  status_ids m =
      if is_empty m.status_targets
      then elim m.detail [ none ↦ [] | some j ↦ j.id ∷ [] ]
      else m.status_targets

  unfoldable pub send_status : Model env → Model env × JobsCmd
  send_status m =
      let status = trim_space m.status_buf in
      if is_empty (status_ids m) || is_empty status
      then (close_status m, nothing)
      else (record (close_status m) { selected = [] }, update_job_status (status_ids m) status)

  unfoldable pub status_input : KeyPressMsg → Model env → Model env × JobsCmd
  unfolding send_status
  status_input msg m =
      if is_back msg
      then (close_status m, nothing)
      else if is_enter msg
      then send_status m
      else if is_key msg (codes "backspace" ∷ [])
      then (record m { status_buf = erased m.status_buf }, nothing)
      else (record m { status_buf = m.status_buf ++ key_text msg }, nothing)

  abbrev pub close_subtask : Model env → Model env
  close_subtask m = record m { creating_subtask = false; subtask_buf = [] }

  unfoldable pub send_subtask : Model env → Model env × JobsCmd
  send_subtask m =
      let title = trim_space m.subtask_buf in
      if is_empty title then (m, nothing) else elim m.detail [
        | none ↦ (close_subtask m, nothing)
        | some j ↦ (close_subtask m, create_subtask j.id title)
      ]

  unfoldable pub subtask_input : KeyPressMsg → Model env → Model env × JobsCmd
  unfolding send_subtask
  subtask_input msg m =
      if is_back msg
      then (close_subtask m, nothing)
      else if is_enter msg
      then send_subtask m
      else if is_key msg (codes "backspace" ∷ [])
      then (record m { subtask_buf = erased m.subtask_buf }, nothing)
      else (record m { subtask_buf = m.subtask_buf ++ key_text msg }, nothing)

  abbrev pub close_link : Model env → Model env
  close_link m = record m { linking_rel = false; link_buf = [] }

  unfoldable pub send_link : Model env → Model env × JobsCmd
  unfolding link_request
  send_link m = elim m.detail [
    | none ↦ (close_link m, nothing)
    | some j ↦ (close_link m, link_request j.id (fields (trim_space m.link_buf)))
  ]

  unfoldable pub link_input : KeyPressMsg → Model env → Model env × JobsCmd
  unfolding send_link
  link_input msg m =
      if is_back msg
      then (close_link m, nothing)
      else if is_enter msg
      then send_link m
      else if is_key msg (codes "backspace" ∷ [])
      then (record m { link_buf = erased m.link_buf }, nothing)
      else (record m { link_buf = m.link_buf ++ key_text msg }, nothing)

  abbrev pub close_unlink : Model env → Model env
  close_unlink m = record m { unlinking_rel = false; unlink_buf = [] }

  unfoldable pub send_unlink : Model env → Model env × JobsCmd
  unfolding unlinked_id
  send_unlink m =
      let value = trim_space m.unlink_buf in
      elim m.detail [
        | none ↦ (close_unlink m, nothing)
        | some j ↦
            if is_empty value
            then (close_unlink m, nothing)
            else (close_unlink m, archive_relationship (unlinked_id value m.detail_rels))
      ]

  unfoldable pub unlink_input : KeyPressMsg → Model env → Model env × JobsCmd
  unfolding send_unlink
  unlink_input msg m =
      if is_back msg
      then (close_unlink m, nothing)
      else if is_enter msg
      then send_unlink m
      else if is_key msg (codes "backspace" ∷ [])
      then (record m { unlink_buf = erased m.unlink_buf }, nothing)
      else (record m { unlink_buf = m.unlink_buf ++ key_text msg }, nothing)

  -- The prompts on the context of a job.
  abbrev pub close_context : Model env → Model env
  close_context m = record m {
    context_linking = false;
    context_link_buf = [];
    context_creating = false;
    context_create_buf = [];
  }

  abbrev no_job : JobsCmd
  no_job = fail (codes "no job selected")

  unfoldable pub send_context_link : Model env → Model env × JobsCmd
  send_context_link m =
      let value = trim_space m.context_link_buf in
      if is_empty value then (m, fail (codes "context id is required")) else (
        record m { context_linking = false; context_link_buf = []; context_loading = true },
        elim m.detail [ none ↦ no_job | some j ↦ link_context j.id value ],
      )

  unfoldable pub send_context_create : Model env → Model env × JobsCmd
  send_context_create m =
      let title = trim_space m.context_create_buf in
      if is_empty title then (m, fail (codes "context title is required")) else (
        record m { context_creating = false; context_create_buf = []; context_loading = true },
        elim m.detail [ none ↦ no_job | some j ↦ create_context j.id title ],
      )

  -- The text of every open prompt is changed.
  abbrev edit_context : (Text → Text) → Model env → Model env
  edit_context change m = record m {
    context_link_buf = if m.context_linking then change m.context_link_buf else m.context_link_buf;
    context_create_buf =
        if m.context_creating then change m.context_create_buf else m.context_create_buf;
  }

  unfoldable pub context_prompt_keys : KeyPressMsg → Model env → Model env × JobsCmd
  unfolding send_context_link send_context_create
  context_prompt_keys msg m =
      if is_back msg
      then (close_context m, nothing)
      else if is_key msg (codes "enter" ∷ [])
      then (if m.context_linking
          then send_context_link m
          else if m.context_creating
          then send_context_create m
          else (m, nothing))
      else if is_key msg erase_keys
      then (edit_context erased m, nothing)
      else if is_key msg clear_keys
      then (edit_context (λ buf. []) m, nothing)
      else (edit_context (λ buf. buf ++ key_text msg) m, nothing)
