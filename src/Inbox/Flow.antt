-- ===== src/Inbox/Flow.antt =====
-- The handlers of the inbox (inbox.go: Update and the methods that it calls). A method returns the
-- new model and the command that it asks for.
use nebula_core.Prelude.{
  true, false, not, ◌||◌, ℤ, pos, Option, none, some, List, [], ◌∷◌, ◌++◌, if◌then◌else◌, is_empty,
  init, leb_ℤ, ltb_ℤ,
}
use nebula_core.Text.{Text, codes, text_eq, join}
use nebula_core.Keys.{KeyPressMsg, is_key, is_back, is_enter, key_text}
use nebula_core.Inbox.State.{
  Approval, InboxModel, Cmd, no_cmd, approve_requests, approve_with_input, reject_requests,
  scope_required,
}
use nebula_core.Inbox.Select.{Env, apply_filter, selected_item, selected_ids, find_approval_by_id}
use nebula_core.Inbox.Grant.{
  parse_scopes_csv, requested_scopes_from_approval, requested_requires_approval_from_approval,
}

unfoldable pub set_pending_limit :
    {Table Time : Type 0} → ℤ → InboxModel Table Time → InboxModel Table Time
set_pending_limit limit m =
    let positive = if leb_ℤ limit (pos 0) then pos 500 else limit in
    record m { pending_limit = if ltb_ℤ (pos 5000) positive then pos 5000 else positive }

module _ {Table Time Duration : Type 0} (env : Env Table Time Duration) where
  abbrev Model : Type 0
  Model = InboxModel Table Time

  -- An approval of which only the id is known.
  bare_approval : Text → Approval Time
  bare_approval id = record {
    id = id;
    job_id = none;
    request_type = [];
    requested_by = [];
    requested_by_name = [];
    agent_name = [];
    change_details = [];
    status = [];
    notes = none;
    created_at = env.zero_time;
  }

  ids_of : Option (Approval Time) → List Text
  ids_of none = []
  ids_of (some a) = a.id ∷ []

  -- The ids that `approveSelected` and `beginApproveFlow` begin with: the selection, or else the
  -- approval in detail, or else the row under the cursor.
  unfoldable pub target_ids : Model → List Text
  unfolding ids_of
  target_ids m =
      let ids = selected_ids m in
      let ids' = if is_empty ids then ids_of m.detail else ids in
      if is_empty ids' then ids_of (selected_item env.table_api m) else ids'

  unfoldable pub approve_selected : Model → Model × Cmd
  approve_selected m =
      let ids = target_ids m in
      if is_empty ids then (m, no_cmd) else (record m { detail = none }, approve_requests ids)

  -- The approval of a single id, if it asks to register an agent.
  unfoldable pub agent_registration : List (Approval Time) → List Text → Option (Approval Time)
  agent_registration items [] = none
  agent_registration items (id ∷ []) = elim (find_approval_by_id id items) [
    | none ↦ none
    | some a ↦ if text_eq a.request_type (codes "register_agent") then some a else none
  ]
  agent_registration items (id ∷ id' ∷ ids) = none

  unfoldable pub begin_approve_flow : Model → Model × Cmd
  begin_approve_flow m = elim (agent_registration m.items (target_ids m)) [
    | none ↦ (record m { confirming = true }, no_cmd)
    | some approval ↦ (
      record m {
        grant_editing = true;
        grant_approval = approval.id;
        grant_scopes = join (codes ",") (requested_scopes_from_approval env.decode approval);
        grant_trusted = requested_requires_approval_from_approval env.decode approval;
      },
      no_cmd,
    )
  ]

  unfoldable pub handle_detail_keys : KeyPressMsg → Model → Model × Cmd
  handle_detail_keys msg m =
      if is_back msg
      then (record m { detail = none }, no_cmd)
      else if is_key msg (codes "a" ∷ [])
      then begin_approve_flow m
      else if is_key msg (codes "r" ∷ [])
      then (record m { rejecting = true; reject_buf = [] }, no_cmd)
      else (m, no_cmd)

  abbrev clear_grant : Model → Model
  clear_grant m = record m {
    grant_editing = false;
    grant_approval = [];
    grant_scopes = [];
    grant_trusted = false;
  }

  -- The scopes of the editor are granted, if there is one.
  unfoldable pub submit_grant : List Text → Model → Model × Cmd
  submit_grant scopes m = if is_empty scopes then (m, scope_required) else (
    record (clear_grant m) { detail = none },
    approve_with_input m.grant_approval scopes m.grant_trusted,
  )

  unfoldable pub handle_grant_input : KeyPressMsg → Model → Model × Cmd
  handle_grant_input msg m =
      if is_back msg
      then (clear_grant m, no_cmd)
      else if is_key msg (codes "t" ∷ [])
      then (record m { grant_trusted = not m.grant_trusted }, no_cmd)
      else if is_enter msg
      then submit_grant (parse_scopes_csv m.grant_scopes) m
      else if is_key msg (codes "backspace" ∷ [])
      then (record m { grant_scopes = init m.grant_scopes }, no_cmd)
      else (record m { grant_scopes = m.grant_scopes ++ key_text msg }, no_cmd)

  unfoldable pub handle_filter_input : KeyPressMsg → Model → Model × Cmd
  handle_filter_input msg m =
      if is_back msg
      then (apply_filter env true (record m { filtering = false; filter_buf = [] }), no_cmd)
      else if is_enter msg
      then (apply_filter env true (record m { filtering = false }), no_cmd)
      else if is_key msg (codes "backspace" ∷ [])
      then if is_empty m.filter_buf
        then (m, no_cmd)
        else (apply_filter env true (record m { filter_buf = init m.filter_buf }), no_cmd)
      else if is_empty (key_text msg)
      then (m, no_cmd)
      else (apply_filter env true (record m { filter_buf = m.filter_buf ++ key_text msg }), no_cmd)

  -- The rejection that is being written is given up.
  abbrev drop_reject : Model → Model
  drop_reject m = record m { rejecting = false; reject_buf = []; bulk_reject_ids = [] }

  -- The keys of `handleRejectInput` where an approval is in detail.
  unfoldable pub reject_keys : KeyPressMsg → Approval Time → Model → Model × Cmd
  reject_keys msg a m =
      if is_back msg
      then (
        record (drop_reject m) { detail = if is_empty m.bulk_reject_ids then m.detail else none },
        no_cmd,
      )
      else if is_enter msg
      then (
        record m {
          rejecting = false;
          reject_preview = true;
          bulk_reject_ids = if is_empty m.bulk_reject_ids then a.id ∷ [] else m.bulk_reject_ids;
        },
        no_cmd,
      )
      else if is_key msg (codes "backspace" ∷ [])
      then (record m { reject_buf = init m.reject_buf }, no_cmd)
      else (record m { reject_buf = m.reject_buf ++ key_text msg }, no_cmd)

  unfoldable pub handle_reject_input : KeyPressMsg → Model → Model × Cmd
  handle_reject_input msg m = elim m.detail [
    | none ↦ (drop_reject m, no_cmd)
    | some a ↦ reject_keys msg a m
  ]

  unfoldable pub start_reject : Model → Model × Cmd
  unfolding bare_approval
  start_reject m = elim (selected_ids m) [
    | id ∷ ids ↦ (
      record m {
        bulk_reject_ids = id ∷ ids;
        rejecting = true;
        reject_preview = false;
        reject_buf = [];
        detail = some (bare_approval id);
      },
      no_cmd,
    )
    | [] ↦ elim (selected_item env.table_api m) [
      | none ↦ (m, no_cmd)
      | some item ↦ (
        record m { detail = some item; rejecting = true; reject_preview = false; reject_buf = [] },
        no_cmd,
      )
    ]
  ]

  unfoldable pub handle_reject_preview : KeyPressMsg → Model → Model × Cmd
  handle_reject_preview msg m =
      if is_key msg (codes "y" ∷ []) || is_enter msg
      then (
        record m { reject_preview = false; reject_buf = []; detail = none; bulk_reject_ids = [] },
        reject_requests m.bulk_reject_ids m.reject_buf,
      )
      else if is_key msg (codes "n" ∷ []) || is_back msg
      then (record m { reject_preview = false; rejecting = true }, no_cmd)
      else (m, no_cmd)
