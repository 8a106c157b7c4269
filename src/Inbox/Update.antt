-- ===== src/Inbox/Update.antt =====
-- The dispatch of messages in the inbox (inbox.go: Update).
use nebula_core.Prelude.{◌==◌, true, false, ◌||◌, Option, none, some, List, [], ◌∷◌, if◌then◌else◌}
use nebula_core.Text.{Text, codes, text_eq}
use nebula_core.Keys.{KeyPressMsg, is_key, is_back, is_up, is_down, is_enter, is_space}
use nebula_core.Value.{Value, Fields, put_field}
use nebula_core.Inbox.State.{
  Approval, InboxModel, Msg, tick, approvals_loaded, approval_done, approval_diff_loaded, key_press,
  Cmd, no_cmd, load_approvals, load_approval_diff,
}
use nebula_core.Inbox.Select.{
  Env, apply_filter, selected_item, select_all_filtered, toggle_select_all, toggle_selected,
  selected_count,
}
use nebula_core.Inbox.Grant.{parse_approval_change_details}
use nebula_core.Inbox.Flow.{
  approve_selected, begin_approve_flow, handle_detail_keys, handle_grant_input, handle_filter_input,
  handle_reject_input, start_reject, handle_reject_preview,
}

module _ {Table Time Duration : Type 0} (env : Env Table Time Duration) where
  abbrev Model : Type 0
  Model = InboxModel Table Time

  -- A map that is not nil.
  made : Option Fields → Fields
  made none = Fields.end
  made (some fs) = fs

  -- The change map that receives the server's diff: the one at hand, or else that of the approval.
  change_map : Approval Time → Option Fields → Fields
  unfolding made
  change_map a none = made (parse_approval_change_details env.decode a.change_details)
  change_map a (some fs) = fs

  unfoldable pub on_diff : Text → Fields → Model → Model
  unfolding change_map
  on_diff id changes m = elim m.detail [
    | none ↦ m
    | some a ↦
        if text_eq a.id id
        then record m {
          detail_change_map =
              some (
                put_field (codes "changes") (Value.obj changes) (change_map a m.detail_change_map));
        }
        else m
  ]

  unfoldable pub on_approval_done : Model → Model
  on_approval_done m = record m {
    detail = none;
    rejecting = false;
    reject_preview = false;
    reject_buf = [];
    bulk_reject_ids = [];
    confirming = false;
    selected = [];
    loading = true;
  }

  unfoldable pub confirm_keys : KeyPressMsg → Model → Model × Cmd
  confirm_keys msg m =
      if is_key msg (codes "y" ∷ []) || is_enter msg
      then approve_selected env (record m { confirming = false })
      else if is_key msg (codes "n" ∷ []) || is_back msg
      then (record m { confirming = false }, no_cmd)
      else (m, no_cmd)

  -- The row under the cursor is opened.
  unfoldable pub open_detail : Model → Model × Cmd
  open_detail m = elim (selected_item env.table_api m) [
    | none ↦ (m, no_cmd)
    | some item ↦ (
      record m {
        detail = some item;
        detail_change_map = parse_approval_change_details env.decode item.change_details;
      },
      load_approval_diff item.id,
    )
  ]

  unfoldable pub approve_all : Model → Model
  approve_all m =
      let chosen = if selected_count m == 0 then select_all_filtered m else m in
      record chosen { confirming = true }

  unfoldable pub list_keys : KeyPressMsg → Model → Model × Cmd
  list_keys msg m =
      if is_down msg
      then (record m { data_table = env.table_api.move_down m.data_table }, no_cmd)
      else if is_up msg
      then (record m { data_table = env.table_api.move_up m.data_table }, no_cmd)
      else if is_space msg
      then (toggle_selected env.table_api m, no_cmd)
      else if is_enter msg
      then open_detail m
      else if is_key msg (codes "a" ∷ [])
      then begin_approve_flow env m
      else if is_key msg (codes "A" ∷ [])
      then (approve_all m, no_cmd)
      else if is_key msg (codes "r" ∷ [])
      then start_reject env m
      else if is_key msg (codes "f" ∷ [])
      then (record m { filtering = true }, no_cmd)
      else if is_key msg (codes "b" ∷ [])
      then (toggle_select_all m, no_cmd)
      else if is_back msg
      then (record m { selected = [] }, no_cmd)
      else (m, no_cmd)

  -- The keys where no dialogue is open.
  unfoldable pub browse_keys : Option (Approval Time) → KeyPressMsg → Model → Model × Cmd
  browse_keys (some a) msg m = handle_detail_keys env msg m
  browse_keys none msg m = list_keys msg m

  unfoldable pub on_key : KeyPressMsg → Model → Model × Cmd
  on_key msg m =
      if m.confirming
      then confirm_keys msg m
      else if m.reject_preview
      then handle_reject_preview env msg m
      else if m.grant_editing
      then handle_grant_input env msg m
      else if m.filtering
      then handle_filter_input env msg m
      else if m.rejecting
      then handle_reject_input env msg m
      else browse_keys m.detail msg m

  unfoldable pub update : Msg Time → Model → Model × Cmd
  update tick m = (m, no_cmd)
  update (approvals_loaded items) m =
      (apply_filter env true (record m { loading = false; items = items }), no_cmd)
  update (approval_done id) m = (on_approval_done m, load_approvals)
  update (approval_diff_loaded id changes) m = (on_diff id changes m, no_cmd)
  update (key_press msg) m = on_key msg m

  -- A session: the messages in the order in which they arrive.
  unfoldable pub run : List (Msg Time) → Model → Model
  run [] m = m
  run (msg ∷ msgs) m = run msgs (update msg m).0
