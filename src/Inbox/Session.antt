-- ===== src/Inbox/Session.antt =====
-- Every message keeps the invariant of the inbox.
use nebula_core.Prelude.{
  ◌≡◌, true, false, Option, none, some, List, [], ◌∷◌, arith, is_empty, if_cases, ◌==◌,
}
use nebula_core.Text.{Text, codes}
use nebula_core.Value.{Fields}
use nebula_core.Keys.{KeyPressMsg, is_key, is_back, is_up, is_down, is_enter, is_space, key_text}
use nebula_core.Inbox.State.{
  Approval, InboxModel, new_inbox_model, Msg, tick, approvals_loaded, approval_done,
  approval_diff_loaded, key_press, Cmd,
}
use nebula_core.Inbox.Select.{
  Env, apply_filter, select_all_filtered, toggle_select_all, toggle_selected, selected_count,
}
use nebula_core.Inbox.Flow.{
  approve_selected, begin_approve_flow, handle_detail_keys, handle_grant_input, submit_grant,
  handle_filter_input, reject_keys, handle_reject_input, start_reject, handle_reject_preview,
}
use nebula_core.Inbox.Update.{
  on_diff, on_approval_done, confirm_keys, open_detail, approve_all, list_keys, browse_keys, on_key,
  update, run,
}
use nebula_core.Inbox.Indices.{matching-in_range}
use nebula_core.Inbox.Visible.{
  ShownIn, select_all_filtered-Shown, cleared-Shown, toggle_select_all-Shown, toggle_selected-Shown,
}

module _ {Table Time : Type 0} where
  -- The preview of a rejection shows at least one request.
  abbrev pub Previews : InboxModel Table Time → Type 0
  Previews m = m.reject_preview ≡ true → is_empty m.bulk_reject_ids ≡ false

  pub record IsValid (m : InboxModel Table Time) : Type 0 where
    pub shown : ShownIn m
    pub previews : Previews m

  -- The rows and the selection are left as they are.
  abbrev Kept : InboxModel Table Time → InboxModel Table Time → Type 0
  Kept m r = (r.items ≡ m.items) × (r.filtered ≡ m.filtered) × (r.selected ≡ m.selected)

  ShownIn-of_Kept : (m r : InboxModel Table Time) → Kept m r → ShownIn m → ShownIn r
  ShownIn-of_Kept m r (i, f, s) h = rw (i, f, s) h

module _ {Table Time Duration : Type 0} (env : Env Table Time Duration) where
  apply_filter-Shown : (m : InboxModel Table Time) → ShownIn (apply_filter env true m)
  unfolding apply_filter
  apply_filter-Shown m = record {
    in_range = matching-in_range _ 0 _ m.items (omega arith);
    visible_ids = tt;
    distinct = tt;
  }

  module _ (k : KeyPressMsg) (m : InboxModel Table Time) where
    confirm_keys-Kept : Kept m (confirm_keys env k m).0
    unfolding confirm_keys approve_selected
    confirm_keys-Kept = ground arith

    begin_approve_flow-Kept : Kept m (begin_approve_flow env m).0
    unfolding begin_approve_flow
    begin_approve_flow-Kept = ground arith

    detail-Kept : Kept m (handle_detail_keys env k m).0
    unfolding handle_detail_keys
    detail-Kept = ground (arith, begin_approve_flow-Kept)

    grant-Kept : Kept m (handle_grant_input env k m).0
    unfolding handle_grant_input submit_grant
    grant-Kept = ground arith

    reject_input-Kept : Kept m (handle_reject_input env k m).0
    unfolding handle_reject_input reject_keys
    reject_input-Kept = ground arith

    start_reject-Kept : Kept m (start_reject env m).0
    unfolding start_reject
    start_reject-Kept = ground arith

    preview-Kept : Kept m (handle_reject_preview env k m).0
    unfolding handle_reject_preview
    preview-Kept = ground arith

    open_detail-Kept : Kept m (open_detail env m).0
    unfolding open_detail
    open_detail-Kept = ground arith

    abbrev ShowsIn : InboxModel Table Time × Cmd → Type 0
    ShowsIn r = ShownIn r.0

    filter-Shown : ShownIn m → ShowsIn (handle_filter_input env k m)
    unfolding handle_filter_input
    filter-Shown v =
        if_cases ShowsIn (is_back k) _ _ (λ _. apply_filter-Shown _)
          λ _.
            if_cases ShowsIn (is_enter k) _ _ (λ _. apply_filter-Shown _)
              λ _.
                if_cases ShowsIn (is_key k (codes "backspace" ∷ [])) _ _
                  (λ _.
                    if_cases ShowsIn (is_empty m.filter_buf) _ _ (λ _. v)
                      (λ _. apply_filter-Shown _))
                  (λ _.
                    if_cases ShowsIn (is_empty (key_text k)) _ _ (λ _. v)
                      (λ _. apply_filter-Shown _))

    approve_all-Shown : ShownIn m → ShownIn (approve_all env m)
    unfolding approve_all
    approve_all-Shown v =
        if_cases ShownIn (selected_count m == 0) _ _ (λ _. select_all_filtered-Shown m v) (λ _. v)

    list-Shown : ShownIn m → ShowsIn (list_keys env k m)
    unfolding list_keys
    list-Shown v =
        if_cases ShowsIn (is_down k) _ _ (λ _. v)
          λ _.
            if_cases ShowsIn (is_up k) _ _ (λ _. v)
              λ _.
                if_cases ShowsIn (is_space k) _ _ (λ _. toggle_selected-Shown env.table_api m v)
                  λ _.
                    if_cases ShowsIn (is_enter k) _ _
                      (λ _. ShownIn-of_Kept m (open_detail env m).0 open_detail-Kept v)
                      λ _.
                        if_cases ShowsIn (is_key k (codes "a" ∷ [])) _ _
                          (λ _.
                            ShownIn-of_Kept m (begin_approve_flow env m).0 begin_approve_flow-Kept
                              v)
                          λ _.
                            if_cases ShowsIn (is_key k (codes "A" ∷ [])) _ _
                              (λ _. approve_all-Shown v)
                              λ _.
                                if_cases ShowsIn (is_key k (codes "r" ∷ [])) _ _
                                  (λ _.
                                    ShownIn-of_Kept m (start_reject env m).0 start_reject-Kept v)
                                  λ _.
                                    if_cases ShowsIn (is_key k (codes "f" ∷ [])) _ _ (λ _. v)
                                      λ _.
                                        if_cases ShowsIn (is_key k (codes "b" ∷ [])) _ _
                                          (λ _. toggle_select_all-Shown m v)
                                          λ _.
                                            if_cases ShowsIn (is_back k) _ _
                                              (λ _. cleared-Shown m v) (λ _. v)

    browse-Shown : (d : Option (Approval Time)) → ShownIn m → ShowsIn (browse_keys env d k m)
    unfolding browse_keys
    browse-Shown none v = list-Shown v
    browse-Shown (some a) v = ShownIn-of_Kept m (handle_detail_keys env k m).0 detail-Kept v

    on_key-Shown : ShownIn m → ShowsIn (on_key env k m)
    unfolding on_key
    on_key-Shown v =
        if_cases ShowsIn m.confirming _ _
          (λ _. ShownIn-of_Kept m (confirm_keys env k m).0 confirm_keys-Kept v)
          λ _.
            if_cases ShowsIn m.reject_preview _ _
              (λ _. ShownIn-of_Kept m (handle_reject_preview env k m).0 preview-Kept v)
              λ _.
                if_cases ShowsIn m.grant_editing _ _
                  (λ _. ShownIn-of_Kept m (handle_grant_input env k m).0 grant-Kept v)
                  λ _.
                    if_cases ShowsIn m.filtering _ _ (λ _. filter-Shown v)
                      λ _.
                        if_cases ShowsIn m.rejecting _ _
                          (λ _.
                            ShownIn-of_Kept m (handle_reject_input env k m).0 reject_input-Kept v)
                          λ _. browse-Shown m.detail v

    abbrev PreviewsIn : InboxModel Table Time × Cmd → Type 0
    PreviewsIn r = Previews r.0

    confirm-Previews : Previews m → PreviewsIn (confirm_keys env k m)
    unfolding confirm_keys approve_selected
    confirm-Previews p = ground arith

    preview-Previews : Previews m → PreviewsIn (handle_reject_preview env k m)
    unfolding handle_reject_preview
    preview-Previews p = ground arith

    grant-Previews : Previews m → PreviewsIn (handle_grant_input env k m)
    unfolding handle_grant_input submit_grant
    grant-Previews p = ground arith

    filter-Previews : Previews m → PreviewsIn (handle_filter_input env k m)
    unfolding handle_filter_input apply_filter
    filter-Previews p = ground arith

    reject_input-Previews :
        m.reject_preview ≡ false → Previews m → PreviewsIn (handle_reject_input env k m)
    unfolding handle_reject_input reject_keys
    reject_input-Previews n p = ground arith

    begin-Previews : Previews m → PreviewsIn (begin_approve_flow env m)
    unfolding begin_approve_flow
    begin-Previews p = ground arith

    detail-Previews : Previews m → PreviewsIn (handle_detail_keys env k m)
    unfolding handle_detail_keys
    detail-Previews p = ground (arith, begin-Previews)

    start-Previews : Previews m → PreviewsIn (start_reject env m)
    unfolding start_reject
    start-Previews p = ground arith

    list-Previews : Previews m → PreviewsIn (list_keys env k m)
    unfolding list_keys open_detail approve_all select_all_filtered toggle_select_all
        toggle_selected
    list-Previews p = ground (arith, begin-Previews, start-Previews)

    browse-Previews : (d : Option (Approval Time)) → Previews m → PreviewsIn (browse_keys env d k m)
    unfolding browse_keys
    browse-Previews none p = list-Previews p
    browse-Previews (some a) p = detail-Previews p

    on_key-Previews : Previews m → PreviewsIn (on_key env k m)
    unfolding on_key
    on_key-Previews p =
        if_cases PreviewsIn m.confirming _ _ (λ _. confirm-Previews p)
          λ _.
            if_cases PreviewsIn m.reject_preview _ _ (λ _. preview-Previews p)
              λ n.
                if_cases PreviewsIn m.grant_editing _ _ (λ _. grant-Previews p)
                  λ _.
                    if_cases PreviewsIn m.filtering _ _ (λ _. filter-Previews p)
                      λ _.
                        if_cases PreviewsIn m.rejecting _ _ (λ _. reject_input-Previews n p)
                          λ _. browse-Previews m.detail p

  module _ (id : Text) (changes : Fields) (m : InboxModel Table Time) where
    on_diff-Kept : Kept m (on_diff env id changes m)
    unfolding on_diff
    on_diff-Kept = ground arith

    on_diff-Previews : Previews m → Previews (on_diff env id changes m)
    unfolding on_diff
    on_diff-Previews p = ground arith

  -- Every message keeps the invariant.
  pub update-IsValid :
      (msg : Msg Time) (m : InboxModel Table Time) → IsValid m → IsValid (update env msg m).0
  unfolding update apply_filter
  update-IsValid tick m v = v
  update-IsValid (approvals_loaded items) m v = record {
    shown = apply_filter-Shown (record m { loading = false; items = items });
    previews = v.previews;
  }
  update-IsValid (approval_done id) m v =
      unfold on_approval_done in record { shown = cleared-Shown m v.shown; previews = λ e. cc }
  update-IsValid (approval_diff_loaded id changes) m v = record {
    shown = ShownIn-of_Kept m (on_diff env id changes m) (on_diff-Kept id changes m) v.shown;
    previews = on_diff-Previews id changes m v.previews;
  }
  update-IsValid (key_press k) m v = record {
    shown = on_key-Shown k m v.shown;
    previews = on_key-Previews k m v.previews;
  }

  pub run-IsValid :
      (msgs : List (Msg Time)) (m : InboxModel Table Time) → IsValid m → IsValid (run env msgs m)
  unfolding run
  run-IsValid [] m v = v
  run-IsValid (msg ∷ msgs) m v = run-IsValid msgs _ (update-IsValid msg m v)

  new-IsValid : (table : Table) → IsValid (new_inbox_model {Time = Time} table)
  new-IsValid table = record {
    shown = record { in_range = tt; visible_ids = tt; distinct = tt };
    previews = λ e. cc;
  }

  -- After any messages the inbox that `NewInboxModel` builds has its row indices in range, selects
  -- only ids of visible rows, none of them twice, and never previews an empty rejection.
  pub run-new-IsValid :
      (table : Table) (msgs : List (Msg Time)) → IsValid (run env msgs (new_inbox_model table))
  run-new-IsValid table msgs = run-IsValid msgs _ (new-IsValid table)
