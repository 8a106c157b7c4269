-- ===== src/Inbox/Consent.antt =====
-- What the inbox asks of the server, and after which keys.
use nebula_core.Prelude.{
  ◌≡◌, refl, Bool, true, false, ◌||◌, Option, none, some, [], ◌∷◌, arith, is_empty, Bool-cases, inl,
  inr, if_cases,
}
use nebula_core.Text.{codes}
use nebula_core.Keys.{KeyPressMsg, is_key, is_enter}
use nebula_core.Inbox.State.{
  Approval, InboxModel, Msg, tick, approvals_loaded, approval_done, approval_diff_loaded, key_press,
  Cmd, approve_requests, approve_with_input, reject_requests,
}
use nebula_core.Inbox.Select.{Env, selected_item, selected_ids}
use nebula_core.Inbox.Grant.{parse_scopes_csv}
use nebula_core.Inbox.Flow.{
  target_ids, approve_selected, begin_approve_flow, handle_detail_keys, handle_grant_input,
  submit_grant, handle_filter_input, reject_keys, handle_reject_input, start_reject,
  handle_reject_preview,
}
use nebula_core.Inbox.Update.{confirm_keys, open_detail, list_keys, browse_keys, on_key, update}

abbrev pub yes_key : KeyPressMsg → Bool
yes_key k = is_key k (codes "y" ∷ []) || is_enter k

module _ {Table Time Duration : Type 0} (env : Env Table Time Duration) where
  -- Why a command that decides a request may be sent by a message: its dialogue is open, the key
  -- confirms it, and the command carries what the dialogue shows.
  abbrev pub Authorised : InboxModel Table Time → Msg Time → Cmd → Type 0
  Authorised m (key_press k) (approve_requests ids) =
      (m.confirming ≡ true) × (yes_key k ≡ true) × (ids ≡ target_ids env m) × (is_empty ids ≡ false)
  Authorised m (key_press k) (approve_with_input id scopes trusted) =
      (m.grant_editing ≡ true)
      × (is_enter k ≡ true)
      × (id ≡ m.grant_approval)
      × (scopes ≡ parse_scopes_csv m.grant_scopes)
      × (is_empty scopes ≡ false)
      × (trusted ≡ m.grant_trusted)
  Authorised m (key_press k) (reject_requests ids notes) =
      (m.reject_preview ≡ true)
      × (yes_key k ≡ true)
      × (ids ≡ m.bulk_reject_ids)
      × (notes ≡ m.reject_buf)
  Authorised m msg (approve_requests ids) = ⊥
  Authorised m msg (approve_with_input id scopes trusted) = ⊥
  Authorised m msg (reject_requests ids notes) = ⊥
  Authorised m msg cmd = Unit

  -- A command that decides no request.
  abbrev Harmless : Cmd → Type 0
  Harmless (approve_requests ids) = ⊥
  Harmless (approve_with_input id scopes trusted) = ⊥
  Harmless (reject_requests ids notes) = ⊥
  Harmless cmd = Unit

  Authorised-of_Harmless :
      (m : InboxModel Table Time) (k : KeyPressMsg) (c : Cmd)
      → Harmless c
      → Authorised m (key_press k) c
  Authorised-of_Harmless m k (approve_requests ids) h = absurd h
  Authorised-of_Harmless m k (approve_with_input id scopes trusted) h = absurd h
  Authorised-of_Harmless m k (reject_requests ids notes) h = absurd h
  Authorised-of_Harmless m k _ h = tt

  module _ (k : KeyPressMsg) (m : InboxModel Table Time) where
    -- Closing the dialogue does not change what is approved.
    target_ids_closed : target_ids env (record m { confirming = false }) ≡ target_ids env m
    unfolding target_ids selected_ids selected_item
    target_ids_closed = refl

    approve_selected-Authorised :
        m.confirming ≡ true
        → yes_key k ≡ true
        → Authorised m (key_press k) (approve_selected env (record m { confirming = false })).1
    unfolding approve_selected
    approve_selected-Authorised h y = elim (Bool-cases (is_empty (target_ids env m))) [
      | inl e ↦ rw (target_ids_closed, e) tt
      | inr e ↦ rw (target_ids_closed, e) (h, y, refl, e)
    ]

    confirm_keys-Authorised :
        m.confirming ≡ true → Authorised m (key_press k) (confirm_keys env k m).1
    unfolding confirm_keys
    confirm_keys-Authorised h = elim (Bool-cases (yes_key k)) [
      | inl y ↦ rw y (approve_selected-Authorised h y)
      | inr n ↦ rw n (ground arith)
    ]

    begin_approve_flow-Harmless : Harmless (begin_approve_flow env m).1
    unfolding begin_approve_flow
    begin_approve_flow-Harmless = ground arith

    detail-Harmless : Harmless (handle_detail_keys env k m).1
    unfolding handle_detail_keys
    detail-Harmless = ground (arith, begin_approve_flow-Harmless)

    filter-Harmless : Harmless (handle_filter_input env k m).1
    unfolding handle_filter_input
    filter-Harmless = ground arith

    reject_input-Harmless : Harmless (handle_reject_input env k m).1
    unfolding handle_reject_input reject_keys
    reject_input-Harmless = ground arith

    start_reject-Harmless : Harmless (start_reject env m).1
    unfolding start_reject
    start_reject-Harmless = ground arith

    list-Harmless : Harmless (list_keys env k m).1
    unfolding list_keys open_detail
    list-Harmless = ground (arith, begin_approve_flow-Harmless, start_reject-Harmless)

    grant-Authorised :
        m.grant_editing ≡ true → Authorised m (key_press k) (handle_grant_input env k m).1
    unfolding handle_grant_input submit_grant
    grant-Authorised h = ground arith

    preview-Authorised :
        m.reject_preview ≡ true → Authorised m (key_press k) (handle_reject_preview env k m).1
    unfolding handle_reject_preview
    preview-Authorised h = ground arith

    browse-Harmless : (d : Option (Approval Time)) → Harmless (browse_keys env d k m).1
    unfolding browse_keys
    browse-Harmless none = list-Harmless
    browse-Harmless (some a) = detail-Harmless

    abbrev SentBy : InboxModel Table Time × Cmd → Type 0
    SentBy r = Authorised m (key_press k) r.1

    on_key-Authorised : SentBy (on_key env k m)
    unfolding on_key
    on_key-Authorised = if_cases SentBy m.confirming _ _ confirm_keys-Authorised λ _.
        if_cases SentBy m.reject_preview _ _ preview-Authorised λ _.
          if_cases SentBy m.grant_editing _ _ grant-Authorised λ _.
            if_cases SentBy m.filtering _ _
              (λ _. Authorised-of_Harmless m k (handle_filter_input env k m).1 filter-Harmless)
              λ _.
                if_cases SentBy m.rejecting _ _
                  (λ _.
                    Authorised-of_Harmless m k (handle_reject_input env k m).1
                      reject_input-Harmless)
                  λ _.
                    Authorised-of_Harmless m k (browse_keys env m.detail k m).1
                      (browse-Harmless m.detail)

  -- A command that decides requests is sent only by the confirming key of the dialogue that shows
  -- them, and carries exactly what the dialogue shows: the target ids, the reviewer's grants, or
  -- the ids and notes of the rejection. In no other state and by no other message is a request
  -- approved or rejected.
  pub update-Authorised :
      (msg : Msg Time) (m : InboxModel Table Time) → Authorised m msg (update env msg m).1
  unfolding update
  update-Authorised tick m = tt
  update-Authorised (approvals_loaded items) m = tt
  update-Authorised (approval_done id) m = tt
  update-Authorised (approval_diff_loaded id changes) m = tt
  update-Authorised (key_press k) m = on_key-Authorised k m
