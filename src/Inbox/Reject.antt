-- ===== src/Inbox/Reject.antt =====
-- The way of a rejection through the inbox: from the list over the notes and the preview to the
-- server.
use nebula_core.Prelude.{
  String, ◌≡◌, refl, true, false, none, some, List, [], ◌∷◌, ◌++◌, map, arith, is_empty, All,
  append-nil, append_assoc, ap,
}
use nebula_core.Text.{Text, codes}
use nebula_core.Keys.{KeyPressMsg, is_key, is_back, is_up, is_down, is_enter, is_space, key_text}
use nebula_core.Inbox.State.{Approval, InboxModel, key_press, no_cmd, reject_requests}
use nebula_core.Inbox.Select.{Env, selected_ids}
use nebula_core.Inbox.Flow.{reject_keys, handle_reject_input, start_reject, handle_reject_preview}
use nebula_core.Inbox.Update.{list_keys, browse_keys, on_key, update, run}

-- A key that is named by its text.
abbrev pub press : String → KeyPressMsg
press s = record { name = codes s; space_code = false; text = codes s }

-- The key has no meaning of its own in the notes editor.
pub record IsPlain (k : KeyPressMsg) : Type 0 where
  pub not_back : is_back k ≡ false
  pub not_enter : is_enter k ≡ false
  pub not_backspace : is_key k (codes "backspace" ∷ []) ≡ false

abbrev pub typed : List KeyPressMsg → Text
typed [] = []
typed (k ∷ ks) = key_text k ++ typed ks

module _ {Table Time : Type 0} where
  -- No dialogue is open.
  pub record IsIdle (m : InboxModel Table Time) : Type 0 where
    pub not_confirming : m.confirming ≡ false
    pub not_previewing : m.reject_preview ≡ false
    pub not_granting : m.grant_editing ≡ false
    pub not_filtering : m.filtering ≡ false

  -- The notes of a rejection are being written.
  pub record IsWriting (ids : List Text) (notes : Text) (m : InboxModel Table Time) : Type 0 where
    pub idle : IsIdle m
    pub writing : m.rejecting ≡ true
    pub has_detail : (a : Approval Time) × (m.detail ≡ some a)
    pub chosen : m.bulk_reject_ids ≡ ids
    pub written : m.reject_buf ≡ notes

module _ {Table Time Duration : Type 0} (env : Env Table Time Duration) where
  on_key-writing :
      (k : KeyPressMsg) (m : InboxModel Table Time) (ids : List Text) (notes : Text)
      (w : IsWriting ids notes m)
      → on_key env k m ≡ reject_keys env k w.has_detail.0 m
  unfolding on_key handle_reject_input
  on_key-writing k m ids notes w = ground arith

  reject_keys-plain :
      (k : KeyPressMsg) (a : Approval Time) (m : InboxModel Table Time)
      → IsPlain k
      → reject_keys env k a m ≡ (record m { reject_buf = m.reject_buf ++ key_text k }, no_cmd)
  unfolding reject_keys
  reject_keys-plain k a m p = ground arith

  type_key :
      (k : KeyPressMsg) (m : InboxModel Table Time) (ids : List Text) (notes : Text)
      → IsPlain k
      → IsWriting ids notes m
      → IsWriting ids (notes ++ key_text k) (update env (key_press k) m).0
  unfolding update
  type_key k m ids notes p w =
      rw (on_key-writing k m ids notes w, reject_keys-plain k w.has_detail.0 m p)
        (record {
          idle = record {
            not_confirming = w.idle.not_confirming;
            not_previewing = w.idle.not_previewing;
            not_granting = w.idle.not_granting;
            not_filtering = w.idle.not_filtering;
          };
          writing = w.writing;
          has_detail = w.has_detail;
          chosen = w.chosen;
          written = ap (◌++ key_text k) w.written;
        })

  type_keys :
      (ks : List KeyPressMsg) (m : InboxModel Table Time) (ids : List Text) (notes : Text)
      → All IsPlain ks
      → IsWriting ids notes m
      → IsWriting ids (notes ++ typed ks) (run env (map key_press ks) m)
  unfolding run
  type_keys [] m ids notes p w = rw append-nil w
  type_keys (k ∷ ks) m ids notes p w =
      rw (← append_assoc notes (key_text k) (typed ks))
        (type_keys ks _ ids (notes ++ key_text k) p.1 (type_key k m ids notes p.0 w))

  on_key-idle :
      (k : KeyPressMsg) (m : InboxModel Table Time)
      → IsIdle m
      → m.rejecting ≡ false
      → m.detail ≡ none
      → on_key env k m ≡ list_keys env k m
  unfolding on_key browse_keys
  on_key-idle k m i r d = ground arith

  list_keys-r : (m : InboxModel Table Time) → list_keys env (press "r") m ≡ start_reject env m
  unfolding list_keys is_down is_up is_space is_enter is_key
  list_keys-r m = refl

  start :
      (m : InboxModel Table Time) (id : Text) (ids : List Text)
      → IsIdle m
      → m.rejecting ≡ false
      → m.detail ≡ none
      → selected_ids m ≡ id ∷ ids
      → IsWriting (id ∷ ids) [] (update env (key_press (press "r")) m).0
  unfolding update start_reject
  start m id ids i r d s =
      rw (on_key-idle (press "r") m i r d, list_keys-r m, start_reject)
        (rw (s, start_reject)
          (record {
            idle = record {
              not_confirming = i.not_confirming;
              not_previewing = refl;
              not_granting = i.not_granting;
              not_filtering = i.not_filtering;
            };
            writing = refl;
            has_detail = (_, refl);
            chosen = refl;
            written = refl;
          }))

  reject_keys-enter :
      (a : Approval Time) (m : InboxModel Table Time)
      → is_empty m.bulk_reject_ids ≡ false
      → reject_keys env (press "enter") a m
        ≡ (record m { rejecting = false; reject_preview = true }, no_cmd)
  unfolding reject_keys is_back is_enter is_key
  reject_keys-enter a m e = ground arith

  on_key-preview :
      (k : KeyPressMsg) (m : InboxModel Table Time)
      → m.confirming ≡ false
      → m.reject_preview ≡ true
      → on_key env k m ≡ handle_reject_preview env k m
  unfolding on_key
  on_key-preview k m c p = ground arith

  preview-y :
      (m : InboxModel Table Time)
      → (handle_reject_preview env (press "y") m).1 ≡ reject_requests m.bulk_reject_ids m.reject_buf
  unfolding handle_reject_preview is_key
  preview-y m = refl

  submit :
      (m : InboxModel Table Time) (id : Text) (ids : List Text) (notes : Text)
      → IsWriting (id ∷ ids) notes m
      → (on_key env (press "y") (on_key env (press "enter") m).0).1
        ≡ reject_requests (id ∷ ids) notes
  submit m id ids notes w =
      rw
        (
          on_key-writing (press "enter") m (id ∷ ids) notes w,
          reject_keys-enter w.has_detail.0 m (ground (arith, w.chosen)),
          on_key-preview (press "y") (record m { rejecting = false; reject_preview = true })
              w.idle.not_confirming refl,
          preview-y (record m { rejecting = false; reject_preview = true }),
        )
        (ground arith)

  -- With no dialogue open and the selected ids `id ∷ ids`, the key `r`, any plain keys, `enter` and
  -- `y` send the rejection of exactly these ids, with what was typed as its notes.
  pub reject_selected :
      (ks : List KeyPressMsg) (m : InboxModel Table Time) (id : Text) (ids : List Text)
      → All IsPlain ks
      → IsIdle m
      → m.rejecting ≡ false
      → m.detail ≡ none
      → selected_ids m ≡ id ∷ ids
      → let written = run env (key_press (press "r") ∷ map key_press ks) m in
        let previewed = (update env (key_press (press "enter")) written).0 in
        (update env (key_press (press "y")) previewed).1 ≡ reject_requests (id ∷ ids) (typed ks)
  unfolding run update
  reject_selected ks m id ids p i r d s =
      submit _ id ids (typed ks) (type_keys ks _ (id ∷ ids) [] p (start m id ids i r d s))
