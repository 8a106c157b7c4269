-- ===== src/Inbox/State.antt =====
-- The state of the inbox, its messages and its commands (inbox.go, api/types.go). Left out are the
-- spinner, the client and the window size, on which no decision rests.
use nebula_core.Prelude.{ℕ, Bool, false, ℤ, pos, List, [], Option, none}
use nebula_core.Text.{Text}
use nebula_core.Keys.{KeyPressMsg}
use nebula_core.Value.{Fields}

-- `Time` is time.Time.
pub record Approval (Time : Type 0) : Type 0 where
  pub id : Text
  pub job_id : Option Text
  pub request_type : Text
  pub requested_by : Text
  pub requested_by_name : Text
  pub agent_name : Text
  pub change_details : Text
  pub status : Text
  pub notes : Option Text
  pub created_at : Time

pub record InboxModel (Table Time : Type 0) : Type 0 where
  pub items : List (Approval Time)
  pub data_table : Table
  pub loading : Bool
  pub detail : Option (Approval Time)
  pub detail_change_map : Option Fields
  pub filtering : Bool
  pub filter_buf : Text
  pub filtered : List ℕ
  pub selected : List Text
  pub confirming : Bool
  pub confirm_bulk : Bool
  pub rejecting : Bool
  pub reject_preview : Bool
  pub reject_buf : Text
  pub grant_editing : Bool
  pub grant_approval : Text
  pub grant_scopes : Text
  pub grant_trusted : Bool
  pub bulk_reject_ids : List Text
  pub pending_limit : ℤ

-- The fields that `NewInboxModel` leaves out have their zero values.
abbrev pub new_inbox_model : {Table Time : Type 0} → Table → InboxModel Table Time
new_inbox_model table = record {
  items = [];
  data_table = table;
  loading = false;
  detail = none;
  detail_change_map = none;
  filtering = false;
  filter_buf = [];
  filtered = [];
  selected = [];
  confirming = false;
  confirm_bulk = false;
  rejecting = false;
  reject_preview = false;
  reject_buf = [];
  grant_editing = false;
  grant_approval = [];
  grant_scopes = [];
  grant_trusted = false;
  bulk_reject_ids = [];
  pending_limit = pos 500;
}

pub data Msg (Time : Type 0) : Type 0 where
  tick : Msg Time
  approvals_loaded : List (Approval Time) → Msg Time
  approval_done : Text → Msg Time
  approval_diff_loaded : Text → Fields → Msg Time
  key_press : KeyPressMsg → Msg Time

-- What a `tea.Cmd` of the inbox does when it runs.
pub data Cmd : Type 0 where
  no_cmd : Cmd
  load_approvals : Cmd
  load_approval_diff : Text → Cmd
  approve_requests : List Text → Cmd
  approve_with_input : Text → List Text → Bool → Cmd
  reject_requests : List Text → Text → Cmd
  scope_required : Cmd
