-- ===== src/Tests/Inbox.antt =====
-- Runs of the inbox: two pending requests behind a table of native numbers.
use nebula_core.Prelude.{
  ℕ, ◌+◌, ◌-◌, ltb, ◌≡◌, refl, true, false, ◌||◌, ◌&&◌, if◌then◌else◌, ℤ, pos, negsuc, Option, none,
  some, List, [], ◌∷◌, length, get_elem?, String, arith, min,
}
use nebula_core.Text.{Text, codes, text_eq, trim_space}
use nebula_core.StringSet.{mem}
use nebula_core.Table.{TableApi}
use nebula_core.Inbox.State.{
  Approval, InboxModel, new_inbox_model, Msg, approvals_loaded, key_press, reject_requests,
}
use nebula_core.Inbox.Filter.{Clock, parse_approval_filter, matches_approval_filter}
use nebula_core.Inbox.Select.{Env, matching, apply_filter, selected_ids, toggle_select_all}
use nebula_core.Inbox.Update.{update, run}
use nebula_core.Inbox.Indices.{has, holds, Ascending, filtered-apply_filter}
use nebula_core.Inbox.Consent.{Authorised, update-Authorised}
use nebula_core.Inbox.Visible.{visible}
use nebula_core.Inbox.Session.{IsValid, update-IsValid, run-new-IsValid}
use nebula_core.Inbox.Selection.{has_item, toggle_select_all_lem}
use nebula_core.Inbox.Flow.{target_ids, approve_selected}
use nebula_core.Inbox.Targets.{approved, some_selected, falls_back, mem-approve_selected}
use nebula_core.Inbox.Commands.{Outcome, call_each, call_each-Outcome}
use nebula_core.Keys.{is_key, is_back, is_enter}
use nebula_core.Inbox.Reject.{press, typed, IsPlain, reject_selected}

-- The number of rows and the cursor.
abbrev Rows : Type 0
Rows = ℕ × ℕ

abbrev row_cursor : Rows → ℤ
row_cursor (n, c) = if ltb c n then pos c else negsuc 0

abbrev rows_api : TableApi Text Rows
rows_api = record {
  cursor = row_cursor;
  set_rows = λ rows t. (length rows, t.1);
  set_cursor = λ i t. (t.0, elim i [ pos n ↦ n | negsuc n ↦ 0 ]);
  move_down = λ t. (t.0, min (t.1 + 1) (t.0 - 1));
  move_up = λ t. (t.0, t.1 - 1);
}

abbrev noon : Clock ℕ ℕ
noon = record {
  now = 1000;
  midnight = 800;
  minus = λ t d. t - d;
  is_before = ltb;
  day = 24;
  times_24 = λ d. d;
  parse_duration = λ s. none;
  parse_date = λ s. none;
}

abbrev sample_env : Env Rows ℕ ℕ
sample_env = record {
  table_api = rows_api;
  clock = noon;
  decode = λ s. none;
  line = λ a. a.request_type;
  zero_time = 0;
}

abbrev request : String → String → Approval ℕ
request id kind = record {
  id = codes id;
  job_id = none;
  request_type = codes kind;
  requested_by = [];
  requested_by_name = [];
  agent_name = codes "scout";
  change_details = [];
  status = codes "pending";
  notes = none;
  created_at = 900;
}

abbrev two_requests : List (Approval ℕ)
two_requests = request "a1" "create_entity" ∷ request "b2" "update_job" ∷ []

-- The inbox with its two requests, in the list.
abbrev loaded : InboxModel Rows ℕ
loaded = record (new_inbox_model {Time = ℕ} (0, 0)) {
  items = two_requests;
  filtered = 0 ∷ 1 ∷ [];
  data_table = (2, 0);
}

loading_shows_both :
    (update sample_env (approvals_loaded two_requests) (new_inbox_model (0, 0))).0 ≡ loaded
unfolding update apply_filter parse_approval_filter matches_approval_filter matching trim_space
loading_shows_both = refl

-- One request is selected, and the dialogue that approves it is open.
abbrev chosen : InboxModel Rows ℕ
chosen = record loaded { selected = codes "a1" ∷ [] }

abbrev asking : InboxModel Rows ℕ
asking = record chosen { confirming = true }

abbrev pressed : String → Msg ℕ
pressed s = key_press (press s)

chosen_ids : selected_ids chosen ≡ codes "a1" ∷ []
unfolding selected_ids mem text_eq
chosen_ids = refl

filtered-apply_filter_example :
    (has 1 (apply_filter sample_env true loaded).filtered
      ≡ holds
          (λ a. matches_approval_filter noon sample_env.line a (parse_approval_filter noon []))
          (get_elem? two_requests 1))
    × Ascending 0 (apply_filter sample_env true loaded).filtered
filtered-apply_filter_example = filtered-apply_filter sample_env true loaded 1

update-Authorised_example :
    Authorised sample_env asking (pressed "y") (update sample_env (pressed "y") asking).1
update-Authorised_example = update-Authorised sample_env (pressed "y") asking

chosen-IsValid : IsValid chosen
unfolding mem text_eq
chosen-IsValid = record {
  shown = record {
    in_range = (omega arith, (omega arith, tt));
    visible_ids = (refl, tt);
    distinct = (refl, tt);
  };
  previews = λ e. cc;
}

update-IsValid_example : IsValid (update sample_env (pressed "b") chosen).0
update-IsValid_example = update-IsValid sample_env (pressed "b") chosen chosen-IsValid

run-new-IsValid_example : IsValid (
    run sample_env
      (approvals_loaded two_requests ∷ pressed "A" ∷ pressed "y" ∷ [])
      (new_inbox_model (0, 0)))
run-new-IsValid_example =
    run-new-IsValid sample_env (0, 0)
      (approvals_loaded two_requests ∷ pressed "A" ∷ pressed "y" ∷ [])

-- Nothing is selected, and the second request is in detail.
abbrev opened : InboxModel Rows ℕ
opened = record loaded { detail = some (request "b2" "update_job") }

mem-approve_selected_example :
    mem (codes "b2") (approved (approve_selected sample_env opened).1) ≡ (
      if some_selected sample_env opened
      then mem (codes "b2") opened.selected && has_item two_requests (codes "b2")
      else falls_back sample_env opened (codes "b2"))
mem-approve_selected_example = mem-approve_selected sample_env (codes "b2") opened

falls_back_to_detail : mem (codes "b2") (approved (approve_selected sample_env opened).1) ≡ true
unfolding approve_selected target_ids selected_ids mem text_eq
falls_back_to_detail = refl

toggle_select_all_lem_example :
    (((id : Text) → visible two_requests (0 ∷ 1 ∷ []) id ≡ true → mem id chosen.selected ≡ true)
      → (toggle_select_all chosen).selected ≡ [])
    × ((v id : Text)
        → visible two_requests (0 ∷ 1 ∷ []) v ≡ true
        → mem v chosen.selected ≡ false
        → mem id (toggle_select_all chosen).selected
          ≡ (mem id chosen.selected || visible two_requests (0 ∷ 1 ∷ []) id))
toggle_select_all_lem_example = toggle_select_all_lem chosen refl

-- A server that knows only the first request.
abbrev knows_a1 : Text → Option ℕ
knows_a1 id = if text_eq id (codes "a1") then none else some 404

stops_at_b2 :
    call_each knows_a1 (codes "a1" ∷ codes "b2" ∷ codes "c3" ∷ [])
    ≡ (codes "a1" ∷ codes "b2" ∷ [], some 404)
unfolding call_each text_eq
stops_at_b2 = refl

call_each-Outcome_example : Outcome knows_a1 (codes "a1" ∷ codes "b2" ∷ [])
call_each-Outcome_example = call_each-Outcome knows_a1 (codes "a1" ∷ codes "b2" ∷ [])

n-IsPlain : IsPlain (press "n")
unfolding is_back is_enter is_key
n-IsPlain = record { not_back = refl; not_enter = refl; not_backspace = refl }

reject_selected_example :
    let written = run sample_env (pressed "r" ∷ pressed "n" ∷ pressed "n" ∷ []) chosen in
    let previewed = (update sample_env (pressed "enter") written).0 in
    (update sample_env (pressed "y") previewed).1
    ≡ reject_requests (codes "a1" ∷ []) (typed (press "n" ∷ press "n" ∷ []))
reject_selected_example =
    reject_selected sample_env (press "n" ∷ press "n" ∷ []) chosen (codes "a1") []
      (n-IsPlain, (n-IsPlain, tt))
      (record {
        not_confirming = refl;
        not_previewing = refl;
        not_granting = refl;
        not_filtering = refl;
      })
      refl refl chosen_ids
