-- ===== src/Inbox/Filter.antt =====
-- The filter of the inbox (inbox.go: parseApprovalFilter, parseFilterTime, matchesApprovalFilter).
-- The rendered line of an approval, formatApprovalLine, is an argument.
use nebula_core.Prelude.{
  Bool, false, not, ◌&&◌, Option, none, some, List, [], ◌∷◌, ◌++◌, if◌then◌else◌, is_empty, every,
}
use nebula_core.Text.{
  Text, codes, text_eq, trim_space, to_lower, fields, has_prefix, has_suffix, trim_prefix,
  trim_suffix, contains,
}
use nebula_core.Inbox.State.{Approval}

-- The package time at the moment of the call: `midnight` is time.Date of today, and `minus t d`
-- is t.Add(-d).
pub record Clock (Time Duration : Type 0) : Type 0 where
  pub now : Time
  pub midnight : Time
  pub minus : Time → Duration → Time
  pub is_before : Time → Time → Bool
  pub day : Duration
  pub times_24 : Duration → Duration
  pub parse_duration : Text → Option Duration
  pub parse_date : Text → Option Time

pub record ApprovalFilter (Time : Type 0) : Type 0 where
  pub agent : Text
  pub req : Text
  pub since : Option Time
  pub terms : List Text

abbrev pub empty_filter : {Time : Type 0} → ApprovalFilter Time
empty_filter = record { agent = []; req = []; since = none; terms = [] }

-- `a`, or `b` where there is none.
abbrev or_else : {A : Type 0} → Option A → Option A → Option A
or_else none b = b
or_else (some a) b = some a

module _ {Time Duration : Type 0} (clock : Clock Time Duration) where
  hours_ago : Text → Option Time
  hours_ago value = elim (clock.parse_duration value) [
    | none ↦ none
    | some dur ↦ some (clock.minus clock.now dur)
  ]

  days_ago : Text → Option Time
  days_ago value = elim (clock.parse_duration (trim_suffix (codes "d") value ++ codes "h")) [
    | none ↦ none
    | some n ↦ some (clock.minus clock.now (clock.times_24 n))
  ]

  parse_filter_time : Text → Option Time
  unfolding hours_ago days_ago
  parse_filter_time raw =
      let value = trim_space (to_lower raw) in
      if text_eq value (codes "today")
      then some clock.midnight
      else if text_eq value (codes "yesterday")
      then some (clock.minus clock.midnight clock.day)
      else or_else (if has_suffix (codes "h") value then hours_ago value else none) (
          or_else (if has_suffix (codes "d") value then days_ago value else none)
            (clock.parse_date value))

  -- The body of the loop over the tokens.
  add_token : Text → ApprovalFilter Time → ApprovalFilter Time
  add_token token filter =
      if has_prefix (codes "agent:") token
      then record filter { agent = to_lower (trim_prefix (codes "agent:") token) }
      else if has_prefix (codes "type:") token
      then record filter { req = to_lower (trim_prefix (codes "type:") token) }
      else if has_prefix (codes "since:") token
      then record filter {
        since = or_else (parse_filter_time (trim_prefix (codes "since:") token)) filter.since;
      }
      else record filter { terms = filter.terms ++ (to_lower token ∷ []) }

  add_tokens : List Text → ApprovalFilter Time → ApprovalFilter Time
  add_tokens [] filter = filter
  add_tokens (token ∷ tokens) filter = add_tokens tokens (add_token token filter)

  unfoldable pub parse_approval_filter : Text → ApprovalFilter Time
  unfolding add_tokens add_token parse_filter_time
  parse_approval_filter raw =
      let text = trim_space raw in
      if is_empty text then empty_filter else add_tokens (fields text) empty_filter

  before_since : Option Time → Time → Bool
  before_since none t = false
  before_since (some s) t = clock.is_before t s

  unfoldable pub matches_approval_filter :
      (Approval Time → Text) → Approval Time → ApprovalFilter Time → Bool
  unfolding before_since
  matches_approval_filter line a filter =
      if not (is_empty filter.agent) && not (contains filter.agent (to_lower a.agent_name))
      then false
      else if not (is_empty filter.req) && not (contains filter.req (to_lower a.request_type))
      then false
      else if before_since filter.since a.created_at
      then false
      else every (λ term. contains term (to_lower (line a))) filter.terms
