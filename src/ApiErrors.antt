-- ===== src/ApiErrors.antt =====
-- The errors of the API client: cli/src/internal/api/client.go. Sending requests, and decoding with
-- encoding/json, is left out: a body is the value that it decodes to.
use nebula_core.Prelude.{
  ℕ, ◌-◌, ◌≡◌, refl, Bool, true, false, not, ◌&&◌, ◌||◌, Option, none, some, List, [], ◌∷◌, ◌++◌,
  map, any, if◌then◌else◌, ltb, leb, ◌==◌, is_empty,
}
use nebula_core.Text.{Text, codes, text_eq, to_lower, trim_space, has_prefix, contains, cut, join}
use nebula_core.Value.{
  Value, null, bool, num, str, arr, obj, Items, nil, cons, Fields, end, field, get_field,
}
pub mod Found
pub mod Codes

unfoldable pub upper : ℕ → ℕ
upper c = if leb b'a' c && leb c b'z' then c - 32 else c

-- strings.ToUpper
unfoldable pub to_upper : Text → Text
unfolding upper
to_upper s = map upper s

abbrev pub contains_any : List Text → Text → Bool
contains_any parts s = any (λ p. contains p s) parts

abbrev pub has_any_prefix : List Text → Text → Bool
has_any_prefix prefixes s = any (λ p. has_prefix p s) prefixes

unfoldable pub is_code_letter : ℕ → Bool
is_code_letter c = (leb b'A' c && leb c b'Z') || ((leb b'0' c && leb c b'9') || c == b'_')

unfoldable pub all_code_letters : Text → Bool
unfolding is_code_letter
all_code_letters [] = true
all_code_letters (c ∷ s) = is_code_letter c && all_code_letters s

-- What precedes and what follows the colon, where the first is a code.
unfoldable pub code_parts : Text → Option (Text × Text) → Text × Text
unfolding to_upper all_code_letters
code_parts text none = ([], text)
code_parts text (some parts) =
    let code = trim_space parts.0 in
    if is_empty code || has_prefix (codes "HTTP ") (to_upper code)
    then ([], text)
    else if all_code_letters code
    then (code, trim_space parts.1)
    else ([], text)

-- `code: message`, or an empty code and the whole text.
unfoldable pub parse_error_code : Text → Text × Text
unfolding code_parts
parse_error_code text = code_parts text (cut b':' text)

-- The message is none where the result is not `ok`.
unfoldable pub format_api_error : Text → Text → Option Text
format_api_error raw_code raw_message =
    let code = trim_space raw_code in
    let message = trim_space raw_message in
    if not (is_empty code) && not (is_empty message)
    then some (code ++ (codes ": " ++ message))
    else if not (is_empty code)
    then some code
    else if not (is_empty message)
    then some message
    else none

-- value, _ := v.(string)
unfoldable pub string_field : Text → Fields → Text
unfolding get_field
string_field k fs = elim (get_field k fs) [ some (str s) ↦ s | _ ↦ [] ]

unfoldable pub nonblank : Text → Option Text
nonblank s = let t = trim_space s in if is_empty t then none else some t

unfoldable pub joined : List Text → Option Text
joined [] = none
joined (s ∷ ss) = some (join (codes "; ") (s ∷ ss))

abbrev pub or_else : Option Text → Option Text → Option Text
or_else none later = later
or_else (some msg) later = some msg

abbrev pub with_found : Option Text → List Text → List Text
with_found none msgs = msgs
with_found (some msg) msgs = msg ∷ msgs

unfoldable mutual
  unfolding nonblank joined format_api_error string_field

  pub parse_error_value : Value → Option Text
  parse_error_value null = none
  parse_error_value (bool b) = none
  parse_error_value (num t) = none
  parse_error_value (str t) = nonblank t
  parse_error_value (arr items) = joined (parse_items items)
  parse_error_value (obj fs) = or_else (parse_field (codes "error") fs) (
      or_else
        (format_api_error (string_field (codes "code") fs) (string_field (codes "message") fs))
        (or_else (parse_field (codes "msg") fs) (parse_field (codes "detail") fs)))

  -- The messages of the items that have one.
  pub parse_items : Items → List Text
  parse_items nil = []
  parse_items (cons v vs) = with_found (parse_error_value v) (parse_items vs)

  -- parseErrorValue(value[k])
  pub parse_field : Text → Fields → Option Text
  parse_field k end = none
  parse_field k (field j v fs) =
      let here = parse_error_value v in
      let later = parse_field k fs in if text_eq k j then here else later

-- The error of a body: of the envelope where it decodes to one, or of its fields.
unfoldable pub extract_api_error_body : Option (Text × Text) → Option Fields → Option Text
unfolding format_api_error parse_field
extract_api_error_body envelope payload =
    let of_envelope : Option Text = elim envelope [
      | none ↦ none
      | some e ↦ format_api_error e.0 e.1
    ] in
    let of_payload : Option Text = elim payload [
      | none ↦ none
      | some fs ↦ or_else (parse_field (codes "error") fs) (parse_field (codes "detail") fs)
    ] in
    or_else of_envelope of_payload

abbrev pub conflict_texts : List Text
conflict_texts =
    codes "multiple api instances detected"
    ∷ codes "multiple_api_instances_detected"
    ∷ codes "address already in use"
    ∷ codes "eaddrinuse"
    ∷ codes "errno 98"
    ∷ codes "errno 48"
    ∷ []

unfoldable pub is_multi_api_conflict_text : Text → Bool
is_multi_api_conflict_text lower_msg = contains_any conflict_texts lower_msg

abbrev pub key_texts : List Text
key_texts =
    codes "invalid api key"
    ∷ codes "invalid_api_key"
    ∷ codes "auth_required"
    ∷ codes "missing or invalid authorization"
    ∷ codes "not logged in"
    ∷ codes "unauthorized"
    ∷ []

abbrev pub forbidden_texts : List Text
forbidden_texts =
    codes "missing or invalid authorization"
    ∷ codes "invalid authorization"
    ∷ codes "invalid api key"
    ∷ codes "invalid_api_key"
    ∷ codes "api key"
    ∷ []

unfoldable pub should_normalize_invalid_api_key : ℕ → Text → Bool
should_normalize_invalid_api_key status_code lower_msg =
    status_code == 401
    || (contains_any key_texts lower_msg
        || (status_code == 403 && contains_any forbidden_texts lower_msg))

-- What follows the first colon, or the text itself.
unfoldable pub after_colon : Text → Text
after_colon text = elim (cut b':' text) [ none ↦ text | some parts ↦ trim_space parts.1 ]

abbrev pub named_prefixes : List Text
named_prefixes =
    codes "invalid_api_key:"
    ∷ codes "invalid api key:"
    ∷ codes "auth_required:"
    ∷ codes "auth required:"
    ∷ []

abbrev pub bare_details : List Text
bare_details =
    []
    ∷ codes "forbidden"
    ∷ codes "unauthorized"
    ∷ codes "invalid_api_key"
    ∷ codes "invalid api key"
    ∷ codes "auth_required"
    ∷ codes "auth required"
    ∷ []

unfoldable pub normalized_auth_detail : Text → Text
unfolding parse_error_code after_colon
normalized_auth_detail text =
    let parsed = parse_error_code (trim_space text) in
    let bare = if is_empty parsed.0 then trim_space text else parsed.1 in
    let unnamed =
      if has_any_prefix named_prefixes (to_lower bare) then after_colon bare else bare in
    let detail =
      trim_space
        (if has_prefix (codes "http ") (to_lower unnamed) then after_colon unnamed else unnamed) in
    if any (text_eq (to_lower detail)) bare_details then codes "invalid api key" else detail

unfoldable pub normalize_api_error : ℕ → Text → Text
unfolding is_multi_api_conflict_text should_normalize_invalid_api_key normalized_auth_detail
normalize_api_error status_code msg =
    let trimmed = trim_space msg in
    let lower = to_lower trimmed in
    if is_empty trimmed
    then []
    else if is_multi_api_conflict_text lower
    then codes "MULTIPLE_API_INSTANCES_DETECTED: multiple api instances detected"
    else if should_normalize_invalid_api_key status_code lower
    then codes "INVALID_API_KEY: " ++ normalized_auth_detail trimmed
    else trimmed
