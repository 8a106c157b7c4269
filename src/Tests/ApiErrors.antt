-- ===== src/Tests/ApiErrors.antt =====
-- Errors of the server.
use nebula_core.Prelude.{◌≡◌, refl, true, false, ◌||◌, none, some, is_empty}
use nebula_core.Text.{
  Text, codes, to_lower, trim_space, trim_left, trim_right, is_space, contains, has_prefix,
}
use nebula_core.Value.{str, obj, Fields, end, field}
use nebula_core.ApiErrors.{
  all_code_letters, is_code_letter, parse_error_code, format_api_error, extract_api_error_body,
  is_multi_api_conflict_text, should_normalize_invalid_api_key, normalize_api_error,
}
use nebula_core.ApiErrors.Found.{IsFound, extract_api_error_body-IsFound}
use nebula_core.ApiErrors.Codes.{parse-format_api_error}
use nebula_core.Startup.Hints.{is_hinted, is_hinted-normalize_api_error}

-- `{"detail": {"msg": "no such job"}}`
abbrev detail_body : Fields
detail_body = field (codes "detail") (obj (field (codes "msg") (str (codes "no such job")) end)) end

extract_api_error_body-IsFound_example : IsFound (extract_api_error_body none (some detail_body))
extract_api_error_body-IsFound_example = extract_api_error_body-IsFound none (some detail_body)

not_found_letters : all_code_letters (codes "NOT_FOUND") ≡ true
unfolding all_code_letters is_code_letter
not_found_letters = refl

message_trimmed : trim_space (codes "no such job") ≡ codes "no such job"
unfolding trim_space trim_left trim_right is_space
message_trimmed = refl

parse-format_api_error_example :
    (t : Text) × (format_api_error (codes "NOT_FOUND") (codes "no such job") ≡ some t)
    × (parse_error_code t ≡ (codes "NOT_FOUND", codes "no such job"))
parse-format_api_error_example =
    parse-format_api_error (codes "NOT_FOUND") (codes "no such job") not_found_letters refl
      message_trimmed refl

expired_nonblank : is_empty (trim_space (codes "expired")) ≡ false
unfolding trim_space trim_left trim_right is_space
expired_nonblank = refl

expired_reported :
    (is_multi_api_conflict_text (to_lower (trim_space (codes "expired")))
      || should_normalize_invalid_api_key 401 (to_lower (trim_space (codes "expired"))))
    ≡ true
unfolding is_multi_api_conflict_text should_normalize_invalid_api_key to_lower trim_space trim_left
    trim_right is_space contains has_prefix
expired_reported = refl

is_hinted-normalize_api_error_example : is_hinted (normalize_api_error 401 (codes "expired")) ≡ true
is_hinted-normalize_api_error_example =
    is_hinted-normalize_api_error 401 (codes "expired") expired_nonblank expired_reported
