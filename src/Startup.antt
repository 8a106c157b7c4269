-- ===== src/Startup.antt =====
-- How the application reads errors: cli/src/internal/ui/app.go.
use nebula_core.Prelude.{
  ◌≡◌, Bool, true, false, not, ◌&&◌, ◌||◌, Option, none, some, List, [], ◌∷◌, ◌++◌, any,
  if◌then◌else◌, is_empty,
}
use nebula_core.Text.{Text, codes, text_eq, to_lower, trim_space, has_prefix, contains, cut}
use nebula_core.ApiErrors.{
  to_upper, all_code_letters, contains_any, conflict_texts, parse_error_code,
}
pub mod Hints

unfoldable pub parse_error_code_and_message : Text → Text × Text
unfolding parse_error_code
parse_error_code_and_message err_text =
    let text = trim_space err_text in if is_empty text then ([], []) else parse_error_code text

abbrev pub auth_codes : List Text
auth_codes = codes "INVALID_API_KEY" ∷ codes "AUTH_REQUIRED" ∷ codes "UNAUTHORIZED" ∷ []

abbrev pub hint_texts : List Text
hint_texts =
    codes "invalid api key"
    ∷ codes "invalid_api_key"
    ∷ codes "auth_required"
    ∷ codes "not logged in"
    ∷ codes "missing or invalid authorization"
    ∷ codes "http 401"
    ∷ []

unfoldable pub should_show_recovery_hints : Text → Text → Bool
should_show_recovery_hints code msg =
    let normalized = to_upper (trim_space code) in
    if text_eq normalized (codes "FORBIDDEN")
    then contains (codes "scope") (to_lower msg) || contains (codes "admin") (to_lower msg)
    else any (text_eq normalized) auth_codes || contains_any hint_texts (to_lower msg)

unfoldable pub should_show_multi_api_recovery_hint : Text → Text → Text → Bool
should_show_multi_api_recovery_hint code msg err_text =
    text_eq (to_upper (trim_space code)) (codes "MULTIPLE_API_INSTANCES_DETECTED")
    || contains_any conflict_texts (to_lower (trim_space (msg ++ (codes " " ++ err_text))))

unfoldable pub classify_startup_api : Text → Text
classify_startup_api err_text =
    let lower = to_lower err_text in
    if is_empty (trim_space err_text)
    then codes "ok"
    else if contains (codes "timeout") lower || contains (codes "deadline exceeded") lower
    then codes "timeout"
    else codes "down"

abbrev pub invalid_texts : List Text
invalid_texts =
    codes "invalid api key"
    ∷ codes "invalid_api_key"
    ∷ codes "missing or invalid authorization"
    ∷ codes "auth_required"
    ∷ codes "unauthorized"
    ∷ codes "http 401"
    ∷ codes "http 403"
    ∷ codes "not logged in"
    ∷ []

-- The key of the configuration, none without a configuration.
unfoldable pub classify_startup_auth : Text → Option Text → Text
classify_startup_auth err_text api_key =
    let lower = to_lower err_text in
    let missing : Bool = elim api_key [ none ↦ true | some key ↦ is_empty (trim_space key) ] in
    if missing
    then codes "missing"
    else if is_empty (trim_space err_text)
    then codes "ok"
    else if contains_any conflict_texts lower
    then codes "multi_api_conflict"
    else if contains (codes "http 500") lower || contains (codes "internal server error") lower
    then codes "multi_api_conflict"
    else if contains_any invalid_texts lower
    then codes "invalid"
    else codes "failed"

unfoldable pub classify_startup_taxonomy : Text → Text
classify_startup_taxonomy err_text =
    let lower = to_lower err_text in
    if is_empty (trim_space err_text)
    then codes "ok"
    else if contains (codes "forbidden") lower || contains (codes "scope") lower
    then codes "forbidden"
    else if contains_any (codes "column " ∷ codes "relation " ∷ codes "schema" ∷ []) lower
    then codes "schema_error"
    else codes "failed"
