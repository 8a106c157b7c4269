-- ===== src/Startup/Hints.antt =====
-- The application recognises what the client reports of keys and of conflicts.
use nebula_core.Prelude.{
  ℕ, ◌≡◌, refl, ap, ◌∙◌, subst⁻¹, Bool, true, false, ◌||◌, ◌++◌, if_cases, is_empty, arith, any,
}
use nebula_core.Text.{
  Text, codes, text_eq, to_lower, trim_space, trim_left, trim_right, is_space, has_prefix, cut,
}
use nebula_core.ApiErrors.{
  upper, to_upper, is_code_letter, all_code_letters, code_parts, parse_error_code,
  is_multi_api_conflict_text, should_normalize_invalid_api_key, normalized_auth_detail,
  normalize_api_error,
}
use nebula_core.ApiErrors.Codes.{trim_right-append, trim_left-append}
use nebula_core.Startup.{
  parse_error_code_and_message, should_show_recovery_hints, should_show_multi_api_recovery_hint,
}

-- The application shows a hint on the error.
abbrev pub is_hinted : Text → Bool
is_hinted err_text =
    let parsed = parse_error_code_and_message err_text in
    should_show_multi_api_recovery_hint parsed.0 parsed.1 err_text
    || should_show_recovery_hints parsed.0 parsed.1

abbrev conflict : Text
conflict = codes "MULTIPLE_API_INSTANCES_DETECTED: multiple api instances detected"

conflict-hinted : is_hinted conflict ≡ true
unfolding parse_error_code_and_message parse_error_code code_parts
    should_show_multi_api_recovery_hint trim_space trim_left trim_right is_space cut to_upper upper
    has_prefix all_code_letters is_code_letter text_eq
conflict-hinted = refl

abbrev key_code : Text
key_code = codes "INVALID_API_KEY"

key_letters : any is_space (codes "INVALID_API_KEY:") ≡ false
unfolding is_space
key_letters = refl

unspaced_I : is_space b'I' ≡ false
unfolding is_space
unspaced_I = refl

key-trimmed :
    (d : Text)
    → trim_space (codes "INVALID_API_KEY:" ++ d) ≡ codes "INVALID_API_KEY:" ++ trim_right is_space d
unfolding trim_space
key-trimmed d =
    ap (trim_right is_space) (trim_left-append b'I' (codes "NVALID_API_KEY:" ++ d) unspaced_I)
    ∙ trim_right-append (codes "INVALID_API_KEY:") d key_letters

key-parsed :
    (d : Text) → parse_error_code (codes "INVALID_API_KEY:" ++ d) ≡ (key_code, trim_space d)
unfolding parse_error_code code_parts trim_space trim_left trim_right is_space cut to_upper upper
    has_prefix all_code_letters is_code_letter
key-parsed d = refl

key-read :
    (d : Text)
    → parse_error_code_and_message (codes "INVALID_API_KEY:" ++ d)
      ≡ (key_code, trim_space (trim_right is_space d))
unfolding parse_error_code_and_message
key-read d = rw (key-trimmed d, key-parsed (trim_right is_space d)) refl

key_hints : (msg : Text) → should_show_recovery_hints key_code msg ≡ true
unfolding should_show_recovery_hints trim_space trim_left trim_right is_space to_upper upper text_eq
key_hints msg = refl

with_hint : (a b : Bool) → b ≡ true → (a || b) ≡ true
with_hint a b h = ground arith

key-hinted : (d : Text) → is_hinted (codes "INVALID_API_KEY: " ++ d) ≡ true
key-hinted d =
    let t = codes "INVALID_API_KEY: " ++ d in
    let shown : (p : Text × Text)
        → p ≡ (key_code, trim_space (trim_right is_space (codes " " ++ d)))
        → (should_show_multi_api_recovery_hint p.0 p.1 t || should_show_recovery_hints p.0 p.1)
          ≡ true =
      λ p e.
        subst⁻¹
          (λ q.
            (should_show_multi_api_recovery_hint q.0 q.1 t || should_show_recovery_hints q.0 q.1)
            ≡ true)
          e
          (with_hint
            (should_show_multi_api_recovery_hint key_code
              (trim_space (trim_right is_space (codes " " ++ d))) t)
            _ (key_hints (trim_space (trim_right is_space (codes " " ++ d))))) in
    shown (parse_error_code_and_message t) (key-read (codes " " ++ d))

-- An answer that tells of a conflict of API processes, or of a bad key, becomes an error on which
-- the application shows a hint.
pub is_hinted-normalize_api_error :
    (status_code : ℕ) (msg : Text)
    → is_empty (trim_space msg) ≡ false
    → (is_multi_api_conflict_text (to_lower (trim_space msg))
        || should_normalize_invalid_api_key status_code (to_lower (trim_space msg)))
      ≡ true
    → is_hinted (normalize_api_error status_code msg) ≡ true
unfolding normalize_api_error
is_hinted-normalize_api_error status_code msg h g =
    let lower = to_lower (trim_space msg) in
    if_cases Hinted (is_empty (trim_space msg)) _ _ (λ e. absurd (ground arith))
      λ _.
        if_cases Hinted (is_multi_api_conflict_text lower) _ _ (λ _. conflict-hinted)
          λ n.
            if_cases Hinted (should_normalize_invalid_api_key status_code lower) _ _
              (λ _. key-hinted (normalized_auth_detail (trim_space msg)))
              (λ e. absurd (ground arith))
  where
    Hinted : Text → Type 0
    Hinted t = is_hinted t ≡ true
