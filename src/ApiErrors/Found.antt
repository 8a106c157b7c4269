-- ===== src/ApiErrors/Found.antt =====
-- An error that is found is never blank.
use nebula_core.Prelude.{
  ◌≡◌, refl, false, not, ◌&&◌, Option, none, some, List, [], ◌∷◌, ◌++◌, if_cases, is_empty, All,
  arith,
}
use nebula_core.Text.{Text, codes, text_eq, trim_space, join}
use nebula_core.Value.{Value, null, bool, num, str, arr, obj, Items, nil, cons, Fields, end, field}
use nebula_core.ApiErrors.{
  format_api_error, string_field, nonblank, joined, or_else, with_found, parse_error_value,
  parse_items, parse_field, extract_api_error_body,
}

abbrev pub IsFilled : Text → Type 0
IsFilled s = is_empty s ≡ false

-- There is no error, or one that says something.
abbrev pub IsFound : Option Text → Type 0
IsFound none = Unit
IsFound (some msg) = IsFilled msg

nonblank-IsFound : (s : Text) → IsFound (nonblank s)
unfolding nonblank
nonblank-IsFound s = if_cases IsFound (is_empty (trim_space s)) _ _ (λ _. tt) (λ h. h)

append-IsFilled : (s t : Text) → IsFilled s → IsFilled (s ++ t)
append-IsFilled [] t h = absurd (ground arith)
append-IsFilled (c ∷ s) t h = refl

joined-IsFound : (ss : List Text) → All IsFilled ss → IsFound (joined ss)
unfolding joined join
joined-IsFound [] h = tt
joined-IsFound (s ∷ []) h = h.0
joined-IsFound (s ∷ t ∷ ts) h = append-IsFilled s _ h.0

format_api_error-IsFound : (code message : Text) → IsFound (format_api_error code message)
unfolding format_api_error
format_api_error-IsFound code message =
    let c = trim_space code in
    let m = trim_space message in
    if_cases IsFound (not (is_empty c) && not (is_empty m)) _ _
      (λ h. append-IsFilled c _ (ground arith))
      λ _.
        if_cases IsFound (not (is_empty c)) _ _ (λ h. ground arith)
          λ _. if_cases IsFound (not (is_empty m)) _ _ (λ h. ground arith) (λ _. tt)

or_else-IsFound : (o later : Option Text) → IsFound o → IsFound later → IsFound (or_else o later)
or_else-IsFound none later h g = g
or_else-IsFound (some msg) later h g = h

with_found-IsFilled :
    (o : Option Text) (msgs : List Text)
    → IsFound o
    → All IsFilled msgs
    → All IsFilled (with_found o msgs)
with_found-IsFilled none msgs h g = g
with_found-IsFilled (some msg) msgs h g = (h, g)

mutual
  unfolding parse_error_value parse_items parse_field

  parse_error_value-IsFound : (v : Value) → IsFound (parse_error_value v)
  parse_error_value-IsFound null = tt
  parse_error_value-IsFound (bool b) = tt
  parse_error_value-IsFound (num t) = tt
  parse_error_value-IsFound (str t) = nonblank-IsFound t
  parse_error_value-IsFound (arr items) =
      joined-IsFound (parse_items items) (parse_items-IsFilled items)
  parse_error_value-IsFound (obj fs) =
      or_else-IsFound _ _ (parse_field-IsFound (codes "error") fs) (
        or_else-IsFound _ _
          (format_api_error-IsFound (string_field (codes "code") fs)
            (string_field (codes "message") fs))
          (or_else-IsFound _ _ (parse_field-IsFound (codes "msg") fs)
            (parse_field-IsFound (codes "detail") fs)))

  parse_items-IsFilled : (vs : Items) → All IsFilled (parse_items vs)
  parse_items-IsFilled nil = tt
  parse_items-IsFilled (cons v vs) =
      with_found-IsFilled (parse_error_value v) (parse_items vs) (parse_error_value-IsFound v)
        (parse_items-IsFilled vs)

  parse_field-IsFound : (k : Text) (fs : Fields) → IsFound (parse_field k fs)
  parse_field-IsFound k end = tt
  parse_field-IsFound k (field j v fs) =
      let here = parse_error_value-IsFound v in
      let later = parse_field-IsFound k fs in
      if_cases IsFound (text_eq k j) _ _ (λ _. here) (λ _. later)

envelope-IsFound :
    (o : Option (Text × Text))
    → IsFound (elim o [ none ↦ none | some e ↦ format_api_error e.0 e.1 ])
envelope-IsFound none = tt
envelope-IsFound (some e) = format_api_error-IsFound e.0 e.1

payload-IsFound :
    (o : Option Fields)
    → IsFound (elim o [
      | none ↦ none
      | some fs ↦ or_else (parse_field (codes "error") fs) (parse_field (codes "detail") fs)
    ])
payload-IsFound none = tt
payload-IsFound (some fs) =
    or_else-IsFound _ _ (parse_field-IsFound (codes "error") fs)
      (parse_field-IsFound (codes "detail") fs)

-- Whatever the body of an answer decodes to, the error that is read from it is not empty.
pub extract_api_error_body-IsFound :
    (envelope : Option (Text × Text)) (payload : Option Fields)
    → IsFound (extract_api_error_body envelope payload)
unfolding extract_api_error_body
extract_api_error_body-IsFound envelope payload =
    or_else-IsFound _ _ (envelope-IsFound envelope) (payload-IsFound payload)
