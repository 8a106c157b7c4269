-- ===== src/Metadata/ScopeField.antt =====
-- The scopes kept among the metadata, under the key `scopes`: extractMetadataScopes,
-- stripMetadataScopes and mergeMetadataScopes of cli/src/internal/ui/metadata.go.
use nebula_core.Prelude.{
  ◌≡◌, refl, ap, true, Option, none, some, List, [], ◌∷◌, if◌then◌else◌, is_empty, arith,
  Bool-cases, inl, inr,
}
use nebula_core.Text.{Text, codes, text_eq, trim_space}
use nebula_core.Value.{
  Value, null, bool, num, str, arr, obj, Items, nil, cons, Fields, end, field, get_field, put_field,
  format_v,
}
use nebula_core.Scopes.{normalize_scope_list}
use nebula_core.Metadata.Paths.{get_field-put_field}

unfoldable pub item_texts : Items → List Text
item_texts nil = []
item_texts (cons null xs) = item_texts xs
item_texts (cons (bool b) xs) = format_v (bool b) ∷ item_texts xs
item_texts (cons (num n) xs) = format_v (num n) ∷ item_texts xs
item_texts (cons (str s) xs) = format_v (str s) ∷ item_texts xs
item_texts (cons (arr ys) xs) = format_v (arr ys) ∷ item_texts xs
item_texts (cons (obj fs) xs) = format_v (obj fs) ∷ item_texts xs

-- The texts of the value of `scopes`.
unfoldable pub scope_texts : Option Value → List Text
unfolding item_texts
scope_texts none = []
scope_texts (some v) = elim v [
  | arr xs ↦ item_texts xs
  | str s ↦ if is_empty (trim_space s) then [] else s ∷ []
  | _ ↦ []
]

unfoldable pub extract_metadata_scopes : Fields → List Text
unfolding scope_texts
extract_metadata_scopes fs = normalize_scope_list (scope_texts (get_field (codes "scopes") fs))

-- The fields but for `scopes`; also delete(data, "scopes").
unfoldable pub strip_metadata_scopes : Fields → Fields
strip_metadata_scopes end = end
strip_metadata_scopes (field k v fs) =
    let rest = strip_metadata_scopes fs in
    if text_eq (codes "scopes") k then rest else field k v rest

abbrev text_items : List Text → Items
text_items [] = nil
text_items (t ∷ ts) = cons (str t) (text_items ts)

unfoldable pub merge_metadata_scopes : Fields → List Text → Fields
unfolding strip_metadata_scopes
merge_metadata_scopes fs scopes =
    let clean = normalize_scope_list scopes in
    if is_empty clean
    then strip_metadata_scopes fs
    else put_field (codes "scopes") (arr (text_items clean)) fs

item_texts-text_items : (ts : List Text) → item_texts (text_items ts) ≡ ts
unfolding item_texts format_v
item_texts-text_items [] = refl
item_texts-text_items (t ∷ ts) = ap (◌∷◌ t) (item_texts-text_items ts)

strip-get_field : (fs : Fields) → get_field (codes "scopes") (strip_metadata_scopes fs) ≡ none
unfolding get_field strip_metadata_scopes
strip-get_field end = refl
strip-get_field (field k v fs) = ground (arith, strip-get_field fs)

is_empty→nil : (ts : List Text) → is_empty ts ≡ true → ts ≡ []
is_empty→nil [] e = refl
is_empty→nil (t ∷ ts) e = absurd (ground arith)

-- Whatever scopes the metadata had, those read after a merge are the merged ones, normalised
-- once by the merge and once by the reading.
pub extract-merge_metadata_scopes :
    (fs : Fields) (scopes : List Text)
    → extract_metadata_scopes (merge_metadata_scopes fs scopes)
      ≡ normalize_scope_list (normalize_scope_list scopes)
unfolding extract_metadata_scopes merge_metadata_scopes scope_texts
extract-merge_metadata_scopes fs scopes =
    let clean = normalize_scope_list scopes in
    elim (Bool-cases (is_empty clean)) [
      | inl e ↦ rw (e, strip-get_field fs, is_empty→nil clean e) refl
      | inr e ↦
          rw
            (
              e,
              get_field-put_field (codes "scopes") (arr (text_items clean)) fs,
              item_texts-text_items clean,
            )
            refl
    ]
