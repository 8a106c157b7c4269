-- ===== src/Tests/Scopes.antt =====
-- Runs of the scope lists and of the bulk edit line.
use nebula_core.Prelude.{◌≡◌, ◌≢◌, refl, true, false, not, ◌&&◌, List, [], ◌∷◌, is_empty}
use nebula_core.Text.{
  Text, codes, text_eq, to_lower, trim_space, trim_prefix, fields, fields_func, has_prefix, join,
  replace_byte,
}
use nebula_core.StringSet.{mem, insert, Distinct}
use nebula_core.Scopes.{
  normalize_scope_list, normalize_tag, scope_of, parse_bulk_input, parsed, op_remove, no_input,
}
use nebula_core.Scopes.Lists.{yields, normalize_scope_list_lem}
use nebula_core.Scopes.Bulk.{IsUsable, parse_bulk_input_lem}

two_scopes :
    normalize_scope_list (codes "#Public" ∷ codes " admin" ∷ codes "public" ∷ [])
    ≡ codes "public" ∷ codes "admin" ∷ []
unfolding normalize_scope_list to_lower trim_space trim_prefix has_prefix mem insert text_eq
two_scopes = refl

snake_tag : normalize_tag (codes " #My_Big  Tag") ≡ codes "my-big-tag"
unfolding normalize_tag to_lower trim_space trim_prefix has_prefix fields join replace_byte
snake_tag = refl

removal :
    parse_bulk_input (codes "- a, b")
    ≡ parsed (record { op = op_remove; values = codes "a" ∷ codes "b" ∷ [] })
unfolding parse_bulk_input to_lower trim_space has_prefix fields_func
removal = refl

abbrev raw_scopes : List Text
raw_scopes = codes "#Public" ∷ codes "" ∷ []

normalize_scope_list_lem_example :
    (mem (codes "public") (normalize_scope_list raw_scopes)
      ≡ (not (is_empty (codes "public")) && yields scope_of (codes "public") raw_scopes))
    × Distinct (normalize_scope_list raw_scopes)
normalize_scope_list_lem_example = normalize_scope_list_lem (codes "public") raw_scopes

parse_bulk_input_lem_example :
    IsUsable (parse_bulk_input (codes "add: x"))
    × ((is_empty (trim_space (codes "add: x")) ≡ true
          → parse_bulk_input (codes "add: x") ≡ no_input)
        × (is_empty (trim_space (codes "add: x")) ≡ false
            → parse_bulk_input (codes "add: x") ≢ no_input))
parse_bulk_input_lem_example = parse_bulk_input_lem (codes "add: x")
