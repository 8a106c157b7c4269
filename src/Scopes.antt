-- ===== src/Scopes.antt =====
-- Scopes, tags and the bulk edit line: cli/src/internal/ui/scopes.go, context.go, metadata.go and
-- entities.go.
pub mod Lists
pub mod Slugs
pub mod Bulk
use nebula_core.Prelude.{
  ◌==◌, Bool, true, false, ◌||◌, List, [], ◌∷◌, ◌++◌, if◌then◌else◌, is_empty, drop,
}
use nebula_core.Text.{
  Text, codes, text_eq, to_lower, trim_space, trim_prefix, has_prefix, split, fields, fields_func,
  join, replace_byte,
}
use nebula_core.StringSet.{mem, insert}

-- scopeSelected
unfoldable pub scope_selected : List Text → Text → Bool
scope_selected [] scope = false
scope_selected (s ∷ scopes) scope = text_eq s scope || scope_selected scopes scope

-- The loop of toggleScope: what is kept, and whether the scope was met.
unfoldable pub without_scope : List Text → Text → List Text × Bool
without_scope [] scope = ([], false)
without_scope (s ∷ scopes) scope =
    let rest = without_scope scopes scope in
    if text_eq s scope then (rest.0, true) else (s ∷ rest.0, rest.1)

unfoldable pub toggle_scope : List Text → Text → List Text
unfolding without_scope
toggle_scope scopes scope =
    let (out, removed) = without_scope scopes scope in if removed then out else out ++ (scope ∷ [])

-- The loop that normalizeScopeList, normalizeBulkScopes, normalizeBulkTags and dedup share: each
-- normalised value that is not empty, the first time that it is met.
unfoldable pub collect : (Text → Text) → List Text → List Text → List Text
collect norm seen [] = []
collect norm seen (v ∷ vs) =
    let x = norm v in
    let skip = is_empty x || mem x seen in
    let next = collect norm (if skip then seen else insert x seen) vs in
    if skip then next else x ∷ next

abbrev pub scope_of : Text → Text
scope_of v = trim_prefix (codes "#") (to_lower (trim_space v))

unfoldable pub normalize_scope_list : List Text → List Text
unfolding collect
normalize_scope_list values = collect scope_of [] values

unfoldable pub normalize_bulk_scopes : List Text → List Text
unfolding collect
normalize_bulk_scopes values = collect scope_of [] values

unfoldable pub normalize_tag : Text → Text
normalize_tag s =
    join (codes "-")
      (fields (replace_byte b'_' b'-' (to_lower (trim_prefix (codes "#") (trim_space s)))))

unfoldable pub normalize_scope : Text → Text
normalize_scope s = join (codes "-") (fields (to_lower (trim_prefix (codes "#") (trim_space s))))

unfoldable pub normalize_bulk_tags : List Text → List Text
unfolding collect
normalize_bulk_tags values = collect normalize_tag [] values

unfoldable pub dedup : List Text → List Text
unfolding collect
dedup ss = collect (λ s. s) [] ss

-- The trimmed values that are not empty.
unfoldable pub trimmed : List Text → List Text
trimmed [] = []
trimmed (p ∷ parts) =
    let val = trim_space p in let rest = trimmed parts in if is_empty val then rest else val ∷ rest

unfoldable pub parse_comma_separated : Text → List Text
unfolding trimmed
parse_comma_separated s = trimmed (split b',' s)

pub data BulkOp : Type 0 where
  op_add op_remove op_set : BulkOp

pub record BulkInput : Type 0 where
  pub op : BulkOp
  pub values : List Text

pub data BulkResult : Type 0 where
  parsed : BulkInput → BulkResult
  no_input : BulkResult
  no_values : BulkResult

-- The operation that the line begins with, and what follows it.
unfoldable pub bulk_op : Text → BulkOp × Text
bulk_op input =
    let low = to_lower input in
    if has_prefix (codes "add:") low
    then (op_add, drop 4 input)
    else if has_prefix (codes "remove:") low
    then (op_remove, drop 7 input)
    else if has_prefix (codes "set:") low
    then (op_set, drop 4 input)
    else if has_prefix (codes "+") input
    then (op_add, drop 1 input)
    else if has_prefix (codes "-") input
    then (op_remove, drop 1 input)
    else if has_prefix (codes "=") input
    then (op_set, drop 1 input)
    else (op_add, input)

abbrev pub is_separator : Prim.Native.Nat.ℕ → Bool
is_separator r = r == b',' || r == b' '

abbrev may_be_empty : BulkOp → Bool
may_be_empty op_add = false
may_be_empty op_remove = false
may_be_empty op_set = true

unfoldable pub bulk_result : BulkOp → List Text → BulkResult
bulk_result op values =
    if is_empty values
    then if may_be_empty op then parsed (record { op = op; values = values }) else no_values
    else parsed (record { op = op; values = values })

unfoldable pub parse_bulk_input : Text → BulkResult
unfolding bulk_op bulk_result trimmed
parse_bulk_input raw =
    let input = trim_space raw in
    let (op, rest) = bulk_op input in
    if is_empty input then no_input else bulk_result op (trimmed (fields_func is_separator rest))
