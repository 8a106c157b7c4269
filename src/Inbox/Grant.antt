-- ===== src/Inbox/Grant.antt =====
-- The grants that an enrolling agent asks for (inbox.go: requestedScopesFromApproval,
-- requestedRequiresApprovalFromApproval, parseApprovalChangeDetails, parseStringList,
-- parseScopesCSV). `decode` is json.Unmarshal into a map.
use nebula_core.Prelude.{Bool, true, Option, none, some, List, [], ◌∷◌, if◌then◌else◌, is_empty}
use nebula_core.Text.{Text, codes, trim_space, split}
use nebula_core.Value.{Value, Items, Fields, get_field, format_v}
use nebula_core.Inbox.State.{Approval}

-- The trimmed parts that are not empty.
unfoldable pub non_blank : List Text → List Text
non_blank [] = []
non_blank (part ∷ parts) =
    let scope = trim_space part in
    let rest = non_blank parts in if is_empty scope then rest else scope ∷ rest

unfoldable pub parse_scopes_csv : Text → List Text
unfolding non_blank
parse_scopes_csv raw = non_blank (split b',' raw)

format_each : Items → List Text
format_each Items.nil = []
format_each (Items.cons v vs) = format_v v ∷ format_each vs

-- A `nil` value and a missing one are both none of the cases of the switch. A decoded value is
-- never a `[]string`.
unfoldable pub parse_string_list : Option Value → List Text
unfolding format_each non_blank parse_scopes_csv
parse_string_list none = []
parse_string_list (some Value.null) = []
parse_string_list (some (Value.bool b)) = []
parse_string_list (some (Value.num n)) = []
parse_string_list (some (Value.str s)) = parse_scopes_csv s
parse_string_list (some (Value.arr vs)) = non_blank (format_each vs)
parse_string_list (some (Value.obj fs)) = []

module _ (decode : Text → Option Fields) where
  -- none is the nil map.
  unfoldable pub parse_approval_change_details : Text → Option Fields
  parse_approval_change_details text = if is_empty text then none else decode text

  -- A read of the nil map finds nothing.
  read : Text → Option Fields → Option Value
  read k none = none
  read k (some fs) = get_field k fs

  unfoldable pub requested_scopes_from_approval : {Time : Type 0} → Approval Time → List Text
  unfolding read
  requested_scopes_from_approval a =
      let raw = read (codes "requested_scopes") (parse_approval_change_details a.change_details) in
      let scopes = parse_string_list raw in if is_empty scopes then codes "public" ∷ [] else scopes

  bool_or_true : Option Value → Bool
  bool_or_true none = true
  bool_or_true (some (Value.bool b)) = b
  bool_or_true (some v) = true

  unfoldable pub requested_requires_approval_from_approval : {Time : Type 0} → Approval Time → Bool
  unfolding read bool_or_true
  requested_requires_approval_from_approval a =
      bool_or_true (
        read (codes "requested_requires_approval") (parse_approval_change_details a.change_details))
