-- ===== src/Value.antt =====
-- Decoded JSON values (`any`, `map[string]any`, `[]any`). A number is the text that `%v` prints
-- of it, and a map the list of its entries.
use nebula_core.Prelude.{Bool, true, false, List, [], ◌∷◌, ◌++◌, Option, none, some, if◌then◌else◌}
use nebula_core.Text.{Text, codes, text_eq, join}

mutual
  pub data Value : Type 0 where
    null : Value
    bool : Bool → Value
    num : Text → Value
    str : Text → Value
    arr : Items → Value
    obj : Fields → Value

  pub data Items : Type 0 where
    nil : Items
    cons : Value → Items → Items

  pub data Fields : Type 0 where
    end : Fields
    field : Text → Value → Fields → Fields

-- v, ok := m[k]
unfoldable pub get_field : Text → Fields → Option Value
unfolding text_eq
get_field k end = none
get_field k (field j v fs) = if text_eq k j then some v else get_field k fs

-- m[k] = v
unfoldable pub put_field : Text → Value → Fields → Fields
unfolding text_eq
put_field k v end = field k v end
put_field k v (field j w fs) =
    let rest = put_field k v fs in if text_eq k j then field j v fs else field j w rest

-- fmt.Sprintf("%v", v), for the maps whose entries stand in the order of their keys.
unfoldable mutual
  pub format_v : Value → Text
  format_v null = codes "<nil>"
  format_v (bool true) = codes "true"
  format_v (bool false) = codes "false"
  format_v (num t) = t
  format_v (str t) = t
  format_v (arr xs) = codes "[" ++ (join (codes " ") (format_items xs) ++ codes "]")
  format_v (obj fs) = codes "map[" ++ (join (codes " ") (format_fields fs) ++ codes "]")

  pub format_items : Items → List Text
  format_items nil = []
  format_items (cons v xs) = format_v v ∷ format_items xs

  pub format_fields : Fields → List Text
  format_fields end = []
  format_fields (field k v fs) = (k ++ (codes ":" ++ format_v v)) ∷ format_fields fs
