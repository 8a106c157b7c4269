-- ===== src/Metadata/Structured.antt =====
-- Texts that hold JSON, and their values: parseJSONStructuredString, normalizeStructuredMetadataValue
-- and parseStringSlice of cli/src/internal/ui/metadata.go.
use nebula_core.Prelude.{
  ℕ, zero, suc, ◌≤◌, max, ◌≡◌, Bool, ◌&&◌, ◌||◌, Option, none, some, [], ◌∷◌, if◌then◌else◌, ltb,
  length,
}
use nebula_core.Text.{Text, trim_space, has_prefix, has_suffix}
use nebula_core.Value.{Value, null, bool, num, str, arr, obj, Items, nil, cons, Fields, end, field}

-- What the program uses of encoding/json: Unmarshal into an interface and into a string, and
-- Marshal. `runes` is the number of code points of a text.
pub record Json : Type 0 where
  pub decode : Text → Option Value
  pub decode_string : Text → Option Text
  pub encode : Value → Text
  pub runes : Text → ℕ

abbrev pub enclosed : ℕ → ℕ → Text → Bool
enclosed a b s = has_prefix (a ∷ []) s && has_suffix (b ∷ []) s

abbrev pub or_text : Option Text → Text → Text
or_text none t = t
or_text (some u) t = trim_space u

-- The values of a mutual block with every text replaced.
unfoldable mutual
  pub map_texts : (Text → Value) → Value → Value
  map_texts f null = null
  map_texts f (bool b) = bool b
  map_texts f (num n) = num n
  map_texts f (str s) = f s
  map_texts f (arr xs) = arr (map_texts_items f xs)
  map_texts f (obj fs) = obj (map_texts_fields f fs)

  pub map_texts_items : (Text → Value) → Items → Items
  map_texts_items f nil = nil
  map_texts_items f (cons v xs) = cons (map_texts f v) (map_texts_items f xs)

  pub map_texts_fields : (Text → Value) → Fields → Fields
  map_texts_fields f end = end
  map_texts_fields f (field k v fs) = field k (map_texts f v) (map_texts_fields f fs)

module _ (json : Json) where
  -- The most code points that a text in the value has, and one more.
  unfoldable mutual
    pub depth_bound : Value → ℕ
    depth_bound null = 0
    depth_bound (bool b) = 0
    depth_bound (num n) = 0
    depth_bound (str s) = suc (json.runes s)
    depth_bound (arr xs) = depth_bound_items xs
    depth_bound (obj fs) = depth_bound_fields fs

    pub depth_bound_items : Items → ℕ
    depth_bound_items nil = 0
    depth_bound_items (cons v xs) = max (depth_bound v) (depth_bound_items xs)

    pub depth_bound_fields : Fields → ℕ
    depth_bound_fields end = 0
    depth_bound_fields (field k v fs) = max (depth_bound v) (depth_bound_fields fs)

  -- parseJSONStructuredString behind its first test.
  unfoldable pub decode_enclosed : Text → Option Value
  decode_enclosed trimmed =
      if enclosed b'{' b'}' trimmed || enclosed b'[' b']' trimmed then json.decode trimmed else none

  unfoldable pub parse_json_structured_string : Text → Option Value
  unfolding decode_enclosed
  parse_json_structured_string raw =
      let trimmed = trim_space raw in
      if ltb (length trimmed) 2
      then none
      else decode_enclosed
          (if enclosed 34 34 trimmed then or_text (json.decode_string trimmed) trimmed else trimmed)

  -- A text that holds a structure is replaced by the structure, as deep as the fuel goes.
  unfoldable pub normalize_text : ℕ → Text → Value
  unfolding map_texts parse_json_structured_string
  normalize_text zero s = str s
  normalize_text (suc f) s = elim (parse_json_structured_string s) [
    | none ↦ str s
    | some v ↦ map_texts (normalize_text f) v
  ]

  -- The longest text of the value bounds the depth of texts in texts.
  unfoldable pub normalize_value : Value → Value
  unfolding map_texts normalize_text depth_bound
  normalize_value v = map_texts (normalize_text (depth_bound v)) v

  -- What the package documents, for texts that hold an object or an array: the texts of the
  -- decoded value are parts of the input, and a decoded string is no longer than its literal.
  pub record Shrinks : Type 0 where
    pub decoded_texts :
        (raw : Text) (v : Value) → json.decode raw ≡ some v → depth_bound v ≤ json.runes raw
    pub decoded_string :
        (raw s : Text) → json.decode_string raw ≡ some s → json.runes s ≤ json.runes raw
    pub trimmed : (raw : Text) → json.runes (trim_space raw) ≤ json.runes raw
