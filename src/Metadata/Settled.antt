-- ===== src/Metadata/Settled.antt =====
-- Decoding texts in texts comes to an end.
use nebula_core.Prelude.{
  ℕ, zero, suc, ◌≤◌, ◌<◌, ◌≡◌, refl, ap, Option, none, some, if◌then◌else◌, arith, if_cases,
}
use nebula_core.Text.{Text, trim_space}
use nebula_core.Value.{Value, null, bool, num, str, arr, obj, Items, nil, cons, Fields, end, field}
use nebula_core.Metadata.Structured.{
  Json, enclosed, or_text, map_texts, map_texts_items, map_texts_fields, depth_bound,
  depth_bound_items, depth_bound_fields, decode_enclosed, parse_json_structured_string,
  normalize_text, normalize_value, Shrinks,
}

-- What holds of all texts of a value, its keys apart.
unfoldable mutual
  pub AllTexts : (Text → Type 0) → Value → Type 0
  AllTexts P null = Unit
  AllTexts P (bool b) = Unit
  AllTexts P (num n) = Unit
  AllTexts P (str s) = P s
  AllTexts P (arr xs) = AllItems P xs
  AllTexts P (obj fs) = AllFields P fs

  pub AllItems : (Text → Type 0) → Items → Type 0
  AllItems P nil = Unit
  AllItems P (cons v xs) = AllTexts P v × AllItems P xs

  pub AllFields : (Text → Type 0) → Fields → Type 0
  AllFields P end = Unit
  AllFields P (field k v fs) = AllTexts P v × AllFields P fs

module _ (json : Json) where
  -- A text that holds no structure.
  abbrev pub IsSettled : Text → Type 0
  IsSettled s = parse_json_structured_string json s ≡ none

  module _ (g : Text → Value) (n : ℕ)
      (each : (s : Text) → json.runes s < n → AllTexts IsSettled (g s)) where
    mutual
      unfolding AllTexts map_texts depth_bound

      map_texts-IsSettled :
          (v : Value) → depth_bound json v ≤ n → AllTexts IsSettled (map_texts g v)
      map_texts-IsSettled null h = tt
      map_texts-IsSettled (bool b) h = tt
      map_texts-IsSettled (num k) h = tt
      map_texts-IsSettled (str s) h = each s (omega arith)
      map_texts-IsSettled (arr xs) h = items-IsSettled xs h
      map_texts-IsSettled (obj fs) h = fields-IsSettled fs h

      items-IsSettled :
          (xs : Items) → depth_bound_items json xs ≤ n → AllItems IsSettled (map_texts_items g xs)
      items-IsSettled nil h = tt
      items-IsSettled (cons v xs) h =
          (map_texts-IsSettled v (omega arith), items-IsSettled xs (omega arith))

      fields-IsSettled :
          (fs : Fields)
          → depth_bound_fields json fs ≤ n
          → AllFields IsSettled (map_texts_fields g fs)
      fields-IsSettled end h = tt
      fields-IsSettled (field k v fs) h =
          (map_texts-IsSettled v (omega arith), fields-IsSettled fs (omega arith))

  module _ (f : ℕ) where
    settled_text : (s : Text) → IsSettled s → normalize_text json f s ≡ str s
    unfolding normalize_text
    settled_text s h = by_fuel f h
      where
        by_fuel : (k : ℕ) → IsSettled s → normalize_text json k s ≡ str s
        by_fuel zero e = refl
        by_fuel (suc k) e = rw (e, normalize_text) refl

    mutual
      unfolding AllTexts map_texts

      settled_value : (v : Value) → AllTexts IsSettled v → map_texts (normalize_text json f) v ≡ v
      settled_value null h = refl
      settled_value (bool b) h = refl
      settled_value (num k) h = refl
      settled_value (str s) h = settled_text s h
      settled_value (arr xs) h = ap arr (settled_items xs h)
      settled_value (obj fs) h = ap obj (settled_fields fs h)

      settled_items :
          (xs : Items) → AllItems IsSettled xs → map_texts_items (normalize_text json f) xs ≡ xs
      settled_items nil h = refl
      settled_items (cons v xs) h = λ i. cons (settled_value v h.0 i) (settled_items xs h.1 i)

      settled_fields :
          (fs : Fields) → AllFields IsSettled fs → map_texts_fields (normalize_text json f) fs ≡ fs
      settled_fields end h = refl
      settled_fields (field k v fs) h =
          λ i. field k (settled_value v h.0 i) (settled_fields fs h.1 i)

  module _ (laws : Shrinks json) where
    decode_enclosed-le :
        (s : Text) (v : Value) → decode_enclosed json s ≡ some v → depth_bound json v ≤ json.runes s
    unfolding decode_enclosed
    decode_enclosed-le s v h = ground (arith, laws.decoded_texts s v)

    or_text-le :
        (o : Option Text) (t : Text)
        → json.decode_string t ≡ o
        → json.runes (or_text o t) ≤ json.runes t
    or_text-le none t h = omega arith
    or_text-le (some u) t h = omega (arith, laws.trimmed u, laws.decoded_string t u h)

    unquoted-le :
        (s : Text)
        → json.runes (if enclosed 34 34 s then or_text (json.decode_string s) s else s)
          ≤ json.runes s
    unquoted-le s =
        if_cases (λ t. json.runes t ≤ json.runes s) (enclosed 34 34 s)
          (or_text (json.decode_string s) s) s (λ _. or_text-le (json.decode_string s) s refl)
          (λ _. omega arith)

    parse-le :
        (s : Text) (v : Value)
        → parse_json_structured_string json s ≡ some v
        → depth_bound json v ≤ json.runes s
    unfolding parse_json_structured_string
    parse-le s v h =
        let t = trim_space s in
        let u = if enclosed 34 34 t then or_text (json.decode_string t) t else t in
        let first : decode_enclosed json u ≡ some v = ground arith in
        omega (arith, decode_enclosed-le u v first, unquoted-le t, laws.trimmed s)

    normalize_text-IsSettled :
        (f : ℕ) (s : Text) → json.runes s < f → AllTexts IsSettled (normalize_text json f s)
    unfolding normalize_text AllTexts
    normalize_text-IsSettled zero s h = absurd (omega arith)
    normalize_text-IsSettled (suc f) s h =
        by_parse (parse_json_structured_string json s) refl (normalize_text-IsSettled f)
      where
        by_parse :
            (o : Option Value)
            → parse_json_structured_string json s ≡ o
            → ((t : Text) → json.runes t < f → AllTexts IsSettled (normalize_text json f t))
            → AllTexts IsSettled (normalize_text json (suc f) s)
        by_parse none e ih = rw (e, normalize_text) e
        by_parse (some v) e ih =
            rw (e, normalize_text)
              (map_texts-IsSettled (normalize_text json f) f ih v (omega (arith, parse-le s v e)))

    -- With a decoder that keeps to its documentation, decoding texts in texts is complete: no
    -- text of the normalised value holds a structure, and to normalise it again changes nothing.
    pub normalize_value_lem :
        (v : Value)
        → AllTexts IsSettled (normalize_value json v)
          × (normalize_value json (normalize_value json v) ≡ normalize_value json v)
    unfolding normalize_value
    normalize_value_lem v =
        let n = depth_bound json v in
        let settled : AllTexts IsSettled (normalize_value json v) =
          map_texts-IsSettled (normalize_text json n) n (normalize_text-IsSettled n) v
            (omega arith) in
        (
          settled,
          settled_value (depth_bound json (normalize_value json v)) (normalize_value json v)
              settled,
        )
