-- ===== src/Metadata/Paths.antt =====
-- Reading what a path wrote.
use nebula_core.Prelude.{ℕ, ◌≡◌, refl, Option, none, some, List, [], ◌∷◌, arith}
use nebula_core.Text.{Text, trim_space, split}
use nebula_core.Text.Laws.{text_eq_refl}
use nebula_core.Value.{Value, obj, Fields, end, field, get_field, put_field}
use nebula_core.Metadata.{enter, set_segments, set_metadata_path}

pub get_field-put_field :
    (k : Text) (v : Value) (fs : Fields) → get_field k (put_field k v fs) ≡ some v
unfolding get_field put_field
get_field-put_field k v end = rw (text_eq_refl k) refl
get_field-put_field k v (field j w fs) = ground (arith, get_field-put_field k v fs)

-- The value under the trimmed segments of a path.
pub read_segments : List Text → Fields → Option Value
read_segments [] fs = none
read_segments (raw ∷ []) fs = get_field (trim_space raw) fs
read_segments (raw ∷ next ∷ rest) fs = elim (get_field (trim_space raw) fs) [
  | none ↦ none
  | some v ↦ elim v [ obj child ↦ read_segments (next ∷ rest) child | _ ↦ none ]
]

module _ (path : Text) (value : Value) (n : ℕ) where
  read-set_segments :
      (done segments : List Text) (fs : Fields)
      → (set_segments path value n done segments fs).1 ≡ none
      → read_segments segments (set_segments path value n done segments fs).0 ≡ some value
  unfolding set_segments read_segments
  read-set_segments done [] fs h = absurd (ground arith)
  read-set_segments done (raw ∷ []) fs h =
      ground (arith, get_field-put_field (trim_space raw) value fs)
  read-set_segments done (raw ∷ next ∷ rest) fs h =
      by_entered (enter (trim_space raw) fs) refl
        (λ child. read-set_segments (raw ∷ done) (next ∷ rest) child) h
    where
      by_entered :
          (o : Option Fields)
          → enter (trim_space raw) fs ≡ o
          → ((child : Fields)
              → (set_segments path value n (raw ∷ done) (next ∷ rest) child).1 ≡ none
              → read_segments
                  (next ∷ rest)
                  (set_segments path value n (raw ∷ done) (next ∷ rest) child).0
                ≡ some value)
          → (set_segments path value n done (raw ∷ next ∷ rest) fs).1 ≡ none
          → read_segments
              (raw ∷ next ∷ rest)
              (set_segments path value n done (raw ∷ next ∷ rest) fs).0
            ≡ some value
      by_entered none e ih h2 = absurd (ground (arith, e))
      by_entered (some child) e ih h2 =
          let below = set_segments path value n (raw ∷ done) (next ∷ rest) child in
          ground (arith, e, ih child, get_field-put_field (trim_space raw) (obj below.0) fs)

-- A value that is set at a path without an error is found there.
pub read-set_metadata_path :
    (root : Fields) (path : Text) (value : Value) (n : ℕ)
    → (set_metadata_path root path value n).1 ≡ none
    → read_segments (split b'.' path) (set_metadata_path root path value n).0 ≡ some value
unfolding set_metadata_path
read-set_metadata_path root path value n h =
    read-set_segments path value n [] (split b'.' path) root h
