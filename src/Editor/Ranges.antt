-- ===== src/Editor/Ranges.antt =====
-- The editor's indices stay in range, and no key makes it panic.
use nebula_core.Prelude.{
  ℕ, zero, suc, ◌+◌, ◌≤◌, ◌<◌, ◌≡◌, refl, false, ◌&&◌, ◌||◌, not, List, [], ◌∷◌, ◌++◌, map, ltb,
  ◌==◌, take, drop, All, arith,
}
use nebula_core.Text.{Text, text_eq}
use nebula_core.Text.Laws.{text_eq_iff}
use nebula_core.StringSet.{mem, Distinct}
use nebula_core.Editor.State.{EditorRow}
use nebula_core.Editor.Rows.{has, without, below, count_from, path_key, put_row, clean_rows}

-- No index stands twice.
abbrev pub DistinctIndices : List ℕ → Type 0
DistinctIndices [] = Unit
DistinctIndices (i ∷ is) = (has i is ≡ false) × DistinctIndices is

abbrev pub Below : ℕ → List ℕ → Type 0
Below n is = All (λ i. i < n) is

has-without : (i j : ℕ) (js : List ℕ) → has i (without j js) ≡ (not (i == j) && has i js)
unfolding has without
has-without i j [] = ground arith
has-without i j (k ∷ js) = ground (arith, has-without i j js)

has-below : (i n : ℕ) (js : List ℕ) → has i (below n js) ≡ (ltb i n && has i js)
unfolding has below
has-below i n [] = ground arith
has-below i n (k ∷ js) = ground (arith, has-below i n js)

pub without-Distinct : (i : ℕ) (js : List ℕ) → DistinctIndices js → DistinctIndices (without i js)
unfolding without
without-Distinct i [] h = tt
without-Distinct i (j ∷ js) h = ground (arith, has-without j i js, without-Distinct i js h.1)

pub below-Distinct : (n : ℕ) (js : List ℕ) → DistinctIndices js → DistinctIndices (below n js)
unfolding below
below-Distinct n [] h = tt
below-Distinct n (j ∷ js) h = ground (arith, has-below j n js, below-Distinct n js h.1)

pub below-Below : (n : ℕ) (js : List ℕ) → Below n (below n js)
unfolding below
below-Below n [] = tt
below-Below n (j ∷ js) = ground (arith, below-Below n js)

pub without-Below : (i n : ℕ) (js : List ℕ) → Below n js → Below n (without i js)
unfolding without
without-Below i n [] h = tt
without-Below i n (j ∷ js) h = ground (arith, without-Below i n js h.1)

has-count_from : (i k n : ℕ) → i < k → has i (count_from k n) ≡ false
unfolding has count_from
has-count_from i k zero h = refl
has-count_from i k (suc n) h = ground (arith, has-count_from i (suc k) n (omega arith))

pub count_from-Distinct : (k n : ℕ) → DistinctIndices (count_from k n)
unfolding count_from
count_from-Distinct k zero = tt
count_from-Distinct k (suc n) =
    (has-count_from k (suc k) n (omega arith), count_from-Distinct (suc k) n)

pub count_from-Below : (k n m : ℕ) → k + n ≤ m → Below m (count_from k n)
unfolding count_from
count_from-Below k zero m h = tt
count_from-Below k (suc n) m h = (omega arith, count_from-Below (suc k) n m (omega arith))

-- The keys of the rows' paths.
abbrev pub keys_of : List EditorRow → List Text
keys_of rows = map path_key rows

mem-put_row :
    (k : Text) (row : EditorRow) (rows : List EditorRow)
    → mem k (keys_of (put_row row rows)) ≡ (text_eq k (path_key row) || mem k (keys_of rows))
unfolding mem put_row
mem-put_row k row [] = refl
mem-put_row k row (r ∷ rows) = ground (
  arith,
  mem-put_row k row rows,
  text_eq_iff (path_key r) (path_key row),
  text_eq_iff k (path_key row),
  text_eq_iff k (path_key r),
)

put_row-Distinct :
    (row : EditorRow) (rows : List EditorRow)
    → Distinct (keys_of rows)
    → Distinct (keys_of (put_row row rows))
unfolding put_row mem
put_row-Distinct row [] h = (refl, tt)
put_row-Distinct row (r ∷ rows) h = ground (
  arith,
  mem-put_row (path_key r) row rows,
  put_row-Distinct row rows h.1,
  text_eq_iff (path_key r) (path_key row),
)

pub clean_rows-Distinct :
    (cleaned rows : List EditorRow)
    → Distinct (keys_of cleaned)
    → Distinct (keys_of (clean_rows cleaned rows))
unfolding clean_rows
clean_rows-Distinct cleaned [] h = h
clean_rows-Distinct cleaned (row ∷ rows) h =
    clean_rows-Distinct (put_row row cleaned) rows (put_row-Distinct row cleaned h)

mem-removed :
    (k : Text) (i : ℕ) (rows : List EditorRow)
    → mem k (keys_of rows) ≡ false
    → mem k (keys_of (take i rows ++ drop (suc i) rows)) ≡ false
unfolding mem
mem-removed k zero [] h = refl
mem-removed k zero (r ∷ rows) h = ground arith
mem-removed k (suc i) [] h = refl
mem-removed k (suc i) (r ∷ rows) h = ground (arith, mem-removed k i rows)

pub removed-Distinct :
    (i : ℕ) (rows : List EditorRow)
    → Distinct (keys_of rows)
    → Distinct (keys_of (take i rows ++ drop (suc i) rows))
removed-Distinct zero [] h = tt
removed-Distinct zero (r ∷ rows) h = h.1
removed-Distinct (suc i) [] h = tt
removed-Distinct (suc i) (r ∷ rows) h =
    (mem-removed (path_key r) i rows h.0, removed-Distinct i rows h.1)
