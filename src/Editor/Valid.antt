-- ===== src/Editor/Valid.antt =====
-- No key makes the editor panic or leave its ranges.
use nebula_core.Prelude.{
  ℕ, zero, suc, ◌+◌, ◌-◌, ◌%◌, ◌<◌, ◌≡◌, refl, Bool, true, false, ◌&&◌, ◌||◌, Option, none, some,
  List, [], ◌∷◌, if◌then◌else◌, if_cases, ◌==◌, length, get_elem?, is_empty, arith,
}
use native.Mathlib.Nat.{mod-lt}
use nebula_core.Text.{Text, codes, trim_space}
use nebula_core.StringSet.{Distinct}
use nebula_core.Scopes.{toggle_scope}
use nebula_core.Keys.{KeyPressMsg, is_key, is_back, is_up, is_down, is_enter, is_space}
use nebula_core.Metadata.{Checked, ok, err, parse_pipe_line}
use nebula_core.Editor.State.{EditorRow, MetadataEditor, EditorEnv, index_below}
use nebula_core.Editor.Rows.{
  below, sync_list, selected_row_index, toggle_selection, toggle_select_all, clean_rows,
  place_entry, save_entry, commit_entry, remove_row,
}
use nebula_core.Editor.Keys.{
  Outcome, stays, options_of, toggle_current_scope, scope_keys, entry_keys, inspect_down,
  inspect_up, copy_inspected, inspect_keys, copy_selected, edit_row, at_cursor, inspect_row,
  table_keys, mode_keys, handle_key,
}
use nebula_core.Editor.Ranges.{
  DistinctIndices, Below, without-Distinct, below-Distinct, below-Below, without-Below,
  count_from-Distinct, count_from-Below, keys_of, clean_rows-Distinct, removed-Distinct,
}

-- With scope options to choose from: every index is in range, no row is selected twice, no path
-- stands on two rows, and no row is inspected while one is typed.
pub record IsValid {Table : Type 0} (m : MetadataEditor Table) : Type 0 where
  pub scope_in : m.scope_idx < length m.scope_options
  pub apart : (m.entry_mode && m.inspect_mode) ≡ false
  pub inspect_in : m.inspect_mode ≡ true → m.inspect_row_idx < length m.rows
  pub selected_in : Below (length m.rows) m.selected
  pub selected_once : DistinctIndices m.selected
  pub paths_once : Distinct (keys_of m.rows)

pub get_some :
    {A : Type 0} (xs : List A) (i : ℕ) → i < length xs → (x : A) × (get_elem? xs i ≡ some x)
get_some [] i h = absurd (omega arith)
get_some (x ∷ xs) zero h = (x, refl)
get_some (x ∷ xs) (suc i) h = get_some xs i (omega arith)

nonempty : {A : Type 0} (xs : List A) (i : ℕ) → i < length xs → is_empty xs ≡ false
nonempty [] i h = absurd (omega arith)
nonempty (x ∷ xs) i h = refl

module _ {Table : Type 0} (env : EditorEnv Table) where
  abbrev Editor : Type 0
  Editor = MetadataEditor Table

  -- The key was handled without a panic, and left a valid editor.
  abbrev pub EndsValid : Outcome env → Type 0
  EndsValid none = ⊥
  EndsValid (some r) = IsValid r.0

  -- The key goes on to the other modes, or ends validly.
  abbrev EndsOrGoesOn : Option (Outcome env) → Type 0
  EndsOrGoesOn none = Unit
  EndsOrGoesOn (some o) = EndsValid o

  module _ (m : Editor) (v : IsValid m) where
    options_lem : options_of env m ≡ m.scope_options
    options_lem = rw (nonempty m.scope_options m.scope_idx v.scope_in) refl

    choosing :
        (scopes : List Text) (i : ℕ)
        → i < length m.scope_options
        → IsValid (record m { scopes = scopes; scope_idx = i })
    choosing scopes i h = record {
      scope_in = h;
      apart = v.apart;
      inspect_in = v.inspect_in;
      selected_in = v.selected_in;
      selected_once = v.selected_once;
      paths_once = v.paths_once;
    }

    sync_list-IsValid : IsValid (sync_list env m)
    unfolding sync_list
    sync_list-IsValid = record {
      scope_in = v.scope_in;
      apart = v.apart;
      inspect_in = v.inspect_in;
      selected_in = below-Below (length m.rows) m.selected;
      selected_once = below-Distinct (length m.rows) m.selected v.selected_once;
      paths_once = v.paths_once;
    }

    toggle_selection-IsValid : (i : ℕ) → IsValid (toggle_selection i m)
    unfolding toggle_selection
    toggle_selection-IsValid i = ground (
      arith,
      without-Distinct i m.selected v.selected_once,
      without-Below i (length m.rows) m.selected v.selected_in,
    )

    toggle_select_all-IsValid : IsValid (toggle_select_all m)
    unfolding toggle_select_all
    toggle_select_all-IsValid = ground (
      arith,
      count_from-Distinct 0 (length m.rows),
      count_from-Below 0 (length m.rows) (length m.rows) (omega arith),
    )

    save_entry-IsValid :
        (entry : EditorRow) → m.inspect_mode ≡ false → IsValid (save_entry env entry m)
    unfolding save_entry sync_list
    save_entry-IsValid entry e =
        let rows = clean_rows [] (place_entry m.entry_edit_idx entry m.rows) in
        record {
          scope_in = v.scope_in;
          apart = refl;
          inspect_in = λ h. absurd (ground arith);
          selected_in = below-Below (length rows) m.selected;
          selected_once = below-Distinct (length rows) m.selected v.selected_once;
          paths_once = clean_rows-Distinct [] (place_entry m.entry_edit_idx entry m.rows) tt;
        }

    commit_entry-IsValid : m.inspect_mode ≡ false → IsValid (commit_entry env m)
    unfolding commit_entry
    commit_entry-IsValid e = by_parse (parse_pipe_line m.entry_buf 1) refl
      where
        by_parse :
            (r : Checked (Text × Text))
            → parse_pipe_line m.entry_buf 1 ≡ r
            → IsValid (commit_entry env m)
        by_parse (ok parts) p =
            rw (p, commit_entry)
              (save_entry-IsValid (record { path = trim_space parts.0; value = trim_space parts.1 })
                e)
        by_parse (err x) p = rw (p, commit_entry) (ground arith)

    remove_row-IsValid : (i : ℕ) → m.inspect_mode ≡ false → IsValid (remove_row env i m)
    unfolding remove_row sync_list below
    remove_row-IsValid i e = ground (arith, removed-Distinct i m.rows v.paths_once)

    toggle_scope-Ends : EndsValid (toggle_current_scope env m)
    unfolding toggle_current_scope
    toggle_scope-Ends =
        let scope = get_some m.scope_options m.scope_idx v.scope_in in
        rw (options_lem, scope.1, toggle_current_scope)
          (choosing (toggle_scope m.scopes scope.0) m.scope_idx v.scope_in)

    moved :
        (i : ℕ)
        → EndsValid (
            stays env (
              if length m.scope_options == 0
              then m
              else record m { scope_idx = i % length m.scope_options }))
    moved i = ground (
      arith,
      choosing m.scopes (i % length m.scope_options)
          (mod-lt i {m = length m.scope_options} (omega arith)),
    )

    scope_keys-Ends : (k : KeyPressMsg) → EndsOrGoesOn (scope_keys env k m)
    unfolding scope_keys
    scope_keys-Ends k =
        let n = length m.scope_options in
        rw options_lem (
          if_cases EndsOrGoesOn (is_key k (codes "left" ∷ [])) _ _
            (λ _. moved (m.scope_idx + n - 1))
            λ _.
              if_cases EndsOrGoesOn (is_key k (codes "right" ∷ [])) _ _
                (λ _. moved (m.scope_idx + 1))
                λ _.
                  if_cases EndsOrGoesOn (is_space k) _ _
                    (λ _. if_cases EndsValid (n == 0) _ _ (λ _. v) (λ _. toggle_scope-Ends))
                    (λ _.
                      if_cases EndsOrGoesOn (is_enter k || is_back k) _ _ (λ _. ground arith)
                        (λ _. tt)))

    entry_keys-IsValid : (k : KeyPressMsg) → m.inspect_mode ≡ false → IsValid (entry_keys env k m)
    unfolding entry_keys
    entry_keys-IsValid k e = ground (arith, commit_entry-IsValid e)

    inspect_keys-Ends : (k : KeyPressMsg) → EndsValid (inspect_keys env k m)
    unfolding inspect_keys inspect_down inspect_up copy_inspected
    inspect_keys-Ends k = ground arith

    copy_selected-Ends : EndsValid (copy_selected env m)
    unfolding copy_selected
    copy_selected-Ends = ground arith

    edit_row-IsValid : (i : ℕ) → m.inspect_mode ≡ false → IsValid (edit_row env i m)
    unfolding edit_row
    edit_row-IsValid i e = ground arith

    inspect_row-IsValid :
        (i : ℕ)
        → m.entry_mode ≡ false
        → selected_row_index env m ≡ some i
        → IsValid (inspect_row env i m)
    unfolding inspect_row selected_row_index index_below
    inspect_row-IsValid i e h = ground arith

    module _ (f : ℕ → Editor → Editor)
        (keeps : (i : ℕ) → selected_row_index env m ≡ some i → IsValid (f i m)) where
      at_cursor-IsValid :
          (o : Option ℕ) → selected_row_index env m ≡ o → IsValid (at_cursor env f m)
      at_cursor-IsValid none e = rw (e, at_cursor) v
      at_cursor-IsValid (some i) e = rw (e, at_cursor) (keeps i e)

    table_keys-Ends :
        (k : KeyPressMsg)
        → m.entry_mode ≡ false
        → m.inspect_mode ≡ false
        → EndsValid (table_keys env k m)
    unfolding table_keys
    table_keys-Ends k e i =
        let row : (f : ℕ → Editor → Editor)
            → ((j : ℕ) → selected_row_index env m ≡ some j → IsValid (f j m))
            → IsValid (at_cursor env f m) =
          λ f keeps. at_cursor-IsValid f keeps (selected_row_index env m) refl in
        if_cases EndsValid (is_back k) _ _ (λ _. ground arith)
          λ _.
            if_cases EndsValid (is_key k (codes "s" ∷ [])) _ _ (λ _. ground arith)
              λ _.
                if_cases EndsValid (is_down k) _ _ (λ _. ground arith)
                  λ _.
                    if_cases EndsValid (is_up k) _ _ (λ _. ground arith)
                      λ _.
                        if_cases EndsValid (is_space k) _ _
                          (λ _. row toggle_selection (λ j h. toggle_selection-IsValid j))
                          λ _.
                            if_cases EndsValid (is_key k (codes "b" ∷ [])) _ _
                              (λ _. toggle_select_all-IsValid)
                              λ _.
                                if_cases EndsValid (is_key k (codes "n" ∷ [])) _ _
                                  (λ _. ground arith)
                                  λ _.
                                    if_cases EndsValid (is_key k (codes "e" ∷ [])) _ _
                                      (λ _. row (edit_row env) (λ j h. edit_row-IsValid j i))
                                      λ _.
                                        if_cases EndsValid (is_key k (codes "d" ∷ [])) _ _
                                          (λ _.
                                            row (remove_row env) (λ j h. remove_row-IsValid j i))
                                          λ _.
                                            if_cases EndsValid (is_key k (codes "c" ∷ [])) _ _
                                              (λ _. copy_selected-Ends)
                                              λ _.
                                                if_cases EndsValid (is_enter k) _ _
                                                  (λ _.
                                                    row (inspect_row env)
                                                      (λ j h. inspect_row-IsValid j e h))
                                                  (λ _. v)

  mode_keys-Ends : (m : Editor) → IsValid m → (k : KeyPressMsg) → EndsValid (mode_keys env k m)
  unfolding mode_keys
  mode_keys-Ends m v k =
      if_cases EndsValid m.entry_mode _ _ (λ e. entry_keys-IsValid m v k (ground (arith, v.apart)))
        λ e.
          if_cases EndsValid m.inspect_mode _ _ (λ _. inspect_keys-Ends m v k)
            (λ i.
              table_keys-Ends (sync_list env m) (sync_list-IsValid m v) k (unfold sync_list in e)
                (unfold sync_list in i))

  ends_valid :
      (o : Outcome env)
      → EndsValid o
      → (r : Editor × Bool × Option Text) × (o ≡ some r) × IsValid r.0
  ends_valid (some r) h = (r, refl, h)
  ends_valid none h = absurd h

  handle_key-Ends : (m : Editor) → IsValid m → (k : KeyPressMsg) → EndsValid (handle_key env k m)
  unfolding handle_key
  handle_key-Ends m v k =
      if_cases EndsValid m.scope_selecting _ _
        (λ _. or_goes_on (scope_keys env k m) (scope_keys-Ends m v k)) (λ _. mode_keys-Ends m v k)
    where
      or_goes_on :
          (o : Option (Outcome env))
          → EndsOrGoesOn o
          → EndsValid (elim o [ some outcome ↦ outcome | none ↦ mode_keys env k m ])
      or_goes_on (some o) h = h
      or_goes_on none h = mode_keys-Ends m v k

  -- A valid editor handles every key without a panic, and stays valid: while there are scope
  -- options, no index of it ever leaves its range.
  pub handle_key-IsValid :
      (m : Editor) (k : KeyPressMsg)
      → IsValid m
      → (r : Editor × Bool × Option Text) × (handle_key env k m ≡ some r) × IsValid r.0
  handle_key-IsValid m k v = ends_valid (handle_key env k m) (handle_key-Ends m v k)
