-- ===== src/Editor/Buffer.antt =====
-- What saving an entry does to the rows and to the buffer.
use nebula_core.Prelude.{◌≡◌, refl, ◌∙◌, Option, none, some, List, [], ◌∷◌, if◌then◌else◌, arith}
use nebula_core.Text.{Text, text_eq, trim_space}
use nebula_core.Text.Laws.{text_eq_iff}
use nebula_core.Metadata.{ok, parse_pipe_line}
use nebula_core.Editor.State.{EditorRow, MetadataEditor, EditorEnv}
use nebula_core.Editor.Rows.{
  sync_list, path_key, put_row, clean_rows, place_entry, rebuilt_buffer, save_entry, commit_entry,
}

-- The row of a key, and the last row of a key.
pub find_row : Text → List EditorRow → Option EditorRow
find_row k [] = none
find_row k (r ∷ rows) =
    let rest = find_row k rows in if text_eq k (path_key r) then some r else rest

abbrev or_else : Option EditorRow → Option EditorRow → Option EditorRow
or_else none other = other
or_else (some r) other = some r

pub last_row : Text → List EditorRow → Option EditorRow
last_row k [] = none
last_row k (r ∷ rows) = or_else (last_row k rows) (if text_eq k (path_key r) then some r else none)

find_row-put_row :
    (k : Text) (row : EditorRow) (rows : List EditorRow)
    → find_row k (put_row row rows)
      ≡ (if text_eq k (path_key row) then some row else find_row k rows)
unfolding find_row put_row
find_row-put_row k row [] = refl
find_row-put_row k row (r ∷ rows) = ground (
  arith,
  find_row-put_row k row rows,
  text_eq_iff (path_key r) (path_key row),
  text_eq_iff k (path_key row),
  text_eq_iff k (path_key r),
)

find_row-clean_rows :
    (k : Text) (cleaned rows : List EditorRow)
    → find_row k (clean_rows cleaned rows) ≡ or_else (last_row k rows) (find_row k cleaned)
unfolding clean_rows last_row
find_row-clean_rows k cleaned [] = refl
find_row-clean_rows k cleaned (r ∷ rows) =
    ground (arith, find_row-clean_rows k (put_row r cleaned) rows, find_row-put_row k r cleaned)

module _ {Table : Type 0} (env : EditorEnv Table) (m : MetadataEditor Table)
    (parts : Text × Text) where
  -- The row that is saved.
  abbrev pub entry_of : EditorRow
  entry_of = record { path = trim_space parts.0; value = trim_space parts.1 }

  -- Where the typed line parses, saving it leaves under each key the last row that has the key
  -- once the entry stands in its place, and rewrites the buffer from these rows alone: of a text
  -- that the buffer held without rows nothing is left.
  pub commit_entry_lem :
      parse_pipe_line m.entry_buf 1 ≡ ok parts
      → ((k : Text)
          → find_row k (commit_entry env m).rows
            ≡ last_row k (place_entry m.entry_edit_idx entry_of m.rows))
        × ((commit_entry env m).buffer ≡ rebuilt_buffer env.json (commit_entry env m).rows)
  unfolding commit_entry save_entry sync_list find_row last_row
  commit_entry_lem e =
      rw (e, commit_entry)
        (
          λ k.
              find_row-clean_rows k [] (place_entry m.entry_edit_idx entry_of m.rows)
              ∙ none_last (last_row k (place_entry m.entry_edit_idx entry_of m.rows)),
          refl,
        )
    where
      none_last : (o : Option EditorRow) → or_else o none ≡ o
      none_last none = refl
      none_last (some r) = refl
