-- ===== src/Jobs/Search.antt =====
-- The search in the list, and the selection: applyJobSearch, retainSelection, toggleSelected,
-- toggleSelectAll, selectedIDs and updateSearchSuggest. The selected ids, a Go map, are a list
-- without repetitions, in the order in which a loop over the map happens to go.
use nebula_core.Prelude.{
  Bool, not, ◌&&◌, ◌==◌, Option, none, some, List, [], ◌∷◌, ◌++◌, map, if◌then◌else◌, is_empty,
  length,
}
use nebula_core.Text.{Text, codes, text_eq, to_lower, trim_space, contains, has_prefix}
use nebula_core.Sanitize.{sanitize_text}
use nebula_core.StringSet.{mem, insert, remove}
use nebula_core.Relationships.State.{Job, picked, show_rows}
use nebula_core.Relationships.Candidates.{keep, dot}
use nebula_core.Jobs.State.{JobsEnv, JobsModel}

unfoldable pub priority_part : Option Text → Text
priority_part none = []
priority_part (some p) = dot ++ sanitize_text p

unfoldable pub format_job_line : Job → Text
unfolding priority_part
format_job_line j =
    sanitize_text j.title ++ (dot ++ (sanitize_text j.status ++ priority_part j.priority))

unfoldable pub matches_search : Text → Job → Bool
matches_search query j =
    contains query (to_lower (j.title ++ (codes " " ++ (j.status ++ (codes " " ++ j.id)))))

unfoldable pub searched_items : Text → List Job → List Job
unfolding keep matches_search
searched_items search_buf all =
    let query = trim_space (to_lower search_buf) in
    if is_empty query then all else keep (matches_search query) all

unfoldable pub suggestion : Text → List Job → Text
suggestion query [] = []
suggestion query (j ∷ js) =
    let later = suggestion query js in
    if has_prefix query (to_lower (trim_space j.title)) then j.title else later

unfoldable pub search_suggestion : Text → List Job → Text
unfolding suggestion
search_suggestion search_buf all =
    let query = to_lower (trim_space search_buf) in
    if is_empty query then [] else suggestion query all

-- The selected ids that are still loaded.
unfoldable pub retained : List Job → List Text → List Text
unfolding keep mem
retained all selected = keep (λ id. mem id (map Job.id all)) selected

-- A map with every id as a key.
unfoldable pub id_set : List Job → List Text → List Text
unfolding insert
id_set [] acc = acc
id_set (j ∷ js) acc = id_set js (insert j.id acc)

module _ {Table Form : Type 0} (env : JobsEnv Table Form) where
  abbrev pub Model : Type 0
  Model = JobsModel Table Form

  unfoldable pub apply_job_search : Model → Model
  unfolding searched_items format_job_line retained search_suggestion
  apply_job_search m =
      let items = searched_items m.search_buf m.all_items in
      record m {
        items = items;
        data_table = show_rows env.table_api (map format_job_line items) m.data_table;
        selected = retained m.all_items m.selected;
        search_suggest = search_suggestion m.search_buf m.all_items;
      }

  -- The job under the cursor.
  unfoldable pub job_at_cursor : Model → Option Job
  unfolding picked
  job_at_cursor m = picked env.table_api m.data_table m.items

  unfoldable pub toggle_id : Text → Model → Model
  unfolding mem insert remove
  toggle_id id m =
      if is_empty id
      then m
      else if mem id m.selected
      then record m { selected = remove id m.selected }
      else record m { selected = insert id m.selected }

  unfoldable pub toggle_selected : Model → Model
  unfolding job_at_cursor toggle_id
  toggle_selected m = elim (job_at_cursor m) [ none ↦ m | some j ↦ toggle_id (trim_space j.id) m ]

  -- The counts are compared, not the ids.
  unfoldable pub toggle_select_all : Model → Model
  unfolding id_set
  toggle_select_all m =
      if is_empty m.items
      then m
      else if length m.selected == length m.items
      then record m { selected = [] }
      else record m { selected = id_set m.items [] }

  -- The selected ids on the screen, in its order, or else all that are selected.
  unfoldable pub selected_ids : Model → List Text
  unfolding keep mem
  selected_ids m =
      let ids = map Job.id (keep (λ j. mem j.id m.selected) m.items) in
      if is_empty m.selected then [] else if is_empty ids then m.selected else ids

  unfoldable pub search_for : Text → Model → Model
  unfolding apply_job_search
  search_for query m = apply_job_search (record m { search_buf = query })

  -- An empty query is left as it is.
  unfoldable pub clear_search : Model → Model
  unfolding apply_job_search
  clear_search m =
      if is_empty m.search_buf
      then m
      else apply_job_search (record m { search_buf = []; search_suggest = [] })

  unfoldable pub take_suggestion : Model → Model
  unfolding search_for
  take_suggestion m =
      if not (is_empty m.search_suggest)
        && not
            (text_eq (to_lower (trim_space m.search_buf)) (to_lower (trim_space m.search_suggest)))
      then search_for m.search_suggest m
      else m
