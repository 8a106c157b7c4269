-- ===== src/Relationships/Create.antt =====
-- The wizard that creates a relationship (handleCreateKeys): the source, the target, the type.
use nebula_core.Prelude.{
  Bool, true, false, ◌&&◌, ◌||◌, not, Option, none, some, List, [], ◌∷◌, ◌++◌, map, if◌then◌else◌,
  is_empty, init,
}
use nebula_core.Text.{Text, codes, text_eq, trim_space}
use nebula_core.Keys.{KeyPressMsg, is_key, is_back, is_up, is_down, is_enter, key_text}
use nebula_core.Relationships.State.{
  RelationshipsView, view_list, create_target_search, create_type, Candidate, CreateInput,
  ScreenEnv, RelCmd, nothing, search_nodes, create_relationship, picked, show_rows,
}
use nebula_core.Relationships.Candidates.{
  combine_create_candidates, filter_create_candidates, format_candidate_line,
  filter_relationship_types,
}
use nebula_core.Relationships.Listing.{Model}

abbrev pub clear_keys : List Text
clear_keys = codes "cmd+backspace" ∷ codes "cmd+delete" ∷ codes "ctrl+u" ∷ []

abbrev pub erase_keys : List Text
erase_keys = codes "backspace" ∷ codes "delete" ∷ []

module _ {Table Area : Type 0} (env : ScreenEnv Table Area) where
  -- The query and its results are emptied.
  unfoldable pub clear_search : Model env → Model env
  clear_search m = record m {
    create_query = [];
    create_results = [];
    create_table = show_rows env.table_api [] m.create_table;
  }

  unfoldable pub show_suggestions : List Text → Model env → Model env
  show_suggestions types m = record m {
    create_type_results = types;
    create_type_table = show_rows env.table_api types m.create_type_table;
  }

  unfoldable pub reset_type_suggestions : Model env → Model env
  unfolding show_suggestions filter_relationship_types
  reset_type_suggestions m =
      record (show_suggestions (filter_relationship_types m.type_options []) m) {
        create_type_nav = false;
      }

  unfoldable pub update_type_suggestions : Model env → Model env
  unfolding show_suggestions filter_relationship_types
  update_type_suggestions m =
      show_suggestions (filter_relationship_types m.type_options m.create_kind) m

  unfoldable pub show_results : List Candidate → Model env → Model env
  unfolding format_candidate_line
  show_results found m = record m {
    create_loading = false;
    create_results = found;
    create_table = show_rows env.table_api (map format_candidate_line found) m.create_table;
  }

  abbrev pub has_cache : Model env → Bool
  has_cache m =
      not (is_empty m.entity_cache)
      || (not (is_empty m.context_cache) || not (is_empty m.job_cache))

  unfoldable pub update_create_search : Model env → Model env × RelCmd
  unfolding show_results combine_create_candidates filter_create_candidates
  update_create_search m =
      let query = trim_space m.create_query in
      let candidates = combine_create_candidates m.entity_cache m.context_cache m.job_cache in
      if is_empty query
      then (
        record m {
          create_loading = false;
          create_results = [];
          create_table = show_rows env.table_api [] m.create_table;
        },
        nothing,
      )
      else if has_cache m
      then (show_results (filter_create_candidates candidates query) m, nothing)
      else (record m { create_loading = true }, search_nodes query)

  unfoldable pub choose_source : Candidate → Model env → Model env
  unfolding clear_search
  choose_source item m = record (clear_search m) {
    create_source = some item;
    view = create_target_search;
  }

  unfoldable pub choose_target : Candidate → Model env → Model env
  unfolding clear_search reset_type_suggestions
  choose_target item m =
      reset_type_suggestions
        (record (clear_search m) { create_target = some item; view = create_type })

  -- The candidate under the cursor is chosen.
  unfoldable pub choose_candidate : (Candidate → Model env → Model env) → Model env → Model env
  unfolding picked
  choose_candidate choose m = elim (picked env.table_api m.create_table m.create_results) [
    | none ↦ m
    | some item ↦ choose item m
  ]

  -- A first `esc` clears the query, a second one leaves the step.
  unfoldable pub leave_search : RelationshipsView → Model env → Model env
  unfolding clear_search
  leave_search back m =
      if is_empty m.create_query
      then record m { view = back }
      else record (clear_search m) { create_loading = false }

  unfoldable pub type_query : KeyPressMsg → Model env → Model env × RelCmd
  unfolding update_create_search
  type_query msg m =
      let ch = key_text msg in
      if is_empty ch || (text_eq ch (codes " ") && is_empty m.create_query)
      then (m, nothing)
      else update_create_search (record m { create_query = m.create_query ++ ch })

  -- The steps that search for the source and for the target.
  unfoldable pub search_step :
      RelationshipsView
      → (Candidate → Model env → Model env)
      → KeyPressMsg
      → Model env
      → Model env × RelCmd
  unfolding leave_search choose_candidate type_query
  search_step back choose msg m =
      if is_back msg || is_key msg clear_keys
      then (leave_search back m, nothing)
      else if is_down msg
      then (record m { create_table = env.table_api.move_down m.create_table }, nothing)
      else if is_up msg
      then (record m { create_table = env.table_api.move_up m.create_table }, nothing)
      else if is_enter msg
      then (choose_candidate choose m, nothing)
      else if is_key msg erase_keys
      then (if is_empty m.create_query
          then (m, nothing)
          else update_create_search (record m { create_query = init m.create_query }))
      else type_query msg m

  -- The steps that only select, which no key leads to.
  unfoldable pub select_step :
      RelationshipsView
      → (Candidate → Model env → Model env)
      → KeyPressMsg
      → Model env
      → Model env × RelCmd
  unfolding choose_candidate
  select_step back choose msg m =
      if is_back msg
      then (record m { view = back }, nothing)
      else if is_down msg
      then (record m { create_table = env.table_api.move_down m.create_table }, nothing)
      else if is_up msg
      then (record m { create_table = env.table_api.move_up m.create_table }, nothing)
      else if is_enter msg
      then (choose_candidate choose m, nothing)
      else (m, nothing)

  abbrev or_typed : Option Text → Text → Text
  or_typed none typed = typed
  or_typed (some kind) typed = kind

  -- The suggestion under the cursor where the arrows were used, or else the typed text.
  unfoldable pub chosen_kind : Model env → Text
  unfolding picked
  chosen_kind m =
      if m.create_type_nav && not (is_empty m.create_type_results)
      then or_typed (picked env.table_api m.create_type_table m.create_type_results)
          (trim_space m.create_kind)
      else trim_space m.create_kind

  abbrev pub input_of : Candidate → Candidate → Text → CreateInput
  input_of source target kind = record {
    source_type = source.node_type;
    source_id = source.id;
    target_type = target.node_type;
    target_id = target.id;
    kind = kind;
  }

  unfoldable pub finish :
      Option Candidate → Option Candidate → Text → Model env → Model env × RelCmd
  finish none target kind m = (m, nothing)
  finish (some source) none kind m = (m, nothing)
  finish (some source) (some target) kind m = if is_empty kind then (m, nothing) else (
    record m { view = view_list; loading = true },
    create_relationship (input_of source target kind),
  )

  unfoldable pub type_kind : Text → Model env → Model env
  unfolding update_type_suggestions
  type_kind kind m =
      update_type_suggestions (record m { create_kind = kind; create_type_nav = false })

  unfoldable pub move_suggestion : (Table → Table) → Model env → Model env
  move_suggestion move m =
      if is_empty m.create_type_results
      then m
      else record m { create_type_nav = true; create_type_table = move m.create_type_table }

  unfoldable pub type_text : KeyPressMsg → Model env → Model env
  unfolding type_kind
  type_text msg m =
      let ch = key_text msg in
      if is_empty ch || (text_eq ch (codes " ") && is_empty m.create_kind)
      then m
      else type_kind (m.create_kind ++ ch) m

  unfoldable pub type_step : KeyPressMsg → Model env → Model env × RelCmd
  unfolding chosen_kind finish type_kind move_suggestion type_text
  type_step msg m =
      if is_back msg
      then (record m { view = create_target_search }, nothing)
      else if is_down msg
      then (move_suggestion env.table_api.move_down m, nothing)
      else if is_up msg
      then (move_suggestion env.table_api.move_up m, nothing)
      else if is_enter msg
      then finish m.create_source m.create_target (chosen_kind m) m
      else if is_key msg erase_keys
      then (if is_empty m.create_kind then m else type_kind (init m.create_kind) m, nothing)
      else if is_key msg clear_keys
      then (
        if is_empty m.create_kind then record m { view = create_target_search } else type_kind [] m,
        nothing,
      )
      else (type_text msg m, nothing)
