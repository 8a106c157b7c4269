-- ===== src/Relationships/Candidates.antt =====
-- The nodes and types that the wizard offers: combineCreateCandidates, filterCreateCandidatesByQuery,
-- formatCreateCandidateLine, uniqueRelationshipTypes and filterRelationshipTypes.
use nebula_core.Prelude.{
  Bool, Option, none, some, List, [], ◌∷◌, ◌++◌, map, if◌then◌else◌, is_empty,
}
use nebula_core.Text.{Text, codes, to_lower, trim_space, contains, join}
use nebula_core.Scopes.{collect}
use nebula_core.Relationships.State.{Relationship, Entity, Context, Job, Candidate}

-- A trimmed text, or what stands for an empty one.
unfoldable pub or_default : Text → Text → Text
or_default value default = let t = trim_space value in if is_empty t then default else t

unfoldable pub entity_candidate : Entity → Candidate
unfolding or_default
entity_candidate e = record {
  id = e.id;
  node_type = codes "entity";
  name = or_default e.name (codes "entity");
  kind = codes "entity/" ++ or_default e.kind (codes "entity");
  status = or_default e.status (codes "-");
  tags = e.tags;
}

unfoldable pub context_candidate : Context → Candidate
unfolding or_default
context_candidate c = record {
  id = c.id;
  node_type = codes "context";
  name = or_default (or_default c.title c.name) (codes "context");
  kind = codes "context/" ++ or_default c.source_type (codes "note");
  status = or_default c.status (codes "-");
  tags = c.tags;
}

unfoldable pub job_kind : Option Text → Text
job_kind none = codes "job"
job_kind (some p) = if is_empty (trim_space p) then codes "job" else codes "job/" ++ trim_space p

unfoldable pub job_candidate : Job → Candidate
unfolding or_default job_kind
job_candidate j = record {
  id = j.id;
  node_type = codes "job";
  name = or_default j.title (codes "job");
  kind = job_kind j.priority;
  status = or_default j.status (codes "-");
  tags = [];
}

unfoldable pub combine_create_candidates : List Entity → List Context → List Job → List Candidate
unfolding entity_candidate context_candidate job_candidate
combine_create_candidates entities contexts jobs =
    map entity_candidate entities ++ (map context_candidate contexts ++ map job_candidate jobs)

-- The elements for which a loop with `append` keeps.
unfoldable pub keep {ℓ} : {A : Type ℓ} → (A → Bool) → List A → List A
keep p [] = []
keep p (x ∷ xs) = let rest = keep p xs in if p x then x ∷ rest else rest

unfoldable pub haystack : Candidate → Text
haystack c =
    to_lower
      (join (codes " ") (c.name ∷ c.kind ∷ c.status ∷ c.node_type ∷ join (codes " ") c.tags ∷ []))

unfoldable pub filter_create_candidates : List Candidate → Text → List Candidate
unfolding keep haystack
filter_create_candidates candidates query =
    let q = trim_space (to_lower query) in
    if is_empty q then candidates else keep (λ c. contains q (haystack c)) candidates

-- ` · `
abbrev pub dot : Text
dot = 32 ∷ 194 ∷ 183 ∷ 32 ∷ []

unfoldable pub format_candidate_line : Candidate → Text
unfolding or_default
format_candidate_line c =
    or_default c.name (codes "node")
    ++ (dot
        ++ (or_default (or_default c.kind c.node_type) (codes "node")
            ++ (dot ++ or_default c.status (codes "-"))))

-- The types in lower case, each the first time that it is met.
unfoldable pub unique_relationship_types : List Relationship → List Text
unfolding collect
unique_relationship_types items =
    collect (λ t. to_lower (trim_space t)) [] (map Relationship.kind items)

unfoldable pub filter_relationship_types : List Text → Text → List Text
unfolding keep
filter_relationship_types options query =
    let q = to_lower (trim_space query) in
    if is_empty q then options else keep (λ o. contains q (to_lower o)) options
