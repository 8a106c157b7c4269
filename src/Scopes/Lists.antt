-- ===== src/Scopes/Lists.antt =====
-- What the lists of scopes and tags hold.
use nebula_core.Prelude.{
  ◌≡◌, refl, Bool, false, not, ◌&&◌, ◌||◌, List, [], ◌∷◌, arith, is_empty, any, Bool-cases, inl,
  inr, if◌then◌else◌,
}
use nebula_core.Text.{Text, text_eq}
use nebula_core.Text.Laws.{text_eq_iff}
use nebula_core.StringSet.{mem, insert, Distinct}
use nebula_core.StringSet.Laws.{mem-append, mem-insert}
use nebula_core.Scopes.{without_scope, toggle_scope, collect, scope_of, normalize_scope_list}

mem-without_scope :
    (x scope : Text) (scopes : List Text)
    → (mem x (without_scope scopes scope).0 ≡ (mem x scopes && not (text_eq x scope)))
      × ((without_scope scopes scope).1 ≡ mem scope scopes)
unfolding without_scope mem
mem-without_scope x scope [] = (refl, refl)
mem-without_scope x scope (s ∷ scopes) = ground (
  arith,
  mem-without_scope x scope scopes,
  text_eq_iff s scope,
  text_eq_iff scope s,
  text_eq_iff x s,
  text_eq_iff x scope,
)

-- A toggled scope is in the list exactly if it was not; every other scope is in it as before.
mem-toggle_scope :
    (x scope : Text) (scopes : List Text)
    → mem x (toggle_scope scopes scope)
      ≡ (if text_eq x scope then not (mem scope scopes) else mem x scopes)
unfolding toggle_scope mem
mem-toggle_scope x scope scopes = ground (
  arith,
  mem-without_scope x scope scopes,
  mem-append x (without_scope scopes scope).0 (scope ∷ []),
  text_eq_iff x scope,
)

module _ (norm : Text → Text) where
  -- A value of the list is normalised to `x`.
  abbrev pub yields : Text → List Text → Bool
  yields x vs = any (λ v. text_eq x (norm v)) vs

  pub mem-collect :
      (x : Text) (seen vs : List Text)
      → mem x (collect norm seen vs) ≡ (not (mem x seen) && (not (is_empty x) && yields x vs))
  unfolding collect mem
  mem-collect x seen [] = ground arith
  mem-collect x seen (v ∷ vs) = ground (
    arith,
    mem-collect x seen vs,
    mem-collect x (insert (norm v) seen) vs,
    mem-insert (norm v) x seen,
    text_eq_iff x (norm v),
  )

  pub collect-Distinct : (seen vs : List Text) → Distinct (collect norm seen vs)
  unfolding collect
  collect-Distinct seen [] = tt
  collect-Distinct seen (v ∷ vs) = elim (Bool-cases (is_empty (norm v) || mem (norm v) seen)) [
    | inl s ↦ rw s (collect-Distinct seen vs)
    | inr n ↦ rw n (fresh, collect-Distinct (insert (norm v) seen) vs)
  ]
    where
      fresh : mem (norm v) (collect norm (insert (norm v) seen) vs) ≡ false
      fresh = ground (
        arith,
        mem-collect (norm v) (insert (norm v) seen) vs,
        mem-insert (norm v) (norm v) seen,
        text_eq_iff (norm v) (norm v),
      )

-- The normalised scopes are exactly the non-empty normal forms of the values, each once.
pub normalize_scope_list_lem :
    (x : Text) (vs : List Text)
    → (mem x (normalize_scope_list vs) ≡ (not (is_empty x) && yields scope_of x vs))
      × Distinct (normalize_scope_list vs)
unfolding normalize_scope_list mem
normalize_scope_list_lem x vs =
    (ground (arith, mem-collect scope_of x [] vs), collect-Distinct scope_of [] vs)
