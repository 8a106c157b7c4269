-- ===== src/ApprovalDiff/Options.antt =====
-- What the values of `--only` and `--max-lines` come to.
use nebula_core.Prelude.{
  ℕ, zero, suc, ◌≡◌, refl, Bool, true, false, ◌||◌, List, [], ◌∷◌, ◌++◌, ℤ, pos, negsuc, any, every,
  arith, ◌⊎◌, inl, inr, leb_ℤ, ap,
}
use nebula_core.Text.{Text, text_eq}
use nebula_core.StringSet.{mem, insert}
use nebula_core.StringSet.Laws.{mem-insert}
use nebula_core.ApprovalDiff.{
  ViewOptions, OptionsError, invalid_max_lines, missing_section, unexpected_only, Parsed, parsed,
  failed, OnlyToken, blank, changed, no_section, unknown, section, only_token, parse_only,
  parse_view_options,
}

pub is_changed : Text → Bool
is_changed raw = elim (only_token raw) [ changed ↦ true | _ ↦ false ]

pub is_understood : Text → Bool
is_understood raw = elim (only_token raw) [ no_section ↦ false | unknown ↦ false | _ ↦ true ]

-- A value that names the section `s`.
pub asks_for : Text → Text → Bool
asks_for s raw = elim (only_token raw) [ section t ↦ text_eq s t | _ ↦ false ]

-- The error that the value `raw` gives.
abbrev pub IsErrorOf : Text → OptionsError → Type 0
IsErrorOf raw e =
    ((only_token raw ≡ no_section) × (e ≡ missing_section raw))
    ⊎ ((only_token raw ≡ unknown) × (e ≡ unexpected_only raw))

abbrev pub IsFirstError : List Text → OptionsError → Type 0
IsFirstError only e =
    (understood : List Text) × (raw : Text) × (rest : List Text) × (only ≡ understood ++ raw ∷ rest)
    × (every is_understood understood ≡ true)
    × IsErrorOf raw e

-- What parsing the values leaves of the options.
abbrev pub IsReading : List Text → ViewOptions → Parsed → Type 0
IsReading only opts (parsed o) =
    (every is_understood only ≡ true)
    × (o.only_changed ≡ (opts.only_changed || any is_changed only))
    × ((s : Text) → mem s o.sections ≡ (mem s opts.sections || any (asks_for s) only))
    × (o.max_lines ≡ opts.max_lines)
    × (o.raw_only ≡ opts.raw_only)
IsReading only opts (failed e) = IsFirstError only e

one_more :
    (raw : Text) (only : List Text) (opts next : ViewOptions) (r : Parsed)
    → is_understood raw ≡ true
    → next.only_changed ≡ (opts.only_changed || is_changed raw)
    → ((s : Text) → mem s next.sections ≡ (mem s opts.sections || asks_for s raw))
    → next.max_lines ≡ opts.max_lines
    → next.raw_only ≡ opts.raw_only
    → IsReading only next r
    → IsReading (raw ∷ only) opts r
one_more raw only opts next (parsed o) u c m l w h =
    (ground arith, ground arith, (λ s. sections_of s (m s) (h.2 s)), ground arith, ground arith)
  where
    sections_of :
        (s : Text)
        → mem s next.sections ≡ (mem s opts.sections || asks_for s raw)
        → mem s o.sections ≡ (mem s next.sections || any (asks_for s) only)
        → mem s o.sections ≡ (mem s opts.sections || (asks_for s raw || any (asks_for s) only))
    sections_of s a b = ground arith
one_more raw only opts next (failed e) u c m l w h =
    (raw ∷ h.0, h.1, h.2, ap (◌∷◌ raw) h.3, ground (arith, h.4), h.5)

or_false : (a b : Bool) → b ≡ false → a ≡ (a || b)
or_false a b e = ground arith

or_true : (a b : Bool) → b ≡ true → true ≡ (a || b)
or_true a b e = ground arith

added :
    (s t : Text) (sections : List Text) (asks : Bool)
    → asks ≡ text_eq s t
    → mem s (insert t sections) ≡ (mem s sections || asks)
added s t sections asks e = ground (arith, mem-insert t s sections)

module _ (raw : Text) (only : List Text) (opts : ViewOptions)
    (ih : (next : ViewOptions) → IsReading only next (parse_only only next)) where
  stays :
      is_understood raw ≡ true
      → is_changed raw ≡ false
      → ((s : Text) → asks_for s raw ≡ false)
      → IsReading (raw ∷ only) opts (parse_only only opts)
  stays u c m =
      one_more raw only opts opts (parse_only only opts) u
        (or_false opts.only_changed (is_changed raw) c)
        (λ s. or_false (mem s opts.sections) (asks_for s raw) (m s)) refl refl (ih opts)

  turns_on :
      is_understood raw ≡ true
      → is_changed raw ≡ true
      → ((s : Text) → asks_for s raw ≡ false)
      → IsReading (raw ∷ only) opts (parse_only only (record opts { only_changed = true }))
  turns_on u c m =
      let next : ViewOptions = record opts { only_changed = true } in
      one_more raw only opts next (parse_only only next) u
        (or_true opts.only_changed (is_changed raw) c)
        (λ s. or_false (mem s opts.sections) (asks_for s raw) (m s)) refl refl (ih next)

  adds :
      (t : Text)
      → is_understood raw ≡ true
      → is_changed raw ≡ false
      → ((s : Text) → asks_for s raw ≡ text_eq s t)
      → IsReading
          (raw ∷ only)
          opts
          (parse_only only (record opts { sections = insert t opts.sections }))
  adds t u c m =
      let next : ViewOptions = record opts { sections = insert t opts.sections } in
      one_more raw only opts next (parse_only only next) u
        (or_false opts.only_changed (is_changed raw) c)
        (λ s. added s t opts.sections (asks_for s raw) (m s)) refl refl (ih next)

  fails : (e : OptionsError) → IsErrorOf raw e → IsReading (raw ∷ only) opts (failed e)
  fails e h = ([], raw, only, refl, refl, h)

  by_token :
      (t : OnlyToken)
      → only_token raw ≡ t
      → IsReading (raw ∷ only) opts (parse_only (raw ∷ only) opts)
  unfolding parse_only is_understood is_changed asks_for
  by_token blank e =
      rw (e, parse_only)
        (stays (rw (e, is_understood) refl) (rw (e, is_changed) refl) (λ s. rw (e, asks_for) refl))
  by_token changed e =
      rw (e, parse_only)
        (turns_on (rw (e, is_understood) refl) (rw (e, is_changed) refl)
          (λ s. rw (e, asks_for) refl))
  by_token no_section e = rw (e, parse_only) (fails (missing_section raw) (inl (e, refl)))
  by_token unknown e = rw (e, parse_only) (fails (unexpected_only raw) (inr (e, refl)))
  by_token (section t) e =
      rw (e, parse_only)
        (adds t (rw (e, is_understood) refl) (rw (e, is_changed) refl) (λ s. rw (e, asks_for) refl))

parse_only_lem :
    (only : List Text) (opts : ViewOptions) → IsReading only opts (parse_only only opts)
unfolding parse_only
parse_only_lem [] opts = (refl, ground arith, (λ s. ground arith), refl, refl)
parse_only_lem (raw ∷ only) opts =
    by_token raw only opts (parse_only_lem only) (only_token raw) refl

-- The outcome of the two flags.
abbrev pub IsOutcome : List Text → ℤ → Parsed → Type 0
IsOutcome only max_lines (parsed o) =
    (leb_ℤ (pos 1) max_lines ≡ true)
    × (every is_understood only ≡ true)
    × (o.only_changed ≡ any is_changed only)
    × ((s : Text) → mem s o.sections ≡ any (asks_for s) only)
    × (o.max_lines ≡ max_lines)
    × (o.raw_only ≡ only)
IsOutcome only max_lines (failed e) =
    ((leb_ℤ (pos 1) max_lines ≡ false) × (e ≡ invalid_max_lines max_lines)) ⊎ IsFirstError only e

reading-IsOutcome :
    (only : List Text) (n : ℕ) (r : Parsed)
    → IsReading only
        (record { only_changed = false; sections = []; max_lines = pos (suc n); raw_only = only })
        r
    → IsOutcome only (pos (suc n)) r
unfolding mem
reading-IsOutcome only n (parsed o) h = (ground arith, h.0, h.1, h.2, h.3, h.4)
reading-IsOutcome only n (failed e) h = inr h

-- The flags give options exactly where `--max-lines` is positive and every value of `--only` is
-- understood: then only changed fields are asked for if some value says `changed`, and a section
-- is asked for if some value names it. Otherwise the error is that of the line limit, or that of
-- the first value that is not understood.
pub parse_view_options_lem :
    (only : List Text) (max_lines : ℤ)
    → IsOutcome only max_lines (parse_view_options only max_lines)
unfolding parse_view_options
parse_view_options_lem only (negsuc n) = inl (ground arith, refl)
parse_view_options_lem only (pos zero) = inl (ground arith, refl)
parse_view_options_lem only (pos (suc n)) =
    reading-IsOutcome only n (parse_only only _) (parse_only_lem only _)
