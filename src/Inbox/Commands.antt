-- ===== src/Inbox/Commands.antt =====
-- The loops over the ids that run inside the commands of the inbox (inbox.go: approveSelected and
-- handleRejectPreview). The server is an argument: for an id none, or the error of the call.
use nebula_core.Prelude.{◌≡◌, refl, Option, none, some, List, [], ◌∷◌, ◌++◌, arith, All, ap}
use nebula_core.Text.{Text}

module _ {Err : Type 0} (call : Text → Option Err) where
  -- The ids whose call was made, in order, and the error that ended the loop.
  unfoldable pub call_each : List Text → List Text × Option Err
  call_each [] = ([], none)
  call_each (id ∷ ids) =
      let rest = call_each ids in
      elim (call id) [ some e ↦ (id ∷ [], some e) | none ↦ (id ∷ rest.0, rest.1) ]

  -- The loop is over without an error.
  abbrev pub Completed : List Text → Type 0
  Completed ids =
      ((call_each ids).1 ≡ none) × ((call_each ids).0 ≡ ids) × All (λ id. call id ≡ none) ids

  -- The loop stopped at `id`, all calls before it went well, and nothing after it was called.
  abbrev pub StoppedAt : List Text → Text → List Text → List Text → Err → Type 0
  StoppedAt ids id before after e =
      (ids ≡ before ++ (id ∷ after))
      × ((call_each ids).0 ≡ before ++ (id ∷ []))
      × ((call_each ids).1 ≡ some e)
      × (call id ≡ some e)
      × All (λ j. call j ≡ none) before

  -- Why the loop ended: all ids were called, or the first failing one was the last.
  pub data Outcome (ids : List Text) : Type 0 where
    completed : Completed ids → Outcome ids
    stopped :
        (id : Text) (before after : List Text) (e : Err)
        → StoppedAt ids id before after e
        → Outcome ids

  -- The loop calls the server for each id in order and stops at the first error: it either calls
  -- for all ids, all of them well, or ends with the error of an id before which all calls went
  -- well and after which none is made.
  pub call_each-Outcome : (ids : List Text) → Outcome ids
  unfolding call_each
  call_each-Outcome [] = completed (refl, refl, tt)
  call_each-Outcome (id ∷ ids) = go (call id) refl (call_each-Outcome ids)
    where
      go : (o : Option Err) → call id ≡ o → Outcome ids → Outcome (id ∷ ids)
      go (some e) h ih = stopped id [] ids e (refl, ground arith, ground arith, h, tt)
      go none h (completed (a, b, c)) = completed (ground arith, ground arith, (h, c))
      go none h (stopped j before after e (a, b, c, d, f)) =
          stopped j (id ∷ before) after e (ap (id ∷◌) a, ground arith, ground arith, d, (h, f))
