-- ===== src/Inbox/Indices.antt =====
-- What the filter of the inbox shows.
use nebula_core.Prelude.{
  ℕ, zero, suc, ◌+◌, ◌<◌, ◌≤◌, ◌≡◌, refl, Bool, false, ◌==◌, Option, none, some, List, [], ◌∷◌,
  arith, length, get_elem?, any, Bool-cases, inl, inr, All,
}
use native.Mathlib.Nat.{add-suc, suc-add}
use nebula_core.Inbox.State.{InboxModel}
use nebula_core.Inbox.Filter.{parse_approval_filter, matches_approval_filter}
use nebula_core.Inbox.Select.{Env, matching, apply_filter}

-- The index stands in the list.
abbrev pub has : ℕ → List ℕ → Bool
has i is = any (λ j. j == i) is

-- The item satisfies the test, if there is one.
abbrev pub holds {ℓ} : {A : Type ℓ} → (A → Bool) → Option A → Bool
holds p none = false
holds p (some a) = p a

-- The indices grow from left to right, all of them at least `lo`.
abbrev pub Ascending : ℕ → List ℕ → Type 0
Ascending lo [] = Unit
Ascending lo (i ∷ is) = (lo ≤ i) × Ascending (suc i) is

module _ {ℓ} {A : Type ℓ} (p : A → Bool) where
  has-matching_below : (i k : ℕ) (xs : List A) → i < k → has i (matching p k xs) ≡ false
  unfolding matching
  has-matching_below i k [] h = refl
  has-matching_below i k (x ∷ xs) h = ground (arith, has-matching_below i (suc k) xs)

  has-matching_from :
      (i k : ℕ) (xs : List A) → has (k + i) (matching p k xs) ≡ holds p (get_elem? xs i)
  unfolding matching
  has-matching_from i k [] = refl
  has-matching_from zero k (x ∷ xs) = ground (arith, has-matching_below (k + 0) (suc k) xs)
  has-matching_from (suc i) k (x ∷ xs) =
      ground (arith, add-suc k i, suc-add k i, has-matching_from i (suc k) xs)

  pub has-matching : (i : ℕ) (xs : List A) → has i (matching p 0 xs) ≡ holds p (get_elem? xs i)
  has-matching i xs = ground (arith, has-matching_from i 0 xs)

  matching-Ascending : (lo k : ℕ) (xs : List A) → lo ≤ k → Ascending lo (matching p k xs)
  unfolding matching
  matching-Ascending lo k [] h = tt
  matching-Ascending lo k (x ∷ xs) h = elim (Bool-cases (p x)) [
    | inl e ↦ rw e (h, matching-Ascending (suc k) (suc k) xs (omega arith))
    | inr e ↦ rw e (matching-Ascending lo (suc k) xs (omega arith))
  ]

  pub matching-in_range :
      (k n : ℕ) (xs : List A) → k + length xs ≡ n → All (λ i. i < n) (matching p k xs)
  unfolding matching
  matching-in_range k n [] h = tt
  matching-in_range k n (x ∷ xs) h = elim (Bool-cases (p x)) [
    | inl e ↦ rw e (omega arith, matching-in_range (suc k) n xs (omega arith))
    | inr e ↦ rw e (matching-in_range (suc k) n xs (omega arith))
  ]

-- After a filter is applied the visible indices are exactly those of the items that match it, in
-- the order of the items.
pub filtered-apply_filter :
    {Table Time Duration : Type 0} (env : Env Table Time Duration) (b : Bool)
    (m : InboxModel Table Time) (i : ℕ)
    → let filter = parse_approval_filter env.clock m.filter_buf in
      let shown = (apply_filter env b m).filtered in
      (has i shown
        ≡ holds (λ a. matches_approval_filter env.clock env.line a filter) (get_elem? m.items i))
      × Ascending 0 shown
unfolding apply_filter
filtered-apply_filter env b m i =
    (has-matching _ i m.items, matching-Ascending _ 0 0 m.items (omega arith))
