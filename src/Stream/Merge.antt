-- ===== src/Stream/Merge.antt =====
-- `mergeShuffledSortedStreams` of packages/core/src/utils/stream.ts. A source is the list of the
-- values that it yields, none of them `undefined`; `le a b` is the test `comparator(a, b) <= 0`.
pub mod Rounds
pub mod Sorted
pub mod Total
use aleph_indexer_framework.Prelude.{
  ℕ, zero, suc, ◌+◌, Bool, true, false, List, [], ◌∷◌, ◌++◌, Option, none, some, if◌then◌else◌,
  length,
}

-- An entry of `nextItems`: the value that was read ahead, and what its iterator has left.
abbrev pub Item {ℓ} : Type ℓ → Type ℓ
Item T = T × List T

module _ {ℓ} {T : Type ℓ} where
  -- The first value of each source; a source without one is left out.
  abbrev pub next_items : List (List T) → List (Item T)
  next_items [] = []
  next_items ([] ∷ ss) = next_items ss
  next_items ((v ∷ rest) ∷ ss) = (v, rest) ∷ next_items ss

  -- How many values are left.
  abbrev pub size : List (Item T) → ℕ
  size [] = 0
  size ((v, rest) ∷ items) = suc (length rest) + size items

  -- `second?.value`
  abbrev pub second_value : List (Item T) → Option T
  second_value [] = none
  second_value ((v, rest) ∷ items) = some v

module _ {ℓ} {T : Type ℓ} (le : T → T → Bool) where
  -- `nextItems.sort(…)`, which is stable.
  pub insert_item : Item T → List (Item T) → List (Item T)
  insert_item x [] = x ∷ []
  insert_item x (y ∷ ys) = if le x.0 y.0 then x ∷ y ∷ ys else y ∷ insert_item x ys

  pub sort_items : List (Item T) → List (Item T)
  sort_items [] = []
  sort_items (x ∷ xs) = insert_item x (sort_items xs)

  abbrev pub goes_first : T → Option T → Bool
  goes_first v none = true
  goes_first v (some w) = le v w

  -- The inner loop: what the first iterator yields, and its entry where it has a value left.
  pub drain : Option T → T → List T → List T × List (Item T)
  drain second v [] = if goes_first v second then (v ∷ [], []) else ([], (v, []) ∷ [])
  drain second v (x ∷ rest) =
      let (out, left) = drain second x rest in
      if goes_first v second then (v ∷ out, left) else ([], (v, x ∷ rest) ∷ [])

  -- What a round yields stands before what the later rounds yield.
  abbrev pub prepend : List T → Option (List T) → Option (List T)
  prepend out none = none
  prepend out (some later) = some (out ++ later)

  -- A round of the outer loop over the sorted entries; `again` makes the rounds that follow.
  pub merge_round : (List (Item T) → Option (List T)) → List (Item T) → Option (List T)
  merge_round again [] = some []
  merge_round again ((v, rest) ∷ others) =
      let (out, left) = drain (second_value others) v rest in prepend out (again (left ++ others))

  -- The outer loop on fuel: `none` means that it ran out.
  pub merge_items : ℕ → List (Item T) → Option (List T)
  merge_items zero items = none
  merge_items (suc fuel) items = merge_round (merge_items fuel) (sort_items items)

  pub merge_shuffled_sorted_streams : List (List T) → Option (List T)
  merge_shuffled_sorted_streams (source ∷ []) = some source
  merge_shuffled_sorted_streams sources =
      let items = next_items sources in merge_items (suc (size items)) items
