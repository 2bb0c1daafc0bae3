-- ===== src/Stream/Merge/Total.antt =====
-- The whole of `mergeShuffledSortedStreams`.
use mathlib.Core.Logic.{∥∥₁_elim}
use mathlib.Core.List.{Perm, Permᴰ}
use mathlib.Core.List.Perm
use aleph_indexer_framework.Prelude.{
  ℕ, zero, suc, ◌+◌, ◌<◌, ◌≡◌, refl, ap, sym, subst, Bool, true, List, [], ◌∷◌, ◌++◌, Option, some,
  All, All-zip_with, All-append, arith, append_assoc, append-nil,
}
use aleph_indexer_framework.Stream.Merge.{
  Item, goes_first, second_value, sort_items, size, drain, next_items, prepend, merge_round,
  merge_items, merge_shuffled_sorted_streams,
}
use aleph_indexer_framework.Stream.Merge.Sorted.{
  IsOrder, contents, SourcesSorted, HeadsSorted, IsSorted, AllFrom, IsSorted-split, IsSorted-append,
  goes_first-contents, sort_items-HeadsSorted, sort_items-SourcesSorted, size-sort_items,
}
use aleph_indexer_framework.Stream.Merge.Rounds.{
  sort_items-perm, drain-split, drain-goes_first, drain-size, drain-SourcesSorted,
}

contents-append {ℓ} :
    {T : Type ℓ} (xs ys : List (Item T)) → contents (xs ++ ys) ≡ contents xs ++ contents ys
contents-append [] ys = refl
contents-append (x ∷ xs) ys = simp (contents-append xs ys, append_assoc)

size-append {ℓ} : {T : Type ℓ} (xs ys : List (Item T)) → size (xs ++ ys) ≡ size xs + size ys
size-append [] ys = omega arith
size-append (x ∷ xs) ys = omega (arith, size-append xs ys)

-- All values of the sources, one source behind the other.
abbrev pub all_values {ℓ} : {T : Type ℓ} → List (List T) → List T
all_values [] = []
all_values (s ∷ ss) = s ++ all_values ss

module _ {ℓ} {T : Type ℓ} (le : T → T → Bool) where
  AllFrom-prop : (v : T) (xs : List T) → IsProp (AllFrom le v xs)
  AllFrom-prop v [] = hlevel
  AllFrom-prop v (x ∷ xs) = hlevel (AllFrom-prop v xs)

  AllFrom-permᴰ : (v : T) {xs ys : List T} → Permᴰ xs ys → AllFrom le v xs → AllFrom le v ys
  AllFrom-permᴰ v Permᴰ.nil h = tt
  AllFrom-permᴰ v (Permᴰ.cons e p) h = (rw (← e) h.0, AllFrom-permᴰ v p h.1)
  AllFrom-permᴰ v (Permᴰ.swap e f) h = (rw (← f) h.1.0, (rw e at h.0, h.1.1))
  AllFrom-permᴰ v (Permᴰ.trans p q) h = AllFrom-permᴰ v q (AllFrom-permᴰ v p h)

  AllFrom-perm : (v : T) {xs ys : List T} → Perm xs ys → AllFrom le v xs → AllFrom le v ys
  AllFrom-perm v {ys = ys} p h = ∥∥₁_elim p (AllFrom-prop v ys) (λ d. AllFrom-permᴰ v d h)

  -- The result of the loop on some fuel: it has not run out, and what it yields is sorted and holds
  -- the values of the entries.
  abbrev Merged : Option (List T) → List (Item T) → Type ℓ
  Merged r items = (out : List T) × (r ≡ some out) × IsSorted le out × Perm out (contents items)

  -- Every value of a round goes before all that are left.
  round_below :
      (order : IsOrder le) (out : List T) (left others : List (Item T))
      → All (λ x. goes_first le x (second_value others) ≡ true) out
      → All (λ x. AllFrom le x (contents left)) out
      → HeadsSorted le others
      → SourcesSorted le others
      → All (λ x. AllFrom le x (contents (left ++ others))) out
  round_below order out left others g b h s =
      All-zip_with (λ x. goes_first le x (second_value others) ≡ true)
        (λ x. AllFrom le x (contents left)) (λ x. AllFrom le x (contents (left ++ others)))
        (λ x gx bx. rw (contents-append left others) (
          All-append (λ y. le x y ≡ true) (contents left) (contents others) bx
            (goes_first-contents le order x others gx h s)))
        out g b

  prepend-Merged :
      (order : IsOrder le) (v : T) (rest out : List T) (left others : List (Item T))
      (later : Option (List T))
      → out ++ contents left ≡ v ∷ rest
      → IsSorted le (v ∷ rest)
      → All (λ x. goes_first le x (second_value others) ≡ true) out
      → HeadsSorted le others
      → SourcesSorted le others
      → Merged later (left ++ others)
      → Merged (prepend le out later) ((v, rest) ∷ others)
  prepend-Merged order v rest out left others later split sv g h s (tail, e, st, p) =
      let (so, b) = IsSorted-split le out (contents left) (subst (IsSorted le) (sym split) sv) in
      let below = round_below order out left others g b h s in
      let below' =
        All-zip_with (λ x. AllFrom le x (contents (left ++ others)))
          (λ x. AllFrom le x (contents (left ++ others))) (λ x. AllFrom le x tail)
          (λ x a _. AllFrom-perm x (Perm.symm p) a) out below below in
      (
        out ++ tail,
        rw e refl,
        IsSorted-append le out tail so st below',
        subst (λ l. Perm (out ++ tail) (l ++ contents others)) split
            (rw append_assoc (
              subst (λ l. Perm (out ++ tail) (out ++ l)) (contents-append left others)
                (Perm.append_left out p))),
      )

  module _ (order : IsOrder le) (fuel : ℕ)
      (rounds : (items : List (Item T))
        → size items < fuel
        → SourcesSorted le items
        → Merged (merge_items le fuel items) items) where
    merge_round-Merged :
        (items : List (Item T))
        → size items < suc fuel
        → HeadsSorted le items
        → SourcesSorted le items
        → Merged (merge_round le (merge_items le fuel) items) items
    unfolding merge_round
    merge_round-Merged [] h hs ss = ([], refl, tt, Perm.refl [])
    merge_round-Merged ((v, rest) ∷ others) h hs ss =
        let second = second_value others in
        let left = (drain le second v rest).1 in
        let g = head_first others hs.0 in
        let shorter = drain-size le second v rest g in
        prepend-Merged order v rest (drain le second v rest).0 left others
          (merge_items le fuel (left ++ others)) (drain-split le second v rest) ss.0
          (drain-goes_first le second v rest) hs.1 ss.1
          (rounds (left ++ others) (omega (arith, size-append left others)) (
            All-append (λ it. IsSorted le (it.0 ∷ it.1)) left others
              (drain-SourcesSorted le second v rest ss.0) ss.1))
      where
        head_first :
            (os : List (Item T))
            → All (λ it. le v it.0 ≡ true) os
            → goes_first le v (second_value os) ≡ true
        head_first [] hf = refl
        head_first (o ∷ os) hf = hf.0

  merge_items-Merged :
      (order : IsOrder le) (fuel : ℕ) (items : List (Item T))
      → size items < fuel
      → SourcesSorted le items
      → Merged (merge_items le fuel items) items
  unfolding merge_items
  merge_items-Merged order zero items h s = absurd (omega arith)
  merge_items-Merged order (suc fuel) items h s =
      let sorted = sort_items le items in
      let (out, e, so, p) =
        merge_round-Merged order fuel (merge_items-Merged order fuel) sorted
          (omega (arith, size-sort_items le items)) (sort_items-HeadsSorted le order items)
          (sort_items-SourcesSorted le items s) in
      (out, e, so, Perm.trans p (sort_items-perm le items))

  abbrev pub AllSorted : List (List T) → Type 0
  AllSorted sources = All (IsSorted le) sources

  next_items-SourcesSorted :
      (sources : List (List T)) → AllSorted sources → SourcesSorted le (next_items sources)
  next_items-SourcesSorted [] h = tt
  next_items-SourcesSorted ([] ∷ ss) h = next_items-SourcesSorted ss h.1
  next_items-SourcesSorted ((v ∷ rest) ∷ ss) h = (h.0, next_items-SourcesSorted ss h.1)

  contents-next_items :
      (sources : List (List T)) → contents (next_items sources) ≡ all_values sources
  contents-next_items [] = refl
  contents-next_items ([] ∷ ss) = contents-next_items ss
  contents-next_items ((v ∷ rest) ∷ ss) = ap (λ l. v ∷ (rest ++ l)) (contents-next_items ss)

  merged :
      (order : IsOrder le) (sources : List (List T))
      → AllSorted sources
      → (out : List T) × (merge_items le (suc (size (next_items sources))) (next_items sources)
          ≡ some out)
        × IsSorted le out
        × Perm out (all_values sources)
  merged order sources h =
      let items = next_items sources in
      let (out, e, so, p) =
        merge_items-Merged order (suc (size items)) items (omega arith)
          (next_items-SourcesSorted sources h) in
      (out, e, so, subst (Perm out) (contents-next_items sources) p)

  -- For a comparator that is an order, and sources that are sorted by it: the merge ends, and yields
  -- the values of all sources, each as often as they hold it, in order.
  pub merge_shuffled_sorted_streams-total :
      (order : IsOrder le) (sources : List (List T))
      → AllSorted sources
      → (out : List T) × (merge_shuffled_sorted_streams le sources ≡ some out)
        × IsSorted le out
        × Perm out (all_values sources)
  unfolding merge_shuffled_sorted_streams
  merge_shuffled_sorted_streams-total order (s ∷ []) h =
      (s, refl, h.0, subst (Perm s) (sym (append-nil s)) (Perm.refl s))
  merge_shuffled_sorted_streams-total order [] h = merged order [] h
  merge_shuffled_sorted_streams-total order (s ∷ u ∷ us) h = merged order (s ∷ u ∷ us) h
