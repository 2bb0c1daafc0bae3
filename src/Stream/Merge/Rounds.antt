-- ===== src/Stream/Merge/Rounds.antt =====
-- One round of `mergeShuffledSortedStreams`: what the inner loop yields and what it leaves.
use mathlib.Core.List.{Perm, perm_append_comm}
use mathlib.Core.List.Perm
use aleph_indexer_framework.Prelude.{
  suc, ◌<◌, ◌≡◌, refl, ap, Bool, true, inl, inr, List, [], ◌∷◌, ◌++◌, Option, length, All,
  Bool-cases, arith, append_assoc, append-nil,
}
use aleph_indexer_framework.Stream.Merge.{Item, goes_first, insert_item, sort_items, size, drain}
use aleph_indexer_framework.Stream.Merge.Sorted.{contents, SourcesSorted, IsSorted}

swap_blocks {ℓ} : {T : Type ℓ} (xs ys zs : List T) → Perm (ys ++ (xs ++ zs)) (xs ++ (ys ++ zs))
swap_blocks xs ys zs =
    rw (← append_assoc, ← append_assoc) (Perm.append_right zs (perm_append_comm ys xs))

module _ {ℓ} {T : Type ℓ} (le : T → T → Bool) where
  insert_item-perm :
      (x : Item T) (items : List (Item T))
      → Perm (contents (insert_item le x items)) (contents (x ∷ items))
  unfolding insert_item
  insert_item-perm x [] = Perm.refl _
  insert_item-perm x (y ∷ ys) = elim (Bool-cases (le x.0 y.0)) [
    | inl e ↦ rw e (Perm.refl _)
    | inr e ↦ rw e (
        Perm.trans (Perm.append_left (y.0 ∷ y.1) (insert_item-perm x ys))
          (swap_blocks (x.0 ∷ x.1) (y.0 ∷ y.1) (contents ys)))
  ]

  pub sort_items-perm :
      (items : List (Item T)) → Perm (contents (sort_items le items)) (contents items)
  unfolding sort_items
  sort_items-perm [] = Perm.refl []
  sort_items-perm (x ∷ xs) =
      Perm.trans (insert_item-perm x (sort_items le xs))
        (Perm.append_left (x.0 ∷ x.1) (sort_items-perm xs))

  pub drain-split :
      (second : Option T) (v : T) (rest : List T)
      → (drain le second v rest).0 ++ contents (drain le second v rest).1 ≡ v ∷ rest
  unfolding drain
  drain-split second v [] = elim (Bool-cases (goes_first le v second)) [
    | inl e ↦ rw e refl
    | inr e ↦ rw e refl
  ]
  drain-split second v (x ∷ rest) = elim (Bool-cases (goes_first le v second)) [
    | inl e ↦ rw e (ap (◌∷◌ v) (drain-split second x rest))
    | inr e ↦ rw e (ap (λ l. v ∷ x ∷ l) (append-nil rest))
  ]

  pub drain-goes_first :
      (second : Option T) (v : T) (rest : List T)
      → All (λ x. goes_first le x second ≡ true) (drain le second v rest).0
  unfolding drain
  drain-goes_first second v [] = elim (Bool-cases (goes_first le v second)) [
    | inl e ↦ rw e (e, tt)
    | inr e ↦ rw e tt
  ]
  drain-goes_first second v (x ∷ rest) = elim (Bool-cases (goes_first le v second)) [
    | inl e ↦ rw e (e, drain-goes_first second x rest)
    | inr e ↦ rw e tt
  ]

  drain-size-le :
      (second : Option T) (v : T) (rest : List T)
      → size (drain le second v rest).1 < suc (suc (length rest))
  unfolding drain
  drain-size-le second v [] = ground arith
  drain-size-le second v (x ∷ rest) = ground (arith, drain-size-le second x rest)

  -- Where the first value goes first, the round takes at least that one.
  pub drain-size :
      (second : Option T) (v : T) (rest : List T)
      → goes_first le v second ≡ true
      → size (drain le second v rest).1 < suc (length rest)
  unfolding drain
  drain-size second v [] e = rw e (omega arith)
  drain-size second v (x ∷ rest) e = rw e (drain-size-le second x rest)

  pub drain-SourcesSorted :
      (second : Option T) (v : T) (rest : List T)
      → IsSorted le (v ∷ rest)
      → SourcesSorted le (drain le second v rest).1
  unfolding drain
  drain-SourcesSorted second v [] s = elim (Bool-cases (goes_first le v second)) [
    | inl e ↦ rw e tt
    | inr e ↦ rw e (s, tt)
  ]
  drain-SourcesSorted second v (x ∷ rest) s = elim (Bool-cases (goes_first le v second)) [
    | inl e ↦ rw e (drain-SourcesSorted second x rest s.1)
    | inr e ↦ rw e (s, tt)
  ]
