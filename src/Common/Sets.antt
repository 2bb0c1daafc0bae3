-- ===== src/Common/Sets.antt =====
-- The list helpers as operations on sets of keys, and the order of the nonces.
use aleph_indexer_framework.Prelude.{
  ℕ, ◌≤◌, ◌<◌, ◌≡◌, ◌∙◌, refl, ap, inl, inr, Bool, not, ◌&&◌, ◌||◌, List, [], ◌∷◌, ◌++◌, keep,
  length, ltb, ◌==◌, ==_iff, All, arith, Bool-cases,
}
use aleph_indexer_framework.Common.{
  list_map, list_intersection, list_dedup, list_substraction, nonce, nonces,
}

module _ {ℓ} {T : Type ℓ} (get_key : T → ℕ) where
  list_map-keep :
      (f : ℕ → Bool) (xs : List T) (k : ℕ)
      → list_map get_key (keep (λ x. f (get_key x)) xs) k ≡ (list_map get_key xs k && f k)
  list_map-keep f [] k = refl
  list_map-keep f (x ∷ xs) k =
      let rest = list_map-keep f xs k in
      elim (Bool-cases (get_key x == k)) [
        | inl e ↦ let same = ap f ((==_iff (get_key x) k).0 e) in ground arith
        | inr e ↦ ground arith
      ]

  list_map-append :
      (xs ys : List T) (k : ℕ)
      → list_map get_key (xs ++ ys) k ≡ (list_map get_key xs k || list_map get_key ys k)
  list_map-append [] ys k = refl
  list_map-append (x ∷ xs) ys k = ground (arith, list_map-append xs ys k)

  -- A key occurs in the intersection exactly if it occurs in both lists, in the deduplication exactly
  -- if it occurs in one of them, and in the subtraction exactly if it occurs in the first and not in
  -- the second, whichever list is the longer one.
  pub list_map-sets :
      (a b : List T) (k : ℕ)
      → (list_map get_key (list_intersection get_key a b) k
          ≡ (list_map get_key a k && list_map get_key b k))
        × (list_map get_key (list_dedup get_key a b) k
            ≡ (list_map get_key a k || list_map get_key b k))
        × (list_map get_key (list_substraction get_key a b) k
            ≡ (list_map get_key a k && not (list_map get_key b k)))
  unfolding list_intersection list_dedup list_substraction
  list_map-sets a b k =
      let ab = list_map-keep (list_map get_key a) b k in
      let ba = list_map-keep (list_map get_key b) a k in
      let nab = list_map-keep (λ x. not (list_map get_key a x)) b k in
      let nba = list_map-keep (λ x. not (list_map get_key b x)) a k in
      elim (Bool-cases (ltb (length a) (length b))) [
        | inl h ↦ rw h (ab ∙ ground arith, list_map-append a _ k ∙ ground (arith, nab), nba)
        | inr h ↦ rw h (ba, list_map-append b _ k ∙ ground (arith, nba), nba)
      ]

-- Each is less than all that follow.
abbrev pub IsIncreasing : List ℕ → Type 0
IsIncreasing [] = Unit
IsIncreasing (x ∷ xs) = All (λ y. x < y) xs × IsIncreasing xs

nonces_above :
    (bound last : ℕ) (times : List ℕ) → bound ≤ last → All (λ y. bound < y) (nonces last times)
unfolding nonces
nonces_above bound last [] h = tt
nonces_above bound last (now ∷ times) h =
    (ground arith, nonces_above bound (nonce last now) times (ground arith))

-- Nonces grow from each to the next, and are above the last one before, whatever the clock shows.
pub nonces-IsIncreasing :
    (last : ℕ) (times : List ℕ)
    → All (λ y. last < y) (nonces last times) × IsIncreasing (nonces last times)
unfolding nonces
nonces-IsIncreasing last [] = (tt, tt)
nonces-IsIncreasing last (now ∷ times) =
    let (above, grow) = nonces-IsIncreasing (nonce last now) times in
    (nonces_above last last (now ∷ times) (omega arith), (above, grow))
