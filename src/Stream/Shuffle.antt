-- ===== src/Stream/Shuffle.antt =====
-- `mergeStreams` and `mergeShuffledStreams` of packages/core/src/utils/stream.ts. A source is the list
-- of the values that it yields, none of them `undefined`. The keys of the iterators are the indices of
-- the sources, so `Object.entries` keeps their order.
use aleph_indexer_framework.Prelude.{
  ℕ, zero, suc, ◌+◌, ◌≤◌, ◌≡◌, ◌∙◌, ap, refl, Bool, List, [], ◌∷◌, ◌++◌, Option, none, some, length,
  arith, if◌then◌else◌,
}

module _ {ℓ} {T : Type ℓ} where
  pub merge_streams : List (List T) → List T
  merge_streams [] = []
  merge_streams (source ∷ sources) = source ++ merge_streams sources

  -- What a round over the iterators yields, and the iterators that are left: one that is done is
  -- deleted.
  abbrev pub round_values : List (List T) → List T
  round_values [] = []
  round_values ([] ∷ its) = round_values its
  round_values ((v ∷ rest) ∷ its) = v ∷ round_values its

  abbrev pub round_left : List (List T) → List (List T)
  round_left [] = []
  round_left ([] ∷ its) = round_left its
  round_left ((v ∷ rest) ∷ its) = rest ∷ round_left its

  abbrev pub yield_first : List T → Option (List T) → Option (List T)
  yield_first out none = none
  yield_first out (some later) = some (out ++ later)

  -- The loop on fuel.
  pub shuffle_rounds : ℕ → List (List T) → Option (List T)
  shuffle_rounds fuel [] = some []
  shuffle_rounds zero (it ∷ its) = none
  shuffle_rounds (suc fuel) (it ∷ its) =
      yield_first (round_values (it ∷ its)) (shuffle_rounds fuel (round_left (it ∷ its)))

  -- The calls of `next` that the iterators are still to get.
  abbrev pub calls_left : List (List T) → ℕ
  calls_left [] = 0
  calls_left (it ∷ its) = suc (length it) + calls_left its

  pub merge_shuffled_streams : List (List T) → Option (List T)
  merge_shuffled_streams (source ∷ []) = some source
  merge_shuffled_streams sources = shuffle_rounds (calls_left sources) sources

  -- How many values pass a test.
  abbrev pub count : (T → Bool) → List T → ℕ
  count p [] = 0
  count p (x ∷ xs) = (if p x then 1 else 0) + count p xs

  count-append : (p : T → Bool) (xs ys : List T) → count p (xs ++ ys) ≡ count p xs + count p ys
  count-append p [] ys = omega arith
  count-append p (x ∷ xs) ys = omega (arith, count-append p xs ys)

  round-count :
      (p : T → Bool) (its : List (List T))
      → count p (round_values its) + count p (merge_streams (round_left its))
        ≡ count p (merge_streams its)
  unfolding merge_streams
  round-count p [] = refl
  round-count p ([] ∷ its) = round-count p its
  round-count p ((v ∷ rest) ∷ its) = omega (
    arith,
    round-count p its,
    count-append p rest (merge_streams (round_left its)),
    count-append p rest (merge_streams its),
  )

  round-calls : (its : List (List T)) → calls_left (round_left its) + length its ≤ calls_left its
  round-calls [] = omega arith
  round-calls ([] ∷ its) = omega (arith, round-calls its)
  round-calls ((v ∷ rest) ∷ its) = omega (arith, round-calls its)

  shuffle_rounds-count :
      (fuel : ℕ) (its : List (List T))
      → calls_left its ≤ fuel
      → (out : List T) × (shuffle_rounds fuel its ≡ some out)
        × ((p : T → Bool) → count p out ≡ count p (merge_streams its))
  unfolding shuffle_rounds merge_streams
  shuffle_rounds-count fuel [] h = ([], refl, λ p. refl)
  shuffle_rounds-count zero (it ∷ its) h = ground arith
  shuffle_rounds-count (suc fuel) (it ∷ its) h =
      let now = round_values (it ∷ its) in
      let (out, e, c) =
        shuffle_rounds-count fuel (round_left (it ∷ its)) (omega (arith, round-calls (it ∷ its))) in
      (
        now ++ out,
        ap (yield_first now) e,
        λ p. count-append p now out ∙ ap (λ n. count p now + n) (c p) ∙ round-count p (it ∷ its),
      )

  -- The merge ends, and of any kind of value it yields as many as `mergeStreams` yields.
  pub merge_shuffled_streams-total :
      (sources : List (List T))
      → (out : List T) × (merge_shuffled_streams sources ≡ some out)
        × ((p : T → Bool) → count p out ≡ count p (merge_streams sources))
  unfolding merge_shuffled_streams merge_streams shuffle_rounds
  merge_shuffled_streams-total [] = ([], refl, λ p. refl)
  merge_shuffled_streams-total (source ∷ []) =
      (source, refl, λ p. omega (arith, count-append p source []))
  merge_shuffled_streams-total (a ∷ b ∷ sources) =
      shuffle_rounds-count _ (a ∷ b ∷ sources) (omega arith)
