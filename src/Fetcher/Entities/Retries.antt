-- ===== src/Fetcher/Entities/Retries.antt =====
-- The retries of `handlePendingEntitiesFetch` of
-- packages/framework/src/services/fetcher/src/entityFetcher.ts.
use aleph_indexer_framework.Prelude.{
  ℕ, zero, suc, ◌+◌, ◌-◌, ◌<◌, ◌≡◌, refl, true, List, [], ◌∷◌, ◌++◌, Option, none, some, length,
  ◌==◌, inl, inr, arith, Bool-cases,
}
use aleph_indexer_framework.Jobs.Pool.{has_work}
use aleph_indexer_framework.Fetcher.Entities.{
  Work, add_fetched, sort_response, ids_of, fetch_ids, retry_loop,
}

-- An answer for each id, which is none for the id `x`.
abbrev pub Misses : {E : Type 0} → ℕ → List ℕ → List (Option E) → Type 0
Misses x [] [] = Unit
Misses x (i ∷ ids) (r ∷ response) = ((i == x) ≡ true → r ≡ none) × Misses x ids response
Misses x [] (r ∷ response) = ⊥
Misses x (i ∷ ids) [] = ⊥

module _ {E : Type 0} where
  Misses-length :
      (x : ℕ) (works : List Work) (response : List (Option E))
      → Misses x (ids_of works) response
      → length response ≡ length works
  Misses-length x [] [] m = refl
  Misses-length x (w ∷ works) (r ∷ response) m = omega (arith, Misses-length x works response m.1)
  Misses-length x [] (r ∷ response) m = absurd m
  Misses-length x (w ∷ works) [] m = absurd m

  add_fetched-pending :
      (x : ℕ) (r : Option E) (w : Work) (rest : List (E × List ℕ) × List Work)
      → ((w.id == x) ≡ true → r ≡ none)
      → has_work x (w ∷ []) ≡ true
      → has_work x (add_fetched r w rest).1 ≡ true
  add_fetched-pending x none w rest m h = ground (arith, h)
  add_fetched-pending x (some e) w rest m h = absurd (ground (arith, m, h))

  add_fetched-kept :
      (x : ℕ) (r : Option E) (w : Work) (rest : List (E × List ℕ) × List Work)
      → has_work x rest.1 ≡ true
      → has_work x (add_fetched r w rest).1 ≡ true
  add_fetched-kept x none w rest h = ground (arith, h)
  add_fetched-kept x (some e) w rest h = h

  sort-pending :
      (x : ℕ) (works : List Work) (response : List (Option E))
      → Misses x (ids_of works) response
      → has_work x works ≡ true
      → has_work x (sort_response response works).1 ≡ true
  unfolding sort_response
  sort-pending x [] [] m h = h
  sort-pending x (w ∷ works) (r ∷ response) m h = elim (Bool-cases (has_work x works)) [
    | inl e ↦
        add_fetched-kept x r w (sort_response response works) (sort-pending x works response m.1 e)
    | inr e ↦ add_fetched-pending x r w (sort_response response works) m.0 (ground (arith, h, e))
  ]
  sort-pending x [] (r ∷ response) m h = absurd m
  sort-pending x (w ∷ works) [] m h = absurd m

  -- Where the service never finds the entity `x`, and answers each other id somehow: the loop goes on
  -- for ever, whatever number of retries above 0 it starts with.
  pub retry_loop-endless :
      (remote : ℕ → List ℕ → List (Option E)) (x fuel call retries : ℕ)
      (entities : List (E × List ℕ)) (pending : List Work)
      → ((n : ℕ) (ids : List ℕ) → Misses x ids (remote n ids))
      → 0 < retries
      → has_work x pending ≡ true
      → retry_loop remote fuel call retries entities pending ≡ none
  unfolding retry_loop fetch_ids
  retry_loop-endless remote x zero call retries entities pending m pos h = refl
  retry_loop-endless remote x (suc fuel) call retries entities [] m pos h =
      absurd (ground (arith, h))
  retry_loop-endless remote x (suc fuel) call retries entities (w ∷ ws) m pos h =
      let pending = w ∷ ws in
      let response = remote call (ids_of pending) in
      let sorted = sort_response response pending in
      let all = Misses-length x pending response (m call (ids_of pending)) in
      let next =
        retry_loop-endless remote x fuel (call + 1) (retries - 1 + 1) (entities ++ sorted.0)
          sorted.1 m (omega arith) (sort-pending x pending response (m call (ids_of pending)) h) in
      ground (arith, pos, all, next)
