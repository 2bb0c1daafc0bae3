-- ===== src/Fetcher/Entities.antt =====
-- `BaseEntityFetcher` of packages/framework/src/services/fetcher/src/entityFetcher.ts with its three
-- pools of pending work. What the remote service answers is given, and so is the filter of the ids. The
-- payload of a work are the peers that asked for the entity.
pub mod Retries
pub mod Queues
mod Examples
use aleph_indexer_framework.Prelude.{
  ℕ, zero, suc, ◌+◌, ◌-◌, ◌≤◌, ◌≡◌, Bool, true, false, not, ◌&&◌, ◌||◌, List, [], ◌∷◌, ◌++◌, Option,
  none, some, any, keep, map, length, ◌==◌, ltb, leb, if◌then◌else◌,
}
use aleph_indexer_framework.Jobs.Pool.{
  PendingWork, Answer, sleep, failed, Pool, PoolOptions, add_work,
}

abbrev pub Work : Type 0
Work = PendingWork (List ℕ)

-- The check of the store of works in dal/pendingEntity.ts: the union of the peers.
abbrev pub merge_peers : List ℕ → List ℕ → List ℕ
merge_peers old new = old ++ keep (λ n. not (any (λ m. n == m) old)) new

-- RawEntityMsg
pub record RawEntityMsg (E : Type 0) : Type 0 where
  pub entity : Option E
  pub peers : List ℕ

-- The store of entities, the pools, the messages that are emitted, and the calls of the remote service.
pub record EntityFetcher (E : Type 0) : Type 0 where
  pub entity_cache : ℕ → Option E
  pub pending_fetch : Pool (List ℕ)
  pub pending_cache : Pool (List ℕ)
  pub emitted : List (RawEntityMsg E)

-- What fetchIds returns, or its error.
pub data Fetched (E : Type 0) : Type 0 where
  thrown : Fetched E
  fetched : List (E × List ℕ) → List Work → Fetched E

-- fetchEntitiesById: both outcomes of addWork only write to the log.
unfoldable pub fetch_entities_by_id :
    (ℕ → Bool) → ℕ → List ℕ → List ℕ → Option ℕ → Pool (List ℕ) → Pool (List ℕ)
fetch_entities_by_id filter_entity_id now peers ids size pool =
    (add_work merge_peers size
      (map (λ i. record { id = i; time = now; payload = peers }) (keep filter_entity_id ids))
      pool).0

abbrev pub ids_of : List Work → List ℕ
ids_of works = map (λ w. w.id) works

module _ {E : Type 0} where
  -- handlePendingEntities
  abbrev pub is_cached : (ℕ → Option E) → Work → Bool
  is_cached cache w = elim (cache w.id) [ none ↦ false | some e ↦ true ]

  unfoldable pub handle_pending_entities : List Work → EntityFetcher E → EntityFetcher E × Answer
  handle_pending_entities works s =
      let to_fetch = keep (λ w. not (is_cached s.entity_cache w)) works in
      let in_cache = keep (is_cached s.entity_cache) works in
      (
        record s {
          pending_fetch = (add_work merge_peers none to_fetch s.pending_fetch).0;
          pending_cache = (add_work merge_peers none in_cache s.pending_cache).0;
        },
        sleep none,
      )

  -- handlePendingEntitiesCache
  abbrev pub messages : (ℕ → Option E) → List Work → List (RawEntityMsg E)
  messages cache [] = []
  messages cache (w ∷ ws) = record { entity = cache w.id; peers = w.payload } ∷ messages cache ws

  unfoldable pub handle_pending_entities_cache :
      List Work → EntityFetcher E → EntityFetcher E × Answer
  handle_pending_entities_cache works s =
      (record s { emitted = s.emitted ++ messages s.entity_cache works }, sleep none)

  -- fetchIds on what the remote service answers.
  abbrev pub add_fetched :
      Option E → Work → List (E × List ℕ) × List Work → List (E × List ℕ) × List Work
  add_fetched none w (entities, pending) = (entities, w ∷ pending)
  add_fetched (some e) w (entities, pending) = ((e, w.payload) ∷ entities, pending)

  pub sort_response : List (Option E) → List Work → List (E × List ℕ) × List Work
  sort_response [] works = ([], [])
  sort_response (r ∷ response) [] = ([], [])
  sort_response (r ∷ response) (w ∷ works) = add_fetched r w (sort_response response works)

  unfoldable pub fetch_ids : (List ℕ → List (Option E)) → List Work → Fetched E
  fetch_ids remote works =
      let response = remote (ids_of works) in
      if length response == length works
      then (let (entities, pending) = sort_response response works in fetched entities pending)
      else thrown

-- The loop of handlePendingEntitiesFetch over the works that are not found. `none` is a loop that the
-- fuel does not end; `remote` answers the call with the given number.
module _ {E : Type 0} (remote : ℕ → List ℕ → List (Option E)) where
  -- The rest of a round, before the next ones.
  abbrev pub retry_with :
      (List (E × List ℕ) → List Work → Option (Fetched E))
      → List (E × List ℕ)
      → Fetched E
      → Option (Fetched E)
  retry_with run_again entities thrown = some thrown
  retry_with run_again entities (fetched entities2 pending2) =
      run_again (entities ++ entities2) pending2

  -- `retries--` in the test, and `retries++` at the end of a round.
  unfoldable pub retry_loop : ℕ → ℕ → ℕ → List (E × List ℕ) → List Work → Option (Fetched E)
  retry_loop zero call retries entities pending = none
  retry_loop (suc fuel) call retries entities pending =
      if length pending == 0 || retries == 0
      then some (fetched entities pending)
      else retry_with (retry_loop fuel (call + 1) (retries - 1 + 1)) entities
          (fetch_ids (remote call) pending)

-- handlePendingEntitiesFetch. The remote service answers call 0 first.
module _ {E : Type 0} (remote : ℕ → List ℕ → List (Option E)) (get_id : E → ℕ) where
  abbrev pub fetch_with_retries : ℕ → Fetched E → Option (Fetched E)
  fetch_with_retries fuel thrown = some thrown
  fetch_with_retries fuel (fetched entities pending) = retry_loop remote fuel 1 3 entities pending

  abbrev pub save_entities : List (E × List ℕ) → (ℕ → Option E) → ℕ → Option E
  save_entities [] cache = cache
  save_entities (x ∷ xs) cache =
      save_entities xs (λ i. if i == get_id x.0 then some x.0 else cache i)

  abbrev pub cache_works : ℕ → List (E × List ℕ) → List Work
  cache_works now [] = []
  cache_works now (x ∷ xs) =
      record { id = get_id x.0; time = now; payload = x.1 } ∷ cache_works now xs

  abbrev pub store_fetched : ℕ → Fetched E → EntityFetcher E → EntityFetcher E × Answer
  store_fetched now thrown s = (s, failed)
  store_fetched now (fetched entities pending) s = (
    record s {
      entity_cache = save_entities entities s.entity_cache;
      pending_cache = (add_work merge_peers none (cache_works now entities) s.pending_cache).0;
    },
    sleep (if length pending == 0 then none else some 5000),
  )

  unfoldable pub handle_pending_entities_fetch :
      ℕ → ℕ → List Work → EntityFetcher E → Option (EntityFetcher E × Answer)
  handle_pending_entities_fetch fuel now works s =
      elim (fetch_with_retries fuel (fetch_ids (remote 0) works)) [
        | none ↦ none
        | some f ↦ some (store_fetched now f s)
      ]

-- The pool of the works that arrive.
unfoldable pub pending_entities : {E : Type 0} → PoolOptions (EntityFetcher E) (List ℕ)
pending_entities = record {
  interval = 0;
  max_queue_size = some 10_000;
  chunk_size = 1000;
  handle_work = handle_pending_entities;
  check_complete = some (λ w s. true);
  pre_check_complete = false;
}
