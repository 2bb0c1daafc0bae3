-- ===== src/Fetcher/Entities/Examples.antt =====
-- Tests of the entity fetcher of packages/framework/src/services/fetcher/src/entityFetcher.ts.
use aleph_indexer_framework.Prelude.{
  ℕ, ◌≡◌, refl, true, false, List, [], ◌∷◌, Option, none, some, map, ◌==◌, if◌then◌else◌, arith,
}
use aleph_indexer_framework.Jobs.Pool.{Pool, PoolRun, has_work, run_job}
use aleph_indexer_framework.Fetcher.Entities.{Work, EntityFetcher, retry_loop, pending_entities}
use aleph_indexer_framework.Fetcher.Entities.Retries.{Misses, retry_loop-endless}
use aleph_indexer_framework.Fetcher.Entities.Queues.{is_queued, pending_entities-moved}

abbrev work : ℕ → ℕ → Work
work i t = record { id = i; time = t; payload = 7 ∷ [] }

-- The service finds each entity but that with the id 2.
abbrev remote : ℕ → List ℕ → List (Option ℕ)
remote n ids = map (λ i. if i == 2 then none else some i) ids

remote-Misses : (n : ℕ) (ids : List ℕ) → Misses 2 ids (remote n ids)
remote-Misses n [] = tt
remote-Misses n (i ∷ ids) = (λ e. ground (arith, e), remote-Misses n ids)

retry_loop-endless_example : retry_loop remote 1000 1 3 [] (work 1 10 ∷ work 2 20 ∷ []) ≡ none
retry_loop-endless_example =
    retry_loop-endless remote 2 1000 1 3 [] (work 1 10 ∷ work 2 20 ∷ []) remote-Misses (omega arith)
      refl

abbrev arrived : Pool (List ℕ)
arrived = record { works = work 1 10 ∷ work 2 20 ∷ []; skip_sleep = true }

abbrev fetcher : EntityFetcher ℕ
fetcher = record {
  entity_cache = λ i. if i == 1 then some 1 else none;
  pending_fetch = record { works = work 5 5 ∷ []; skip_sleep = false };
  pending_cache = record { works = []; skip_sleep = false };
  emitted = [];
}

pending_entities-moved_example :
    (r : PoolRun (EntityFetcher ℕ) (List ℕ) × Option ℕ) × (run_job pending_entities 3 arrived
        fetcher
      ≡ some r)
    × (r.0.thrown ≡ false)
    × ((i : ℕ) → has_work i r.0.pool.works ≡ false)
    × ((i : ℕ) → has_work i arrived.works ≡ true → is_queued i r.0.outside ≡ true)
    × ((i : ℕ) → is_queued i fetcher ≡ true → is_queued i r.0.outside ≡ true)
pending_entities-moved_example = pending_entities-moved arrived fetcher
