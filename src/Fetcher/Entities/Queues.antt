-- ===== src/Fetcher/Entities/Queues.antt =====
-- The pool of the works that arrive at the entity fetcher of
-- packages/framework/src/services/fetcher/src/entityFetcher.ts, and the two pools behind it.
use aleph_indexer_framework.Prelude.{
  ℕ, ◌<◌, ◌+◌, ◌≡◌, ◌∙◌, refl, sym, ap, Bool, true, false, not, ◌||◌, List, [], ◌∷◌, Option, none,
  some, keep, length, inl, inr, arith, Bool-cases,
}
use mathlib.Core.Option.{some-injective}
use aleph_indexer_framework.Jobs.Pool.{
  Pool, PoolRun, has_work, add_work, is_complete, handle_pending, run_checked, run_chunk,
  finish_run, run_job,
}
use aleph_indexer_framework.Jobs.Pool.Queue.{has-save_works}
use aleph_indexer_framework.Jobs.Pool.Runs.{started, chunks-total, run_job-chunks, finish-works}
use aleph_indexer_framework.Jobs.Pool.Drained.{chunk-drained, chunks-drained}
use aleph_indexer_framework.Fetcher.Entities.{
  Work, merge_peers, EntityFetcher, is_cached, handle_pending_entities, pending_entities,
}

has-add_work :
    (i : ℕ) (ws : List Work) (p : Pool (List ℕ))
    → has_work i (add_work merge_peers none ws p).0.works ≡ (has_work i ws || has_work i p.works)
unfolding add_work
has-add_work i [] p = refl
has-add_work i (w ∷ ws) p = has-save_works merge_peers i (w ∷ ws) p.works

has-split_by :
    (i : ℕ) (p : Work → Bool) (ws : List Work)
    → (has_work i (keep (λ w. not (p w)) ws) || has_work i (keep p ws)) ≡ has_work i ws
has-split_by i p [] = refl
has-split_by i p (w ∷ ws) = elim (Bool-cases (p w)) [
  | inl e ↦ ground (arith, e, has-split_by i p ws)
  | inr e ↦ ground (arith, e, has-split_by i p ws)
]

module _ {E : Type 0} where
  -- A work stands in one of the two pools.
  abbrev pub is_queued : ℕ → EntityFetcher E → Bool
  is_queued i s = has_work i s.pending_fetch.works || has_work i s.pending_cache.works

  handled-queued :
      (i : ℕ) (ws : List Work) (s : EntityFetcher E)
      → is_queued i (handle_pending_entities ws s).0 ≡ (has_work i ws || is_queued i s)
  unfolding handle_pending_entities
  handled-queued i ws s = ground (
    arith,
    has-add_work i (keep (λ w. not (is_cached s.entity_cache w)) ws) s.pending_fetch,
    has-add_work i (keep (is_cached s.entity_cache) ws) s.pending_cache,
    has-split_by i (is_cached s.entity_cache) ws,
  )

  always_complete : (w : Work) (s : EntityFetcher E) → is_complete pending_entities s w ≡ true
  unfolding pending_entities
  always_complete w s = refl

  -- No chunk throws, and each work is in one of the three pools.
  record IsSafe (p : Pool (List ℕ)) (s : EntityFetcher E) (r : PoolRun (EntityFetcher E) (List ℕ))
      : Type 0 where
    not_thrown : r.thrown ≡ false
    known :
        (i : ℕ)
        → has_work i p.works ≡ true
        → (has_work i r.pool.works || is_queued i r.outside) ≡ true
    queued : (i : ℕ) → is_queued i s ≡ true → is_queued i r.outside ≡ true

  chunk-outside :
      (i : ℕ) (ws : List Work) (r : PoolRun (EntityFetcher E) (List ℕ))
      → is_queued i (run_chunk pending_entities ws r).outside
        ≡ (has_work i ws || is_queued i r.outside)
  unfolding run_checked handle_pending pending_entities
  chunk-outside i [] r = refl
  chunk-outside i (w ∷ ws) r = handled-queued i (w ∷ ws) r.outside

  chunk-thrown :
      (ws : List Work) (r : PoolRun (EntityFetcher E) (List ℕ))
      → r.thrown ≡ false
      → (run_chunk pending_entities ws r).thrown ≡ false
  unfolding run_checked handle_pending pending_entities handle_pending_entities
  chunk-thrown [] r h = h
  chunk-thrown (w ∷ ws) r h = refl

  chunk-IsSafe :
      (p : Pool (List ℕ)) (s : EntityFetcher E) (ws : List Work)
      (r : PoolRun (EntityFetcher E) (List ℕ))
      → IsSafe p s r
      → IsSafe p s (run_chunk pending_entities ws r)
  chunk-IsSafe p s ws r h = record {
    not_thrown = chunk-thrown ws r h.not_thrown;
    known = λ i q. ground (
      arith,
      chunk-drained pending_entities always_complete (pending_entities {E = E}).pre_check_complete i
          ws r,
      chunk-outside i ws r,
      h.known i q,
    );
    queued = λ i q. ground (arith, chunk-outside i ws r, h.queued i q);
  }

  finish-kept :
      (r : PoolRun (EntityFetcher E) (List ℕ))
      → ((finish_run pending_entities r).0.thrown ≡ r.thrown)
        × ((finish_run pending_entities r).0.outside ≡ r.outside)
  finish-kept r = elim (Bool-cases r.thrown) [
    | inl e ↦ rw e (refl, refl)
    | inr e ↦ rw e (refl, refl)
  ]

  -- However the works and the cache are: a run of the pool of the works that arrive ends after one round
  -- more than there are works at most, does not throw and leaves none of the works; each of them is in
  -- the pool of works to fetch or in the one of works in the cache then, and so is each that was before.
  pub pending_entities-moved :
      (p : Pool (List ℕ)) (s : EntityFetcher E)
      → (r : PoolRun (EntityFetcher E) (List ℕ) × Option ℕ) × (run_job pending_entities
            (length p.works + 1)
            p
            s
          ≡ some r)
        × (r.0.thrown ≡ false)
        × ((i : ℕ) → has_work i r.0.pool.works ≡ false)
        × ((i : ℕ) → has_work i p.works ≡ true → is_queued i r.0.outside ≡ true)
        × ((i : ℕ) → is_queued i s ≡ true → is_queued i r.0.outside ≡ true)
  unfolding started
  pending_entities-moved p s =
      let n = length p.works + 1 in
      let o = pending_entities {E = E} in
      let chunked : 0 < o.chunk_size = unfold pending_entities in omega arith in
      let (r, e, h) =
        chunks-total o (IsSafe p s) (λ ws r h. chunk-IsSafe p s ws r h) n p.works (started o p s)
          chunked (omega arith)
          (record { not_thrown = refl; known = λ i q. ground (arith, q); queued = λ i q. q }) in
      let (r', e', d) =
        chunks-drained o always_complete n p.works (started o p s) chunked (omega arith) in
      let same = some-injective r' r (sym e' ∙ e) in
      let drained : (i : ℕ) → has_work i r.pool.works ≡ false = λ i.
        ap (λ (x : PoolRun (EntityFetcher E) (List ℕ)). has_work i x.pool.works) (sym same)
        ∙ ground (
          arith,
          d i (ap (λ (x : PoolRun (EntityFetcher E) (List ℕ)). x.thrown) same ∙ h.not_thrown),
        ) in
      let kept = finish-kept r in
      (
        finish_run o r,
        run_job-chunks o n p s r e,
        kept.0 ∙ h.not_thrown,
        λ i. ap (has_work i) (finish-works o r) ∙ drained i,
        λ i q. ap (is_queued i) kept.1 ∙ ground (arith, drained i, h.known i q),
        λ i q. ap (is_queued i) kept.1 ∙ h.queued i q,
      )
