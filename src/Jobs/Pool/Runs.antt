-- ===== src/Jobs/Pool/Runs.antt =====
-- `runJob` of packages/core/src/utils/concurrence/pendingWork.ts: it ends, and what it leaves in the pool.
use aleph_indexer_framework.Prelude.{
  ℕ, zero, suc, ◌+◌, ◌<◌, ◌≡◌, ◌∙◌, refl, ap, Bool, true, false, not, ◌&&◌, ◌||◌, List, [], ◌∷◌,
  Option, none, some, keep, length, take, drop, ◌==◌, ltb, if◌then◌else◌, inl, inr, arith,
  Bool-cases, ==_iff, length-drop, length-take,
}
use aleph_indexer_framework.Jobs.Pool.{
  PendingWork, Pool, PoolOptions, PoolRun, has_work, remove_works, is_complete, pending_works,
  check_works, handle_pending, run_checked, run_chunk, run_chunks, chunk_length, finish_run,
  run_job, max_timer_integer,
}

module _ {S T : Type 0} (o : PoolOptions S T) where
  pub run_chunks-step :
      (fuel : ℕ) (stream : List (PendingWork T)) (r : PoolRun S T)
      → run_chunks o (suc fuel) stream r ≡ (
          if length (take (chunk_length o) stream) == 0
          then (if ltb 0 o.chunk_size then some r else run_chunks o fuel [] r)
          else if (run_chunk o (take (chunk_length o) stream) r).thrown
              || ltb (length (take (chunk_length o) stream)) o.chunk_size
          then some (run_chunk o (take (chunk_length o) stream) r)
          else run_chunks o fuel
              (drop (chunk_length o) stream)
              (run_chunk o (take (chunk_length o) stream) r))
  unfolding run_chunks
  run_chunks-step fuel stream r = refl

  -- A property that each chunk keeps, and the end of the loop.
  pub chunks-total :
      (P : PoolRun S T → Type 0)
      → ((ws : List (PendingWork T)) (r : PoolRun S T) → P r → P (run_chunk o ws r))
      → (fuel : ℕ) (stream : List (PendingWork T)) (r : PoolRun S T) → 0 < o.chunk_size
      → length stream < fuel
      → P r
      → (r' : PoolRun S T) × (run_chunks o fuel stream r ≡ some r') × P r'
  chunks-total P keeps zero stream r c l h = absurd (omega (arith, l))
  chunks-total P keeps (suc fuel) stream r c l h =
      let n = chunk_length o in
      let chunk = take n stream in
      let r' = run_chunk o chunk r in
      elim (Bool-cases (length chunk == 0)) [
        | inl e ↦ (r, run_chunks-step fuel stream r ∙ ground (arith, e, c), h)
        | inr e ↦ elim (Bool-cases (r'.thrown || ltb (length chunk) o.chunk_size)) [
          | inl e' ↦ (r', run_chunks-step fuel stream r ∙ ground (arith, e, e'), keeps chunk r h)
          | inr e' ↦
              let (r'', q, h') =
                chunks-total P keeps fuel (drop n stream) r' c
                  (ground (arith, l, e, length-drop n stream, length-take n stream))
                  (keeps chunk r h) in
              (r'', run_chunks-step fuel stream r ∙ ground (arith, e, e', q), h')
        ]
      ]

  -- A work that no check finds complete.
  abbrev pub IsNeverComplete : ℕ → Type 0
  IsNeverComplete i = (w : PendingWork T) (s : S) → (i == w.id) ≡ true → is_complete o s w ≡ false

  not_removed :
      (i : ℕ) (s : S) (ws : List (PendingWork T))
      → IsNeverComplete i
      → has_work i (keep (is_complete o s) ws) ≡ false
  not_removed i s [] h = refl
  not_removed i s (w ∷ ws) h = ground (arith, h w s, not_removed i s ws h)

  pub has-remove_works :
      (i : ℕ) (vs ws : List (PendingWork T))
      → has_work i (remove_works vs ws) ≡ (has_work i ws && not (has_work i vs))
  has-remove_works i vs [] = ground arith
  has-remove_works i vs (w ∷ ws) = elim (Bool-cases (i == w.id)) [
    | inl e ↦
        ground (arith, e, has-remove_works i vs ws, ap (λ k. has_work k vs) ((==_iff i w.id).0 e))
    | inr e ↦ ground (arith, e, has-remove_works i vs ws)
  ]

  check_works-kept :
      (i : ℕ) (s : S) (ws : List (PendingWork T)) (p : Pool T)
      → IsNeverComplete i
      → has_work i (check_works o s ws p).works ≡ has_work i p.works
  check_works-kept i s ws p h =
      has-remove_works i (keep (is_complete o s) ws) p.works ∙ ground (arith, not_removed i s ws h)

  handle_pending-kept :
      (i : ℕ) (ws : List (PendingWork T)) (r : PoolRun S T)
      → IsNeverComplete i
      → has_work i (handle_pending o ws r).pool.works ≡ has_work i r.pool.works
  unfolding handle_pending
  handle_pending-kept i [] r h = refl
  handle_pending-kept i (w ∷ ws) r h =
      check_works-kept i (o.handle_work (w ∷ ws) r.outside).0 (w ∷ ws) r.pool h

  run_checked-kept :
      (b : Bool) (i : ℕ) (ws : List (PendingWork T)) (r : PoolRun S T)
      → IsNeverComplete i
      → has_work i (run_checked o b ws r).pool.works ≡ has_work i r.pool.works
  unfolding run_checked
  run_checked-kept true i ws r h =
      handle_pending-kept i (pending_works o r.outside ws)
        (record r { pool = check_works o r.outside ws r.pool }) h
      ∙ check_works-kept i r.outside ws r.pool h
  run_checked-kept false i ws r h = handle_pending-kept i ws r h

  pub finish-works : (r : PoolRun S T) → (finish_run o r).0.pool.works ≡ r.pool.works
  finish-works r = elim (Bool-cases r.thrown) [ inl e ↦ rw e | inr e ↦ rw e ]

  -- The variables at the start of a run.
  unfoldable pub started : Pool T → S → PoolRun S T
  started p s = record { pool = p; outside = s; min_sleep_time = max_timer_integer; thrown = false }

  pub run_job-chunks :
      (fuel : ℕ) (p : Pool T) (s : S) (r : PoolRun S T)
      → run_chunks o fuel p.works (started p s) ≡ some r
      → run_job o fuel p s ≡ some (finish_run o r)
  unfolding run_job started
  run_job-chunks fuel p s r e =
      ap (λ x. elim x [ none ↦ none | some r' ↦ some (finish_run o r') ]) e

  -- Where the size of the chunks is not 0, one round more than there are works is enough for a run.
  -- Whatever the handler does, and also where it throws: a work that no check finds complete is in the pool after the run just if it was before.
  pub run_job-kept :
      (p : Pool T) (s : S)
      → 0 < o.chunk_size
      → (r : PoolRun S T × Option ℕ) × (run_job o (length p.works + 1) p s ≡ some r)
        × ((i : ℕ) → IsNeverComplete i → has_work i r.0.pool.works ≡ has_work i p.works)
  unfolding started
  run_job-kept p s c =
      let (r, e, h) =
        chunks-total
          (λ r. (i : ℕ) → IsNeverComplete i → has_work i r.pool.works ≡ has_work i p.works)
          (λ ws r k i never. run_checked-kept o.pre_check_complete i ws r never ∙ k i never)
          (length p.works + 1) p.works (started p s) c (omega arith) (λ i never. refl) in
      (
        finish_run o r,
        run_job-chunks (length p.works + 1) p s r e,
        λ i never. ap (has_work i) (finish-works r) ∙ h i never,
      )
