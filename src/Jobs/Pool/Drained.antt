-- ===== src/Jobs/Pool/Drained.antt =====
-- A run of packages/core/src/utils/concurrence/pendingWork.ts with a check that finds each work complete.
use aleph_indexer_framework.Prelude.{
  ℕ, zero, suc, ◌+◌, ◌<◌, ◌≡◌, ◌∙◌, refl, sym, ap, Bool, true, false, not, ◌&&◌, ◌||◌, List, [],
  ◌∷◌, Option, some, keep, length, take, drop, ◌==◌, ltb, inl, inr, arith, Bool-cases, length-drop,
  length-take, any-append, take-append-drop,
}
use aleph_indexer_framework.Jobs.Pool.{
  PendingWork, Pool, PoolOptions, PoolRun, has_work, is_complete, pending_works, check_works,
  handle_pending, run_checked, run_chunk, run_chunks, chunk_length, finish_run, run_job,
}
use aleph_indexer_framework.Jobs.Pool.Runs.{
  run_chunks-step, has-remove_works, finish-works, started, run_job-chunks,
}

module _ {S T : Type 0} (o : PoolOptions S T)
    (complete : (w : PendingWork T) (s : S) → is_complete o s w ≡ true) where
  all_complete :
      (i : ℕ) (s : S) (ws : List (PendingWork T))
      → has_work i (keep (is_complete o s) ws) ≡ has_work i ws
  all_complete i s [] = refl
  all_complete i s (w ∷ ws) = ground (arith, complete w s, all_complete i s ws)

  none-pending : (s : S) (ws : List (PendingWork T)) → pending_works o s ws ≡ []
  none-pending s [] = refl
  none-pending s (w ∷ ws) = ground (arith, complete w s, none-pending s ws)

  checked-drained :
      (i : ℕ) (s : S) (ws : List (PendingWork T)) (p : Pool T)
      → has_work i (check_works o s ws p).works ≡ (has_work i p.works && not (has_work i ws))
  checked-drained i s ws p =
      has-remove_works o i (keep (is_complete o s) ws) p.works ∙ ground (arith, all_complete i s ws)

  handled-drained :
      (i : ℕ) (ws : List (PendingWork T)) (r : PoolRun S T)
      → has_work i (handle_pending o ws r).pool.works
        ≡ (has_work i r.pool.works && not (has_work i ws))
  unfolding handle_pending
  handled-drained i [] r = ground arith
  handled-drained i (w ∷ ws) r =
      checked-drained i (o.handle_work (w ∷ ws) r.outside).0 (w ∷ ws) r.pool

  pub chunk-drained :
      (b : Bool) (i : ℕ) (ws : List (PendingWork T)) (r : PoolRun S T)
      → has_work i (run_checked o b ws r).pool.works
        ≡ (has_work i r.pool.works && not (has_work i ws))
  unfolding run_checked
  chunk-drained true i ws r =
      let r' = record r { pool = check_works o r.outside ws r.pool } in
      ap (λ vs. has_work i (handle_pending o vs r').pool.works) (none-pending r.outside ws)
      ∙ handled-drained i [] r'
      ∙ ground (arith, checked-drained i r.outside ws r.pool)
  chunk-drained false i ws r = handled-drained i ws r

  has-split :
      (i n : ℕ) (ws : List (PendingWork T))
      → has_work i ws ≡ (has_work i (take n ws) || has_work i (drop n ws))
  has-split i n ws =
      ap (has_work i) (sym (take-append-drop n ws))
      ∙ any-append (λ w. i == w.id) (take n ws) (drop n ws)

  has-none : (i : ℕ) (ws : List (PendingWork T)) → length ws ≡ 0 → has_work i ws ≡ false
  has-none i [] h = refl
  has-none i (w ∷ ws) h = absurd (ground (arith, h))

  pub chunks-drained :
      (fuel : ℕ) (stream : List (PendingWork T)) (r : PoolRun S T)
      → 0 < o.chunk_size
      → length stream < fuel
      → (r' : PoolRun S T) × (run_chunks o fuel stream r ≡ some r')
        × ((i : ℕ)
            → r'.thrown ≡ false
            → has_work i r'.pool.works ≡ (has_work i r.pool.works && not (has_work i stream)))
  chunks-drained zero stream r c l = absurd (omega (arith, l))
  chunks-drained (suc fuel) stream r c l =
      let n = chunk_length o in
      let chunk = take n stream in
      let r' = run_chunk o chunk r in
      let split = λ (i : ℕ). has-split i n stream in
      let here = λ (i : ℕ). chunk-drained o.pre_check_complete i chunk r in
      elim (Bool-cases (length chunk == 0)) [
        | inl e ↦ (
          r,
          run_chunks-step o fuel stream r ∙ ground (arith, e, c),
          λ i t. ground (arith, has-none i stream (ground (arith, e, length-take n stream))),
        )
        | inr e ↦ elim (Bool-cases (r'.thrown || ltb (length chunk) o.chunk_size)) [
          | inl e' ↦ (
            r',
            run_chunks-step o fuel stream r ∙ ground (arith, e, e'),
            λ i t.
                let rest =
                  has-none i (drop n stream)
                    (ground (arith, e', t, length-take n stream, length-drop n stream)) in
                ground (arith, here i, split i, rest),
          )
          | inr e' ↦
              let (r'', q, h) =
                chunks-drained fuel (drop n stream) r' c
                  (ground (arith, l, e, length-drop n stream, length-take n stream)) in
              (
                r'',
                run_chunks-step o fuel stream r ∙ ground (arith, e, e', q),
                λ i t. ground (arith, h i t, here i, split i),
              )
        ]
      ]

  finish-thrown : (r : PoolRun S T) → (finish_run o r).0.thrown ≡ false → r.thrown ≡ false
  finish-thrown r t = ground (arith, t)

  -- Where the check finds each work complete, and the size of the chunks is not 0: a run in which the handler does not throw leaves none of
  -- the works in the pool.
  pub run_job-drained :
      (p : Pool T) (s : S)
      → 0 < o.chunk_size
      → (r : PoolRun S T × Option ℕ) × (run_job o (length p.works + 1) p s ≡ some r)
        × (r.0.thrown ≡ false → (i : ℕ) → has_work i r.0.pool.works ≡ false)
  unfolding started
  run_job-drained p s c =
      let (r, e, h) = chunks-drained (length p.works + 1) p.works (started o p s) c (omega arith) in
      (
        finish_run o r,
        run_job-chunks o (length p.works + 1) p s r e,
        λ t i. ap (has_work i) (finish-works o r) ∙ ground (arith, h i (finish-thrown r t)),
      )
