-- ===== src/Fetcher/History/Job/Exhausted.antt =====
-- A run of the backward job of a fetcher without functions of its own.
use aleph_indexer_framework.Prelude.{
  ℕ, suc, ◌≡◌, ◌∙◌, refl, ap, inl, inr, Bool, true, false, not, ◌&&◌, ◌||◌, Option, none, some,
  arith, Bool-cases, if◌then◌else◌,
}
use aleph_indexer_framework.Fetcher.History.{
  backward, Interval, stop, FetcherState, FetchResult, RunContext, JobOptions, FetcherOptions,
  Fetcher,
}
use aleph_indexer_framework.Fetcher.History.Job.{
  Outcome, returned, thrown, ended, again, is_some, interval_or, run_round, run_job, next_context,
  settle, outcome_of, after_fetch, update_cursors, update_frequency, start_run, run_update,
  run_check, default_update, default_check,
}
use aleph_indexer_framework.Fetcher.History.Job.Ends.{
  round_swap, is_again, round-open, run_job-ended, run_job-again,
}

abbrev pub error_or : {E : Type 0} → Option E → Interval → Outcome E
error_or none i = returned i
error_or (some e) i = thrown e

module _ {C E : Type 0} where
  -- Neither an error nor a cursor for what is older.
  abbrev pub finds_nothing : FetchResult C E → Bool
  finds_nothing r = not (is_some r.error) && not (is_some r.last_cursors.backward_cursor)

  -- The job has no functions of its own for the cursors and for the completion.
  abbrev pub IsDefault : JobOptions C E → Type 0
  IsDefault opts = (opts.update_cursors ≡ none) × (opts.check_complete ≡ none)

  default_fetch :
      (o : FetcherOptions C E) (opts : JobOptions C E) (ctx : RunContext) (r : FetchResult C E)
      (s : FetcherState C)
      → IsDefault opts
      → ((after_fetch o backward opts ctx r s).0.backward_job.complete
          ≡ (finds_nothing r && s.backward_job.use_historic_rpc))
        × ((after_fetch o backward opts ctx r s).1
            ≡ outcome_of r.error
                (finds_nothing r && s.backward_job.use_historic_rpc)
                (finds_nothing r && not s.backward_job.use_historic_rpc)
                (interval_or ctx.interval r.new_interval))
  unfolding after_fetch update_cursors update_frequency settle run_update run_check default_update
      default_check
  default_fetch o opts ctx r s h = ground (arith, h.0, h.1)

  -- Whether the backward job is complete after a run, and how the run ends, from the two answers
  -- that it may ask for: the job asks again only where the first answer has nothing and the whole
  -- history was not asked for.
  unfoldable pub backward_result :
      Bool → Interval → FetchResult C E → FetchResult C E → Bool × Outcome E
  backward_result historic i r0 r1 =
      let i0 = interval_or i r0.new_interval in
      let i1 = interval_or i0 r1.new_interval in
      if finds_nothing r0
      then (if historic || finds_nothing r1
          then (true, returned stop)
          else (false, error_or r1.error i1))
      else (false, error_or r0.error i0)

  outcome_by :
      (r : FetchResult C E) (historic : Bool) (i : Interval)
      → outcome_of r.error (finds_nothing r && historic) (finds_nothing r && not historic) i ≡ (
          if finds_nothing r
          then (if historic then ended (returned stop) else again i)
          else ended (error_or r.error i))
  unfolding outcome_of
  outcome_by r historic i = ground arith

module _ {C E : Type 0} (o : FetcherOptions C E) (opts : JobOptions C E) (h : IsDefault opts) where
  default_round :
      (now : ℕ) (ctx : RunContext) (call : ℕ) (f : Fetcher C)
      → f.fetcher_state.backward_job.complete ≡ false
      → let r = opts.handle_fetch call ctx in
        let historic = f.fetcher_state.backward_job.use_historic_rpc in
        let i = interval_or ctx.interval r.new_interval in
        let (f', round) = run_round o backward opts now ctx call f in
        (f'.fetcher_state.backward_job.complete ≡ (finds_nothing r && historic))
        × (round ≡ (
            if finds_nothing r
            then (if historic then ended (returned stop) else again i)
            else ended (error_or r.error i)))
        × (f'.stored ≡ some f'.fetcher_state)
  unfolding start_run
  default_round now ctx call f e =
      let r = opts.handle_fetch call ctx in
      let historic = f.fetcher_state.backward_job.use_historic_rpc in
      let d = default_fetch o opts ctx r (start_run now backward f.fetcher_state) h in
      rw (round-open o backward opts now ctx call f e)
        (d.0, d.1 ∙ outcome_by r historic (interval_or ctx.interval r.new_interval), refl)

  -- Where the options have no functions of their own and the job is not complete: a run of the
  -- backward job ends; the job is complete exactly if an answer without an error and without a
  -- cursor came from the whole history; the run returns `Stop` then, and otherwise throws the error
  -- of the last answer, or returns the last interval; and the store holds the state.
  pub backward_run_result :
      (clock : ℕ → ℕ) (fuel : ℕ) (ctx : RunContext) (call : ℕ) (f : Fetcher C)
      → f.fetcher_state.backward_job.complete ≡ false
      → let r0 = opts.handle_fetch call ctx in
        let i0 = interval_or ctx.interval r0.new_interval in
        let r1 = opts.handle_fetch (suc call) (next_context ctx i0) in
        let result =
          backward_result f.fetcher_state.backward_job.use_historic_rpc ctx.interval r0 r1 in
        (f' : Fetcher C) × (run_job o backward opts clock (suc (suc fuel)) ctx call f
          ≡ some (f', result.1))
        × (f'.fetcher_state.backward_job.complete ≡ result.0)
        × (f'.stored ≡ some f'.fetcher_state)
  unfolding backward_result
  backward_run_result clock fuel ctx call f e =
      let r0 = opts.handle_fetch call ctx in
      let i0 = interval_or ctx.interval r0.new_interval in
      let ctx1 = next_context ctx i0 in
      let r1 = opts.handle_fetch (suc call) ctx1 in
      let i1 = interval_or i0 r1.new_interval in
      let (c, x, saved) = default_round (clock call) ctx call f e in
      let f1 = (run_round o backward opts (clock call) ctx call f).0 in
      elim (Bool-cases (finds_nothing r0)) [
        | inr n ↦
            let q =
              run_job-ended o backward opts clock (suc fuel) ctx call f (error_or r0.error i0)
                (ground arith) in
            (f1, ground arith, ground arith, saved)
        | inl n ↦ elim (Bool-cases f.fetcher_state.backward_job.use_historic_rpc) [
          | inl hist ↦
              let q =
                run_job-ended o backward opts clock (suc fuel) ctx call f (returned stop)
                  (ground arith) in
              (f1, ground arith, ground arith, saved)
          | inr hist ↦
              let xa : (run_round o backward opts (clock call) ctx call f).1 ≡ again i0 =
                ground arith in
              let swapped = round_swap o backward opts (clock call) ctx call f (ap is_again xa) in
              let p = run_job-again o backward opts clock (suc fuel) ctx call f i0 xa in
              let (c1, x1, saved1) =
                default_round (clock (suc call)) ctx1 (suc call) f1 (ground arith) in
              let f2 = (run_round o backward opts (clock (suc call)) ctx1 (suc call) f1).0 in
              elim (Bool-cases (finds_nothing r1)) [
                | inl n1 ↦
                    let q =
                      run_job-ended o backward opts clock fuel ctx1 (suc call) f1 (returned stop)
                        (ground arith) in
                    (f2, p ∙ ground arith, ground arith, saved1)
                | inr n1 ↦
                    let q =
                      run_job-ended o backward opts clock fuel ctx1 (suc call) f1
                        (error_or r1.error i1) (ground arith) in
                    (f2, p ∙ ground arith, ground arith, saved1)
              ]
        ]
      ]
