-- ===== src/Fetcher/History/Job/Failed.antt =====
-- A forward run whose fetch fails.
use aleph_indexer_framework.Prelude.{ℕ, suc, ◌≡◌, ◌∙◌, ap, refl, false, some, arith}
use aleph_indexer_framework.Fetcher.History.{
  forward, FetcherState, FetchResult, RunContext, JobOptions, FetcherOptions, Fetcher,
}
use aleph_indexer_framework.Fetcher.History.Job.{
  thrown, ended, run_job, settle, outcome_of, after_fetch, update_cursors, update_frequency,
  start_run,
}
use aleph_indexer_framework.Fetcher.History.Job.Ends.{round-open, run_job-ended}

module _ {C E : Type 0} (o : FetcherOptions C E) (opts : JobOptions C E) where
  fetch_failed :
      (now : ℕ) (ctx : RunContext) (r : FetchResult C E) (s : FetcherState C) (e : E)
      → r.error ≡ some e
      → let (s', round) = after_fetch o forward opts ctx r (start_run now forward s) in
        (s'.cursors ≡ s.cursors)
        × (s'.forward_job.num_runs ≡ s.forward_job.num_runs)
        × (s'.forward_job.use_historic_rpc ≡ s.forward_job.use_historic_rpc)
        × (s'.backward_job ≡ s.backward_job)
        × (round ≡ ended (thrown e))
  unfolding after_fetch update_cursors update_frequency settle start_run outcome_of
  fetch_failed now ctx r s e h = ground (arith, h)

  -- A forward run that is not complete and gets an error throws it, after a save. The cursors, the
  -- number of runs and the backward job stay as they were, also where the options have functions
  -- of their own.
  pub failed_forward_run :
      (clock : ℕ → ℕ) (fuel : ℕ) (ctx : RunContext) (call : ℕ) (f : Fetcher C) (e : E)
      → f.fetcher_state.forward_job.complete ≡ false
      → (opts.handle_fetch call ctx).error ≡ some e
      → (f' : Fetcher C) × (run_job o forward opts clock (suc fuel) ctx call f
          ≡ some (f', thrown e))
        × (f'.stored ≡ some f'.fetcher_state)
        × (f'.fetcher_state.cursors ≡ f.fetcher_state.cursors)
        × (f'.fetcher_state.forward_job.num_runs ≡ f.fetcher_state.forward_job.num_runs)
        × (f'.fetcher_state.backward_job ≡ f.fetcher_state.backward_job)
  failed_forward_run clock fuel ctx call f e h r =
      let (c, n, u, b, x) =
        fetch_failed (clock call) ctx (opts.handle_fetch call ctx) f.fetcher_state e r in
      let q = round-open o forward opts (clock call) ctx call f h in
      let run =
        run_job-ended o forward opts clock fuel ctx call f (thrown e) (ap (λ p. p.1) q ∙ x) in
      (_, run ∙ ap (λ p. some (p.0, thrown e)) q, refl, c, n, b)
