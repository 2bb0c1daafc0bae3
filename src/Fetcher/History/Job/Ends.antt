-- ===== src/Fetcher/History/Job/Ends.antt =====
-- The rounds of `_runJob` and its recursive call.
use aleph_indexer_framework.Prelude.{
  ℕ, suc, ◌≡◌, ◌⊎◌, ◌∙◌, refl, sym, ap, subst, inl, inr, Bool, true, false, Option, some, arith,
  Bool-cases,
}
use aleph_indexer_framework.Fetcher.History.{
  JobKind, forward, backward, Interval, stop, FetcherState, FetchResult, RunContext, JobOptions,
  FetcherOptions, Fetcher, job_state,
}
use aleph_indexer_framework.Fetcher.History.Job.{
  Outcome, Round, returned, ended, again, run_round, run_job, next_round, next_context, settle,
  outcome_of, after_fetch, update_cursors, update_frequency, interval_or, start_run,
}

abbrev pub is_again : {E : Type 0} → Round E → Bool
is_again (ended x) = false
is_again (again i) = true

abbrev pub uses_historic : {C : Type 0} → Fetcher C → JobKind → Bool
uses_historic f k = (job_state f.fetcher_state k).use_historic_rpc

outcome_swap :
    {E : Type 0} (e : Option E) (c swap : Bool) (i : Interval)
    → is_again (outcome_of e c swap i) ≡ true
    → swap ≡ true
unfolding outcome_of
outcome_swap e c swap i h = ground arith

pub Round-cases :
    {E : Type 0} (r : Round E)
    → ((x : Outcome E) × (r ≡ ended x)) ⊎ ((i : Interval) × (r ≡ again i))
Round-cases (ended x) = inl (x, refl)
Round-cases (again i) = inr (i, refl)

module _ {C E : Type 0} where
  settle_swap :
      (k : JobKind) (opts : JobOptions C E) (e : Option E) (n : Bool) (s : FetcherState C)
      → (settle k opts e n s).1 ≡ true
      → ((job_state s k).use_historic_rpc ≡ false)
        × ((job_state (settle k opts e n s).0 k).use_historic_rpc ≡ true)
  unfolding settle
  settle_swap forward opts e n s h = ground arith
  settle_swap backward opts e n s h = ground arith

module _ {C E : Type 0} (o : FetcherOptions C E) (k : JobKind) (opts : JobOptions C E) where
  -- Up to the settlement the RPC stays.
  update_same_rpc :
      (fetched : FetchResult C E) (s : FetcherState C)
      → (job_state (update_cursors k opts fetched s).0 k).use_historic_rpc
        ≡ (job_state s k).use_historic_rpc
  unfolding update_cursors
  update_same_rpc fetched s = elim k [ forward ↦ ground arith | backward ↦ ground arith ]

  frequency_same_rpc :
      (i : Interval) (s : FetcherState C)
      → (job_state (update_frequency o k i s) k).use_historic_rpc ≡ (job_state s k).use_historic_rpc
  unfolding update_frequency
  frequency_same_rpc i s = elim k [ forward ↦ ground arith | backward ↦ ground arith ]

  fetch_swap :
      (ctx : RunContext) (fetched : FetchResult C E) (s : FetcherState C)
      → is_again (after_fetch o k opts ctx fetched s).1 ≡ true
      → ((job_state s k).use_historic_rpc ≡ false)
        × ((job_state (after_fetch o k opts ctx fetched s).0 k).use_historic_rpc ≡ true)
  unfolding after_fetch
  fetch_swap ctx fetched s h =
      let i = interval_or ctx.interval fetched.new_interval in
      let u = update_cursors k opts fetched s in
      let v = update_frequency o k i u.0 in
      let (a, b) = settle_swap k opts fetched.error u.1 v (outcome_swap fetched.error _ _ i h) in
      (sym (frequency_same_rpc i u.0 ∙ update_same_rpc fetched s) ∙ a, b)

  start_same_rpc :
      (now : ℕ) (s : FetcherState C)
      → (job_state (start_run now k s) k).use_historic_rpc ≡ (job_state s k).use_historic_rpc
  unfolding start_run
  start_same_rpc now s = elim k [ forward ↦ ground arith | backward ↦ ground arith ]

module _ {C E : Type 0} (o : FetcherOptions C E) (k : JobKind) (opts : JobOptions C E) (now : ℕ)
    (ctx : RunContext) (call : ℕ) (f : Fetcher C) where
  abbrev pub fetched_state : FetcherState C × Round E
  fetched_state =
      after_fetch o k opts ctx (opts.handle_fetch call ctx) (start_run now k f.fetcher_state)

  -- A job that is complete does nothing.
  pub round-complete :
      (job_state f.fetcher_state k).complete ≡ true
      → run_round o k opts now ctx call f ≡ (f, ended (returned stop))
  unfolding run_round
  round-complete e = rw e

  pub round-open :
      (job_state f.fetcher_state k).complete ≡ false
      → run_round o k opts now ctx call f ≡ (
        record { fetcher_state = fetched_state.0; stored = some fetched_state.0 },
        fetched_state.1,
      )
  unfolding run_round
  round-open e = rw e

  abbrev Swaps : Fetcher C × Round E → Type 0
  Swaps r = is_again r.1 ≡ true → (uses_historic f k ≡ false) × (uses_historic r.0 k ≡ true)

  -- A round that calls for another one has made the swap, which it finds not made.
  pub round_swap :
      is_again (run_round o k opts now ctx call f).1 ≡ true
      → (uses_historic f k ≡ false) × (uses_historic (run_round o k opts now ctx call f).0 k ≡ true)
  round_swap = elim (Bool-cases (job_state f.fetcher_state k).complete) [
    | inl e ↦ subst Swaps (sym (round-complete e)) (λ h. ground arith)
    | inr e ↦ subst Swaps (sym (round-open e)) (λ h.
        let (a, b) =
          fetch_swap o k opts ctx (opts.handle_fetch call ctx) (start_run now k f.fetcher_state)
            h in
        (sym (start_same_rpc o k opts now f.fetcher_state) ∙ a, b))
  ]

module _ {C E : Type 0} (o : FetcherOptions C E) (k : JobKind) (opts : JobOptions C E)
    (clock : ℕ → ℕ) where
  -- The loop by the way its first round ends.
  pub run_job-ended :
      (fuel : ℕ) (ctx : RunContext) (call : ℕ) (f : Fetcher C) (out : Outcome E)
      → (run_round o k opts (clock call) ctx call f).1 ≡ ended out
      → run_job o k opts clock (suc fuel) ctx call f
        ≡ some ((run_round o k opts (clock call) ctx call f).0, out)
  unfolding run_job
  run_job-ended fuel ctx call f out e =
      ap (next_round (λ j. run_job o k opts clock fuel (next_context ctx j) (suc call)) _) e

  pub run_job-again :
      (fuel : ℕ) (ctx : RunContext) (call : ℕ) (f : Fetcher C) (i : Interval)
      → (run_round o k opts (clock call) ctx call f).1 ≡ again i
      → run_job o k opts clock (suc fuel) ctx call f
        ≡ run_job o k opts clock fuel
            (next_context ctx i)
            (suc call)
            (run_round o k opts (clock call) ctx call f).0
  unfolding run_job
  run_job-again fuel ctx call f i e =
      ap (next_round (λ j. run_job o k opts clock fuel (next_context ctx j) (suc call)) _) e

  -- A round that finds the swap made is the last.
  last_round :
      (ctx : RunContext) (call : ℕ) (f : Fetcher C)
      → uses_historic f k ≡ true
      → (r : Fetcher C × Outcome E) × ((fuel : ℕ)
          → run_job o k opts clock (suc fuel) ctx call f ≡ some r)
  last_round ctx call f h = elim (Round-cases (run_round o k opts (clock call) ctx call f).1) [
    | inl (out, e) ↦ ((_, out), λ fuel. run_job-ended fuel ctx call f out e)
    | inr (i, e) ↦
        let swapped = round_swap o k opts (clock call) ctx call f (ap is_again e) in ground arith
  ]

  -- A run of a job ends, with its second call of `handleFetch` at the latest.
  pub run_job_ends :
      (ctx : RunContext) (call : ℕ) (f : Fetcher C)
      → (r : Fetcher C × Outcome E) × ((fuel : ℕ)
          → run_job o k opts clock (suc (suc fuel)) ctx call f ≡ some r)
  run_job_ends ctx call f = elim (Round-cases (run_round o k opts (clock call) ctx call f).1) [
    | inl (out, e) ↦ ((_, out), λ fuel. run_job-ended (suc fuel) ctx call f out e)
    | inr (i, e) ↦
        let swapped = round_swap o k opts (clock call) ctx call f (ap is_again e) in
        let (r, p) = last_round (next_context ctx i) (suc call) _ swapped.1 in
        (r, λ fuel. run_job-again (suc fuel) ctx call f i e ∙ p fuel)
  ]
