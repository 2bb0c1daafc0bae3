-- ===== src/Fetcher/History/Query.antt =====
-- The queries of `BaseHistoryFetcher` on its state: `isComplete`, `getLastRun`, `getNextRun` and
-- `getPendingRuns` of baseHistoryFetcher.ts. `Number.POSITIVE_INFINITY` is `none`.
use aleph_indexer_framework.Prelude.{
  ℕ, zero, suc, ◌+◌, ◌≤◌, ◌≡◌, ◌↔◌, inl, inr, Bool, true, false, ◌&&◌, Option, none, some, max, min,
  arith, refl, leb, Bool-cases, if◌then◌else◌,
}
use aleph_indexer_framework.Fetcher.History.{
  JobKind, forward, backward, FetcherState, FetcherOptions, job_state, job_options,
}

-- Math.max and Math.min of numbers or infinity.
abbrev pub min_run : Option ℕ → Option ℕ → Option ℕ
min_run none b = b
min_run (some a) none = some a
min_run (some a) (some b) = some (min a b)

abbrev pub max_runs : Option ℕ → Option ℕ → Option ℕ
max_runs none b = none
max_runs (some a) none = none
max_runs (some a) (some b) = some (max a b)

abbrev pub frequency_or : Option ℕ → ℕ → ℕ
frequency_or none i = i
frequency_or (some zero) i = i
frequency_or (some (suc n)) i = suc n

-- `fetcher?.times || Number.POSITIVE_INFINITY`
abbrev pub times_or : Option ℕ → Option ℕ
times_or none = none
times_or (some zero) = none
times_or (some (suc n)) = some (suc n)

module _ {C E : Type 0} (o : FetcherOptions C E) (s : FetcherState C) where
  abbrev pub is_job_complete : JobKind → Bool
  is_job_complete k = elim (job_options o k) [ none ↦ true | some opts ↦ (job_state s k).complete ]

  abbrev pub is_complete : Bool
  is_complete = is_job_complete forward && is_job_complete backward

  abbrev pub get_job_last_run : JobKind → ℕ
  get_job_last_run k = elim (job_options o k) [ none ↦ 0 | some opts ↦ (job_state s k).last_run ]

  abbrev pub get_last_run : ℕ
  get_last_run = max (get_job_last_run forward) (get_job_last_run backward)

  -- `frequency || this.options.jobs?.[fetcherType]?.interval || 0`
  abbrev pub interval_of : JobKind → ℕ
  interval_of k = elim (job_options o k) [ none ↦ 0 | some opts ↦ opts.interval ]

  -- The time of the next run of a job that is not complete.
  abbrev pub job_run : JobKind → ℕ
  job_run k = get_job_last_run k + frequency_or (job_state s k).frequency (interval_of k)

  abbrev pub get_job_next_run : JobKind → Option ℕ
  get_job_next_run k = if is_job_complete k then none else some (job_run k)

  pub get_next_run : Option ℕ
  get_next_run = min_run (get_job_next_run forward) (get_job_next_run backward)

  abbrev pub get_job_pending_runs : JobKind → Option ℕ
  get_job_pending_runs k = elim (job_options o k) [
    | none ↦ some 0
    | some opts ↦ times_or opts.times
  ]

  abbrev pub get_pending_runs : Option ℕ
  get_pending_runs = max_runs (get_job_pending_runs forward) (get_job_pending_runs backward)

  -- The next run of a fetcher is infinitely far exactly if the fetcher is complete.
  pub get_next_run-none_iff : (get_next_run ≡ none) ↔ (is_complete ≡ true)
  unfolding get_next_run
  get_next_run-none_iff = elim (Bool-cases (is_job_complete forward)) [
    | inl e ↦ elim (Bool-cases (is_job_complete backward)) [
      | inl e' ↦ ground arith
      | inr e' ↦ ground arith
    ]
    | inr e ↦ elim (Bool-cases (is_job_complete backward)) [
      | inl e' ↦ ground arith
      | inr e' ↦ ground arith
    ]
  ]

  both_open :
      is_job_complete forward ≡ false
      → is_job_complete backward ≡ false
      → (get_next_run ≡ some (min (job_run forward) (job_run backward)))
        × (d : JobKind) × (is_job_complete d ≡ false)
        × (min (job_run forward) (job_run backward) ≡ job_run d)
  unfolding get_next_run
  both_open e e' = elim (Bool-cases (leb (job_run forward) (job_run backward))) [
    | inl h ↦ (ground arith, forward, e, ground arith)
    | inr h ↦ (ground arith, backward, e', ground arith)
  ]

  -- Where a job is not complete, the next run of the fetcher is at a time that is not later than
  -- that job's, and is the time of a job that is not complete.
  pub get_next_run_earliest :
      (k : JobKind)
      → is_job_complete k ≡ false
      → (t : ℕ) × (get_next_run ≡ some t)
        × (t ≤ job_run k)
        × (d : JobKind) × (is_job_complete d ≡ false)
        × (t ≡ job_run d)
  unfolding get_next_run
  get_next_run_earliest forward e = elim (Bool-cases (is_job_complete backward)) [
    | inl e' ↦ (job_run forward, ground arith, omega arith, forward, e, refl)
    | inr e' ↦ let (p, d, c, q) = both_open e e' in (_, p, omega arith, d, c, q)
  ]
  get_next_run_earliest backward e = elim (Bool-cases (is_job_complete forward)) [
    | inl e' ↦ (job_run backward, ground arith, omega arith, backward, e, refl)
    | inr e' ↦ let (p, d, c, q) = both_open e' e in (_, p, omega arith, d, c, q)
  ]
