-- ===== src/Fetcher/History/Job.antt =====
-- One run of a job: `_runJob`, `_updateCursors` and `_checkComplete` of baseHistoryFetcher.ts.
pub mod Ends
pub mod Exhausted
pub mod Kept
pub mod Failed
use aleph_indexer_framework.Prelude.{
  ℕ, zero, suc, ◌+◌, Bool, true, false, not, ◌&&◌, Option, none, some, min, ◌==◌, if◌then◌else◌,
}
use aleph_indexer_framework.Fetcher.History.{
  JobKind, forward, backward, Cursors, Interval, millis, reset, stop, JobState, FetcherState,
  FetchResult, UpdateResult, RunContext, JobOptions, FetcherOptions, Fetcher, job_state, with_job,
  save,
}

-- How a run ends: with what it returns, or with an error that it throws.
pub data Outcome (E : Type 0) : Type 0 where
  returned : Interval → Outcome E
  thrown : E → Outcome E

-- A round of `_runJob` ends the run, or calls it again with an interval.
pub data Round (E : Type 0) : Type 0 where
  ended : Outcome E → Round E
  again : Interval → Round E

-- The context of the recursive call.
abbrev pub next_context : RunContext → Interval → RunContext
next_context ctx i = record { first_run = ctx.first_run; interval = i }

module _ {ℓ} {A : Type ℓ} where
  abbrev pub or_else : Option A → Option A → Option A
  or_else none b = b
  or_else (some a) b = some a

  abbrev pub is_some : Option A → Bool
  is_some none = false
  is_some (some a) = true

module _ {C : Type 0} where
  -- `jobState.lastRun = Date.now()`
  unfoldable pub start_run : ℕ → JobKind → FetcherState C → FetcherState C
  start_run now k s = with_job s k (record (job_state s k) { last_run = now })

  -- `{ ...prevCursors }`
  abbrev pub spread : Option (Cursors C) → Cursors C
  spread none = record { backward_cursor = none; forward_cursor = none }
  spread (some cs) = cs

  -- _updateCursors
  unfoldable pub default_update : JobKind → Option (Cursors C) → Cursors C → UpdateResult C
  default_update backward prev last = record {
    new_items = is_some last.backward_cursor;
    new_cursors = record {
      backward_cursor = or_else last.backward_cursor (spread prev).backward_cursor;
      forward_cursor = or_else (spread prev).forward_cursor last.forward_cursor;
    };
  }
  default_update forward prev last = record {
    new_items = is_some last.forward_cursor;
    new_cursors = record {
      forward_cursor = or_else last.forward_cursor (spread prev).forward_cursor;
      backward_cursor = or_else (spread prev).backward_cursor last.backward_cursor;
    };
  }

abbrev pub is_backward : JobKind → Bool
is_backward forward = false
is_backward backward = true

-- _checkComplete
unfoldable pub default_check : {E : Type 0} → JobKind → JobState → Bool → Option E → Bool
default_check k job new_items error =
    not (is_some error) && is_backward k && not new_items && job.use_historic_rpc

-- `newInterval = ctx.interval`
abbrev pub interval_or : Interval → Option Interval → Interval
interval_or i none = i
interval_or i (some j) = j

-- `this.options.jobs?.forward?.intervalMax || newInterval`
unfoldable pub interval_max_or : {C E : Type 0} → FetcherOptions C E → ℕ → ℕ
interval_max_or o n = elim o.forward_options [
  | none ↦ n
  | some opts ↦ elim opts.interval_max [ none ↦ n | some zero ↦ n | some (suc m) ↦ suc m ]
]

-- Update new frequency
unfoldable pub new_frequency : {C E : Type 0} → FetcherOptions C E → Interval → Option ℕ → Option ℕ
new_frequency o (millis (suc n)) (some frequency) = some (min (suc n) (interval_max_or o (suc n)))
new_frequency o i frequency = frequency

-- How the round ends.
unfoldable pub outcome_of : {E : Type 0} → Option E → Bool → Bool → Interval → Round E
outcome_of (some e) complete swap i = ended (thrown e)
outcome_of none true swap i = ended (returned stop)
outcome_of none false true i = again i
outcome_of none false false i = ended (returned i)

module _ {C E : Type 0} where
  unfoldable pub run_update :
      JobKind → JobOptions C E → Option (Cursors C) → Cursors C → UpdateResult C
  run_update k opts prev last = elim opts.update_cursors [
    | none ↦ default_update k prev last
    | some f ↦ f prev last
  ]

  unfoldable pub run_check :
      JobKind → JobOptions C E → FetcherState C → JobState → Bool → Option E → Bool
  run_check k opts s job new_items error = elim opts.check_complete [
    | none ↦ default_check k job new_items error
    | some f ↦ f s job new_items error
  ]

  -- Update pagination cursor: the new state, and whether there are new items.
  unfoldable pub update_cursors :
      JobKind → JobOptions C E → FetchResult C E → FetcherState C → FetcherState C × Bool
  update_cursors k opts fetched s =
      let result = run_update k opts s.cursors fetched.last_cursors in
      let job = job_state s k in
      if not (is_backward k) && is_some fetched.error then (s, false) else (
        with_job (record s { cursors = some result.new_cursors }) k
            (record job { num_runs = job.num_runs + 1 }),
        result.new_items,
      )

  unfoldable pub update_frequency :
      FetcherOptions C E → JobKind → Interval → FetcherState C → FetcherState C
  update_frequency o k i s =
      let job = job_state s k in
      with_job s k (record job { frequency = new_frequency o i job.frequency })

  -- The completion, and the swap to the public RPC, which is asked for the whole history.
  unfoldable pub settle :
      JobKind → JobOptions C E → Option E → Bool → FetcherState C → FetcherState C × Bool
  settle k opts error new_items s =
      let job = job_state s k in
      let idle = is_backward k && not (is_some error) && not new_items in
      (
        with_job s k (record job {
          complete = run_check k opts s job new_items error;
          use_historic_rpc = if idle then true else job.use_historic_rpc;
        }),
        idle && not job.use_historic_rpc,
      )

  -- What follows `await opts.handleFetch(ctx)`.
  unfoldable pub after_fetch :
      FetcherOptions C E
      → JobKind
      → JobOptions C E
      → RunContext
      → FetchResult C E
      → FetcherState C
      → FetcherState C × Round E
  after_fetch o k opts ctx fetched s =
      let i = interval_or ctx.interval fetched.new_interval in
      let (updated, new_items) = update_cursors k opts fetched s in
      let (settled, swap) =
        settle k opts fetched.error new_items (update_frequency o k i updated) in
      (settled, outcome_of fetched.error (job_state settled k).complete swap i)

  -- `_runJob` up to its recursive call. Every round that fetches ends with a save.
  unfoldable pub run_round :
      FetcherOptions C E
      → JobKind
      → JobOptions C E
      → ℕ
      → RunContext
      → ℕ
      → Fetcher C
      → Fetcher C × Round E
  run_round o k opts now ctx call f =
      let job = job_state f.fetcher_state k in
      let (s, round) =
        after_fetch o k opts ctx (opts.handle_fetch call ctx) (start_run now k f.fetcher_state) in
      if job.complete
      then (f, ended (returned stop))
      else (record { fetcher_state = s; stored = some s }, round)

  -- What follows a round, with the recursive call given.
  abbrev pub next_round :
      (Interval → Fetcher C → Option (Fetcher C × Outcome E))
      → Fetcher C
      → Round E
      → Option (Fetcher C × Outcome E)
  next_round run_again f (ended outcome) = some (f, outcome)
  next_round run_again f (again i) = run_again i f

  -- `_runJob` on fuel: `none` means that it ran out. The clock gives the time of each call.
  pub run_job :
      FetcherOptions C E
      → JobKind
      → JobOptions C E
      → (ℕ → ℕ)
      → ℕ
      → RunContext
      → ℕ
      → Fetcher C
      → Option (Fetcher C × Outcome E)
  run_job o k opts clock zero ctx call f = none
  run_job o k opts clock (suc fuel) ctx call f =
      let (f', round) = run_round o k opts (clock call) ctx call f in
      next_round (λ i. run_job o k opts clock fuel (next_context ctx i) (suc call)) f' round
