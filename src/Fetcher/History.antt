-- ===== src/Fetcher/History.antt =====
-- `BaseHistoryFetcher` of packages/framework/src/services/fetcher/src/baseHistoryFetcher.ts, with the
-- types of types.ts. A cursor is an object, so it counts as true wherever it is present. The id is
-- the key of the state in the store, which stands here for this fetcher's entry alone. Where the
-- source awaits a function of the options, that function is a parameter, which returns; a run of a
-- job is one step, with the clock and the answers of `handleFetch` given.
pub mod Job
pub mod Query
pub use aleph_indexer_framework.Jobs.Runner.{Interval, millis, reset, stop}
use aleph_indexer_framework.Prelude.{ℕ, Bool, true, false, Option, none, some}

pub data JobKind : Type 0 where
  forward : JobKind
  backward : JobKind

pub record Cursors (C : Type 0) : Type 0 where
  pub backward_cursor : Option C
  pub forward_cursor : Option C

pub record JobState : Type 0 where
  pub frequency : Option ℕ
  pub last_run : ℕ
  pub num_runs : ℕ
  pub complete : Bool
  pub use_historic_rpc : Bool

pub record FetcherState (C : Type 0) : Type 0 where
  pub cursors : Option (Cursors C)
  pub forward_job : JobState
  pub backward_job : JobState

pub record FetchResult (C E : Type 0) : Type 0 where
  pub error : Option E
  pub new_interval : Option Interval
  pub last_cursors : Cursors C

pub record UpdateResult (C : Type 0) : Type 0 where
  pub new_items : Bool
  pub new_cursors : Cursors C

-- The context of `handleFetch`.
pub record RunContext : Type 0 where
  pub first_run : Bool
  pub interval : Interval

-- `handle_fetch n ctx` is the answer to the call number `n` of a run.
pub record JobOptions (C E : Type 0) : Type 0 where
  pub interval : ℕ
  pub interval_init : Option ℕ
  pub interval_max : Option ℕ
  pub times : Option ℕ
  pub handle_fetch : ℕ → RunContext → FetchResult C E
  pub update_cursors : Option (Option (Cursors C) → Cursors C → UpdateResult C)
  pub check_complete : Option (FetcherState C → JobState → Bool → Option E → Bool)

pub record FetcherOptions (C E : Type 0) : Type 0 where
  pub forward_options : Option (JobOptions C E)
  pub backward_options : Option (JobOptions C E)

-- The object in memory, and what the store holds.
pub record Fetcher (C : Type 0) : Type 0 where
  pub fetcher_state : FetcherState C
  pub stored : Option (FetcherState C)

abbrev pub initial_job : Bool → JobState
initial_job use_historic_rpc = record {
  frequency = none;
  last_run = 0;
  num_runs = 0;
  complete = false;
  use_historic_rpc = use_historic_rpc;
}

-- initJobsFrequencyState
pub init_frequency : Option ℕ → Option ℕ → Option ℕ
init_frequency none frequency = none
init_frequency (some i) none = some i
init_frequency (some i) (some n) = some n

module _ {C : Type 0} where
  -- `fetcherState.jobs[fetcherType]`
  abbrev pub job_state : FetcherState C → JobKind → JobState
  job_state s forward = s.forward_job
  job_state s backward = s.backward_job

  abbrev pub with_job : FetcherState C → JobKind → JobState → FetcherState C
  with_job s forward j = record s { forward_job = j }
  with_job s backward j = record s { backward_job = j }

  abbrev pub initial_state : Bool → FetcherState C
  initial_state use_historic_rpc = record {
    cursors = none;
    forward_job = initial_job use_historic_rpc;
    backward_job = initial_job use_historic_rpc;
  }

  -- saveFetcherState
  abbrev pub save : Fetcher C → Fetcher C
  save f = record f { stored = some f.fetcher_state }

  abbrev pub stored_or : FetcherState C → Option (FetcherState C) → FetcherState C
  stored_or s none = s
  stored_or s (some t) = t

  -- complete
  unfoldable pub complete_job : JobKind → Fetcher C → Fetcher C
  complete_job k f = save (record f {
    fetcher_state =
        with_job f.fetcher_state k (record (job_state f.fetcher_state k) { complete = true });
  })

module _ {C E : Type 0} where
  -- `this.options.jobs?.[fetcherType]`
  abbrev pub job_options : FetcherOptions C E → JobKind → Option (JobOptions C E)
  job_options o forward = o.forward_options
  job_options o backward = o.backward_options

  -- The `intervalInit` of a job that has one.
  abbrev pub interval_init_of : Option (JobOptions C E) → Option ℕ
  interval_init_of none = none
  interval_init_of (some opts) = opts.interval_init

  pub init_jobs_frequency_state : FetcherOptions C E → JobKind → FetcherState C → FetcherState C
  init_jobs_frequency_state o k s = with_job s k (record (job_state s k) {
    frequency = init_frequency (interval_init_of (job_options o k)) (job_state s k).frequency;
  })

  -- getFetcherState: the first call loads the state.
  pub get_fetcher_state : FetcherOptions C E → Bool → Option (FetcherState C) → Fetcher C
  unfolding init_jobs_frequency_state
  get_fetcher_state o use_historic_rpc stored = record {
    fetcher_state =
        init_jobs_frequency_state o backward
          (init_jobs_frequency_state o forward (stored_or (initial_state use_historic_rpc) stored));
    stored = stored;
  }
