-- ===== src/Fetcher/Examples.antt =====
-- The properties of the fetcher service at concrete states. A cursor is a number, and so is an error.
use aleph_indexer_framework.Prelude.{
  ℕ, suc, ◌==◌, if◌then◌else◌, ◌≡◌, refl, true, false, Option, none, some, arith,
}
use aleph_indexer_framework.Fetcher.History.{
  JobKind, forward, backward, millis, stop, FetchResult, RunContext, JobOptions, FetcherOptions,
  Fetcher, complete_job, initial_job, job_options,
}
use aleph_indexer_framework.Fetcher.History.Job.{Outcome, run_job, returned, thrown}
use aleph_indexer_framework.Fetcher.History.Job.Ends.{run_job_ends}
use aleph_indexer_framework.Fetcher.History.Job.Exhausted.{backward_run_result, backward_result}
use aleph_indexer_framework.Fetcher.History.Job.Failed.{failed_forward_run}
use aleph_indexer_framework.Fetcher.History.Job.Kept.{
  Runs, no_runs, run, complete_job_frozen, cursor_kept, has_cursor,
}

-- An answer with these cursors, and an error or none.
abbrev answer : Option ℕ → Option ℕ → Option ℕ → FetchResult ℕ ℕ
answer error to_backward to_forward = record {
  error = error;
  new_interval = some (millis 500);
  last_cursors = record { backward_cursor = to_backward; forward_cursor = to_forward };
}

abbrev options : (ℕ → RunContext → FetchResult ℕ ℕ) → JobOptions ℕ ℕ
options fetch = record {
  interval = 1000;
  interval_init = none;
  interval_max = some 2000;
  times = none;
  handle_fetch = fetch;
  update_cursors = none;
  check_complete = none;
}

-- The backward job finds something in its call 1 alone; the forward job fails there.
abbrev backward_answers : ℕ → RunContext → FetchResult ℕ ℕ
backward_answers n ctx = if n == 1 then answer none (some 40) (some 90) else answer none none none

abbrev forward_answers : ℕ → RunContext → FetchResult ℕ ℕ
forward_answers n ctx =
    if n == 1 then answer (some 503) none (some 99) else answer none none (some 91)

abbrev both_jobs : FetcherOptions ℕ ℕ
both_jobs = record {
  forward_options = some (options forward_answers);
  backward_options = some (options backward_answers);
}

abbrev started : Fetcher ℕ
started = record {
  fetcher_state = record {
    cursors = some (record { backward_cursor = some 50; forward_cursor = some 90 });
    forward_job = initial_job false;
    backward_job = record (initial_job false) { last_run = 700 };
  };
  stored = none;
}

abbrev context : RunContext
context = record { first_run = true; interval = millis 1000 }

abbrev clock : ℕ → ℕ
clock n = n

run_job_ends_example :
    (r : Fetcher ℕ × Outcome ℕ) × ((fuel : ℕ)
      → run_job both_jobs backward
          (options backward_answers)
          clock
          (suc (suc fuel))
          context
          0
          started
        ≡ some r)
run_job_ends_example =
    run_job_ends both_jobs backward (options backward_answers) clock context 0 started

-- The first answer has nothing, so the second is asked for, and has a cursor.
backward_run_result_example :
    (f' : Fetcher ℕ) × (run_job both_jobs backward
        (options backward_answers)
        clock
        2
        context
        0
        started
      ≡ some (f', returned (millis 500)))
    × (f'.fetcher_state.backward_job.complete ≡ false)
    × (f'.stored ≡ some f'.fetcher_state)
unfolding backward_result
backward_run_result_example =
    backward_run_result both_jobs (options backward_answers) (refl, refl) clock 0 context 0 started
      refl

failed_forward_run_example :
    (f' : Fetcher ℕ) × (run_job both_jobs forward
        (options forward_answers)
        clock
        1
        context
        1
        started
      ≡ some (f', thrown 503))
    × (f'.stored ≡ some f'.fetcher_state)
    × (f'.fetcher_state.cursors ≡ started.fetcher_state.cursors)
    × (f'.fetcher_state.forward_job.num_runs ≡ 0)
    × (f'.fetcher_state.backward_job ≡ started.fetcher_state.backward_job)
failed_forward_run_example =
    failed_forward_run both_jobs (options forward_answers) clock 0 context 1 started 503 refl refl

-- The backward job is marked as complete, and the forward job runs after that.
abbrev closed : Fetcher ℕ
closed = complete_job backward started

forward_after : (f : Fetcher ℕ) → (h : Fetcher ℕ) × Runs both_jobs f h
forward_after f =
    let (r, p) = run_job_ends both_jobs forward (options forward_answers) clock context 0 f in
    (r.0, run forward (options forward_answers) clock 2 context 0 r.1 no_runs refl (p 0))

complete_job_frozen_example :
    ((forward_after closed).0.fetcher_state.backward_job ≡ closed.fetcher_state.backward_job)
    × (run_job both_jobs backward
          (options backward_answers)
          clock
          1
          context
          0
          (forward_after closed).0
        ≡ some ((forward_after closed).0, returned stop))
unfolding complete_job
complete_job_frozen_example =
    complete_job_frozen both_jobs backward (options backward_answers) clock 0 context 0 closed
      (forward_after closed).0 (forward_after closed).1 refl

options-update :
    (k : JobKind) (opts : JobOptions ℕ ℕ)
    → job_options both_jobs k ≡ some opts
    → opts.update_cursors ≡ none
options-update forward opts h = ground (arith, h)
options-update backward opts h = ground (arith, h)

cursor_kept_example : has_cursor backward (forward_after started).0.fetcher_state ≡ true
cursor_kept_example =
    cursor_kept both_jobs backward started (forward_after started).0 options-update
      (forward_after started).1 refl
