-- ===== src/Jobs/Tests.antt =====
-- Tests of the helpers for concurrence and of the pool of pending work at concrete events.
use aleph_indexer_framework.Prelude.{
  ℕ, ◌+◌, ◌≡◌, ◌≤◌, ◌<◌, refl, Bool, true, false, not, ◌||◌, List, [], ◌∷◌, Option, none, some,
  length, ltb, ◌==◌, arith,
}
use aleph_indexer_framework.Jobs.Debounced.{
  idle, calling, DebouncedJob, run_loop, run, Event, run_called, answered, left, step, run_events,
  new_job,
}
use aleph_indexer_framework.Jobs.Debounced.Runs.{latest, last_call, KeepsRuns, idle-latest}
use aleph_indexer_framework.Jobs.Mutex.{
  Mutex, new_mutex, acquire, release, holds_lock, is_granted, is_unresolved, start, acquired,
  released, Run-exclusive,
}
use aleph_indexer_framework.Jobs.Pool.{
  PendingWork, sleep, PoolOptions, Pool, PoolRun, has_work, add_work, run_job,
}
use aleph_indexer_framework.Jobs.Pool.Queue.{add_work-bound}
use aleph_indexer_framework.Jobs.Pool.Runs.{IsNeverComplete, run_job-kept}

-- A run is called while the callback is under way.
abbrev events : List (ℕ × Event ℕ)
events = (5, run_called 1) ∷ (6, run_called 2) ∷ (7, answered) ∷ (8, answered) ∷ (9, left) ∷ []

events-KeepsRuns : KeepsRuns events (new_job 0)
unfolding KeepsRuns step run run_loop
events-KeepsRuns = (refl, (refl, (refl, (refl, (refl, tt)))))

events-idle : (run_events events (new_job 0)).stage ≡ idle
unfolding run_events step run run_loop
events-idle = refl

idle-latest_example : last_call (run_events events (new_job 0)).calls ≡ latest none events
idle-latest_example = idle-latest 0 events events-KeepsRuns events-idle

-- The callback is under way, and a run is pending.
abbrev waiting : DebouncedJob ℕ
waiting = record {
  pending_data = some 2;
  pending_run = true;
  last_run = 5;
  throttle = 0;
  stage = calling;
  calls = some 1 ∷ [];
}

-- Two calls, of which the first has released the lock.
abbrev two_calls : Mutex
two_calls = (acquire (acquire new_mutex).0).0

first-holds_lock : holds_lock two_calls 0 ≡ true
unfolding is_granted is_unresolved
first-holds_lock = refl

abbrev second_holds : Mutex
second_holds = release 0 two_calls

Run-exclusive_example :
    ((i j : ℕ) → holds_lock second_holds i ≡ true → holds_lock second_holds j ≡ true → i ≡ j)
    × (0 < second_holds.count → (i : ℕ) × (holds_lock second_holds i ≡ true))
    × ((i j : ℕ)
        → holds_lock second_holds i ≡ true
        → j < i
        → is_unresolved second_holds.futures j ≡ false)
Run-exclusive_example = Run-exclusive second_holds (
    released 0 two_calls first-holds_lock
      (acquired (acquire new_mutex).0 (acquired new_mutex start)))

abbrev work : ℕ → ℕ → PendingWork Bool
work i t = record { id = i; time = t; payload = true }

-- The check that keeps the stored work.
abbrev keep_first : Bool → Bool → Bool
keep_first old new = old

abbrev pool : Pool Bool
pool = record { works = work 1 10 ∷ work 2 20 ∷ work 3 20 ∷ []; skip_sleep = false }

add_work-bound_example :
    (length (add_work keep_first (some 4) (work 2 30 ∷ []) pool).0.works ≤ 4)
    × ((add_work keep_first (some 4) (work 2 30 ∷ []) pool).1 ≡ ltb 4 (length pool.works + 1))
    × ((add_work keep_first (some 4) (work 2 30 ∷ []) pool).1 ≡ true
        → (add_work keep_first (some 4) (work 2 30 ∷ []) pool).0 ≡ pool)
    × ((i : ℕ)
        → (add_work keep_first (some 4) (work 2 30 ∷ []) pool).1 ≡ false
        → has_work i (add_work keep_first (some 4) (work 2 30 ∷ []) pool).0.works
          ≡ (has_work i (work 2 30 ∷ []) || has_work i pool.works))
add_work-bound_example =
    add_work-bound keep_first 4 (work 2 30 ∷ []) pool (omega arith) (omega arith)

-- The handler counts the works that it gets; the work 2 is not complete before the third of them.
abbrev options : PoolOptions ℕ Bool
options = record {
  interval = 0;
  max_queue_size = some 4;
  chunk_size = 2;
  handle_work = λ ws s. (s + length ws, sleep (some 500));
  check_complete = some (λ w s. not (w.id == 2) || ltb 2 s);
  pre_check_complete = true;
}

run_job-kept_example :
    (r : PoolRun ℕ Bool × Option ℕ) × (run_job options 4 pool 0 ≡ some r)
    × ((i : ℕ) → IsNeverComplete options i → has_work i r.0.pool.works ≡ has_work i pool.works)
run_job-kept_example = run_job-kept options pool 0 (omega arith)
