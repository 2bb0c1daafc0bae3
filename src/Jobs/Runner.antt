-- ===== src/Jobs/Runner.antt =====
-- `JobRunner` of packages/core/src/utils/concurrence/jobRunner.ts. What happens outside of the runner
-- is given as a list of ticks, one for each round: how the call of `intervalFn` ends, how long it
-- takes, and whether somebody calls `stop` before the round ends. Intervals are whole milliseconds, and
-- the only negative numbers that `intervalFn` returns are the two codes.
pub mod Rounds
use aleph_indexer_framework.Prelude.{
  ℕ, zero, suc, ◌+◌, ◌-◌, ◌^◌, Bool, true, false, not, ◌&&◌, ◌||◌, List, [], ◌∷◌, Option, none,
  some, min, leb, if◌then◌else◌,
}

-- What an `intervalFn` returns: a number that is no code, `Reset` or `Stop`.
pub data Interval : Type 0 where
  millis : ℕ → Interval
  reset : Interval
  stop : Interval

-- The options of a runner. No `times` is infinity.
pub record RunnerOptions : Type 0 where
  pub interval : ℕ
  pub interval_max : ℕ
  pub interval_init : ℕ
  pub interval_accuracy : Bool
  pub start_after : ℕ
  pub times : Option ℕ
  pub jitter : ℕ

-- An option that is absent, or is `undefined`, or has a value.
pub record PartialOptions : Type 0 where
  pub interval : Option ℕ
  pub interval_max : Option (Option ℕ)
  pub interval_init : Option (Option ℕ)
  pub interval_accuracy : Option (Option Bool)
  pub start_after : Option (Option ℕ)
  pub times : Option (Option ℕ)
  pub jitter : Option (Option ℕ)

-- `{ ...this.options, ...options }` at one option, and its default.
unfoldable pub merged {ℓ} : {A : Type ℓ} → A → A → Option (Option A) → A
merged default old none = old
merged default old (some none) = default
merged default old (some (some v)) = v

unfoldable pub merged_times : Option ℕ → Option (Option ℕ) → Option ℕ
merged_times old none = old
merged_times old (some times) = times

unfoldable pub merged_interval : ℕ → Option ℕ → ℕ
merged_interval old none = old
merged_interval old (some i) = i

-- parseOptions, on a runner that has options.
unfoldable pub parse_options : RunnerOptions → PartialOptions → RunnerOptions
parse_options old p =
    let interval = merged_interval old.interval p.interval in
    record {
      interval = interval;
      interval_max = merged (2 ^ 53 - 1) old.interval_max p.interval_max;
      interval_init = merged interval old.interval_init p.interval_init;
      interval_accuracy = merged true old.interval_accuracy p.interval_accuracy;
      start_after = merged 0 old.start_after p.start_after;
      times = merged_times old.times p.times;
      jitter = merged 0 old.jitter p.jitter;
    }

-- How a call of `intervalFn` ends; it may return nothing.
pub data Answer : Type 0 where
  answered : Option Interval → Answer
  failed : Answer

pub record Tick : Type 0 where
  pub answer : Answer
  pub elapsed_time : ℕ
  pub stopped : Bool

-- The variables of the loop.
pub record Loop : Type 0 where
  pub interval : ℕ
  pub first_run : Bool
  pub i : ℕ
  pub is_running : Bool

abbrev pub run_init : RunnerOptions → Loop
run_init o = record { interval = o.interval_init; first_run = true; i = 0; is_running = true }

-- `(await intervalFn(…)) || interval`, where 0 counts as nothing.
unfoldable pub new_interval : ℕ → Option Interval → Interval
new_interval interval none = millis interval
new_interval interval (some (millis zero)) = millis interval
new_interval interval (some (millis (suc n))) = millis (suc n)
new_interval interval (some reset) = reset
new_interval interval (some stop) = stop

unfoldable pub set_interval : RunnerOptions → Interval → Loop → Loop
set_interval o (millis n) s = record s { interval = min n o.interval_max }
set_interval o reset s = record s { interval = o.interval }
set_interval o stop s = record s { is_running = false }

-- The `try` block and its `catch`.
unfoldable pub handle_answer : RunnerOptions → Answer → Loop → Loop
handle_answer o failed s = s
handle_answer o (answered result) s =
    let s' = set_interval o (new_interval s.interval result) s in
    record s' { first_run = false; i = s'.i + 1 }

abbrev pub is_error : Answer → Bool
is_error failed = true
is_error (answered result) = false

-- `i >= times`
abbrev pub has_run : Option ℕ → ℕ → Bool
has_run none i = false
has_run (some times) i = leb times i

unfoldable pub round : RunnerOptions → Tick → Loop → Loop
round o t s =
    let s' = handle_answer o t.answer s in
    record s' {
      is_running =
          s'.is_running && not t.stopped && not (not (is_error t.answer) && has_run o.times s'.i);
    }

-- `Math.max(0, interval - elapsedTime)` is the subtraction of natural numbers.
unfoldable pub sleep_time : RunnerOptions → Tick → Loop → ℕ
sleep_time o t s =
    if is_error t.answer
    then 1000
    else if o.interval_accuracy
    then s.interval - t.elapsed_time
    else s.interval

-- A call of `intervalFn` with its context, and a sleep.
pub data Event : Type 0 where
  called : Bool → ℕ → Event
  slept : ℕ → Event

-- The loop of `run`. It is still running where the ticks that are given come to their end.
pub run_loop : RunnerOptions → List Tick → Loop → List Event × Loop
run_loop o [] s = ([], s)
run_loop o (t ∷ ts) s =
    let s' = round o t s in
    let (later, final) = run_loop o ts s' in
    if s'.is_running
    then (called s.first_run s.interval ∷ slept (sleep_time o t s') ∷ later, final)
    else (called s.first_run s.interval ∷ [], s')

-- `run`, after the sleeps for `startAfter` and the jitter.
pub run : RunnerOptions → PartialOptions → List Tick → List Event × Loop
run o p ts = let o' = parse_options o p in run_loop o' ts (run_init o')
