-- ===== src/Jobs/Examples.antt =====
-- The properties of the job runner at concrete options and ticks.
use aleph_indexer_framework.Prelude.{◌≡◌, true, false, List, [], ◌∷◌, none, some}
use aleph_indexer_framework.Jobs.Runner.{
  RunnerOptions, PartialOptions, Tick, answered, failed, millis, reset, run, parse_options,
  merged_times,
}
use aleph_indexer_framework.Jobs.Runner.Rounds.{run-goes_on}

abbrev options : RunnerOptions
options = record {
  interval = 1000;
  interval_max = 5000;
  interval_init = 1000;
  interval_accuracy = true;
  start_after = 0;
  times = none;
  jitter = 0;
}

abbrev twice : PartialOptions
twice = record {
  interval = none;
  interval_max = none;
  interval_init = some (some 200);
  interval_accuracy = none;
  start_after = none;
  times = some (some 2);
  jitter = none;
}

-- A call that asks for more than the maximum, one that fails, one that answers 0, one that resets.
abbrev ticks : List Tick
ticks =
    record { answer = answered (some (millis 9000)); elapsed_time = 100; stopped = false }
    ∷ record { answer = failed; elapsed_time = 40; stopped = false }
    ∷ record { answer = answered (some (millis 0)); elapsed_time = 30; stopped = false }
    ∷ record { answer = answered (some reset); elapsed_time = 10; stopped = false }
    ∷ []

run-goes_on_example : (run options twice ticks).1.is_running ≡ false
unfolding parse_options merged_times
run-goes_on_example = run-goes_on options twice ticks
