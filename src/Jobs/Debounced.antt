-- ===== src/Jobs/Debounced.antt =====
-- `DebouncedJob` of packages/core/src/utils/concurrence/common.ts as a machine that the events of the
-- outside drive: calls of `run`, the end of a sleep, the answers of the callback and the turn of the
-- event loop in which the finally block runs. `now` is the time on the clock at an event.
pub mod Runs
use aleph_indexer_framework.Prelude.{
  ℕ, ◌+◌, ◌-◌, ◌≤◌, ◌≡◌, ◌∙◌, refl, sym, ap, Bool, true, false, not, ◌&&◌, ◌||◌, List, [], ◌∷◌,
  ◌++◌, Option, none, some, ltb, leb, if◌then◌else◌, inl, inr, arith, Bool-cases,
}

-- Where the loop stands: nobody runs it, it sleeps, it awaits the callback, or it has ended and the
-- finally block is still to run.
pub data Stage : Type 0 where
  idle : Stage
  sleeping : Stage
  calling : Stage
  leaving : Stage

-- The fields of the class, and the data of the calls of the callback, the latest first.
pub record DebouncedJob (T : Type 0) : Type 0 where
  pub pending_data : Option T
  pub pending_run : Bool
  pub last_run : ℕ
  pub throttle : ℕ
  pub stage : Stage
  pub calls : List (Option T)

module _ {T : Type 0} where
  -- The end of a round of the loop: the data is taken and the callback is called.
  abbrev pub take : ℕ → DebouncedJob T → DebouncedJob T
  take now j = record j {
    pending_data = none;
    pending_run = false;
    last_run = now;
    stage = calling;
    calls = j.pending_data ∷ j.calls;
  }

  -- The test of the loop, and its sleep.
  unfoldable pub run_loop : ℕ → DebouncedJob T → DebouncedJob T
  run_loop now j =
      if j.pending_run
      then if ltb now (j.last_run + j.throttle) then record j { stage = sleeping } else take now j
      else record j { stage = leaving }

  abbrev pub start : ℕ → Stage → DebouncedJob T → DebouncedJob T
  start now idle j = run_loop now j
  start now sleeping j = j
  start now calling j = j
  start now leaving j = j

  -- run, with `_run`
  unfoldable pub run : ℕ → T → DebouncedJob T → DebouncedJob T
  run now data_ j = start now j.stage (record j { pending_data = some data_; pending_run = true })

-- What else happens to the job.
pub data Event (T : Type 0) : Type 0 where
  run_called : T → Event T
  woken : Event T
  answered : Event T
  failed : Event T
  left : Event T

module _ {T : Type 0} where
  unfoldable pub step : ℕ → Stage → Event T → DebouncedJob T → DebouncedJob T
  step now s (run_called d) j = run now d j
  step now sleeping woken j = take now j
  step now calling answered j = run_loop now j
  step now calling failed j = record j { stage = leaving }
  step now leaving left j = record j { stage = idle }
  step now s e j = j

  unfoldable pub run_events : List (ℕ × Event T) → DebouncedJob T → DebouncedJob T
  run_events [] j = j
  run_events ((now, e) ∷ es) j = run_events es (step now j.stage e j)

  abbrev pub new_job : ℕ → DebouncedJob T
  new_job throttle = record {
    pending_data = none;
    pending_run = false;
    last_run = 0;
    throttle = throttle;
    stage = idle;
    calls = [];
  }
