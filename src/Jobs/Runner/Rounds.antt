-- ===== src/Jobs/Runner/Rounds.antt =====
-- When the loop of a `JobRunner` ends, and the intervals that it uses.
use aleph_indexer_framework.Prelude.{
  ℕ, suc, ◌+◌, ◌≤◌, ◌≡◌, ◌∙◌, ◌⊎◌, refl, sym, ap, subst, inl, inr, Bool, true, false, not, ◌&&◌,
  ◌||◌, ◌==◌, List, [], ◌∷◌, Option, some, max, any, All, arith, Bool-cases, if◌then◌else◌,
}
use aleph_indexer_framework.Jobs.Runner.{
  stop, RunnerOptions, PartialOptions, parse_options, Answer, answered, Tick, Loop, run_init,
  new_interval, set_interval, handle_answer, is_error, has_run, round, sleep_time, Event, called,
  slept, run_loop, run,
}

abbrev pub answers_stop : Answer → Bool
answers_stop (answered (some stop)) = true
answers_stop a = false

-- The tick asks the runner to stop.
abbrev pub asks_stop : Tick → Bool
asks_stop t = t.stopped || answers_stop t.answer

-- How many calls end without an error.
abbrev pub successes : List Tick → ℕ
successes [] = 0
successes (t ∷ ts) = if is_error t.answer then successes ts else suc (successes ts)

round-i :
    (o : RunnerOptions) (t : Tick) (s : Loop)
    → (round o t s).i ≡ (if is_error t.answer then s.i else s.i + 1)
unfolding round handle_answer set_interval new_interval
round-i o t s = ground arith

round-is_running :
    (o : RunnerOptions) (t : Tick) (s : Loop)
    → s.is_running ≡ true
    → (round o t s).is_running
      ≡ (not (asks_stop t) && not (not (is_error t.answer) && has_run o.times (s.i + 1)))
unfolding round handle_answer set_interval new_interval
round-is_running o t s h = ground (arith, h)

has_run_mono :
    (times : Option ℕ) (a b : ℕ) → a ≤ b → has_run times a ≡ true → has_run times b ≡ true
has_run_mono times a b h r = ground arith

loop-running :
    (o : RunnerOptions) (t : Tick) (ts : List Tick) (s : Loop)
    → (round o t s).is_running ≡ true
    → run_loop o (t ∷ ts) s ≡ (
      called s.first_run s.interval
          ∷ slept (sleep_time o t (round o t s))
          ∷ (run_loop o ts (round o t s)).0,
      (run_loop o ts (round o t s)).1,
    )
unfolding run_loop
loop-running o t ts s h = rw h

loop-ended :
    (o : RunnerOptions) (t : Tick) (ts : List Tick) (s : Loop)
    → (round o t s).is_running ≡ false
    → run_loop o (t ∷ ts) s ≡ (called s.first_run s.interval ∷ [], round o t s)
unfolding run_loop
loop-ended o t ts s h = rw h

-- Whether the loop goes on after these ticks, by what they hold.
abbrev pub goes_on : Option ℕ → ℕ → List Tick → Bool
goes_on times i ts =
    not (any asks_stop ts) && (successes ts == 0 || not (has_run times (i + successes ts)))

loop-goes_on :
    (o : RunnerOptions) (ts : List Tick) (s : Loop)
    → s.is_running ≡ true
    → (run_loop o ts s).1.is_running ≡ goes_on o.times s.i ts
unfolding run_loop
loop-goes_on o [] s h = h
loop-goes_on o (t ∷ ts) s h =
    let i = round-i o t s in
    let r = round-is_running o t s h in
    elim (Bool-cases (round o t s).is_running) [
      | inl e ↦
          ap (λ u. u.1.is_running) (loop-running o t ts s e)
          ∙ loop-goes_on o ts (round o t s) e
          ∙ ground arith
      | inr e ↦ ap (λ u. u.1.is_running) (loop-ended o t ts s e) ∙ e ∙ ground arith
    ]

-- A runner that starts goes on exactly while nobody asked it to stop and, where a call has ended
-- without an error, such calls are fewer than `times`. So a `times` of 0 allows one.
pub run-goes_on :
    (o : RunnerOptions) (p : PartialOptions) (ts : List Tick)
    → (run o p ts).1.is_running ≡ goes_on (parse_options o p).times 0 ts
unfolding run
run-goes_on o p ts = loop-goes_on (parse_options o p) ts (run_init (parse_options o p)) refl

-- What the context of a call holds.
abbrev pub IsCallIn : ℕ → Event → Type 0
IsCallIn bound (called first_run interval) = interval ≤ bound
IsCallIn bound (slept ms) = (ms ≤ bound) ⊎ (ms ≡ 1000)

-- No interval is above these three.
abbrev pub interval_bound : RunnerOptions → ℕ
interval_bound o = max o.interval_init (max o.interval o.interval_max)

round-interval :
    (o : RunnerOptions) (t : Tick) (s : Loop)
    → s.interval ≤ interval_bound o
    → (round o t s).interval ≤ interval_bound o
unfolding round handle_answer set_interval new_interval
round-interval o t s h = ground (arith, h)

sleep-bound :
    (o : RunnerOptions) (t : Tick) (s : Loop)
    → s.interval ≤ interval_bound o
    → IsCallIn (interval_bound o) (slept (sleep_time o t s))
unfolding sleep_time
sleep-bound o t s h = ground (arith, h)

loop-intervals :
    (o : RunnerOptions) (ts : List Tick) (s : Loop)
    → s.interval ≤ interval_bound o
    → All (IsCallIn (interval_bound o)) (run_loop o ts s).0
unfolding run_loop
loop-intervals o [] s h = tt
loop-intervals o (t ∷ ts) s h =
    let h' = round-interval o t s h in
    elim (Bool-cases (round o t s).is_running) [
      | inl e ↦
          subst (λ u. All (IsCallIn (interval_bound o)) u.0) (sym (loop-running o t ts s e))
            (h, (sleep-bound o t (round o t s) h', loop-intervals o ts (round o t s) h'))
      | inr e ↦
          subst (λ u. All (IsCallIn (interval_bound o)) u.0) (sym (loop-ended o t ts s e)) (h, tt)
    ]

-- Whatever `intervalFn` returns, each interval that it is told, and each time that the runner sleeps
-- between two calls, is at most the largest of `intervalInit`, `interval` and `intervalMax`; only
-- after an error does the runner sleep for a second instead.
pub run-intervals :
    (o : RunnerOptions) (p : PartialOptions) (ts : List Tick)
    → All (IsCallIn (interval_bound (parse_options o p))) (run o p ts).0
unfolding run
run-intervals o p ts =
    loop-intervals (parse_options o p) ts (run_init (parse_options o p)) (omega arith)
