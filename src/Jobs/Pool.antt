-- ===== src/Jobs/Pool.antt =====
-- `PendingWorkPool` of packages/core/src/utils/concurrence/pendingWork.ts over the store of
-- dal/pendingWork.ts, whose works come in the order of the index by time and id. The concurrency is 1.
-- The handler and the check for completion are given: `S` is the state of the outside that they see.
pub mod Queue
pub mod Runs
pub mod Drained
use aleph_indexer_framework.Prelude.{
  ℕ, zero, suc, ◌+◌, ◌-◌, ◌≤◌, ◌≡◌, Bool, true, false, not, ◌&&◌, ◌||◌, List, [], ◌∷◌, ◌++◌, Option,
  none, some, any, keep, length, take, drop, max, min, ◌==◌, ltb, leb, if◌then◌else◌,
}

pub record PendingWork (T : Type 0) : Type 0 where
  pub id : ℕ
  pub time : ℕ
  pub payload : T

-- What the handler answers, and what it leaves of the outside; an error is `failed`.
pub data Answer : Type 0 where
  sleep : Option ℕ → Answer
  failed : Answer

-- The sleep time that a handler asks for: the least one counts.
abbrev pub min_sleep : ℕ → Answer → ℕ
min_sleep n (sleep none) = n
min_sleep n (sleep (some m)) = min n m
min_sleep n failed = n

abbrev pub is_failed : Answer → Bool
is_failed (sleep n) = false
is_failed failed = true

pub record PoolOptions (S T : Type 0) : Type 0 where
  pub interval : ℕ
  pub max_queue_size : Option ℕ
  pub chunk_size : ℕ
  pub handle_work : List (PendingWork T) → S → S × Answer
  pub check_complete : Option (PendingWork T → S → Bool)
  pub pre_check_complete : Bool

pub record Pool (T : Type 0) : Type 0 where
  pub works : List (PendingWork T)
  pub skip_sleep : Bool

abbrev pub max_timer_integer : ℕ
max_timer_integer = 2_147_483_647

module _ {T : Type 0} where
  abbrev pub has_work : ℕ → List (PendingWork T) → Bool
  has_work i ws = any (λ w. i == w.id) ws

  abbrev pub comes_before : PendingWork T → PendingWork T → Bool
  comes_before v w = ltb v.time w.time || (v.time == w.time && ltb v.id w.id)

  unfoldable pub insert_work : PendingWork T → List (PendingWork T) → List (PendingWork T)
  insert_work w [] = w ∷ []
  insert_work w (v ∷ vs) =
      let rest = insert_work w vs in if comes_before w v then w ∷ v ∷ vs else v ∷ rest

  -- The check of the store: a work that is stored already keeps its time, and its payload is what
  -- `merge` makes of the two. Where the check is to keep the stored work, `merge` gives the payload of it.
  unfoldable pub merge_work :
      (T → T → T) → PendingWork T → List (PendingWork T) → List (PendingWork T)
  merge_work merge w [] = []
  merge_work merge w (v ∷ vs) =
      let rest = merge_work merge w vs in
      if w.id == v.id then record v { payload = merge v.payload w.payload } ∷ vs else v ∷ rest

  abbrev pub save_work : (T → T → T) → PendingWork T → List (PendingWork T) → List (PendingWork T)
  save_work merge w ws = if has_work w.id ws then merge_work merge w ws else insert_work w ws

  unfoldable pub save_works :
      (T → T → T) → List (PendingWork T) → List (PendingWork T) → List (PendingWork T)
  save_works merge [] ws = ws
  save_works merge (v ∷ vs) ws = save_works merge vs (save_work merge v ws)

  abbrev pub remove_works : List (PendingWork T) → List (PendingWork T) → List (PendingWork T)
  remove_works vs ws = keep (λ w. not (has_work w.id vs)) ws

-- addWork for `maxQueueSize`: the pool, and whether the error QueueFullError is thrown. A size of 0 is no
-- limit.
abbrev pub is_over : Option ℕ → ℕ → Bool
is_over none count = false
is_over (some n) count = not (n == 0) && ltb n count

module _ {T : Type 0} where
  unfoldable pub add_work : (T → T → T) → Option ℕ → List (PendingWork T) → Pool T → Pool T × Bool
  add_work merge size [] p = (p, false)
  add_work merge size (w ∷ ws) p =
      if is_over size (length p.works + length (w ∷ ws))
      then (p, true)
      else (record { works = save_works merge (w ∷ ws) p.works; skip_sleep = true }, false)

  -- removeWork
  abbrev pub remove_work : List (PendingWork T) → Pool T → Pool T
  remove_work ws p = record p { works = remove_works ws p.works }

module _ {S T : Type 0} (o : PoolOptions S T) where
  -- checkComplete: the works that are not complete stay.
  abbrev pub is_complete : S → PendingWork T → Bool
  is_complete s w = elim o.check_complete [ none ↦ false | some check ↦ check w s ]

  abbrev pub pending_works : S → List (PendingWork T) → List (PendingWork T)
  pending_works s ws = keep (λ w. not (is_complete s w)) ws

  abbrev pub check_works : S → List (PendingWork T) → Pool T → Pool T
  check_works s ws p = remove_work (keep (is_complete s) ws) p

-- The variables of a run: the pool, the outside, `minSleepTimeRef` and whether the run has thrown.
pub record PoolRun (S T : Type 0) : Type 0 where
  pub pool : Pool T
  pub outside : S
  pub min_sleep_time : ℕ
  pub thrown : Bool

module _ {S T : Type 0} (o : PoolOptions S T) where
  -- The promise of one chunk, from the check before it on.
  abbrev pub handle_works : List (PendingWork T) → PoolRun S T → PoolRun S T
  handle_works ws r =
      let a = o.handle_work ws r.outside in
      record {
        pool = check_works o a.0 ws r.pool;
        outside = a.0;
        min_sleep_time = min_sleep r.min_sleep_time a.1;
        thrown = is_failed a.1;
      }

  unfoldable pub handle_pending : List (PendingWork T) → PoolRun S T → PoolRun S T
  handle_pending [] r = r
  handle_pending (w ∷ ws) r = handle_works (w ∷ ws) r

  -- With or without the check before the handler.
  unfoldable pub run_checked : Bool → List (PendingWork T) → PoolRun S T → PoolRun S T
  run_checked true ws r =
      handle_pending (pending_works o r.outside ws)
        (record r { pool = check_works o r.outside ws r.pool })
  run_checked false ws r = handle_pending ws r

  abbrev pub run_chunk : List (PendingWork T) → PoolRun S T → PoolRun S T
  run_chunk ws r = run_checked o.pre_check_complete ws r

  -- loadPendingWork takes one work at least.
  abbrev pub chunk_length : ℕ
  chunk_length = max o.chunk_size 1

  -- The rounds of the generator over the works that the index had at the start; `none` where the fuel
  -- is used up. A chunk of fewer works than `chunkSize` is the last, so at a size of 0 an empty chunk is
  -- not, and the rounds do not end.
  unfoldable pub run_chunks : ℕ → List (PendingWork T) → PoolRun S T → Option (PoolRun S T)
  run_chunks zero stream r = none
  run_chunks (suc fuel) stream r =
      let chunk = take chunk_length stream in
      let r' = run_chunk chunk r in
      let rest = run_chunks fuel (drop chunk_length stream) r' in
      let again = run_chunks fuel [] r in
      if length chunk == 0
      then (if ltb 0 o.chunk_size then some r else again)
      else if r'.thrown || ltb (length chunk) o.chunk_size
      then some r'
      else rest

  -- The sleep that runJob returns; `none` is no sleep time where the job is debounced, and where the run
  -- throws.
  abbrev pub sleep_of : PoolRun S T → Option ℕ
  sleep_of r =
      if r.pool.skip_sleep
      then some 0
      else if r.min_sleep_time == max_timer_integer
      then (if o.interval == 0 then none else some o.interval)
      else some r.min_sleep_time

  -- runJob. An error leaves skipSleep as it is.
  abbrev pub finish_run : PoolRun S T → PoolRun S T × Option ℕ
  finish_run r =
      if r.thrown
      then (r, none)
      else (record r { pool = record { works = r.pool.works; skip_sleep = false } }, sleep_of r)

  unfoldable pub run_job : ℕ → Pool T → S → Option (PoolRun S T × Option ℕ)
  run_job fuel p s =
      elim (run_chunks fuel p.works
        (record { pool = p; outside = s; min_sleep_time = max_timer_integer; thrown = false })) [
          | none ↦ none
          | some r ↦ some (finish_run r)
        ]
